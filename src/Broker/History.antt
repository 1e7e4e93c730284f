-- ===== src/Broker/History.antt =====
-- internal/supervisor/events.go: every operation of the broker keeps the subscriptions exact.
use mathlib.Core.List.{append_assoc, append-nil}
use kanedias.Base.{
  ℕ, suc, ◌+◌, ◌≡◌, refl, ◌<◌, ◌≤◌, ◌⊎◌, inl, inr, List, [], ◌∷◌, ◌++◌, Bool, true, false, ◌||◌,
  ◌==◌, some, arith, Bool-cases, Option-cases, if-cases, Result-cases, u64, length, String, ok,
}
use kanedias.Event.{EventEnvelope, seqs}
use kanedias.Mailbox.{Mailbox, Limits, new, empty}
use kanedias.Mailbox.System.{Action, start, spawn, sends, closes, aborts}
use kanedias.Broker.{
  EventBroker, EventBrokerOptions, retain, number_source, new_event_broker_with_options,
}
use kanedias.Broker.Ring.{Retains, retain-Retains, upto}
use kanedias.Broker.World.{
  World, Slot, Op, publishes_local, forwards, subscribes, unsubscribes, shuts, moves, update,
  act_on, deliver, publish, subscribe, remove_subscriber, close, move, step, run, initial, is_inner,
  deliver_to, Subscription, local_event, attach, mailbox_limits, subscription_id, drop_subscriber,
}
use kanedias.Broker.Subs.{
  has, Paired, drop_subscribers-Paired, drop_subscriber-Paired, has-drop_subscriber_le,
  insert-Paired, has-insert,
}
use kanedias.Broker.Delivery.{
  Follows, update-Follows, act_all-Follows, act_on-Follows, deliver-Follows, is_send,
}

-- What holds between two operations.
pub record Inv (w : World) : Type 0 where
  pub retains : Retains w.broker w.log
  pub paired : Paired w.allocated w.subs
  pub numbered : w.next_sub_id ≡ u64 w.allocated
  pub follows : (a : ℕ) → Follows w.log (has a w.subs) (w.heap a)

-- A subscription that is no longer live.
fewer :
    (log : List EventEnvelope) (live still : Bool) (slot : Slot)
    → (still ≡ true → live ≡ true)
    → Follows log live slot
    → Follows log still slot
fewer log live still slot h f = record {
  before = f.before;
  after = f.after;
  stretch = f.stretch;
  cut = λ e. f.cut (h e);
  order = f.order;
}

ended :
    (log : List EventEnvelope) (live : Bool) (slot : Slot)
    → Follows log live slot
    → Follows log false slot
ended log live slot = fewer log live false slot (λ e. cc)

inner_not_send : (a : Action EventEnvelope) → is_inner a ≡ true → is_send a ≡ false
inner_not_send (sends v b) h = cc
inner_not_send closes h = refl
inner_not_send aborts h = refl
inner_not_send _ h = refl

deliver-Paired :
    (e : EventEnvelope) (w : World)
    → Paired w.allocated w.subs
    → Paired w.allocated (deliver e w).subs
unfolding deliver
deliver-Paired e w p = drop_subscribers-Paired w.allocated (deliver_to e w.subs w.heap).1 w.subs p

retain_subs :
    (event : EventEnvelope) (b : EventBroker)
    → ((retain event b).0.subs ≡ b.subs) × ((retain event b).0.next_sub_id ≡ b.next_sub_id)
unfolding retain
retain_subs event b = ground arith

publish-Inv : (event : EventEnvelope) (w : World) → Inv w → Inv (publish event w).0
unfolding publish
publish-Inv event w h =
    let (b, e) = retain event w.broker in
    let same = retain_subs event w.broker in
    let p : Paired w.allocated b.subs = rw same.0 h.paired in
    let f : (a : ℕ) → Follows w.log (has a b.subs) (w.heap a) = rw same.0 h.follows in
    let v : World = record w { broker = b; log = w.log ++ e ∷ [] } in
    record {
      retains = retain-Retains w.broker event w.log h.retains;
      paired = deliver-Paired e v p;
      numbered = rw same.1 h.numbered;
      follows = deliver-Follows w.allocated w.log e v p f;
    }

remove_subscriber-Inv : (id a : ℕ) (w : World) → Inv w → Inv (remove_subscriber id a w)
unfolding remove_subscriber
remove_subscriber-Inv id a w h = record {
  retains = h.retains;
  paired = drop_subscriber-Paired w.allocated id a w.subs h.paired;
  numbered = h.numbered;
  follows =
      update-Follows w.log (λ b. has b (drop_subscriber id a w.subs)) w.heap a
        (act_on aborts (w.heap a))
        (λ b.
          fewer w.log (has b w.subs) _ (w.heap b)
            (has-drop_subscriber_le w.allocated id b a w.subs h.paired) (h.follows b))
        (act_on-Follows w.log (has a (drop_subscriber id a w.subs)) (w.heap a) aborts refl (
          fewer w.log (has a w.subs) _ (w.heap a)
            (has-drop_subscriber_le w.allocated id a a w.subs h.paired) (h.follows a)));
}

close-Inv : (w : World) → Inv w → Inv (close w)
unfolding close
close-Inv w h =
    if-cases Inv w.closed _ _ (λ _. h)
      λ _. record {
        retains = h.retains;
        paired = tt;
        numbered = h.numbered;
        follows =
            act_all-Follows w.log (λ _. false) closes w.subs w.heap refl
              (λ a. ended w.log (has a w.subs) (w.heap a) (h.follows a));
      }

move-Inv : (a : ℕ) (action : Action EventEnvelope) (w : World) → Inv w → Inv (move a action w)
unfolding move
move-Inv a action w h = elim (Bool-cases (is_inner action)) [
  | inl inner ↦
      rw (inner, move)
        (record {
          retains = h.retains;
          paired = h.paired;
          numbered = h.numbered;
          follows =
              update-Follows w.log (λ b. has b w.subs) w.heap a (act_on action (w.heap a)) h.follows
                (act_on-Follows w.log (has a w.subs) (w.heap a) action (inner_not_send action inner)
                  (h.follows a));
        })
  | inr outer ↦ rw (outer, move) h
]

subscribe_cases :
    (w v : World) (s : Subscription)
    → subscribe w ≡ some (v, s)
    → (v ≡ w) ⊎ ((m : Mailbox EventEnvelope) × (new (mailbox_limits w) ≡ ok m) × (v ≡ attach m w))
unfolding subscribe
subscribe_cases w v s e = elim (Bool-cases w.closed) [
  | inl shut ↦ inl (ground arith)
  | inr live ↦ elim (Result-cases (new {A = EventEnvelope} (mailbox_limits w))) [
    | inl (x, bad) ↦ ground arith
    | inr (m, good) ↦ inr (m, good, ground arith)
  ]
]

attached-Follows :
    (m : Mailbox EventEnvelope) (w : World) (a : ℕ)
    → m.queue ≡ []
    → Inv w
    → Follows w.log
        (has a w.subs || w.allocated == a)
        (update w.heap w.allocated (record { replay = w.ring; system = spawn m }) a)
unfolding spawn
attached-Follows m w a fresh h = elim (Bool-cases (w.allocated == a)) [
  | inl here ↦ rw here (record {
    before = h.retains.older;
    after = [];
    stretch = simp append-nil h.retains.suffix;
    cut = λ _. refl;
    order = ([], refl, inr (rw fresh));
  })
  | inr there ↦ rw there (fewer w.log (has a w.subs) _ (w.heap a) (λ e. ground arith) (h.follows a))
]

attach-Inv :
    (m : Mailbox EventEnvelope) (w : World)
    → suc w.allocated < 18446744073709551616
    → m.queue ≡ []
    → Inv w
    → Inv (attach m w)
unfolding attach
attach-Inv m w few fresh h =
    let id : subscription_id w ≡ suc w.allocated = omega (arith, h.numbered) in
    record {
      retains = h.retains;
      paired = rw id (insert-Paired w.allocated w.subs h.paired);
      numbered = omega (arith, id);
      follows =
          rw id
            (λ a. rw (has-insert w.allocated a w.subs h.paired) (attached-Follows m w a fresh h));
    }

new-queue : (l : Limits) (m : Mailbox EventEnvelope) → new l ≡ ok m → m.queue ≡ []
unfolding new
new-queue l m h = ground arith

numbered-Inv :
    (session_id : String) (w : World)
    → Inv w
    → Inv (record w { broker = (number_source session_id w.broker).0 })
unfolding number_source
numbered-Inv s w h = record {
  retains = h.retains;
  paired = h.paired;
  numbered = h.numbered;
  follows = h.follows;
}

step-Inv : (w : World) (op : Op) → suc w.allocated < 18446744073709551616 → Inv w → Inv (step w op)
unfolding step
step-Inv w (publishes_local s k p) few h =
    if-cases {A = World × EventEnvelope} (λ r. Inv r.0) w.closed _ _ (λ _. h)
      λ _.
        publish-Inv (record (local_event s k p) { source_seq = (number_source s w.broker).1 })
          (record w { broker = (number_source s w.broker).0 }) (numbered-Inv s w h)
step-Inv w (forwards e) few h =
    if-cases {A = World × EventEnvelope} (λ r. Inv r.0) w.closed _ _ (λ _. h)
      (λ _. publish-Inv (record e { seq = 0 }) w h)
step-Inv w subscribes few h = elim (Option-cases (subscribe w)) [
  | inl panic ↦ rw (panic, step) h
  | inr (vs, e) ↦
      rw (e, step)
        (elim (subscribe_cases w vs.0 vs.1 e) [
          | inl same ↦ rw same h
          | inr (m, made, grown) ↦
              rw grown (attach-Inv m w few (new-queue (mailbox_limits w) m made) h)
        ])
]
step-Inv w (unsubscribes id a) few h = remove_subscriber-Inv id a w h
step-Inv w shuts few h = close-Inv w h
step-Inv w (moves a action) few h = move-Inv a action w h

step-allocated : (w : World) (op : Op) → (step w op).allocated ≤ suc w.allocated
unfolding step
step-allocated w (publishes_local s k p) = ground arith
step-allocated w (forwards e) = ground arith
step-allocated w subscribes = ground arith
step-allocated w (unsubscribes id a) = ground arith
step-allocated w shuts = ground arith
step-allocated w (moves a action) = ground arith

run-Inv :
    (w : World) (ops : List Op)
    → w.allocated + length ops < 18446744073709551616
    → Inv w
    → Inv (run w ops)
unfolding run
run-Inv w [] few h = h
run-Inv w (op ∷ ops) few h =
    run-Inv (step w op) ops (omega (arith, step-allocated w op)) (step-Inv w op (omega arith) h)

new_broker_empty :
    (options : EventBrokerOptions) (b : EventBroker)
    → new_event_broker_with_options options ≡ ok b
    → (b.ring ≡ []) × (b.ring_bytes ≡ 0) × (b.subs ≡ []) × (b.next_seq ≡ 0) × (b.next_sub_id ≡ 0)
unfolding new_event_broker_with_options
new_broker_empty options b e = ground arith

pub initial-Inv :
    (options : EventBrokerOptions) (b : EventBroker)
    → new_event_broker_with_options options ≡ ok b
    → Inv (initial b)
unfolding initial start spawn empty
initial-Inv options b e =
    let (ring, bytes, subs, seq, id) = new_broker_empty options b e in
    record {
      retains = record {
        counted = rw (ring, bytes);
        within = rw (ring, bytes) (ground arith);
        older = [];
        suffix = ring;
        numbered = refl;
        silent = inr ring;
        next = rw seq;
      };
      paired = rw subs tt;
      numbered = rw id;
      follows = λ a. record {
        before = [];
        after = [];
        stretch = refl;
        cut = λ _. refl;
        order = ([], refl, inr refl);
      };
    }

-- From a new broker, under any operations and any moves of the mailboxes, with fewer than 2 ^ 64
-- of them: the ring is the end of the history within its limits, the history is numbered from 1
-- without a gap, and every subscription that is live has been sent exactly what was published
-- since its replay.
pub run-initial-Inv :
    (options : EventBrokerOptions) (b : EventBroker) (ops : List Op)
    → new_event_broker_with_options options ≡ ok b
    → length ops < 18446744073709551616
    → Inv (run (initial b) ops)
unfolding initial
run-initial-Inv options b ops e few =
    run-Inv (initial b) ops (omega arith) (initial-Inv options b e)

-- What a subscriber has seen, its replay and then what its consumer received, is a stretch of the
-- history without a gap, a repetition or a change of order: from a new broker, under fewer than
-- 2 ^ 64 operations and moves, at every address, and the history is numbered from 1 modulo 2 ^ 64.
pub subscriber_sees_stretch :
    (options : EventBrokerOptions) (b : EventBroker) (ops : List Op) (a : ℕ)
    → new_event_broker_with_options options ≡ ok b
    → length ops < 18446744073709551616
    → let w = run (initial b) ops in
      (before : List EventEnvelope) × (after : List EventEnvelope) × (before
          ++ (((w.heap a).replay ++ (w.heap a).system.received) ++ after)
        ≡ w.log)
      × (seqs w.log ≡ upto (length w.log))
subscriber_sees_stretch options b ops a e few =
    let h = run-initial-Inv options b ops e few in
    let f = h.follows a in
    let (rest, whole, _) = f.order in
    (f.before, rest ++ f.after, rw (← f.stretch, ← whole) (simp append_assoc), h.retains.numbered)
