-- ===== src/Broker/Delivery.antt =====
-- internal/supervisor/events.go: what a subscription has been given, against the history.
use mathlib.Core.List.{append_assoc, append-nil}
use mathlib.Core.Path.{subst}
use kanedias.Base.{
  ℕ, ◌≡◌, refl, inl, inr, List, [], ◌∷◌, ◌++◌, Bool, true, false, ◌&&◌, ◌==◌, arith, Bool-cases,
  Option-cases, pos, ==_iff,
}
use kanedias.Event.{EventEnvelope, retained_event_bytes}
use kanedias.Mailbox.{send}
use kanedias.Mailbox.System.{
  System, Action, act, send_step, sends, closes, aborts, signals, probes, wakes, sees_abort, ticks,
}
use kanedias.Mailbox.Order.{Ordered, act-Ordered, sends-Ordered}
use kanedias.Broker.World.{
  World, Slot, update, accepts, send_to, act_on, deliver_to, deliver, act_all, drop_subscribers,
}
use kanedias.Broker.Subs.{
  has, Paired, deliver_to-heap, deliver_to-overflowed, has-drop_subscribers, overflowed-Paired,
}

-- The replay and the events sent to the mailbox are a stretch of the history without a gap, which
-- reaches to its end as long as the subscription is live. The consumer has a prefix of them.
pub record Follows (log : List EventEnvelope) (live : Bool) (slot : Slot) : Type 0 where
  pub before : List EventEnvelope
  pub after : List EventEnvelope
  pub stretch : before ++ ((slot.replay ++ slot.system.sent) ++ after) ≡ log
  pub cut : live ≡ true → after ≡ []
  pub order : Ordered slot.system

-- An action other than a send leaves what was sent.
abbrev pub is_send : Action EventEnvelope → Bool
is_send (sends v b) = true
is_send _ = false

act-sent :
    (s : System EventEnvelope) (a : Action EventEnvelope)
    → is_send a ≡ false
    → (act s a).sent ≡ s.sent
unfolding act
act-sent s (sends v b) h = cc
act-sent s closes h = refl
act-sent s aborts h = refl
act-sent s signals h = ground arith
act-sent s (probes ready) h = ground arith
act-sent s wakes h = ground arith
act-sent s sees_abort h = ground arith
act-sent s ticks h = ground arith

-- Aborting, closing and inner moves keep a subscription's stretch.
pub act_on-Follows :
    (log : List EventEnvelope) (live : Bool) (slot : Slot) (a : Action EventEnvelope)
    → is_send a ≡ false
    → Follows log live slot
    → Follows log live (act_on a slot)
unfolding act_on
act_on-Follows log live slot a h f = record {
  before = f.before;
  after = f.after;
  stretch = rw (act-sent slot.system a h) f.stretch;
  cut = f.cut;
  order = act-Ordered slot.system a f.order;
}

sent_stretch :
    (e : EventEnvelope) (before replay sent after log : List EventEnvelope)
    → after ≡ []
    → before ++ ((replay ++ sent) ++ after) ≡ log
    → before ++ ((replay ++ (sent ++ e ∷ [])) ++ []) ≡ log ++ e ∷ []
sent_stretch e before replay sent after log h k = rw (← k, h) (simp (append_assoc, append-nil))

refused_stretch :
    (e : EventEnvelope) (before replay sent after log : List EventEnvelope)
    → after ≡ []
    → before ++ ((replay ++ sent) ++ after) ≡ log
    → before ++ ((replay ++ sent) ++ e ∷ []) ≡ log ++ e ∷ []
refused_stretch e before replay sent after log h k = rw (← k, h) (simp (append_assoc, append-nil))

-- A send to a live subscription: the event becomes the end of its stretch, or it is refused, and
-- the subscription is no longer live.
pub send_to-Follows :
    (log : List EventEnvelope) (slot : Slot) (e : EventEnvelope)
    → Follows log true slot
    → Follows (log ++ e ∷ []) (accepts e slot) (send_to e slot)
unfolding send_to accepts send_step
send_to-Follows log slot e f =
    let b = pos (retained_event_bytes e) in
    let order = sends-Ordered slot.system e b f.order in
    elim (Option-cases (send e b slot.system.mailbox).1) [
      | inl taken ↦ record {
        before = f.before;
        after = [];
        stretch =
            rw (taken, send_step)
              (sent_stretch e f.before slot.replay slot.system.sent f.after log (f.cut refl)
                f.stretch);
        cut = λ _. refl;
        order = order;
      }
      | inr (x, refused) ↦ record {
        before = f.before;
        after = e ∷ [];
        stretch =
            rw (refused, send_step)
              (refused_stretch e f.before slot.replay slot.system.sent f.after log (f.cut refl)
                f.stretch);
        cut = λ h. ground arith;
        order = order;
      }
    ]

pub extend-Follows :
    (log : List EventEnvelope) (slot : Slot) (e : EventEnvelope)
    → Follows log false slot
    → Follows (log ++ e ∷ []) false slot
extend-Follows log slot e f = record {
  before = f.before;
  after = f.after ++ e ∷ [];
  stretch = rw (← f.stretch) (simp append_assoc);
  cut = λ h. cc;
  order = f.order;
}

pub update-Follows :
    (log : List EventEnvelope) (live : ℕ → Bool) (heap : ℕ → Slot) (b : ℕ) (slot : Slot)
    → ((a : ℕ) → Follows log (live a) (heap a))
    → Follows log (live b) slot
    → (a : ℕ) → Follows log (live a) (update heap b slot a)
update-Follows log live heap b slot f g a = elim (Bool-cases (b == a)) [
  | inl here ↦ rw here (subst (λ x. Follows log (live x) slot) ((==_iff b a).0 here) g)
  | inr there ↦ rw there (f a)
]

pub act_all-Follows :
    (log : List EventEnvelope) (live : ℕ → Bool) (action : Action EventEnvelope)
    (targets : List (ℕ × ℕ)) (heap : ℕ → Slot)
    → is_send action ≡ false
    → ((a : ℕ) → Follows log (live a) (heap a))
    → (a : ℕ) → Follows log (live a) (act_all action targets heap a)
unfolding act_all
act_all-Follows log live action [] heap h f a = f a
act_all-Follows log live action ((id, b) ∷ targets) heap h f a =
    act_all-Follows log live action targets (update heap b (act_on action (heap b))) h
      (update-Follows log live heap b (act_on action (heap b)) f
        (act_on-Follows log (live b) (heap b) action h (f b)))
      a

-- The mailboxes after the sending loop of `deliver`.
sent-Follows :
    (n : ℕ) (log : List EventEnvelope) (e : EventEnvelope) (subs : List (ℕ × ℕ)) (heap : ℕ → Slot)
    → Paired n subs
    → ((a : ℕ) → Follows log (has a subs) (heap a))
    → (a : ℕ)
    → Follows (log ++ e ∷ []) (has a subs && accepts e (heap a)) ((deliver_to e subs heap).0 a)
sent-Follows n log e subs heap p f a =
    rw (deliver_to-heap n a e subs heap p) (elim (Bool-cases (has a subs)) [
      | inl live ↦ rw live (send_to-Follows log (heap a) e (rw live at (f a)))
      | inr gone ↦ rw gone (extend-Follows log (heap a) e (rw gone at (f a)))
    ])

still_live :
    (n a : ℕ) (e : EventEnvelope) (subs : List (ℕ × ℕ)) (heap : ℕ → Slot)
    → Paired n subs
    → has a (drop_subscribers (deliver_to e subs heap).1 subs) ≡ (has a subs && accepts e (heap a))
still_live n a e subs heap p =
    let lost = (deliver_to e subs heap).1 in
    ground (
      arith,
      has-drop_subscribers n a lost subs (overflowed-Paired n e subs heap p) p,
      deliver_to-overflowed n a e subs heap p,
    )

pub deliver-Follows :
    (n : ℕ) (log : List EventEnvelope) (e : EventEnvelope) (w : World)
    → Paired n w.subs
    → ((a : ℕ) → Follows log (has a w.subs) (w.heap a))
    → (a : ℕ) → Follows (log ++ e ∷ []) (has a (deliver e w).subs) ((deliver e w).heap a)
unfolding deliver
deliver-Follows n log e w p f a = rw (still_live n a e w.subs w.heap p) (
    act_all-Follows (log ++ e ∷ []) (λ b. has b w.subs && accepts e (w.heap b)) aborts
      (deliver_to e w.subs w.heap).1 (deliver_to e w.subs w.heap).0 refl
      (sent-Follows n log e w.subs w.heap p f) a)
