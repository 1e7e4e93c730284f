-- ===== src/Broker/World.antt =====
-- internal/supervisor/events.go: the broker with the mailboxes of its subscribers, which live at
-- addresses, since a subscription keeps the mailbox that `subs` may have dropped.
use kanedias.Base.{
  ℕ, suc, ◌+◌, Bool, true, false, List, [], ◌∷◌, ◌++◌, Option, none, some, ◌==◌, if◌then◌else◌, pos,
  u64, String, lookup, insert, erase, nat_key, ok, err,
}
use kanedias.Event.{EventEnvelope, retained_event_bytes}
use kanedias.Mailbox.{Mailbox, Limits, new, send}
use kanedias.Mailbox.System.{System, Action, act, start, spawn, send_step, closes, aborts}
use kanedias.Broker.{EventBroker, retain, number_source}

-- A subscription: the replay that `Subscribe` returned, and its mailbox with its dispatcher.
pub record Slot : Type 0 where
  pub replay : List EventEnvelope
  pub system : System EventEnvelope

-- `allocated` mailboxes exist, at the addresses below it. `log` is the history of the events that
-- the broker has numbered.
pub record World : Type 0 where
  pub broker : EventBroker
  pub open broker use *
  pub heap : ℕ → Slot
  pub allocated : ℕ
  pub log : List EventEnvelope

abbrev pub update {ℓ} : {A : Type ℓ} → (ℕ → A) → ℕ → A → ℕ → A
update f i v j = if i == j then v else f j

-- `eventMailbox.send`: whether the mailbox took the event. `Send` fails here only by ErrFull or
-- ErrClosed, since the byte count is not negative.
unfoldable pub accepts : EventEnvelope → Slot → Bool
accepts event slot = elim (send event (pos (retained_event_bytes event)) slot.system.mailbox).1 [
  | none ↦ true
  | some e ↦ false
]

unfoldable pub send_to : EventEnvelope → Slot → Slot
send_to event slot = record slot {
  system = send_step event (pos (retained_event_bytes event)) slot.system;
}

unfoldable pub act_on : Action EventEnvelope → Slot → Slot
act_on action slot = record slot { system = act slot.system action }

-- The loop of `deliver`: the mailboxes after it, and the subscribers that overflowed.
unfoldable pub deliver_to : EventEnvelope → List (ℕ × ℕ) → (ℕ → Slot) → (ℕ → Slot) × List (ℕ × ℕ)
unfolding accepts send_to
deliver_to event [] heap = (heap, [])
deliver_to event ((id, a) ∷ subscribers) heap =
    let (heap', overflowed) =
      deliver_to event subscribers (update heap a (send_to event (heap a))) in
    (heap', if accepts event (heap a) then overflowed else (id, a) ∷ overflowed)

-- if broker.subs[id] == mailbox { delete(broker.subs, id) }
unfoldable pub drop_subscriber : ℕ → ℕ → List (ℕ × ℕ) → List (ℕ × ℕ)
drop_subscriber id a subs = elim (lookup id subs) [
  | none ↦ subs
  | some b ↦ if b == a then erase id subs else subs
]

unfoldable pub drop_subscribers : List (ℕ × ℕ) → List (ℕ × ℕ) → List (ℕ × ℕ)
unfolding drop_subscriber
drop_subscribers [] subs = subs
drop_subscribers ((id, a) ∷ overflowed) subs =
    drop_subscribers overflowed (drop_subscriber id a subs)

-- One action, `Abort` or `Close`, on the mailbox of each subscriber of a list.
unfoldable pub act_all : Action EventEnvelope → List (ℕ × ℕ) → (ℕ → Slot) → (ℕ → Slot)
unfolding act_on
act_all action [] heap = heap
act_all action ((id, a) ∷ subscribers) heap =
    act_all action subscribers (update heap a (act_on action (heap a)))

unfoldable pub deliver : EventEnvelope → World → World
unfolding deliver_to drop_subscribers act_all
deliver event w =
    let (heap, overflowed) = deliver_to event w.subs w.heap in
    record w {
      broker = record w.broker { subs = drop_subscribers overflowed w.subs };
      heap = act_all aborts overflowed heap;
    }

-- `retainLocked` and `deliver`, which both ways of publishing end with.
unfoldable pub publish : EventEnvelope → World → World × EventEnvelope
unfolding retain deliver
publish event w =
    let (broker, numbered) = retain event w.broker in
    (deliver numbered (record w { broker = broker; log = w.log ++ numbered ∷ [] }), numbered)

-- The event of `PublishLocal` before it is numbered.
abbrev pub local_event : String → String → List ℕ → EventEnvelope
local_event session_id kind payload = record {
  seq = 0;
  session_id = session_id;
  source_seq = 0;
  kind = kind;
  payload = payload;
}

unfoldable pub publish_local : String → String → List ℕ → World → World × EventEnvelope
unfolding publish number_source
publish_local session_id kind payload w =
    let event = local_event session_id kind payload in
    if w.closed
    then (w, event)
    else (let (broker, n) = number_source session_id w.broker in
        publish (record event { source_seq = n }) (record w { broker = broker }))

unfoldable pub forward : EventEnvelope → World → World × EventEnvelope
unfolding publish
forward source w =
    let event : EventEnvelope = record source { seq = 0 } in
    if w.closed then (w, event) else publish event w

-- What `Subscribe` returns: the replay, and the number and the address that `Close` and `Events`
-- use, or none where the broker is closed and the channel too.
abbrev pub Subscription : Type 0
Subscription = List EventEnvelope × Option (ℕ × ℕ)

-- The limits of a subscriber's mailbox.
abbrev pub mailbox_limits : World → Limits
mailbox_limits w = record { max_events = pos w.mail_cap; max_bytes = pos w.mail_byte_cap }

-- The number of the next subscription.
abbrev pub subscription_id : World → ℕ
subscription_id w = u64 (w.next_sub_id + 1)

-- A new mailbox is registered, with the ring as its replay.
unfoldable pub attach : Mailbox EventEnvelope → World → World
unfolding spawn
attach mailbox w = record w {
  broker = record w.broker {
    next_sub_id = subscription_id w;
    subs = insert (subscription_id w) w.allocated w.subs;
  };
  heap = update w.heap w.allocated (record { replay = w.ring; system = spawn mailbox });
  allocated = suc w.allocated;
}

-- none is the panic of `newEventMailbox`, where both limits of the mailboxes are zero.
unfoldable pub subscribe : World → Option (World × Subscription)
unfolding attach new
subscribe w =
    if w.closed then some (w, ([], none)) else elim (new {A = EventEnvelope} (mailbox_limits w)) [
      | err e ↦ none
      | ok mailbox ↦ some (attach mailbox w, (w.ring, some (subscription_id w, w.allocated)))
    ]

-- `removeSubscriber`, which `Subscription.Close` calls once.
unfoldable pub remove_subscriber : ℕ → ℕ → World → World
unfolding drop_subscriber act_on
remove_subscriber id a w = record w {
  broker = record w.broker { subs = drop_subscriber id a w.subs };
  heap = update w.heap a (act_on aborts (w.heap a));
}

unfoldable pub close : World → World
unfolding act_all
close w = if w.closed then w else record w {
  broker = record w.broker { closed = true; subs = [] };
  heap = act_all closes w.subs w.heap;
}

-- The actions that a mailbox takes on its own: its dispatcher, its consumer and pending signals.
abbrev pub is_inner : Action EventEnvelope → Bool
is_inner (Action.sends v b) = false
is_inner closes = false
is_inner aborts = false
is_inner _ = true

unfoldable pub move : ℕ → Action EventEnvelope → World → World
unfolding act_on
move a action w =
    if is_inner action then record w { heap = update w.heap a (act_on action (w.heap a)) } else w

pub data Op : Type 0 where
  publishes_local : String → String → List ℕ → Op
  forwards : EventEnvelope → Op
  subscribes : Op
  unsubscribes : ℕ → ℕ → Op
  shuts : Op
  moves : ℕ → Action EventEnvelope → Op

-- A `Subscribe` that panics leaves the world.
unfoldable pub step : World → Op → World
unfolding publish_local forward subscribe remove_subscriber close move
step w (publishes_local s k p) = (publish_local s k p w).0
step w (forwards e) = (forward e w).0
step w subscribes = elim (subscribe w) [ none ↦ w | some (v, sub) ↦ v ]
step w (unsubscribes id a) = remove_subscriber id a w
step w shuts = close w
step w (moves a action) = move a action w

unfoldable pub run : World → List Op → World
run w [] = w
run w (op ∷ ops) = run (step w op) ops

-- A broker before any operation.
unfoldable pub initial : EventBroker → World
initial broker = record {
  broker = broker;
  heap = λ _. record { replay = []; system = start 0 0 };
  allocated = 0;
  log = [];
}
