-- ===== src/Mailbox/System.antt =====
-- internal/eventmailbox/mailbox.go: `dispatch`, as a goroutine that interleaves with the callers of
-- `Send`, `Close` and `Abort`. Each action is one critical section or one channel operation.
use kanedias.Base.{
  ℕ, suc, ◌-◌, ◌*◌, Bool, false, List, [], ◌∷◌, ◌++◌, none, some, ltb, if◌then◌else◌, ℤ,
}
use kanedias.Mailbox.{
  Mailbox, Entry, empty, send, close, abort, signal, finish, clear_queue, take_head, is_aborted,
  is_draining,
}

-- Where `dispatch` stands: at the top of its loop, in the select on an empty queue, in
-- `waitForProbe`, or returned.
pub data Place : Type 0 where
  top idle waiting exited : Place

-- Microseconds.
abbrev pub initial_delivery_probe_delay : ℕ
initial_delivery_probe_delay = 100

abbrev pub max_delivery_probe_delay : ℕ
max_delivery_probe_delay = 10000

-- `retry_delay` is the local variable of `dispatch`; `pending` counts the callers that have left
-- their critical section and not yet called `signal`. `sent` and `received` are the history: the
-- values that `Send` accepted, and those that the consumer took from the channel.
pub record System {ℓ} (A : Type ℓ) : Type ℓ where
  pub mailbox : Mailbox A
  pub open mailbox use *
  pub place : Place
  pub retry_delay : ℕ
  pub pending : ℕ
  pub sent : List A
  pub received : List A

-- `sends` to `signals` are steps of the callers. `probes ready` is a round of the dispatch loop,
-- where `ready` is whether a consumer waits at the channel. `wakes`, `sees_abort` and `ticks` are
-- the cases of the selects.
pub data Action {ℓ} (A : Type ℓ) : Type ℓ where
  sends : A → ℤ → Action A
  closes aborts signals : Action A
  probes : Bool → Action A
  wakes sees_abort ticks : Action A

-- The step of the retry delay after a probe that found no consumer.
unfoldable pub next_delay : ℕ → ℕ
next_delay d =
    if ltb d max_delivery_probe_delay
    then (if ltb max_delivery_probe_delay (d * 2) then max_delivery_probe_delay else d * 2)
    else d

module _ {ℓ} {A : Type ℓ} where
  -- A mailbox whose dispatcher starts.
  unfoldable pub spawn : Mailbox A → System A
  spawn m = record {
    mailbox = m;
    place = top;
    retry_delay = initial_delivery_probe_delay;
    pending = 0;
    sent = [];
    received = [];
  }

  unfoldable pub start : ℕ → ℕ → System A
  unfolding empty spawn
  start max_events max_bytes = spawn (empty max_events max_bytes)

  unfoldable pub send_step : A → ℤ → System A → System A
  unfolding send
  send_step value retained s =
      let (m, failure) = send value retained s.mailbox in
      elim failure [
        | none ↦ record s { mailbox = m; pending = suc s.pending; sent = s.sent ++ value ∷ [] }
        | some e ↦ record s { mailbox = m }
      ]

  -- The loop's critical section on a queue that is not empty.
  unfoldable pub offer : Bool → Entry A → List (Entry A) → System A → System A
  unfolding take_head
  offer ready head rest s =
      if ready
      then record s {
        mailbox = take_head head rest s.mailbox;
        retry_delay = initial_delivery_probe_delay;
        received = s.received ++ head.value ∷ [];
      }
      else record s { place = waiting }

  -- One round of the loop of `dispatch`, from its top.
  unfoldable pub round : Bool → System A → System A
  unfolding offer finish clear_queue
  round ready s =
      if is_aborted s.state
      then record s { mailbox = finish (clear_queue s.mailbox); place = exited }
      else elim s.queue [
        | [] ↦
            if is_draining s.state
            then record s { mailbox = finish s.mailbox; place = exited }
            else record s { place = idle; retry_delay = initial_delivery_probe_delay }
        | head ∷ rest ↦ offer ready head rest s
      ]

  -- The end of a wait. After `waitForProbe` the delay grows.
  unfoldable pub resume : System A → Place → System A
  unfolding next_delay
  resume s idle = record s { place = top }
  resume s waiting = record s { place = top; retry_delay = next_delay s.retry_delay }
  resume s _ = s

  -- A receive from wake.
  unfoldable pub take_token : System A → Place → System A
  unfolding resume
  take_token s top = s
  take_token s exited = s
  take_token s p = resume (record s { mailbox = record s.mailbox { wake = false } }) p

  -- An action whose place or channel is not ready changes nothing.
  unfoldable pub act : System A → Action A → System A
  unfolding send_step round resume take_token close abort signal
  act s (sends value retained) = send_step value retained s
  act s closes = record s { mailbox = close s.mailbox; pending = suc s.pending }
  act s aborts = record s { mailbox = abort s.mailbox; pending = suc s.pending }
  act s signals =
      if ltb 0 s.pending
      then record s { mailbox = signal s.mailbox; pending = s.pending - 1 }
      else s
  act s (probes ready) = elim s.place [ top ↦ round ready s | _ ↦ s ]
  act s wakes = if s.wake then take_token s s.place else s
  act s sees_abort = if ltb 0 s.abort_closes then resume s s.place else s
  act s ticks = elim s.place [ waiting ↦ resume s waiting | _ ↦ s ]

  unfoldable pub run : System A → List (Action A) → System A
  run s [] = s
  run s (a ∷ actions) = run (act s a) actions
