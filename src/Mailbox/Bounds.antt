-- ===== src/Mailbox/Bounds.antt =====
-- What holds of a mailbox at every moment: its limits, its byte count and its channels.
use kanedias.Base.{
  ℕ, ◌+◌, ◌≤◌, ◌<◌, ◌≡◌, List, [], ◌∷◌, ◌++◌, arith, length, length-append, to_ℕ, ◌≢◌,
}
use kanedias.Mailbox.{Entry, opened, aborted}
use kanedias.Mailbox.System.{
  System, Action, exited, start, act, run, sends, closes, aborts, signals, probes, wakes,
  sees_abort, ticks,
}

abbrev pub total_bytes {ℓ} : {A : Type ℓ} → List (Entry A) → ℕ
total_bytes [] = 0
total_bytes (e ∷ es) = e.bytes + total_bytes es

pub total_bytes-append {ℓ} :
    {A : Type ℓ} (xs ys : List (Entry A)) → total_bytes (xs ++ ys) ≡ total_bytes xs + total_bytes ys
total_bytes-append [] ys = omega arith
total_bytes-append (x ∷ xs) ys = omega (arith, total_bytes-append xs ys)

-- A limit of zero is no limit. The byte count is exact, an aborted mailbox is empty, and abort is
-- closed exactly by the move to that state; events and done are closed exactly by the exit.
pub record Inv {ℓ} {A : Type ℓ} (s : System A) : Type ℓ where
  pub counted : s.retained_bytes ≡ total_bytes s.queue
  pub few_events : 0 < s.max_events → length s.queue ≤ s.max_events
  pub few_bytes : 0 < s.max_bytes → s.retained_bytes ≤ s.max_bytes
  pub aborted_empty : s.state ≡ aborted → s.queue ≡ []
  pub abort_closed : s.state ≡ aborted → s.abort_closes ≡ 1
  pub abort_open : s.state ≢ aborted → s.abort_closes ≡ 0
  pub finish_closed : s.place ≡ exited → s.finishes ≡ 1
  pub finish_open : s.place ≢ exited → s.finishes ≡ 0
  pub exit_empty : s.place ≡ exited → s.queue ≡ []
  pub exit_stopped : s.place ≡ exited → s.state ≢ opened
  pub short_delay : (100 ≤ s.retry_delay) × (s.retry_delay ≤ 10000)

module _ {A : Type 0} where
  abbrev singleton : A → ℕ → List (Entry A)
  singleton v n = record { value = v; bytes = n } ∷ []

  start-Inv : (max_events max_bytes : ℕ) → Inv (start {A = A} max_events max_bytes)
  unfolding start
  start-Inv n k = ground arith

  act-Inv : (s : System A) (a : Action A) → Inv s → Inv (act s a)
  unfolding act
  act-Inv s (sends v b) h =
      let e = singleton v (to_ℕ b) in
      ground (arith, length-append s.queue e, total_bytes-append s.queue e)
  act-Inv s closes h = ground arith
  act-Inv s aborts h = ground arith
  act-Inv s signals h = ground arith
  act-Inv s (probes ready) h = ground arith
  act-Inv s wakes h = ground arith
  act-Inv s sees_abort h = ground arith
  act-Inv s ticks h = ground arith

  pub run-Inv : (s : System A) (actions : List (Action A)) → Inv s → Inv (run s actions)
  unfolding run
  run-Inv s [] h = h
  run-Inv s (a ∷ actions) h = run-Inv (act s a) actions (act-Inv s a h)

  -- From a new mailbox, under every schedule: the byte count is the sum over the queue, the limits
  -- that are set hold, an aborted mailbox is empty, no channel is closed twice, `dispatch` returns
  -- only from a mailbox that is closed and empty, and its delay stays from 100 µs to 10 ms.
  pub run-start-Inv :
      (max_events max_bytes : ℕ) (actions : List (Action A))
      → Inv (run (start max_events max_bytes) actions)
  run-start-Inv n k actions = run-Inv (start n k) actions (start-Inv n k)
