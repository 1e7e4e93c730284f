-- ===== src/Mailbox/Wake.antt =====
-- internal/eventmailbox/mailbox.go: `signal` and the select of an idle dispatcher.
use kanedias.Base.{ℕ, ◌<◌, ◌≡◌, ◌≢◌, ◌⊎◌, inl, inr, List, [], ◌∷◌, arith, true, false}
use kanedias.Mailbox.{opened}
use kanedias.Mailbox.System.{
  System, Action, idle, start, act, run, sends, closes, aborts, signals, probes, wakes, sees_abort,
  ticks,
}

-- A dispatcher that sleeps in its select will be woken, or has nothing to do.
abbrev pub Awake : {A : Type 0} → System A → Type 0
Awake s =
    (s.place ≢ idle)
    ⊎ (s.wake ≡ true)
    ⊎ (0 < s.pending)
    ⊎ (0 < s.abort_closes)
    ⊎ ((s.queue ≡ []) × (s.state ≡ opened))

module _ {A : Type 0} where
  act-Awake : (s : System A) (a : Action A) → Awake s → Awake (act s a)
  unfolding act
  act-Awake s (sends v b) h = ground arith
  act-Awake s closes h = inr (inr (inl (omega arith)))
  act-Awake s aborts h = inr (inr (inl (omega arith)))
  act-Awake s signals h = ground arith
  act-Awake s (probes ready) h = ground arith
  act-Awake s wakes h = ground arith
  act-Awake s sees_abort h = ground arith
  act-Awake s ticks h = ground arith

  run-Awake : (s : System A) (actions : List (Action A)) → Awake s → Awake (run s actions)
  unfolding run
  run-Awake s [] h = h
  run-Awake s (a ∷ actions) h = run-Awake (act s a) actions (act-Awake s a h)

  -- No wake-up is lost. From a new mailbox, under every schedule: if the dispatcher sleeps in its
  -- select, no token is in wake, no caller is about to signal and abort is open, then the queue is
  -- empty and the mailbox is open.
  pub run-start-Awake :
      (max_events max_bytes : ℕ) (actions : List (Action A))
      → let s = run (start max_events max_bytes) actions in
        s.place ≡ idle
        → s.wake ≡ false
        → s.pending ≡ 0
        → s.abort_closes ≡ 0
        → (s.queue ≡ []) × (s.state ≡ opened)
  unfolding start
  run-start-Awake n k actions p w c a =
      ground (arith, run-Awake (start n k) actions (inl (λ e. cc)))
