-- ===== src/Mailbox/Tests.antt =====
-- internal/eventmailbox/mailbox.go on a small schedule.
use kanedias.Base.{
  ℕ, ◌≡◌, refl, inr, List, [], ◌∷◌, ◌++◌, arith, true, false, none, some, pos, negsuc,
}
use kanedias.Mailbox.{Limits, opened, full, empty, send, enqueue}
use kanedias.Mailbox.Send.{send_fails_unchanged, send-none_iff, send-enqueue}
use kanedias.Mailbox.System.{
  Action, exited, start, act, run, sends, closes, aborts, signals, probes, wakes, sees_abort,
}
use kanedias.Mailbox.Bounds.{Inv, run-start-Inv}
use kanedias.Mailbox.Order.{Ordered, run-start-Ordered}
use kanedias.Mailbox.Wake.{run-start-Awake}
use kanedias.Mailbox.Drain.{rounds, close_delivers_all, abort_exits}

abbrev seven : ℕ
seven = 7

-- Two events are sent while the dispatcher sleeps; it wakes and delivers the first.
abbrev schedule : List (Action ℕ)
schedule =
    probes false
    ∷ sends 5 (pos 10)
    ∷ signals
    ∷ sends 6 (pos 20)
    ∷ signals
    ∷ wakes
    ∷ probes true
    ∷ []

schedule_receives : (run (start 2 100) schedule).received ≡ 5 ∷ []
unfolding run act start
schedule_receives = refl

schedule_refuses : (send seven (pos 90) (run (start 2 100) schedule).mailbox).1 ≡ some full
unfolding run act start send
schedule_refuses = refl

abbrev limits : Limits
limits = record { max_events = pos 2; max_bytes = pos 100 }

send_fails_unchanged_test : (send seven (negsuc 0) (empty 2 100)).0 ≡ empty 2 100
unfolding send
send_fails_unchanged_test = send_fails_unchanged seven (negsuc 0) (empty 2 100) (λ e. cc)

send-none_iff_test : (send seven (pos 100) (empty 2 100)).1 ≡ none
unfolding empty
send-none_iff_test =
    (send-none_iff 7 100 (empty 2 100)).1 (refl, inr (omega arith), inr (omega arith))

send-enqueue_example : (send seven (pos 100) (empty 2 100)).0 ≡ enqueue 7 100 (empty 2 100)
unfolding send empty
send-enqueue_example = send-enqueue 7 (pos 100) (empty 2 100) refl

run-start-Ordered_example : Ordered (run (start 2 100) schedule)
run-start-Ordered_example = run-start-Ordered 2 100 schedule

run-start-Inv_example : Inv (run (start 2 100) schedule)
run-start-Inv_example = run-start-Inv 2 100 schedule

-- The dispatcher sleeps again when both events are out.
abbrev rest : List (Action ℕ)
rest = probes true ∷ wakes ∷ probes true ∷ wakes ∷ probes true ∷ []

run-start-Awake_example :
    let s = run (start 2 100) (schedule ++ rest) in (s.queue ≡ []) × (s.state ≡ opened)
unfolding run act start
run-start-Awake_example = run-start-Awake 2 100 (schedule ++ rest) refl refl refl refl

close_delivers_all_example :
    let s = run (start 2 100) schedule in
    let t = run s (closes ∷ rounds 2) in (t.place ≡ exited) × (t.received ≡ s.sent)
unfolding run act start
close_delivers_all_example = close_delivers_all 2 100 schedule refl refl

abort_exits_test :
    let s = run (start 2 100) schedule in
    let t = run s (aborts ∷ sees_abort ∷ probes true ∷ []) in
    (t.place ≡ exited) × (t.queue ≡ []) × (t.received ≡ s.received)
abort_exits_test = abort_exits 2 100 schedule true
