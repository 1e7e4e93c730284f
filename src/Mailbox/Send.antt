-- ===== src/Mailbox/Send.antt =====
-- internal/eventmailbox/mailbox.go: `New` and `Send`, branch by branch.
use kanedias.Base.{ℕ, ◌+◌, ◌≤◌, ◌<◌, ◌≡◌, ◌≢◌, none, arith, length, ℤ, pos, to_ℕ, ◌⊎◌, ◌↔◌}
use kanedias.Mailbox.{Mailbox, opened, send, enqueue}

module _ {A : Type 0} where
  -- A `Send` that fails leaves the mailbox as it was.
  pub send_fails_unchanged :
      (v : A) (b : ℤ) (m : Mailbox A) → (send v b m).1 ≢ none → (send v b m).0 ≡ m
  unfolding send
  send_fails_unchanged v b m h = ground arith

  -- A `Send` succeeds exactly when the byte count is not negative, the mailbox is open, and the
  -- limits that are set leave room for one event more and for its bytes.
  pub send-none_iff :
      (v : A) (n : ℕ) (m : Mailbox A)
      → ((send v (pos n) m).1 ≡ none) ↔ (
          (m.state ≡ opened)
          × ((m.max_events ≡ 0) ⊎ (length m.queue < m.max_events))
          × ((m.max_bytes ≡ 0) ⊎ (n + m.retained_bytes ≤ m.max_bytes)))
  unfolding send
  send-none_iff v n m = ground arith

  -- A `Send` that succeeds appends the value.
  pub send-enqueue :
      (v : A) (b : ℤ) (m : Mailbox A)
      → (send v b m).1 ≡ none
      → (send v b m).0 ≡ enqueue v (to_ℕ b) m
  unfolding send
  send-enqueue v b m h = ground arith
