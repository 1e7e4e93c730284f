-- ===== src/Mailbox/Drain.antt =====
-- internal/eventmailbox/mailbox.go: how a mailbox ends, by `Close` and by `Abort`.
use mathlib.Core.List.{append_assoc, append-nil}
use kanedias.Base.{ℕ, zero, suc, ◌≡◌, ◌∙◌, List, [], ◌∷◌, ◌++◌, arith, Bool, true, length}
use kanedias.Mailbox.{Entry, opened, draining}
use kanedias.Mailbox.Bounds.{run-start-Inv}
use kanedias.Mailbox.Order.{values, run-start-Ordered}
use kanedias.Mailbox.System.{
  System, Action, top, exited, start, act, run, closes, aborts, probes, sees_abort,
}

-- `n` rounds of the loop, with a consumer at the channel.
abbrev pub rounds : {A : Type 0} → ℕ → List (Action A)
rounds zero = []
rounds (suc n) = probes true ∷ rounds n

module _ {A : Type 0} where
  drain :
      (q : List (Entry A)) (s : System A)
      → s.queue ≡ q
      → s.place ≡ top
      → s.state ≡ draining
      → let t = run s (rounds (suc (length q))) in
        (t.place ≡ exited) × (t.received ≡ s.received ++ values q)
  unfolding run act
  drain [] s e p d = ground (arith, append-nil s.received)
  drain (head ∷ q) s e p d =
      let s' = act s (probes true) in
      let ih = drain q s' (ground arith) (ground arith) (ground arith) in
      let got : s'.received ≡ s.received ++ head.value ∷ [] = ground arith in
      (ih.0, ih.1 ∙ rw got (append_assoc s.received (head.value ∷ []) (values q)))

  -- `Close` loses nothing: from a new mailbox, under every schedule, if the mailbox is open and the
  -- dispatcher is at the top of its loop, then after `Close` as many rounds as there are queued
  -- events, and one more, with a consumer at the channel, end the dispatcher, and the consumer
  -- has received exactly the values that `Send` accepted.
  pub close_delivers_all :
      (max_events max_bytes : ℕ) (actions : List (Action A))
      → let s = run (start max_events max_bytes) actions in
        s.place ≡ top
        → s.state ≡ opened
        → let t = run s (closes ∷ rounds (suc (length s.queue))) in
          (t.place ≡ exited) × (t.received ≡ s.sent)
  unfolding run act
  close_delivers_all n k actions p o =
      let s = run (start n k) actions in
      let s' = act s closes in
      let (rest, e, h) = run-start-Ordered n k actions in
      let ended = drain s.queue s' (ground arith) (ground arith) (ground arith) in
      let whole : s.received ++ values s.queue ≡ s.sent = ground arith in (ended.0, ended.1 ∙ whole)

  -- `Abort` ends the dispatcher wherever it stands: from a new mailbox, under every schedule, once
  -- the select on abort fires and the loop comes round, it has returned, the queue is empty and
  -- the consumer has received nothing more.
  pub abort_exits :
      (max_events max_bytes : ℕ) (actions : List (Action A)) (ready : Bool)
      → let s = run (start max_events max_bytes) actions in
        let t = run s (aborts ∷ sees_abort ∷ probes ready ∷ []) in
        (t.place ≡ exited) × (t.queue ≡ []) × (t.received ≡ s.received)
  unfolding run act
  abort_exits n k actions ready = ground (arith, run-start-Inv n k actions)
