-- ===== src/Mailbox/Order.antt =====
-- internal/eventmailbox/mailbox.go: what the consumer receives, against what `Send` accepted.
use mathlib.Core.List.{append_assoc}
use kanedias.Base.{
  ℕ, ◌≡◌, refl, ap, ◌≢◌, ◌⊎◌, inl, inr, List, [], ◌∷◌, ◌++◌, map, arith, ℤ, Bool, true, false,
  Option-cases, to_ℕ, Bool-cases,
}
use kanedias.Mailbox.{Entry, aborted, send, enqueue, is_aborted}
use kanedias.Mailbox.Send.{send_fails_unchanged, send-enqueue}
use kanedias.Mailbox.System.{
  System, Action, Place, top, idle, waiting, exited, start, act, run, sends, closes, aborts,
  signals, probes, wakes, sees_abort, ticks, round, offer, send_step,
}

abbrev pub values : {A : Type 0} → List (Entry A) → List A
values = map (λ e. e.value)

-- The consumer has a prefix of what was sent; the rest is the queue, unless an abort emptied it.
abbrev pub Ordered : {A : Type 0} → System A → Type 0
Ordered {A} s =
    (rest : List A) × (s.received ++ rest ≡ s.sent)
    × ((s.state ≡ aborted) ⊎ (rest ≡ values s.queue))

module _ {A : Type 0} where
  values-append :
      (q : List (Entry A)) (e : Entry A) → values (q ++ e ∷ []) ≡ values q ++ e.value ∷ []
  values-append [] e = refl
  values-append (x ∷ q) e = ap (◌∷◌ x.value) (values-append q e)

  pub sends-Ordered : (s : System A) (v : A) (b : ℤ) → Ordered s → Ordered (send_step v b s)
  unfolding send_step enqueue
  sends-Ordered s v b (rest, e, h) = elim (Option-cases (send v b s.mailbox).1) [
    | inl sent ↦
        let grown = send-enqueue v b s.mailbox sent in
        (
          rest ++ v ∷ [],
          ground (arith, append_assoc s.received rest (v ∷ [])),
          ground (arith, values-append s.queue (record { value = v; bytes = to_ℕ b })),
        )
    | inr (x, failed) ↦
        let same = send_fails_unchanged v b s.mailbox (λ e. cc) in
        (rest, ground arith, ground arith)
  ]

  offer-Ordered :
      (s : System A) (ready : Bool) (head : Entry A) (tail : List (Entry A))
      → s.queue ≡ head ∷ tail
      → Ordered s
      → s.state ≢ aborted
      → Ordered (offer ready head tail s)
  unfolding offer
  offer-Ordered s true head tail q (rest, e, h) live = (
    values tail,
    ground (arith, append_assoc s.received (head.value ∷ []) (values tail)),
    inr refl,
  )
  offer-Ordered s false head tail q o live = o

  round-Ordered :
      (s : System A) (ready : Bool) (q : List (Entry A))
      → s.queue ≡ q
      → Ordered s
      → Ordered (round ready s)
  unfolding round
  round-Ordered s ready [] q (rest, e, h) = (rest, ground arith, ground arith)
  round-Ordered s ready (head ∷ tail) q (rest, e, h) = elim (Bool-cases (is_aborted s.state)) [
    | inl gone ↦ (rest, ground arith, ground arith)
    | inr live ↦ rw (live, q, round) (offer-Ordered s ready head tail q (rest, e, h) (ground arith))
  ]

  pub act-Ordered : (s : System A) (a : Action A) → Ordered s → Ordered (act s a)
  unfolding act
  act-Ordered s (sends v b) h = sends-Ordered s v b h
  act-Ordered s closes (r, e, h) = (r, e, ground arith)
  act-Ordered s aborts (r, e, h) = (r, ground arith, ground arith)
  act-Ordered s signals (r, e, h) = (r, ground arith, ground arith)
  act-Ordered s (probes ready) h = probe s.place refl
    where
      probe : (p : Place) → s.place ≡ p → Ordered (act s (probes ready))
      probe top e = rw (e, act) (round-Ordered s ready s.queue refl h)
      probe idle e = rw (e, act) h
      probe waiting e = rw (e, act) h
      probe exited e = rw (e, act) h
  act-Ordered s wakes (r, e, h) = (r, ground arith, ground arith)
  act-Ordered s sees_abort (r, e, h) = (r, ground arith, ground arith)
  act-Ordered s ticks (r, e, h) = (r, ground arith, ground arith)

  pub run-Ordered : (s : System A) (actions : List (Action A)) → Ordered s → Ordered (run s actions)
  unfolding run
  run-Ordered s [] h = h
  run-Ordered s (a ∷ actions) h = run-Ordered (act s a) actions (act-Ordered s a h)

  -- From a new mailbox, under every schedule of producers, consumer and dispatcher, the consumer
  -- has received a prefix of the values that `Send` accepted, in their order and each once; what
  -- is missing is the queue, unless `Abort` was called.
  pub run-start-Ordered :
      (max_events max_bytes : ℕ) (actions : List (Action A))
      → Ordered (run (start max_events max_bytes) actions)
  unfolding start
  run-start-Ordered n k actions = run-Ordered (start n k) actions ([], refl, inr refl)
