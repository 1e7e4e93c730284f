-- ===== src/Broker/Ring.antt =====
-- internal/supervisor/events.go: the ring of `retainLocked` against the history of the broker.
use mathlib.Core.List.{append_assoc, append-nil}
use kanedias.Base.{
  ℕ, zero, suc, ◌+◌, ◌-◌, ◌<◌, ◌≡◌, refl, sym, ap, ◌∙◌, ◌⊎◌, inl, inr, List, [], ◌∷◌, ◌++◌, arith,
  length, length-append, false, u64, Bool-cases, ltb, ◌||◌,
}
use kanedias.Event.{EventEnvelope, retained_event_bytes, sum_bytes, seqs}
use kanedias.Broker.{EventBroker, evict, retain, is_over}

pub sum_bytes-append :
    (xs ys : List EventEnvelope) → sum_bytes (xs ++ ys) ≡ sum_bytes xs + sum_bytes ys
sum_bytes-append [] ys = omega arith
sum_bytes-append (x ∷ xs) ys = omega (arith, sum_bytes-append xs ys)

-- What the loop leaves: its byte count is exact, its test is false, and it is the end of the ring.
pub record Kept (ring_cap byte_cap : ℕ) (ring : List EventEnvelope) (kept : List EventEnvelope × ℕ)
    : Type 0 where
  pub counted : kept.1 ≡ sum_bytes kept.0
  pub within : is_over ring_cap byte_cap (length kept.0) kept.1 ≡ false
  pub dropped : List EventEnvelope
  pub suffix : dropped ++ kept.0 ≡ ring

pub evict-Kept :
    (ring_cap byte_cap : ℕ) (ring : List EventEnvelope) (bytes : ℕ)
    → bytes ≡ sum_bytes ring
    → Kept ring_cap byte_cap ring (evict ring_cap byte_cap ring bytes)
unfolding evict
evict-Kept c k [] b e = record { counted = e; within = ground arith; dropped = []; suffix = refl }
evict-Kept c k (oldest ∷ ring) b e = elim (Bool-cases (is_over c k (suc (length ring)) b)) [
  | inl over ↦
      let ih = evict-Kept c k ring (b - retained_event_bytes oldest) (omega arith) in
      rw (over, evict)
        (record {
          counted = ih.counted;
          within = ih.within;
          dropped = oldest ∷ ih.dropped;
          suffix = ap (◌∷◌ oldest) ih.suffix;
        })
  | inr fits ↦ rw (fits, evict) (record { counted = e; within = fits; dropped = []; suffix = refl })
]

-- The numbers of the first n events.
abbrev pub upto : ℕ → List ℕ
upto zero = []
upto (suc n) = upto n ++ u64 (suc n) ∷ []

-- The ring against the history: it is the end of the history, its bytes are counted, it is within
-- its limits if there are any, and the history is numbered from 1 without a gap.
pub record Retained (ring_cap byte_cap : ℕ) (ring : List EventEnvelope) (bytes next_seq : ℕ)
    (log : List EventEnvelope) : Type 0 where
  pub counted : bytes ≡ sum_bytes ring
  pub within : is_over ring_cap byte_cap (length ring) bytes ≡ false
  pub older : List EventEnvelope
  pub suffix : older ++ ring ≡ log
  pub numbered : seqs log ≡ upto (length log)
  pub silent : (0 < ring_cap + byte_cap) ⊎ (ring ≡ [])
  pub next : next_seq ≡ u64 (length log)

abbrev pub Retains : EventBroker → List EventEnvelope → Type 0
Retains b log = Retained b.ring_cap b.byte_cap b.ring b.ring_bytes b.next_seq log

pub seqs-append :
    (xs : List EventEnvelope) (e : EventEnvelope) → seqs (xs ++ e ∷ []) ≡ seqs xs ++ e.seq ∷ []
seqs-append [] e = refl
seqs-append (x ∷ xs) e = ap (◌∷◌ x.seq) (seqs-append xs e)

numbered_next :
    (log : List EventEnvelope) (e : EventEnvelope)
    → seqs log ≡ upto (length log)
    → e.seq ≡ u64 (length log + 1)
    → seqs (log ++ e ∷ []) ≡ upto (length (log ++ e ∷ []))
numbered_next log e h n =
    let l : length (log ++ e ∷ []) ≡ suc (length log) = omega (arith, length-append log (e ∷ [])) in
    let s : e.seq ≡ u64 (suc (length log)) = omega arith in rw (l, seqs-append log e, h, s)

pub longer :
    (e : EventEnvelope) (older dropped ring kept log : List EventEnvelope)
    → older ++ ring ≡ log
    → dropped ++ kept ≡ ring ++ e ∷ []
    → (older ++ dropped) ++ kept ≡ log ++ e ∷ []
longer e older dropped ring kept log h k =
    append_assoc older dropped kept
    ∙ ap (◌++◌ older) k
    ∙ sym (append_assoc older ring (e ∷ []))
    ∙ ap (λ l. l ++ e ∷ []) h

-- `retainLocked` numbers the event with the next number and keeps the ring: it stays the end of
-- the history, which grows by the event, within the limits that are set; if no limit is set,
-- nothing is retained.
pub retain-Retains :
    (broker : EventBroker) (event : EventEnvelope) (log : List EventEnvelope)
    → Retains broker log
    → let r = retain event broker in Retains r.0 (log ++ r.1 ∷ [])
unfolding retain
retain-Retains broker event log h =
    let e : EventEnvelope = record event { seq = u64 (broker.next_seq + 1) } in
    let total = sum_bytes-append broker.ring (e ∷ []) in
    let k =
      evict-Kept broker.ring_cap broker.byte_cap (broker.ring ++ e ∷ [])
        (broker.ring_bytes + retained_event_bytes e) (omega (arith, h.counted, total)) in
    let number : e.seq ≡ u64 (length log + 1) = omega (arith, h.next) in
    let grown = numbered_next log e h.numbered number in
    let counted = length-append log (e ∷ []) in
    elim (Bool-cases (ltb 0 broker.ring_cap || ltb 0 broker.byte_cap)) [
      | inl limited ↦
          rw (limited, retain)
            (record {
              counted = k.counted;
              within = k.within;
              older = h.older ++ k.dropped;
              suffix = longer e h.older k.dropped broker.ring _ log h.suffix k.suffix;
              numbered = grown;
              silent = inl (ground arith);
              next = omega (arith, number);
            })
      | inr unlimited ↦
          rw (unlimited, retain)
            (record {
              counted = h.counted;
              within = h.within;
              older = log ++ e ∷ [];
              suffix = ground (arith, append-nil (log ++ e ∷ []));
              numbered = grown;
              silent = ground arith;
              next = omega (arith, number);
            })
    ]
