-- ===== src/Event.antt =====
-- internal/supervisor/events.go: the event envelope that the supervisor and the manager share.
-- A payload is its bytes. The clone functions copy a slice, so on values they are the identity.
use kanedias.Base.{ℕ, ◌+◌, String, len, List, length, map}

pub record EventEnvelope : Type 0 where
  pub seq : ℕ
  pub session_id : String
  pub source_seq : ℕ
  pub kind : String
  pub payload : List ℕ

unfoldable pub retained_event_bytes : EventEnvelope → ℕ
retained_event_bytes event = len event.session_id + len event.kind + length event.payload + 24

-- The bytes of a list of events.
abbrev pub sum_bytes : List EventEnvelope → ℕ
sum_bytes List.[] = 0
sum_bytes (List.◌∷◌ event events) = retained_event_bytes event + sum_bytes events

-- The sequence numbers of a list of events.
abbrev pub seqs : List EventEnvelope → List ℕ
seqs = map (λ event. event.seq)
