-- ===== src/Mirror.antt =====
-- internal/manager/mirror.go: the manager's bounded copy of a supervisor's event stream, which keeps
-- the numbers of the supervisor. `json.Valid` of the standard library is a parameter.
pub mod Stream
mod Tests
use kanedias.Base.{
  ℕ, suc, ◌+◌, ◌-◌, Bool, true, false, ◌&&◌, ◌||◌, List, [], ◌∷◌, ◌++◌, Option, none, some, ltb,
  leb, ◌==◌, if◌then◌else◌, length, to_ℕ, u64, String, str_eq, select,
}
use kanedias.Event.{EventEnvelope, retained_event_bytes}
use kanedias.Broker.{EventBrokerOptions}

-- internal/manager/types.go
pub record ReplayGap : Type 0 where
  pub expected_seq : ℕ
  pub first_available_seq : ℕ

-- A limit that is negative is none, as zero is: both fail the test `> 0`.
pub record EventMirror : Type 0 where
  pub max_events : ℕ
  pub max_bytes : ℕ
  pub events : List EventEnvelope
  pub bytes : ℕ
  pub last_seq : ℕ
  pub gap : Option ReplayGap

unfoldable pub new_event_mirror : EventBrokerOptions → EventMirror
new_event_mirror options = record {
  max_events = to_ℕ options.max_events;
  max_bytes = to_ℕ options.max_bytes;
  events = [];
  bytes = 0;
  last_seq = 0;
  gap = none;
}

-- The loop of `evict`.
unfoldable pub evict_events : ℕ → ℕ → List EventEnvelope → ℕ → List EventEnvelope × ℕ
evict_events max_events max_bytes [] bytes = ([], bytes)
evict_events max_events max_bytes (oldest ∷ events) bytes =
    let over_count = ltb 0 max_events && ltb max_events (suc (length events)) in
    let over_bytes = ltb 0 max_bytes && ltb max_bytes bytes in
    let rest = evict_events max_events max_bytes events (bytes - retained_event_bytes oldest) in
    if over_count || over_bytes then rest else (oldest ∷ events, bytes)

unfoldable pub evict : EventMirror → EventMirror
unfolding evict_events
evict m =
    let kept = evict_events m.max_events m.max_bytes m.events m.bytes in
    record m { events = kept.0; bytes = kept.1 }

-- m.gap after an event: the first gap stays.
unfoldable pub note_gap : ℕ → EventMirror → Option ReplayGap
note_gap seq m = elim m.gap [
  | some g ↦ some g
  | none ↦
      if ltb (u64 (m.last_seq + 1)) seq
      then some (record { expected_seq = u64 (m.last_seq + 1); first_available_seq = seq })
      else none
]

-- Whether the payload is empty or valid JSON, and the event has a number, a session and a kind.
unfoldable pub is_well_formed : (List ℕ → Bool) → EventEnvelope → Bool
is_well_formed json_valid event =
    if event.seq == 0 || str_eq event.session_id "" || str_eq event.kind ""
    then false
    else (length event.payload == 0 || json_valid event.payload)

unfoldable pub accept : (List ℕ → Bool) → EventEnvelope → EventMirror → EventMirror × Bool
unfolding evict note_gap is_well_formed
accept json_valid event m =
    if is_well_formed json_valid event
    then (if leb event.seq m.last_seq then (m, false) else (
      evict (record m {
        gap = note_gap event.seq m;
        last_seq = event.seq;
        events = m.events ++ event ∷ [];
        bytes = m.bytes + retained_event_bytes event;
      }),
      true,
    ))
    else (m, false)

unfoldable pub events_for : String → EventMirror → List EventEnvelope
events_for session_id m = select (λ event. str_eq event.session_id session_id) m.events
