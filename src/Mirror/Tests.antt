-- ===== src/Mirror/Tests.antt =====
-- internal/manager/mirror.go on a small stream with a gap.
use kanedias.Base.{ℕ, ◌≡◌, refl, List, [], ◌∷◌, Bool, true, arith, pos, some}
use kanedias.Event.{EventEnvelope}
use kanedias.Broker.{EventBrokerOptions}
use kanedias.Mirror.{new_event_mirror, accept}
use kanedias.Mirror.Stream.{Mirrors, accept_all, stream-Mirrors, replay_ignored}

abbrev options : EventBrokerOptions
options = record { max_events = pos 2; max_bytes = pos 0 }

abbrev event : ℕ → EventEnvelope
event n = record { seq = n; session_id = "a"; source_seq = n; kind = "pi"; payload = [] }

abbrev stream : List EventEnvelope
stream = event 1 ∷ event 2 ∷ event 2 ∷ event 5 ∷ event 9 ∷ []

abbrev any_json : List ℕ → Bool
any_json _ = true

gap_kept :
    (accept_all any_json stream (new_event_mirror options)).0.gap
    ≡ some (record { expected_seq = 3; first_available_seq = 5 })
unfolding accept new_event_mirror
gap_kept = refl

stream-Mirrors_example :
    let r = accept_all any_json stream (new_event_mirror options) in Mirrors r.0 r.1
stream-Mirrors_example = stream-Mirrors any_json options stream (omega arith)

replay_ignored_test :
    let seen = (accept_all any_json stream (new_event_mirror options)).0 in
    accept_all any_json stream seen ≡ (seen, [])
replay_ignored_test = replay_ignored any_json stream (new_event_mirror options)
