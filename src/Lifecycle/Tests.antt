-- ===== src/Lifecycle/Tests.antt =====
-- internal/supervisor/lifecycle.go on single lives.
use kanedias.Base.{◌≤◌, ◌≡◌, refl, ◌⊎◌, [], ◌∷◌, true, arith}
use kanedias.Lifecycle.{
  provisioning, starting, ready, running, awaiting_handoff, completed, stopping, stopped,
  transition,
}
use kanedias.Lifecycle.Paths.{
  stage, requests, requests-stage, ended_only_stops, stops_from_everywhere,
}

life :
    requests provisioning (starting ∷ ready ∷ awaiting_handoff ∷ running ∷ awaiting_handoff ∷ [])
    ≡ awaiting_handoff
unfolding transition
life = refl

requests-stage_test : stage starting ≤ stage (requests starting (provisioning ∷ ready ∷ []))
requests-stage_test = requests-stage starting (provisioning ∷ ready ∷ [])

ended_only_stops_test :
    ((3 ≡ stage completed) × (stopping ≡ stopping))
    ⊎ ((completed ≡ stopping) × (stopping ≡ stopped))
unfolding transition
ended_only_stops_test = ended_only_stops completed stopping (omega arith) refl

stops_from_everywhere_test :
    ((transition running stopping).1 ≡ true)
    × (requests running (stopping ∷ stopped ∷ []) ≡ stopped)
stops_from_everywhere_test = stops_from_everywhere running (omega arith)
