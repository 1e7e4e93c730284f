-- ===== src/Lifecycle/Paths.antt =====
-- internal/supervisor/lifecycle.go: where the legal transitions lead.
use kanedias.Base.{ℕ, ◌≤◌, ◌<◌, ◌≡◌, ◌⊎◌, List, [], ◌∷◌, true, arith}
use kanedias.Lifecycle.{
  LifecycleState, provisioning, starting, ready, running, awaiting_handoff, completed, failed,
  stopping, stopped, transition,
}

-- A run of requested transitions, legal or not.
abbrev pub requests : LifecycleState → List LifecycleState → LifecycleState
requests s [] = s
requests s (next ∷ rest) = requests (transition s next).0 rest

-- How far a session has come: a legal transition never goes back to an earlier stage.
abbrev pub stage : LifecycleState → ℕ
stage provisioning = 0
stage starting = 1
stage ready = 2
stage running = 2
stage awaiting_handoff = 2
stage completed = 3
stage failed = 3
stage stopping = 4
stage stopped = 5

transition-stage : (s next : LifecycleState) → stage s ≤ stage (transition s next).0
unfolding transition
transition-stage s next = ground arith

-- Under any requests a session never returns to an earlier stage: provisioning, starting, active
-- (ready, running or awaiting a handoff), ended (completed or failed), stopping, stopped.
pub requests-stage :
    (s : LifecycleState) (rest : List LifecycleState) → stage s ≤ stage (requests s rest)
requests-stage s [] = omega arith
requests-stage s (next ∷ rest) =
    omega (arith, transition-stage s next, requests-stage (transition s next).0 rest)

-- An ended session only stops: from completed or failed the only legal transition is to stopping,
-- from there to stopped, and from stopped there is none.
pub ended_only_stops :
    (s next : LifecycleState)
    → 3 ≤ stage s
    → (transition s next).1 ≡ true
    → ((3 ≡ stage s) × (next ≡ stopping)) ⊎ ((s ≡ stopping) × (next ≡ stopped))
unfolding transition
ended_only_stops s next h e = ground arith

-- Every session can be stopped: from each state but stopped and stopping, the requests stopping and
-- stopped are both legal and end in stopped.
pub stops_from_everywhere :
    (s : LifecycleState)
    → stage s < 4
    → ((transition s stopping).1 ≡ true) × (requests s (stopping ∷ stopped ∷ []) ≡ stopped)
unfolding transition
stops_from_everywhere s h = ground arith
