-- ===== src/Lifecycle.antt =====
-- internal/supervisor/lifecycle.go: the life of a session node, a table of legal transitions.
pub mod Paths
mod Tests
use kanedias.Base.{Bool, true, false, if◌then◌else◌}

pub data LifecycleState : Type 0 where
  provisioning starting ready running awaiting_handoff completed failed stopping stopped :
      LifecycleState

-- The table `legalLifecycleTransitions`.
unfoldable pub legal_lifecycle_transitions : LifecycleState → LifecycleState → Bool
legal_lifecycle_transitions provisioning starting = true
legal_lifecycle_transitions provisioning failed = true
legal_lifecycle_transitions provisioning stopping = true
legal_lifecycle_transitions starting ready = true
legal_lifecycle_transitions starting failed = true
legal_lifecycle_transitions starting stopping = true
legal_lifecycle_transitions ready running = true
legal_lifecycle_transitions ready completed = true
legal_lifecycle_transitions ready failed = true
legal_lifecycle_transitions ready stopping = true
legal_lifecycle_transitions running ready = true
legal_lifecycle_transitions running awaiting_handoff = true
legal_lifecycle_transitions running completed = true
legal_lifecycle_transitions running failed = true
legal_lifecycle_transitions running stopping = true
legal_lifecycle_transitions awaiting_handoff running = true
legal_lifecycle_transitions awaiting_handoff completed = true
legal_lifecycle_transitions awaiting_handoff failed = true
legal_lifecycle_transitions awaiting_handoff stopping = true
legal_lifecycle_transitions completed stopping = true
legal_lifecycle_transitions failed stopping = true
legal_lifecycle_transitions stopping stopped = true
legal_lifecycle_transitions _ _ = false

-- The new state, and whether the transition was legal: an illegal one is an error.
unfoldable pub transition : LifecycleState → LifecycleState → LifecycleState × Bool
unfolding legal_lifecycle_transitions
transition state next =
    if legal_lifecycle_transitions state next then (next, true) else (state, false)
