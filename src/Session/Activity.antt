-- ===== src/Session/Activity.antt =====
-- internal/supervisor/local.go: the sections under activityMu.
use kanedias.Base.{ℕ, ltb, leb, Bool, true, false, if◌then◌else◌}
use kanedias.Contract.{ChildKind}
use kanedias.Lifecycle.{
  LifecycleState, starting, ready, running, awaiting_handoff, completed, failed, transition,
}
use kanedias.Session.{PiActivity, unseen, agent_start, agent_settled, ActivityState}

unfoldable pub mark_running : LifecycleState → LifecycleState
mark_running ready = (transition ready running).0
mark_running awaiting_handoff = (transition awaiting_handoff running).0
mark_running state = state

abbrev pub is_root : ChildKind → Bool
is_root ChildKind.root = true
is_root _ = false

-- A settlement in the state running.
unfoldable pub settle_running : ChildKind → LifecycleState
settle_running ChildKind.root = (transition running ready).0
settle_running ChildKind.read = (transition running completed).0
settle_running ChildKind.write = (transition running awaiting_handoff).0
settle_running (ChildKind.other kind) = running

-- A settlement may be drained before the response to its prompt: a child then first runs.
unfoldable pub settle : ChildKind → LifecycleState → LifecycleState
unfolding mark_running settle_running
settle kind ready = if is_root kind then ready else settle_running kind
settle kind running = settle_running kind
settle kind state = state

unfoldable pub apply_activity : ChildKind → PiActivity → LifecycleState → LifecycleState
unfolding mark_running settle
apply_activity kind agent_start state = mark_running state
apply_activity kind agent_settled state = settle kind state
apply_activity kind unseen state = state

-- The section of `handleEvent`.
unfoldable pub note_activity : ChildKind → PiActivity → ℕ → ActivityState → ActivityState
unfolding apply_activity
note_activity kind activity seq a = record {
  lifecycle =
      if ltb a.lifecycle_response_seq seq
      then apply_activity kind activity a.lifecycle
      else a.lifecycle;
  lifecycle_response_seq = a.lifecycle_response_seq;
  last_activity_seq = if ltb a.last_activity_seq seq then seq else a.last_activity_seq;
  last_activity = if ltb a.last_activity_seq seq then activity else a.last_activity;
}

-- The section of `CallRPC` for a prompt or a follow-up that was accepted.
unfoldable pub accept_prompt : ℕ → ActivityState → ActivityState
unfolding mark_running
accept_prompt seq a = record {
  lifecycle = if leb a.last_activity_seq seq then mark_running a.lifecycle else a.lifecycle;
  lifecycle_response_seq =
      if ltb a.lifecycle_response_seq seq then seq else a.lifecycle_response_seq;
  last_activity_seq = a.last_activity_seq;
  last_activity = a.last_activity;
}

-- The section of `bind`; false is an illegal transition.
unfoldable pub activate : ChildKind → ℕ → Bool → ActivityState → ActivityState × Bool
unfolding apply_activity transition
activate kind seq streaming a =
    let noted = record a { lifecycle_response_seq = seq } in
    if (transition a.lifecycle ready).1
    then (
      record noted {
        lifecycle =
            if ltb seq a.last_activity_seq
            then apply_activity kind a.last_activity ready
            else if streaming
            then mark_running ready
            else ready;
      },
      true,
    )
    else (noted, false)

-- The switch that fails a session which is neither ended nor stopping.
unfoldable pub fail_active : LifecycleState → LifecycleState
fail_active starting = (transition starting failed).0
fail_active ready = (transition ready failed).0
fail_active running = (transition running failed).0
fail_active awaiting_handoff = (transition awaiting_handoff failed).0
fail_active state = state
