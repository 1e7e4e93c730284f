-- ===== src/Session/Tests.antt =====
-- internal/supervisor/local.go on one reader and one root.
use kanedias.Base.{ℕ, ◌≡◌, refl, List, [], ◌∷◌, ◌++◌, true, false, none, arith, inr}
use kanedias.Contract.{ChildKind, ContextMode}
use kanedias.Identity.{Identity}
use kanedias.Lifecycle.{transition, ready, starting, completed}
use kanedias.Session.{
  PiActivity, unseen, agent_start, agent_settled, ActivityState, LocalSession, new_local_session,
}
use kanedias.Session.Activity.{accept_prompt, activate, note_activity}
use kanedias.Session.Races.{drain, accept_prompt_any_time, activate_any_time}
use kanedias.Session.Binding.{terminates, begins_stop, run, run_lem}

abbrev idle : ActivityState
idle = record {
  lifecycle = ready;
  lifecycle_response_seq = 1;
  last_activity_seq = 0;
  last_activity = unseen;
}

abbrev started : List (PiActivity × ℕ)
started = (agent_start, 3) ∷ []

abbrev settled : List (PiActivity × ℕ)
settled = (agent_settled, 4) ∷ []

-- A reader whose start and settlement are drained before the response to its prompt ends completed.
late_response :
    (accept_prompt 2 (drain ChildKind.read idle (started ++ settled))).lifecycle ≡ completed
unfolding accept_prompt note_activity transition
late_response = refl

accept_prompt_any_time_example :
    drain ChildKind.read (accept_prompt 2 (drain ChildKind.read idle started)) settled
    ≡ drain ChildKind.read (accept_prompt 2 idle) (started ++ settled)
accept_prompt_any_time_example =
    accept_prompt_any_time ChildKind.read 2 idle started settled ((λ e. cc), omega arith, tt)
      (omega arith) (inr (λ e. cc))

abbrev unbound : ActivityState
unbound = record idle { lifecycle = starting; lifecycle_response_seq = 0 }

activate_any_time_test :
    drain ChildKind.root
      (activate ChildKind.root 2 false (drain ChildKind.root unbound started)).0
      settled
    ≡ drain ChildKind.root (activate ChildKind.root 2 false unbound).0 (started ++ settled)
activate_any_time_test =
    activate_any_time 2 false unbound started settled ((λ e. cc), omega arith, tt) (omega arith, tt)
      refl

abbrev root : Identity
root = record {
  session_id = "root";
  parent_id = "";
  root_id = "root";
  kind = ChildKind.root;
  context = ContextMode.root;
  worker = "";
}

abbrev session : LocalSession
session = record (new_local_session root true) {
  binding = record { session_id = "pi"; session_file = "f" };
}

run_lem_example :
    (run (λ raw. none) session (terminates ∷ begins_stop ∷ [])).binding ≡ session.binding
unfolding new_local_session
run_lem_example =
    (run_lem (λ raw. none) session (terminates ∷ begins_stop ∷ [])
        ((λ over. cc), λ over done. cc)).1
      refl
