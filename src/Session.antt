-- ===== src/Session.antt =====
-- internal/supervisor/local.go: the session that a supervisor runs itself: its binding to Pi, and the
-- lifecycle that follows Pi's responses and events. Replies of the RPC are parameters, decoded; what
-- is published goes to the broker and is kept here as the list of payloads.
pub mod Activity
pub mod Bind
pub mod Rpc
pub mod Races
pub mod Continues
pub mod Kept
pub mod Binding
mod Tests
use kanedias.Base.{
  ℕ, Bool, true, false, List, [], Option, none, some, String, str_eq, Result, ok, err, ◌>>=◌, ◌>>◌,
  fail_if, not, ◌||◌, if◌then◌else◌,
}
use kanedias.Contract.{Error}
use kanedias.Identity.{Identity, InvariantError}
use kanedias.Lifecycle.{LifecycleState, starting}
use kanedias.Policy.{ModelProfile}
use kanedias.Questions.{QuestionStore, new_question_store}

-- `lastActivity`; the code has the event's type here, or the empty string.
pub data PiActivity : Type 0 where
  unseen agent_start agent_settled : PiActivity

-- What activityMu guards.
pub record ActivityState : Type 0 where
  pub lifecycle : LifecycleState
  pub lifecycle_response_seq : ℕ
  pub last_activity_seq : ℕ
  pub last_activity : PiActivity

pub record PiBinding : Type 0 where
  pub session_id : String
  pub session_file : String

-- `failing` counts the calls of `failTerminalInvariant` that have set the lifecycle and have not yet
-- cleared the questions.
pub record LocalSession : Type 0 where
  pub identity : Identity
  pub binding : PiBinding
  pub model : ModelProfile
  pub activity : ActivityState
  pub questions : QuestionStore
  pub published : List (List ℕ)
  pub rpc_closed : Bool
  pub drain_done : Bool
  pub failing : ℕ

unfoldable pub new_local_session : Identity → Bool → LocalSession
unfolding new_question_store
new_local_session identity has_rpc = record {
  identity = identity;
  binding = record { session_id = ""; session_file = "" };
  model = record { provider = ""; model = ""; thinking_level = "" };
  activity = record {
    lifecycle = starting;
    lifecycle_response_seq = 0;
    last_activity_seq = 0;
    last_activity = unseen;
  };
  questions = new_question_store has_rpc;
  published = [];
  rpc_closed = false;
  drain_done = false;
  failing = 0;
}

-- One error for each message of the invariants, and the errors of the RPC.
pub data SessionError : Type 0 where
  already_bound undecodable unexpected_response get_state_failed : SessionError
  session_id_required session_file_required fork_id_mismatch fork_file_mismatch : SessionError
  model_mismatch not_bound session_id_changed session_file_changed : SessionError
  illegal_transition rpc_failed : SessionError
  refused : Error → SessionError
  expectation : InvariantError → SessionError

unfoldable pub validate_pi_binding : PiBinding → Result SessionError (Unit {0})
validate_pi_binding b = do
  fail_if (str_eq b.session_id "") session_id_required
  fail_if (str_eq b.session_file "") session_file_required

-- `verifyBinding`, of the binding that the session has and the one that Pi reports.
unfoldable pub verify_binding : PiBinding → PiBinding → Result SessionError (Unit {0})
unfolding validate_pi_binding
verify_binding bound reported = do
  validate_pi_binding reported
  fail_if (str_eq bound.session_id "") not_bound
  fail_if (not (str_eq bound.session_id reported.session_id)) session_id_changed
  fail_if (not (str_eq bound.session_file reported.session_file)) session_file_changed

-- A reply of get_state that decodes.
pub record GetState : Type 0 where
  pub type_name : String
  pub command : String
  pub success : Bool
  pub binding : PiBinding
  pub model : ModelProfile
  pub is_streaming : Bool

unfoldable pub decode_get_state : Option GetState → Result SessionError GetState
decode_get_state none = err undecodable
decode_get_state (some state) = do
  fail_if (not (str_eq state.type_name "response") || not (str_eq state.command "get_state"))
      unexpected_response
  fail_if (not state.success) get_state_failed
  ok state
