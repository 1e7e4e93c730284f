-- ===== src/Contract.antt =====
-- internal/supervisor/contract: the errors and the requests of the supervisor's interface.
pub mod Requests
mod Tests
use kanedias.Base.{
  ℕ, Bool, true, false, not, ◌&&◌, ◌||◌, Option, none, some, String, is_blank, Result, ok, err,
  ◌>>=◌, ◌>>◌, fail_if, List,
}

-- ChildKind is a string type: `other` is any string but the three constants.
pub data ChildKind : Type 0 where
  root read write : ChildKind
  other : String → ChildKind

pub data ContextMode : Type 0 where
  root fresh fork : ContextMode
  other : String → ContextMode

pub data ErrorCode : Type 0 where
  invalid_request unknown_worker_type forbidden_rpc proxy_unavailable : ErrorCode
  workspace_repository_unavailable provisioning_failed child_failed child_aborted : ErrorCode
  handoff_ref_missing handoff_ref_mismatch session_stopping not_found : ErrorCode
  child_unavailable conflict saturated internal : ErrorCode
  unlisted : String → ErrorCode

pub record Error : Type 0 where
  pub code : ErrorCode
  pub message : String

unfoldable pub http_status : ErrorCode → ℕ
http_status invalid_request = 400
http_status unknown_worker_type = 400
http_status forbidden_rpc = 409
http_status child_aborted = 409
http_status handoff_ref_missing = 409
http_status handoff_ref_mismatch = 409
http_status session_stopping = 409
http_status conflict = 409
http_status not_found = 404
http_status saturated = 429
http_status workspace_repository_unavailable = 503
http_status proxy_unavailable = 502
http_status child_failed = 502
http_status child_unavailable = 502
http_status provisioning_failed = 500
http_status internal = 500
http_status (unlisted code) = 500

pub record ForkSpec : Type 0 where
  pub session_file : String
  pub pi_session_id : String
  pub leaf_entry_id : String

pub record CreateChildRequest : Type 0 where
  pub worker_type : String
  pub kind : ChildKind
  pub context : ContextMode
  pub task : String
  pub fork_spec : Option ForkSpec

abbrev pub invalid : String → Error
invalid message = record { code = invalid_request; message = message }

abbrev pub is_child_kind : ChildKind → Bool
is_child_kind ChildKind.read = true
is_child_kind ChildKind.write = true
is_child_kind _ = false

abbrev pub is_child_context : ContextMode → Bool
is_child_context ContextMode.fresh = true
is_child_context ContextMode.fork = true
is_child_context _ = false

unfoldable pub validate_fork : ForkSpec → Result Error (Unit {0})
validate_fork f = do
  fail_if (is_blank f.session_file) (invalid "fork.sessionFile is required")
  fail_if (is_blank f.pi_session_id) (invalid "fork.piSessionId is required")
  fail_if (is_blank f.leaf_entry_id) (invalid "fork.leafEntryId is required")

-- The part of `Validate` that depends on the context.
unfoldable pub validate_context : ContextMode → Option ForkSpec → Result Error (Unit {0})
unfolding validate_fork
validate_context ContextMode.fresh none = ok tt
validate_context ContextMode.fresh (some f) = err (invalid "fork is forbidden for fresh context")
validate_context _ none = err (invalid "fork is required for fork context")
validate_context _ (some f) = validate_fork f

unfoldable pub validate : CreateChildRequest → Result Error (Unit {0})
unfolding validate_context
validate r = do
  fail_if (is_blank r.worker_type) (invalid "workerType is required")
  fail_if (not (is_child_kind r.kind)) (invalid "kind must be read or write")
  fail_if (not (is_child_context r.context)) (invalid "context must be fresh or fork")
  fail_if (is_blank r.task) (invalid "task is required")
  validate_context r.context r.fork_spec
