-- ===== src/Protocol.antt =====
-- internal/supervisor/process/protocol.go: the records between a supervisor and its child process.
-- `is_clean` is filepath.IsAbs(p) && filepath.Clean(p) == p, a parameter. The message of an error that
-- quotes another error stops before the quotation.
pub mod Wire
pub mod Reporter
pub mod Messages
pub mod Reports
pub mod Bootstraps
mod Tests
use kanedias.Base.{
  ℕ, Bool, true, false, not, ◌&&◌, ◌||◌, ◌==◌, Option, none, some, String, is_blank, str_eq, Result,
  ok, err, ◌>>=◌, ◌>>◌, fail_if, ◌+◌,
}
use kanedias.Contract.{
  ChildKind, ContextMode, CreateChildRequest, ErrorCode, Error, invalid, unknown_worker_type,
  unlisted, validate,
}
use kanedias.Policy.{SessionModelPolicy, PolicyError, validate_policy, resolve_worker}
use kanedias.Workspace.{WorkspaceStart, WorkspaceError, validate_start}
use kanedias.Results.{ReadChildResult, WriteChildResult, validate_read, validate_write}

abbrev pub max_record_bytes : ℕ
max_record_bytes = 1048576

pub record Bootstrap : Type 0 where
  pub session_id : String
  pub parent_id : String
  pub root_id : String
  pub socket_path : String
  pub source_instance : String
  pub source_volume : String
  pub policy : SessionModelPolicy
  pub workspace : WorkspaceStart
  pub request : CreateChildRequest
  pub run_attribution : String

-- The types of internal/supervisor/provision/types.go that an ownership message carries.
pub record SocketIdentity : Type 0 where
  pub device : ℕ
  pub inode : ℕ

pub record RecoveryTicket : Type 0 where
  pub session_id : String
  pub parent_id : String
  pub root_id : String
  pub pool : String
  pub instance_name : String
  pub volume : String
  pub socket_path : String
  pub socket : SocketIdentity
  pub kind : ChildKind
  pub context : ContextMode
  pub worker_type : String
  pub run_attribution : String

pub record ReadyMessage : Type 0 where
  pub socket_path : String

pub record WireError : Type 0 where
  pub code : ErrorCode
  pub message : String

-- `other_type` is any string but the five constants.
pub data MessageType : Type 0 where
  ownership_type ready_type read_type write_type failure_type : MessageType
  other_type : String → MessageType

pub record ChildMessage : Type 0 where
  pub type : MessageType
  pub session_id : String
  pub ownership : Option RecoveryTicket
  pub ready : Option ReadyMessage
  pub read_result : Option ReadChildResult
  pub write_result : Option WriteChildResult
  pub error : Option WireError

-- One error for each message of `ChildMessage.Validate`.
pub data MessageError : Type 0 where
  session_id_required not_one_payload wrong_payload session_id_mismatch : MessageError
  socket_path_not_clean failure_incomplete : MessageError
  unknown_type : MessageType → MessageError
  invalid_result : Error → MessageError

-- x != nil
abbrev pub present {ℓ} : {A : Type ℓ} → Option A → ℕ
present none = 0
present (some x) = 1

abbrev pub absent {ℓ} : {A : Type ℓ} → Option A → Bool
absent none = true
absent (some x) = false

-- code == ""
abbrev pub is_no_code : ErrorCode → Bool
is_no_code (unlisted code) = str_eq code ""
is_no_code _ = false

abbrev pub payloads : ChildMessage → ℕ
payloads m =
    present m.ownership
    + present m.ready
    + present m.read_result
    + present m.write_result
    + present m.error

abbrev pub wrap_result : Result Error (Unit {0}) → Result MessageError (Unit {0})
wrap_result (ok u) = ok tt
wrap_result (err e) = err (invalid_result e)

module _ (is_clean : String → Bool) where
  -- The cases of the switch that have their payload.
  unfoldable pub validate_ownership : String → RecoveryTicket → Result MessageError (Unit {0})
  validate_ownership session_id ticket =
      fail_if (not (str_eq ticket.session_id session_id)) session_id_mismatch

  unfoldable pub validate_ready : ReadyMessage → Result MessageError (Unit {0})
  validate_ready ready = fail_if (not (is_clean ready.socket_path)) socket_path_not_clean

  unfoldable pub validate_read_payload : String → ReadChildResult → Result MessageError (Unit {0})
  validate_read_payload session_id r = do
    fail_if (not (str_eq r.session_id session_id)) session_id_mismatch
    wrap_result (validate_read r)

  unfoldable pub validate_write_payload : String → WriteChildResult → Result MessageError (Unit {0})
  validate_write_payload session_id w = do
    fail_if (not (str_eq w.session_id session_id)) session_id_mismatch
    wrap_result (validate_write w)

  unfoldable pub validate_failure : WireError → Result MessageError (Unit {0})
  validate_failure e = fail_if (is_no_code e.code || is_blank e.message) failure_incomplete

  -- The test of a case on the payload that it needs.
  abbrev pub with_payload {ℓ} :
      {A : Type ℓ}
      → Option A
      → Bool
      → (A → Result MessageError (Unit {0}))
      → Result MessageError (Unit {0})
  with_payload (some x) true check = check x
  with_payload _ _ check = err wrong_payload

  -- switch message.Type
  unfoldable pub validate_type : MessageType → ChildMessage → Result MessageError (Unit {0})
  unfolding validate_ownership validate_ready validate_read_payload validate_write_payload
      validate_failure
  validate_type ownership_type m =
      with_payload m.ownership
        (absent m.ready && absent m.read_result && absent m.write_result && absent m.error)
        (validate_ownership m.session_id)
  validate_type ready_type m =
      with_payload m.ready
        (absent m.ownership && absent m.read_result && absent m.write_result && absent m.error)
        validate_ready
  validate_type read_type m =
      with_payload m.read_result (absent m.ready && absent m.write_result && absent m.error)
        (validate_read_payload m.session_id)
  validate_type write_type m =
      with_payload m.write_result (absent m.ready && absent m.read_result && absent m.error)
        (validate_write_payload m.session_id)
  validate_type failure_type m =
      with_payload m.error (absent m.ready && absent m.read_result && absent m.write_result)
        validate_failure
  validate_type (other_type name) m = err (unknown_type (other_type name))

  unfoldable pub validate_message : ChildMessage → Result MessageError (Unit {0})
  unfolding validate_type
  validate_message m = do
    fail_if (is_blank m.session_id) session_id_required
    fail_if (not (payloads m == 1)) not_one_payload
    validate_type m.type m

  -- The errors of the parts of a bootstrap, as errors of the interface.
  abbrev pub wrap_policy : Result PolicyError (Unit {0}) → Result Error (Unit {0})
  wrap_policy (ok u) = ok tt
  wrap_policy (err e) = err (invalid "session model policy is invalid: ")

  abbrev pub wrap_start : Result WorkspaceError (Unit {0}) → Result Error (Unit {0})
  wrap_start (ok u) = ok tt
  wrap_start (err e) = err (invalid "workspace start is invalid: ")

  abbrev pub wrap_worker {ℓ} : {A : Type ℓ} → Result PolicyError A → Result Error (Unit {0})
  wrap_worker (ok worker) = ok tt
  wrap_worker (err e) = err (record { code = unknown_worker_type; message = "unknown worker type" })

  -- The first tests are a loop over a map, whose order shows in the message only.
  unfoldable pub validate_bootstrap : Bootstrap → Result Error (Unit {0})
  unfolding validate_policy validate_start validate resolve_worker
  validate_bootstrap b = do
    fail_if (is_blank b.session_id) (invalid "session ID is required")
    fail_if (is_blank b.parent_id) (invalid "parent ID is required")
    fail_if (is_blank b.root_id) (invalid "root ID is required")
    fail_if (is_blank b.source_instance) (invalid "source instance is required")
    fail_if (is_blank b.source_volume) (invalid "source volume is required")
    fail_if (str_eq b.session_id b.parent_id)
        (invalid "child session ID must differ from parent ID")
    fail_if (str_eq b.session_id b.root_id) (invalid "child session ID must differ from root ID")
    fail_if (not (is_clean b.socket_path))
        (invalid "child socket path must be an absolute clean path")
    wrap_policy (validate_policy b.policy)
    wrap_start (validate_start b.workspace)
    validate b.request
    wrap_worker (resolve_worker b.request.worker_type b.policy)
