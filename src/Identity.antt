-- ===== src/Identity.antt =====
-- internal/supervisor/identity.go: the immutable identity of a session node.
pub mod Rules
mod Tests
use kanedias.Base.{
  Bool, true, false, not, ◌&&◌, ◌||◌, String, is_blank, str_eq, Result, ok, err, ◌>>=◌, ◌>>◌,
  fail_if, if◌then◌else◌,
}
use kanedias.Contract.{ChildKind, ContextMode, is_child_context}

-- One error for each message under ErrInvariant.
pub data InvariantError : Type 0 where
  session_required root_required root_owns_itself root_has_parent : InvariantError
  root_context root_worker parent_required child_context : InvariantError
  worker_required model_required : InvariantError
  unknown_kind thinking_level : String → InvariantError

pub record IdentitySpec : Type 0 where
  pub session_id : String
  pub parent_id : String
  pub root_id : String
  pub kind : ChildKind
  pub context : ContextMode
  pub worker : String

-- `Identity` and `IdentitySnapshot` have the same fields.
pub record Identity : Type 0 where
  pub session_id : String
  pub parent_id : String
  pub root_id : String
  pub kind : ChildKind
  pub context : ContextMode
  pub worker : String

abbrev pub is_root_context : ContextMode → Bool
is_root_context ContextMode.root = true
is_root_context _ = false

-- The switch of `NewIdentity` on the kind.
unfoldable pub check_kind : ChildKind → IdentitySpec → Result InvariantError (Unit {0})
check_kind ChildKind.root spec = do
  fail_if (not (str_eq spec.root_id spec.session_id)) root_owns_itself
  fail_if (not (str_eq spec.parent_id "")) root_has_parent
  fail_if (not (is_root_context spec.context)) root_context
  fail_if (not (str_eq spec.worker "")) root_worker
check_kind (ChildKind.other kind) spec = err (unknown_kind kind)
check_kind _ spec = do
  fail_if (is_blank spec.parent_id) parent_required
  fail_if (not (is_child_context spec.context)) child_context
  fail_if (is_blank spec.worker) worker_required

unfoldable pub new_identity : IdentitySpec → Result InvariantError Identity
unfolding check_kind
new_identity spec = do
  fail_if (is_blank spec.session_id) session_required
  fail_if (is_blank spec.root_id) root_required
  check_kind spec.kind spec
  ok (record {
    session_id = spec.session_id;
    parent_id = spec.parent_id;
    root_id = spec.root_id;
    kind = spec.kind;
    context = spec.context;
    worker = spec.worker;
  })

-- `Identity.Snapshot`, read as a specification again.
unfoldable pub snapshot : Identity → IdentitySpec
snapshot i = record {
  session_id = i.session_id;
  parent_id = i.parent_id;
  root_id = i.root_id;
  kind = i.kind;
  context = i.context;
  worker = i.worker;
}

unfoldable pub is_thinking_level : String → Bool
is_thinking_level level =
    str_eq level "off"
    || str_eq level "minimal"
    || str_eq level "low"
    || str_eq level "medium"
    || str_eq level "high"
    || str_eq level "xhigh"
    || str_eq level "max"

unfoldable pub validate_expected_model : String → String → String → Result InvariantError (Unit {0})
validate_expected_model provider model level = do
  fail_if (is_blank provider || is_blank model) model_required
  fail_if (not (is_thinking_level level)) (thinking_level level)
