-- ===== src/Spawn/Start.antt =====
-- internal/supervisor/process/spawn.go: WaitReady, which takes two messages of a child. `probed` is what
-- probing the child's socket gives, a parameter.
use Prim.Native.String.{◌++◌}
use kanedias.Base.{
  Bool, true, false, not, ◌&&◌, ◌==◌, Option, none, some, String, Result, ok, err, ◌>>=◌, ◌>>◌,
  fail_if, if◌then◌else◌, str_eq,
}
use kanedias.Contract.{ChildKind, ContextMode}
use kanedias.Protocol.{Bootstrap, RecoveryTicket, ReadyMessage, ChildMessage, MessageType}
use kanedias.Spawn.{
  Child, ChildError, Received, next_message, other_session, no_ownership, other_ticket, not_ready,
  other_socket, probe_failed, child_error,
}

abbrev pub kind_eq : ChildKind → ChildKind → Bool
kind_eq ChildKind.root ChildKind.root = true
kind_eq ChildKind.read ChildKind.read = true
kind_eq ChildKind.write ChildKind.write = true
kind_eq (ChildKind.other s) (ChildKind.other t) = str_eq s t
kind_eq _ _ = false

abbrev pub context_eq : ContextMode → ContextMode → Bool
context_eq ContextMode.root ContextMode.root = true
context_eq ContextMode.fresh ContextMode.fresh = true
context_eq ContextMode.fork ContextMode.fork = true
context_eq (ContextMode.other s) (ContextMode.other t) = str_eq s t
context_eq _ _ = false

unfoldable pub validate_recovery_ticket : Bootstrap → RecoveryTicket → Bool
validate_recovery_ticket b t =
    str_eq t.session_id b.session_id
    && str_eq t.parent_id b.parent_id
    && str_eq t.root_id b.root_id
    && str_eq t.instance_name ("session-" ++ b.session_id)
    && str_eq t.volume ("workspace-" ++ b.session_id)
    && str_eq t.socket_path b.socket_path
    && kind_eq t.kind b.request.kind
    && context_eq t.context b.request.context
    && str_eq t.worker_type b.request.worker_type
    && str_eq t.run_attribution b.run_attribution
    && not (str_eq t.pool "")
    && not (t.socket.device == 0)
    && not (t.socket.inode == 0)

abbrev pub is_failure_type : MessageType → Bool
is_failure_type MessageType.failure_type = true
is_failure_type _ = false

abbrev pub is_ownership_type : MessageType → Bool
is_ownership_type MessageType.ownership_type = true
is_ownership_type _ = false

abbrev pub is_ready_type : MessageType → Bool
is_ready_type MessageType.ready_type = true
is_ready_type _ = false

-- contractError, if the message is a failure; otherwise the error of the place.
abbrev pub refusal : ChildMessage → ChildError → ChildError
refusal m e = elim m.error [
  | none ↦ e
  | some w ↦
      if is_failure_type m.type
      then child_error (record { code = w.code; message = w.message })
      else e
]

abbrev pub owned : ChildMessage → Option RecoveryTicket → Result ChildError RecoveryTicket
owned m none = err (refusal m no_ownership)
owned m (some t) = if is_ownership_type m.type then ok t else err (refusal m no_ownership)

-- The tests of the first message.
unfoldable pub check_ownership : Bootstrap → ChildMessage → Result ChildError RecoveryTicket
check_ownership b m = do
  fail_if (not (str_eq m.session_id b.session_id)) other_session
  t ← owned m m.ownership
  fail_if (not (validate_recovery_ticket b t)) other_ticket
  ok t

-- A valid message of type ready has its payload.
abbrev pub ready_socket : Option ReadyMessage → String
ready_socket none = ""
ready_socket (some r) = r.socket_path

-- The tests of the second message.
unfoldable pub check_ready : Bootstrap → ChildMessage → Result ChildError (Unit {0})
check_ready b m = do
  fail_if (not (str_eq m.session_id b.session_id)) other_session
  fail_if (not (is_ready_type m.type)) (refusal m not_ready)
  fail_if (not (str_eq (ready_socket m.ready) b.socket_path)) other_socket

abbrev pub finish_ready :
    Bootstrap → Bool → Child × Result ChildError ChildMessage → Child × Result ChildError (Unit {0})
finish_ready b probed (c, err e) = (c, err e)
finish_ready b probed (c, ok m) = (c, (do check_ready b m; fail_if (not probed) probe_failed))

abbrev pub store_ticket :
    Bootstrap
    → Bool
    → Received
    → Child
    → Result ChildError RecoveryTicket
    → Child × Result ChildError (Unit {0})
store_ticket b probed second c (err e) = (c, err e)
store_ticket b probed second c (ok t) =
    finish_ready b probed (next_message second (record c { recovery_ticket = some t }))

abbrev pub start_ready :
    Bootstrap
    → Bool
    → Received
    → Child × Result ChildError ChildMessage
    → Child × Result ChildError (Unit {0})
start_ready b probed second (c, err e) = (c, err e)
start_ready b probed second (c, ok m) = store_ticket b probed second c (check_ownership b m)

unfoldable pub wait_ready :
    Bootstrap → Bool → Received → Received → Child → Child × Result ChildError (Unit {0})
wait_ready b probed first second c = start_ready b probed second (next_message first c)
