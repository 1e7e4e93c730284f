-- ===== src/ReadTask.antt =====
-- internal/supervisor/result.go: a read child runs its task until its agent has settled. Decoding
-- an event and the replies of the child's RPC are parameters; an error that joins a cause is
-- the error without the cause, and a message that quotes a stop reason stops before it.
pub mod Messages
pub mod Settles
pub mod Relevant
mod Tests
use kanedias.Base.{
  ℕ, Bool, true, false, not, ◌&&◌, ◌||◌, leb, List, [], ◌∷◌, ◌++◌, Option, none, some, String,
  Result, ok, err, ◌>>=◌, ◌>>◌, fail_if, if◌then◌else◌, is_blank, str_eq,
}
use kanedias.Event.{EventEnvelope}
use kanedias.Contract.{
  ChildKind, Error, invalid, conflict, child_unavailable, child_failed, child_aborted,
}
use kanedias.Results.{ReadChildResult, is_read}
use kanedias.Identity.{Identity}

-- A decoded event: its type, and the role and the stop reason of its message.
pub record PiMessage : Type 0 where
  pub type_name : String
  pub message : Option (String × String)

-- A decoded reply of the RPC.
pub record RpcReply : Type 0 where
  pub type_name : String
  pub command : String
  pub success : Bool
  pub text : Option String

-- An error of the context is not an error of the contract.
pub data Failure : Type 0 where
  context_error : Failure
  fails_with : Error → Failure

-- What an event does to the loop: it goes on with the last stop reason, or it ends.
pub data Progress : Type 0 where
  continues : String → Progress
  settles : Progress
  breaks : Error → Progress

-- How the stream ends, if the agent does not settle before.
pub data Ending : Type 0 where
  stream_closed context_done : Ending
  rpc_done : Bool → Ending

abbrev pub failure : String → Error
failure message = record { code = child_failed; message = message }

-- An event of this session's agent from after the boundary.
abbrev pub is_relevant : String → ℕ → EventEnvelope → Bool
is_relevant session_id boundary event =
    str_eq event.session_id session_id
    && str_eq event.kind "pi"
    && not (leb event.source_seq boundary)

abbrev pub note_stop_reason : Option (String × String) → String → String
note_stop_reason none reason = reason
note_stop_reason (some (role, stop)) reason = if str_eq role "assistant" then stop else reason

-- The switch on the last stop reason when the agent has settled.
unfoldable pub settle : String → Progress
settle reason =
    if str_eq reason "stop"
    then settles
    else (if str_eq reason "aborted"
        then breaks (record { code = child_aborted; message = "read child was aborted" })
        else (if str_eq reason "error" || str_eq reason "length"
            then breaks (failure "read child ended with stop reason")
            else breaks
                (failure "read child settled without a successful final assistant message")))

-- The switch on the type of a decoded event.
unfoldable pub handle_message : String → Option PiMessage → Progress
unfolding settle
handle_message reason none = breaks (failure "decode Pi completion event")
handle_message reason (some m) =
    if str_eq m.type_name "extension_error"
    then breaks (failure "terminal extension error")
    else (if str_eq m.type_name "message_end"
        then continues (note_stop_reason m.message reason)
        else (if str_eq m.type_name "agent_settled" then settle reason else continues reason))

-- The loop.
module _ (decode : List ℕ → Option PiMessage) (session_id : String) (boundary : ℕ) where
  unfoldable pub handle_event : String → EventEnvelope → Progress
  unfolding handle_message
  handle_event reason event =
      if is_relevant session_id boundary event
      then handle_message reason (decode event.payload)
      else continues reason

  unfoldable pub read_events : String → List EventEnvelope → Progress
  unfolding handle_event
  read_events reason [] = continues reason
  read_events reason (event ∷ events) = elim (handle_event reason event) [
    | continues next ↦ read_events next events
    | settles ↦ settles
    | breaks e ↦ breaks e
  ]

-- The RPC call fails, or its reply does not decode: none.
unfoldable pub submit_prompt : Option RpcReply → Result Error (Unit {0})
submit_prompt none = err (failure "submit child task")
submit_prompt (some r) =
    if str_eq r.type_name "response" && str_eq r.command "prompt" && r.success
    then ok tt
    else err (failure "submit child task")

unfoldable pub last_assistant_text : Option RpcReply → Result Error String
last_assistant_text none = err (failure "get final assistant text")
last_assistant_text (some r) =
    if str_eq r.type_name "response" && str_eq r.command "get_last_assistant_text" && r.success
    then elim r.text [ none ↦ err (failure "get final assistant text") | some text ↦ ok text ]
    else err (failure "get final assistant text")

abbrev pub ending_failure : Ending → Failure
ending_failure stream_closed = fails_with (failure "read event stream ended before settlement")
ending_failure context_done = context_error
ending_failure (rpc_done true) = context_error
ending_failure (rpc_done false) = fails_with (failure "Pi RPC stream ended before read settlement")

-- What `RunReadTask` meets: the boundary, the events of its subscription as it takes them, and the
-- replies of the RPC.
pub record Session : Type 0 where
  pub has_local : Bool
  pub boundary : ℕ
  pub replay : List EventEnvelope
  pub live : List EventEnvelope
  pub ending : Ending
  pub prompt_reply : Option RpcReply
  pub text_reply : Option RpcReply

-- The part of `RunReadTask` before the loop.
unfoldable pub admit_read_task : Identity → String → Session → Result Error (Unit {0})
unfolding submit_prompt
admit_read_task identity task s = do
  fail_if (not (is_read identity.kind))
      (record { code = conflict; message = "only read children can produce read results" })
  fail_if (is_blank task) (invalid "read task is required")
  fail_if (not s.has_local)
      (record { code = child_unavailable; message = "child Pi RPC is not ready" })
  submit_prompt s.prompt_reply

-- What `RunReadTask` returns, given what came of its admission and of its loop.
unfoldable pub conclude :
    Identity → Session → Result Error (Unit {0}) → Progress → Result Failure ReadChildResult
unfolding last_assistant_text
conclude identity s (err e) progress = err (fails_with e)
conclude identity s (ok u) (continues reason) = err (ending_failure s.ending)
conclude identity s (ok u) (breaks e) = err (fails_with e)
conclude identity s (ok u) settles = elim (last_assistant_text s.text_reply) [
  | err e ↦ err (fails_with e)
  | ok output ↦ ok (record {
    kind = ChildKind.read;
    worker_type = identity.worker;
    session_id = identity.session_id;
    output = output;
  })
]

unfoldable pub run_read_task :
    (List ℕ → Option PiMessage) → Identity → String → Session → Result Failure ReadChildResult
unfolding admit_read_task read_events conclude
run_read_task decode identity task s =
    conclude identity s (admit_read_task identity task s)
      (read_events decode identity.session_id s.boundary "" (s.replay ++ s.live))
