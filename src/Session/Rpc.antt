-- ===== src/Session/Rpc.antt =====
-- internal/supervisor/local.go: calls of a session, Pi's events, and the session's end.
use kanedias.Base.{
  ℕ, zero, suc, Bool, true, false, not, ◌&&◌, ◌||◌, List, [], ◌∷◌, ◌++◌, Option, none, some, String,
  str_eq, is_blank, Result, ok, err, fail_if, if◌then◌else◌,
}
use kanedias.Contract.{invalid, forbidden_rpc}
use kanedias.Lifecycle.{LifecycleState, stopping, stopped, transition}
use kanedias.Policy.{ModelProfile}
use kanedias.Questions.{QuestionRequest, retain, cancel_pending, clear}
use kanedias.Session.{
  LocalSession, agent_start, agent_settled, GetState, SessionError, illegal_transition, rpc_failed,
  refused, verify_binding, decode_get_state,
}
use kanedias.Session.Activity.{note_activity, accept_prompt, fail_active}
use kanedias.Session.Bind.{RpcOutcome, forbidden, failed, replied}

-- A command as it decodes: no object, an object with no type, or one with a type.
pub data RpcCommand : Type 0 where
  not_an_object no_type : RpcCommand
  typed : String → RpcCommand

-- A response as it decodes, and as a reply of get_state.
pub record RpcResponse : Type 0 where
  pub type_name : String
  pub command : String
  pub success : Bool
  pub state : Option GetState

abbrev pub is_accepted : String → Option RpcResponse → Bool
is_accepted request none = false
is_accepted request (some r) =
    str_eq r.type_name "response" && str_eq r.command request && r.success

abbrev pub state_of : Option RpcResponse → Option GetState
state_of none = none
state_of (some r) = r.state

-- `failTerminalInvariant` up to the unlock of activityMu.
unfoldable pub fail_terminal_invariant : LocalSession → LocalSession
unfolding fail_active
fail_terminal_invariant s = record s {
  activity = record s.activity { lifecycle = fail_active s.activity.lifecycle };
  failing = suc s.failing;
}

-- The clear of the questions in a call of `failTerminalInvariant` that has set the lifecycle.
abbrev pub clear_failing : ℕ → LocalSession → LocalSession
clear_failing zero s = s
clear_failing (suc n) s = record s { questions = clear s.questions; failing = n }

unfoldable pub clear_failed : LocalSession → LocalSession
unfolding clear
clear_failed s = clear_failing s.failing s

-- The close of the RPC, after it.
unfoldable pub close_rpc : LocalSession → LocalSession
close_rpc s = record s { rpc_closed = true }

-- The session after the check of a reported binding.
unfoldable pub settle_state :
    ModelProfile
    → Result SessionError (Unit {0})
    → LocalSession
    → LocalSession × Result SessionError (Unit {0})
unfolding fail_terminal_invariant
settle_state model (err e) s = (fail_terminal_invariant s, err e)
settle_state model (ok u) s = (record s { model = model }, ok tt)

-- What an accepted reply of get_state does.
unfoldable pub accept_state :
    Result SessionError GetState → LocalSession → LocalSession × Result SessionError (Unit {0})
unfolding verify_binding settle_state
accept_state (err e) s = (s, err e)
accept_state (ok state) s = settle_state state.model (verify_binding s.binding state.binding) s

-- The part of `CallRPC` after the call, for a request of a type.
unfoldable pub accept_response :
    String → Option RpcResponse → ℕ → LocalSession → LocalSession × Result SessionError (Unit {0})
unfolding decode_get_state accept_state accept_prompt cancel_pending
accept_response request response seq s =
    if not (is_accepted request response)
    then (s, ok tt)
    else (if str_eq request "get_state"
        then accept_state (decode_get_state (state_of response)) s
        else (if str_eq request "abort"
            then (record s { questions = cancel_pending s.questions }, ok tt)
            else (if str_eq request "prompt" || str_eq request "follow_up"
                then (record s { activity = accept_prompt seq s.activity }, ok tt)
                else (s, ok tt))))

unfoldable pub after_call :
    String
    → RpcOutcome (Option RpcResponse)
    → LocalSession
    → LocalSession × Result SessionError (Unit {0})
unfolding accept_response
after_call request forbidden s =
    (s, err (refused (record { code = forbidden_rpc; message = "forbidden" })))
after_call request failed s = (s, err rpc_failed)
after_call request (replied response seq) s = accept_response request response seq s

unfoldable pub call_rpc :
    RpcCommand
    → RpcOutcome (Option RpcResponse)
    → LocalSession
    → LocalSession × Result SessionError (Unit {0})
unfolding after_call
call_rpc not_an_object outcome s =
    (s, err (refused (invalid "Pi RPC command must be a JSON object")))
call_rpc no_type outcome s =
    (s, err (refused (invalid "Pi RPC command type must be a nonempty string")))
call_rpc (typed request) outcome s =
    if is_blank request
    then (s, err (refused (invalid "Pi RPC command type must be a nonempty string")))
    else after_call request outcome s

-- An event of Pi: its type, its number and its bytes.
pub record PiEvent : Type 0 where
  pub type_name : String
  pub seq : ℕ
  pub raw : List ℕ

-- The section under activityMu of `handleEvent`.
unfoldable pub event_activity : PiEvent → LocalSession → LocalSession
unfolding note_activity
event_activity event s =
    if str_eq event.type_name "agent_start"
    then record s { activity = note_activity s.identity.kind agent_start event.seq s.activity }
    else (if str_eq event.type_name "agent_settled"
        then record s {
          activity = note_activity s.identity.kind agent_settled event.seq s.activity;
        }
        else s)

-- The questions of `handleEvent`.
unfoldable pub event_questions :
    (List ℕ → Option QuestionRequest) → PiEvent → LocalSession → LocalSession
unfolding retain cancel_pending
event_questions decode event s =
    if str_eq event.type_name "extension_ui_request"
    then record s { questions = (retain decode event.raw s.questions).0 }
    else (if str_eq event.type_name "agent_settled" || str_eq event.type_name "agent_end"
        then record s { questions = cancel_pending s.questions }
        else s)

unfoldable pub handle_event :
    (List ℕ → Option QuestionRequest) → PiEvent → LocalSession → LocalSession
unfolding event_questions event_activity
handle_event decode event s =
    event_activity event
      (event_questions decode event (record s { published = s.published ++ event.raw ∷ [] }))

-- `handleRPCTermination`, after which `drainEvents` returns.
unfoldable pub handle_rpc_termination : LocalSession → LocalSession
unfolding fail_active clear
handle_rpc_termination s = record s {
  questions = clear s.questions;
  activity = record s.activity { lifecycle = fail_active s.activity.lifecycle };
  drain_done = true;
}

abbrev pub is_stopped : LifecycleState → Bool
is_stopped stopped = true
is_stopped _ = false

abbrev pub is_stopping : LifecycleState → Bool
is_stopping stopping = true
is_stopping _ = false

-- `StopRPC` up to its wait for the drain; true if it waits.
unfoldable pub begin_stop : LocalSession → LocalSession × Result SessionError Bool
unfolding clear
begin_stop s =
    let cleared = record s { questions = clear s.questions } in
    let state = s.activity.lifecycle in
    if is_stopped state
    then (record cleared { rpc_closed = true }, ok false)
    else (if is_stopping state
        then (record cleared { rpc_closed = true }, ok true)
        else (if (transition state stopping).1
            then (
              record cleared {
                activity = record s.activity { lifecycle = (transition state stopping).0 };
                rpc_closed = true;
              },
              ok true,
            )
            else (cleared, err illegal_transition)))

-- `StopRPC` after its wait.
unfoldable pub end_stop : LocalSession → LocalSession × Result SessionError (Unit {0})
end_stop s =
    let next = transition s.activity.lifecycle stopped in
    (
      record s { activity = record s.activity { lifecycle = next.0 } },
      fail_if (not next.1) illegal_transition,
    )
