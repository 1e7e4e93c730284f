-- ===== src/Session/Binding.antt =====
-- internal/supervisor/local.go: what stays true of a session under every sequence of its operations.
use kanedias.Base.{ℕ, ◌≤◌, ◌≡◌, List, [], ◌∷◌, Bool, true, Option, arith, string_key}
use kanedias.Handoff.{complete_handoff}
use kanedias.Lifecycle.Paths.{stage}
use kanedias.Questions.{QuestionRequest}
use kanedias.Questions.Store as Store
use kanedias.Session.{LocalSession, GetState}
use kanedias.Session.Activity.{fail_active}
use kanedias.Session.Bind.{RpcOutcome, PiExpectation, bind, start_bind, activate_bound, is_bound}
use kanedias.Session.Rpc.{
  RpcCommand, RpcResponse, PiEvent, call_rpc, handle_event, event_activity, event_questions,
  handle_rpc_termination, clear_failed, close_rpc, begin_stop, end_stop,
}
use kanedias.Session.Continues.{
  Continues, IsQuiet, IsSettled, handoff-Goes, activate-Goes, fail-stage, ask-IsQuiet,
  Continues-refl, activity-Continues, questions-Continues, clear-Continues, Continues-trans,
}
use kanedias.Session.Kept.{
  bind-Continues, start-Continues, stop-Continues, end-Continues, questions_event-Continues,
  activity_event-Continues, handle-Continues, clear_failing-Continues, call-Continues,
}

-- The operations: those of the session, `completeHandoff`, and those of its questions. What another
-- goroutine may come between is also a step of its own: the two sections of `bind`, the two halves of
-- an event, and the clear and the close of `failTerminalInvariant` after the call that has failed. Where a function clears the
-- questions first, the state after that alone is the one after `asks clears`.
pub data Op : Type 0 where
  binds : Option PiExpectation → RpcOutcome (Option GetState) → Op
  starts_bind : Option PiExpectation → RpcOutcome (Option GetState) → Op
  activates : ℕ → Bool → Op
  calls : RpcCommand → RpcOutcome (Option RpcResponse) → Op
  handles hears notes : PiEvent → Op
  clears_failed closes_rpc terminates begins_stop ends_stop completes_handoff : Op
  asks : Store.Op → Op

abbrev pub step : (List ℕ → Option QuestionRequest) → LocalSession → Op → LocalSession
step decode s (binds expected outcome) = (bind expected outcome s).0
step decode s (starts_bind expected outcome) = start_bind expected outcome s
step decode s (activates seq streaming) = activate_bound seq streaming s
step decode s (calls command outcome) = (call_rpc command outcome s).0
step decode s (handles event) = handle_event decode event s
step decode s (hears event) = event_questions decode event s
step decode s (notes event) = event_activity event s
step decode s clears_failed = clear_failed s
step decode s closes_rpc = close_rpc s
step decode s terminates = handle_rpc_termination s
step decode s begins_stop = (begin_stop s).0
step decode s ends_stop = (end_stop s).0
step decode s completes_handoff = record s {
  activity = record s.activity { lifecycle = complete_handoff s.activity.lifecycle };
}
step decode s (asks op) = record s { questions = Store.step decode s.questions op }

abbrev pub run : (List ℕ → Option QuestionRequest) → LocalSession → List Op → LocalSession
run decode s [] = s
run decode s (op ∷ ops) = run decode (step decode s op) ops

step-Continues :
    (decode : List ℕ → Option QuestionRequest) (s : LocalSession) (op : Op)
    → Continues s (step decode s op)
unfolding handle_rpc_termination clear_failed close_rpc
step-Continues decode s (binds expected outcome) = bind-Continues expected outcome s
step-Continues decode s (starts_bind expected outcome) = start-Continues expected outcome s
step-Continues decode s (activates seq streaming) =
    activity-Continues s _ (activate-Goes s.identity.kind seq streaming s.activity)
step-Continues decode s (calls command outcome) = call-Continues command outcome s
step-Continues decode s (handles event) = handle-Continues decode event s
step-Continues decode s (hears event) = questions_event-Continues decode event s
step-Continues decode s (notes event) = activity_event-Continues event s
step-Continues decode s clears_failed = clear_failing-Continues s.failing s
step-Continues decode s closes_rpc = ground arith
step-Continues decode s terminates =
    clear-Continues s (fail_active s.activity.lifecycle) s.rpc_closed true
      (fail-stage s.activity.lifecycle)
step-Continues decode s begins_stop = stop-Continues s
step-Continues decode s ends_stop = end-Continues s
step-Continues decode s completes_handoff =
    activity-Continues s _ (handoff-Goes s.activity.lifecycle)
step-Continues decode s (asks op) = questions-Continues s _ (ask-IsQuiet decode s.questions op)

run-Continues :
    (decode : List ℕ → Option QuestionRequest) (s : LocalSession) (ops : List Op)
    → Continues s (run decode s ops)
run-Continues decode s [] = Continues-refl s
run-Continues decode s (op ∷ ops) =
    Continues-trans s (step decode s op) _ (step-Continues decode s op)
      (run-Continues decode (step decode s op) ops)

-- Under every sequence of operations a session keeps its identity, and the binding to Pi once it has
-- one; its lifecycle never returns to an earlier stage; once it takes no questions any more and holds
-- none, that stays so; and that is so whenever it is stopping, and whenever it has failed and no call
-- that made it fail has still to clear the questions, if both are so at first.
pub run_lem :
    (decode : List ℕ → Option QuestionRequest) (s : LocalSession) (ops : List Op)
    → IsSettled s
    → let t = run decode s ops in
      (t.identity ≡ s.identity)
      × (is_bound s.binding ≡ true → t.binding ≡ s.binding)
      × (stage s.activity.lifecycle ≤ stage t.activity.lifecycle)
      × (IsQuiet s.questions → IsQuiet t.questions)
      × IsSettled t
run_lem decode s ops h =
    let c = run-Continues decode s ops in
    (c.same_identity, c.same_binding, c.forward, c.quiet, c.settled h)
