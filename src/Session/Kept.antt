-- ===== src/Session/Kept.antt =====
-- internal/supervisor/local.go: what each operation of a session keeps.
use kanedias.Base.{
  ◌++◌, ◌||◌, not, is_blank, ℕ, zero, suc, ◌≡◌, refl, List, [], ◌∷◌, false, Option, arith, String,
  str_eq, Result-cases, Result, if-cases, inl, inr, ok, err, string_key,
}
use kanedias.Lifecycle.{transition}
use kanedias.Questions.{QuestionRequest, clear}
use kanedias.Questions.Store as Store
use kanedias.Session.{
  LocalSession, GetState, SessionError, agent_start, agent_settled, verify_binding,
  decode_get_state,
}
use kanedias.Session.Bind.{
  RpcOutcome, PiExpectation, bind, admit_binding, start_bind, take_admitted, admit_state, replied,
  is_bound,
}
use kanedias.Session.Rpc.{
  RpcCommand, RpcResponse, PiEvent, settle_state, after_call, is_accepted, state_of, not_an_object,
  no_type, typed, call_rpc, accept_response, accept_state, handle_event, event_activity,
  event_questions, fail_terminal_invariant, clear_failing, begin_stop, end_stop,
}
use kanedias.Session.Continues.{
  Continues, IsQuiet, clear-IsQuiet, fail-stopped, note-Goes, prompt-Goes, activate-Goes,
  fail-stage, ask-IsQuiet, Continues-refl, activity-Continues, questions-Continues, Continues-trans,
}

admit-Continues :
    (r : Result SessionError (GetState × ℕ)) (s : LocalSession)
    → is_bound s.binding ≡ false
    → Continues s (admit_binding r s).0
unfolding admit_binding
admit-Continues (err e) s free = Continues-refl s
admit-Continues (ok (state, seq)) s free =
    let goes = activate-Goes s.identity.kind seq state.is_streaming s.activity in
    record {
      same_identity = refl;
      same_binding = λ bound. cc;
      forward = goes.0;
      quiet = λ was. was;
      settled = λ was. (λ over. was.0 (goes.1 over), λ over done. was.1 (goes.2 over) done);
    }

take-Continues :
    (r : Result SessionError (GetState × ℕ)) (s : LocalSession)
    → is_bound s.binding ≡ false
    → Continues s (take_admitted r s)
take-Continues (err e) s free = Continues-refl s
take-Continues (ok (state, seq)) s free = record {
  same_identity = refl;
  same_binding = λ bound. cc;
  forward = omega arith;
  quiet = λ was. was;
  settled = λ was. was;
}

pub start-Continues :
    (expected : Option PiExpectation) (outcome : RpcOutcome (Option GetState)) (s : LocalSession)
    → Continues s (start_bind expected outcome s)
unfolding start_bind
start-Continues expected outcome s =
    if-cases (Continues s) (is_bound s.binding) _ _ (λ _. Continues-refl s)
      (λ free. take-Continues (admit_state expected outcome) s free)

pub bind-Continues :
    (expected : Option PiExpectation) (outcome : RpcOutcome (Option GetState)) (s : LocalSession)
    → Continues s (bind expected outcome s).0
unfolding bind
bind-Continues expected outcome s =
    if-cases (λ (p : LocalSession × Result SessionError (Unit {0})). Continues s p.0)
      (is_bound s.binding) _ _ (λ _. Continues-refl s)
      (λ free. admit-Continues (admit_state expected outcome) s free)

stop-IsQuiet : (s : LocalSession) → IsQuiet (begin_stop s).0.questions
unfolding begin_stop clear transition
stop-IsQuiet s = record { closed = ground arith; holds_none = ground arith }

pub stop-Continues : (s : LocalSession) → Continues s (begin_stop s).0
unfolding begin_stop clear transition
stop-Continues s = record {
  same_identity = ground arith;
  same_binding = λ _. ground arith;
  forward = ground arith;
  quiet = λ _. stop-IsQuiet s;
  settled = λ _. (λ over. stop-IsQuiet s, λ over done. stop-IsQuiet s);
}

pub end-Continues : (s : LocalSession) → Continues s (end_stop s).0
unfolding end_stop transition
end-Continues s = activity-Continues s _ (ground arith)

pub questions_event-Continues :
    (decode : List ℕ → Option QuestionRequest) (event : PiEvent) (s : LocalSession)
    → Continues s (event_questions decode event s)
unfolding event_questions
questions_event-Continues decode event s =
    if-cases (Continues s) (str_eq event.type_name "extension_ui_request") _ _
      (λ _. questions-Continues s _ (ask-IsQuiet decode s.questions (Store.retains event.raw)))
      (λ _.
        if-cases (Continues s)
          (str_eq event.type_name "agent_settled" || str_eq event.type_name "agent_end") _ _
          (λ _. questions-Continues s _ (ask-IsQuiet decode s.questions Store.cancels))
          (λ _. Continues-refl s))

pub activity_event-Continues :
    (event : PiEvent) (s : LocalSession) → Continues s (event_activity event s)
unfolding event_activity
activity_event-Continues event s =
    if-cases (Continues s) (str_eq event.type_name "agent_start") _ _
      (λ _. activity-Continues s _ (note-Goes s.identity.kind agent_start event.seq s.activity))
      (λ _.
        if-cases (Continues s) (str_eq event.type_name "agent_settled") _ _
          (λ _.
            activity-Continues s _ (note-Goes s.identity.kind agent_settled event.seq s.activity))
          (λ _. Continues-refl s))

pub handle-Continues :
    (decode : List ℕ → Option QuestionRequest) (event : PiEvent) (s : LocalSession)
    → Continues s (handle_event decode event s)
unfolding handle_event
handle-Continues decode event s =
    let t = record s { published = s.published ++ event.raw ∷ [] } in
    let u = event_questions decode event t in
    Continues-trans s t _ (ground arith) (
      Continues-trans t u _ (questions_event-Continues decode event t)
        (activity_event-Continues event u))

failed-Continues : (s : LocalSession) → Continues s (fail_terminal_invariant s)
unfolding fail_terminal_invariant
failed-Continues s = record {
  same_identity = refl;
  same_binding = λ _. refl;
  forward = fail-stage s.activity.lifecycle;
  quiet = λ was. was;
  settled = λ was.
      (λ over. was.0 (fail-stopped s.activity.lifecycle over), λ over done. absurd (omega arith));
}

pub clear_failing-Continues : (n : ℕ) (s : LocalSession) → Continues s (clear_failing n s)
clear_failing-Continues zero s = Continues-refl s
clear_failing-Continues (suc n) s = record {
  same_identity = refl;
  same_binding = λ _. refl;
  forward = omega arith;
  quiet = λ _. clear-IsQuiet s.questions;
  settled = λ _. (λ over. clear-IsQuiet s.questions, λ over done. clear-IsQuiet s.questions);
}

state-Continues :
    (r : Result SessionError GetState) (s : LocalSession) → Continues s (accept_state r s).0
unfolding accept_state settle_state
state-Continues (err e) s = Continues-refl s
state-Continues (ok state) s = elim (Result-cases (verify_binding s.binding state.binding)) [
  | inl (e, bad) ↦ rw (bad, settle_state) (failed-Continues s)
  | inr (u, good) ↦ rw (good, settle_state) (ground arith)
]

response-Continues :
    (request : String) (response : Option RpcResponse) (seq : ℕ) (s : LocalSession)
    → Continues s (accept_response request response seq s).0
unfolding accept_response
response-Continues request response seq s =
    let P = λ (p : LocalSession × Result SessionError (Unit {0})). Continues s p.0 in
    if-cases P (not (is_accepted request response)) _ _ (λ _. Continues-refl s)
      (λ _.
        if-cases P (str_eq request "get_state") _ _
          (λ _. state-Continues (decode_get_state (state_of response)) s)
          (λ _.
            if-cases P (str_eq request "abort") _ _
              (λ _. questions-Continues s _ (λ h. record { closed = h.closed; holds_none = refl }))
              (λ _.
                if-cases P (str_eq request "prompt" || str_eq request "follow_up") _ _
                  (λ _. activity-Continues s _ (prompt-Goes seq s.activity))
                  (λ _. Continues-refl s))))

after-Continues :
    (request : String) (outcome : RpcOutcome (Option RpcResponse)) (s : LocalSession)
    → Continues s (after_call request outcome s).0
unfolding after_call
after-Continues request RpcOutcome.forbidden s = Continues-refl s
after-Continues request RpcOutcome.failed s = Continues-refl s
after-Continues request (replied response seq) s = response-Continues request response seq s

pub call-Continues :
    (command : RpcCommand) (outcome : RpcOutcome (Option RpcResponse)) (s : LocalSession)
    → Continues s (call_rpc command outcome s).0
unfolding call_rpc
call-Continues not_an_object outcome s = Continues-refl s
call-Continues no_type outcome s = Continues-refl s
call-Continues (typed request) outcome s =
    if-cases (λ (p : LocalSession × Result SessionError (Unit {0})). Continues s p.0)
      (is_blank request) _ _ (λ _. Continues-refl s) (λ _. after-Continues request outcome s)
