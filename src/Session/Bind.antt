-- ===== src/Session/Bind.antt =====
-- internal/supervisor/local.go: binding a session to Pi.
use kanedias.Base.{
  ℕ, Bool, not, ◌&&◌, ◌||◌, Option, none, some, str_eq, Result, ok, err, ◌>>=◌, ◌>>◌, fail_if,
  if◌then◌else◌,
}
use kanedias.Policy.{ModelProfile}
use kanedias.Identity.{validate_expected_model}
use kanedias.Session.{
  LocalSession, PiBinding, GetState, SessionError, already_bound, fork_id_mismatch,
  fork_file_mismatch, model_mismatch, illegal_transition, rpc_failed, expectation,
  validate_pi_binding, decode_get_state,
}
use kanedias.Session.Activity.{activate}

-- What a call of the RPC returns: a forbidden command, another error, or a reply with its number.
pub data RpcOutcome (A : Type 0) : Type 0 where
  forbidden failed : RpcOutcome A
  replied : A → ℕ → RpcOutcome A

-- `PiExpectation`: the binding of a fork, and the model.
pub record PiExpectation : Type 0 where
  pub binding : Option PiBinding
  pub model : ModelProfile

abbrev pub model_eq : ModelProfile → ModelProfile → Bool
model_eq a b =
    str_eq a.provider b.provider
    && str_eq a.model b.model
    && str_eq a.thinking_level b.thinking_level

unfoldable pub check_fork : Option PiBinding → PiBinding → Result SessionError (Unit {0})
check_fork none reported = ok tt
check_fork (some b) reported = do
  fail_if (not (str_eq reported.session_id b.session_id)) fork_id_mismatch
  fail_if (not (str_eq reported.session_file b.session_file)) fork_file_mismatch

unfoldable pub check_expected : Option PiExpectation → GetState → Result SessionError (Unit {0})
unfolding check_fork
check_expected none state = ok tt
check_expected (some e) state = do
  check_fork e.binding state.binding
  fail_if (not (model_eq state.model e.model)) model_mismatch

-- What `bind` admits of a reply.
unfoldable pub admit_state :
    Option PiExpectation → RpcOutcome (Option GetState) → Result SessionError (GetState × ℕ)
unfolding decode_get_state validate_pi_binding check_expected
admit_state expected (replied reply seq) = do
  state ← decode_get_state reply
  validate_pi_binding state.binding
  check_expected expected state
  ok (state, seq)
admit_state expected _ = err rpc_failed

abbrev pub is_bound : PiBinding → Bool
is_bound b = not (str_eq b.session_id "") || not (str_eq b.session_file "")

-- The section of `bind` under mu, and the one under activityMu after it.
abbrev pub take_binding : GetState → LocalSession → LocalSession
take_binding state s = record s { binding = state.binding; model = state.model }

abbrev pub activate_bound : ℕ → Bool → LocalSession → LocalSession
activate_bound seq streaming s = record s {
  activity = (activate s.identity.kind seq streaming s.activity).0;
}

abbrev pub take_admitted : Result SessionError (GetState × ℕ) → LocalSession → LocalSession
take_admitted (err e) s = s
take_admitted (ok (state, seq)) s = take_binding state s

-- `bind` up to the unlock of mu.
unfoldable pub start_bind :
    Option PiExpectation → RpcOutcome (Option GetState) → LocalSession → LocalSession
unfolding admit_state
start_bind expected outcome s =
    if is_bound s.binding then s else take_admitted (admit_state expected outcome) s

-- `bind` once the reply is admitted or not.
unfoldable pub admit_binding :
    Result SessionError (GetState × ℕ)
    → LocalSession
    → LocalSession × Result SessionError (Unit {0})
unfolding activate
admit_binding (err e) s = (s, err e)
admit_binding (ok (state, seq)) s =
    let next = activate s.identity.kind seq state.is_streaming s.activity in
    (
      activate_bound seq state.is_streaming (take_binding state s),
      fail_if (not next.1) illegal_transition,
    )

unfoldable pub bind :
    Option PiExpectation
    → RpcOutcome (Option GetState)
    → LocalSession
    → LocalSession × Result SessionError (Unit {0})
unfolding admit_state admit_binding
bind expected outcome s =
    if is_bound s.binding
    then (s, err already_bound)
    else admit_binding (admit_state expected outcome) s

-- `BindExpected`
unfoldable pub bind_expected :
    PiExpectation
    → RpcOutcome (Option GetState)
    → LocalSession
    → LocalSession × Result SessionError (Unit {0})
unfolding bind
bind_expected expected outcome s =
    elim (validate_expected_model expected.model.provider expected.model.model
      expected.model.thinking_level) [
        | err e ↦ (s, err (expectation e))
        | ok u ↦ bind (some expected) outcome s
      ]
