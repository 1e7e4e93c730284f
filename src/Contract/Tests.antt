-- ===== src/Contract/Tests.antt =====
-- internal/supervisor/contract on single requests.
use kanedias.Base.{◌≡◌, refl, inr, none, some, is_blank, ok}
use kanedias.Contract.{ChildKind, ContextMode, CreateChildRequest, http_status, validate, invalid}
use kanedias.Contract.Requests.{validate-ok_iff, validate-http_status}

abbrev request : CreateChildRequest
request = record {
  worker_type = "coder";
  kind = ChildKind.write;
  context = ContextMode.fork;
  task = "fix it";
  fork_spec = some (record { session_file = "s"; pi_session_id = "p"; leaf_entry_id = "l" });
}

validate-ok_iff_test : validate request ≡ ok tt
unfolding is_blank
validate-ok_iff_test =
    (validate-ok_iff request).1 (refl, inr refl, refl, inr (refl, (refl, refl, refl)))

abbrev bare : CreateChildRequest
bare = record request { fork_spec = none }

validate-http_status_test : http_status (invalid "fork is required for fork context").code ≡ 400
unfolding validate is_blank
validate-http_status_test =
    validate-http_status bare (invalid "fork is required for fork context") refl
