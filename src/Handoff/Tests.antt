-- ===== src/Handoff/Tests.antt =====
-- internal/supervisor/result.go on one handoff of one repository.
use kanedias.Base.{◌≡◌, refl, [], ◌∷◌, Bool, true, false, none, some, ok, err, is_blank}
use kanedias.Contract.{ChildKind, ContextMode, Error, child_unavailable}
use kanedias.Identity.{Identity}
use kanedias.Lifecycle.{running}
use kanedias.Handoff.{
  WriteHandoffRequest, HandoffNode, HandoffAcceptance, validate_handoff, handoff, write_result,
}
use kanedias.Handoff.Requests.{validate_handoff-ok_iff}
use kanedias.Handoff.Reports.{Call, run, handoff-ok_iff, handoff_refused, accepted-run}

abbrev request : WriteHandoffRequest
request = record {
  repositories =
      record { repository = "web"; base_commit = "a1"; branch = "fix"; head_commit = "b2" } ∷ [];
  summary = "done";
  verification = "go test" ∷ [];
}

abbrev writer : Identity
writer = record {
  session_id = "child-1";
  parent_id = "root";
  root_id = "root";
  kind = ChildKind.write;
  context = ContextMode.fresh;
  worker = "implementer";
}

abbrev fresh_node : HandoffNode
fresh_node = record { handoff_complete = false; handoff_result = none; local = some running }

abbrev call : Bool → Call
call forwarded = record {
  verifier = some (λ repositories. ok tt);
  report = some (λ result. forwarded);
  request = request;
}

abbrev acceptance : HandoffAcceptance
acceptance = record { accepted = true; session_id = "child-1" }

valid : validate_handoff request ≡ ok tt
unfolding validate_handoff is_blank
valid = refl

accepted :
    (handoff (call true).verifier (call true).report writer request fresh_node).1 ≡ ok acceptance
unfolding handoff is_blank
accepted = refl

validate_handoff-ok_iff_test : is_blank request.summary ≡ false
validate_handoff-ok_iff_test = ((validate_handoff-ok_iff request).0 valid).2

handoff-ok_iff_example :
    (handoff (call true).verifier (call true).report writer request fresh_node).1 ≡ ok acceptance
handoff-ok_iff_example =
    (handoff-ok_iff writer (call true) fresh_node).1 (refl, valid, refl, refl, refl)

abbrev failed : Error
failed = record { code = child_unavailable; message = "forward writer handoff to parent" }

refused :
    (handoff (call false).verifier (call false).report writer request fresh_node).1 ≡ err failed
unfolding handoff is_blank
refused = refl

handoff_refused_example :
    (handoff (call false).verifier (call false).report writer request fresh_node).0 ≡ fresh_node
handoff_refused_example =
    handoff_refused writer (call false) fresh_node failed
      (record { recorded = λ h. cc; nothing = λ h. refl }) refused

accepted-run_example :
    (run writer
      (handoff (call true).verifier (call true).report writer request fresh_node).0
      (call false ∷ call true ∷ [])).handoff_result
    ≡ some (write_result writer request)
accepted-run_example =
    (accepted-run writer (call true) fresh_node acceptance (call false ∷ call true ∷ []) accepted).0
