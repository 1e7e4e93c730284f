-- ===== src/Handoff/Reports.antt =====
-- internal/supervisor/result.go: a writer hands off once.
use kanedias.Base.{
  ◌≡◌, ◌≢◌, ◌↔◌, refl, List, [], ◌∷◌, Bool, true, false, Option, none, some, arith, ok, err, Result,
}
use kanedias.Contract.{Error, ChildKind}
use kanedias.Results.{RepositoryHandoff, WriteChildResult}
use kanedias.Identity.{Identity}
use kanedias.Handoff.{
  WriteHandoffRequest, HandoffAcceptance, HandoffNode, admit_handoff, forward_handoff, handoff,
  write_result, acknowledge_handoff, validate_handoff,
}

-- One call of `Handoff`: the verifier, the reporter and the request it meets.
pub record Call : Type 0 where
  pub verifier : Option (List RepositoryHandoff → Result Error (Unit {0}))
  pub report : Option (WriteChildResult → Bool)
  pub request : WriteHandoffRequest

abbrev pub run : Identity → HandoffNode → List Call → HandoffNode
run identity node [] = node
run identity node (c ∷ calls) =
    run identity (handoff c.verifier c.report identity c.request node).0 calls

-- A result is recorded exactly from the handoff that completed on.
pub record Inv (node : HandoffNode) : Type 0 where
  pub recorded : node.handoff_complete ≡ true → node.handoff_result ≢ none
  pub nothing : node.handoff_complete ≡ false → node.handoff_result ≡ none

handoff-Inv :
    (identity : Identity) (c : Call) (node : HandoffNode)
    → Inv node
    → Inv (handoff c.verifier c.report identity c.request node).0
unfolding handoff forward_handoff
handoff-Inv identity c node h = record {
  recorded = ground (arith, h.recorded);
  nothing = ground (arith, h.nothing);
}

run-Inv :
    (identity : Identity) (node : HandoffNode) (calls : List Call)
    → Inv node
    → Inv (run identity node calls)
run-Inv identity node [] h = h
run-Inv identity node (c ∷ calls) h =
    run-Inv identity (handoff c.verifier c.report identity c.request node).0 calls
      (handoff-Inv identity c node h)

-- There is a verifier and it accepts the repositories.
abbrev pub Verifies :
    Option (List RepositoryHandoff → Result Error (Unit {0})) → List RepositoryHandoff → Type 0
Verifies none repositories = ⊥
Verifies (some verify) repositories = verify repositories ≡ ok tt

-- There is a reporter and it forwards the result.
abbrev pub Forwards : Option (WriteChildResult → Bool) → WriteChildResult → Type 0
Forwards none result = ⊥
Forwards (some forwards) result = forwards result ≡ true

-- A handoff is accepted, in the name of the session, exactly if the session is a writer, the
-- request is valid, there is a verifier and it accepts the repositories, no handoff is complete,
-- and there is a reporter and it forwards the result.
pub handoff-ok_iff :
    (identity : Identity) (c : Call) (node : HandoffNode)
    → ((handoff c.verifier c.report identity c.request node).1
        ≡ ok (record { accepted = true; session_id = identity.session_id }))
      ↔ ((identity.kind ≡ ChildKind.write)
          × (validate_handoff c.request ≡ ok tt)
          × Verifies c.verifier c.request.repositories
          × (node.handoff_complete ≡ false)
          × Forwards c.report (write_result identity c.request))
unfolding handoff admit_handoff forward_handoff
handoff-ok_iff identity c node = ground arith

-- A handoff that is refused leaves the node as it was, so it can be tried again, also where its
-- result was recorded before the report of it failed.
pub handoff_refused :
    (identity : Identity) (c : Call) (node : HandoffNode) (e : Error)
    → Inv node
    → (handoff c.verifier c.report identity c.request node).1 ≡ err e
    → (handoff c.verifier c.report identity c.request node).0 ≡ node
unfolding handoff forward_handoff
handoff_refused identity c node e inv h = ground (arith, inv.nothing)

run_complete :
    (identity : Identity) (node : HandoffNode) (calls : List Call)
    → node.handoff_complete ≡ true
    → run identity node calls ≡ node
unfolding handoff forward_handoff
run_complete identity node [] h = refl
run_complete identity node (c ∷ calls) h =
    let same : (handoff c.verifier c.report identity c.request node).0 ≡ node = ground arith in
    rw same (run_complete identity node calls h)

-- Once a handoff is accepted, its result is recorded for good: whatever handoffs follow, the record
-- stays, and acknowledging succeeds.
pub accepted-run :
    (identity : Identity) (c : Call) (node : HandoffNode) (a : HandoffAcceptance)
    (calls : List Call)
    → (handoff c.verifier c.report identity c.request node).1 ≡ ok a
    → let node' = run identity (handoff c.verifier c.report identity c.request node).0 calls in
      (node'.handoff_result ≡ some (write_result identity c.request))
      × (acknowledge_handoff node' ≡ ok tt)
unfolding handoff forward_handoff acknowledge_handoff
accepted-run identity c node a calls h =
    let node' = (handoff c.verifier c.report identity c.request node).0 in
    let over : node'.handoff_complete ≡ true = ground arith in
    rw (run_complete identity node' calls over) (ground arith)
