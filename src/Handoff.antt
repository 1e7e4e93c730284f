-- ===== src/Handoff.antt =====
-- internal/supervisor/result.go: the handoff of a write child, with `completeHandoff` of
-- internal/supervisor/local.go. The verifier and the reporter are parameters: they are functions of
-- the interfaces that the node is given. The message of an error that quotes another error stops
-- before the quotation.
pub mod Requests
pub mod Reports
mod Tests
use kanedias.Base.{
  ℕ, Bool, true, false, not, ◌&&◌, ◌||◌, ltb, ◌==◌, List, [], ◌∷◌, Option, none, some, String, len,
  Result, ok, err, ◌>>=◌, ◌>>◌, fail_if, if◌then◌else◌, length, is_blank, contains_str,
}
use kanedias.Contract.{ChildKind, Error, invalid, conflict, internal, child_unavailable}
use kanedias.Results.{RepositoryHandoff, WriteChildResult, is_write}
use kanedias.Lifecycle.{LifecycleState, running, awaiting_handoff, completed, transition}
use kanedias.Identity.{Identity}

pub record WriteHandoffRequest : Type 0 where
  pub repositories : List RepositoryHandoff
  pub summary : String
  pub verification : List String

pub record HandoffAcceptance : Type 0 where
  pub accepted : Bool
  pub session_id : String

-- The loop over the fields of a repository. Go takes them in any order, which shows in the message
-- only.
unfoldable pub check_fields : RepositoryHandoff → Result Error (Unit {0})
check_fields r = do
  fail_if (is_blank r.repository) (invalid "handoff repository repository is required")
  fail_if (is_blank r.base_commit) (invalid "handoff repository baseCommit is required")
  fail_if (is_blank r.branch) (invalid "handoff repository branch is required")
  fail_if (is_blank r.head_commit) (invalid "handoff repository headCommit is required")

abbrev pub is_too_long : RepositoryHandoff → Bool
is_too_long r =
    ltb 200 (len r.repository)
    || ltb 255 (len r.branch)
    || ltb 64 (len r.base_commit)
    || ltb 64 (len r.head_commit)

-- The loop over the repositories.
unfoldable pub check_repositories : List String → List RepositoryHandoff → Result Error (Unit {0})
unfolding check_fields
check_repositories seen [] = ok tt
check_repositories seen (r ∷ repositories) = do
  check_fields r
  fail_if (is_too_long r) (invalid "handoff repository fields exceed safe rendering bounds")
  fail_if (contains_str seen r.repository) (invalid "handoff repositories must be unique")
  check_repositories (r.repository ∷ seen) repositories

-- The loop over the evidence.
unfoldable pub check_verification : List String → Result Error (Unit {0})
check_verification [] = ok tt
check_verification (evidence ∷ verification) = do
  fail_if (is_blank evidence) (invalid "handoff verification entries must be nonempty")
  check_verification verification

unfoldable pub validate_handoff : WriteHandoffRequest → Result Error (Unit {0})
unfolding check_repositories check_verification
validate_handoff request = do
  fail_if (length request.repositories == 0) (invalid "handoff requires at least one repository")
  fail_if (ltb 64 (length request.repositories))
      (invalid "handoff supports at most 64 repositories")
  fail_if (is_blank request.summary) (invalid "handoff summary is required")
  check_repositories [] request.repositories
  check_verification request.verification

-- What a handoff uses of a node; `local` is the lifecycle of its local session, if it has one.
pub record HandoffNode : Type 0 where
  pub handoff_complete : Bool
  pub handoff_result : Option WriteChildResult
  pub local : Option LifecycleState

-- `completeHandoff`
unfoldable pub complete_handoff : LifecycleState → LifecycleState
complete_handoff running = (transition running completed).0
complete_handoff awaiting_handoff = (transition awaiting_handoff completed).0
complete_handoff state = state

abbrev pub complete_local : Option LifecycleState → Option LifecycleState
complete_local none = none
complete_local (some state) = some (complete_handoff state)

abbrev pub write_result : Identity → WriteHandoffRequest → WriteChildResult
write_result identity request = record {
  kind = ChildKind.write;
  worker_type = identity.worker;
  session_id = identity.session_id;
  repositories = request.repositories;
  summary = request.summary;
  verification = request.verification;
}

abbrev pub refuse : String → Error
refuse message = record { code = conflict; message = message }

-- The part of `Handoff` before the lock.
unfoldable pub admit_handoff :
    Option (List RepositoryHandoff → Result Error (Unit {0}))
    → Identity
    → WriteHandoffRequest
    → Result Error (Unit {0})
unfolding validate_handoff
admit_handoff verifier identity request = do
  fail_if (not (is_write identity.kind))
      (refuse "handoff is accepted only by the owning write session")
  validate_handoff request
  elim verifier [
    | none ↦
        err (record { code = internal; message = "host GitHub handoff verifier is unavailable" })
    | some verify ↦ verify request.repositories
  ]

-- The part of `Handoff` under the lock. `report` is none where the node has no reporter, and
-- answers whether a report was forwarded.
unfoldable pub forward_handoff :
    Option (WriteChildResult → Bool)
    → Identity
    → WriteHandoffRequest
    → HandoffNode
    → HandoffNode × Result Error HandoffAcceptance
unfolding complete_handoff
forward_handoff report identity request node =
    if node.handoff_complete
    then (node, err (refuse "writer handoff is already complete"))
    else elim report [
      | none ↦ (node, err (refuse "writer handoff reporter is unavailable"))
      | some forwards ↦
          let result = write_result identity request in
          if forwards result
          then (
            record {
              handoff_complete = true;
              handoff_result = some result;
              local = complete_local node.local;
            },
            ok (record { accepted = true; session_id = identity.session_id }),
          )
          else (
            record node { handoff_result = none },
            err (record { code = child_unavailable; message = "forward writer handoff to parent" }),
          )
    ]

unfoldable pub handoff :
    Option (List RepositoryHandoff → Result Error (Unit {0}))
    → Option (WriteChildResult → Bool)
    → Identity
    → WriteHandoffRequest
    → HandoffNode
    → HandoffNode × Result Error HandoffAcceptance
unfolding admit_handoff forward_handoff
handoff verifier report identity request node = elim (admit_handoff verifier identity request) [
  | err e ↦ (node, err e)
  | ok u ↦ forward_handoff report identity request node
]

-- `AcknowledgeHandoff`; the watchdog that it arms is not part of the state.
unfoldable pub acknowledge_handoff : HandoffNode → Result Error (Unit {0})
acknowledge_handoff node =
    fail_if (not node.handoff_complete) (refuse "writer handoff has not been accepted")
