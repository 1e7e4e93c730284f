-- ===== src/Handoff/Requests.antt =====
-- internal/supervisor/result.go: which handoff requests are valid.
use kanedias.Base.{
  ◌≤◌, ◌≡◌, refl, ◌↔◌, List, [], ◌∷◌, false, arith, ok, String, len, is_blank, contains_str, All,
  length,
}
use kanedias.Results.{RepositoryHandoff}
use kanedias.Handoff.{
  WriteHandoffRequest, check_fields, check_repositories, check_verification, validate_handoff,
}

-- A repository whose four fields are filled in and within their bounds in bytes.
pub record IsRepository (r : RepositoryHandoff) : Type 0 where
  pub named : is_blank r.repository ≡ false
  pub based : is_blank r.base_commit ≡ false
  pub branched : is_blank r.branch ≡ false
  pub headed : is_blank r.head_commit ≡ false
  pub repository_bound : len r.repository ≤ 200
  pub branch_bound : len r.branch ≤ 255
  pub base_bound : len r.base_commit ≤ 64
  pub head_bound : len r.head_commit ≤ 64

-- Every name differs from those in the list and from the names before it.
abbrev pub AreNew : List String → List RepositoryHandoff → Type 0
AreNew seen [] = Unit
AreNew seen (r ∷ repositories) =
    (contains_str seen r.repository ≡ false) × AreNew (r.repository ∷ seen) repositories

check_repositories-ok :
    (seen : List String) (repositories : List RepositoryHandoff)
    → check_repositories seen repositories ≡ ok tt
    → All IsRepository repositories × AreNew seen repositories
unfolding check_repositories check_fields
check_repositories-ok seen [] h = (tt, tt)
check_repositories-ok seen (r ∷ repositories) h =
    let rest : check_repositories (r.repository ∷ seen) repositories ≡ ok tt = ground arith in
    let (sound, new) = check_repositories-ok (r.repository ∷ seen) repositories rest in
    (
      (
        record {
          named = ground arith;
          based = ground arith;
          branched = ground arith;
          headed = ground arith;
          repository_bound = ground arith;
          branch_bound = ground arith;
          base_bound = ground arith;
          head_bound = ground arith;
        },
        sound,
      ),
      (ground arith, new),
    )

ok-check_repositories :
    (seen : List String) (repositories : List RepositoryHandoff)
    → All IsRepository repositories
    → AreNew seen repositories
    → check_repositories seen repositories ≡ ok tt
unfolding check_repositories check_fields
ok-check_repositories seen [] sound new = refl
ok-check_repositories seen (r ∷ repositories) sound new =
    let h = sound.0 in
    ground (
      arith,
      ok-check_repositories (r.repository ∷ seen) repositories sound.1 new.1,
      h.named,
      h.based,
      h.branched,
      h.headed,
      h.repository_bound,
      h.branch_bound,
      h.base_bound,
      h.head_bound,
    )

check_verification-ok_iff :
    (verification : List String)
    → (check_verification verification ≡ ok tt) ↔ All (λ v. is_blank v ≡ false) verification
unfolding check_verification
check_verification-ok_iff [] = ground arith
check_verification-ok_iff (v ∷ verification) =
    ground (arith, check_verification-ok_iff verification)

-- A handoff request is valid exactly if it has between 1 and 64 repositories, whose fields are
-- filled in and within bounds and whose names differ from each other, a summary, and no blank
-- entry of evidence.
pub validate_handoff-ok_iff :
    (r : WriteHandoffRequest)
    → (validate_handoff r ≡ ok tt) ↔ (
        (1 ≤ length r.repositories)
        × (length r.repositories ≤ 64)
        × (is_blank r.summary ≡ false)
        × All IsRepository r.repositories
        × AreNew [] r.repositories
        × All (λ v. is_blank v ≡ false) r.verification)
unfolding validate_handoff
validate_handoff-ok_iff r = ground (
  arith,
  check_repositories-ok [] r.repositories,
  ok-check_repositories [] r.repositories,
  check_verification-ok_iff r.verification,
)
