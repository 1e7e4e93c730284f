-- ===== src/Verifier/Tests.antt =====
-- internal/supervisor/handoff_verifier.go: handoffs that are verified and refused.
use kanedias.Base.{
  ◌≡◌, refl, false, List, [], ◌∷◌, Option, some, ok, err, String, lookup, insert, string_key, All,
}
use kanedias.Contract.{handoff_ref_missing, handoff_ref_mismatch}
use kanedias.Results.{RepositoryHandoff}
use kanedias.Workspace.{split}
use kanedias.Verifier.{
  RunResult, output, verify, verify_from, check_repository, count_matches, is_object_id,
  is_branch_pattern, valid_branch, valid_component, all_chars, ends_with, is_part, is_repository,
  new_github_handoff_verifier, add_remotes, has_prefix, has_suffix, contains_text, contains_char,
  duplicated,
}
use kanedias.Verifier.Refs.{AllNew}
use kanedias.Verifier.Trusted.{IsOnGithub, new_github_handoff_verifier-verify}

abbrev base : String
base = "0123456789012345678901234567890123456789"

abbrev head : String
head = "abcdefabcdefabcdefabcdefabcdefabcdefabcd"

abbrev change : RepositoryHandoff
change = record { repository = "o/r"; base_commit = base; branch = "fix/a"; head_commit = head }

-- A git that shows one line for any ref.
abbrev run : String → String → RunResult
run remote ref = output ref

abbrev fields : String → Option (List (List String))
fields ref = some ((head ∷ ref ∷ []) ∷ [])

abbrev remotes : List (String × String)
remotes = ("o/r", "https://github.com/o/r.git") ∷ []

made : new_github_handoff_verifier ("o/r" ∷ []) ≡ ok remotes
unfolding new_github_handoff_verifier add_remotes is_repository is_part split all_chars ends_with
    lookup insert
made = refl

verified : verify run fields remotes (change ∷ []) ≡ ok tt
unfolding verify verify_from check_repository count_matches is_object_id is_branch_pattern
    valid_branch valid_component all_chars has_prefix has_suffix contains_text contains_char split
    lookup
verified = refl

new_github_handoff_verifier-verify_example :
    AllNew [] (change ∷ []) × All (IsOnGithub run fields ("o/r" ∷ [])) (change ∷ [])
new_github_handoff_verifier-verify_example =
    (new_github_handoff_verifier-verify run fields ("o/r" ∷ []) remotes (change ∷ []) made).0
      verified

untrusted_test : verify run fields [] (change ∷ []) ≡ err handoff_ref_missing
unfolding verify verify_from check_repository lookup
untrusted_test = refl

moved_test :
    verify run (λ ref. some ((base ∷ ref ∷ []) ∷ [])) remotes (change ∷ [])
    ≡ err handoff_ref_mismatch
unfolding verify verify_from check_repository count_matches is_object_id is_branch_pattern
    valid_branch valid_component all_chars has_prefix has_suffix contains_text contains_char split
    lookup
moved_test = refl

lock_test : valid_branch "a.lock" ≡ false
unfolding valid_branch is_branch_pattern valid_component all_chars has_prefix has_suffix
    contains_text contains_char split
lock_test = refl

twice_named_test : new_github_handoff_verifier ("o/r" ∷ "o/r" ∷ []) ≡ err (duplicated "o/r")
unfolding new_github_handoff_verifier add_remotes is_repository is_part split all_chars ends_with
    lookup insert
twice_named_test = refl
