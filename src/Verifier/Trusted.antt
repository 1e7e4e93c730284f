-- ===== src/Verifier/Trusted.antt =====
-- internal/supervisor/handoff_verifier.go: a verifier trusts the repositories that it was made with.
use kanedias.Base.{
  ◌≡◌, ◌↔◌, refl, sym, ap, ◌∙◌, Bool, true, false, not, ◌||◌, List, [], ◌∷◌, Option, none, some,
  String, ok, if◌then◌else◌, All, All-map, str_eq, str_eq_iff, contains_str, lookup, insert,
  lookup-insert, string_key, fail_if_ok, if-cases,
}
use kanedias.Results.{RepositoryHandoff}
use kanedias.Verifier.{
  RunResult, output, valid_branch, is_object_id, is_repository, is_set, ref_of, remote_of,
  add_remotes, new_github_handoff_verifier, verify,
}
use kanedias.Verifier.Refs.{IsConfirmed, AllNew, shown, verify-ok_iff}

-- The remote of a repository: its own, if it was added, or the one before.
abbrev remote_after : List String → Option String → String → Option String
remote_after repositories before r =
    if contains_str repositories r then some (remote_of r) else before

remote_after-step :
    (repositories : List String) (q r : String) (b : Bool) (before now : Option String)
    → (b ≡ true → q ≡ r)
    → now ≡ (if b then some (remote_of q) else before)
    → (if contains_str repositories r then some (remote_of r) else now)
      ≡ (if b || contains_str repositories r then some (remote_of r) else before)
remote_after-step repositories q r true before now same e =
    if-cases (λ o. o ≡ some (remote_of r)) (contains_str repositories r) _ _ (λ _. refl)
      (λ _. e ∙ ap (λ x. some (remote_of x)) (same refl))
remote_after-step repositories q r false before now same e =
    ap (λ o. if contains_str repositories r then some (remote_of r) else o) e

add_remotes-lookup :
    (before remotes : List (String × String)) (repositories : List String) (r : String)
    → add_remotes before repositories ≡ ok remotes
    → lookup r remotes ≡ remote_after repositories (lookup r before) r
unfolding add_remotes
add_remotes-lookup before remotes [] r h =
    let same : before ≡ remotes = cc in ap (lookup r) (sym same)
add_remotes-lookup before remotes (q ∷ repositories) r h =
    let (_, h1) = fail_if_ok (not (is_repository q)) _ _ remotes h in
    let (_, h2) = fail_if_ok (is_set (lookup q before)) _ _ remotes h1 in
    let rest = add_remotes-lookup (insert q (remote_of q) before) remotes repositories r h2 in
    let inserted = lookup-insert q r (remote_of q) before in
    rest ∙ remote_after-step repositories q r (str_eq q r) _ _ (str_eq_iff q r).0 inserted

-- A handoff that GitHub confirms: its repository is among those that are trusted, its branch and commits
-- are well formed, and its remote on GitHub shows the branch once, at the head commit.
pub record IsOnGithub (run : String → String → RunResult)
    (fields : String → Option (List (List String))) (trusted : List String)
    (repository : RepositoryHandoff) : Type 0 where
  pub is_trusted : contains_str trusted repository.repository ≡ true
  pub has_branch : valid_branch repository.branch ≡ true
  pub has_base : is_object_id repository.base_commit ≡ true
  pub has_head : is_object_id repository.head_commit ≡ true
  pub text : String
  pub lines : List (List String)
  pub answers : run (remote_of repository.repository) (ref_of repository) ≡ output text
  pub has_lines : fields text ≡ some lines
  pub shows_head : shown (ref_of repository) lines ≡ repository.head_commit ∷ []

module _ (run : String → String → RunResult) (fields : String → Option (List (List String))) where
  module _ (trusted : List String) (remotes : List (String × String))
      (made : new_github_handoff_verifier trusted ≡ ok remotes) where
    remote_found :
        (r remote : String) (b : Bool)
        → contains_str trusted r ≡ b
        → lookup r remotes ≡ (if b then some (remote_of r) else none)
        → lookup r remotes ≡ some remote
        → (b ≡ true) × (remote_of r ≡ remote)
    remote_found r remote true e h found = (refl, cc)
    remote_found r remote false e h found = cc

    remotes_lem :
        (r : String)
        → lookup r remotes ≡ (if contains_str trusted r then some (remote_of r) else none)
    unfolding new_github_handoff_verifier lookup
    remotes_lem r = add_remotes-lookup [] remotes trusted r made

    IsConfirmed-IsOnGithub :
        (repository : RepositoryHandoff)
        → IsConfirmed run fields remotes repository
        → IsOnGithub run fields trusted repository
    IsConfirmed-IsOnGithub repository c =
        let (there, same) =
          remote_found repository.repository c.remote _ refl (remotes_lem repository.repository)
            c.is_trusted in
        record {
          is_trusted = there;
          has_branch = c.has_branch;
          has_base = c.has_base;
          has_head = c.has_head;
          text = c.text;
          lines = c.lines;
          answers = ap (λ remote. run remote (ref_of repository)) same ∙ c.answers;
          has_lines = c.has_lines;
          shows_head = c.shows_head;
        }

    IsOnGithub-IsConfirmed :
        (repository : RepositoryHandoff)
        → IsOnGithub run fields trusted repository
        → IsConfirmed run fields remotes repository
    IsOnGithub-IsConfirmed repository c = record {
      remote = remote_of repository.repository;
      is_trusted =
          remotes_lem repository.repository
          ∙ ap (λ b. if b then some (remote_of repository.repository) else none) c.is_trusted;
      has_branch = c.has_branch;
      has_base = c.has_base;
      has_head = c.has_head;
      text = c.text;
      lines = c.lines;
      answers = c.answers;
      has_lines = c.has_lines;
      shows_head = c.shows_head;
    }

  -- A verifier that is made for some trusted repositories accepts a handoff exactly if no repository is
  -- named twice, and each is trusted, has a well-formed branch and commits, and its remote on GitHub shows
  -- the branch once, at the head commit.
  pub new_github_handoff_verifier-verify :
      (trusted : List String) (remotes : List (String × String))
      (repositories : List RepositoryHandoff)
      → new_github_handoff_verifier trusted ≡ ok remotes
      → (verify run fields remotes repositories ≡ ok tt)
        ↔ (AllNew [] repositories × All (IsOnGithub run fields trusted) repositories)
  new_github_handoff_verifier-verify trusted remotes repositories made =
      let same = verify-ok_iff run fields remotes repositories in
      (
        λ h.
            let (all_new, all) = same.0 h in
            (all_new, All-map (IsConfirmed-IsOnGithub trusted remotes made) repositories all),
        λ h. same.1 (h.0, All-map (IsOnGithub-IsConfirmed trusted remotes made) repositories h.1),
      )
