-- ===== src/Verifier/Refs.antt =====
-- internal/supervisor/handoff_verifier.go: which handoffs are verified.
use kanedias.Base.{
  ℕ, suc, ◌+◌, ◌≡◌, ◌↔◌, refl, sym, ap, ◌∙◌, Bool, true, false, not, ◌||◌, ◌==◌, ==_iff, not-false,
  List, [], ◌∷◌, Option, none, some, String, ok, if◌then◌else◌, length, All, str_eq, str_eq_iff,
  contains_str, lookup, string_key, bind_ok, fail_if_ok, fail_if-ok, fail_if_iff, false_or, arith,
}
use kanedias.Results.{RepositoryHandoff}
use kanedias.Verifier.{
  RunResult, output, run_failed, timed_out, valid_branch, is_object_id, count_matches, ref_of,
  compare_head, check_lines, check_output, check_repository, verify_from, verify,
}

-- The commits of the lines that show a ref.
unfoldable pub shown : String → List (List String) → List String
shown ref [] = []
shown ref ((commit ∷ name ∷ []) ∷ lines) =
    let rest = shown ref lines in if str_eq name ref then commit ∷ rest else rest
shown ref (_ ∷ lines) = shown ref lines

abbrev last_or : String → List String → String
last_or default [] = default
last_or default (x ∷ xs) = last_or x xs

-- A line that shows the ref, or not.
count_line :
    (ref commit : String) (lines : List (List String)) (n : ℕ) (observed : String) (b : Bool)
    → ((k : ℕ) (o : String)
        → ((count_matches ref lines (k, o)).0 ≡ k + length (shown ref lines))
          × ((count_matches ref lines (k, o)).1 ≡ last_or o (shown ref lines)))
    → ((count_matches ref lines (if b then (suc n, commit) else (n, observed))).0
        ≡ n + length (if b then commit ∷ shown ref lines else shown ref lines))
      × ((count_matches ref lines (if b then (suc n, commit) else (n, observed))).1
          ≡ last_or observed (if b then commit ∷ shown ref lines else shown ref lines))
count_line ref commit lines n observed true later =
    (omega (arith, (later (suc n) commit).0), (later (suc n) commit).1)
count_line ref commit lines n observed false later = later n observed

count_matches-shown :
    (ref : String) (lines : List (List String)) (n : ℕ) (observed : String)
    → ((count_matches ref lines (n, observed)).0 ≡ n + length (shown ref lines))
      × ((count_matches ref lines (n, observed)).1 ≡ last_or observed (shown ref lines))
unfolding count_matches shown
count_matches-shown ref [] n observed = (omega arith, refl)
count_matches-shown ref ([] ∷ lines) n observed = count_matches-shown ref lines n observed
count_matches-shown ref ((a ∷ []) ∷ lines) n observed = count_matches-shown ref lines n observed
count_matches-shown ref ((a ∷ b ∷ c ∷ rest) ∷ lines) n observed =
    count_matches-shown ref lines n observed
count_matches-shown ref ((commit ∷ name ∷ []) ∷ lines) n observed =
    count_line ref commit lines n observed (str_eq name ref) (count_matches-shown ref lines)

one_shown :
    (commits : List String) (head : String)
    → ((0 + length commits ≡ 1) × (last_or "" commits ≡ head)) ↔ (commits ≡ head ∷ [])
one_shown [] head = (λ h. absurd (omega (arith, h.0)), λ h. cc)
one_shown (c ∷ []) head = (λ h. ap (λ x. x ∷ []) h.1, λ h. (omega arith, cc))
one_shown (c ∷ d ∷ commits) head = (λ h. absurd (omega (arith, h.0)), λ h. cc)

-- A handoff that GitHub confirms: its repository has a remote, its branch and commits are well formed,
-- and the remote shows the branch once, at the head commit.
pub record IsConfirmed (run : String → String → RunResult)
    (fields : String → Option (List (List String))) (remotes : List (String × String))
    (repository : RepositoryHandoff) : Type 0 where
  pub remote : String
  pub is_trusted : lookup repository.repository remotes ≡ some remote
  pub has_branch : valid_branch repository.branch ≡ true
  pub has_base : is_object_id repository.base_commit ≡ true
  pub has_head : is_object_id repository.head_commit ≡ true
  pub text : String
  pub lines : List (List String)
  pub answers : run remote (ref_of repository) ≡ output text
  pub has_lines : fields text ≡ some lines
  pub shows_head : shown (ref_of repository) lines ≡ repository.head_commit ∷ []

-- No repository twice, nor one of those before.
abbrev pub AllNew : List String → List RepositoryHandoff → Type 0
AllNew seen [] = Unit
AllNew seen (repository ∷ repositories) =
    (contains_str seen repository.repository ≡ false)
    × AllNew (repository.repository ∷ seen) repositories

module _ (run : String → String → RunResult) (fields : String → Option (List (List String))) where
  compare_head-ok_iff :
      (repository : RepositoryHandoff) (lines : List (List String))
      → (compare_head run fields repository (count_matches (ref_of repository) lines (0, ""))
          ≡ ok tt)
        ↔ (shown (ref_of repository) lines ≡ repository.head_commit ∷ [])
  compare_head-ok_iff repository lines =
      let seen = count_matches (ref_of repository) lines (0, "") in
      let counted = count_matches-shown (ref_of repository) lines 0 "" in
      let one = one_shown (shown (ref_of repository) lines) repository.head_commit in
      (
        λ h.
            let (single, h1) = fail_if_ok (not (seen.0 == 1)) _ _ tt h in
            let same = (fail_if_iff (not (str_eq seen.1 repository.head_commit)) _).0 h1 in
            one.0 (
              sym counted.0 ∙ (==_iff seen.0 1).0 (not-false _ single),
              sym counted.1 ∙ (str_eq_iff seen.1 repository.head_commit).0 (not-false _ same),
            ),
        λ h.
            let (number, commit) = one.1 h in
            fail_if-ok (not (seen.0 == 1)) _ _ tt
              (ap not ((==_iff seen.0 1).1 (counted.0 ∙ number)))
              ((fail_if_iff (not (str_eq seen.1 repository.head_commit)) _).1
                (ap not ((str_eq_iff seen.1 repository.head_commit).1 (counted.1 ∙ commit)))),
      )

  check_lines-ok :
      (repository : RepositoryHandoff) (o : Option (List (List String)))
      → check_lines run fields repository o ≡ ok tt
      → (lines : List (List String)) × ((o ≡ some lines)
          × (shown (ref_of repository) lines ≡ repository.head_commit ∷ []))
  check_lines-ok repository none h = cc
  check_lines-ok repository (some lines) h =
      (lines, (refl, (compare_head-ok_iff repository lines).0 h))

  -- What is asked of the output of git.
  abbrev Answer : RepositoryHandoff → RunResult → Type 0
  Answer repository r =
      (text : String) × (lines : List (List String)) × ((r ≡ output text)
        × ((fields text ≡ some lines)
            × (shown (ref_of repository) lines ≡ repository.head_commit ∷ [])))

  check_output-Answer :
      (repository : RepositoryHandoff) (r : RunResult)
      → check_output run fields repository r ≡ ok tt
      → Answer repository r
  check_output-Answer repository (output text) h =
      let (lines, (found, one)) = check_lines-ok repository (fields text) h in
      (text, lines, (refl, (found, one)))
  check_output-Answer repository run_failed h = cc
  check_output-Answer repository timed_out h = cc

  check_repository-IsConfirmed :
      (remotes : List (String × String)) (seen : List String) (repository : RepositoryHandoff)
      (o : Option String)
      → lookup repository.repository remotes ≡ o
      → check_repository run fields seen repository o ≡ ok tt
      → (contains_str seen repository.repository ≡ false)
        × IsConfirmed run fields remotes repository
  unfolding check_repository
  check_repository-IsConfirmed remotes seen repository none found h = cc
  check_repository-IsConfirmed remotes seen repository (some remote) found h =
      let (new, h1) = fail_if_ok (contains_str seen repository.repository) _ _ tt h in
      let (branch, h2) = fail_if_ok (not (valid_branch repository.branch)) _ _ tt h1 in
      let (commits, h3) =
        fail_if_ok
          (not (is_object_id repository.base_commit) || not (is_object_id repository.head_commit)) _
          _ tt h2 in
      let (base, head) = false_or _ _ commits in
      let (text, lines, (answers, (has_lines, shows_head))) =
        check_output-Answer repository (run remote (ref_of repository)) h3 in
      (
        new,
        record {
          remote = remote;
          is_trusted = found;
          has_branch = not-false _ branch;
          has_base = not-false _ base;
          has_head = not-false _ head;
          text = text;
          lines = lines;
          answers = answers;
          has_lines = has_lines;
          shows_head = shows_head;
        },
      )

  IsConfirmed-check_repository :
      (remotes : List (String × String)) (seen : List String) (repository : RepositoryHandoff)
      → contains_str seen repository.repository ≡ false
      → IsConfirmed run fields remotes repository
      → check_repository run fields seen repository (lookup repository.repository remotes) ≡ ok tt
  unfolding check_repository
  IsConfirmed-check_repository remotes seen repository new c =
      let answer : check_output run fields repository (run c.remote (ref_of repository)) ≡ ok tt =
        ap (check_output run fields repository) c.answers
        ∙ ap (check_lines run fields repository) c.has_lines
        ∙ (compare_head-ok_iff repository c.lines).1 c.shows_head in
      ap (check_repository run fields seen repository) c.is_trusted
      ∙ fail_if-ok (contains_str seen repository.repository) _ _ tt new (
          fail_if-ok (not (valid_branch repository.branch)) _ _ tt (ap not c.has_branch)
            (fail_if-ok _ _ _ tt (rw (c.has_base, c.has_head) refl) answer))

  verify_from-ok_iff :
      (remotes : List (String × String)) (seen : List String)
      (repositories : List RepositoryHandoff)
      → (verify_from run fields remotes seen repositories ≡ ok tt)
        ↔ (AllNew seen repositories × All (IsConfirmed run fields remotes) repositories)
  unfolding verify_from
  verify_from-ok_iff remotes seen [] = (λ h. (tt, tt), λ h. refl)
  verify_from-ok_iff remotes seen (r ∷ rest) =
      let later = verify_from-ok_iff remotes (r.repository ∷ seen) rest in
      (
        λ h.
            let (u, (first, others)) =
              bind_ok (check_repository run fields seen r (lookup r.repository remotes)) _ tt h in
            let (new, confirmed) =
              check_repository-IsConfirmed remotes seen r (lookup r.repository remotes) refl
                first in
            let (all_new, all) = later.0 others in ((new, all_new), (confirmed, all)),
        λ h. rw (IsConfirmed-check_repository remotes seen r h.0.0 h.1.0) (later.1 (h.0.1, h.1.1)),
      )

  -- A handoff is verified exactly if no repository is named twice and GitHub confirms each: it is trusted,
  -- its branch and commits are well formed, and its remote shows the branch once, at the head commit.
  pub verify-ok_iff :
      (remotes : List (String × String)) (repositories : List RepositoryHandoff)
      → (verify run fields remotes repositories ≡ ok tt)
        ↔ (AllNew [] repositories × All (IsConfirmed run fields remotes) repositories)
  unfolding verify
  verify-ok_iff remotes repositories = verify_from-ok_iff remotes [] repositories
