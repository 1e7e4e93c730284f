-- ===== src/Verifier.antt =====
-- internal/supervisor/handoff_verifier.go: the check of a handoff against GitHub.
pub mod Refs
pub mod Trusted
mod Tests
use Prim.Native.Char.{Char, code}
use Prim.Native.String.{◌++◌, count}
use kanedias.Base.{
  ℕ, suc, Bool, true, false, not, ◌&&◌, ◌||◌, ◌==◌, ltb, leb, List, [], ◌∷◌, Option, none, some,
  String, len, Result, ok, err, ◌>>=◌, ◌>>◌, fail_if, if◌then◌else◌, length, str_eq, contains_str,
  lookup, insert, string_key,
}
use kanedias.Contract.{
  ErrorCode, invalid_request, handoff_ref_missing, handoff_ref_mismatch, child_unavailable,
}
use kanedias.Results.{RepositoryHandoff}
use kanedias.Workspace.{split}

abbrev pub is_alnum : ℕ → Bool
is_alnum c = (leb 65 c && leb c 90) || (leb 97 c && leb c 122) || (leb 48 c && leb c 57)

-- [A-Za-z0-9_.-]
abbrev pub is_name_char : ℕ → Bool
is_name_char c = is_alnum c || c == 95 || c == 46 || c == 45

abbrev pub starts_with : (ℕ → Bool) → String → Bool
starts_with p String.[] = false
starts_with p (String.◌∷◌ c s) = p (code c)

unfoldable pub ends_with : (ℕ → Bool) → String → Bool
ends_with p String.[] = false
ends_with p (String.◌∷◌ c String.[]) = p (code c)
ends_with p (String.◌∷◌ c (String.◌∷◌ d s)) = ends_with p (String.◌∷◌ d s)

unfoldable pub all_chars : (ℕ → Bool) → String → Bool
all_chars p String.[] = true
all_chars p (String.◌∷◌ c s) = p (code c) && all_chars p s

-- [A-Za-z0-9](?:[A-Za-z0-9_.-]{0,98}[A-Za-z0-9])?
unfoldable pub is_part : String → Bool
is_part s =
    starts_with is_alnum s && ends_with is_alnum s && all_chars is_name_char s && leb (count s) 100

-- githubRepositoryPattern, on a text split at its slashes.
abbrev pub is_pair : List String → Bool
is_pair (owner ∷ name ∷ []) = is_part owner && is_part name
is_pair _ = false

unfoldable pub is_repository : String → Bool
is_repository s = is_pair (split s)

-- ^[0-9a-f]{40}(?:[0-9a-f]{24})?$
unfoldable pub is_object_id : String → Bool
is_object_id s =
    all_chars (λ c. (leb 48 c && leb c 57) || (leb 97 c && leb c 102)) s
    && (count s == 40 || count s == 64)

-- ^[A-Za-z0-9][A-Za-z0-9._/-]*$
unfoldable pub is_branch_pattern : String → Bool
is_branch_pattern s = starts_with is_alnum s && all_chars (λ c. is_name_char c || c == 47) s

-- strings.HasPrefix, strings.Contains and strings.HasSuffix
unfoldable pub has_prefix : String → String → Bool
has_prefix s String.[] = true
has_prefix String.[] (String.◌∷◌ d t) = false
has_prefix (String.◌∷◌ c s) (String.◌∷◌ d t) = code c == code d && has_prefix s t

unfoldable pub contains_text : String → String → Bool
contains_text String.[] t = has_prefix String.[] t
contains_text (String.◌∷◌ c s) t = has_prefix (String.◌∷◌ c s) t || contains_text s t

unfoldable pub has_suffix : String → String → Bool
has_suffix String.[] t = str_eq "" t
has_suffix (String.◌∷◌ c s) t = str_eq (String.◌∷◌ c s) t || has_suffix s t

-- " ~^:?*[\\\x7f"
abbrev pub is_special : ℕ → Bool
is_special c =
    c == 32
    || c == 126
    || c == 94
    || c == 58
    || c == 63
    || c == 42
    || c == 91
    || c == 92
    || c == 127

unfoldable pub contains_char : (ℕ → Bool) → String → Bool
contains_char p String.[] = false
contains_char p (String.◌∷◌ c s) = p (code c) || contains_char p s

-- The body of the loop over the components of a branch.
unfoldable pub valid_component : String → Bool
valid_component component =
    not (
      str_eq component ""
      || has_prefix component "."
      || has_suffix component "."
      || has_suffix component ".lock")
    && not (contains_char (λ c. ltb c 32) component)

abbrev pub all_components : List String → Bool
all_components [] = true
all_components (component ∷ components) = valid_component component && all_components components

unfoldable pub valid_branch : String → Bool
valid_branch branch =
    not (
      ltb 255 (len branch)
      || not (is_branch_pattern branch)
      || str_eq branch "@"
      || contains_text branch ".."
      || contains_text branch "//"
      || contains_text branch "@{"
      || contains_char is_special branch)
    && all_components (split branch)

pub data NewError : Type 0 where
  not_a_slug duplicated : String → NewError

abbrev pub is_set : Option String → Bool
is_set none = false
is_set (some remote) = true

abbrev pub remote_of : String → String
remote_of repository = "https://github.com/" ++ (repository ++ ".git")

-- The loop of `NewGitHubHandoffVerifier`, with the remotes before.
unfoldable pub add_remotes :
    List (String × String) → List String → Result NewError (List (String × String))
unfolding is_repository
add_remotes remotes [] = ok remotes
add_remotes remotes (repository ∷ repositories) = do
  fail_if (not (is_repository repository)) (not_a_slug repository)
  fail_if (is_set (lookup repository remotes)) (duplicated repository)
  add_remotes (insert repository (remote_of repository) remotes) repositories

unfoldable pub new_github_handoff_verifier : List String → Result NewError (List (String × String))
new_github_handoff_verifier repositories = add_remotes [] repositories

-- What `git ls-remote` gives for a remote and a ref: its output, or an error, with or without the end of
-- the context.
pub data RunResult : Type 0 where
  output : String → RunResult
  run_failed timed_out : RunResult

-- `matches` and `observed` after the lines: those with two fields of which the second is the ref.
unfoldable pub count_matches : String → List (List String) → ℕ × String → ℕ × String
count_matches ref [] seen = seen
count_matches ref ((commit ∷ name ∷ []) ∷ lines) seen =
    count_matches ref lines (if str_eq name ref then (suc (seen.0), commit) else seen)
count_matches ref (_ ∷ lines) seen = count_matches ref lines seen

abbrev pub ref_of : RepositoryHandoff → String
ref_of repository = "refs/heads/" ++ repository.branch

-- `run` is the runner of git; `fields` are the fields of each line of a text, or none where the scanner
-- of lines fails.
module _ (run : String → String → RunResult) (fields : String → Option (List (List String))) where
  abbrev pub compare_head : RepositoryHandoff → ℕ × String → Result ErrorCode (Unit {0})
  compare_head repository seen = do
    fail_if (not (seen.0 == 1)) handoff_ref_missing
    fail_if (not (str_eq seen.1 repository.head_commit)) handoff_ref_mismatch

  abbrev pub check_lines :
      RepositoryHandoff → Option (List (List String)) → Result ErrorCode (Unit {0})
  check_lines repository none = err child_unavailable
  check_lines repository (some lines) =
      compare_head repository (count_matches (ref_of repository) lines (0, ""))

  abbrev pub check_output : RepositoryHandoff → RunResult → Result ErrorCode (Unit {0})
  check_output repository (output text) = check_lines repository (fields text)
  check_output repository run_failed = err handoff_ref_missing
  check_output repository timed_out = err child_unavailable

  -- The body of the loop of `Verify`, from the remote of the repository.
  unfoldable pub check_repository :
      List String → RepositoryHandoff → Option String → Result ErrorCode (Unit {0})
  check_repository seen repository none = err handoff_ref_missing
  check_repository seen repository (some remote) = do
    fail_if (contains_str seen repository.repository) invalid_request
    fail_if (not (valid_branch repository.branch)) invalid_request
    fail_if (not (is_object_id repository.base_commit) || not (is_object_id repository.head_commit))
        invalid_request
    check_output repository (run remote (ref_of repository))

  unfoldable pub verify_from :
      List (String × String) → List String → List RepositoryHandoff → Result ErrorCode (Unit {0})
  verify_from remotes seen [] = ok tt
  verify_from remotes seen (repository ∷ repositories) = do
    check_repository seen repository (lookup repository.repository remotes)
    verify_from remotes (repository.repository ∷ seen) repositories

  unfoldable pub verify :
      List (String × String) → List RepositoryHandoff → Result ErrorCode (Unit {0})
  verify remotes repositories = verify_from remotes [] repositories
