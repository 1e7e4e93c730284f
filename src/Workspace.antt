-- ===== src/Workspace.antt =====
-- internal/config/workspace_start.go: the repository that a session starts in. The pattern
-- ^[A-Za-z0-9_.-]+$ is written out as a test of every character.
pub mod Slugs
pub mod Start
mod Tests
use Prim.Native.Char.{Char, code}
use Prim.Native.String.{String}
use kanedias.Base.{
  ℕ, Bool, true, false, not, ◌&&◌, ◌||◌, ◌==◌, leb, List, [], ◌∷◌, Result, ok, err, ◌>>=◌, ◌>>◌,
  fail_if, if◌then◌else◌, str_eq, contains_str, sort, length,
}

pub record WorkspaceStart : Type 0 where
  pub repository : String
  pub checkout : String

pub record WorkspaceRepository : Type 0 where
  pub slug : String
  pub checkout : String

pub data WorkspaceError : Type 0 where
  invalid_slug duplicate_destination : String → WorkspaceError
  checkout_mismatch : WorkspaceError

-- A slash is 47.
abbrev pub is_slash : Char → Bool
is_slash c = code c == 47

-- A character put before the first part of a split text.
abbrev pub cons_first : Char → List String → List String
cons_first c [] = String.◌∷◌ c String.[] ∷ []
cons_first c (part ∷ parts) = String.◌∷◌ c part ∷ parts

-- strings.Split(s, "/")
unfoldable pub split : String → List String
split String.[] = String.[] ∷ []
split (String.◌∷◌ c s) =
    let parts = split s in if is_slash c then String.[] ∷ parts else cons_first c parts

abbrev pub is_component_char : ℕ → Bool
is_component_char c =
    (leb 65 c && leb c 90)
    || (leb 97 c && leb c 122)
    || (leb 48 c && leb c 57)
    || c == 95
    || c == 46
    || c == 45

unfoldable pub all_component : String → Bool
all_component String.[] = true
all_component (String.◌∷◌ c s) = is_component_char (code c) && all_component s

-- repositoryComponent.MatchString
abbrev pub is_component : String → Bool
is_component s = not (str_eq s "") && all_component s

-- The tests of one slug: its owner and its name.
unfoldable pub check_parts : String → List String → Result WorkspaceError String
unfolding all_component
check_parts slug (owner ∷ name ∷ []) = do
  fail_if (str_eq owner "" || str_eq name "") (invalid_slug slug)
  fail_if (not (is_component owner) || not (is_component name)) (invalid_slug slug)
  fail_if (str_eq name "." || str_eq name "..") (invalid_slug slug)
  ok name
check_parts slug _ = err (invalid_slug slug)

unfoldable pub parse_slug : String → Result WorkspaceError String
unfolding split check_parts
parse_slug slug = check_parts slug (split slug)

-- The loop, with the checkouts seen before.
unfoldable pub parse_slugs :
    List String → List String → Result WorkspaceError (List WorkspaceRepository)
unfolding parse_slug
parse_slugs seen [] = ok []
parse_slugs seen (slug ∷ slugs) = do
  name ← parse_slug slug
  fail_if (contains_str seen name) (duplicate_destination name)
  rest ← parse_slugs (name ∷ seen) slugs
  ok (record { slug = slug; checkout = name } ∷ rest)

unfoldable pub parse_workspace_repositories :
    List String → Result WorkspaceError (List WorkspaceRepository)
unfolding parse_slugs
parse_workspace_repositories slugs = do
  repositories ← parse_slugs [] slugs
  ok (sort (λ r. r.slug) repositories)

-- len(repos) != 1 || repos[0].Checkout != start.Checkout
abbrev pub is_single : String → List WorkspaceRepository → Bool
is_single checkout (r ∷ []) = str_eq r.checkout checkout
is_single checkout _ = false

unfoldable pub validate_start : WorkspaceStart → Result WorkspaceError (Unit {0})
unfolding parse_workspace_repositories
validate_start start = if str_eq start.repository "" && str_eq start.checkout "" then ok tt else do
  repositories ← parse_workspace_repositories (start.repository ∷ [])
  fail_if (not (is_single start.checkout repositories)) checkout_mismatch
