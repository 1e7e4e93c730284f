-- ===== src/Launch.antt =====
-- internal/manager/launch.go: the request of a browser for a session, resolved against the catalog.
pub mod Selections
pub mod Workspaces
pub mod Policies
mod Tests
use Prim.Native.Char.{Char, code}
use Prim.Native.String.{count}
use kanedias.Base.{
  ℕ, Bool, true, false, not, ◌&&◌, ◌||◌, ◌==◌, ltb, leb, List, [], ◌∷◌, Option, none, some, String,
  Result, ok, err, ◌>>=◌, ◌>>◌, fail_if, if◌then◌else◌, length, is_space, is_blank, str_eq,
  contains_str, lookup, insert, string_key,
}
use kanedias.Policy.{
  Config, ModelProfile, WorkerProfile, SessionModelPolicy, ModelDefinition, WorkerDefaults,
  PolicyError, keys, worker_names, resolve_model, validate_policy,
}
use kanedias.Workspace.{
  WorkspaceStart, WorkspaceRepository, WorkspaceError, parse_workspace_repositories,
}

pub record ModelSelection : Type 0 where
  pub model_type : String
  pub thinking_level : String

pub record WorkerModelSelection : Type 0 where
  pub worker_type : String
  pub model_type : String
  pub thinking_level : String

pub record SessionLaunchRequest : Type 0 where
  pub name : String
  pub repository : String
  pub root_model : ModelSelection
  pub workers : List WorkerModelSelection

pub record ResolvedSessionLaunch : Type 0 where
  pub name : String
  pub workspace : WorkspaceStart
  pub policy : SessionModelPolicy

-- `catalog` has the models, the workers and the default of the session; the orders are those of the names.
pub record LaunchConfiguration : Type 0 where
  pub catalog : Config
  pub model_order : List String
  pub worker_order : List String
  pub default_root : ModelSelection
  pub repositories : List String
  pub workspace_by_slug : List (String × WorkspaceStart)

pub data LaunchError : Type 0 where
  model_required control_character name_too_long every_worker worker_required model_type_required :
      LaunchError
  unknown_repository duplicate_worker unknown_worker missing_worker : String → LaunchError
  bad_policy : PolicyError → LaunchError
  bad_workspace : WorkspaceError → LaunchError

abbrev pub lift {ℓ κ} :
    {E : Type κ} {A : Type ℓ} → (E → LaunchError) → Result E A → Result LaunchError A
lift f (ok a) = ok a
lift f (err e) = err (f e)

abbrev pub worker_at : Option WorkerDefaults → WorkerDefaults
worker_at (some def) = def
worker_at none = record { description = ""; model_type = ""; thinking_level = "" }

-- The loop of `NewLaunchConfiguration` over the defaults of the workers.
unfoldable pub check_defaults : Config → List String → Result LaunchError (Unit {0})
check_defaults cfg [] = ok tt
check_defaults cfg (name ∷ names) = do
  let def : WorkerDefaults = worker_at (lookup name cfg.workers)
  profile ← lift bad_policy (resolve_model cfg def.model_type def.thinking_level)
  check_defaults cfg names

unfoldable pub by_slug :
    List (String × WorkspaceStart) → List WorkspaceRepository → List (String × WorkspaceStart)
by_slug m [] = m
by_slug m (r ∷ repositories) =
    by_slug (insert r.slug (record { repository = r.slug; checkout = r.checkout }) m) repositories

abbrev pub slugs_of : List WorkspaceRepository → List String
slugs_of [] = []
slugs_of (r ∷ repositories) = r.slug ∷ slugs_of repositories

unfoldable pub new_launch_configuration :
    Config → List String → Result LaunchError LaunchConfiguration
unfolding check_defaults by_slug
new_launch_configuration cfg repos = do
  fail_if (length cfg.models == 0) model_required
  profile ← lift bad_policy (resolve_model cfg cfg.session.model_type cfg.session.thinking_level)
  check_defaults cfg (worker_names cfg.workers)
  repositories ← lift bad_workspace (parse_workspace_repositories repos)
  ok (record {
    catalog = cfg;
    model_order = worker_names cfg.models;
    worker_order = worker_names cfg.workers;
    default_root = record {
      model_type = cfg.session.model_type;
      thinking_level = profile.thinking_level;
    };
    repositories = slugs_of repositories;
    workspace_by_slug = by_slug [] repositories;
  })

-- unicode.IsControl
abbrev pub is_control : ℕ → Bool
is_control c = leb c 31 || (leb 127 c && leb c 159)

unfoldable pub contains_control : String → Bool
contains_control String.[] = false
contains_control (String.◌∷◌ c s) = is_control (code c) || contains_control s

-- strings.TrimSpace
unfoldable pub trim_left : String → String
trim_left String.[] = String.[]
trim_left (String.◌∷◌ c s) =
    let rest = trim_left s in if is_space (code c) then rest else String.◌∷◌ c s

unfoldable pub trim_right : String → String
trim_right String.[] = String.[]
trim_right (String.◌∷◌ c s) =
    let rest = trim_right s in
    if is_space (code c) && is_blank s then String.[] else String.◌∷◌ c rest

abbrev pub trim_space : String → String
trim_space s = trim_right (trim_left s)

unfoldable pub resolve_name : String → Result LaunchError String
resolve_name name = do
  fail_if (contains_control name) control_character
  fail_if (ltb 80 (count (trim_space name))) name_too_long
  ok (trim_space name)

module _ (lc : LaunchConfiguration) where
  abbrev pub known_workspace : String → Option WorkspaceStart → Result LaunchError WorkspaceStart
  known_workspace repository none = err (unknown_repository repository)
  known_workspace repository (some start) = ok start

  unfoldable pub resolve_workspace : String → Result LaunchError WorkspaceStart
  resolve_workspace repository =
      if str_eq repository ""
      then ok (record { repository = ""; checkout = "" })
      else known_workspace repository (lookup repository lc.workspace_by_slug)

  -- `resolveModelProfile`, which after its first test does what `ResolveModel` of the configuration does.
  unfoldable pub resolve_model_profile : String → String → Result LaunchError ModelProfile
  resolve_model_profile model_type level = do
    fail_if (str_eq model_type "") model_type_required
    lift bad_policy (resolve_model lc.catalog model_type level)

  abbrev pub known_worker : String → Option WorkerDefaults → Result LaunchError WorkerDefaults
  known_worker name none = err (unknown_worker name)
  known_worker name (some def) = ok def

  abbrev pub profile_of : WorkerDefaults → ModelProfile → WorkerProfile
  profile_of def profile = record {
    description = def.description;
    provider = profile.provider;
    model = profile.model;
    thinking_level = profile.thinking_level;
  }

  -- The loop over the selections, with the workers of those before, whose names are `seen`.
  unfoldable pub resolve_selections :
      List String
      → List (String × WorkerProfile)
      → List WorkerModelSelection
      → Result LaunchError (List String × List (String × WorkerProfile))
  resolve_selections seen workers [] = ok (seen, workers)
  resolve_selections seen workers (sel ∷ sels) = do
    fail_if (str_eq sel.worker_type "") worker_required
    fail_if (contains_str seen sel.worker_type) (duplicate_worker sel.worker_type)
    def ← known_worker sel.worker_type (lookup sel.worker_type lc.catalog.workers)
    profile ← resolve_model_profile sel.model_type sel.thinking_level
    resolve_selections (sel.worker_type ∷ seen)
        (insert sel.worker_type (profile_of def profile) workers) sels

  unfoldable pub check_missing : List String → List String → Result LaunchError (Unit {0})
  check_missing seen [] = ok tt
  check_missing seen (name ∷ names) = do
    fail_if (not (contains_str seen name)) (missing_worker name)
    check_missing seen names

  unfoldable pub resolve : SessionLaunchRequest → Result LaunchError ResolvedSessionLaunch
  resolve request = do
    name ← resolve_name request.name
    workspace ← resolve_workspace request.repository
    root ← resolve_model_profile request.root_model.model_type request.root_model.thinking_level
    fail_if (not (length request.workers == length (keys lc.catalog.workers))) every_worker
    resolved ← resolve_selections [] [] request.workers
    check_missing (resolved.0) lc.worker_order
    lift bad_policy (validate_policy (record { root_model = root; workers = resolved.1 }))
    ok (record {
      name = name;
      workspace = workspace;
      policy = record { root_model = root; workers = resolved.1 };
    })
