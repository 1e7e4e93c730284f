-- ===== src/Policy.antt =====
-- internal/config/model_policy.go: the models of a session and of its workers, resolved from the
-- configuration. A copy of a value is the value, so `Clone` is left out.
pub mod Resolve
pub mod Validity
mod Tests
use kanedias.Base.{
  ℕ, Bool, true, false, not, ◌&&◌, ◌||◌, ◌==◌, List, [], ◌∷◌, Option, none, some, String, Result,
  ok, err, ◌>>=◌, ◌>>◌, fail_if, if◌then◌else◌, length, is_blank, contains_str, str_eq, lookup,
  insert, string_key, sort,
}
use kanedias.Identity.{is_thinking_level}

pub record ModelProfile : Type 0 where
  pub provider : String
  pub model : String
  pub thinking_level : String

pub record WorkerProfile : Type 0 where
  pub description : String
  pub provider : String
  pub model : String
  pub thinking_level : String

pub record SessionModelPolicy : Type 0 where
  pub root_model : ModelProfile
  pub workers : List (String × WorkerProfile)

pub record ModelDefinition : Type 0 where
  pub label : String
  pub provider : String
  pub model : String
  pub thinking_levels : List String
  pub default_thinking_level : String

pub record SessionDefaults : Type 0 where
  pub model_type : String
  pub thinking_level : String

pub record WorkerDefaults : Type 0 where
  pub description : String
  pub model_type : String
  pub thinking_level : String

-- The part of `Config` in internal/config/config.go that the policy is resolved from.
pub record Config : Type 0 where
  pub models : List (String × ModelDefinition)
  pub session : SessionDefaults
  pub workers : List (String × WorkerDefaults)

-- One error for each message.
pub data PolicyError : Type 0 where
  root_model_required root_level workers_required worker_name_required : PolicyError
  unknown_worker unknown_model : String → PolicyError
  description_required worker_model_required worker_level : String → PolicyError
  unsupported_level : String → String → PolicyError
  worker_failed : String → PolicyError → PolicyError

abbrev pub keys {ℓ} : {V : Type ℓ} → List (String × V) → List String
keys [] = []
keys ((name, v) ∷ m) = name ∷ keys m

-- `WorkerNames`, of a policy and of a configuration.
unfoldable pub worker_names {ℓ} : {V : Type ℓ} → List (String × V) → List String
worker_names workers = sort (λ s. s) (keys workers)

unfoldable pub resolve_worker : String → SessionModelPolicy → Result PolicyError WorkerProfile
resolve_worker name p = elim (lookup name p.workers) [
  | none ↦ err (unknown_worker name)
  | some worker ↦ ok worker
]

-- The body of the loop of `Validate`.
unfoldable pub validate_worker : String → WorkerProfile → Result PolicyError (Unit {0})
validate_worker name worker = do
  fail_if (is_blank name) worker_name_required
  fail_if (is_blank worker.description) (description_required name)
  fail_if (is_blank worker.provider || is_blank worker.model) (worker_model_required name)
  fail_if (not (is_thinking_level worker.thinking_level)) (worker_level name)

-- p.Workers[name], for a name that the map has: Go gives an empty profile for any other.
abbrev pub worker_at : Option WorkerProfile → WorkerProfile
worker_at (some worker) = worker
worker_at none = record { description = ""; provider = ""; model = ""; thinking_level = "" }

unfoldable pub validate_workers :
    List (String × WorkerProfile) → List String → Result PolicyError (Unit {0})
unfolding validate_worker
validate_workers workers [] = ok tt
validate_workers workers (name ∷ names) = do
  validate_worker name (worker_at (lookup name workers))
  validate_workers workers names

unfoldable pub validate_policy : SessionModelPolicy → Result PolicyError (Unit {0})
unfolding validate_workers
validate_policy p = do
  fail_if (is_blank p.root_model.provider || is_blank p.root_model.model) root_model_required
  fail_if (not (is_thinking_level p.root_model.thinking_level)) root_level
  fail_if (length p.workers == 0) workers_required
  validate_workers p.workers (worker_names p.workers)

-- The level that is asked for, or the default of the model.
abbrev pub level_or_default : String → ModelDefinition → String
level_or_default level model = if str_eq level "" then model.default_thinking_level else level

unfoldable pub resolve_model : Config → String → String → Result PolicyError ModelProfile
resolve_model cfg model_type level = elim (lookup model_type cfg.models) [
  | none ↦ err (unknown_model model_type)
  | some model ↦
      if contains_str model.thinking_levels (level_or_default level model)
      then ok (record {
        provider = model.provider;
        model = model.model;
        thinking_level = level_or_default level model;
      })
      else err (unsupported_level model_type (level_or_default level model))
]

-- The body of the loop of `DefaultSessionModelPolicy`.
unfoldable pub resolve_defaults :
    Config → String → WorkerDefaults → Result PolicyError WorkerProfile
unfolding resolve_model
resolve_defaults cfg name defaults =
    elim (resolve_model cfg defaults.model_type defaults.thinking_level) [
      | err e ↦ err (worker_failed name e)
      | ok profile ↦
          if is_blank defaults.description
          then err (description_required name)
          else ok (record {
            description = defaults.description;
            provider = profile.provider;
            model = profile.model;
            thinking_level = profile.thinking_level;
          })
    ]

abbrev pub defaults_at : Option WorkerDefaults → WorkerDefaults
defaults_at (some defaults) = defaults
defaults_at none = record { description = ""; model_type = ""; thinking_level = "" }

-- The loop: `resolved` holds the workers of the names before.
unfoldable pub resolve_workers :
    Config
    → List String
    → List (String × WorkerProfile)
    → Result PolicyError (List (String × WorkerProfile))
unfolding resolve_defaults
resolve_workers cfg [] resolved = ok resolved
resolve_workers cfg (name ∷ names) resolved = do
  worker ← resolve_defaults cfg name (defaults_at (lookup name cfg.workers))
  resolve_workers cfg names (insert name worker resolved)

unfoldable pub default_session_model_policy : Config → Result PolicyError SessionModelPolicy
unfolding resolve_model resolve_workers validate_policy
default_session_model_policy cfg = do
  root ← resolve_model cfg cfg.session.model_type cfg.session.thinking_level
  workers ← resolve_workers cfg (worker_names cfg.workers) []
  let policy : SessionModelPolicy = record { root_model = root; workers = workers }
  validate_policy policy
  ok policy
