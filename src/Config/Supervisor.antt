-- ===== src/Config/Supervisor.antt =====
-- internal/config/config.go: what a configuration that ValidateSupervisor accepts gives to a supervisor.
use kanedias.Base.{
  ◌≡◌, ◌≢◌, ◌⊎◌, inl, inr, sym, ap, ◌∙◌, true, false, some, String, Result, ok, err, contains_str,
  str_eq, str_eq_iff, lookup, string_key, Bool-cases, bind_ok, arith,
}
use kanedias.Identity.{is_thinking_level}
use kanedias.Policy.{
  Config as PolicyConfig, ModelDefinition, SessionModelPolicy, default_session_model_policy,
  resolve_model, validate_policy,
}
use kanedias.Policy.Resolve.{default_session_model_policy-Resolves}
use kanedias.Config.Server.{EventLimits, limits}
use kanedias.Config.Resolve.{limits-ok_iff}
use kanedias.Config.{Config}
use kanedias.Config.Catalog.{
  ConfigError, lift, validate_model_catalog, validate_lifecycle, validate_child_runtime,
  validate_supervisor, events_failed, policy_failed,
}
use kanedias.Config.Models.{IsModel, IsCatalog, validate_model_catalog-IsCatalog}

lift-ok : {E A : Type 0} (f : E → ConfigError) (r : Result E A) (a : A) → lift f r ≡ ok a → r ≡ ok a
lift-ok f (ok b) a h = cc
lift-ok f (err e) a h = cc

-- The runtime of a node: an image, and limits of events of which at least one is not 0.
pub record IsRuntime (cfg : Config) : Type 0 where
  pub has_name : str_eq cfg.base_image.name "" ≡ false
  pub has_source : str_eq cfg.base_image.source "" ≡ false
  pub has_image : str_eq cfg.base_image.image "" ≡ false
  pub event_limits :
      (l : EventLimits) × ((limits cfg.supervisor_events ≡ ok l)
        × ((l.max_events ≢ 0) ⊎ (l.max_bytes ≢ 0)))

-- What a supervisor needs: a runtime, a catalog, a policy for the session, and every model of the
-- catalog at each of its levels, or at its default where none is asked for.
pub record IsReady (cfg : Config) : Type 0 where
  pub runtime : IsRuntime cfg
  pub catalog : IsCatalog cfg.policy.models
  pub session_policy :
      (p : SessionModelPolicy) × ((default_session_model_policy cfg.policy ≡ ok p)
        × (validate_policy p ≡ ok tt))
  pub resolves :
      (name : String) (def : ModelDefinition) (level : String)
      → lookup name cfg.policy.models ≡ some def
      → contains_str def.thinking_levels level ≡ true
      → resolve_model cfg.policy name level
        ≡ ok (record { provider = def.provider; model = def.model; thinking_level = level })
  pub resolves_default :
      (name : String) (def : ModelDefinition)
      → lookup name cfg.policy.models ≡ some def
      → resolve_model cfg.policy name ""
        ≡ ok (record {
          provider = def.provider;
          model = def.model;
          thinking_level = def.default_thinking_level;
        })

validate_child_runtime-IsRuntime :
    (cfg : Config) → validate_child_runtime cfg ≡ ok tt → IsRuntime cfg
unfolding validate_child_runtime validate_lifecycle
validate_child_runtime-IsRuntime cfg h =
    let (u, (image, rest)) = bind_ok (validate_lifecycle cfg.base_image) _ tt h in
    let (l, (lifted, _)) = bind_ok (lift events_failed (limits cfg.supervisor_events)) _ tt rest in
    let resolved = lift-ok events_failed (limits cfg.supervisor_events) l lifted in
    record {
      has_name = ground (arith, image);
      has_source = ground (arith, image);
      has_image = ground (arith, image);
      event_limits = (l, (resolved, ((limits-ok_iff cfg.supervisor_events l).0 resolved).2));
    }

thinking_level-not_empty :
    (level : String) → is_thinking_level level ≡ true → str_eq level "" ≡ false
unfolding is_thinking_level
thinking_level-not_empty level h = elim (Bool-cases (str_eq level "")) [
  | inl empty ↦
      let bad : is_thinking_level "" ≡ true =
        sym (ap is_thinking_level ((str_eq_iff level "").0 empty)) ∙ h in
      absurd (ground (arith, bad))
  | inr given ↦ given
]

module _ (cfg : PolicyConfig) where
  resolve_model-level :
      (name : String) (def : ModelDefinition) (level : String)
      → lookup name cfg.models ≡ some def
      → IsModel name def
      → contains_str def.thinking_levels level ≡ true
      → resolve_model cfg name level
        ≡ ok (record { provider = def.provider; model = def.model; thinking_level = level })
  unfolding resolve_model
  resolve_model-level name def level found model there =
      rw (resolve_model, found)
        (ground (arith, there, thinking_level-not_empty level (model.levels_are_valid level there)))

  resolve_model-default :
      (name : String) (def : ModelDefinition)
      → lookup name cfg.models ≡ some def
      → IsModel name def
      → resolve_model cfg name ""
        ≡ ok (record {
          provider = def.provider;
          model = def.model;
          thinking_level = def.default_thinking_level;
        })
  unfolding resolve_model
  resolve_model-default name def found model =
      rw (resolve_model, found) (ground (arith, model.default_is_supported))

-- A configuration that ValidateSupervisor accepts names an image and has limits of events of which at
-- least one is not 0; its model types are slugs with a label, distinct pairs of provider and model, valid
-- levels that occur once and a default among them; the policy of the session resolves and is valid; and
-- every model resolves at each of its levels, and at its default if none is asked for.
pub validate_supervisor-IsReady : (cfg : Config) → validate_supervisor cfg ≡ ok tt → IsReady cfg
unfolding validate_supervisor
validate_supervisor-IsReady cfg h =
    let (u, (runtime, rest)) = bind_ok (validate_child_runtime cfg) _ tt h in
    let (v, (catalog, last)) = bind_ok (validate_model_catalog cfg.policy.models) _ tt rest in
    let (p, (lifted, _)) =
      bind_ok (lift policy_failed (default_session_model_policy cfg.policy)) _ tt last in
    let resolved = lift-ok policy_failed (default_session_model_policy cfg.policy) p lifted in
    let models = validate_model_catalog-IsCatalog cfg.policy.models catalog in
    record {
      runtime = validate_child_runtime-IsRuntime cfg runtime;
      catalog = models;
      session_policy =
          (p, (resolved, (default_session_model_policy-Resolves cfg.policy p resolved).0));
      resolves = λ name def level found there.
          resolve_model-level cfg.policy name def level found (models.each name def found) there;
      resolves_default = λ name def found.
          resolve_model-default cfg.policy name def found (models.each name def found);
    }
