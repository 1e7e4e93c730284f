-- ===== src/Config/Catalog.antt =====
-- internal/config/config.go: the catalog of models and the validation of a configuration.
use Prim.Native.Char.{code}
use Prim.Native.String.{◌++◌, count}
use kanedias.Base.{
  ℕ, Bool, true, false, not, ◌&&◌, ◌||◌, ◌==◌, leb, List, [], ◌∷◌, Option, none, some, String,
  Result, ok, err, ◌>>=◌, ◌>>◌, fail_if, if◌then◌else◌, length, is_blank, contains_str, str_eq,
  lookup, insert, string_key,
}
use kanedias.Identity.{is_thinking_level}
use kanedias.Policy.{ModelDefinition, PolicyError, worker_names, default_session_model_policy}
use kanedias.Config.Server.{ServerError, limits}
use kanedias.Config.{BaseImage, Network, Config}

pub data ConfigError : Type 0 where
  base_image_name base_image_source base_image_image model_required : ConfigError
  invalid_name label_required provider_required model_name_required : String → ConfigError
  duplicate_pair duplicate_level invalid_level default_unsupported : String → String → ConfigError
  levels_required default_required : String → ConfigError
  events_failed : ServerError → ConfigError
  policy_failed : PolicyError → ConfigError
  ipv4_required ipv4_invalid not_ipv4 ipv6_invalid not_ipv6 : ConfigError

-- The error of another package, wrapped.
abbrev pub lift {ℓ κ} :
    {E : Type κ} {A : Type ℓ} → (E → ConfigError) → Result E A → Result ConfigError A
lift f (ok a) = ok a
lift f (err e) = err (f e)

-- ^[a-z0-9][a-z0-9-]{0,62}$
abbrev pub is_slug_first : ℕ → Bool
is_slug_first c = (leb 97 c && leb c 122) || (leb 48 c && leb c 57)

unfoldable pub all_slug : String → Bool
all_slug String.[] = true
all_slug (String.◌∷◌ c s) = (is_slug_first (code c) || code c == 45) && all_slug s

unfoldable pub is_model_type : String → Bool
unfolding all_slug
is_model_type String.[] = false
is_model_type (String.◌∷◌ c s) = is_slug_first (code c) && all_slug s && leb (count s) 62

-- The loop over the levels, with those seen before.
unfoldable pub check_levels : String → List String → List String → Result ConfigError (Unit {0})
check_levels model seen [] = ok tt
check_levels model seen (level ∷ levels) = do
  fail_if (not (is_thinking_level level)) (invalid_level model level)
  fail_if (contains_str seen level) (duplicate_level model level)
  check_levels model (level ∷ seen) levels

abbrev pub pair_of : ModelDefinition → String
pair_of def = def.provider ++ ("/" ++ def.model)

abbrev pub is_seen : Option String → Bool
is_seen none = false
is_seen (some previous) = true

-- The body of the loop over the models; `seen` has the model type of each pair before.
unfoldable pub check_model :
    List (String × String) → String → ModelDefinition → Result ConfigError (Unit {0})
check_model seen name def = do
  fail_if (not (is_model_type name)) (invalid_name name)
  fail_if (is_blank def.label) (label_required name)
  fail_if (is_blank def.provider) (provider_required name)
  fail_if (is_blank def.model) (model_name_required name)
  fail_if (is_seen (lookup (pair_of def) seen)) (duplicate_pair name (pair_of def))
  fail_if (length def.thinking_levels == 0) (levels_required name)
  check_levels name [] def.thinking_levels
  fail_if (str_eq def.default_thinking_level "") (default_required name)
  fail_if (not (contains_str def.thinking_levels def.default_thinking_level))
      (default_unsupported name def.default_thinking_level)

-- cfg.Models[modelType], for a key of the map.
abbrev pub model_at : Option ModelDefinition → ModelDefinition
model_at (some def) = def
model_at none = record {
  label = "";
  provider = "";
  model = "";
  thinking_levels = [];
  default_thinking_level = "";
}

unfoldable pub check_models :
    List (String × ModelDefinition)
    → List (String × String)
    → List String
    → Result ConfigError (Unit {0})
check_models models seen [] = ok tt
check_models models seen (name ∷ names) = do
  check_model seen name (model_at (lookup name models))
  check_models models (insert (pair_of (model_at (lookup name models))) name seen) names

unfoldable pub validate_model_catalog :
    List (String × ModelDefinition) → Result ConfigError (Unit {0})
validate_model_catalog models = do
  fail_if (length models == 0) model_required
  check_models models [] (worker_names models)

unfoldable pub validate_lifecycle : BaseImage → Result ConfigError (Unit {0})
validate_lifecycle image = do
  fail_if (str_eq image.name "") base_image_name
  fail_if (str_eq image.source "") base_image_source
  fail_if (str_eq image.image "") base_image_image

unfoldable pub validate_child_runtime : Config → Result ConfigError (Unit {0})
validate_child_runtime cfg = do
  validate_lifecycle cfg.base_image
  resolved ← lift events_failed (limits cfg.supervisor_events)
  ok tt

unfoldable pub validate_supervisor : Config → Result ConfigError (Unit {0})
validate_supervisor cfg = do
  validate_child_runtime cfg
  validate_model_catalog cfg.policy.models
  resolved ← lift policy_failed (default_session_model_policy cfg.policy)
  ok tt

-- net/netip: a prefix that is parsed, and the families of its address.
pub record Netip (Prefix : Type 0) : Type 0 where
  pub parse_prefix : String → Option Prefix
  pub is4 : Prefix → Bool
  pub is6 : Prefix → Bool

abbrev pub default_workspace_volume : String
default_workspace_volume = "kanedias-workspace-seed"

module _ {Prefix : Type 0} (netip : Netip Prefix) where
  abbrev pub checked :
      ConfigError → ConfigError → (Prefix → Bool) → Option Prefix → Result ConfigError Prefix
  checked invalid other is_family none = err invalid
  checked invalid other is_family (some prefix) = do
    fail_if (not (is_family prefix)) other
    ok prefix

  unfoldable pub ipv4_prefix : Network → Result ConfigError Prefix
  ipv4_prefix network = do
    fail_if (str_eq network.ipv4 "") ipv4_required
    checked ipv4_invalid not_ipv4 netip.is4 (netip.parse_prefix network.ipv4)

  abbrev pub found : Result ConfigError Prefix → Result ConfigError (Option Prefix)
  found r = do prefix ← r; ok (some prefix)

  -- The prefix, if one is set.
  unfoldable pub ipv6_prefix : Network → Result ConfigError (Option Prefix)
  ipv6_prefix network =
      if str_eq network.ipv6 ""
      then ok none
      else found (checked ipv6_invalid not_ipv6 netip.is6 (netip.parse_prefix network.ipv6))

  -- `Load`, of a file that is read and decoded to `cfg`, in the directory `dir`.
  unfoldable pub load : String → Config → Result ConfigError Config
  unfolding ipv4_prefix ipv6_prefix
  load dir cfg = do
    ipv4 ← ipv4_prefix cfg.network
    ipv6 ← ipv6_prefix cfg.network
    ok (record cfg {
      dir = dir;
      workspace = record (cfg.workspace) {
        volume =
            if str_eq cfg.workspace.volume ""
            then default_workspace_volume
            else cfg.workspace.volume;
      };
    })
