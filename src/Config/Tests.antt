-- ===== src/Config/Tests.antt =====
-- internal/config: configurations that are taken and refused.
use kanedias.Base.{
  ◌≡◌, ◌⊎◌, inl, inr, refl, true, false, [], ◌∷◌, none, some, ok, err, String, pos, negsuc, lookup,
  insert, string_key, sort, is_blank,
}
use kanedias.Identity.{is_thinking_level}
use kanedias.Policy.{default_session_model_policy, worker_names, ModelDefinition}
use kanedias.Config.Server.{
  ServerConfig, limits, resolve, with_defaults, negative_events, no_limit, validate_server_hostname,
  invalid_label, not_plain,
}
use kanedias.Config.Hostname.{IsHostname, validate_server_hostname-ok_iff}
use kanedias.Config.Resolve.{resolve-ok_iff}
use kanedias.Config.Catalog.{
  Netip, load, ipv4_prefix, validate_supervisor, validate_model_catalog, validate_child_runtime,
  validate_lifecycle, check_models, check_model, duplicate_level, check_levels, is_model_type,
  ipv4_required,
}
use kanedias.Config.Supervisor.{IsReady, validate_supervisor-IsReady}
use kanedias.Config.{Config}

abbrev server : ServerConfig
server = record {
  hostname = "agents.example.com";
  root_socket_dir = "/run/kanedias";
  session_log_dir = "";
  discovery_interval = none;
  snapshot_interval = some (pos 250000000);
  spawn_timeout = none;
  session_binary = "";
  require_session = some true;
}

abbrev opus : ModelDefinition
opus = record {
  label = "Opus";
  provider = "anthropic";
  model = "claude-opus";
  thinking_levels = "low" ∷ "high" ∷ [];
  default_thinking_level = "low";
}

abbrev config : Config
config = record {
  network = record { ipv4 = "10.1.0.1/24"; ipv6 = "" };
  base_image = record {
    name = "kanedias-base";
    source = "images:";
    image = "debian/13";
    authorized_hosts = [];
    build_scripts_dir = "";
  };
  workspace = record { pool = "default"; volume = ""; repos = [] };
  policy = record {
    models = ("opus", opus) ∷ [];
    session = record { model_type = "opus"; thinking_level = "" };
    workers =
        ("scout", record { description = "reads"; model_type = "opus"; thinking_level = "high" })
        ∷ [];
  };
  server = server;
  supervisor_events = record { max_events = some (pos 0); max_bytes = none };
  dir = "";
}

accepted : validate_supervisor config ≡ ok tt
unfolding validate_supervisor default_session_model_policy worker_names sort lookup insert is_blank
    is_thinking_level validate_child_runtime validate_lifecycle limits validate_model_catalog
    check_models check_model is_model_type check_levels
accepted = refl

validate_supervisor-IsReady_example : IsReady config
validate_supervisor-IsReady_example = validate_supervisor-IsReady config accepted

resolve-ok_iff_example : (server.hostname ≡ "") ⊎ IsHostname server.hostname
unfolding resolve
resolve-ok_iff_example = ((resolve-ok_iff server (with_defaults server)).0 refl).0

dash_test : validate_server_hostname "a.-b" ≡ err invalid_label
unfolding validate_server_hostname
dash_test = refl

port_test : validate_server_hostname "host:80" ≡ err not_plain
unfolding validate_server_hostname
port_test = refl

two_labels_test : IsHostname "a.example"
unfolding validate_server_hostname
two_labels_test = elim ((validate_server_hostname-ok_iff "a.example").0 refl) [
  | inl empty ↦ cc
  | inr good ↦ good
]

limits_test :
    (limits (record { max_events = some (negsuc 0); max_bytes = none }) ≡ err negative_events)
    × (limits (record { max_events = some (pos 0); max_bytes = some (pos 0) }) ≡ err no_limit)
unfolding limits
limits_test = (refl, refl)

level_test : check_levels "opus" [] ("low" ∷ "low" ∷ []) ≡ err (duplicate_level "opus" "low")
unfolding check_levels is_thinking_level
level_test = refl

slug_test : (is_model_type "claude-4" ≡ true) × (is_model_type "-4" ≡ false)
unfolding is_model_type
slug_test = (refl, refl)

-- A parser that takes each text for an IPv4 prefix.
abbrev netip : Netip String
netip = record { parse_prefix = λ s. some s; is4 = λ s. true; is6 = λ s. false }

load_test :
    load netip "/etc/kanedias" config
    ≡ ok (record config {
      dir = "/etc/kanedias";
      workspace = record { pool = "default"; volume = "kanedias-workspace-seed"; repos = [] };
    })
unfolding load
load_test = refl

no_network_test : ipv4_prefix netip (record { ipv4 = ""; ipv6 = "" }) ≡ err ipv4_required
unfolding ipv4_prefix
no_network_test = refl
