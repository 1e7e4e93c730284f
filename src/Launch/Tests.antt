-- ===== src/Launch/Tests.antt =====
-- internal/manager/launch.go: a request that is resolved, and requests that are refused.
use kanedias.Base.{List, ◌≡◌, refl, [], ◌∷◌, ok, err, lookup, insert, string_key, sort, is_blank}
use kanedias.Identity.{is_thinking_level}
use kanedias.Policy.{Config, validate_policy, worker_names, resolve_model}
use kanedias.Workspace.{WorkspaceRepository, parse_workspace_repositories}
use kanedias.Launch.{
  new_launch_configuration, LaunchConfiguration, SessionLaunchRequest, ResolvedSessionLaunch,
  every_worker, resolve_name, resolve_workspace, resolve_model_profile, resolve_selections,
  check_missing, resolve, contains_control, trim_left, trim_right, control_character,
}
use kanedias.Launch.Policies.{IsLaunch, resolve-IsLaunch}

abbrev catalog : Config
catalog = record {
  models =
      (
        "opus",
        record {
          label = "Opus";
          provider = "anthropic";
          model = "claude-opus";
          thinking_levels = "low" ∷ "high" ∷ [];
          default_thinking_level = "low";
        },
      )
      ∷ [];
  session = record { model_type = "opus"; thinking_level = "" };
  workers =
      ("scout", record { description = "reads"; model_type = "opus"; thinking_level = "high" })
      ∷ [];
}

abbrev launch : LaunchConfiguration
launch = record {
  catalog = catalog;
  model_order = "opus" ∷ [];
  worker_order = "scout" ∷ [];
  default_root = record { model_type = "opus"; thinking_level = "low" };
  repositories = "o/r" ∷ [];
  workspace_by_slug = ("o/r", record { repository = "o/r"; checkout = "r" }) ∷ [];
}

abbrev request : SessionLaunchRequest
request = record {
  name = " fix ";
  repository = "o/r";
  root_model = record { model_type = "opus"; thinking_level = "" };
  workers = record { worker_type = "scout"; model_type = "opus"; thinking_level = "low" } ∷ [];
}

abbrev result : ResolvedSessionLaunch
result = record {
  name = "fix";
  workspace = record { repository = "o/r"; checkout = "r" };
  policy = record {
    root_model = record { provider = "anthropic"; model = "claude-opus"; thinking_level = "low" };
    workers =
        (
          "scout",
          record {
            description = "reads";
            provider = "anthropic";
            model = "claude-opus";
            thinking_level = "low";
          },
        )
        ∷ [];
  };
}

resolved : resolve launch request ≡ ok result
unfolding resolve resolve_name contains_control trim_left trim_right is_blank resolve_workspace
    resolve_model_profile resolve_model resolve_selections check_missing validate_policy lookup
    insert is_thinking_level worker_names sort
resolved = refl

built : new_launch_configuration catalog ("o/r" ∷ []) ≡ ok launch
unfolding new_launch_configuration resolve_model parse_workspace_repositories lookup insert
    is_thinking_level worker_names sort is_blank
built = refl

resolve-IsLaunch_example :
    (rs : List WorkspaceRepository) × ((parse_workspace_repositories ("o/r" ∷ []) ≡ ok rs)
      × IsLaunch catalog rs request result)
resolve-IsLaunch_example =
    resolve-IsLaunch catalog ("o/r" ∷ []) launch request result built resolved

no_workers_test : resolve launch (record request { workers = [] }) ≡ err every_worker
unfolding resolve resolve_name contains_control trim_left trim_right is_blank resolve_workspace
    resolve_model_profile resolve_model lookup
no_workers_test = refl

line_end_test : resolve_name "a\nb" ≡ err control_character
unfolding resolve_name contains_control
line_end_test = refl
