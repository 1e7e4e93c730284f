-- ===== src/Policy/Tests.antt =====
-- internal/config/model_policy.go on one model and one worker.
use kanedias.Base.{◌≡◌, refl, [], ◌∷◌, false, ok, is_blank, lookup, insert, string_key, sort}
use kanedias.Identity.{is_thinking_level}
use kanedias.Policy.{SessionModelPolicy, Config, default_session_model_policy, worker_names}
use kanedias.Policy.Resolve.{default_session_model_policy-Resolves}
use kanedias.Policy.Validity.{validate_policy-ok_iff}

abbrev config : Config
config = record {
  models =
      (
        "opus",
        record {
          label = "Opus";
          provider = "anthropic";
          model = "claude-opus";
          thinking_levels = "low" ∷ "high" ∷ [];
          default_thinking_level = "low";
        },
      )
      ∷ [];
  session = record { model_type = "opus"; thinking_level = "" };
  workers =
      ("scout", record { description = "reads"; model_type = "opus"; thinking_level = "high" })
      ∷ [];
}

abbrev policy : SessionModelPolicy
policy = record {
  root_model = record { provider = "anthropic"; model = "claude-opus"; thinking_level = "low" };
  workers =
      (
        "scout",
        record {
          description = "reads";
          provider = "anthropic";
          model = "claude-opus";
          thinking_level = "high";
        },
      )
      ∷ [];
}

resolved : default_session_model_policy config ≡ ok policy
unfolding default_session_model_policy worker_names sort lookup insert is_blank is_thinking_level
resolved = refl

validate_policy-ok_iff_test : is_blank policy.root_model.provider ≡ false
unfolding is_blank
validate_policy-ok_iff_test =
    ((validate_policy-ok_iff policy).0
      (default_session_model_policy-Resolves config policy resolved).0).0
