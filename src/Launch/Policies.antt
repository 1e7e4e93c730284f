-- ===== src/Launch/Policies.antt =====
-- internal/manager/launch.go: the policy that a request is resolved to.
use mathlib.Core.Path.{subst}
use kanedias.Base.{
  ◌≡◌, sym, ap, ◌∙◌, inl, inr, true, not, ◌==◌, List, [], some, String, ok, length, contains_str,
  lookup, string_key, bind_ok, fail_if_ok, arith,
}
use kanedias.Policy.{Config, WorkerProfile, WorkerDefaults, keys, worker_names, validate_policy}
use kanedias.Policy.Resolve.{is_some, contains-worker_names}
use kanedias.Workspace.{WorkspaceRepository, parse_workspace_repositories}
use kanedias.Launch.{
  LaunchConfiguration, SessionLaunchRequest, ResolvedSessionLaunch, lift, bad_policy, by_slug,
  new_launch_configuration, resolve_name, resolve_workspace, resolve_model_profile,
  resolve_selections, check_missing, resolve,
}
use kanedias.Launch.Selections.{
  IsSelected, Each, Selects, IsChosen, lift-ok, profile_ok, selections-IsChosen, selections_only,
  selections_seen, check_missing_ok,
}
use kanedias.Launch.Workspaces.{IsPlaced, workspace_ok, new_launch_configuration-IsBuilt}

-- The launch that a request is resolved to.
pub record IsLaunch (cfg : Config) (rs : List WorkspaceRepository) (request : SessionLaunchRequest)
    (r : ResolvedSessionLaunch) : Type 0 where
  pub root_is_selected :
      Selects cfg request.root_model.model_type request.root_model.thinking_level
        r.policy.root_model
  pub is_placed : IsPlaced rs request.repository r.workspace
  pub is_valid : validate_policy r.policy ≡ ok tt
  pub workers_are_chosen : Each (IsChosen cfg r.policy.workers) request.workers
  pub no_others :
      (name : String) (w : WorkerProfile)
      → lookup name r.policy.workers ≡ some w
      → IsSelected name request.workers
  pub every_worker :
      (name : String) (def : WorkerDefaults)
      → lookup name cfg.workers ≡ some def
      → IsSelected name request.workers

resolve-IsLaunch_of :
    (lc : LaunchConfiguration) (rs : List WorkspaceRepository) (request : SessionLaunchRequest)
    (r : ResolvedSessionLaunch)
    → lc.worker_order ≡ worker_names lc.catalog.workers
    → lc.workspace_by_slug ≡ by_slug [] rs
    → resolve lc request ≡ ok r
    → IsLaunch lc.catalog rs request r
unfolding resolve lookup
resolve-IsLaunch_of lc rs request r order built h =
    let (name, (_, h1)) = bind_ok (resolve_name request.name) _ r h in
    let (workspace, (placed, h2)) = bind_ok (resolve_workspace lc request.repository) _ r h1 in
    let (root, (rooted, h3)) =
      bind_ok
        (resolve_model_profile lc request.root_model.model_type request.root_model.thinking_level) _
        r h2 in
    let (_, h4) =
      fail_if_ok (not (length request.workers == length (keys lc.catalog.workers))) _ _ r h3 in
    let (resolved, (selected, h5)) = bind_ok (resolve_selections lc [] [] request.workers) _ r h4 in
    let (u, (complete, h6)) = bind_ok (check_missing lc (resolved.0) lc.worker_order) _ r h5 in
    let (v, (valid, h7)) =
      bind_ok
        (lift bad_policy (validate_policy (record { root_model = root; workers = resolved.1 }))) _ r
        h6 in
    let result : record {
      name = name;
      workspace = workspace;
      policy = record { root_model = root; workers = resolved.1 };
    }
        ≡ r =
      cc in
    rw⁻¹ result (record {
      root_is_selected = profile_ok lc _ _ root rooted;
      is_placed = workspace_ok lc rs request.repository workspace built placed;
      is_valid =
          lift-ok bad_policy (validate_policy (record { root_model = root; workers = resolved.1 }))
            v valid;
      workers_are_chosen = selections-IsChosen lc request.workers [] [] resolved selected;
      no_others = λ n w there.
          elim (selections_only lc request.workers [] [] resolved selected n w there) [
            | inl known ↦ known
            | inr before ↦ absurd (ground (arith, before))
          ];
      every_worker = λ n def there.
          let listed : contains_str lc.worker_order n ≡ true =
            ap (λ l. contains_str l n) order
            ∙ (contains-worker_names lc.catalog.workers n ∙ ap is_some there) in
          elim (selections_seen lc request.workers [] [] resolved selected n
            (check_missing_ok lc resolved.0 lc.worker_order complete n listed)) [
              | inl known ↦ known
              | inr before ↦ absurd (ground (arith, before))
            ];
    })

-- A request that a configuration resolves gives a valid policy: its root model is the one that the
-- request selects in the catalog, and its workspace is none or that of the configured repository that
-- the request names. Each selection of the request names a worker of the catalog, and the policy has that
-- worker, described as in the catalog and on the model that this selection selects; the policy has no
-- other worker, and the request selects every worker of the catalog.
pub resolve-IsLaunch :
    (cfg : Config) (repos : List String) (lc : LaunchConfiguration) (request : SessionLaunchRequest)
    (r : ResolvedSessionLaunch)
    → new_launch_configuration cfg repos ≡ ok lc
    → resolve lc request ≡ ok r
    → (rs : List WorkspaceRepository) × ((parse_workspace_repositories repos ≡ ok rs)
        × IsLaunch cfg rs request r)
resolve-IsLaunch cfg repos lc request r built h =
    let b = new_launch_configuration-IsBuilt cfg repos lc built in
    (
      b.repositories,
      (
        b.parsed,
        subst (λ c. IsLaunch c b.repositories request r) b.same_catalog
            (resolve-IsLaunch_of lc b.repositories request r
              (b.same_order ∙ ap (λ c. worker_names c.workers) (sym b.same_catalog))
              b.same_workspaces h),
      ),
    )
