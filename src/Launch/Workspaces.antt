-- ===== src/Launch/Workspaces.antt =====
-- internal/manager/launch.go: the catalog that is built, and the workspace of a request.
use kanedias.Base.{
  ◌≡◌, ◌⊎◌, refl, sym, ap, ◌∙◌, inl, inr, ◌==◌, List, [], ◌∷◌, some, String, ok, length, str_eq,
  str_eq_iff, lookup, insert, lookup-insert, string_key, bind_ok, fail_if_ok, Option-cases,
  Bool-cases, arith,
}
use kanedias.Policy.{Config, worker_names, resolve_model}
use kanedias.Workspace.{WorkspaceStart, WorkspaceRepository, parse_workspace_repositories}
use kanedias.Launch.{
  LaunchConfiguration, lift, bad_policy, bad_workspace, check_defaults, by_slug, slugs_of,
  new_launch_configuration, resolve_workspace,
}
use kanedias.Launch.Selections.{lift-ok}

-- The workspace of a request: none, or that of a repository of the configuration.
abbrev pub IsOffered : String → WorkspaceStart → List WorkspaceRepository → Type 0
IsOffered slug w [] = ⊥
IsOffered slug w (r ∷ rs) =
    ((r.slug ≡ slug) × (w ≡ record { repository = slug; checkout = r.checkout }))
    ⊎ IsOffered slug w rs

abbrev pub IsPlaced : List WorkspaceRepository → String → WorkspaceStart → Type 0
IsPlaced rs repository w =
    ((repository ≡ "") × (w ≡ record { repository = ""; checkout = "" }))
    ⊎ IsOffered repository w rs

by_slug-IsOffered :
    (rs : List WorkspaceRepository) (m : List (String × WorkspaceStart)) (slug : String)
    (w : WorkspaceStart)
    → lookup slug (by_slug m rs) ≡ some w
    → (lookup slug m ≡ some w) ⊎ IsOffered slug w rs
unfolding by_slug
by_slug-IsOffered [] m slug w h = inl h
by_slug-IsOffered (r ∷ rs) m slug w h =
    let start : WorkspaceStart = record { repository = r.slug; checkout = r.checkout } in
    elim (by_slug-IsOffered rs (insert r.slug start m) slug w h) [
      | inr later ↦ inr (inr later)
      | inl before ↦ elim (Bool-cases (str_eq r.slug slug)) [
        | inr other ↦ inl (ground (arith, before, other, lookup-insert r.slug slug start m))
        | inl same ↦
            let e = (str_eq_iff r.slug slug).0 same in
            let this : start ≡ w =
              ground (arith, before, same, lookup-insert r.slug slug start m) in
            inr (inl (e, sym this ∙ ap (λ x. record { repository = x; checkout = r.checkout }) e))
      ]
    ]

pub workspace_ok :
    (lc : LaunchConfiguration) (rs : List WorkspaceRepository) (repository : String)
    (w : WorkspaceStart)
    → lc.workspace_by_slug ≡ by_slug [] rs
    → resolve_workspace lc repository ≡ ok w
    → IsPlaced rs repository w
unfolding resolve_workspace lookup
workspace_ok lc rs repository w built h = elim (Bool-cases (str_eq repository "")) [
  | inl blank ↦ inl ((str_eq_iff repository "").0 blank, ground (arith, h, blank))
  | inr named ↦ elim (Option-cases (lookup repository lc.workspace_by_slug)) [
    | inl absent ↦ absurd (ground (arith, h, named, absent))
    | inr (start, found) ↦
        let same : start ≡ w = ground (arith, h, named, found) in
        elim (by_slug-IsOffered rs [] repository w
          (ap (lookup repository) (sym built) ∙ (found ∙ ap some same))) [
            | inl there ↦ absurd (ground (arith, there))
            | inr offered ↦ inr offered
          ]
  ]
]

-- What a configuration is built from.
pub record IsBuilt (cfg : Config) (repos : List String) (lc : LaunchConfiguration) : Type 0 where
  pub repositories : List WorkspaceRepository
  pub parsed : parse_workspace_repositories repos ≡ ok repositories
  pub same_catalog : lc.catalog ≡ cfg
  pub same_order : lc.worker_order ≡ worker_names cfg.workers
  pub same_workspaces : lc.workspace_by_slug ≡ by_slug [] repositories

pub new_launch_configuration-IsBuilt :
    (cfg : Config) (repos : List String) (lc : LaunchConfiguration)
    → new_launch_configuration cfg repos ≡ ok lc
    → IsBuilt cfg repos lc
unfolding new_launch_configuration
new_launch_configuration-IsBuilt cfg repos lc h =
    let (_, h1) = fail_if_ok (length cfg.models == 0) _ _ lc h in
    let (profile, (_, h2)) =
      bind_ok
        (lift bad_policy (resolve_model cfg cfg.session.model_type cfg.session.thinking_level)) _ lc
        h1 in
    let (u, (_, h3)) = bind_ok (check_defaults cfg (worker_names cfg.workers)) _ lc h2 in
    let (repositories, (parsed, h4)) =
      bind_ok (lift bad_workspace (parse_workspace_repositories repos)) _ lc h3 in
    let result : record {
      catalog = cfg;
      model_order = worker_names cfg.models;
      worker_order = worker_names cfg.workers;
      default_root = record {
        model_type = cfg.session.model_type;
        thinking_level = profile.thinking_level;
      };
      repositories = slugs_of repositories;
      workspace_by_slug = by_slug [] repositories;
    }
        ≡ lc =
      cc in
    rw⁻¹ result (record {
      repositories = repositories;
      parsed = lift-ok bad_workspace (parse_workspace_repositories repos) repositories parsed;
      same_catalog = refl;
      same_order = refl;
      same_workspaces = refl;
    })
