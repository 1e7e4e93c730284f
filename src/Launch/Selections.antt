-- ===== src/Launch/Selections.antt =====
-- internal/manager/launch.go: what the selections of a request give.
use text.Mathlib.TextPositions.{eq_refl}
use kanedias.Base.{
  ◌≡◌, ◌≢◌, ◌⊎◌, refl, sym, ap, ◌∙◌, inl, inr, true, false, not, List, [], ◌∷◌, Option, none, some,
  String, Result, ok, err, str_eq, str_eq_iff, contains_str, lookup, insert, lookup-insert,
  string_key, bind_ok, fail_if_ok, not-false, Bool-cases, arith,
}
use kanedias.Policy.{Config, ModelProfile, WorkerProfile, WorkerDefaults, resolve_model}
use kanedias.Launch.{
  LaunchConfiguration, LaunchError, WorkerModelSelection, lift, bad_policy, known_worker,
  resolve_model_profile, profile_of, resolve_selections, check_missing,
}

pub lift-ok :
    {E A : Type 0} (f : E → LaunchError) (r : Result E A) (a : A) → lift f r ≡ ok a → r ≡ ok a
lift-ok f (ok b) a h = cc
lift-ok f (err e) a h = cc

-- A selection of the request with the name of a worker.
abbrev pub IsSelected : String → List WorkerModelSelection → Type 0
IsSelected name [] = ⊥
IsSelected name (sel ∷ sels) = (sel.worker_type ≡ name) ⊎ IsSelected name sels

abbrev pub Each : (WorkerModelSelection → Type 0) → List WorkerModelSelection → Type 0
Each P [] = Unit
Each P (sel ∷ sels) = P sel × Each P sels

-- What a selection of a model gives in a catalog.
abbrev pub Selects : Config → String → String → ModelProfile → Type 0
Selects cfg model_type level profile =
    (model_type ≢ "") × (resolve_model cfg model_type level ≡ ok profile)

-- The worker that a selection gives: described as in the catalog, on the model that it selects.
pub record IsChosen (cfg : Config) (workers : List (String × WorkerProfile))
    (sel : WorkerModelSelection) : Type 0 where
  pub def : WorkerDefaults
  pub profile : ModelProfile
  pub is_known : lookup sel.worker_type cfg.workers ≡ some def
  pub selects : Selects cfg sel.model_type sel.thinking_level profile
  pub is_there :
      lookup sel.worker_type workers
      ≡ some (record {
        description = def.description;
        provider = profile.provider;
        model = profile.model;
        thinking_level = profile.thinking_level;
      })

module _ (lc : LaunchConfiguration) where
  known_worker_ok :
      (name : String) (o : Option WorkerDefaults) (def : WorkerDefaults)
      → known_worker lc name o ≡ ok def
      → o ≡ some def
  known_worker_ok name none def h = cc
  known_worker_ok name (some d) def h = cc

  pub profile_ok :
      (model_type level : String) (profile : ModelProfile)
      → resolve_model_profile lc model_type level ≡ ok profile
      → Selects lc.catalog model_type level profile
  unfolding resolve_model_profile
  profile_ok model_type level profile h =
      let (named, found) = fail_if_ok (str_eq model_type "") _ _ profile h in
      (
        λ e. ground (arith, named, str_eq_iff model_type "", e),
        lift-ok bad_policy (resolve_model lc.catalog model_type level) profile found,
      )

  -- One round of the loop over the selections.
  selections-cons :
      (sel : WorkerModelSelection) (sels : List WorkerModelSelection) (seen : List String)
      (workers : List (String × WorkerProfile)) (r : List String × List (String × WorkerProfile))
      → resolve_selections lc seen workers (sel ∷ sels) ≡ ok r
      → (contains_str seen sel.worker_type ≡ false)
        × (def : WorkerDefaults) × (profile : ModelProfile) × ((lookup sel.worker_type
                lc.catalog.workers
              ≡ some def)
            × (Selects lc.catalog sel.model_type sel.thinking_level profile
                × (resolve_selections lc
                      (sel.worker_type ∷ seen)
                      (insert sel.worker_type (profile_of lc def profile) workers)
                      sels
                    ≡ ok r)))
  unfolding resolve_selections
  selections-cons sel sels seen workers r h =
      let (_, h1) = fail_if_ok (str_eq sel.worker_type "") _ _ r h in
      let (new, h2) = fail_if_ok (contains_str seen sel.worker_type) _ _ r h1 in
      let (def, (known, h3)) =
        bind_ok (known_worker lc sel.worker_type (lookup sel.worker_type lc.catalog.workers)) _ r
          h2 in
      let (profile, (resolved, h4)) =
        bind_ok (resolve_model_profile lc sel.model_type sel.thinking_level) _ r h3 in
      (
        new,
        def,
        profile,
        (
          known_worker_ok sel.worker_type _ def known,
          (profile_ok sel.model_type sel.thinking_level profile resolved, h4),
        ),
      )

  -- The workers of the selections before stay as they are.
  selections_keep :
      (sels : List WorkerModelSelection) (seen : List String)
      (workers : List (String × WorkerProfile)) (r : List String × List (String × WorkerProfile))
      → resolve_selections lc seen workers sels ≡ ok r
      → (name : String) → contains_str seen name ≡ true
      → lookup name r.1 ≡ lookup name workers
  unfolding resolve_selections
  selections_keep [] seen workers r h name there =
      let same : (seen, workers) ≡ r = cc in rw⁻¹ same refl
  selections_keep (sel ∷ sels) seen workers r h name there =
      let (new, def, profile, (_, (_, rest))) = selections-cons sel sels seen workers r h in
      let kept =
        selections_keep sels (sel.worker_type ∷ seen) _ r rest name (ground (arith, there)) in
      let inserted = lookup-insert sel.worker_type name (profile_of lc def profile) workers in
      elim (Bool-cases (str_eq sel.worker_type name)) [
        | inl same ↦
            let again = ap (contains_str seen) ((str_eq_iff sel.worker_type name).0 same) in
            absurd (cc (again, new, there))
        | inr other ↦ kept ∙ ground (arith, inserted, other)
      ]

  pub selections-IsChosen :
      (sels : List WorkerModelSelection) (seen : List String)
      (workers : List (String × WorkerProfile)) (r : List String × List (String × WorkerProfile))
      → resolve_selections lc seen workers sels ≡ ok r
      → Each (IsChosen lc.catalog r.1) sels
  selections-IsChosen [] seen workers r h = tt
  selections-IsChosen (sel ∷ sels) seen workers r h =
      let (new, def, profile, (known, (selects, rest))) =
        selections-cons sel sels seen workers r h in
      let worker = profile_of lc def profile in
      let here : lookup sel.worker_type (insert sel.worker_type worker workers) ≡ some worker =
        rw
          (lookup-insert sel.worker_type sel.worker_type worker workers, eq_refl sel.worker_type) in
      (
        record {
          def = def;
          profile = profile;
          is_known = known;
          selects = selects;
          is_there =
              selections_keep sels (sel.worker_type ∷ seen) _ r rest sel.worker_type
                (ground (arith, eq_refl sel.worker_type))
              ∙ here;
        },
        selections-IsChosen sels (sel.worker_type ∷ seen) _ r rest,
      )

  -- No worker but those of the selections is added.
  pub selections_only :
      (sels : List WorkerModelSelection) (seen : List String)
      (workers : List (String × WorkerProfile)) (r : List String × List (String × WorkerProfile))
      → resolve_selections lc seen workers sels ≡ ok r
      → (name : String) (w : WorkerProfile) → lookup name r.1 ≡ some w
      → IsSelected name sels ⊎ (lookup name workers ≡ some w)
  unfolding resolve_selections
  selections_only [] seen workers r h name w there =
      let same : workers ≡ r.1 = cc in inr (ap (lookup name) same ∙ there)
  selections_only (sel ∷ sels) seen workers r h name w there =
      let (new, def, profile, (_, (_, rest))) = selections-cons sel sels seen workers r h in
      elim (selections_only sels (sel.worker_type ∷ seen) _ r rest name w there) [
        | inl later ↦ inl (inr later)
        | inr before ↦ elim (Bool-cases (str_eq sel.worker_type name)) [
          | inl same ↦ inl (inl ((str_eq_iff sel.worker_type name).0 same))
          | inr other ↦ inr (
              ground (
                arith,
                before,
                other,
                lookup-insert sel.worker_type name (profile_of lc def profile) workers,
              ))
        ]
      ]

  -- The names that are seen at the end are those of before and of the selections.
  pub selections_seen :
      (sels : List WorkerModelSelection) (seen : List String)
      (workers : List (String × WorkerProfile)) (r : List String × List (String × WorkerProfile))
      → resolve_selections lc seen workers sels ≡ ok r
      → (name : String) → contains_str r.0 name ≡ true
      → IsSelected name sels ⊎ (contains_str seen name ≡ true)
  unfolding resolve_selections
  selections_seen [] seen workers r h name there =
      let same : seen ≡ r.0 = cc in inr (ap (λ l. contains_str l name) same ∙ there)
  selections_seen (sel ∷ sels) seen workers r h name there =
      let (new, def, profile, (_, (_, rest))) = selections-cons sel sels seen workers r h in
      elim (selections_seen sels (sel.worker_type ∷ seen) _ r rest name there) [
        | inl later ↦ inl (inr later)
        | inr before ↦ elim (Bool-cases (str_eq sel.worker_type name)) [
          | inl same ↦ inl (inl ((str_eq_iff sel.worker_type name).0 same))
          | inr other ↦ inr (ground (arith, before, other))
        ]
      ]

  pub check_missing_ok :
      (seen names : List String)
      → check_missing lc seen names ≡ ok tt
      → (name : String) → contains_str names name ≡ true
      → contains_str seen name ≡ true
  unfolding check_missing
  check_missing_ok seen [] h name there = cc
  check_missing_ok seen (n ∷ names) h name there =
      let (first, rest) = fail_if_ok (not (contains_str seen n)) _ _ tt h in
      elim (Bool-cases (str_eq n name)) [
        | inl same ↦ sym (ap (contains_str seen) ((str_eq_iff n name).0 same)) ∙ not-false _ first
        | inr other ↦ check_missing_ok seen names rest name (ground (arith, there, other))
      ]
