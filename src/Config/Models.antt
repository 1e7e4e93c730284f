-- ===== src/Config/Models.antt =====
-- internal/config/config.go: what a validated configuration gives to a supervisor.
use kanedias.Base.{
  ◌≡◌, ◌≢◌, inl, inr, refl, sym, ◌∙◌, ap, true, false, ◌==◌, List, [], ◌∷◌, some, String, ok,
  length, is_blank, contains_str, str_eq, str_eq_iff, lookup, insert, lookup-insert, string_key,
  Bool-cases, bind_ok, fail_if_ok, arith,
}
use kanedias.Identity.{is_thinking_level}
use kanedias.Policy.{ModelDefinition, worker_names}
use kanedias.Policy.Resolve.{contains-worker_names}
use kanedias.Config.Catalog.{
  is_model_type, check_levels, pair_of, is_seen, check_model, model_at, check_models,
  validate_model_catalog,
}

-- A level that occurs once.
abbrev pub Once : List String → Type 0
Once [] = Unit
Once (level ∷ levels) = (contains_str levels level ≡ false) × Once levels

-- A model type of the catalog.
pub record IsModel (name : String) (def : ModelDefinition) : Type 0 where
  pub is_slug : is_model_type name ≡ true
  pub has_label : is_blank def.label ≡ false
  pub has_provider : is_blank def.provider ≡ false
  pub has_model : is_blank def.model ≡ false
  pub has_levels : def.thinking_levels ≢ []
  pub levels_are_valid :
      (level : String)
      → contains_str def.thinking_levels level ≡ true
      → is_thinking_level level ≡ true
  pub levels_occur_once : Once def.thinking_levels
  pub default_is_given : str_eq def.default_thinking_level "" ≡ false
  pub default_is_supported : contains_str def.thinking_levels def.default_thinking_level ≡ true

check_levels_lem :
    (model : String) (seen levels : List String)
    → check_levels model seen levels ≡ ok tt
    → ((level : String)
        → contains_str levels level ≡ true
        → (is_thinking_level level ≡ true) × (contains_str seen level ≡ false))
      × Once levels
unfolding check_levels
check_levels_lem model seen [] h = (λ level there. absurd (ground arith), tt)
check_levels_lem model seen (l ∷ levels) h =
    let rest = check_levels_lem model (l ∷ seen) levels (ground (arith, h)) in
    let valid : is_thinking_level l ≡ true = ground (arith, h) in
    let new : contains_str seen l ≡ false = ground (arith, h) in
    (
      λ level there. elim (Bool-cases (str_eq l level)) [
        | inl same ↦ rw⁻¹ ((str_eq_iff l level).0 same) (valid, new)
        | inr other ↦
            let later = rest.0 level (ground (arith, there, other)) in
            (later.0, ground (arith, later.1))
      ],
      (
        elim (Bool-cases (contains_str levels l)) [
          | inl again ↦ absurd (ground (arith, (rest.0 l again).1, (str_eq_iff l l).1 refl))
          | inr once ↦ once
        ],
        rest.1,
      ),
    )

check_model_lem :
    (seen : List (String × String)) (name : String) (def : ModelDefinition)
    → check_model seen name def ≡ ok tt
    → IsModel name def × (is_seen (lookup (pair_of def) seen) ≡ false)
unfolding check_model
check_model_lem seen name def h =
    let levels = check_levels_lem name [] def.thinking_levels (ground (arith, h)) in
    (
      record {
        is_slug = ground (arith, h);
        has_label = ground (arith, h);
        has_provider = ground (arith, h);
        has_model = ground (arith, h);
        has_levels = ground (arith, h);
        levels_are_valid = λ level there. (levels.0 level there).0;
        levels_occur_once = levels.1;
        default_is_given = ground (arith, h);
        default_is_supported = ground (arith, h);
      },
      ground (arith, h),
    )

module _ (models : List (String × ModelDefinition)) where
  abbrev at : String → ModelDefinition
  at name = model_at (lookup name models)

  check_models_lem :
      (seen : List (String × String)) (names : List String)
      → check_models models seen names ≡ ok tt
      → ((name : String)
          → contains_str names name ≡ true
          → IsModel name (at name) × (is_seen (lookup (pair_of (at name)) seen) ≡ false))
        × ((a b : String)
            → contains_str names a ≡ true
            → contains_str names b ≡ true
            → pair_of (at a) ≡ pair_of (at b)
            → a ≡ b)
  unfolding check_models
  check_models_lem seen [] h =
      (λ name there. absurd (ground arith), λ a b there. absurd (ground arith))
  check_models_lem seen (n ∷ names) h =
      let (u, (first, later)) = bind_ok (check_model seen n (at n)) _ tt h in
      let model = check_model_lem seen n (at n) first in
      let rest = check_models_lem (insert (pair_of (at n)) n seen) names later in
      let fresh : (name : String)
          → contains_str names name ≡ true
          → str_eq (pair_of (at n)) (pair_of (at name)) ≡ false =
        λ name there. ground (
          arith,
          (rest.0 name there).1,
          lookup-insert (pair_of (at n)) (pair_of (at name)) n seen,
        ) in
      let differs : (name : String)
          → contains_str names name ≡ true
          → pair_of (at n) ≢ pair_of (at name) =
        λ name there e. absurd (
          ground
            (arith, fresh name there, (str_eq_iff (pair_of (at n)) (pair_of (at name))).1 e)) in
      (
        λ name there. elim (Bool-cases (str_eq n name)) [
          | inl same ↦ rw⁻¹ ((str_eq_iff n name).0 same) model
          | inr other ↦
              let here : contains_str names name ≡ true = ground (arith, there, other) in
              (
                (rest.0 name here).0,
                ground (
                  arith,
                  (rest.0 name here).1,
                  fresh name here,
                  lookup-insert (pair_of (at n)) (pair_of (at name)) n seen,
                ),
              )
        ],
        λ a b in_a in_b same. elim (Bool-cases (str_eq n a)) [
          | inl na ↦ elim (Bool-cases (str_eq n b)) [
            | inl nb ↦ sym ((str_eq_iff n a).0 na) ∙ (str_eq_iff n b).0 nb
            | inr other ↦ absurd (
                differs b (ground (arith, in_b, other))
                  (ap (λ x. pair_of (at x)) ((str_eq_iff n a).0 na) ∙ same))
          ]
          | inr not_a ↦ elim (Bool-cases (str_eq n b)) [
            | inl nb ↦ absurd (
                differs a (ground (arith, in_a, not_a))
                  (ap (λ x. pair_of (at x)) ((str_eq_iff n b).0 nb) ∙ sym same))
            | inr other ↦
                rest.1 a b (ground (arith, in_a, not_a)) (ground (arith, in_b, other)) same
          ]
        ],
      )

-- A catalog whose entries are model types with distinct pairs of provider and model.
pub record IsCatalog (models : List (String × ModelDefinition)) : Type 0 where
  pub each :
      (name : String) (def : ModelDefinition) → lookup name models ≡ some def → IsModel name def
  pub distinct :
      (a b : String) (d e : ModelDefinition)
      → lookup a models ≡ some d
      → lookup b models ≡ some e
      → pair_of d ≡ pair_of e
      → a ≡ b

pub validate_model_catalog-IsCatalog :
    (models : List (String × ModelDefinition))
    → validate_model_catalog models ≡ ok tt
    → IsCatalog models
unfolding validate_model_catalog
validate_model_catalog-IsCatalog models h =
    let (_, checked) = fail_if_ok (length models == 0) _ _ tt h in
    let all = check_models_lem models [] (worker_names models) checked in
    let member : (name : String) (def : ModelDefinition)
        → lookup name models ≡ some def
        → contains_str (worker_names models) name ≡ true =
      λ name def found. ground (arith, contains-worker_names models name, found) in
    record {
      each = λ name def found. rw⁻¹ (ap model_at found) (all.0 name (member name def found)).0;
      distinct = λ a b d e in_a in_b same.
          all.1 a b (member a d in_a) (member b e in_b) (
            ap (λ o. pair_of (model_at o)) in_a ∙ same ∙ sym (ap (λ o. pair_of (model_at o)) in_b));
    }
