-- ===== src/Policy/Resolve.antt =====
-- internal/config/model_policy.go: what a resolved policy says of each worker.
use kanedias.Base.{
  ◌≡◌, refl, ◌⊎◌, inl, inr, ◌∙◌, List, [], ◌∷◌, Bool, true, false, ◌||◌, Option, none, some, arith,
  String, str_eq, str_eq_iff, contains_str, lookup, insert, lookup-insert, string_key, ok,
  Result-cases, Bool-cases, sort, insert_sorted,
}
use kanedias.Policy.{
  WorkerProfile, SessionModelPolicy, WorkerDefaults, Config, keys, worker_names, resolve_model,
  resolve_defaults, defaults_at, resolve_workers, validate_policy, default_session_model_policy,
}

contains-insert_sorted :
    (x : String) (xs : List String) (target : String)
    → contains_str (insert_sorted (λ s. s) x xs) target
      ≡ (str_eq x target || contains_str xs target)
unfolding insert_sorted
contains-insert_sorted x [] target = refl
contains-insert_sorted x (y ∷ ys) target = ground (arith, contains-insert_sorted x ys target)

contains-sort :
    (xs : List String) (target : String)
    → contains_str (sort (λ s. s) xs) target ≡ contains_str xs target
unfolding sort
contains-sort [] target = refl
contains-sort (x ∷ xs) target =
    ground (arith, contains-insert_sorted x (sort (λ s. s) xs) target, contains-sort xs target)

abbrev pub is_some {ℓ} : {A : Type ℓ} → Option A → Bool
is_some none = false
is_some (some a) = true

contains-keys :
    {V : Type 0} (m : List (String × V)) (name : String)
    → contains_str (keys m) name ≡ is_some (lookup name m)
unfolding lookup
contains-keys [] name = refl
contains-keys ((k, v) ∷ m) name = ground (arith, contains-keys m name)

-- The names of a map of workers are those that the map has.
pub contains-worker_names :
    {V : Type 0} (m : List (String × V)) (name : String)
    → contains_str (worker_names m) name ≡ is_some (lookup name m)
unfolding worker_names
contains-worker_names m name = contains-sort (keys m) name ∙ contains-keys m name

-- A worker of a policy is one of the configuration, resolved.
abbrev pub Resolves : Config → String → Option WorkerDefaults → Option WorkerProfile → Type 0
Resolves cfg name none worker = worker ≡ none
Resolves cfg name (some defaults) none = ⊥
Resolves cfg name (some defaults) (some worker) = resolve_defaults cfg name defaults ≡ ok worker

resolve_workers-ok :
    (cfg : Config) (names : List String) (resolved : List (String × WorkerProfile))
    (workers : List (String × WorkerProfile))
    → resolve_workers cfg names resolved ≡ ok workers
    → (name : String)
    → ((contains_str names name ≡ true)
        × ((worker : WorkerProfile) × (lookup name workers ≡ some worker)
            × (resolve_defaults cfg name (defaults_at (lookup name cfg.workers)) ≡ ok worker)))
      ⊎ ((contains_str names name ≡ false) × (lookup name workers ≡ lookup name resolved))
unfolding resolve_workers
resolve_workers-ok cfg [] resolved workers h name = inr (refl, ground arith)
resolve_workers-ok cfg (n ∷ names) resolved workers h name =
    elim (Result-cases (resolve_defaults cfg n (defaults_at (lookup n cfg.workers)))) [
      | inl (e, bad) ↦ absurd (ground arith)
      | inr (worker, good) ↦
          let rest : resolve_workers cfg names (insert n worker resolved) ≡ ok workers =
            ground arith in
          elim (resolve_workers-ok cfg names (insert n worker resolved) workers rest name) [
            | inl (member, found) ↦ inl (ground arith, found)
            | inr (absent, same) ↦ elim (Bool-cases (str_eq n name)) [
              | inl eq ↦ inl (
                ground arith,
                (
                  worker,
                  ground (arith, lookup-insert n name worker resolved),
                  rw⁻¹ ((str_eq_iff n name).0 eq) good,
                ),
              )
              | inr neq ↦ inr (ground arith, ground (arith, lookup-insert n name worker resolved))
            ]
          ]
    ]

each-Resolves :
    (cfg : Config) (name : String) (d : Option WorkerDefaults) (w : Option WorkerProfile) (b : Bool)
    → b ≡ is_some d
    → ((b ≡ true)
        × ((worker : WorkerProfile) × (w ≡ some worker)
            × (resolve_defaults cfg name (defaults_at d) ≡ ok worker)))
      ⊎ ((b ≡ false) × (w ≡ none))
    → Resolves cfg name d w
each-Resolves cfg name none none b e h = refl
each-Resolves cfg name none (some w) b e h = ground arith
each-Resolves cfg name (some d) none b e h = ground arith
each-Resolves cfg name (some d) (some w) b e h = ground arith

pub default_session_model_policy-Resolves :
    (cfg : Config) (p : SessionModelPolicy)
    → default_session_model_policy cfg ≡ ok p
    → (validate_policy p ≡ ok tt)
      × (resolve_model cfg cfg.session.model_type cfg.session.thinking_level ≡ ok p.root_model)
      × ((name : String) → Resolves cfg name (lookup name cfg.workers) (lookup name p.workers))
unfolding default_session_model_policy lookup
default_session_model_policy-Resolves cfg p h =
    let resolved : resolve_workers cfg (worker_names cfg.workers) [] ≡ ok p.workers =
      ground arith in
    let each = resolve_workers-ok cfg (worker_names cfg.workers) [] p.workers resolved in
    (
      ground arith,
      ground arith,
      λ name.
          each-Resolves cfg name (lookup name cfg.workers) (lookup name p.workers)
            (contains_str (worker_names cfg.workers) name) (contains-worker_names cfg.workers name)
            (each name),
    )
