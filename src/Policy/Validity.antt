-- ===== src/Policy/Validity.antt =====
-- internal/config/model_policy.go: which policies are valid.
use text.Mathlib.TextPositions.{eq_refl}
use mathlib.Core.Path.{subst}
use kanedias.Base.{
  sym, ◌==◌, ◌≡◌, ◌≢◌, refl, ◌↔◌, List, [], ◌∷◌, true, false, some, arith, String, str_eq,
  str_eq_iff, is_blank, contains_str, lookup, string_key, ok, Option-cases, Bool-cases, length, inl,
  inr,
}
use kanedias.Identity.{is_thinking_level}
use kanedias.Policy.{
  WorkerProfile, SessionModelPolicy, worker_names, validate_worker, validate_workers,
  validate_policy, worker_at,
}
use kanedias.Policy.Resolve.{contains-worker_names}

-- A worker with a name, a description, a provider, a model and a level of thinking.
abbrev pub IsWorker : String → WorkerProfile → Type 0
IsWorker name w =
    (is_blank name ≡ false)
    × (is_blank w.description ≡ false)
    × (is_blank w.provider ≡ false)
    × (is_blank w.model ≡ false)
    × (is_thinking_level w.thinking_level ≡ true)

validate_worker-ok_iff :
    (name : String) (w : WorkerProfile) → (validate_worker name w ≡ ok tt) ↔ IsWorker name w
unfolding validate_worker
validate_worker-ok_iff name w = ground arith

validate_workers-ok_iff :
    (workers : List (String × WorkerProfile)) (names : List String)
    → (validate_workers workers names ≡ ok tt) ↔ (
        (name : String)
        → contains_str names name ≡ true
        → IsWorker name (worker_at (lookup name workers)))
unfolding validate_workers
validate_workers-ok_iff workers [] = (λ h name member. absurd (ground arith), λ h. refl)
validate_workers-ok_iff workers (n ∷ names) = (
  λ h name member.
      let rest = (validate_workers-ok_iff workers names).0 in
      elim (Bool-cases (str_eq n name)) [
        | inl same ↦
            rw⁻¹ ((str_eq_iff n name).0 same)
              ((validate_worker-ok_iff n (worker_at (lookup n workers))).0 (ground arith))
        | inr other ↦ rest (ground arith) name (ground arith)
      ],
  λ h.
      let first =
        (validate_worker-ok_iff n (worker_at (lookup n workers))).1
          (h n (ground (arith, eq_refl n))) in
      let others = (validate_workers-ok_iff workers names).1 (λ name m. h name (ground arith)) in
      rw (first, others) refl,
)

nonempty : (workers : List (String × WorkerProfile)) → workers ≢ [] → (length workers == 0) ≡ false
nonempty [] h = absurd (h refl)
nonempty (w ∷ workers) h = ground arith

-- A policy is valid exactly if its root has a provider, a model and a level of thinking, it has a
-- worker, and each of its workers has a name, a description, a provider, a model and a level of
-- thinking.
pub validate_policy-ok_iff :
    (p : SessionModelPolicy)
    → (validate_policy p ≡ ok tt) ↔ (
        (is_blank p.root_model.provider ≡ false)
        × (is_blank p.root_model.model ≡ false)
        × (is_thinking_level p.root_model.thinking_level ≡ true)
        × (p.workers ≢ [])
        × ((name : String) (w : WorkerProfile) → lookup name p.workers ≡ some w → IsWorker name w))
unfolding validate_policy
validate_policy-ok_iff p =
    let each = validate_workers-ok_iff p.workers (worker_names p.workers) in
    let member = contains-worker_names p.workers in
    (
      λ h. (
        ground arith,
        ground arith,
        ground arith,
        ground arith,
        λ name w found.
            subst (λ o. IsWorker name (worker_at o)) found
              (each.0 (ground arith) name (ground (arith, member name))),
      ),
      λ h.
          let all = each.1 (λ name there. elim (Option-cases (lookup name p.workers)) [
            | inl absent ↦ absurd (ground (arith, member name))
            | inr (w, found) ↦
                subst (λ o. IsWorker name (worker_at o)) (sym found) (h.4 name w found)
          ]) in
          let (provider, model, level, some_worker, workers) = h in
          ground (arith, nonempty p.workers),
    )
