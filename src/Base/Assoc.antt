-- ===== src/Base/Assoc.antt =====
-- Go maps as association lists, over a key type with a Boolean equality.
use Prim.Native.Nat.{ℕ}
use Prim.Native.String.{String}
use mathlib.Core.Path.{◌≡◌, refl, subst₂}
use mathlib.Core.Bool.{Bool, true, false}
use mathlib.Core.Logic.{◌↔◌, inl, inr}
use mathlib.Core.List.{List, [], ◌∷◌}
use mathlib.Core.Option.{Option, none, some}
use native.Mathlib.Omega.{arith}
use kanedias.Base.Tests.{◌==◌, ==_iff, if◌then◌else◌, if-cases, Bool-cases}
use kanedias.Base.Text.{str_eq, str_eq_iff}

pub record Key {ℓ} (K : Type ℓ) : Type ℓ where
  pub beq : K → K → Bool
  pub beq_iff : (a b : K) → (beq a b ≡ true) ↔ (a ≡ b)

instance abbrev pub nat_key : Key ℕ
nat_key = record { beq = ◌==◌; beq_iff = ==_iff }

instance abbrev pub string_key : Key String
string_key = record { beq = str_eq; beq_iff = str_eq_iff }

module _ {ℓ κ} {K : Type ℓ} {V : Type κ} ⦃e : Key K⦄ where
  -- m[k] with the comma-ok form
  unfoldable pub lookup : K → List (K × V) → Option V
  lookup k [] = none
  lookup k ((j, v) ∷ m) = if e.beq j k then some v else lookup k m

  -- m[k] = v
  unfoldable pub insert : K → V → List (K × V) → List (K × V)
  insert k v [] = (k, v) ∷ []
  insert k v ((j, w) ∷ m) = if e.beq j k then (k, v) ∷ m else (j, w) ∷ insert k v m

  -- delete(m, k)
  unfoldable pub erase : K → List (K × V) → List (K × V)
  erase k [] = []
  erase k ((j, v) ∷ m) = let rest = erase k m in if e.beq j k then rest else (j, v) ∷ rest

  pub lookup-insert :
      (k j : K) (v : V) (m : List (K × V))
      → lookup j (insert k v m) ≡ (if e.beq k j then some v else lookup j m)
  unfolding lookup insert
  lookup-insert k j v [] = refl
  lookup-insert k j v ((i, w) ∷ m) =
      ground (arith, e.beq_iff k j, e.beq_iff i k, e.beq_iff i j, lookup-insert k j v m)

  pub lookup-erase :
      (k j : K) (m : List (K × V)) → lookup j (erase k m) ≡ (if e.beq k j then none else lookup j m)
  unfolding lookup erase
  lookup-erase k j [] = ground arith
  lookup-erase k j ((i, w) ∷ m) =
      ground (arith, e.beq_iff k j, e.beq_iff i k, e.beq_iff i j, lookup-erase k j m)

pub ruleset map_laws = (lookup-insert, lookup-erase)

-- Maps whose keys differ, and what holds of every entry.
module _ {K V : Type 0} ⦃e : Key K⦄ where
  abbrev pub Distinct : List (K × V) → Type 0
  Distinct [] = Unit
  Distinct ((k, v) ∷ m) = (lookup k m ≡ none) × Distinct m

  pub insert-Distinct : (k : K) (v : V) (m : List (K × V)) → Distinct m → Distinct (insert k v m)
  unfolding lookup insert
  insert-Distinct k v [] h = (refl, tt)
  insert-Distinct k v ((j, w) ∷ m) h =
      ground (arith, e.beq_iff j k, e.beq_iff k j, lookup-insert k j v m, insert-Distinct k v m h.1)

  pub erase-Distinct : (k : K) (m : List (K × V)) → Distinct m → Distinct (erase k m)
  unfolding lookup erase
  erase-Distinct k [] h = tt
  erase-Distinct k ((j, w) ∷ m) h = ground (arith, lookup-erase k j m, erase-Distinct k m h.1)

  abbrev pub Entries : (K → V → Type 0) → List (K × V) → Type 0
  Entries P [] = Unit
  Entries P ((k, v) ∷ m) = P k v × Entries P m

  -- No entry has a key.
  abbrev pub Lacks : K → List (K × V) → Type 0
  Lacks k = Entries (λ j v. e.beq j k ≡ false)

  pub lookup-Lacks : (k : K) (m : List (K × V)) → lookup k m ≡ none → Lacks k m
  unfolding lookup
  lookup-Lacks k [] h = tt
  lookup-Lacks k ((j, v) ∷ m) h = ground (arith, lookup-Lacks k m)

  pub erase-Lacks : (k : K) (m : List (K × V)) → Lacks k (erase k m)
  unfolding erase
  erase-Lacks k [] = tt
  erase-Lacks k ((j, v) ∷ m) = ground (arith, erase-Lacks k m)

  pub Entries-erase :
      (P : K → V → Type 0) (k : K) (m : List (K × V)) → Entries P m → Entries P (erase k m)
  unfolding erase
  Entries-erase P k [] h = tt
  Entries-erase P k ((j, v) ∷ m) h =
      if-cases (Entries P) (e.beq j k) _ _ (λ _. Entries-erase P k m h.1)
        (λ _. (h.0, Entries-erase P k m h.1))

  pub Entries-insert :
      (P : K → V → Type 0) (k : K) (v : V) (m : List (K × V))
      → P k v
      → Entries P m
      → Entries P (insert k v m)
  unfolding insert
  Entries-insert P k v [] p h = (p, tt)
  Entries-insert P k v ((j, w) ∷ m) p h =
      if-cases (Entries P) (e.beq j k) _ _ (λ _. (p, h.1))
        (λ _. (h.0, Entries-insert P k v m p h.1))

  pub Entries-lookup :
      (P : K → V → Type 0) (k : K) (v : V) (m : List (K × V))
      → Entries P m
      → lookup k m ≡ some v
      → P k v
  unfolding lookup
  Entries-lookup P k v [] h found = cc
  Entries-lookup P k v ((j, w) ∷ m) h found = elim (Bool-cases (e.beq j k)) [
    | inl same ↦ subst₂ P ((e.beq_iff j k).0 same) (ground arith) h.0
    | inr other ↦ Entries-lookup P k v m h.1 (ground arith)
  ]

  pub Entries-map :
      (P Q R : K → V → Type 0)
      → ((k : K) (v : V) → P k v → Q k v → R k v)
      → (m : List (K × V)) → Entries P m
      → Entries Q m
      → Entries R m
  Entries-map P Q R f [] h q = tt
  Entries-map P Q R f ((k, v) ∷ m) h q = (f k v h.0 q.0, Entries-map P Q R f m h.1 q.1)
