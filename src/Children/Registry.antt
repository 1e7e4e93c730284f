-- ===== src/Children/Registry.antt =====
-- internal/supervisor/children.go: the registry is a map from identifiers to entries.
use kanedias.Base.{
  ℕ, ◌≡◌, ◌⊎◌, inl, inr, Bool, true, false, ◌&&◌, Option, none, some, arith, String, str_eq, lookup,
  lookup-insert, lookup-erase, string_key, if◌then◌else◌, ◌==◌, Option-cases,
}
use kanedias.Children.{ChildEntry, ChildRegistry, add, remove, get}

-- Whether the entry under an identifier is the one with a handle.
abbrev pub is_current : Option ChildEntry → ℕ → Bool
is_current none handle = false
is_current (some entry) handle = entry.handle == handle

get-add :
    (entry : ChildEntry) (j : String) (registry : ChildRegistry)
    → (((add entry registry).1 ≡ true)
        × (get entry.id registry ≡ none)
        × (get j (add entry registry).0
            ≡ (if str_eq entry.id j then some entry else get j registry)))
      ⊎ (((add entry registry).1 ≡ false)
          × ((other : ChildEntry) × (get entry.id registry ≡ some other))
          × ((add entry registry).0 ≡ registry))
unfolding add get
get-add entry j registry = elim (Option-cases (lookup entry.id registry.entries)) [
  | inl free ↦
      inl (ground arith, free, ground (arith, lookup-insert entry.id j entry registry.entries))
  | inr (other, taken) ↦ inr (ground arith, (other, taken), ground arith)
]

get-remove :
    (id j : String) (handle : ℕ) (registry : ChildRegistry)
    → get j (remove id handle registry)
      ≡ (if str_eq id j && is_current (get id registry) handle then none else get j registry)
unfolding remove get
get-remove id j handle registry = elim (Option-cases (lookup id registry.entries)) [
  | inl absent ↦ ground arith
  | inr (entry, found) ↦ ground (arith, lookup-erase id j registry.entries)
]

-- An entry is added exactly if there is none under its identifier, and then nothing else changes.
-- Removing an entry removes the one under its identifier only if that is the same entry, so a late
-- cleanup leaves an entry that was added after it alone, and no other entry changes.
pub registry_lem :
    (entry : ChildEntry) (id j : String) (handle : ℕ) (registry : ChildRegistry)
    → ((((add entry registry).1 ≡ true)
          × (get entry.id registry ≡ none)
          × (get j (add entry registry).0
              ≡ (if str_eq entry.id j then some entry else get j registry)))
        ⊎ (((add entry registry).1 ≡ false)
            × ((other : ChildEntry) × (get entry.id registry ≡ some other))
            × ((add entry registry).0 ≡ registry)))
      × (get j (remove id handle registry)
          ≡ (if str_eq id j && is_current (get id registry) handle then none else get j registry))
registry_lem entry id j handle registry =
    (get-add entry j registry, get-remove id j handle registry)
