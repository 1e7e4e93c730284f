-- ===== src/Workspace/Slugs.antt =====
-- internal/config/workspace_start.go: a slug is its owner, a slash and its name, and splitting it gives
-- them back.
use Prim.Native.Char.{Char, code}
use Prim.Native.String.{String}
use text.Mathlib.TextEquality.{Char-path}
use kanedias.Base.{
  ◌≡◌, ◌≢◌, ap, inl, inr, true, false, List, [], ◌∷◌, arith, str_eq, Bool-cases, ==_iff, sym, ◌∙◌,
  refl,
}
use kanedias.Workspace.{split, cons_first, is_slash, all_component, is_component}

-- The slug owner/name.
unfoldable pub slug_of : String → String → String
slug_of String.[] name = String.◌∷◌ "/" name
slug_of (String.◌∷◌ c owner) name = String.◌∷◌ c (slug_of owner name)

-- What the directory of a checkout may be called.
abbrev pub IsOwner : String → Type 0
IsOwner s = is_component s ≡ true

abbrev pub IsCheckout : String → Type 0
IsCheckout s = (is_component s ≡ true) × ((str_eq s "." ≡ false) × (str_eq s ".." ≡ false))

split-component : (s : String) → all_component s ≡ true → split s ≡ s ∷ []
unfolding split all_component
split-component String.[] h = refl
split-component (String.◌∷◌ c s) h = ground (arith, split-component s)

pub split-slug_of :
    (owner name : String)
    → all_component owner ≡ true
    → all_component name ≡ true
    → split (slug_of owner name) ≡ owner ∷ name ∷ []
unfolding split all_component slug_of
split-slug_of String.[] name h k = ground (arith, split-component name k)
split-slug_of (String.◌∷◌ c owner) name h k = ground (arith, split-slug_of owner name)

cons_first≢nil : (c : Char) (parts : List String) → cons_first c parts ≢ []
cons_first≢nil c [] h = cc
cons_first≢nil c (b ∷ parts) h = cc

split≢nil : (s : String) → split s ≢ []
unfolding split
split≢nil String.[] h = cc
split≢nil (String.◌∷◌ c s) h = ground (arith, cons_first≢nil c (split s))

cons_first_one :
    (c : Char) (parts : List String) (a : String)
    → parts ≢ []
    → cons_first c parts ≡ a ∷ []
    → (b : String) × ((parts ≡ b ∷ []) × (a ≡ String.◌∷◌ c b))
cons_first_one c [] a some_part h = elim (some_part refl) [ ]
cons_first_one c (b ∷ parts) a some_part h = (b, (cc, cc))

cons_first_two :
    (c : Char) (parts : List String) (a b : String)
    → cons_first c parts ≡ a ∷ b ∷ []
    → (o : String) × ((parts ≡ o ∷ b ∷ []) × (a ≡ String.◌∷◌ c o))
cons_first_two c [] a b h = cc
cons_first_two c (o ∷ parts) a b h = (o, (cc, cc))

split_one : (s a : String) → split s ≡ a ∷ [] → s ≡ a
unfolding split
split_one String.[] a h = cc
split_one (String.◌∷◌ c s) a h = elim (Bool-cases (is_slash c)) [
  | inl slash ↦ elim (split≢nil s (ground arith)) [ ]
  | inr other ↦
      let part = cons_first_one c (split s) a (split≢nil s) (ground arith) in
      ap (String.◌∷◌ c) (split_one s part.0 part.1.0) ∙ sym part.1.1
]

-- A text that splits in two is its parts with a slash between them.
pub split_two : (s a b : String) → split s ≡ a ∷ b ∷ [] → s ≡ slug_of a b
unfolding split slug_of
split_two String.[] a b h = cc
split_two (String.◌∷◌ c s) a b h = elim (Bool-cases (is_slash c)) [
  | inl slash ↦
      let same_char = Char-path c "/" ((==_iff (code c) 47).0 slash) in
      let owner : a ≡ String.[] = ground arith in
      let name = split_one s b (ground arith) in rw (same_char, owner, name, slug_of) refl
  | inr other ↦
      let parts = cons_first_two c (split s) a b (ground arith) in
      rw (parts.1.1, split_two s parts.0 b parts.1.0) refl
]
