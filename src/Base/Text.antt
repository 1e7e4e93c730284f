-- ===== src/Base/Text.antt =====
-- Go strings that hold valid UTF-8 are native strings; `len` counts their bytes. The functions of
-- the package strings that the program uses.
use Prim.Native.Nat.{ℕ, Ordering, compare as compare_ℕ}
use Prim.Native.Char.{code}
use Prim.Native.String.compare
use Prim.Native.String.{String, compare}
use mathlib.Core.Path.{◌≡◌, refl}
use mathlib.Core.Bool.{Bool, true, false, ◌&&◌, ◌||◌}
use mathlib.Core.List.{List, [], ◌∷◌}
use kanedias.Base.Tests.{leb, ◌==◌}
use text.Mathlib.Text.{◌==◌ as text_eq}
use text.Mathlib.TextEquality
use mathlib.Core.Logic.{◌↔◌}
use native.Mathlib.Omega.{arith}

abbrev pub str_eq : String → String → Bool
str_eq = text_eq

pub str_eq_iff : (s t : String) → (str_eq s t ≡ true) ↔ (s ≡ t)
str_eq_iff = TextEquality.eq_iff

-- The order of Go's `<` on strings: bytewise, which on UTF-8 is the order of the code points.
abbrev pub str_lt : String → String → Bool
str_lt s t = elim (compare s t) [ Ordering.lt ↦ true | _ ↦ false ]

-- unicode.IsSpace
abbrev pub is_space : ℕ → Bool
is_space c =
    (leb 9 c && leb c 13)
    || c == 32
    || c == 0x85
    || c == 0xa0
    || c == 0x1680
    || (leb 0x2000 c && leb c 0x200a)
    || c == 0x2028
    || c == 0x2029
    || c == 0x202f
    || c == 0x205f
    || c == 0x3000

-- strings.TrimSpace(s) == "": every code point is white space.
unfoldable pub is_blank : String → Bool
is_blank String.[] = true
is_blank (String.◌∷◌ c s) = is_space (code c) && is_blank s

-- Whether a list of strings holds one.
abbrev pub contains_str : List String → String → Bool
contains_str [] target = false
contains_str (value ∷ rest) target = str_eq value target || contains_str rest target

compare_swap :
    (m n : ℕ)
    → (compare_ℕ m n ≡ Ordering.lt → compare_ℕ n m ≡ Ordering.gt)
      × (compare_ℕ m n ≡ Ordering.eq → compare_ℕ n m ≡ Ordering.eq)
compare_swap m n = ground arith

-- The order of strings is asymmetric.
pub str_lt-asymm : (s t : String) → str_lt s t ≡ true → str_lt t s ≡ false
str_lt-asymm String.[] String.[] h = refl
str_lt-asymm String.[] (String.◌∷◌ d t) h = ground (arith, compare.cons-nil d t)
str_lt-asymm (String.◌∷◌ c s) String.[] h = ground (arith, compare.cons-nil c s)
str_lt-asymm (String.◌∷◌ c s) (String.◌∷◌ d t) h = ground (
  arith,
  compare.cons-cons c d s t,
  compare.cons-cons d c t s,
  compare_swap (code c) (code d),
  str_lt-asymm s t,
)
