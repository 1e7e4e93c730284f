-- ===== src/Projection/Bounded.antt =====
-- internal/manager/projection.go: what a tool shows is within the bounds of the manager.
use Prim.Native.Char.{len_utf8}
use Prim.Native.String.len as string_len
use Prim.Native.String.count as string_count
use Prim.Native.String.{count}
use text.Mathlib.TextPositions.{len-append}
use kanedias.Base.{
  ℕ, zero, suc, ◌-◌, ◌≤◌, Bool, not, ltb, leb, List, [], ◌∷◌, Option, none, some, String, len,
  str_eq, if-cases, arith, string_key,
}
use kanedias.Projection.{ContentBlock, Library, max_tool_display_bytes, max_tool_summary_runes}
use kanedias.Projection.Display.{
  truncation_marker, prefix_within, bounded_display, cap_runes, format_tool_json,
  format_tool_result, shown, show_content, join_blocks, has_media, summarize_tool,
}

pub prefix_within-le : (n : ℕ) (s : String) → len (prefix_within n s) ≤ n
unfolding prefix_within
prefix_within-le n String.[] = omega arith
prefix_within-le n (String.◌∷◌ c s) =
    if-cases (λ t. len t ≤ n) (ltb n (len_utf8 c)) String.[]
      (String.◌∷◌ c (prefix_within (n - len_utf8 c) s)) (λ _. omega arith)
      (λ fits. ground (
        arith,
        fits,
        string_len.cons c (prefix_within (n - len_utf8 c) s),
        prefix_within-le (n - len_utf8 c) s,
      ))

pub bounded_display-le : (s : String) → len (bounded_display s).0 ≤ max_tool_display_bytes
unfolding bounded_display
bounded_display-le s =
    if-cases (λ (t : String × Bool). len t.0 ≤ max_tool_display_bytes)
      (leb (len s) max_tool_display_bytes) _ _ (λ short. ground (arith, short))
      (λ _. omega (
        arith,
        prefix_within-le (max_tool_display_bytes - len truncation_marker) s,
        len-append (prefix_within (max_tool_display_bytes - len truncation_marker) s)
            truncation_marker,
      ))

pub cap_runes-le : (s : String) (n : ℕ) → count (cap_runes s n) ≤ n
unfolding cap_runes
cap_runes-le s zero = omega arith
cap_runes-le String.[] (suc n) = omega arith
cap_runes-le (String.◌∷◌ c s) (suc n) =
    omega (arith, string_count.cons c (cap_runes s n), cap_runes-le s n)

module _ (lib : Library) where
  pub format_tool_json-le :
      (raw : List ℕ) → len (format_tool_json lib raw).0 ≤ max_tool_display_bytes
  unfolding format_tool_json
  format_tool_json-le [] = omega arith
  format_tool_json-le (byte ∷ bytes) = shown-le (lib.indent (byte ∷ bytes))
    where
      shown-le : (o : Option String) → len (shown lib (byte ∷ bytes) o).0 ≤ max_tool_display_bytes
      shown-le none = bounded_display-le (lib.text (byte ∷ bytes))
      shown-le (some indented) = bounded_display-le indented

  show_content-le :
      (raw : List ℕ) (o : Option (List ContentBlock))
      → len (show_content lib raw o).0 ≤ max_tool_display_bytes
  show_content-le raw none = format_tool_json-le raw
  show_content-le raw (some blocks) =
      if-cases (λ (t : String × Bool). len t.0 ≤ max_tool_display_bytes)
        (not (str_eq (join_blocks blocks) "")) _ _ (λ _. bounded_display-le (join_blocks blocks))
        (λ _.
          if-cases (λ (t : String × Bool). len t.0 ≤ max_tool_display_bytes) (has_media blocks) _ _
            (λ _. omega arith) (λ _. format_tool_json-le raw))

  pub format_tool_result-le :
      (raw : List ℕ) → len (format_tool_result lib raw).0 ≤ max_tool_display_bytes
  unfolding format_tool_result
  format_tool_result-le [] = omega arith
  format_tool_result-le (byte ∷ bytes) = show_content-le (byte ∷ bytes) (lib.content (byte ∷ bytes))

  pub summarize_tool-le :
      (name : String) (args : List ℕ)
      → count (summarize_tool lib name args) ≤ max_tool_summary_runes
  unfolding summarize_tool
  summarize_tool-le name args =
      if-cases (λ t. count t ≤ max_tool_summary_runes) (str_eq name "") _ _ (λ _. omega arith)
        (λ _. cap_runes-le _ max_tool_summary_runes)
