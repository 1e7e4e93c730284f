-- ===== src/Projection/Display.antt =====
-- internal/manager/projection.go: the texts of a tool's card, each within a bound.
use Prim.Native.Char.{code, len_utf8}
use Prim.Native.String.{◌++◌}
use kanedias.Base.{
  ℕ, zero, suc, ◌-◌, Bool, true, false, not, ◌||◌, ◌==◌, ltb, leb, List, [], ◌∷◌, Option, none,
  some, String, len, str_eq, contains_str, if◌then◌else◌, lookup, string_key,
}
use kanedias.Projection.{ContentBlock, Library, max_tool_display_bytes, max_tool_summary_runes}

-- A line end and "… display truncated …", 26 bytes.
abbrev pub truncation_marker : String
truncation_marker = "\n… display truncated …"

-- The longest prefix of whole characters within a number of bytes: what is left of s[:n] when its last
-- bytes are dropped until it is valid UTF-8.
unfoldable pub prefix_within : ℕ → String → String
prefix_within n String.[] = String.[]
prefix_within n (String.◌∷◌ c s) =
    let rest = prefix_within (n - len_utf8 c) s in
    if ltb n (len_utf8 c) then String.[] else String.◌∷◌ c rest

unfoldable pub bounded_display : String → String × Bool
unfolding prefix_within
bounded_display s = if leb (len s) max_tool_display_bytes then (s, false) else (
  prefix_within (max_tool_display_bytes - len truncation_marker) s ++ truncation_marker,
  true,
)

-- The first characters of a text.
unfoldable pub cap_runes : String → ℕ → String
cap_runes s zero = String.[]
cap_runes String.[] (suc n) = String.[]
cap_runes (String.◌∷◌ c s) (suc n) = String.◌∷◌ c (cap_runes s n)

abbrev pub or_else {ℓ} : {A : Type ℓ} → Option A → A → A
or_else none y = y
or_else (some x) y = x

-- The text of one block, and whether it is media.
abbrev pub is_text_block : ContentBlock → Bool
is_text_block block = str_eq block.type "text"

abbrev pub block_text : ContentBlock → String
block_text block =
    if is_text_block block
    then block.text
    else if str_eq block.type "image"
    then (if str_eq block.mime_type "" then "[image]" else "[image: " ++ block.mime_type ++ "]")
    else (if str_eq block.mime_type ""
        then "[binary data]"
        else "[binary: " ++ block.mime_type ++ "]")

unfoldable pub join_blocks : List ContentBlock → String
join_blocks [] = ""
join_blocks (block ∷ blocks) = block_text block ++ join_blocks blocks

unfoldable pub has_media : List ContentBlock → Bool
has_media [] = false
has_media (block ∷ blocks) = not (is_text_block block) || has_media blocks

abbrev pub is_empty {ℓ} : {A : Type ℓ} → List A → Bool
is_empty [] = true
is_empty (x ∷ xs) = false

-- cmd[:i] at the first line end
unfoldable pub first_line : String → String
first_line String.[] = String.[]
first_line (String.◌∷◌ c s) =
    let rest = first_line s in if code c == 10 then String.[] else String.◌∷◌ c rest

abbrev pub trim_dot : String → String
trim_dot String.[] = String.[]
trim_dot (String.◌∷◌ c s) = if code c == 46 then s else String.◌∷◌ c s

abbrev pub tool_language_by_ext : List (String × String)
tool_language_by_ext =
    ("go", "go")
    ∷ ("js", "js")
    ∷ ("ts", "ts")
    ∷ ("tsx", "tsx")
    ∷ ("jsx", "jsx")
    ∷ ("py", "py")
    ∷ ("rb", "rb")
    ∷ ("rs", "rs")
    ∷ ("java", "java")
    ∷ ("c", "c")
    ∷ ("cpp", "cpp")
    ∷ ("cs", "cs")
    ∷ ("php", "php")
    ∷ ("sh", "sh")
    ∷ ("sql", "sql")
    ∷ ("html", "html")
    ∷ ("css", "css")
    ∷ ("scss", "scss")
    ∷ ("json", "json")
    ∷ ("yaml", "yaml")
    ∷ ("xml", "xml")
    ∷ ("md", "md")
    ∷ ("dockerfile", "dockerfile")
    ∷ []

abbrev pub file_tools : List String
file_tools = "read" ∷ "write" ∷ "edit" ∷ []

module _ (lib : Library) where
  abbrev pub shown : List ℕ → Option String → String × Bool
  shown raw none = bounded_display (lib.text raw)
  shown raw (some indented) = bounded_display indented

  unfoldable pub format_tool_json : List ℕ → String × Bool
  unfolding bounded_display
  format_tool_json [] = ("", false)
  format_tool_json (byte ∷ bytes) = shown (byte ∷ bytes) (lib.indent (byte ∷ bytes))

  -- The result with its content array, if it has one.
  abbrev pub show_content : List ℕ → Option (List ContentBlock) → String × Bool
  show_content raw none = format_tool_json raw
  show_content raw (some blocks) =
      if not (str_eq (join_blocks blocks) "")
      then bounded_display (join_blocks blocks)
      else if has_media blocks
      then ("[binary data]", false)
      else format_tool_json raw

  unfoldable pub format_tool_result : List ℕ → String × Bool
  unfolding bounded_display format_tool_json
  format_tool_result [] = ("", false)
  format_tool_result (byte ∷ bytes) = show_content (byte ∷ bytes) (lib.content (byte ∷ bytes))

  abbrev pub string_at : List ℕ → String → String
  string_at args key = elim (lib.field key args) [
    | none ↦ ""
    | some raw ↦ or_else (lib.string_of raw) ""
  ]

  -- The first of some keys that has a text which is not empty.
  unfoldable pub first_string : List ℕ → List String → String
  first_string args [] = ""
  first_string args (key ∷ keys) =
      let rest = first_string args keys in
      if str_eq (string_at args key) "" then rest else string_at args key

  abbrev pub first_of : Option (List String) → String
  first_of none = ""
  first_of (some []) = ""
  first_of (some (command ∷ commands)) = command

  -- m["commands"], a list
  abbrev pub first_command : List ℕ → String
  first_command args = elim (lib.field "commands" args) [
    | none ↦ ""
    | some raw ↦ first_of (lib.strings_of raw)
  ]

  abbrev pub command_line : List ℕ → String
  command_line args =
      let command = first_string args ("command" ∷ []) in
      first_line (if str_eq command "" then first_command args else command)

  abbrev pub path_of : List ℕ → String
  path_of args = first_string args ("path" ∷ "file_path" ∷ [])

  abbrev pub summary_of_command : String → String → String
  summary_of_command name command = if str_eq command "" then name else "$ " ++ command

  abbrev pub summary_of_path : String → String → String
  summary_of_path name p = if str_eq p "" then name else name ++ " " ++ p

  abbrev pub summary_of_search : String → String → String → String
  summary_of_search name pattern_text p =
      let place = if str_eq p "" then "." else p in
      if str_eq pattern_text ""
      then name ++ " in " ++ place
      else name ++ " " ++ pattern_text ++ " in " ++ place

  unfoldable pub summarize_tool : String → List ℕ → String
  unfolding cap_runes first_string first_line
  summarize_tool name args =
      if str_eq name ""
      then ""
      else cap_runes
          (if str_eq name "bash"
            then summary_of_command name (command_line args)
            else if contains_str ("read" ∷ "write" ∷ "edit" ∷ "ls" ∷ []) name
            then summary_of_path name (path_of args)
            else if contains_str ("grep" ∷ "find" ∷ []) name
            then summary_of_search name (first_string args ("pattern" ∷ [])) (path_of args)
            else name)
          max_tool_summary_runes

  abbrev pub language_of : String → String
  language_of p =
      if str_eq p ""
      then ""
      else or_else (lookup (trim_dot (lib.to_lower (lib.extension p))) tool_language_by_ext) ""

  unfoldable pub tool_language : String → List ℕ → String
  unfolding lookup
  tool_language name args =
      if contains_str file_tools name
      then language_of (
          if str_eq (string_at args "path") ""
          then string_at args "file_path"
          else string_at args "path")
      else ""
