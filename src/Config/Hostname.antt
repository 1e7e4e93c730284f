-- ===== src/Config/Hostname.antt =====
-- internal/config/server.go: which names of a host the server takes.
use Prim.Native.Char.{Char, code}
use kanedias.Base.{
  ℕ, ◌≤◌, ◌≡◌, ◌≢◌, ◌↔◌, ◌⊎◌, inl, inr, refl, Bool, true, false, ◌==◌, List, [], ◌∷◌, String, len,
  ok, if◌then◌else◌, str_eq, str_eq_iff, All, All-map, Bool-cases, arith,
}
use kanedias.Workspace.{cons_first}
use kanedias.Config.Server.{
  contains_forbidden, is_forbidden, split_labels, is_label_char, all_label_chars, starts_with_dash,
  ends_with_dash, check_label, check_labels, validate_server_hostname,
}

-- A label of a DNS name: 1 to 63 letters, digits and dashes, with no dash at an end.
pub record IsLabel (label : String) : Type 0 where
  pub is_not_empty : len label ≢ 0
  pub is_short : len label ≤ 63
  pub no_dash_first : starts_with_dash label ≡ false
  pub no_dash_last : ends_with_dash label ≡ false
  pub plain : all_label_chars label ≡ true

-- The labels of a name, and the length of it.
abbrev pub IsHostname : String → Type 0
IsHostname hostname = (len hostname ≤ 253) × All IsLabel (split_labels hostname)

check_label-ok_iff : (label : String) → (check_label label ≡ ok tt) ↔ IsLabel label
unfolding check_label
check_label-ok_iff label = (
  λ h. record {
    is_not_empty = ground (arith, h);
    is_short = ground (arith, h);
    no_dash_first = ground (arith, h);
    no_dash_last = ground (arith, h);
    plain = ground (arith, h);
  },
  λ h. ground (arith, h.is_not_empty, h.is_short, h.no_dash_first, h.no_dash_last, h.plain),
)

check_labels-ok_iff : (labels : List String) → (check_labels labels ≡ ok tt) ↔ All IsLabel labels
unfolding check_labels
check_labels-ok_iff [] = (λ h. tt, λ h. refl)
check_labels-ok_iff (label ∷ labels) =
    let first = check_label-ok_iff label in
    let rest = check_labels-ok_iff labels in
    (
      λ h. (first.0 (ground (arith, h)), rest.0 (ground (arith, h))),
      λ h. ground (arith, first.1 h.0, rest.1 h.1),
    )

label_char-forbidden : (c : ℕ) → is_label_char c ≡ true → is_forbidden c ≡ false
label_char-forbidden c h = ground arith

-- Characters of labels and dots are not among those that are refused.
abbrev AllPlain : List String → Type 0
AllPlain = All (λ label. all_label_chars label ≡ true)

AllPlain-cons_first :
    (c : Char) (labels : List String)
    → AllPlain (cons_first c labels)
    → (is_label_char (code c) ≡ true) × AllPlain labels
unfolding all_label_chars
AllPlain-cons_first c [] h = (ground (arith, h.0), tt)
AllPlain-cons_first c (label ∷ labels) h = (ground (arith, h.0), (ground (arith, h.0), h.1))

AllPlain-step :
    (c : Char) (labels : List String) (b : Bool)
    → (code c == 46) ≡ b
    → AllPlain (if b then String.[] ∷ labels else cons_first c labels)
    → (is_forbidden (code c) ≡ false) × AllPlain labels
AllPlain-step c labels true e h = (ground (arith, e), h.1)
AllPlain-step c labels false e h =
    let first = AllPlain-cons_first c labels h in (label_char-forbidden (code c) first.0, first.1)

AllPlain-contains_forbidden :
    (s : String) → AllPlain (split_labels s) → contains_forbidden s ≡ false
unfolding split_labels contains_forbidden
AllPlain-contains_forbidden String.[] h = refl
AllPlain-contains_forbidden (String.◌∷◌ c s) h =
    let first = AllPlain-step c (split_labels s) (code c == 46) refl h in
    ground (arith, first.0, AllPlain-contains_forbidden s first.1)

-- A name is taken exactly if it is empty, or has at most 253 bytes and between its dots labels of 1 to
-- 63 letters, digits and dashes with no dash at an end.
pub validate_server_hostname-ok_iff :
    (hostname : String)
    → (validate_server_hostname hostname ≡ ok tt) ↔ ((hostname ≡ "") ⊎ IsHostname hostname)
unfolding validate_server_hostname
validate_server_hostname-ok_iff hostname =
    let labels = check_labels-ok_iff (split_labels hostname) in
    let empty = str_eq_iff hostname "" in
    (
      λ h. elim (Bool-cases (str_eq hostname "")) [
        | inl none_given ↦ inl (empty.0 none_given)
        | inr given ↦ inr (ground (arith, h, given), labels.0 (ground (arith, h, given)))
      ],
      λ h. elim h [
        | inl none_given ↦ ground (arith, empty.1 none_given)
        | inr (short, each) ↦ ground (
          arith,
          labels.1 each,
          short,
          AllPlain-contains_forbidden hostname
              (All-map (λ label (good : IsLabel label). good.plain) (split_labels hostname) each),
        )
      ],
    )
