-- ===== src/ReadTask/Messages.antt =====
-- internal/supervisor/result.go: what one message of the agent does to the loop of a read task.
use mathlib.Core.Path.{subst}
use kanedias.Base.{
  ◌≡◌, ◌≢◌, refl, sym, ◌∙◌, ◌⊎◌, inl, inr, List, [], ◌∷◌, ◌++◌, some, arith, String, str_eq,
  str_eq_iff, Option-cases, Bool-cases, ap,
}
use kanedias.ReadTask.{PiMessage, continues, settles, note_stop_reason, handle_message, settle}

abbrev pub Each : (PiMessage → Type 0) → List PiMessage → Type 0
Each P [] = Unit
Each P (m ∷ ms) = P m × Each P ms

-- A message that neither fails nor settles.
abbrev pub GoesOn : PiMessage → Type 0
GoesOn m = (m.type_name ≢ "extension_error") × (m.type_name ≢ "agent_settled")

-- The end of a message of the assistant, with its stop reason.
abbrev pub Answers : String → PiMessage → Type 0
Answers reason m = (m.type_name ≡ "message_end") × (m.message ≡ some ("assistant", reason))

abbrev pub NoAnswer : PiMessage → Type 0
NoAnswer m = (reason : String) → ¬ Answers reason m

-- The last stop reason of the assistant, or the one from before where it says nothing.
abbrev pub LastReason : String → String → List PiMessage → Type 0
LastReason first last ms =
    ((earlier : List PiMessage) × (answer : PiMessage) × (later : List PiMessage) × ((ms
          ≡ earlier ++ answer ∷ later)
        × (Answers last answer × Each NoAnswer later)))
    ⊎ (Each NoAnswer ms × (first ≡ last))

pub LastReason-cons :
    (first next last : String) (m : PiMessage) (ms : List PiMessage)
    → Answers next m ⊎ (NoAnswer m × (next ≡ first))
    → LastReason next last ms
    → LastReason first last (m ∷ ms)
LastReason-cons first next last m ms step (inl (earlier, answer, later, (split, rest))) =
    inl (m ∷ earlier, answer, later, (ap (λ l. m ∷ l) split, rest))
LastReason-cons first next last m ms (inl answers) (inr (silent, same)) =
    inl ([], m, ms, (refl, (subst (λ r. Answers r m) same answers, silent)))
LastReason-cons first next last m ms (inr (quiet, kept)) (inr (silent, same)) =
    inr ((quiet, silent), sym kept ∙ same)

pub settles_lem :
    (reason : String) (m : PiMessage)
    → handle_message reason (some m) ≡ settles
    → (m.type_name ≡ "agent_settled") × (reason ≡ "stop")
unfolding handle_message settle
settles_lem reason m h =
    ground (arith, str_eq_iff m.type_name "agent_settled", str_eq_iff reason "stop")

note_lem :
    (reason next : String) (m : PiMessage)
    → m.type_name ≡ "message_end"
    → note_stop_reason m.message reason ≡ next
    → Answers next m ⊎ (NoAnswer m × (next ≡ reason))
note_lem reason next m ends e = elim (Option-cases m.message) [
  | inl absent ↦ inr ((λ r is. ground (arith, absent, is)), ground (arith, absent, e))
  | inr ((role, stop), present) ↦ elim (Bool-cases (str_eq role "assistant")) [
    | inl spoken ↦
        let stop_same : stop ≡ next = ground (arith, present, spoken, e) in
        inl (
          ends,
          present
              ∙ (ap (λ x. some (x, stop)) ((str_eq_iff role "assistant").0 spoken)
                  ∙ ap (λ x. some ("assistant", x)) stop_same),
        )
    | inr other ↦ inr (
      (λ r is. ground (arith, present, other, is, str_eq_iff role "assistant")),
      ground (arith, present, other, e),
    )
  ]
]

goes_on :
    (reason next : String) (m : PiMessage)
    → handle_message reason (some m) ≡ continues next
    → GoesOn m
unfolding handle_message settle
goes_on reason next m h = (
  λ is. ground (arith, h, is, str_eq_iff m.type_name "extension_error"),
  λ is.
      let no_error = ap (λ t. str_eq t "extension_error") is in
      let no_end = ap (λ t. str_eq t "message_end") is in
      let settled = ap (λ t. str_eq t "agent_settled") is in
      ground (arith, h, no_error, no_end, settled),
)

pub continues_lem :
    (reason next : String) (m : PiMessage)
    → handle_message reason (some m) ≡ continues next
    → GoesOn m × (Answers next m ⊎ (NoAnswer m × (next ≡ reason)))
unfolding handle_message settle
continues_lem reason next m h = elim (Bool-cases (str_eq m.type_name "message_end")) [
  | inl ends ↦ (
    goes_on reason next m h,
    note_lem reason next m ((str_eq_iff m.type_name "message_end").0 ends)
        (ground (arith, ends, h, str_eq_iff m.type_name "message_end")),
  )
  | inr other ↦ (
    goes_on reason next m h,
    inr (
      (λ r is. ground (arith, other, is.0, str_eq_iff m.type_name "message_end")),
      ground (arith, other, h),
    ),
  )
]
