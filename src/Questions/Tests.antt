-- ===== src/Questions/Tests.antt =====
-- internal/supervisor/questions.go on one dialog.
use mathlib.Core.List.{Perm}
use mathlib.Core.Path.{subst}
use kanedias.Base.{
  ℕ, ◌≡◌, refl, List, [], ◌∷◌, true, false, Option, none, some, arith, lookup, string_key, ok, pos,
  is_blank, insert, IsSorted,
}
use kanedias.Questions.{
  QuestionSummary, QuestionRequest, QuestionAnswer, ExtensionUiResponse, QuestionStore,
  new_question_store, retain, begin_answer, end_answer, expire, add_question,
  build_question_response, summaries, open_summaries,
}
use kanedias.Questions.Store.{Op, Inv, run, retains, expires, clears, run-new-Inv, stale_handle}
use kanedias.Questions.Sending.{Excluded}
use kanedias.Questions.Answers.{
  build_question_response_lem, begin_answer_excludes, end_answer_after_begin, summaries_lem,
}

abbrev dialog : QuestionSummary
dialog = record {
  id = "q1";
  method = "confirm";
  title = "Sure?";
  options = [];
  message = "";
  placeholder = "";
  prefill = "";
  timeout = pos 0;
}

abbrev decode : List ℕ → Option QuestionRequest
decode raw = some (record { type_name = "extension_ui_request"; summary = dialog })

abbrev yes_answer : QuestionAnswer
yes_answer = record { value = none; confirmed = some true; cancelled = false }

abbrev asked : QuestionStore
asked = record {
  has_sender = true;
  pending =
      ("q1", record { handle = 0; summary = dialog; raw = []; answering = false; timer = false })
      ∷ [];
  terminated = false;
  next_handle = 1;
}

retained : (retain decode [] (new_question_store true)).0 ≡ asked
unfolding retain new_question_store lookup insert is_blank
retained = refl

abbrev response : ExtensionUiResponse
response = record {
  type_name = "extension_ui_response";
  id = "q1";
  value = none;
  confirmed = some true;
  cancelled = false;
}

begun : (begin_answer "q1" (some yes_answer) asked).1 ≡ ok (0, response)
unfolding begin_answer lookup
begun = refl

run-new-Inv_example :
    Inv (run decode (new_question_store true) (retains [] ∷ expires "q1" 0 ∷ clears ∷ []))
run-new-Inv_example = run-new-Inv decode true (retains [] ∷ expires "q1" 0 ∷ clears ∷ [])

-- The first question expired; another was filed under its number.
abbrev emptied : QuestionStore
emptied = record asked { pending = [] }

stale_handle_test :
    let s' = (add_question [] dialog emptied).0 in
    (end_answer "q1" 0 true s' ≡ s') × (expire "q1" 0 s' ≡ s')
unfolding add_question lookup insert
stale_handle_test = stale_handle 0 true [] dialog emptied (omega arith) refl

-- While the answer is sent, the same dialog is asked again and a timer of another question ends.
abbrev between : List Op
between = retains [] ∷ expires "q1" 7 ∷ []

asked-Inv : Inv asked
asked-Inv = subst Inv retained (run-new-Inv decode true (retains [] ∷ []))

begin_answer_excludes_example :
    Excluded "q1" 0 none (run decode (begin_answer "q1" (some yes_answer) asked).0 between)
begin_answer_excludes_example =
    begin_answer_excludes decode "q1" (some yes_answer) none asked 0 response between asked-Inv
      begun (tt, (tt, tt))

end_answer_after_begin_test :
    lookup "q1" (end_answer "q1" 0 true (begin_answer "q1" (some yes_answer) asked).0).pending
    ≡ none
end_answer_after_begin_test =
    end_answer_after_begin "q1" "q1" (some yes_answer) asked 0 response true begun refl

build_question_response_lem_test : response.id ≡ "q1"
unfolding build_question_response
build_question_response_lem_test =
    (build_question_response_lem "q1" "confirm" yes_answer response refl).0

summaries_lem_test :
    IsSorted (λ q. q.id) (summaries asked) × Perm (summaries asked) (open_summaries asked.pending)
summaries_lem_test = summaries_lem asked
