-- ===== src/Questions.antt =====
-- internal/supervisor/questions.go: the dialogs of an extension that wait for an answer. Decoding
-- JSON is a parameter; an encoded response is the record that is encoded, and a message that quotes
-- the error of a decoder stops before the quotation.
pub mod Store
pub mod Sending
pub mod Answers
mod Tests
use kanedias.Base.{
  ℕ, zero, suc, ◌+◌, ltb, Bool, true, false, not, ◌&&◌, ◌||◌, List, [], ◌∷◌, Option, none, some,
  ◌==◌, if◌then◌else◌, String, str_eq, is_blank, Result, ok, err, ◌>>=◌, ◌>>◌, fail_if, length, ℤ,
  pos, negsuc, lookup, insert, erase, string_key, sort, to_ℕ,
}
use kanedias.Contract.{Error, not_found, conflict, session_stopping, invalid_request, invalid}

pub record QuestionSummary : Type 0 where
  pub id : String
  pub method : String
  pub title : String
  pub options : List String
  pub message : String
  pub placeholder : String
  pub prefill : String
  pub timeout : ℤ

-- A decoded request: its type, and the fields of the summary.
pub record QuestionRequest : Type 0 where
  pub type_name : String
  pub summary : QuestionSummary

pub record QuestionAnswer : Type 0 where
  pub value : Option String
  pub confirmed : Option Bool
  pub cancelled : Bool

pub record ExtensionUiResponse : Type 0 where
  pub type_name : String
  pub id : String
  pub value : Option String
  pub confirmed : Option Bool
  pub cancelled : Bool

-- The errors: the first six are those of `Retain`, `refused` is an error of the contract, and
-- `send_failed` is an error of the sender.
pub data Failure : Type 0 where
  undecodable unexpected_type id_required title_required options_required duplicate_id : Failure
  no_sender send_failed : Failure
  refused : Error → Failure

-- `handle` stands for the pointer: `Retain` takes a new one for each question.
pub record PendingQuestion : Type 0 where
  pub handle : ℕ
  pub summary : QuestionSummary
  pub raw : List ℕ
  pub answering : Bool
  pub timer : Bool

pub record QuestionStore : Type 0 where
  pub has_sender : Bool
  pub pending : List (String × PendingQuestion)
  pub terminated : Bool
  pub next_handle : ℕ

unfoldable pub new_question_store : Bool → QuestionStore
new_question_store has_sender = record {
  has_sender = has_sender;
  pending = [];
  terminated = false;
  next_handle = 0;
}

abbrev pub is_dialog_method : String → Bool
is_dialog_method method =
    str_eq method "select"
    || str_eq method "confirm"
    || str_eq method "input"
    || str_eq method "editor"

-- The tests of `Retain` before it takes the lock; false is a method that is no dialog.
unfoldable pub check_request : Option QuestionRequest → Result Failure (Option QuestionSummary)
check_request none = err undecodable
check_request (some r) =
    if not (str_eq r.type_name "extension_ui_request")
    then err unexpected_type
    else (if not (is_dialog_method r.summary.method) then ok none else do
      fail_if (is_blank r.summary.id) id_required
      fail_if (is_blank r.summary.title) title_required
      fail_if (str_eq r.summary.method "select" && length r.summary.options == 0) options_required
      ok (some r.summary))

-- A timeout above zero arms a timer.
abbrev pub arms_timer : ℤ → Bool
arms_timer timeout = ltb 0 (to_ℕ timeout)

abbrev pub stopping : Failure
stopping = refused (record { code = session_stopping; message = "session has terminated" })

-- The part of `Retain` under the lock.
unfoldable pub add_question :
    List ℕ → QuestionSummary → QuestionStore → QuestionStore × Result Failure Bool
add_question raw summary store =
    if store.terminated then (store, err stopping) else elim (lookup summary.id store.pending) [
      | some q ↦ (store, err duplicate_id)
      | none ↦
          let question : PendingQuestion = record {
            handle = store.next_handle;
            summary = summary;
            raw = raw;
            answering = false;
            timer = arms_timer summary.timeout;
          } in
          (
            record store {
              pending = insert summary.id question store.pending;
              next_handle = suc store.next_handle;
            },
            ok true,
          )
    ]

unfoldable pub retain :
    (List ℕ → Option QuestionRequest) → List ℕ → QuestionStore → QuestionStore × Result Failure Bool
unfolding check_request add_question
retain decode raw store = elim (check_request (decode raw)) [
  | err e ↦ (store, err e)
  | ok none ↦ (store, ok false)
  | ok (some summary) ↦ add_question raw summary store
]

-- The summaries of the questions that are not being answered.
unfoldable pub open_summaries : List (String × PendingQuestion) → List QuestionSummary
open_summaries [] = []
open_summaries ((id, q) ∷ pending) =
    let rest = open_summaries pending in if q.answering then rest else q.summary ∷ rest

unfoldable pub summaries : QuestionStore → List QuestionSummary
unfolding open_summaries
summaries store = sort (λ s. s.id) (open_summaries store.pending)

-- How many of the three responses an answer provides.
abbrev pub provided : QuestionAnswer → ℕ
provided a =
    (elim a.value [ none ↦ 0 | some v ↦ 1 ])
    + (elim a.confirmed [ none ↦ 0 | some c ↦ 1 ])
    + (if a.cancelled then 1 else 0)

abbrev pub is_some {ℓ} : {A : Type ℓ} → Option A → Bool
is_some none = false
is_some (some a) = true

-- `buildQuestionResponse`; none is an answer that does not decode.
unfoldable pub build_question_response :
    String → String → Option QuestionAnswer → Result Failure ExtensionUiResponse
build_question_response id method none = err (refused (invalid "invalid question answer"))
build_question_response id method (some a) =
    let response : ExtensionUiResponse = record {
      type_name = "extension_ui_response";
      id = id;
      value = none;
      confirmed = none;
      cancelled = false;
    } in
    if provided a == 1
    then (if a.cancelled
        then ok (record response { cancelled = true })
        else (if str_eq method "confirm" && is_some a.confirmed
            then ok (record response { confirmed = a.confirmed })
            else (if not (str_eq method "confirm") && is_some a.value
                then ok (record response { value = a.value })
                else err (refused (invalid "question answer does not match dialog method")))))
    else err (refused (invalid "question answer must provide exactly one response"))

-- The part of `Answer` before the send: the question is marked, and its handle and the response go
-- to the sender.
unfoldable pub begin_answer :
    String
    → Option QuestionAnswer
    → QuestionStore
    → QuestionStore × Result Failure (ℕ × ExtensionUiResponse)
unfolding build_question_response
begin_answer id answer store = elim (lookup id store.pending) [
  | none ↦
      (store, err (refused (record { code = not_found; message = "pending question not found" })))
  | some q ↦
      if q.answering
      then (
        store,
        err (refused (record { code = conflict; message = "question is already being answered" })),
      )
      else elim (build_question_response id q.summary.method answer) [
        | err e ↦ (store, err e)
        | ok response ↦
            if store.has_sender
            then (
              record store { pending = insert id (record q { answering = true }) store.pending },
              ok (q.handle, response),
            )
            else (store, err no_sender)
      ]
]

-- The part of `Answer` after the send; `sent` is whether it returned no error.
unfoldable pub end_answer : String → ℕ → Bool → QuestionStore → QuestionStore
end_answer id handle sent store = elim (lookup id store.pending) [
  | none ↦ store
  | some q ↦
      if q.handle == handle
      then (if sent || store.terminated
          then record store { pending = erase id store.pending }
          else record store { pending = insert id (record q { answering = false }) store.pending })
      else store
]

-- The timer of the question with a handle.
unfoldable pub expire : String → ℕ → QuestionStore → QuestionStore
expire id handle store = elim (lookup id store.pending) [
  | none ↦ store
  | some q ↦ if q.handle == handle then record store { pending = erase id store.pending } else store
]

unfoldable pub cancel_pending : QuestionStore → QuestionStore
cancel_pending store = record store { pending = [] }

unfoldable pub clear : QuestionStore → QuestionStore
clear store = record store { terminated = true; pending = [] }
