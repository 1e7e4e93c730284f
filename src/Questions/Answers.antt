-- ===== src/Questions/Answers.antt =====
-- internal/supervisor/questions.go: one answer at a time, and what it sends.
use mathlib.Core.List.{Perm}
use mathlib.Core.Path.{subst}
use text.Mathlib.TextPositions.{eq_refl}
use kanedias.Base.{
  ℕ, ◌≡◌, ◌≢◌, refl, sym, ◌⊎◌, inl, inr, Bool, true, false, ◌&&◌, List, Option, none, some, arith,
  String, str_eq, str_eq_iff, lookup, insert, lookup-insert, lookup-erase, string_key, ok,
  Option-cases, if◌then◌else◌, sort-IsSorted, sort-perm, IsSorted,
}
use kanedias.Questions.{
  QuestionRequest, QuestionAnswer, ExtensionUiResponse, PendingQuestion, QuestionStore,
  open_summaries, summaries, build_question_response, begin_answer, end_answer, is_some,
}
use kanedias.Questions.Store as Store
use kanedias.Questions.Sending.{Stands, AreOthers, Excluded, Sends-Excluded, run-Sends}

-- A response that is built carries the question's number and exactly one of the three answers:
-- cancelled, or confirmed for the method confirm, or a value for another method, as it was given.
pub build_question_response_lem :
    (id method : String) (a : QuestionAnswer) (r : ExtensionUiResponse)
    → build_question_response id method (some a) ≡ ok r
    → (r.id ≡ id)
      × (((r.cancelled ≡ true) × (a.cancelled ≡ true) × (r.confirmed ≡ none) × (r.value ≡ none))
          ⊎ ((method ≡ "confirm")
              × (r.cancelled ≡ false)
              × (r.confirmed ≡ a.confirmed)
              × (is_some r.confirmed ≡ true)
              × (r.value ≡ none))
          ⊎ ((method ≢ "confirm")
              × (r.cancelled ≡ false)
              × (r.confirmed ≡ none)
              × (r.value ≡ a.value)
              × (is_some r.value ≡ true)))
unfolding build_question_response
build_question_response_lem id method a r h = ground (arith, str_eq_iff method "confirm")

-- What `begin_answer` does where it succeeds.
pub begin_answer_ok :
    (id : String) (a : Option QuestionAnswer) (s : QuestionStore) (h : ℕ) (r : ExtensionUiResponse)
    → (begin_answer id a s).1 ≡ ok (h, r)
    → (q : PendingQuestion) × (lookup id s.pending ≡ some q)
      × (q.answering ≡ false)
      × (h ≡ q.handle)
      × ((begin_answer id a s).0
          ≡ record s { pending = insert id (record q { answering = true }) s.pending })
unfolding begin_answer
begin_answer_ok id a s h r e = elim (Option-cases (lookup id s.pending)) [
  | inl absent ↦ absurd (ground arith)
  | inr (q, found) ↦ (q, found, ground arith, ground arith, ground arith)
]

-- While an answer to a question is being sent, from a sound store and whatever else happens to it, no other answer
-- to the question begins: another answer under its number is refused as a conflict and changes nothing,
-- or no question is pending under the number, or the pending one is another question, whose handle was
-- given out later. The end of the answer itself is not among what happens.
pub begin_answer_excludes :
    (decode : List ℕ → Option QuestionRequest) (id : String) (a b : Option QuestionAnswer)
    (s : QuestionStore) (h : ℕ) (r : ExtensionUiResponse) (ops : List Store.Op)
    → Store.Inv s
    → (begin_answer id a s).1 ≡ ok (h, r)
    → AreOthers id h ops
    → Excluded id h b (Store.run decode (begin_answer id a s).0 ops)
begin_answer_excludes decode id a b s h r ops inv e others =
    let (q, found, free, same, after) = begin_answer_ok id a s h r e in
    let q' : PendingQuestion = record q { answering = true } in
    let marked : lookup id (insert id q' s.pending) ≡ some q' =
      rw (lookup-insert id id q' s.pending, eq_refl id) in
    Sends-Excluded id h b (Store.run decode (begin_answer id a s).0 ops) (
      run-Sends id h decode (begin_answer id a s).0 ops others (
        rw (after, same) (inv.retained id q found).given,
        rw after (subst (Stands h) (sym marked) (inl (sym same, refl))),
      ))

-- The end of an answer that nothing disturbed, on a store that has not been terminated: where the
-- send succeeded, the question and only it is gone; where it failed, every question is again as it
-- was before the answer.
pub end_answer_after_begin :
    (id j : String) (a : Option QuestionAnswer) (s : QuestionStore) (h : ℕ)
    (r : ExtensionUiResponse) (sent : Bool)
    → (begin_answer id a s).1 ≡ ok (h, r)
    → s.terminated ≡ false
    → lookup j (end_answer id h sent (begin_answer id a s).0).pending
      ≡ (if sent && str_eq id j then none else lookup j s.pending)
end_answer_after_begin id j a s h r sent e on =
    let (q, found, free, same, after) = begin_answer_ok id a s h r e in
    let q' : PendingQuestion = record q { answering = true } in
    let p' = insert id q' s.pending in
    let marked : lookup id p' ≡ some q' = rw (lookup-insert id id q' s.pending, eq_refl id) in
    rw after (
      unfold end_answer in
      ground (
        arith,
        marked,
        lookup-insert id j q' s.pending,
        lookup-insert id j (record q' { answering = false }) p',
        lookup-erase id j p',
        str_eq_iff id j,
      ))

-- `Summaries` lists the summaries of the questions that are not being answered, each once, in the
-- order of their numbers.
pub summaries_lem :
    (s : QuestionStore)
    → IsSorted (λ q. q.id) (summaries s) × Perm (summaries s) (open_summaries s.pending)
unfolding summaries
summaries_lem s = (
  sort-IsSorted (λ q. q.id) (open_summaries s.pending),
  sort-perm (λ q. q.id) (open_summaries s.pending),
)
