-- ===== src/Questions/Sending.antt =====
-- internal/supervisor/questions.go: the store while the answer to one of its questions is being sent.
use mathlib.Core.Path.{subst}
use kanedias.Base.{
  ℕ, ◌<◌, ◌≡◌, ◌≢◌, refl, sym, ap, ◌∙◌, ◌⊎◌, inl, inr, Bool, true, false, List, [], ◌∷◌, Option,
  none, some, arith, String, str_eq, str_eq_iff, lookup, insert, erase, lookup-insert, lookup-erase,
  string_key, Result, err, Option-cases, Result-cases, if-cases,
}
use kanedias.Contract.{conflict}
use kanedias.Questions.{
  QuestionSummary, QuestionRequest, QuestionAnswer, PendingQuestion, QuestionStore, Failure,
  refused, check_request, add_question, retain, begin_answer, end_answer, expire, cancel_pending,
  clear,
}
use kanedias.Questions.Store as Store

abbrev pub being_answered : Failure
being_answered =
    refused (record { code = conflict; message = "question is already being answered" })

-- The question under the number of an answer with a handle: it is gone, or it is still the one with the
-- handle and is marked, or it is one that was retained since.
abbrev pub Stands : ℕ → Option PendingQuestion → Type 0
Stands h none = Unit
Stands h (some q) = ((q.handle ≡ h) × (q.answering ≡ true)) ⊎ (h < q.handle)

-- An operation other than the end of the answer with a handle under a number.
abbrev pub IsOther : String → ℕ → Store.Op → Type 0
IsOther id h (Store.ends j k sent) = (j ≡ id) → k ≢ h
IsOther id h _ = Unit

abbrev pub AreOthers : String → ℕ → List Store.Op → Type 0
AreOthers id h [] = Unit
AreOthers id h (op ∷ ops) = IsOther id h op × AreOthers id h ops

module _ (id : String) (h : ℕ) where
  abbrev pub Sends : QuestionStore → Type 0
  Sends s = (h < s.next_handle) × Stands h (lookup id s.pending)

  Stands-insert :
      (j : String) (q : PendingQuestion) (pending : List (String × PendingQuestion))
      → ((j ≡ id) → Stands h (some q))
      → Stands h (lookup id pending)
      → Stands h (lookup id (insert j q pending))
  Stands-insert j q pending new old =
      rw (lookup-insert j id q pending)
        (if-cases (Stands h) (str_eq j id) _ _ (λ same. new ((str_eq_iff j id).0 same)) (λ _. old))

  Stands-erase :
      (j : String) (pending : List (String × PendingQuestion))
      → Stands h (lookup id pending)
      → Stands h (lookup id (erase j pending))
  Stands-erase j pending old =
      rw (lookup-erase j id pending) (if-cases (Stands h) (str_eq j id) _ _ (λ _. tt) (λ _. old))

  add-Sends :
      (raw : List ℕ) (summary : QuestionSummary) (s : QuestionStore)
      → Sends s
      → Sends (add_question raw summary s).0
  unfolding add_question
  add-Sends raw summary s (less, stands) =
      if-cases (λ (p : QuestionStore × Result Failure Bool). Sends p.0) s.terminated _ _
        (λ _. (less, stands))
        (λ _. elim (Option-cases (lookup summary.id s.pending)) [
          | inl absent ↦
              rw absent
                (omega (arith, less), Stands-insert summary.id _ s.pending (λ _. inr less) stands)
          | inr (q, found) ↦ rw found (less, stands)
        ])

  retain-Sends :
      (decode : List ℕ → Option QuestionRequest) (raw : List ℕ) (s : QuestionStore)
      → Sends s
      → Sends (retain decode raw s).0
  unfolding retain
  retain-Sends decode raw s sends = elim (Result-cases (check_request (decode raw))) [
    | inl (e, bad) ↦ rw (bad, retain) sends
    | inr (none, plain) ↦ rw (plain, retain) sends
    | inr (some summary, dialog) ↦ rw (dialog, retain) (add-Sends raw summary s sends)
  ]

  -- The question that an operation finds, where its number is that of the answer.
  Stands-found :
      (j : String) (q : PendingQuestion) (pending : List (String × PendingQuestion))
      → Stands h (lookup id pending)
      → lookup j pending ≡ some q
      → j ≡ id
      → Stands h (some q)
  Stands-found j q pending stands found same =
      subst (Stands h) (ap (λ i. lookup i pending) (sym same) ∙ found) stands

  begin-Sends :
      (j : String) (a : Option QuestionAnswer) (s : QuestionStore)
      → Sends s
      → Sends (begin_answer j a s).0
  unfolding begin_answer
  begin-Sends j a s (less, stands) = elim (Option-cases (lookup j s.pending)) [
    | inl absent ↦ rw (absent, begin_answer) (less, stands)
    | inr (q, found) ↦
        let there = Stands-found j q s.pending stands found in
        let marked =
          Stands-insert j (record q { answering = true }) s.pending
            (λ same. elim (there same) [ inl (e, _) ↦ inl (e, refl) | inr later ↦ inr later ])
            stands in
        ground (arith, less, stands, found, marked)
  ]

  end-Sends :
      (j : String) (k : ℕ) (sent : Bool) (s : QuestionStore)
      → IsOther id h (Store.ends j k sent)
      → Sends s
      → Sends (end_answer j k sent s)
  unfolding end_answer
  end-Sends j k sent s other (less, stands) = elim (Option-cases (lookup j s.pending)) [
    | inl absent ↦ rw (absent, end_answer) (less, stands)
    | inr (q, found) ↦
        let there = Stands-found j q s.pending stands found in
        let erased = Stands-erase j s.pending stands in
        let again = λ (this : q.handle ≡ k).
          Stands-insert j (record q { answering = false }) s.pending
            (λ same. elim (there same) [
              | inl (e, _) ↦ absurd (other same (sym this ∙ e))
              | inr later ↦ inr later
            ])
            stands in
        ground (arith, less, stands, found, erased, again)
  ]

  expire-Sends : (j : String) (k : ℕ) (s : QuestionStore) → Sends s → Sends (expire j k s)
  unfolding expire
  expire-Sends j k s (less, stands) = ground (arith, Stands-erase j s.pending stands)

  step-Sends :
      (decode : List ℕ → Option QuestionRequest) (s : QuestionStore) (op : Store.Op)
      → IsOther id h op
      → Sends s
      → Sends (Store.step decode s op)
  unfolding cancel_pending clear lookup
  step-Sends decode s (Store.retains raw) other sends = retain-Sends decode raw s sends
  step-Sends decode s (Store.begins j a) other sends = begin-Sends j a s sends
  step-Sends decode s (Store.ends j k sent) other sends = end-Sends j k sent s other sends
  step-Sends decode s (Store.expires j k) other sends = expire-Sends j k s sends
  step-Sends decode s Store.cancels other sends = (sends.0, tt)
  step-Sends decode s Store.clears other sends = (sends.0, tt)

  pub run-Sends :
      (decode : List ℕ → Option QuestionRequest) (s : QuestionStore) (ops : List Store.Op)
      → AreOthers id h ops
      → Sends s
      → Sends (Store.run decode s ops)
  run-Sends decode s [] others sends = sends
  run-Sends decode s (op ∷ ops) others sends =
      run-Sends decode (Store.step decode s op) ops others.1 (step-Sends decode s op others.0 sends)

  -- What another answer meets.
  abbrev pub Excluded : Option QuestionAnswer → QuestionStore → Type 0
  Excluded b s =
      (begin_answer id b s ≡ (s, err being_answered))
      ⊎ ((lookup id s.pending ≡ none)
          ⊎ ((q : PendingQuestion) × (lookup id s.pending ≡ some q) × (h < q.handle)))

  pub Sends-Excluded : (b : Option QuestionAnswer) (s : QuestionStore) → Sends s → Excluded b s
  unfolding begin_answer
  Sends-Excluded b s (less, stands) = elim (Option-cases (lookup id s.pending)) [
    | inl absent ↦ inr (inl absent)
    | inr (q, found) ↦
        let there = subst (Stands h) found stands in
        elim there [
          | inl (same, marked) ↦ inl (ground arith)
          | inr later ↦ inr (inr (q, found, later))
        ]
  ]
