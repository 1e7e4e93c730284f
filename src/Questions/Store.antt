-- ===== src/Questions/Store.antt =====
-- internal/supervisor/questions.go: what holds of the store under every interleaving of its
-- operations, with the timers and the sends of answers in flight.
use mathlib.Core.Path.{subst₂}
use text.Mathlib.TextPositions.{eq_refl}
use kanedias.Base.{
  ℕ, suc, ◌<◌, ◌≤◌, ◌≡◌, ◌≢◌, refl, ◌⊎◌, inl, inr, List, [], ◌∷◌, Bool, true, false, Option, none,
  some, arith, String, str_eq, str_eq_iff, is_blank, lookup, insert, erase, lookup-insert,
  lookup-erase, string_key, ok, Result, Option-cases, Bool-cases, Result-cases, length, ◌==◌, ◌||◌,
  if-cases,
}
use kanedias.Questions.{
  QuestionSummary, QuestionRequest, QuestionAnswer, ExtensionUiResponse, PendingQuestion,
  QuestionStore, Failure, check_request, add_question, retain, build_question_response,
  begin_answer, end_answer, expire, cancel_pending, clear, is_dialog_method, new_question_store,
  arms_timer,
}

-- A retained question: it is filed under its own number, is a dialog, and has a title and, if it
-- is a selection, options; its handle is one that was given out.
pub record IsRetained (next_handle : ℕ) (id : String) (q : PendingQuestion) : Type 0 where
  pub filed : q.summary.id ≡ id
  pub named : is_blank q.summary.id ≡ false
  pub titled : is_blank q.summary.title ≡ false
  pub dialog : is_dialog_method q.summary.method ≡ true
  pub choices : (str_eq q.summary.method "select" ≡ false) ⊎ (q.summary.options ≢ [])
  pub given : q.handle < next_handle

pub record Inv (store : QuestionStore) : Type 0 where
  pub retained :
      (id : String) (q : PendingQuestion)
      → lookup id store.pending ≡ some q
      → IsRetained store.next_handle id q
  pub emptied : store.terminated ≡ true → store.pending ≡ []

-- `Retain`, the two parts of `Answer`, a timer, `CancelPending` and `Clear`.
pub data Op : Type 0 where
  retains : List ℕ → Op
  begins : String → Option QuestionAnswer → Op
  ends : String → ℕ → Bool → Op
  expires : String → ℕ → Op
  cancels clears : Op

abbrev pub step : (List ℕ → Option QuestionRequest) → QuestionStore → Op → QuestionStore
step decode s (retains raw) = (retain decode raw s).0
step decode s (begins id answer) = (begin_answer id answer s).0
step decode s (ends id handle sent) = end_answer id handle sent s
step decode s (expires id handle) = expire id handle s
step decode s cancels = cancel_pending s
step decode s clears = clear s

abbrev pub run : (List ℕ → Option QuestionRequest) → QuestionStore → List Op → QuestionStore
run decode s [] = s
run decode s (op ∷ ops) = run decode (step decode s op) ops

gone :
    (pending : List (String × PendingQuestion)) (id : String) (q : PendingQuestion)
    → pending ≡ []
    → lookup id pending ≡ some q
    → ⊥
unfolding lookup
gone [] id q e h = cc
gone (p ∷ pending) id q e h = cc

weaken :
    (n k : ℕ) (id : String) (q : PendingQuestion) → n ≤ k → IsRetained n id q → IsRetained k id q
weaken n k id q le r = record {
  filed = r.filed;
  named = r.named;
  titled = r.titled;
  dialog = r.dialog;
  choices = r.choices;
  given = omega (arith, r.given);
}

marked :
    (n : ℕ) (id : String) (q : PendingQuestion) (b : Bool)
    → IsRetained n id q
    → IsRetained n id (record q { answering = b })
marked n id q b r = record {
  filed = r.filed;
  named = r.named;
  titled = r.titled;
  dialog = r.dialog;
  choices = r.choices;
  given = r.given;
}

-- A store that holds a question has not been terminated.
live :
    (s : QuestionStore) (id : String) (q : PendingQuestion)
    → Inv s
    → lookup id s.pending ≡ some q
    → s.terminated ≡ false
unfolding lookup
live s id q h e = elim (Bool-cases s.terminated) [
  | inl over ↦ absurd (gone s.pending id q (h.emptied over) e)
  | inr still ↦ still
]

-- A question filed or erased in a store that is sound.
insert-IsRetained :
    (n k : ℕ) (id : String) (p : PendingQuestion) (pending : List (String × PendingQuestion))
    → n ≤ k
    → IsRetained k id p
    → ((j : String) (q : PendingQuestion) → lookup j pending ≡ some q → IsRetained n j q)
    → (j : String) (q : PendingQuestion) → lookup j (insert id p pending) ≡ some q
    → IsRetained k j q
insert-IsRetained n k id p pending le new h j q e = elim (Bool-cases (str_eq id j)) [
  | inl same ↦
      subst₂ (IsRetained k) ((str_eq_iff id j).0 same)
        (ground (arith, lookup-insert id j p pending)) new
  | inr other ↦ weaken n k j q le (h j q (ground (arith, lookup-insert id j p pending)))
]

erase-IsRetained :
    (n : ℕ) (id : String) (pending : List (String × PendingQuestion))
    → ((j : String) (q : PendingQuestion) → lookup j pending ≡ some q → IsRetained n j q)
    → (j : String) (q : PendingQuestion) → lookup j (erase id pending) ≡ some q
    → IsRetained n j q
erase-IsRetained n id pending h j q e = h j q (ground (arith, lookup-erase id j pending))

-- A change of the pending questions of a store that holds one.
refiled :
    (s : QuestionStore) (id : String) (q : PendingQuestion)
    (pending : List (String × PendingQuestion))
    → Inv s
    → lookup id s.pending ≡ some q
    → ((j : String) (p : PendingQuestion)
        → lookup j pending ≡ some p
        → IsRetained s.next_handle j p)
    → Inv (record s { pending = pending })
refiled s id q pending h found r = record {
  retained = r;
  emptied = λ over. cc (live s id q h found, over);
}

erased :
    (s : QuestionStore) (id : String) (q : PendingQuestion)
    → Inv s
    → lookup id s.pending ≡ some q
    → Inv (record s { pending = erase id s.pending })
erased s id q h found =
    refiled s id q (erase id s.pending) h found
      (erase-IsRetained s.next_handle id s.pending h.retained)

remarked :
    (s : QuestionStore) (id : String) (q : PendingQuestion) (b : Bool)
    → Inv s
    → lookup id s.pending ≡ some q
    → Inv (record s { pending = insert id (record q { answering = b }) s.pending })
remarked s id q b h found =
    refiled s id q (insert id (record q { answering = b }) s.pending) h found (
      insert-IsRetained s.next_handle s.next_handle id (record q { answering = b }) s.pending
        (omega arith) (marked s.next_handle id q b (h.retained id q found)) h.retained)

end-Inv :
    (id : String) (handle : ℕ) (sent : Bool) (s : QuestionStore)
    → Inv s
    → Inv (end_answer id handle sent s)
unfolding end_answer
end-Inv id handle sent s h = elim (Option-cases (lookup id s.pending)) [
  | inl none_there ↦ rw (none_there, end_answer) h
  | inr (q, found) ↦
      rw (found, end_answer)
        (if-cases Inv (q.handle == handle) _ _
          (λ _.
            if-cases Inv (sent || s.terminated) _ _ (λ _. erased s id q h found)
              (λ _. remarked s id q false h found))
          (λ _. h))
]

expire-Inv : (id : String) (handle : ℕ) (s : QuestionStore) → Inv s → Inv (expire id handle s)
unfolding expire
expire-Inv id handle s h = elim (Option-cases (lookup id s.pending)) [
  | inl none_there ↦ rw (none_there, expire) h
  | inr (q, found) ↦
      rw (found, expire)
        (if-cases Inv (q.handle == handle) _ _ (λ _. erased s id q h found) (λ _. h))
]

begin-Inv :
    (id : String) (a : Option QuestionAnswer) (s : QuestionStore)
    → Inv s
    → Inv (begin_answer id a s).0
unfolding begin_answer
begin-Inv id a s h = elim (Option-cases (lookup id s.pending)) [
  | inl none_there ↦ rw (none_there, begin_answer) h
  | inr (q, found) ↦
      rw (found, begin_answer)
        (if-cases P q.answering _ _ (λ _. h)
          (λ _. elim (Result-cases (build_question_response id q.summary.method a)) [
            | inl (e, bad) ↦ rw bad h
            | inr (r, good) ↦
                rw good (if-cases P s.has_sender _ _ (λ _. remarked s id q true h found) (λ _. h))
          ]))
]
  where
    P : QuestionStore × Result Failure (ℕ × ExtensionUiResponse) → Type 0
    P r = Inv r.0

add-Inv :
    (raw : List ℕ) (summary : QuestionSummary) (s : QuestionStore)
    → IsRetained (suc s.next_handle) summary.id (record {
      handle = s.next_handle;
      summary = summary;
      raw = raw;
      answering = false;
      timer = arms_timer summary.timeout;
    })
    → Inv s
    → Inv (add_question raw summary s).0
unfolding add_question
add-Inv raw summary s new h =
    if-cases {A = QuestionStore × Result Failure Bool} (λ r. Inv r.0) s.terminated _ _ (λ _. h)
      (λ live. elim (Option-cases (lookup summary.id s.pending)) [
        | inl free ↦ rw free (record {
          retained =
              insert-IsRetained s.next_handle (suc s.next_handle) summary.id _ s.pending
                (omega arith) new h.retained;
          emptied = λ over. cc;
        })
        | inr (q, taken) ↦ rw taken h
      ])

nonempty : (xs : List String) → (length xs == 0) ≡ false → xs ≢ []
nonempty [] h = cc
nonempty (x ∷ xs) h = λ e. cc

check-IsRetained :
    (r : Option QuestionRequest) (summary : QuestionSummary) (raw : List ℕ) (n : ℕ) (t : Bool)
    → check_request r ≡ ok (some summary)
    → IsRetained
        (suc n)
        summary.id
        (record { handle = n; summary = summary; raw = raw; answering = false; timer = t })
unfolding check_request
check-IsRetained none summary raw n t h = cc
check-IsRetained (some r) summary raw n t h = ground (arith, nonempty r.summary.options)

-- A late timer or a late answer of a question that is gone does not touch the question that was
-- filed under the same number after it.
pub stale_handle :
    (handle : ℕ) (sent : Bool) (raw : List ℕ) (summary : QuestionSummary) (s : QuestionStore)
    → handle < s.next_handle
    → (add_question raw summary s).1 ≡ ok true
    → let s' = (add_question raw summary s).0 in
      (end_answer summary.id handle sent s' ≡ s') × (expire summary.id handle s' ≡ s')
unfolding add_question end_answer expire
stale_handle handle sent raw summary s old added =
    let q : PendingQuestion = record {
      handle = s.next_handle;
      summary = summary;
      raw = raw;
      answering = false;
      timer = arms_timer summary.timeout;
    } in
    ground (arith, lookup-insert summary.id summary.id q s.pending, eq_refl summary.id)

retain-Inv :
    (decode : List ℕ → Option QuestionRequest) (raw : List ℕ) (s : QuestionStore)
    → Inv s
    → Inv (retain decode raw s).0
unfolding retain
retain-Inv decode raw s h = elim (Result-cases (check_request (decode raw))) [
  | inl (e, bad) ↦ rw (bad, retain) h
  | inr (none, plain) ↦ rw (plain, retain) h
  | inr (some summary, dialog) ↦
      rw (dialog, retain)
        (add-Inv raw summary s
          (check-IsRetained (decode raw) summary raw s.next_handle (arms_timer summary.timeout)
            dialog)
          h)
]

step-Inv :
    (decode : List ℕ → Option QuestionRequest) (s : QuestionStore) (op : Op)
    → Inv s
    → Inv (step decode s op)
unfolding cancel_pending clear lookup
step-Inv decode s (retains raw) h = retain-Inv decode raw s h
step-Inv decode s (begins id a) h = begin-Inv id a s h
step-Inv decode s (ends id handle sent) h = end-Inv id handle sent s h
step-Inv decode s (expires id handle) h = expire-Inv id handle s h
step-Inv decode s cancels h = record { retained = λ id q e. cc; emptied = λ _. refl }
step-Inv decode s clears h = record { retained = λ id q e. cc; emptied = λ _. refl }

run-Inv :
    (decode : List ℕ → Option QuestionRequest) (s : QuestionStore) (ops : List Op)
    → Inv s
    → Inv (run decode s ops)
run-Inv decode s [] h = h
run-Inv decode s (op ∷ ops) h = run-Inv decode (step decode s op) ops (step-Inv decode s op h)

-- From a new store, under every interleaving and every decoder: each pending question is filed
-- under its own number, is a dialog with a title and, if it selects, with options, and its handle
-- was given out before; and a terminated store holds no question.
pub run-new-Inv :
    (decode : List ℕ → Option QuestionRequest) (has_sender : Bool) (ops : List Op)
    → Inv (run decode (new_question_store has_sender) ops)
unfolding new_question_store lookup
run-new-Inv decode has_sender ops =
    run-Inv decode (new_question_store has_sender) ops
      (record { retained = λ id q e. cc; emptied = λ _. refl })
