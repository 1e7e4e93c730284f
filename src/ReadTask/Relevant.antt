-- ===== src/ReadTask/Relevant.antt =====
-- internal/supervisor/result.go: which events a read task listens to.
use kanedias.Base.{
  ℕ, ◌≡◌, refl, inl, inr, List, [], ◌∷◌, ◌++◌, Bool, true, false, Option, arith, String, Bool-cases,
  select, ap,
}
use kanedias.Event.{EventEnvelope}
use kanedias.Identity.{Identity}
use kanedias.ReadTask.Settles.{Progress-cases}
use kanedias.ReadTask.{
  PiMessage, Progress, continues, Session, is_relevant, handle_event, read_events, run_read_task,
  conclude, admit_read_task,
}

select-append :
    (p : EventEnvelope → Bool) (xs ys : List EventEnvelope)
    → select p (xs ++ ys) ≡ select p xs ++ select p ys
select-append p [] ys = refl
select-append p (x ∷ xs) ys = elim (Bool-cases (p x)) [
  | inl kept ↦ rw kept (ap (λ l. x ∷ l) (select-append p xs ys))
  | inr left ↦ rw left (select-append p xs ys)
]

module _ (decode : List ℕ → Option PiMessage) (session_id : String) (boundary : ℕ) where
  handle-irrelevant :
      (reason : String) (event : EventEnvelope)
      → is_relevant session_id boundary event ≡ false
      → handle_event decode session_id boundary reason event ≡ continues reason
  unfolding handle_event
  handle-irrelevant reason event h = rw (h, handle_event) refl

  keep :
      (event : EventEnvelope) (events : List EventEnvelope) (reason : String) (p : Progress)
      → is_relevant session_id boundary event ≡ true
      → read_events decode session_id boundary reason
          (event ∷ select (is_relevant session_id boundary) events)
        ≡ p
      → read_events decode session_id boundary reason
          (select (is_relevant session_id boundary) (event ∷ events))
        ≡ p
  keep event events reason p relevant h = rw relevant h

  read-select :
      (reason : String) (events : List EventEnvelope)
      → read_events decode session_id boundary reason
          (select (is_relevant session_id boundary) events)
        ≡ read_events decode session_id boundary reason events
  unfolding read_events
  read-select reason [] = refl
  read-select reason (event ∷ events) = elim (Bool-cases (is_relevant session_id boundary event)) [
    | inl relevant ↦ elim (Progress-cases (handle_event decode session_id boundary reason event)) [
      | inl (next, e) ↦
          keep event events reason _ relevant (ground (arith, read-select next events))
      | inr (inl e) ↦ keep event events reason _ relevant (ground arith)
      | inr (inr (error, e)) ↦ keep event events reason _ relevant (ground arith)
    ]
    | inr other ↦
        rw other (ground (arith, handle-irrelevant reason event other, read-select reason events))
  ]

-- The events that are not of this session's agent, or that are not from after the boundary, make no
-- difference: neither those of the replay nor those that arrive live.
pub run_read_task-select :
    (decode : List ℕ → Option PiMessage) (identity : Identity) (task : String) (s : Session)
    → let listens = select (is_relevant identity.session_id s.boundary) in
      run_read_task decode identity task
        (record s { replay = listens s.replay; live = listens s.live })
      ≡ run_read_task decode identity task s
unfolding run_read_task conclude admit_read_task
run_read_task-select decode identity task s =
    let p = is_relevant identity.session_id s.boundary in
    let same : read_events decode identity.session_id s.boundary ""
          (select p s.replay ++ select p s.live)
        ≡ read_events decode identity.session_id s.boundary "" (s.replay ++ s.live) =
      rw⁻¹ (select-append p s.replay s.live)
        (read-select decode identity.session_id s.boundary "" (s.replay ++ s.live)) in
    ap (conclude identity s (admit_read_task identity task s)) same
