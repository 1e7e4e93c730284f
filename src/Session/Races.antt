-- ===== src/Session/Races.antt =====
-- internal/supervisor/local.go: the drain of Pi's events races with the goroutine that reconciles a
-- response, and the order of the two makes no difference.
use mathlib.Core.Path.{subst}
use kanedias.Base.{ℕ, ◌≤◌, ◌<◌, ◌≡◌, ◌≢◌, refl, ◌⊎◌, List, [], ◌∷◌, ◌++◌, Bool, arith, ◌∙◌, ap, sym}
use kanedias.Contract.{ChildKind}
use kanedias.Lifecycle.{LifecycleState, starting, awaiting_handoff, transition}
use kanedias.Session.{PiActivity, unseen, ActivityState}
use kanedias.Session.Activity.{note_activity, accept_prompt, activate, apply_activity, mark_running}

-- The events of the agent's activity in the order of their drain.
abbrev pub drain : ChildKind → ActivityState → List (PiActivity × ℕ) → ActivityState
drain kind a [] = a
drain kind a ((activity, seq) ∷ events) = drain kind (note_activity kind activity seq a) events

-- The events start or settle the agent, and come after a response.
abbrev pub Follow : ℕ → List (PiActivity × ℕ) → Type 0
Follow seq [] = Unit
Follow seq ((activity, n) ∷ events) = (activity ≢ unseen) × (seq < n) × Follow seq events

-- Only a writer awaits a handoff.
abbrev pub FitsKind : ChildKind → ActivityState → Type 0
FitsKind kind a = (kind ≡ ChildKind.write) ⊎ (a.lifecycle ≢ awaiting_handoff)

apply_activity-fits :
    (kind : ChildKind) (activity : PiActivity) (state : LifecycleState)
    → (kind ≡ ChildKind.write) ⊎ (state ≢ awaiting_handoff)
    → (kind ≡ ChildKind.write) ⊎ (apply_activity kind activity state ≢ awaiting_handoff)
unfolding apply_activity transition
apply_activity-fits kind activity state h = ground arith

mark_running-fits :
    (kind : ChildKind) (state : LifecycleState)
    → (kind ≡ ChildKind.write) ⊎ (state ≢ awaiting_handoff)
    → (kind ≡ ChildKind.write) ⊎ (mark_running state ≢ awaiting_handoff)
unfolding mark_running transition
mark_running-fits kind state h = ground arith

note-FitsKind :
    (kind : ChildKind) (activity : PiActivity) (n : ℕ) (a : ActivityState)
    → FitsKind kind a
    → FitsKind kind (note_activity kind activity n a)
unfolding note_activity
note-FitsKind kind activity n a h = ground (arith, apply_activity-fits kind activity a.lifecycle h)

-- Running first changes nothing where the agent starts or settles.
apply_activity-mark_running :
    (kind : ChildKind) (activity : PiActivity) (state : LifecycleState)
    → activity ≢ unseen
    → (kind ≡ ChildKind.write) ⊎ (state ≢ awaiting_handoff)
    → apply_activity kind activity (mark_running state) ≡ apply_activity kind activity state
unfolding apply_activity transition
apply_activity-mark_running kind activity state h fits = ground arith

note-accept_prompt :
    (kind : ChildKind) (activity : PiActivity) (seq n : ℕ) (a : ActivityState)
    → activity ≢ unseen
    → seq < n
    → a.lifecycle_response_seq < n
    → FitsKind kind a
    → note_activity kind activity n (accept_prompt seq a)
      ≡ accept_prompt seq (note_activity kind activity n a)
unfolding note_activity accept_prompt
note-accept_prompt kind activity seq n a some_kind later new fits =
    ground (arith, apply_activity-mark_running kind activity a.lifecycle some_kind fits)

drain-accept_prompt :
    (kind : ChildKind) (seq : ℕ) (a : ActivityState) (events : List (PiActivity × ℕ))
    → Follow seq events
    → a.lifecycle_response_seq ≤ seq
    → FitsKind kind a
    → drain kind (accept_prompt seq a) events ≡ accept_prompt seq (drain kind a events)
drain-accept_prompt kind seq a [] h new fits = refl
drain-accept_prompt kind seq a ((activity, n) ∷ events) (some_kind, later, h) new fits =
    rw (note-accept_prompt kind activity seq n a some_kind later (omega arith) fits) (
      drain-accept_prompt kind seq (note_activity kind activity n a) events h
        (unfold note_activity in new) (note-FitsKind kind activity n a fits))

drain-append :
    (kind : ChildKind) (a : ActivityState) (xs ys : List (PiActivity × ℕ))
    → drain kind a (xs ++ ys) ≡ drain kind (drain kind a xs) ys
drain-append kind a [] ys = refl
drain-append kind a ((activity, n) ∷ xs) ys =
    drain-append kind (note_activity kind activity n a) xs ys

-- However many of the events that follow an accepted prompt are drained before its response is
-- reconciled, the session comes to the same state, where only a writer awaits a handoff and no later
-- response was reconciled before.
pub accept_prompt_any_time :
    (kind : ChildKind) (seq : ℕ) (a : ActivityState) (xs ys : List (PiActivity × ℕ))
    → Follow seq xs
    → a.lifecycle_response_seq ≤ seq
    → FitsKind kind a
    → drain kind (accept_prompt seq (drain kind a xs)) ys
      ≡ drain kind (accept_prompt seq a) (xs ++ ys)
accept_prompt_any_time kind seq a xs ys h new fits =
    ap (λ s. drain kind s ys) (sym (drain-accept_prompt kind seq a xs h new fits))
    ∙ sym (drain-append kind (accept_prompt seq a) xs ys)

-- The numbers of the events rise from a number on.
abbrev pub Rise : ℕ → List (PiActivity × ℕ) → Type 0
Rise last [] = Unit
Rise last ((activity, n) ∷ events) = (last < n) × Rise n events

note_seq :
    (activity : PiActivity) (n : ℕ) (a : ActivityState)
    → a.last_activity_seq < n
    → (note_activity ChildKind.root activity n a).last_activity_seq ≡ n
unfolding note_activity
note_seq activity n a h = ground arith

note_starting :
    (activity : PiActivity) (n : ℕ) (a : ActivityState)
    → a.lifecycle ≡ starting
    → (note_activity ChildKind.root activity n a).lifecycle ≡ starting
unfolding note_activity apply_activity
note_starting activity n a h = ground arith

note-activate :
    (activity : PiActivity) (seq n : ℕ) (streaming : Bool) (a : ActivityState)
    → activity ≢ unseen
    → seq < n
    → a.last_activity_seq < n
    → a.lifecycle ≡ starting
    → note_activity ChildKind.root activity n (activate ChildKind.root seq streaming a).0
      ≡ (activate ChildKind.root seq streaming (note_activity ChildKind.root activity n a)).0
unfolding note_activity activate apply_activity transition
note-activate activity seq n streaming a some_kind later new h = ground arith

drain-activate :
    (seq : ℕ) (streaming : Bool) (a : ActivityState) (events : List (PiActivity × ℕ))
    → Follow seq events
    → Rise a.last_activity_seq events
    → a.lifecycle ≡ starting
    → drain ChildKind.root (activate ChildKind.root seq streaming a).0 events
      ≡ (activate ChildKind.root seq streaming (drain ChildKind.root a events)).0
drain-activate seq streaming a [] h rise start = refl
drain-activate seq streaming a ((activity, n) ∷ events) (some_kind, later, h) (new, rise) start =
    rw (note-activate activity seq n streaming a some_kind later new start) (
      drain-activate seq streaming (note_activity ChildKind.root activity n a) events h
        (subst (λ k. Rise k events) (sym (note_seq activity n a new)) rise)
        (note_starting activity n a start))

-- However many of the events that follow the response by which a root session is bound are drained
-- before that response is reconciled, the session comes to the same state, where the session is
-- starting and the numbers of the events rise.
pub activate_any_time :
    (seq : ℕ) (streaming : Bool) (a : ActivityState) (xs ys : List (PiActivity × ℕ))
    → Follow seq xs
    → Rise a.last_activity_seq xs
    → a.lifecycle ≡ starting
    → drain ChildKind.root (activate ChildKind.root seq streaming (drain ChildKind.root a xs)).0 ys
      ≡ drain ChildKind.root (activate ChildKind.root seq streaming a).0 (xs ++ ys)
activate_any_time seq streaming a xs ys h rise start =
    ap (λ s. drain ChildKind.root s ys) (sym (drain-activate seq streaming a xs h rise start))
    ∙ sym (drain-append ChildKind.root (activate ChildKind.root seq streaming a).0 xs ys)
