-- ===== src/Session/Continues.antt =====
-- internal/supervisor/local.go: what a session keeps from one operation to the next.
use kanedias.Base.{
  ℕ, ◌≤◌, ◌≡◌, refl, ◌∙◌, List, [], Bool, true, false, Option, arith, lookup, string_key,
}
use kanedias.Contract.{ChildKind}
use kanedias.Handoff.{complete_handoff}
use kanedias.Lifecycle.{LifecycleState, failed, stopping, stopped, transition}
use kanedias.Lifecycle.Paths.{stage}
use kanedias.Questions.{
  QuestionRequest, QuestionStore, retain, begin_answer, end_answer, expire, cancel_pending, clear,
}
use kanedias.Questions.Store as Store
use kanedias.Session.{LocalSession, PiActivity, ActivityState}
use kanedias.Session.Activity.{
  mark_running, apply_activity, note_activity, accept_prompt, activate, fail_active,
}
use kanedias.Session.Bind.{is_bound}

-- A session that is stopping, and one that has failed or is stopping.
abbrev pub has_stopped : LifecycleState → Bool
has_stopped stopping = true
has_stopped stopped = true
has_stopped _ = false

abbrev pub is_over : LifecycleState → Bool
is_over failed = true
is_over stopping = true
is_over stopped = true
is_over _ = false

-- It takes no questions any more, and holds none.
pub record IsQuiet (q : QuestionStore) : Type 0 where
  pub closed : q.terminated ≡ true
  pub holds_none : q.pending ≡ []

-- A session that is stopping is quiet, and so is one that has failed, once it has been cleared.
abbrev pub IsSettled : LocalSession → Type 0
IsSettled s =
    (has_stopped s.activity.lifecycle ≡ true → IsQuiet s.questions)
    × (is_over s.activity.lifecycle ≡ true → s.failing ≡ 0 → IsQuiet s.questions)

-- What one session has become of another.
pub record Continues (s t : LocalSession) : Type 0 where
  pub same_identity : t.identity ≡ s.identity
  pub same_binding : is_bound s.binding ≡ true → t.binding ≡ s.binding
  pub forward : stage s.activity.lifecycle ≤ stage t.activity.lifecycle
  pub quiet : IsQuiet s.questions → IsQuiet t.questions
  pub settled : IsSettled s → IsSettled t

-- The changes of the lifecycle: forward, and never over unless it fails or stops.
abbrev pub Goes : LifecycleState → LifecycleState → Type 0
Goes a b =
    (stage a ≤ stage b)
    × (has_stopped b ≡ true → has_stopped a ≡ true)
    × (is_over b ≡ true → is_over a ≡ true)

pub apply-Goes :
    (kind : ChildKind) (activity : PiActivity) (a : LifecycleState)
    → Goes a (apply_activity kind activity a)
unfolding apply_activity transition
apply-Goes kind activity a = ground arith

pub mark-Goes : (a : LifecycleState) → Goes a (mark_running a)
unfolding mark_running transition
mark-Goes a = ground arith

pub handoff-Goes : (a : LifecycleState) → Goes a (complete_handoff a)
unfolding complete_handoff transition
handoff-Goes a = ground arith

pub note-Goes :
    (kind : ChildKind) (activity : PiActivity) (n : ℕ) (a : ActivityState)
    → Goes a.lifecycle (note_activity kind activity n a).lifecycle
unfolding note_activity
note-Goes kind activity n a = ground (arith, apply-Goes kind activity a.lifecycle)

pub prompt-Goes : (n : ℕ) (a : ActivityState) → Goes a.lifecycle (accept_prompt n a).lifecycle
unfolding accept_prompt
prompt-Goes n a = ground (arith, mark-Goes a.lifecycle)

pub activate-Goes :
    (kind : ChildKind) (n : ℕ) (streaming : Bool) (a : ActivityState)
    → Goes a.lifecycle (activate kind n streaming a).0.lifecycle
unfolding activate transition apply_activity
activate-Goes kind n streaming a = ground arith

pub fail-stage : (a : LifecycleState) → stage a ≤ stage (fail_active a)
unfolding fail_active transition
fail-stage a = ground arith

pub fail-stopped : (a : LifecycleState) → has_stopped (fail_active a) ≡ true → has_stopped a ≡ true
unfolding fail_active transition
fail-stopped a = ground arith

-- A store that is quiet stays so.
pub ask-IsQuiet :
    (decode : List ℕ → Option QuestionRequest) (q : QuestionStore) (op : Store.Op)
    → IsQuiet q
    → IsQuiet (Store.step decode q op)
unfolding retain begin_answer end_answer expire cancel_pending clear lookup
ask-IsQuiet decode q (Store.retains raw) h = ground arith
ask-IsQuiet decode q (Store.begins id a) h = ground arith
ask-IsQuiet decode q (Store.ends id handle sent) h = ground arith
ask-IsQuiet decode q (Store.expires id handle) h = ground arith
ask-IsQuiet decode q Store.cancels h = ground arith
ask-IsQuiet decode q Store.clears h = ground arith

pub Continues-refl : (s : LocalSession) → Continues s s
Continues-refl s = ground arith

-- A change of the activity alone.
pub activity-Continues :
    (s : LocalSession) (a : ActivityState)
    → Goes s.activity.lifecycle a.lifecycle
    → Continues s (record s { activity = a })
activity-Continues s a h = record {
  same_identity = refl;
  same_binding = λ _. refl;
  forward = h.0;
  quiet = λ q. q;
  settled = λ q. (λ over. q.0 (h.1 over), λ over done. q.1 (h.2 over) done);
}

-- A change of the questions that keeps them quiet.
pub questions-Continues :
    (s : LocalSession) (q : QuestionStore)
    → (IsQuiet s.questions → IsQuiet q)
    → Continues s (record s { questions = q })
questions-Continues s q h = record {
  same_identity = refl;
  same_binding = λ _. refl;
  forward = omega arith;
  quiet = h;
  settled = λ was. (λ over. h (was.0 over), λ over done. h (was.1 over done));
}

pub clear-IsQuiet : (q : QuestionStore) → IsQuiet (clear q)
unfolding clear
clear-IsQuiet q = record { closed = refl; holds_none = refl }

-- The end of the questions, with any move forward.
pub clear-Continues :
    (s : LocalSession) (state : LifecycleState) (closed drained : Bool)
    → stage s.activity.lifecycle ≤ stage state
    → Continues s (record s {
      questions = clear s.questions;
      activity = record s.activity { lifecycle = state };
      rpc_closed = closed;
      drain_done = drained;
    })
unfolding clear
clear-Continues s state closed drained h = record {
  same_identity = refl;
  same_binding = λ _. refl;
  forward = h;
  quiet = λ _. clear-IsQuiet s.questions;
  settled = λ _. (λ over. clear-IsQuiet s.questions, λ over done. clear-IsQuiet s.questions);
}

-- One after the other.
pub Continues-trans : (s t u : LocalSession) → Continues s t → Continues t u → Continues s u
Continues-trans s t u h k = record {
  same_identity = k.same_identity ∙ h.same_identity;
  same_binding = λ bound. let e = h.same_binding bound in k.same_binding (rw e bound) ∙ e;
  forward = omega (arith, h.forward, k.forward);
  quiet = λ was. k.quiet (h.quiet was);
  settled = λ was. k.settled (h.settled was);
}
