-- ===== src/ReadTask/Settles.antt =====
-- internal/supervisor/result.go: what a read result says of the events.
use kanedias.Base.{
  ℕ, ◌<◌, ◌≡◌, ◌↔◌, refl, ◌⊎◌, inl, inr, List, [], ◌∷◌, ◌++◌, true, false, Option, some, none,
  arith, String, str_eq_iff, ok, Option-cases, Bool-cases, ap, is_blank,
}
use kanedias.Event.{EventEnvelope}
use kanedias.Contract.{ChildKind, Error}
use kanedias.Identity.{Identity}
use kanedias.Results.{ReadChildResult}
use kanedias.ReadTask.{
  PiMessage, Progress, continues, settles, breaks, Session, is_relevant, handle_event,
  handle_message, read_events, RpcReply, admit_read_task, last_assistant_text, run_read_task,
  conclude, submit_prompt,
}
use kanedias.ReadTask.Messages.{
  Each, GoesOn, LastReason, LastReason-cons, settles_lem, continues_lem,
}

pub Progress-cases :
    (p : Progress)
    → ((reason : String) × (p ≡ continues reason))
      ⊎ ((p ≡ settles) ⊎ ((e : Error) × (p ≡ breaks e)))
Progress-cases (continues reason) = inl (reason, refl)
Progress-cases settles = inr (inl refl)
Progress-cases (breaks e) = inr (inr (e, refl))

module _ (decode : List ℕ → Option PiMessage) (session_id : String) (boundary : ℕ) where
  -- An event of the agent of the session from after the boundary.
  abbrev pub IsHeard : EventEnvelope → Type 0
  IsHeard event =
      (event.session_id ≡ session_id) × (event.kind ≡ "pi") × (boundary < event.source_seq)

  -- The messages of the events that are heard, each of which decodes.
  pub data Hears : List EventEnvelope → List PiMessage → Type 0 where
    silent : Hears [] []
    ignores :
        (event : EventEnvelope) (events : List EventEnvelope) (ms : List PiMessage)
        → ¬ IsHeard event
        → Hears events ms
        → Hears (event ∷ events) ms
    notices :
        (event : EventEnvelope) (m : PiMessage) (events : List EventEnvelope) (ms : List PiMessage)
        → IsHeard event
        → decode event.payload ≡ some m
        → Hears events ms
        → Hears (event ∷ events) (m ∷ ms)

  -- The events up to a settlement: none that is heard before it is an error or a settlement, and the
  -- last message of the assistant in them has stopped.
  pub record Settles (reason : String) (events : List EventEnvelope) : Type 0 where
    pub before : List EventEnvelope
    pub messages : List PiMessage
    pub settlement : EventEnvelope
    pub settled : PiMessage
    pub after : List EventEnvelope
    pub split : events ≡ before ++ settlement ∷ after
    pub heard : Hears before messages
    pub settlement_is_heard : IsHeard settlement
    pub settlement_decodes : decode settlement.payload ≡ some settled
    pub is_settlement : settled.type_name ≡ "agent_settled"
    pub undisturbed : Each GoesOn messages
    pub stopped : LastReason reason "stop" messages

  IsHeard-iff :
      (event : EventEnvelope) → (is_relevant session_id boundary event ≡ true) ↔ IsHeard event
  IsHeard-iff event = (
    λ h. ground (arith, str_eq_iff event.session_id session_id, str_eq_iff event.kind "pi", h),
    λ h. ground (arith, str_eq_iff event.session_id session_id, str_eq_iff event.kind "pi", h),
  )

  read_events-Settles :
      (reason : String) (events : List EventEnvelope)
      → read_events decode session_id boundary reason events ≡ settles
      → Settles reason events
  unfolding read_events handle_event
  read_events-Settles reason [] h = absurd (ground arith)
  read_events-Settles reason (event ∷ events) h =
      elim (Bool-cases (is_relevant session_id boundary event)) [
        | inr other ↦
            let r = read_events-Settles reason events (ground (arith, other, h)) in
            record {
              before = event ∷ r.before;
              messages = r.messages;
              settlement = r.settlement;
              settled = r.settled;
              after = r.after;
              split = ap (λ l. event ∷ l) r.split;
              heard =
                  ignores event r.before r.messages
                    (λ is. ground (arith, other, (IsHeard-iff event).1 is)) r.heard;
              settlement_is_heard = r.settlement_is_heard;
              settlement_decodes = r.settlement_decodes;
              is_settlement = r.is_settlement;
              undisturbed = r.undisturbed;
              stopped = r.stopped;
            }
        | inl relevant ↦ elim (Option-cases (decode event.payload)) [
          | inl undecodable ↦ absurd (ground (arith, relevant, undecodable, h))
          | inr (m, decoded) ↦ elim (Progress-cases (handle_message reason (some m))) [
            | inl (next, e) ↦
                let r = read_events-Settles next events (ground (arith, relevant, decoded, e, h)) in
                let (goes_on, step) = continues_lem reason next m e in
                record {
                  before = event ∷ r.before;
                  messages = m ∷ r.messages;
                  settlement = r.settlement;
                  settled = r.settled;
                  after = r.after;
                  split = ap (λ l. event ∷ l) r.split;
                  heard =
                      notices event m r.before r.messages ((IsHeard-iff event).0 relevant) decoded
                        r.heard;
                  settlement_is_heard = r.settlement_is_heard;
                  settlement_decodes = r.settlement_decodes;
                  is_settlement = r.is_settlement;
                  undisturbed = (goes_on, r.undisturbed);
                  stopped = LastReason-cons reason next "stop" m r.messages step r.stopped;
                }
            | inr (inl e) ↦
                let (settlement, stop) = settles_lem reason m e in
                record {
                  before = [];
                  messages = [];
                  settlement = event;
                  settled = m;
                  after = events;
                  split = refl;
                  heard = silent;
                  settlement_is_heard = (IsHeard-iff event).0 relevant;
                  settlement_decodes = decoded;
                  is_settlement = settlement;
                  undisturbed = tt;
                  stopped = inr (tt, stop);
                }
            | inr (inr (e, bad)) ↦ absurd (ground (arith, relevant, decoded, bad, h))
          ]
        ]
      ]

-- A reply of the RPC by which it succeeds with a command.
abbrev pub Succeeds : String → Option RpcReply → RpcReply → Type 0
Succeeds command reply r =
    (reply ≡ some r) × (r.type_name ≡ "response") × (r.command ≡ command) × (r.success ≡ true)

submit_prompt_ok :
    (reply : Option RpcReply)
    → submit_prompt reply ≡ ok tt
    → (r : RpcReply) × Succeeds "prompt" reply r
unfolding submit_prompt
submit_prompt_ok none h = absurd (ground (arith, h))
submit_prompt_ok (some r) h =
    (r, ground (arith, h, str_eq_iff r.type_name "response", str_eq_iff r.command "prompt"))

last_assistant_text_ok :
    (reply : Option RpcReply) (output : String)
    → last_assistant_text reply ≡ ok output
    → (r : RpcReply) × (Succeeds "get_last_assistant_text" reply r × (r.text ≡ some output))
unfolding last_assistant_text
last_assistant_text_ok none output h = absurd (ground (arith, h))
last_assistant_text_ok (some r) output h = (
  r,
  (
    ground (
      arith,
      h,
      str_eq_iff r.type_name "response",
      str_eq_iff r.command "get_last_assistant_text",
    ),
    ground (arith, h),
  ),
)

-- A read task that succeeds is one of a read child, with a task that is not blank, whose prompt was
-- accepted. Among its events there is one of this session's agent, from after the boundary, by which
-- the agent settled; each such event before it decodes, is no error of an extension and no settlement;
-- and the last message of the assistant that ended in them has the stop reason "stop". Its output is
-- the text of a successful reply with the last text of the assistant, in the name of the session and
-- its worker.
pub run_read_task-ok :
    (decode : List ℕ → Option PiMessage) (identity : Identity) (task : String) (s : Session)
    (r : ReadChildResult)
    → run_read_task decode identity task s ≡ ok r
    → (identity.kind ≡ ChildKind.read)
      × (is_blank task ≡ false)
      × ((prompt : RpcReply) × Succeeds "prompt" s.prompt_reply prompt)
      × Settles decode identity.session_id s.boundary "" (s.replay ++ s.live)
      × ((text : RpcReply) × (Succeeds "get_last_assistant_text" s.text_reply text
            × (text.text ≡ some r.output)))
      × (r.kind ≡ ChildKind.read)
      × (r.session_id ≡ identity.session_id)
      × (r.worker_type ≡ identity.worker)
unfolding run_read_task conclude admit_read_task
run_read_task-ok decode identity task s r h =
    let events = s.replay ++ s.live in
    elim (Progress-cases (read_events decode identity.session_id s.boundary "" events)) [
      | inl (next, e) ↦ absurd (ground arith)
      | inr (inr (e, bad)) ↦ absurd (ground arith)
      | inr (inl e) ↦ (
        ground arith,
        ground arith,
        submit_prompt_ok s.prompt_reply (ground arith),
        read_events-Settles decode identity.session_id s.boundary "" events e,
        last_assistant_text_ok s.text_reply r.output (ground arith),
        ground arith,
        ground arith,
        ground arith,
      )
    ]
