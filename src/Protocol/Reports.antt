-- ===== src/Protocol/Reports.antt =====
-- internal/supervisor/process/protocol.go: what a reporter writes, in any order of its calls.
use kanedias.Base.{
  ◌<◌, ◌≡◌, refl, ap, ◌⊎◌, inl, inr, Bool, true, false, not, List, [], ◌∷◌, All, Option, none, some,
  arith, Result, ok, err, if◌then◌else◌, if-cases, Bool-cases, Result-cases, length, String,
}
use kanedias.Protocol.{max_record_bytes, ChildMessage, MessageError, validate_message}
use kanedias.Protocol.Wire.{Codec, read_limited, EncodeError}
use kanedias.Protocol.Reporter.{
  Update, Outcome, Reporter, AckEndpoint, update_message, outcome_message, record_if, send_wire,
  send_nonterminal, claim_terminal, finish_terminal, send_terminal, await_ack,
  wait_for_terminal_ack, read_terminal_ack, new_acknowledged_reporter,
}

-- A reporter, with the terminal message of the caller that has claimed it and not written yet.
pub record Running : Type 0 where
  pub reporter : Reporter
  pub in_flight : Option ChildMessage

-- The critical sections of the calls. Each write has its own error.
pub data Step : Type 0 where
  update : Option String → Update → Step
  claim : Outcome → Step
  finish : Option String → Option AckEndpoint → Step

abbrev pub IsUpdate : String → ChildMessage → Type 0
IsUpdate session_id m = (u : Update) × (m ≡ update_message session_id u)

abbrev pub IsOutcome : String → ChildMessage → Type 0
IsOutcome session_id m = (o : Outcome) × (m ≡ outcome_message session_id o)

module _ {Byte : Type 0} (is_clean : String → Bool) (codec : Codec Byte ChildMessage) where
  abbrev finish_in_flight :
      Option String → Option AckEndpoint → Option ChildMessage → Reporter → Reporter
  finish_in_flight failure terminal_ack none r = r
  finish_in_flight failure terminal_ack (some m) r =
      (finish_terminal is_clean codec failure terminal_ack m r).0

  abbrev pub step : Step → Running → Running
  step (update failure u) s = record s {
    reporter =
        (send_nonterminal is_clean codec failure (update_message s.reporter.session_id u)
          s.reporter).0;
  }
  step (claim o) s =
      let claimed = claim_terminal s.reporter in
      record {
        reporter = claimed.0;
        in_flight =
            if claimed.1 then some (outcome_message s.reporter.session_id o) else s.in_flight;
      }
  step (finish failure terminal_ack) s = record {
    reporter = finish_in_flight failure terminal_ack s.in_flight s.reporter;
    in_flight = none;
  }

  abbrev pub run : List Step → Running → Running
  run [] s = s
  run (t ∷ ts) s = run ts (step t s)

  -- A message that passes its validation and fits in a record with its line end.
  abbrev pub IsSound : ChildMessage → Type 0
  IsSound m =
      (validate_message is_clean m ≡ ok tt)
      × ((bytes : List Byte) × ((codec.marshal m ≡ ok bytes) × (length bytes < max_record_bytes)))

  -- Messages, the newest first, of which only the newest may be terminal.
  abbrev pub IsTranscript : String → List ChildMessage → Type 0
  IsTranscript session_id [] = Unit
  IsTranscript session_id (m ∷ ms) =
      (IsUpdate session_id m ⊎ IsOutcome session_id m) × All (IsUpdate session_id) ms

  send_wire-IsSound :
      (failure : Option String) (m : ChildMessage)
      → send_wire is_clean codec failure m ≡ ok tt
      → IsSound m
  unfolding send_wire
  send_wire-IsSound failure m h = elim (Result-cases (codec.marshal m)) [
    | inl (e, failed) ↦ absurd (ground (arith, h))
    | inr (bytes, encoded) ↦ (ground (arith, h), (bytes, (encoded, ground (arith, h, encoded))))
  ]

  -- What the flag and the caller in flight say of the messages written so far.
  abbrev Phase : String → Bool → Option ChildMessage → List ChildMessage → Type 0
  Phase session_id false none ms = All (IsUpdate session_id) ms
  Phase session_id false (some m) ms = ⊥
  Phase session_id true none ms = IsTranscript session_id ms
  Phase session_id true (some m) ms = IsOutcome session_id m × All (IsUpdate session_id) ms

  record Inv (session_id : String) (s : Running) : Type 0 where
    same_session : s.reporter.session_id ≡ session_id
    phase : Phase session_id s.reporter.terminal_sent s.in_flight s.reporter.records
    sound : All IsSound s.reporter.records

  updates-IsTranscript :
      (session_id : String) (ms : List ChildMessage)
      → All (IsUpdate session_id) ms
      → IsTranscript session_id ms
  updates-IsTranscript session_id [] h = tt
  updates-IsTranscript session_id (m ∷ ms) h = (inl h.0, h.1)

  record_if-All :
      {E : Type 0} (P : ChildMessage → Type 0) (r : Result E (Unit {0})) (m : ChildMessage)
      (ms : List ChildMessage)
      → (r ≡ ok tt → P m)
      → All P ms
      → All P (record_if r m ms)
  record_if-All P (ok u) m ms p h = (p refl, h)
  record_if-All P (err e) m ms p h = h

  record_if-update :
      {E : Type 0} (session_id : String) (sent : Bool) (in_flight : Option ChildMessage)
      (r : Result E (Unit {0})) (m : ChildMessage) (ms : List ChildMessage)
      → sent ≡ false
      → IsUpdate session_id m
      → Phase session_id sent in_flight ms
      → Phase session_id sent in_flight (record_if r m ms)
  record_if-update session_id true in_flight r m ms h u p = cc
  record_if-update session_id false none r m ms h u p =
      record_if-All (IsUpdate session_id) r m ms (λ _. u) p
  record_if-update session_id false (some n) r m ms h u p = absurd p

  record_if-outcome :
      {E : Type 0} (session_id : String) (sent : Bool) (r : Result E (Unit {0})) (m : ChildMessage)
      (ms : List ChildMessage)
      → Phase session_id sent (some m) ms
      → Phase session_id sent none (record_if r m ms)
  record_if-outcome session_id false r m ms p = absurd p
  record_if-outcome session_id true (ok u) m ms p = (inr p.0, p.1)
  record_if-outcome session_id true (err e) m ms p = updates-IsTranscript session_id ms p.1

  claim-Phase :
      (session_id : String) (sent : Bool) (in_flight : Option ChildMessage) (m : ChildMessage)
      (ms : List ChildMessage)
      → IsOutcome session_id m
      → Phase session_id sent in_flight ms
      → Phase session_id true (if not sent then some m else in_flight) ms
  claim-Phase session_id true in_flight m ms o p = p
  claim-Phase session_id false none m ms o p = (o, p)
  claim-Phase session_id false (some n) m ms o p = absurd p

  Phase-IsTranscript :
      (session_id : String) (sent : Bool) (in_flight : Option ChildMessage) (ms : List ChildMessage)
      → Phase session_id sent in_flight ms
      → IsTranscript session_id ms
  Phase-IsTranscript session_id false none ms p = updates-IsTranscript session_id ms p
  Phase-IsTranscript session_id false (some m) ms p = absurd p
  Phase-IsTranscript session_id true none ms p = p
  Phase-IsTranscript session_id true (some m) ms p = updates-IsTranscript session_id ms p.1

  finish-Inv :
      (session_id : String) (failure : Option String) (terminal_ack : Option AckEndpoint)
      (in_flight : Option ChildMessage) (r : Reporter)
      → Inv session_id (record { reporter = r; in_flight = in_flight })
      → Inv session_id (record {
        reporter = finish_in_flight failure terminal_ack in_flight r;
        in_flight = none;
      })
  unfolding finish_terminal
  finish-Inv session_id failure terminal_ack none r h = h
  finish-Inv session_id failure terminal_ack (some m) r h = record {
    same_session = h.same_session;
    phase =
        record_if-outcome session_id r.terminal_sent (send_wire is_clean codec failure m) m
          r.records h.phase;
    sound =
        record_if-All IsSound (send_wire is_clean codec failure m) m r.records
          (send_wire-IsSound failure m) h.sound;
  }

  step-Inv :
      (session_id : String) (t : Step) (s : Running) → Inv session_id s → Inv session_id (step t s)
  unfolding send_nonterminal claim_terminal
  step-Inv session_id (update failure u) s h =
      let m = update_message s.reporter.session_id u in
      if-cases
        (λ (p : Reporter × Result _ (Unit {0})).
          Inv session_id (record { reporter = p.0; in_flight = s.in_flight }))
        s.reporter.terminal_sent _ _ (λ _. h)
        (λ unsent. record {
          same_session = h.same_session;
          phase =
              record_if-update session_id s.reporter.terminal_sent s.in_flight
                (send_wire is_clean codec failure m) m s.reporter.records unsent
                (u, ap (λ i. update_message i u) h.same_session) h.phase;
          sound =
              record_if-All IsSound (send_wire is_clean codec failure m) m s.reporter.records
                (send_wire-IsSound failure m) h.sound;
        })
  step-Inv session_id (claim o) s h = record {
    same_session = h.same_session;
    phase =
        claim-Phase session_id s.reporter.terminal_sent s.in_flight
          (outcome_message s.reporter.session_id o) s.reporter.records
          (o, ap (λ i. outcome_message i o) h.same_session) h.phase;
    sound = h.sound;
  }
  step-Inv session_id (finish failure terminal_ack) s h =
      finish-Inv session_id failure terminal_ack s.in_flight s.reporter h

  run-Inv :
      (session_id : String) (ts : List Step) (s : Running)
      → Inv session_id s
      → Inv session_id (run ts s)
  run-Inv session_id [] s h = h
  run-Inv session_id (t ∷ ts) s h = run-Inv session_id ts (step t s) (step-Inv session_id t s h)

  abbrev pub start : String → Running
  start session_id = record { reporter = new_acknowledged_reporter session_id; in_flight = none }

  start-Inv : (session_id : String) → Inv session_id (start session_id)
  unfolding new_acknowledged_reporter
  start-Inv session_id = record { same_session = refl; phase = tt; sound = tt }

  -- However the critical sections of the calls on a new reporter interleave, and whichever writes
  -- fail, the messages it has written are of its session, at most one of them is a terminal one, no
  -- message follows a terminal one, and each passes its validation and fits in a record.
  pub run-IsTranscript :
      (session_id : String) (ts : List Step)
      → IsTranscript session_id (run ts (start session_id)).reporter.records
        × All IsSound (run ts (start session_id)).reporter.records
  run-IsTranscript session_id ts =
      let h = run-Inv session_id ts (start session_id) (start-Inv session_id) in
      (Phase-IsTranscript session_id _ _ _ h.phase, h.sound)

  -- The bytes of an endpoint that acknowledges: one byte, 0x06, and then the end.
  abbrev pub Acknowledges : AckEndpoint → Type 0
  Acknowledges a =
      (a.cancelled ≡ false)
      × ((a.reader.bytes ≡ 6 ∷ []) × ((a.reader.failure ≡ none) × (a.close_failed ≡ none)))

  wait_for_terminal_ack_ok : (a : AckEndpoint) → wait_for_terminal_ack a ≡ ok tt → Acknowledges a
  unfolding wait_for_terminal_ack read_terminal_ack read_limited
  wait_for_terminal_ack_ok a h = ground (arith, h)

  await_ack_ok :
      (r : Result (EncodeError MessageError) (Unit {0})) (terminal_ack : Option AckEndpoint)
      → await_ack is_clean codec r terminal_ack ≡ ok tt
      → (r ≡ ok tt) × ((a : AckEndpoint) × ((terminal_ack ≡ some a) × Acknowledges a))
  await_ack_ok (err e) terminal_ack h = cc
  await_ack_ok (ok u) none h = cc
  await_ack_ok (ok u) (some a) h = (
    refl,
    (
      a,
      (
        refl,
        elim (Result-cases (wait_for_terminal_ack a)) [
          | inl (e, failed) ↦ absurd (ground (arith, h, failed))
          | inr (u, good) ↦ wait_for_terminal_ack_ok a good
        ],
      ),
    ),
  )

  -- A terminal report that returns without an error is the first one, has written its message, and
  -- has read from its endpoint, before its context was done, the byte 0x06 and no other.
  pub send_terminal_ok :
      (failure : Option String) (terminal_ack : Option AckEndpoint) (m : ChildMessage)
      (r : Reporter)
      → (send_terminal is_clean codec failure terminal_ack m r).1 ≡ ok tt
      → (r.terminal_sent ≡ false)
        × (((send_terminal is_clean codec failure terminal_ack m r).0.records ≡ m ∷ r.records)
            × (IsSound m × ((a : AckEndpoint) × ((terminal_ack ≡ some a) × Acknowledges a))))
  unfolding send_terminal claim_terminal finish_terminal
  send_terminal_ok failure terminal_ack m r h = elim (Bool-cases r.terminal_sent) [
    | inl sent ↦ absurd (ground (arith, h, sent))
    | inr first ↦
        let acked =
          await_ack_ok (send_wire is_clean codec failure m) terminal_ack
            (ground (arith, h, first)) in
        (first, (rw (first, acked.0) refl, (send_wire-IsSound failure m acked.0, acked.1)))
  ]
