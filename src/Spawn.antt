-- ===== src/Spawn.antt =====
-- internal/supervisor/process/spawn.go: the parent's end of the records of a child process: the reader
-- of reports, NextMessage, the acknowledgement of the terminal report, and WaitReady.
pub mod Acknowledge
pub mod Start
pub mod Ready
mod Tests
use kanedias.Base.{
  ℕ, suc, zero, ◌+◌, Bool, true, false, not, ◌&&◌, ◌||◌, ◌==◌, List, [], ◌∷◌, Option, none, some,
  String, Result, ok, err, ◌>>=◌, ◌>>◌, fail_if, if◌then◌else◌, str_eq, length, ltb,
}
use kanedias.Contract.{ChildKind, ContextMode, ErrorCode, Error}
use kanedias.Protocol.{
  max_record_bytes, Bootstrap, RecoveryTicket, ChildMessage, MessageType, MessageError, WireError,
  absent,
}
use kanedias.Protocol.Wire.{Codec, Reader, DecodeError, decode_child_message}

-- What ReadSlice gives: a line without its line end, or the reason for none.
pub data Slice : Type 0 where
  line partial_line : List ℕ → Slice
  buffer_full : Slice
  slice_failed : String → Slice

pub data ReportError : Type 0 where
  report_too_large partial_record report_eof : ReportError
  report_read_failed : String → ReportError
  report_invalid : DecodeError MessageError → ReportError

abbrev pub ReportEvent : Type 0
ReportEvent = Result ReportError ChildMessage

abbrev pub report_of : Result (DecodeError MessageError) ChildMessage → ReportEvent
report_of (ok m) = ok m
report_of (err e) = err (report_invalid e)

module _ (is_clean : String → Bool) (codec : Codec ℕ ChildMessage) where
  -- One round of the loop: the event that it sends.
  unfoldable pub read_report : Slice → ReportEvent
  read_report buffer_full = err report_too_large
  read_report (partial_line []) = err report_eof
  read_report (partial_line (byte ∷ bytes)) = err partial_record
  read_report (slice_failed e) = err (report_read_failed e)
  read_report (line bytes) =
      if ltb max_record_bytes (suc (length bytes))
      then err report_too_large
      else report_of
          (decode_child_message is_clean codec (record { bytes = bytes; failure = none }))

-- The loop goes on after a message only, and only while its events are taken: `taken` is what
-- `sendReport` returns.
abbrev pub goes_on : ReportEvent → Bool → Bool
goes_on (ok m) taken = taken
goes_on (err e) taken = false

abbrev pub put_if {ℓ} : {A : Type ℓ} → Bool → A → List A → List A
put_if true x xs = x ∷ xs
put_if false x xs = xs

-- The events that are sent, one for each round.
unfoldable pub read_reports :
    (String → Bool) → Codec ℕ ChildMessage → List (Slice × Bool) → List ReportEvent
unfolding read_report
read_reports is_clean codec [] = []
read_reports is_clean codec ((slice, taken) ∷ slices) =
    let event = read_report is_clean codec slice in
    let rest = read_reports is_clean codec slices in
    put_if taken event (if goes_on event taken then rest else [])

-- A receive from the channel of reports, or the end of the caller's context.
pub data Received : Type 0 where
  event : ReportEvent → Received
  channel_closed context_done : Received

abbrev pub is_terminal_message : ChildMessage → Bool
is_terminal_message m = elim m.type [
  | MessageType.read_type ↦ true
  | MessageType.write_type ↦ true
  | MessageType.failure_type ↦ true
  | _ ↦ false
]

-- The fields of `Child` under `terminalMu`, with the recovery ticket. `ack_done` is the Once,
-- `acks` and `closes` count the writes and the closes of the acknowledgement endpoint.
pub record Child : Type 0 where
  pub pending_terminal : Option ChildMessage
  pub terminal_acked : Bool
  pub terminal_ack_closed : Bool
  pub ack_done : Bool
  pub acks : ℕ
  pub closes : ℕ
  pub recovery_ticket : Option RecoveryTicket

unfoldable pub new_child : Child
new_child = record {
  pending_terminal = none;
  terminal_acked = false;
  terminal_ack_closed = false;
  ack_done = false;
  acks = 0;
  closes = 0;
  recovery_ticket = none;
}

pub data ChildError : Type 0 where
  report_failed : ReportError → ChildError
  reports_ended caller_done second_terminal not_terminal nothing_pending other_report : ChildError
  already_acked endpoint_closed ack_write_failed : ChildError
  other_session no_ownership other_ticket not_ready other_socket probe_failed : ChildError
  child_error : Error → ChildError

unfoldable pub next_message : Received → Child → Child × Result ChildError ChildMessage
next_message channel_closed c = (c, err reports_ended)
next_message context_done c = (c, err caller_done)
next_message (event (err e)) c = (c, err (report_failed e))
next_message (event (ok m)) c =
    if is_terminal_message m && (not (absent c.pending_terminal) || c.terminal_acked)
    then (c, err second_terminal)
    else (
      record c { pending_terminal = if is_terminal_message m then some m else c.pending_terminal },
      ok m,
    )

-- bytes.Equal
abbrev pub bytes_equal : List ℕ → List ℕ → Bool
bytes_equal [] [] = true
bytes_equal (a ∷ xs) (b ∷ ys) = a == b && bytes_equal xs ys
bytes_equal _ _ = false

abbrev pub same_report : Result String (List ℕ) → Result String (List ℕ) → Bool
same_report (ok xs) (ok ys) = bytes_equal xs ys
same_report _ _ = false

abbrev pub is_pending : Codec ℕ ChildMessage → Option ChildMessage → ChildMessage → Bool
is_pending codec none m = false
is_pending codec (some p) m = same_report (codec.marshal p) (codec.marshal m)

-- The guards of `AcknowledgeTerminal`.
unfoldable pub check_acknowledge :
    Codec ℕ ChildMessage → ChildMessage → Child → Result ChildError (Unit {0})
check_acknowledge codec m c = do
  fail_if (not (is_terminal_message m)) not_terminal
  fail_if (absent c.pending_terminal) nothing_pending
  fail_if (not (is_pending codec c.pending_terminal m)) other_report
  fail_if c.terminal_acked already_acked
  fail_if c.terminal_ack_closed endpoint_closed

abbrev pub is_ok {ℓ} : {E : Type 0} {A : Type ℓ} → Result E A → Bool
is_ok (ok x) = true
is_ok (err e) = false

abbrev pub one_if : Bool → ℕ
one_if true = 1
one_if false = 0

-- `write_fails` is whether writing or closing the endpoint fails, if the Once runs.
unfoldable pub acknowledge_terminal :
    Codec ℕ ChildMessage → Bool → ChildMessage → Child → Child × Result ChildError (Unit {0})
acknowledge_terminal codec write_fails m c =
    let checked = check_acknowledge codec m c in
    (
      record c {
        terminal_acked = c.terminal_acked || is_ok checked;
        ack_done = c.ack_done || is_ok checked;
        acks = c.acks + one_if (is_ok checked && not c.ack_done);
        closes = c.closes + one_if (is_ok checked && not c.ack_done);
      },
      (do checked; fail_if (write_fails && not c.ack_done) ack_write_failed),
    )

-- The error of closing the endpoint is left out.
unfoldable pub close_terminal_ack : Child → Child
close_terminal_ack c =
    let closes_now = not (c.terminal_ack_closed || c.terminal_acked) in
    record c {
      terminal_ack_closed = c.terminal_ack_closed || closes_now;
      ack_done = c.ack_done || closes_now;
      closes = c.closes + one_if (closes_now && not c.ack_done);
    }
