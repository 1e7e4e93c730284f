-- ===== src/Protocol/Reporter.antt =====
-- internal/supervisor/process/protocol.go: the Reporter of a child. A terminal report claims
-- `terminalSent` in one critical section and writes in another; a nonterminal one does both in one.
use kanedias.Base.{
  ℕ, suc, Bool, true, false, not, List, [], ◌∷◌, Option, none, some, Result, ok, err, ◌>>=◌, ◌>>◌,
  fail_if, if◌then◌else◌, length, ltb, String, ◌==◌,
}
use kanedias.Contract.{ErrorCode}
use kanedias.Results.{ReadChildResult, WriteChildResult}
use kanedias.Protocol.{
  max_record_bytes, MessageType, ChildMessage, MessageError, RecoveryTicket, validate_message,
}
use kanedias.Protocol.Wire.{
  Codec, Reader, EncodeError, read_limited, wrap_invalid, wrap_marshal, too_large, written,
}

-- The calls of the methods, by whether they are terminal.
pub data Update : Type 0 where
  ownership_update : RecoveryTicket → Update
  ready_update : String → Update

pub data Outcome : Type 0 where
  read_outcome : ReadChildResult → Outcome
  write_outcome : WriteChildResult → Outcome
  failure_outcome : ErrorCode → String → Outcome

abbrev pub empty_message : MessageType → String → ChildMessage
empty_message type session_id = record {
  type = type;
  session_id = session_id;
  ownership = none;
  ready = none;
  read_result = none;
  write_result = none;
  error = none;
}

abbrev pub update_message : String → Update → ChildMessage
update_message session_id (ownership_update ticket) =
    record (empty_message MessageType.ownership_type session_id) { ownership = some ticket }
update_message session_id (ready_update socket_path) =
    record (empty_message MessageType.ready_type session_id) {
      ready = some (record { socket_path = socket_path });
    }

abbrev pub outcome_message : String → Outcome → ChildMessage
outcome_message session_id (read_outcome r) =
    record (empty_message MessageType.read_type session_id) { read_result = some r }
outcome_message session_id (write_outcome w) =
    record (empty_message MessageType.write_type session_id) { write_result = some w }
outcome_message session_id (failure_outcome code message) =
    record (empty_message MessageType.failure_type session_id) {
      error = some (record { code = code; message = message });
    }

-- `records` are the messages whose write succeeded, the newest first.
pub record Reporter : Type 0 where
  pub session_id : String
  pub terminal_sent : Bool
  pub records : List ChildMessage

unfoldable pub new_acknowledged_reporter : String → Reporter
new_acknowledged_reporter session_id = record {
  session_id = session_id;
  terminal_sent = false;
  records = [];
}

abbrev pub terminal_ack_byte : ℕ
terminal_ack_byte = 6

pub data AckError : Type 0 where
  read_ack_failed : String → AckError
  ack_closed not_one_ack context_done : AckError

abbrev pub is_ack : List ℕ → Bool
is_ack (byte ∷ []) = byte == terminal_ack_byte
is_ack _ = false

-- The test of the bytes that were read.
abbrev pub check_ack : List ℕ → Result AckError (Unit {0})
check_ack [] = err ack_closed
check_ack (byte ∷ bytes) = if is_ack (byte ∷ bytes) then ok tt else err not_one_ack

-- The error of Close counts when reading had none; `close_failed` leaves out os.ErrClosed.
abbrev pub ack_bytes : Result String (List ℕ) → Option String → Result AckError (List ℕ)
ack_bytes (err e) close_failed = err (read_ack_failed e)
ack_bytes (ok bytes) (some e) = err (read_ack_failed e)
ack_bytes (ok bytes) none = ok bytes

-- The goroutine of `waitForTerminalAck`.
unfoldable pub read_terminal_ack : Reader ℕ → Option String → Result AckError (Unit {0})
unfolding read_limited
read_terminal_ack terminal_ack close_failed = do
  bytes ← ack_bytes (read_limited 2 terminal_ack) close_failed
  check_ack bytes

-- The acknowledgement endpoint, and whether the context is done before the goroutine answers.
pub record AckEndpoint : Type 0 where
  pub reader : Reader ℕ
  pub close_failed : Option String
  pub cancelled : Bool

unfoldable pub wait_for_terminal_ack : AckEndpoint → Result AckError (Unit {0})
unfolding read_terminal_ack
wait_for_terminal_ack a =
    if a.cancelled then err context_done else read_terminal_ack a.reader a.close_failed

pub data SendError : Type 0 where
  already_sent ack_required : SendError
  send_failed : EncodeError MessageError → SendError
  ack_failed : AckError → SendError

abbrev pub wrap_send : Result (EncodeError MessageError) (Unit {0}) → Result SendError (Unit {0})
wrap_send (ok u) = ok tt
wrap_send (err e) = err (send_failed e)

abbrev pub wrap_ack : Result AckError (Unit {0}) → Result SendError (Unit {0})
wrap_ack (ok u) = ok tt
wrap_ack (err e) = err (ack_failed e)

-- An append to the records if the write succeeded.
abbrev pub record_if :
    {E : Type 0} → Result E (Unit {0}) → ChildMessage → List ChildMessage → List ChildMessage
record_if (ok u) message records = message ∷ records
record_if (err e) message records = records

-- The critical section of `sendTerminal`: whether the caller may go on.
unfoldable pub claim_terminal : Reporter → Reporter × Bool
claim_terminal r = (record r { terminal_sent = true }, not r.terminal_sent)

module _ {Byte : Type 0} (is_clean : String → Bool) (codec : Codec Byte ChildMessage) where
  -- `sendWire` up to the answer of the writer, whose error is `failure`. The line end adds a byte.
  unfoldable pub send_wire :
      Option String → ChildMessage → Result (EncodeError MessageError) (Unit {0})
  send_wire failure message = do
    wrap_invalid codec (validate_message is_clean message)
    data_written ← wrap_marshal codec (codec.marshal message)
    fail_if (ltb max_record_bytes (suc (length data_written))) too_large
    written failure tt

  unfoldable pub send_nonterminal :
      Option String → ChildMessage → Reporter → Reporter × Result SendError (Unit {0})
  unfolding send_wire
  send_nonterminal failure message r = if r.terminal_sent then (r, err already_sent) else (
    record r { records = record_if (send_wire failure message) message r.records },
    wrap_send (send_wire failure message),
  )

  -- The last part of `sendTerminal`: the acknowledgement of what was written.
  abbrev pub await_ack :
      Result (EncodeError MessageError) (Unit {0})
      → Option AckEndpoint
      → Result SendError (Unit {0})
  await_ack (err e) terminal_ack = err (send_failed e)
  await_ack (ok u) none = err ack_required
  await_ack (ok u) (some terminal_ack) = wrap_ack (wait_for_terminal_ack terminal_ack)

  -- `sendTerminal` after its critical section.
  unfoldable pub finish_terminal :
      Option String
      → Option AckEndpoint
      → ChildMessage
      → Reporter
      → Reporter × Result SendError (Unit {0})
  unfolding send_wire
  finish_terminal failure terminal_ack message r = (
    record r { records = record_if (send_wire failure message) message r.records },
    await_ack (send_wire failure message) terminal_ack,
  )

  unfoldable pub send_terminal :
      Option String
      → Option AckEndpoint
      → ChildMessage
      → Reporter
      → Reporter × Result SendError (Unit {0})
  unfolding claim_terminal finish_terminal
  send_terminal failure terminal_ack message r =
      if (claim_terminal r).1
      then finish_terminal failure terminal_ack message (claim_terminal r).0
      else ((claim_terminal r).0, err already_sent)
