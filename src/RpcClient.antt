-- ===== src/RpcClient.antt =====
-- internal/supervisor/pirpc: the client of Pi's RPC. Calls wait in a map for the response with their
-- identifier; every other record goes to the event mailbox. The transport and JSON are parameters: a
-- record is what it decodes to, and a write succeeds or fails. `format` is fmt.Sprintf of the prefix
-- and the number of a call.
pub mod Deliver
pub mod Calls
pub mod Runs
mod Tests
use kanedias.Base.{
  ℕ, zero, suc, ◌+◌, ◌*◌, Bool, true, false, not, ◌&&◌, ◌||◌, List, [], ◌∷◌, ◌++◌, Option, none,
  some, String, str_eq, Result, ok, err, ◌>>=◌, ◌>>◌, fail_if, if◌then◌else◌, ltb, u64, lookup,
  insert, erase, string_key, nat_key, pos, length, contains_str,
}
use kanedias.Mailbox as Mailbox
use kanedias.Mailbox.{Mailbox}
use kanedias.Session.Rpc.{PiEvent}

abbrev pub max_record_bytes : ℕ
max_record_bytes = 12 * 1048576

pub data ClientError : Type 0 where
  undecodable type_required forbidden_command context_done record_too_large : ClientError
  closed_pipe write_failed partial_record read_failed event_capacity queue_failed : ClientError

-- callResult
pub data CallResult : Type 0 where
  response : List ℕ → ℕ → CallResult
  failure : ClientError → CallResult

-- A call is known by its number, and its channel holds one result: `results` has what was sent to
-- each, and `overfull` is whether a second one was, which would block for good. `sent` lists the
-- events that the mailbox accepted; `counter` is requestCounter.
pub record Client : Type 0 where
  pub events : Mailbox PiEvent
  pub pending : List (String × ℕ)
  pub error : Option ClientError
  pub closed : Bool
  pub done_closed : ℕ
  pub counter : ℕ
  pub results : List (ℕ × CallResult)
  pub overfull : Bool
  pub sequence : ℕ
  pub reading : Bool
  pub sent : List PiEvent

unfoldable pub new_client : ℕ → Mailbox PiEvent → Client
new_client counter events = record {
  events = events;
  pending = [];
  error = none;
  closed = false;
  done_closed = 0;
  counter = counter;
  results = [];
  overfull = false;
  sequence = 0;
  reading = true;
  sent = [];
}

abbrev pub is_forbidden : String → Bool
is_forbidden type_name =
    contains_str ("new_session" ∷ "switch_session" ∷ "fork" ∷ "clone" ∷ []) type_name

-- `guardCommand`, of the type that a command decodes to and whether its context is done.
unfoldable pub guard_command : Option String → Bool → Result ClientError (Unit {0})
guard_command none cancelled = err undecodable
guard_command (some type_name) cancelled = do
  fail_if (str_eq type_name "") type_required
  fail_if (is_forbidden type_name) forbidden_command
  fail_if cancelled context_done

abbrev pub check_record_size : ℕ → Result ClientError (Unit {0})
check_record_size size = fail_if (ltb max_record_bytes size) record_too_large

abbrev pub is_sent {ℓ} : {A : Type ℓ} → Option A → Bool
is_sent none = false
is_sent (some a) = true

-- result <- callResult
unfoldable pub deliver : ℕ → CallResult → Client → Client
deliver call result c =
    if is_sent (lookup call c.results)
    then record c { overfull = true }
    else record c { results = insert call result c.results }

-- The loop of `terminate`.
unfoldable pub deliver_all : List (String × ℕ) → CallResult → Client → Client
unfolding deliver
deliver_all [] result c = c
deliver_all ((id, call) ∷ pending) result c = deliver_all pending result (deliver call result c)

unfoldable pub terminate : ClientError → Client → Client
unfolding deliver_all
terminate e c =
    if c.closed
    then c
    else deliver_all c.pending (failure e)
        (record c { closed = true; error = some e; pending = []; done_closed = suc c.done_closed })

abbrev pub error_or_closed : Option ClientError → ClientError
error_or_closed none = closed_pipe
error_or_closed (some e) = e

-- The section of `CallWithSequence`, for a call with a number.
unfoldable pub register : (ℕ → String) → ℕ → Client → Client × Result ClientError ℕ
register format call c =
    if c.closed
    then (c, err (error_or_closed c.error))
    else (record c { pending = insert (format call) call c.pending }, ok call)

-- `CallWithSequence` up to its write; the number is that of the call.
unfoldable pub start_call :
    (ℕ → String) → Option String → Bool → ℕ → Client → Client × Result ClientError ℕ
unfolding guard_command register
start_call format type_name cancelled size c = elim (guard_command type_name cancelled) [
  | err e ↦ (c, err e)
  | ok u ↦
      let counted = record c { counter = u64 (c.counter + 1) } in
      if ltb max_record_bytes size
      then (counted, err record_too_large)
      else register format counted.counter counted
]

unfoldable pub remove_pending : String → Client → Client
remove_pending id c = record c { pending = erase id c.pending }

-- A write that fails, and whether the context of the call is done.
unfoldable pub fail_write : (ℕ → String) → ℕ → Bool → Client → Client
unfolding remove_pending terminate
fail_write format call cancelled c =
    let removed = remove_pending (format call) c in
    if cancelled then removed else terminate write_failed removed

-- `Send` once its command is admitted and written or not.
unfoldable pub finish_send : Bool → Bool → Client → Client
unfolding terminate
finish_send written cancelled c = if written || cancelled then c else terminate write_failed c

-- `Send`: what it refuses is not written.
unfoldable pub send :
    Option String → Bool → ℕ → Bool → Bool → Client → Client × Result ClientError (Unit {0})
unfolding guard_command finish_send
send type_name cancelled size written late c =
    let admitted = guard_command type_name cancelled >> check_record_size size in
    elim admitted [
      | err e ↦ (c, err e)
      | ok u ↦ (
        finish_send written late c,
        if written then ok tt else if late then err context_done else err write_failed,
      )
    ]

unfoldable pub dispatch_response : String → ℕ → List ℕ → Client → Client × Bool
unfolding deliver
dispatch_response id sequence raw c = elim (lookup id c.pending) [
  | none ↦ (c, false)
  | some call ↦
      (deliver call (response raw sequence) (record c { pending = erase id c.pending }), true)
]

-- What a read of the transport gives: a record has its bytes, and its identifier and its type if it
-- decodes.
pub data Reading : Type 0 where
  buffer_full partial_at_end fails : Reading
  line : List ℕ → Option (String × String) → Reading

-- The end of `readLoop`.
unfoldable pub stop_reading : Client → Client
stop_reading c = record c { reading = false; events = Mailbox.close c.events }

-- What `readLoop` does with the result of the mailbox.
unfoldable pub queue_outcome : Option Mailbox.Error → Mailbox PiEvent → PiEvent → Client → Client
unfolding terminate stop_reading
queue_outcome none events event c = record c { events = events; sent = c.sent ++ event ∷ [] }
queue_outcome (some Mailbox.closed) events event c = stop_reading c
queue_outcome (some Mailbox.full) events event c = stop_reading (terminate event_capacity c)
queue_outcome (some _) events event c = stop_reading (terminate queue_failed c)

unfoldable pub queue_event : PiEvent → Client → Client
unfolding queue_outcome
queue_event event c =
    let outcome = Mailbox.send event (pos (length event.raw)) c.events in
    queue_outcome outcome.1 outcome.0 event c

-- A record with its number: a response to a call that waits goes to the call.
unfoldable pub route_record : List ℕ → String × String → Client → Client
unfolding dispatch_response queue_event
route_record raw (id, type_name) c =
    let event : PiEvent = record { type_name = type_name; seq = c.sequence; raw = raw } in
    let dispatched = dispatch_response id c.sequence raw c in
    if str_eq type_name "response"
    then (if dispatched.1 then dispatched.0 else queue_event event c)
    else queue_event event c

-- One round of `readLoop`.
unfoldable pub read_step : Reading → Client → Client
unfolding terminate stop_reading route_record
read_step buffer_full c = stop_reading (terminate record_too_large c)
read_step partial_at_end c = stop_reading (terminate partial_record c)
read_step fails c = stop_reading (terminate read_failed c)
read_step (line raw none) c =
    if ltb max_record_bytes (length raw)
    then stop_reading (terminate record_too_large c)
    else stop_reading (terminate undecodable c)
read_step (line raw (some header)) c =
    if ltb max_record_bytes (length raw)
    then stop_reading (terminate record_too_large c)
    else route_record raw header (record c { sequence = u64 (c.sequence + 1) })

-- `Close` up to its wait for the reader.
unfoldable pub close : Client → Client
unfolding terminate
close c =
    let ended = terminate closed_pipe c in record ended { events = Mailbox.abort ended.events }
