-- ===== src/RpcClient/Runs.antt =====
-- internal/supervisor/pirpc/client.go: the calls of a client under every sequence of operations.
use kanedias.Base.{
  ℕ, suc, ◌+◌, ◌≤◌, ◌<◌, ◌≡◌, refl, ◌∙◌, List, [], ◌∷◌, Option, none, some, arith, String, str_eq,
  lookup, erase, lookup-insert, string_key, nat_key, length, if-cases, ltb, Entries-lookup,
  Bool-cases, inl, inr, u64,
}
use kanedias.Mailbox as Mailbox
use kanedias.Mailbox.{Mailbox}
use kanedias.Session.Rpc.{PiEvent}
use kanedias.RpcClient.{
  Client, ClientError, CallResult, response, failure, deliver, deliver_all, terminate, register,
  start_call, remove_pending, fail_write, finish_send, send, dispatch_response, Reading,
  buffer_full, partial_at_end, fails, line, stop_reading, queue_outcome, queue_event, route_record,
  read_step, close, new_client,
}
use kanedias.RpcClient.Deliver.{Inv, Waits, terminate-Inv, terminate-Swept, deliver_fresh}
use kanedias.RpcClient.Calls.{
  Op, starts, fails_to_write, withdraws, sends, reads, ends, closes, elsewhere, moves, step, run,
  count-Inv, start-Inv, fail_write-Inv, remove-Inv, send-Inv, read-Inv,
}

deliver_all-counter :
    (pending : List (String × ℕ)) (r : CallResult) (c : Client)
    → (deliver_all pending r c).counter ≡ c.counter
unfolding deliver_all deliver
deliver_all-counter [] r c = refl
deliver_all-counter ((id, call) ∷ pending) r c =
    deliver_all-counter pending r (deliver call r c) ∙ ground arith

terminate-counter : (e : ClientError) (c : Client) → (terminate e c).counter ≡ c.counter
unfolding terminate
terminate-counter e c =
    if-cases (λ (d : Client). d.counter ≡ c.counter) c.closed _ _ (λ _. refl)
      (λ _. deliver_all-counter c.pending (failure e) _)

queue-counter :
    (outcome : Option Mailbox.Error) (events : Mailbox PiEvent) (event : PiEvent) (c : Client)
    → (queue_outcome outcome events event c).counter ≡ c.counter
unfolding queue_outcome stop_reading
queue-counter none events event c = refl
queue-counter (some Mailbox.closed) events event c = refl
queue-counter (some Mailbox.full) events event c = terminate-counter _ c
queue-counter (some Mailbox.negative_limits) events event c = terminate-counter _ c
queue-counter (some Mailbox.no_limit) events event c = terminate-counter _ c
queue-counter (some Mailbox.negative_bytes) events event c = terminate-counter _ c

dispatch-counter :
    (id : String) (sequence : ℕ) (raw : List ℕ) (c : Client)
    → (dispatch_response id sequence raw c).0.counter ≡ c.counter
unfolding dispatch_response deliver
dispatch-counter id sequence raw c = ground arith

route-counter :
    (raw : List ℕ) (id type_name : String) (c : Client)
    → (route_record raw (id, type_name) c).counter ≡ c.counter
unfolding route_record queue_event
route-counter raw id type_name c =
    let P = λ (d : Client). d.counter ≡ c.counter in
    if-cases P (str_eq type_name "response") _ _
      (λ _.
        if-cases P (dispatch_response id c.sequence raw c).1 _ _
          (λ _. dispatch-counter id c.sequence raw c) (λ _. queue-counter _ _ _ c))
      (λ _. queue-counter _ _ _ c)

read-counter : (reading : Reading) (c : Client) → (read_step reading c).counter ≡ c.counter
unfolding read_step stop_reading
read-counter buffer_full c = terminate-counter _ c
read-counter partial_at_end c = terminate-counter _ c
read-counter fails c = terminate-counter _ c
read-counter (line raw none) c =
    if-cases (λ (d : Client). d.counter ≡ c.counter) (ltb _ (length raw)) _ _
      (λ _. terminate-counter _ c) (λ _. terminate-counter _ c)
read-counter (line raw (some (id, type_name))) c =
    if-cases (λ (d : Client). d.counter ≡ c.counter) (ltb _ (length raw)) _ _
      (λ _. terminate-counter _ c)
      (λ _. route-counter raw id type_name (record c { sequence = u64 (c.sequence + 1) }))

-- An operation counts at most one call.
step-counter :
    (format : ℕ → String) (c : Client) (op : Op)
    → suc c.counter < 18446744073709551616
    → (step format c op).counter ≤ suc c.counter
unfolding start_call register fail_write finish_send send remove_pending close
step-counter format c (starts type_name cancelled size) h = ground arith
step-counter format c (fails_to_write call cancelled) h =
    ground (arith, terminate-counter ClientError.write_failed (remove_pending (format call) c))
step-counter format c (withdraws call) h = omega arith
step-counter format c (sends type_name cancelled size written late) h =
    ground (arith, terminate-counter ClientError.write_failed c)
step-counter format c (reads reading) h = omega (arith, read-counter reading c)
step-counter format c (ends e) h = omega (arith, terminate-counter e c)
step-counter format c closes h = omega (arith, terminate-counter ClientError.closed_pipe c)
step-counter format c elsewhere h = omega arith
step-counter format c (moves events) h = omega arith

step-Inv :
    (format : ℕ → String) (c : Client) (op : Op)
    → suc c.counter < 18446744073709551616
    → Inv format c
    → Inv format (step format c op)
unfolding close
step-Inv format c (starts type_name cancelled size) small h =
    start-Inv format type_name cancelled size c small h
step-Inv format c (fails_to_write call cancelled) small h = fail_write-Inv format call cancelled c h
step-Inv format c (withdraws call) small h = remove-Inv format (format call) c h
step-Inv format c (sends type_name cancelled size written late) small h =
    send-Inv format type_name cancelled size written late c h
step-Inv format c (reads reading) small h = read-Inv format reading c h
step-Inv format c (ends e) small h = terminate-Inv format e c h
step-Inv format c closes small h = terminate-Inv format ClientError.closed_pipe c h
step-Inv format c elsewhere small h = count-Inv format c (u64 (c.counter + 1)) (omega arith) h
step-Inv format c (moves events) small h = h

run-Inv :
    (format : ℕ → String) (c : Client) (ops : List Op)
    → c.counter + length ops < 18446744073709551616
    → Inv format c
    → Inv format (run format c ops)
run-Inv format c [] small h = h
run-Inv format c (op ∷ ops) small h =
    run-Inv format (step format c op) ops (omega (arith, step-counter format c op))
      (step-Inv format c op (omega arith) h)

-- From a new client, under every sequence of operations that does not exhaust the counter of calls:
-- no channel of a call gets a second result, which would block; the client's own channel is closed
-- once if the client has ended, when no call waits any more, and else not at all; and a call waits
-- under the identifier of its own number, with no result.
pub run-new_client-Inv :
    (format : ℕ → String) (counter : ℕ) (events : Mailbox PiEvent) (ops : List Op)
    → counter + length ops < 18446744073709551616
    → Inv format (run format (new_client counter events) ops)
unfolding new_client lookup
run-new_client-Inv format counter events ops small =
    run-Inv format (new_client counter events) ops small (record {
      calm = refl;
      once = refl;
      swept = λ over. refl;
      distinct = tt;
      waits = tt;
      numbered = tt;
      issued = λ call new. refl;
    })

none_waits :
    (pending : List (String × ℕ)) (id : String) (call : ℕ)
    → pending ≡ []
    → lookup id pending ≡ some call
    → ⊥
unfolding lookup
none_waits [] id call e h = cc
none_waits (p ∷ pending) id call e h = cc

answers :
    (format : ℕ → String) (c : Client) (id : String) (call sequence : ℕ) (raw : List ℕ)
    (e : ClientError)
    → Inv format c
    → lookup id c.pending ≡ some call
    → (id ≡ format call)
      × (lookup call (dispatch_response id sequence raw c).0.results ≡ some (response raw sequence))
      × (lookup call (terminate e c).results ≡ some (failure e))
unfolding dispatch_response
answers format c id call sequence raw e h found =
    let w = Entries-lookup (Waits format c.results) id call c.pending h.waits found in
    (
      w.0,
      rw (found, dispatch_response)
          (rw
            (deliver_fresh format call (response raw sequence)
              (record c { pending = erase id c.pending }) w.1)
            (ground (arith, lookup-insert call call (response raw sequence) c.results))),
      elim (Bool-cases c.closed) [
        | inl over ↦ absurd (none_waits c.pending id call (h.swept over) found)
        | inr on ↦
            Entries-lookup (λ id n. lookup n (terminate e c).results ≡ some (failure e)) id call
              c.pending (terminate-Swept format e c h on).answered found
      ],
    )

-- In every state that a new client comes to, a call that waits gets the response with its own
-- identifier when that is dispatched, and the error by which the client ends when it ends.
pub waiting_call_is_answered :
    (format : ℕ → String) (counter : ℕ) (events : Mailbox PiEvent) (ops : List Op) (id : String)
    (call sequence : ℕ) (raw : List ℕ) (e : ClientError)
    → counter + length ops < 18446744073709551616
    → let c = run format (new_client counter events) ops in
      lookup id c.pending ≡ some call
      → (id ≡ format call)
        × (lookup call (dispatch_response id sequence raw c).0.results
            ≡ some (response raw sequence))
        × (lookup call (terminate e c).results ≡ some (failure e))
waiting_call_is_answered format counter events ops id call sequence raw e small found =
    answers format (run format (new_client counter events) ops) id call sequence raw e
      (run-new_client-Inv format counter events ops small) found
