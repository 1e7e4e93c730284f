-- ===== src/RpcClient/Calls.antt =====
-- internal/supervisor/pirpc/client.go: under every sequence of its operations a client answers each
-- call at most once, and a client that ends answers every call that waits.
use kanedias.Base.{
  ℕ, suc, ◌+◌, ◌≤◌, ◌<◌, ◌≡◌, refl, ap, List, [], ◌∷◌, Bool, Option, none, some, arith, String,
  str_eq, lookup, erase, lookup-insert, string_key, nat_key, if-cases, Option-cases, Result-cases,
  inl, inr, Result, u64, ltb, ◌>>◌, ◌||◌, insert-Distinct, erase-Distinct, Entries-erase,
  Entries-insert, Entries-lookup, Entries-map, erase-Lacks, length,
}
use kanedias.Mailbox as Mailbox
use kanedias.Mailbox.{Mailbox}
use kanedias.Session.Rpc.{PiEvent}
use kanedias.RpcClient.{
  Client, ClientError, response, terminate, register, start_call, guard_command, remove_pending,
  fail_write, finish_send, send, queue_outcome, check_record_size, dispatch_response, Reading,
  buffer_full, partial_at_end, fails, line, stop_reading, queue_event, route_record, read_step,
  close,
}
use kanedias.RpcClient.Deliver.{Inv, Waits, terminate-Inv, deliver-Waits, deliver_fresh}

-- The operations: those of calls, the reader's rounds, the end of the client or of a write whose
-- context is done, the moves of the mailbox's own goroutine, and the calls of other clients, which
-- share the counter.
pub data Op : Type 0 where
  starts : Option String → Bool → ℕ → Op
  fails_to_write : ℕ → Bool → Op
  withdraws : ℕ → Op
  sends : Option String → Bool → ℕ → Bool → Bool → Op
  reads : Reading → Op
  ends : ClientError → Op
  closes elsewhere : Op
  moves : Mailbox PiEvent → Op

abbrev pub step : (ℕ → String) → Client → Op → Client
step format c (starts type_name cancelled size) = (start_call format type_name cancelled size c).0
step format c (fails_to_write call cancelled) = fail_write format call cancelled c
step format c (withdraws call) = remove_pending (format call) c
step format c (sends type_name cancelled size written late) =
    (send type_name cancelled size written late c).0
step format c (reads reading) = read_step reading c
step format c (ends e) = terminate e c
step format c closes = close c
step format c elsewhere = record c { counter = u64 (c.counter + 1) }
step format c (moves events) = record c { events = events }

abbrev pub run : (ℕ → String) → Client → List Op → Client
run format c [] = c
run format c (op ∷ ops) = run format (step format c op) ops

module _ (format : ℕ → String) where
  -- A larger counter.
  pub count-Inv :
      (c : Client) (n : ℕ) → c.counter ≤ n → Inv format c → Inv format (record c { counter = n })
  count-Inv c n le h = record {
    calm = h.calm;
    once = h.once;
    swept = h.swept;
    distinct = h.distinct;
    waits = h.waits;
    numbered =
        Entries-map (λ id call. call ≤ c.counter) (λ id call. call ≤ c.counter)
          (λ id call. call ≤ n) (λ id call a b. omega arith) c.pending h.numbered h.numbered;
    issued = λ call new. h.issued call (omega arith);
  }

  pub remove-Inv : (id : String) (c : Client) → Inv format c → Inv format (remove_pending id c)
  unfolding remove_pending erase
  remove-Inv id c h = record {
    calm = h.calm;
    once = h.once;
    swept = λ over. ap (λ m. erase id m) (h.swept over);
    distinct = erase-Distinct id c.pending h.distinct;
    waits = Entries-erase (Waits format c.results) id c.pending h.waits;
    numbered = Entries-erase (λ id call. call ≤ c.counter) id c.pending h.numbered;
    issued = h.issued;
  }

  register-Inv :
      (call : ℕ) (c : Client)
      → Inv format c
      → call ≤ c.counter
      → lookup call c.results ≡ none
      → Inv format (register format call c).0
  unfolding register
  register-Inv call c h le new =
      if-cases (λ (p : Client × Result ClientError ℕ). Inv format p.0) c.closed _ _ (λ _. h)
        (λ on. record {
          calm = h.calm;
          once = h.once;
          swept = λ over. cc;
          distinct = insert-Distinct (format call) call c.pending h.distinct;
          waits =
              Entries-insert (Waits format c.results) (format call) call c.pending (refl, new)
                h.waits;
          numbered =
              Entries-insert (λ id n. n ≤ c.counter) (format call) call c.pending le h.numbered;
          issued = h.issued;
        })

  pub start-Inv :
      (type_name : Option String) (cancelled : Bool) (size : ℕ) (c : Client)
      → suc c.counter < 18446744073709551616
      → Inv format c
      → Inv format (start_call format type_name cancelled size c).0
  unfolding start_call
  start-Inv type_name cancelled size c small h =
      elim (Result-cases (guard_command type_name cancelled)) [
        | inl (e, bad) ↦ rw (bad, start_call) h
        | inr (u, good) ↦
            rw (good, start_call)
              (let counted = record c { counter = u64 (c.counter + 1) } in
                let k : Inv format counted = count-Inv c (u64 (c.counter + 1)) (omega arith) h in
                if-cases (λ (p : Client × Result ClientError ℕ). Inv format p.0) (ltb _ size) _ _
                  (λ _. k)
                  (λ _.
                    register-Inv counted.counter counted k (omega arith)
                      (h.issued _ (omega arith))))
      ]

  pub fail_write-Inv :
      (call : ℕ) (cancelled : Bool) (c : Client)
      → Inv format c
      → Inv format (fail_write format call cancelled c)
  unfolding fail_write
  fail_write-Inv call cancelled c h =
      let k = remove-Inv (format call) c h in
      if-cases (Inv format) cancelled _ _ (λ _. k)
        (λ _. terminate-Inv format _ (remove_pending (format call) c) k)

  pub send-Inv :
      (type_name : Option String) (cancelled : Bool) (size : ℕ) (written late : Bool) (c : Client)
      → Inv format c
      → Inv format (send type_name cancelled size written late c).0
  unfolding send finish_send
  send-Inv type_name cancelled size written late c h =
      elim (Result-cases (guard_command type_name cancelled >> check_record_size size)) [
        | inl (e, bad) ↦ rw (bad, send) h
        | inr (u, good) ↦
            rw (good, send)
              (if-cases (Inv format) (written || late) _ _ (λ _. h)
                (λ _. terminate-Inv format _ c h))
      ]

  pub dispatch-Inv :
      (id : String) (sequence : ℕ) (raw : List ℕ) (c : Client)
      → Inv format c
      → Inv format (dispatch_response id sequence raw c).0
  unfolding dispatch_response erase
  dispatch-Inv id sequence raw c h = elim (Option-cases (lookup id c.pending)) [
    | inl absent ↦ rw (absent, dispatch_response) h
    | inr (call, found) ↦
        let w = Entries-lookup (Waits format c.results) id call c.pending h.waits found in
        let le = Entries-lookup (λ id n. n ≤ c.counter) id call c.pending h.numbered found in
        rw (found, dispatch_response)
          (rw
            (deliver_fresh format call (response raw sequence)
              (record c { pending = erase id c.pending }) w.1)
            (record {
              calm = h.calm;
              once = h.once;
              swept = λ over. ap (λ m. erase id m) (h.swept over);
              distinct = erase-Distinct id c.pending h.distinct;
              waits =
                  deliver-Waits format c.results (response raw sequence) call id
                    (erase id c.pending) w.0
                    (Entries-erase (Waits format c.results) id c.pending h.waits)
                    (erase-Lacks id c.pending);
              numbered = Entries-erase (λ id n. n ≤ c.counter) id c.pending h.numbered;
              issued = λ n new.
                  ground
                    (arith, lookup-insert call n (response raw sequence) c.results, h.issued n new);
            }))
  ]

  queue-Inv :
      (outcome : Option Mailbox.Error) (events : Mailbox PiEvent) (event : PiEvent) (c : Client)
      → Inv format c
      → Inv format (queue_outcome outcome events event c)
  unfolding queue_outcome stop_reading
  queue-Inv none events event c h = h
  queue-Inv (some Mailbox.closed) events event c h = h
  queue-Inv (some Mailbox.full) events event c h = terminate-Inv format _ c h
  queue-Inv (some Mailbox.negative_limits) events event c h = terminate-Inv format _ c h
  queue-Inv (some Mailbox.no_limit) events event c h = terminate-Inv format _ c h
  queue-Inv (some Mailbox.negative_bytes) events event c h = terminate-Inv format _ c h

  route-Inv :
      (raw : List ℕ) (id type_name : String) (c : Client)
      → Inv format c
      → Inv format (route_record raw (id, type_name) c)
  unfolding route_record queue_event
  route-Inv raw id type_name c h =
      if-cases (Inv format) (str_eq type_name "response") _ _
        (λ _.
          if-cases (Inv format) (dispatch_response id c.sequence raw c).1 _ _
            (λ _. dispatch-Inv id c.sequence raw c h) (λ _. queue-Inv _ _ _ c h))
        (λ _. queue-Inv _ _ _ c h)

  pub read-Inv : (reading : Reading) (c : Client) → Inv format c → Inv format (read_step reading c)
  unfolding read_step stop_reading
  read-Inv buffer_full c h = terminate-Inv format _ c h
  read-Inv partial_at_end c h = terminate-Inv format _ c h
  read-Inv fails c h = terminate-Inv format _ c h
  read-Inv (line raw none) c h =
      if-cases (Inv format) (ltb _ (length raw)) _ _ (λ _. terminate-Inv format _ c h)
        (λ _. terminate-Inv format _ c h)
  read-Inv (line raw (some (id, type_name))) c h =
      if-cases (Inv format) (ltb _ (length raw)) _ _ (λ _. terminate-Inv format _ c h)
        (λ _. route-Inv raw id type_name (record c { sequence = u64 (c.sequence + 1) }) h)
