-- ===== src/Spawn/Acknowledge.antt =====
-- internal/supervisor/process/spawn.go: one terminal report is delivered, and it is acknowledged once.
use kanedias.Base.{
  ℕ, ◌+◌, ◌≡◌, refl, Bool, true, false, not, ◌&&◌, ◌||◌, List, [], ◌∷◌, Option, some, arith, Result,
  ok, err, if◌then◌else◌, if-cases, Bool-cases, inl, inr, ap,
}
use kanedias.Protocol.{ChildMessage, absent}
use kanedias.Protocol.Wire.{Codec}
use kanedias.Spawn.{
  Child, ChildError, Received, event, channel_closed, context_done, is_terminal_message, is_ok,
  one_if, new_child, next_message, check_acknowledge, acknowledge_terminal, close_terminal_ack,
}

-- A child with the messages that NextMessage has returned, the newest first.
pub record Parent : Type 0 where
  pub child : Child
  pub delivered : List ChildMessage

-- The calls on a child. Each holds the mutex while it changes the child.
pub data Call : Type 0 where
  receive : Received → Call
  acknowledge : Bool → ChildMessage → Call
  close : Call

abbrev deliver : Result ChildError ChildMessage → List ChildMessage → List ChildMessage
deliver (ok m) ms = m ∷ ms
deliver (err e) ms = ms

module _ (codec : Codec ℕ ChildMessage) where
  abbrev pub perform : Call → Parent → Parent
  perform (receive r) p = record {
    child = (next_message r p.child).0;
    delivered = deliver (next_message r p.child).1 p.delivered;
  }
  perform (acknowledge write_fails m) p = record p {
    child = (acknowledge_terminal codec write_fails m p.child).0;
  }
  perform close p = record p { child = close_terminal_ack p.child }

  abbrev pub run : List Call → Parent → Parent
  run [] p = p
  run (call ∷ calls) p = run calls (perform call p)

  abbrev pub start : Parent
  start = record { child = new_child; delivered = [] }

  abbrev pub terminals : List ChildMessage → ℕ
  terminals [] = 0
  terminals (m ∷ ms) = one_if (is_terminal_message m) + terminals ms

  -- The endpoint is written once if the report was acknowledged and closed once if it was
  -- acknowledged or given up, never both; what is acknowledged was delivered, and one terminal
  -- report at most was.
  pub record Inv (p : Parent) : Type 0 where
    pub once : p.child.ack_done ≡ (p.child.terminal_acked || p.child.terminal_ack_closed)
    pub one_ack : p.child.acks ≡ one_if p.child.terminal_acked
    pub one_close : p.child.closes ≡ one_if p.child.ack_done
    pub one_way : (p.child.terminal_acked && p.child.terminal_ack_closed) ≡ false
    pub acked_pending : p.child.terminal_acked ≡ true → absent p.child.pending_terminal ≡ false
    pub one_terminal : terminals p.delivered ≡ one_if (not (absent p.child.pending_terminal))

  check_acknowledge_ok :
      (m : ChildMessage) (c : Child)
      → is_ok (check_acknowledge codec m c) ≡ true
      → (absent c.pending_terminal ≡ false)
        × ((c.terminal_acked ≡ false) × (c.terminal_ack_closed ≡ false))
  unfolding check_acknowledge
  check_acknowledge_ok m c h = ground (arith, h)

  kept_pending :
      (m : ChildMessage) (pending : Option ChildMessage)
      → absent pending ≡ false
      → absent (if is_terminal_message m then some m else pending) ≡ false
  kept_pending m pending h = ground (arith, h)

  first_terminal : (a b c : Bool) → (a && (not b || c)) ≡ false → a ≡ true → b ≡ true
  first_terminal a b c h k = ground (arith, h, k)

  one_more :
      (m : ChildMessage) (pending : Option ChildMessage) (delivered : List ChildMessage)
      → (is_terminal_message m ≡ true → absent pending ≡ true)
      → terminals delivered ≡ one_if (not (absent pending))
      → terminals (m ∷ delivered)
        ≡ one_if (not (absent (if is_terminal_message m then some m else pending)))
  one_more m pending delivered fresh h = elim (Bool-cases (is_terminal_message m)) [
    | inl last ↦ rw (last) (omega (arith, ap (λ b. one_if (not b)) (fresh last), h))
    | inr other ↦ rw (other) (omega (arith, h))
  ]

  perform-Inv : (call : Call) (p : Parent) → Inv p → Inv (perform call p)
  unfolding next_message acknowledge_terminal close_terminal_ack
  perform-Inv (receive channel_closed) p h = h
  perform-Inv (receive context_done) p h = h
  perform-Inv (receive (event (err e))) p h = h
  perform-Inv (receive (event (ok m))) p h =
      if-cases
        (λ (x : Child × Result ChildError ChildMessage).
          Inv (record { child = x.0; delivered = deliver x.1 p.delivered }))
        (is_terminal_message m && (not (absent p.child.pending_terminal) || p.child.terminal_acked))
        _ _ (λ _. h)
        (λ open_end. record {
          once = h.once;
          one_ack = h.one_ack;
          one_close = h.one_close;
          one_way = h.one_way;
          acked_pending = λ acked. kept_pending m p.child.pending_terminal (h.acked_pending acked);
          one_terminal =
              one_more m p.child.pending_terminal p.delivered (first_terminal _ _ _ open_end)
                h.one_terminal;
        })
  perform-Inv (acknowledge write_fails m) p h =
      let free = check_acknowledge_ok m p.child in
      record {
        once = ground (arith, h.once);
        one_ack = ground (arith, free, h.one_ack);
        one_close = ground (arith, free, h.once, h.one_close);
        one_way = ground (arith, free, h.one_way);
        acked_pending = ground (arith, free, h.acked_pending);
        one_terminal = h.one_terminal;
      }
  perform-Inv close p h = record {
    once = ground (arith, h.once);
    one_ack = h.one_ack;
    one_close = ground (arith, h.once, h.one_close);
    one_way = ground (arith, h.one_way);
    acked_pending = h.acked_pending;
    one_terminal = h.one_terminal;
  }

  run-Inv : (calls : List Call) (p : Parent) → Inv p → Inv (run calls p)
  run-Inv [] p h = h
  run-Inv (call ∷ calls) p h = run-Inv calls (perform call p) (perform-Inv call p h)

  -- After any calls on a new child, at most one terminal report was delivered, an acknowledgement was
  -- written once if the report was acknowledged and not otherwise, which needs that report to be
  -- delivered, and the endpoint was closed once if it was acknowledged or given up, which exclude
  -- each other.
  pub run-new_child-Inv : (calls : List Call) → Inv (run calls start)
  unfolding new_child
  run-new_child-Inv calls = run-Inv calls start (record {
    once = refl;
    one_ack = refl;
    one_close = refl;
    one_way = refl;
    acked_pending = λ h. absurd (ground arith);
    one_terminal = refl;
  })
