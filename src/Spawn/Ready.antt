-- ===== src/Spawn/Ready.antt =====
-- internal/supervisor/process/spawn.go: when a child counts as ready.
use kanedias.Base.{
  ◌≡◌, ◌↔◌, ◌∙◌, sym, ap, refl, inl, inr, Bool, true, not, Option, none, some, arith, String,
  Result, ok, err, fail_if_ok, bind_ok, str_eq, str_eq_iff,
}
use kanedias.Protocol.{Bootstrap, RecoveryTicket, ChildMessage, validate_message}
use kanedias.Protocol.Reporter.{
  ownership_update, ready_update, read_outcome, write_outcome, failure_outcome, update_message,
}
use kanedias.Protocol.Messages.{validate_message_iff}
use kanedias.Spawn.{Child, ChildError, Received, event, next_message, other_session, other_ticket}
use kanedias.Spawn.Start.{
  validate_recovery_ticket, check_ownership, check_ready, wait_ready, start_ready, store_ticket,
  finish_ready, owned, is_ownership_type, is_ready_type, ready_socket,
}

owned_ok :
    (m : ChildMessage) (held : Option RecoveryTicket) (t : RecoveryTicket)
    → owned m held ≡ ok t
    → (held ≡ some t) × (is_ownership_type m.type ≡ true)
owned_ok m none t h = cc
owned_ok m (some s) t h = ground (arith, h)

store_ticket_ok :
    (b : Bootstrap) (probed : Bool) (second : Received) (c : Child)
    (r : Result ChildError RecoveryTicket)
    → (store_ticket b probed second c r).1 ≡ ok tt
    → (t : RecoveryTicket) × ((r ≡ ok t)
        × ((finish_ready b probed (next_message second (record c { recovery_ticket = some t }))).1
            ≡ ok tt))
store_ticket_ok b probed second c (err e) h = cc
store_ticket_ok b probed second c (ok t) h = (t, (refl, h))

check_ownership_ok :
    (b : Bootstrap) (m : ChildMessage) (t : RecoveryTicket)
    → check_ownership b m ≡ ok t
    → (m.session_id ≡ b.session_id)
      × ((is_ownership_type m.type ≡ true)
          × ((m.ownership ≡ some t) × (validate_recovery_ticket b t ≡ true)))
unfolding check_ownership
check_ownership_ok b m t h =
    let first = fail_if_ok (not (str_eq m.session_id b.session_id)) other_session _ t h in
    let held = bind_ok (owned m m.ownership) _ t first.1 in
    let ticket =
      fail_if_ok (not (validate_recovery_ticket b held.0)) other_ticket (ok held.0) t held.1.1 in
    let kept = owned_ok m m.ownership held.0 held.1.0 in
    let same : held.0 ≡ t = cc in
    (
      (str_eq_iff m.session_id b.session_id).0 (ground (arith, first.0)),
      (
        kept.1,
        (
          kept.0 ∙ ap some same,
          ap (validate_recovery_ticket b) (sym same) ∙ ground (arith, ticket.0),
        ),
      ),
    )

check_ready_ok :
    (b : Bootstrap) (m : ChildMessage)
    → check_ready b m ≡ ok tt
    → (m.session_id ≡ b.session_id)
      × ((is_ready_type m.type ≡ true) × (ready_socket m.ready ≡ b.socket_path))
unfolding check_ready
check_ready_ok b m h = ground (
  arith,
  h,
  str_eq_iff m.session_id b.session_id,
  str_eq_iff (ready_socket m.ready) b.socket_path,
)

-- What a start that succeeds has received.
start_ready_ok :
    (b : Bootstrap) (probed : Bool) (second : Received) (p : Child × Result ChildError ChildMessage)
    → (start_ready b probed second p).1 ≡ ok tt
    → (m : ChildMessage) × ((t : RecoveryTicket) × ((p.1 ≡ ok m)
          × ((check_ownership b m ≡ ok t)
              × ((finish_ready b probed
                    (next_message second (record p.0 { recovery_ticket = some t }))).1
                  ≡ ok tt))))
start_ready_ok b probed second (c, err e) h = cc
start_ready_ok b probed second (c, ok m) h =
    let stored = store_ticket_ok b probed second c (check_ownership b m) h in
    (m, (stored.0, (refl, stored.1)))

finish_ready_ok :
    (b : Bootstrap) (probed : Bool) (p : Child × Result ChildError ChildMessage)
    → (finish_ready b probed p).1 ≡ ok tt
    → (m : ChildMessage) × ((p.1 ≡ ok m) × ((check_ready b m ≡ ok tt) × (probed ≡ true)))
finish_ready_ok b probed (c, err e) h = cc
finish_ready_ok b probed (c, ok m) h =
    let first = bind_ok (check_ready b m) _ tt h in
    (m, (refl, (first.1.0, ground (arith, first.1.1))))

next_message_ok :
    (m n : ChildMessage) (c : Child) → (next_message (event (ok m)) c).1 ≡ ok n → m ≡ n
unfolding next_message
next_message_ok m n c h = ground (arith, h)

module _ (is_clean : String → Bool) where
  ownership_report :
      (m : ChildMessage) (t : RecoveryTicket)
      → validate_message is_clean m ≡ ok tt
      → is_ownership_type m.type ≡ true
      → m.ownership ≡ some t
      → m ≡ update_message m.session_id (ownership_update t)
  ownership_report m t valid type held = elim ((validate_message_iff is_clean m).0 valid).1 [
    | inl (ownership_update u, (same, sound)) ↦
        let one : u ≡ t = cc (ap (λ (n : ChildMessage). n.ownership) same, held) in
        same ∙ ap (λ v. update_message m.session_id (ownership_update v)) one
    | inl (ready_update path, (same, sound)) ↦
        cc (ap (λ (n : ChildMessage). n.ownership) same, held)
    | inr (read_outcome r, (same, sound)) ↦ cc (ap (λ (n : ChildMessage). n.ownership) same, held)
    | inr (write_outcome w, (same, sound)) ↦ cc (ap (λ (n : ChildMessage). n.ownership) same, held)
    | inr (failure_outcome code text, (same, sound)) ↦
        cc (ap (λ (n : ChildMessage). n.ownership) same, held)
  ]

  ready_report :
      (m : ChildMessage)
      → validate_message is_clean m ≡ ok tt
      → is_ready_type m.type ≡ true
      → m ≡ update_message m.session_id (ready_update (ready_socket m.ready))
  ready_report m valid type = elim ((validate_message_iff is_clean m).0 valid).1 [
    | inl (ownership_update u, (same, sound)) ↦ cc (type)
    | inl (ready_update path, (same, sound)) ↦
        same
        ∙ ap (λ v. update_message m.session_id (ready_update v))
            (ap (λ (n : ChildMessage). ready_socket n.ready) (sym same))
    | inr (read_outcome r, (same, sound)) ↦ cc (type)
    | inr (write_outcome w, (same, sound)) ↦ cc (type)
    | inr (failure_outcome code text, (same, sound)) ↦ cc (type)
  ]

  ownership_checked :
      (b : Bootstrap) (t : RecoveryTicket)
      → validate_recovery_ticket b t ≡ true
      → check_ownership b (update_message b.session_id (ownership_update t)) ≡ ok t
  unfolding check_ownership
  ownership_checked b t h = rw ((str_eq_iff b.session_id b.session_id).1 refl, h) refl

  ready_checked :
      (b : Bootstrap)
      → check_ready b (update_message b.session_id (ready_update b.socket_path)) ≡ ok tt
  unfolding check_ready
  ready_checked b =
      rw
        (
          (str_eq_iff b.session_id b.session_id).1 refl,
          (str_eq_iff b.socket_path b.socket_path).1 refl,
        )
        refl

  reports_ready :
      (b : Bootstrap) (t : RecoveryTicket) (c : Child)
      → validate_recovery_ticket b t ≡ true
      → (wait_ready b true
          (event (ok (update_message b.session_id (ownership_update t))))
          (event (ok (update_message b.session_id (ready_update b.socket_path))))
          c).1
        ≡ ok tt
  unfolding wait_ready next_message
  reports_ready b t c h = rw (ownership_checked b t h, ready_checked b) refl

  -- Of two valid messages a child becomes ready exactly if they are the reports of the session of its
  -- bootstrap of a ticket that matches the bootstrap and then of its socket, and the socket answers.
  pub wait_ready_iff :
      (b : Bootstrap) (probed : Bool) (m n : ChildMessage) (c : Child)
      → validate_message is_clean m ≡ ok tt
      → validate_message is_clean n ≡ ok tt
      → ((wait_ready b probed (event (ok m)) (event (ok n)) c).1 ≡ ok tt) ↔ (
          (probed ≡ true)
          × ((n ≡ update_message b.session_id (ready_update b.socket_path))
              × ((t : RecoveryTicket) × ((m ≡ update_message b.session_id (ownership_update t))
                    × (validate_recovery_ticket b t ≡ true)))))
  unfolding wait_ready
  wait_ready_iff b probed m n c valid_m valid_n = (
    λ h.
        let first = start_ready_ok b probed (event (ok n)) (next_message (event (ok m)) c) h in
        let second = finish_ready_ok b probed _ first.1.1.1.1 in
        let t = first.1.0 in
        let owner =
          check_ownership_ok b m t
            (ap (check_ownership b) (next_message_ok m first.0 c first.1.1.0) ∙ first.1.1.1.0) in
        let ready =
          check_ready_ok b n
            (ap (check_ready b) (next_message_ok n second.0 _ second.1.0) ∙ second.1.1.0) in
        (
          second.1.1.1,
          (
            ready_report n valid_n ready.1.0
                ∙ (λ i. update_message (ready.0 i) (ready_update (ready.1.1 i))),
            (
              t,
              (
                ownership_report m t valid_m owner.1.0 owner.1.1.0
                    ∙ ap (λ s. update_message s (ownership_update t)) owner.0,
                owner.1.1.1,
              ),
            ),
          ),
        ),
    λ h.
        (λ i. (wait_ready b (h.0 i) (event (ok (h.1.1.1.0 i))) (event (ok (h.1.0 i))) c).1)
        ∙ reports_ready b h.1.1.0 c h.1.1.1.1,
  )
