-- ===== src/Protocol/Messages.antt =====
-- internal/supervisor/process/protocol.go: the valid messages are the ones that a reporter builds.
use kanedias.Base.{
  ◌≡◌, ◌↔◌, ◌⊎◌, inl, inr, refl, ap, ◌∙◌, Bool, true, false, not, ◌==◌, Option, none, some, arith,
  Result, ok, fail_if_ok, String, str_eq_iff, is_blank,
}
use kanedias.Contract.{ChildKind}
use kanedias.Protocol.{
  MessageType, MessageError, not_one_payload, ChildMessage, other_type, is_no_code, payloads,
  validate_ownership, validate_ready, validate_read_payload, validate_write_payload,
  validate_failure, validate_type, validate_message, with_payload,
}
use kanedias.Protocol.Reporter.{
  Update, Outcome, ownership_update, ready_update, read_outcome, write_outcome, failure_outcome,
  update_message, outcome_message,
}

module _ (is_clean : String → Bool) where
  -- What a reporter is to be called with.
  abbrev pub IsSoundUpdate : String → Update → Type 0
  IsSoundUpdate session_id (ownership_update ticket) = ticket.session_id ≡ session_id
  IsSoundUpdate session_id (ready_update socket_path) = is_clean socket_path ≡ true

  abbrev pub IsSoundOutcome : String → Outcome → Type 0
  IsSoundOutcome session_id (read_outcome r) =
      (r.session_id ≡ session_id) × (r.kind ≡ ChildKind.read)
  IsSoundOutcome session_id (write_outcome w) =
      (w.session_id ≡ session_id) × (w.kind ≡ ChildKind.write)
  IsSoundOutcome session_id (failure_outcome code message) =
      (is_no_code code ≡ false) × (is_blank message ≡ false)

  -- A message that a reporter builds from such a call.
  abbrev pub IsReport : ChildMessage → Type 0
  IsReport m =
      ((u : Update) × ((m ≡ update_message m.session_id u) × IsSoundUpdate m.session_id u))
      ⊎ ((o : Outcome) × ((m ≡ outcome_message m.session_id o) × IsSoundOutcome m.session_id o))

  update-valid :
      (session_id : String) (u : Update)
      → is_blank session_id ≡ false
      → IsSoundUpdate session_id u
      → validate_message is_clean (update_message session_id u) ≡ ok tt
  unfolding validate_message
  update-valid session_id (ownership_update ticket) h k =
      ground (arith, str_eq_iff ticket.session_id session_id)
  update-valid session_id (ready_update socket_path) h k = ground arith

  outcome-valid :
      (session_id : String) (o : Outcome)
      → is_blank session_id ≡ false
      → IsSoundOutcome session_id o
      → validate_message is_clean (outcome_message session_id o) ≡ ok tt
  unfolding validate_message
  outcome-valid session_id (read_outcome r) h k =
      ground (arith, str_eq_iff r.session_id session_id, k.1)
  outcome-valid session_id (write_outcome w) h k =
      ground (arith, str_eq_iff w.session_id session_id, k.1)
  outcome-valid session_id (failure_outcome code message) h k = ground arith

  with_payload_ok :
      {A : Type 0} (x : Option A) (others : Bool) (check : A → Result MessageError (Unit {0}))
      → with_payload is_clean x others check ≡ ok tt
      → (y : A) × ((x ≡ some y) × ((others ≡ true) × (check y ≡ ok tt)))
  with_payload_ok (some x) true check h = (x, (refl, (refl, h)))
  with_payload_ok (some x) false check h = cc
  with_payload_ok none others check h = cc

  same_message :
      (m n : ChildMessage)
      → m.type ≡ n.type
      → m.session_id ≡ n.session_id
      → m.ownership ≡ n.ownership
      → m.ready ≡ n.ready
      → m.read_result ≡ n.read_result
      → m.write_result ≡ n.write_result
      → m.error ≡ n.error
      → m ≡ n
  same_message m n a b c d e f g = λ i. record {
    type = a i;
    session_id = b i;
    ownership = c i;
    ready = d i;
    read_result = e i;
    write_result = f i;
    error = g i;
  }

  valid_type :
      (m : ChildMessage) (type : MessageType)
      → m.type ≡ type
      → (payloads m == 1) ≡ true
      → validate_type is_clean type m ≡ ok tt
      → IsReport m
  unfolding validate_type validate_ownership validate_ready validate_read_payload
      validate_write_payload validate_failure
  valid_type m MessageType.ownership_type same one h =
      let p = with_payload_ok m.ownership _ _ h in
      inl (
        ownership_update p.0,
        (
          same_message m _ same refl p.1.0 (ground (arith, p.1.1.0)) (ground (arith, p.1.1.0))
              (ground (arith, p.1.1.0)) (ground (arith, p.1.1.0)),
          ground (arith, p.1.1.1, str_eq_iff p.0.session_id m.session_id),
        ),
      )
  valid_type m MessageType.ready_type same one h =
      let p = with_payload_ok m.ready _ _ h in
      inl (
        ready_update p.0.socket_path,
        (
          same_message m _ same refl (ground (arith, p.1.1.0)) p.1.0 (ground (arith, p.1.1.0))
              (ground (arith, p.1.1.0)) (ground (arith, p.1.1.0)),
          ground (arith, p.1.1.1),
        ),
      )
  valid_type m MessageType.read_type same one h =
      let p = with_payload_ok m.read_result _ _ h in
      inr (
        read_outcome p.0,
        (
          same_message m _ same refl (ground (arith, p.1.0, p.1.1.0, one)) (ground (arith, p.1.1.0))
              p.1.0 (ground (arith, p.1.1.0)) (ground (arith, p.1.1.0)),
          ground (arith, p.1.1.1, str_eq_iff p.0.session_id m.session_id),
        ),
      )
  valid_type m MessageType.write_type same one h =
      let p = with_payload_ok m.write_result _ _ h in
      inr (
        write_outcome p.0,
        (
          same_message m _ same refl (ground (arith, p.1.0, p.1.1.0, one)) (ground (arith, p.1.1.0))
              (ground (arith, p.1.1.0)) p.1.0 (ground (arith, p.1.1.0)),
          ground (arith, p.1.1.1, str_eq_iff p.0.session_id m.session_id),
        ),
      )
  valid_type m MessageType.failure_type same one h =
      let p = with_payload_ok m.error _ _ h in
      inr (
        failure_outcome p.0.code p.0.message,
        (
          same_message m _ same refl (ground (arith, p.1.0, p.1.1.0, one)) (ground (arith, p.1.1.0))
              (ground (arith, p.1.1.0)) (ground (arith, p.1.1.0)) p.1.0,
          ground (arith, p.1.1.1),
        ),
      )
  valid_type m (other_type name) same one h = cc

  -- A message is valid exactly if its session ID is not blank and it is the message that a reporter
  -- of that session builds from a sound call: one payload, of the message's type, for that session,
  -- with a clean path, the right kind or a code and a message that is not blank.
  pub validate_message_iff :
      (m : ChildMessage)
      → (validate_message is_clean m ≡ ok tt) ↔ ((is_blank m.session_id ≡ false) × IsReport m)
  unfolding validate_message
  validate_message_iff m = (
    λ h.
        let named = fail_if_ok _ _ _ _ h in
        let single = fail_if_ok (not (payloads m == 1)) not_one_payload _ _ named.1 in
        (named.0, valid_type m m.type refl (ground (arith, single.0)) single.1),
    λ h. elim h.1 [
      | inl u ↦ ap (validate_message is_clean) u.1.0 ∙ update-valid m.session_id u.0 h.0 u.1.1
      | inr o ↦ ap (validate_message is_clean) o.1.0 ∙ outcome-valid m.session_id o.0 h.0 o.1.1
    ],
  )
