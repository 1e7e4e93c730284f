-- ===== src/Protocol/Tests.antt =====
-- Runs of internal/supervisor/process/protocol.go. The codec of the runs has a value as its one byte.
use kanedias.Base.{
  Bool, false, lookup, ◌≡◌, refl, ◌≤◌, inr, All, List, [], ◌∷◌, true, none, some, String, Result,
  ok, err, is_blank, length, sort,
}
use kanedias.Contract.{ChildKind, ContextMode, ErrorCode, validate}
use kanedias.Identity.{is_thinking_level}
use kanedias.Policy.{validate_policy, worker_names}
use kanedias.Workspace.{validate_start}
use kanedias.Results.{ReadChildResult}
use kanedias.Protocol.{
  Bootstrap, ChildMessage, max_record_bytes, not_one_payload, validate_message, validate_bootstrap,
}
use kanedias.Protocol.Wire.{
  Codec, end_of_input, strict_decode, decode_child_message, decode_bootstrap, encode_bootstrap,
  read_limited,
}
use kanedias.Protocol.Reporter.{
  ready_update, read_outcome, failure_outcome, update_message, outcome_message,
  new_acknowledged_reporter, send_nonterminal, claim_terminal, finish_terminal, send_wire,
  ack_failed, not_one_ack, send_terminal, wait_for_terminal_ack,
}
use kanedias.Protocol.Messages.{validate_message_iff}
use kanedias.Protocol.Reports.{Step, IsTranscript, IsSound, run, start, run-IsTranscript}
use kanedias.Protocol.Bootstraps.{
  Yields, RoundTrips, reader_of, decode_child_message_ok, decode_child_message-run,
  encode_bootstrap-decode_bootstrap,
}

abbrev clean : String → Bool
clean path = true

-- A value is the one byte of its text.
abbrev first_value : {A : Type 0} → List A → Result String (A × List A)
first_value [] = err "unexpected end"
first_value (value ∷ rest) = ok (value, rest)

abbrev whole : {A : Type 0} → Codec A A
whole = record {
  marshal = λ value. ok (value ∷ []);
  decode = first_value;
  decode_next = λ rest. end_of_input;
}

whole_law : {A : Type 0} → RoundTrips (whole {A = A})
whole_law value [] h = cc
whole_law value (byte ∷ rest) h = (cc, refl)

abbrev result : ReadChildResult
result = record {
  kind = ChildKind.read;
  worker_type = "reviewer";
  session_id = "child";
  output = "done";
}

abbrev message : ChildMessage
message = outcome_message "child" (read_outcome result)

-- A ready message, then two terminal reports that race, then an update that is late.
abbrev steps : List Step
steps =
    Step.update none (ready_update "/run/child.sock")
    ∷ Step.claim (read_outcome result)
    ∷ Step.claim (failure_outcome ErrorCode.child_failed "late")
    ∷ Step.finish none none
    ∷ Step.update none (ready_update "/run/late.sock")
    ∷ []

steps_test :
    (run clean whole steps (start clean whole "child")).reporter.records
    ≡ message ∷ update_message "child" (ready_update "/run/child.sock") ∷ []
unfolding new_acknowledged_reporter send_nonterminal claim_terminal finish_terminal send_wire
    validate_message is_blank
steps_test = refl

two_payloads_test :
    validate_message clean
      (record message { error = some (record { code = ErrorCode.internal; message = "no" }) })
    ≡ err not_one_payload
unfolding validate_message is_blank
two_payloads_test = refl

run-IsTranscript_example :
    IsTranscript clean whole "child"
      (run clean whole steps (start clean whole "child")).reporter.records
    × All (IsSound clean whole) (run clean whole steps (start clean whole "child")).reporter.records
run-IsTranscript_example = run-IsTranscript clean whole "child" steps

validate_message_iff_example : validate_message clean message ≡ ok tt
unfolding is_blank
validate_message_iff_example =
    (validate_message_iff clean message).1 (refl, inr (read_outcome result, (refl, (refl, refl))))

decode_child_message_ok_test :
    Yields whole (reader_of (message ∷ [])) message × (validate_message clean message ≡ ok tt)
unfolding decode_child_message strict_decode read_limited validate_message is_blank
decode_child_message_ok_test =
    decode_child_message_ok clean whole (reader_of (message ∷ [])) message refl

decode_child_message-run_example :
    All
      (λ m.
        (bytes : List ChildMessage) × ((whole.marshal m ≡ ok bytes)
          × (decode_child_message clean whole (reader_of bytes) ≡ ok m)))
      (run clean whole steps (start clean whole "child")).reporter.records
decode_child_message-run_example = decode_child_message-run clean whole whole_law "child" steps

abbrev bootstrap : Bootstrap
bootstrap = record {
  session_id = "child";
  parent_id = "root";
  root_id = "root";
  socket_path = "/run/child.sock";
  source_instance = "i-1";
  source_volume = "v-1";
  policy = record {
    root_model = record { provider = "anthropic"; model = "opus"; thinking_level = "high" };
    workers =
        (
          "reviewer",
          record {
            description = "reviews";
            provider = "anthropic";
            model = "opus";
            thinking_level = "high";
          },
        )
        ∷ [];
  };
  workspace = record { repository = ""; checkout = "" };
  request = record {
    worker_type = "reviewer";
    kind = ChildKind.read;
    context = ContextMode.fresh;
    task = "read";
    fork_spec = none;
  };
  run_attribution = "";
}

encode_bootstrap-decode_bootstrap_test :
    (length (bootstrap ∷ []) ≤ max_record_bytes)
    × (decode_bootstrap clean whole (reader_of (bootstrap ∷ [])) ≡ ok bootstrap)
unfolding encode_bootstrap validate_bootstrap validate is_blank sort is_thinking_level
    validate_policy validate_start lookup worker_names
encode_bootstrap-decode_bootstrap_test =
    encode_bootstrap-decode_bootstrap clean whole whole_law none bootstrap (bootstrap ∷ []) refl

ack_test :
    (send_terminal clean whole none
      (some (record {
        reader = record { bytes = 6 ∷ 6 ∷ []; failure = none };
        close_failed = none;
        cancelled = false;
      }))
      message
      (new_acknowledged_reporter "child")).1
    ≡ err (ack_failed not_one_ack)
unfolding new_acknowledged_reporter send_terminal send_wire validate_message wait_for_terminal_ack
    is_blank claim_terminal finish_terminal
ack_test = refl
