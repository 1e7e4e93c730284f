-- ===== src/Spawn/Tests.antt =====
-- Runs of internal/supervisor/process/spawn.go.
use kanedias.Base.{
  ℕ, ◌≡◌, refl, Bool, true, false, List, [], ◌∷◌, none, some, String, Result, ok, err, is_blank,
  if◌then◌else◌, ◌==◌,
}
use kanedias.Contract.{ChildKind, ContextMode, ErrorCode}
use kanedias.Protocol.{Bootstrap, RecoveryTicket, ChildMessage, validate_message}
use kanedias.Protocol.Wire.{Codec, end_of_input, decode_child_message, strict_decode, read_limited}
use kanedias.Protocol.Reporter.{
  ownership_update, ready_update, failure_outcome, update_message, outcome_message,
}
use kanedias.Spawn.{
  event, line, buffer_full, report_too_large, read_reports, new_child, next_message,
  check_acknowledge, acknowledge_terminal, close_terminal_ack,
}
use kanedias.Spawn.Start.{validate_recovery_ticket, wait_ready}
use kanedias.Spawn.Acknowledge.{
  Call, receive, acknowledge, close, Inv, run, start, run-new_child-Inv,
}
use kanedias.Spawn.Ready.{wait_ready_iff}

abbrev clean : String → Bool
clean path = true

abbrev failure : ChildMessage
failure = outcome_message "child" (failure_outcome ErrorCode.child_failed "it failed")

abbrev ready : ChildMessage
ready = update_message "child" (ready_update "/run/child.sock")

-- Two texts: a failure and a ready message.
abbrev marshal : ChildMessage → Result String (List ℕ)
marshal m = elim m.error [ none ↦ ok (1 ∷ []) | some e ↦ ok (2 ∷ []) ]

abbrev decode : List ℕ → Result String (ChildMessage × List ℕ)
decode [] = err "unexpected end"
decode (byte ∷ rest) = ok ((if byte == 1 then ready else failure), rest)

abbrev texts : Codec ℕ ChildMessage
texts = record { marshal = marshal; decode = decode; decode_next = λ rest. end_of_input }

reports_test :
    read_reports clean texts
      ((line (1 ∷ []), true) ∷ (buffer_full, true) ∷ (line (2 ∷ []), true) ∷ [])
    ≡ ok ready ∷ err report_too_large ∷ []
unfolding read_reports decode_child_message strict_decode read_limited validate_message is_blank
reports_test = refl

abbrev calls : List Call
calls =
    receive (event (ok ready))
    ∷ receive (event (ok failure))
    ∷ receive (event (ok failure))
    ∷ acknowledge false failure
    ∷ close
    ∷ acknowledge false failure
    ∷ []

calls_test :
    ((run texts calls (start texts)).child.acks ≡ 1)
    × ((run texts calls (start texts)).child.closes ≡ 1)
unfolding new_child next_message check_acknowledge acknowledge_terminal close_terminal_ack
calls_test = (refl, refl)

run-new_child-Inv_example : Inv texts (run texts calls (start texts))
run-new_child-Inv_example = run-new_child-Inv texts calls

abbrev bootstrap : Bootstrap
bootstrap = record {
  session_id = "child";
  parent_id = "root";
  root_id = "root";
  socket_path = "/run/child.sock";
  source_instance = "i-1";
  source_volume = "v-1";
  policy = record {
    root_model = record { provider = "anthropic"; model = "opus"; thinking_level = "high" };
    workers = [];
  };
  workspace = record { repository = ""; checkout = "" };
  request = record {
    worker_type = "reviewer";
    kind = ChildKind.read;
    context = ContextMode.fresh;
    task = "read";
    fork_spec = none;
  };
  run_attribution = "";
}

abbrev ticket : RecoveryTicket
ticket = record {
  session_id = "child";
  parent_id = "root";
  root_id = "root";
  pool = "default";
  instance_name = "session-child";
  volume = "workspace-child";
  socket_path = "/run/child.sock";
  socket = record { device = 1; inode = 7 };
  kind = ChildKind.read;
  context = ContextMode.fresh;
  worker_type = "reviewer";
  run_attribution = "";
}

other_volume_test :
    validate_recovery_ticket bootstrap (record ticket { volume = "workspace-root" }) ≡ false
unfolding validate_recovery_ticket
other_volume_test = refl

wait_ready_iff_example :
    (wait_ready bootstrap true
      (event (ok (update_message "child" (ownership_update ticket))))
      (event (ok ready))
      new_child).1
    ≡ ok tt
unfolding validate_recovery_ticket validate_message is_blank
wait_ready_iff_example =
    (wait_ready_iff clean bootstrap true (update_message "child" (ownership_update ticket)) ready
        new_child refl refl).1
      (refl, (refl, (ticket, (refl, refl))))
