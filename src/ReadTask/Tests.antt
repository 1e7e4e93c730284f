-- ===== src/ReadTask/Tests.antt =====
-- internal/supervisor/result.go on one task, with an event from before its prompt.
use kanedias.Base.{
  ℕ, zero, suc, ◌≡◌, refl, List, [], ◌∷◌, ◌++◌, true, Option, none, some, ok, is_blank,
}
use kanedias.Event.{EventEnvelope}
use kanedias.Contract.{ChildKind, ContextMode}
use kanedias.Identity.{Identity}
use kanedias.Results.{ReadChildResult}
use kanedias.ReadTask.{PiMessage, Session, stream_closed, run_read_task}
use kanedias.ReadTask.Settles.{Settles, run_read_task-ok}
use kanedias.ReadTask.Relevant.{run_read_task-select}

abbrev event : ℕ → ℕ → EventEnvelope
event number code = record {
  seq = number;
  session_id = "child-1";
  source_seq = number;
  kind = "pi";
  payload = code ∷ [];
}

-- 1 is a message of the assistant that stops, 2 is the settlement.
abbrev decode : List ℕ → Option PiMessage
decode (suc zero ∷ []) =
    some (record { type_name = "message_end"; message = some ("assistant", "stop") })
decode (suc (suc zero) ∷ []) = some (record { type_name = "agent_settled"; message = none })
decode _ = none

abbrev reader : Identity
reader = record {
  session_id = "child-1";
  parent_id = "root";
  root_id = "root";
  kind = ChildKind.read;
  context = ContextMode.fresh;
  worker = "scout";
}

abbrev session : Session
session = record {
  has_local = true;
  boundary = 1;
  replay = event 1 0 ∷ [];
  live = event 2 1 ∷ event 3 2 ∷ [];
  ending = stream_closed;
  prompt_reply =
      some (record { type_name = "response"; command = "prompt"; success = true; text = none });
  text_reply = some (record {
    type_name = "response";
    command = "get_last_assistant_text";
    success = true;
    text = some "found";
  });
}

abbrev result : ReadChildResult
result = record {
  kind = ChildKind.read;
  worker_type = "scout";
  session_id = "child-1";
  output = "found";
}

settled : run_read_task decode reader "look" session ≡ ok result
unfolding run_read_task is_blank
settled = refl

run_read_task-ok_example : Settles decode "child-1" 1 "" (session.replay ++ session.live)
run_read_task-ok_example = (run_read_task-ok decode reader "look" session result settled).3

run_read_task-select_test :
    run_read_task decode reader "look" (record session { replay = [] })
    ≡ run_read_task decode reader "look" session
run_read_task-select_test = run_read_task-select decode reader "look" session
