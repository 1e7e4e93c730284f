-- ===== src/Projection/Tests.antt =====
-- internal/manager/projection.go: runs of the projection.
use kanedias.Base.{
  ℕ, zero, suc, ◌≡◌, refl, Bool, true, false, List, [], ◌∷◌, ◌++◌ as append, All, Option, none,
  some, String, str_eq, if◌then◌else◌, lookup, insert, string_key,
}
use kanedias.Event.{EventEnvelope}
use kanedias.Projection.{ContentBlock, Library, ActivityItem}
use kanedias.Projection.Display.{join_blocks, summarize_tool}
use kanedias.Projection.Projector.{
  project_activity, project_from, apply, apply_pi_type, pi_type_of, update_last, update_at,
  open_text, extend_text, complete_open_text, add_model_error, new_activity_projector,
}
use kanedias.Projection.Cards.{IsBounded, project_activity-IsBounded}
use kanedias.Projection.Later.{Extends}
use kanedias.Projection.Frozen.{project_activity-Extends}

-- A codec in which the first byte of a payload names the event.
abbrev blocks : List ContentBlock
blocks =
    record { type = "text"; text = "hi"; mime_type = "" }
    ∷ record { type = "image"; text = ""; mime_type = "" }
    ∷ []

abbrev type_of : List ℕ → Option String
type_of [] = none
type_of (zero ∷ bytes) = some "message_update"
type_of (suc zero ∷ bytes) = some "message_end"
type_of (suc (suc zero) ∷ bytes) = some "tool_execution_start"
type_of (suc (suc (suc zero)) ∷ bytes) = some "tool_execution_update"
type_of (suc (suc (suc (suc zero))) ∷ bytes) = some "tool_execution_end"
type_of (suc (suc (suc (suc (suc byte)))) ∷ bytes) = some "unheard"

abbrev codec : Library
codec = record {
  pi_type = type_of;
  message_update = λ bytes. some ("text_delta", "ab");
  extension_message = λ bytes. "failed";
  message_end = λ bytes. some (
      some (record {
        role = "assistant";
        stop_reason = "error";
        error_message = "no tokens";
        content = [];
      }));
  tool = λ bytes. some (record {
    tool_call_id = "t1";
    tool_name = "bash";
    is_error = false;
    args = 7 ∷ [];
    partial_result = 8 ∷ [];
    result = 9 ∷ [];
  });
  indent = λ bytes. some "{}";
  text = λ bytes. "";
  content = λ bytes. some blocks;
  field = λ key bytes. if str_eq key "command" then some bytes else none;
  string_of = λ bytes. some "ls -l\nrm x";
  strings_of = λ bytes. none;
  extension = λ p. "";
  to_lower = λ s. s;
}

abbrev event : ℕ → ℕ → EventEnvelope
event n code = record {
  seq = n;
  session_id = "s";
  source_seq = n;
  kind = "pi";
  payload = code ∷ [];
}

abbrev earlier : List EventEnvelope
earlier = event 1 0 ∷ event 2 0 ∷ event 3 1 ∷ event 4 2 ∷ []

abbrev later : List EventEnvelope
later = event 5 0 ∷ event 6 4 ∷ event 7 3 ∷ event 8 9 ∷ []

abbrev texts : List ActivityItem → List String
texts [] = []
texts (item ∷ items) = item.text ∷ texts items

abbrev completes : List ActivityItem → List Bool
completes [] = []
completes (item ∷ items) = item.complete ∷ completes items

message_test : texts (project_activity codec earlier "s") ≡ "abab" ∷ "no tokens" ∷ "" ∷ []
unfolding project_activity project_from apply apply_pi_type pi_type_of update_last update_at
    open_text extend_text complete_open_text add_model_error new_activity_projector
message_test = refl

complete_test :
    completes (project_activity codec (append earlier later) "s")
    ≡ true ∷ true ∷ true ∷ false ∷ true ∷ []
unfolding project_activity project_from apply apply_pi_type pi_type_of update_last update_at
    open_text extend_text complete_open_text add_model_error new_activity_projector insert lookup
complete_test = refl

other_session_test : project_activity codec earlier "other" ≡ []
unfolding project_activity project_from new_activity_projector
other_session_test = refl

media_test : join_blocks blocks ≡ "hi[image]"
unfolding join_blocks
media_test = refl

summary_test : summarize_tool codec "bash" (7 ∷ []) ≡ "$ ls -l"
unfolding summarize_tool
summary_test = refl

project_activity-IsBounded_example :
    All IsBounded (project_activity codec (append earlier later) "s")
project_activity-IsBounded_example = project_activity-IsBounded codec (append earlier later) "s"

project_activity-Extends_example :
    Extends (project_activity codec earlier "s") (project_activity codec (append earlier later) "s")
project_activity-Extends_example = project_activity-Extends codec earlier later "s"
