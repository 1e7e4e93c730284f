-- ===== src/Projection/Projector.antt =====
-- internal/manager/projection.go: the projector of activity.
use Prim.Native.String.{◌++◌}
use kanedias.Base.{
  ℕ, zero, suc, Bool, true, false, not, ◌&&◌, ◌||◌, ◌==◌, List, [], ◌∷◌, ◌++◌ as append, length,
  Option, none, some, String, str_eq, contains_str, if◌then◌else◌, lookup, insert, string_key, ltb,
}
use kanedias.Event.{EventEnvelope}
use kanedias.Projection.{
  ContentBlock, MessageEnd, ToolPayload, Library, ActivityItem, ItemKind, message_item,
  extension_error_item, event_item, user_message_item, model_error_item, tool_item, no_status,
  running_status, done_status, max_tool_summary_runes,
}
use kanedias.Projection.Display.{
  cap_runes, format_tool_json, format_tool_result, summarize_tool, tool_language,
}

pub record ActivityProjector : Type 0 where
  pub items : List ActivityItem
  pub tools : List (String × ℕ)
  pub text_seq : ℕ
  pub text_open : Bool

unfoldable pub new_activity_projector : ActivityProjector
new_activity_projector = record { items = []; tools = []; text_seq = 0; text_open = false }

-- The cases of `applyPiType`, by the type of the event.
pub data PiType : Type 0 where
  ignored message_update message_end : PiType
  tool_execution_start tool_execution_update tool_execution_end extension_error : PiType
  unknown : String → PiType

abbrev pub ignored_pi_types : List String
ignored_pi_types =
    "agent_start" ∷ "agent_settled" ∷ "agent_end" ∷ "queue_update" ∷ "turn_start" ∷ "turn_end"
    ∷ "message_start" ∷ "auto_retry_start" ∷ "auto_retry_end" ∷ "extension_ui_request" ∷ []

unfoldable pub pi_type_of : String → PiType
pi_type_of t =
    if contains_str ignored_pi_types t
    then ignored
    else if str_eq t "message_update"
    then message_update
    else if str_eq t "message_end"
    then message_end
    else if str_eq t "tool_execution_start"
    then tool_execution_start
    else if str_eq t "tool_execution_update"
    then tool_execution_update
    else if str_eq t "tool_execution_end"
    then tool_execution_end
    else if str_eq t "extension_error"
    then extension_error
    else unknown t

-- An item with nothing but its number, kind and label.
abbrev pub new_item : ℕ → ItemKind → String → ActivityItem
new_item seq kind label = record {
  seq = seq;
  kind = kind;
  label = label;
  text = "";
  image_count = 0;
  tool_call_id = "";
  tool_name = "";
  status = no_status;
  is_error = false;
  is_tool = false;
  tool_summary = "";
  tool_args = "";
  tool_output = "";
  tool_language = "";
  tool_truncated = false;
  tool_args_truncated = false;
  tool_output_truncated = false;
  complete = false;
}

abbrev pub is_message : ActivityItem → Bool
is_message item = elim item.kind [ message_item ↦ true | _ ↦ false ]

abbrev pub any_item : (ActivityItem → Bool) → List ActivityItem → Bool
any_item p [] = false
any_item p (x ∷ xs) = p x || any_item p xs

-- The loops that search from the end: the last item that passes a test is changed.
unfoldable pub update_last :
    (ActivityItem → Bool) → (ActivityItem → ActivityItem) → List ActivityItem → List ActivityItem
update_last p f [] = []
update_last p f (x ∷ xs) =
    let rest = update_last p f xs in
    if any_item p xs then x ∷ rest else if p x then f x ∷ xs else x ∷ xs

-- p.items[idx], changed.
unfoldable pub update_at : ℕ → (ActivityItem → ActivityItem) → List ActivityItem → List ActivityItem
update_at k f [] = []
update_at zero f (x ∷ xs) = f x ∷ xs
update_at (suc k) f (x ∷ xs) = x ∷ update_at k f xs

abbrev pub is_open_text : ℕ → ActivityItem → Bool
is_open_text seq item = is_message item && item.seq == seq

abbrev pub add_item : ActivityProjector → ActivityItem → ActivityProjector
add_item p item = record p { items = append p.items (item ∷ []) }

abbrev pub add_text : String → ActivityItem → ActivityItem
add_text delta item = record item { text = item.text ++ delta }

abbrev pub set_complete : ActivityItem → ActivityItem
set_complete item = record item { complete = true }

-- The first part of `applyMessageUpdate`: an item for the text, if none is open.
unfoldable pub open_text : ℕ → ActivityProjector → ActivityProjector
open_text seq p = record p {
  items =
      if p.text_open then p.items else append p.items (new_item seq message_item "Message" ∷ []);
  text_seq = if p.text_open then p.text_seq else seq;
  text_open = true;
}

unfoldable pub extend_text : String → ActivityProjector → ActivityProjector
unfolding update_last
extend_text delta p = record p {
  items = update_last (is_open_text p.text_seq) (add_text delta) p.items;
}

abbrev pub apply_delta : ℕ → ActivityProjector → Option (String × String) → ActivityProjector
apply_delta seq p none = p
apply_delta seq p (some (type, delta)) =
    if not (str_eq type "text_delta") || str_eq delta ""
    then p
    else extend_text delta (open_text seq p)

unfoldable pub complete_open_text : ActivityProjector → ActivityProjector
unfolding update_last
complete_open_text p = record p {
  items =
      if p.text_open then update_last (is_open_text p.text_seq) set_complete p.items else p.items;
  text_seq = if p.text_open then 0 else p.text_seq;
  text_open = false;
}

unfoldable pub user_text : List ContentBlock → String
user_text [] = ""
user_text (block ∷ blocks) =
    if str_eq block.type "text" then block.text ++ user_text blocks else user_text blocks

unfoldable pub user_images : List ContentBlock → ℕ
user_images [] = 0
user_images (block ∷ blocks) =
    if str_eq block.type "image" then suc (user_images blocks) else user_images blocks

abbrev pub user_item : ℕ → List ContentBlock → ActivityItem
user_item seq content = record (new_item seq user_message_item "You") {
  text = user_text content;
  image_count = user_images content;
  complete = true;
}

abbrev pub error_item : ℕ → String → ActivityItem
error_item seq message = record (new_item seq model_error_item "Model error") {
  text = message;
  is_error = true;
  complete = true;
}

-- Whether the last item already shows an error.
abbrev pub repeats_error : String → List ActivityItem → Bool
repeats_error message [] = false
repeats_error message (x ∷ []) = x.is_error && str_eq x.text message
repeats_error message (x ∷ y ∷ ys) = repeats_error message (y ∷ ys)

-- The last part of `applyMessageEnd`, for an assistant.
unfoldable pub add_model_error : ℕ → MessageEnd → ActivityProjector → ActivityProjector
add_model_error seq m p =
    if not (str_eq m.stop_reason "error")
      || str_eq m.error_message ""
      || repeats_error m.error_message p.items
    then p
    else add_item p (error_item seq m.error_message)

abbrev pub apply_message : ℕ → ActivityProjector → MessageEnd → ActivityProjector
apply_message seq p m =
    if str_eq m.role "user"
    then (if not (str_eq (user_text m.content) "") || ltb 0 (user_images m.content)
        then add_item p (user_item seq m.content)
        else p)
    else if str_eq m.role "assistant"
    then add_model_error seq m (complete_open_text p)
    else p

abbrev pub apply_end : ℕ → ActivityProjector → Option (Option MessageEnd) → ActivityProjector
apply_end seq p none = p
apply_end seq p (some none) = p
apply_end seq p (some (some m)) = apply_message seq p m

module _ (lib : Library) where
  abbrev pub start_item : ℕ → ToolPayload → ActivityItem
  start_item seq payload =
      let name = cap_runes payload.tool_name max_tool_summary_runes in
      let args = format_tool_json lib payload.args in
      record (new_item seq tool_item ("Tool: " ++ name)) {
        tool_call_id = payload.tool_call_id;
        tool_name = name;
        status = running_status;
        is_tool = true;
        tool_summary = summarize_tool lib payload.tool_name payload.args;
        tool_args = args.0;
        tool_language = tool_language lib payload.tool_name payload.args;
        tool_truncated = args.1;
        tool_args_truncated = args.1;
      }

  abbrev pub start_tool : ℕ → ActivityProjector → Option ToolPayload → ActivityProjector
  start_tool seq p none = p
  start_tool seq p (some payload) = record p {
    tools = insert payload.tool_call_id (length p.items) p.tools;
    items = append p.items (start_item seq payload ∷ []);
  }

  abbrev pub set_output : List ℕ → ActivityItem → ActivityItem
  set_output raw item =
      let shown = format_tool_result lib raw in
      record item {
        status = running_status;
        tool_output = shown.0;
        tool_output_truncated = shown.1;
        tool_truncated = item.tool_truncated || shown.1;
      }

  abbrev pub set_result : ToolPayload → ActivityItem → ActivityItem
  set_result payload item = record (set_output payload.result item) {
    status = done_status;
    is_error = payload.is_error;
    complete = true;
  }

  abbrev pub change_tool :
      (ActivityItem → ActivityItem) → ActivityProjector → Option ℕ → ActivityProjector
  change_tool f p none = p
  change_tool f p (some k) = record p {
    items = if ltb k (length p.items) then update_at k f p.items else p.items;
  }

  abbrev pub update_tool : ActivityProjector → Option ToolPayload → ActivityProjector
  update_tool p none = p
  update_tool p (some payload) =
      change_tool (set_output payload.partial_result) p (lookup payload.tool_call_id p.tools)

  abbrev pub end_tool : ActivityProjector → Option ToolPayload → ActivityProjector
  end_tool p none = p
  end_tool p (some payload) =
      change_tool (set_result payload) p (lookup payload.tool_call_id p.tools)

  -- `applyPiType` with the functions that it calls.
  unfoldable pub apply_pi_type : PiType → EventEnvelope → ActivityProjector → ActivityProjector
  apply_pi_type ignored event p = p
  apply_pi_type message_update event p = apply_delta event.seq p (lib.message_update event.payload)
  apply_pi_type message_end event p = apply_end event.seq p (lib.message_end event.payload)
  apply_pi_type tool_execution_start event p = start_tool event.seq p (lib.tool event.payload)
  apply_pi_type tool_execution_update event p = update_tool p (lib.tool event.payload)
  apply_pi_type tool_execution_end event p = end_tool p (lib.tool event.payload)
  apply_pi_type extension_error event p =
      add_item p (record (new_item event.seq extension_error_item "Extension error") {
        text = lib.extension_message event.payload;
        is_error = true;
        complete = true;
      })
  apply_pi_type (unknown t) event p =
      add_item p (record (new_item event.seq event_item ("Pi event: " ++ t)) { complete = true })

  abbrev pub apply_decoded : EventEnvelope → ActivityProjector → Option String → ActivityProjector
  apply_decoded event p none = p
  apply_decoded event p (some t) = apply_pi_type (pi_type_of t) event p

  -- `Apply`
  unfoldable pub apply : EventEnvelope → ActivityProjector → ActivityProjector
  apply event p =
      if str_eq event.kind "pi" then apply_decoded event p (lib.pi_type event.payload) else p

  -- The loop of `projectActivity`, from a projector.
  unfoldable pub project_from : String → List EventEnvelope → ActivityProjector → ActivityProjector
  unfolding apply
  project_from session_id [] p = p
  project_from session_id (event ∷ events) p =
      project_from session_id events
        (if str_eq event.session_id session_id then apply event p else p)

  unfoldable pub project_activity : List EventEnvelope → String → List ActivityItem
  unfolding project_from new_activity_projector
  project_activity events session_id = (project_from session_id events new_activity_projector).items
