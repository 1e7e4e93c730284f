-- ===== src/Projection/Cards.antt =====
-- internal/manager/projection.go: every item that is projected shows texts within the bounds.
use Prim.Native.String.{count}
use kanedias.Base.{
  ℕ, zero, suc, ◌≤◌, Bool, not, ◌||◌, ltb, List, [], ◌∷◌, ◌++◌ as append, length, All, All-append,
  Option, none, some, String, len, str_eq, if-cases, arith, lookup, string_key,
}
use kanedias.Event.{EventEnvelope}
use kanedias.Projection.{
  ActivityItem, ToolPayload, MessageEnd, Library, max_tool_display_bytes, max_tool_summary_runes,
}
use kanedias.Projection.Bounded.{
  cap_runes-le, format_tool_json-le, format_tool_result-le, summarize_tool-le,
}
use kanedias.Projection.Projector.{
  ActivityProjector, PiType, ignored, message_update, message_end, tool_execution_start,
  tool_execution_update, tool_execution_end, extension_error, unknown, any_item, update_last,
  update_at, open_text, extend_text, complete_open_text, add_model_error, apply_delta,
  apply_message, apply_end, start_item, start_tool, set_output, set_result, change_tool,
  update_tool, end_tool, apply_pi_type, apply_decoded, apply, project_from, project_activity,
  new_activity_projector, is_open_text, add_text, set_complete, pi_type_of, repeats_error,
  user_text, user_images,
}

-- The texts of a card: the arguments and the output in bytes, the name and the summary in characters.
pub record IsCard (args output summary name : String) : Type 0 where
  pub short_args : len args ≤ max_tool_display_bytes
  pub short_output : len output ≤ max_tool_display_bytes
  pub short_summary : count summary ≤ max_tool_summary_runes
  pub short_name : count name ≤ max_tool_summary_runes

abbrev pub IsBounded : ActivityItem → Type 0
IsBounded item = IsCard item.tool_args item.tool_output item.tool_summary item.tool_name

pub update_at-All :
    (P : ActivityItem → Type 0) (k : ℕ) (f : ActivityItem → ActivityItem)
    → ((x : ActivityItem) → P x → P (f x))
    → (xs : List ActivityItem) → All P xs
    → All P (update_at k f xs)
unfolding update_at
update_at-All P zero f keep [] h = tt
update_at-All P (suc k) f keep [] h = tt
update_at-All P zero f keep (x ∷ xs) h = (keep x h.0, h.1)
update_at-All P (suc k) f keep (x ∷ xs) h = (h.0, update_at-All P k f keep xs h.1)

pub update_last-All :
    (P : ActivityItem → Type 0) (p : ActivityItem → Bool) (f : ActivityItem → ActivityItem)
    → ((x : ActivityItem) → P x → P (f x))
    → (xs : List ActivityItem) → All P xs
    → All P (update_last p f xs)
unfolding update_last
update_last-All P p f keep [] h = tt
update_last-All P p f keep (x ∷ xs) h =
    if-cases (All P) (any_item p xs) _ _ (λ _. (h.0, update_last-All P p f keep xs h.1))
      (λ _. if-cases (All P) (p x) _ _ (λ _. (keep x h.0, h.1)) (λ _. h))

IsCard-empty : IsCard "" "" "" ""
IsCard-empty = record {
  short_args = omega arith;
  short_output = omega arith;
  short_summary = omega arith;
  short_name = omega arith;
}

append-AreBounded :
    (xs : List ActivityItem) (x : ActivityItem)
    → All IsBounded xs
    → IsBounded x
    → All IsBounded (append xs (x ∷ []))
append-AreBounded xs x h b = All-append IsBounded xs (x ∷ []) h (b, tt)

open_text-AreBounded :
    (seq : ℕ) (p : ActivityProjector)
    → All IsBounded p.items
    → All IsBounded (open_text seq p).items
unfolding open_text
open_text-AreBounded seq p h =
    if-cases (All IsBounded) p.text_open _ _ (λ _. h)
      (λ _. append-AreBounded p.items _ h IsCard-empty)

extend_text-AreBounded :
    (delta : String) (p : ActivityProjector)
    → All IsBounded p.items
    → All IsBounded (extend_text delta p).items
unfolding extend_text
extend_text-AreBounded delta p h =
    update_last-All IsBounded (is_open_text p.text_seq) (add_text delta) (λ x b. b) p.items h

complete_open_text-AreBounded :
    (p : ActivityProjector) → All IsBounded p.items → All IsBounded (complete_open_text p).items
unfolding complete_open_text
complete_open_text-AreBounded p h =
    if-cases (All IsBounded) p.text_open _ _
      (λ _. update_last-All IsBounded (is_open_text p.text_seq) set_complete (λ x b. b) p.items h)
      (λ _. h)

module _ (seq : ℕ) where
  delta-AreBounded :
      (p : ActivityProjector) (o : Option (String × String))
      → All IsBounded p.items
      → All IsBounded (apply_delta seq p o).items
  delta-AreBounded p none h = h
  delta-AreBounded p (some (type, delta)) h =
      if-cases (λ (q : ActivityProjector). All IsBounded q.items)
        (not (str_eq type "text_delta") || str_eq delta "") _ _ (λ _. h)
        (λ _. extend_text-AreBounded delta (open_text seq p) (open_text-AreBounded seq p h))

  model_error-AreBounded :
      (m : MessageEnd) (p : ActivityProjector)
      → All IsBounded p.items
      → All IsBounded (add_model_error seq m p).items
  unfolding add_model_error
  model_error-AreBounded m p h =
      if-cases (λ (q : ActivityProjector). All IsBounded q.items)
        (not (str_eq m.stop_reason "error")
          || str_eq m.error_message ""
          || repeats_error m.error_message p.items)
        _ _ (λ _. h) (λ _. append-AreBounded p.items _ h IsCard-empty)

  message-AreBounded :
      (p : ActivityProjector) (m : MessageEnd)
      → All IsBounded p.items
      → All IsBounded (apply_message seq p m).items
  message-AreBounded p m h =
      if-cases (λ (q : ActivityProjector). All IsBounded q.items) (str_eq m.role "user") _ _
        (λ _.
          if-cases (λ (q : ActivityProjector). All IsBounded q.items)
            (not (str_eq (user_text m.content) "") || ltb 0 (user_images m.content)) _ _
            (λ _. append-AreBounded p.items _ h IsCard-empty) (λ _. h))
        (λ _.
          if-cases (λ (q : ActivityProjector). All IsBounded q.items) (str_eq m.role "assistant") _
            _
            (λ _.
              model_error-AreBounded m (complete_open_text p) (complete_open_text-AreBounded p h))
            (λ _. h))

  end-AreBounded :
      (p : ActivityProjector) (o : Option (Option MessageEnd))
      → All IsBounded p.items
      → All IsBounded (apply_end seq p o).items
  end-AreBounded p none h = h
  end-AreBounded p (some none) h = h
  end-AreBounded p (some (some m)) h = message-AreBounded p m h

module _ (lib : Library) where
  set_output-IsBounded :
      (raw : List ℕ) (x : ActivityItem) → IsBounded x → IsBounded (set_output lib raw x)
  set_output-IsBounded raw x b = record {
    short_args = b.short_args;
    short_output = format_tool_result-le lib raw;
    short_summary = b.short_summary;
    short_name = b.short_name;
  }

  start-AreBounded :
      (seq : ℕ) (p : ActivityProjector) (o : Option ToolPayload)
      → All IsBounded p.items
      → All IsBounded (start_tool lib seq p o).items
  start-AreBounded seq p none h = h
  start-AreBounded seq p (some t) h = append-AreBounded p.items (start_item lib seq t) h (record {
    short_args = format_tool_json-le lib t.args;
    short_output = omega arith;
    short_summary = summarize_tool-le lib t.tool_name t.args;
    short_name = cap_runes-le t.tool_name max_tool_summary_runes;
  })

  change-AreBounded :
      (f : ActivityItem → ActivityItem)
      → ((x : ActivityItem) → IsBounded x → IsBounded (f x))
      → (p : ActivityProjector) (o : Option ℕ) → All IsBounded p.items
      → All IsBounded (change_tool lib f p o).items
  change-AreBounded f keep p none h = h
  change-AreBounded f keep p (some k) h =
      if-cases (All IsBounded) (ltb k (length p.items)) _ _
        (λ _. update_at-All IsBounded k f keep p.items h) (λ _. h)

  update-AreBounded :
      (p : ActivityProjector) (o : Option ToolPayload)
      → All IsBounded p.items
      → All IsBounded (update_tool lib p o).items
  update-AreBounded p none h = h
  update-AreBounded p (some t) h =
      change-AreBounded (set_output lib t.partial_result) (set_output-IsBounded t.partial_result) p
        (lookup t.tool_call_id p.tools) h

  finish-AreBounded :
      (p : ActivityProjector) (o : Option ToolPayload)
      → All IsBounded p.items
      → All IsBounded (end_tool lib p o).items
  finish-AreBounded p none h = h
  finish-AreBounded p (some t) h =
      change-AreBounded (set_result lib t) (set_output-IsBounded t.result) p
        (lookup t.tool_call_id p.tools) h

  apply_pi_type-AreBounded :
      (t : PiType) (event : EventEnvelope) (p : ActivityProjector)
      → All IsBounded p.items
      → All IsBounded (apply_pi_type lib t event p).items
  unfolding apply_pi_type
  apply_pi_type-AreBounded ignored event p h = h
  apply_pi_type-AreBounded message_update event p h =
      delta-AreBounded event.seq p (lib.message_update event.payload) h
  apply_pi_type-AreBounded message_end event p h =
      end-AreBounded event.seq p (lib.message_end event.payload) h
  apply_pi_type-AreBounded tool_execution_start event p h =
      start-AreBounded event.seq p (lib.tool event.payload) h
  apply_pi_type-AreBounded tool_execution_update event p h =
      update-AreBounded p (lib.tool event.payload) h
  apply_pi_type-AreBounded tool_execution_end event p h =
      finish-AreBounded p (lib.tool event.payload) h
  apply_pi_type-AreBounded extension_error event p h = append-AreBounded p.items _ h IsCard-empty
  apply_pi_type-AreBounded (unknown t) event p h = append-AreBounded p.items _ h IsCard-empty

  decoded-AreBounded :
      (event : EventEnvelope) (p : ActivityProjector) (o : Option String)
      → All IsBounded p.items
      → All IsBounded (apply_decoded lib event p o).items
  decoded-AreBounded event p none h = h
  decoded-AreBounded event p (some t) h = apply_pi_type-AreBounded (pi_type_of t) event p h

  apply-AreBounded :
      (event : EventEnvelope) (p : ActivityProjector)
      → All IsBounded p.items
      → All IsBounded (apply lib event p).items
  unfolding apply
  apply-AreBounded event p h =
      if-cases (λ (q : ActivityProjector). All IsBounded q.items) (str_eq event.kind "pi") _ _
        (λ _. decoded-AreBounded event p (lib.pi_type event.payload) h) (λ _. h)

  project_from-AreBounded :
      (session_id : String) (events : List EventEnvelope) (p : ActivityProjector)
      → All IsBounded p.items
      → All IsBounded (project_from lib session_id events p).items
  unfolding project_from
  project_from-AreBounded session_id [] p h = h
  project_from-AreBounded session_id (event ∷ events) p h =
      project_from-AreBounded session_id events _ (
        if-cases (λ (q : ActivityProjector). All IsBounded q.items)
          (str_eq event.session_id session_id) _ _ (λ _. apply-AreBounded event p h) (λ _. h))

  -- Whatever the events of a supervisor hold, each item that is projected shows at most 64 KiB of
  -- arguments and of output, and at most 160 characters of a summary and of a tool's name.
  pub project_activity-IsBounded :
      (events : List EventEnvelope) (session_id : String)
      → All IsBounded (project_activity lib events session_id)
  unfolding project_activity new_activity_projector
  project_activity-IsBounded events session_id =
      project_from-AreBounded session_id events new_activity_projector tt
