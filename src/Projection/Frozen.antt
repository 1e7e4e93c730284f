-- ===== src/Projection/Frozen.antt =====
-- internal/manager/projection.go: items are kept, and complete ones that show no tool do not change.
use kanedias.Base.{
  ℕ, ◌≡◌, refl, inl, inr, true, not, ◌||◌, ltb, List, [], ◌∷◌, ◌++◌ as append, length, Option, none,
  some, String, str_eq, if◌then◌else◌, if-cases, Option-cases, lookup, string_key, Entries-insert,
  Entries-lookup,
}
use kanedias.Event.{EventEnvelope}
use kanedias.Projection.{ActivityItem, ToolPayload, MessageEnd, Library}
use kanedias.Projection.Projector.{
  ActivityProjector, PiType, ignored, message_update, message_end, tool_execution_start,
  tool_execution_update, tool_execution_end, extension_error, unknown, is_message, open_text,
  complete_open_text, add_model_error, apply_delta, apply_message, apply_end, start_item,
  start_tool, set_output, set_result, change_tool, update_tool, end_tool, apply_pi_type,
  apply_decoded, apply, project_from, project_activity, new_activity_projector, pi_type_of,
  repeats_error, user_text, user_images,
}
use kanedias.Projection.Later.{
  Later, Extends, Extends-append, Extends-update_at, IsToolAt, LastOpen-append_other,
  LastOpen-update_at, is_tool_item,
}
use kanedias.Projection.Steps.{
  Coherent, Next, Next-refl, Next-trans, tools-Extends, add_item-Next, open_text-Next,
  extend_text-Next, complete_open_text-Next,
}

open_text-text_open : (seq : ℕ) (p : ActivityProjector) → (open_text seq p).text_open ≡ true
unfolding open_text
open_text-text_open seq p = refl

module _ (seq : ℕ) where
  delta-Next :
      (p : ActivityProjector) (o : Option (String × String))
      → Coherent p
      → Next p (apply_delta seq p o)
  delta-Next p none c = Next-refl p c
  delta-Next p (some (type, delta)) c =
      if-cases (Next p) (not (str_eq type "text_delta") || str_eq delta "") _ _ (λ _. Next-refl p c)
        (λ _.
          let opened = open_text-Next seq p c in
          Next-trans p (open_text seq p) _ opened
            (extend_text-Next delta (open_text seq p) (open_text-text_open seq p) opened.coherent))

  model_error-Next :
      (m : MessageEnd) (p : ActivityProjector) → Coherent p → Next p (add_model_error seq m p)
  unfolding add_model_error
  model_error-Next m p c =
      if-cases (Next p)
        (not (str_eq m.stop_reason "error")
          || str_eq m.error_message ""
          || repeats_error m.error_message p.items)
        _ _ (λ _. Next-refl p c) (λ _. add_item-Next p _ refl c)

  message-Next :
      (p : ActivityProjector) (m : MessageEnd) → Coherent p → Next p (apply_message seq p m)
  message-Next p m c =
      if-cases (Next p) (str_eq m.role "user") _ _
        (λ _.
          if-cases (Next p) (not (str_eq (user_text m.content) "") || ltb 0 (user_images m.content))
            _ _ (λ _. add_item-Next p _ refl c) (λ _. Next-refl p c))
        (λ _.
          if-cases (Next p) (str_eq m.role "assistant") _ _
            (λ _.
              let ended = complete_open_text-Next p c in
              Next-trans p (complete_open_text p) _ ended
                (model_error-Next m (complete_open_text p) ended.coherent))
            (λ _. Next-refl p c))

  end-Next :
      (p : ActivityProjector) (o : Option (Option MessageEnd))
      → Coherent p
      → Next p (apply_end seq p o)
  end-Next p none c = Next-refl p c
  end-Next p (some none) c = Next-refl p c
  end-Next p (some (some m)) c = message-Next p m c

IsToolAt-append :
    (xs : List ActivityItem) (z : ActivityItem)
    → is_tool_item z ≡ true
    → IsToolAt (length xs) (append xs (z ∷ []))
IsToolAt-append [] z h = h
IsToolAt-append (x ∷ xs) z h = IsToolAt-append xs z h

module _ (lib : Library) where
  start-Next :
      (seq : ℕ) (p : ActivityProjector) (o : Option ToolPayload)
      → Coherent p
      → Next p (start_tool lib seq p o)
  start-Next seq p none c = Next-refl p c
  start-Next seq p (some t) c =
      let z = start_item lib seq t in
      let longer = Extends-append p.items (z ∷ []) in
      record {
        extends = longer;
        coherent = record {
          tools =
              Entries-insert (λ id k. IsToolAt k (append p.items (z ∷ []))) t.tool_call_id
                (length p.items) p.tools (IsToolAt-append p.items z refl)
                (tools-Extends p.items (append p.items (z ∷ [])) p.tools longer c.tools);
          open_item = λ o. LastOpen-append_other p.text_seq p.items z refl (c.open_item o);
        };
      }

  -- Changing the item of a tool.
  change-Next :
      (f : ActivityItem → ActivityItem)
      → ((x : ActivityItem) → is_tool_item x ≡ true → Later x (f x))
      → ((x : ActivityItem) → is_message (f x) ≡ is_message x)
      → (p : ActivityProjector) (id : String) → Coherent p
      → Next p (change_tool lib f p (lookup id p.tools))
  change-Next f keep same p id c = elim (Option-cases (lookup id p.tools)) [
    | inl missing ↦ rw (missing) (Next-refl p c)
    | inr (k, found) ↦
        let tool = Entries-lookup (λ id k. IsToolAt k p.items) id k p.tools c.tools found in
        let e = Extends-update_at k f keep p.items tool in
        rw (found) (
          if-cases (λ items. Next p (record p { items = items })) (ltb k (length p.items)) _ _
            (λ _. record {
              extends = e;
              coherent = record {
                tools = tools-Extends p.items _ p.tools e c.tools;
                open_item =
                    λ o. LastOpen-update_at p.text_seq k f same p.items tool (c.open_item o);
              };
            })
            (λ _. Next-refl p c))
  ]

  Later-set_output :
      (raw : List ℕ) (x : ActivityItem) → is_tool_item x ≡ true → Later x (set_output lib raw x)
  Later-set_output raw x t = record {
    same_kind = refl;
    same_seq = refl;
    same_label = refl;
    stays_complete = λ c. c;
    frozen = λ c plain. cc;
  }

  Later-set_result :
      (t : ToolPayload) (x : ActivityItem) → is_tool_item x ≡ true → Later x (set_result lib t x)
  Later-set_result t x tool = record {
    same_kind = refl;
    same_seq = refl;
    same_label = refl;
    stays_complete = λ c. refl;
    frozen = λ c plain. cc;
  }

  update-Next :
      (p : ActivityProjector) (o : Option ToolPayload) → Coherent p → Next p (update_tool lib p o)
  update-Next p none c = Next-refl p c
  update-Next p (some t) c =
      change-Next (set_output lib t.partial_result) (Later-set_output t.partial_result) (λ x. refl)
        p t.tool_call_id c

  finish-Next :
      (p : ActivityProjector) (o : Option ToolPayload) → Coherent p → Next p (end_tool lib p o)
  finish-Next p none c = Next-refl p c
  finish-Next p (some t) c =
      change-Next (set_result lib t) (Later-set_result t) (λ x. refl) p t.tool_call_id c

  apply_pi_type-Next :
      (t : PiType) (event : EventEnvelope) (p : ActivityProjector)
      → Coherent p
      → Next p (apply_pi_type lib t event p)
  unfolding apply_pi_type
  apply_pi_type-Next ignored event p c = Next-refl p c
  apply_pi_type-Next message_update event p c =
      delta-Next event.seq p (lib.message_update event.payload) c
  apply_pi_type-Next message_end event p c = end-Next event.seq p (lib.message_end event.payload) c
  apply_pi_type-Next tool_execution_start event p c =
      start-Next event.seq p (lib.tool event.payload) c
  apply_pi_type-Next tool_execution_update event p c = update-Next p (lib.tool event.payload) c
  apply_pi_type-Next tool_execution_end event p c = finish-Next p (lib.tool event.payload) c
  apply_pi_type-Next extension_error event p c = add_item-Next p _ refl c
  apply_pi_type-Next (unknown t) event p c = add_item-Next p _ refl c

  decoded-Next :
      (event : EventEnvelope) (p : ActivityProjector) (o : Option String)
      → Coherent p
      → Next p (apply_decoded lib event p o)
  decoded-Next event p none c = Next-refl p c
  decoded-Next event p (some t) c = apply_pi_type-Next (pi_type_of t) event p c

  apply-Next :
      (event : EventEnvelope) (p : ActivityProjector) → Coherent p → Next p (apply lib event p)
  unfolding apply
  apply-Next event p c =
      if-cases (Next p) (str_eq event.kind "pi") _ _
        (λ _. decoded-Next event p (lib.pi_type event.payload) c) (λ _. Next-refl p c)

  project_from-Next :
      (session_id : String) (events : List EventEnvelope) (p : ActivityProjector)
      → Coherent p
      → Next p (project_from lib session_id events p)
  unfolding project_from
  project_from-Next session_id [] p c = Next-refl p c
  project_from-Next session_id (event ∷ events) p c =
      let first : Next p (if str_eq event.session_id session_id then apply lib event p else p) =
        if-cases (Next p) (str_eq event.session_id session_id) _ _ (λ _. apply-Next event p c)
          (λ _. Next-refl p c) in
      Next-trans p _ _ first (project_from-Next session_id events _ first.coherent)

  project_from-append :
      (session_id : String) (before after : List EventEnvelope) (p : ActivityProjector)
      → project_from lib session_id (append before after) p
        ≡ project_from lib session_id after (project_from lib session_id before p)
  unfolding project_from
  project_from-append session_id [] after p = refl
  project_from-append session_id (event ∷ before) after p =
      project_from-append session_id before after _

  -- More events keep every item at its place with its kind, number and label; they leave a complete
  -- item complete, and leave it as it is if it shows no tool.
  pub project_activity-Extends :
      (before after : List EventEnvelope) (session_id : String)
      → Extends
          (project_activity lib before session_id)
          (project_activity lib (append before after) session_id)
  unfolding project_activity new_activity_projector
  project_activity-Extends before after session_id =
      let start =
        project_from-Next session_id before new_activity_projector
          (record { tools = tt; open_item = λ h. cc }) in
      rw (project_activity, project_from-append session_id before after new_activity_projector)
        (project_from-Next session_id after _ start.coherent).extends
