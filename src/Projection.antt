-- ===== src/Projection.antt =====
-- internal/manager/projection.go and ActivityItem of internal/manager/types.go: the events of a session
-- projected to the items that a browser shows. Display has the texts, Projector the state.
pub mod Display
pub mod Projector
pub mod Bounded
pub mod Cards
pub mod Later
pub mod Steps
pub mod Frozen
mod Tests
use kanedias.Base.{ℕ, Bool, true, false, List, Option, String}

-- The standard library's functions that are used: encoding/json, path.Ext and strings.ToLower. A text
-- that does not decode is `none`.
pub record ContentBlock : Type 0 where
  pub type : String
  pub text : String
  pub mime_type : String

pub record MessageEnd : Type 0 where
  pub role : String
  pub stop_reason : String
  pub error_message : String
  pub content : List ContentBlock

pub record ToolPayload : Type 0 where
  pub tool_call_id : String
  pub tool_name : String
  pub is_error : Bool
  pub args : List ℕ
  pub partial_result : List ℕ
  pub result : List ℕ

-- `content` is the array of content, if there is one; `field` is a raw field of an object.
pub record Library : Type 0 where
  pub pi_type : List ℕ → Option String
  pub message_update : List ℕ → Option (String × String)
  pub extension_message : List ℕ → String
  pub message_end : List ℕ → Option (Option MessageEnd)
  pub tool : List ℕ → Option ToolPayload
  pub indent : List ℕ → Option String
  pub text : List ℕ → String
  pub content : List ℕ → Option (List ContentBlock)
  pub field : String → List ℕ → Option (List ℕ)
  pub string_of : List ℕ → Option String
  pub strings_of : List ℕ → Option (List String)
  pub extension : String → String
  pub to_lower : String → String

pub data ItemKind : Type 0 where
  message_item extension_error_item event_item user_message_item model_error_item : ItemKind
  tool_item : ItemKind

pub data ToolStatus : Type 0 where
  no_status running_status done_status : ToolStatus

pub record ActivityItem : Type 0 where
  pub seq : ℕ
  pub kind : ItemKind
  pub label : String
  pub text : String
  pub image_count : ℕ
  pub tool_call_id : String
  pub tool_name : String
  pub status : ToolStatus
  pub is_error : Bool
  pub is_tool : Bool
  pub tool_summary : String
  pub tool_args : String
  pub tool_output : String
  pub tool_language : String
  pub tool_truncated : Bool
  pub tool_args_truncated : Bool
  pub tool_output_truncated : Bool
  pub complete : Bool

abbrev pub max_tool_display_bytes : ℕ
max_tool_display_bytes = 65536

abbrev pub max_tool_summary_runes : ℕ
max_tool_summary_runes = 160
