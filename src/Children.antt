-- ===== src/Children.antt =====
-- internal/supervisor/children.go: the direct children of a node and how the end of a child is decided.
-- The child process and its client are interfaces, so an entry only says whether it has them.
pub mod Claims
pub mod Registry
mod Tests
use kanedias.Base.{
  ℕ, Bool, true, false, not, ◌==◌, List, [], Option, none, some, String, if◌then◌else◌, lookup,
  insert, erase, string_key,
}

pub data ChildDisposition : Type 0 where
  undecided accepted cancelled : ChildDisposition

-- `handle` stands for the pointer; the client, the process, the cancel functions and the recovery
-- ticket are whether they are set.
pub record ChildEntry : Type 0 where
  pub handle : ℕ
  pub id : String
  pub client : Bool
  pub process : Bool
  pub spawn_done : Bool
  pub event_cancel : Bool
  pub recovery : Bool
  pub disposition : ChildDisposition
  pub stream_err : Bool
  pub event_close_expected : Bool

unfoldable pub mark_spawn_done : ChildEntry → ChildEntry
mark_spawn_done entry = record entry { spawn_done = true }

unfoldable pub set_process : ChildEntry → ChildEntry
unfolding mark_spawn_done
set_process entry = mark_spawn_done (record entry { process = true })

unfoldable pub set_recovery : ChildEntry → ChildEntry
set_recovery entry = record entry { recovery = true }

unfoldable pub set_client : ChildEntry → ChildEntry
set_client entry = record entry { client = true }

unfoldable pub set_event_forwarder : ChildEntry → ChildEntry
set_event_forwarder entry = record entry { event_cancel = true }

unfoldable pub set_stream_error : ChildEntry → ChildEntry
set_stream_error entry = record entry { stream_err = true }

abbrev pub is_undecided : ChildDisposition → Bool
is_undecided undecided = true
is_undecided _ = false

unfoldable pub claim_accepted : ChildEntry → ChildEntry × Bool
claim_accepted entry =
    if not (is_undecided entry.disposition)
    then (entry, false)
    else (record entry { disposition = accepted }, true)

unfoldable pub claim_cancelled : ChildEntry → ChildEntry × Bool
claim_cancelled entry =
    if not (is_undecided entry.disposition)
    then (entry, false)
    else (record entry { disposition = cancelled }, true)

unfoldable pub mark_event_stream_close_expected : ChildEntry → ChildEntry
mark_event_stream_close_expected entry = record entry { event_close_expected = true }

-- Whether the stream is cancelled is the second component.
unfoldable pub cancel_expected_event_stream : ChildEntry → ChildEntry × Bool
cancel_expected_event_stream entry =
    (record entry { event_close_expected = true }, entry.event_cancel)

-- childRegistry
pub record ChildRegistry : Type 0 where
  pub entries : List (String × ChildEntry)

unfoldable pub new_child_registry : ChildRegistry
new_child_registry = record { entries = [] }

-- The error of `add` is that of a duplicate.
unfoldable pub add : ChildEntry → ChildRegistry → ChildRegistry × Bool
add entry registry = elim (lookup entry.id registry.entries) [
  | some other ↦ (registry, false)
  | none ↦ (record { entries = insert entry.id entry registry.entries }, true)
]

unfoldable pub remove : String → ℕ → ChildRegistry → ChildRegistry
remove id expected registry = elim (lookup id registry.entries) [
  | none ↦ registry
  | some entry ↦
      if entry.handle == expected then record { entries = erase id registry.entries } else registry
]

unfoldable pub get : String → ChildRegistry → Option ChildEntry
get id registry = lookup id registry.entries
