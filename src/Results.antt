-- ===== src/Results.antt =====
-- internal/supervisor/result.go: the terminal result of a child and the cell that holds it, with
-- the results of internal/supervisor/contract/types.go. A copy of a value is the value.
pub mod Cell
mod Tests
use kanedias.Base.{
  ℕ, zero, suc, Bool, true, false, not, ◌&&◌, ◌||◌, List, Option, none, some, String, Result, ok,
  err, ◌>>=◌, ◌>>◌, fail_if, if◌then◌else◌,
}
use kanedias.Contract.{ChildKind, Error, invalid}

pub record RepositoryHandoff : Type 0 where
  pub repository : String
  pub base_commit : String
  pub branch : String
  pub head_commit : String

pub record ReadChildResult : Type 0 where
  pub kind : ChildKind
  pub worker_type : String
  pub session_id : String
  pub output : String

pub record WriteChildResult : Type 0 where
  pub kind : ChildKind
  pub worker_type : String
  pub session_id : String
  pub repositories : List RepositoryHandoff
  pub summary : String
  pub verification : List String

abbrev pub is_read : ChildKind → Bool
is_read ChildKind.read = true
is_read _ = false

abbrev pub is_write : ChildKind → Bool
is_write ChildKind.write = true
is_write _ = false

abbrev pub validate_read : ReadChildResult → Result Error (Unit {0})
validate_read r = fail_if (not (is_read r.kind)) (invalid "read result kind must be read")

abbrev pub validate_write : WriteChildResult → Result Error (Unit {0})
validate_write r = fail_if (not (is_write r.kind)) (invalid "write result kind must be write")

pub record TerminalResult : Type 0 where
  pub read_result : Option ReadChildResult
  pub write_result : Option WriteChildResult

-- The errors of a cell: ErrResultAlreadyCompleted, and one for each message of `validate`.
pub data CellError : Type 0 where
  already_completed carries_result not_one_result : CellError
  invalid_result : Error → CellError

abbrev pub wrap : Result Error (Unit {0}) → Result CellError (Unit {0})
wrap (ok u) = ok tt
wrap (err e) = err (invalid_result e)

-- The tests of `validate` on a completion without an error.
abbrev pub validate_single :
    Option ReadChildResult → Option WriteChildResult → Result CellError (Unit {0})
validate_single (some r) none = wrap (validate_read r)
validate_single none (some w) = wrap (validate_write w)
validate_single _ _ = err not_one_result

-- The tests of `validate` on a completion with an error.
abbrev pub validate_absent :
    Option ReadChildResult → Option WriteChildResult → Result CellError (Unit {0})
validate_absent none none = ok tt
validate_absent _ _ = err carries_result

unfoldable pub validate_result {ℓ} :
    {E : Type ℓ} → Option E → TerminalResult → Result CellError (Unit {0})
validate_result (some e) result = validate_absent result.read_result result.write_result
validate_result none result = validate_single result.read_result result.write_result

-- `done_closed` counts how often the channel was closed: a second time panics.
pub record ResultCell (E : Type 0) : Type 0 where
  pub done_closed : ℕ
  pub completed : Bool
  pub result : TerminalResult
  pub error : Option E

-- What `Wait` does: it returns, returns the error of its context, or blocks.
pub data Waited (E : Type 0) : Type 0 where
  returns : TerminalResult → Option E → Waited E
  context_error : Waited E
  blocks : Waited E

abbrev pub no_result : TerminalResult
no_result = record { read_result = none; write_result = none }

module _ {E : Type 0} where
  unfoldable pub new_result_cell : ResultCell E
  new_result_cell = record { done_closed = 0; completed = false; result = no_result; error = none }

  -- The second critical section of `Complete`.
  unfoldable pub commit :
      TerminalResult → Option E → ResultCell E → ResultCell E × Result CellError (Unit {0})
  commit result error cell = if cell.completed then (cell, err already_completed) else (
    record { done_closed = suc cell.done_closed; completed = true; result = result; error = error },
    ok tt,
  )

  -- The part of `Complete` after its first critical section.
  unfoldable pub finish_complete :
      TerminalResult → Option E → ResultCell E → ResultCell E × Result CellError (Unit {0})
  unfolding validate_result commit
  finish_complete result error cell = elim (validate_result error result) [
    | err e ↦ (cell, err e)
    | ok u ↦ commit result error cell
  ]

  unfoldable pub complete :
      TerminalResult → Option E → ResultCell E → ResultCell E × Result CellError (Unit {0})
  unfolding finish_complete
  complete result error cell =
      if cell.completed then (cell, err already_completed) else finish_complete result error cell

  -- `cancelled` is whether the context is done.
  unfoldable pub wait : Bool → ResultCell E → Waited E
  wait cancelled cell = elim cell.done_closed [
    | zero ↦ if cancelled then context_error else blocks
    | suc n ↦ returns cell.result cell.error
  ]
