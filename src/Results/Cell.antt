-- ===== src/Results/Cell.antt =====
-- internal/supervisor/result.go: one completion of a result cell counts, and its result is valid.
use kanedias.Base.{
  ◌≡◌, refl, ◌↔◌, inl, inr, List, [], ◌∷◌, Bool, true, false, Option, none, some, arith, ok, Result,
  if◌then◌else◌, Result-cases, if-cases,
}
use kanedias.Contract.{ChildKind}
use kanedias.Results.{
  ReadChildResult, WriteChildResult, TerminalResult, ResultCell, CellError, returns,
  validate_result, new_result_cell, commit, finish_complete, complete, wait,
}

module _ {E : Type 0} where
  -- The channel is closed once, when the cell is completed, and what the cell then holds is valid.
  pub record Inv (cell : ResultCell E) : Type 0 where
    pub closed : cell.done_closed ≡ (if cell.completed then 1 else 0)
    pub sound : cell.completed ≡ true → validate_result cell.error cell.result ≡ ok tt

  -- The second parts of calls of `Complete` in some order: their first parts only read.
  abbrev pub run : ResultCell E → List (TerminalResult × Option E) → ResultCell E
  run cell [] = cell
  run cell ((result, error) ∷ calls) = run (finish_complete result error cell).0 calls

  finish-Inv :
      (result : TerminalResult) (error : Option E) (cell : ResultCell E)
      → Inv cell
      → Inv (finish_complete result error cell).0
  unfolding finish_complete commit
  finish-Inv result error cell h = elim (Result-cases (validate_result error result)) [
    | inl (e, bad) ↦ rw (bad, finish_complete) h
    | inr (u, good) ↦
        rw (good, finish_complete)
          (if-cases (λ (p : ResultCell E × Result CellError (Unit {0})). Inv p.0) cell.completed _ _
            (λ _. h) (λ still. record { closed = ground (arith, h.closed); sound = λ _. good }))
  ]

  run-Inv :
      (cell : ResultCell E) (calls : List (TerminalResult × Option E))
      → Inv cell
      → Inv (run cell calls)
  run-Inv cell [] h = h
  run-Inv cell ((result, error) ∷ calls) h =
      run-Inv (finish_complete result error cell).0 calls (finish-Inv result error cell h)

  -- However calls of `Complete` overlap on a new cell, its channel is closed exactly if it is
  -- completed, never twice, and the result it then holds is valid for the error it then holds.
  pub run-new_result_cell-Inv :
      (calls : List (TerminalResult × Option E)) → Inv (run new_result_cell calls)
  unfolding new_result_cell
  run-new_result_cell-Inv calls =
      run-Inv new_result_cell calls (record { closed = refl; sound = λ h. absurd (ground arith) })

  run-completed :
      (cell : ResultCell E) (calls : List (TerminalResult × Option E))
      → cell.completed ≡ true
      → run cell calls ≡ cell
  unfolding finish_complete commit
  run-completed cell [] h = refl
  run-completed cell ((result, error) ∷ calls) h =
      let same : (finish_complete result error cell).0 ≡ cell = ground arith in
      rw same (run-completed cell calls h)

  -- Once a call of `Complete` has succeeded, every `Wait` returns its result and error, whatever
  -- other calls follow or overlap with it and whether or not the context of the `Wait` is done.
  pub complete-wait :
      (result : TerminalResult) (error : Option E) (cell : ResultCell E)
      (calls : List (TerminalResult × Option E)) (cancelled : Bool)
      → (complete result error cell).1 ≡ ok tt
      → wait cancelled (run (complete result error cell).0 calls) ≡ returns result error
  unfolding complete finish_complete commit wait
  complete-wait result error cell calls cancelled h =
      let over : (complete result error cell).0.completed ≡ true = ground arith in
      rw (run-completed (complete result error cell).0 calls over) (ground arith)

  -- Either an error and no result, or no error and a single result of its kind.
  abbrev pub IsTerminal : Option E → Option ReadChildResult → Option WriteChildResult → Type 0
  IsTerminal (some e) none none = Unit
  IsTerminal none (some r) none = r.kind ≡ ChildKind.read
  IsTerminal none none (some w) = w.kind ≡ ChildKind.write
  IsTerminal _ _ _ = ⊥

  -- `Complete` succeeds exactly on a cell that is not completed with either an error and no
  -- result, or no error and a single result, a read result of kind read or a write result of kind
  -- write.
  pub complete-ok_iff :
      (result : TerminalResult) (error : Option E) (cell : ResultCell E)
      → ((complete result error cell).1 ≡ ok tt)
        ↔ ((cell.completed ≡ false) × IsTerminal error result.read_result result.write_result)
  unfolding complete finish_complete commit validate_result
  complete-ok_iff result error cell = ground arith
