-- ===== src/Results/Tests.antt =====
-- internal/supervisor/result.go on one result of a writer.
use kanedias.Base.{◌≡◌, refl, [], ◌∷◌, true, none, some, String, ok}
use kanedias.Contract.{ChildKind}
use kanedias.Results.{TerminalResult, returns, new_result_cell, complete, wait, no_result}
use kanedias.Results.Cell.{Inv, run, run-new_result_cell-Inv, complete-wait, complete-ok_iff}

abbrev written : TerminalResult
written = record {
  read_result = none;
  write_result = some (record {
    kind = ChildKind.write;
    worker_type = "implementer";
    session_id = "child-1";
    repositories = [];
    summary = "done";
    verification = [];
  });
}

run-new_result_cell-Inv_test :
    Inv {E = String} (run new_result_cell ((no_result, some "lost") ∷ (written, none) ∷ []))
run-new_result_cell-Inv_test =
    run-new_result_cell-Inv ((no_result, some "lost") ∷ (written, none) ∷ [])

accepted : (complete {E = String} written none new_result_cell).1 ≡ ok tt
unfolding complete new_result_cell
accepted = refl

complete-wait_example :
    wait true
      (run (complete {E = String} written none new_result_cell).0 ((no_result, some "late") ∷ []))
    ≡ returns written none
complete-wait_example =
    complete-wait written none new_result_cell ((no_result, some "late") ∷ []) true accepted

complete-ok_iff_test : (complete {E = String} written none new_result_cell).1 ≡ ok tt
unfolding new_result_cell
complete-ok_iff_test = (complete-ok_iff written none new_result_cell).1 (refl, refl)
