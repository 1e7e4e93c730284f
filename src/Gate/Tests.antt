-- ===== src/Gate/Tests.antt =====
-- Runs of the gate of internal/supervisor/node.go.
use kanedias.Base.{◌≡◌, ◌≢◌, ◌↔◌, refl, true, [], ◌∷◌, ok}
use kanedias.Gate.{new_gate, admit, release, quiesce_rpc, is_quiet}
use kanedias.Gate.Quiet.{admission, end_of_call, quiescence, run, quiesce_rpc-run}

drained_test :
    (run
      (admission ∷ admission ∷ quiescence ∷ admission ∷ end_of_call ∷ end_of_call ∷ [])
      new_gate).active
    ≡ 0
unfolding new_gate admit release quiesce_rpc
drained_test = refl

quiesce_rpc-run_example :
    let g = run (admission ∷ admission ∷ end_of_call ∷ []) new_gate in
    let s = run (end_of_call ∷ admission ∷ []) (quiesce_rpc g).0 in
    ((is_quiet (quiesce_rpc g).1 s ≡ true) ↔ (s.active ≡ 0)) × ((admit s).1 ≢ ok tt)
quiesce_rpc-run_example =
    quiesce_rpc-run (admission ∷ admission ∷ end_of_call ∷ []) (end_of_call ∷ admission ∷ [])
