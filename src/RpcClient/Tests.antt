-- ===== src/RpcClient/Tests.antt =====
-- internal/supervisor/pirpc/client.go on one call.
use kanedias.Base.{
  ℕ, zero, suc, ◌≡◌, refl, [], ◌∷◌, false, some, arith, String, lookup, insert, string_key, nat_key,
}
use kanedias.Mailbox as Mailbox
use kanedias.Mailbox.{Mailbox}
use kanedias.Session.Rpc.{PiEvent}
use kanedias.RpcClient.{closed_pipe, failure, new_client, start_call, terminate, line}
use kanedias.RpcClient.Deliver.{Inv}
use kanedias.RpcClient.Calls.{Op, starts, reads, ends, run}
use kanedias.RpcClient.Runs.{run-new_client-Inv, waiting_call_is_answered}

-- Names for the first calls.
abbrev format : ℕ → String
format zero = "kanedias-0"
format (suc zero) = "kanedias-1"
format (suc (suc n)) = "kanedias"

abbrev mailbox : Mailbox PiEvent
mailbox = Mailbox.empty 8 1000

abbrev prompt : Op
prompt = starts (some "prompt") false 20

waits : lookup "kanedias-1" (run format (new_client 0 mailbox) (prompt ∷ [])).pending ≡ some 1
unfolding new_client start_call lookup insert
waits = refl

run-new_client-Inv_example : Inv format (
    run format
      (new_client 0 mailbox)
      (prompt ∷ reads (line (0 ∷ []) (some ("kanedias-1", "response"))) ∷ ends closed_pipe ∷ []))
run-new_client-Inv_example =
    run-new_client-Inv format 0 mailbox
      (prompt ∷ reads (line (0 ∷ []) (some ("kanedias-1", "response"))) ∷ ends closed_pipe ∷ [])
      (omega arith)

waiting_call_is_answered_example :
    lookup 1 (terminate closed_pipe (run format (new_client 0 mailbox) (prompt ∷ []))).results
    ≡ some (failure closed_pipe)
waiting_call_is_answered_example =
    (waiting_call_is_answered format 0 mailbox (prompt ∷ []) "kanedias-1" 1 1 [] closed_pipe
      (omega arith) waits).2
