-- ===== src/Broker/Tests.antt =====
-- internal/supervisor/events.go on a small history.
use kanedias.Base.{
  ◌≡◌, refl, List, [], ◌∷◌, ◌++◌, true, false, arith, pos, ok, length, string_key, nat_key, insert,
}
use kanedias.Event.{EventEnvelope, seqs, retained_event_bytes}
use kanedias.Mailbox.{send}
use kanedias.Mailbox.System.{probes, send_step, act}
use kanedias.Broker.{EventBroker, EventBrokerOptions, new_event_broker_with_options, retain}
use kanedias.Broker.Ring.{Retains, retain-Retains, upto}
use kanedias.Broker.World.{
  Op, publishes_local, subscribes, shuts, moves, run, initial, publish_local, forward, step,
}
use kanedias.Broker.History.{Inv, run-initial-Inv, subscriber_sees_stretch, initial-Inv}
use kanedias.Broker.Sources.{publish_local_numbers, forward_renumbers, run-closed}

abbrev options : EventBrokerOptions
options = record { max_events = pos 2; max_bytes = pos 200 }

abbrev broker : EventBroker
broker = record {
  ring = [];
  ring_cap = 2;
  ring_bytes = 0;
  byte_cap = 200;
  mail_cap = 2;
  mail_byte_cap = 200;
  next_seq = 0;
  source_seq = [];
  next_sub_id = 0;
  subs = [];
  closed = false;
}

made : new_event_broker_with_options options ≡ ok broker
unfolding new_event_broker_with_options
made = refl

-- One event before the subscription, two after it; the consumer takes one of them.
abbrev ops : List Op
ops =
    publishes_local "a" "pi" []
    ∷ subscribes
    ∷ publishes_local "b" "pi" (1 ∷ 2 ∷ [])
    ∷ publishes_local "a" "pi" []
    ∷ moves 0 (probes true)
    ∷ []

sees :
    seqs (
      ((run (initial broker) ops).heap 0).replay
      ++ ((run (initial broker) ops).heap 0).system.received)
    ≡ 1 ∷ 2 ∷ []
unfolding run initial step insert send retained_event_bytes send_step act
sees = refl

retain-Retains_example :
    let r =
      retain
        (record { seq = 0; session_id = "a"; source_seq = 1; kind = "pi"; payload = [] })
        broker in
    Retains r.0 (r.1 ∷ [])
unfolding initial
retain-Retains_example =
    retain-Retains broker
      (record { seq = 0; session_id = "a"; source_seq = 1; kind = "pi"; payload = [] }) []
      (initial-Inv options broker made).retains

run-initial-Inv_example : Inv (run (initial broker) ops)
run-initial-Inv_example = run-initial-Inv options broker ops made (omega arith)

subscriber_sees_stretch_example :
    let w = run (initial broker) ops in
    (before : List EventEnvelope) × (after : List EventEnvelope) × (before
        ++ (((w.heap 0).replay ++ (w.heap 0).system.received) ++ after)
      ≡ w.log)
    × (seqs w.log ≡ upto (length w.log))
subscriber_sees_stretch_example = subscriber_sees_stretch options broker ops 0 made (omega arith)

publish_local_numbers_test : (publish_local "a" "pi" [] (initial broker)).1.seq ≡ 1
unfolding initial
publish_local_numbers_test = (publish_local_numbers "a" "b" "pi" [] (initial broker) refl).0

forward_renumbers_example :
    (forward
      (record { seq = 9; session_id = "a"; source_seq = 7; kind = "pi"; payload = [] })
      (initial broker)).0.source_seq
    ≡ []
unfolding initial
forward_renumbers_example =
    (forward_renumbers
      (record { seq = 9; session_id = "a"; source_seq = 7; kind = "pi"; payload = [] })
      (initial broker) refl).1

run-closed_test : (run (run (initial broker) (shuts ∷ [])) ops).log ≡ []
unfolding run initial step
run-closed_test = (run-closed (run (initial broker) (shuts ∷ [])) ops refl).2
