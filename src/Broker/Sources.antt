-- ===== src/Broker/Sources.antt =====
-- internal/supervisor/events.go: the numbers of each source, and a broker that was closed.
use kanedias.Base.{
  ℕ, ◌+◌, ◌≡◌, refl, ◌∙◌, List, [], ◌∷◌, true, false, arith, if◌then◌else◌, u64, String,
  lookup-insert, str_eq, string_key,
}
use kanedias.Event.{EventEnvelope}
use kanedias.Broker.{source_boundary, number_source}
use kanedias.Broker.World.{
  World, Op, publishes_local, forwards, subscribes, unsubscribes, shuts, moves, publish,
  publish_local, forward, step, run, local_event,
}

publish_sources :
    (event : EventEnvelope) (w : World) → (publish event w).0.source_seq ≡ w.source_seq
unfolding publish
publish_sources event w = ground arith

publish_event :
    (event : EventEnvelope) (w : World)
    → (publish event w).1 ≡ record event { seq = u64 (w.next_seq + 1) }
unfolding publish
publish_event event w = ground arith

-- On an open broker `PublishLocal` returns the event with the next number of the broker and the
-- next number of its session, and advances the boundary of that session only.
pub publish_local_numbers :
    (session_id other kind : String) (payload : List ℕ) (w : World)
    → w.closed ≡ false
    → let (v, e) = publish_local session_id kind payload w in
      (e.seq ≡ u64 (w.next_seq + 1))
      × (e.source_seq ≡ u64 (source_boundary session_id w.broker + 1))
      × (e.payload ≡ payload)
      × (source_boundary other v.broker
          ≡ (if str_eq session_id other then e.source_seq else source_boundary other w.broker))
unfolding publish_local source_boundary
publish_local_numbers s o k p w live =
    let n = (number_source s w.broker).1 in
    let v : World = record w { broker = (number_source s w.broker).0 } in
    let event : EventEnvelope = record (local_event s k p) { source_seq = n } in
    ground (arith, publish_sources event v, publish_event event v, lookup-insert s o n w.source_seq)

-- `Forward` keeps the session, the source number, the kind and the payload, numbers the event anew
-- and leaves the boundaries.
pub forward_renumbers :
    (source : EventEnvelope) (w : World)
    → w.closed ≡ false
    → ((forward source w).1 ≡ record source { seq = u64 (w.next_seq + 1) })
      × ((forward source w).0.source_seq ≡ w.source_seq)
unfolding forward
forward_renumbers source w live =
    let e : EventEnvelope = record source { seq = 0 } in
    ground (arith, publish_sources e w, publish_event e w)

step-closed :
    (w : World) (op : Op)
    → w.closed ≡ true
    → ((step w op).closed ≡ true) × ((step w op).broker.ring ≡ w.ring) × ((step w op).log ≡ w.log)
unfolding step
step-closed w (publishes_local s k p) c = ground arith
step-closed w (forwards e) c = ground arith
step-closed w subscribes c = ground arith
step-closed w (unsubscribes id a) c = ground arith
step-closed w shuts c = ground arith
step-closed w (moves a action) c = ground arith

-- A closed broker stays closed, and no operation publishes or retains anything more.
pub run-closed :
    (w : World) (ops : List Op)
    → w.closed ≡ true
    → ((run w ops).closed ≡ true) × ((run w ops).ring ≡ w.ring) × ((run w ops).log ≡ w.log)
unfolding run
run-closed w [] c = (c, refl, refl)
run-closed w (op ∷ ops) c =
    let (c', r, l) = step-closed w op c in
    let (c'', r', l') = run-closed (step w op) ops c' in (c'', r' ∙ r, l' ∙ l)
