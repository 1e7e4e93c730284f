-- ===== src/Children/Claims.antt =====
-- internal/supervisor/children.go: acceptance and cancellation race for a child, and one wins.
use kanedias.Base.{◌≡◌, ◌⊎◌, List, [], ◌∷◌, arith, if◌then◌else◌}
use kanedias.Children.{
  ChildDisposition, undecided, accepted, cancelled, ChildEntry, set_process, mark_spawn_done,
  set_recovery, set_client, set_event_forwarder, set_stream_error, claim_accepted, claim_cancelled,
  mark_event_stream_close_expected, cancel_expected_event_stream,
}

-- Every operation on an entry that changes it.
pub data Op : Type 0 where
  sets_process marks_spawn_done sets_recovery sets_client sets_forwarder sets_stream_error : Op
  claims_accepted claims_cancelled expects_close cancels_stream : Op

abbrev pub step : ChildEntry → Op → ChildEntry
step e sets_process = set_process e
step e marks_spawn_done = mark_spawn_done e
step e sets_recovery = set_recovery e
step e sets_client = set_client e
step e sets_forwarder = set_event_forwarder e
step e sets_stream_error = set_stream_error e
step e claims_accepted = (claim_accepted e).0
step e claims_cancelled = (claim_cancelled e).0
step e expects_close = mark_event_stream_close_expected e
step e cancels_stream = (cancel_expected_event_stream e).0

-- The claim that an operation wins, before those that are won later.
abbrev pub won : ChildEntry → Op → List ChildDisposition → List ChildDisposition
won e claims_accepted later = if (claim_accepted e).1 then accepted ∷ later else later
won e claims_cancelled later = if (claim_cancelled e).1 then cancelled ∷ later else later
won e _ later = later

-- The claims that are won, in order, and the entry at the end.
abbrev pub run : ChildEntry → List Op → ChildEntry
run e [] = e
run e (op ∷ ops) = run (step e op) ops

abbrev pub wins : ChildEntry → List Op → List ChildDisposition
wins e [] = []
wins e (op ∷ ops) = won e op (wins (step e op) ops)

-- No claim is won and the child stays undecided, or one is won, which is then the disposition.
abbrev pub Decides : ChildDisposition → ChildDisposition → List ChildDisposition → Type 0
Decides undecided last claims =
    ((claims ≡ []) × (last ≡ undecided))
    ⊎ ((claims ≡ accepted ∷ []) × (last ≡ accepted))
    ⊎ ((claims ≡ cancelled ∷ []) × (last ≡ cancelled))
Decides first last claims = (claims ≡ []) × (last ≡ first)

-- Under every interleaving of operations on a child that nobody has claimed, at most one claim is
-- won, by an acceptance or by a cancellation, and the child ends undecided if there is none and with
-- the disposition of the winner if there is one; a child that is claimed keeps its disposition, and
-- no claim is won.
pub wins_lem :
    (e : ChildEntry) (ops : List Op) → Decides e.disposition (run e ops).disposition (wins e ops)
unfolding claim_accepted claim_cancelled set_process mark_spawn_done set_recovery set_client
    set_event_forwarder set_stream_error mark_event_stream_close_expected
    cancel_expected_event_stream
wins_lem e [] = ground arith
wins_lem e (sets_process ∷ ops) = wins_lem (set_process e) ops
wins_lem e (marks_spawn_done ∷ ops) = wins_lem (mark_spawn_done e) ops
wins_lem e (sets_recovery ∷ ops) = wins_lem (set_recovery e) ops
wins_lem e (sets_client ∷ ops) = wins_lem (set_client e) ops
wins_lem e (sets_forwarder ∷ ops) = wins_lem (set_event_forwarder e) ops
wins_lem e (sets_stream_error ∷ ops) = wins_lem (set_stream_error e) ops
wins_lem e (expects_close ∷ ops) = wins_lem (mark_event_stream_close_expected e) ops
wins_lem e (cancels_stream ∷ ops) = wins_lem (cancel_expected_event_stream e).0 ops
wins_lem e (claims_accepted ∷ ops) = ground (arith, wins_lem (claim_accepted e).0 ops)
wins_lem e (claims_cancelled ∷ ops) = ground (arith, wins_lem (claim_cancelled e).0 ops)
