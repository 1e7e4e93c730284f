-- ===== src/Children/Tests.antt =====
-- internal/supervisor/children.go on one child.
use kanedias.Base.{ℕ, ◌≡◌, refl, [], ◌∷◌, false, some, lookup, string_key}
use kanedias.Children.{
  ChildEntry, undecided, accepted, remove, get, claim_accepted, claim_cancelled,
  mark_event_stream_close_expected,
}
use kanedias.Children.Claims.{
  Decides, claims_accepted, claims_cancelled, expects_close, run, wins, wins_lem,
}
use kanedias.Children.Registry.{registry_lem}

abbrev child : ℕ → ChildEntry
child handle = record {
  handle = handle;
  id = "child-1";
  client = false;
  process = false;
  spawn_done = false;
  event_cancel = false;
  recovery = false;
  disposition = undecided;
  stream_err = false;
  event_close_expected = false;
}

raced : wins (child 0) (expects_close ∷ claims_accepted ∷ claims_cancelled ∷ []) ≡ accepted ∷ []
unfolding claim_accepted claim_cancelled mark_event_stream_close_expected
raced = refl

wins_lem_example :
    let ops = expects_close ∷ claims_accepted ∷ claims_cancelled ∷ [] in
    Decides undecided (run (child 0) ops).disposition (wins (child 0) ops)
wins_lem_example = wins_lem (child 0) (expects_close ∷ claims_accepted ∷ claims_cancelled ∷ [])

-- The cleanup of an earlier child of the same name.
registry_lem_test :
    get "child-1" (remove "child-1" 0 (record { entries = ("child-1", child 1) ∷ [] }))
    ≡ some (child 1)
unfolding get lookup
registry_lem_test =
    (registry_lem (child 0) "child-1" "child-1" 0
      (record { entries = ("child-1", child 1) ∷ [] })).1
