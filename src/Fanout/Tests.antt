-- ===== src/Fanout/Tests.antt =====
-- internal/manager/notify.go: a subscriber that does not read is disconnected.
use kanedias.Base.{ℕ, ◌≡◌, refl, List, [], ◌∷◌, lookup, insert, erase, nat_key}
use kanedias.Fanout.{
  ChangeFanout, Act, subscribes, publishes, unsubscribes, closes, receives, act, run,
  new_change_fanout, subscribe, publish, publish_to, send, close_mailbox, unsubscribe,
}
use kanedias.Fanout.Sends.{IsMailbox}
use kanedias.Fanout.Channels.{run-new_change_fanout-IsMailbox}

abbrev acts : List Act
acts =
    subscribes
    ∷ subscribes
    ∷ publishes 1
    ∷ receives 0
    ∷ publishes 2
    ∷ closes 1
    ∷ publishes 3
    ∷ unsubscribes 1
    ∷ closes 1
    ∷ []

abbrev last : ChangeFanout
last = run (new_change_fanout 1) acts

slow_reader_test :
    (last.subscribers ≡ [])
    × ((last.heap 0).updates ≡ 2 ∷ [])
    × ((last.heap 1).updates ≡ 1 ∷ [])
    × ((last.heap 1).closings ≡ 1)
unfolding run act new_change_fanout subscribe publish publish_to send close_mailbox unsubscribe
    insert lookup erase
slow_reader_test = (refl, refl, refl, refl)

run-new_change_fanout-IsMailbox_example :
    (last.panics ≡ 0) × ((a : ℕ) → IsMailbox last.mailbox_cap (last.heap a))
run-new_change_fanout-IsMailbox_example = run-new_change_fanout-IsMailbox 1 acts
