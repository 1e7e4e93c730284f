-- ===== src/Mailbox.antt =====
-- internal/eventmailbox/mailbox.go: a bounded queue between producers and one consumer.
-- The operations that run under the mailbox's lock. The goroutine `dispatch` and the interleaving
-- with it stand in Mailbox.System.
pub mod System
pub mod Send
pub mod Bounds
pub mod Order
pub mod Wake
pub mod Drain
mod Tests
use kanedias.Base.{
  ℕ, suc, ◌+◌, ◌-◌, Bool, true, false, ◌&&◌, ◌||◌, List, [], ◌∷◌, ◌++◌, Option, none, some, ltb,
  leb, ◌==◌, if◌then◌else◌, length, ℤ, is_negative, to_ℕ, Result, ok, err,
}

-- stateOpen, stateDraining, stateAborted
pub data State : Type 0 where
  opened draining aborted : State

-- The errors of `New` and of `Send`.
pub data Error : Type 0 where
  negative_limits no_limit negative_bytes closed full : Error

pub record Limits : Type 0 where
  pub max_events : ℤ
  pub max_bytes : ℤ

pub record Entry {ℓ} (A : Type ℓ) : Type ℓ where
  pub value : A
  pub bytes : ℕ

-- `New` refuses negative limits, so the limits are kept as natural numbers. `wake` is whether the
-- channel wake holds its one token. `abort_closes` and `finishes` count the times that the
-- channel abort, and the channels events and done, have been closed.
pub record Mailbox {ℓ} (A : Type ℓ) : Type ℓ where
  pub max_events : ℕ
  pub max_bytes : ℕ
  pub state : State
  pub queue : List (Entry A)
  pub retained_bytes : ℕ
  pub wake : Bool
  pub abort_closes : ℕ
  pub finishes : ℕ

abbrev pub is_opened : State → Bool
is_opened opened = true
is_opened _ = false

abbrev pub is_draining : State → Bool
is_draining draining = true
is_draining _ = false

abbrev pub is_aborted : State → Bool
is_aborted aborted = true
is_aborted _ = false

module _ {ℓ} {A : Type ℓ} where
  -- The mailbox that `New` builds from limits that it accepts.
  unfoldable pub empty : ℕ → ℕ → Mailbox A
  empty max_events max_bytes = record {
    max_events = max_events;
    max_bytes = max_bytes;
    state = opened;
    queue = [];
    retained_bytes = 0;
    wake = false;
    abort_closes = 0;
    finishes = 0;
  }

  unfoldable pub new : Limits → Result Error (Mailbox A)
  unfolding empty
  new limits =
      if is_negative limits.max_events || is_negative limits.max_bytes
      then err negative_limits
      else (if to_ℕ limits.max_events == 0 && to_ℕ limits.max_bytes == 0
          then err no_limit
          else ok (empty (to_ℕ limits.max_events) (to_ℕ limits.max_bytes)))

  unfoldable pub enqueue : A → ℕ → Mailbox A → Mailbox A
  enqueue value bytes m = record m {
    queue = m.queue ++ record { value = value; bytes = bytes } ∷ [];
    retained_bytes = m.retained_bytes + bytes;
  }

  -- The part of `Send` under the lock; `signal` follows it where it returns no error. The test
  -- retainedBytes > MaxBytes - mailbox.retainedBytes is written without the subtraction.
  unfoldable pub send : A → ℤ → Mailbox A → Mailbox A × Option Error
  unfolding enqueue
  send value retained m =
      if is_negative retained
      then (m, some negative_bytes)
      else (if is_opened m.state
          then (if ltb 0 m.max_events && leb m.max_events (length m.queue)
              then (m, some full)
              else (if ltb 0 m.max_bytes && ltb m.max_bytes (to_ℕ retained + m.retained_bytes)
                  then (m, some full)
                  else (enqueue value (to_ℕ retained) m, none)))
          else (m, some closed))

  -- The part of `Close` under the lock.
  unfoldable pub close : Mailbox A → Mailbox A
  close m = if is_opened m.state then record m { state = draining } else m

  unfoldable pub clear_queue : Mailbox A → Mailbox A
  clear_queue m = record m { queue = []; retained_bytes = 0 }

  -- The part of `Abort` under the lock.
  unfoldable pub abort : Mailbox A → Mailbox A
  unfolding clear_queue
  abort m =
      if is_aborted m.state
      then m
      else clear_queue (record m { state = aborted; abort_closes = suc m.abort_closes })

  -- A send on wake that is dropped where the channel holds its token already.
  unfoldable pub signal : Mailbox A → Mailbox A
  signal m = record m { wake = true }

  unfoldable pub finish : Mailbox A → Mailbox A
  finish m = record m { finishes = suc m.finishes }

  -- `delivered` in `dispatch`: the head leaves the queue.
  unfoldable pub take_head : Entry A → List (Entry A) → Mailbox A → Mailbox A
  take_head head rest m = record m { queue = rest; retained_bytes = m.retained_bytes - head.bytes }
