-- ===== src/Broker.antt =====
-- internal/supervisor/events.go: the event broker, a bounded ring with replay and live subscribers.
-- Each operation runs under publishMu, so it is one step here; between two operations the
-- mailboxes move by their own actions. `Subscription.Close` takes only the state lock.
pub mod Ring
pub mod World
pub mod Subs
pub mod Delivery
pub mod History
pub mod Sources
mod Tests
use kanedias.Base.{
  ℕ, zero, suc, ◌+◌, ◌-◌, Bool, true, false, ◌&&◌, ◌||◌, List, [], ◌∷◌, ◌++◌, Option, none, some,
  ltb, ◌==◌, if◌then◌else◌, length, ℤ, is_negative, to_ℕ, Result, ok, err, u64, String, lookup,
  insert, string_key,
}
use kanedias.Event.{EventEnvelope, retained_event_bytes}

-- `subs` maps a subscription's number to the address of its mailbox.
pub record EventBroker : Type 0 where
  pub ring : List EventEnvelope
  pub ring_cap : ℕ
  pub ring_bytes : ℕ
  pub byte_cap : ℕ
  pub mail_cap : ℕ
  pub mail_byte_cap : ℕ
  pub next_seq : ℕ
  pub source_seq : List (String × ℕ)
  pub next_sub_id : ℕ
  pub subs : List (ℕ × ℕ)
  pub closed : Bool

pub record EventBrokerOptions : Type 0 where
  pub max_events : ℤ
  pub max_bytes : ℤ

pub data OptionsError : Type 0 where
  negative_events negative_bytes no_limit : OptionsError

-- Negative capacities are raised to zero.
unfoldable pub new_event_broker_with_byte_capacity : ℤ → ℤ → ℤ → EventBroker
new_event_broker_with_byte_capacity ring_capacity mailbox_capacity byte_capacity = record {
  ring = [];
  ring_cap = to_ℕ ring_capacity;
  ring_bytes = 0;
  byte_cap = to_ℕ byte_capacity;
  mail_cap = to_ℕ mailbox_capacity;
  mail_byte_cap = to_ℕ byte_capacity;
  next_seq = 0;
  source_seq = [];
  next_sub_id = 0;
  subs = [];
  closed = false;
}

unfoldable pub new_event_broker_with_options : EventBrokerOptions → Result OptionsError EventBroker
unfolding new_event_broker_with_byte_capacity
new_event_broker_with_options options =
    if is_negative options.max_events
    then err negative_events
    else (if is_negative options.max_bytes
        then err negative_bytes
        else (if to_ℕ options.max_events == 0 && to_ℕ options.max_bytes == 0
            then err no_limit
            else ok (
                new_event_broker_with_byte_capacity options.max_events options.max_events
                  options.max_bytes)))

-- The condition of the eviction loop.
abbrev pub is_over : ℕ → ℕ → ℕ → ℕ → Bool
is_over ring_cap byte_cap count bytes =
    (ltb 0 ring_cap && ltb ring_cap count) || (ltb 0 byte_cap && ltb byte_cap bytes)

-- The eviction loop. Go would panic on `ring[0]` where the ring is empty and the loop goes on.
unfoldable pub evict : ℕ → ℕ → List EventEnvelope → ℕ → List EventEnvelope × ℕ
evict ring_cap byte_cap [] bytes = ([], bytes)
evict ring_cap byte_cap (oldest ∷ ring) bytes =
    let rest = evict ring_cap byte_cap ring (bytes - retained_event_bytes oldest) in
    if is_over ring_cap byte_cap (suc (length ring)) bytes then rest else (oldest ∷ ring, bytes)

-- `retainLocked`, with the event that it numbers.
unfoldable pub retain : EventEnvelope → EventBroker → EventBroker × EventEnvelope
unfolding evict
retain event broker =
    let seq = u64 (broker.next_seq + 1) in
    let numbered : EventEnvelope = record event { seq = seq } in
    if ltb 0 broker.ring_cap || ltb 0 broker.byte_cap
    then (let kept =
          evict broker.ring_cap broker.byte_cap (broker.ring ++ numbered ∷ [])
            (broker.ring_bytes + retained_event_bytes numbered) in
        (record broker { next_seq = seq; ring = kept.0; ring_bytes = kept.1 }, numbered))
    else (record broker { next_seq = seq }, numbered)

-- sourceSeq[sessionID], which is zero where there is no entry.
abbrev pub last_source_seq : String → EventBroker → ℕ
last_source_seq session_id broker = elim (lookup session_id broker.source_seq) [
  | none ↦ 0
  | some n ↦ n
]

unfoldable pub source_boundary : String → EventBroker → ℕ
source_boundary session_id broker = last_source_seq session_id broker

-- sourceSeq[sessionID]++, with the new number.
unfoldable pub number_source : String → EventBroker → EventBroker × ℕ
number_source session_id broker =
    let n = u64 (last_source_seq session_id broker + 1) in
    (record broker { source_seq = insert session_id n broker.source_seq }, n)
