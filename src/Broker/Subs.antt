-- ===== src/Broker/Subs.antt =====
-- internal/supervisor/events.go: the map `subs` under the loops that change it.
-- As long as fewer than 2 ^ 64 subscriptions were made, the mailbox at address a has number a + 1.
use kanedias.Base.{
  ℕ, suc, ◌≡◌, refl, ◌<◌, List, [], ◌∷◌, Bool, true, false, not, ◌&&◌, ◌||◌, ◌==◌, none, some,
  arith, lookup, insert, erase, nat_key, if◌then◌else◌, Option-cases, inl, inr,
}
use kanedias.Event.{EventEnvelope}
use kanedias.Broker.World.{
  Slot, deliver_to, drop_subscriber, drop_subscribers, accepts, send_to, update,
}

-- Whether a mailbox is the target of a subscription.
abbrev pub has : ℕ → List (ℕ × ℕ) → Bool
has a [] = false
has a ((id, b) ∷ subs) = b == a || has a subs

-- The numbers go with the addresses, which lie below a bound and are distinct.
abbrev pub Paired : ℕ → List (ℕ × ℕ) → Type 0
Paired n [] = Unit
Paired n ((id, a) ∷ subs) = (id ≡ suc a) × (a < n) × (has a subs ≡ false) × Paired n subs

pub lookup-Paired :
    (n a : ℕ) (subs : List (ℕ × ℕ))
    → Paired n subs
    → lookup (suc a) subs ≡ (if has a subs then some a else none)
unfolding lookup
lookup-Paired n a [] p = refl
lookup-Paired n a ((id, b) ∷ subs) p = ground (arith, lookup-Paired n a subs p.3)

pub has-above : (n a : ℕ) (subs : List (ℕ × ℕ)) → Paired n subs → n ≡ a → has a subs ≡ false
has-above n a [] p h = refl
has-above n a ((id, b) ∷ subs) p h = ground (arith, has-above n a subs p.3 h)

pub has-erase :
    (n a b : ℕ) (subs : List (ℕ × ℕ))
    → Paired n subs
    → has a (erase (suc b) subs) ≡ (has a subs && not (b == a))
unfolding erase
has-erase n a b [] p = refl
has-erase n a b ((id, c) ∷ subs) p = ground (arith, has-erase n a b subs p.3)

erase-Paired : (n b : ℕ) (subs : List (ℕ × ℕ)) → Paired n subs → Paired n (erase (suc b) subs)
unfolding erase
erase-Paired n b [] p = tt
erase-Paired n b ((id, c) ∷ subs) p =
    ground (arith, erase-Paired n b subs p.3, has-erase n c b subs p.3)

lookup-Paired_id :
    (n id a : ℕ) (subs : List (ℕ × ℕ)) → Paired n subs → lookup id subs ≡ some a → id ≡ suc a
unfolding lookup
lookup-Paired_id n id a [] p h = cc
lookup-Paired_id n id a ((j, b) ∷ subs) p h = ground (arith, lookup-Paired_id n id a subs p.3)

pub drop_subscriber-Paired :
    (n id a : ℕ) (subs : List (ℕ × ℕ)) → Paired n subs → Paired n (drop_subscriber id a subs)
unfolding drop_subscriber
drop_subscriber-Paired n id a subs p = elim (Option-cases (lookup id subs)) [
  | inl absent ↦ rw (absent, drop_subscriber) p
  | inr (b, found) ↦
      rw (found, drop_subscriber)
        (ground (arith, lookup-Paired_id n id b subs p found, erase-Paired n a subs p))
]

pub has-drop_subscriber :
    (n a b : ℕ) (subs : List (ℕ × ℕ))
    → Paired n subs
    → has a (drop_subscriber (suc b) b subs) ≡ (has a subs && not (b == a))
unfolding drop_subscriber
has-drop_subscriber n a b subs p = ground (arith, lookup-Paired n b subs p, has-erase n a b subs p)

pub has-drop_subscriber_le :
    (n id a b : ℕ) (subs : List (ℕ × ℕ))
    → Paired n subs
    → has a (drop_subscriber id b subs) ≡ true
    → has a subs ≡ true
unfolding drop_subscriber
has-drop_subscriber_le n id a b subs p h =
    ground (arith, has-erase n a b subs p, lookup-Paired_id n id b subs p)

pub has-insert :
    (n a : ℕ) (subs : List (ℕ × ℕ))
    → Paired n subs
    → has a (insert (suc n) n subs) ≡ (has a subs || n == a)
unfolding insert
has-insert n a [] p = ground arith
has-insert n a ((id, b) ∷ subs) p = ground (arith, has-insert n a subs p.3)

Paired-suc : (n : ℕ) (subs : List (ℕ × ℕ)) → Paired n subs → Paired (suc n) subs
Paired-suc n [] p = tt
Paired-suc n ((id, a) ∷ subs) p = (p.0, omega arith, p.2, Paired-suc n subs p.3)

pub insert-Paired :
    (n : ℕ) (subs : List (ℕ × ℕ)) → Paired n subs → Paired (suc n) (insert (suc n) n subs)
unfolding insert
insert-Paired n [] p = ground arith
insert-Paired n ((id, a) ∷ subs) p =
    ground (arith, insert-Paired n subs p.3, has-insert n a subs p.3)

-- The loop of `deliver` sends to each subscriber's mailbox once.
pub deliver_to-heap :
    (n a : ℕ) (event : EventEnvelope) (subs : List (ℕ × ℕ)) (heap : ℕ → Slot)
    → Paired n subs
    → (deliver_to event subs heap).0 a ≡ (if has a subs then send_to event (heap a) else heap a)
unfolding deliver_to
deliver_to-heap n a event [] heap p = refl
deliver_to-heap n a event ((id, b) ∷ subs) heap p =
    ground (arith, deliver_to-heap n a event subs (update heap b (send_to event (heap b))) p.3)

-- It collects the subscribers whose mailbox refused the event.
pub deliver_to-overflowed :
    (n a : ℕ) (event : EventEnvelope) (subs : List (ℕ × ℕ)) (heap : ℕ → Slot)
    → Paired n subs
    → has a (deliver_to event subs heap).1 ≡ (has a subs && not (accepts event (heap a)))
unfolding deliver_to
deliver_to-overflowed n a event [] heap p = refl
deliver_to-overflowed n a event ((id, b) ∷ subs) heap p =
    ground
      (arith, deliver_to-overflowed n a event subs (update heap b (send_to event (heap b))) p.3)

pub overflowed-Paired :
    (n : ℕ) (event : EventEnvelope) (subs : List (ℕ × ℕ)) (heap : ℕ → Slot)
    → Paired n subs
    → Paired n (deliver_to event subs heap).1
unfolding deliver_to
overflowed-Paired n event [] heap p = tt
overflowed-Paired n event ((id, b) ∷ subs) heap p =
    let heap' = update heap b (send_to event (heap b)) in
    ground (
      arith,
      overflowed-Paired n event subs heap' p.3,
      deliver_to-overflowed n b event subs heap' p.3,
    )

-- Removing the overflowed subscribers removes exactly their mailboxes.
pub has-drop_subscribers :
    (n a : ℕ) (lost subs : List (ℕ × ℕ))
    → Paired n lost
    → Paired n subs
    → has a (drop_subscribers lost subs) ≡ (has a subs && not (has a lost))
unfolding drop_subscribers
has-drop_subscribers n a [] subs l p = ground arith
has-drop_subscribers n a ((id, b) ∷ lost) subs l p = rw l.0 (
    ground (
      arith,
      has-drop_subscribers n a lost (drop_subscriber (suc b) b subs) l.3
          (drop_subscriber-Paired n (suc b) b subs p),
      has-drop_subscriber n a b subs p,
    ))

pub drop_subscribers-Paired :
    (n : ℕ) (lost subs : List (ℕ × ℕ)) → Paired n subs → Paired n (drop_subscribers lost subs)
unfolding drop_subscribers
drop_subscribers-Paired n [] subs p = p
drop_subscribers-Paired n ((id, b) ∷ lost) subs p =
    drop_subscribers-Paired n lost (drop_subscriber id b subs)
      (drop_subscriber-Paired n id b subs p)
