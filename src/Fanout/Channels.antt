-- ===== src/Fanout/Channels.antt =====
-- internal/manager/notify.go: no revision is sent on a closed channel, and no channel is closed twice.
use kanedias.Base.{
  ℕ, suc, ◌≤◌, ◌<◌, ◌≡◌, refl, sym, ap, ◌∙◌, inl, inr, Bool, true, false, ◌||◌, ◌==◌, ==_iff, ltb,
  List, [], ◌∷◌, some, if◌then◌else◌, if-cases, length, u64, lookup, erase, nat_key, Distinct,
  Entries, lookup-Lacks, erase-Lacks, Entries-erase, Entries-insert, Entries-map, insert-Distinct,
  erase-Distinct, Bool-cases, arith,
}
use kanedias.Fanout.{
  ChangeMailbox, ChangeFanout, new_mailbox, new_change_fanout, set_at, subscribe, is_target,
  close_all, is_mailbox, unsubscribe, close_mailbox, without_first, Act, subscribes, closes_all,
  publishes, unsubscribes, closes, receives, act, run,
}
use kanedias.Fanout.Sends.{
  IsMailbox, IsSubscriber, Inv, set_at-All, field-set_at, pending-set_at, others_lem, Others,
  publish-Inv,
}

set_at-same : {A : Type 0} (f : ℕ → A) (a : ℕ) (x : A) → set_at f a x a ≡ x
set_at-same f a x = ap (λ b. if b then x else f a) ((==_iff a a).1 refl)

set_at-other : {A : Type 0} (f : ℕ → A) (a b : ℕ) (x : A) → (a == b) ≡ false → set_at f a x b ≡ f b
set_at-other f a b x other = ap (λ c. if c then x else f b) other

-- A subscriber whose mailbox is another one.
IsSubscriber-other :
    (heap : ℕ → ChangeMailbox) (n m : ℕ) (pending : ℕ → Bool) (a : ℕ) (x : ChangeMailbox) (id b : ℕ)
    → n ≤ m
    → (a == b) ≡ false
    → IsSubscriber heap n pending id b
    → IsSubscriber (set_at heap a x) m pending id b
IsSubscriber-other heap n m pending a x id b le other s =
    let same = set_at-other heap a b x other in
    record {
      exists = omega (arith, s.exists, le);
      same_id = ap (λ m. m.id) same ∙ s.same_id;
      not_closed = ap (λ m. m.closed) same ∙ s.not_closed;
      not_pending = s.not_pending;
    }

above : (n b : ℕ) → b < n → (n == b) ≡ false
above n b h = ground arith

or_false : (b c : Bool) → b ≡ false → (b || c) ≡ true → c ≡ true
or_false true c h k = cc
or_false false c h k = k

closes_once : (c : Bool) (n : ℕ) → n ≡ (if c then 1 else 0) → (if c then n else suc n) ≡ 1
closes_once true n h = h
closes_once false n h = omega (arith, h)

-- A mailbox that is pending is not one that is not.
apart : (f : ChangeFanout) (a b : ℕ) → f.pending a ≡ true → f.pending b ≡ false → (a == b) ≡ false
apart f a b waits free = elim (Bool-cases (a == b)) [
  | inl same ↦ absurd (ground (arith, waits, free, ap f.pending ((==_iff a b).0 same)))
  | inr other ↦ other
]

target_below :
    (f : ChangeFanout) (a : ℕ) (subs : List (ℕ × ℕ))
    → Entries (IsSubscriber f.heap f.allocated f.pending) subs
    → is_target a subs ≡ true
    → a < f.allocated
target_below f a [] each h = cc
target_below f a ((id, b) ∷ subs) each h = elim (Bool-cases (b == a)) [
  | inl same ↦ omega (arith, each.0.exists, (==_iff b a).0 same)
  | inr other ↦ target_below f a subs each.1 (or_false (b == a) _ other h)
]

subscribe-Inv : (f : ChangeFanout) → Inv f → Inv (subscribe f)
unfolding subscribe
subscribe-Inv f inv =
    let id = u64 (suc f.next_id) in
    let heap = set_at f.heap f.allocated (new_mailbox id) in
    let fresh : IsSubscriber heap (suc f.allocated) f.pending id f.allocated = record {
      exists = omega arith;
      same_id = ap (λ m. m.id) (set_at-same f.heap f.allocated (new_mailbox id));
      not_closed = ap (λ m. m.closed) (set_at-same f.heap f.allocated (new_mailbox id));
      not_pending = elim (Bool-cases (f.pending f.allocated)) [
        | inl waits ↦ absurd (omega (arith, inv.old f.allocated waits))
        | inr free ↦ free
      ];
    } in
    record {
      no_panic = inv.no_panic;
      mailboxes =
          set_at-All (IsMailbox f.mailbox_cap) f.heap f.allocated (new_mailbox id)
            (record { closed_once = refl; within = omega arith }) inv.mailboxes;
      each =
          Entries-insert (IsSubscriber heap (suc f.allocated) f.pending) id f.allocated
            f.subscribers fresh
            (Entries-map (IsSubscriber f.heap f.allocated f.pending)
              (IsSubscriber f.heap f.allocated f.pending)
              (IsSubscriber heap (suc f.allocated) f.pending)
              (λ j b s _.
                IsSubscriber-other f.heap f.allocated (suc f.allocated) f.pending f.allocated
                  (new_mailbox id) j b (omega arith) (above f.allocated b s.exists) s)
              f.subscribers inv.each inv.each);
      distinct = insert-Distinct id f.allocated f.subscribers inv.distinct;
      old = λ a p. omega (arith, inv.old a p);
    }

close_all-Inv : (f : ChangeFanout) → Inv f → Inv (close_all f)
unfolding close_all
close_all-Inv f inv = record {
  no_panic = inv.no_panic;
  mailboxes = inv.mailboxes;
  each = tt;
  distinct = tt;
  old = λ a p. elim (Bool-cases (f.pending a)) [
    | inl waits ↦ inv.old a waits
    | inr free ↦ target_below f a f.subscribers inv.each (or_false (f.pending a) _ free p)
  ];
}

close-Inv :
    (a : ℕ) (f : ChangeFanout)
    → f.pending a ≡ true
    → Inv f
    → Inv (record f { heap = set_at f.heap a (close_mailbox (f.heap a)) })
unfolding close_mailbox
close-Inv a f waits inv = record {
  no_panic = inv.no_panic;
  mailboxes =
      set_at-All (IsMailbox f.mailbox_cap) f.heap a (close_mailbox (f.heap a))
        (record {
          closed_once =
              closes_once (f.heap a).closed (f.heap a).closings (inv.mailboxes a).closed_once;
          within = (inv.mailboxes a).within;
        })
        inv.mailboxes;
  each =
      Entries-map (IsSubscriber f.heap f.allocated f.pending)
        (IsSubscriber f.heap f.allocated f.pending)
        (IsSubscriber (set_at f.heap a (close_mailbox (f.heap a))) f.allocated f.pending)
        (λ j b s _.
          IsSubscriber-other f.heap f.allocated f.allocated f.pending a (close_mailbox (f.heap a)) j
            b (omega arith) (apart f a b waits s.not_pending) s)
        f.subscribers inv.each inv.each;
  distinct = inv.distinct;
  old = inv.old;
}

-- Every entry of a map is found under its number.
Entries-found : (m : List (ℕ × ℕ)) → Distinct m → Entries (λ k v. lookup k m ≡ some v) m
unfolding lookup
Entries-found [] d = tt
Entries-found ((k, v) ∷ m) d = (
  ap (λ b. if b then some v else lookup k m) ((==_iff k k).1 refl),
  Entries-map (λ j w. (j == k) ≡ false) (λ j w. lookup j m ≡ some w)
      (λ j w. lookup j ((k, v) ∷ m) ≡ some w)
      (λ j w other found. ap (λ b. if b then some v else lookup j m) (swapped j k other) ∙ found) m
      (lookup-Lacks k m d.0) (Entries-found m d.1),
)
  where
    swapped : (j k : ℕ) → (j == k) ≡ false → (k == j) ≡ false
    swapped j k h = ground arith

-- A subscription that is closed, or was closed by then, is not a subscriber.
unsubscribed-Others :
    (f : ChangeFanout) (a : ℕ)
    → Inv f
    → Others a (
        if is_mailbox a (lookup (f.heap a).id f.subscribers)
        then erase (f.heap a).id f.subscribers
        else f.subscribers)
unsubscribed-Others f a inv =
    let id = (f.heap a).id in
    if-cases (Others a) (is_mailbox a (lookup id f.subscribers)) _ _
      (λ _.
        others_lem f id a (erase id f.subscribers) refl (erase-Lacks id f.subscribers)
          (Entries-erase (IsSubscriber f.heap f.allocated f.pending) id f.subscribers inv.each))
      (λ gone.
        Entries-map (IsSubscriber f.heap f.allocated f.pending)
          (λ k v. lookup k f.subscribers ≡ some v) (λ k v. (v == a) ≡ false)
          (λ k v s found. elim (Bool-cases (v == a)) [
            | inl same ↦
                let is_a = (==_iff v a).0 same in
                let number : k ≡ id = sym s.same_id ∙ ap (λ c. (f.heap c).id) is_a in
                absurd (
                  ground (arith, gone, same, sym (ap (λ i. lookup i f.subscribers) number) ∙ found))
            | inr other ↦ other
          ])
          f.subscribers inv.each (Entries-found f.subscribers inv.distinct))

unsubscribe-Inv : (a : ℕ) (f : ChangeFanout) → a < f.allocated → Inv f → Inv (unsubscribe a f)
unfolding unsubscribe
unsubscribe-Inv a f below inv =
    let m : ChangeMailbox = record (f.heap a) { once = true } in
    let subs =
      if is_mailbox a (lookup (f.heap a).id f.subscribers)
      then erase (f.heap a).id f.subscribers
      else f.subscribers in
    if-cases Inv (f.heap a).once _ _ (λ _. inv)
      (λ _. record {
        no_panic = inv.no_panic;
        mailboxes =
            set_at-All (IsMailbox f.mailbox_cap) f.heap a m
              (record {
                closed_once = (inv.mailboxes a).closed_once;
                within = (inv.mailboxes a).within;
              })
              inv.mailboxes;
        each =
            Entries-map (λ j b. (b == a) ≡ false) (IsSubscriber f.heap f.allocated f.pending)
              (IsSubscriber (set_at f.heap a m) f.allocated (set_at f.pending a true))
              (λ j b other s. record {
                exists = s.exists;
                same_id = field-set_at (λ x. x.id) f.heap a m refl b ∙ s.same_id;
                not_closed = field-set_at (λ x. x.closed) f.heap a m refl b ∙ s.not_closed;
                not_pending = pending-set_at f.pending a b other ∙ s.not_pending;
              })
              subs (unsubscribed-Others f a inv)
              (if-cases (Entries (IsSubscriber f.heap f.allocated f.pending))
                (is_mailbox a (lookup (f.heap a).id f.subscribers)) _ _
                (λ _.
                  Entries-erase (IsSubscriber f.heap f.allocated f.pending) (f.heap a).id
                    f.subscribers inv.each)
                (λ _. inv.each));
        distinct =
            if-cases Distinct (is_mailbox a (lookup (f.heap a).id f.subscribers)) _ _
              (λ _. erase-Distinct (f.heap a).id f.subscribers inv.distinct) (λ _. inv.distinct);
        old = λ b p. elim (Bool-cases (a == b)) [
          | inl same ↦ omega (arith, below, (==_iff a b).0 same)
          | inr other ↦ inv.old b (sym (set_at-other f.pending a b true other) ∙ p)
        ];
      })

without_first_le : (xs : List ℕ) → length (without_first xs) ≤ length xs
without_first_le [] = omega arith
without_first_le (x ∷ xs) = omega arith

receive-Inv :
    (a : ℕ) (f : ChangeFanout)
    → Inv f
    → Inv (record f {
      heap = set_at f.heap a (record (f.heap a) { updates = without_first (f.heap a).updates });
    })
receive-Inv a f inv =
    let m : ChangeMailbox = record (f.heap a) { updates = without_first (f.heap a).updates } in
    record {
      no_panic = inv.no_panic;
      mailboxes =
          set_at-All (IsMailbox f.mailbox_cap) f.heap a m
            (record {
              closed_once = (inv.mailboxes a).closed_once;
              within = omega (arith, (inv.mailboxes a).within, without_first_le (f.heap a).updates);
            })
            inv.mailboxes;
      each =
          Entries-map (IsSubscriber f.heap f.allocated f.pending)
            (IsSubscriber f.heap f.allocated f.pending)
            (IsSubscriber (set_at f.heap a m) f.allocated f.pending)
            (λ j b s _. record {
              exists = s.exists;
              same_id = field-set_at (λ x. x.id) f.heap a m refl b ∙ s.same_id;
              not_closed = field-set_at (λ x. x.closed) f.heap a m refl b ∙ s.not_closed;
              not_pending = s.not_pending;
            })
            f.subscribers inv.each inv.each;
      distinct = inv.distinct;
      old = inv.old;
    }

act-Inv : (f : ChangeFanout) (a : Act) → Inv f → Inv (act f a)
unfolding act
act-Inv f subscribes inv = subscribe-Inv f inv
act-Inv f closes_all inv = close_all-Inv f inv
act-Inv f (publishes revision) inv = publish-Inv revision f inv
act-Inv f (unsubscribes a) inv =
    if-cases Inv (ltb a f.allocated) _ _ (λ below. unsubscribe-Inv a f (ground (arith, below)) inv)
      (λ _. inv)
act-Inv f (closes a) inv =
    if-cases Inv (f.pending a) _ _ (λ waits. close-Inv a f waits inv) (λ _. inv)
act-Inv f (receives a) inv = receive-Inv a f inv

run-Inv : (f : ChangeFanout) (acts : List Act) → Inv f → Inv (run f acts)
unfolding run
run-Inv f [] inv = inv
run-Inv f (a ∷ acts) inv = run-Inv (act f a) acts (act-Inv f a inv)

-- Whatever the order of subscriptions, publications, closes and receipts, no revision is sent on a closed
-- channel, every channel is closed at most once and only if its flag says so, and it holds no more
-- revisions than its capacity.
pub run-new_change_fanout-IsMailbox :
    (mailbox_cap : ℕ) (acts : List Act)
    → ((run (new_change_fanout mailbox_cap) acts).panics ≡ 0)
      × ((a : ℕ)
          → IsMailbox
              (run (new_change_fanout mailbox_cap) acts).mailbox_cap
              ((run (new_change_fanout mailbox_cap) acts).heap a))
unfolding new_change_fanout
run-new_change_fanout-IsMailbox mailbox_cap acts =
    let inv = run-Inv (new_change_fanout mailbox_cap) acts (record {
      no_panic = refl;
      mailboxes = λ a. record { closed_once = refl; within = omega arith };
      each = tt;
      distinct = tt;
      old = λ a p. cc;
    }) in
    (inv.no_panic, inv.mailboxes)
