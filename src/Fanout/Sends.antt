-- ===== src/Fanout/Sends.antt =====
-- internal/manager/notify.go: what a revision that is published does to the mailboxes.
use kanedias.Base.{
  ℕ, suc, ◌≤◌, ◌<◌, ◌≡◌, refl, sym, ap, ◌∙◌, inl, inr, Bool, true, false, ◌==◌, ==_iff, List, [],
  ◌∷◌, ◌++◌, Option, none, some, if◌then◌else◌, if-cases, length, length-append, lookup, nat_key,
  Distinct, Entries, Lacks, lookup-Lacks, Entries-map, false_or, Bool-cases, arith,
}
use kanedias.Fanout.{
  ChangeMailbox, ChangeFanout, set_at, has_room, send, publish_to, publish, is_target,
}

-- A mailbox whose channel is closed at most once, as its flag says, and holds no more than its capacity.
pub record IsMailbox (mailbox_cap : ℕ) (m : ChangeMailbox) : Type 0 where
  pub closed_once : m.closings ≡ (if m.closed then 1 else 0)
  pub within : length m.updates ≤ mailbox_cap

-- A subscriber has a mailbox of its number that nothing is about to close.
pub record IsSubscriber (heap : ℕ → ChangeMailbox) (allocated : ℕ) (pending : ℕ → Bool) (id a : ℕ)
    : Type 0 where
  pub exists : a < allocated
  pub same_id : (heap a).id ≡ id
  pub not_closed : (heap a).closed ≡ false
  pub not_pending : pending a ≡ false

-- Nothing was sent on a closed channel, and what keeps it so.
pub record Inv (f : ChangeFanout) : Type 0 where
  pub no_panic : f.panics ≡ 0
  pub mailboxes : (a : ℕ) → IsMailbox f.mailbox_cap (f.heap a)
  pub each : Entries (IsSubscriber f.heap f.allocated f.pending) f.subscribers
  pub distinct : Distinct f.subscribers
  pub old : (a : ℕ) → f.pending a ≡ true → a < f.allocated

pub set_at-All :
    {A : Type 0} (P : A → Type 0) (f : ℕ → A) (a : ℕ) (x : A)
    → P x
    → ((b : ℕ) → P (f b))
    → (b : ℕ) → P (set_at f a x b)
set_at-All P f a x px all b = if-cases P (a == b) _ _ (λ _. px) (λ _. all b)

-- What is read of a mailbox is the same after a change that keeps it.
pub field-set_at :
    {B : Type 0} (g : ChangeMailbox → B) (heap : ℕ → ChangeMailbox) (a : ℕ) (m : ChangeMailbox)
    → g m ≡ g (heap a)
    → (b : ℕ) → g (set_at heap a m b) ≡ g (heap b)
field-set_at g heap a m same b =
    if-cases (λ x. g x ≡ g (heap b)) (a == b) _ _
      (λ e. same ∙ ap (λ c. g (heap c)) ((==_iff a b).0 e)) (λ _. refl)

pub pending-set_at :
    (pending : ℕ → Bool) (a b : ℕ) → (b == a) ≡ false → set_at pending a true b ≡ pending b
pending-set_at pending a b other =
    if-cases (λ x. x ≡ pending b) (a == b) _ _ (λ e. absurd (ground (arith, e, other))) (λ _. refl)

-- What `send` does to a fanout, whichever way its select goes.
pub record Sent (a : ℕ) (f g : ChangeFanout) : Type 0 where
  cap : g.mailbox_cap ≡ f.mailbox_cap
  allocated : g.allocated ≡ f.allocated
  ids : (b : ℕ) → (g.heap b).id ≡ (f.heap b).id
  flags : (b : ℕ) → (g.heap b).closed ≡ (f.heap b).closed
  others : (b : ℕ) → (b == a) ≡ false → g.pending b ≡ f.pending b
  kept : has_room f.mailbox_cap (f.heap a) ≡ true → g.pending a ≡ f.pending a
  old :
      a < f.allocated
      → ((b : ℕ) → f.pending b ≡ true → b < f.allocated)
      → (b : ℕ) → g.pending b ≡ true
      → b < f.allocated
  mailboxes :
      ((b : ℕ) → IsMailbox f.mailbox_cap (f.heap b)) → (b : ℕ) → IsMailbox f.mailbox_cap (g.heap b)
  panics : (f.heap a).closings ≡ 0 → g.panics ≡ f.panics

append-one : (xs : List ℕ) (x : ℕ) → length (xs ++ (x ∷ [])) ≡ suc (length xs)
append-one xs x = omega (arith, length-append xs (x ∷ []))

send-Sent : (revision a : ℕ) (f : ChangeFanout) → Sent a f (send revision a f)
unfolding send
send-Sent revision a f = elim (Bool-cases (has_room f.mailbox_cap (f.heap a))) [
  | inl room ↦ record {
    cap = refl;
    allocated = refl;
    ids = λ b. rw (room) (field-set_at (λ m. m.id) f.heap a _ refl b);
    flags = λ b. rw (room) (field-set_at (λ m. m.closed) f.heap a _ refl b);
    others = λ b _. rw (room) refl;
    kept = λ _. rw (room) refl;
    old = λ _ all b p. all b (ground (arith, p, room));
    mailboxes = λ all b. rw (room) (
        set_at-All (IsMailbox f.mailbox_cap) f.heap a _
          (record {
            closed_once = (all a).closed_once;
            within = ground (arith, room, append-one (f.heap a).updates revision);
          })
          all b);
    panics = λ none_closed. rw (none_closed) refl;
  }
  | inr full ↦ record {
    cap = refl;
    allocated = refl;
    ids = λ b. rw (full) refl;
    flags = λ b. rw (full) refl;
    others = λ b other. rw (full) (pending-set_at f.pending a b other);
    kept = λ room. absurd (ground (arith, room, full));
    old = λ below all b p. elim (Bool-cases (a == b)) [
      | inl same ↦ omega (arith, below, (==_iff a b).0 same)
      | inr other ↦ all b (ground (arith, p, full, other))
    ];
    mailboxes = λ all b. rw (full) (all b);
    panics = λ none_closed. rw (none_closed) refl;
  }
]

-- The subscribers after one with a number do not have its mailbox.
abbrev pub Others : ℕ → List (ℕ × ℕ) → Type 0
Others a = Entries (λ id b. (b == a) ≡ false)

pub others_lem :
    (f : ChangeFanout) (id a : ℕ) (subs : List (ℕ × ℕ))
    → (f.heap a).id ≡ id
    → Lacks id subs
    → Entries (IsSubscriber f.heap f.allocated f.pending) subs
    → Others a subs
others_lem f id a subs same lacks each =
    Entries-map (λ j b. (j == id) ≡ false) (IsSubscriber f.heap f.allocated f.pending)
      (λ j b. (b == a) ≡ false)
      (λ j b other s. elim (Bool-cases (b == a)) [
        | inl e ↦ absurd (
            ground
              (arith, other, sym s.same_id ∙ ap (λ c. (f.heap c).id) ((==_iff b a).0 e) ∙ same))
        | inr differs ↦ differs
      ])
      subs lacks each

Others-is_target : (a : ℕ) (subs : List (ℕ × ℕ)) → Others a subs → is_target a subs ≡ false
Others-is_target a [] h = refl
Others-is_target a ((id, b) ∷ subs) h = ground (arith, h.0, Others-is_target a subs h.1)

-- Subscribers whose mailboxes were not sent to stay subscribers.
module _ (f g : ChangeFanout) (a : ℕ) (sent : Sent a f g) where
  keeps :
      (id b : ℕ)
      → IsSubscriber f.heap f.allocated f.pending id b
      → g.pending b ≡ f.pending b
      → IsSubscriber g.heap g.allocated g.pending id b
  keeps id b s same = record {
    exists = rw (sent.allocated) s.exists;
    same_id = sent.ids b ∙ s.same_id;
    not_closed = sent.flags b ∙ s.not_closed;
    not_pending = same ∙ s.not_pending;
  }

  keeps-Others :
      (subs : List (ℕ × ℕ))
      → Others a subs
      → Entries (IsSubscriber f.heap f.allocated f.pending) subs
      → Entries (IsSubscriber g.heap g.allocated g.pending) subs
  keeps-Others subs others each =
      Entries-map (λ id b. (b == a) ≡ false) (IsSubscriber f.heap f.allocated f.pending)
        (IsSubscriber g.heap g.allocated g.pending)
        (λ id b other s. keeps id b s (sent.others b other)) subs others each

-- What the loop of `Publish` does to a fanout.
pub record Published (subs : List (ℕ × ℕ)) (f g : ChangeFanout) (kept : List (ℕ × ℕ)) : Type 0 where
  cap : g.mailbox_cap ≡ f.mailbox_cap
  allocated : g.allocated ≡ f.allocated
  ids : (b : ℕ) → (g.heap b).id ≡ (f.heap b).id
  flags : (b : ℕ) → (g.heap b).closed ≡ (f.heap b).closed
  others : (b : ℕ) → is_target b subs ≡ false → g.pending b ≡ f.pending b
  old : (b : ℕ) → g.pending b ≡ true → b < f.allocated
  mailboxes : (b : ℕ) → IsMailbox f.mailbox_cap (g.heap b)
  panics : g.panics ≡ f.panics
  each : Entries (IsSubscriber g.heap g.allocated g.pending) kept
  distinct : Distinct kept
  missing : (k : ℕ) → lookup k subs ≡ none → lookup k kept ≡ none

missed :
    (b : Bool) (a : ℕ) (o : Option ℕ) → (if b then some a else o) ≡ none → (b ≡ false) × (o ≡ none)
missed true a o h = cc
missed false a o h = (refl, h)

publish_to-Published :
    (revision : ℕ) (subs : List (ℕ × ℕ)) (f : ChangeFanout)
    → ((b : ℕ) → IsMailbox f.mailbox_cap (f.heap b))
    → ((b : ℕ) → f.pending b ≡ true → b < f.allocated)
    → Entries (IsSubscriber f.heap f.allocated f.pending) subs
    → Distinct subs
    → Published subs f (publish_to revision subs f).0 (publish_to revision subs f).1
unfolding publish_to lookup
publish_to-Published revision [] f mailboxes old each distinct = record {
  cap = refl;
  allocated = refl;
  ids = λ b. refl;
  flags = λ b. refl;
  others = λ b _. refl;
  old = old;
  mailboxes = mailboxes;
  panics = refl;
  each = tt;
  distinct = tt;
  missing = λ k h. h;
}
publish_to-Published revision ((id, a) ∷ subs) f mailboxes old each distinct =
    let g = send revision a f in
    let sent = send-Sent revision a f in
    let (s, each_rest) = each in
    let lacks = lookup-Lacks id subs distinct.0 in
    let others = others_lem f id a subs s.same_id lacks each_rest in
    let rest =
      publish_to-Published revision subs g (λ b. rw (sent.cap) (sent.mailboxes mailboxes b))
        (λ b p. rw (sent.allocated) (sent.old s.exists old b p))
        (keeps-Others f g a sent subs others each_rest) distinct.1 in
    let last = (publish_to revision subs g).0 in
    let head : has_room f.mailbox_cap (f.heap a) ≡ true
        → IsSubscriber last.heap last.allocated last.pending id a =
      λ room. record {
        exists = rw (rest.allocated, sent.allocated) s.exists;
        same_id = rest.ids a ∙ sent.ids a ∙ s.same_id;
        not_closed = rest.flags a ∙ sent.flags a ∙ s.not_closed;
        not_pending =
            rest.others a (Others-is_target a subs others) ∙ sent.kept room ∙ s.not_pending;
      } in
    record {
      cap = rest.cap ∙ sent.cap;
      allocated = rest.allocated ∙ sent.allocated;
      ids = λ b. rest.ids b ∙ sent.ids b;
      flags = λ b. rest.flags b ∙ sent.flags b;
      others = λ b untouched.
          let (not_head, not_rest) = false_or (a == b) (is_target b subs) untouched in
          rest.others b not_rest ∙ sent.others b (ground (arith, not_head));
      old = λ b p. rw⁻¹ (sent.allocated) (rest.old b p);
      mailboxes = λ b. rw⁻¹ (sent.cap) (rest.mailboxes b);
      panics =
          rest.panics
          ∙ sent.panics ((mailboxes a).closed_once ∙ ap (λ c. if c then 1 else 0) s.not_closed);
      each =
          if-cases (Entries (IsSubscriber last.heap last.allocated last.pending))
            (has_room f.mailbox_cap (f.heap a)) _ _ (λ room. (head room, rest.each))
            (λ _. rest.each);
      distinct =
          if-cases Distinct (has_room f.mailbox_cap (f.heap a)) _ _
            (λ room. (rest.missing id distinct.0, rest.distinct)) (λ _. rest.distinct);
      missing = λ k h.
          let (other, absent) = missed (id == k) a (lookup k subs) h in
          if-cases (λ (m : List (ℕ × ℕ)). lookup k m ≡ none) (has_room f.mailbox_cap (f.heap a)) _ _
            (λ _.
              ap (λ b. if b then some a else lookup k (publish_to revision subs g).1) other
              ∙ rest.missing k absent)
            (λ _. rest.missing k absent);
    }

pub publish-Inv : (revision : ℕ) (f : ChangeFanout) → Inv f → Inv (publish revision f)
unfolding publish
publish-Inv revision f inv =
    let done =
      publish_to-Published revision f.subscribers f inv.mailboxes inv.old inv.each inv.distinct in
    record {
      no_panic = done.panics ∙ inv.no_panic;
      mailboxes = λ b. rw (done.cap) (done.mailboxes b);
      each = done.each;
      distinct = done.distinct;
      old = λ b p. rw (done.allocated) (done.old b p);
    }
