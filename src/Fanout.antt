-- ===== src/Fanout.antt =====
-- internal/manager/notify.go: revisions sent to subscribers over channels. Mailboxes live at addresses, and
-- a step is a critical section: what a call closes after it leaves the mutex is pending.
pub mod Sends
pub mod Channels
mod Tests
use kanedias.Base.{
  ℕ, suc, ◌+◌, Bool, true, false, not, ◌&&◌, ◌||◌, ◌==◌, ltb, List, [], ◌∷◌, ◌++◌, Option, none,
  some, if◌then◌else◌, length, u64, lookup, insert, erase, nat_key,
}

-- `closings` counts the calls of close on the channel, `once` whether the subscription was closed.
pub record ChangeMailbox : Type 0 where
  pub id : ℕ
  pub updates : List ℕ
  pub closed : Bool
  pub closings : ℕ
  pub once : Bool

-- `panics` counts the sends on a closed channel.
pub record ChangeFanout : Type 0 where
  pub mailbox_cap : ℕ
  pub next_id : ℕ
  pub subscribers : List (ℕ × ℕ)
  pub heap : ℕ → ChangeMailbox
  pub allocated : ℕ
  pub pending : ℕ → Bool
  pub panics : ℕ

abbrev pub new_mailbox : ℕ → ChangeMailbox
new_mailbox id = record { id = id; updates = []; closed = false; closings = 0; once = false }

-- A capacity below 1 is 1.
unfoldable pub new_change_fanout : ℕ → ChangeFanout
new_change_fanout mailbox_cap = record {
  mailbox_cap = if ltb mailbox_cap 1 then 1 else mailbox_cap;
  next_id = 0;
  subscribers = [];
  heap = λ a. new_mailbox 0;
  allocated = 0;
  pending = λ a. false;
  panics = 0;
}

abbrev pub set_at {ℓ} : {A : Type ℓ} → (ℕ → A) → ℕ → A → ℕ → A
set_at f a x b = if a == b then x else f b

unfoldable pub subscribe : ChangeFanout → ChangeFanout
subscribe f =
    let id : ℕ = u64 (suc f.next_id) in
    record f {
      next_id = id;
      subscribers = insert id f.allocated f.subscribers;
      heap = set_at f.heap f.allocated (new_mailbox id);
      allocated = suc f.allocated;
    }

-- The select of `Publish`: the mailbox keeps its place if the channel has room.
abbrev pub has_room : ℕ → ChangeMailbox → Bool
has_room mailbox_cap m = ltb (length m.updates) mailbox_cap

unfoldable pub send : ℕ → ℕ → ChangeFanout → ChangeFanout
send revision a f =
    let m : ChangeMailbox = f.heap a in
    record f {
      heap =
          if has_room f.mailbox_cap m
          then set_at f.heap a (record m { updates = m.updates ++ (revision ∷ []) })
          else f.heap;
      pending = if has_room f.mailbox_cap m then f.pending else set_at f.pending a true;
      panics = if m.closings == 0 then f.panics else suc f.panics;
    }

-- The loop of `Publish`, with the subscribers that stay.
unfoldable pub publish_to : ℕ → List (ℕ × ℕ) → ChangeFanout → ChangeFanout × List (ℕ × ℕ)
unfolding send
publish_to revision [] f = (f, [])
publish_to revision ((id, a) ∷ subscribers) f =
    let rest = publish_to revision subscribers (send revision a f) in
    (rest.0, if has_room f.mailbox_cap (f.heap a) then (id, a) ∷ rest.1 else rest.1)

unfoldable pub publish : ℕ → ChangeFanout → ChangeFanout
unfolding publish_to
publish revision f =
    let sent = publish_to revision f.subscribers f in record (sent.0) { subscribers = sent.1 }

abbrev pub is_target : ℕ → List (ℕ × ℕ) → Bool
is_target a [] = false
is_target a ((id, b) ∷ subscribers) = b == a || is_target a subscribers

-- `Close`
unfoldable pub close_all : ChangeFanout → ChangeFanout
close_all f = record f { pending = λ a. f.pending a || is_target a f.subscribers; subscribers = [] }

abbrev pub is_mailbox : ℕ → Option ℕ → Bool
is_mailbox a none = false
is_mailbox a (some b) = b == a

-- The function that a subscription is closed with, under sync.Once.
unfoldable pub unsubscribe : ℕ → ChangeFanout → ChangeFanout
unsubscribe a f =
    let m : ChangeMailbox = f.heap a in
    if m.once then f else record f {
      heap = set_at f.heap a (record m { once = true });
      subscribers =
          if is_mailbox a (lookup m.id f.subscribers)
          then erase m.id f.subscribers
          else f.subscribers;
      pending = set_at f.pending a true;
    }

-- `changeMailbox.close`
unfoldable pub close_mailbox : ChangeMailbox → ChangeMailbox
close_mailbox m = record m {
  closed = true;
  closings = if m.closed then m.closings else suc m.closings;
}

-- A subscriber takes a revision from its channel.
abbrev pub without_first : List ℕ → List ℕ
without_first [] = []
without_first (revision ∷ updates) = updates

-- A pending close may run more than once here, which only adds runs.
pub data Act : Type 0 where
  subscribes closes_all : Act
  publishes unsubscribes closes receives : ℕ → Act

unfoldable pub act : ChangeFanout → Act → ChangeFanout
unfolding subscribe publish close_all unsubscribe close_mailbox
act f subscribes = subscribe f
act f closes_all = close_all f
act f (publishes revision) = publish revision f
act f (unsubscribes a) = if ltb a f.allocated then unsubscribe a f else f
act f (closes a) =
    if f.pending a then record f { heap = set_at f.heap a (close_mailbox (f.heap a)) } else f
act f (receives a) =
    let m : ChangeMailbox = f.heap a in
    record f { heap = set_at f.heap a (record m { updates = without_first m.updates }) }

unfoldable pub run : ChangeFanout → List Act → ChangeFanout
unfolding act
run f [] = f
run f (a ∷ acts) = run (act f a) acts
