-- ===== src/Projection/Later.antt =====
-- internal/manager/projection.go: how a list of items may change, and the item of the open text.
use kanedias.Base.{
  ℕ, zero, suc, ==_iff, ◌≡◌, refl, ◌∙◌, ap, ◌⊎◌, inl, inr, Bool, true, false, ◌||◌, List, [], ◌∷◌,
  ◌++◌ as append, arith,
}
use kanedias.Projection.{ActivityItem, tool_item}
use kanedias.Projection.Projector.{is_message, any_item, update_last, update_at, is_open_text}

abbrev pub is_tool_item : ActivityItem → Bool
is_tool_item item = elim item.kind [ tool_item ↦ true | _ ↦ false ]

-- An item keeps its kind, number and label, stays complete, and if it is complete and shows no tool it
-- is the same item.
pub record Later (x y : ActivityItem) : Type 0 where
  pub same_kind : y.kind ≡ x.kind
  pub same_seq : y.seq ≡ x.seq
  pub same_label : y.label ≡ x.label
  pub stays_complete : x.complete ≡ true → y.complete ≡ true
  pub frozen : x.complete ≡ true → is_tool_item x ≡ false → y ≡ x

-- Items that are later than those of a list, and then more.
abbrev pub Extends : List ActivityItem → List ActivityItem → Type 0
Extends [] ys = Unit
Extends (x ∷ xs) [] = ⊥
Extends (x ∷ xs) (y ∷ ys) = Later x y × Extends xs ys

pub Later-refl : (x : ActivityItem) → Later x x
Later-refl x = record {
  same_kind = refl;
  same_seq = refl;
  same_label = refl;
  stays_complete = λ h. h;
  frozen = λ h k. refl;
}

Later-trans : (x y z : ActivityItem) → Later x y → Later y z → Later x z
Later-trans x y z h k = record {
  same_kind = k.same_kind ∙ h.same_kind;
  same_seq = k.same_seq ∙ h.same_seq;
  same_label = k.same_label ∙ h.same_label;
  stays_complete = λ c. k.stays_complete (h.stays_complete c);
  frozen = λ c plain.
      k.frozen (h.stays_complete c) (ap is_tool_item (h.frozen c plain) ∙ plain) ∙ h.frozen c plain;
}

pub Extends-refl : (xs : List ActivityItem) → Extends xs xs
Extends-refl [] = tt
Extends-refl (x ∷ xs) = (Later-refl x, Extends-refl xs)

pub Extends-trans : (xs ys zs : List ActivityItem) → Extends xs ys → Extends ys zs → Extends xs zs
Extends-trans [] ys zs h k = tt
Extends-trans (x ∷ xs) [] zs h k = absurd h
Extends-trans (x ∷ xs) (y ∷ ys) [] h k = absurd k
Extends-trans (x ∷ xs) (y ∷ ys) (z ∷ zs) h k =
    (Later-trans x y z h.0 k.0, Extends-trans xs ys zs h.1 k.1)

pub Extends-append : (xs ys : List ActivityItem) → Extends xs (append xs ys)
Extends-append [] ys = tt
Extends-append (x ∷ xs) ys = (Later-refl x, Extends-append xs ys)

-- The item at an index shows a tool.
abbrev pub IsToolAt : ℕ → List ActivityItem → Type 0
IsToolAt k [] = ⊥
IsToolAt zero (x ∷ xs) = is_tool_item x ≡ true
IsToolAt (suc k) (x ∷ xs) = IsToolAt k xs

pub Extends-IsToolAt :
    (k : ℕ) (xs ys : List ActivityItem) → Extends xs ys → IsToolAt k xs → IsToolAt k ys
Extends-IsToolAt k [] ys h t = absurd t
Extends-IsToolAt k (x ∷ xs) [] h t = absurd h
Extends-IsToolAt zero (x ∷ xs) (y ∷ ys) h t = kind_tool x y h.0.same_kind ∙ t
  where
    kind_tool : (x y : ActivityItem) → y.kind ≡ x.kind → is_tool_item y ≡ is_tool_item x
    kind_tool x y e = rw e refl
Extends-IsToolAt (suc k) (x ∷ xs) (y ∷ ys) h t = Extends-IsToolAt k xs ys h.1 t

pub Extends-update_at :
    (k : ℕ) (f : ActivityItem → ActivityItem)
    → ((x : ActivityItem) → is_tool_item x ≡ true → Later x (f x))
    → (xs : List ActivityItem) → IsToolAt k xs
    → Extends xs (update_at k f xs)
unfolding update_at
Extends-update_at zero f keep [] t = absurd t
Extends-update_at (suc k) f keep [] t = absurd t
Extends-update_at zero f keep (x ∷ xs) t = (keep x t, Extends-refl xs)
Extends-update_at (suc k) f keep (x ∷ xs) t = (Later-refl x, Extends-update_at k f keep xs t)

abbrev pub IsOpen : ℕ → ActivityItem → Type 0
IsOpen seq x = (is_message x ≡ true) × ((x.seq ≡ seq) × (x.complete ≡ false))

-- The last message is the open text, with its number.
abbrev pub LastOpen : ℕ → List ActivityItem → Type 0
LastOpen seq [] = ⊥
LastOpen seq (x ∷ xs) = LastOpen seq xs ⊎ ((any_item is_message xs ≡ false) × IsOpen seq x)

any_item-append :
    (p : ActivityItem → Bool) (xs : List ActivityItem) (z : ActivityItem)
    → p z ≡ false
    → any_item p (append xs (z ∷ [])) ≡ any_item p xs
any_item-append p [] z h = rw h refl
any_item-append p (x ∷ xs) z h = rw (any_item-append p xs z h) refl

pub LastOpen-append_other :
    (seq : ℕ) (xs : List ActivityItem) (z : ActivityItem)
    → is_message z ≡ false
    → LastOpen seq xs
    → LastOpen seq (append xs (z ∷ []))
LastOpen-append_other seq [] z other h = absurd h
LastOpen-append_other seq (x ∷ xs) z other (inl h) = inl (LastOpen-append_other seq xs z other h)
LastOpen-append_other seq (x ∷ xs) z other (inr h) =
    inr (any_item-append is_message xs z other ∙ h.0, h.1)

pub LastOpen-append_new :
    (seq : ℕ) (xs : List ActivityItem) (z : ActivityItem)
    → IsOpen seq z
    → LastOpen seq (append xs (z ∷ []))
LastOpen-append_new seq [] z h = inr (refl, h)
LastOpen-append_new seq (x ∷ xs) z h = inl (LastOpen-append_new seq xs z h)

any_item-update_at :
    (p : ActivityItem → Bool) (k : ℕ) (f : ActivityItem → ActivityItem)
    → ((x : ActivityItem) → p (f x) ≡ p x)
    → (xs : List ActivityItem) → any_item p (update_at k f xs) ≡ any_item p xs
unfolding update_at
any_item-update_at p zero f keep [] = refl
any_item-update_at p (suc k) f keep [] = refl
any_item-update_at p zero f keep (x ∷ xs) = ap (λ b. b || any_item p xs) (keep x)
any_item-update_at p (suc k) f keep (x ∷ xs) = ap (λ b. p x || b) (any_item-update_at p k f keep xs)

tool-is_message : (x : ActivityItem) → is_tool_item x ≡ true → is_message x ≡ true → ⊥
tool-is_message x t m = ground (arith, t, m)

pub LastOpen-update_at :
    (seq k : ℕ) (f : ActivityItem → ActivityItem)
    → ((x : ActivityItem) → is_message (f x) ≡ is_message x)
    → (xs : List ActivityItem) → IsToolAt k xs
    → LastOpen seq xs
    → LastOpen seq (update_at k f xs)
unfolding update_at
LastOpen-update_at seq zero f keep [] t h = absurd h
LastOpen-update_at seq (suc k) f keep [] t h = absurd h
LastOpen-update_at seq zero f keep (x ∷ xs) t (inl h) = inl h
LastOpen-update_at seq zero f keep (x ∷ xs) t (inr h) = absurd (tool-is_message x t h.1.0)
LastOpen-update_at seq (suc k) f keep (x ∷ xs) t (inl h) =
    inl (LastOpen-update_at seq k f keep xs t h)
LastOpen-update_at seq (suc k) f keep (x ∷ xs) t (inr h) =
    inr (any_item-update_at is_message k f keep xs ∙ h.0, h.1)

IsOpen-is_open_text : (seq : ℕ) (x : ActivityItem) → IsOpen seq x → is_open_text seq x ≡ true
IsOpen-is_open_text seq x h = rw (h.0, (==_iff x.seq seq).1 h.1.0) refl

LastOpen-any_item :
    (seq : ℕ) (xs : List ActivityItem) → LastOpen seq xs → any_item (is_open_text seq) xs ≡ true
LastOpen-any_item seq [] h = absurd h
LastOpen-any_item seq (x ∷ xs) (inl h) = ground (arith, LastOpen-any_item seq xs h)
LastOpen-any_item seq (x ∷ xs) (inr h) = rw (IsOpen-is_open_text seq x h.1) refl

any_item-is_message :
    (seq : ℕ) (xs : List ActivityItem)
    → any_item is_message xs ≡ false
    → any_item (is_open_text seq) xs ≡ false
any_item-is_message seq [] h = refl
any_item-is_message seq (x ∷ xs) h = ground (arith, h, any_item-is_message seq xs)

-- The search from the end changes the open text and nothing else.
pub Extends-update_last :
    (seq : ℕ) (f : ActivityItem → ActivityItem)
    → ((x : ActivityItem) → x.complete ≡ false → Later x (f x))
    → (xs : List ActivityItem) → LastOpen seq xs
    → Extends xs (update_last (is_open_text seq) f xs)
unfolding update_last
Extends-update_last seq f keep [] h = absurd h
Extends-update_last seq f keep (x ∷ xs) (inl h) =
    rw (LastOpen-any_item seq xs h) (Later-refl x, Extends-update_last seq f keep xs h)
Extends-update_last seq f keep (x ∷ xs) (inr h) =
    rw (any_item-is_message seq xs h.0, IsOpen-is_open_text seq x h.1)
      (keep x h.1.1.1, Extends-refl xs)

pub LastOpen-update_last :
    (seq : ℕ) (f : ActivityItem → ActivityItem)
    → ((x : ActivityItem) → IsOpen seq x → IsOpen seq (f x))
    → (xs : List ActivityItem) → LastOpen seq xs
    → LastOpen seq (update_last (is_open_text seq) f xs)
unfolding update_last
LastOpen-update_last seq f keep [] h = absurd h
LastOpen-update_last seq f keep (x ∷ xs) (inl h) =
    rw (LastOpen-any_item seq xs h) (inl (LastOpen-update_last seq f keep xs h))
LastOpen-update_last seq f keep (x ∷ xs) (inr h) =
    rw (any_item-is_message seq xs h.0, IsOpen-is_open_text seq x h.1) (inr (h.0, keep x h.1))
