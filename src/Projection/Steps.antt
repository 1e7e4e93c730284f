-- ===== src/Projection/Steps.antt =====
-- internal/manager/projection.go: the parts of Apply keep the projector coherent and only extend its items.
use kanedias.Base.{
  ℕ, ◌≡◌, refl, inl, inr, true, false, List, [], ◌∷◌, ◌++◌ as append, String, Bool-cases,
  string_key, Entries, Entries-map,
}
use kanedias.Projection.{ActivityItem, message_item}
use kanedias.Projection.Projector.{
  ActivityProjector, is_message, update_last, open_text, extend_text, complete_open_text, add_item,
  is_open_text, add_text, set_complete, new_item,
}
use kanedias.Projection.Later.{
  Later, Extends, Extends-refl, Extends-trans, Extends-append, Extends-update_last, IsToolAt,
  Extends-IsToolAt, LastOpen, LastOpen-append_other, LastOpen-append_new, LastOpen-update_last,
}

-- The map leads to tools, and the text that is open is the last message.
pub record Coherent (p : ActivityProjector) : Type 0 where
  pub tools : Entries (λ id k. IsToolAt k p.items) p.tools
  pub open_item : p.text_open ≡ true → LastOpen p.text_seq p.items

-- A projector that came after another.
pub record Next (p q : ActivityProjector) : Type 0 where
  pub extends : Extends p.items q.items
  pub coherent : Coherent q

pub Next-refl : (p : ActivityProjector) → Coherent p → Next p p
Next-refl p c = record { extends = Extends-refl p.items; coherent = c }

pub Next-trans : (p q r : ActivityProjector) → Next p q → Next q r → Next p r
Next-trans p q r h k = record {
  extends = Extends-trans p.items q.items r.items h.extends k.extends;
  coherent = k.coherent;
}

pub tools-Extends :
    (xs ys : List ActivityItem) (tools : List (String × ℕ))
    → Extends xs ys
    → Entries (λ id k. IsToolAt k xs) tools
    → Entries (λ id k. IsToolAt k ys) tools
tools-Extends xs ys tools e h =
    Entries-map (λ id k. IsToolAt k xs) (λ id k. IsToolAt k xs) (λ id k. IsToolAt k ys)
      (λ id k t u. Extends-IsToolAt k xs ys e t) tools h h

pub add_item-Next :
    (p : ActivityProjector) (z : ActivityItem)
    → is_message z ≡ false
    → Coherent p
    → Next p (add_item p z)
add_item-Next p z other c =
    let longer = Extends-append p.items (z ∷ []) in
    record {
      extends = longer;
      coherent = record {
        tools = tools-Extends p.items (append p.items (z ∷ [])) p.tools longer c.tools;
        open_item = λ o. LastOpen-append_other p.text_seq p.items z other (c.open_item o);
      };
    }

-- Changing the open text.
change_text :
    (p : ActivityProjector) (f : ActivityItem → ActivityItem)
    → ((x : ActivityItem) → x.complete ≡ false → Later x (f x))
    → p.text_open ≡ true
    → Coherent p
    → Extends p.items (update_last (is_open_text p.text_seq) f p.items)
change_text p f keep o c = Extends-update_last p.text_seq f keep p.items (c.open_item o)

pub open_text-Next : (seq : ℕ) (p : ActivityProjector) → Coherent p → Next p (open_text seq p)
unfolding open_text
open_text-Next seq p c = elim (Bool-cases p.text_open) [
  | inl o ↦ rw (o) (record {
    extends = Extends-refl p.items;
    coherent = record { tools = c.tools; open_item = λ _. c.open_item o };
  })
  | inr shut ↦
      let z = new_item seq message_item "Message" in
      let longer = Extends-append p.items (z ∷ []) in
      rw (shut) (record {
        extends = longer;
        coherent = record {
          tools = tools-Extends p.items (append p.items (z ∷ [])) p.tools longer c.tools;
          open_item = λ _. LastOpen-append_new seq p.items z (refl, (refl, refl));
        };
      })
]

Later-add_text :
    (delta : String) (x : ActivityItem) → x.complete ≡ false → Later x (add_text delta x)
Later-add_text delta x h = record {
  same_kind = refl;
  same_seq = refl;
  same_label = refl;
  stays_complete = λ c. c;
  frozen = λ c plain. cc;
}

Later-set_complete : (x : ActivityItem) → x.complete ≡ false → Later x (set_complete x)
Later-set_complete x h = record {
  same_kind = refl;
  same_seq = refl;
  same_label = refl;
  stays_complete = λ c. refl;
  frozen = λ c plain. cc;
}

pub extend_text-Next :
    (delta : String) (p : ActivityProjector)
    → p.text_open ≡ true
    → Coherent p
    → Next p (extend_text delta p)
unfolding extend_text
extend_text-Next delta p o c =
    let e = change_text p (add_text delta) (Later-add_text delta) o c in
    record {
      extends = e;
      coherent = record {
        tools = tools-Extends p.items _ p.tools e c.tools;
        open_item = λ _.
            LastOpen-update_last p.text_seq (add_text delta) (λ x h. h) p.items (c.open_item o);
      };
    }

pub complete_open_text-Next : (p : ActivityProjector) → Coherent p → Next p (complete_open_text p)
unfolding complete_open_text
complete_open_text-Next p c = elim (Bool-cases p.text_open) [
  | inl o ↦
      let e = change_text p set_complete Later-set_complete o c in
      rw (o) (record {
        extends = e;
        coherent = record {
          tools = tools-Extends p.items _ p.tools e c.tools;
          open_item = λ h. cc;
        };
      })
  | inr shut ↦ rw (shut) (record {
    extends = Extends-refl p.items;
    coherent = record { tools = c.tools; open_item = λ h. cc };
  })
]
