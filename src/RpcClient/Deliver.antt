-- ===== src/RpcClient/Deliver.antt =====
-- internal/supervisor/pirpc/client.go: no result is sent to a channel that has one.
use mathlib.Core.Path.{subst}
use kanedias.Base.{
  ℕ, suc, ◌≤◌, ◌<◌, ◌≡◌, refl, ◌∙◌, sym, ap, List, [], ◌∷◌, Bool, true, false, none, some, arith,
  String, str_eq, str_eq_iff, lookup, insert, lookup-insert, string_key, nat_key, if◌then◌else◌,
  ==_iff, ◌==◌, Entries, Lacks, Distinct, Entries-map, lookup-Lacks, Bool-cases, inl, inr, if-cases,
}
use kanedias.RpcClient.{Client, ClientError, CallResult, failure, deliver, deliver_all, terminate}

module _ (format : ℕ → String) where
  -- A call waits under the identifier of its number, and its channel is empty.
  abbrev pub Waits : List (ℕ × CallResult) → String → ℕ → Type 0
  Waits results id call = (id ≡ format call) × (lookup call results ≡ none)

  -- What a client keeps, of the parts that calls are made of: no channel is overfull, the client's own
  -- channel is closed once if it is closed, when no call waits any more, the identifiers differ, and
  -- what waits or has a result has a number that was given out.
  pub record Keeps (counter done_closed : ℕ) (closed overfull : Bool) (pending : List (String × ℕ))
      (results : List (ℕ × CallResult)) : Type 0 where
    pub calm : overfull ≡ false
    pub once : done_closed ≡ (if closed then 1 else 0)
    pub swept : closed ≡ true → pending ≡ []
    pub distinct : Distinct pending
    pub waits : Entries (Waits results) pending
    pub numbered : Entries (λ id call. call ≤ counter) pending
    pub issued : (call : ℕ) → counter < call → lookup call results ≡ none

  abbrev pub Inv : Client → Type 0
  Inv c = Keeps c.counter c.done_closed c.closed c.overfull c.pending c.results

  -- Another result leaves the calls of other identifiers waiting.
  Waits-insert :
      (results : List (ℕ × CallResult)) (r : CallResult) (call : ℕ) (id : String)
      → id ≡ format call
      → (j : String) (n : ℕ) → Waits results j n
      → str_eq j id ≡ false
      → Waits (insert call r results) j n
  Waits-insert results r call id own j n w other = elim (Bool-cases (call == n)) [
    | inl same ↦
        let eq : call ≡ n = (==_iff call n).0 same in
        let clash : j ≡ id = w.0 ∙ ap format (sym eq) ∙ sym own in
        absurd (ground (arith, str_eq_iff j id))
    | inr differ ↦ (w.0, ground (arith, lookup-insert call n r results))
  ]

  -- After a result, the calls that do not have its identifier still wait.
  pub deliver-Waits :
      (results : List (ℕ × CallResult)) (r : CallResult) (call : ℕ) (id : String)
      (pending : List (String × ℕ))
      → id ≡ format call
      → Entries (Waits results) pending
      → Lacks id pending
      → Entries (Waits (insert call r results)) pending
  deliver-Waits results r call id pending own w lacks =
      Entries-map (Waits results) (λ j n. str_eq j id ≡ false) (Waits (insert call r results))
        (Waits-insert results r call id own) pending w lacks

  -- What the loop of `terminate` leaves: every call of the map has the result, no channel is
  -- overfull, and no other result changes.
  pub record Swept (last : ℕ) (pending : List (String × ℕ)) (r : CallResult) (c d : Client)
      : Type 0 where
    pub still_calm : d.overfull ≡ false
    pub answered : Entries (λ id call. lookup call d.results ≡ some r) pending
    pub kept :
        (call : ℕ) (old : CallResult)
        → lookup call c.results ≡ some old
        → lookup call d.results ≡ some old
    pub beyond : (call : ℕ) → last < call → lookup call d.results ≡ lookup call c.results
    pub rest : d ≡ record c { results = d.results }

  pub deliver_fresh :
      (call : ℕ) (r : CallResult) (c : Client)
      → lookup call c.results ≡ none
      → deliver call r c ≡ record c { results = insert call r c.results }
  unfolding deliver
  deliver_fresh call r c h = ground arith

  pub deliver_all-Swept :
      (last : ℕ) (pending : List (String × ℕ)) (r : CallResult) (c : Client)
      → c.overfull ≡ false
      → Distinct pending
      → Entries (Waits c.results) pending
      → Entries (λ id call. call ≤ last) pending
      → Swept last pending r c (deliver_all pending r c)
  unfolding deliver_all
  deliver_all-Swept last [] r c calm distinct waits bound = record {
    still_calm = calm;
    answered = tt;
    kept = λ call old h. h;
    beyond = λ call h. refl;
    rest = refl;
  }
  deliver_all-Swept last ((id, call) ∷ pending) r c calm distinct waits bound =
      let next : Client = record c { results = insert call r c.results } in
      let (here, others) = waits in
      let s =
        deliver_all-Swept last pending r next calm distinct.1
          (deliver-Waits c.results r call id pending here.0 others
            (lookup-Lacks id pending distinct.0))
          bound.1 in
      rw (deliver_fresh call r c here.1) (record {
        still_calm = s.still_calm;
        answered =
            (s.kept call r (ground (arith, lookup-insert call call r c.results)), s.answered);
        kept = λ j old h. s.kept j old (ground (arith, lookup-insert call j r c.results));
        beyond = λ j h. s.beyond j h ∙ ground (arith, lookup-insert call j r c.results, bound.0);
        rest = s.rest;
      })

  -- The client that `terminate` sweeps.
  abbrev pub ended : ClientError → Client → Client
  ended e c = record c {
    closed = true;
    error = some e;
    pending = [];
    done_closed = suc c.done_closed;
  }

  -- `terminate` answers every call that waits with its error.
  pub terminate-Swept :
      (e : ClientError) (c : Client)
      → Inv c
      → c.closed ≡ false
      → Swept c.counter c.pending (failure e) (ended e c) (terminate e c)
  unfolding terminate
  terminate-Swept e c h on =
      if-cases (Swept c.counter c.pending (failure e) (ended e c)) c.closed _ _ (λ over. cc)
        (λ _.
          deliver_all-Swept c.counter c.pending (failure e) (ended e c) h.calm h.distinct h.waits
            h.numbered)

  pub terminate-Inv : (e : ClientError) (c : Client) → Inv c → Inv (terminate e c)
  unfolding terminate
  terminate-Inv e c h =
      if-cases Inv c.closed _ _ (λ _. h)
        (λ on.
          let s =
            deliver_all-Swept c.counter c.pending (failure e) (ended e c) h.calm h.distinct h.waits
              h.numbered in
          subst Inv (sym s.rest) (record {
            calm = h.calm;
            once = ground (arith, h.once);
            swept = λ _. refl;
            distinct = tt;
            waits = tt;
            numbered = tt;
            issued = λ call new. s.beyond call new ∙ h.issued call new;
          }))
