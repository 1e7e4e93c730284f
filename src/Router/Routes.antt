-- ===== src/Router/Routes.antt =====
-- internal/supervisor/router.go: to which child a request goes.
use kanedias.Base.{
  ◌≡◌, refl, ◌⊎◌, inl, inr, true, false, List, [], ◌∷◌, Option, none, some, String, Result, ok, err,
  lookup, string_key, if-cases, All,
}
use kanedias.Tree.{NodeSnapshot}
use kanedias.Router.{
  DescendantClient, Entry, RouteError, child_unavailable, not_found, own_error, registry_snapshot,
  contains_session, try_snapshot, try_child, search_children, direct_client, from_direct,
  descendant_for,
}

-- A child that has no client, or whose client shows a tree without the session.
abbrev pub Lacks : String → Entry → Type 0
Lacks target entry =
    (entry.client ≡ none)
    ⊎ ((client : DescendantClient) × (shown : NodeSnapshot) × ((entry.client ≡ some client)
          × ((client.snapshot ≡ ok shown) × (contains_session shown target ≡ false))))

-- A child that has a client which gives no snapshot.
abbrev pub Fails : Entry → RouteError → Type 0
Fails entry e =
    (client : DescendantClient) × (text : String) × ((entry.client ≡ some client)
      × ((client.snapshot ≡ err text) × (e ≡ child_unavailable entry.id (some text))))

-- A child whose client shows a tree with the session.
abbrev pub Shows : String → Entry → DescendantClient → Type 0
Shows target entry client =
    (entry.client ≡ some client)
    × ((shown : NodeSnapshot) × ((client.snapshot ≡ ok shown)
          × (contains_session shown target ≡ true)))

abbrev pub NotShown : String → Entry → Type 0
NotShown target entry = Lacks target entry ⊎ ((e : RouteError) × Fails entry e)

-- The first child in a list that shows the session.
abbrev pub FirstShown : String → List Entry → DescendantClient → Type 0
FirstShown target [] client = ⊥
FirstShown target (entry ∷ entries) client =
    Shows target entry client ⊎ (NotShown target entry × FirstShown target entries client)

-- The first child in a list that fails, where none shows the session.
abbrev pub FirstFailed : String → List Entry → RouteError → Type 0
FirstFailed target [] e = ⊥
FirstFailed target (entry ∷ entries) e =
    (Fails entry e × All (NotShown target) entries)
    ⊎ (Lacks target entry × FirstFailed target entries e)

-- What the result of a search says of the children.
abbrev pub Outcome : String → List Entry → Result RouteError DescendantClient → Type 0
Outcome target entries (ok client) = FirstShown target entries client
Outcome target entries (err not_found) = All (Lacks target) entries
Outcome target entries (err e) = FirstFailed target entries e

-- The same after a child has failed.
abbrev OutcomeAfter : String → RouteError → List Entry → Result RouteError DescendantClient → Type 0
OutcomeAfter target first entries (ok client) = FirstShown target entries client
OutcomeAfter target first entries (err e) = (e ≡ first) × All (NotShown target) entries

module _ (target : String) where
  after-step :
      (first : RouteError) (entry : Entry) (entries : List Entry)
      (r : Result RouteError DescendantClient)
      → NotShown target entry
      → OutcomeAfter target first entries r
      → OutcomeAfter target first (entry ∷ entries) r
  after-step first entry entries (ok client) n h = inr (n, h)
  after-step first entry entries (err e) n h = (h.0, (n, h.1))

  lacks-step :
      (entry : Entry) (entries : List Entry) (r : Result RouteError DescendantClient)
      → Lacks target entry
      → Outcome target entries r
      → Outcome target (entry ∷ entries) r
  lacks-step entry entries (ok client) n h = inr (inl n, h)
  lacks-step entry entries (err not_found) n h = (n, h)
  lacks-step entry entries (err (child_unavailable id t)) n h = inr (n, h)
  lacks-step entry entries (err (own_error t)) n h = inr (n, h)

  fails-step :
      (entry : Entry) (entries : List Entry) (id : String) (t : Option String)
      (r : Result RouteError DescendantClient)
      → Fails entry (child_unavailable id t)
      → OutcomeAfter target (child_unavailable id t) entries r
      → Outcome target (entry ∷ entries) r
  fails-step entry entries id t (ok client) f h = inr (inr (child_unavailable id t, f), h)
  fails-step entry entries id t (err not_found) f h = cc
  fails-step entry entries id t (err (child_unavailable j u)) f h = inl (rw h.0 f, h.1)
  fails-step entry entries id t (err (own_error u)) f h = cc

  after-snapshot :
      (first : RouteError) (entry : Entry) (entries : List Entry) (client : DescendantClient)
      (rest : Option RouteError → Result RouteError DescendantClient)
      (r : Result String NodeSnapshot)
      → OutcomeAfter target first entries (rest (some first))
      → entry.client ≡ some client
      → client.snapshot ≡ r
      → OutcomeAfter target first
          (entry ∷ entries)
          (try_snapshot target (some first) entry rest client r)
  after-snapshot first entry entries client rest (err e) later has gives =
      after-step first entry entries (rest (some first))
        (inr (child_unavailable entry.id (some e), (client, e, (has, (gives, refl))))) later
  after-snapshot first entry entries client rest (ok shown) later has gives =
      if-cases (OutcomeAfter target first (entry ∷ entries)) (contains_session shown target) _ _
        (λ there. inl (has, (shown, (gives, there))))
        (λ absent.
          after-step first entry entries (rest (some first))
            (inl (inr (client, shown, (has, (gives, absent))))) later)

  after-child :
      (first : RouteError) (entry : Entry) (entries : List Entry)
      (rest : Option RouteError → Result RouteError DescendantClient) (o : Option DescendantClient)
      → OutcomeAfter target first entries (rest (some first))
      → entry.client ≡ o
      → OutcomeAfter target first (entry ∷ entries) (try_child target (some first) entry rest o)
  after-child first entry entries rest none later has =
      after-step first entry entries (rest (some first)) (inl (inl has)) later
  after-child first entry entries rest (some client) later has =
      after-snapshot first entry entries client rest client.snapshot later has refl

  search-OutcomeAfter :
      (first : RouteError) (entries : List Entry)
      → OutcomeAfter target first entries (search_children target (some first) entries)
  unfolding search_children
  search-OutcomeAfter first [] = (refl, tt)
  search-OutcomeAfter first (entry ∷ entries) =
      after-child first entry entries (λ now. search_children target now entries) entry.client
        (search-OutcomeAfter first entries) refl

  first-snapshot :
      (entry : Entry) (entries : List Entry) (client : DescendantClient)
      (rest : Option RouteError → Result RouteError DescendantClient)
      (r : Result String NodeSnapshot)
      → Outcome target entries (rest none)
      → ((first : RouteError) → OutcomeAfter target first entries (rest (some first)))
      → entry.client ≡ some client
      → client.snapshot ≡ r
      → Outcome target (entry ∷ entries) (try_snapshot target none entry rest client r)
  first-snapshot entry entries client rest (err e) later after has gives =
      fails-step entry entries entry.id (some e) (rest (some (child_unavailable entry.id (some e))))
        (client, e, (has, (gives, refl))) (after (child_unavailable entry.id (some e)))
  first-snapshot entry entries client rest (ok shown) later after has gives =
      if-cases (Outcome target (entry ∷ entries)) (contains_session shown target) _ _
        (λ there. inl (has, (shown, (gives, there))))
        (λ absent.
          lacks-step entry entries (rest none) (inr (client, shown, (has, (gives, absent)))) later)

  first-child :
      (entry : Entry) (entries : List Entry)
      (rest : Option RouteError → Result RouteError DescendantClient) (o : Option DescendantClient)
      → Outcome target entries (rest none)
      → ((first : RouteError) → OutcomeAfter target first entries (rest (some first)))
      → entry.client ≡ o
      → Outcome target (entry ∷ entries) (try_child target none entry rest o)
  first-child entry entries rest none later after has =
      lacks-step entry entries (rest none) (inl has) later
  first-child entry entries rest (some client) later after has =
      first-snapshot entry entries client rest client.snapshot later after has refl

  search-Outcome :
      (entries : List Entry) → Outcome target entries (search_children target none entries)
  unfolding search_children
  search-Outcome [] = tt
  search-Outcome (entry ∷ entries) =
      first-child entry entries (λ now. search_children target now entries) entry.client
        (search-Outcome entries) (λ first. search-OutcomeAfter first entries) refl

-- The route to a session: a direct child with its id has its client, if it has one; otherwise, of the
-- children in the order of their ids, the first whose tree has the session.
abbrev pub Route :
    String → List (String × Entry) → Option Entry → Result RouteError DescendantClient → Type 0
Route target children (some entry) (ok client) = entry.client ≡ some client
Route target children (some entry) (err e) =
    (entry.client ≡ none) × (e ≡ child_unavailable entry.id none)
Route target children none r = Outcome target (registry_snapshot children) r

direct-Route :
    (target : String) (children : List (String × Entry)) (entry : Entry)
    (o : Option DescendantClient)
    → entry.client ≡ o
    → Route target children (some entry) (direct_client entry o)
direct-Route target children entry none has = (has, refl)
direct-Route target children entry (some client) has = has

-- A request for a direct child goes to its client, or fails if it has none. Any other goes to the first
-- child, in the order of their ids, that shows the session in its tree; if none does, the error is that of
-- the first child that gave no snapshot, and "not found" only if each child that has a client showed a
-- tree without the session.
pub descendant_for-Route :
    (children : List (String × Entry)) (target : String)
    → Route target children (lookup target children) (descendant_for children target)
unfolding descendant_for
descendant_for-Route children target = by_entry (lookup target children)
  where
    by_entry : (o : Option Entry) → Route target children o (from_direct children target o)
    by_entry none = search-Outcome target (registry_snapshot children)
    by_entry (some entry) = direct-Route target children entry entry.client refl
