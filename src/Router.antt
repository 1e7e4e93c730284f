-- ===== src/Router.antt =====
-- internal/supervisor/router.go: the request for a session, taken to the node or to the direct child whose
-- tree has the session.
pub mod Routes
pub mod Order
mod Tests
use kanedias.Base.{
  ℕ, Bool, true, false, ◌||◌, List, [], ◌∷◌, map, Option, none, some, String, Result, ok, err,
  ◌>>=◌, ◌>>◌, if◌then◌else◌, str_eq, lookup, string_key, sort,
}
use kanedias.Tree.{NodeInfo, NodeSnapshot, node, Nodes, no_nodes, add_node, info, of_list}

-- The client of a child, by what it answers; an error is its text.
pub record DescendantClient : Type 0 where
  pub snapshot : Result String NodeSnapshot
  pub call_rpc : String → List ℕ → Result String (List ℕ)
  pub answer_question : String → String → List ℕ → Result String (Unit {0})
  pub stop : String → Result String (Unit {0})

-- The part of the entry of a child that the router reads.
pub record Entry : Type 0 where
  pub id : String
  pub client : Option DescendantClient
  pub fallback : NodeSnapshot

-- An error of the node itself keeps its text.
pub data RouteError : Type 0 where
  child_unavailable : String → Option String → RouteError
  not_found : RouteError
  own_error : String → RouteError

-- The node: its identity, its own operations, and its children.
pub record Node : Type 0 where
  pub session_id : String
  pub own_snapshot : NodeSnapshot
  pub own_call_rpc : List ℕ → Result String (List ℕ)
  pub own_answer_question : String → List ℕ → Result String (Unit {0})
  pub own_stop : Result String (Unit {0})
  pub cancel_child_external : Entry → Result String (Unit {0})
  pub children : List (String × Entry)

abbrev pub values : List (String × Entry) → List Entry
values [] = []
values ((id, entry) ∷ entries) = entry ∷ values entries

-- childRegistry.snapshot: the entries in the order of their ids.
unfoldable pub registry_snapshot : List (String × Entry) → List Entry
registry_snapshot entries = sort (λ entry. entry.id) (values entries)

abbrev pub session_of : NodeSnapshot → String
session_of snapshot = (info snapshot).session_id

unfoldable mutual
  pub contains_session : NodeSnapshot → String → Bool
  contains_session (node i children) target =
      str_eq i.session_id target || any_contains children target

  pub any_contains : Nodes → String → Bool
  any_contains no_nodes target = false
  any_contains (add_node child children) target =
      contains_session child target || any_contains children target

-- `sortSnapshots`: the children of a node in the order of their ids, in the whole tree.
unfoldable mutual
  pub sort_tree : NodeSnapshot → NodeSnapshot
  sort_tree (node i children) = node i (of_list (sort session_of (sorted_trees children)))

  pub sorted_trees : Nodes → List NodeSnapshot
  sorted_trees no_nodes = []
  sorted_trees (add_node child children) = sort_tree child ∷ sorted_trees children

unfoldable pub sort_snapshots : Nodes → Nodes
sort_snapshots children = of_list (sort session_of (sorted_trees children))

abbrev pub unavailable {ℓ} : {A : Type ℓ} → String → Result String A → Result RouteError A
unavailable id (ok a) = ok a
unavailable id (err e) = err (child_unavailable id (some e))

abbrev pub own {ℓ} : {A : Type ℓ} → Result String A → Result RouteError A
own (ok a) = ok a
own (err e) = err (own_error e)

-- A child's part of `Snapshot`.
abbrev pub child_snapshot : Entry → Option DescendantClient → Result RouteError NodeSnapshot
child_snapshot entry none = ok entry.fallback
child_snapshot entry (some client) = unavailable entry.id client.snapshot

-- The snapshots of all children, or the first error in their order.
unfoldable pub child_snapshots : List Entry → Result RouteError (List NodeSnapshot)
child_snapshots [] = ok []
child_snapshots (entry ∷ entries) = do
  child ← child_snapshot entry entry.client
  rest ← child_snapshots entries
  ok (child ∷ rest)

unfoldable pub snapshot : Node → Result RouteError NodeSnapshot
snapshot n = do
  children ← child_snapshots (registry_snapshot n.children)
  ok (node (info n.own_snapshot) (sort_snapshots (of_list children)))

-- The error of the first child that is not available, if there is one, or that the session is not found.
abbrev pub final_error : Option RouteError → RouteError
final_error none = not_found
final_error (some e) = e

abbrev pub or_first : Option RouteError → RouteError → Option RouteError
or_first none e = some e
or_first (some first) e = some first

-- What is done with the snapshot of a child; `rest` is the rest of the loop.
abbrev pub try_snapshot :
    String
    → Option RouteError
    → Entry
    → (Option RouteError → Result RouteError DescendantClient)
    → DescendantClient
    → Result String NodeSnapshot
    → Result RouteError DescendantClient
try_snapshot target failed entry rest client (err e) =
    rest (or_first failed (child_unavailable entry.id (some e)))
try_snapshot target failed entry rest client (ok shown) =
    if contains_session shown target then ok client else rest failed

abbrev pub try_child :
    String
    → Option RouteError
    → Entry
    → (Option RouteError → Result RouteError DescendantClient)
    → Option DescendantClient
    → Result RouteError DescendantClient
try_child target failed entry rest none = rest failed
try_child target failed entry rest (some client) =
    try_snapshot target failed entry rest client client.snapshot

-- The loop of `descendantFor`; `failed` is the error of the first child that was not available.
unfoldable pub search_children :
    String → Option RouteError → List Entry → Result RouteError DescendantClient
search_children target failed [] = err (final_error failed)
search_children target failed (entry ∷ entries) =
    try_child target failed entry (λ now. search_children target now entries) entry.client

abbrev pub direct_client : Entry → Option DescendantClient → Result RouteError DescendantClient
direct_client entry none = err (child_unavailable entry.id none)
direct_client entry (some client) = ok client

abbrev pub from_direct :
    List (String × Entry) → String → Option Entry → Result RouteError DescendantClient
from_direct children target none = search_children target none (registry_snapshot children)
from_direct children target (some entry) = direct_client entry entry.client

unfoldable pub descendant_for : List (String × Entry) → String → Result RouteError DescendantClient
descendant_for children target = from_direct children target (lookup target children)

unfoldable pub call_rpc : Node → String → List ℕ → Result RouteError (List ℕ)
call_rpc n target command = if str_eq target n.session_id then own (n.own_call_rpc command) else do
  client ← descendant_for n.children target
  unavailable target (client.call_rpc target command)

unfoldable pub answer_question : Node → String → String → List ℕ → Result RouteError (Unit {0})
answer_question n target question answer =
    if str_eq target n.session_id then own (n.own_answer_question question answer) else do
      client ← descendant_for n.children target
      unavailable target (client.answer_question target question answer)

abbrev pub stop_below : Node → String → Option Entry → Result RouteError (Unit {0})
stop_below n target (some entry) = own (n.cancel_child_external entry)
stop_below n target none = do
  client ← descendant_for n.children target
  unavailable target (client.stop target)

unfoldable pub stop : Node → String → Result RouteError (Unit {0})
stop n target =
    if str_eq target n.session_id
    then own n.own_stop
    else stop_below n target (lookup target n.children)
