-- ===== src/Router/Tests.antt =====
-- internal/supervisor/router.go: routes among two children.
use kanedias.Base.{
  ◌≡◌, refl, List, [], ◌∷◌, some, String, Result, ok, err, lookup, string_key, sort,
}
use kanedias.Contract.{ChildKind, ContextMode}
use kanedias.Tree.{NodeSnapshot, node, Nodes, no_nodes, add_node}
use kanedias.Router.{
  DescendantClient, Entry, child_unavailable, Node, registry_snapshot, contains_session,
  search_children, descendant_for, call_rpc, stop, snapshot, child_snapshots, sort_snapshots,
  sort_tree,
}
use kanedias.Router.Routes.{Route, descendant_for-Route}

abbrev tree : String → Nodes → NodeSnapshot
tree id children =
    node
      (record {
        session_id = id;
        pi_session_id = "";
        session_file = "";
        parent_session_id = "";
        root_session_id = "root";
        kind = ChildKind.read;
        context = ContextMode.fresh;
        worker_type = "scout";
        lifecycle = "running";
      })
      children

abbrev client : Result String NodeSnapshot → DescendantClient
client shown = record {
  snapshot = shown;
  call_rpc = λ target command. ok command;
  answer_question = λ target question answer. ok tt;
  stop = λ target. err "gone";
}

abbrev broken_child : Entry
broken_child = record {
  id = "a";
  client = some (client (err "refused"));
  fallback = tree "a" no_nodes;
}

abbrev parent : Entry
parent = record {
  id = "b";
  client = some (
      client
        (ok (tree "b" (add_node (tree "d" no_nodes) (add_node (tree "c" no_nodes) no_nodes)))));
  fallback = tree "b" no_nodes;
}

abbrev children : List (String × Entry)
children = ("b", parent) ∷ ("a", broken_child) ∷ []

abbrev root : Node
root = record {
  session_id = "root";
  own_snapshot = tree "root" no_nodes;
  own_call_rpc = λ command. ok [];
  own_answer_question = λ question answer. ok tt;
  own_stop = ok tt;
  cancel_child_external = λ entry. ok tt;
  children = children;
}

descendant_for-Route_example :
    Route "c" children (lookup "c" children) (descendant_for children "c")
descendant_for-Route_example = descendant_for-Route children "c"

grandchild_test : call_rpc root "c" (1 ∷ []) ≡ ok (1 ∷ [])
unfolding call_rpc descendant_for lookup registry_snapshot sort search_children contains_session
grandchild_test = refl

missing_test : call_rpc root "x" [] ≡ err (child_unavailable "a" (some "refused"))
unfolding call_rpc descendant_for lookup registry_snapshot sort search_children contains_session
missing_test = refl

stop_test : (stop root "b" ≡ ok tt) × (stop root "c" ≡ err (child_unavailable "c" (some "gone")))
unfolding stop descendant_for lookup registry_snapshot sort search_children contains_session
stop_test = (refl, refl)

snapshot_test :
    (snapshot root ≡ err (child_unavailable "a" (some "refused")))
    × (snapshot (record root { children = ("b", parent) ∷ [] })
        ≡ ok (
            tree "root" (
              add_node
                (tree "b" (add_node (tree "c" no_nodes) (add_node (tree "d" no_nodes) no_nodes)))
                no_nodes)))
unfolding snapshot child_snapshots sort_snapshots sort_tree registry_snapshot sort
snapshot_test = (refl, refl)
