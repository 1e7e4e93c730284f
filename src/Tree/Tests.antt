-- ===== src/Tree/Tests.antt =====
-- Runs of internal/manager/tree.go.
use kanedias.Base.{
  string_key, ◌≡◌, ◌≢◌, ◌↔◌, ◌≤◌, refl, true, false, List, [], ◌∷◌, String, some, ok, err, lookup,
  insert, sort,
}
use kanedias.Contract.{ChildKind, ContextMode}
use kanedias.Tree.{
  NodeInfo, NodeSnapshot, node, no_nodes, add_node, duplicate_session_id, out_of_fuel,
  valid_session_id, is_known_lifecycle, check_node, walk, normalise, size, validate_root_tree,
  admissible, retainable,
}
use kanedias.Tree.Measures.{count}
use kanedias.Tree.Accepts.{routed}
use kanedias.Tree.Roots.{IsRootTree, validate_root_tree_iff, validate_root_tree_routes}

abbrev root_info : NodeInfo
root_info = record {
  session_id = "r";
  pi_session_id = "p";
  session_file = "f";
  parent_session_id = "";
  root_session_id = "r";
  kind = ChildKind.root;
  context = ContextMode.root;
  worker_type = "";
  lifecycle = "running";
}

abbrev child : String → NodeSnapshot
child id =
    node
      (record root_info {
        session_id = id;
        parent_session_id = "r";
        kind = ChildKind.read;
        context = ContextMode.fresh;
      })
      no_nodes

abbrev tree : String → NodeSnapshot
tree id = node root_info (add_node (child id) (add_node (child "a") no_nodes))

tree_test :
    validate_root_tree (tree "b")
    ≡ ok (
      node root_info (add_node (child "a") (add_node (child "b") no_nodes)),
      ("r", "r") ∷ ("b", "r") ∷ ("a", "r") ∷ [],
    )
unfolding validate_root_tree walk normalise size sort check_node valid_session_id is_known_lifecycle
    lookup insert
tree_test = refl

twice_test : validate_root_tree (tree "a") ≡ err (duplicate_session_id "a")
unfolding validate_root_tree walk normalise size sort check_node valid_session_id is_known_lifecycle
    lookup insert
twice_test = refl

lifecycle_test : (admissible root_info ≡ true) × (retainable root_info ≡ false)
unfolding admissible retainable
lifecycle_test = (refl, refl)

validate_root_tree_routes_example :
    (node root_info (add_node (child "a") (add_node (child "b") no_nodes)) ≡ normalise (tree "b"))
    × (((id : String)
          → (count id (tree "b") ≡ routed id (("r", "r") ∷ ("b", "r") ∷ ("a", "r") ∷ []))
            × (count id (tree "b") ≤ 1))
        × ((id own : String)
            → lookup id (("r", "r") ∷ ("b", "r") ∷ ("a", "r") ∷ []) ≡ some own
            → own ≡ "r"))
unfolding validate_root_tree walk normalise size sort check_node valid_session_id is_known_lifecycle
    lookup insert
validate_root_tree_routes_example =
    validate_root_tree_routes (tree "b")
      (node root_info (add_node (child "a") (add_node (child "b") no_nodes)))
      (("r", "r") ∷ ("b", "r") ∷ ("a", "r") ∷ []) refl

validate_root_tree_iff_example :
    (((result : NodeSnapshot × List (String × String)) × (validate_root_tree (tree "b")
          ≡ ok result))
      ↔ IsRootTree (tree "b"))
    × (validate_root_tree (tree "b") ≢ err out_of_fuel)
validate_root_tree_iff_example = validate_root_tree_iff (tree "b")
