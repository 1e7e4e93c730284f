-- ===== src/Tree/Fits.antt =====
-- internal/manager/tree.go: the trees of one root, and the work on the stack.
use kanedias.Base.{
  ◌≡◌, ◌↔◌, true, false, List, [], ◌∷◌, All, String, Bool-cases, str_eq, string_key, sort,
  insert_sorted, str_lt, inl, inr,
}
use kanedias.Tree.{
  NodeInfo, NodeSnapshot, Nodes, TreeWork, node, no_nodes, add_node, info, nodes, to_list, push,
  session_id_of, valid_session_id, is_known_lifecycle, is_root_kind,
}

-- What a node is to be under a parent, which is empty for the root, in the tree of a root.
pub record Fits (parent_id root_id : String) (i : NodeInfo) : Type 0 where
  pub safe : valid_session_id i.session_id ≡ true
  pub known : is_known_lifecycle i.lifecycle ≡ true
  pub same_root : i.root_session_id ≡ root_id
  pub under_parent : str_eq parent_id "" ≡ false → i.parent_session_id ≡ parent_id
  pub below_root : str_eq parent_id "" ≡ false → is_root_kind i.kind ≡ false

-- Every node fits under its parent.
unfoldable mutual
  pub IsTree : String → String → NodeSnapshot → Type 0
  IsTree parent_id root_id (node i children) =
      Fits parent_id root_id i × AreTrees i.session_id root_id children

  pub AreTrees : String → String → Nodes → Type 0
  AreTrees parent_id root_id no_nodes = Unit
  AreTrees parent_id root_id (add_node n ns) =
      IsTree parent_id root_id n × AreTrees parent_id root_id ns

module _ {A : Type 0} (key : A → String) (P : A → Type 0) where
  insert_sorted-All : (x : A) (xs : List A) → All P (insert_sorted key x xs) ↔ (P x × All P xs)
  unfolding insert_sorted
  insert_sorted-All x [] = (λ h. h, λ h. h)
  insert_sorted-All x (y ∷ ys) = elim (Bool-cases (str_lt (key y) (key x))) [
    | inl less ↦
        let rest = insert_sorted-All x ys in
        rw (less, insert_sorted)
          (λ h. ((rest.0 h.1).0, (h.0, (rest.0 h.1).1)), λ h. (h.1.0, rest.1 (h.0, h.1.1)))
    | inr more ↦ rw (more, insert_sorted) (λ h. h, λ h. h)
  ]

  pub sort-All : (xs : List A) → All P (sort key xs) ↔ All P xs
  unfolding sort
  sort-All [] = (λ h. h, λ h. h)
  sort-All (x ∷ xs) =
      let first = insert_sorted-All x (sort key xs) in
      let rest = sort-All xs in
      (λ h. ((first.0 h).0, rest.0 (first.0 h).1), λ h. first.1 (h.0, rest.1 h.1))

to_list-AreTrees :
    (parent_id root_id : String) (ns : Nodes)
    → All (IsTree parent_id root_id) (to_list ns) ↔ AreTrees parent_id root_id ns
unfolding IsTree
to_list-AreTrees parent_id root_id no_nodes = (λ h. h, λ h. h)
to_list-AreTrees parent_id root_id (add_node n ns) =
    let rest = to_list-AreTrees parent_id root_id ns in
    (λ h. (h.0, rest.0 h.1), λ h. (h.0, rest.1 h.1))

-- The work on the stack is on trees.
abbrev pub IsWork : TreeWork → Type 0
IsWork w = IsTree w.parent_id w.root_id w.node

push-IsWork :
    (parent_id root_id : String) (ns : List NodeSnapshot) (work : List TreeWork)
    → All IsWork (push parent_id root_id ns work)
      ↔ (All (IsTree parent_id root_id) ns × All IsWork work)
push-IsWork parent_id root_id [] work = (λ h. (tt, h), λ h. h.1)
push-IsWork parent_id root_id (n ∷ ns) work =
    let rest =
      push-IsWork parent_id root_id ns
        (record { node = n; parent_id = parent_id; root_id = root_id } ∷ work) in
    (λ h. (((rest.0 h).1.0, (rest.0 h).0), (rest.0 h).1.1), λ h. rest.1 (h.0.1, (h.0.0, h.1)))

IsTree-node :
    (parent_id root_id : String) (n : NodeSnapshot)
    → IsTree parent_id root_id n
      ↔ (Fits parent_id root_id (info n) × AreTrees (session_id_of n) root_id (nodes n))
unfolding IsTree
IsTree-node parent_id root_id (node i children) = (λ h. h, λ h. h)

-- The work of one round: the node fits, and its children go on the stack.
pub round-IsWork :
    (w : TreeWork) (work : List TreeWork)
    → All IsWork (w ∷ work) ↔ (
        Fits w.parent_id w.root_id (info w.node)
        × All IsWork (
            push
              (session_id_of w.node)
              w.root_id
              (sort session_id_of (to_list (nodes w.node)))
              work))
round-IsWork w work =
    let whole = IsTree-node w.parent_id w.root_id w.node in
    let pushed =
      push-IsWork (session_id_of w.node) w.root_id (sort session_id_of (to_list (nodes w.node)))
        work in
    let sorted =
      sort-All session_id_of (IsTree (session_id_of w.node) w.root_id) (to_list (nodes w.node)) in
    let trees = to_list-AreTrees (session_id_of w.node) w.root_id (nodes w.node) in
    (
      λ h. ((whole.0 h.0).0, pushed.1 (sorted.1 (trees.1 (whole.0 h.0).1), h.1)),
      λ h. (whole.1 (h.0, trees.0 (sorted.0 (pushed.0 h.1).0)), (pushed.0 h.1).1),
    )
