-- ===== src/Tree/Roots.antt =====
-- internal/manager/tree.go: which snapshots of a root are accepted, and with which routes.
use mathlib.Core.Path.{subst}
use kanedias.Base.{
  ℕ, zero, suc, ◌≤◌, ◌≡◌, ◌≢◌, ◌↔◌, refl, ap, true, false, not, List, [], ◌∷◌, All, some, arith,
  String, Result, ok, err, fail_if_ok, fail_if-ok, bind_ok, str_eq, str_eq_iff, lookup, insert,
  string_key, sort, Entries, Entries-insert, Entries-lookup,
}
use kanedias.Tree.{
  NodeInfo, NodeSnapshot, TreeWork, TreeError, out_of_fuel, info, nodes, to_list, push,
  session_id_of, size, walk, check_node, is_root_kind, is_root_context, finish, normalise,
  validate_root_tree, not_root, root_id_mismatch, root_has_parent, root_context, empty_session_id,
}
use kanedias.Tree.Measures.{count}
use kanedias.Tree.Fits.{IsTree}
use kanedias.Tree.Walk.{validate_root_tree_fuel}
use kanedias.Tree.Accepts.{routed, walk_sound, walk_complete, not-false, routes_result}

-- What the top of a tree is to be.
pub record IsTop (i : NodeInfo) : Type 0 where
  pub root_kind : is_root_kind i.kind ≡ true
  pub own_root : i.root_session_id ≡ i.session_id
  pub no_parent : i.parent_session_id ≡ ""
  pub root_mode : is_root_context i.context ≡ true
  pub named : str_eq i.session_id "" ≡ false

-- A tree under its top whose session IDs differ.
abbrev pub IsRootTree : NodeSnapshot → Type 0
IsRootTree root =
    IsTop (info root) × (IsTree "" (session_id_of root) root × ((id : String) → count id root ≤ 1))

push-same_root :
    (root_id parent_id : String) (ns : List NodeSnapshot) (work : List TreeWork)
    → All (λ w. w.root_id ≡ root_id) work
    → (own : String) → own ≡ root_id
    → All (λ w. w.root_id ≡ root_id) (push parent_id own ns work)
push-same_root root_id parent_id [] work h own same = h
push-same_root root_id parent_id (n ∷ ns) work h own same =
    push-same_root root_id parent_id ns
      (record { node = n; parent_id = parent_id; root_id = own } ∷ work) (same, h) own same

walk-Entries :
    (root_id : String) (n : ℕ) (routes : List (String × String)) (work : List TreeWork)
    (result : List (String × String))
    → walk n routes work ≡ ok result
    → All (λ w. w.root_id ≡ root_id) work
    → Entries (λ id own. own ≡ root_id) routes
    → Entries (λ id own. own ≡ root_id) result
unfolding walk
walk-Entries root_id n routes [] result h same e =
    subst (Entries (λ id own. own ≡ root_id)) (routes_result routes result h) e
walk-Entries root_id zero routes (w ∷ work) result h same e = cc
walk-Entries root_id (suc n) routes (w ∷ work) result h same e =
    let first = bind_ok (check_node routes w) _ result h in
    walk-Entries root_id n (insert (session_id_of w.node) w.root_id routes)
      (push (session_id_of w.node) w.root_id (sort session_id_of (to_list (nodes w.node))) work)
      result first.1.1
      (push-same_root root_id (session_id_of w.node) (sort session_id_of (to_list (nodes w.node)))
        work same.1 w.root_id same.0)
      (Entries-insert (λ id own. own ≡ root_id) (session_id_of w.node) w.root_id routes same.0 e)

abbrev start : NodeSnapshot → List TreeWork
start root = record { node = root; parent_id = ""; root_id = session_id_of root } ∷ []

routed-nil : (id : String) → routed id [] ≡ 0
unfolding lookup
routed-nil id = refl

routed_le : (id : String) (routes : List (String × String)) → routed id routes ≤ 1
routed_le id routes = ground arith

finish_ok :
    (root tree : NodeSnapshot) (routes : List (String × String))
    (r : Result TreeError (List (String × String)))
    → finish root r ≡ ok (tree, routes)
    → (tree ≡ normalise root) × (r ≡ ok routes)
finish_ok root tree routes (ok made) h = (cc, cc)
finish_ok root tree routes (err e) h = cc

IsTop-ok :
    (root tree : NodeSnapshot) (routes : List (String × String))
    → validate_root_tree root ≡ ok (tree, routes)
    → IsTop (info root) × ((tree ≡ normalise root) × (walk (size root) [] (start root) ≡ ok routes))
unfolding validate_root_tree
IsTop-ok root tree routes h =
    let i = info root in
    let a = fail_if_ok (not (is_root_kind i.kind)) not_root _ (tree, routes) h in
    let b =
      fail_if_ok (not (str_eq i.root_session_id i.session_id)) root_id_mismatch _ (tree, routes)
        a.1 in
    let c = fail_if_ok (not (str_eq i.parent_session_id "")) root_has_parent _ (tree, routes) b.1 in
    let d = fail_if_ok (not (is_root_context i.context)) root_context _ (tree, routes) c.1 in
    let e = fail_if_ok (str_eq i.session_id "") empty_session_id _ (tree, routes) d.1 in
    (
      record {
        root_kind = not-false _ a.0;
        own_root = (str_eq_iff i.root_session_id i.session_id).0 (not-false _ b.0);
        no_parent = (str_eq_iff i.parent_session_id "").0 (not-false _ c.0);
        root_mode = not-false _ d.0;
        named = e.0;
      },
      finish_ok root tree routes _ e.1,
    )

IsTop-accepted :
    (root : NodeSnapshot) (routes : List (String × String))
    → IsTop (info root)
    → walk (size root) [] (start root) ≡ ok routes
    → validate_root_tree root ≡ ok (normalise root, routes)
unfolding validate_root_tree
IsTop-accepted root routes t h =
    let i = info root in
    fail_if-ok _ not_root _ _ (ap not t.root_kind) (
      fail_if-ok _ root_id_mismatch _ _
        (ap not ((str_eq_iff i.root_session_id i.session_id).1 t.own_root))
        (fail_if-ok _ root_has_parent _ _
          (ap not ((str_eq_iff i.parent_session_id "").1 t.no_parent))
          (fail_if-ok _ root_context _ _ (ap not t.root_mode)
            (fail_if-ok _ empty_session_id _ _ t.named (ap (finish root) h)))))

-- The routes of a tree that is accepted are exactly the session IDs of its nodes, each of which
-- belongs to one node, and all lead to the root; the tree comes back with its children sorted.
pub validate_root_tree_routes :
    (root tree : NodeSnapshot) (routes : List (String × String))
    → validate_root_tree root ≡ ok (tree, routes)
    → (tree ≡ normalise root)
      × (((id : String) → (count id root ≡ routed id routes) × (count id root ≤ 1))
          × ((id own : String) → lookup id routes ≡ some own → own ≡ session_id_of root))
validate_root_tree_routes root tree routes h =
    let t = IsTop-ok root tree routes h in
    let sound = walk_sound (size root) [] (start root) routes t.1.1 in
    let values =
      walk-Entries (session_id_of root) (size root) [] (start root) routes t.1.1 (refl, tt) tt in
    (
      t.1.0,
      (
        λ id. (
          omega (arith, sound.1 id, routed-nil id),
          omega (arith, sound.1 id, routed-nil id, routed_le id routes),
        ),
        λ id own found. Entries-lookup (λ k v. v ≡ session_id_of root) id own routes values found,
      ),
    )

-- The snapshot of a root is accepted exactly if its top is a root without a parent, every node fits
-- under its parent and belongs to that root, and the session IDs differ; the loop always ends.
pub validate_root_tree_iff :
    (root : NodeSnapshot)
    → (((result : NodeSnapshot × List (String × String)) × (validate_root_tree root ≡ ok result))
        ↔ IsRootTree root)
      × (validate_root_tree root ≢ err out_of_fuel)
validate_root_tree_iff root = (
  (
    λ h.
        let t = IsTop-ok root h.0.0 h.0.1 h.1 in
        let routes = validate_root_tree_routes root h.0.0 h.0.1 h.1 in
        (t.0, ((walk_sound (size root) [] (start root) h.0.1 t.1.1).0.0, λ id. (routes.1.0 id).1)),
    λ h.
        let made =
          walk_complete (size root) [] (start root) (omega arith) (h.1.0, tt)
            (λ id. omega (arith, routed-nil id, h.1.1 id)) in
        ((normalise root, made.0), IsTop-accepted root made.0 h.0 made.1),
  ),
  validate_root_tree_fuel root,
)
