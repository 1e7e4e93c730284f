-- ===== src/Tree/Walk.antt =====
-- internal/manager/tree.go: the loop ends, and what it accepts is a tree of one root.
use kanedias.Base.{
  ℕ, zero, suc, ◌+◌, ◌≤◌, ◌≡◌, ◌≢◌, refl, Bool, true, false, List, [], ◌∷◌, arith, String, Result,
  ok, err, fail_if, fail_if≢, bind_err, insert, string_key, sort, inl, inr,
}
use kanedias.Tree.{
  NodeSnapshot, Nodes, TreeWork, TreeError, out_of_fuel, unsafe_session_id, duplicate_session_id,
  unknown_lifecycle, wrong_root, wrong_parent, descendant_root_kind, not_root, root_id_mismatch,
  root_has_parent, root_context, empty_session_id, node, nodes, to_list, push, session_id_of, size,
  sizes, walk, check_node, finish, validate_root_tree,
}
use kanedias.Tree.Measures.{total, total-sort, total-push, total-size}

fail_if-fuel : (c : Bool) (d : TreeError) → d ≢ out_of_fuel → fail_if c d ≢ err out_of_fuel
fail_if-fuel true d other h = other cc
fail_if-fuel false d other h = cc

check_node_fuel :
    (routes : List (String × String)) (w : TreeWork) → check_node routes w ≢ err out_of_fuel
unfolding check_node
check_node_fuel routes w =
    let id = session_id_of w.node in
    fail_if≢ _ (unsafe_session_id id) out_of_fuel _ (λ h. cc)
      (fail_if≢ _ (duplicate_session_id id) out_of_fuel _ (λ h. cc)
        (fail_if≢ _ (unknown_lifecycle id) out_of_fuel _ (λ h. cc)
          (fail_if≢ _ (wrong_root id) out_of_fuel _ (λ h. cc)
            (fail_if≢ _ (wrong_parent id) out_of_fuel _ (λ h. cc)
              (fail_if-fuel _ (descendant_root_kind id) (λ h. cc))))))

-- The measure of the stack after one round.
pub work_size :
    (f : NodeSnapshot → ℕ) (parent_id root_id : String) (ns : Nodes) (work : List TreeWork)
    → total (λ w. f w.node) (push parent_id root_id (sort session_id_of (to_list ns)) work)
      ≡ total f (to_list ns) + total (λ w. f w.node) work
work_size f parent_id root_id ns work = omega (
  arith,
  total-push f parent_id root_id (sort session_id_of (to_list ns)) work,
  total-sort session_id_of f (to_list ns),
)

pub size_node : (n : NodeSnapshot) → size n ≡ suc (sizes (nodes n))
unfolding size
size_node (node i children) = refl

pub walk_fuel :
    (n : ℕ) (routes : List (String × String)) (work : List TreeWork)
    → total (λ w. size w.node) work ≤ n
    → walk n routes work ≢ err out_of_fuel
unfolding walk
walk_fuel zero routes [] enough h = cc
walk_fuel (suc n) routes [] enough h = cc
walk_fuel zero routes (w ∷ work) enough h = absurd (omega (arith, enough, size_node w.node))
walk_fuel (suc n) routes (w ∷ work) enough h =
    elim (bind_err (check_node routes w) _ out_of_fuel h) [
      | inl bad ↦ check_node_fuel routes w bad
      | inr next ↦
          walk_fuel n (insert (session_id_of w.node) w.root_id routes)
            (push (session_id_of w.node) w.root_id (sort session_id_of (to_list (nodes w.node)))
              work)
            (omega (
              arith,
              enough,
              size_node w.node,
              work_size size (session_id_of w.node) w.root_id (nodes w.node) work,
              total-size (nodes w.node),
            ))
            next.1.1
    ]

finish_err :
    (root : NodeSnapshot) (r : Result TreeError (List (String × String))) (e : TreeError)
    → finish root r ≡ err e
    → r ≡ err e
finish_err root (ok routes) e h = cc
finish_err root (err d) e h = cc

-- The loop over the stack ends on every tree: with the number of the nodes as its fuel it does not
-- run out.
pub validate_root_tree_fuel : (root : NodeSnapshot) → validate_root_tree root ≢ err out_of_fuel
unfolding validate_root_tree
validate_root_tree_fuel root =
    fail_if≢ _ not_root out_of_fuel _ (λ h. cc)
      (fail_if≢ _ root_id_mismatch out_of_fuel _ (λ h. cc)
        (fail_if≢ _ root_has_parent out_of_fuel _ (λ h. cc)
          (fail_if≢ _ root_context out_of_fuel _ (λ h. cc)
            (fail_if≢ _ empty_session_id out_of_fuel _ (λ h. cc)
              (λ h.
                walk_fuel (size root) []
                  (record { node = root; parent_id = ""; root_id = session_id_of root } ∷ [])
                  (omega arith) (finish_err root _ out_of_fuel h))))))
