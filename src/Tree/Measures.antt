-- ===== src/Tree/Measures.antt =====
-- internal/manager/tree.go: sums over the nodes on the stack, which sorting and pushing keep.
use kanedias.Base.{
  ℕ, ◌+◌, ◌≡◌, refl, List, [], ◌∷◌, arith, String, sort, insert_sorted, str_lt, if◌then◌else◌,
  Bool-cases, inl, inr, str_eq,
}
use kanedias.Tree.{
  NodeSnapshot, Nodes, TreeWork, node, no_nodes, add_node, to_list, push, size, sizes,
}

abbrev pub total {ℓ} : {A : Type ℓ} → (A → ℕ) → List A → ℕ
total f [] = 0
total f (x ∷ xs) = f x + total f xs

module _ {A : Type 0} (key : A → String) (f : A → ℕ) where
  total-insert_sorted : (x : A) (xs : List A) → total f (insert_sorted key x xs) ≡ f x + total f xs
  unfolding insert_sorted
  total-insert_sorted x [] = refl
  total-insert_sorted x (y ∷ ys) = elim (Bool-cases (str_lt (key y) (key x))) [
    | inl less ↦ rw (less, insert_sorted) (omega (arith, total-insert_sorted x ys))
    | inr more ↦ rw (more, insert_sorted) refl
  ]

  pub total-sort : (xs : List A) → total f (sort key xs) ≡ total f xs
  unfolding sort
  total-sort [] = refl
  total-sort (x ∷ xs) = omega (arith, total-insert_sorted x (sort key xs), total-sort xs)

pub total-push :
    (f : NodeSnapshot → ℕ) (parent_id root_id : String) (ns : List NodeSnapshot)
    (work : List TreeWork)
    → total (λ w. f w.node) (push parent_id root_id ns work)
      ≡ total f ns + total (λ w. f w.node) work
total-push f parent_id root_id [] work = omega arith
total-push f parent_id root_id (n ∷ ns) work = omega (
  arith,
  total-push f parent_id root_id ns
      (record { node = n; parent_id = parent_id; root_id = root_id } ∷ work),
)

pub total-size : (ns : Nodes) → total size (to_list ns) ≡ sizes ns
unfolding size
total-size no_nodes = refl
total-size (add_node n ns) = omega (arith, total-size ns)

-- How many nodes of a tree have a session ID.
unfoldable mutual
  pub count : String → NodeSnapshot → ℕ
  count id (node i children) = (if str_eq i.session_id id then 1 else 0) + counts id children

  pub counts : String → Nodes → ℕ
  counts id no_nodes = 0
  counts id (add_node n ns) = count id n + counts id ns

pub total-count : (id : String) (ns : Nodes) → total (count id) (to_list ns) ≡ counts id ns
unfolding count
total-count id no_nodes = refl
total-count id (add_node n ns) = omega (arith, total-count id ns)
