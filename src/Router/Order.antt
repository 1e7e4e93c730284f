-- ===== src/Router/Order.antt =====
-- internal/supervisor/router.go: sorting a snapshot does not change which sessions it shows.
use kanedias.Base.{
  ◌≡◌, refl, ap, ◌∙◌, Bool, false, ◌||◌, List, [], ◌∷◌, String, str_eq, str_lt, sort, insert_sorted,
  if-cases, arith,
}
use kanedias.Tree.{NodeSnapshot, node, Nodes, no_nodes, add_node, of_list}
use kanedias.Router.{contains_session, any_contains, sort_tree, sorted_trees, session_of}

abbrev any_list : List NodeSnapshot → String → Bool
any_list [] target = false
any_list (x ∷ xs) target = contains_session x target || any_list xs target

any_contains-of_list :
    (xs : List NodeSnapshot) (target : String)
    → any_contains (of_list xs) target ≡ any_list xs target
unfolding contains_session
any_contains-of_list [] target = refl
any_contains-of_list (x ∷ xs) target =
    ap (λ b. contains_session x target || b) (any_contains-of_list xs target)

swap_or : (a b c : Bool) → (a || (b || c)) ≡ (b || (a || c))
swap_or a b c = ground arith

any_list-insert_sorted :
    (x : NodeSnapshot) (xs : List NodeSnapshot) (target : String)
    → any_list (insert_sorted session_of x xs) target
      ≡ (contains_session x target || any_list xs target)
unfolding insert_sorted
any_list-insert_sorted x [] target = refl
any_list-insert_sorted x (y ∷ ys) target =
    if-cases (λ zs. any_list zs target ≡ (contains_session x target || any_list (y ∷ ys) target))
      (str_lt (session_of y) (session_of x)) _ _
      (λ _.
        ap (λ b. contains_session y target || b) (any_list-insert_sorted x ys target)
        ∙ swap_or (contains_session y target) (contains_session x target) (any_list ys target))
      (λ _. refl)

any_list-sort :
    (xs : List NodeSnapshot) (target : String)
    → any_list (sort session_of xs) target ≡ any_list xs target
unfolding sort
any_list-sort [] target = refl
any_list-sort (x ∷ xs) target =
    any_list-insert_sorted x (sort session_of xs) target
    ∙ ap (λ b. contains_session x target || b) (any_list-sort xs target)

mutual
  unfolding contains_session sort_tree

  -- A tree shows the same sessions after it is sorted.
  pub contains_session-sort_tree :
      (s : NodeSnapshot) (target : String)
      → contains_session (sort_tree s) target ≡ contains_session s target
  contains_session-sort_tree (node i children) target =
      ap (λ b. str_eq i.session_id target || b)
        (any_contains-of_list (sort session_of (sorted_trees children)) target
          ∙ any_list-sort (sorted_trees children) target
          ∙ any_list-sorted_trees children target)

  any_list-sorted_trees :
      (children : Nodes) (target : String)
      → any_list (sorted_trees children) target ≡ any_contains children target
  any_list-sorted_trees no_nodes target = refl
  any_list-sorted_trees (add_node child children) target =
      ap (λ b. b || any_list (sorted_trees children) target)
        (contains_session-sort_tree child target)
      ∙ ap (λ b. contains_session child target || b) (any_list-sorted_trees children target)
