-- ===== src/Tree/Accepts.antt =====
-- internal/manager/tree.go: the work that the loop accepts, and the routes it makes.
use kanedias.Base.{
  ℕ, zero, suc, ◌+◌, ◌≤◌, ◌≡◌, refl, ◌∙◌, sym, ap, Bool, true, false, not, ◌&&◌, List, [], ◌∷◌, All,
  Option, none, some, arith, String, Result, ok, fail_if, fail_if_ok, fail_if-ok, bind_ok,
  if◌then◌else◌, Bool-cases, str_eq, str_eq_iff, lookup, insert, lookup-insert, string_key, sort,
  inl, inr,
}
use kanedias.Tree.{
  NodeSnapshot, TreeWork, TreeError, node, info, nodes, to_list, push, session_id_of, size, walk,
  check_node, valid_session_id, is_known_lifecycle, is_some, unsafe_session_id,
  duplicate_session_id, unknown_lifecycle, wrong_root, wrong_parent, descendant_root_kind,
}
use kanedias.Tree.Measures.{total, total-size, count, counts, total-count}
use kanedias.Tree.Walk.{work_size, size_node}
use kanedias.Tree.Fits.{Fits, IsWork, round-IsWork}

-- Whether the routes have a session ID, as a number.
abbrev pub routed : String → List (String × String) → ℕ
routed id routes = if is_some (lookup id routes) then 1 else 0

count_node :
    (id : String) (n : NodeSnapshot)
    → count id n ≡ (if str_eq (session_id_of n) id then 1 else 0) + counts id (nodes n)
unfolding count
count_node id (node i children) = refl

routed-insert :
    (id sid root_id : String) (routes : List (String × String))
    → lookup sid routes ≡ none
    → routed id (insert sid root_id routes) ≡ routed id routes + (if str_eq sid id then 1 else 0)
routed-insert id sid root_id routes fresh = elim (Bool-cases (str_eq sid id)) [
  | inl same ↦
      let absent_id : lookup id routes ≡ none =
        ap (λ i. lookup i routes) (sym ((str_eq_iff sid id).0 same)) ∙ fresh in
      rw (lookup-insert sid id root_id routes, same, absent_id) (omega arith)
  | inr other ↦ rw (lookup-insert sid id root_id routes, other) (omega arith)
]

-- A node that is checked passes from the stack to the routes.
round_routed :
    (id : String) (routes : List (String × String)) (w : TreeWork) (work : List TreeWork)
    → lookup (session_id_of w.node) routes ≡ none
    → routed id (insert (session_id_of w.node) w.root_id routes)
        + total
            (λ v. count id v.node)
            (push
              (session_id_of w.node)
              w.root_id
              (sort session_id_of (to_list (nodes w.node)))
              work)
      ≡ routed id routes + total (λ v. count id v.node) (w ∷ work)
round_routed id routes w work fresh = omega (
  arith,
  routed-insert id (session_id_of w.node) w.root_id routes fresh,
  work_size (count id) (session_id_of w.node) w.root_id (nodes w.node) work,
  total-count id (nodes w.node),
  count_node id w.node,
)

pub passed : {E : Type 0} (c : Bool) (e : E) → fail_if c e ≡ ok tt → c ≡ false
passed true e h = cc
passed false e h = refl

pub not-false : (b : Bool) → not b ≡ false → b ≡ true
not-false true h = refl
not-false false h = cc

not_some : {A : Type 0} (o : Option A) → is_some o ≡ false → o ≡ none
not_some none h = refl
not_some (some x) h = cc

second_false : (b c : Bool) → b ≡ true → (b && c) ≡ false → c ≡ false
second_false true c h k = k
second_false false c h k = cc

guard_false : (b c : Bool) → (b ≡ false → c ≡ false) → (not b && c) ≡ false
guard_false true c h = refl
guard_false false c h = h refl

check_node_ok :
    (routes : List (String × String)) (w : TreeWork)
    → check_node routes w ≡ ok tt
    → (lookup (session_id_of w.node) routes ≡ none) × Fits w.parent_id w.root_id (info w.node)
unfolding check_node
check_node_ok routes w h =
    let i = info w.node in
    let a =
      fail_if_ok (not (valid_session_id i.session_id)) (unsafe_session_id i.session_id) _ tt h in
    let b =
      fail_if_ok (is_some (lookup i.session_id routes)) (duplicate_session_id i.session_id) _ tt
        a.1 in
    let c =
      fail_if_ok (not (is_known_lifecycle i.lifecycle)) (unknown_lifecycle i.session_id) _ tt b.1 in
    let d =
      fail_if_ok (not (str_eq i.root_session_id w.root_id)) (wrong_root i.session_id) _ tt c.1 in
    let e =
      fail_if_ok (not (str_eq w.parent_id "") && not (str_eq i.parent_session_id w.parent_id))
        (wrong_parent i.session_id) _ tt d.1 in
    let f = passed _ (descendant_root_kind i.session_id) e.1 in
    (
      not_some _ b.0,
      record {
        safe = not-false _ a.0;
        known = not-false _ c.0;
        same_root = (str_eq_iff i.root_session_id w.root_id).0 (not-false _ d.0);
        under_parent = λ below.
            (str_eq_iff i.parent_session_id w.parent_id).0
              (not-false _ (second_false _ _ (ap not below) e.0));
        below_root = λ below. second_false _ _ (ap not below) f;
      },
    )

node-checked :
    (routes : List (String × String)) (w : TreeWork)
    → lookup (session_id_of w.node) routes ≡ none
    → Fits w.parent_id w.root_id (info w.node)
    → check_node routes w ≡ ok tt
unfolding check_node
node-checked routes w fresh f =
    let i = info w.node in
    fail_if-ok _ (unsafe_session_id i.session_id) _ tt (ap not f.safe) (
      fail_if-ok _ (duplicate_session_id i.session_id) _ tt (ap is_some fresh) (
        fail_if-ok _ (unknown_lifecycle i.session_id) _ tt (ap not f.known) (
          fail_if-ok _ (wrong_root i.session_id) _ tt
            (ap not ((str_eq_iff i.root_session_id w.root_id).1 f.same_root))
            (fail_if-ok _ (wrong_parent i.session_id) _ tt
              (guard_false (str_eq w.parent_id "") _ (λ below.
                ap not ((str_eq_iff i.parent_session_id w.parent_id).1 (f.under_parent below))))
              (ap (λ c. fail_if c (descendant_root_kind i.session_id))
                (guard_false (str_eq w.parent_id "") _ f.below_root))))))

count_own : (n : NodeSnapshot) → 1 ≤ count (session_id_of n) n
count_own n =
    ground (
      arith,
      count_node (session_id_of n) n,
      (str_eq_iff (session_id_of n) (session_id_of n)).1 refl,
    )

unrouted : {A : Type 0} (o : Option A) → (if is_some o then 1 else 0) ≤ 0 → o ≡ none
unrouted none h = refl
unrouted (some x) h = absurd (omega (arith, h))

pub routes_result :
    (routes result : List (String × String))
    → ◌≡◌ {A = Result TreeError (List (String × String))} (ok routes) (ok result)
    → routes ≡ result
routes_result routes result h = cc

-- What is accepted is made of trees, and each node adds one route.
pub walk_sound :
    (n : ℕ) (routes : List (String × String)) (work : List TreeWork)
    (result : List (String × String))
    → walk n routes work ≡ ok result
    → All IsWork work
      × ((id : String) → routed id result ≡ routed id routes + total (λ w. count id w.node) work)
unfolding walk
walk_sound n routes [] result h =
    (tt, λ id. ap (routed id) (sym (routes_result routes result h)) ∙ omega arith)
walk_sound zero routes (w ∷ work) result h = cc
walk_sound (suc n) routes (w ∷ work) result h =
    let first = bind_ok (check_node routes w) _ result h in
    let checked = check_node_ok routes w first.1.0 in
    let rest =
      walk_sound n (insert (session_id_of w.node) w.root_id routes)
        (push (session_id_of w.node) w.root_id (sort session_id_of (to_list (nodes w.node))) work)
        result first.1.1 in
    (
      (round-IsWork w work).1 (checked.1, rest.0),
      λ id. rest.1 id ∙ round_routed id routes w work checked.0,
    )

pub walk_complete :
    (n : ℕ) (routes : List (String × String)) (work : List TreeWork)
    → total (λ w. size w.node) work ≤ n
    → All IsWork work
    → ((id : String) → routed id routes + total (λ w. count id w.node) work ≤ 1)
    → (result : List (String × String)) × (walk n routes work ≡ ok result)
unfolding walk
walk_complete n routes [] enough trees once = (routes, refl)
walk_complete zero routes (w ∷ work) enough trees once =
    absurd (omega (arith, enough, size_node w.node))
walk_complete (suc n) routes (w ∷ work) enough trees once =
    let round = (round-IsWork w work).0 trees in
    let fresh : lookup (session_id_of w.node) routes ≡ none =
      unrouted (lookup (session_id_of w.node) routes)
        (omega (arith, once (session_id_of w.node), count_own w.node)) in
    let rest =
      walk_complete n (insert (session_id_of w.node) w.root_id routes)
        (push (session_id_of w.node) w.root_id (sort session_id_of (to_list (nodes w.node))) work)
        (omega (
          arith,
          enough,
          size_node w.node,
          work_size size (session_id_of w.node) w.root_id (nodes w.node) work,
          total-size (nodes w.node),
        ))
        round.1 (λ id. omega (arith, once id, round_routed id routes w work fresh)) in
    (rest.0, rw (node-checked routes w fresh round.0) rest.1)
