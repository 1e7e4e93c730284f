-- ===== src/Tree.antt =====
-- internal/manager/tree.go: the session tree of a root supervisor, checked from a stack of work. Of
-- supervisor.NodeSnapshot the model and the questions are left out: the manager does not check them.
pub mod Measures
pub mod Walk
pub mod Fits
pub mod Accepts
pub mod Roots
mod Tests
use Prim.Native.Char.{code}
use Prim.Native.String.{len}
use kanedias.Base.{
  ℕ, zero, suc, ◌+◌, Bool, true, false, not, ◌&&◌, ◌||◌, ◌==◌, leb, List, [], ◌∷◌, Option, none,
  some, String, Result, ok, err, ◌>>=◌, ◌>>◌, fail_if, if◌then◌else◌, str_eq, contains_str, lookup,
  insert, string_key, sort,
}
use kanedias.Contract.{ChildKind, ContextMode}
use kanedias.Workspace.{is_component_char}

pub record NodeInfo : Type 0 where
  pub session_id : String
  pub pi_session_id : String
  pub session_file : String
  pub parent_session_id : String
  pub root_session_id : String
  pub kind : ChildKind
  pub context : ContextMode
  pub worker_type : String
  pub lifecycle : String

mutual
  pub data NodeSnapshot : Type 0 where
    node : NodeInfo → Nodes → NodeSnapshot

  pub data Nodes : Type 0 where
    no_nodes : Nodes
    add_node : NodeSnapshot → Nodes → Nodes

abbrev pub info : NodeSnapshot → NodeInfo
info (node i children) = i

abbrev pub nodes : NodeSnapshot → Nodes
nodes (node i children) = children

abbrev pub to_list : Nodes → List NodeSnapshot
to_list no_nodes = []
to_list (add_node n ns) = n ∷ to_list ns

abbrev pub of_list : List NodeSnapshot → Nodes
of_list [] = no_nodes
of_list (n ∷ ns) = add_node n (of_list ns)

abbrev pub known_lifecycles : List String
known_lifecycles =
    "provisioning" ∷ "starting" ∷ "ready" ∷ "running" ∷ "awaiting_handoff" ∷ "completed" ∷ "failed"
    ∷ "stopping" ∷ "stopped" ∷ []

-- A key of `knownLifecycles`.
unfoldable pub is_known_lifecycle : String → Bool
is_known_lifecycle = contains_str known_lifecycles

-- A letter, a digit or one of _ . : -
unfoldable pub all_session_id_chars : String → Bool
all_session_id_chars String.[] = true
all_session_id_chars (String.◌∷◌ c s) =
    (is_component_char (code c) || code c == 58) && all_session_id_chars s

-- The characters that the pattern permits have one byte each.
unfoldable pub valid_session_id : String → Bool
unfolding all_session_id_chars
valid_session_id id =
    not (str_eq id ".")
    && not (str_eq id "..")
    && leb 1 (len id)
    && leb (len id) 128
    && all_session_id_chars id

pub data TreeError : Type 0 where
  not_root root_id_mismatch root_has_parent root_context empty_session_id : TreeError
  unsafe_session_id duplicate_session_id unknown_lifecycle : String → TreeError
  wrong_root wrong_parent descendant_root_kind : String → TreeError
  out_of_fuel : TreeError

pub record TreeWork : Type 0 where
  pub node : NodeSnapshot
  pub parent_id : String
  pub root_id : String

abbrev pub is_root_kind : ChildKind → Bool
is_root_kind ChildKind.root = true
is_root_kind _ = false

abbrev pub is_root_context : ContextMode → Bool
is_root_context ContextMode.root = true
is_root_context _ = false

abbrev pub is_some {ℓ} : {A : Type ℓ} → Option A → Bool
is_some none = false
is_some (some x) = true

-- The tests of one node.
unfoldable pub check_node : List (String × String) → TreeWork → Result TreeError (Unit {0})
check_node routes w =
    let i = info w.node in
    do
      fail_if (not (valid_session_id i.session_id)) (unsafe_session_id i.session_id)
      fail_if (is_some (lookup i.session_id routes)) (duplicate_session_id i.session_id)
      fail_if (not (is_known_lifecycle i.lifecycle)) (unknown_lifecycle i.session_id)
      fail_if (not (str_eq i.root_session_id w.root_id)) (wrong_root i.session_id)
      fail_if (not (str_eq w.parent_id "") && not (str_eq i.parent_session_id w.parent_id))
          (wrong_parent i.session_id)
      fail_if (not (str_eq w.parent_id "") && is_root_kind i.kind)
          (descendant_root_kind i.session_id)

-- The inner loop: the children go on the stack one by one, so that the last is taken first.
abbrev pub push : String → String → List NodeSnapshot → List TreeWork → List TreeWork
push parent_id root_id [] work = work
push parent_id root_id (n ∷ ns) work =
    push parent_id root_id ns (record { node = n; parent_id = parent_id; root_id = root_id } ∷ work)

abbrev pub session_id_of : NodeSnapshot → String
session_id_of n = (info n).session_id

-- The loop over the stack, whose top is the head, on fuel.
unfoldable pub walk :
    ℕ → List (String × String) → List TreeWork → Result TreeError (List (String × String))
walk n routes [] = ok routes
walk zero routes (w ∷ work) = err out_of_fuel
walk (suc n) routes (w ∷ work) = do
  check_node routes w
  walk n (insert (session_id_of w.node) w.root_id routes)
      (push (session_id_of w.node) w.root_id (sort session_id_of (to_list (nodes w.node))) work)

-- The number of nodes.
unfoldable mutual
  pub size : NodeSnapshot → ℕ
  size (node i children) = suc (sizes children)

  pub sizes : Nodes → ℕ
  sizes no_nodes = 0
  sizes (add_node n ns) = size n + sizes ns

-- The tree with the children of every node sorted, as the loop leaves it.
unfoldable mutual
  pub normalise : NodeSnapshot → NodeSnapshot
  normalise (node i children) = node i (of_list (sort session_id_of (normalise_all children)))

  pub normalise_all : Nodes → List NodeSnapshot
  normalise_all no_nodes = []
  normalise_all (add_node n ns) = normalise n ∷ normalise_all ns

abbrev pub finish :
    NodeSnapshot
    → Result TreeError (List (String × String))
    → Result TreeError (NodeSnapshot × List (String × String))
finish root (ok routes) = ok (normalise root, routes)
finish root (err e) = err e

-- The fuel is the number of nodes.
unfoldable pub validate_root_tree :
    NodeSnapshot → Result TreeError (NodeSnapshot × List (String × String))
validate_root_tree root =
    let i = info root in
    do
      fail_if (not (is_root_kind i.kind)) not_root
      fail_if (not (str_eq i.root_session_id i.session_id)) root_id_mismatch
      fail_if (not (str_eq i.parent_session_id "")) root_has_parent
      fail_if (not (is_root_context i.context)) root_context
      fail_if (str_eq i.session_id "") empty_session_id
      finish root (
          walk (size root) [] (record { node = root; parent_id = ""; root_id = i.session_id } ∷ []))

unfoldable pub admissible : NodeInfo → Bool
admissible i =
    (str_eq i.lifecycle "ready" || str_eq i.lifecycle "running")
    && not (str_eq i.pi_session_id "")
    && not (str_eq i.session_file "")

unfoldable pub retainable : NodeInfo → Bool
retainable i =
    str_eq i.lifecycle "stopping"
    || str_eq i.lifecycle "failed"
    || str_eq i.lifecycle "stopped"
    || str_eq i.lifecycle "completed"
