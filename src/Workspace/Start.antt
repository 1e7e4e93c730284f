-- ===== src/Workspace/Start.antt =====
-- internal/config/workspace_start.go: what ParseWorkspaceRepositories and Validate accept.
use Prim.Native.String.{String}
use kanedias.Base.{
  ◌≡◌, ◌∙◌, ap, ◌↔◌, ◌⊎◌, inl, inr, false, ◌&&◌, List, [], ◌∷◌, map, arith, Result, ok, bind_ok,
  fail_if_ok, str_eq, str_eq_iff, Bool-cases, Result-cases, contains_str, sym, refl, sort,
  insert_sorted,
}
use kanedias.Workspace.{
  WorkspaceError, WorkspaceStart, WorkspaceRepository, split, all_component, check_parts,
  parse_slug, parse_slugs, parse_workspace_repositories, validate_start,
}
use kanedias.Workspace.Slugs.{slug_of, IsOwner, IsCheckout, split-slug_of, split_two}

parse_slug-slug_of :
    (owner name : String)
    → IsOwner owner
    → IsCheckout name
    → parse_slug (slug_of owner name) ≡ ok name
unfolding parse_slug check_parts all_component
parse_slug-slug_of owner name h k = ground (arith, split-slug_of owner name)

check_parts_ok :
    (slug name : String) (parts : List String)
    → check_parts slug parts ≡ ok name
    → (owner : String) × ((parts ≡ owner ∷ name ∷ []) × (IsOwner owner × IsCheckout name))
unfolding check_parts all_component
check_parts_ok slug name [] h = cc
check_parts_ok slug name (owner ∷ []) h = cc
check_parts_ok slug name (owner ∷ part ∷ []) h = (owner, ground arith)
check_parts_ok slug name (owner ∷ part ∷ other ∷ parts) h = cc

parse_slug_ok :
    (slug name : String)
    → parse_slug slug ≡ ok name
    → (owner : String) × ((slug ≡ slug_of owner name) × (IsOwner owner × IsCheckout name))
unfolding parse_slug
parse_slug_ok slug name h =
    let r = check_parts_ok slug name (split slug) h in (r.0, (split_two slug r.0 name r.1.0, r.1.1))

-- A start that names nothing.
abbrev pub IsEmpty : WorkspaceStart → Type 0
IsEmpty start = (start.repository ≡ "") × (start.checkout ≡ "")

-- A start at owner/name, to be checked out under that name.
abbrev pub IsStart : WorkspaceStart → Type 0
IsStart start =
    (owner : String) × ((start.repository ≡ slug_of owner start.checkout)
      × (IsOwner owner × IsCheckout start.checkout))

validate_named :
    (start : WorkspaceStart)
    → (str_eq start.repository "" && str_eq start.checkout "") ≡ false
    → (validate_start start ≡ ok tt) ↔ (parse_slug start.repository ≡ ok start.checkout)
unfolding validate_start parse_workspace_repositories parse_slugs sort insert_sorted
validate_named start some_field = elim (Result-cases (parse_slug start.repository)) [
  | inl e ↦ rw (some_field, e.1) (λ h. cc, λ h. cc)
  | inr e ↦ rw (some_field, e.1) (ground (arith, str_eq_iff e.0 start.checkout))
]

-- Validate accepts a start in two cases only: both of its fields are empty, or the repository is
-- owner/name and the checkout is that name. The owner and the name are then made of the permitted
-- characters and not empty, and the name is neither . nor .. .
pub validate_start_iff :
    (start : WorkspaceStart) → (validate_start start ≡ ok tt) ↔ (IsEmpty start ⊎ IsStart start)
unfolding validate_start
validate_start_iff start =
    elim (Bool-cases (str_eq start.repository "" && str_eq start.checkout "")) [
      | inl empty ↦ rw (empty) (
        λ h. inl (ground (arith, str_eq_iff start.repository "", str_eq_iff start.checkout "")),
        λ h. refl,
      )
      | inr other ↦
          let named = validate_named start other in
          (
            λ h. inr (parse_slug_ok start.repository start.checkout (named.0 h)),
            λ h. elim h [
              | inl empty ↦
                  ground (arith, str_eq_iff start.repository "", str_eq_iff start.checkout "")
              | inr s ↦
                  named.1
                    (ap parse_slug s.1.0 ∙ parse_slug-slug_of s.0 start.checkout s.1.1.0 s.1.1.1)
            ],
          )
    ]

-- A repository as its owner and name.
abbrev pub Named : Type 0
Named = String × String

abbrev pub print : Named → String
print n = slug_of n.0 n.1

abbrev pub repository_of : Named → WorkspaceRepository
repository_of n = record { slug = print n; checkout = n.1 }

-- Owners and names that are safe, with names that differ from each other and from some others.
abbrev pub AreSafe : List String → List Named → Type 0
AreSafe seen [] = Unit
AreSafe seen (n ∷ ns) =
    (IsOwner n.0 × (IsCheckout n.1 × (contains_str seen n.1 ≡ false))) × AreSafe (n.1 ∷ seen) ns

parse_slugs-print :
    (seen : List String) (ns : List Named)
    → AreSafe seen ns
    → parse_slugs seen (map print ns) ≡ ok (map repository_of ns)
unfolding parse_slugs
parse_slugs-print seen [] h = refl
parse_slugs-print seen (n ∷ ns) h =
    rw (parse_slug-slug_of n.0 n.1 h.0.0 h.0.1.0, h.0.1.1, parse_slugs-print (n.1 ∷ seen) ns h.1)
      refl

-- The slugs of safe repositories with different names are parsed back, in their order.
pub parse_workspace_repositories-print :
    (ns : List Named)
    → AreSafe [] ns
    → parse_workspace_repositories (map print ns) ≡ ok (sort (λ r. r.slug) (map repository_of ns))
unfolding parse_workspace_repositories
parse_workspace_repositories-print ns h = rw (parse_slugs-print [] ns h) refl

print_one :
    (slug owner name : String) (slugs : List String) (rest rs : List WorkspaceRepository)
    (ns : List Named)
    → slug ≡ slug_of owner name
    → slugs ≡ map print ns
    → rest ≡ map repository_of ns
    → ◌≡◌ {A = Result WorkspaceError (List WorkspaceRepository)}
        (ok (record { slug = slug; checkout = name } ∷ rest))
        (ok rs)
    → (slug ∷ slugs ≡ map print ((owner, name) ∷ ns))
      × (rs ≡ map repository_of ((owner, name) ∷ ns))
print_one slug owner name slugs rest rs ns h k l m = (cc, cc)

-- Slugs that are accepted are printed ones.
parse_slugs_ok :
    (seen slugs : List String) (rs : List WorkspaceRepository)
    → parse_slugs seen slugs ≡ ok rs
    → (ns : List Named) × ((slugs ≡ map print ns) × (AreSafe seen ns × (rs ≡ map repository_of ns)))
unfolding parse_slugs
parse_slugs_ok seen [] rs h = ([], (refl, (tt, cc)))
parse_slugs_ok seen (slug ∷ slugs) rs h =
    let first = bind_ok _ _ rs h in
    let fresh = fail_if_ok _ _ _ rs first.1.1 in
    let others = bind_ok _ _ rs fresh.1 in
    let named = parse_slug_ok slug first.0 first.1.0 in
    let printed = parse_slugs_ok (first.0 ∷ seen) slugs others.0 others.1.0 in
    let printed_all =
      print_one slug named.0 first.0 slugs others.0 rs printed.0 named.1.0 printed.1.0 printed.1.1.1
        others.1.1 in
    (
      (named.0, first.0) ∷ printed.0,
      (printed_all.0, (((named.1.1.0, (named.1.1.1, fresh.0)), printed.1.1.0), printed_all.1)),
    )

sorted_repositories :
    (parsed rs printed : List WorkspaceRepository)
    → ◌≡◌ {A = Result WorkspaceError (List WorkspaceRepository)}
        (ok (sort (λ r. r.slug) parsed))
        (ok rs)
    → parsed ≡ printed
    → rs ≡ sort (λ r. r.slug) printed
sorted_repositories parsed rs printed h k = cc

-- Slugs are accepted just when they are owner/name with safe owners and safe names that differ, and
-- the repositories are then exactly those slugs, each with its name as the checkout, sorted by slug.
pub parse_workspace_repositories_iff :
    (slugs : List String) (rs : List WorkspaceRepository)
    → (parse_workspace_repositories slugs ≡ ok rs) ↔ (
        (ns : List Named) × ((slugs ≡ map print ns)
          × (AreSafe [] ns × (rs ≡ sort (λ r. r.slug) (map repository_of ns)))))
unfolding parse_workspace_repositories
parse_workspace_repositories_iff slugs rs = (
  λ h.
      let parsed = bind_ok _ _ rs h in
      let printed = parse_slugs_ok [] slugs parsed.0 parsed.1.0 in
      (
        printed.0,
        (printed.1.0, (printed.1.1.0, sorted_repositories parsed.0 rs _ parsed.1.1 printed.1.1.1)),
      ),
  λ h.
      ap parse_workspace_repositories h.1.0
      ∙ parse_workspace_repositories-print h.0 h.1.1.0
      ∙ ap ok (sym h.1.1.1),
)
