-- ===== src/Workspace/Tests.antt =====
-- Runs of internal/config/workspace_start.go.
use kanedias.Base.{◌≡◌, refl, ◌⊎◌, List, [], ◌∷◌, ok, err, map, sort}
use kanedias.Workspace.{
  WorkspaceStart, invalid_slug, duplicate_destination, checkout_mismatch, check_parts, split,
  parse_slug, parse_slugs, parse_workspace_repositories, validate_start, all_component,
}
use kanedias.Workspace.Slugs.{slug_of}
use kanedias.Workspace.Start.{
  validate_start_iff, parse_workspace_repositories_iff, repository_of, print, IsStart, IsEmpty,
  Named,
}

abbrev start : WorkspaceStart
start = record { repository = "sklarsa/kanedias"; checkout = "kanedias" }

abbrev named : List Named
named = ("sklarsa", "web") ∷ ("sklarsa", "api") ∷ []

slugs_test : map print named ≡ "sklarsa/web" ∷ "sklarsa/api" ∷ []
unfolding slug_of
slugs_test = refl

three_parts_test : parse_slug "a/b/c" ≡ err (invalid_slug "a/b/c")
unfolding parse_slug split check_parts
three_parts_test = refl

parent_directory_test : parse_slug "a/.." ≡ err (invalid_slug "a/..")
unfolding parse_slug split check_parts all_component
parent_directory_test = refl

same_name_test :
    parse_workspace_repositories ("a/web" ∷ "b/web" ∷ []) ≡ err (duplicate_destination "web")
unfolding parse_workspace_repositories parse_slugs parse_slug split check_parts all_component
same_name_test = refl

other_checkout_test :
    validate_start (record { repository = "a/web"; checkout = "api" }) ≡ err checkout_mismatch
unfolding validate_start parse_workspace_repositories parse_slugs parse_slug split check_parts
    all_component sort
other_checkout_test = refl

validate_start_iff_test : IsEmpty start ⊎ IsStart start
unfolding validate_start parse_workspace_repositories parse_slugs parse_slug split check_parts
    all_component sort
validate_start_iff_test = (validate_start_iff start).0 refl

parse_workspace_repositories_iff_example :
    parse_workspace_repositories ("sklarsa/web" ∷ "sklarsa/api" ∷ [])
    ≡ ok (repository_of ("sklarsa", "api") ∷ repository_of ("sklarsa", "web") ∷ [])
unfolding slug_of all_component sort
parse_workspace_repositories_iff_example =
    (parse_workspace_repositories_iff ("sklarsa/web" ∷ "sklarsa/api" ∷ [])
        (repository_of ("sklarsa", "api") ∷ repository_of ("sklarsa", "web") ∷ [])).1
      (
        named,
        (
          refl,
          (
            (((refl, ((refl, (refl, refl)), refl)), ((refl, ((refl, (refl, refl)), refl)), tt))),
            refl,
          ),
        ),
      )
