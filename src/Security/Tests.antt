-- ===== src/Security/Tests.antt =====
-- internal/server/security.go: sessions and boundaries on small inputs.
use kanedias.Base.{◌≡◌, refl, true, false, List, [], ◌∷◌, none, some, String, str_eq, arith}
use kanedias.Security.{
  unexpired, purge, add_session, new_capability_store, valid_session, serve_bootstrap,
  require_session, Library, is_loopback_host, boundary_host_matches, boundary_origin_matches,
  require_write_boundary_for,
}
use kanedias.Security.Sessions.{
  Event, bootstrap, request, run, step, any_gives, require_session-gives,
}

-- A token is its own digest.
abbrev sum : String → String
sum token = token

-- One exchange with the right token after an hour, one with another, and a request.
abbrev events : List Event
events =
    bootstrap 3600000000000 "secret" (some "a")
    ∷ bootstrap 3600000000001 "guess" (some "b")
    ∷ request 3600000000002 (some "a")
    ∷ []

require_session-gives_example :
    (require_session sum 25199999999999
      (some "a")
      (run sum events (new_capability_store sum "secret"))).1
    ≡ any_gives sum "secret" 25199999999999 "a" events
require_session-gives_example =
    require_session-gives sum "secret" 0 events 25199999999999 "a"
      (omega arith, (omega arith, (omega arith, tt))) (omega arith)

given_test :
    ((require_session sum 25199999999999
        (some "a")
        (run sum events (new_capability_store sum "secret"))).1
      ≡ true)
    × ((require_session sum 25200000000000
          (some "a")
          (run sum events (new_capability_store sum "secret"))).1
        ≡ false)
    × ((require_session sum 25199999999999
          (some "b")
          (run sum events (new_capability_store sum "secret"))).1
        ≡ false)
unfolding require_session run step new_capability_store valid_session serve_bootstrap add_session
    purge unexpired
given_test = (refl, refl, refl)

-- A library in which every host has port 80 and no host is an address.
abbrev lib : Library
lib = record {
  parse_ip = λ host. none;
  split_host_port = λ s. some (s, "80");
  equal_fold = str_eq;
  parse_url = λ url. some ("http", url);
  parse_media_type = λ s. some s;
}

boundary_test :
    (require_write_boundary_for lib "localhost" ("application/json" ∷ []) (record {
      host = "localhost";
      origin = "evil";
      sec_fetch_site = "";
      content_type = "application/json";
    })
      ≡ some 403)
    × (require_write_boundary_for lib "localhost" ("application/json" ∷ []) (record {
      host = "localhost";
      origin = "localhost";
      sec_fetch_site = "same-origin";
      content_type = "text/plain";
    })
        ≡ some 415)
    × (require_write_boundary_for lib "localhost" ("application/json" ∷ []) (record {
      host = "localhost";
      origin = "";
      sec_fetch_site = "";
      content_type = "application/json";
    })
        ≡ none)
unfolding require_write_boundary_for boundary_host_matches boundary_origin_matches is_loopback_host
boundary_test = (refl, refl, refl)
