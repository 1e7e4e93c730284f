-- ===== src/Security.antt =====
-- internal/server/security.go: the capabilities of browsers, and the boundary of requests that write. The
-- time is the number that time.Now gives.
pub mod Sessions
mod Tests
use kanedias.Base.{
  ℕ, ◌+◌, Bool, true, false, not, ◌&&◌, ◌||◌, ltb, List, [], ◌∷◌, ◌++◌, Option, none, some, String,
  if◌then◌else◌, str_eq,
}

pub record SessionRecord : Type 0 where
  pub digest : String
  pub expires_at : ℕ

-- The digest of the bootstrap token and the sessions. A digest is a text.
pub record CapabilityStore : Type 0 where
  pub bootstrap_digest : String
  pub sessions : List SessionRecord
  pub session_ttl : ℕ

-- 6 h
abbrev pub default_session_ttl : ℕ
default_session_ttl = 21600000000000

-- The loop of `purgeLocked`.
unfoldable pub unexpired : ℕ → List SessionRecord → List SessionRecord
unexpired now [] = []
unexpired now (record_of ∷ sessions) =
    let kept = unexpired now sessions in
    if ltb now record_of.expires_at then record_of ∷ kept else kept

unfoldable pub purge : ℕ → CapabilityStore → CapabilityStore
unfolding unexpired
purge now s = record s { sessions = unexpired now s.sessions }

unfoldable pub add_session : ℕ → String → CapabilityStore → CapabilityStore
unfolding purge
add_session now digest s =
    let purged : CapabilityStore = purge now s in
    record purged {
      sessions =
          purged.sessions ++ (record { digest = digest; expires_at = now + s.session_ttl } ∷ []);
    }

abbrev pub any_digest : String → List SessionRecord → Bool
any_digest digest [] = false
any_digest digest (record_of ∷ sessions) =
    str_eq digest record_of.digest || any_digest digest sessions

-- What a handler answers: a status, and the token of the cookie that it sets.
pub record Response : Type 0 where
  pub status : ℕ
  pub cookie : Option String

-- `sum256` is sha256.Sum256. A token is what newCapability makes of random bytes, or none if they cannot
-- be read.
module _ (sum256 : String → String) where
  -- `newCapabilityStore`, once its token is printed.
  unfoldable pub new_capability_store : String → CapabilityStore
  new_capability_store token = record {
    bootstrap_digest = sum256 token;
    sessions = [];
    session_ttl = default_session_ttl;
  }

  unfoldable pub valid_session : ℕ → String → CapabilityStore → CapabilityStore × Bool
  unfolding purge
  valid_session now token s =
      let purged : CapabilityStore = purge now s in
      (purged, any_digest (sum256 token) purged.sessions)

  abbrev pub mint : ℕ → Option String → CapabilityStore → CapabilityStore × Response
  mint now none s = (s, record { status = 500; cookie = none })
  mint now (some token) s =
      (add_session now (sum256 token) s, record { status = 303; cookie = some token })

  unfoldable pub serve_bootstrap :
      ℕ → String → Option String → CapabilityStore → CapabilityStore × Response
  unfolding add_session
  serve_bootstrap now provided token s =
      if not (str_eq (sum256 provided) s.bootstrap_digest)
      then (s, record { status = 403; cookie = none })
      else mint now token s

  -- `requireSession`: whether the request goes on; otherwise its status is 401.
  unfoldable pub require_session : ℕ → Option String → CapabilityStore → CapabilityStore × Bool
  require_session now none s = (s, false)
  require_session now (some token) s = valid_session now token s

pub record Ip : Type 0 where
  pub is_loopback : Bool
  pub is_unspecified : Bool

-- The functions of the packages net, net/url, mime and strings that the boundary uses.
pub record Library : Type 0 where
  pub parse_ip : String → Option Ip
  pub split_host_port : String → Option (String × String)
  pub equal_fold : String → String → Bool
  pub parse_url : String → Option (String × String)
  pub parse_media_type : String → Option String

-- The headers of a request; one that is not set is empty.
pub record Request : Type 0 where
  pub host : String
  pub origin : String
  pub sec_fetch_site : String
  pub content_type : String

module _ (lib : Library) where
  abbrev pub is_loopback_ip : String → Option Ip → Bool
  is_loopback_ip host none = lib.equal_fold host "localhost"
  is_loopback_ip host (some ip) = ip.is_loopback

  unfoldable pub is_loopback_host : String → Bool
  is_loopback_host host = is_loopback_ip host (lib.parse_ip host)

  abbrev pub is_unspecified_ip : Option Ip → Bool
  is_unspecified_ip none = false
  is_unspecified_ip (some ip) = ip.is_unspecified

  -- The host and the port that are expected, and those of the request.
  abbrev pub ports_match : Option (String × String) → Option (String × String) → Bool
  ports_match none given = false
  ports_match (some expected) none = false
  ports_match (some (expected_host, expected_port)) (some (host, port)) =
      not (str_eq host "" || not (str_eq port expected_port))
      && (is_unspecified_ip (lib.parse_ip expected_host)
          || (is_loopback_host host && is_loopback_host expected_host))

  unfoldable pub boundary_host_matches : String → String → Bool
  boundary_host_matches host expected =
      str_eq host expected || ports_match (lib.split_host_port expected) (lib.split_host_port host)

  abbrev pub origin_matches : Option (String × String) → String → String → Bool
  origin_matches none request_host expected = false
  origin_matches (some (scheme, host)) request_host expected =
      (str_eq scheme "http" || str_eq scheme "https")
      && (lib.equal_fold host request_host && boundary_host_matches host expected)

  unfoldable pub boundary_origin_matches : String → String → String → Bool
  boundary_origin_matches origin request_host expected =
      origin_matches (lib.parse_url origin) request_host expected

  abbrev pub any_equal : String → List String → Bool
  any_equal media_type [] = false
  any_equal media_type (candidate ∷ allowed) =
      lib.equal_fold media_type candidate || any_equal media_type allowed

  abbrev pub is_allowed : List String → Option String → Bool
  is_allowed allowed none = false
  is_allowed allowed (some media_type) = any_equal media_type allowed

  -- `requireWriteBoundaryFor`: the status of a request that is refused, or none if it goes on.
  unfoldable pub require_write_boundary_for : String → List String → Request → Option ℕ
  require_write_boundary_for expected allowed r =
      if not (boundary_host_matches r.host expected)
      then some 403
      else if not (str_eq r.origin "") && not (boundary_origin_matches r.origin r.host expected)
      then some 403
      else if not (str_eq r.sec_fetch_site "") && not (str_eq r.sec_fetch_site "same-origin")
      then some 403
      else if not (is_allowed allowed (lib.parse_media_type r.content_type))
      then some 415
      else none
