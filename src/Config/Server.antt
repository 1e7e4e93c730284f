-- ===== src/Config/Server.antt =====
-- internal/config/server.go: the settings of the server and the limits of events. A duration is its
-- number of nanoseconds.
use Prim.Native.Char.{code}
use kanedias.Base.{
  ℕ, Bool, true, false, not, ◌&&◌, ◌||◌, ◌==◌, ltb, List, [], ◌∷◌, Option, none, some, String, len,
  Result, ok, err, ◌>>=◌, ◌>>◌, fail_if, if◌then◌else◌, str_eq, ℤ, pos, negsuc, is_negative, to_ℕ,
}
use kanedias.Workspace.{cons_first}

pub data ServerError : Type 0 where
  negative_events negative_bytes no_limit : ServerError
  not_plain invalid_label interval_not_positive : ServerError

pub record ServerConfig : Type 0 where
  pub hostname : String
  pub root_socket_dir : String
  pub session_log_dir : String
  pub discovery_interval : Option ℤ
  pub snapshot_interval : Option ℤ
  pub spawn_timeout : Option ℤ
  pub session_binary : String
  pub require_session : Option Bool

pub record SupervisorEventsConfig : Type 0 where
  pub max_events : Option ℤ
  pub max_bytes : Option ℤ

pub record EventLimits : Type 0 where
  pub max_events : ℕ
  pub max_bytes : ℕ

abbrev pub default_supervisor_event_max_events : ℕ
default_supervisor_event_max_events = 4096

abbrev pub default_supervisor_event_max_bytes : ℕ
default_supervisor_event_max_bytes = 16777216

-- A limit that is set, or its default.
unfoldable pub resolve_limit : ServerError → ℕ → Option ℤ → Result ServerError ℕ
resolve_limit e default none = ok default
resolve_limit e default (some (pos n)) = ok n
resolve_limit e default (some (negsuc n)) = err e

-- `Limits`
unfoldable pub limits : SupervisorEventsConfig → Result ServerError EventLimits
unfolding resolve_limit
limits c = do
  events ← resolve_limit negative_events default_supervisor_event_max_events c.max_events
  bytes ← resolve_limit negative_bytes default_supervisor_event_max_bytes c.max_bytes
  fail_if (events == 0 && bytes == 0) no_limit
  ok (record { max_events = events; max_bytes = bytes })

pub record ResolvedServerConfig : Type 0 where
  pub hostname : String
  pub root_socket_dir : String
  pub session_log_dir : String
  pub discovery_interval : ℤ
  pub snapshot_interval : ℤ
  pub spawn_timeout : ℤ
  pub session_binary : String
  pub require_session : Bool

-- 5 s, 1 s and 2 min
abbrev pub default_server_discovery_interval : ℤ
default_server_discovery_interval = pos 5000000000

abbrev pub default_server_snapshot_interval : ℤ
default_server_snapshot_interval = pos 1000000000

abbrev pub default_server_spawn_timeout : ℤ
default_server_spawn_timeout = pos 120000000000

-- strings.ContainsAny(hostname, ":/\\?#[]@ \t\r\n")
abbrev pub is_forbidden : ℕ → Bool
is_forbidden c =
    c == 58
    || c == 47
    || c == 92
    || c == 63
    || c == 35
    || c == 91
    || c == 93
    || c == 64
    || c == 32
    || c == 9
    || c == 13
    || c == 10

unfoldable pub contains_forbidden : String → Bool
contains_forbidden String.[] = false
contains_forbidden (String.◌∷◌ c s) = is_forbidden (code c) || contains_forbidden s

-- strings.Split(hostname, ".")
unfoldable pub split_labels : String → List String
split_labels String.[] = String.[] ∷ []
split_labels (String.◌∷◌ c s) =
    let labels = split_labels s in if code c == 46 then String.[] ∷ labels else cons_first c labels

abbrev pub starts_with_dash : String → Bool
starts_with_dash String.[] = false
starts_with_dash (String.◌∷◌ c s) = code c == 45

unfoldable pub ends_with_dash : String → Bool
ends_with_dash String.[] = false
ends_with_dash (String.◌∷◌ c String.[]) = code c == 45
ends_with_dash (String.◌∷◌ c (String.◌∷◌ d s)) = ends_with_dash (String.◌∷◌ d s)

abbrev pub is_label_char : ℕ → Bool
is_label_char c =
    not
      ((ltb c 97 || ltb 122 c) && (ltb c 65 || ltb 90 c) && (ltb c 48 || ltb 57 c) && not (c == 45))

unfoldable pub all_label_chars : String → Bool
all_label_chars String.[] = true
all_label_chars (String.◌∷◌ c s) = is_label_char (code c) && all_label_chars s

-- The body of the loop over the labels.
unfoldable pub check_label : String → Result ServerError (Unit {0})
unfolding ends_with_dash all_label_chars
check_label label = do
  fail_if (len label == 0 || ltb 63 (len label) || starts_with_dash label || ends_with_dash label)
      invalid_label
  fail_if (not (all_label_chars label)) invalid_label

unfoldable pub check_labels : List String → Result ServerError (Unit {0})
unfolding check_label
check_labels [] = ok tt
check_labels (label ∷ labels) = do check_label label; check_labels labels

unfoldable pub validate_server_hostname : String → Result ServerError (Unit {0})
unfolding contains_forbidden split_labels check_labels
validate_server_hostname hostname = if str_eq hostname "" then ok tt else do
  fail_if (ltb 253 (len hostname) || contains_forbidden hostname) not_plain
  check_labels (split_labels hostname)

abbrev pub or_default {ℓ} : {A : Type ℓ} → A → Option A → A
or_default default none = default
or_default default (some a) = a

-- value <= 0
abbrev pub is_not_positive : ℤ → Bool
is_not_positive z = is_negative z || to_ℕ z == 0

-- The settings with their defaults.
abbrev pub with_defaults : ServerConfig → ResolvedServerConfig
with_defaults c = record {
  hostname = c.hostname;
  root_socket_dir = c.root_socket_dir;
  session_log_dir = c.session_log_dir;
  discovery_interval = or_default default_server_discovery_interval c.discovery_interval;
  snapshot_interval = or_default default_server_snapshot_interval c.snapshot_interval;
  spawn_timeout = or_default default_server_spawn_timeout c.spawn_timeout;
  session_binary = c.session_binary;
  require_session = or_default false c.require_session;
}

-- `Resolve`. The order in which Go reads the three intervals is not fixed: the error names none.
unfoldable pub resolve : ServerConfig → Result ServerError ResolvedServerConfig
unfolding validate_server_hostname
resolve c = do
  validate_server_hostname c.hostname
  let resolved : ResolvedServerConfig = with_defaults c
  fail_if
      (is_not_positive resolved.discovery_interval
        || is_not_positive resolved.snapshot_interval
        || is_not_positive resolved.spawn_timeout)
      interval_not_positive
  ok resolved
