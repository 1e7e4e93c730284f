-- ===== src/Config/Resolve.antt =====
-- internal/config/server.go: what the settings of the server and the limits of events resolve to.
use kanedias.Base.{
  ℕ, zero, suc, ◌≡◌, ◌≢◌, ◌↔◌, ◌⊎◌, refl, sym, ap, Bool, false, Option, none, some, ok, ℤ, pos,
  negsuc, arith,
}
use kanedias.Config.Server.{
  ServerError, ServerConfig, ResolvedServerConfig, SupervisorEventsConfig, EventLimits,
  resolve_limit, limits, default_supervisor_event_max_events, default_supervisor_event_max_bytes,
  with_defaults, is_not_positive, or_default, resolve,
}
use kanedias.Config.Hostname.{IsHostname, validate_server_hostname-ok_iff}

-- An interval that is set and positive, or the default.
abbrev pub Interval : ℕ → Option ℤ → ℤ → Type 0
Interval default none r = r ≡ pos default
Interval default (some z) r = (r ≡ z) × (n : ℕ) × (z ≡ pos (suc n))

-- A switch that is set, or off.
abbrev pub Switch : Option Bool → Bool → Type 0
Switch none r = r ≡ false
Switch (some b) r = r ≡ b

or_default-Interval :
    (n : ℕ) (o : Option ℤ) (r : ℤ)
    → ((r ≡ or_default (pos (suc n)) o) × (is_not_positive (or_default (pos (suc n)) o) ≡ false))
      ↔ Interval (suc n) o r
or_default-Interval n none r = (λ h. h.0, λ h. (h, ground arith))
or_default-Interval n (some (pos zero)) r = (λ h. absurd (ground arith), λ h. absurd (ground arith))
or_default-Interval n (some (pos (suc k))) r = (λ h. (h.0, k, refl), λ h. (h.0, ground arith))
or_default-Interval n (some (negsuc k)) r = (λ h. absurd (ground arith), λ h. absurd (ground arith))

or_default-Switch : (o : Option Bool) (r : Bool) → (r ≡ or_default false o) ↔ Switch o r
or_default-Switch none r = (λ h. h, λ h. h)
or_default-Switch (some b) r = (λ h. h, λ h. h)

-- The settings of the server resolve exactly if the hostname is empty or a DNS name and each of the
-- three intervals that is set is positive. They are then as they are set, where an interval that is
-- not set is 5 s between discoveries, 1 s between snapshots and 2 min for a spawn, and a session is not
-- required unless that is set.
pub resolve-ok_iff :
    (c : ServerConfig) (r : ResolvedServerConfig)
    → (resolve c ≡ ok r) ↔ (
        ((c.hostname ≡ "") ⊎ IsHostname c.hostname)
        × Interval 5_000_000_000 c.discovery_interval r.discovery_interval
        × Interval 1_000_000_000 c.snapshot_interval r.snapshot_interval
        × Interval 120_000_000_000 c.spawn_timeout r.spawn_timeout
        × Switch c.require_session r.require_session
        × (r.hostname ≡ c.hostname)
        × (r.root_socket_dir ≡ c.root_socket_dir)
        × (r.session_log_dir ≡ c.session_log_dir)
        × (r.session_binary ≡ c.session_binary))
unfolding resolve
resolve-ok_iff c r =
    let host = validate_server_hostname-ok_iff c.hostname in
    let discovery = or_default-Interval 4_999_999_999 c.discovery_interval r.discovery_interval in
    let snapshot = or_default-Interval 999_999_999 c.snapshot_interval r.snapshot_interval in
    let spawn = or_default-Interval 119_999_999_999 c.spawn_timeout r.spawn_timeout in
    let switch = or_default-Switch c.require_session r.require_session in
    (
      λ h.
          let same : with_defaults c ≡ r = ground (arith, h) in
          (
            host.0 (ground (arith, h)),
            discovery.0 (ap (λ x. x.discovery_interval) (sym same), ground (arith, h)),
            snapshot.0 (ap (λ x. x.snapshot_interval) (sym same), ground (arith, h)),
            spawn.0 (ap (λ x. x.spawn_timeout) (sym same), ground (arith, h)),
            switch.0 (ap (λ x. x.require_session) (sym same)),
            ap (λ x. x.hostname) (sym same),
            ap (λ x. x.root_socket_dir) (sym same),
            ap (λ x. x.session_log_dir) (sym same),
            ap (λ x. x.session_binary) (sym same),
          ),
      λ h.
          let (name, d, s, p, required, h1, h2, h3, h4) = h in
          let (d1, d2) = discovery.1 d in
          let (s1, s2) = snapshot.1 s in
          let (p1, p2) = spawn.1 p in
          let same : r ≡ with_defaults c = cc (d1, s1, p1, switch.1 required, h1, h2, h3, h4) in
          rw (same) (ground (arith, host.1 name, d2, s2, p2)),
    )

-- A setting that is not negative, or the default.
abbrev pub Limit : ℕ → Option ℤ → ℕ → Type 0
Limit default none n = n ≡ default
Limit default (some z) n = z ≡ pos n

resolve_limit-ok_iff :
    (e : ServerError) (default n : ℕ) (o : Option ℤ)
    → (resolve_limit e default o ≡ ok n) ↔ Limit default o n
unfolding resolve_limit
resolve_limit-ok_iff e default n none = (λ h. ground (arith, h), λ h. ground (arith, h))
resolve_limit-ok_iff e default n (some (pos k)) = (λ h. ground (arith, h), λ h. ground (arith, h))
resolve_limit-ok_iff e default n (some (negsuc k)) =
    (λ h. ground (arith, h), λ h. ground (arith, h))

-- The limits resolve exactly to the settings or their defaults, where none is negative and at least
-- one of them is not 0.
pub limits-ok_iff :
    (c : SupervisorEventsConfig) (l : EventLimits)
    → (limits c ≡ ok l) ↔ (
        Limit default_supervisor_event_max_events c.max_events l.max_events
        × Limit default_supervisor_event_max_bytes c.max_bytes l.max_bytes
        × ((l.max_events ≢ 0) ⊎ (l.max_bytes ≢ 0)))
unfolding limits
limits-ok_iff c l =
    let events =
      resolve_limit-ok_iff ServerError.negative_events default_supervisor_event_max_events
        l.max_events c.max_events in
    let bytes =
      resolve_limit-ok_iff ServerError.negative_bytes default_supervisor_event_max_bytes l.max_bytes
        c.max_bytes in
    (
      λ h. (events.0 (ground (arith, h)), bytes.0 (ground (arith, h)), ground (arith, h)),
      λ h.
          let (first, second, enabled) = h in
          ground (arith, events.1 first, bytes.1 second, enabled),
    )
