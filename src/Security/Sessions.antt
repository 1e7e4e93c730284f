-- ===== src/Security/Sessions.antt =====
-- internal/server/security.go: which tokens are sessions.
use kanedias.Base.{
  ℕ, ◌+◌, ◌≤◌, ◌≡◌, refl, sym, ap, ◌∙◌, Bool, true, false, not, ◌&&◌, ◌||◌, ltb, List, [], ◌∷◌,
  ◌++◌, Option, none, some, String, if-cases, not-false, not-true, str_eq, arith,
}
use kanedias.Security.{
  SessionRecord, CapabilityStore, unexpired, purge, add_session, any_digest, Response,
  new_capability_store, valid_session, serve_bootstrap, require_session, default_session_ttl,
}

-- What reaches the server, at a time: an exchange of the bootstrap capability, with the token that would be
-- made, or a request with the cookie that it carries.
pub data Event : Type 0 where
  bootstrap : ℕ → String → Option String → Event
  request : ℕ → Option String → Event

abbrev pub time_of : Event → ℕ
time_of (bootstrap now provided token) = now
time_of (request now cookie) = now

-- Times do not go back, from a first one.
abbrev pub Ordered : ℕ → List Event → Type 0
Ordered before [] = Unit
Ordered before (event ∷ events) = (before ≤ time_of event) × Ordered (time_of event) events

abbrev pub end_time : ℕ → List Event → ℕ
end_time before [] = before
end_time before (event ∷ events) = end_time (time_of event) events

module _ (sum256 : String → String) where
  unfoldable pub step : Event → CapabilityStore → CapabilityStore
  step (bootstrap now provided token) s = (serve_bootstrap sum256 now provided token s).0
  step (request now cookie) s = (require_session sum256 now cookie s).0

  unfoldable pub run : List Event → CapabilityStore → CapabilityStore
  run [] s = s
  run (event ∷ events) s = run events (step event s)

  -- Whether an event gives a session with a digest that is still valid at a time: the bootstrap token was
  -- right, and less than the time to live has passed.
  abbrev pub gives : String → ℕ → String → Event → Bool
  gives secret now digest (request minted cookie) = false
  gives secret now digest (bootstrap minted provided none) = false
  gives secret now digest (bootstrap minted provided (some token)) =
      str_eq (sum256 provided) (sum256 secret)
      && (ltb now (minted + default_session_ttl) && str_eq digest (sum256 token))

  abbrev pub any_gives : String → ℕ → String → List Event → Bool
  any_gives secret now digest [] = false
  any_gives secret now digest (event ∷ events) =
      gives secret now digest event || any_gives secret now digest events

  -- A digest among the sessions that have not expired at a time.
  abbrev live : ℕ → String → List SessionRecord → Bool
  live now digest [] = false
  live now digest (r ∷ sessions) =
      (ltb now r.expires_at && str_eq digest r.digest) || live now digest sessions

  any_digest-unexpired :
      (now : ℕ) (digest : String) (sessions : List SessionRecord)
      → any_digest digest (unexpired now sessions) ≡ live now digest sessions
  unfolding unexpired
  any_digest-unexpired now digest [] = refl
  any_digest-unexpired now digest (r ∷ sessions) =
      ground (arith, any_digest-unexpired now digest sessions)

  live-unexpired :
      (now earlier : ℕ) (digest : String) (sessions : List SessionRecord)
      → earlier ≤ now
      → live now digest (unexpired earlier sessions) ≡ live now digest sessions
  unfolding unexpired
  live-unexpired now earlier digest [] h = refl
  live-unexpired now earlier digest (r ∷ sessions) h =
      ground (arith, live-unexpired now earlier digest sessions h)

  live-append :
      (now : ℕ) (digest : String) (xs : List SessionRecord) (r : SessionRecord)
      → live now digest (xs ++ (r ∷ []))
        ≡ (live now digest xs || (ltb now r.expires_at && str_eq digest r.digest))
  live-append now digest [] r = ground arith
  live-append now digest (x ∷ xs) r = ground (arith, live-append now digest xs r)

  or_assoc : (a b c : Bool) → ((a || b) || c) ≡ (a || (b || c))
  or_assoc a b c = ground arith

  refused : (a b c : Bool) → b ≡ false → a ≡ (a || (b && c))
  refused a b c h = ground arith

  granted :
      (a a' b b' c d : Bool)
      → a ≡ a'
      → b ≡ b'
      → d ≡ true
      → (a || (b && c)) ≡ (a' || (d && (b' && c)))
  granted a a' b b' c d h k l = ground arith

  -- A step adds the session that its event gives, and otherwise changes only what has expired.
  step-live :
      (secret : String) (event : Event) (s : CapabilityStore) (now : ℕ) (digest : String)
      → s.bootstrap_digest ≡ sum256 secret
      → s.session_ttl ≡ default_session_ttl
      → time_of event ≤ now
      → live now digest (step event s).sessions
        ≡ (live now digest s.sessions || gives secret now digest event)
  unfolding step require_session valid_session purge serve_bootstrap add_session
  step-live secret (request t none) s now digest same ttl later = ground arith
  step-live secret (request t (some token)) s now digest same ttl later =
      ground (arith, live-unexpired now t digest s.sessions later)
  step-live secret (bootstrap t provided none) s now digest same ttl later =
      if-cases
        (λ (r : CapabilityStore × Response).
          live now digest r.0.sessions ≡ (live now digest s.sessions || false))
        (not (str_eq (sum256 provided) s.bootstrap_digest)) _ _ (λ _. ground arith)
        (λ _. ground arith)
  step-live secret (bootstrap t provided (some token)) s now digest same ttl later =
      let right : str_eq (sum256 provided) s.bootstrap_digest
          ≡ str_eq (sum256 provided) (sum256 secret) =
        ap (str_eq (sum256 provided)) same in
      let deadline : ltb now (t + s.session_ttl) ≡ ltb now (t + default_session_ttl) =
        ap (λ ttl. ltb now (t + ttl)) ttl in
      if-cases
        (λ (r : CapabilityStore × Response). live now digest r.0.sessions ≡ (
          live now digest s.sessions
          || gives secret now digest (bootstrap t provided (some token))))
        (not (str_eq (sum256 provided) s.bootstrap_digest)) _ _
        (λ wrong. refused (live now digest s.sessions) _ _ (sym right ∙ not-true _ wrong))
        (λ given.
          live-append now digest (unexpired t s.sessions) _
          ∙ granted _ _ _ _ _ _ (live-unexpired now t digest s.sessions later) deadline
              (sym right ∙ not-false _ given))

  step-kept :
      (event : Event) (s : CapabilityStore)
      → ((step event s).bootstrap_digest ≡ s.bootstrap_digest)
        × ((step event s).session_ttl ≡ s.session_ttl)
  unfolding step require_session valid_session purge serve_bootstrap add_session
  step-kept (request t none) s = (refl, refl)
  step-kept (request t (some token)) s = (refl, refl)
  step-kept (bootstrap t provided none) s =
      if-cases
        (λ (r : CapabilityStore × Response).
          (r.0.bootstrap_digest ≡ s.bootstrap_digest) × (r.0.session_ttl ≡ s.session_ttl))
        (not (str_eq (sum256 provided) s.bootstrap_digest)) _ _ (λ _. (refl, refl))
        (λ _. (refl, refl))
  step-kept (bootstrap t provided (some token)) s =
      if-cases
        (λ (r : CapabilityStore × Response).
          (r.0.bootstrap_digest ≡ s.bootstrap_digest) × (r.0.session_ttl ≡ s.session_ttl))
        (not (str_eq (sum256 provided) s.bootstrap_digest)) _ _ (λ _. (refl, refl))
        (λ _. (refl, refl))

  end_time_le :
      (before : ℕ) (events : List Event) → Ordered before events → before ≤ end_time before events
  end_time_le before [] h = omega arith
  end_time_le before (event ∷ events) h = omega (arith, h.0, end_time_le (time_of event) events h.1)

  run-live :
      (secret : String) (before : ℕ) (events : List Event) (s : CapabilityStore) (now : ℕ)
      (digest : String)
      → s.bootstrap_digest ≡ sum256 secret
      → s.session_ttl ≡ default_session_ttl
      → Ordered before events
      → end_time before events ≤ now
      → live now digest (run events s).sessions
        ≡ (live now digest s.sessions || any_gives secret now digest events)
  unfolding run
  run-live secret before [] s now digest same ttl ordered later = ground arith
  run-live secret before (event ∷ events) s now digest same ttl ordered later =
      let kept = step-kept event s in
      let reached : time_of event ≤ now =
        omega (arith, end_time_le (time_of event) events ordered.1, later) in
      let rest =
        run-live secret (time_of event) events (step event s) now digest (kept.0 ∙ same)
          (kept.1 ∙ ttl) ordered.1 later in
      let first = step-live secret event s now digest same ttl reached in
      rest
      ∙ ap (λ b. b || any_gives secret now digest events) first
      ∙ or_assoc (live now digest s.sessions) (gives secret now digest event)
          (any_gives secret now digest events)

  -- After any requests and exchanges, at times that do not go back, a request goes on exactly if its cookie
  -- has the digest of a token that an exchange with the right bootstrap token gave less than 6 hours before.
  pub require_session-gives :
      (secret : String) (before : ℕ) (events : List Event) (now : ℕ) (token : String)
      → Ordered before events
      → end_time before events ≤ now
      → (require_session sum256 now
          (some token)
          (run events (new_capability_store sum256 secret))).1
        ≡ any_gives secret now (sum256 token) events
  unfolding require_session valid_session purge new_capability_store
  require_session-gives secret before events now token ordered later =
      any_digest-unexpired now (sum256 token)
        (run events (new_capability_store sum256 secret)).sessions
      ∙ run-live secret before events (new_capability_store sum256 secret) now (sum256 token) refl
          refl ordered later
