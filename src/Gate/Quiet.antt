-- ===== src/Gate/Quiet.antt =====
-- internal/supervisor/node.go: QuiesceRPC returns exactly when no call is left.
use mathlib.Core.Path.{subst}
use kanedias.Base.{
  ℕ, suc, ◌-◌, ◌<◌, ◌≡◌, ◌↔◌, ◌⊎◌, inl, inr, refl, Bool, true, false, not, ◌&&◌, ◌==◌, List, [],
  ◌∷◌, All, Option, none, some, arith, ok, if◌then◌else◌, Bool-cases, if-cases, ==_iff, sym, ◌∙◌,
  ◌≢◌,
}
use kanedias.Gate.{
  RpcAdmissionGate, Quiescing, returns, waits, new_gate, admit, release, quiesce_rpc, close_idle,
  is_closed, is_quiet,
}

-- The critical sections of the calls on a gate. A release with no admitted call does not happen.
pub data Step : Type 0 where
  admission end_of_call quiescence : Step

abbrev pub step : Step → RpcAdmissionGate → RpcAdmissionGate
step admission g = (admit g).0
step end_of_call g = if g.active == 0 then g else release g
step quiescence g = (quiesce_rpc g).0

abbrev pub run : List Step → RpcAdmissionGate → RpcAdmissionGate
run [] g = g
run (t ∷ ts) g = run ts (step t g)

-- The channel of a gate with calls is open and new; a gate without calls has none.
abbrev HasIdle : Option ℕ → ℕ → ℕ → List ℕ → Type 0
HasIdle none active next closings = active ≡ 0
HasIdle (some k) active next closings = (0 < active) × ((k < next) × (is_closed k closings ≡ false))

abbrev Inv : RpcAdmissionGate → Type 0
Inv g = HasIdle g.idle g.active g.next g.closings × All (λ k. k < g.next) g.closings

below-is_closed :
    (n : ℕ) (closings : List ℕ) → All (λ k. k < n) closings → is_closed n closings ≡ false
below-is_closed n [] h = refl
below-is_closed n (k ∷ closings) h = ground (arith, h.0, below-is_closed n closings h.1)

below_suc : (n : ℕ) (closings : List ℕ) → All (λ k. k < n) closings → All (λ k. k < suc n) closings
below_suc n [] h = tt
below_suc n (k ∷ closings) h = (omega (arith, h.0), below_suc n closings h.1)

-- What holds of a gate after a call of QuiesceRPC, which then does `q`.
abbrev Quieting : Quiescing → Option ℕ → ℕ → List ℕ → Type 0
Quieting returns idle active closings = active ≡ 0
Quieting (waits none) idle active closings = ⊥
Quieting (waits (some k)) idle active closings =
    ((active ≡ 0) × (is_closed k closings ≡ true))
    ⊎ ((0 < active) × ((idle ≡ some k) × (is_closed k closings ≡ false)))

release-Quieting :
    (q : Quiescing) (g : RpcAdmissionGate)
    → (g.active == 0) ≡ false
    → Quieting q g.idle g.active g.closings
    → Quieting q (release g).idle (release g).active (release g).closings
unfolding release
release-Quieting returns g busy h = absurd (ground (arith, busy, h))
release-Quieting (waits none) g busy h = absurd h
release-Quieting (waits (some k)) g busy (inl done) = absurd (ground (arith, busy, done.0))
release-Quieting (waits (some k)) g busy (inr more) = elim (Bool-cases (g.active - 1 == 0)) [
  | inl last ↦ inl (ground (arith, last), rw (last, more.1.0, (==_iff k k).1 refl) refl)
  | inr left ↦ inr (ground (arith, left, more.0), (rw (left) more.1.0, rw (left) more.1.1))
]

admit-HasIdle :
    (closed : Bool) (idle : Option ℕ) (active next : ℕ) (closings : List ℕ)
    → HasIdle idle active next closings
    → All (λ k. k < next) closings
    → HasIdle
        (if not closed && (active == 0) then some next else idle)
        (if closed then active else suc active)
        (if not closed && (active == 0) then suc next else next)
        closings
admit-HasIdle true idle active next closings h all = h
admit-HasIdle false none active next closings h all =
    rw ((==_iff active 0).1 h) (omega arith, (omega arith, below-is_closed next closings all))
admit-HasIdle false (some k) active next closings h all =
    let busy : (active == 0) ≡ false = ground (arith, h.0) in
    rw (busy) (omega arith, (h.1.0, h.1.1))

admit-Inv : (g : RpcAdmissionGate) → Inv g → Inv (admit g).0
unfolding admit
admit-Inv g h = (
  admit-HasIdle g.closed g.idle g.active g.next g.closings h.0 h.1,
  if-cases (λ n. All (λ k. k < n) g.closings) (not g.closed && (g.active == 0)) (suc g.next) g.next
      (λ _. below_suc g.next g.closings h.1) (λ _. h.1),
)

release-HasIdle :
    (idle : Option ℕ) (active next : ℕ) (closings : List ℕ)
    → (active == 0) ≡ false
    → HasIdle idle active next closings
    → HasIdle
        (if active - 1 == 0 then none else idle)
        (active - 1)
        next
        (if active - 1 == 0 then close_idle idle closings else closings)
release-HasIdle none active next closings busy h = absurd (ground (arith, busy, h))
release-HasIdle (some k) active next closings busy h = elim (Bool-cases (active - 1 == 0)) [
  | inl last ↦ rw (last) (ground (arith, last))
  | inr left ↦ rw (left) (ground (arith, left, h.0), (h.1.0, h.1.1))
]

close_idle-All :
    (idle : Option ℕ) (active next : ℕ) (closings : List ℕ)
    → HasIdle idle active next closings
    → All (λ k. k < next) closings
    → All (λ k. k < next) (close_idle idle closings)
close_idle-All none active next closings h all = all
close_idle-All (some k) active next closings h all = (h.1.0, all)

release-Inv : (g : RpcAdmissionGate) → (g.active == 0) ≡ false → Inv g → Inv (release g)
unfolding release
release-Inv g busy h = (
  release-HasIdle g.idle g.active g.next g.closings busy h.0,
  if-cases (All (λ k. k < g.next)) (g.active - 1 == 0) (close_idle g.idle g.closings) g.closings
      (λ _. close_idle-All g.idle g.active g.next g.closings h.0 h.1) (λ _. h.1),
)

step-Inv : (t : Step) (g : RpcAdmissionGate) → Inv g → Inv (step t g)
unfolding quiesce_rpc
step-Inv admission g h = admit-Inv g h
step-Inv end_of_call g h =
    if-cases Inv (g.active == 0) g (release g) (λ _. h) (λ busy. release-Inv g busy h)
step-Inv quiescence g h = h

run-Inv : (ts : List Step) (g : RpcAdmissionGate) → Inv g → Inv (run ts g)
run-Inv [] g h = h
run-Inv (t ∷ ts) g h = run-Inv ts (step t g) (step-Inv t g h)

-- The gate stays closed, and what QuiesceRPC waits for stays tied to the calls that are left.
abbrev After : Quiescing → RpcAdmissionGate → Type 0
After q g = (g.closed ≡ true) × Quieting q g.idle g.active g.closings

release-closed : (g : RpcAdmissionGate) → (release g).closed ≡ g.closed
unfolding release
release-closed g = refl

admit-closed : (g : RpcAdmissionGate) → g.closed ≡ true → (admit g).0 ≡ g
unfolding admit
admit-closed g h = rw (h) refl

step-After : (q : Quiescing) (t : Step) (g : RpcAdmissionGate) → After q g → After q (step t g)
unfolding quiesce_rpc
step-After q admission g h = subst (After q) (sym (admit-closed g h.0)) h
step-After q end_of_call g h =
    if-cases (After q) (g.active == 0) g (release g) (λ _. h)
      (λ busy. (release-closed g ∙ h.0, release-Quieting q g busy h.1))
step-After q quiescence g h = (refl, h.1)

run-After : (q : Quiescing) (ts : List Step) (g : RpcAdmissionGate) → After q g → After q (run ts g)
run-After q [] g h = h
run-After q (t ∷ ts) g h = run-After q ts (step t g) (step-After q t g h)

quiesce-Quieting :
    (idle : Option ℕ) (active next : ℕ) (closings : List ℕ)
    → HasIdle idle active next closings
    → Quieting (if active == 0 then returns else waits idle) idle active closings
quiesce-Quieting none active next closings h = rw ((==_iff active 0).1 h) h
quiesce-Quieting (some k) active next closings h =
    let busy : (active == 0) ≡ false = ground (arith, h.0) in rw (busy) (inr (h.0, (refl, h.1.1)))

quiet_iff :
    (q : Quiescing) (g : RpcAdmissionGate) → After q g → (is_quiet q g ≡ true) ↔ (g.active ≡ 0)
quiet_iff returns g h = (λ _. h.1, λ _. refl)
quiet_iff (waits none) g h = absurd h.1
quiet_iff (waits (some k)) g (shut, inl done) = (λ _. done.0, λ _. done.1)
quiet_iff (waits (some k)) g (shut, inr more) =
    (λ h. absurd (ground (arith, h, more.1.1)), λ h. absurd (omega (arith, h, more.0)))

admit_refused : (g : RpcAdmissionGate) → g.closed ≡ true → (admit g).1 ≢ ok tt
unfolding admit
admit_refused g h k = ground (arith, h, k)

-- Whatever calls were admitted and ended before a call of QuiesceRPC and whatever happens after it,
-- no call is admitted any more, and it may return without the end of its context exactly when no
-- admitted call is left.
pub quiesce_rpc-run :
    (before after : List Step)
    → let g = run before new_gate in
      let s = run after (quiesce_rpc g).0 in
      ((is_quiet (quiesce_rpc g).1 s ≡ true) ↔ (s.active ≡ 0)) × ((admit s).1 ≢ ok tt)
unfolding quiesce_rpc new_gate
quiesce_rpc-run before after =
    let g = run before new_gate in
    let inv = run-Inv before new_gate (refl, tt) in
    let later =
      run-After (quiesce_rpc g).1 after (quiesce_rpc g).0
        (refl, quiesce-Quieting g.idle g.active g.next g.closings inv.0) in
    (quiet_iff (quiesce_rpc g).1 _ later, admit_refused _ later.0)
