-- ===== src/Mirror/Stream.antt =====
-- internal/manager/mirror.go: a mirror over a stream of events.
use mathlib.Core.List.{append_assoc, append-nil}
use kanedias.Base.{
  ℕ, ◌+◌, ◌-◌, ◌≤◌, ◌<◌, ◌≡◌, ◌≢◌, refl, ◌↔◌, ◌&&◌, not, List, [], ◌∷◌, ◌++◌, arith, length, Bool,
  true, false, Bool-cases, inl, inr, none, some, length-append, leb, All, if◌then◌else◌, ◌⊎◌,
  Option-cases,
}
use kanedias.Event.{EventEnvelope, retained_event_bytes, sum_bytes}
use kanedias.Broker.{EventBrokerOptions, is_over}
use kanedias.Broker
use kanedias.Broker.Ring.{evict-Kept, sum_bytes-append, longer}
use kanedias.Mirror.{
  EventMirror, ReplayGap, new_event_mirror, evict_events, evict, note_gap, is_well_formed, accept,
}

-- The eviction loop of the mirror is that of the broker's ring.
pub evict_events-eq :
    (c k : ℕ) (events : List EventEnvelope) (bytes : ℕ)
    → evict_events c k events bytes ≡ Broker.evict c k events bytes
unfolding evict_events Broker.evict
evict_events-eq c k [] b = refl
evict_events-eq c k (oldest ∷ events) b =
    rw (evict_events-eq c k events (b - retained_event_bytes oldest))

-- The numbers of a list of events rise, from above one bound up to another.
abbrev pub Rising : ℕ → List EventEnvelope → ℕ → Type 0
Rising lo [] hi = lo ≤ hi
Rising lo (e ∷ events) hi = (lo < e.seq) × Rising e.seq events hi

Rising-append :
    (lo hi : ℕ) (events : List EventEnvelope) (e : EventEnvelope)
    → Rising lo events hi
    → hi < e.seq
    → Rising lo (events ++ e ∷ []) e.seq
Rising-append lo hi [] e r h = omega arith
Rising-append lo hi (x ∷ events) e r h = (r.0, Rising-append x.seq hi events e r.1 h)

-- The mirror keeps the end of what it accepted, within its limits; the numbers of that rise up to
-- the last one, and there is no gap exactly where they are all numbers from 1 up to it.
pub record Mirrors (m : EventMirror) (accepted : List EventEnvelope) : Type 0 where
  pub counted : m.bytes ≡ sum_bytes m.events
  pub within : is_over m.max_events m.max_bytes (length m.events) m.bytes ≡ false
  pub older : List EventEnvelope
  pub suffix : older ++ m.events ≡ accepted
  pub rising : Rising 0 accepted m.last_seq
  pub few : length accepted ≤ m.last_seq
  pub gapless : (m.gap ≡ none) ↔ (length accepted ≡ m.last_seq)
  pub fits : m.last_seq < 18446744073709551616

known_gap :
    (m : EventMirror) (n : ℕ) (g : ReplayGap)
    → m.gap ≡ some g
    → (m.gap ≡ none) ↔ (n ≡ m.last_seq)
    → n ≢ m.last_seq
known_gap m n g known h e = cc (h.1 e)

gap_lem :
    (seq : ℕ) (m : EventMirror) (n : ℕ) {k : ℕ}
    → m.last_seq < seq
    → seq < 18446744073709551616
    → n ≤ m.last_seq
    → (m.gap ≡ none) ↔ (n ≡ m.last_seq)
    → k ≡ n + 1
    → (note_gap seq m ≡ none) ↔ (k ≡ seq)
unfolding note_gap
gap_lem seq m n later small few h e = elim (Option-cases m.gap) [
  | inl none_yet ↦ rw (none_yet, note_gap) (ground (arith, h.0 none_yet))
  | inr (g, known) ↦ (λ k. ground arith, λ k. absurd (omega (arith, known_gap m n g known h)))
]

accept-Mirrors :
    (json_valid : List ℕ → Bool) (e : EventEnvelope) (m : EventMirror)
    (accepted : List EventEnvelope)
    → is_well_formed json_valid e ≡ true
    → leb e.seq m.last_seq ≡ false
    → e.seq < 18446744073709551616
    → Mirrors m accepted
    → Mirrors (accept json_valid e m).0 (accepted ++ e ∷ [])
unfolding accept evict
accept-Mirrors v e m accepted ok fresh small h =
    let total = sum_bytes-append m.events (e ∷ []) in
    let k =
      evict-Kept m.max_events m.max_bytes (m.events ++ e ∷ []) (m.bytes + retained_event_bytes e)
        (omega (arith, h.counted, total)) in
    let same =
      evict_events-eq m.max_events m.max_bytes (m.events ++ e ∷ [])
        (m.bytes + retained_event_bytes e) in
    let later : m.last_seq < e.seq = ground arith in
    let more = length-append accepted (e ∷ []) in
    rw (ok, fresh, accept, evict, same)
      (record {
        counted = k.counted;
        within = k.within;
        older = h.older ++ k.dropped;
        suffix = longer e h.older k.dropped m.events _ accepted h.suffix k.suffix;
        rising = Rising-append 0 m.last_seq accepted e h.rising later;
        few = omega (arith, h.few, more);
        gapless = gap_lem e.seq m (length accepted) later small h.few h.gapless more;
        fits = small;
      })

-- The stream: what the mirror is at the end, and the events that it accepted.
abbrev pub accept_all :
    (List ℕ → Bool) → List EventEnvelope → EventMirror → EventMirror × List EventEnvelope
accept_all v [] m = (m, [])
accept_all v (e ∷ events) m =
    let (m', accepted) = accept_all v events (accept v e m).0 in
    (m', if (accept v e m).1 then e ∷ accepted else accepted)

accept_all-Mirrors :
    (v : List ℕ → Bool) (events : List EventEnvelope) (m : EventMirror) (old : List EventEnvelope)
    → All (λ e. e.seq < 18446744073709551616) events
    → Mirrors m old
    → let r = accept_all v events m in Mirrors r.0 (old ++ r.1)
accept_all-Mirrors v [] m old small h = simp append-nil h
accept_all-Mirrors v (e ∷ events) m old (small, rest) h =
    elim (Bool-cases (is_well_formed v e && not (leb e.seq m.last_seq))) [
      | inl new ↦
          let h' = accept-Mirrors v e m old (ground arith) (ground arith) small h in
          let taken : (accept v e m).1 ≡ true = unfold accept in ground arith in
          rw taken (
            rw (append_assoc old (e ∷ []) _) at
              (accept_all-Mirrors v events (accept v e m).0 (old ++ e ∷ []) rest h'))
      | inr old_one ↦
          let same : accept v e m ≡ (m, false) = unfold accept in ground arith in
          rw same (accept_all-Mirrors v events m old rest h)
    ]

-- From a new mirror, over every stream of events with 64-bit numbers: the mirror holds the end of
-- the events that it accepted, within its limits and with exact byte count; the numbers of the
-- accepted events rise; and it reports no gap exactly if they are all the numbers from 1 on.
pub stream-Mirrors :
    (v : List ℕ → Bool) (options : EventBrokerOptions) (events : List EventEnvelope)
    → All (λ e. e.seq < 18446744073709551616) events
    → let r = accept_all v events (new_event_mirror options) in Mirrors r.0 r.1
unfolding new_event_mirror
stream-Mirrors v options events small =
    accept_all-Mirrors v events (new_event_mirror options) [] small (record {
      counted = refl;
      within = ground arith;
      older = [];
      suffix = refl;
      rising = omega arith;
      few = omega arith;
      gapless = (λ _. refl, λ _. refl);
      fits = omega arith;
    })

-- Whether the mirror has nothing to do with an event any more.
abbrev IsPast : (List ℕ → Bool) → ℕ → EventEnvelope → Type 0
IsPast v last e = (is_well_formed v e ≡ false) ⊎ (e.seq ≤ last)

accept-last :
    (v : List ℕ → Bool) (e : EventEnvelope) (m : EventMirror)
    → (m.last_seq ≤ (accept v e m).0.last_seq) × IsPast v (accept v e m).0.last_seq e
unfolding accept
accept-last v e m = ground arith

All-IsPast :
    (v : List ℕ → Bool) (events : List EventEnvelope) (m : EventMirror)
    → (m.last_seq ≤ (accept_all v events m).0.last_seq)
      × All (IsPast v (accept_all v events m).0.last_seq) events
All-IsPast v [] m = (omega arith, tt)
All-IsPast v (e ∷ events) m =
    let (up, past) = accept-last v e m in
    let (ups, pasts) = All-IsPast v events (accept v e m).0 in (omega arith, (ground arith, pasts))

past_ignored :
    (v : List ℕ → Bool) (events : List EventEnvelope) (m : EventMirror)
    → All (IsPast v m.last_seq) events
    → accept_all v events m ≡ (m, [])
past_ignored v [] m h = refl
past_ignored v (e ∷ events) m h =
    let same : accept v e m ≡ (m, false) = unfold accept in ground arith in
    rw (same, past_ignored v events m h.1)

-- A replay of a stream that the mirror has seen, from any state, changes nothing and is accepted
-- in no part.
pub replay_ignored :
    (v : List ℕ → Bool) (events : List EventEnvelope) (m : EventMirror)
    → let seen = (accept_all v events m).0 in accept_all v events seen ≡ (seen, [])
replay_ignored v events m =
    past_ignored v events (accept_all v events m).0 (All-IsPast v events m).1
