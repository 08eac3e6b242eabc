-- ===== src/Feed/Seek.antt =====
-- src/feed.rs: the search finds the last entry of a feed without gaps.
use weeb.Prelude.{
  ℕ, zero, suc, ◌+◌, ◌-◌, ◌≤◌, ◌<◌, Bool, true, false, Bool-cases, ◌||◌, if◌then◌else◌, ltb, ltb→lt,
  ◌==◌, Option, none, some, List, [], ◌∷◌, All, u64_max, sat_add, ◌≡◌, refl, ap, ◌∙◌, inl, inr,
  arith,
}
use mathlib.Core.List.{Permᴰ}
use native.Mathlib.Nat.{pow-suc, pow-zero}
use weeb.Feed.{
  FeedProbe, found, missing, new_wave, collect_feed_wave, effective_level_of, levels_down,
  wave_probes, Frontier, ok, Round, done, again, probe_next, all_found, after_wave, seek_round,
  seek_loop, seek_sequence_feed_frontier,
}
use weeb.Feed.Collect.{
  outcome, events, expected, IsCovered, collect_feed_wave-expected, new_wave-IsSeen, new_wave-open,
}
use weeb.Feed.Levels.{
  pow_mono, index_at, index_mono, probe_index-fits, effective_level, All-perm, has-perm,
  levels_down-le, has-levels_down, bound_of, index_at-bound_of, bound_of-above,
}

or_true : (b : Bool) → (b || true) ≡ true
or_true true = refl
or_true false = refl

module _ {T : Type 0} (payload_of : ℕ → T) (count : ℕ) where
  -- A feed with so many entries, and nothing behind them.
  abbrev pub entries : ℕ → FeedProbe T
  entries index = if ltb index count then found (payload_of index) else missing

  -- The probes of a wave are the events that it is proven for.
  wave_probes-events :
      (base top : ℕ) (levels : List ℕ)
      → base < count
      → top ≤ 8
      → index_at base top ≤ u64_max
      → All (λ l. l ≤ top) levels
      → wave_probes entries base levels
        ≡ events (index_at base) payload_of top (bound_of top base count) levels
  unfolding wave_probes
  wave_probes-events base top [] h few fits inside = refl
  wave_probes-events base top (level ∷ levels) h few fits inside =
      let bound : ℕ = bound_of top base count in
      let index =
        probe_index-fits base level (omega (arith, inside.0))
          (omega (arith, index_mono base level top inside.0)) in
      let same : entries (index_at base level)
          ≡ outcome (index_at base) payload_of top bound level =
        elim (Bool-cases (ltb bound level)) [
          | inl above ↦
              let f : ltb (index_at base level) count ≡ false =
                ground (arith, bound_of-above top base count level (ltb→lt _ _ above) inside.0) in
              rw (above, f) refl
          | inr lower ↦
              let le : level ≤ bound = ground (arith, lower) in
              let t : ltb (index_at base level) count ≡ true =
                ground
                  (arith, index_mono base level bound le, index_at-bound_of top base count h) in
              rw (lower, t) refl
        ] in
      rw (wave_probes, index)
        (ap (λ t. (level, index_at base level, entries (index_at base level)) ∷ t)
            (wave_probes-events base top levels h few fits inside.1)
          ∙ ap
              (λ r.
                (level, index_at base level, r)
                ∷ events (index_at base) payload_of top bound levels)
              same)

  -- What a wave gives, in whatever order its probes complete.
  wave_lem :
      (base top : ℕ) (levels : List ℕ)
      → base < count
      → top ≤ 8
      → index_at base top ≤ u64_max
      → Permᴰ levels (levels_down top)
      → collect_feed_wave (wave_probes entries base levels) top new_wave
        ≡ expected (index_at base) payload_of top (bound_of top base count)
  wave_lem base top levels h few fits perm =
      let inside : All (λ l. l ≤ top) levels =
        All-perm (λ l. l ≤ top) perm (levels_down-le top top (omega arith)) in
      let bound : ℕ = bound_of top base count in
      let covered : IsCovered (index_at base) payload_of top bound new_wave levels =
        λ l pos in_wave. rw (has-perm l perm, has-levels_down top l pos in_wave) (or_true _) in
      rw (wave_probes-events base top levels h few fits inside) (
        collect_feed_wave-expected (index_at base) payload_of top bound levels new_wave
          (index_at-bound_of top base count h).0 few inside
          (new_wave-IsSeen (index_at base) payload_of top bound) covered
          (new_wave-open (index_at base) payload_of top bound))

  -- Where the known index is no entry.
  abbrev IsFree : Option ℕ → Type 0
  IsFree none = Unit
  IsFree (some m) = count ≤ m

  abbrev last_found : Round T
  last_found = done (ok (some (count - 1, payload_of (count - 1))) (some count))

  -- A good round finds the last entry, or goes on with a later one.
  data IsGood (base : ℕ) : Round T → Type 0 where
    finished : {r : Round T} → r ≡ last_found → IsGood base r
    further :
        (base' limit : ℕ) (known : Option ℕ) {r : Round T}
        → r ≡ again (base', payload_of base') limit known
        → base < base'
        → base' < count
        → limit ≤ 8
        → IsFree known
        → IsGood base r

  probe_next-last :
      (base : ℕ) → base + 1 ≡ count → probe_next entries (base, payload_of base) count ≡ last_found
  unfolding probe_next
  probe_next-last base e =
      let f : ltb count count ≡ false = ground arith in
      let b : base ≡ count - 1 = omega arith in
      rw (probe_next, f) (ap (λ k. done (ok (some (k, payload_of k)) (some count))) b)

  all_found-IsGood :
      (base base' : ℕ) (known : Option ℕ)
      → base < base'
      → base' < count
      → IsFree known
      → IsGood base (all_found entries (base', payload_of base') known)
  unfolding all_found
  all_found-IsGood base base' none later h free = further base' 8 none refl later h (omega arith) tt
  all_found-IsGood base base' (some m) later h free = elim (Bool-cases (m == base' + 1)) [
    | inl next ↦
        let e : base' + 1 ≡ count = ground (arith, next, free) in
        let c : m ≡ count = ground (arith, next, free) in
        finished (rw (next, c) (probe_next-last base' e))
    | inr other ↦ rw other (further base' 8 none refl later h (omega arith) tt)
  ]

  after_wave-IsGood :
      (base top : ℕ) (known : Option ℕ)
      → base < count
      → count ≤ u64_max
      → 0 < top
      → top ≤ 8
      → IsFree known
      → IsGood base (
          after_wave entries top
            (base, payload_of base)
            known
            (expected (index_at base) payload_of top (bound_of top base count)))
  unfolding after_wave
  after_wave-IsGood base top known h max some_level few free =
      let bound : ℕ = bound_of top base count in
      let (bounded, entry) = index_at-bound_of top base count h in
      elim (Bool-cases (bound == 0)) [
        | inl none_found ↦
            let beyond = bound_of-above top base count 1 (ground (arith, none_found)) some_level in
            let e : base + 1 ≡ count = omega (arith, pow-suc 2 0, pow-zero 2) in
            let n : sat_add base 1 ≡ count = omega arith in
            finished (rw (none_found, n) (probe_next-last base e))
        | inr some_found ↦
            let later : base < index_at base bound =
              omega
                (arith, pow_mono 1 bound (ground (arith, some_found)), pow-suc 2 0, pow-zero 2) in
            elim (Bool-cases (bound == top)) [
              | inl all ↦
                  rw (some_found, all)
                    (all_found-IsGood base (index_at base bound) known later entry free)
              | inr part ↦
                  let m : ltb bound top ≡ true = ground (arith, part, bounded) in
                  rw (some_found, part, m)
                    (further (index_at base bound) bound (some (index_at base (bound + 1))) refl
                      later entry (omega arith)
                      (bound_of-above top base count (bound + 1) (omega arith)
                        (ground (arith, part, bounded))))
            ]
      ]

  seek_round-IsGood :
      (order : List ℕ → List ℕ) (base limit : ℕ) (known : Option ℕ)
      → ((levels : List ℕ) → Permᴰ (order levels) levels)
      → base < count
      → count ≤ u64_max
      → limit ≤ 8
      → IsFree known
      → IsGood base (seek_round entries order (base, payload_of base) limit known)
  unfolding seek_round
  seek_round-IsGood order base limit known complete h max few free =
      let top : ℕ = effective_level_of limit base in
      let (fits, some_level, top_few) = effective_level limit base (omega arith) few in
      let wave =
        wave_lem base top (order (levels_down top)) h top_few fits (complete (levels_down top)) in
      let not_max : (base == u64_max) ≡ false = ground arith in
      rw (not_max, wave) (after_wave-IsGood base top known h max some_level top_few free)

  abbrev pub last_entry : Frontier T
  last_entry = ok (some (count - 1, payload_of (count - 1))) (some count)

  module _ (completion : ℕ → List ℕ → List ℕ)
      (complete : (fuel : ℕ) (levels : List ℕ) → Permᴰ (completion fuel levels) levels) where
    -- The end of a round, where the later rounds are known to be right.
    after_round :
        (fuel base : ℕ) (r : Round T)
        → IsGood base r
        → ((base' limit : ℕ) (known : Option ℕ)
            → base < base'
            → base' < count
            → limit ≤ 8
            → IsFree known
            → seek_loop entries completion fuel (base', payload_of base') limit known
              ≡ some last_entry)
        → (elim r as (λ _. Option (Frontier T)) [
          | done result ↦ some result
          | again latest limit known ↦ seek_loop entries completion fuel latest limit known
        ])
          ≡ some last_entry
    after_round fuel base r (finished e) rounds = rw e refl
    after_round fuel base r (further base' limit known e later h few free) rounds =
        rw e (rounds base' limit known later h few free)

    seek_loop-last :
        (fuel base limit : ℕ) (known : Option ℕ)
        → base < count
        → count ≤ u64_max
        → limit ≤ 8
        → IsFree known
        → count ≤ base + fuel
        → seek_loop entries completion fuel (base, payload_of base) limit known ≡ some last_entry
    unfolding seek_loop
    seek_loop-last zero base limit known h max few free enough = absurd (omega arith)
    seek_loop-last (suc fuel) base limit known h max few free enough =
        after_round fuel base
          (seek_round entries (completion fuel) (base, payload_of base) limit known)
          (seek_round-IsGood (completion fuel) base limit known (complete fuel) h max few free)
          (λ base' limit' known' later h' few' free'.
            seek_loop-last fuel base' limit' known' h' max few' free' (omega arith))

    -- Over a feed with `count` entries and nothing behind them, the search ends with the last entry
    -- and the index behind it, for any order in which the probes of each wave complete; as many
    -- rounds as there are entries are enough.
    pub seek_sequence_feed_frontier-last :
        (fuel : ℕ)
        → 0 < count
        → count ≤ u64_max
        → count ≤ fuel
        → seek_sequence_feed_frontier entries completion fuel ≡ some last_entry
    unfolding seek_sequence_feed_frontier
    seek_sequence_feed_frontier-last fuel some_entries max enough =
        let first : ltb 0 count ≡ true = ground arith in
        rw (seek_sequence_feed_frontier, first)
          (seek_loop-last fuel 0 8 none some_entries max (omega arith) tt (omega arith))
