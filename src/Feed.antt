-- ===== src/Feed.antt =====
-- src/feed.rs: the search for the last entry of a sequence feed. Probes of one wave run at the same
-- time, and complete in an order that is a parameter here; so is what a probe finds, which depends
-- on its index alone.
pub mod Collect
pub mod Levels
pub mod Seek
mod Tests
use weeb.Prelude.{
  ℕ, zero, suc, ◌+◌, ◌-◌, ◌%◌, ◌^◌, Bool, true, false, ◌&&◌, not, if◌then◌else◌, ltb, ◌==◌, Option,
  none, some, ◌>>=◌, List, [], ◌∷◌, length, get_or, set, replicate, checked_add, u64_max, sat_add,
}

abbrev pub feed_frontier_lookahead_levels : ℕ
feed_frontier_lookahead_levels = 8

pub data FeedProbe (T : Type 0) : Type 0 where
  found : T → FeedProbe T
  missing : FeedProbe T
  transient : FeedProbe T

-- A shift by 64 bits or more has no result.
unfoldable pub probe_index : ℕ → ℕ → Option ℕ
probe_index base level = do
  distance ← (if ltb level 64 then some (2 ^ level % 2 ^ 64) else none)
  checked_add u64_max base (distance - 1)

-- The levels from one on up to a last one have completed.
unfoldable pub all_completed : ℕ → ℕ → List Bool → Bool
all_completed zero level completed = true
all_completed (suc n) level completed =
    get_or completed level false && all_completed n (level + 1) completed

-- What a wave has seen so far.
pub record Wave (T : Type 0) : Type 0 where
  pub completed : List Bool
  pub missing_at : List (Option ℕ)
  pub highest : ℕ
  pub latest : Option (ℕ × T)

module _ {T : Type 0} where
  abbrev pub new_wave : Wave T
  new_wave = record {
    completed = replicate (feed_frontier_lookahead_levels + 1) false;
    missing_at = replicate (feed_frontier_lookahead_levels + 1) none;
    highest = 0;
    latest = none;
  }

  -- A probe of a level and an index completes.
  unfoldable pub see : Wave T → ℕ → ℕ → FeedProbe T → Wave T
  see w level index (found payload) =
      if ltb w.highest level
      then record w {
        completed = set w.completed level true;
        highest = level;
        latest = some (index, payload);
      }
      else record w { completed = set w.completed level true }
  see w level index missing = record w {
    completed = set w.completed level true;
    missing_at = set w.missing_at level (some index);
  }
  see w level index transient = record w { completed = set w.completed level true }

  -- What a wave gives once its frontier is proven.
  unfoldable pub proven : ℕ → Wave T → Option (ℕ × (ℕ × T) × Option ℕ)
  unfolding all_completed
  proven maximum_level w = do
    latest ← w.latest
    (if all_completed (maximum_level - w.highest) (w.highest + 1) w.completed
        then some (w.highest, latest, get_or w.missing_at (w.highest + 1) none)
        else none)

  unfoldable pub collect_feed_wave :
      List (ℕ × ℕ × FeedProbe T) → ℕ → Wave T → Option (ℕ × (ℕ × T) × Option ℕ)
  unfolding see proven
  collect_feed_wave [] maximum_level w = none
  collect_feed_wave ((level, index, result) ∷ probes) maximum_level w =
      let w' = see w level index result in
      let rest = collect_feed_wave probes maximum_level w' in
      elim (proven maximum_level w') [ some r ↦ some r | none ↦ rest ]

abbrev pub is_some : {A : Type 0} → Option A → Bool
is_some none = false
is_some (some a) = true

-- The highest level whose index there is, and 1 if there is none.
unfoldable pub effective_level_of : ℕ → ℕ → ℕ
unfolding probe_index
effective_level_of zero base = 1
effective_level_of (suc level) base = elim (probe_index base (suc level)) [
  | some index ↦ suc level
  | none ↦ effective_level_of level base
]

-- The levels of a wave, the highest first.
unfoldable pub levels_down : ℕ → List ℕ
levels_down zero = []
levels_down (suc level) = suc level ∷ levels_down level

module _ {T : Type 0} (probe : ℕ → FeedProbe T) where
  -- The probes at some levels, in the order in which they complete.
  unfoldable pub wave_probes : ℕ → List ℕ → List (ℕ × ℕ × FeedProbe T)
  unfolding probe_index
  wave_probes base [] = []
  wave_probes base (level ∷ levels) = elim (probe_index base level) [
    | none ↦ wave_probes base levels
    | some index ↦ (level, index, probe index) ∷ wave_probes base levels
  ]

pub data Frontier (T : Type 0) : Type 0 where
  -- The latest entry, if there is one, and the next index, if it is known to be free.
  ok : Option (ℕ × T) → Option ℕ → Frontier T
  err : Frontier T

-- How a round of the loop ends: with a result, or with the latest entry, the limit of the levels and
-- the index that is known to be missing for the next round.
pub data Round (T : Type 0) : Type 0 where
  done : Frontier T → Round T
  again : ℕ × T → ℕ → Option ℕ → Round T

module _ {T : Type 0} (probe : ℕ → FeedProbe T) where
  -- The probe behind an entry that may be the last.
  unfoldable pub probe_next : ℕ × T → ℕ → Round T
  probe_next latest next = elim (probe next) [
    | found payload ↦ again (next, payload) feed_frontier_lookahead_levels none
    | missing ↦ done (ok (some latest) (some next))
    | transient ↦ done (ok (some latest) none)
  ]

  -- The wave found all levels.
  unfoldable pub all_found : ℕ × T → Option ℕ → Round T
  unfolding probe_next
  all_found latest none = again latest feed_frontier_lookahead_levels none
  all_found latest (some m) =
      if m == latest.0 + 1
      then probe_next latest m
      else again latest feed_frontier_lookahead_levels none

  unfoldable pub after_wave : ℕ → ℕ × T → Option ℕ → Option (ℕ × (ℕ × T) × Option ℕ) → Round T
  unfolding probe_next all_found
  after_wave level latest known_missing none = probe_next latest (sat_add latest.0 1)
  after_wave level latest known_missing (some (highest, found_entry, missing_next)) =
      if not (highest == level)
      then again found_entry
          (if is_some missing_next then highest else feed_frontier_lookahead_levels) missing_next
      else all_found found_entry known_missing

  -- A round, with the order in which the futures of its wave complete.
  unfoldable pub seek_round : (List ℕ → List ℕ) → ℕ × T → ℕ → Option ℕ → Round T
  unfolding after_wave collect_feed_wave effective_level_of levels_down wave_probes
  seek_round order latest level_limit known_missing =
      let level = effective_level_of level_limit latest.0 in
      if latest.0 == u64_max
      then done (ok (some latest) none)
      else after_wave level latest known_missing (
          collect_feed_wave (wave_probes probe latest.0 (order (levels_down level))) level new_wave)

-- The orders of the waves, by the fuel that is left.
module _ {T : Type 0} (probe : ℕ → FeedProbe T) (completion : ℕ → List ℕ → List ℕ) where
  -- The loop, on fuel; `none` means that the fuel ran out.
  unfoldable pub seek_loop : ℕ → ℕ × T → ℕ → Option ℕ → Option (Frontier T)
  unfolding seek_round
  seek_loop zero latest level_limit known_missing = none
  seek_loop (suc fuel) latest level_limit known_missing =
      elim (seek_round probe (completion fuel) latest level_limit known_missing) [
        | done result ↦ some result
        | again latest' limit' known' ↦ seek_loop fuel latest' limit' known'
      ]

  unfoldable pub seek_sequence_feed_frontier : ℕ → Option (Frontier T)
  unfolding seek_loop
  seek_sequence_feed_frontier fuel = elim (probe 0) [
    | found payload ↦ seek_loop fuel (0, payload) feed_frontier_lookahead_levels none
    | missing ↦ some (ok none (some 0))
    | transient ↦ some err
  ]
