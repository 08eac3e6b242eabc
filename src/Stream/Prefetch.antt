-- ===== src/Stream/Prefetch.antt =====
-- src/stream_conventions.rs: how far a player reads ahead, in stages.
use weeb.Prelude.{
  ℕ, ◌+◌, ◌-◌, ◌*◌, ◌/◌, ◌≤◌, ◌<◌, min, if◌then◌else◌, leb, List, [], ◌∷◌, ◌≡◌, arith, sat_add,
  Bool-cases, inl, inr, u64_max,
}

abbrev pub mib_bytes : ℕ
mib_bytes = 1024 * 1024

abbrev pub media_storage_window_bytes : ℕ
media_storage_window_bytes = mib_bytes / 2

abbrev pub media_startup_response_bytes : ℕ
media_startup_response_bytes = 8 * mib_bytes

abbrev pub media_prefetch_active_headroom_bytes : ℕ
media_prefetch_active_headroom_bytes = media_startup_response_bytes + 3 * media_storage_window_bytes

abbrev pub media_prefetch_ahead_hard_limit_bytes : ℕ
media_prefetch_ahead_hard_limit_bytes = 96 * mib_bytes

abbrev pub media_prefetch_stage_bytes : List ℕ
media_prefetch_stage_bytes =
    4 * mib_bytes
    ∷ 4 * mib_bytes
    ∷ 4 * mib_bytes
    ∷ 4 * mib_bytes
    ∷ 8 * mib_bytes
    ∷ 8 * mib_bytes
    ∷ 8 * mib_bytes
    ∷ 8 * mib_bytes
    ∷ 16 * mib_bytes
    ∷ 32 * mib_bytes
    ∷ []

unfoldable pub media_prefetch_ahead_limit_bytes : ℕ → ℕ
media_prefetch_ahead_limit_bytes cache_budget_bytes =
    min (cache_budget_bytes - media_prefetch_active_headroom_bytes)
      media_prefetch_ahead_hard_limit_bytes

-- The loop over the stages that are left, from the target so far.
unfoldable pub stage_loop : ℕ → List ℕ → ℕ → List ℕ
stage_loop limit [] target = []
stage_loop limit (stage_bytes ∷ stages) target =
    if leb limit target
    then []
    else (let next = min (sat_add target stage_bytes) limit in next ∷ stage_loop limit stages next)

unfoldable pub media_prefetch_stage_targets : ℕ → List ℕ
unfolding stage_loop
media_prefetch_stage_targets ahead_limit_bytes =
    stage_loop (min ahead_limit_bytes media_prefetch_ahead_hard_limit_bytes)
      media_prefetch_stage_bytes 0

-- Targets that rise from `low`, by at most 32 MiB each, and end at `high`.
abbrev pub IsLadder : ℕ → ℕ → List ℕ → Type 0
IsLadder low high [] = low ≡ high
IsLadder low high (t ∷ ts) = (low < t) × (t ≤ low + 32 * mib_bytes) × IsLadder t high ts

abbrev total : List ℕ → ℕ
total [] = 0
total (b ∷ bs) = b + total bs

-- Every stage has some bytes, and 32 MiB at most.
abbrev AreStages : List ℕ → Type 0
AreStages [] = 0 ≤ 0
AreStages (b ∷ bs) = (0 < b) × (b ≤ 32 * mib_bytes) × AreStages bs

stage_loop-IsLadder :
    (limit target : ℕ) (stages : List ℕ)
    → target ≤ limit
    → limit ≤ target + total stages
    → limit ≤ u64_max
    → AreStages stages
    → IsLadder target limit (stage_loop limit stages target)
unfolding stage_loop
stage_loop-IsLadder limit target [] below room top ok = omega arith
stage_loop-IsLadder limit target (b ∷ bs) below room top (pos, few, ok) =
    elim (Bool-cases (leb limit target)) [
      | inl reached ↦ rw reached (ground arith)
      | inr left ↦ rw left (
        ground arith,
        omega arith,
        stage_loop-IsLadder limit (min (sat_add target b) limit) bs (omega arith) (omega arith) top
            ok,
      )
    ]

-- The targets rise strictly from 0, in steps of 32 MiB at most, and the last one is the smaller
-- of the limit asked for and 96 MiB: the stages are never used up before that.
pub media_prefetch_stage_targets-IsLadder :
    (ahead_limit_bytes : ℕ)
    → IsLadder 0
        (min ahead_limit_bytes media_prefetch_ahead_hard_limit_bytes)
        (media_prefetch_stage_targets ahead_limit_bytes)
unfolding media_prefetch_stage_targets
media_prefetch_stage_targets-IsLadder ahead_limit_bytes =
    stage_loop-IsLadder _ 0 media_prefetch_stage_bytes (omega arith) (omega arith) (omega arith)
      (omega arith)
