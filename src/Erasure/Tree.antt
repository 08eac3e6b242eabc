-- ===== src/Erasure/Tree.antt =====
-- src/erasure_coding.rs: how many chunks an upload of some length makes.
pub mod Count
use weeb.Prelude.{
  ℕ, zero, suc, ◌+◌, ◌-◌, ◌*◌, ◌/◌, ◌%◌, max, Bool, if◌then◌else◌, ltb, leb, ◌==◌, Option, none,
  some, ◌>>=◌, ◌>>◌, guard, checked_add, checked_mul, try_from, u64_max, usize_max,
}
use weeb.Erasure.Level.{RedundancyLevel, parities, max_shards}

abbrev pub chunk_size : ℕ
chunk_size = 4096

abbrev pub bee_max_upload_tree_levels : ℕ
bee_max_upload_tree_levels = 7

-- `div_ceil`.
abbrev pub div_ceil : ℕ → ℕ → ℕ
div_ceil a b = (a + (b - 1)) / b

-- One round of the loop: the parents, the parities and the chunks of the next level.
unfoldable pub tree_level : RedundancyLevel → Bool → ℕ → ℕ → Option (ℕ × ℕ × ℕ)
tree_level level encrypted shards input_chunks = do
  let full_groups = input_chunks / shards
  let remainder = input_chunks % shards
  partial_group_shards ← if ltb 1 remainder then try_from usize_max remainder else some 0
  let partial_groups : ℕ = if partial_group_shards == 0 then 0 else 1
  let carrier_chunks : ℕ = if remainder == 1 then 1 else 0
  level_parents ← checked_add u64_max full_groups partial_groups
  group ← try_from usize_max shards
  full_parities ← checked_mul u64_max full_groups (parities level group encrypted)
  let partial_parities =
      if partial_group_shards == 0 then 0 else parities level partial_group_shards encrypted
  level_parities ← checked_add u64_max full_parities partial_parities
  output_chunks ← checked_add u64_max level_parents carrier_chunks
  guard (ltb output_chunks input_chunks)
  some (level_parents, level_parities, output_chunks)

-- The loop, over the levels that are still allowed.
unfoldable pub tree_loop : RedundancyLevel → Bool → ℕ → ℕ → ℕ → ℕ → Option ℕ
tree_loop level encrypted shards zero input_chunks total_chunks =
    if leb input_chunks 1 then some total_chunks else none
tree_loop level encrypted shards (suc left) input_chunks total_chunks =
    if leb input_chunks 1 then some total_chunks else (do
      (level_parents, level_parities, output_chunks) ←
          tree_level level encrypted shards input_chunks
      with_parents ← checked_add u64_max total_chunks level_parents
      with_parities ← checked_add u64_max with_parents level_parities
      tree_loop level encrypted shards left output_chunks with_parities)

unfoldable pub upload_tree_chunk_count : ℕ → RedundancyLevel → Bool → Option ℕ
upload_tree_chunk_count data_length level encrypted =
    let input_chunks = max (div_ceil data_length chunk_size) 1 in
    let shards = max_shards level encrypted in
    if ltb shards 2
    then none
    else tree_loop level encrypted shards bee_max_upload_tree_levels input_chunks input_chunks
