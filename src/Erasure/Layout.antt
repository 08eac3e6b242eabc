-- ===== src/Erasure/Layout.antt =====
-- src/erasure_coding.rs: the references of an intermediate chunk, from the span below it.
pub mod Bounds
pub mod Split
use weeb.Prelude.{
  ℕ, zero, suc, ◌+◌, ◌-◌, ◌*◌, ◌/◌, Bool, if◌then◌else◌, leb, ◌==◌, not, Option, none, some, ◌>>=◌,
  ◌>>◌, guard, checked_add, checked_mul, try_from, u64_max, usize_max, List, [], ◌∷◌, length, take,
  drop,
}
use weeb.Erasure.Level.{RedundancyLevel, parities, max_shards}
use weeb.Erasure.Tree.{chunk_size}

abbrev pub hash_size : ℕ
hash_size = 32

abbrev pub encrypted_reference_size : ℕ
encrypted_reference_size = 64

pub record ReferenceLayout : Type 0 where
  pub data_shards : ℕ
  pub parity_shards : ℕ
  pub child_capacity : ℕ

-- The loop that grows the span of one reference. A branching of 2 or more passes 2 ^ 64 in fewer
-- than the 64 rounds that `reference_layout` allows.
unfoldable pub grow_reference : ℕ → ℕ → ℕ → ℕ → Option ℕ
grow_reference zero branching span reference_size = none
grow_reference (suc rounds) branching span reference_size = do
  branch_size ← checked_mul u64_max reference_size branching
  let rest = grow_reference rounds branching span branch_size
  if leb span branch_size then some reference_size else rest

unfoldable pub reference_layout : ℕ → RedundancyLevel → Bool → Option ReferenceLayout
reference_layout span level encrypted =
    let shards = max_shards level encrypted in
    if leb span chunk_size
    then none
    else (if shards == 0 then none else (do
      reference_size ← grow_reference 64 shards span chunk_size
      rounded ← checked_add u64_max span (reference_size - 1)
      data_shards ← try_from usize_max (rounded / reference_size)
      some (record {
        data_shards = data_shards;
        parity_shards = parities level data_shards encrypted;
        child_capacity = reference_size;
      })))

unfoldable pub reference_count : ℕ → RedundancyLevel → Bool → Option (ℕ × ℕ)
reference_count span level encrypted = do
  layout ← reference_layout span level encrypted
  some (layout.data_shards, layout.parity_shards)

abbrev pub data_reference_size : Bool → ℕ
data_reference_size encrypted = if encrypted then encrypted_reference_size else hash_size

unfoldable pub encoded_reference_payload_len : ℕ → RedundancyLevel → Bool → Option ℕ
unfolding reference_count
encoded_reference_payload_len span level encrypted = do
  (data_shards, parity_shards) ← reference_count span level encrypted
  data_bytes ← checked_mul usize_max data_shards (data_reference_size encrypted)
  parity_bytes ← checked_mul usize_max parity_shards hash_size
  checked_add usize_max data_bytes parity_bytes

-- `chunks_exact`: the whole pieces of a size; `rounds` is at least their number.
unfoldable pub chunks_exact {ℓ} : {A : Type ℓ} → ℕ → ℕ → List A → List (List A)
chunks_exact zero size xs = []
chunks_exact (suc rounds) size xs =
    let rest = chunks_exact rounds size (drop size xs) in
    if leb size (length xs) then take size xs ∷ rest else []

unfoldable pub split_references :
    List ℕ → ReferenceLayout → Bool → Option (List (List ℕ) × List (List ℕ))
unfolding chunks_exact
split_references payload layout encrypted = do
  data_bytes ← checked_mul usize_max layout.data_shards (data_reference_size encrypted)
  parity_bytes ← checked_mul usize_max layout.parity_shards hash_size
  total ← checked_add usize_max data_bytes parity_bytes
  guard (length payload == total)
  some (
    chunks_exact layout.data_shards (data_reference_size encrypted) (take data_bytes payload),
    chunks_exact layout.parity_shards hash_size (drop data_bytes payload),
  )
