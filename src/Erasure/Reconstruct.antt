-- ===== src/Erasure/Reconstruct.antt =====
-- src/erasure_coding.rs: `ParityEncoder` and `reconstruct_data_indices`, with the cache of coding
-- matrices that they share.
pub mod Shards
pub mod Recover
pub mod Restored
pub mod Encoded
pub mod Total
use weeb.Prelude.{
  ℕ, zero, suc, ◌+◌, leb, ltb, ◌==◌, Bool, true, false, ◌||◌, ◌&&◌, if◌then◌else◌, Option, none,
  some, ℕ_discrete, length, get_elem?, get_or, set, take, List, [], ◌∷◌, map,
}
use weeb.Erasure.MatrixCache.{MatrixResult, ok, err, cached_coding_matrix}
use weeb.Erasure.BinaryField.{BinaryField}
use weeb.Erasure.Gauss.{
  ReedSolomonError, Coded, invalid_shard_count, invalid_shard_size, too_few_shards, ◌>>=◌, any,
}
use weeb.Erasure.Coding.{
  indices, is_empty, code_row_slices, coding_matrix, inverse_rows_for_selected,
}

abbrev pub CodingMatrixKey : Type 0
CodingMatrixKey = ℕ × ℕ

pub key_discrete : Discrete CodingMatrixKey
key_discrete = hlevel ℕ_discrete

abbrev pub member : ℕ → List ℕ → Bool
member i [] = false
member i (j ∷ js) = (j == i) || member i js

abbrev pub is_none {ℓ} : {B : Type ℓ} → Option B → Bool
is_none none = true
is_none (some b) = false

abbrev pub keep : (ℕ → Bool) → List ℕ → List ℕ
keep p [] = []
keep p (i ∷ is) = if p i then i ∷ keep p is else keep p is

abbrev pub MatrixCache : Type 0 → Type 0
MatrixCache A = List (CodingMatrixKey × List (List A))

pub record ParityEncoder (A : Type 0) : Type 0 where
  pub data_shards : List (List A)
  pub matrix : List (List A)
  pub shard_size : ℕ
  pub data_count : ℕ
  pub parity_count : ℕ

module _ {A : Type 0} ⦃k : BinaryField A⦄ where
  -- An empty shard, or one that is longer than the shards may be.
  abbrev pub wrong_size : ℕ → List A → Bool
  wrong_size shard_size shard = length shard == 0 || ltb shard_size (length shard)

  abbrev pub wrong_shard : ℕ → Option (List A) → Bool
  wrong_shard shard_size none = false
  wrong_shard shard_size (some shard) = wrong_size shard_size shard

  unfoldable pub encode_shard : ParityEncoder A → ℕ → Coded (List A)
  encode_shard encoder parity_index =
      if leb encoder.parity_count parity_index
      then err invalid_shard_count
      else ok (
          code_row_slices (get_or encoder.matrix (encoder.data_count + parity_index) [])
            encoder.data_shards encoder.shard_size)

  -- The indices of the shards that are there, in order.
  unfoldable pub present : ℕ → List (Option (List A)) → List ℕ
  present index [] = []
  present index (none ∷ shards) = present (suc index) shards
  present index (some shard ∷ shards) = index ∷ present (suc index) shards

  abbrev pub shard_at : List (Option (List A)) → ℕ → List A
  shard_at shards index = elim (get_or shards index none) [ none ↦ [] | some shard ↦ shard ]

  abbrev pub is_missing : List (Option (List A)) → List ℕ → ℕ → Bool
  is_missing shards requested_indices index =
      is_none (get_or shards index none) && member index requested_indices

  -- The checks, and what is selected and missing after them.
  unfoldable pub select_shards : List (Option (List A)) → ℕ → List ℕ → ℕ → Coded (List ℕ × List ℕ)
  select_shards shards data_count requested_indices shard_size =
      let selected = take data_count (present 0 shards) in
      if data_count == 0 || leb (length shards) data_count || ltb 256 (length shards)
      then err invalid_shard_count
      else if any (λ index. leb data_count index) requested_indices
      then err invalid_shard_count
      else if shard_size == 0 || any (wrong_shard shard_size) shards
      then err invalid_shard_size
      else if ltb (length selected) data_count
      then err too_few_shards
      else ok (selected, keep (is_missing shards requested_indices) (indices 0 data_count))

  -- `shards[data_index] = Some(...)` for each index and its value.
  unfoldable pub write_shards :
      List ℕ → List (List A) → List (Option (List A)) → List (Option (List A))
  write_shards [] values shards = shards
  write_shards (i ∷ is) [] shards = shards
  write_shards (i ∷ is) (v ∷ values) shards = write_shards is values (set shards i (some v))

  unfoldable pub recover :
      List (List A) → List (Option (List A)) → List ℕ → List ℕ → ℕ → Coded (List (Option (List A)))
  recover matrix shards selected missing shard_size =
      inverse_rows_for_selected matrix selected missing >>= λ decode_rows. ok (
        write_shards missing
          (map (λ (row : List A). code_row_slices row (map (shard_at shards) selected) shard_size)
            decode_rows)
          shards)

  module _ (point : ℕ → A) where
    abbrev pub matrix_of : CodingMatrixKey → Coded (List (List A))
    matrix_of key = coding_matrix point key.0 key.1

    unfoldable pub new_padded :
        MatrixCache A → List (List A) → ℕ → ℕ → MatrixCache A × Coded (ParityEncoder A)
    new_padded cache data_shards parity_count shard_size =
        let data_count = length data_shards in
        if data_count == 0 || parity_count == 0 || ltb 256 (data_count + parity_count)
        then (cache, err invalid_shard_count)
        else if shard_size == 0 || any (wrong_size shard_size) data_shards
        then (cache, err invalid_shard_size)
        else let (cache', matrix) =
            cached_coding_matrix key_discrete matrix_of (data_count, data_count + parity_count)
              cache in
          (
            cache',
            matrix >>= λ matrix. ok (record {
              data_shards = data_shards;
              matrix = matrix;
              shard_size = shard_size;
              data_count = data_count;
              parity_count = parity_count;
            }),
          )

    -- After the checks.
    unfoldable pub reconstruct_selected :
        MatrixCache A
        → List (Option (List A))
        → ℕ
        → ℕ
        → Coded (List ℕ × List ℕ)
        → MatrixCache A × Coded (List (Option (List A)))
    reconstruct_selected cache shards data_count shard_size (err e) = (cache, err e)
    reconstruct_selected cache shards data_count shard_size (ok (selected, missing)) =
        if is_empty missing
        then (cache, ok shards)
        else let (cache', matrix) =
            cached_coding_matrix key_discrete matrix_of (data_count, length shards) cache in
          (cache', matrix >>= λ matrix. recover matrix shards selected missing shard_size)

    unfoldable pub reconstruct_data_indices :
        MatrixCache A
        → List (Option (List A))
        → ℕ
        → List ℕ
        → ℕ
        → MatrixCache A × Coded (List (Option (List A)))
    reconstruct_data_indices cache shards data_count requested_indices shard_size =
        reconstruct_selected cache shards data_count shard_size
          (select_shards shards data_count requested_indices shard_size)
