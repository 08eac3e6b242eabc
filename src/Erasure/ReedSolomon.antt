-- ===== src/Erasure/ReedSolomon.antt =====
-- src/erasure_coding.rs: Reed-Solomon coding of bytes, with GF(256) for the field and the bytes
-- themselves for the points of the Vandermonde matrix.
mod Tests
use weeb.Prelude.{
  ℕ, zero, suc, ◌+◌, ◌-◌, ◌%◌, ◌<◌, ◌≤◌, bit_xor, leb, ltb, false, Option, none, some, length,
  length-map, get_or, All, List, [], ◌∷◌, ◌++◌, map, ◌≡◌, ◌↔◌, refl, sym, ap, ◌∙◌, arith,
}
use mathlib.Core.Path.{subst}
use weeb.Prelude.Bits.{bit_xor_comm, bit_xor_assoc}
use weeb.Erasure.BinaryField.{BinaryField}
use weeb.Erasure.BinaryField.Vectors.{dot}
use weeb.Erasure.MatrixCache.{MatrixResult, ok}
use weeb.Erasure.Gauss.{Coded, any, entry}
use weeb.Erasure.Gf256.{gf_mul, gf_inverse}
use weeb.Erasure.Gf256.Laws.{gf_mul_assoc, gf_mul_comm, one-gf_mul, gf_inverse-gf_mul}
use weeb.Erasure.Gf256.Sums.{gf_mul-bit_xor}
use weeb.Erasure.Gf256.Instance.{Byte, gf256}
use weeb.Erasure.Coding.{indices, code_row_slices, coding_matrix}
use weeb.Erasure.Coding.Systematic.{length-indices, get-indices}
use weeb.Erasure.Coding.Matrix.{row_of, systematic, coding_matrix_lem}
use weeb.Erasure.Reconstruct.{
  MatrixCache, ParityEncoder, wrong_size, present, encode_shard, new_padded,
  reconstruct_data_indices,
}
use weeb.Erasure.Reconstruct.Shards.{ArePartOf}
use weeb.Erasure.Reconstruct.Restored.{Restored}
use weeb.Erasure.Reconstruct.Encoded.{
  ok_same, AreParities, IsServing, CanEncode, encoder_of, new_padded_lem, new_padded_only,
}
use weeb.Erasure.Reconstruct.Total.{reconstruct_lem}

-- `row_index as u8`.
abbrev pub byte_at : ℕ → Byte
byte_at n = (n % 256, omega arith)

pub byte_at-distinct : (i j : ℕ) → i < 256 → j < 256 → byte_at i ≡ byte_at j → i ≡ j
byte_at-distinct i j hi hj e =
    let same : i % 256 ≡ j % 256 = ap (λ (b : Byte). b.0) e in omega arith

-- For three bytes of which the first is not zero, multiplication by the table is associative and
-- commutative, distributes over exclusive or, has the unit one, and the first byte has the inverse that
-- `gf_inverse` computes.
pub gf_mul_laws :
    (a b c : ℕ)
    → a < 256
    → b < 256
    → c < 256
    → 0 < a
    → (gf_mul (gf_mul a b) c ≡ gf_mul a (gf_mul b c))
      × (gf_mul a b ≡ gf_mul b a)
      × (gf_mul a (bit_xor b c) ≡ bit_xor (gf_mul a b) (gf_mul a c))
      × (gf_mul 1 a ≡ a)
      × (gf_mul (gf_inverse a) a ≡ 1)
gf_mul_laws a b c ha hb hc pos = (
  gf_mul_assoc a b c ha hb hc,
  gf_mul_comm a b ha hb,
  gf_mul-bit_xor a b c ha hb hc,
  one-gf_mul a ha,
  gf_inverse-gf_mul a ha pos,
)

-- For at least one and at most as many data shards as shards, of which there are at most 256, the coding
-- matrix exists, with a row for each shard, and each of its first rows picks its own entry of any column.
pub coding_matrix-systematic :
    (d t i : ℕ) (x : List Byte)
    → 0 < d
    → d ≤ t
    → t ≤ 256
    → i < d
    → length x ≡ d
    → (matrix : List (List Byte)) × (coding_matrix byte_at d t ≡ ok matrix)
      × (length matrix ≡ t)
      × (dot (get_or matrix i []) x ≡ entry x i)
coding_matrix-systematic d t i x pos le max lt lx =
    let (inv, h, e) = coding_matrix_lem byte_at byte_at-distinct d t pos le max in
    let row = row_of byte_at byte_at-distinct d inv in
    let same : get_or (map row (indices 0 t)) i [] ≡ row i =
      get-indices row [] 0 t i (omega arith) ∙ ap row {x = 0 + i} {y = i} (omega arith) in
    (
      map row (indices 0 t),
      e,
      length-map (indices 0 t) row ∙ length-indices 0 t,
      ap (λ v. dot v x) same ∙ systematic byte_at byte_at-distinct d inv h i x lt lx,
    )

-- With a cache whose matrices are those of their keys, an encoder is made exactly if there are data and
-- parity shards, at most 256 together, and no data shard is empty or longer than the shard size.
pub new_padded_iff :
    (cache : MatrixCache Byte) (data_shards : List (List Byte)) (p s : ℕ)
    → IsServing byte_at byte_at-distinct cache
    → ((encoder : ParityEncoder Byte) × ((new_padded byte_at cache data_shards p s).1 ≡ ok encoder))
      ↔ ((0 < length data_shards)
          × (0 < p)
          × (length data_shards + p ≤ 256)
          × (0 < s)
          × (any (wrong_size s) data_shards ≡ false))
new_padded_iff cache data_shards p s served = (
  λ (encoder, e). new_padded_only byte_at byte_at-distinct cache data_shards p s encoder e,
  λ can.
      let (inv, h, coded, e) =
        new_padded_lem byte_at byte_at-distinct cache data_shards p s served can in
      (encoder_of byte_at byte_at-distinct data_shards p s inv, e),
)

-- Every parity shard of an encoder.
abbrev pub all_parities : ParityEncoder Byte → List (List Byte)
all_parities encoder =
    map
      (λ j.
        code_row_slices (get_or encoder.matrix (encoder.data_count + j) []) encoder.data_shards
          encoder.shard_size)
      (indices 0 encoder.parity_count)

pub all_parities-AreParities :
    (encoder : ParityEncoder Byte) → AreParities encoder (all_parities encoder)
unfolding encode_shard
all_parities-AreParities encoder =
    let p = encoder.parity_count in
    let shard = λ (j : ℕ).
      code_row_slices (get_or encoder.matrix (encoder.data_count + j) []) encoder.data_shards
        encoder.shard_size in
    (
      length-map (indices 0 p) shard ∙ length-indices 0 p,
      λ j lt.
          let inside : leb p j ≡ false = ground arith in
          rw (encode_shard, inside)
            (ap ok
              (sym (get-indices shard [] 0 p j lt ∙ ap shard {x = 0 + j} {y = j} (omega arith)))),
    )

-- If at least as many shards are left as there were data shards, of the data shards and all parity shards
-- that one encoder makes of them, then reconstruction succeeds, whatever shards they are: every data shard
-- that is requested and lost is there again, filled up with zeros to the shard size, and no other shard
-- changes. The caches before encoding and before reconstruction are any whose matrices are those of their
-- keys, 64 at most, and so is the cache afterwards.
pub reconstruct_data_indices-new_padded :
    (cache cache' : MatrixCache Byte) (data_shards parities : List (List Byte)) (p s : ℕ)
    (encoder : ParityEncoder Byte) (shards : List (Option (List Byte))) (requested : List ℕ)
    → IsServing byte_at byte_at-distinct cache
    → IsServing byte_at byte_at-distinct cache'
    → (new_padded byte_at cache data_shards p s).1 ≡ ok encoder
    → AreParities encoder parities
    → ArePartOf shards (data_shards ++ parities)
    → length data_shards ≤ length (present 0 shards)
    → All (λ r. r < length data_shards) requested
    → (shards' : List (Option (List Byte))) × ((reconstruct_data_indices byte_at cache' shards
          (length data_shards)
          requested
          s).1
        ≡ ok shards')
      × Restored data_shards s requested shards shards'
      × IsServing byte_at byte_at-distinct
          (reconstruct_data_indices byte_at cache' shards (length data_shards) requested s).0
reconstruct_data_indices-new_padded cache cache' data_shards parities p s encoder shards requested
      served served' e made part enough inside =
    let can = new_padded_only byte_at byte_at-distinct cache data_shards p s encoder e in
    let (inv, h, coded, e') =
      new_padded_lem byte_at byte_at-distinct cache data_shards p s served can in
    reconstruct_lem byte_at byte_at-distinct data_shards parities p s inv h coded
      (subst (λ c. AreParities c parities) (ok_same (sym e ∙ e')) made) can shards part enough
      requested inside cache' served'
