-- ===== src/Erasure/ReedSolomon/Tests.antt =====
-- src/erasure_coding.rs: Reed-Solomon coding of two short shards.
use weeb.Prelude.{
  holds_below, ◌==◌, true, take, ℕ, ◌+◌, ◌<◌, ◌≤◌, bit_xor, false, Option, none, some, length,
  get_or, get_elem?, ltb, ◌&&◌, if◌then◌else◌, List, [], ◌∷◌, map, ◌≡◌, ◌↔◌, refl, arith,
}
use weeb.Erasure.BinaryField.Vectors.{dot}
use weeb.Erasure.MatrixCache.{ok, err, cached_coding_matrix, get, take_entry, insert}
use weeb.Erasure.Gauss.{
  Coded, any, entry, gauss_jordan, forward, backward, select_pivot, swap_in, normalize, eliminate,
}
use weeb.Erasure.BinaryField.Vectors.{added, scaled}
use weeb.Erasure.Coding.{
  invert, augment, inverse_rows_for_selected, inverse_rows_of_size, decode_equation, vandermonde,
  powers, matrix_multiply, code_row_slices, code_row, mix,
}
use weeb.Erasure.Coding.Inverse.{Inverted, invert_lem}
use weeb.Erasure.Gf256.{gf_mul, gf_inverse, square_steps, table_entry, double}
use weeb.Erasure.Gf256.Instance.{Byte, gf256, byte_add, byte_mul, byte_inverse}
use weeb.Erasure.Coding.{coding_matrix}
use weeb.Erasure.Reconstruct.{
  MatrixCache, ParityEncoder, wrong_size, is_missing, present, new_padded, encode_shard,
  select_shards, recover, write_shards, reconstruct_selected, reconstruct_data_indices,
}
use weeb.Erasure.Reconstruct.Recover.{padded}
use weeb.Erasure.Reconstruct.Encoded.{IsServing, encoder_of, new_padded_lem, CanEncode}
use weeb.Erasure.ReedSolomon.{
  byte_at, byte_at-distinct, gf_mul_laws, coding_matrix-systematic, new_padded_iff, all_parities,
  all_parities-AreParities, reconstruct_data_indices-new_padded,
}

abbrev data_shards : List (List Byte)
data_shards = (byte_at 7 ∷ byte_at 200 ∷ []) ∷ (byte_at 9 ∷ []) ∷ []

abbrev no_cache : MatrixCache Byte
no_cache = []

can : CanEncode byte_at byte_at-distinct data_shards 2 2
can = (omega arith, omega arith, omega arith, omega arith, refl)

gf_mul_laws_example :
    (gf_mul (gf_mul 3 5) 7 ≡ gf_mul 3 (gf_mul 5 7))
    × (gf_mul 3 5 ≡ gf_mul 5 3)
    × (gf_mul 3 (bit_xor 5 7) ≡ bit_xor (gf_mul 3 5) (gf_mul 3 7))
    × (gf_mul 1 3 ≡ 3)
    × (gf_mul (gf_inverse 3) 3 ≡ 1)
gf_mul_laws_example = gf_mul_laws 3 5 7 (omega arith) (omega arith) (omega arith) (omega arith)

abbrev pair : List Byte
pair = byte_at 4 ∷ byte_at 6 ∷ []

coding_matrix-systematic_example :
    (matrix : List (List Byte)) × (coding_matrix byte_at 2 4 ≡ ok matrix)
    × (length matrix ≡ 4)
    × (dot (get_or matrix 1 []) pair ≡ entry pair 1)
coding_matrix-systematic_example =
    coding_matrix-systematic 2 4 1 pair (omega arith) (omega arith) (omega arith) (omega arith) refl

new_padded_iff_example :
    ((encoder : ParityEncoder Byte) × ((new_padded byte_at no_cache data_shards 2 2).1
        ≡ ok encoder))
    ↔ ((0 < length data_shards)
        × (0 < 2)
        × (length data_shards + 2 ≤ 256)
        × (0 < 2)
        × (any (wrong_size 2) data_shards ≡ false))
new_padded_iff_example = new_padded_iff no_cache data_shards 2 2 (tt, omega arith)

made :
    (inv : List (List Byte)) × ((new_padded byte_at no_cache data_shards 2 2).1
      ≡ ok (encoder_of byte_at byte_at-distinct data_shards 2 2 inv))
made =
    let (inv, h, coded, e) =
      new_padded_lem byte_at byte_at-distinct no_cache data_shards 2 2 (tt, omega arith) can in
    (inv, e)

abbrev encoder : ParityEncoder Byte
encoder = encoder_of byte_at byte_at-distinct data_shards 2 2 made.0

-- Both data shards are lost.
abbrev shards : List (Option (List Byte))
shards =
    none
    ∷ none
    ∷ some (get_or (all_parities encoder) 0 [])
    ∷ some (get_or (all_parities encoder) 1 [])
    ∷ []

abbrev requested : List ℕ
requested = 0 ∷ 1 ∷ []

reconstruct_data_indices-new_padded_example :
    (shards' : List (Option (List Byte))) × ((reconstruct_data_indices byte_at no_cache shards
        (length data_shards)
        requested
        2).1
      ≡ ok shards')
    × ((j : ℕ)
        → get_elem? shards' j ≡ (
            if ltb j (length data_shards) && is_missing shards requested j
            then some (some (padded 2 (get_or data_shards j [])))
            else get_elem? shards j))
    × IsServing byte_at byte_at-distinct
        (reconstruct_data_indices byte_at no_cache shards (length data_shards) requested 2).0
unfolding present
reconstruct_data_indices-new_padded_example =
    reconstruct_data_indices-new_padded no_cache no_cache data_shards (all_parities encoder) 2 2
      encoder shards requested (tt, omega arith) (tt, omega arith) made.1
      (all_parities-AreParities encoder) (refl, (refl, tt)) (omega arith)
      (omega arith, (omega arith, tt))

abbrev square : List (List Byte)
square = (byte_at 0 ∷ byte_at 3 ∷ []) ∷ (byte_at 2 ∷ byte_at 0 ∷ []) ∷ []

invert_lem_example : Inverted square (invert square)
invert_lem_example = invert_lem square (omega arith) (refl, (refl, tt))

-- A first row that has to be traded, at work.
values : Coded (List (List Byte)) → List (List ℕ)
values (ok rows) = map (map (λ (b : Byte). b.0)) rows
values (err e) = []

inverse_run : values (invert square) ≡ (0 ∷ gf_inverse 2 ∷ []) ∷ (gf_inverse 3 ∷ 0 ∷ []) ∷ []
unfolding values invert augment gauss_jordan forward backward select_pivot swap_in normalize
    eliminate entry added scaled gf256 byte_add byte_mul byte_inverse gf_inverse gf_mul table_entry
    double
inverse_run = refl

-- The shards of a run: both data shards come back from the parity shards.
first : Coded (List (Option (List Byte))) → List (List ℕ)
first (ok shards) = map (λ o. elim o [ none ↦ [] | some v ↦ map (λ (b : Byte). b.0) v ]) shards
first (err e) = []

abbrev parity : List Byte → ParityEncoder Byte → ℕ → List Byte
parity other enc j = elim (encode_shard enc j) [ ok v ↦ v | err e ↦ other ]

abbrev lost : Coded (ParityEncoder Byte) → List (Option (List Byte))
lost (ok enc) = none ∷ none ∷ some (parity [] enc 0) ∷ some (parity [] enc 1) ∷ []
lost (err e) = []

reconstruct_run :
    take 2 (
      first
        (reconstruct_data_indices byte_at no_cache
          (lost (new_padded byte_at no_cache data_shards 2 2).1)
          2
          requested
          2).1)
    ≡ (7 ∷ 200 ∷ []) ∷ (9 ∷ 0 ∷ []) ∷ []
unfolding reconstruct_data_indices reconstruct_selected select_shards recover write_shards
    inverse_rows_for_selected inverse_rows_of_size decode_equation new_padded encode_shard
    cached_coding_matrix get take_entry insert coding_matrix vandermonde powers matrix_multiply
    code_row_slices code_row mix first present invert augment gauss_jordan forward backward
    select_pivot swap_in normalize eliminate entry added scaled gf256 byte_add byte_mul byte_inverse
    gf_inverse square_steps gf_mul table_entry double
reconstruct_run = refl

mul_run : gf_mul 0x53 0xca ≡ 0x8f
unfolding gf_mul table_entry double
mul_run = refl

-- The repository's own test.
inverse_test : holds_below (λ v. gf_mul (v + 1) (gf_inverse (v + 1)) == 1) 255 ≡ true
unfolding gf_inverse gf_mul table_entry double holds_below
inverse_test = refl
