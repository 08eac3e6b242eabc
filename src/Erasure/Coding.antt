-- ===== src/Erasure/Coding.antt =====
-- src/erasure_coding.rs: Reed-Solomon coding. The functions are over any field of the kind, with the
-- element that stands for a row index, `point`; Erasure/ReedSolomon.antt takes GF(256).
pub mod Combine
pub mod Polynomials
pub mod RootPoly
pub mod Inverse
pub mod Systematic
pub mod Matrix
pub mod Decode
pub mod Selected
use weeb.Prelude.{
  ℕ, zero, suc, ◌+◌, leb, ltb, ◌==◌, Bool, true, false, not, ◌||◌, ◌&&◌, if◌then◌else◌, Option,
  none, some, length, get_elem?, get_or, set, take, drop, List, [], ◌∷◌, ◌++◌, map,
}
use weeb.Erasure.MatrixCache.{ok, err}
use weeb.Erasure.BinaryField.{BinaryField, ◌⊗◌}
use weeb.Erasure.BinaryField.Vectors.{scaled, added, zeros}
use weeb.Erasure.Gauss.{
  Coded, invalid_shard_count, singular_matrix, ◌>>=◌, any, entry, gauss_jordan,
}

-- `from..from + count`.
abbrev pub indices : ℕ → ℕ → List ℕ
indices from zero = []
indices from (suc count) = from ∷ indices (suc from) count

abbrev pub is_empty {ℓ} : {A : Type ℓ} → List A → Bool
is_empty [] = true
is_empty (x ∷ xs) = false

module _ {A : Type 0} ⦃k : BinaryField A⦄ where
  -- One coefficient and its input, added to the output.
  unfoldable pub mix : A → List A → List A → List A
  mix coefficient input output =
      if k.eq coefficient k.zero
      then output
      else if k.eq coefficient k.one
      then added output input
      else added output (scaled coefficient input)

  unfoldable pub code_row : List A → List (List A) → List A → List A
  code_row [] inputs output = output
  code_row (c ∷ cs) [] output = output
  code_row (c ∷ cs) (input ∷ inputs) output = code_row cs inputs (mix c input output)

  unfoldable pub code_row_slices : List A → List (List A) → ℕ → List A
  code_row_slices coefficients inputs shard_size = code_row coefficients inputs (zeros shard_size)

  unfoldable pub matrix_multiply : List (List A) → List (List A) → List (List A)
  matrix_multiply left right =
      map (λ (row : List A). code_row_slices row right (length (get_or right 0 []))) left

  -- `row.resize(width, 0)`, and a one in the column of the row.
  unfoldable pub augment : ℕ → ℕ → List (List A) → List (List A)
  augment size row_index [] = []
  augment size row_index (row ∷ rows) =
      (row ++ set (zeros size) row_index k.one) ∷ augment size (suc row_index) rows

  unfoldable pub invert : List (List A) → Coded (List (List A))
  invert matrix =
      let size = length matrix in
      if size == 0 || any (λ (row : List A). not (length row == size)) matrix
      then err singular_matrix
      else gauss_jordan (augment size 0 matrix) size >>= λ work. ok (map (drop size) work)

  -- The powers of an element, from one on.
  unfoldable pub powers : A → A → ℕ → List A
  powers element power zero = []
  powers element power (suc count) = power ∷ powers element (element ⊗ power) count

  module _ (point : ℕ → A) where
    unfoldable pub vandermonde : ℕ → ℕ → List (List A)
    vandermonde data_count total_count =
        map (λ row_index. powers (point row_index) k.one data_count) (indices 0 total_count)

    unfoldable pub coding_matrix : ℕ → ℕ → Coded (List (List A))
    coding_matrix data_count total_count =
        if data_count == 0 || ltb total_count data_count || ltb 256 total_count
        then err invalid_shard_count
        else invert (take data_count (vandermonde data_count total_count)) >>= λ top_inverse.
            ok (matrix_multiply (vandermonde data_count total_count) top_inverse)

  -- The column of a row of the matrix, and a one for the requested row.
  unfoldable pub decode_equation : List (List A) → List ℕ → List ℕ → ℕ → List A
  decode_equation coding_matrix selected requested_rows original_row =
      map (λ coding_row. entry (get_or coding_matrix coding_row []) original_row) selected
      ++ map (λ row. if row == original_row then k.one else k.zero) requested_rows

  abbrev pub wrong_length : ℕ → Option (List A) → Bool
  wrong_length size none = true
  wrong_length size (some coefficients) = not (length coefficients == size)

  unfoldable pub inverse_rows_of_size : ℕ → List (List A) → List ℕ → List ℕ → Coded (List (List A))
  inverse_rows_of_size size coding_matrix selected requested_rows =
      if size == 0
        || any (λ row. leb size row) requested_rows
        || any (λ row. wrong_length size (get_elem? coding_matrix row)) selected
      then err singular_matrix
      else if is_empty requested_rows
      then ok []
      else gauss_jordan
          (map (decode_equation coding_matrix selected requested_rows) (indices 0 size)) size
        >>= λ work. ok (
            map (λ target_column. map (λ (row : List A). entry row (size + target_column)) work)
              (indices 0 (length requested_rows)))

  unfoldable pub inverse_rows_for_selected : List (List A) → List ℕ → List ℕ → Coded (List (List A))
  inverse_rows_for_selected coding_matrix selected requested_rows =
      inverse_rows_of_size (length selected) coding_matrix selected requested_rows
