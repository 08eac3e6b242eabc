-- ===== src/Erasure/Gauss.antt =====
-- src/erasure_coding.rs: `gauss_jordan`, over any field of the kind. The rows of `work` are `above`,
-- which the loop is done with, and `below`, where the row of the diagonal is the first.
pub mod Rows
pub mod Pivot
pub mod Round
pub mod Forward
pub mod Backward
pub mod Solve
use weeb.Prelude.{
  ℕ, zero, suc, ◌+◌, ltb, ◌==◌, Bool, true, false, not, ◌||◌, if◌then◌else◌, Option, none, some,
  length, get_or, take, drop, List, [], ◌∷◌, ◌++◌, map,
}
use weeb.Erasure.MatrixCache.{MatrixResult, ok, err}
use weeb.Erasure.BinaryField.{BinaryField}
use weeb.Erasure.BinaryField.Vectors.{scaled, added}

pub data ReedSolomonError : Type 0 where
  invalid_shard_count : ReedSolomonError
  invalid_shard_size : ReedSolomonError
  too_few_shards : ReedSolomonError
  singular_matrix : ReedSolomonError

abbrev pub Coded : Type 0 → Type 0
Coded M = MatrixResult M ReedSolomonError

-- The `?` operator.
infixl 5 ◌>>=◌
abbrev pub ◌>>=◌ : {M N : Type 0} → Coded M → (M → Coded N) → Coded N
ok m >>= f = f m
err e >>= f = err e

abbrev pub any {ℓ} : {A : Type ℓ} → (A → Bool) → List A → Bool
any p [] = false
any p (x ∷ xs) = p x || any p xs

module _ {A : Type 0} ⦃k : BinaryField A⦄ where
  unfoldable pub entry : List A → ℕ → A
  entry row column = get_or row column k.zero

  -- The first of the rows with an entry in the column trades places with `row`.
  unfoldable pub swap_in : ℕ → List A → List (List A) → Option (List A × List (List A))
  swap_in diagonal row [] = none
  swap_in diagonal row (candidate ∷ rest) =
      let later = swap_in diagonal row rest in
      if k.eq (entry candidate diagonal) k.zero
      then elim later [ none ↦ none | some found ↦ some (found.0, candidate ∷ found.1) ]
      else some (candidate, row ∷ rest)

  unfoldable pub select_pivot : ℕ → List (List A) → Option (List A × List (List A))
  select_pivot diagonal [] = none
  select_pivot diagonal (row ∷ rest) =
      if k.eq (entry row diagonal) k.zero then swap_in diagonal row rest else some (row, rest)

  -- The row of the diagonal, from its pivot on, by the inverse of the pivot.
  unfoldable pub normalize : ℕ → List A → List A
  normalize diagonal row =
      let pivot = entry row diagonal in
      if k.eq pivot k.one
      then row
      else take diagonal row ++ scaled (k.inverse pivot) (drop diagonal row)

  -- The target, from the diagonal on, with its multiple of the source taken away.
  unfoldable pub eliminate : ℕ → List A → List A → List A
  eliminate diagonal source target =
      let scale = entry target diagonal in
      if k.eq scale k.zero
      then target
      else take diagonal target
        ++ added (drop diagonal target) (scaled scale (drop diagonal source))

  -- The first loop, with the number of rounds that are left.
  unfoldable pub forward : ℕ → ℕ → List (List A) → List (List A) → Coded (List (List A))
  forward zero diagonal above below = ok (above ++ below)
  forward (suc rounds) diagonal above below = elim (select_pivot diagonal below) [
    | none ↦ err singular_matrix
    | some found ↦
        let source = normalize diagonal found.0 in
        forward rounds (suc diagonal) (above ++ (source ∷ []))
          (map (eliminate diagonal source) found.1)
  ]

  -- The second loop.
  unfoldable pub backward : ℕ → List (List A) → List (List A) → List (List A)
  backward diagonal above [] = above
  backward diagonal above (source ∷ rest) =
      backward (suc diagonal) (map (eliminate diagonal source) above ++ (source ∷ [])) rest

  unfoldable pub gauss_jordan : List (List A) → ℕ → Coded (List (List A))
  gauss_jordan work size =
      let width = length (get_or work 0 []) in
      if size == 0 || not (length work == size)
      then err singular_matrix
      else if ltb width size || any (λ row. not (length row == width)) work
      then err singular_matrix
      else forward size 0 [] work >>= λ triangular. ok (backward 0 [] triangular)
