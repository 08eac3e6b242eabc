-- ===== src/Erasure/Coding/Inverse.antt =====
-- src/erasure_coding.rs: `invert`, on square matrices.
use weeb.Prelude.{
  ℕ, zero, suc, ◌+◌, ◌<◌, ◌≤◌, ◌==◌, false, length, length-append, length-map, length-replicate,
  length-set, length-drop, set, drop, All, List, [], ◌∷◌, ◌++◌, map, ◌≡◌, ◌⊎◌, inl, inr, refl, sym,
  ap, ◌∙◌, arith,
}
use mathlib.Core.Path.{subst}
use weeb.Erasure.BinaryField.{BinaryField, ◌⊕◌, add-zero, zero-mul, eq_of_add}
use weeb.Erasure.BinaryField.Vectors.{dot, zeros, dot-append, zeros-dot}
use weeb.Erasure.MatrixCache.{ok, err}
use weeb.Erasure.Gauss.{Coded, singular_matrix, ◌>>=◌, entry, gauss_jordan}
use weeb.Erasure.Gauss.Rows.{Vanish}
use weeb.Erasure.Gauss.Solve.{Solved, unknowns, no_other_width, gauss_jordan_lem}
use weeb.Erasure.Coding.{augment, invert}
use weeb.Erasure.Coding.Combine.{apply, HasWidth}

module _ {A : Type 0} ⦃k : BinaryField A⦄ where
  -- The column of a one picks an entry.
  pub unit_entry : (n i : ℕ) (z : List A) → i < n → dot (set (zeros n) i k.one) z ≡ entry z i
  unfolding dot entry
  unit_entry zero i z h = absurd (omega arith)
  unit_entry (suc n) zero [] h = refl
  unit_entry (suc n) zero (y ∷ z) h = rw (k.one-mul y, zeros-dot n z) (add-zero y)
  unit_entry (suc n) (suc i) [] h = refl
  unit_entry (suc n) (suc i) (y ∷ z) h =
      rw (zero-mul y, k.zero-add) (unit_entry n i z (omega arith))

  -- Columns beyond a vector are not read.
  pub dot_prefix : (u t v : List A) → length v ≤ length u → dot (u ++ t) v ≡ dot u v
  unfolding dot
  dot_prefix [] [] [] h = refl
  dot_prefix [] (y ∷ t) [] h = refl
  dot_prefix [] t (y ∷ v) h = absurd (omega arith)
  dot_prefix (x ∷ u) t [] h = refl
  dot_prefix (x ∷ u) t (y ∷ v) h = rw (dot_prefix u t v (omega arith)) refl

  drop_entry : (i : ℕ) (z : List A) → i < length z → drop i z ≡ entry z i ∷ drop (suc i) z
  unfolding entry
  drop_entry i [] h = absurd (omega arith)
  drop_entry zero (y ∷ z) h = refl
  drop_entry (suc i) (y ∷ z) h = drop_entry i z (omega arith)

  drop_all : (z : List A) → drop (length z) z ≡ []
  drop_all [] = refl
  drop_all (y ∷ z) = drop_all z

  length-augment : (n i : ℕ) (rows : List (List A)) → length (augment n i rows) ≡ length rows
  unfolding augment
  length-augment n i [] = refl
  length-augment n i (r ∷ rows) = ap suc (length-augment n (suc i) rows)

  augment-HasWidth :
      (n i : ℕ) (rows : List (List A)) → HasWidth n rows → HasWidth (n + n) (augment n i rows)
  unfolding augment
  augment-HasWidth n i [] h = tt
  augment-HasWidth n i (r ∷ rows) h = (
    omega (
      arith,
      h.0,
      length-append r (set (zeros n) i k.one),
      length-set (zeros n) i k.one,
      length-replicate n k.zero,
    ),
    augment-HasWidth n (suc i) rows h.1,
  )

  augment-apply :
      (n i : ℕ) (rows : List (List A)) (u z : List A)
      → i + length rows ≡ n
      → HasWidth n rows
      → length u ≡ n
      → length z ≡ n
      → All (Vanish (u ++ z)) (augment n i rows)
      → apply rows u ≡ drop i z
  unfolding augment
  augment-apply n i [] u z e h lu lz v =
      let same : i ≡ length z = omega arith in sym (ap (λ j. drop j z) same ∙ drop_all z)
  augment-apply n i (r ∷ rows) u z e h lu lz v =
      let row : dot r u ⊕ dot (set (zeros n) i k.one) z ≡ k.zero =
        sym (dot-append r (set (zeros n) i k.one) u z (h.0 ∙ sym lu)) ∙ v.0 in
      let first : dot r u ≡ entry z i = eq_of_add _ _ row ∙ unit_entry n i z (omega arith) in
      ap (λ y. y ∷ apply rows u) first
      ∙ ap (◌∷◌ (entry z i)) (augment-apply n (suc i) rows u z (omega arith) h.1 lu lz v.1)
      ∙ sym (drop_entry i z (omega arith))

  augment-Vanish :
      (n i : ℕ) (rows : List (List A)) (v : List A)
      → HasWidth n rows
      → length v ≤ n
      → All (Vanish v) (augment n i rows)
      → All (Vanish v) rows
  unfolding augment
  augment-Vanish n i [] v h lv e = tt
  augment-Vanish n i (r ∷ rows) v h lv e = (
    sym (dot_prefix r (set (zeros n) i k.one) v (omega (arith, h.0))) ∙ e.0,
    augment-Vanish n (suc i) rows v h.1 lv e.1,
  )

  pub unknowns-apply :
      (n : ℕ) (w : List (List A)) (z : List A) → unknowns n w z ≡ apply (map (drop n) w) z
  unknowns-apply n [] z = refl
  unknowns-apply n (r ∷ w) z = ap (◌∷◌ (dot (drop n r) z)) (unknowns-apply n w z)

  right_half : (n : ℕ) (w : List (List A)) → HasWidth (n + n) w → HasWidth n (map (drop n) w)
  right_half n [] h = tt
  right_half n (r ∷ w) h = (omega (arith, h.0, length-drop n r), right_half n w h.1)

  abbrev pub Inverted : List (List A) → Coded (List (List A)) → Type 0
  Inverted matrix result =
      ((inv : List (List A)) × (result ≡ ok inv)
        × (length inv ≡ length matrix)
        × HasWidth (length matrix) inv
        × ((z : List A) → length z ≡ length matrix → apply matrix (apply inv z) ≡ z))
      ⊎ ((result ≡ err singular_matrix)
          × ((w : List A) × (length w < length matrix) × All (Vanish (w ++ (k.one ∷ []))) matrix))

  finish_inverse :
      (matrix : List (List A)) (result : Coded (List (List A)))
      → HasWidth (length matrix) matrix
      → Solved (length matrix) (length matrix) (augment (length matrix) 0 matrix) result
      → Inverted matrix (result >>= λ work. ok (map (drop (length matrix)) work))
  finish_inverse matrix result h (inl (w, e, lw, wide, solved)) =
      let n = length matrix in
      let inv = map (drop n) w in
      inl (
        inv,
        rw e refl,
        length-map w (drop n) ∙ lw,
        right_half n w wide,
        λ z lz.
            augment-apply n 0 matrix (apply inv z) z (omega arith) h
              (length-map inv _ ∙ length-map w (drop n) ∙ lw) lz
              (subst (λ u. All (Vanish (u ++ z)) (augment n 0 matrix)) (unknowns-apply n w z)
                (solved z)),
      )
  finish_inverse matrix result h (inr (e, (w, lw, v))) = inr (
    rw e refl,
    (
      w,
      lw,
      augment-Vanish (length matrix) 0 matrix (w ++ (k.one ∷ [])) h
          (omega (arith, length-append w (k.one ∷ []))) v,
    ),
  )

  -- A square matrix with at least one row is inverted: either there is a result, again square, and the
  -- matrix takes what the result makes of any column back to that column; or the error is that the matrix
  -- is singular, and some of its first columns, with one for the last coefficient, add up to zero.
  pub invert_lem :
      (matrix : List (List A))
      → 0 < length matrix
      → HasWidth (length matrix) matrix
      → Inverted matrix (invert matrix)
  unfolding invert
  invert_lem matrix pos h =
      let n = length matrix in
      let some_rows : (n == 0) ≡ false = ground arith in
      rw (invert, some_rows, no_other_width n matrix h)
        (finish_inverse matrix (gauss_jordan (augment n 0 matrix) n) h (
          gauss_jordan_lem n n (augment n 0 matrix) pos (length-augment n 0 matrix)
            (augment-HasWidth n 0 matrix h)))
