-- ===== src/Erasure/BinaryField/Vectors.antt =====
-- Rows over a field: sums, multiples, and the product of a row and a column.
use weeb.Prelude.{
  ℕ, zero, suc, length, replicate, List, [], ◌∷◌, ◌++◌, map, ◌≡◌, refl, sym, ap, ◌∙◌, arith,
}
use weeb.Erasure.BinaryField.{
  BinaryField, ◌⊕◌, ◌⊗◌, add-zero, zero-mul, mul-zero, add-mul, swap_middle,
}

module _ {A : Type 0} ⦃k : BinaryField A⦄ where
  unfoldable pub dot : List A → List A → A
  dot [] v = k.zero
  dot (x ∷ xs) [] = k.zero
  dot (x ∷ xs) (y ∷ ys) = (x ⊗ y) ⊕ dot xs ys

  unfoldable pub scaled : A → List A → List A
  scaled c v = map (k.mul c) v

  -- Column by column, as far as the first row.
  unfoldable pub added : List A → List A → List A
  added [] v = []
  added (x ∷ xs) [] = x ∷ xs
  added (x ∷ xs) (y ∷ ys) = (x ⊕ y) ∷ added xs ys

  abbrev pub zeros : ℕ → List A
  zeros n = replicate n k.zero

  pub length-added : (u v : List A) → length (added u v) ≡ length u
  unfolding added
  length-added [] v = refl
  length-added (x ∷ u) [] = refl
  length-added (x ∷ u) (y ∷ v) = ap suc (length-added u v)

  pub dot-scaled : (c : A) (u v : List A) → dot (scaled c u) v ≡ c ⊗ dot u v
  unfolding dot scaled
  dot-scaled c [] v = sym (mul-zero c)
  dot-scaled c (x ∷ u) [] = sym (mul-zero c)
  dot-scaled c (x ∷ u) (y ∷ v) = rw (dot-scaled c u v, k.mul-add, k.mul_assoc) refl

  pub dot-added : (u w v : List A) → length u ≡ length w → dot (added u w) v ≡ dot u v ⊕ dot w v
  unfolding dot added
  dot-added [] [] v h = sym (k.zero-add k.zero)
  dot-added [] (y ∷ w) v h = absurd (omega arith)
  dot-added (x ∷ u) [] v h = absurd (omega arith)
  dot-added (x ∷ u) (y ∷ w) [] h = sym (k.zero-add k.zero)
  dot-added (x ∷ u) (y ∷ w) (z ∷ v) h =
      rw (dot-added u w v (omega arith), add-mul) (swap_middle _ _ _ _)

  pub dot_comm : (u v : List A) → dot u v ≡ dot v u
  unfolding dot
  dot_comm [] [] = refl
  dot_comm [] (y ∷ v) = refl
  dot_comm (x ∷ u) [] = refl
  dot_comm (x ∷ u) (y ∷ v) = rw (dot_comm u v, k.mul_comm x y) refl

  pub dot-append :
      (u w v z : List A) → length u ≡ length v → dot (u ++ w) (v ++ z) ≡ dot u v ⊕ dot w z
  unfolding dot
  dot-append [] w [] z h = sym (k.zero-add _)
  dot-append [] w (y ∷ v) z h = absurd (omega arith)
  dot-append (x ∷ u) w [] z h = absurd (omega arith)
  dot-append (x ∷ u) w (y ∷ v) z h = rw (dot-append u w v z (omega arith)) (sym (k.add_assoc _ _ _))

  pub zeros-dot : (n : ℕ) (v : List A) → dot (zeros n) v ≡ k.zero
  unfolding dot
  zeros-dot zero v = refl
  zeros-dot (suc n) [] = refl
  zeros-dot (suc n) (y ∷ v) = rw (zero-mul y, zeros-dot n v) (k.zero-add k.zero)

  pub dot-zeros : (n : ℕ) (v : List A) → dot v (zeros n) ≡ k.zero
  dot-zeros n v = dot_comm v (zeros n) ∙ zeros-dot n v

  -- The multiple of a row by zero.
  pub scaled-zero : (u : List A) → scaled k.zero u ≡ zeros (length u)
  unfolding scaled
  scaled-zero [] = refl
  scaled-zero (x ∷ u) = rw (zero-mul x, scaled-zero u) refl

  pub added-zeros : (u : List A) (n : ℕ) → added u (zeros n) ≡ u
  unfolding added
  added-zeros [] n = refl
  added-zeros (x ∷ u) zero = refl
  added-zeros (x ∷ u) (suc n) = rw (add-zero x, added-zeros u n) refl

  pub scaled_one : (u : List A) → scaled k.one u ≡ u
  unfolding scaled
  scaled_one [] = refl
  scaled_one (x ∷ u) = rw (k.one-mul x, scaled_one u) refl
