-- ===== src/Erasure/Coding/Matrix.antt =====
-- src/erasure_coding.rs: the result of `coding_matrix`, its first rows, and any selection of its rows.
use weeb.Prelude.{
  ℕ, zero, suc, ◌+◌, ◌-◌, ◌<◌, ◌≤◌, ◌==◌, ltb, ◌||◌, false, length, length-append, length-map,
  length-replicate, get_or, List, [], ◌∷◌, ◌++◌, map, ◌≡◌, ◌≢◌, refl, sym, ap, ◌∙◌, arith,
}
use mathlib.Core.Path.{subst}
use mathlib.Core.List.{map-append, map-map}
use weeb.Erasure.BinaryField.{BinaryField}
use weeb.Erasure.BinaryField.Vectors.{dot, zeros}
use weeb.Erasure.MatrixCache.{ok}
use weeb.Erasure.Gauss.{entry}
use weeb.Erasure.Coding.{
  indices, powers, vandermonde, code_row_slices, matrix_multiply, coding_matrix,
}
use weeb.Erasure.Coding.Combine.{apply, HasWidth, dot-code_row_slices}
use weeb.Erasure.Coding.Polynomials.{eval, eval-padded, dot-powers_one, Distinct}
use weeb.Erasure.Coding.RootPoly.{root_poly, length-root_poly, no_relation}
use weeb.Erasure.Coding.Systematic.{
  Ascending, length-indices, get-indices, take-indices, apply_rows, top, top_injective, invert-top,
  points-Distinct,
}

split_at :
    {A : Type 0} (n : ℕ) (xs : List A)
    → n < length xs
    → (before : List A) × (x : A) × (after : List A) × (xs ≡ before ++ (x ∷ after))
      × (length before ≡ n)
split_at n [] h = absurd (omega arith)
split_at zero (x ∷ xs) h = ([], x, xs, refl, refl)
split_at (suc n) (y ∷ xs) h =
    let (before, x, after, e, len) = split_at n xs (omega arith) in
    (y ∷ before, x, after, ap (◌∷◌ y) e, ap suc len)

module _ {A : Type 0} ⦃k : BinaryField A⦄ (point : ℕ → A)
    (distinct : (i j : ℕ) → i < 256 → j < 256 → point i ≡ point j → i ≡ j) where
  -- Row r of the matrix, from the inverse of the first rows.
  abbrev pub row_of : ℕ → List (List A) → ℕ → List A
  row_of d inv r = code_row_slices (powers (point r) k.one d) inv d

  abbrev pub IsInverse : ℕ → List (List A) → Type 0
  IsInverse d inv =
      (length inv ≡ d)
      × HasWidth d inv
      × ((z : List A) → length z ≡ d → apply (top point distinct d) (apply inv z) ≡ z)

  first_width :
      (n d : ℕ) (rows : List (List A))
      → 0 < length rows
      → HasWidth n rows
      → length (get_or rows 0 []) ≡ n
  first_width n d [] pos h = absurd (omega arith)
  first_width n d (r ∷ rows) pos h = h.0

  matrix_rows :
      (d t : ℕ) (inv : List (List A))
      → 0 < d
      → length inv ≡ d
      → HasWidth d inv
      → matrix_multiply (vandermonde point d t) inv ≡ map (row_of d inv) (indices 0 t)
  unfolding matrix_multiply vandermonde
  matrix_rows d t inv pos len h =
      map-map _ _ (indices 0 t)
      ∙ ap (λ (n : ℕ). map (λ r. code_row_slices (powers (point r) k.one d) inv n) (indices 0 t))
          (first_width d d inv (omega arith) h)

  pub coding_matrix_lem :
      (d t : ℕ)
      → 0 < d
      → d ≤ t
      → t ≤ 256
      → (inv : List (List A)) × IsInverse d inv
        × (coding_matrix point d t ≡ ok (map (row_of d inv) (indices 0 t)))
  unfolding coding_matrix vandermonde top
  coding_matrix_lem d t pos le max =
      let (inv, e, len, wide, solved) = invert-top point distinct d pos (omega arith) in
      let guards : (d == 0 || ltb t d || ltb 256 t) ≡ false = ground arith in
      (
        inv,
        (len, wide, solved),
        rw (coding_matrix, guards, take-indices (λ i. powers (point i) k.one d) 0 d t le, e)
            (ap ok (matrix_rows d t inv pos len wide)),
      )

  module _ (d : ℕ) (inv : List (List A)) (h : IsInverse d inv) where
    length-apply_inv : (x : List A) → length (apply inv x) ≡ d
    length-apply_inv x = length-map inv _ ∙ h.0

    -- A row of the matrix evaluates the polynomial with values x at the first points.
    dot-row_of : (r : ℕ) (x : List A) → dot (row_of d inv r) x ≡ eval (point r) (apply inv x)
    dot-row_of r x =
        dot-code_row_slices (powers (point r) k.one d) inv d x h.1
        ∙ dot-powers_one (point r) d (apply inv x) (omega (arith, length-apply_inv x))

    -- The first rows are those of the identity.
    pub systematic :
        (i : ℕ) (x : List A) → i < d → length x ≡ d → dot (row_of d inv i) x ≡ entry x i
    unfolding entry top
    systematic i x lt lx =
        let u = apply inv x in
        dot-code_row_slices (powers (point i) k.one d) inv d x h.1
        ∙ sym (
            get-indices (λ j. dot (powers (point j) k.one d) u) k.zero 0 d i lt
            ∙ ap (λ (j : ℕ). dot (powers (point j) k.one d) u) {x = 0 + i} {y = i} (omega arith))
        ∙ ap (λ l. get_or l i k.zero)
            (sym (apply_rows (λ j. powers (point j) k.one d) (indices 0 d) u) ∙ h.2 x lx)

    left_inverse :
        (p : List A) → d ≤ 256 → length p ≡ d → apply inv (apply (top point distinct d) p) ≡ p
    unfolding top
    left_inverse p le lp =
        let values = apply (top point distinct d) p in
        top_injective point distinct d (apply inv values) p le (length-apply_inv values) lp (
          h.2 values
            (length-map (top point distinct d) _ ∙ length-map (indices 0 d) _ ∙ length-indices 0 d))

    -- No row of a selection is made up by the rows before it.
    pub independent :
        (limit from : ℕ) (selected : List ℕ) (w : List A)
        → limit ≤ 256
        → d ≤ 256
        → Ascending limit from selected
        → length selected ≡ d
        → length w < d
        → (x : List A) × (length x ≡ d)
          × (dot (w ++ (k.one ∷ [])) (map (λ r. dot (row_of d inv r) x) selected) ≢ k.zero)
    unfolding top
    independent limit from selected w le ld asc len lw =
        let (before, s, after, e, lb) = split_at (length w) selected (omega arith) in
        let p = root_poly (map point before) in
        let lp : length p ≡ suc (length w) =
          length-root_poly (map point before) ∙ ap suc (length-map before point ∙ lb) in
        let padded = p ++ zeros (d - length p) in
        let ls : length padded ≡ d =
          omega (
            arith,
            length-append p (zeros (d - length p)),
            length-replicate (d - length p) k.zero,
          ) in
        let x = apply (top point distinct d) padded in
        let value = λ (r : ℕ).
          dot-row_of r x
          ∙ ap (eval (point r)) (left_inverse padded ld ls)
          ∙ eval-padded (point r) p (d - length p) in
        let points : Distinct (map point before ++ (point s ∷ map point after)) =
          subst Distinct (ap (map point) e ∙ map-append point before (s ∷ after))
            (points-Distinct point distinct limit from selected le asc) in
        (
          x,
          length-map (top point distinct d) _ ∙ length-map (indices 0 d) _ ∙ length-indices 0 d,
          λ z.
              no_relation w (map point before) (map point after) (point s)
                (sym lb ∙ sym (length-map before point)) points
                (sym (
                    ap (dot (w ++ (k.one ∷ []))) (
                      values x p value selected
                      ∙ ap (map (λ y. eval y p))
                          (ap (map point) e ∙ map-append point before (s ∷ after))))
                  ∙ z),
        )
      where
        values :
            (x p : List A)
            → ((r : ℕ) → dot (row_of d inv r) x ≡ eval (point r) p)
            → (is : List ℕ)
            → map (λ r. dot (row_of d inv r) x) is ≡ map (λ y. eval y p) (map point is)
        values x p v [] = refl
        values x p v (i ∷ is) =
            ap (λ y. y ∷ map (λ r. dot (row_of d inv r) x) is) (v i)
            ∙ ap (◌∷◌ (eval (point i) p)) (values x p v is)
