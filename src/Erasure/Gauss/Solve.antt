-- ===== src/Erasure/Gauss/Solve.antt =====
-- src/erasure_coding.rs: the equations of the rows, before and after `gauss_jordan`.
use weeb.Prelude.{
  ℕ, suc, ◌+◌, ◌<◌, ltb, not, ◌||◌, ◌==◌, false, length, length-append, length-replicate,
  length-snoc, length-map, get_or, drop, drop_append, All, List, [], ◌∷◌, ◌++◌, map, ◌≡◌, ◌⊎◌, inl,
  inr, refl, sym, ap, ◌∙◌, arith,
}
use mathlib.Core.List.{append_assoc, map-append}
use mathlib.Core.Path.{subst}
use weeb.Erasure.BinaryField.{BinaryField, ◌⊕◌, add-zero}
use weeb.Erasure.BinaryField.Vectors.{dot, zeros, dot-append, zeros-dot}
use weeb.Erasure.MatrixCache.{ok, err}
use weeb.Erasure.Gauss.{Coded, singular_matrix, ◌>>=◌, any, forward, backward, gauss_jordan}
use weeb.Erasure.Gauss.Rows.{Vanish}
use weeb.Erasure.Gauss.Forward.{Triangle, forward_lem}
use weeb.Erasure.Gauss.Round.{Start}
use weeb.Erasure.Gauss.Backward.{Units, UnitAt, unit_lengths, backward_lem}

module _ {A : Type 0} ⦃k : BinaryField A⦄ where
  unit_product :
      (i j : ℕ) (u v : List A) (x : A)
      → length u ≡ i
      → dot (zeros i ++ (k.one ∷ zeros j)) (u ++ (x ∷ v)) ≡ x
  unit_product i j u v x e =
      dot-append (zeros i) (k.one ∷ zeros j) u (x ∷ v) (length-replicate i k.zero ∙ sym e)
      ∙ rw (zeros-dot i u) (k.zero-add _ ∙ head)
    where
      head : dot (k.one ∷ zeros j) (x ∷ v) ≡ x
      head = unfold dot in rw (k.one-mul x, zeros-dot j v) (add-zero x)

  -- The values of the unknowns, for any values of the columns behind the identity.
  abbrev pub unknowns : ℕ → List (List A) → List A → List A
  unknowns size rows z = map (λ (r : List A). dot (drop size r) z) rows

  unit-Vanish :
      (m i j d : ℕ) (pre rest : List (List A)) (r z : List A)
      → suc (i + j) ≡ d
      → UnitAt m i j r
      → length pre ≡ i
      → length (pre ++ (r ∷ rest)) ≡ d
      → Vanish (unknowns d (pre ++ (r ∷ rest)) z ++ z) r
  unit-Vanish m i j d pre rest r z e (t, shape) lp lw =
      let f = λ (row : List A). dot (drop d row) z in
      let u = zeros i ++ (k.one ∷ zeros j) in
      let row : r ≡ u ++ t = shape ∙ sym (append_assoc (zeros i) (k.one ∷ zeros j) t) in
      let lu : length u ≡ d = omega (
        arith,
        length-append (zeros i) (k.one ∷ zeros j),
        length-replicate i k.zero,
        length-replicate j k.zero,
      ) in
      let value : f r ≡ dot t z = ap f row ∙ ap (λ s. dot s z) (drop_append d u t lu) in
      ap (λ s. dot s (unknowns d (pre ++ (r ∷ rest)) z ++ z)) row
      ∙ dot-append u t (unknowns d (pre ++ (r ∷ rest)) z) z
          (lu ∙ sym (length-map (pre ++ (r ∷ rest)) f ∙ lw))
      ∙ ap (λ s. dot u s ⊕ dot t z) (map-append f pre (r ∷ rest))
      ∙ ap (λ s. s ⊕ dot t z)
          (unit_product i j (map f pre) (map f rest) (f r) (length-map pre f ∙ lp) ∙ value)
      ∙ k.add_self _

  Units-Vanish :
      (m i d : ℕ) (pre rows : List (List A)) (z : List A)
      → Units m i d rows
      → length pre ≡ i
      → length (pre ++ rows) ≡ d
      → All (Vanish (unknowns d (pre ++ rows) z ++ z)) rows
  Units-Vanish m i d pre [] z h lp lw = tt
  Units-Vanish m i d pre (r ∷ rows) z ((j, e, shape, len), more) lp lw =
      let moved : (pre ++ (r ∷ [])) ++ rows ≡ pre ++ (r ∷ rows) = append_assoc pre (r ∷ []) rows in
      (
        unit-Vanish m i j d pre rows r z e shape lp lw,
        subst (λ w. All (Vanish (unknowns d w z ++ z)) rows) moved
            (Units-Vanish m (suc i) d (pre ++ (r ∷ [])) rows z more
              (length-snoc pre r ∙ omega arith) (ap length moved ∙ lw)),
      )

  -- A solution of all equations, or a vector that shows that there is none for some right sides.
  abbrev pub Solved : ℕ → ℕ → List (List A) → Coded (List (List A)) → Type 0
  Solved size q work result =
      ((w : List (List A)) × (result ≡ ok w)
        × (length w ≡ size)
        × All (λ (r : List A). length r ≡ size + q) w
        × ((z : List A) → All (Vanish (unknowns size w z ++ z)) work))
      ⊎ ((result ≡ err singular_matrix)
          × ((w : List A) × (length w < size) × All (Vanish (w ++ (k.one ∷ []))) work))

  All-Start :
      (m : ℕ) (work : List (List A)) → All (λ (r : List A). length r ≡ m) work → Start m 0 work
  All-Start m [] h = tt
  All-Start m (r ∷ work) h = (((r, refl), h.0), All-Start m work h.1)

  pub no_other_width :
      (m : ℕ) (work : List (List A))
      → All (λ (r : List A). length r ≡ m) work
      → any (λ (r : List A). not (length r == m)) work ≡ false
  no_other_width m [] h = refl
  no_other_width m (r ∷ work) h = ground (arith, no_other_width m work h.1)

  first_width :
      (m : ℕ) (work : List (List A))
      → 0 < length work
      → All (λ (r : List A). length r ≡ m) work
      → length (get_or work 0 []) ≡ m
  first_width m [] lt h = absurd (omega arith)
  first_width m (r ∷ work) lt h = h.0

  finish :
      (size q : ℕ) (work : List (List A)) (result : Coded (List (List A)))
      → Triangle (size + q) size [] work result
      → Solved size q work (result >>= λ triangular. ok (backward 0 [] triangular))
  finish size q work result (inr (e, (w, len, ha, hb))) = inr (rw e refl, (w, len, hb))
  finish size q work result (inl (w, e, leads, len, back)) =
      let (units, lw, more) = backward_lem (size + q) 0 [] w tt refl leads in
      let full : 0 + length w ≡ size = omega arith in
      let final = backward 0 [] w in
      inl (
        final,
        rw e refl,
        lw ∙ full,
        unit_lengths (size + q) 0 (0 + length w) final units,
        λ z.
            (back _
              (more _ (
                Units-Vanish (size + q) 0 size [] final z
                  (subst (λ c. Units (size + q) 0 c final) full units) refl (lw ∙ full))).1).1,
      )

  pub gauss_jordan_lem :
      (size q : ℕ) (work : List (List A))
      → 0 < size
      → length work ≡ size
      → All (λ (r : List A). length r ≡ size + q) work
      → Solved size q work (gauss_jordan work size)
  unfolding gauss_jordan
  gauss_jordan_lem size q work pos len widths =
      let width = first_width (size + q) work (omega arith) widths in
      let sized : (size == 0 || not (length work == size)) ≡ false = ground arith in
      let wide : ltb (size + q) size ≡ false = ground arith in
      rw (gauss_jordan, sized, width, wide, no_other_width (size + q) work widths)
        (finish size q work (forward size 0 [] work) (
          subst (λ n. Triangle (size + q) n [] work (forward size 0 [] work)) {x = 0 + size}
            {y = size} (omega arith)
            (forward_lem (size + q) size 0 [] work (omega arith) tt refl
              (All-Start (size + q) work widths) len)))
