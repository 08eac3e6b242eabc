-- ===== src/Erasure/Coding/Selected.antt =====
-- src/erasure_coding.rs: the rows that `inverse_rows_for_selected` returns, for any selection.
use weeb.Prelude.{
  ℕ, zero, suc, ◌+◌, ◌<◌, ◌≤◌, ◌==◌, leb, true, false, if◌then◌else◌, length, length-append,
  length-map, get_or, get_elem?, set, All, List, [], ◌∷◌, ◌++◌, map, ◌≡◌, ◌≢◌, inl, inr, refl, sym,
  ap, ◌∙◌, arith,
}
use mathlib.Core.Path.{subst}
use weeb.Erasure.BinaryField.{BinaryField, ◌⊕◌, eq_of_add}
use weeb.Erasure.BinaryField.Vectors.{dot, dot_comm, dot-append, zeros}
use weeb.Erasure.MatrixCache.{ok}
use weeb.Erasure.Gauss.{Coded, ◌>>=◌, any, entry, gauss_jordan}
use weeb.Erasure.Gauss.Rows.{Vanish}
use weeb.Erasure.Gauss.Solve.{Solved, unknowns, gauss_jordan_lem}
use weeb.Erasure.Coding.{
  indices, is_empty, wrong_length, decode_equation, inverse_rows_for_selected, inverse_rows_of_size,
}
use weeb.Erasure.Coding.Combine.{apply, column, HasWidth}
use weeb.Erasure.Coding.Inverse.{unit_entry, dot_prefix}
use weeb.Erasure.Coding.Systematic.{length-indices, get-indices}
use weeb.Erasure.Coding.Decode.{
  All-indices, get_elem-indices, entry-mark, unknowns-unit, Picks, picks, nothing,
}

pub not_beyond : (d : ℕ) (rs : List ℕ) → All (λ r. r < d) rs → any (λ row. leb d row) rs ≡ false
not_beyond d [] h = refl
not_beyond d (r ∷ rs) h = ground (arith, not_beyond d rs h.1)

not_empty : (rs : List ℕ) → 0 < length rs → is_empty rs ≡ false
not_empty [] h = absurd (omega arith)
not_empty (r ∷ rs) h = refl

get-below : (d : ℕ) (rs : List ℕ) (j : ℕ) → All (λ r. r < d) rs → j < length rs → get_or rs j 0 < d
get-below d [] j h lt = absurd (omega arith)
get-below d (r ∷ rs) zero h lt = h.0
get-below d (r ∷ rs) (suc j) h lt = get-below d rs j h.1 (omega arith)

module _ {A : Type 0} ⦃k : BinaryField A⦄ where
  -- Rows that decode, each for its request.
  abbrev pub PickAll : ℕ → List (List A) → List (List A) → List ℕ → Type 0
  PickAll d rows [] [] = Unit {0}
  PickAll d rows (dec ∷ decs) (r ∷ rs) = Picks d rows dec r × PickAll d rows decs rs
  PickAll d rows _ _ = ⊥

  PickAll-indices :
      (d from : ℕ) (rows : List (List A)) (f : ℕ → List A) (rs : List ℕ)
      → ((j : ℕ) → j < length rs → Picks d rows (f (from + j)) (get_or rs j 0))
      → PickAll d rows (map f (indices from (length rs))) rs
  PickAll-indices d from rows f [] h = tt
  PickAll-indices d from rows f (r ∷ rs) h = (
    subst (λ i. Picks d rows (f i) r) {x = from + 0} {y = from} (omega arith) (h 0 (omega arith)),
    PickAll-indices d (suc from) rows f rs (λ j lt.
        subst (λ i. Picks d rows (f i) (get_or rs j 0)) {x = from + suc j} {y = suc from + j}
          (omega arith) (h (suc j) (omega arith))),
  )

  -- The equations, once the rows of the matrix are known.
  module _ (d t : ℕ) (row : ℕ → List A) (width : (r : ℕ) → length (row r) ≡ d) where
    matrix : List (List A)
    matrix = map row (indices 0 t)

    chosen : List ℕ → List (List A)
    chosen selected = map row selected

    chosen-HasWidth : (selected : List ℕ) → HasWidth d (chosen selected)
    unfolding chosen
    chosen-HasWidth [] = tt
    chosen-HasWidth (r ∷ selected) = (width r, chosen-HasWidth selected)

    chosen-column :
        (selected : List ℕ) (o : ℕ)
        → All (λ r. r < t) selected
        → map (λ r. entry (get_or matrix r []) o) selected ≡ column o (chosen selected)
    unfolding matrix chosen
    chosen-column [] o h = refl
    chosen-column (r ∷ selected) o h =
        ap (λ v. entry v o ∷ map (λ r. entry (get_or matrix r []) o) selected)
          (get-indices row [] 0 t r h.0 ∙ ap row {x = 0 + r} {y = r} (omega arith))
        ∙ ap (◌∷◌ (entry (row r) o)) (chosen-column selected o h.1)

    right_lengths :
        (selected : List ℕ)
        → All (λ r. r < t) selected
        → any (λ r. wrong_length d (get_elem? matrix r)) selected ≡ false
    unfolding matrix
    right_lengths [] h = refl
    right_lengths (r ∷ selected) h =
        rw (get_elem-indices row 0 t r h.0, ==_same (width (0 + r))) (right_lengths selected h.1)
      where
        ==_same : {n m : ℕ} → n ≡ m → (n == m) ≡ true
        ==_same e = ground arith

    equations-HasWidth :
        (selected rs os : List ℕ)
        → length selected ≡ d
        → HasWidth (d + length rs) (map (decode_equation matrix selected rs) os)
    unfolding decode_equation
    equations-HasWidth selected rs [] ls = tt
    equations-HasWidth selected rs (o ∷ os) ls = (
      omega (
        arith,
        length-append (map (λ r. entry (get_or matrix r []) o) selected)
            (map (λ r. if r == o then k.one else k.zero) rs),
        length-map selected (λ r. entry (get_or matrix r []) o),
        length-map rs (λ r. if r == o then k.one else k.zero),
      ),
      equations-HasWidth selected rs os ls,
    )

    -- One equation, for a vector with a second part.
    equation_parts :
        (selected rs : List ℕ) (o : ℕ) (u z : List A)
        → All (λ r. r < t) selected
        → length selected ≡ length u
        → dot (decode_equation matrix selected rs o) (u ++ z)
          ≡ dot (column o (chosen selected)) u
            ⊕ dot (map (λ r. if r == o then k.one else k.zero) rs) z
    unfolding decode_equation
    equation_parts selected rs o u z h lu =
        dot-append _ _ u z (length-map selected (λ r. entry (get_or matrix r []) o) ∙ lu)
        ∙ ap (λ c. dot c u ⊕ dot (map (λ r. if r == o then k.one else k.zero) rs) z)
            (chosen-column selected o h)

    equation_prefix :
        (selected rs : List ℕ) (o : ℕ) (u : List A)
        → All (λ r. r < t) selected
        → length u ≤ length selected
        → dot (decode_equation matrix selected rs o) u ≡ dot u (column o (chosen selected))
    unfolding decode_equation
    equation_prefix selected rs o u h lu =
        dot_prefix (map (λ r. entry (get_or matrix r []) o) selected) _ u
          (omega (arith, length-map selected (λ r. entry (get_or matrix r []) o)))
        ∙ ap (λ c. dot c u) (chosen-column selected o h)
        ∙ dot_comm _ u

    -- Column j of the result decodes request j.
    solved-Picks :
        (selected rs : List ℕ) (w : List (List A)) (j : ℕ)
        → All (λ r. r < t) selected
        → length selected ≡ d
        → All (λ r. r < d) rs
        → length w ≡ d
        → j < length rs
        → ((z : List A)
            → All
                (Vanish (unknowns d w z ++ z))
                (map (decode_equation matrix selected rs) (indices 0 d)))
        → Picks d (chosen selected) (map (λ (r : List A). entry r (d + j)) w) (get_or rs j 0)
    solved-Picks selected rs w j h ls hr lw lt solved =
        let q = length rs in
        let unit = set (zeros q) j k.one in
        let dec = map (λ (r : List A). entry r (d + j)) w in
        let same : unknowns d w unit ≡ dec = unknowns-unit d q j w lt in
        let ld : length dec ≡ d = length-map w _ ∙ lw in
        let equation = λ (o : ℕ) (lo : o < d).
          dot_comm dec (column o (chosen selected))
          ∙ eq_of_add _ _ (
              sym (equation_parts selected rs o dec unit h (ls ∙ sym ld))
              ∙ ap (λ u. dot (decode_equation matrix selected rs o) (u ++ unit)) (sym same)
              ∙ subst
                  (λ i. Vanish (unknowns d w unit ++ unit) (decode_equation matrix selected rs i))
                  {x = 0 + o} {y = o} (omega arith)
                  (All-indices (Vanish (unknowns d w unit ++ unit))
                    (decode_equation matrix selected rs) 0 d o (solved unit) lo))
          ∙ dot_comm _ unit
          ∙ unit_entry q j _ lt
          ∙ entry-mark rs o j lt in
        (
          ld,
          λ x lx.
              picks d (get_or rs j 0) (chosen selected) dec x (get-below d rs j hr lt)
                (chosen-HasWidth selected) equation,
        )

    no_kernel :
        (selected rs : List ℕ) (w : List A)
        → All (λ r. r < t) selected
        → length selected ≡ d
        → length w < d
        → ((x : List A) × (length x ≡ d)
            × (dot (w ++ (k.one ∷ [])) (apply (chosen selected) x) ≢ k.zero))
        → ¬ All
            (Vanish (w ++ (k.one ∷ [])))
            (map (decode_equation matrix selected rs) (indices 0 d))
    no_kernel selected rs w h ls lw (x, lx, ne) v =
        let u = w ++ (k.one ∷ []) in
        ne (
          nothing d (chosen selected) u x (chosen-HasWidth selected) (λ o lo.
            sym (equation_prefix selected rs o u h (omega (arith, length-append w (k.one ∷ []))))
            ∙ subst (λ i. Vanish u (decode_equation matrix selected rs i)) {x = 0 + o} {y = o}
                (omega arith)
                (All-indices (Vanish u) (decode_equation matrix selected rs) 0 d o v lo)))

    abbrev pub Decoded : List ℕ → List ℕ → Coded (List (List A)) → Type 0
    Decoded selected rs result =
        (decs : List (List A)) × (result ≡ ok decs) × PickAll d (map row selected) decs rs

    finish_rows :
        (selected rs : List ℕ) (result : Coded (List (List A)))
        → All (λ r. r < t) selected
        → length selected ≡ d
        → All (λ r. r < d) rs
        → ((w : List A)
            → length w < d
            → (x : List A) × (length x ≡ d)
              × (dot (w ++ (k.one ∷ [])) (apply (chosen selected) x) ≢ k.zero))
        → Solved d (length rs) (map (decode_equation matrix selected rs) (indices 0 d)) result
        → Decoded selected rs (
            result >>= λ work.
            ok (map (λ j. map (λ (r : List A). entry r (d + j)) work) (indices 0 (length rs))))
    unfolding chosen
    finish_rows selected rs result h ls hr indep (inl (w, e, lw, wide, solved)) = (
      map (λ j. map (λ (r : List A). entry r (d + j)) w) (indices 0 (length rs)),
      rw e refl,
      PickAll-indices d 0 (map row selected) (λ j. map (λ (r : List A). entry r (d + j)) w) rs
          (λ j lt.
            subst
              (λ i.
                Picks d (map row selected) (map (λ (r : List A). entry r (d + i)) w)
                  (get_or rs j 0))
              {x = j} {y = 0 + j} (omega arith)
              (solved-Picks selected rs w j h ls hr lw lt solved)),
    )
    finish_rows selected rs result h ls hr indep (inr (e, (w, lw, v))) =
        absurd (no_kernel selected rs w h ls lw (indep w lw) v)

    pub inverse_rows_lem :
        (selected rs : List ℕ)
        → 0 < d
        → 0 < length rs
        → All (λ r. r < t) selected
        → length selected ≡ d
        → All (λ r. r < d) rs
        → ((w : List A)
            → length w < d
            → (x : List A) × (length x ≡ d)
              × (dot (w ++ (k.one ∷ [])) (apply (map row selected) x) ≢ k.zero))
        → Decoded selected rs (inverse_rows_for_selected (map row (indices 0 t)) selected rs)
    unfolding inverse_rows_for_selected inverse_rows_of_size matrix chosen
    inverse_rows_lem selected rs pos some_rows h ls hr indep =
        let work = map (decode_equation (map row (indices 0 t)) selected rs) (indices 0 d) in
        let sized : (d == 0) ≡ false = ground arith in
        subst
          (λ n. Decoded selected rs (inverse_rows_of_size n (map row (indices 0 t)) selected rs))
          (sym ls)
          (rw
            (
              inverse_rows_of_size,
              sized,
              not_beyond d rs hr,
              right_lengths selected h,
              not_empty rs some_rows,
            )
            (finish_rows selected rs (gauss_jordan work d) h ls hr indep (
              gauss_jordan_lem d (length rs) work pos
                (length-map (indices 0 d) _ ∙ length-indices 0 d)
                (equations-HasWidth selected rs (indices 0 d) ls))))
