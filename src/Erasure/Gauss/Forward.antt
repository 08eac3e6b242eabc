-- ===== src/Erasure/Gauss/Forward.antt =====
-- src/erasure_coding.rs: the first loop of `gauss_jordan`, with its failure.
use weeb.Prelude.{
  ℕ, zero, suc, ◌+◌, ◌<◌, ◌≤◌, length, length-snoc, length-map, All, List, [], ◌∷◌, ◌++◌, map, ◌≡◌,
  ◌⊎◌, inl, inr, refl, ◌∙◌, arith,
}
use mathlib.Core.List.{append-nil}
use weeb.Erasure.BinaryField.{BinaryField}
use weeb.Erasure.MatrixCache.{ok, err}
use weeb.Erasure.Gauss.{Coded, singular_matrix, normalize, eliminate, forward}
use weeb.Erasure.Gauss.Rows.{Vanish}
use weeb.Erasure.Gauss.Pivot.{Picked-length, select_pivot_cases}
use weeb.Erasure.Gauss.Round.{Leads, Start, substitute_back, empty_columns-Vanish, round}

module _ {A : Type 0} ⦃k : BinaryField A⦄ (m : ℕ) where
  -- The result of the first loop, or a solution that shows that there is none.
  abbrev pub Triangle : ℕ → List (List A) → List (List A) → Coded (List (List A)) → Type 0
  Triangle n above below result =
      ((w : List (List A)) × (result ≡ ok w)
        × Leads m 0 w
        × (length w ≡ n)
        × ((v : List A) → All (Vanish v) w → All (Vanish v) above × All (Vanish v) below))
      ⊎ ((result ≡ err singular_matrix)
          × ((w : List A) × (length w < n)
              × All (Vanish (w ++ (k.one ∷ []))) above
              × All (Vanish (w ++ (k.one ∷ []))) below))

  carry :
      (d rounds : ℕ) (above below above' below' : List (List A)) (result : Coded (List (List A)))
      → ((v : List A)
          → All (Vanish v) above'
          → All (Vanish v) below'
          → All (Vanish v) above × All (Vanish v) below)
      → Triangle (suc d + rounds) above' below' result
      → Triangle (d + suc rounds) above below result
  carry d rounds above below above' below' result back (inl (w, e, leads, len, solved)) =
      inl (w, e, leads, omega arith, λ v h. let r = solved v h in back v r.0 r.1)
  carry d rounds above below above' below' result back (inr (e, (w, len, ha, hb))) =
      let r = back (w ++ (k.one ∷ [])) ha hb in inr (e, (w, omega arith, r.0, r.1))

  pub forward_lem :
      (rounds d : ℕ) (above below : List (List A))
      → d + rounds ≤ m
      → Leads m 0 above
      → length above ≡ d
      → Start m d below
      → length below ≡ rounds
      → Triangle (d + rounds) above below (forward rounds d above below)
  unfolding forward
  forward_lem zero d above [] fits leads la starts lb = inl (
    above ++ [],
    refl,
    rw (append-nil above) leads,
    rw (append-nil above) (omega arith),
    λ v h. (rw (append-nil above) at h, tt),
  )
  forward_lem zero d above (r ∷ below) fits leads la starts lb = absurd (omega arith)
  forward_lem (suc rounds) d above below fits leads la starts lb =
      elim (select_pivot_cases d below) [
        | inl (e, z) ↦
            let (w, hw, solved) = substitute_back m 0 above (k.one ∷ []) leads in
            inr (
              rw (forward, e) refl,
              (
                w,
                omega arith,
                solved [] refl,
                empty_columns-Vanish m d below w (omega arith) (omega arith) starts z,
              ),
            )
        | inr (c, out, e, picked, pivot) ↦
            let (leads', starts', back) =
              round m d above below out c (omega arith) leads la starts picked pivot in
            let rest =
              forward_lem rounds (suc d) (above ++ (normalize d c ∷ []))
                (map (eliminate d (normalize d c)) out) (omega arith) leads'
                (length-snoc above (normalize d c) ∙ omega arith) starts'
                (length-map out (eliminate d (normalize d c))
                  ∙ omega (arith, Picked-length picked)) in
            rw (forward, e) (carry d rounds above below _ _ _ back rest)
      ]
