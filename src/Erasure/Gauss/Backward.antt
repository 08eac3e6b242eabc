-- ===== src/Erasure/Gauss/Backward.antt =====
-- src/erasure_coding.rs: the second loop of `gauss_jordan`, on a triangle.
use weeb.Prelude.{
  ℕ, suc, ◌+◌, length, length-append, length-replicate, length-snoc, length-map, All, List, [], ◌∷◌,
  ◌++◌, map, ◌≡◌, refl, sym, ap, ◌∙◌, arith,
}
use mathlib.Core.List.{append_assoc}
use mathlib.Core.Path.{subst}
use weeb.Erasure.BinaryField.{BinaryField}
use weeb.Erasure.BinaryField.Vectors.{zeros, scaled, added}
use weeb.Erasure.Gauss.{eliminate, backward}
use weeb.Erasure.Gauss.Rows.{Lead, Vanish, eliminate_column, length-eliminate}
use weeb.Erasure.Gauss.Round.{Leads, All-append_parts, eliminate-All-Vanish, zeros_shift}

module _ {A : Type 0} ⦃k : BinaryField A⦄ (m : ℕ) where
  -- A one with i zeros before it and j zeros behind it.
  abbrev pub UnitAt : ℕ → ℕ → List A → Type 0
  UnitAt i j row = (tail : List A) × (row ≡ zeros i ++ (k.one ∷ (zeros j ++ tail)))

  -- The first d columns of the rows from row i on are those of the identity.
  abbrev pub Units : ℕ → ℕ → List (List A) → Type 0
  Units i d [] = Unit {0}
  Units i d (r ∷ rows) =
      ((j : ℕ) × (suc (i + j) ≡ d) × UnitAt i j r × (length r ≡ m)) × Units (suc i) d rows

  Units-snoc :
      (i d : ℕ) (rows : List (List A)) (r : List A)
      → Units i (suc d) rows
      → i + length rows ≡ d
      → Lead d r
      → length r ≡ m
      → Units i (suc d) (rows ++ (r ∷ []))
  Units-snoc i d [] r h e (s, lead) len =
      let same : d ≡ i = omega arith in
      ((0, omega arith, (s, lead ∙ ap (λ c. zeros c ++ (k.one ∷ s)) same), len), tt)
  Units-snoc i d (x ∷ rows) r h e lead len =
      (h.0, Units-snoc (suc i) d rows r h.1 (omega arith) lead len)

  unit_shape :
      (i j : ℕ) (t : List A)
      → zeros i ++ (k.one ∷ (zeros j ++ t)) ≡ (zeros i ++ (k.one ∷ zeros j)) ++ t
  unit_shape i j t = sym (append_assoc (zeros i) (k.one ∷ zeros j) t)

  unit_length : (i j : ℕ) (u : List A) → u ≡ zeros i ++ (k.one ∷ zeros j) → length u ≡ suc (i + j)
  unit_length i j u e = omega (
    arith,
    ap length e,
    length-append (zeros i) (k.one ∷ zeros j),
    length-replicate i k.zero,
    length-replicate j k.zero,
  )

  eliminate-UnitAt :
      (i j d : ℕ) (s row : List A)
      → suc (i + j) ≡ d
      → d + suc (length s) ≡ m
      → UnitAt i j row
      → length row ≡ m
      → UnitAt i (suc j) (eliminate d (zeros d ++ (k.one ∷ s)) row)
  eliminate-UnitAt i j d s row e long ([], shape) len = absurd (
      omega (
        arith,
        ap length (shape ∙ unit_shape i j []),
        length-append (zeros i ++ (k.one ∷ zeros j)) [],
        unit_length i j _ refl,
      ))
  eliminate-UnitAt i j d s row e long (x ∷ t, shape) len =
      let same : length t ≡ length s = omega (
        arith,
        ap length (shape ∙ unit_shape i j (x ∷ t)),
        length-append (zeros i ++ (k.one ∷ zeros j)) (x ∷ t),
        unit_length i j _ refl,
      ) in
      (
        added t (scaled x s),
        ap (eliminate d (zeros d ++ (k.one ∷ s))) (shape ∙ unit_shape i j (x ∷ t))
            ∙ eliminate_column d (zeros i ++ (k.one ∷ zeros j)) s t x (unit_length i j _ refl ∙ e)
                same
            ∙ sym (unit_shape i j _)
            ∙ ap (λ r. zeros i ++ (k.one ∷ r)) (zeros_shift m j _),
      )

  source_length :
      (d : ℕ) (s : List A) → length (zeros d ++ (k.one ∷ s)) ≡ m → d + suc (length s) ≡ m
  source_length d s h =
      omega (arith, length-append (zeros d) (k.one ∷ s), length-replicate d k.zero)

  eliminate-Units :
      (i d : ℕ) (source : List A) (rows : List (List A))
      → Lead d source
      → length source ≡ m
      → Units i d rows
      → Units i (suc d) (map (eliminate d source) rows)
  eliminate-Units i d source [] lead len h = tt
  eliminate-Units i d source (row ∷ rows) (s, e) len (((j, sum, shape, lr), more)) = (
    (
      suc j,
      omega arith,
      subst (λ c. UnitAt i (suc j) (eliminate d c row)) (sym e)
          (eliminate-UnitAt i j d s row sum (source_length d s (sym (ap length e) ∙ len)) shape lr),
      length-eliminate d source row (k.one ∷ s, e) (lr ∙ sym len) ∙ lr,
    ),
    eliminate-Units (suc i) d source rows (s, e) len more,
  )

  pub unit_lengths :
      (i d : ℕ) (rows : List (List A)) → Units i d rows → All (λ (r : List A). length r ≡ m) rows
  unit_lengths i d [] h = tt
  unit_lengths i d (r ∷ rows) h = (h.0.3, unit_lengths (suc i) d rows h.1)

  pub backward_lem :
      (d : ℕ) (above below : List (List A))
      → Units 0 d above
      → length above ≡ d
      → Leads m d below
      → Units 0 (d + length below) (backward d above below)
        × (length (backward d above below) ≡ d + length below)
        × ((v : List A)
            → All (Vanish v) (backward d above below)
            → All (Vanish v) above × All (Vanish v) below)
  unfolding backward
  backward_lem d above [] units la leads = (
    subst (λ c. Units 0 c above) {x = d} {y = d + 0} (omega arith) units,
    omega arith,
    λ v h. (h, tt),
  )
  backward_lem d above (source ∷ rest) units la (((s, lead), len), more) =
      let above' = map (eliminate d source) above ++ (source ∷ []) in
      let lm : length (map (eliminate d source) above) ≡ d =
        length-map above (eliminate d source) ∙ la in
      let (units', len', back) =
        backward_lem (suc d) above' rest
          (Units-snoc 0 d (map (eliminate d source) above) source
            (eliminate-Units 0 d source above (s, lead) len units) (omega (arith, lm)) (s, lead)
            len)
          (length-snoc (map (eliminate d source) above) source ∙ omega arith) more in
      (
        subst (λ c. Units 0 c (backward (suc d) above' rest)) {x = suc d + length rest}
            {y = d + suc (length rest)} (omega arith) units',
        len' ∙ omega arith,
        λ v h.
            let (ha, hr) = back v h in
            let (old, new) =
              All-append_parts (Vanish v) (map (eliminate d source) above) (source ∷ []) ha in
            (
              eliminate-All-Vanish m d source v above (k.one ∷ s, lead) len
                  (unit_lengths 0 d above units) new.0 old,
              (new.0, hr),
            ),
      )
