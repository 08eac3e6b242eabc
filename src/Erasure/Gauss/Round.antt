-- ===== src/Erasure/Gauss/Round.antt =====
-- src/erasure_coding.rs: one round of the first loop of `gauss_jordan`, and the solution of a triangle.
use weeb.Prelude.{
  ℕ, zero, suc, ◌+◌, ◌<◌, length, length-append, length-replicate, length-snoc, All, List, [], ◌∷◌,
  ◌++◌, map, ◌≡◌, ◌≢◌, refl, sym, ap, ◌∙◌, arith,
}
use mathlib.Core.List.{append_assoc}
use mathlib.Core.Path.{subst}
use weeb.Erasure.BinaryField.{BinaryField}
use weeb.Erasure.BinaryField.Vectors.{dot, zeros, dot-append, zeros-dot, scaled, added}
use weeb.Erasure.Gauss.{entry, normalize, eliminate}
use weeb.Erasure.Gauss.Rows.{
  Below, Lead, Vanish, entry-append, eliminate_column, eliminate-Vanish, normalize-Lead,
  normalize-Vanish, length-eliminate,
}
use weeb.Erasure.Gauss.Pivot.{Picked, Picked-All, Picked-All_back}

pub All-append_parts {ℓ} :
    {A : Type ℓ} (P : A → Type 0) (xs ys : List A) → All P (xs ++ ys) → All P xs × All P ys
All-append_parts P [] ys h = (tt, h)
All-append_parts P (x ∷ xs) ys h = let r = All-append_parts P xs ys h.1 in ((h.0, r.0), r.1)

module _ {A : Type 0} ⦃k : BinaryField A⦄ (m : ℕ) where
  -- Rows of width m that start with ones, one column further from row to row.
  abbrev pub Leads : ℕ → List (List A) → Type 0
  Leads i [] = Unit {0}
  Leads i (r ∷ rows) = (Lead i r × (length r ≡ m)) × Leads (suc i) rows

  abbrev pub Start : ℕ → List (List A) → Type 0
  Start d rows = All (λ (r : List A). Below d r × (length r ≡ m)) rows

  pub Leads-snoc :
      (i d : ℕ) (rows : List (List A)) (r : List A)
      → Leads i rows
      → i + length rows ≡ d
      → Lead d r × (length r ≡ m)
      → Leads i (rows ++ (r ∷ []))
  Leads-snoc i d [] r h e l =
      let same : d ≡ i = omega arith in (subst (λ c. Lead c r × (length r ≡ m)) same l, tt)
  Leads-snoc i d (x ∷ rows) r h e l = (h.0, Leads-snoc (suc i) d rows r h.1 (omega arith) l)

  -- The unknowns of a triangle, from the last to the first, for any values of the other columns.
  pub substitute_back :
      (i : ℕ) (rows : List (List A)) (u : List A)
      → Leads i rows
      → (w : List A) × (length w ≡ length rows)
        × ((z : List A) → length z ≡ i → All (Vanish (z ++ (w ++ u))) rows)
  substitute_back i [] u h = ([], refl, λ z e. tt)
  substitute_back i (r ∷ rows) u (((tail, lead), len), more) =
      let (w, hw, solved) = substitute_back (suc i) rows u more in
      let x = dot tail (w ++ u) in
      (
        x ∷ w,
        ap suc hw,
        λ z e. (
          (rw lead (
              dot-append (zeros i) (k.one ∷ tail) z (x ∷ (w ++ u))
                (length-replicate i k.zero ∙ sym e)
              ∙ rw (zeros-dot i z) (k.zero-add _ ∙ first tail (w ++ u)))),
          subst (λ v. All (Vanish v) rows) (append_assoc z (x ∷ []) (w ++ u))
              (solved (z ++ (x ∷ [])) (length-snoc z x ∙ omega arith)),
        ),
      )
    where
      first : (t v : List A) → dot (k.one ∷ t) (dot t v ∷ v) ≡ k.zero
      first t v = unfold dot in rw (k.one-mul (dot t v)) (k.add_self _)

  -- A row with a zero in the next column, too.
  empty_column :
      (d : ℕ) (row : List A)
      → d < m
      → Below d row
      → length row ≡ m
      → entry row d ≡ k.zero
      → (t : List A) × (row ≡ zeros d ++ (k.zero ∷ t))
  unfolding entry
  empty_column d row h ([], e) len z =
      absurd (omega (arith, ap length e, length-append (zeros d) [], length-replicate d k.zero))
  empty_column d row h (x ∷ t, e) len z =
      let same : x ≡ k.zero =
        sym (entry-append (zeros d) (x ∷ t) d (length-replicate d k.zero))
        ∙ ap (λ r. entry r d) (sym e)
        ∙ z in
      (t, e ∙ ap (λ y. zeros d ++ (y ∷ t)) same)

  empty_column-Vanish :
      (d : ℕ) (row w : List A) (t : List A)
      → row ≡ zeros d ++ (k.zero ∷ t)
      → length w ≡ d
      → Vanish (w ++ (k.one ∷ [])) row
  empty_column-Vanish d row w t e hw = rw e (
      dot-append (zeros d) (k.zero ∷ t) w (k.one ∷ []) (length-replicate d k.zero ∙ sym hw)
      ∙ rw (zeros-dot d w) (k.zero-add _ ∙ last t))
    where
      last : (t : List A) → dot (k.zero ∷ t) (k.one ∷ []) ≡ k.zero
      last [] = unfold dot in rw (k.mul_comm k.zero k.one, k.one-mul) (k.zero-add k.zero)
      last (y ∷ t) = unfold dot in rw (k.mul_comm k.zero k.one, k.one-mul) (k.zero-add k.zero)

  pub empty_columns-Vanish :
      (d : ℕ) (rows : List (List A)) (w : List A)
      → d < m
      → length w ≡ d
      → Start d rows
      → All (λ (r : List A). entry r d ≡ k.zero) rows
      → All (Vanish (w ++ (k.one ∷ []))) rows
  empty_columns-Vanish d [] w lt hw h z = tt
  empty_columns-Vanish d (r ∷ rows) w lt hw h z =
      let (t, e) = empty_column d r lt h.0.0 h.0.1 z.0 in
      (empty_column-Vanish d r w t e hw, empty_columns-Vanish d rows w lt hw h.1 z.1)

  pub zeros_shift : (d : ℕ) (t : List A) → zeros d ++ (k.zero ∷ t) ≡ zeros (suc d) ++ t
  zeros_shift zero t = refl
  zeros_shift (suc d) t = ap (◌∷◌ k.zero) (zeros_shift d t)

  -- A row that starts later than its width does not exist.
  next_entry :
      (d : ℕ) (row : List A)
      → d < m
      → Below d row
      → length row ≡ m
      → (x : A) × (t : List A) × (row ≡ zeros d ++ (x ∷ t)) × (d + suc (length t) ≡ m)
  next_entry d row h ([], e) len =
      absurd (omega (arith, ap length e, length-append (zeros d) [], length-replicate d k.zero))
  next_entry d row h (x ∷ t, e) len = (
    x,
    t,
    e,
    omega (arith, ap length e, length-append (zeros d) (x ∷ t), length-replicate d k.zero),
  )

  eliminate-Start :
      (d : ℕ) (source : List A) (rows : List (List A))
      → d < m
      → Lead d source
      → length source ≡ m
      → Start d rows
      → Start (suc d) (map (eliminate d source) rows)
  eliminate-Start d source [] lt (s, e) len h = tt
  eliminate-Start d source (row ∷ rows) lt (s, e) len h =
      let (x, t, er, long) = next_entry d row lt h.0.0 h.0.1 in
      let shape : eliminate d source row ≡ zeros (suc d) ++ added t (scaled x s) =
        rw (e, er)
          (eliminate_column d (zeros d) s t x (length-replicate d k.zero) (
              omega (
                arith,
                ap length e,
                length-append (zeros d) (k.one ∷ s),
                length-replicate d k.zero,
              ))
            ∙ zeros_shift d _) in
      (
        (
          (added t (scaled x s), shape),
          length-eliminate d source row (k.one ∷ s, e) (h.0.1 ∙ sym len) ∙ h.0.1,
        ),
        eliminate-Start d source rows lt (s, e) len h.1,
      )

  pub eliminate-All-Vanish :
      (d : ℕ) (source v : List A) (rows : List (List A))
      → Below d source
      → length source ≡ m
      → All (λ (r : List A). length r ≡ m) rows
      → Vanish v source
      → All (Vanish v) (map (eliminate d source) rows)
      → All (Vanish v) rows
  eliminate-All-Vanish d source v [] b len h hs hr = tt
  eliminate-All-Vanish d source v (row ∷ rows) b len h hs hr = (
    eliminate-Vanish d source row v b (h.0 ∙ sym len) hs hr.0,
    eliminate-All-Vanish d source v rows b len h.1 hs hr.1,
  )

  lengths : (d : ℕ) (rows : List (List A)) → Start d rows → All (λ (r : List A). length r ≡ m) rows
  lengths d [] h = tt
  lengths d (r ∷ rows) h = (h.0.1, lengths d rows h.1)

  -- One round with a pivot: the new rows have their shape, and their solutions are solutions.
  pub round :
      (d : ℕ) (above below out : List (List A)) (c : List A)
      → d < m
      → Leads 0 above
      → length above ≡ d
      → Start d below
      → Picked below c out
      → entry c d ≢ k.zero
      → Leads 0 (above ++ (normalize d c ∷ []))
        × Start (suc d) (map (eliminate d (normalize d c)) out)
        × ((v : List A)
            → All (Vanish v) (above ++ (normalize d c ∷ []))
            → All (Vanish v) (map (eliminate d (normalize d c)) out)
            → All (Vanish v) above × All (Vanish v) below)
  unfolding entry
  round d above below out c lt leads la starts picked pivot =
      let (hc, hout) = Picked-All (λ (r : List A). Below d r × (length r ≡ m)) picked starts in
      let (x, t, e, long) = next_entry d c lt hc.0 hc.1 in
      let ne : x ≢ k.zero = λ z. pivot (
        ap (λ r. entry r d) e ∙ entry-append (zeros d) (x ∷ t) d (length-replicate d k.zero) ∙ z) in
      let (s, shape, ls) = normalize-Lead d t x ne in
      let source : normalize d c ≡ zeros d ++ (k.one ∷ s) = ap (normalize d) e ∙ shape in
      let len : length (normalize d c) ≡ m =
        omega (
          arith,
          ap length source,
          length-append (zeros d) (k.one ∷ s),
          length-replicate d k.zero,
        ) in
      (
        Leads-snoc 0 d above (normalize d c) leads (omega arith) ((s, source), len),
        eliminate-Start d (normalize d c) out lt (s, source) len hout,
        λ v ha hr.
            let (old, new) = All-append_parts (Vanish v) above (normalize d c ∷ []) ha in
            (
              old,
              Picked-All_back (Vanish v) picked
                  (subst (Vanish v) (sym e)
                    (normalize-Vanish d t v x ne (subst (λ r. Vanish v (normalize d r)) e new.0)))
                  (eliminate-All-Vanish d (normalize d c) v out (k.one ∷ s, source) len
                    (lengths d out hout) new.0 hr),
            ),
      )
