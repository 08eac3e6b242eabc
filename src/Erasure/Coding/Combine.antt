-- ===== src/Erasure/Coding/Combine.antt =====
-- src/erasure_coding.rs: what `code_row_slices` computes, column by column and as a sum of rows.
use weeb.Prelude.{
  ℕ, zero, suc, ◌<◌, Bool-cases, length, All, List, [], ◌∷◌, map, ◌≡◌, inl, inr, refl, sym, ap, ◌∙◌,
  arith, length-replicate,
}
use mathlib.Core.Path.{subst}
use weeb.Erasure.BinaryField.{BinaryField, ◌⊕◌, ◌⊗◌, add-zero, mul-zero}
use weeb.Erasure.BinaryField.Vectors.{
  dot, scaled, added, zeros, dot-scaled, dot-added, added-zeros, scaled-zero, scaled_one, zeros-dot,
  length-added,
}
use weeb.Erasure.Gauss.{entry}
use weeb.Erasure.Gauss.Rows.{length-scaled}
use weeb.Erasure.Coding.{mix, code_row, code_row_slices}

module _ {A : Type 0} ⦃k : BinaryField A⦄ where
  -- A matrix and a column.
  abbrev pub apply : List (List A) → List A → List A
  apply rows x = map (λ (r : List A). dot r x) rows

  -- Column j of rows, with zeros where a row is short.
  abbrev pub column : ℕ → List (List A) → List A
  column j rows = map (λ (r : List A). entry r j) rows

  abbrev pub HasWidth : ℕ → List (List A) → Type 0
  HasWidth n rows = All (λ (r : List A). length r ≡ n) rows

  -- The shortcuts for zero and one are none.
  mix_lem : (c : A) (input output : List A) → mix c input output ≡ added output (scaled c input)
  unfolding mix
  mix_lem c input output = elim (Bool-cases (k.eq c k.zero)) [
    | inl z ↦
        rw (z, (k.eq_iff _ _).0 z, scaled-zero input) (sym (added-zeros output (length input)))
    | inr nz ↦ elim (Bool-cases (k.eq c k.one)) [
      | inl o ↦ rw (nz, o, (k.eq_iff _ _).0 o, scaled_one input) refl
      | inr other ↦ rw (nz, other) refl
    ]
  ]

  length-code_row :
      (cs : List A) (inputs : List (List A)) (output : List A)
      → length (code_row cs inputs output) ≡ length output
  unfolding code_row
  length-code_row [] inputs output = refl
  length-code_row (c ∷ cs) [] output = refl
  length-code_row (c ∷ cs) (input ∷ inputs) output =
      length-code_row cs inputs (mix c input output)
      ∙ ap length (mix_lem c input output)
      ∙ length-added output _

  pub length-code_row_slices :
      (cs : List A) (inputs : List (List A)) (n : ℕ) → length (code_row_slices cs inputs n) ≡ n
  unfolding code_row_slices
  length-code_row_slices cs inputs n =
      length-code_row cs inputs (zeros n) ∙ length-replicate n k.zero

  dot-code_row :
      (cs : List A) (rows : List (List A)) (out x : List A)
      → HasWidth (length out) rows
      → dot (code_row cs rows out) x ≡ dot out x ⊕ dot cs (apply rows x)
  unfolding code_row
  dot-code_row [] rows out x h = sym (unfold dot in add-zero _)
  dot-code_row (c ∷ cs) [] out x h = sym (unfold dot in add-zero _)
  dot-code_row (c ∷ cs) (r ∷ rows) out x h =
      let step : dot (mix c r out) x ≡ dot out x ⊕ (c ⊗ dot r x) =
        ap (λ s. dot s x) (mix_lem c r out)
        ∙ dot-added out (scaled c r) x (sym h.0 ∙ sym (length-scaled c r))
        ∙ ap (λ s. dot out x ⊕ s) (dot-scaled c r x) in
      let wide : length out ≡ length (mix c r out) =
        sym (ap length (mix_lem c r out) ∙ length-added out _) in
      dot-code_row cs rows (mix c r out) x (subst (λ n. HasWidth n rows) wide h.1)
      ∙ ap (λ s. s ⊕ dot cs (apply rows x)) step
      ∙ unfold dot in k.add_assoc _ _ _

  -- A sum of rows, as a row: rows of one width, applied to a column.
  pub dot-code_row_slices :
      (cs : List A) (rows : List (List A)) (n : ℕ) (x : List A)
      → HasWidth n rows
      → dot (code_row_slices cs rows n) x ≡ dot cs (apply rows x)
  unfolding code_row_slices
  dot-code_row_slices cs rows n x h =
      dot-code_row cs rows (zeros n) x (rw (← length-replicate n k.zero) at h)
      ∙ rw (zeros-dot n x) (k.zero-add _)

  entry-added : (u v : List A) (j : ℕ) → j < length u → entry (added u v) j ≡ entry u j ⊕ entry v j
  unfolding entry added
  entry-added [] v j h = absurd (omega arith)
  entry-added (x ∷ u) [] zero h = sym (add-zero x)
  entry-added (x ∷ u) [] (suc j) h = sym (add-zero _)
  entry-added (x ∷ u) (y ∷ v) zero h = refl
  entry-added (x ∷ u) (y ∷ v) (suc j) h = entry-added u v j (omega arith)

  entry-scaled : (c : A) (u : List A) (j : ℕ) → entry (scaled c u) j ≡ c ⊗ entry u j
  unfolding entry scaled
  entry-scaled c [] j = sym (mul-zero c)
  entry-scaled c (x ∷ u) zero = refl
  entry-scaled c (x ∷ u) (suc j) = entry-scaled c u j

  pub entry-zeros : (n j : ℕ) → entry (zeros n) j ≡ k.zero
  unfolding entry
  entry-zeros zero j = refl
  entry-zeros (suc n) zero = refl
  entry-zeros (suc n) (suc j) = entry-zeros n j

  entry-code_row :
      (cs : List A) (inputs : List (List A)) (out : List A) (j : ℕ)
      → j < length out
      → entry (code_row cs inputs out) j ≡ entry out j ⊕ dot cs (column j inputs)
  unfolding code_row
  entry-code_row [] inputs out j h = sym (unfold dot in add-zero _)
  entry-code_row (c ∷ cs) [] out j h = sym (unfold dot in add-zero _)
  entry-code_row (c ∷ cs) (r ∷ inputs) out j h =
      let step : entry (mix c r out) j ≡ entry out j ⊕ (c ⊗ entry r j) =
        ap (λ s. entry s j) (mix_lem c r out)
        ∙ entry-added out (scaled c r) j h
        ∙ ap (λ s. entry out j ⊕ s) (entry-scaled c r j) in
      let wide : length (mix c r out) ≡ length out =
        ap length (mix_lem c r out) ∙ length-added out _ in
      entry-code_row cs inputs (mix c r out) j (omega (arith, wide))
      ∙ ap (λ s. s ⊕ dot cs (column j inputs)) step
      ∙ unfold dot in k.add_assoc _ _ _

  -- A shard, byte by byte: what is missing at the end of an input is zero.
  pub entry-code_row_slices :
      (cs : List A) (inputs : List (List A)) (n j : ℕ)
      → j < n
      → entry (code_row_slices cs inputs n) j ≡ dot cs (column j inputs)
  unfolding code_row_slices
  entry-code_row_slices cs inputs n j h =
      entry-code_row cs inputs (zeros n) j (omega (arith, length-replicate n k.zero))
      ∙ rw (entry-zeros n j) (k.zero-add _)
