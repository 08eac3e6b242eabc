-- ===== src/Erasure/Reconstruct/Encoded.antt =====
-- src/erasure_coding.rs: the shards that a `ParityEncoder` makes, byte by byte.
use weeb.Prelude.{
  ℕ, suc, ◌+◌, ◌-◌, ◌<◌, ◌≤◌, ◌==◌, leb, ltb, Bool-cases, false, ◌||◌, length, length-map, get_or,
  List, [], ◌∷◌, ◌++◌, map, ◌≡◌, inl, inr, refl, sym, ap, ◌∙◌, arith,
}
use weeb.Erasure.BinaryField.{BinaryField}
use weeb.Erasure.BinaryField.Vectors.{dot}
use weeb.Erasure.MatrixCache.{MatrixResult, ok, IsCorrect, cached-IsServed}
use weeb.Erasure.Gauss.{any, entry}
use weeb.Erasure.Coding.{indices, code_row_slices, coding_matrix}
use weeb.Erasure.Coding.Combine.{column, entry-code_row_slices, length-code_row_slices}
use weeb.Erasure.Coding.Systematic.{get-indices}
use weeb.Erasure.Coding.Matrix.{row_of, IsInverse, systematic, coding_matrix_lem}
use weeb.Erasure.Reconstruct.{
  MatrixCache, ParityEncoder, key_discrete, matrix_of, wrong_size, encode_shard, new_padded,
}
use weeb.Erasure.Reconstruct.Recover.{entry-column, get_or-append_left, get_or-append_right}
use weeb.Erasure.Reconstruct.Restored.{IsSized, sized, AreValues}

pub ok_same : {M E : Type 0} {a b : M} → ◌≡◌ {A = MatrixResult M E} (ok a) (ok b) → a ≡ b
ok_same h = cc h

module _ {A : Type 0} ⦃k : BinaryField A⦄ where
  -- The parity shards, which are made one by one.
  abbrev pub AreParities : ParityEncoder A → List (List A) → Type 0
  AreParities encoder parities =
      (length parities ≡ encoder.parity_count)
      × ((j : ℕ) → j < encoder.parity_count → encode_shard encoder j ≡ ok (get_or parities j []))

module _ {A : Type 0} ⦃k : BinaryField A⦄ (point : ℕ → A)
    (distinct : (i j : ℕ) → i < 256 → j < 256 → point i ≡ point j → i ≡ j) where
  abbrev pub IsServing : MatrixCache A → Type 0
  IsServing cache = IsCorrect key_discrete (matrix_of point) cache

  -- The encoder of some shards, once the inverse of the first rows is known.
  abbrev pub encoder_of : List (List A) → ℕ → ℕ → List (List A) → ParityEncoder A
  encoder_of data_shards p s inv = record {
    data_shards = data_shards;
    matrix =
        map (row_of point distinct (length data_shards) inv) (indices 0 (length data_shards + p));
    shard_size = s;
    data_count = length data_shards;
    parity_count = p;
  }

  -- The encoder's conditions.
  abbrev pub CanEncode : List (List A) → ℕ → ℕ → Type 0
  CanEncode data_shards p s =
      (0 < length data_shards)
      × (0 < p)
      × (length data_shards + p ≤ 256)
      × (0 < s)
      × (any (wrong_size s) data_shards ≡ false)

  pub new_padded_lem :
      (cache : MatrixCache A) (data_shards : List (List A)) (p s : ℕ)
      → IsServing cache
      → CanEncode data_shards p s
      → (inv : List (List A)) × IsInverse point distinct (length data_shards) inv
        × (coding_matrix point (length data_shards) (length data_shards + p)
            ≡ ok (encoder_of data_shards p s inv).matrix)
        × ((new_padded point cache data_shards p s).1 ≡ ok (encoder_of data_shards p s inv))
  unfolding new_padded
  new_padded_lem cache data_shards p s served (pos, pp, max, ps, sizes) =
      let d = length data_shards in
      let (inv, isinv, e) = coding_matrix_lem point distinct d (d + p) pos (omega arith) max in
      let counts : (d == 0 || p == 0 || ltb 256 (d + p)) ≡ false = ground arith in
      let bytes : (s == 0 || any (wrong_size s) data_shards) ≡ false = rw sizes (ground arith) in
      let hit = (cached-IsServed key_discrete (matrix_of point) (d, d + p) cache served).1 in
      (inv, isinv, e, rw (new_padded, counts, bytes) (rw (hit, e) refl))

  pub new_padded_only :
      (cache : MatrixCache A) (data_shards : List (List A)) (p s : ℕ) (enc : ParityEncoder A)
      → (new_padded point cache data_shards p s).1 ≡ ok enc
      → CanEncode data_shards p s
  unfolding new_padded
  new_padded_only cache data_shards p s enc e =
      let d = length data_shards in
      elim (Bool-cases (d == 0 || p == 0 || ltb 256 (d + p))) [
        | inl bad ↦ cc (rw (new_padded, bad) at e)
        | inr good ↦ elim (Bool-cases (s == 0 || any (wrong_size s) data_shards)) [
          | inl bad ↦ cc (rw (new_padded, good, bad) at e)
          | inr sizes ↦ (ground arith, ground arith, ground arith, ground arith, ground arith)
        ]
      ]

  -- Every shard of an encoder, by the rows of its matrix.
  module _ (data_shards parities : List (List A)) (p s : ℕ) (inv : List (List A))
      (isinv : IsInverse point distinct (length data_shards) inv)
      (made : AreParities (encoder_of data_shards p s inv) parities) where
    abbrev row : ℕ → List A
    row = row_of point distinct (length data_shards) inv

    parity_shard :
        (j : ℕ)
        → j < p
        → get_or parities j [] ≡ code_row_slices (row (length data_shards + j)) data_shards s
    unfolding encode_shard
    parity_shard j lt =
        let d = length data_shards in
        let inside : leb p j ≡ false = ground arith in
        sym (ok_same (rw (encode_shard, inside) at (made.1 j lt)))
        ∙ ap (λ (v : List A). code_row_slices v data_shards s)
            (get-indices row [] 0 (d + p) (d + j) (omega arith)
              ∙ ap row {x = 0 + (d + j)} {y = d + j} (omega arith))

    pub encoded_values :
        AreValues (length data_shards + p) s data_shards (data_shards ++ parities) row
    encoded_values r j lr lj =
        let d = length data_shards in
        elim (Bool-cases (ltb r d)) [
          | inl first ↦
              let lt : r < d = ground arith in
              ap (λ v. entry v j) (get_or-append_left data_shards parities r [] lt)
              ∙ sym (entry-column j r data_shards lt)
              ∙ sym (
                  systematic point distinct d inv isinv r (column j data_shards) lt
                    (length-map data_shards _))
          | inr behind ↦
              let le : d ≤ r = ground arith in
              ap (λ v. entry v j) (get_or-append_right data_shards parities r [] le)
              ∙ ap (λ v. entry v j) (parity_shard (r - d) (omega arith))
              ∙ entry-code_row_slices (row (d + (r - d))) data_shards s j lj
              ∙ ap (λ i. dot (row i) (column j data_shards)) {x = d + (r - d)} {y = r} (omega arith)
        ]

    pub encoded-IsSized :
        0 < s → any (wrong_size s) data_shards ≡ false → IsSized s (data_shards ++ parities)
    encoded-IsSized ps sizes = All-append_join data_shards parities (sized s data_shards sizes) (
        parities_sized parities (λ j lt.
          ap length (parity_shard j (omega (arith, made.0)))
          ∙ length-code_row_slices _ data_shards s))
      where
        All-append_join :
            (us vs : List (List A)) → IsSized s us → IsSized s vs → IsSized s (us ++ vs)
        All-append_join [] vs hu hv = hv
        All-append_join (u ∷ us) vs hu hv = (hu.0, All-append_join us vs hu.1 hv)

        parities_sized :
            (vs : List (List A))
            → ((j : ℕ) → j < length vs → length (get_or vs j []) ≡ s)
            → IsSized s vs
        parities_sized [] h = tt
        parities_sized (v ∷ vs) h = (
          (omega (arith, h 0 (omega arith)), omega (arith, h 0 (omega arith))),
          parities_sized vs (λ j lt. h (suc j) (omega arith)),
        )
