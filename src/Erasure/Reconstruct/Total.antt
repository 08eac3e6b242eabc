-- ===== src/Erasure/Reconstruct/Total.antt =====
-- src/erasure_coding.rs: `reconstruct_data_indices` on the shards of one encoder, some of them lost.
use weeb.Prelude.{
  ℕ, ◌+◌, ◌<◌, ◌≤◌, ◌==◌, leb, ltb, Bool-cases, false, ◌||◌, Option, get_or, length, length-append,
  length-take, take, All, List, [], ◌∷◌, ◌++◌, map, ◌≡◌, ◌≢◌, inl, inr, refl, sym, ap, ◌∙◌, arith,
}
use mathlib.Core.Path.{subst}
use weeb.Erasure.BinaryField.{BinaryField}
use weeb.Erasure.BinaryField.Vectors.{dot}
use weeb.Erasure.MatrixCache.{ok, cached-IsServed}
use weeb.Erasure.Gauss.{Coded, ◌>>=◌, any}
use weeb.Erasure.Coding.{indices, is_empty, coding_matrix}
use weeb.Erasure.Coding.Combine.{length-code_row_slices}
use weeb.Erasure.Coding.Systematic.{Ascending, apply_rows}
use weeb.Erasure.Coding.Matrix.{row_of, IsInverse, independent}
use weeb.Erasure.Coding.Decode.{Ascending-below}
use weeb.Erasure.Coding.Selected.{not_beyond, inverse_rows_lem}
use weeb.Erasure.Reconstruct.{
  MatrixCache, key_discrete, matrix_of, keep, is_missing, wrong_shard, present, select_shards,
  write_shards, recover, reconstruct_selected, reconstruct_data_indices,
}
use weeb.Erasure.Reconstruct.Shards.{
  ArePartOf, ArePartOf-length, Ascending-take, All-take, present-Ascending, present-shards,
  keep-below,
}
use weeb.Erasure.Reconstruct.Recover.{padded, recover_lem}
use weeb.Erasure.Reconstruct.Restored.{
  IsSized, sized, right_sizes, Restored, selected_values, missing-Restored, nothing_missing,
}
use weeb.Erasure.Reconstruct.Encoded.{
  IsServing, CanEncode, AreParities, encoder_of, encoded_values, encoded-IsSized,
}

only_lengths :
    {A : Type 0} ⦃k : BinaryField A⦄ (s : ℕ) (vs : List (List A))
    → IsSized s vs
    → All (λ (v : List A). length v ≤ s) vs
only_lengths s [] h = tt
only_lengths s (v ∷ vs) h = (h.0.1, only_lengths s vs h.1)

nonempty : (is : List ℕ) → is_empty is ≡ false → 0 < length is
nonempty [] h = cc h
nonempty (i ∷ is) h = omega arith

module _ {A : Type 0} ⦃k : BinaryField A⦄ (point : ℕ → A)
    (distinct : (i j : ℕ) → i < 256 → j < 256 → point i ≡ point j → i ≡ j) where
  -- The shards of one encoder, some of which are lost.
  module _ (data_shards parities : List (List A)) (p s : ℕ) (inv : List (List A))
      (isinv : IsInverse point distinct (length data_shards) inv)
      (coded : coding_matrix point (length data_shards) (length data_shards + p)
        ≡ ok (
            map
              (row_of point distinct (length data_shards) inv)
              (indices 0 (length data_shards + p))))
      (made : AreParities (encoder_of point distinct data_shards p s inv) parities)
      (can : CanEncode point distinct data_shards p s) (shards : List (Option (List A)))
      (part : ArePartOf shards (data_shards ++ parities))
      (enough : length data_shards ≤ length (present 0 shards)) (requested : List ℕ)
      (inside : All (λ r. r < length data_shards) requested) where
    shard_count : length shards ≡ length data_shards + p
    shard_count =
        ArePartOf-length shards _ part ∙ omega (arith, length-append data_shards parities, made.0)

    abbrev selected : List ℕ
    selected = take (length data_shards) (present 0 shards)

    abbrev missing : List ℕ
    missing = keep (is_missing shards requested) (indices 0 (length data_shards))

    selected_count : length selected ≡ length data_shards
    selected_count = omega (arith, enough, length-take (length data_shards) (present 0 shards))

    selected-Ascending : Ascending (length data_shards + p) 0 selected
    selected-Ascending =
        Ascending-take (length data_shards + p) 0 (length data_shards) (present 0 shards)
          (present-Ascending (length data_shards + p) 0 shards (omega (arith, shard_count)))

    selects : select_shards shards (length data_shards) requested s ≡ ok (selected, missing)
    unfolding select_shards
    selects =
        let d = length data_shards in
        let counts : (d == 0 || leb (length shards) d || ltb 256 (length shards)) ≡ false =
          rw shard_count (ground (arith, can.0, can.1, can.2)) in
        let bytes : (s == 0 || any (wrong_shard s) shards) ≡ false =
          rw
            (right_sizes s shards (data_shards ++ parities) part
              (encoded-IsSized point distinct data_shards parities p s inv isinv made can.3 can.4))
            (ground (arith, can.3)) in
        let full : ltb (length selected) d ≡ false = ground (arith, selected_count) in
        rw (select_shards, counts, not_beyond d requested inside, bytes, full) refl

    abbrev row : ℕ → List A
    row = row_of point distinct (length data_shards) inv

    width : (r : ℕ) → length (row r) ≡ length data_shards
    width r = length-code_row_slices _ inv (length data_shards)

    decodes :
        0 < length missing
        → recover (map row (indices 0 (length data_shards + p))) shards selected missing s
          ≡ ok (write_shards missing (map (λ r. padded s (get_or data_shards r [])) missing) shards)
    decodes some_missing =
        let d = length data_shards in
        let t = d + p in
        let below = Ascending-below t 0 selected selected-Ascending in
        let lost = keep-below (is_missing shards requested) d 0 d (omega arith) in
        recover_lem d s t data_shards shards row width selected missing (map row (indices 0 t)) refl
          lost (only_lengths s data_shards (sized s data_shards can.4))
          (λ j lj.
            selected_values d t s data_shards (data_shards ++ parities) shards requested row width j
              selected (encoded_values point distinct data_shards parities p s inv isinv made) lj
              below
              (All-take _ d (present 0 shards)
                (present-shards 0 shards (data_shards ++ parities) part)))
          (inverse_rows_lem d t row width selected missing can.0 some_missing below selected_count
            lost
            (λ w lw.
              let (x, lx, ne) =
                independent point distinct d inv isinv t 0 selected w can.2 (omega (arith, can.2))
                  selected-Ascending selected_count lw in
              (
                x,
                lx,
                subst (λ c. dot (w ++ (k.one ∷ [])) c ≢ k.zero) (sym (apply_rows row selected x))
                    ne,
              )))

    fetched :
        {result : Coded (List (List A))}
        → 0 < length missing
        → result ≡ matrix_of point (length data_shards, length shards)
        → (result >>= λ matrix. recover matrix shards selected missing s)
          ≡ ok (write_shards missing (map (λ r. padded s (get_or data_shards r [])) missing) shards)
    fetched some_missing hit =
        rw (hit ∙ ap (coding_matrix point (length data_shards)) shard_count ∙ coded)
          (decodes some_missing)

    pub reconstruct_lem :
        (cache : MatrixCache A)
        → IsServing point distinct cache
        → (shards' : List (Option (List A))) × ((reconstruct_data_indices point cache shards
              (length data_shards)
              requested
              s).1
            ≡ ok shards')
          × Restored data_shards s requested shards shards'
          × IsServing point distinct
              (reconstruct_data_indices point cache shards (length data_shards) requested s).0
    unfolding reconstruct_data_indices reconstruct_selected
    reconstruct_lem cache served =
        let d = length data_shards in
        elim (Bool-cases (is_empty missing)) [
          | inl e ↦ (
            shards,
            rw (reconstruct_data_indices, selects, reconstruct_selected, e) refl,
            nothing_missing d (d + p) s data_shards (data_shards ++ parities) shards requested row
                width refl (omega (arith, shard_count)) e,
            rw (reconstruct_data_indices, selects, reconstruct_selected, e) served,
          )
          | inr ne ↦
              let some_missing : 0 < length missing = nonempty missing ne in
              let hit =
                (cached-IsServed key_discrete (matrix_of point) (d, length shards) cache
                  served).1 in
              (
                _,
                rw (reconstruct_data_indices, selects, reconstruct_selected, ne)
                    (fetched some_missing hit),
                missing-Restored d (d + p) s data_shards (data_shards ++ parities) shards requested
                    row width refl (omega (arith, shard_count)),
                rw (reconstruct_data_indices, selects, reconstruct_selected, ne)
                    (cached-IsServed key_discrete (matrix_of point) (d, length shards) cache
                      served).0,
              )
        ]
