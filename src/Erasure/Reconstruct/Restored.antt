-- ===== src/Erasure/Reconstruct/Restored.antt =====
-- src/erasure_coding.rs: what shards are after a reconstruction.
use weeb.Prelude.{
  ℕ, ◌+◌, ◌-◌, ◌<◌, ◌≤◌, leb, ltb, Bool-cases, true, false, ◌&&◌, if◌then◌else◌, Option, none, some,
  length, get_elem?, get_or, All, List, [], ◌∷◌, map, ◌≡◌, inl, inr, refl, sym, ap, ◌∙◌, arith,
}
use mathlib.Core.Path.{subst}
use weeb.Erasure.BinaryField.{BinaryField}
use weeb.Erasure.BinaryField.Vectors.{dot}
use weeb.Erasure.Gauss.{any, entry}
use weeb.Erasure.Coding.{indices, is_empty}
use weeb.Erasure.Coding.Combine.{column}
use weeb.Erasure.Reconstruct.{keep, is_missing, wrong_size, wrong_shard, shard_at, write_shards}
use weeb.Erasure.Reconstruct.Shards.{ArePartOf, member-keep, keep-below, get_elem?-write_shards}
use weeb.Erasure.Reconstruct.Recover.{padded}

module _ {A : Type 0} ⦃k : BinaryField A⦄ where
  abbrev pub IsSized : ℕ → List (List A) → Type 0
  IsSized s vs = All (λ (v : List A). (0 < length v) × (length v ≤ s)) vs

  pub sized : (s : ℕ) (vs : List (List A)) → any (wrong_size s) vs ≡ false → IsSized s vs
  sized s [] h = tt
  sized s (v ∷ vs) h = elim (Bool-cases (wrong_size s v)) [
    | inl bad ↦ cc (sym (rw bad at h))
    | inr good ↦ (ground arith, sized s vs (rw good at h))
  ]

  pub right_sizes :
      (s : ℕ) (shards : List (Option (List A))) (es : List (List A))
      → ArePartOf shards es
      → IsSized s es
      → any (wrong_shard s) shards ≡ false
  right_sizes s [] es h z = refl
  right_sizes s (none ∷ shards) [] h z = absurd h
  right_sizes s (some v ∷ shards) [] h z = absurd h
  right_sizes s (none ∷ shards) (e ∷ es) h z = right_sizes s shards es h z.1
  right_sizes s (some v ∷ shards) (e ∷ es) h z =
      let lv : length v ≡ length e = ap length h.0 in
      let good : wrong_size s v ≡ false = ground (arith, z.0.0, z.0.1) in
      rw good (right_sizes s shards es h.1 z.1)

  -- The shards after a reconstruction: what is missing is there, and no other shard has changed.
  abbrev pub Restored :
      List (List A) → ℕ → List ℕ → List (Option (List A)) → List (Option (List A)) → Type 0
  Restored data_shards shard_size requested shards shards' =
      (j : ℕ)
      → get_elem? shards' j ≡ (
          if ltb j (length data_shards) && is_missing shards requested j
          then some (some (padded shard_size (get_or data_shards j [])))
          else get_elem? shards j)

  -- Byte by byte, the shard of every index below t is made by a row.
  abbrev pub AreValues : ℕ → ℕ → List (List A) → List (List A) → (ℕ → List A) → Type 0
  AreValues t s data_shards es row =
      (r j : ℕ) → r < t → j < s → entry (get_or es r []) j ≡ dot (row r) (column j data_shards)

  -- Shards that are made by the rows of the matrix.
  module _ (d t s : ℕ) (data_shards es : List (List A)) (shards : List (Option (List A)))
      (requested : List ℕ) (row : ℕ → List A) (width : (r : ℕ) → length (row r) ≡ d) where
    pub selected_values :
        (j : ℕ) (is : List ℕ)
        → AreValues t s data_shards es row
        → j < s
        → All (λ r. r < t) is
        → All (λ r. (0 ≤ r) × (shard_at shards (r - 0) ≡ get_or es (r - 0) [])) is
        → All (λ i. entry (shard_at shards i) j ≡ dot (row i) (column j data_shards)) is
    selected_values j [] v lj h e = tt
    selected_values j (r ∷ is) v lj h e =
        let same : r - 0 ≡ r = omega arith in
        (
          ap (λ u. entry u j) (subst (λ i. shard_at shards i ≡ get_or es i []) same e.0.1)
              ∙ v r j h.0 lj,
          selected_values j is v lj h.1 e.1,
        )

    pub missing-Restored :
        length data_shards ≡ d
        → d ≤ length shards
        → Restored data_shards s requested shards (
            write_shards
              (keep (is_missing shards requested) (indices 0 d))
              (map
                (λ r. padded s (get_or data_shards r []))
                (keep (is_missing shards requested) (indices 0 d)))
              shards)
    missing-Restored ld le j =
        let missing = keep (is_missing shards requested) (indices 0 d) in
        let val = λ (r : ℕ). padded s (get_or data_shards r []) in
        let same : (leb 0 j && (ltb j (0 + d) && is_missing shards requested j))
            ≡ (ltb j (length data_shards) && is_missing shards requested j) =
          ap (λ b. b && (ltb j (0 + d) && is_missing shards requested j)) {x = leb 0 j} {y = true}
            (ground arith)
          ∙ ap (λ n. ltb j n && is_missing shards requested j) {x = 0 + d} {y = length data_shards}
              (omega arith) in
        get_elem?-write_shards val missing shards j
          (keep-below (is_missing shards requested) (length shards) 0 d (omega arith))
        ∙ ap (λ b. if b then some (some (val j)) else get_elem? shards j)
            (member-keep (is_missing shards requested) 0 d j ∙ same)

    pub nothing_missing :
        length data_shards ≡ d
        → d ≤ length shards
        → is_empty (keep (is_missing shards requested) (indices 0 d)) ≡ true
        → Restored data_shards s requested shards shards
    nothing_missing ld le e =
        subst (Restored data_shards s requested shards)
          (empty_write (keep (is_missing shards requested) (indices 0 d)) e)
          (missing-Restored ld le)
      where
        empty_write :
            (is : List ℕ)
            → is_empty is ≡ true
            → write_shards is (map (λ r. padded s (get_or data_shards r [])) is) shards ≡ shards
        empty_write [] e = unfold write_shards in refl
        empty_write (i ∷ is) e = cc e
