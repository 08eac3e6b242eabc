-- ===== src/Erasure/Reconstruct/Recover.antt =====
-- src/erasure_coding.rs: the values of the encoded shards, and those that are recovered.
use weeb.Prelude.{
  ℕ, zero, suc, ◌-◌, ◌<◌, ◌≤◌, length, length-append, length-map, length-replicate, get_or, All,
  Option, List, [], ◌∷◌, ◌++◌, map, ◌≡◌, refl, sym, ap, ◌∙◌, arith,
}
use weeb.Erasure.BinaryField.{BinaryField}
use weeb.Erasure.BinaryField.Vectors.{dot, zeros}
use weeb.Erasure.MatrixCache.{ok}
use weeb.Erasure.Gauss.{entry}
use weeb.Erasure.Coding.{code_row_slices, inverse_rows_for_selected}
use weeb.Erasure.Coding.Combine.{
  apply, column, entry-zeros, entry-code_row_slices, length-code_row_slices,
}
use weeb.Erasure.Coding.Decode.{Picks, list_ext}
use weeb.Erasure.Coding.Selected.{PickAll, Decoded}
use weeb.Erasure.Reconstruct.{shard_at, write_shards, recover}

pub get_or-append_left :
    {B : Type 0} (xs ys : List B) (i : ℕ) (e : B)
    → i < length xs
    → get_or (xs ++ ys) i e ≡ get_or xs i e
get_or-append_left [] ys i e h = absurd (omega arith)
get_or-append_left (x ∷ xs) ys zero e h = refl
get_or-append_left (x ∷ xs) ys (suc i) e h = get_or-append_left xs ys i e (omega arith)

pub get_or-append_right :
    {B : Type 0} (xs ys : List B) (i : ℕ) (e : B)
    → length xs ≤ i
    → get_or (xs ++ ys) i e ≡ get_or ys (i - length xs) e
get_or-append_right [] ys i e h = ap (λ j. get_or ys j e) {x = i} {y = i - 0} (omega arith)
get_or-append_right (x ∷ xs) ys zero e h = absurd (omega arith)
get_or-append_right (x ∷ xs) ys (suc i) e h =
    get_or-append_right xs ys i e (omega arith)
    ∙ ap (λ j. get_or ys j e) {x = i - length xs} {y = suc i - suc (length xs)} (omega arith)

module _ {A : Type 0} ⦃k : BinaryField A⦄ where
  -- A shard of the full size, zeros at its end.
  unfoldable pub padded : ℕ → List A → List A
  padded s v = v ++ zeros (s - length v)

  entry-padded : (n j : ℕ) (v : List A) → entry (v ++ zeros n) j ≡ entry v j
  unfolding entry
  entry-padded n j [] = unfold entry in entry-zeros n j
  entry-padded n zero (x ∷ v) = refl
  entry-padded n (suc j) (x ∷ v) = entry-padded n j v

  length-padded : (s : ℕ) (v : List A) → length v ≤ s → length (padded s v) ≡ s
  unfolding padded
  length-padded s v h =
      omega (arith, length-append v (zeros (s - length v)), length-replicate (s - length v) k.zero)

  pub entry-column :
      (j r : ℕ) (rows : List (List A))
      → r < length rows
      → entry (column j rows) r ≡ entry (get_or rows r []) j
  unfolding entry
  entry-column j r [] h = absurd (omega arith)
  entry-column j zero (v ∷ rows) h = refl
  entry-column j (suc r) (v ∷ rows) h = entry-column j r rows (omega arith)

  -- A column of shards that are all made by rows.
  shards_column :
      (shards : List (Option (List A))) (row : ℕ → List A) (x : List A) (j : ℕ) (is : List ℕ)
      → All (λ r. entry (shard_at shards r) j ≡ dot (row r) x) is
      → column j (map (shard_at shards) is) ≡ apply (map row is) x
  shards_column shards row x j [] h = refl
  shards_column shards row x j (r ∷ is) h =
      ap (λ y. y ∷ column j (map (shard_at shards) is)) h.0
      ∙ ap (◌∷◌ (dot (row r) x)) (shards_column shards row x j is h.1)

  -- What a decoding row makes of the selected shards.
  pub recovered :
      (d s r : ℕ) (data_shards : List (List A)) (shards : List (Option (List A))) (row : ℕ → List A)
      (selected : List ℕ) (dec : List A)
      → length data_shards ≡ d
      → r < d
      → length (get_or data_shards r []) ≤ s
      → ((j : ℕ)
          → j < s
          → All (λ i. entry (shard_at shards i) j ≡ dot (row i) (column j data_shards)) selected)
      → Picks d (map row selected) dec r
      → code_row_slices dec (map (shard_at shards) selected) s ≡ padded s (get_or data_shards r [])
  unfolding padded
  recovered d s r data_shards shards row selected dec ld lt ls values (l, pick) =
      let v = get_or data_shards r [] in
      let lc = length-code_row_slices dec (map (shard_at shards) selected) s in
      list_ext _ _ (lc ∙ sym (length-padded s v ls)) (λ j lj.
        entry-code_row_slices dec (map (shard_at shards) selected) s j (omega arith)
        ∙ ap (dot dec)
            (shards_column shards row (column j data_shards) j selected (values j (omega arith)))
        ∙ pick (column j data_shards) (length-map data_shards _ ∙ ld)
        ∙ entry-column j r data_shards (omega arith)
        ∙ sym (entry-padded (s - length v) j v))

  recover_each :
      (d s : ℕ) (data_shards : List (List A)) (shards : List (Option (List A))) (row : ℕ → List A)
      (selected : List ℕ) (decs : List (List A)) (missing : List ℕ)
      → length data_shards ≡ d
      → All (λ r. r < d) missing
      → All (λ (v : List A). length v ≤ s) data_shards
      → ((j : ℕ)
          → j < s
          → All (λ i. entry (shard_at shards i) j ≡ dot (row i) (column j data_shards)) selected)
      → PickAll d (map row selected) decs missing
      → map (λ (dec : List A). code_row_slices dec (map (shard_at shards) selected) s) decs
        ≡ map (λ r. padded s (get_or data_shards r [])) missing
  recover_each d s data_shards shards row selected [] [] ld hm hs values p = refl
  recover_each d s data_shards shards row selected [] (r ∷ missing) ld hm hs values p = absurd p
  recover_each d s data_shards shards row selected (dec ∷ decs) [] ld hm hs values p = absurd p
  recover_each d s data_shards shards row selected (dec ∷ decs) (r ∷ missing) ld hm hs values p =
      ap
        (λ v.
          v ∷ map (λ (dec : List A). code_row_slices dec (map (shard_at shards) selected) s) decs)
        (recovered d s r data_shards shards row selected dec ld hm.0
          (All-get data_shards r (omega (arith, hm.0)) hs) values p.0)
      ∙ ap (◌∷◌ (padded s (get_or data_shards r [])))
          (recover_each d s data_shards shards row selected decs missing ld hm.1 hs values p.1)
    where
      All-get :
          (vs : List (List A)) (r : ℕ)
          → r < length vs
          → All (λ (v : List A). length v ≤ s) vs
          → length (get_or vs r []) ≤ s
      All-get [] r h hs = absurd (omega arith)
      All-get (v ∷ vs) zero h hs = hs.0
      All-get (v ∷ vs) (suc r) h hs = All-get vs r (omega arith) hs.1

  pub recover_lem :
      (d s t : ℕ) (data_shards : List (List A)) (shards : List (Option (List A))) (row : ℕ → List A)
      (width : (r : ℕ) → length (row r) ≡ d) (selected missing : List ℕ) (matrix : List (List A))
      → length data_shards ≡ d
      → All (λ r. r < d) missing
      → All (λ (v : List A). length v ≤ s) data_shards
      → ((j : ℕ)
          → j < s
          → All (λ i. entry (shard_at shards i) j ≡ dot (row i) (column j data_shards)) selected)
      → Decoded d t row width selected missing (inverse_rows_for_selected matrix selected missing)
      → recover matrix shards selected missing s
        ≡ ok (write_shards missing (map (λ r. padded s (get_or data_shards r [])) missing) shards)
  unfolding recover
  recover_lem d s t data_shards shards row width selected missing matrix ld hm hs values
        (decs, e, p) =
      rw (recover, e)
        (ap (λ vs. ok (write_shards missing vs shards))
          (recover_each d s data_shards shards row selected decs missing ld hm hs values p))
