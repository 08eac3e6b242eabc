-- ===== src/Erasure/Gauss/Rows.antt =====
-- src/erasure_coding.rs: what the steps of `gauss_jordan` do to rows and to their solutions.
use weeb.Prelude.{
  ℕ, zero, suc, ◌+◌, Bool-cases, length, length-append, length-replicate, take, drop, take_append,
  drop_append, take-append-drop, length-take, List, [], ◌∷◌, ◌++◌, ◌≡◌, ◌≢◌, inl, inr, refl, sym,
  ap, ◌∙◌, arith, true, false,
}
use weeb.Erasure.BinaryField.{BinaryField, ◌⊕◌, ◌⊗◌, add-zero, zero-mul, mul-zero, zero_of_mul}
use weeb.Erasure.BinaryField.Vectors.{
  dot, scaled, added, zeros, dot-scaled, dot-added, added-zeros, scaled-zero, scaled_one,
  length-added,
}
use weeb.Erasure.Gauss.{entry, normalize, eliminate}

module _ {A : Type 0} ⦃k : BinaryField A⦄ where
  -- Only zeros in the first columns; and a one behind them.
  abbrev pub Below : ℕ → List A → Type 0
  Below d row = (tail : List A) × (row ≡ zeros d ++ tail)

  abbrev pub Lead : ℕ → List A → Type 0
  Lead d row = (tail : List A) × (row ≡ zeros d ++ (k.one ∷ tail))

  abbrev pub Vanish : List A → List A → Type 0
  Vanish v row = dot row v ≡ k.zero

  pub entry-append : (u v : List A) (d : ℕ) → length u ≡ d → entry (u ++ v) d ≡ entry v 0
  unfolding entry
  entry-append [] v zero h = refl
  entry-append [] v (suc d) h = absurd (omega arith)
  entry-append (x ∷ u) v zero h = absurd (omega arith)
  entry-append (x ∷ u) v (suc d) h = entry-append u v d (omega arith)

  scaled-zeros : (c : A) (d : ℕ) → scaled c (zeros d) ≡ zeros d
  unfolding scaled
  scaled-zeros c zero = refl
  scaled-zeros c (suc d) = rw (mul-zero c, scaled-zeros c d) refl

  scaled-append : (c : A) (u v : List A) → scaled c (u ++ v) ≡ scaled c u ++ scaled c v
  unfolding scaled
  scaled-append c [] v = refl
  scaled-append c (x ∷ u) v = ap (◌∷◌ (c ⊗ x)) (scaled-append c u v)

  pub length-scaled : (c : A) (u : List A) → length (scaled c u) ≡ length u
  unfolding scaled
  length-scaled c [] = refl
  length-scaled c (x ∷ u) = ap suc (length-scaled c u)

  pub added-append :
      (u v w z : List A) → length u ≡ length v → added (u ++ w) (v ++ z) ≡ added u v ++ added w z
  unfolding added
  added-append [] [] w z h = refl
  added-append [] (y ∷ v) w z h = absurd (omega arith)
  added-append (x ∷ u) [] w z h = absurd (omega arith)
  added-append (x ∷ u) (y ∷ v) w z h = ap (◌∷◌ (x ⊕ y)) (added-append u v w z (omega arith))

  pub eq_refl : (x : A) → k.eq x x ≡ true
  eq_refl x = (k.eq_iff x x).1 refl

  pub eq_false : (x y : A) → k.eq x y ≡ false → x ≢ y
  eq_false x y h e = cc (h, (k.eq_iff x y).1 e)

  -- The two parts of a sum where the second has only zeros at first.
  added_parts :
      (d : ℕ) (u v t : List A) → length u ≡ d → added (u ++ v) (zeros d ++ t) ≡ u ++ added v t
  added_parts d u v t h =
      added-append u (zeros d) v t (omega (arith, length-replicate d k.zero))
      ∙ ap (λ s. s ++ added v t) (added-zeros u d)

  -- A row is taken from another as a whole, since it has only zeros before the diagonal.
  pub eliminate_lem :
      (d : ℕ) (source target : List A)
      → Below d source
      → length target ≡ length source
      → eliminate d source target ≡ added target (scaled (entry target d) source)
  unfolding eliminate
  eliminate_lem d source target (s, e) len = elim (Bool-cases (k.eq (entry target d) k.zero)) [
    | inl z ↦
        rw (z, (k.eq_iff _ _).0 z, scaled-zero source) (sym (added-zeros target (length source)))
    | inr nz ↦ rw (nz, e, drop_append d (zeros d) s (length-replicate d k.zero)) (sym parts)
  ]
    where
      long : length target ≡ d + length s
      long = omega (arith, ap length e, length-append (zeros d) s, length-replicate d k.zero)

      parts :
          added target (scaled (entry target d) (zeros d ++ s))
          ≡ take d target ++ added (drop d target) (scaled (entry target d) s)
      parts =
          rw (scaled-append, scaled-zeros)
            (ap (λ t. added t (zeros d ++ scaled (entry target d) s))
                (sym (take-append-drop d target))
              ∙ added_parts d (take d target) (drop d target) _
                  (omega (arith, long, length-take d target)))

  mul-one : (x : A) → x ⊗ k.one ≡ x
  mul-one x = k.mul_comm x k.one ∙ k.one-mul x

  length-lead : (d : ℕ) (tail : List A) → length (zeros d ++ (k.one ∷ tail)) ≡ d + suc (length tail)
  length-lead d tail =
      omega (arith, length-append (zeros d) (k.one ∷ tail), length-replicate d k.zero)

  -- The column of the diagonal becomes zero, and the columns before it stay.
  pub eliminate_column :
      (d : ℕ) (u s t : List A) (x : A)
      → length u ≡ d
      → length t ≡ length s
      → eliminate d (zeros d ++ (k.one ∷ s)) (u ++ (x ∷ t)) ≡ u ++ (k.zero ∷ added t (scaled x s))
  unfolding entry
  eliminate_column d u s t x hu len =
      eliminate_lem d (zeros d ++ (k.one ∷ s)) (u ++ (x ∷ t)) (k.one ∷ s, refl)
        (omega (arith, length-append u (x ∷ t), length-lead d s))
      ∙ rw (entry-append u (x ∷ t) d hu, scaled-append, scaled-zeros)
          (added_parts d u (x ∷ t) (scaled x (k.one ∷ s)) hu ∙ ap (λ r. u ++ r) first)
    where
      first : added (x ∷ t) (scaled x (k.one ∷ s)) ≡ k.zero ∷ added t (scaled x s)
      first = unfold added scaled in rw (mul-one x, k.add_self) refl

  -- What solves the new row and the source solves the old row.
  pub eliminate-Vanish :
      (d : ℕ) (source target v : List A)
      → Below d source
      → length target ≡ length source
      → Vanish v source
      → Vanish v (eliminate d source target)
      → Vanish v target
  eliminate-Vanish d source target v b len hs ht =
      let c = entry target d in
      let parts : dot target v ⊕ (c ⊗ dot source v) ≡ k.zero =
        sym (
          dot-added target (scaled c source) v (len ∙ sym (length-scaled c source))
          ∙ ap (λ s. dot target v ⊕ s) (dot-scaled c source v))
        ∙ ap (λ r. dot r v) (sym (eliminate_lem d source target b len))
        ∙ ht in
      sym (add-zero _) ∙ ap (λ s. dot target v ⊕ s) (sym (ap (k.mul c) hs ∙ mul-zero c)) ∙ parts

  pub length-eliminate :
      (d : ℕ) (source target : List A)
      → Below d source
      → length target ≡ length source
      → length (eliminate d source target) ≡ length target
  length-eliminate d source target b len =
      ap length (eliminate_lem d source target b len) ∙ length-added target _

  -- A row is normalized by a factor that takes its pivot to one.
  normalize_lem :
      (d : ℕ) (t : List A) (x : A)
      → x ≢ k.zero
      → (c : A) × (c ⊗ x ≡ k.one)
        × (normalize d (zeros d ++ (x ∷ t)) ≡ scaled c (zeros d ++ (x ∷ t)))
  unfolding normalize entry
  normalize_lem d t x ne =
      let pivot : entry (zeros d ++ (x ∷ t)) d ≡ x =
        entry-append (zeros d) (x ∷ t) d (length-replicate d k.zero) in
      elim (Bool-cases (k.eq x k.one)) [
        | inl e ↦ (k.one, k.one-mul x ∙ (k.eq_iff _ _).0 e, rw (pivot, e) (sym (scaled_one _)))
        | inr other ↦ (
          k.inverse x,
          k.inverse-mul x ne,
          rw
              (
                pivot,
                other,
                take_append d (zeros d) (x ∷ t) (length-replicate d k.zero),
                drop_append d (zeros d) (x ∷ t) (length-replicate d k.zero),
                scaled-append,
                scaled-zeros,
              )
              refl,
        )
      ]

  -- The row of a diagonal, after the first loop.
  pub normalize-Lead :
      (d : ℕ) (t : List A) (x : A)
      → x ≢ k.zero
      → (s : List A) × (normalize d (zeros d ++ (x ∷ t)) ≡ zeros d ++ (k.one ∷ s))
        × (length s ≡ length t)
  normalize-Lead d t x ne =
      let (c, one, e) = normalize_lem d t x ne in
      (
        scaled c t,
        e
            ∙ scaled-append c (zeros d) (x ∷ t)
            ∙ rw (scaled-zeros) (ap (λ r. zeros d ++ r) (first c one)),
        length-scaled c t,
      )
    where
      first : (c : A) → c ⊗ x ≡ k.one → scaled c (x ∷ t) ≡ k.one ∷ scaled c t
      first c one = unfold scaled in rw one refl

  pub normalize-Vanish :
      (d : ℕ) (t v : List A) (x : A)
      → x ≢ k.zero
      → Vanish v (normalize d (zeros d ++ (x ∷ t)))
      → Vanish v (zeros d ++ (x ∷ t))
  normalize-Vanish d t v x ne h =
      let (c, one, e) = normalize_lem d t x ne in
      zero_of_mul c _ (λ z. k.one_ne_zero (sym one ∙ ap (λ y. y ⊗ x) z ∙ zero-mul x))
        (sym (dot-scaled c _ v) ∙ ap (λ r. dot r v) (sym e) ∙ h)
