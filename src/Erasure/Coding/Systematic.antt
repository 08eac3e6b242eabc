-- ===== src/Erasure/Coding/Systematic.antt =====
-- src/erasure_coding.rs: the first rows of the Vandermonde matrix of `coding_matrix`, and their inverse.
use weeb.Prelude.{
  ℕ, zero, suc, ◌+◌, ◌<◌, ◌≤◌, length, length-append, length-map, get_or, take, drop, All, List, [],
  ◌∷◌, ◌++◌, map, ◌≡◌, inl, inr, refl, sym, ap, ◌∙◌, arith,
}
use mathlib.Core.Path.{subst}
use weeb.Erasure.BinaryField.{BinaryField, ◌⊕◌, eq_of_add}
use weeb.Erasure.BinaryField.Vectors.{dot, zeros, added, length-added}
use weeb.Erasure.MatrixCache.{ok}
use weeb.Erasure.Gauss.Rows.{Vanish}
use weeb.Erasure.Coding.{indices, powers, invert}
use weeb.Erasure.Coding.Combine.{apply, HasWidth}
use weeb.Erasure.Coding.Polynomials.{
  eval, eval-added, dot-powers_one, length-powers, Distinct, Apart, Roots, only_zeros,
  too_many-Roots,
}
use weeb.Erasure.Coding.Inverse.{invert_lem}

-- Increasing numbers from one on, below a limit.
abbrev pub Ascending : ℕ → ℕ → List ℕ → Type 0
Ascending limit from [] = Unit {0}
Ascending limit from (i ∷ is) = (from ≤ i) × (i < limit) × Ascending limit (suc i) is

pub length-indices : (from n : ℕ) → length (indices from n) ≡ n
length-indices from zero = refl
length-indices from (suc n) = ap suc (length-indices (suc from) n)

pub indices-Ascending :
    (limit from n : ℕ) → from + n ≤ limit → Ascending limit from (indices from n)
indices-Ascending limit from zero h = tt
indices-Ascending limit from (suc n) h =
    (omega arith, omega arith, indices-Ascending limit (suc from) n (omega arith))

pub take-indices :
    {A : Type 0} (g : ℕ → A) (from m n : ℕ)
    → m ≤ n
    → take m (map g (indices from n)) ≡ map g (indices from m)
take-indices g from zero n h = refl
take-indices g from (suc m) zero h = absurd (omega arith)
take-indices g from (suc m) (suc n) h =
    ap (◌∷◌ (g from)) (take-indices g (suc from) m n (omega arith))

pub get-indices :
    {A : Type 0} (g : ℕ → A) (d : A) (from n i : ℕ)
    → i < n
    → get_or (map g (indices from n)) i d ≡ g (from + i)
get-indices g d from zero i h = absurd (omega arith)
get-indices g d from (suc n) zero h = ap g {x = from} {y = from + 0} (omega arith)
get-indices g d from (suc n) (suc i) h =
    get-indices g d (suc from) n i (omega arith)
    ∙ ap g {x = suc from + i} {y = from + suc i} (omega arith)

module _ {A : Type 0} ⦃k : BinaryField A⦄ where
  pub apply_rows :
      {B : Type 0} (g : B → List A) (is : List B) (u : List A)
      → apply (map g is) u ≡ map (λ i. dot (g i) u) is
  apply_rows g [] u = refl
  apply_rows g (i ∷ is) u = ap (◌∷◌ (dot (g i) u)) (apply_rows g is u)

  pub map_same :
      {B : Type 0} (f g : B → A) (is : List B) → All (λ (i : B). f i ≡ g i) is → map f is ≡ map g is
  map_same f g [] h = refl
  map_same f g (i ∷ is) h = ap (λ y. y ∷ map f is) h.0 ∙ ap (◌∷◌ (g i)) (map_same f g is h.1)

  eq_of_added :
      (u v : List A) → length u ≡ length v → added u v ≡ zeros (length (added u v)) → u ≡ v
  unfolding added
  eq_of_added [] [] h e = refl
  eq_of_added [] (y ∷ v) h e = absurd (omega arith)
  eq_of_added (x ∷ u) [] h e = absurd (omega arith)
  eq_of_added (x ∷ u) (y ∷ v) h e =
      ap (λ c. c ∷ u) (eq_of_add x y (ap (λ l. get_or l 0 k.zero) e))
      ∙ ap (◌∷◌ y) (eq_of_added u v (omega arith) (ap (drop 1) e))

module _ {A : Type 0} ⦃k : BinaryField A⦄ (point : ℕ → A)
    (distinct : (i j : ℕ) → i < 256 → j < 256 → point i ≡ point j → i ≡ j) where
  points-Apart :
      (limit i from : ℕ) (is : List ℕ)
      → limit ≤ 256
      → i < from
      → i < limit
      → Ascending limit from is
      → Apart (point i) (map point is)
  points-Apart limit i from [] le lt il h = tt
  points-Apart limit i from (j ∷ is) le lt il h = (
    λ e. absurd (omega (arith, h.0, h.1, distinct j i (omega (arith, h.1)) (omega arith) e)),
    points-Apart limit i (suc j) is le (omega (arith, h.0)) il h.2,
  )

  pub points-Distinct :
      (limit from : ℕ) (is : List ℕ)
      → limit ≤ 256
      → Ascending limit from is
      → Distinct (map point is)
  points-Distinct limit from [] le h = tt
  points-Distinct limit from (i ∷ is) le h = (
    points-Apart limit i (suc i) is le (omega arith) h.1 h.2,
    points-Distinct limit (suc i) is le h.2,
  )

  -- The first rows of the Vandermonde matrix.
  unfoldable pub top : ℕ → List (List A)
  top d = map (λ i. powers (point i) k.one d) (indices 0 d)

  top-HasWidth : (d : ℕ) (is : List ℕ) → HasWidth d (map (λ i. powers (point i) k.one d) is)
  top-HasWidth d [] = tt
  top-HasWidth d (i ∷ is) = (length-powers (point i) k.one d, top-HasWidth d is)

  rows-Roots :
      (d : ℕ) (is : List ℕ) (v : List A)
      → length v ≤ d
      → All (Vanish v) (map (λ i. powers (point i) k.one d) is)
      → Roots v (map point is)
  rows-Roots d [] v le h = tt
  rows-Roots d (i ∷ is) v le h =
      (sym (dot-powers_one (point i) d v le) ∙ h.0, rows-Roots d is v le h.1)

  -- Equal values at the first points: the sum has roots there.
  same-Roots :
      (d : ℕ) (is : List ℕ) (u v : List A)
      → length u ≡ d
      → length v ≡ d
      → apply (map (λ i. powers (point i) k.one d) is) u
        ≡ apply (map (λ i. powers (point i) k.one d) is) v
      → Roots (added u v) (map point is)
  same-Roots d [] u v lu lv e = tt
  same-Roots d (i ∷ is) u v lu lv e = (
    eval-added (point i) u v (omega arith)
        ∙ ap (λ s. s ⊕ eval (point i) v)
            (sym (dot-powers_one (point i) d u (omega arith))
              ∙ ap (λ l. get_or l 0 k.zero) e
              ∙ dot-powers_one (point i) d v (omega arith))
        ∙ k.add_self _,
    same-Roots d is u v lu lv (ap (drop 1) e),
  )

  pub top_injective :
      (d : ℕ) (u v : List A)
      → d ≤ 256
      → length u ≡ d
      → length v ≡ d
      → apply (top d) u ≡ apply (top d) v
      → u ≡ v
  unfolding top
  top_injective d u v le lu lv e =
      let la = length-added u v in
      eq_of_added u v (lu ∙ sym lv) (
        only_zeros d (added u v) (map point (indices 0 d)) (la ∙ lu)
          (omega (arith, length-map (indices 0 d) point, length-indices 0 d))
          (points-Distinct d 0 (indices 0 d) le (indices-Ascending d 0 d (omega arith)))
          (same-Roots d (indices 0 d) u v lu lv e))

  -- The first rows have an inverse.
  pub invert-top :
      (d : ℕ)
      → 0 < d
      → d ≤ 256
      → (inv : List (List A)) × (invert (top d) ≡ ok inv)
        × (length inv ≡ d)
        × HasWidth d inv
        × ((z : List A) → length z ≡ d → apply (top d) (apply inv z) ≡ z)
  unfolding top
  invert-top d pos le =
      let lt : length (top d) ≡ d = length-map (indices 0 d) _ ∙ length-indices 0 d in
      elim (invert_lem (top d) (omega arith)
        (subst (λ n. HasWidth n (top d)) (sym lt) (top-HasWidth d (indices 0 d)))) [
          | inl (inv, e, len, wide, solved) ↦ (
            inv,
            e,
            len ∙ lt,
            subst (λ n. HasWidth n inv) lt wide,
            λ z lz. solved z (lz ∙ sym lt),
          )
          | inr (e, (w, lw, v)) ↦ absurd (
              too_many-Roots w (map point (indices 0 d))
                (omega (arith, length-map (indices 0 d) point, length-indices 0 d))
                (points-Distinct d 0 (indices 0 d) le (indices-Ascending d 0 d (omega arith)))
                (rows-Roots d (indices 0 d) (w ++ (k.one ∷ []))
                  (omega (arith, length-append w (k.one ∷ []))) v))
        ]
