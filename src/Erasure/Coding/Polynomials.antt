-- ===== src/Erasure/Coding/Polynomials.antt =====
-- src/erasure_coding.rs: a row of the Vandermonde matrix evaluates a polynomial, whose coefficients
-- are a list, the constant one first.
use weeb.Prelude.{
  ℕ, zero, suc, ◌+◌, ◌<◌, ◌≤◌, length, length-append, drop, get_or, All, List, [], ◌∷◌, ◌++◌, ◌≡◌,
  ◌≢◌, refl, sym, ap, ◌∙◌, arith,
}
use weeb.Erasure.BinaryField.{
  BinaryField, ◌⊕◌, ◌⊗◌, add-zero, mul-zero, add-mul, swap_middle, zero_of_mul, eq_of_add,
  add_cancel,
}
use weeb.Erasure.BinaryField.Vectors.{dot, scaled, added, zeros}
use weeb.Erasure.Coding.{powers}

module _ {A : Type 0} ⦃k : BinaryField A⦄ where
  -- Horner's rule.
  unfoldable pub eval : A → List A → A
  eval x [] = k.zero
  eval x (c ∷ p) = c ⊕ (x ⊗ eval x p)

  pub mul_left_comm : (a b c : A) → a ⊗ (b ⊗ c) ≡ b ⊗ (a ⊗ c)
  mul_left_comm a b c =
      sym (k.mul_assoc a b c) ∙ ap (λ s. s ⊗ c) (k.mul_comm a b) ∙ k.mul_assoc b a c

  -- The row of an element, from a power c on.
  dot-powers : (x c : A) (n : ℕ) (p : List A) → length p ≤ n → dot (powers x c n) p ≡ c ⊗ eval x p
  unfolding powers eval dot
  dot-powers x c zero [] h = sym (mul-zero c)
  dot-powers x c zero (y ∷ p) h = absurd (omega arith)
  dot-powers x c (suc n) [] h = sym (mul-zero c)
  dot-powers x c (suc n) (y ∷ p) h =
      ap (λ s. (c ⊗ y) ⊕ s)
        (dot-powers x (x ⊗ c) n p (omega arith) ∙ k.mul_assoc x c _ ∙ mul_left_comm x c _)
      ∙ sym (k.mul-add c y _)

  pub dot-powers_one :
      (x : A) (n : ℕ) (p : List A) → length p ≤ n → dot (powers x k.one n) p ≡ eval x p
  dot-powers_one x n p h = dot-powers x k.one n p h ∙ k.one-mul _

  pub length-powers : (x c : A) (n : ℕ) → length (powers x c n) ≡ n
  unfolding powers
  length-powers x c zero = refl
  length-powers x c (suc n) = ap suc (length-powers x (x ⊗ c) n)

  -- The quotient of a polynomial c ∷ p by a root a.
  quotient : A → List A → List A
  quotient a [] = []
  quotient a (c ∷ p) = eval a (c ∷ p) ∷ quotient a p

  length-quotient : (a : A) (p : List A) → length (quotient a p) ≡ length p
  unfolding quotient
  length-quotient a [] = refl
  length-quotient a (c ∷ p) = ap suc (length-quotient a p)

  quotient_lem :
      (a x c : A) (p : List A) → eval x (c ∷ p) ⊕ eval a (c ∷ p) ≡ (x ⊕ a) ⊗ eval x (quotient a p)
  unfolding eval quotient
  quotient_lem a x c [] = rw (mul-zero x, mul-zero a, mul-zero (x ⊕ a)) (k.add_self _)
  quotient_lem a x c (d ∷ p) =
      let px = eval x (d ∷ p) in
      let pa = eval a (d ∷ p) in
      let q = eval x (quotient a p) in
      let ih : px ≡ ((x ⊕ a) ⊗ q) ⊕ pa =
        sym (add_cancel px pa) ∙ ap (λ s. s ⊕ pa) (quotient_lem a x d p) in
      swap_middle c (x ⊗ px) c (a ⊗ pa)
      ∙ ap (λ s. s ⊕ ((x ⊗ px) ⊕ (a ⊗ pa))) (k.add_self c)
      ∙ k.zero-add _
      ∙ ap (λ s. (x ⊗ s) ⊕ (a ⊗ pa)) ih
      ∙ ap (λ s. s ⊕ (a ⊗ pa)) (k.mul-add x _ pa)
      ∙ k.add_assoc _ _ _
      ∙ ap (λ s. (x ⊗ ((x ⊕ a) ⊗ q)) ⊕ s) (sym (add-mul x a pa))
      ∙ ap (λ s. s ⊕ ((x ⊕ a) ⊗ pa)) (mul_left_comm x (x ⊕ a) q)
      ∙ k.add_comm _ _
      ∙ sym (k.mul-add (x ⊕ a) pa (x ⊗ q))

  abbrev pub Apart : A → List A → Type 0
  Apart a xs = All (λ (x : A). x ≢ a) xs

  abbrev pub Distinct : List A → Type 0
  Distinct [] = Unit {0}
  Distinct (x ∷ xs) = Apart x xs × Distinct xs

  abbrev pub Roots : List A → List A → Type 0
  Roots p xs = All (λ (x : A). eval x p ≡ k.zero) xs

  quotient-Roots :
      (a c : A) (p xs : List A)
      → eval a (c ∷ p) ≡ k.zero
      → Apart a xs
      → Roots (c ∷ p) xs
      → Roots (quotient a p) xs
  quotient-Roots a c p [] ha apart roots = tt
  quotient-Roots a c p (x ∷ xs) ha apart roots = (
    zero_of_mul (x ⊕ a) _ (λ z. apart.0 (eq_of_add x a z))
        (sym (quotient_lem a x c p) ∙ rw (roots.0, ha) (k.zero-add k.zero)),
    quotient-Roots a c p xs ha apart.1 roots.1,
  )

  eval-zeros : (a : A) (n : ℕ) → eval a (zeros n) ≡ k.zero
  unfolding eval
  eval-zeros a zero = refl
  eval-zeros a (suc n) = rw (eval-zeros a n, mul-zero a) (k.zero-add k.zero)

  -- The first coefficient, where the others are zero.
  first_zero : (a c : A) (p : List A) → p ≡ zeros (length p) → eval a (c ∷ p) ≡ k.zero → c ≡ k.zero
  unfolding eval
  first_zero a c p z e =
      sym (add-zero c)
      ∙ ap (λ s. c ⊕ s) (sym (ap (k.mul a) (ap (eval a) z ∙ eval-zeros a (length p)) ∙ mul-zero a))
      ∙ e

  zero_quotient : (a : A) (p : List A) → quotient a p ≡ zeros (length p) → p ≡ zeros (length p)
  unfolding quotient
  zero_quotient a [] h = refl
  zero_quotient a (c ∷ p) h =
      let rest = zero_quotient a p (ap (drop 1) h) in
      let c_zero = first_zero a c p rest (ap (λ l. get_or l 0 k.zero) h) in
      ap (λ y. y ∷ p) c_zero ∙ ap (◌∷◌ k.zero) rest

  -- As many different roots as coefficients: there are only zeros.
  pub only_zeros :
      (n : ℕ) (p xs : List A)
      → length p ≡ n
      → n ≤ length xs
      → Distinct xs
      → Roots p xs
      → p ≡ zeros (length p)
  only_zeros n [] xs lp le distinct roots = refl
  only_zeros zero (c ∷ p) xs lp le distinct roots = absurd (omega arith)
  only_zeros (suc n) (c ∷ p) [] lp le distinct roots = absurd (omega arith)
  only_zeros (suc n) (c ∷ p) (a ∷ xs) lp le distinct roots =
      let lq = length-quotient a p in
      let q =
        only_zeros n (quotient a p) xs (omega arith) (omega arith) distinct.1
          (quotient-Roots a c p xs roots.0 distinct.0 roots.1) in
      let rest = zero_quotient a p (q ∙ ap (λ (m : ℕ). zeros m) lq) in
      ap (λ y. y ∷ p) (first_zero a c p rest roots.0) ∙ ap (◌∷◌ k.zero) rest

  not_zeros : (w : List A) (n : ℕ) → w ++ (k.one ∷ []) ≢ zeros n
  not_zeros [] zero h = absurd (omega (arith, ap length h))
  not_zeros [] (suc n) h = k.one_ne_zero (ap (λ l. get_or l 0 k.zero) h)
  not_zeros (x ∷ w) zero h = absurd (omega (arith, ap length h))
  not_zeros (x ∷ w) (suc n) h = not_zeros w n (ap (drop 1) h)

  pub too_many-Roots :
      (w xs : List A) → length w < length xs → Distinct xs → ¬ Roots (w ++ (k.one ∷ [])) xs
  too_many-Roots w xs lt distinct roots =
      let n = length-append w (k.one ∷ []) in
      not_zeros w _ (
        only_zeros (length w + 1) (w ++ (k.one ∷ [])) xs (omega arith) (omega arith) distinct roots)

  pub eval-added :
      (x : A) (u v : List A) → length v ≤ length u → eval x (added u v) ≡ eval x u ⊕ eval x v
  unfolding eval added
  eval-added x [] [] h = sym (k.zero-add k.zero)
  eval-added x [] (d ∷ v) h = absurd (omega arith)
  eval-added x (c ∷ u) [] h = sym (add-zero _)
  eval-added x (c ∷ u) (d ∷ v) h =
      rw (eval-added x u v (omega arith), k.mul-add) (swap_middle c d _ _)

  pub eval-scaled : (x a : A) (u : List A) → eval x (scaled a u) ≡ a ⊗ eval x u
  unfolding eval scaled
  eval-scaled x a [] = sym (mul-zero a)
  eval-scaled x a (c ∷ u) =
      ap (λ s. (a ⊗ c) ⊕ (x ⊗ s)) (eval-scaled x a u)
      ∙ ap (λ s. (a ⊗ c) ⊕ s) (mul_left_comm x a _)
      ∙ sym (k.mul-add a c _)

  pub eval-padded : (x : A) (p : List A) (n : ℕ) → eval x (p ++ zeros n) ≡ eval x p
  unfolding eval
  eval-padded x [] n = eval-zeros x n
  eval-padded x (c ∷ p) n = ap (λ s. c ⊕ (x ⊗ s)) (eval-padded x p n)
