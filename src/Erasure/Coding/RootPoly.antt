-- ===== src/Erasure/Coding/RootPoly.antt =====
-- src/erasure_coding.rs: the polynomial with given roots, and what it says of rows of the Vandermonde
-- matrix.
use weeb.Prelude.{
  suc, length, length-map, All, List, [], ◌∷◌, ◌++◌, map, ◌≡◌, ◌≢◌, refl, sym, ap, ◌∙◌, arith,
}
use mathlib.Core.List.{map-append}
use weeb.Erasure.BinaryField.{
  BinaryField, ◌⊕◌, ◌⊗◌, add-zero, mul-zero, zero-mul, add-mul, zero_of_mul, eq_of_add,
}
use weeb.Erasure.BinaryField.Vectors.{
  dot, scaled, added, zeros, length-added, dot-append, dot-zeros,
}
use weeb.Erasure.Gauss.Rows.{length-scaled}
use weeb.Erasure.Coding.Polynomials.{eval, eval-added, eval-scaled, Apart, Distinct, Roots}

module _ {A : Type 0} ⦃k : BinaryField A⦄ where
  -- The product of the polynomials with one root each.
  pub root_poly : List A → List A
  root_poly [] = k.one ∷ []
  root_poly (a ∷ rs) = added (k.zero ∷ root_poly rs) (scaled a (root_poly rs))

  pub length-root_poly : (rs : List A) → length (root_poly rs) ≡ suc (length rs)
  unfolding root_poly added
  length-root_poly [] = refl
  length-root_poly (a ∷ rs) =
      length-added (k.zero ∷ root_poly rs) (scaled a (root_poly rs)) ∙ ap suc (length-root_poly rs)

  eval_shift : (x : A) (p : List A) → eval x (k.zero ∷ p) ≡ x ⊗ eval x p
  unfolding eval
  eval_shift x p = k.zero-add _

  eval-root_poly :
      (x a : A) (rs : List A) → eval x (root_poly (a ∷ rs)) ≡ (x ⊕ a) ⊗ eval x (root_poly rs)
  unfolding root_poly
  eval-root_poly x a rs =
      eval-added x (k.zero ∷ root_poly rs) (scaled a (root_poly rs))
        (omega (arith, length-scaled a (root_poly rs)))
      ∙ ap (λ s. eval x (k.zero ∷ root_poly rs) ⊕ s) (eval-scaled x a (root_poly rs))
      ∙ ap (λ s. s ⊕ (a ⊗ eval x (root_poly rs))) (eval_shift x (root_poly rs))
      ∙ sym (add-mul x a _)

  one_more_root : (a : A) (xs rs : List A) → Roots (root_poly rs) xs → Roots (root_poly (a ∷ rs)) xs
  one_more_root a [] rs h = tt
  one_more_root a (x ∷ xs) rs h =
      (eval-root_poly x a rs ∙ ap (λ s. (x ⊕ a) ⊗ s) h.0 ∙ mul-zero _, one_more_root a xs rs h.1)

  pub root_poly-Roots : (rs : List A) → Roots (root_poly rs) rs
  root_poly-Roots [] = tt
  root_poly-Roots (a ∷ rs) = (
    eval-root_poly a a rs ∙ ap (λ s. s ⊗ eval a (root_poly rs)) (k.add_self a) ∙ zero-mul _,
    one_more_root a rs rs (root_poly-Roots rs),
  )

  pub root_poly-ne-zero :
      (x : A) (rs : List A) → All (λ (a : A). x ≢ a) rs → eval x (root_poly rs) ≢ k.zero
  unfolding eval
  root_poly-ne-zero x [] h e =
      k.one_ne_zero
        (sym (add-zero k.one) ∙ ap (λ s. k.one ⊕ s) (sym (mul-zero x)) ∙ (unfold root_poly in e))
  root_poly-ne-zero x (a ∷ rs) h e =
      root_poly-ne-zero x rs h.1
        (zero_of_mul (x ⊕ a) _ (λ z. h.0 (eq_of_add x a z)) (sym (eval-root_poly x a rs) ∙ e))

  Apart-split : (xs ys : List A) (x : A) → Distinct (xs ++ (x ∷ ys)) → All (λ (a : A). x ≢ a) xs
  Apart-split [] ys x h = tt
  Apart-split (a ∷ xs) ys x h = (All-middle xs ys x h.0, Apart-split xs ys x h.1)
    where
      All-middle : (xs ys : List A) (x : A) → Apart a (xs ++ (x ∷ ys)) → x ≢ a
      All-middle [] ys x h = h.0
      All-middle (y ∷ xs) ys x h = All-middle xs ys x h.1

  Roots-zero : (p xs : List A) → Roots p xs → map (λ x. eval x p) xs ≡ zeros (length xs)
  Roots-zero p [] h = refl
  Roots-zero p (x ∷ xs) h = rw (h.0, Roots-zero p xs h.1) refl

  -- No sum of evaluations at different points, with a last coefficient of one, vanishes for all
  -- polynomials: it does not for the one with roots at the other points.
  pub no_relation :
      (w xs ys : List A) (x : A)
      → length w ≡ length xs
      → Distinct (xs ++ (x ∷ ys))
      → dot (w ++ (k.one ∷ [])) (map (λ y. eval y (root_poly xs)) (xs ++ (x ∷ ys))) ≢ k.zero
  no_relation w xs ys x len distinct e =
      let p = root_poly xs in
      root_poly-ne-zero x xs (Apart-split xs ys x distinct) (
        sym (
          ap (dot (w ++ (k.one ∷ []))) (map-append (λ y. eval y p) xs (x ∷ ys))
          ∙ dot-append w (k.one ∷ []) (map (λ y. eval y p) xs) (map (λ y. eval y p) (x ∷ ys))
              (len ∙ sym (length-map xs (λ y. eval y p)))
          ∙ ap (λ s. dot w s ⊕ dot (k.one ∷ []) (map (λ y. eval y p) (x ∷ ys)))
              (Roots-zero p xs (root_poly-Roots xs))
          ∙ ap (λ s. s ⊕ dot (k.one ∷ []) (map (λ y. eval y p) (x ∷ ys))) (dot-zeros (length xs) w)
          ∙ k.zero-add _
          ∙ one_term (eval x p) (map (λ y. eval y p) ys))
        ∙ e)
    where
      one_term : (y : A) (ys : List A) → dot (k.one ∷ []) (y ∷ ys) ≡ y
      one_term y ys = unfold dot in rw (k.one-mul y) (add-zero y)
