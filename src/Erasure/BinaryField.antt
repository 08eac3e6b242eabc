-- ===== src/Erasure/BinaryField.antt =====
-- What src/erasure_coding.rs uses of GF(256) for its matrices: a field in which every element is its
-- own negative. Rows are lists.
pub mod Vectors
use weeb.Prelude.{Bool, true, ◌≡◌, ◌≢◌, ◌↔◌, refl, sym, ap, ◌∙◌}

pub record BinaryField (A : Type 0) : Type 0 where
  pub eq : A → A → Bool
  pub inverse : A → A
  pub one : A
  pub zero : A
  pub mul : A → A → A
  pub add : A → A → A
  pub eq_iff : (x y : A) → (eq x y ≡ true) ↔ (x ≡ y)
  pub one_ne_zero : one ≢ zero
  pub add_self : (x : A) → add x x ≡ zero
  pub zero-add : (x : A) → add zero x ≡ x
  pub add_comm : (x y : A) → add x y ≡ add y x
  pub mul_comm : (x y : A) → mul x y ≡ mul y x
  pub inverse-mul : (x : A) → x ≢ zero → mul (inverse x) x ≡ one
  pub one-mul : (x : A) → mul one x ≡ x
  pub add_assoc : (x y z : A) → add (add x y) z ≡ add x (add y z)
  pub mul-add : (x y z : A) → mul x (add y z) ≡ add (mul x y) (mul x z)
  pub mul_assoc : (x y z : A) → mul (mul x y) z ≡ mul x (mul y z)

module _ {A : Type 0} ⦃k : BinaryField A⦄ where
  infixl 65 ◌⊕◌
  infixl 70 ◌⊗◌
  abbrev pub ◌⊕◌ : A → A → A
  a ⊕ b = k.add a b

  abbrev pub ◌⊗◌ : A → A → A
  a ⊗ b = k.mul a b

  pub add-zero : (x : A) → x ⊕ k.zero ≡ x
  add-zero x = k.add_comm x k.zero ∙ k.zero-add x

  -- Adding a second time takes away.
  pub add_cancel : (a b : A) → (a ⊕ b) ⊕ b ≡ a
  add_cancel a b = rw (k.add_assoc, k.add_self) (add-zero a)

  pub eq_of_add : (a b : A) → a ⊕ b ≡ k.zero → a ≡ b
  eq_of_add a b h = sym (add_cancel a b) ∙ rw h (k.zero-add b)

  pub mul-zero : (a : A) → a ⊗ k.zero ≡ k.zero
  mul-zero a = ap (k.mul a) (sym (k.add_self k.zero)) ∙ k.mul-add a k.zero k.zero ∙ k.add_self _

  pub zero-mul : (a : A) → k.zero ⊗ a ≡ k.zero
  zero-mul a = k.mul_comm k.zero a ∙ mul-zero a

  pub add-mul : (a b c : A) → (a ⊕ b) ⊗ c ≡ (a ⊗ c) ⊕ (b ⊗ c)
  add-mul a b c = rw (k.mul_comm (a ⊕ b) c, k.mul-add, k.mul_comm c a, k.mul_comm c b) refl

  pub swap_middle : (a b c d : A) → (a ⊕ b) ⊕ (c ⊕ d) ≡ (a ⊕ c) ⊕ (b ⊕ d)
  swap_middle a b c d =
      k.add_assoc a b (c ⊕ d)
      ∙ ap (k.add a)
          (sym (k.add_assoc b c d) ∙ ap (λ s. s ⊕ d) (k.add_comm b c) ∙ k.add_assoc c b d)
      ∙ sym (k.add_assoc a c (b ⊕ d))

  -- A factor that is not zero is no loss.
  pub inverse_cancel : (a b : A) → a ≢ k.zero → k.inverse a ⊗ (a ⊗ b) ≡ b
  inverse_cancel a b h = sym (k.mul_assoc _ a b) ∙ ap (λ s. s ⊗ b) (k.inverse-mul a h) ∙ k.one-mul b

  pub zero_of_mul : (a b : A) → a ≢ k.zero → a ⊗ b ≡ k.zero → b ≡ k.zero
  zero_of_mul a b h e = sym (inverse_cancel a b h) ∙ ap (k.mul (k.inverse a)) e ∙ mul-zero _
