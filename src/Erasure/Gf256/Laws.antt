-- ===== src/Erasure/Gf256/Laws.antt =====
-- src/erasure_coding.rs: the laws of products and inverses in GF(256).
use weeb.Prelude.{
  ℕ, zero, suc, ◌/◌, ◌%◌, ◌<◌, ◌≤◌, ◌==◌, ==_iff, ltb, ltb→lt, holds_below, holds_below-at, true,
  inl, inr, ◌≡◌, refl, sym, ap, ◌∙◌, arith,
}
use weeb.Erasure.Gf256.{double, table_entry, gf_mul, gf_inverse}
use weeb.Erasure.Gf256.Digits.{
  double-bit_xor, double-lt, double-half, double-zero, zero_cases, gf_mul-zero, zero-gf_mul, select,
  select-lt, gf_mul-digit, gf_mul-lt,
}
use weeb.Erasure.Gf256.Sums.{bit_xor-gf_mul, gf_mul-bit_xor}

select-double : (digit a : ℕ) → select digit (double a) ≡ double (select digit a)
unfolding select
select-double zero a = sym double-zero
select-double (suc digit) a = ground arith

double-gf_mul_fuel :
    (n a r : ℕ) → a < 256 → r < 256 → r ≤ n → gf_mul (double a) r ≡ double (gf_mul a r)
double-gf_mul_fuel zero a r ha hr h =
    let z : r ≡ 0 = omega arith in rw (z, gf_mul-zero (double a), gf_mul-zero a) (sym double-zero)
double-gf_mul_fuel (suc n) a r ha hr h = elim (zero_cases r) [
  | inl z ↦ rw (z, gf_mul-zero (double a), gf_mul-zero a) (sym double-zero)
  | inr pos ↦
      gf_mul-digit (double a) r hr
      ∙ rw
          (
            double-gf_mul_fuel n a (r / 2) ha (omega arith) (omega arith),
            select-double (r % 2) a,
            gf_mul-digit a r hr,
          )
          (sym (double-bit_xor _ _ (double-lt _) (select-lt (r % 2) a ha)))
]

double-gf_mul : (a r : ℕ) → a < 256 → r < 256 → gf_mul (double a) r ≡ double (gf_mul a r)
double-gf_mul a r ha hr = double-gf_mul_fuel r a r ha hr (omega arith)

one_row : holds_below (λ a. gf_mul 1 a == a) 256 ≡ true
unfolding gf_mul table_entry double holds_below
one_row = refl

pub one-gf_mul : (a : ℕ) → a < 256 → gf_mul 1 a ≡ a
one-gf_mul a h = (==_iff _ _).0 (holds_below-at _ 256 a h one_row)

digit-gf_mul : (d a : ℕ) → d < 2 → a < 256 → gf_mul d a ≡ select d a
unfolding select
digit-gf_mul zero a hd ha = zero-gf_mul a
digit-gf_mul (suc zero) a hd ha = one-gf_mul a ha
digit-gf_mul (suc (suc d)) a hd ha = absurd (omega arith)

comm_fuel : (n a r : ℕ) → a < 256 → r < 256 → r ≤ n → gf_mul r a ≡ gf_mul a r
comm_fuel zero a r ha hr h = let z : r ≡ 0 = omega arith in rw (z, gf_mul-zero) (zero-gf_mul a)
comm_fuel (suc n) a r ha hr h = elim (zero_cases r) [
  | inl z ↦ rw (z, gf_mul-zero) (zero-gf_mul a)
  | inr pos ↦
      ap (λ s. gf_mul s a) (sym (double-half r hr))
      ∙ bit_xor-gf_mul (double (r / 2)) (r % 2) a (double-lt _) (omega arith) ha
      ∙ rw
          (
            double-gf_mul (r / 2) a (omega arith) ha,
            comm_fuel n a (r / 2) ha (omega arith) (omega arith),
            digit-gf_mul (r % 2) a (omega arith) ha,
          )
          (sym (gf_mul-digit a r hr))
]

pub gf_mul_comm : (a b : ℕ) → a < 256 → b < 256 → gf_mul a b ≡ gf_mul b a
gf_mul_comm a b ha hb = comm_fuel a b a hb ha (omega arith)

gf_mul-double : (a r : ℕ) → a < 256 → r < 256 → gf_mul a (double r) ≡ double (gf_mul a r)
gf_mul-double a r ha hr =
    gf_mul_comm a (double r) ha (double-lt r)
    ∙ double-gf_mul r a hr ha
    ∙ ap double (gf_mul_comm r a hr ha)

gf_mul-select : (a d b : ℕ) → gf_mul a (select d b) ≡ select d (gf_mul a b)
unfolding select
gf_mul-select a zero b = gf_mul-zero a
gf_mul-select a (suc d) b = ground arith

assoc_fuel :
    (n a b c : ℕ)
    → a < 256
    → b < 256
    → c < 256
    → c ≤ n
    → gf_mul (gf_mul a b) c ≡ gf_mul a (gf_mul b c)
assoc_fuel zero a b c ha hb hc h =
    let z : c ≡ 0 = omega arith in
    rw (z, gf_mul-zero (gf_mul a b), gf_mul-zero b, gf_mul-zero a) refl
assoc_fuel (suc n) a b c ha hb hc h = elim (zero_cases c) [
  | inl z ↦ rw (z, gf_mul-zero (gf_mul a b), gf_mul-zero b, gf_mul-zero a) refl
  | inr pos ↦
      let half : c / 2 < 256 = omega arith in
      let low : gf_mul b (c / 2) < 256 = gf_mul-lt b (c / 2) hb half in
      gf_mul-digit (gf_mul a b) c hc
      ∙ rw
          (
            assoc_fuel n a b (c / 2) ha hb half (omega arith),
            gf_mul-digit b c hc,
            gf_mul-bit_xor a (double (gf_mul b (c / 2))) (select (c % 2) b) ha (double-lt _)
                (select-lt (c % 2) b hb),
            gf_mul-double a (gf_mul b (c / 2)) ha low,
            gf_mul-select a (c % 2) b,
          )
          refl
]

pub gf_mul_assoc :
    (a b c : ℕ) → a < 256 → b < 256 → c < 256 → gf_mul (gf_mul a b) c ≡ gf_mul a (gf_mul b c)
gf_mul_assoc a b c ha hb hc = assoc_fuel c a b c ha hb hc (omega arith)

inverse_row : holds_below (λ a. gf_mul (gf_inverse (suc a)) (suc a) == 1) 255 ≡ true
unfolding gf_inverse gf_mul table_entry double holds_below
inverse_row = refl

pub gf_inverse-gf_mul : (a : ℕ) → a < 256 → 0 < a → gf_mul (gf_inverse a) a ≡ 1
gf_inverse-gf_mul zero h pos = absurd (omega arith)
gf_inverse-gf_mul (suc a) h pos = (==_iff _ _).0 (holds_below-at _ 255 a (omega arith) inverse_row)

inverses_bounded : holds_below (λ v. ltb (gf_inverse v) 256) 256 ≡ true
unfolding gf_inverse gf_mul table_entry double holds_below
inverses_bounded = refl

pub gf_inverse-lt : (a : ℕ) → a < 256 → gf_inverse a < 256
gf_inverse-lt a h = ltb→lt _ _ (holds_below-at _ 256 a h inverses_bounded)
