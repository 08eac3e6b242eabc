-- ===== src/Erasure/Gf256/Digits.antt =====
-- src/erasure_coding.rs: an entry of `GF_MUL`, by the digits of the right factor.
use weeb.Prelude.{
  ℕ, zero, suc, ◌-◌, ◌*◌, ◌/◌, ◌%◌, ◌<◌, ◌≤◌, bit_xor, if◌then◌else◌, ◌==◌, ==_iff, holds_below,
  holds_below-at, true, inl, inr, ◌≡◌, ◌⊎◌, refl, sym, ap, ◌∙◌, arith,
}
use weeb.Prelude.Bits.{zero-bit_xor, bit_xor-zero, bit_xor-lt-byte}
use weeb.Erasure.Gf256.{double, table_entry, gf_mul}

-- The shift, and the reduction, of a sum.
double_pairs :
    holds_below
      (λ a. holds_below (λ b. double (bit_xor a b) == bit_xor (double a) (double b)) 256)
      256
    ≡ true
unfolding double holds_below
double_pairs = refl

pub double-bit_xor :
    (a b : ℕ) → a < 256 → b < 256 → double (bit_xor a b) ≡ bit_xor (double a) (double b)
double-bit_xor a b ha hb =
    (==_iff _ _).0 (holds_below-at _ 256 b hb (holds_below-at _ 256 a ha double_pairs))

pub double-lt : (a : ℕ) → double a < 256
unfolding double
double-lt a = bit_xor-lt-byte (a * 2 % 256) _ (omega arith) (ground arith)

double_halves : holds_below (λ a. bit_xor (double (a / 2)) (a % 2) == a) 256 ≡ true
unfolding double holds_below
double_halves = refl

pub double-half : (a : ℕ) → a < 256 → bit_xor (double (a / 2)) (a % 2) ≡ a
double-half a h = (==_iff _ _).0 (holds_below-at _ 256 a h double_halves)

pub double-zero : double 0 ≡ 0
unfolding double
double-zero = refl

-- `left`, or nothing, by the lowest digit of the right factor.
unfoldable pub select : ℕ → ℕ → ℕ
select digit left = if digit == 0 then 0 else left

digit_cases : (n : ℕ) → (n % 2 ≡ 0) ⊎ (n % 2 ≡ 1)
digit_cases n = ground arith

pub zero_cases : (n : ℕ) → (n ≡ 0) ⊎ (0 < n)
zero_cases n = ground arith

-- The fuel does not matter where there is enough.
entry_fuel :
    (less more left right : ℕ)
    → right < less
    → less ≤ more
    → table_entry more left right ≡ table_entry less left right
unfolding table_entry
entry_fuel zero more left right h k = absurd (omega arith)
entry_fuel (suc less) zero left right h k = absurd (omega arith)
entry_fuel (suc less) (suc more) left zero h k = refl
entry_fuel (suc less) (suc more) left (suc right) h k = rw (
  entry_fuel less more left (suc right / 2) (omega arith) (omega arith),
  entry_fuel less more left (suc right - 1) (omega arith) (omega arith),
)

entry_zero : (fuel left : ℕ) → table_entry fuel left 0 ≡ 0
unfolding table_entry
entry_zero zero left = refl
entry_zero (suc fuel) left = refl

entry_even :
    (fuel left right : ℕ)
    → right % 2 ≡ 0
    → table_entry (suc fuel) left right ≡ double (table_entry fuel left (right / 2))
unfolding table_entry
entry_even fuel left zero e = ground (arith, entry_zero fuel left, double-zero)
entry_even fuel left (suc right) e = ground arith

entry_odd :
    (fuel left right : ℕ)
    → right % 2 ≡ 1
    → table_entry (suc fuel) left right ≡ bit_xor (table_entry fuel left (right - 1)) left
unfolding table_entry
entry_odd fuel left zero e = absurd (omega arith)
entry_odd fuel left (suc right) e = ground arith

entry_digit :
    (fuel left right : ℕ)
    → right < suc (suc fuel)
    → table_entry (suc (suc fuel)) left right
      ≡ bit_xor (double (table_entry (suc fuel) left (right / 2))) (select (right % 2) left)
unfolding select
entry_digit fuel left right h = elim (digit_cases right) [
  | inl even ↦ rw (entry_even (suc fuel) left right even, even) (sym (bit_xor-zero _))
  | inr odd ↦
      rw (entry_odd (suc fuel) left right odd, odd, entry_even fuel left (right - 1) (omega arith))
        (ap (λ e. bit_xor (double e) left) (halved odd))
]
  where
    halved :
        right % 2 ≡ 1
        → table_entry fuel left ((right - 1) / 2) ≡ table_entry (suc fuel) left (right / 2)
    halved odd = elim (zero_cases (right / 2)) [
      | inl none_left ↦
          let z : (right - 1) / 2 ≡ 0 = omega arith in
          rw (none_left, z, entry_zero, entry_zero) refl
      | inr more ↦
          let same : (right - 1) / 2 ≡ right / 2 = omega arith in
          rw same (sym (entry_fuel fuel (suc fuel) left (right / 2) (omega arith) (omega arith)))
    ]

pub zero-gf_mul : (right : ℕ) → gf_mul 0 right ≡ 0
unfolding gf_mul
zero-gf_mul right = refl

gf_mul_entry : (left right : ℕ) → 0 < left → gf_mul left right ≡ table_entry 256 left right
unfolding gf_mul
gf_mul_entry left right h = ground arith

-- One digit of the right factor: Horner's rule.
pub gf_mul-digit :
    (left right : ℕ)
    → right < 256
    → gf_mul left right ≡ bit_xor (double (gf_mul left (right / 2))) (select (right % 2) left)
gf_mul-digit zero right h =
    rw (zero-gf_mul, zero-gf_mul, double-zero, zero-bit_xor) (unfold select in (ground arith))
gf_mul-digit (suc left) right h =
    rw
      (
        gf_mul_entry (suc left) right (omega arith),
        gf_mul_entry (suc left) (right / 2) (omega arith),
      )
      (entry_digit 254 (suc left) right h
        ∙ ap (λ e. bit_xor (double e) (select (right % 2) (suc left)))
            (sym (entry_fuel 255 256 (suc left) (right / 2) (omega arith) (omega arith))))

pub gf_mul-zero : (left : ℕ) → gf_mul left 0 ≡ 0
gf_mul-zero zero = zero-gf_mul 0
gf_mul-zero (suc left) = gf_mul_entry (suc left) 0 (omega arith) ∙ entry_zero 256 (suc left)

pub select-lt : (digit left : ℕ) → left < 256 → select digit left < 256
unfolding select
select-lt digit left h = ground arith

gf_mul-lt_fuel : (n left right : ℕ) → left < 256 → right < 256 → right ≤ n → gf_mul left right < 256
gf_mul-lt_fuel zero left right hl hr h =
    let z : right ≡ 0 = omega arith in rw (z, gf_mul-zero) (omega arith)
gf_mul-lt_fuel (suc n) left right hl hr h =
    rw (gf_mul-digit left right hr)
      (bit_xor-lt-byte _ _ (double-lt _) (select-lt (right % 2) left hl))

pub gf_mul-lt : (left right : ℕ) → left < 256 → right < 256 → gf_mul left right < 256
gf_mul-lt left right hl hr = gf_mul-lt_fuel right left right hl hr (omega arith)
