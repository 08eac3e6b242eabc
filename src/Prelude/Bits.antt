-- ===== src/Prelude/Bits.antt =====
-- Laws of the native bit operations, digit by digit.
use Prim.Native.Nat.{min, max, digits, differ, bit_and-bitwise, bit_or-bitwise, bit_xor-bitwise}
use native.Mathlib.Omega.{pow_step}
use weeb.Prelude.{
  ℕ, zero, suc, ◌+◌, ◌*◌, ◌/◌, ◌%◌, ◌≤◌, ◌<◌, bit_and, bit_or, bit_xor, ◌≡◌, refl, ◌∙◌, ◌^◌, arith,
}

-- Any bound of the first number is fuel enough for the recursion on its digits.
module _ (last : ℕ → ℕ) (op : ℕ → ℕ → ℕ) where
  more_fuel :
      (a b less more : ℕ)
      → a ≤ less
      → less ≤ more
      → digits last op more a b ≡ digits last op less a b
  more_fuel zero b zero zero h k = refl
  more_fuel zero b zero (suc more) h k = refl
  more_fuel zero b (suc less) zero h k = refl
  more_fuel zero b (suc less) (suc more) h k = refl
  more_fuel (suc a) b zero more h k = absurd (omega arith)
  more_fuel (suc a) b (suc less) zero h k = absurd (omega arith)
  more_fuel (suc a) b (suc less) (suc more) h k =
      omega (arith, more_fuel (suc a / 2) (b / 2) less more (omega arith) (omega arith))

  lowest_digit :
      (a b : ℕ)
      → digits last op (suc a) (suc a) b
        ≡ digits last op (suc a / 2) (suc a / 2) (b / 2) * 2 + op (suc a % 2) (b % 2)
  lowest_digit a b =
      omega (arith, more_fuel (suc a / 2) (b / 2) (suc a / 2) a (omega arith) (omega arith))

pub bit_and-digit : (a b : ℕ) → bit_and a b ≡ bit_and (a / 2) (b / 2) * 2 + min (a % 2) (b % 2)
bit_and-digit zero b = omega (arith, bit_and-bitwise 0 b, bit_and-bitwise 0 (b / 2))
bit_and-digit (suc a) b = omega (
  arith,
  bit_and-bitwise (suc a) b,
  bit_and-bitwise (suc a / 2) (b / 2),
  lowest_digit (λ x. 0) min a b,
)

pub bit_or-digit : (a b : ℕ) → bit_or a b ≡ bit_or (a / 2) (b / 2) * 2 + max (a % 2) (b % 2)
bit_or-digit zero b = omega (arith, bit_or-bitwise 0 b, bit_or-bitwise 0 (b / 2))
bit_or-digit (suc a) b = omega (
  arith,
  bit_or-bitwise (suc a) b,
  bit_or-bitwise (suc a / 2) (b / 2),
  lowest_digit (λ x. x) max a b,
)

differ-mod : (x y : ℕ) → x < 2 → y < 2 → differ x y ≡ (x + y) % 2
differ-mod zero y hx hy = omega arith
differ-mod (suc zero) zero hx hy = refl
differ-mod (suc zero) (suc zero) hx hy = refl
differ-mod (suc zero) (suc (suc y)) hx hy = absurd (omega arith)
differ-mod (suc (suc x)) y hx hy = absurd (omega arith)

pub bit_xor-digit : (a b : ℕ) → bit_xor a b ≡ bit_xor (a / 2) (b / 2) * 2 + (a % 2 + b % 2) % 2
bit_xor-digit zero b = omega (arith, bit_xor-bitwise 0 b, bit_xor-bitwise 0 (b / 2))
bit_xor-digit (suc a) b = omega (
  arith,
  bit_xor-bitwise (suc a) b,
  bit_xor-bitwise (suc a / 2) (b / 2),
  lowest_digit (λ x. x) differ a b,
  differ-mod (suc a % 2) (b % 2) (omega arith) (omega arith),
)

cancel_fuel : (n a k : ℕ) → a ≤ n → k ≤ n → bit_xor (bit_xor a k) k ≡ a
cancel_fuel zero zero zero ha hk = refl
cancel_fuel zero zero (suc k) ha hk = absurd (omega arith)
cancel_fuel zero (suc a) k ha hk = absurd (omega arith)
cancel_fuel (suc n) a k ha hk =
    let x = bit_xor-digit a k in
    let half : bit_xor a k / 2 ≡ bit_xor (a / 2) (k / 2) = omega (arith, x) in
    omega (
      arith,
      x,
      rw half at (bit_xor-digit (bit_xor a k) k),
      cancel_fuel n (a / 2) (k / 2) (omega arith) (omega arith),
    )

-- The same key twice changes nothing.
pub bit_xor_cancel : (a k : ℕ) → bit_xor (bit_xor a k) k ≡ a
bit_xor_cancel a k = cancel_fuel (a + k) a k (omega arith) (omega arith)

pub bit_xor-half : (a b : ℕ) → bit_xor a b / 2 ≡ bit_xor (a / 2) (b / 2)
bit_xor-half a b = omega (arith, bit_xor-digit a b)

pub bit_xor-parity : (a b : ℕ) → bit_xor a b % 2 ≡ (a % 2 + b % 2) % 2
bit_xor-parity a b = omega (arith, bit_xor-digit a b)

same_digits : (a b : ℕ) → a / 2 ≡ b / 2 → a % 2 ≡ b % 2 → a ≡ b
same_digits a b h k = omega arith

comm_fuel : (n a b : ℕ) → a ≤ n → b ≤ n → bit_xor a b ≡ bit_xor b a
comm_fuel zero zero zero ha hb = refl
comm_fuel zero zero (suc b) ha hb = absurd (omega arith)
comm_fuel zero (suc a) b ha hb = absurd (omega arith)
comm_fuel (suc n) a b ha hb = omega (
  arith,
  bit_xor-digit a b,
  bit_xor-digit b a,
  comm_fuel n (a / 2) (b / 2) (omega arith) (omega arith),
)

pub bit_xor_comm : (a b : ℕ) → bit_xor a b ≡ bit_xor b a
bit_xor_comm a b = comm_fuel (a + b) a b (omega arith) (omega arith)

pub zero-bit_xor : (a : ℕ) → bit_xor 0 a ≡ a
zero-bit_xor a = bit_xor-bitwise 0 a

pub bit_xor-zero : (a : ℕ) → bit_xor a 0 ≡ a
bit_xor-zero a = bit_xor_comm a 0 ∙ zero-bit_xor a

pub bit_xor_self : (a : ℕ) → bit_xor a a ≡ 0
bit_xor_self a = rw zero-bit_xor at (bit_xor_cancel 0 a)

assoc_fuel :
    (n a b c : ℕ) → a ≤ n → b ≤ n → c ≤ n → bit_xor (bit_xor a b) c ≡ bit_xor a (bit_xor b c)
assoc_fuel zero zero zero zero ha hb hc = refl
assoc_fuel zero zero zero (suc c) ha hb hc = absurd (omega arith)
assoc_fuel zero zero (suc b) c ha hb hc = absurd (omega arith)
assoc_fuel zero (suc a) b c ha hb hc = absurd (omega arith)
assoc_fuel (suc n) a b c ha hb hc =
    same_digits _ _
      (rw (bit_xor-half, bit_xor-half, bit_xor-half, bit_xor-half)
        (assoc_fuel n (a / 2) (b / 2) (c / 2) (omega arith) (omega arith) (omega arith)))
      (omega (
        arith,
        bit_xor-parity (bit_xor a b) c,
        bit_xor-parity a (bit_xor b c),
        bit_xor-parity a b,
        bit_xor-parity b c,
      ))

pub bit_xor_assoc : (a b c : ℕ) → bit_xor (bit_xor a b) c ≡ bit_xor a (bit_xor b c)
bit_xor_assoc a b c = assoc_fuel (a + b + c) a b c (omega arith) (omega arith) (omega arith)

digits_bound : (k a b : ℕ) → a < 2 ^ k → b < 2 ^ k → bit_xor a b < 2 ^ k
digits_bound zero zero zero ha hb = omega arith
digits_bound zero zero (suc b) ha hb = absurd (omega arith)
digits_bound zero (suc a) b ha hb = absurd (omega arith)
digits_bound (suc k) a b ha hb =
    let twice : 2 ^ suc k ≡ 2 * 2 ^ k = pow_step 2 k in
    omega (
      arith,
      twice,
      bit_xor-digit a b,
      digits_bound k (a / 2) (b / 2) (omega (arith, twice)) (omega (arith, twice)),
    )

pub bit_xor-lt-byte : (a b : ℕ) → a < 256 → b < 256 → bit_xor a b < 256
bit_xor-lt-byte a b ha hb = digits_bound 8 a b ha hb
