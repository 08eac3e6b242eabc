-- ===== src/Erasure/Gf256/Instance.antt =====
-- Bytes as a field: `u8`, with `^` and `GF_MUL`.
use mathlib.Core.HLevel.{Σ_prop_path}
use native.Mathlib.Bridge.{le_prop}
use weeb.Prelude.{ℕ, zero, suc, ◌<◌, ◌==◌, ==_iff, bit_xor, true, ◌≡◌, ◌≢◌, ◌↔◌, refl, ap, arith}
use weeb.Prelude.Bits.{bit_xor_comm, bit_xor_assoc, zero-bit_xor, bit_xor_self, bit_xor-lt-byte}
use weeb.Erasure.BinaryField.{BinaryField}
use weeb.Erasure.Gf256.{gf_mul, gf_inverse}
use weeb.Erasure.Gf256.Laws.{
  gf_mul_assoc, gf_mul_comm, one-gf_mul, gf_inverse-gf_mul, gf_inverse-lt,
}
use weeb.Erasure.Gf256.Sums.{gf_mul-bit_xor}
use weeb.Erasure.Gf256.Digits.{gf_mul-lt}

abbrev pub Byte : Type 0
Byte = (value : ℕ) × (value < 256)

pub byte_ext : (a b : Byte) → a.0 ≡ b.0 → a ≡ b
byte_ext a b e = Σ_prop_path (λ n. le_prop) e

unfoldable pub byte_add : Byte → Byte → Byte
byte_add a b = (bit_xor a.0 b.0, bit_xor-lt-byte a.0 b.0 a.1 b.1)

unfoldable pub byte_mul : Byte → Byte → Byte
byte_mul a b = (gf_mul a.0 b.0, gf_mul-lt a.0 b.0 a.1 b.1)

unfoldable pub byte_inverse : Byte → Byte
byte_inverse a = (gf_inverse a.0, gf_inverse-lt a.0 a.1)

abbrev byte_zero : Byte
byte_zero = (0, omega arith)

abbrev byte_one : Byte
byte_one = (1, omega arith)

pub byte-eq_iff : (a b : Byte) → ((a.0 == b.0) ≡ true) ↔ (a ≡ b)
byte-eq_iff a b =
    (λ h. byte_ext a b ((==_iff a.0 b.0).0 h), λ e. (==_iff a.0 b.0).1 (ap (λ (x : Byte). x.0) e))

pub positive : (a : Byte) → a ≢ byte_zero → 0 < a.0
positive (zero, h) ne = absurd (ne (byte_ext _ _ refl))
positive (suc n, h) ne = omega arith

pub one_above : ¬ (◌≡◌ {A = ℕ} 1 0)
one_above h = omega arith

instance unfoldable pub gf256 : BinaryField Byte
unfolding byte_add byte_mul byte_inverse
gf256 = record {
  zero = byte_zero;
  one = byte_one;
  add = byte_add;
  mul = byte_mul;
  inverse = byte_inverse;
  eq = λ a b. a.0 == b.0;
  eq_iff = byte-eq_iff;
  add_assoc = λ a b c. byte_ext _ _ (bit_xor_assoc a.0 b.0 c.0);
  add_comm = λ a b. byte_ext _ _ (bit_xor_comm a.0 b.0);
  zero-add = λ a. byte_ext _ _ (zero-bit_xor a.0);
  add_self = λ a. byte_ext _ _ (bit_xor_self a.0);
  mul_assoc = λ a b c. byte_ext _ _ (gf_mul_assoc a.0 b.0 c.0 a.1 b.1 c.1);
  mul_comm = λ a b. byte_ext _ _ (gf_mul_comm a.0 b.0 a.1 b.1);
  one-mul = λ a. byte_ext _ _ (one-gf_mul a.0 a.1);
  mul-add = λ a b c. byte_ext _ _ (gf_mul-bit_xor a.0 b.0 c.0 a.1 b.1 c.1);
  inverse-mul = λ a h. byte_ext _ _ (gf_inverse-gf_mul a.0 a.1 (positive a h));
  one_ne_zero = λ e. one_above (ap (λ (x : Byte). x.0) e);
}
