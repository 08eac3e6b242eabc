-- ===== src/Erasure/Gf256/Sums.antt =====
-- src/erasure_coding.rs: products of sums in GF(256).
use weeb.Prelude.{
  ℕ, zero, suc, ◌+◌, ◌/◌, ◌%◌, ◌<◌, ◌≤◌, bit_xor, inl, inr, ◌≡◌, refl, sym, ap, ◌∙◌, arith,
}
use weeb.Prelude.Bits.{
  bit_xor-half, bit_xor-parity, bit_xor_comm, bit_xor_assoc, zero-bit_xor, bit_xor-zero,
  bit_xor_self, bit_xor-lt-byte,
}
use weeb.Erasure.Gf256.{gf_mul}
use weeb.Erasure.Gf256.Digits.{
  double-bit_xor, zero_cases, gf_mul-zero, select, gf_mul-digit, gf_mul-lt,
}

-- Sums of four, two by two.
pub swap_middle :
    (a b c d : ℕ) → bit_xor (bit_xor a b) (bit_xor c d) ≡ bit_xor (bit_xor a c) (bit_xor b d)
swap_middle a b c d =
    bit_xor_assoc a b (bit_xor c d)
    ∙ ap (bit_xor a)
        (sym (bit_xor_assoc b c d) ∙ ap (λ s. bit_xor s d) (bit_xor_comm b c) ∙ bit_xor_assoc c b d)
    ∙ sym (bit_xor_assoc a c (bit_xor b d))

select-bit_xor :
    (digit a b : ℕ) → select digit (bit_xor a b) ≡ bit_xor (select digit a) (select digit b)
unfolding select
select-bit_xor zero a b = refl
select-bit_xor (suc digit) a b = ground arith

bit_xor-select :
    (c d left : ℕ)
    → c < 2
    → d < 2
    → select ((c + d) % 2) left ≡ bit_xor (select c left) (select d left)
unfolding select
bit_xor-select zero zero left hc hd = refl
bit_xor-select zero (suc zero) left hc hd = sym (zero-bit_xor left)
bit_xor-select (suc zero) zero left hc hd = sym (bit_xor-zero left)
bit_xor-select (suc zero) (suc zero) left hc hd = sym (bit_xor_self left)
bit_xor-select (suc (suc c)) d left hc hd = absurd (omega arith)
bit_xor-select c (suc (suc d)) left hc hd = absurd (omega arith)

mul_sum_fuel :
    (n a b r : ℕ)
    → a < 256
    → b < 256
    → r < 256
    → r ≤ n
    → gf_mul (bit_xor a b) r ≡ bit_xor (gf_mul a r) (gf_mul b r)
mul_sum_fuel zero a b r ha hb hr h =
    let z : r ≡ 0 = omega arith in rw (z, gf_mul-zero, gf_mul-zero, gf_mul-zero) refl
mul_sum_fuel (suc n) a b r ha hb hr h = elim (zero_cases r) [
  | inl z ↦ rw (z, gf_mul-zero, gf_mul-zero, gf_mul-zero) refl
  | inr pos ↦
      let half : r / 2 < 256 = omega arith in
      rw
        (
          gf_mul-digit (bit_xor a b) r hr,
          mul_sum_fuel n a b (r / 2) ha hb half (omega arith),
          double-bit_xor (gf_mul a (r / 2)) (gf_mul b (r / 2)) (gf_mul-lt a (r / 2) ha half)
              (gf_mul-lt b (r / 2) hb half),
          select-bit_xor (r % 2) a b,
          gf_mul-digit a r hr,
          gf_mul-digit b r hr,
        )
        (swap_middle _ _ _ _)
]

pub bit_xor-gf_mul :
    (a b r : ℕ)
    → a < 256
    → b < 256
    → r < 256
    → gf_mul (bit_xor a b) r ≡ bit_xor (gf_mul a r) (gf_mul b r)
bit_xor-gf_mul a b r ha hb hr = mul_sum_fuel r a b r ha hb hr (omega arith)

gf_mul_sum_fuel :
    (n a r s : ℕ)
    → a < 256
    → r < 256
    → s < 256
    → r ≤ n
    → s ≤ n
    → gf_mul a (bit_xor r s) ≡ bit_xor (gf_mul a r) (gf_mul a s)
gf_mul_sum_fuel zero a r s ha hr hs h k =
    let y : r ≡ 0 = omega arith in
    let z : s ≡ 0 = omega arith in rw (y, z, zero-bit_xor, gf_mul-zero) refl
gf_mul_sum_fuel (suc n) a r s ha hr hs h k = elim (zero_cases (r + s)) [
  | inl z ↦
      let y : r ≡ 0 = omega arith in
      let z : s ≡ 0 = omega arith in rw (y, z, zero-bit_xor, gf_mul-zero) refl
  | inr pos ↦
      rw
        (
          gf_mul-digit a (bit_xor r s) (bit_xor-lt-byte r s hr hs),
          bit_xor-half r s,
          bit_xor-parity r s,
          gf_mul_sum_fuel n a (r / 2) (s / 2) ha (omega arith) (omega arith) (omega arith)
              (omega arith),
          double-bit_xor (gf_mul a (r / 2)) (gf_mul a (s / 2))
              (gf_mul-lt a (r / 2) ha (omega arith)) (gf_mul-lt a (s / 2) ha (omega arith)),
          bit_xor-select (r % 2) (s % 2) a (omega arith) (omega arith),
          gf_mul-digit a r hr,
          gf_mul-digit a s hs,
        )
        (swap_middle _ _ _ _)
]

pub gf_mul-bit_xor :
    (a r s : ℕ)
    → a < 256
    → r < 256
    → s < 256
    → gf_mul a (bit_xor r s) ≡ bit_xor (gf_mul a r) (gf_mul a s)
gf_mul-bit_xor a r s ha hr hs = gf_mul_sum_fuel (r + s) a r s ha hr hs (omega arith) (omega arith)
