-- ===== src/Chunk/Proximity.antt =====
-- src/conventions.rs: `get_proximity`, the order of addresses that routing goes by.
use weeb.Prelude.{
  ℕ, zero, suc, ◌+◌, ◌-◌, ◌*◌, ◌/◌, ◌^◌, ◌≤◌, ◌<◌, min, bit_xor, false, Bool-cases, not,
  if◌then◌else◌, ◌==◌, List, [], ◌∷◌, length, take, All, IsByte, ◌≡◌, ◌↔◌, refl, sym, ap, ◌∙◌, inl,
  inr, dec_le, arith,
}
use native.Mathlib.Nat.{pow-suc, pow-zero, div-div-eq-div-mul}
use weeb.Prelude.Bits.{bit_xor-digit, bit_xor_cancel}

abbrev pub max_po : ℕ
max_po = 31

-- `leading_zeros` of a number of so many bits.
unfoldable pub leading_zeros : ℕ → ℕ → ℕ
leading_zeros zero d = 0
leading_zeros (suc bits) d =
    let rest = leading_zeros bits (d / 2) in if d == 0 then suc bits else rest

-- The loop over the bytes that are compared, with the index so far.
unfoldable pub proximity_loop : ℕ → ℕ → List ℕ → List ℕ → ℕ
proximity_loop zero index one other = max_po
proximity_loop (suc n) index [] other = max_po
proximity_loop (suc n) index (left ∷ one) [] = max_po
proximity_loop (suc n) index (left ∷ one) (right ∷ other) =
    let rest = proximity_loop n (index + 1) one other in
    if not (bit_xor left right == 0) then index * 8 + leading_zeros 8 (bit_xor left right) else rest

unfoldable pub get_proximity : List ℕ → List ℕ → ℕ
unfolding proximity_loop
get_proximity one other =
    let compared_bytes = min (min (max_po / 8 + 1) (length one)) (length other) in
    if compared_bytes == 0 then 0 else proximity_loop compared_bytes 0 one other

xor_half : (a b : ℕ) → bit_xor a b / 2 ≡ bit_xor (a / 2) (b / 2)
xor_half a b = omega (arith, bit_xor-digit a b)

xor_zero : (n a : ℕ) → a ≤ n → bit_xor a 0 ≡ a
xor_zero zero zero h = refl
xor_zero zero (suc a) h = absurd (omega arith)
xor_zero (suc n) a h = omega (arith, bit_xor-digit a 0, xor_zero n (a / 2) (omega arith))

zero_xor : (n a : ℕ) → a ≤ n → bit_xor 0 a ≡ a
zero_xor zero zero h = refl
zero_xor zero (suc a) h = absurd (omega arith)
zero_xor (suc n) a h = omega (arith, bit_xor-digit 0 a, zero_xor n (a / 2) (omega arith))

xor_self : (n a : ℕ) → a ≤ n → bit_xor a a ≡ 0
xor_self zero zero h = refl
xor_self zero (suc a) h = absurd (omega arith)
xor_self (suc n) a h = omega (arith, bit_xor-digit a a, xor_self n (a / 2) (omega arith))

eq_of_xor : (a b : ℕ) → bit_xor a b ≡ 0 → a ≡ b
eq_of_xor a b e = sym (bit_xor_cancel a b) ∙ ap (λ d. bit_xor d b) e ∙ zero_xor b b (omega arith)

-- The first bits of two numbers agree.
abbrev Agree : ℕ → ℕ → ℕ → ℕ → Type 0
Agree bits k x y = x / 2 ^ (bits - k) ≡ y / 2 ^ (bits - k)

div_step : (x m : ℕ) → x / 2 ^ suc m ≡ x / 2 / 2 ^ m
div_step x m =
    let p : 2 ^ suc m ≡ 2 * 2 ^ m = omega (arith, pow-suc 2 m) in
    rw p (sym (div-div-eq-div-mul x 2 (2 ^ m)))

leading_zeros-le : (bits d : ℕ) → leading_zeros bits d ≤ bits
unfolding leading_zeros
leading_zeros-le zero d = omega arith
leading_zeros-le (suc bits) d = ground (arith, leading_zeros-le bits (d / 2))

whole : (x : ℕ) → x / 2 ^ 0 ≡ x
whole x = omega arith

-- The zeros at the head of the difference of two numbers are the bits at their heads that agree.
leading_zeros_iff :
    (bits k x y : ℕ)
    → x < 2 ^ bits
    → y < 2 ^ bits
    → k ≤ bits
    → (k ≤ leading_zeros bits (bit_xor x y)) ↔ Agree bits k x y
unfolding leading_zeros
leading_zeros_iff zero k x y hx hy h =
    let p = pow-zero 2 in let e : x ≡ y = omega arith in (λ _. ap (λ v. v / 2 ^ (0 - k)) e, λ _. h)
leading_zeros_iff (suc bits) k x y hx hy h = elim (Bool-cases (bit_xor x y == 0)) [
  | inl z ↦
      let e = eq_of_xor x y (ground (arith, z)) in
      rw z (λ _. ap (λ v. v / 2 ^ (suc bits - k)) e, λ _. h)
  | inr nz ↦ elim (dec_le k bits) [
    | yes le ↦
        let s : suc bits - k ≡ suc (bits - k) = omega arith in
        let p = pow-suc 2 bits in
        let ih = leading_zeros_iff bits k (x / 2) (y / 2) (omega arith) (omega arith) le in
        rw (nz, s, xor_half x y, div_step x (bits - k), div_step y (bits - k)) ih
    | no top ↦
        let s : suc bits - k ≡ 0 = omega arith in
        rw (nz, s)
          (
            λ a. absurd (omega (arith, leading_zeros-le bits (bit_xor x y / 2))),
            λ a.
                let e : x ≡ y = sym (whole x) ∙ a ∙ whole y in
                absurd (ground (arith, nz, ap (bit_xor x) (sym e), xor_self x x (omega arith))),
          )
  ]
]

-- The first bits of two addresses agree, byte by byte.
abbrev pub AgreeBits : ℕ → List ℕ → List ℕ → Type 0
AgreeBits k [] other = Unit
AgreeBits k (left ∷ one) [] = Unit
AgreeBits k (left ∷ one) (right ∷ other) =
    (left / 2 ^ (8 - min k 8) ≡ right / 2 ^ (8 - min k 8)) × AgreeBits (k - 8) one other

AgreeBits-zero :
    (k : ℕ) (one other : List ℕ) → k ≡ 0 → All IsByte one → All IsByte other → AgreeBits k one other
AgreeBits-zero k [] other e b c = tt
AgreeBits-zero k (x ∷ one) [] e b c = tt
AgreeBits-zero k (x ∷ one) (y ∷ other) e b c =
    let z : min k 8 ≡ 0 = omega arith in
    (rw z (omega (arith, b.0, c.0)), AgreeBits-zero (k - 8) one other (omega arith) b.1 c.1)

All-take : (n : ℕ) (xs : List ℕ) → All IsByte xs → All IsByte (take n xs)
All-take zero xs h = tt
All-take (suc n) [] h = tt
All-take (suc n) (x ∷ xs) h = (h.0, All-take n xs h.1)

proximity_loop-ge :
    (n index : ℕ) (one other : List ℕ) → min (index * 8) 31 ≤ proximity_loop n index one other
unfolding proximity_loop
proximity_loop-ge zero index one other = omega arith
proximity_loop-ge (suc n) index [] other = omega arith
proximity_loop-ge (suc n) index (x ∷ one) [] = omega arith
proximity_loop-ge (suc n) index (x ∷ one) (y ∷ other) =
    ground (arith, proximity_loop-ge n (index + 1) one other)

some_bit : (d : ℕ) → (d == 0) ≡ false → leading_zeros 8 d ≤ 7
unfolding leading_zeros
some_bit d nz = rw (leading_zeros, nz) (leading_zeros-le 7 (d / 2))

proximity_loop-le :
    (n index : ℕ) (one other : List ℕ) → n + index ≤ 4 → proximity_loop n index one other ≤ 31
unfolding proximity_loop
proximity_loop-le zero index one other h = omega arith
proximity_loop-le (suc n) index [] other h = omega arith
proximity_loop-le (suc n) index (x ∷ one) [] h = omega arith
proximity_loop-le (suc n) index (x ∷ one) (y ∷ other) h = elim (Bool-cases (bit_xor x y == 0)) [
  | inl z ↦ rw (proximity_loop, z) (proximity_loop-le n (index + 1) one other (omega arith))
  | inr nz ↦ rw (proximity_loop, nz) (omega (arith, some_bit (bit_xor x y) nz))
]

module _ (n index k x y : ℕ) (one other : List ℕ) (bx : IsByte x) (by : IsByte y)
    (b : All IsByte one) (c : All IsByte other) where
  none_left : k ≤ 8 → AgreeBits (k - 8) (take n one) (take n other)
  none_left low =
      AgreeBits-zero (k - 8) (take n one) (take n other) (omega arith) (All-take n one b)
        (All-take n other c)

  -- Two bytes that differ end the comparison.
  differ_iff :
      (bit_xor x y == 0) ≡ false
      → (k + index * 8 ≤ index * 8 + leading_zeros 8 (bit_xor x y))
        ↔ AgreeBits k (x ∷ take n one) (y ∷ take n other)
  differ_iff nz =
      let zeros = leading_zeros-le 8 (bit_xor x y) in
      elim (dec_le k 8) [
        | yes low ↦
            let m : min k 8 ≡ k = omega arith in
            let iff = leading_zeros_iff 8 k x y (omega (arith, bx)) (omega (arith, by)) low in
            rw m (λ a. (iff.0 (omega arith), none_left low), λ a. omega (arith, iff.1 a.0))
        | no high ↦
            let m : 8 - min k 8 ≡ 0 = omega arith in
            rw m (
              λ a. absurd (omega arith),
              λ a.
                  let e : x ≡ y = sym (whole x) ∙ a.0 ∙ whole y in
                  absurd (ground (arith, nz, ap (bit_xor x) (sym e), xor_self x x (omega arith))),
            )
      ]

  -- Behind two bytes that agree, the comparison goes on.
  same_iff :
      bit_xor x y ≡ 0
      → k + index * 8 ≤ 31
      → ((k - 8 + (index + 1) * 8 ≤ 31)
          → (k - 8 + (index + 1) * 8 ≤ proximity_loop n (index + 1) one other)
            ↔ AgreeBits (k - 8) (take n one) (take n other))
      → (k + index * 8 ≤ proximity_loop n (index + 1) one other)
        ↔ AgreeBits k (x ∷ take n one) (y ∷ take n other)
  same_iff z h rest =
      let e = ap (λ v. v / 2 ^ (8 - min k 8)) (eq_of_xor x y z) in
      elim (dec_le k 8) [
        | yes low ↦
            (λ _. (e, none_left low), λ _. omega (arith, proximity_loop-ge n (index + 1) one other))
        | no high ↦
            let s : k - 8 + (index + 1) * 8 ≡ k + index * 8 = omega arith in
            let iff = rw s at (rest (omega arith)) in (λ a. (e, iff.0 a), λ a. iff.1 a.1)
      ]

-- The loop over so many bytes, where the addresses have them.
proximity_loop_iff :
    (n index k : ℕ) (one other : List ℕ)
    → n ≤ length one
    → n ≤ length other
    → All IsByte one
    → All IsByte other
    → k + index * 8 ≤ 31
    → (k + index * 8 ≤ proximity_loop n index one other) ↔ AgreeBits k (take n one) (take n other)
unfolding proximity_loop
proximity_loop_iff zero index k one other lo lo' b c h = (λ _. tt, λ _. h)
proximity_loop_iff (suc n) index k [] other lo lo' b c h = absurd (omega arith)
proximity_loop_iff (suc n) index k (x ∷ one) [] lo lo' b c h = absurd (omega arith)
proximity_loop_iff (suc n) index k (x ∷ one) (y ∷ other) lo lo' b c h =
    elim (Bool-cases (bit_xor x y == 0)) [
      | inl z ↦
          rw (proximity_loop, z)
            (same_iff n index k x y one other b.0 c.0 b.1 c.1 (ground (arith, z)) h (λ room.
              proximity_loop_iff n (index + 1) (k - 8) one other (omega arith) (omega arith) b.1 c.1
                room))
      | inr nz ↦ rw (proximity_loop, nz) (differ_iff n index k x y one other b.0 c.0 b.1 c.1 nz)
    ]

-- For two addresses of at least four bytes, the proximity is at least a number up to 31 exactly if
-- as many of their first bits agree; it is never above 31.
pub get_proximity_iff :
    (one other : List ℕ) (k : ℕ)
    → 4 ≤ length one
    → 4 ≤ length other
    → All IsByte one
    → All IsByte other
    → k ≤ max_po
    → ((k ≤ get_proximity one other) ↔ AgreeBits k (take 4 one) (take 4 other))
      × (get_proximity one other ≤ max_po)
unfolding get_proximity
get_proximity_iff one other k lo lo' b c h =
    let four : min (min 4 (length one)) (length other) ≡ 4 = omega arith in
    let z : k + 0 * 8 ≡ k = omega arith in
    let iff = rw z at (proximity_loop_iff 4 0 k one other lo lo' b c (omega arith)) in
    rw (get_proximity, four) (iff, proximity_loop-le 4 0 one other (omega arith))
