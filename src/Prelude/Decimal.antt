-- ===== src/Prelude/Decimal.antt =====
-- Decimal numbers in ASCII, as `format!` prints them and `str::parse::<u64>` reads them.
use weeb.Prelude.{
  ℕ, zero, suc, ◌+◌, ◌-◌, ◌*◌, ◌/◌, ◌%◌, ◌^◌, ◌≤◌, ◌<◌, Bool, true, ◌&&◌, if◌then◌else◌, ltb, leb,
  ◌==◌, Bool-cases, Option, none, some, ◌>>=◌, ◌>>◌, guard, List, [], ◌∷◌, ◌++◌, All, length,
  length-snoc, checked_add, checked_mul, u64_max, ◌≡◌, refl, sym, ap, ◌∙◌, inl, inr, arith,
}
use native.Mathlib.Nat.{div-add-mod, mod-lt, pow-suc, pow-zero}

unfoldable pub is_ascii_digit : ℕ → Bool
is_ascii_digit c = leb 48 c && leb c 57

-- The digits, over a bound of their number.
unfoldable pub decimal_digits : ℕ → ℕ → List ℕ
decimal_digits zero n = []
decimal_digits (suc left) n =
    let front = decimal_digits left (n / 10) in
    if ltb n 10 then (48 + n) ∷ [] else front ++ ((48 + n % 10) ∷ [])

-- A u64 has 20 digits at most.
unfoldable pub decimal : ℕ → List ℕ
unfolding decimal_digits
decimal n = decimal_digits 20 n

unfoldable pub parse_digits : ℕ → List ℕ → Option ℕ
parse_digits value [] = some value
parse_digits value (c ∷ cs) = do
  guard (is_ascii_digit c)
  tens ← checked_mul u64_max value 10
  next ← checked_add u64_max tens (c - 48)
  parse_digits next cs

-- `str::parse::<u64>`, which also takes a plus sign before the digits.
unfoldable pub parse_u64 : List ℕ → Option ℕ
unfolding parse_digits
parse_u64 [] = none
parse_u64 (c ∷ []) = parse_digits 0 (c ∷ [])
parse_u64 (c ∷ (d ∷ ds)) =
    if c == 43 then parse_digits 0 (d ∷ ds) else parse_digits 0 (c ∷ (d ∷ ds))

parse_digits-snoc :
    (v c r : ℕ) (cs : List ℕ)
    → parse_digits v cs ≡ some r
    → is_ascii_digit c ≡ true
    → r * 10 + (c - 48) ≤ u64_max
    → parse_digits v (cs ++ (c ∷ [])) ≡ some (r * 10 + (c - 48))
unfolding parse_digits
parse_digits-snoc v c r [] h digit fits = ground arith
parse_digits-snoc v c r (x ∷ xs) h digit fits =
    ground (arith, parse_digits-snoc (v * 10 + (x - 48)) c r xs)

abbrev pub IsDigits : List ℕ → Type 0
IsDigits = All (λ c. is_ascii_digit c ≡ true)

snoc-IsDigits :
    (cs : List ℕ) (c : ℕ) → IsDigits cs → is_ascii_digit c ≡ true → IsDigits (cs ++ (c ∷ []))
snoc-IsDigits [] c h d = (d, tt)
snoc-IsDigits (x ∷ xs) c h d = (h.0, snoc-IsDigits xs c h.1 d)

decimal_digits-IsDigits : (left n : ℕ) → IsDigits (decimal_digits left n)
unfolding decimal_digits
decimal_digits-IsDigits zero n = tt
decimal_digits-IsDigits (suc left) n = elim (Bool-cases (ltb n 10)) [
  | inl small ↦ rw small (unfold is_ascii_digit in ground arith, tt)
  | inr big ↦ rw big (
      snoc-IsDigits _ _ (decimal_digits-IsDigits left (n / 10))
        (unfold is_ascii_digit in ground (arith, mod-lt n {m = 10} (omega arith))))
]

pub decimal-IsDigits : (n : ℕ) → IsDigits (decimal n)
unfolding decimal
decimal-IsDigits n = decimal_digits-IsDigits 20 n

parse_digits-decimal_digits :
    (left n : ℕ) → n < 10 ^ left → n ≤ u64_max → parse_digits 0 (decimal_digits left n) ≡ some n
unfolding decimal_digits
parse_digits-decimal_digits zero n h fits = unfold parse_digits in ground (arith, pow-zero 10)
parse_digits-decimal_digits (suc left) n h fits = elim (Bool-cases (ltb n 10)) [
  | inl small ↦ rw small (unfold parse_digits is_ascii_digit in ground arith)
  | inr big ↦ rw big (
      parse_digits-snoc 0 (48 + n % 10) (n / 10) (decimal_digits left (n / 10))
        (parse_digits-decimal_digits left (n / 10)
          (omega (arith, pow-suc 10 left, div-add-mod n 10)) (omega (arith, div-add-mod n 10)))
        (unfold is_ascii_digit in ground (arith, mod-lt n {m = 10} (omega arith)))
        (omega (arith, div-add-mod n 10))
      ∙ ap some (omega (arith, div-add-mod n 10)))
]

decimal_digits-pos : (left n : ℕ) → 0 < length (decimal_digits (suc left) n)
unfolding decimal_digits
decimal_digits-pos left n = elim (Bool-cases (ltb n 10)) [
  | inl small ↦ rw small (omega arith)
  | inr big ↦ rw big (omega (arith, length-snoc (decimal_digits left (n / 10)) (48 + n % 10)))
]

-- Digits have no sign.
parse_u64-digits : (cs : List ℕ) → IsDigits cs → 0 < length cs → parse_u64 cs ≡ parse_digits 0 cs
unfolding parse_u64
parse_u64-digits [] digits long = absurd (omega arith)
parse_u64-digits (c ∷ []) digits long = refl
parse_u64-digits (c ∷ (d ∷ ds)) digits long = unfold is_ascii_digit in ground arith

pub decimal-pos : (n : ℕ) → 0 < length (decimal n)
unfolding decimal
decimal-pos n = decimal_digits-pos 19 n

-- What is printed is read back.
pub parse_u64-decimal : (n : ℕ) → n ≤ u64_max → parse_u64 (decimal n) ≡ some n
parse_u64-decimal n fits =
    parse_u64-digits (decimal n) (decimal-IsDigits n) (decimal-pos n)
    ∙ (unfold decimal in parse_digits-decimal_digits 20 n (omega arith) fits)

-- Different numbers are printed differently.
pub decimal-injective : (m n : ℕ) → m ≤ u64_max → n ≤ u64_max → decimal m ≡ decimal n → m ≡ n
decimal-injective m n hm hn e =
    let same : some m ≡ some n =
      sym (parse_u64-decimal m hm) ∙ ap parse_u64 e ∙ parse_u64-decimal n hn in
    cc
