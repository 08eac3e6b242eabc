-- ===== src/Stream/Range/Formats.antt =====
-- src/stream_conventions.rs: what `parse_range` makes of each form of a range.
use weeb.Prelude.{
  ℕ, ◌-◌, ◌≤◌, ◌<◌, min, true, false, ◌&&◌, ◌||◌, if◌then◌else◌, ltb, leb, ◌==◌, none, some, ◌>>=◌,
  [], ◌∷◌, ◌++◌, length, ◌≡◌, refl, ◌∙◌, arith, u64_max, Option-cases, inl, inr, dec_le,
}
use weeb.Prelude.Text.{Text, text_eq}
use weeb.Prelude.Decimal.{
  is_ascii_digit, decimal, IsDigits, decimal-IsDigits, parse_u64-decimal, decimal-pos,
}
use weeb.Stream.Range.{
  split_once, contains, is_empty, all_digits, parse_decimal, suffix_range, bounded_range,
  parse_range, eq_ignore_ascii_case, to_ascii_lowercase,
}

suffix_range-bounds :
    (end : Text) (size a b : ℕ)
    → 0 < size
    → suffix_range end size ≡ some (a, b)
    → (a ≤ b) × (b < size)
unfolding suffix_range
suffix_range-bounds end size a b pos h = elim (Option-cases (parse_decimal end)) [
  | inl e ↦ absurd (ground (arith, e))
  | inr (n, e) ↦ ground (arith, e)
]

bounded_range-bounds :
    (start end : Text) (size a b : ℕ)
    → bounded_range start end size ≡ some (a, b)
    → (a ≤ b) × (b < size)
unfolding bounded_range
bounded_range-bounds start end size a b h = elim (Option-cases (parse_decimal start)) [
  | inl e ↦ absurd (ground (arith, e))
  | inr (n, e) ↦ elim (Option-cases (parse_decimal end)) [
    | inl f ↦ ground (arith, e, f)
    | inr (m, f) ↦ ground (arith, e, f)
  ]
]

-- A range that is accepted is not empty and lies within the resource.
pub parse_range-bounds :
    (range : Text) (size a b : ℕ) → parse_range range size ≡ some (a, b) → (a ≤ b) × (b < size)
unfolding parse_range
parse_range-bounds range size a b h = elim (Option-cases (split_once 61 range)) [
  | inl e ↦ absurd (ground (arith, e))
  | inr ((unit, spec), e) ↦ elim (Option-cases (split_once 45 spec)) [
    | inl f ↦ absurd (ground (arith, e, f))
    | inr ((start, end), f) ↦
        ground
          (arith, e, f, suffix_range-bounds end size a b, bounded_range-bounds start end size a b)
  ]
]

-- Digits have no separator in them.
split_once-digits :
    (sep : ℕ) (ds rest : Text)
    → is_ascii_digit sep ≡ false
    → IsDigits ds
    → split_once sep (ds ++ (sep ∷ rest)) ≡ some (ds, rest)
unfolding split_once
split_once-digits sep [] rest h d = ground arith
split_once-digits sep (c ∷ cs) rest h d = ground (arith, split_once-digits sep cs rest h d.1, d.0)

contains-digits :
    (sep : ℕ) (ds rest : Text)
    → is_ascii_digit sep ≡ false
    → IsDigits ds
    → contains sep (ds ++ rest) ≡ contains sep rest
unfolding contains
contains-digits sep [] rest h d = refl
contains-digits sep (c ∷ cs) rest h d = ground (arith, contains-digits sep cs rest h d.1, d.0)

digits-all : (ds : Text) → IsDigits ds → all_digits ds ≡ true
unfolding all_digits
digits-all [] d = refl
digits-all (c ∷ cs) d = ground (arith, digits-all cs d.1, d.0)

parse_decimal-decimal : (n : ℕ) → n ≤ u64_max → parse_decimal (decimal n) ≡ some n
unfolding parse_decimal
parse_decimal-decimal n h = rw (digits-all (decimal n) (decimal-IsDigits n)) (parse_u64-decimal n h)

not_empty : (ds rest : Text) → 0 < length ds → is_empty (ds ++ rest) ≡ false
not_empty [] rest h = absurd (omega arith)
not_empty (c ∷ cs) rest h = refl

-- "bytes=" before a text.
unfoldable pub after_unit : Text → Text
after_unit spec = 98 ∷ (121 ∷ (116 ∷ (101 ∷ (115 ∷ (61 ∷ spec)))))

parse_range-unit :
    (spec : Text) (size : ℕ)
    → is_empty spec ≡ false
    → contains 44 spec ≡ false
    → 0 < size
    → parse_range (after_unit spec) size ≡ (do
      (start, end) ← split_once 45 spec
      if is_empty start then suffix_range end size else bounded_range start end size)
unfolding parse_range after_unit split_once eq_ignore_ascii_case to_ascii_lowercase text_eq
parse_range-unit spec size some_spec single pos = ground arith

parse_range-empty : (spec : Text) → parse_range (after_unit spec) 0 ≡ none
unfolding parse_range after_unit split_once
parse_range-empty spec = ground arith

contains-none :
    (sep : ℕ) (ds : Text) → is_ascii_digit sep ≡ false → IsDigits ds → contains sep ds ≡ false
unfolding contains
contains-none sep [] h d = refl
contains-none sep (c ∷ cs) h d = ground (arith, contains-none sep cs h d.1, d.0)

is_empty-digits : (ds : Text) → 0 < length ds → is_empty ds ≡ false
is_empty-digits [] h = absurd (omega arith)
is_empty-digits (c ∷ cs) h = refl

closed_text : (a b : ℕ) → contains 44 (decimal a ++ (45 ∷ decimal b)) ≡ false
unfolding is_ascii_digit contains
closed_text a b =
    contains-digits 44 (decimal a) (45 ∷ decimal b) refl (decimal-IsDigits a)
    ∙ contains-none 44 (decimal b) refl (decimal-IsDigits b)

open_text : (a : ℕ) → contains 44 (decimal a ++ (45 ∷ [])) ≡ false
unfolding is_ascii_digit contains
open_text a = contains-digits 44 (decimal a) (45 ∷ []) refl (decimal-IsDigits a)

contains_minus : (n : ℕ) → contains 44 (45 ∷ decimal n) ≡ false
unfolding is_ascii_digit contains
contains_minus n = contains-none 44 (decimal n) refl (decimal-IsDigits n)

split_range :
    (a : ℕ) (rest : Text) → split_once 45 (decimal a ++ (45 ∷ rest)) ≡ some (decimal a, rest)
unfolding is_ascii_digit
split_range a rest = split_once-digits 45 (decimal a) rest refl (decimal-IsDigits a)

module _ (size : ℕ) where
  bounded_text :
      (a : ℕ) (rest : Text)
      → 0 < size
      → contains 44 (decimal a ++ (45 ∷ rest)) ≡ false
      → parse_range (after_unit (decimal a ++ (45 ∷ rest))) size
        ≡ bounded_range (decimal a) rest size
  bounded_text a rest pos single = ground (
    arith,
    parse_range-unit (decimal a ++ (45 ∷ rest)) size (not_empty (decimal a) _ (decimal-pos a))
        single pos,
    split_range a rest,
    is_empty-digits (decimal a) (decimal-pos a),
  )

  -- A range "bytes=a-b" in decimal is accepted exactly if it starts within the resource and does
  -- not end before it starts; an end behind the resource is cut off at the last byte.
  pub parse_range_closed :
      (a b : ℕ)
      → a ≤ u64_max
      → b ≤ u64_max
      → parse_range (after_unit (decimal a ++ (45 ∷ decimal b))) size
        ≡ (if ltb a size && leb a b then some (a, min b (size - 1)) else none)
  parse_range_closed a b ha hb = elim (dec_le 1 size) [
    | yes pos ↦
        bounded_text a (decimal b) pos (closed_text a b)
        ∙ unfold bounded_range in
          ground (
            arith,
            parse_decimal-decimal a ha,
            parse_decimal-decimal b hb,
            is_empty-digits (decimal b) (decimal-pos b),
          )
    | no p ↦
        let z : size ≡ 0 = omega arith in
        rw z (parse_range-empty (decimal a ++ (45 ∷ decimal b)) ∙ ground arith)
  ]

  -- A range "bytes=a-" gives all bytes from `a` on, if there are any.
  pub parse_range_open :
      (a : ℕ)
      → a ≤ u64_max
      → parse_range (after_unit (decimal a ++ (45 ∷ []))) size
        ≡ (if ltb a size then some (a, size - 1) else none)
  parse_range_open a ha = elim (dec_le 1 size) [
    | yes pos ↦
        bounded_text a [] pos (open_text a)
        ∙ unfold bounded_range in ground (arith, parse_decimal-decimal a ha)
    | no p ↦
        let z : size ≡ 0 = omega arith in
        rw z (parse_range-empty (decimal a ++ (45 ∷ [])) ∙ ground arith)
  ]

  -- A range "bytes=-n" gives the last `n` bytes, or all if there are fewer.
  pub parse_range_suffix :
      (n : ℕ)
      → n ≤ u64_max
      → parse_range (after_unit (45 ∷ decimal n)) size
        ≡ (if n == 0 || size == 0 then none else some (size - n, size - 1))
  parse_range_suffix n hn = elim (dec_le 1 size) [
    | yes pos ↦
        unfold split_once suffix_range contains in
        ground (
          arith,
          parse_range-unit (45 ∷ decimal n) size refl (contains_minus n) pos,
          parse_decimal-decimal n hn,
        )
    | no p ↦
        let z : size ≡ 0 = omega arith in rw z (parse_range-empty (45 ∷ decimal n) ∙ ground arith)
  ]
