-- ===== src/Stream/Range.antt =====
-- src/stream_conventions.rs: the byte range of an HTTP request. `Err(())` is `none`.
pub mod Formats
use weeb.Prelude.{
  ℕ, ◌+◌, ◌-◌, ◌≤◌, ◌<◌, min, Bool, true, false, not, ◌&&◌, ◌||◌, if◌then◌else◌, ltb, leb, ◌==◌,
  Option, none, some, ◌>>=◌, ◌>>◌, guard, List, [], ◌∷◌, map, ◌≡◌, arith,
}
use weeb.Prelude.Text.{Text, text_eq}
use weeb.Prelude.Decimal.{is_ascii_digit, parse_u64}

-- `split_once` at an ASCII character.
unfoldable pub split_once : ℕ → Text → Option (Text × Text)
split_once sep [] = none
split_once sep (c ∷ cs) =
    let rest = split_once sep cs in
    if c == sep then some ([], cs) else (do (before, after) ← rest; some (c ∷ before, after))

unfoldable pub contains : ℕ → Text → Bool
contains sep [] = false
contains sep (c ∷ cs) = c == sep || contains sep cs

abbrev pub is_empty : Text → Bool
is_empty [] = true
is_empty (c ∷ cs) = false

unfoldable pub to_ascii_lowercase : ℕ → ℕ
to_ascii_lowercase c = if leb 65 c && leb c 90 then c + 32 else c

unfoldable pub eq_ignore_ascii_case : Text → Text → Bool
unfolding to_ascii_lowercase
eq_ignore_ascii_case a b = text_eq (map to_ascii_lowercase a) (map to_ascii_lowercase b)

abbrev pub bytes_unit : Text
bytes_unit = 98 ∷ (121 ∷ (116 ∷ (101 ∷ (115 ∷ []))))

unfoldable pub all_digits : Text → Bool
all_digits [] = true
all_digits (c ∷ cs) = is_ascii_digit c && all_digits cs

unfoldable pub parse_decimal : Text → Option ℕ
unfolding all_digits
parse_decimal value = if all_digits value then parse_u64 value else none

-- The range "-suffix".
unfoldable pub suffix_range : Text → ℕ → Option (ℕ × ℕ)
suffix_range end size = do
  suffix ← parse_decimal end
  guard (not (suffix == 0))
  some (size - suffix, size - 1)

-- The ranges "start-end" and "start-".
unfoldable pub bounded_range : Text → Text → ℕ → Option (ℕ × ℕ)
bounded_range start_text end_text size = do
  start ← parse_decimal start_text
  guard (ltb start size)
  end ←
      if is_empty end_text
      then some (size - 1)
      else (do parsed ← parse_decimal end_text; some (min parsed (size - 1)))
  guard (not (ltb end start))
  some (start, end)

unfoldable pub parse_range : Text → ℕ → Option (ℕ × ℕ)
unfolding split_once contains eq_ignore_ascii_case suffix_range bounded_range
parse_range range size = do
  (unit, spec) ← split_once 61 range
  guard (
      eq_ignore_ascii_case unit bytes_unit
      && not (is_empty spec)
      && not (contains 44 spec)
      && not (size == 0))
  (start, end) ← split_once 45 spec
  if is_empty start then suffix_range end size else bounded_range start end size
