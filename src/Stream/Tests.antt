-- ===== src/Stream/Tests.antt =====
-- src/stream_conventions.rs: ranges, window keys and stages at concrete inputs.
use weeb.Prelude.{
  ℕ, ◌-◌, ◌≤◌, ◌<◌, min, ◌&&◌, if◌then◌else◌, ltb, leb, some, none, [], ◌∷◌, ◌++◌, ◌≡◌, refl, arith,
}
use weeb.Prelude.Text.{Text}
use weeb.Prelude.Decimal.{decimal}
use weeb.Prelude.Decimal
use weeb.Prelude.Text
use weeb.Stream.Range.{parse_range}
use weeb.Stream.Range
use weeb.Stream.Range.Formats.{after_unit, parse_range-bounds, parse_range_closed, parse_range_open}
use weeb.Stream.WindowKey.{window_key-injective}

-- "bytes=5-70" of 40 bytes.
abbrev some_range : Text
some_range = 98 ∷ (121 ∷ (116 ∷ (101 ∷ (115 ∷ (61 ∷ (53 ∷ (45 ∷ (55 ∷ (48 ∷ [])))))))))

some_range_parsed : parse_range some_range 40 ≡ some (5, 39)
unfolding parse_range Text.text_eq Range.parse_decimal Decimal.is_ascii_digit Decimal.parse_u64
some_range_parsed = refl

parse_range-bounds_example : (5 ≤ 39) × (39 < 40)
parse_range-bounds_example = parse_range-bounds some_range 40 5 39 some_range_parsed

parse_range_closed_example :
    parse_range (after_unit (decimal 5 ++ (45 ∷ decimal 70))) 40
    ≡ (if ltb 5 40 && leb 5 70 then some (5, min 70 (40 - 1)) else none)
parse_range_closed_example = parse_range_closed 40 5 70 (omega arith) (omega arith)

parse_range_open_example :
    parse_range (after_unit (decimal 5 ++ (45 ∷ []))) 40
    ≡ (if ltb 5 40 then some (5, 40 - 1) else none)
parse_range_open_example = parse_range_open 40 5 (omega arith)

-- An identity with a separator in it.
abbrev identity : Text
identity = 97 ∷ (124 ∷ (57 ∷ []))

abbrev file_size : ℕ
file_size = 9

window_key-injective_example :
    (identity ≡ 97 ∷ (124 ∷ (57 ∷ [])))
    × (file_size ≡ 9)
    × (file_size - 6 ≡ 3)
    × (file_size - 5 ≡ 4)
window_key-injective_example =
    window_key-injective identity (97 ∷ (124 ∷ (57 ∷ []))) file_size (file_size - 6) (file_size - 5)
      9 3 4
      (omega arith, (omega arith, (omega arith, (omega arith, (omega arith, (omega arith, tt))))))
      refl
