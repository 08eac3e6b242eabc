-- ===== src/Erasure/Span.antt =====
-- src/erasure_coding.rs: the redundancy level in the top byte of a chunk's span.
use weeb.Prelude.{
  ℕ, ◌-◌, ap, ◌^◌, ◌<◌, bit_and, bit_or, if◌then◌else◌, ltb, Option, List, [], ◌++◌, ◌≡◌, ◌≢◌, refl,
  arith, ◌>>=◌, set, get_or, get_range, get_range-append, to_le, from_le, length, from_le-to_le,
  true,
}
use weeb.Erasure.Level.{RedundancyLevel, none, medium, strong, insane, paranoid, as_u8, from_u8}

abbrev pub span_size : ℕ
span_size = 8

unfoldable pub encode_level : List ℕ → RedundancyLevel → List ℕ
encode_level span level = set span (span_size - 1) (bit_or 0x80 (as_u8 level))

unfoldable pub decode_span : List ℕ → Option (RedundancyLevel × ℕ)
decode_span span = do
  decoded ← get_range span 0 span_size
  let top = get_or decoded (span_size - 1) 0
  if ltb 0x80 top
      then (do
        level ← from_u8 (bit_and top 0x7f)
        Option.some (level, from_le (set decoded (span_size - 1) 0)))
      else Option.some (none, from_le decoded)

from_u8-as_u8 :
    (l : RedundancyLevel)
    → l ≢ none
    → from_u8 (bit_and (bit_or 0x80 (as_u8 l)) 0x7f) ≡ Option.some l
unfolding from_u8
from_u8-as_u8 none h = absurd (h refl)
from_u8-as_u8 medium h = refl
from_u8-as_u8 strong h = refl
from_u8-as_u8 insane h = refl
from_u8-as_u8 paranoid h = refl

level_byte : (l : RedundancyLevel) → l ≢ none → ltb 0x80 (bit_or 0x80 (as_u8 l)) ≡ true
level_byte none h = absurd (h refl)
level_byte medium h = refl
level_byte strong h = refl
level_byte insane h = refl
level_byte paranoid h = refl

decode_bytes :
    (span rest : List ℕ)
    → length span ≡ 8
    → decode_span (span ++ rest) ≡ (
        if ltb 0x80 (get_or span 7 0)
        then (do
          level ← from_u8 (bit_and (get_or span 7 0) 0x7f)
          Option.some (level, from_le (set span 7 0)))
        else Option.some (none, from_le span))
unfolding decode_span
decode_bytes span rest e = rw (get_range-append [] span rest 0 8 refl (omega arith)) refl

-- A level that is not `none` and a span below 2 ^ 56 come back from the eight bytes that carry
-- them, whatever payload follows.
pub decode_span-encode_level :
    (v : ℕ) (l : RedundancyLevel) (rest : List ℕ)
    → v < 2 ^ 56
    → l ≢ none
    → decode_span (encode_level (to_le 8 v) l ++ rest) ≡ Option.some (l, v)
unfolding encode_level to_le from_le
decode_span-encode_level v l rest hv hl =
    rw (decode_bytes (encode_level (to_le 8 v) l) rest refl, level_byte l hl, from_u8-as_u8 l hl)
      (ap (λ (k : ℕ). Option.some (l, k)) (omega (arith, from_le-to_le 7 v (omega arith))))

-- A span below 2 ^ 63 that carries no level comes back as it is, with the level `none`.
pub decode_span_plain :
    (v : ℕ) (rest : List ℕ) → v < 2 ^ 63 → decode_span (to_le 8 v ++ rest) ≡ Option.some (none, v)
unfolding to_le from_le
decode_span_plain v rest hv =
    let e : from_le (to_le 8 v) ≡ v = from_le-to_le 8 v (omega arith) in
    rw (decode_bytes (to_le 8 v) rest refl) (ground (arith, e))
