-- ===== src/Chain/Words.antt =====
-- src/on_chain_conventions.rs: what is read back from the words of a call or an answer.
use weeb.Prelude.{
  ℕ, ◌+◌, ◌^◌, ◌≤◌, ◌<◌, none, some, List, [], ◌∷◌, ◌++◌, length, length-append, length-drop,
  get_range, get_range-append, to_le, length-to_le, from_le-to_le, reverse, usize_max, ◌≡◌, refl,
  ap, ◌∙◌, arith,
}
use mathlib.Core.Path.{subst}
use mathlib.Core.List.{append_assoc, reverse-cons, reverse-reverse}
use weeb.Chain.{
  invalid_data, ok, err, from_be, uint_word, get_from, abi_word, abi_uint, abi_position, abi_bytes,
}

-- A word is found wherever 32 bytes of a text that is not empty start.
abi_word-get_range :
    (bytes : List ℕ) (offset : ℕ)
    → 0 < length bytes
    → abi_word bytes offset ≡ elim (get_range bytes offset (offset + 32)) [
      | none ↦ err invalid_data
      | some word ↦ ok word
    ]
unfolding abi_word get_from
abi_word-get_range [] offset h = absurd (omega arith)
abi_word-get_range (b ∷ bs) offset h = ground (arith, length-drop offset (b ∷ bs))

length-reverse_bytes : (xs : List ℕ) → length (reverse xs) ≡ length xs
length-reverse_bytes [] = refl
length-reverse_bytes (x ∷ xs) = omega (
  arith,
  ap length (reverse-cons x xs),
  length-append (reverse xs) (x ∷ []),
  length-reverse_bytes xs,
)

pub length-uint_word : (v : ℕ) → length (uint_word v) ≡ 32
unfolding uint_word
length-uint_word v = length-reverse_bytes (to_le 32 v) ∙ length-to_le 32 v

from_be-uint_word : (v : ℕ) → v < 2 ^ 256 → from_be (uint_word v) ≡ v
unfolding from_be uint_word
from_be-uint_word v h = rw (reverse-reverse (to_le 32 v)) (from_le-to_le 32 v (omega arith))

-- A number below 2 ^ 256 comes back from the word at its offset, whatever stands around it.
pub abi_uint-uint_word :
    (before after : List ℕ) (v : ℕ)
    → v < 2 ^ 256
    → abi_uint (before ++ (uint_word v ++ after)) (length before) ≡ ok v
unfolding abi_uint
abi_uint-uint_word before after v h =
    let l = length-uint_word v in
    let found =
      get_range-append before (uint_word v) after (length before) (length before + 32) refl
        (omega (arith, l)) in
    let long : 0 < length (before ++ (uint_word v ++ after)) =
      omega (
        arith,
        l,
        length-append before (uint_word v ++ after),
        length-append (uint_word v) after,
      ) in
    let word : abi_word (before ++ (uint_word v ++ after)) (length before) ≡ ok (uint_word v) =
      abi_word-get_range (before ++ (uint_word v ++ after)) (length before) long ∙ rw found refl in
    rw (word, abi_uint) (ap ok (from_be-uint_word v h))

abi_position-uint_word :
    (before after : List ℕ) (v : ℕ)
    → v < 2 ^ 32
    → abi_position (before ++ (uint_word v ++ after)) (length before) ≡ some v
unfolding abi_position
abi_position-uint_word before after v h =
    rw (abi_uint-uint_word before after v (omega arith)) (ground arith)

-- A byte string as a contract returns it: its offset, its length, and its bytes with padding.
unfoldable pub encoded_bytes : List ℕ → List ℕ → List ℕ
encoded_bytes content padding = uint_word 32 ++ (uint_word (length content) ++ (content ++ padding))

-- The bytes come back from their encoding, with any padding, if they end within a usize.
pub abi_bytes-encoded_bytes :
    (content padding : List ℕ)
    → 64 + length content ≤ usize_max
    → abi_bytes (encoded_bytes content padding) ≡ some content
unfolding abi_bytes encoded_bytes
abi_bytes-encoded_bytes content padding fits =
    let tail = content ++ padding in
    let len = uint_word (length content) in
    let place : abi_position (uint_word 32 ++ (len ++ tail)) 0 ≡ some 32 =
      abi_position-uint_word [] (len ++ tail) 32 (omega arith) in
    let size : abi_position (uint_word 32 ++ (len ++ tail)) 32 ≡ some (length content) =
      rw (length-uint_word 32) at
        (abi_position-uint_word (uint_word 32) tail (length content) (omega arith)) in
    let two : length (uint_word 32 ++ len) ≡ 64 = omega (
      arith,
      length-append (uint_word 32) len,
      length-uint_word 32,
      length-uint_word (length content),
    ) in
    let found =
      get_range-append (uint_word 32 ++ len) content padding 64 (64 + length content)
        (omega (arith, two)) (omega (arith, two)) in
    ground (
      arith,
      place,
      size,
      subst (λ (input : List ℕ). get_range input 64 (64 + length content) ≡ some content)
          (append_assoc (uint_word 32) len tail) found,
    )
