-- ===== src/Chunk/Keccak.antt =====
-- src/conventions.rs: `keccak256`. The state has 25 lanes of 64 bits.
use weeb.Prelude.{
  ℕ, zero, suc, ◌+◌, ◌-◌, ◌*◌, ◌/◌, ◌%◌, ◌^◌, bit_and, bit_or, bit_xor, List, [], ◌∷◌, ◌++◌, length,
  take, drop, get_or, set, replicate, from_le, to_le,
}

-- `!x`, and `rotate_left` by fewer bits than 64.
abbrev pub complement : ℕ → ℕ
complement x = 2 ^ 64 - 1 - x

unfoldable pub rotate_left : ℕ → ℕ → ℕ
rotate_left x n = x * 2 ^ n % 2 ^ 64 + x / 2 ^ (64 - n)

abbrev pub lane : List ℕ → ℕ → ℕ
lane a i = get_or a i 0

unfoldable pub complement_lanes : List ℕ → List ℕ → List ℕ
complement_lanes [] a = a
complement_lanes (i ∷ lanes) a = complement_lanes lanes (set a i (complement (lane a i)))

abbrev pub complemented : List ℕ
complemented = 1 ∷ 2 ∷ 8 ∷ 12 ∷ 17 ∷ 20 ∷ []

unfoldable pub column : List ℕ → ℕ → ℕ
column a x =
    bit_xor
      (bit_xor (bit_xor (bit_xor (lane a x) (lane a (x + 5))) (lane a (x + 10))) (lane a (x + 15)))
      (lane a (x + 20))

unfoldable pub differences : List ℕ → List ℕ
unfolding column rotate_left
differences a =
    bit_xor (column a 4) (rotate_left (column a 1) 1)
    ∷ bit_xor (column a 0) (rotate_left (column a 2) 1)
    ∷ bit_xor (column a 1) (rotate_left (column a 3) 1)
    ∷ bit_xor (column a 2) (rotate_left (column a 4) 1)
    ∷ bit_xor (column a 3) (rotate_left (column a 0) 1)
    ∷ []

-- A lane of the row that is being made.
unfoldable pub moved : List ℕ → List ℕ → ℕ → ℕ → ℕ
unfolding rotate_left
moved a d index rotation = rotate_left (bit_xor (lane a index) (get_or d (index % 5) 0)) rotation

-- What the five rows make of their lanes.
abbrev pub row_0 : ℕ → ℕ → ℕ → ℕ → ℕ → List ℕ
row_0 b0 b1 b2 b3 b4 =
    bit_xor b0 (bit_or b1 b2)
    ∷ bit_xor b1 (bit_or (complement b2) b3)
    ∷ bit_xor b2 (bit_and b3 b4)
    ∷ bit_xor b3 (bit_or b4 b0)
    ∷ bit_xor b4 (bit_and b0 b1)
    ∷ []

abbrev pub row_5 : ℕ → ℕ → ℕ → ℕ → ℕ → List ℕ
row_5 b0 b1 b2 b3 b4 =
    bit_xor b0 (bit_or b1 b2)
    ∷ bit_xor b1 (bit_and b2 b3)
    ∷ bit_xor b2 (bit_or b3 (complement b4))
    ∷ bit_xor b3 (bit_or b4 b0)
    ∷ bit_xor b4 (bit_and b0 b1)
    ∷ []

abbrev pub row_10 : ℕ → ℕ → ℕ → ℕ → ℕ → List ℕ
row_10 b0 b1 b2 b3 b4 =
    bit_xor b0 (bit_or b1 b2)
    ∷ bit_xor b1 (bit_and b2 b3)
    ∷ bit_xor b2 (bit_and (complement b3) b4)
    ∷ bit_xor (complement b3) (bit_or b4 b0)
    ∷ bit_xor b4 (bit_and b0 b1)
    ∷ []

abbrev pub row_15 : ℕ → ℕ → ℕ → ℕ → ℕ → List ℕ
row_15 b0 b1 b2 b3 b4 =
    bit_xor b0 (bit_and b1 b2)
    ∷ bit_xor b1 (bit_or b2 b3)
    ∷ bit_xor b2 (bit_or (complement b3) b4)
    ∷ bit_xor (complement b3) (bit_and b4 b0)
    ∷ bit_xor b4 (bit_or b0 b1)
    ∷ []

abbrev pub row_20 : ℕ → ℕ → ℕ → ℕ → ℕ → List ℕ
row_20 b0 b1 b2 b3 b4 =
    bit_xor b0 (bit_and (complement b1) b2)
    ∷ bit_xor (complement b1) (bit_or b2 b3)
    ∷ bit_xor b2 (bit_and b3 b4)
    ∷ bit_xor b3 (bit_or b4 b0)
    ∷ bit_xor b4 (bit_and b0 b1)
    ∷ []

-- `out[0][0] ^= round`.
abbrev pub xor_first : ℕ → List ℕ → List ℕ
xor_first round [] = []
xor_first round (x ∷ xs) = bit_xor x round ∷ xs

unfoldable pub keccak_round : List ℕ → ℕ → List ℕ
unfolding differences moved
keccak_round a round =
    let d = differences a in
    let b = moved a d in
    xor_first round (
      row_0 (b 0 0) (b 6 44) (b 12 43) (b 18 21) (b 24 14)
      ++ (row_5 (b 3 28) (b 9 20) (b 10 3) (b 16 45) (b 22 61)
          ++ (row_10 (b 1 1) (b 7 6) (b 13 25) (b 19 8) (b 20 18)
              ++ (row_15 (b 4 27) (b 5 36) (b 11 10) (b 17 15) (b 23 56)
                  ++ row_20 (b 2 62) (b 8 55) (b 14 39) (b 15 41) (b 21 2)))))

abbrev pub round_constants : List ℕ
round_constants =
    0x0000000000000001 ∷ 0x0000000000008082 ∷ 0x800000000000808a ∷ 0x8000000080008000
    ∷ 0x000000000000808b ∷ 0x0000000080000001 ∷ 0x8000000080008081 ∷ 0x8000000000008009
    ∷ 0x000000000000008a ∷ 0x0000000000000088 ∷ 0x0000000080008009 ∷ 0x000000008000000a
    ∷ 0x000000008000808b ∷ 0x800000000000008b ∷ 0x8000000000008089 ∷ 0x8000000000008003
    ∷ 0x8000000000008002 ∷ 0x8000000000000080 ∷ 0x000000000000800a ∷ 0x800000008000000a
    ∷ 0x8000000080008081 ∷ 0x8000000000008080 ∷ 0x0000000080000001 ∷ 0x8000000080008008 ∷ []

unfoldable pub keccak_rounds : List ℕ → List ℕ → List ℕ
unfolding keccak_round
keccak_rounds [] a = a
keccak_rounds (round ∷ rounds) a = keccak_rounds rounds (keccak_round a round)

unfoldable pub keccak_permute : List ℕ → List ℕ
unfolding complement_lanes keccak_rounds
keccak_permute a =
    complement_lanes complemented (keccak_rounds round_constants (complement_lanes complemented a))

-- The lanes are combined with so many chunks of eight bytes.
unfoldable pub absorb_words : ℕ → List ℕ → List ℕ → List ℕ
absorb_words zero state input = state
absorb_words (suc n) [] input = []
absorb_words (suc n) (x ∷ state) input =
    bit_xor x (from_le (take 8 input)) ∷ absorb_words n state (drop 8 input)

-- The bytes behind the last whole chunk.
unfoldable pub absorb_tail : List ℕ → ℕ → ℕ → List ℕ → List ℕ
absorb_tail state at index [] = state
absorb_tail state at index (byte ∷ bytes) =
    absorb_tail (set state at (bit_xor (lane state at) (byte * 2 ^ (index * 8)))) at (index + 1)
      bytes

-- The loop over the whole blocks, so many of them, and what is left of the input.
unfoldable pub absorb_blocks : ℕ → List ℕ → List ℕ → List ℕ
unfolding keccak_permute absorb_words
absorb_blocks zero state input = state
absorb_blocks (suc n) state input =
    absorb_blocks n (keccak_permute (absorb_words 17 state input)) (drop 136 input)

unfoldable pub pad : List ℕ → ℕ → List ℕ
pad state size =
    let first = set state (size / 8) (bit_xor (lane state (size / 8)) (2 ^ (size % 8 * 8))) in
    set first 16 (bit_xor (lane first 16) (2 ^ 63))

unfoldable pub keccak256 : List ℕ → List ℕ
unfolding absorb_blocks absorb_tail pad
keccak256 input =
    let rest = drop (length input / 136 * 136) input in
    let words = length rest / 8 in
    let state =
      absorb_words words (absorb_blocks (length input / 136) (replicate 25 0) input) rest in
    let out =
      keccak_permute (pad (absorb_tail state words 0 (drop (words * 8) rest)) (length rest)) in
    to_le 8 (lane out 0) ++ (to_le 8 (lane out 1) ++ (to_le 8 (lane out 2) ++ to_le 8 (lane out 3)))

of_nothing : List ℕ
unfolding keccak256
of_nothing = keccak256 []
