-- ===== src/Erasure/Gf256.antt =====
-- src/erasure_coding.rs: arithmetic in GF(256). `GF_MUL` is computed once and then read; an entry is
-- computed here from the earlier entries of its row, as the table is filled.
pub mod Digits
pub mod Sums
pub mod Laws
pub mod Instance
use weeb.Prelude.{
  ℕ, zero, suc, ◌+◌, ◌-◌, ◌*◌, ◌/◌, ◌%◌, bit_xor, Bool, if◌then◌else◌, ltb, ◌==◌, holds_below, true,
  ◌≡◌, refl,
}

-- `(half << 1) ^ if half & 0x80 == 0 { 0 } else { 0x1d }`, on bytes.
unfoldable pub double : ℕ → ℕ
double half = bit_xor (half * 2 % 256) (if half / 128 % 2 == 0 then 0 else 0x1d)

-- The fuel is above `right`, which falls from entry to entry.
unfoldable pub table_entry : ℕ → ℕ → ℕ → ℕ
table_entry zero left right = 0
table_entry (suc fuel) left right =
    let half = table_entry fuel left (right / 2) in
    let before = table_entry fuel left (right - 1) in
    if right == 0 then 0 else if right % 2 == 0 then double half else bit_xor before left

-- The first row is skipped, and stays zero.
unfoldable pub gf_mul : ℕ → ℕ → ℕ
gf_mul left right = if left == 0 then 0 else table_entry 256 left right

unfoldable pub square_steps : ℕ → ℕ → ℕ → ℕ
square_steps zero value inverse = inverse
square_steps (suc rounds) value inverse =
    square_steps rounds value (gf_mul (gf_mul inverse inverse) value)

-- The source panics at 0, which is divided by nowhere.
unfoldable pub gf_inverse : ℕ → ℕ
unfolding square_steps
gf_inverse value = let inverse = square_steps 6 value value in gf_mul inverse inverse
