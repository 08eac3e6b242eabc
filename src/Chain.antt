-- ===== src/Chain.antt =====
-- src/on_chain_conventions.rs: the words of contract calls. keccak256 is a parameter, a U256 a
-- number below 2 ^ 256, an address its 20 bytes.
pub mod Words
mod Tests
use weeb.Prelude.{
  ℕ, ◌+◌, ◌-◌, ◌/◌, ◌^◌, Bool, true, ◌&&◌, if◌then◌else◌, ltb, leb, ◌==◌, Option, none, some, ◌>>=◌,
  ◌>>◌, guard, List, [], ◌∷◌, ◌++◌, length, take, drop, get_or, get_range, to_be, from_le, reverse,
  checked_add, usize_max,
}
use weeb.Prelude.Text.{Text}
use mathlib.Core.List.{flatten}

-- The two messages of `abi_word` and `abi_bool`.
pub data AbiError : Type 0 where
  invalid_name invalid_data : AbiError

pub data AbiResult (A : Type 0) : Type 0 where
  ok : A → AbiResult A
  err : AbiError → AbiResult A

-- `Result::ok`.
abbrev pub get_ok : {A : Type 0} → AbiResult A → Option A
get_ok (ok a) = some a
get_ok (err e) = none

-- `U256::from_big_endian`.
unfoldable pub from_be : List ℕ → ℕ
from_be bytes = from_le (reverse bytes)

unfoldable pub abi_call : (Text → List ℕ) → Text → List (List ℕ) → List ℕ
abi_call keccak256 signature parameters = take 4 (keccak256 signature) ++ flatten parameters

unfoldable pub uint_word : ℕ → List ℕ
uint_word value = to_be 32 value

unfoldable pub address_word : List ℕ → List ℕ
unfolding uint_word from_be
address_word address = uint_word (from_be address)

-- `bytes.get(offset..)`.
unfoldable pub get_from : List ℕ → ℕ → Option (List ℕ)
get_from bytes offset = if leb offset (length bytes) then some (drop offset bytes) else none

unfoldable pub abi_word : List ℕ → ℕ → AbiResult (List ℕ)
unfolding get_from
abi_word [] offset = err invalid_name
abi_word (b ∷ bs) offset = elim (do tail ← get_from (b ∷ bs) offset; get_range tail 0 32) [
  | none ↦ err invalid_data
  | some word ↦ ok word
]

unfoldable pub abi_uint : List ℕ → ℕ → AbiResult ℕ
unfolding from_be
abi_uint bytes offset = elim (abi_word bytes offset) [ err e ↦ err e | ok word ↦ ok (from_be word) ]

unfoldable pub all_zero : List ℕ → Bool
all_zero [] = true
all_zero (b ∷ bs) = b == 0 && all_zero bs

unfoldable pub abi_bool : List ℕ → AbiResult Bool
unfolding all_zero
abi_bool bytes = elim (abi_word bytes 0) [
  | err e ↦ err e
  | ok word ↦ if all_zero (take 31 word) then ok (get_or word 31 0 == 1) else err invalid_data
]

-- The closure `position` of `abi_bytes`.
unfoldable pub abi_position : List ℕ → ℕ → Option ℕ
abi_position bytes offset = do
  value ← get_ok (abi_uint bytes offset)
  guard (ltb value (2 ^ 32))
  some value

unfoldable pub abi_bytes : List ℕ → Option (List ℕ)
abi_bytes bytes = do
  offset ← abi_position bytes 0
  len ← abi_position bytes offset
  start ← checked_add usize_max offset 32
  end ← checked_add usize_max start len
  get_range bytes start end

-- The addition of U256 panics past its range, which is `none`.
unfoldable pub add_buffer : ℕ → Option ℕ
add_buffer gas = checked_add (2 ^ 256 - 1) gas (gas / 5)
