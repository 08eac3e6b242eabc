-- ===== src/Prelude/Words.antt =====
-- Rust's fixed-width integers as native numbers. `u64` values are below 2 ^ 64; `usize` is the
-- 32-bit one of the wasm32 target that the library is built for.
use Prim.Native.Nat.{ℕ, ◌+◌, ◌-◌, ◌*◌, ◌%◌, ◌^◌, ◌<◌, min}
use mathlib.Core.Option.{Option, none, some}
use weeb.Prelude.Tests.{leb, if◌then◌else◌}

abbrev pub u64_max : ℕ
u64_max = 2 ^ 64 - 1

abbrev pub usize_max : ℕ
usize_max = 2 ^ 32 - 1

abbrev pub IsByte : ℕ → Type 0
IsByte b = b < 256

-- `saturating_add` and `saturating_mul`; `saturating_sub` is the subtraction of ℕ itself.
abbrev pub sat_add : ℕ → ℕ → ℕ
sat_add a b = min (a + b) u64_max

abbrev pub sat_mul : ℕ → ℕ → ℕ
sat_mul a b = min (a * b) u64_max

-- `checked_add`, `checked_mul` and `try_from` at the greatest value of the type.
abbrev pub checked_add : ℕ → ℕ → ℕ → Option ℕ
checked_add top a b = if leb (a + b) top then some (a + b) else none

abbrev pub checked_mul : ℕ → ℕ → ℕ → Option ℕ
checked_mul top a b = if leb (a * b) top then some (a * b) else none

abbrev pub checked_sub : ℕ → ℕ → Option ℕ
checked_sub a b = if leb b a then some (a - b) else none

abbrev pub try_from : ℕ → ℕ → Option ℕ
try_from top a = if leb a top then some a else none

-- `wrapping_add` and `wrapping_sub` of u64.
abbrev pub wrapping_add : ℕ → ℕ → ℕ
wrapping_add a b = (a + b) % 2 ^ 64

abbrev pub wrapping_sub : ℕ → ℕ → ℕ
wrapping_sub a b = (a + 2 ^ 64 - b) % 2 ^ 64
