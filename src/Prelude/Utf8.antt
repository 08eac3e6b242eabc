-- ===== src/Prelude/Utf8.antt =====
-- `String::from_utf8`: which byte lists are the UTF-8 of a string. A string is modelled as its
-- bytes.
use Prim.Native.Nat.{ℕ, zero, suc}
use mathlib.Core.Bool.{Bool, true, false, ◌&&◌}
use mathlib.Core.List.{List, [], ◌∷◌}
use mathlib.Core.Option.{Option, none, some}
use weeb.Prelude.Tests.{ltb, leb, ◌==◌, if◌then◌else◌}

abbrev pub in_range : ℕ → ℕ → ℕ → Bool
in_range lo hi b = leb lo b && leb b hi

-- What may come next: a new character, or a byte between two bounds and then some further
-- continuation bytes.
pub data Utf8State : Type 0 where
  start : Utf8State
  next : ℕ → ℕ → ℕ → Utf8State

-- After a byte with `n` continuation bytes still to come.
utf8_rest : ℕ → Utf8State
utf8_rest zero = start
utf8_rest (suc n) = next 0x80 0xbf n

utf8_step : Utf8State → ℕ → Option Utf8State
unfolding utf8_rest
utf8_step (next lo hi n) b = if in_range lo hi b then some (utf8_rest n) else none
utf8_step start b =
    if ltb b 0x80
    then some start
    else if in_range 0xc2 0xdf b
    then some (next 0x80 0xbf 0)
    else if b == 0xe0
    then some (next 0xa0 0xbf 1)
    else if b == 0xed
    then some (next 0x80 0x9f 1)
    else if in_range 0xe1 0xef b
    then some (next 0x80 0xbf 1)
    else if b == 0xf0
    then some (next 0x90 0xbf 2)
    else if in_range 0xf1 0xf3 b
    then some (next 0x80 0xbf 2)
    else if b == 0xf4
    then some (next 0x80 0x8f 2)
    else none

utf8_run : Option Utf8State → List ℕ → Bool
unfolding utf8_step
utf8_run none bs = false
utf8_run (some start) [] = true
utf8_run (some (next lo hi n)) [] = false
utf8_run (some s) (b ∷ bs) = utf8_run (utf8_step s b) bs

unfoldable pub is_utf8 : List ℕ → Bool
unfolding utf8_run
is_utf8 bs = utf8_run (some start) bs

-- `String::from_utf8(bytes).unwrap_or_default()`.
unfoldable pub utf8_or_default : List ℕ → List ℕ
unfolding is_utf8
utf8_or_default bs = if is_utf8 bs then bs else []
