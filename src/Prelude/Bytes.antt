-- ===== src/Prelude/Bytes.antt =====
-- Fixed-width integers as bytes, and slices of byte lists.
use Prim.Native.Nat.{ℕ, zero, suc, ◌+◌, ◌-◌, ◌*◌, ◌/◌, ◌%◌, ◌^◌, ◌<◌}
use mathlib.Core.Path.{◌≡◌, refl, sym, ap, ◌∙◌}
use mathlib.Core.List.{List, [], ◌∷◌, ◌++◌, reverse, append_assoc}
use mathlib.Core.Option.{Option, none, some}
use mathlib.Core.Bool.{true, ◌&&◌}
use native.Mathlib.Omega.{arith}
use weeb.Prelude.Tests.{leb, le→leb, if◌then◌else◌}
use weeb.Prelude.Words.{IsByte}
use weeb.Prelude.Lists.{
  length, take, drop, All, length-append, take-length-append, drop-length-append,
}

-- `to_le_bytes` of an n-byte integer.
unfoldable pub to_le : ℕ → ℕ → List ℕ
to_le zero v = []
to_le (suc n) v = v % 256 ∷ to_le n (v / 256)

-- `from_le_bytes`.
unfoldable pub from_le : List ℕ → ℕ
from_le [] = 0
from_le (b ∷ bs) = b + 256 * from_le bs

-- `to_be_bytes`.
abbrev pub to_be : ℕ → ℕ → List ℕ
to_be n v = reverse (to_le n v)

pub length-to_le : (n v : ℕ) → length (to_le n v) ≡ n
unfolding to_le
length-to_le zero v = refl
length-to_le (suc n) v = ap suc (length-to_le n (v / 256))

pub from_le-to_le : (n v : ℕ) → v < 256 ^ n → from_le (to_le n v) ≡ v
unfolding to_le from_le
from_le-to_le zero v h = omega arith
from_le-to_le (suc n) v h = omega (arith, from_le-to_le n (v / 256) (omega arith))

pub to_le-IsByte : (n v : ℕ) → All IsByte (to_le n v)
unfolding to_le
to_le-IsByte zero v = tt
to_le-IsByte (suc n) v = (omega arith, to_le-IsByte n (v / 256))

pub from_le-lt : (n : ℕ) (bs : List ℕ) → length bs ≡ n → All IsByte bs → from_le bs < 256 ^ n
unfolding from_le
from_le-lt zero [] e h = omega arith
from_le-lt zero (b ∷ bs) e h = absurd (omega arith)
from_le-lt (suc n) [] e h = absurd (omega arith)
from_le-lt (suc n) (b ∷ bs) e h = omega (arith, from_le-lt n bs (omega arith) h.1)

pub to_le-from_le : (bs : List ℕ) → All IsByte bs → to_le (length bs) (from_le bs) ≡ bs
unfolding to_le from_le
to_le-from_le [] h = refl
to_le-from_le (b ∷ bs) h =
    let m : (b + 256 * from_le bs) % 256 ≡ b = omega arith in
    let d : (b + 256 * from_le bs) / 256 ≡ from_le bs = omega arith in
    rw (m, d) (ap (◌∷◌ b) (to_le-from_le bs h.1))

-- `input.get(a..b)`.
abbrev pub get_range {ℓ} : {A : Type ℓ} → List A → ℕ → ℕ → Option (List A)
get_range input a b =
    if leb a b && leb b (length input) then some (take (b - a) (drop a input)) else none

module _ {ℓ} {A : Type ℓ} where
  pub get_range-append :
      (pre mid post : List A) (a b : ℕ)
      → a ≡ length pre
      → b ≡ length pre + length mid
      → get_range (pre ++ (mid ++ post)) a b ≡ some mid
  get_range-append pre mid post a b ha hb =
      let n : length (pre ++ (mid ++ post)) ≡ length pre + (length mid + length post) =
        length-append pre (mid ++ post) ∙ ap (λ (k : ℕ). length pre + k) (length-append mid post) in
      let p : leb (length pre) (length pre + length mid) ≡ true = le→leb _ _ (omega arith) in
      let q : leb (length pre + length mid) (length (pre ++ (mid ++ post))) ≡ true =
        le→leb _ _ (omega arith) in
      let d : length pre + length mid - length pre ≡ length mid = omega arith in
      rw (ha, hb, p, q, d, drop-length-append pre (mid ++ post), take-length-append mid post)

-- Reading a list from a cursor: `rest` is what stands at the cursor.
pub record IsAt {ℓ} {A : Type ℓ} (input : List A) (cursor : ℕ) (rest : List A) : Type ℓ where
  pub before : List A
  pub parts : input ≡ before ++ rest
  pub place : cursor ≡ length before

module _ {ℓ} {A : Type ℓ} where
  pub IsAt-start : (input : List A) → IsAt input 0 input
  IsAt-start input = record { before = []; parts = refl; place = refl }

  pub IsAt-skip :
      (input : List A) (cursor end : ℕ) (xs rest : List A)
      → end ≡ cursor + length xs
      → IsAt input cursor (xs ++ rest)
      → IsAt input end rest
  IsAt-skip input cursor end xs rest e at = record {
    before = at.before ++ xs;
    parts = at.parts ∙ sym (append_assoc at.before xs rest);
    place = omega (arith, length-append at.before xs, at.place);
  }

  pub get_range-IsAt :
      (input : List A) (cursor end : ℕ) (xs rest : List A)
      → end ≡ cursor + length xs
      → IsAt input cursor (xs ++ rest)
      → get_range input cursor end ≡ some xs
  get_range-IsAt input cursor end xs rest e at =
      rw (at.parts)
        (get_range-append at.before xs rest cursor end at.place (omega (arith, at.place)))

  pub IsAt-length :
      (input : List A) (cursor : ℕ) (rest : List A)
      → IsAt input cursor rest
      → length input ≡ cursor + length rest
  IsAt-length input cursor rest at =
      ap length at.parts ∙ length-append at.before rest ∙ omega (arith, at.place)
