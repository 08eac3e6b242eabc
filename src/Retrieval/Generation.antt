-- ===== src/Retrieval/Generation.antt =====
-- src/retrieval_conventions.rs: generation numbers, compared as serial numbers modulo 2 ^ 64.
use weeb.Prelude.{
  ℕ, ◌+◌, ◌^◌, ◌<◌, max, Bool, true, false, not, ◌&&◌, ◌||◌, if◌then◌else◌, ltb, ◌==◌, wrapping_add,
  wrapping_sub, List, [], ◌∷◌, All, ◌≡◌, ◌≢◌, ◌⊎◌, refl, arith,
}

unfoldable pub next_nonzero_generation : ℕ → ℕ
next_nonzero_generation current = let next = wrapping_add current 1 in if next == 0 then 1 else next

unfoldable pub generation_is_newer : ℕ → ℕ → Bool
generation_is_newer candidate current =
    not (candidate == current) && ltb (wrapping_sub candidate current) (2 ^ 63)

unfoldable pub latest_registered_generation : ℕ → ℕ → ℕ
unfolding generation_is_newer
latest_registered_generation current candidate =
    if current == 0 || generation_is_newer candidate current then candidate else current

pub data PendingGenerationRelation : Type 0 where
  join reject_stale replace : PendingGenerationRelation

unfoldable pub pending_generation_relation : ℕ → ℕ → PendingGenerationRelation
unfolding generation_is_newer
pending_generation_relation pending candidate =
    if pending == candidate || pending == 0 || candidate == 0
    then join
    else if generation_is_newer candidate pending
    then replace
    else reject_stale

abbrev pub IsU64 : ℕ → Type 0
IsU64 n = n < 2 ^ 64

-- The next generation is a u64, is not 0, and is newer than the current one, also where the
-- counter wraps around.
pub next_nonzero_generation_newer :
    (current : ℕ)
    → IsU64 current
    → IsU64 (next_nonzero_generation current)
      × (next_nonzero_generation current ≢ 0)
      × (generation_is_newer (next_nonzero_generation current) current ≡ true)
unfolding next_nonzero_generation generation_is_newer
next_nonzero_generation_newer current h = ground arith

-- Of two generations exactly one is newer, unless they are the same or half the range apart; then
-- neither is.
pub generation_is_newer_cases :
    (a b : ℕ)
    → IsU64 a
    → IsU64 b
    → ((generation_is_newer a b ≡ true) × (generation_is_newer b a ≡ false))
      ⊎ ((generation_is_newer a b ≡ false) × (generation_is_newer b a ≡ true))
      ⊎ ((generation_is_newer a b ≡ false)
          × (generation_is_newer b a ≡ false)
          × ((a ≡ b) ⊎ (a + 2 ^ 63 ≡ b) ⊎ (b + 2 ^ 63 ≡ a)))
unfolding generation_is_newer
generation_is_newer_cases a b ha hb = ground arith

-- Below half the range, newer is greater.
pub generation_is_newer-ltb :
    (a b : ℕ) → a < 2 ^ 63 → b < 2 ^ 63 → generation_is_newer a b ≡ ltb b a
unfolding generation_is_newer
generation_is_newer-ltb a b ha hb = ground arith

-- A candidate replaces a pending generation only if the pending one, as a candidate, would be
-- rejected as stale.
pub replace_reject :
    (pending candidate : ℕ)
    → IsU64 pending
    → IsU64 candidate
    → pending_generation_relation pending candidate ≡ replace
    → pending_generation_relation candidate pending ≡ reject_stale
unfolding pending_generation_relation
replace_reject pending candidate hp hc h = ground arith

pub latest-max :
    (current candidate : ℕ)
    → current < 2 ^ 63
    → candidate < 2 ^ 63
    → latest_registered_generation current candidate ≡ max current candidate
unfolding latest_registered_generation
latest-max current candidate hc hd = ground arith

-- Registers a list of generations, one after the other.
abbrev pub register_all : ℕ → List ℕ → ℕ
register_all current [] = current
register_all current (g ∷ gs) = register_all (latest_registered_generation current g) gs

abbrev pub maximum : ℕ → List ℕ → ℕ
maximum m [] = m
maximum m (g ∷ gs) = maximum (max m g) gs

-- Generations below half the range may register in any order: the latest is their maximum.
pub register_all-maximum :
    (current : ℕ) (gs : List ℕ)
    → current < 2 ^ 63
    → All (λ g. g < 2 ^ 63) gs
    → register_all current gs ≡ maximum current gs
register_all-maximum current [] hc h = refl
register_all-maximum current (g ∷ gs) hc h =
    rw (latest-max current g hc h.0) (register_all-maximum (max current g) gs (omega arith) h.1)
