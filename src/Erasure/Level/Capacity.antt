-- ===== src/Erasure/Level/Capacity.antt =====
-- src/erasure_coding.rs: parity counts grow with the shards, and `max_shards` is the greatest
-- group whose references fit one chunk.
use weeb.Prelude.{
  ℕ, ◌+◌, ◌*◌, ◌≤◌, ◌<◌, min, Bool, true, false, ◌&&◌, if◌then◌else◌, leb, List, [], ◌∷◌, ◌≡◌, ◌↔◌,
  refl, arith, All, dec_lt, holds_below, holds_below-at,
}
use weeb.Erasure.Level.{
  RedundancyLevel, none, medium, strong, insane, paranoid, erasure_table, find_parities, parities,
  max_shards,
}

-- Bytes of a group's references: 32 for each, and 64 for an encrypted data chunk.
unfoldable pub group_bytes : RedundancyLevel → Bool → ℕ → ℕ
group_bytes level encrypted shards =
    shards * (if encrypted then 64 else 32) + parities level shards encrypted * 32

-- From 128 shards on the count stays what it is at 128.
find_parities-min :
    (s : ℕ) (ts cs : List ℕ)
    → All (λ t. t ≤ 128) ts
    → find_parities (min s 128) ts cs ≡ find_parities s ts cs
unfolding find_parities
find_parities-min s [] cs h = refl
find_parities-min s (t ∷ ts) [] h = refl
find_parities-min s (t ∷ ts) (c ∷ cs) h = ground (arith, find_parities-min s ts cs)

table-le : (l : RedundancyLevel) (e : Bool) → All (λ t. t ≤ 128) (erasure_table l e).0
unfolding erasure_table
table-le none e = tt
table-le medium true = omega arith
table-le medium false = omega arith
table-le strong true = omega arith
table-le strong false = omega arith
table-le insane true = omega arith
table-le insane false = omega arith
table-le paranoid true = omega arith
table-le paranoid false = omega arith

parities-min : (l : RedundancyLevel) (e : Bool) (s : ℕ) → parities l (min s 128) e ≡ parities l s e
unfolding parities
parities-min l e s =
    ground (arith, find_parities-min s (erasure_table l e).0 (erasure_table l e).1 (table-le l e))

same : Bool → Bool → Bool
same true b = b
same false true = false
same false false = true

-- What the tables have to meet at one shard count.
row_ok : RedundancyLevel → Bool → ℕ → Bool
unfolding same
row_ok l e s =
    leb (parities l s e) (parities l (s + 1) e)
    && same (leb (group_bytes l e s) 4096) (leb s (max_shards l e))

rows_ok : (l : RedundancyLevel) (e : Bool) → holds_below (row_ok l e) 129 ≡ true
unfolding holds_below row_ok group_bytes parities max_shards
rows_ok none true = refl
rows_ok none false = refl
rows_ok medium true = refl
rows_ok medium false = refl
rows_ok strong true = refl
rows_ok strong false = refl
rows_ok insane true = refl
rows_ok insane false = refl
rows_ok paranoid true = refl
rows_ok paranoid false = refl

row : (l : RedundancyLevel) (e : Bool) (s : ℕ) → s < 129 → row_ok l e s ≡ true
row l e s h = holds_below-at (row_ok l e) 129 s h (rows_ok l e)

row_parts :
    (l : RedundancyLevel) (e : Bool) (s : ℕ)
    → row_ok l e s ≡ true
    → (parities l s e ≤ parities l (s + 1) e) × ((group_bytes l e s ≤ 4096) ↔ (s ≤ max_shards l e))
unfolding row_ok
row_parts l e s h = ground arith

-- One more data shard never lowers the parity count.
pub parities_mono : (l : RedundancyLevel) (e : Bool) (s : ℕ) → parities l s e ≤ parities l (s + 1) e
parities_mono l e s = elim (dec_lt s 128) [
  | yes p ↦ (row_parts l e s (row l e s (omega arith))).0
  | no p ↦
      let a : min s 128 ≡ 128 = omega arith in
      let b : min (s + 1) 128 ≡ 128 = omega arith in
      omega (arith, rw a at (parities-min l e s), rw b at (parities-min l e (s + 1)))
]

pub max_shards-le : (l : RedundancyLevel) (e : Bool) → max_shards l e ≤ 128
unfolding max_shards
max_shards-le l true = omega arith
max_shards-le l false = omega arith

-- A group's references fit the 4096 bytes of one chunk exactly if the group has no more than
-- `max_shards` data shards.
pub group_bytes_iff :
    (l : RedundancyLevel) (e : Bool) (s : ℕ) → (group_bytes l e s ≤ 4096) ↔ (s ≤ max_shards l e)
group_bytes_iff l e s = elim (dec_lt s 129) [
  | yes p ↦ (row_parts l e s (row l e s p)).1
  | no p ↦ (
    λ h. absurd (unfold group_bytes in ground arith),
    λ h. absurd (omega (arith, max_shards-le l e)),
  )
]

pub max_shards-pos : (l : RedundancyLevel) (e : Bool) → 2 ≤ max_shards l e
unfolding max_shards
max_shards-pos none true = omega arith
max_shards-pos none false = omega arith
max_shards-pos medium true = omega arith
max_shards-pos medium false = omega arith
max_shards-pos strong true = omega arith
max_shards-pos strong false = omega arith
max_shards-pos insane true = omega arith
max_shards-pos insane false = omega arith
max_shards-pos paranoid true = omega arith
max_shards-pos paranoid false = omega arith

pub parities-le :
    (l : RedundancyLevel) (e : Bool) (s : ℕ) → s ≤ max_shards l e → parities l s e ≤ 128
parities-le l e s h = let g = (group_bytes_iff l e s).1 h in unfold group_bytes in ground arith
