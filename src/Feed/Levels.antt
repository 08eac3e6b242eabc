-- ===== src/Feed/Levels.antt =====
-- src/feed.rs: the levels of a wave, and their indices.
use weeb.Prelude.{
  ℕ, zero, suc, ◌+◌, ◌-◌, ◌%◌, ◌^◌, ◌≤◌, ◌<◌, true, Bool-cases, if◌then◌else◌, ltb, ltb→lt, none,
  some, List, All, checked_add, u64_max, ◌≡◌, refl, sym, ◌∙◌, inl, inr, dec_le, arith,
}
use mathlib.Core.List.{Permᴰ}
use mathlib.Core.Path.{subst}
use native.Mathlib.Nat.{pow-suc, pow-zero}
use weeb.Feed.{probe_index, effective_level_of, levels_down}
use weeb.Feed.Collect.{has}

pub pow_mono : (a b : ℕ) → a ≤ b → 2 ^ a ≤ 2 ^ b
pow_mono a zero h = let z : a ≡ 0 = omega arith in rw z (omega arith)
pow_mono a (suc b) h = elim (dec_le a b) [
  | yes le ↦ omega (arith, pow-suc 2 b, pow_mono a b le)
  | no top ↦ let z : a ≡ suc b = omega arith in rw z (omega arith)
]

pow_pos : (a : ℕ) → 0 < 2 ^ a
pow_pos a = omega (arith, pow_mono 0 a (omega arith), pow-zero 2)

-- The index of a level above a base.
abbrev pub index_at : ℕ → ℕ → ℕ
index_at base level = base + (2 ^ level - 1)

pub index_mono : (base a b : ℕ) → a ≤ b → index_at base a ≤ index_at base b
index_mono base a b h = omega (arith, pow_mono a b h)

pub probe_index-fits :
    (base level : ℕ)
    → level ≤ 8
    → index_at base level ≤ u64_max
    → probe_index base level ≡ some (index_at base level)
unfolding probe_index
probe_index-fits base level few fits =
    let small : 2 ^ level ≤ 256 = omega (arith, pow_mono level 8 few) in
    let m : 2 ^ level % 2 ^ 64 ≡ 2 ^ level = omega arith in
    let l : ltb level 64 ≡ true = ground arith in
    let c : checked_add u64_max base (2 ^ level - 1) ≡ some (index_at base level) = ground arith in
    rw (l, m) c

probe_index-large :
    (base level : ℕ) → level ≤ 8 → u64_max < index_at base level → probe_index base level ≡ none
unfolding probe_index
probe_index-large base level few large =
    let small : 2 ^ level ≤ 256 = omega (arith, pow_mono level 8 few) in
    let m : 2 ^ level % 2 ^ 64 ≡ 2 ^ level = omega arith in
    let l : ltb level 64 ≡ true = ground arith in
    let c : checked_add u64_max base (2 ^ level - 1) ≡ none = ground arith in rw (l, m) c

-- All levels of a wave have an index.
pub effective_level :
    (limit base : ℕ)
    → base < u64_max
    → limit ≤ 8
    → (index_at base (effective_level_of limit base) ≤ u64_max)
      × (0 < effective_level_of limit base)
      × (effective_level_of limit base ≤ 8)
unfolding effective_level_of
effective_level zero base room few = (omega arith, omega arith, omega arith)
effective_level (suc level) base room few = elim (dec_le (index_at base (suc level)) u64_max) [
  | yes fits ↦
      rw (effective_level_of, probe_index-fits base (suc level) few fits) (fits, omega arith, few)
  | no large ↦
      rw (effective_level_of, probe_index-large base (suc level) few (omega arith))
        (effective_level level base room (omega arith))
]

-- The order of completion loses no level.
pub All-perm : (P : ℕ → Type 0) {xs ys : List ℕ} → Permᴰ xs ys → All P ys → All P xs
All-perm P Permᴰ.nil h = h
All-perm P (Permᴰ.cons e d) h = (subst P (sym e) h.0, All-perm P d h.1)
All-perm P (Permᴰ.swap e f) h = (subst P (sym e) h.1.0, (subst P (sym f) h.0, h.1.1))
All-perm P (Permᴰ.trans d e) h = All-perm P d (All-perm P e h)

pub has-perm : (l : ℕ) {xs ys : List ℕ} → Permᴰ xs ys → has l xs ≡ has l ys
has-perm l Permᴰ.nil = refl
has-perm l (Permᴰ.cons e d) = ground (arith, e, has-perm l d)
has-perm l (Permᴰ.swap e f) = ground (arith, e, f)
has-perm l (Permᴰ.trans d e) = has-perm l d ∙ has-perm l e

pub levels_down-le : (n top : ℕ) → n ≤ top → All (λ l. l ≤ top) (levels_down n)
unfolding levels_down
levels_down-le zero top h = tt
levels_down-le (suc n) top h = (h, levels_down-le n top (omega arith))

pub has-levels_down : (n l : ℕ) → 0 < l → l ≤ n → has l (levels_down n) ≡ true
unfolding levels_down
has-levels_down zero l pos h = absurd (omega arith)
has-levels_down (suc n) l pos h = ground (arith, has-levels_down n l)

-- The highest level below a number whose index is an entry, or 0.
pub bound_of : ℕ → ℕ → ℕ → ℕ
bound_of zero base count = 0
bound_of (suc level) base count =
    if ltb (index_at base (suc level)) count then suc level else bound_of level base count

pub index_at-bound_of :
    (level base count : ℕ)
    → base < count
    → (bound_of level base count ≤ level) × (index_at base (bound_of level base count) < count)
unfolding bound_of
index_at-bound_of zero base count h = (omega arith, omega (arith, pow-zero 2))
index_at-bound_of (suc level) base count h =
    let (le, entry) = index_at-bound_of level base count h in
    elim (Bool-cases (ltb (index_at base (suc level)) count)) [
      | inl t ↦ rw (bound_of, t) (omega arith, ltb→lt _ _ t)
      | inr f ↦ rw (bound_of, f) (omega arith, entry)
    ]

pub bound_of-above :
    (level base count l : ℕ) → bound_of level base count < l → l ≤ level → count ≤ index_at base l
unfolding bound_of
bound_of-above zero base count l above h = absurd (omega arith)
bound_of-above (suc level) base count l above h =
    elim (Bool-cases (ltb (index_at base (suc level)) count)) [
      | inl t ↦ absurd (ground (arith, t, above))
      | inr f ↦ elim (dec_le l level) [
        | yes lower ↦ bound_of-above level base count l (ground (arith, f, above)) lower
        | no top ↦
            let e : l ≡ suc level = omega arith in
            let beyond : count ≤ index_at base (suc level) = ground (arith, f) in
            subst (λ (k : ℕ). count ≤ index_at base k) (sym e) beyond
      ]
    ]
