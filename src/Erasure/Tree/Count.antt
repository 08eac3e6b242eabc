-- ===== src/Erasure/Tree/Count.antt =====
-- src/erasure_coding.rs: when `upload_tree_chunk_count` has an answer, and what it counts.
use weeb.Prelude.{
  ℕ, zero, suc, ◌+◌, ◌-◌, ◌*◌, ◌/◌, ◌%◌, ◌^◌, ◌≤◌, ◌<◌, max, Bool, false, ltb, none, some, u64_max,
  ◌≡◌, ◌↔◌, arith, inl, inr, ◌⊎◌, dec_le, dec_lt, ◌∙◌,
}
use native.Mathlib.Nat.{div-add-mod, mod-lt, pow-suc, pow-zero}
use weeb.Erasure.Level.{RedundancyLevel, parities, max_shards}
use weeb.Erasure.Level.Capacity.{max_shards-le, max_shards-pos, parities-le}
use weeb.Erasure.Tree.{tree_level, tree_loop, upload_tree_chunk_count, div_ceil, chunk_size}

div_unique : (a m q : ℕ) → 0 < m → q * m ≤ a → a < (q + 1) * m → a / m ≡ q
div_unique a m q pos lo hi = grind (arith, div-add-mod a m, mod-lt)

div_ceil_cases :
    (n m : ℕ)
    → 2 ≤ m
    → ((n % m ≡ 0) × (div_ceil n m ≡ n / m)) ⊎ ((0 < n % m) × (div_ceil n m ≡ n / m + 1))
div_ceil_cases n m hm = elim (dec_le 1 (n % m)) [
  | yes p ↦ inr (
    p,
    div_unique (n + (m - 1)) m (n / m + 1) (omega arith) (grind (arith, div-add-mod n m))
        (grind (arith, div-add-mod n m, mod-lt)),
  )
  | no p ↦ inl (
    omega arith,
    div_unique (n + (m - 1)) m (n / m) (omega arith) (grind (arith, div-add-mod n m))
        (grind (arith, div-add-mod n m, mod-lt)),
  )
]

div_le_half : (n m : ℕ) → 2 ≤ m → n / m * 2 + n % m ≤ n
div_le_half n m hm = grind (arith, div-add-mod n m)

div_ceil_shrinks : (n m : ℕ) → 2 ≤ m → 2 ≤ n → (div_ceil n m * 3 ≤ n * 2) × (1 ≤ div_ceil n m)
div_ceil_shrinks n m hm hn = grind (
  arith,
  div_ceil_cases n m hm,
  div_le_half n m hm,
  mod-lt n {m = m} (omega arith),
  div-add-mod n m,
)

-- The products of a round stay far below the checks' limit.
full_parities-le : (q p n : ℕ) → p ≤ 128 → q ≤ n → q * p ≤ n * 128
full_parities-le q p n hp hq = grind arith

module _ (l : RedundancyLevel) (e : Bool) (n m : ℕ) (hm : 2 ≤ m) (top : m ≤ 128) (lo : 2 ≤ n)
    (hi : n ≤ 2 ^ 52) (full : parities l m e ≤ 128) (partial : parities l (n % m) e ≤ 128) where
  tree_level_even : n % m ≡ 0 → tree_level l e m n ≡ some (n / m, n / m * parities l m e, n / m)
  unfolding tree_level
  tree_level_even r =
      ground (arith, full_parities-le (n / m) (parities l m e) n, div_le_half n m hm)

  tree_level_carrier :
      n % m ≡ 1 → tree_level l e m n ≡ some (n / m, n / m * parities l m e, n / m + 1)
  unfolding tree_level
  tree_level_carrier r = ground (
    arith,
    full_parities-le (n / m) (parities l m e) n,
    div_le_half n m hm,
    div_ceil_shrinks n m hm lo,
    div_ceil_cases n m hm,
  )

  tree_level_partial :
      2 ≤ n % m
      → tree_level l e m n
        ≡ some (n / m + 1, n / m * parities l m e + parities l (n % m) e, n / m + 1)
  unfolding tree_level
  tree_level_partial r = ground (
    arith,
    full_parities-le (n / m) (parities l m e) n,
    div_le_half n m hm,
    div_ceil_shrinks n m hm lo,
    div_ceil_cases n m hm,
    mod-lt n {m = m} (omega arith),
  )

  tree_level_total :
      (parents : ℕ) × (extra : ℕ) × (tree_level l e m n ≡ some (parents, extra, div_ceil n m))
      × (parents ≤ div_ceil n m)
      × (extra ≤ div_ceil n m * 128)
  tree_level_total = elim (div_ceil_cases n m hm) [
    | inl (r, c) ↦ (
      n / m,
      n / m * parities l m e,
      rw c (tree_level_even r),
      omega arith,
      rw c (full_parities-le (n / m) (parities l m e) (n / m) full (omega arith)),
    )
    | inr (r, c) ↦ elim (dec_le 2 (n % m)) [
      | yes p ↦ (
        n / m + 1,
        n / m * parities l m e + parities l (n % m) e,
        rw c (tree_level_partial p),
        omega arith,
        omega (arith, c, full_parities-le (n / m) (parities l m e) (n / m) full (omega arith)),
      )
      | no p ↦ (
        n / m,
        n / m * parities l m e,
        rw c (tree_level_carrier (omega arith)),
        omega arith,
        omega (arith, c, full_parities-le (n / m) (parities l m e) (n / m) full (omega arith)),
      )
    ]
  ]

pub div_ceil-le_iff : (n m c : ℕ) → 2 ≤ m → (div_ceil n m ≤ c) ↔ (n ≤ c * m)
div_ceil-le_iff n m c hm = (
  λ h. grind (arith, div_ceil_cases n m hm, div-add-mod n m, mod-lt n {m = m} (omega arith)),
  λ h. grind (arith, div_ceil_cases n m hm, div-add-mod n m, mod-lt n {m = m} (omega arith)),
)

pub pow_pos : (k m : ℕ) → 2 ≤ m → 1 ≤ m ^ k
pow_pos zero m h = omega (arith, pow-zero m)
pow_pos (suc k) m h = grind (arith, pow-suc m k, pow_pos k m h)

module _ (l : RedundancyLevel) (e : Bool) where
  round :
      (n : ℕ)
      → 2 ≤ n
      → n ≤ 2 ^ 52
      → (parents : ℕ) × (extra : ℕ) × (tree_level l e (max_shards l e) n
          ≡ some (parents, extra, div_ceil n (max_shards l e)))
        × (parents ≤ div_ceil n (max_shards l e))
        × (extra ≤ div_ceil n (max_shards l e) * 128)
  round n lo hi =
      let m = max_shards l e in
      let two = max_shards-pos l e in
      tree_level_total l e n m two (max_shards-le l e) lo hi (parities-le l e m (omega arith))
        (parities-le l e (n % m) (omega (arith, mod-lt n {m = m} (omega arith))))

  -- A round goes on with the next level and the chunks counted so far.
  tree_loop_next :
      (k n total parents extra : ℕ)
      → 2 ≤ n
      → total + parents + extra ≤ 2 ^ 62
      → tree_level l e (max_shards l e) n ≡ some (parents, extra, div_ceil n (max_shards l e))
      → tree_loop l e (max_shards l e) (suc k) n total
        ≡ tree_loop l e (max_shards l e) k (div_ceil n (max_shards l e)) (total + parents + extra)
  unfolding tree_loop
  tree_loop_next k n total parents extra lo room step = ground arith

  -- What a round leaves for the rest of the loop.
  round_room :
      (n total parents extra : ℕ)
      → 2 ≤ n
      → parents ≤ div_ceil n (max_shards l e)
      → extra ≤ div_ceil n (max_shards l e) * 128
      → (1 ≤ div_ceil n (max_shards l e))
        × (div_ceil n (max_shards l e) ≤ n)
        × (total + parents + extra + div_ceil n (max_shards l e) * 258 ≤ total + n * 258)
  round_room n total parents extra lo few more =
      omega (arith, div_ceil_shrinks n (max_shards l e) (max_shards-pos l e) lo)

  -- The loop ends with a count if the levels that are left can hold the chunks.
  tree_loop_fits :
      (k n total : ℕ)
      → 1 ≤ n
      → n ≤ 2 ^ 52
      → total + n * 258 ≤ 2 ^ 62
      → n ≤ max_shards l e ^ k
      → (t : ℕ) × (tree_loop l e (max_shards l e) k n total ≡ some t)
        × (total ≤ t)
        × (t ≤ total + n * 258)
  unfolding tree_loop
  tree_loop_fits zero n total lo hi room h =
      (total, ground (arith, pow-zero (max_shards l e)), omega arith, omega arith)
  tree_loop_fits (suc k) n total lo hi room h = elim (dec_le 2 n) [
    | no p ↦ (total, ground arith, omega arith, omega arith)
    | yes p ↦
        let m = max_shards l e in
        let (parents, extra, step, few, more) = round n p hi in
        let (a, b, c) = round_room n total parents extra p few more in
        let fits : div_ceil n m ≤ m ^ k =
          (div_ceil-le_iff n m (m ^ k) (max_shards-pos l e)).1 (rw pow-suc at h) in
        let (t, found, below, above) =
          tree_loop_fits k (div_ceil n m) (total + parents + extra) a (omega arith) (omega arith)
            fits in
        (
          t,
          tree_loop_next k n total parents extra p (omega arith) step ∙ found,
          omega arith,
          omega arith,
        )
  ]

  -- With more chunks than the levels can hold the loop gives up.
  tree_loop_rejects :
      (k n total : ℕ)
      → 1 ≤ n
      → n ≤ 2 ^ 52
      → total + n * 258 ≤ 2 ^ 62
      → max_shards l e ^ k < n
      → tree_loop l e (max_shards l e) k n total ≡ none
  unfolding tree_loop
  tree_loop_rejects zero n total lo hi room h = ground (arith, pow-zero (max_shards l e))
  tree_loop_rejects (suc k) n total lo hi room h =
      let m = max_shards l e in
      let two : 2 ≤ n =
        omega (arith, pow_pos k m (max_shards-pos l e), pow_pos (suc k) m (max_shards-pos l e)) in
      let (parents, extra, step, few, more) = round n two hi in
      let (a, b, c) = round_room n total parents extra two few more in
      let big : m ^ k < div_ceil n m = elim (dec_lt (m ^ k) (div_ceil n m)) [
        | yes p ↦ p
        | no p ↦ absurd (
            omega (
              arith,
              (div_ceil-le_iff n m (m ^ k) (max_shards-pos l e)).0 (omega arith),
              pow-suc m k,
            ))
      ] in
      tree_loop_next k n total parents extra two (omega arith) step
      ∙ tree_loop_rejects k (div_ceil n m) (total + parents + extra) a (omega arith) (omega arith)
          big

  module _ (data_length : ℕ) (fits : data_length ≤ u64_max) where
    -- For every length that a u64 can hold, an upload has a chunk count if its data chunks are no
    -- more than seven levels of full groups can hold; the count then is at least the number of
    -- data chunks and at most 259 times that.
    pub upload_tree_chunk_count_fits :
        max (div_ceil data_length chunk_size) 1 ≤ max_shards l e ^ 7
        → (t : ℕ) × (upload_tree_chunk_count data_length l e ≡ some t)
          × (max (div_ceil data_length chunk_size) 1 ≤ t)
          × (t ≤ max (div_ceil data_length chunk_size) 1 * 259)
    unfolding upload_tree_chunk_count
    upload_tree_chunk_count_fits h =
        let n : ℕ = max (div_ceil data_length chunk_size) 1 in
        let z : ltb (max_shards l e) 2 ≡ false = ground (arith, max_shards-pos l e) in
        let (t, run, a, b) = tree_loop_fits 7 n n (omega arith) (omega arith) (omega arith) h in
        (t, rw z run, a, omega arith)

    -- With more data chunks than seven levels of full groups can hold there is no count.
    pub upload_tree_chunk_count_rejects :
        max_shards l e ^ 7 < max (div_ceil data_length chunk_size) 1
        → upload_tree_chunk_count data_length l e ≡ none
    unfolding upload_tree_chunk_count
    upload_tree_chunk_count_rejects h =
        let n : ℕ = max (div_ceil data_length chunk_size) 1 in
        let z : ltb (max_shards l e) 2 ≡ false = ground (arith, max_shards-pos l e) in
        rw z (tree_loop_rejects 7 n n (omega arith) (omega arith) (omega arith) h)
