-- ===== src/Erasure/Layout/Bounds.antt =====
-- src/erasure_coding.rs: `reference_layout` against the tree that it describes.
use weeb.Prelude.{
  ℕ, zero, suc, ◌*◌, ◌^◌, ◌≤◌, ◌<◌, Bool, some, u64_max, ◌≡◌, refl, arith, dec_le, ap,
}
use native.Mathlib.Nat.{pow-suc, pow-zero}
use weeb.Erasure.Level.{RedundancyLevel, parities, max_shards}
use weeb.Erasure.Level.Capacity.{
  group_bytes, group_bytes_iff, max_shards-le, max_shards-pos, parities-le,
}
use weeb.Erasure.Tree.{chunk_size, div_ceil}
use weeb.Erasure.Tree.Count.{div_ceil-le_iff, pow_pos}
use weeb.Erasure.Layout.{
  ReferenceLayout, grow_reference, reference_layout, encoded_reference_payload_len,
}

power_zero : (r b : ℕ) → r * b ^ 0 ≡ r
power_zero r b = rw pow-zero (omega arith)

power_suc : (r b k : ℕ) → r * b ^ suc k ≡ r * b * b ^ k
power_suc r b k = rw pow-suc (omega arith)

doubles : (r b span f : ℕ) → 2 ≤ b → span ≤ r * 2 ^ suc f → span ≤ r * b * 2 ^ f
doubles r b span f lo room = grind (arith, power_suc r 2 f)

-- The loop ends, at the greatest reference span below `span` that is a power of the branching
-- times the one it began with.
grow_reference_total :
    (f b span r : ℕ)
    → 2 ≤ b
    → b ≤ 128
    → span ≤ 2 ^ 56
    → r < span
    → span ≤ r * 2 ^ f
    → (k : ℕ) × (grow_reference f b span r ≡ some (r * b ^ k))
      × (r * b ^ k < span)
      × (span ≤ r * b ^ suc k)
unfolding grow_reference
grow_reference_total zero b span r lo hi top below room =
    absurd (omega (arith, rw pow-zero at room))
grow_reference_total (suc f) b span r lo hi top below room =
    let fits : r * b ≤ u64_max = grind arith in
    elim (dec_le span (r * b)) [
      | yes p ↦ (
        0,
        ground (arith, power_zero r b),
        omega (arith, power_zero r b),
        omega (arith, power_suc r b 0, power_zero (r * b) b),
      )
      | no p ↦
          let enough : span ≤ r * b * 2 ^ f = doubles r b span f lo room in
          let (k, run, a, c) =
            grow_reference_total f b span (r * b) lo hi top (omega arith) enough in
          (
            suc k,
            ground (arith, power_suc r b k),
            omega (arith, power_suc r b k),
            omega (arith, power_suc r b (suc k)),
          )
    ]

module _ (l : RedundancyLevel) (e : Bool) (span : ℕ) (above : chunk_size < span)
    (below : span ≤ 2 ^ 56) where
  -- The span of one reference, and the number of references of that span.
  layout_parts :
      (k : ℕ) × (r : ℕ) × (grow_reference 64 (max_shards l e) span chunk_size ≡ some r)
      × (r ≡ chunk_size * max_shards l e ^ k)
      × (r < span)
      × (1 < r)
      × (2 ≤ div_ceil span r)
      × (div_ceil span r ≤ max_shards l e)
  layout_parts =
      let b = max_shards l e in
      let two = max_shards-pos l e in
      let (k, run, small, large) =
        grow_reference_total 64 b span chunk_size two (max_shards-le l e) below above
          (omega arith) in
      let r = chunk_size * b ^ k in
      let one : 1 < r = omega (arith, pow_pos k b two) in
      let wide : span ≤ b * r =
        omega
          (arith, large, power_suc chunk_size b k, ap (λ (t : ℕ). chunk_size * t) (pow-suc b k)) in
      (
        k,
        r,
        run,
        refl,
        small,
        one,
        elim (dec_le 2 (div_ceil span r)) [
          | yes p ↦ p
          | no p ↦ absurd (omega (arith, (div_ceil-le_iff span r 1 one).0 (omega arith)))
        ],
        (div_ceil-le_iff span r b one).1 wide,
      )

  payload_len :
      (layout : ReferenceLayout)
      → reference_layout span l e ≡ some layout
      → layout.data_shards ≤ 128
      → parities l layout.data_shards e ≤ 128
      → layout.parity_shards ≡ parities l layout.data_shards e
      → encoded_reference_payload_len span l e ≡ some (group_bytes l e layout.data_shards)
  unfolding encoded_reference_payload_len group_bytes
  payload_len layout found few more same = ground arith

  -- For every span above one chunk and up to 2 ^ 56 bytes there is a layout. Each reference
  -- stands for a full subtree, whose span is a power of `max_shards` times the chunk size; the
  -- data references are as few as cover the span, between 2 and `max_shards`; the parity
  -- references are those of the level; and the payload has the bytes of both, at most a chunk's.
  pub reference_layout_total :
      (layout : ReferenceLayout) × (k : ℕ) × (reference_layout span l e ≡ some layout)
      × (layout.child_capacity ≡ chunk_size * max_shards l e ^ k)
      × (layout.data_shards ≡ div_ceil span layout.child_capacity)
      × (2 ≤ layout.data_shards)
      × (layout.data_shards ≤ max_shards l e)
      × (layout.parity_shards ≡ parities l layout.data_shards e)
      × (encoded_reference_payload_len span l e ≡ some (group_bytes l e layout.data_shards))
      × (group_bytes l e layout.data_shards ≤ chunk_size)
  unfolding reference_layout
  reference_layout_total =
      let (k, r, run, power, small, one, lo, hi) = layout_parts in
      let d = div_ceil span r in
      let few = max_shards-le l e in
      let p = parities-le l e d hi in
      let layout : ReferenceLayout = record {
        data_shards = d;
        parity_shards = parities l d e;
        child_capacity = r;
      } in
      let found : reference_layout span l e ≡ some layout = ground (arith, max_shards-pos l e) in
      (
        layout,
        k,
        found,
        power,
        refl,
        lo,
        hi,
        refl,
        payload_len layout found (omega arith) p refl,
        (group_bytes_iff l e d).1 hi,
      )
