-- ===== src/Erasure/Slices.antt =====
-- src/erasure_coding.rs: the windows in which a file is read for an upload.
use weeb.Prelude.{
  ℕ, zero, suc, ◌+◌, ◌*◌, ◌≤◌, ◌<◌, min, if◌then◌else◌, leb, Option, none, some, List, [], ◌∷◌, ◌≡◌,
  refl, arith, sat_add, u64_max, dec_lt, ap, false,
}

abbrev pub file_upload_read_window_bytes : ℕ
file_upload_read_window_bytes = 4 * 1024 * 1024

pub record FileSlicePlan : Type 0 where
  pub size : ℕ
  pub next : ℕ

unfoldable pub new_plan : ℕ → FileSlicePlan
new_plan size = record { size = size; next = 0 }

-- `Iterator::next`.
unfoldable pub next_slice : FileSlicePlan → FileSlicePlan × Option (ℕ × ℕ)
next_slice p =
    if leb p.size p.next
    then (p, none)
    else (let end = min (sat_add p.next file_upload_read_window_bytes) p.size in
        (record p { next = end }, some (p.next, end)))

abbrev pub then_slices :
    (FileSlicePlan → FileSlicePlan × List (ℕ × ℕ))
    → FileSlicePlan × Option (ℕ × ℕ)
    → FileSlicePlan × List (ℕ × ℕ)
then_slices rest (p, none) = (p, [])
then_slices rest (p, some s) = ((rest p).0, s ∷ (rest p).1)

-- What the iterator gives in so many calls, up to its first `None`, and the iterator after them.
unfoldable pub slices : ℕ → FileSlicePlan → FileSlicePlan × List (ℕ × ℕ)
slices zero p = (p, [])
slices (suc calls) p = then_slices (slices calls) (next_slice p)

-- Windows that follow on each other from `low` to `high`, none empty, and all but the last full.
abbrev pub AreTiles : ℕ → ℕ → List (ℕ × ℕ) → Type 0
AreTiles low high [] = low ≡ high
AreTiles low high ((start, end) ∷ rest) =
    (start ≡ low)
    × (start < end)
    × (end ≡ min (start + file_upload_read_window_bytes) high)
    × AreTiles end high rest

next_slice-finished : (p : FileSlicePlan) → p.size ≤ p.next → next_slice p ≡ (p, none)
unfolding next_slice
next_slice-finished p h = ground arith

next_slice-more :
    (p : FileSlicePlan)
    → p.next < p.size
    → p.size ≤ u64_max
    → next_slice p ≡ (
        let end = min (p.next + file_upload_read_window_bytes) p.size in
        (record p { next = end }, some (p.next, end)))
unfolding next_slice
next_slice-more p h top =
    let e : min (sat_add p.next file_upload_read_window_bytes) p.size
        ≡ min (p.next + file_upload_read_window_bytes) p.size =
      omega arith in
    let more : leb p.size p.next ≡ false = ground arith in rw (more, e)

slices-AreTiles :
    (calls : ℕ) (p : FileSlicePlan)
    → p.size ≤ u64_max
    → p.next ≤ p.size
    → p.size ≤ p.next + calls * file_upload_read_window_bytes
    → AreTiles p.next p.size (slices calls p).1 × ((next_slice (slices calls p).0).1 ≡ none)
unfolding slices
slices-AreTiles zero p top below enough =
    (omega arith, ap (λ r. r.1) (next_slice-finished p (omega arith)))
slices-AreTiles (suc calls) p top below enough = elim (dec_lt p.next p.size) [
  | no finished ↦
      let e = next_slice-finished p (omega arith) in
      rw (ap (then_slices (slices calls)) e) (omega arith, ap (λ r. r.1) e)
  | yes more ↦
      let end : ℕ = min (p.next + file_upload_read_window_bytes) p.size in
      let (tiles, over) =
        slices-AreTiles calls (record p { next = end }) top (omega arith) (omega arith) in
      rw (ap (then_slices (slices calls)) (next_slice-more p more top))
        ((refl, omega arith, refl, tiles), over)
]

-- The windows of a file cover its bytes from 0 to the end, one after the other; none is empty and
-- all but the last have 4 MiB. After them the iterator gives no more. Any number of calls that is
-- no less than the number of windows will do.
pub slices_lem :
    (size calls : ℕ)
    → size ≤ u64_max
    → size ≤ calls * file_upload_read_window_bytes
    → AreTiles 0 size (slices calls (new_plan size)).1
      × ((next_slice (slices calls (new_plan size)).0).1 ≡ none)
unfolding new_plan
slices_lem size calls top enough =
    slices-AreTiles calls (record { size = size; next = 0 }) top (omega arith) (omega arith)
