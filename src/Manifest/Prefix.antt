-- ===== src/Manifest/Prefix.antt =====
-- src/manifest.rs: common prefixes of paths, and paths cut into edges of at most 30 bytes.
use weeb.Prelude.{
  ℕ, zero, suc, ◌≤◌, ◌<◌, min, ◌||◌, if◌then◌else◌, ltb, ◌==◌, Bool-cases, Option, none, some, List,
  [], ◌∷◌, length, take, drop, take-append-drop, length-take, length-drop, All, ◌≡◌, refl, arith,
  inl, inr, ◌↔◌,
}
use mathlib.Core.List.{flatten}

abbrev pub mantaray_prefix_max_bytes : ℕ
mantaray_prefix_max_bytes = 30

-- The inner loop: how many of the first bytes match, up to a limit.
unfoldable pub matching_loop : ℕ → List ℕ → List ℕ → ℕ
matching_loop zero first path = 0
matching_loop (suc limit) [] path = 0
matching_loop (suc limit) (x ∷ xs) [] = 0
matching_loop (suc limit) (x ∷ xs) (y ∷ ys) =
    let rest = matching_loop limit xs ys in if x == y then suc rest else 0

-- The outer loop, over the paths that are left.
unfoldable pub prefix_loop : List ℕ → List (List ℕ) → ℕ → ℕ
unfolding matching_loop
prefix_loop first [] prefix_len = prefix_len
prefix_loop first (path ∷ paths) prefix_len =
    prefix_loop first paths (matching_loop (min prefix_len (length path)) first path)

unfoldable pub common_prefix_bytes : List (List ℕ) → Option (List ℕ)
unfolding prefix_loop
common_prefix_bytes [] = none
common_prefix_bytes (first ∷ paths) =
    let prefix_len = prefix_loop first paths (min (length first) mantaray_prefix_max_bytes) in
    if ltb 0 prefix_len then some (take prefix_len first) else none

-- The loop over the rest of the path; a piece takes a byte at least, so the bytes that are left
-- are rounds enough.
unfoldable pub split_loop : ℕ → List ℕ → List (List ℕ)
split_loop zero rest = []
split_loop (suc rounds) [] = []
split_loop (suc rounds) (x ∷ rest) =
    take mantaray_prefix_max_bytes (x ∷ rest)
    ∷ split_loop rounds (drop mantaray_prefix_max_bytes (x ∷ rest))

unfoldable pub split_prefix_bytes : List ℕ → ℕ → Option (List (List ℕ))
unfolding split_loop
split_prefix_bytes path first_capacity =
    if length path == 0 || first_capacity == 0 || ltb mantaray_prefix_max_bytes first_capacity
    then none
    else some (take first_capacity path ∷ split_loop (length path) (drop first_capacity path))

-- A piece of an edge is not empty, and no longer than a limit.
abbrev pub IsPiece : ℕ → List ℕ → Type 0
IsPiece limit piece = (0 < length piece) × (length piece ≤ limit)

split_loop-flatten :
    (rounds : ℕ) (rest : List ℕ)
    → length rest ≤ rounds
    → (flatten (split_loop rounds rest) ≡ rest) × All (IsPiece 30) (split_loop rounds rest)
unfolding split_loop flatten
split_loop-flatten zero [] h = (refl, tt)
split_loop-flatten zero (x ∷ rest) h = absurd (omega arith)
split_loop-flatten (suc rounds) [] h = (refl, tt)
split_loop-flatten (suc rounds) (x ∷ rest) h =
    let (whole, pieces) =
      split_loop-flatten rounds (drop 30 (x ∷ rest)) (omega (arith, length-drop 30 (x ∷ rest))) in
    (
      rw whole (take-append-drop 30 (x ∷ rest)),
      (
        (omega (arith, length-take 30 (x ∷ rest)), omega (arith, length-take 30 (x ∷ rest))),
        pieces,
      ),
    )

-- A path that is not empty is cut into pieces that make it up again. The first one has
-- `first_capacity` bytes at most, the others 30, and none is empty.
pub split_prefix_bytes-flatten :
    (path : List ℕ) (first_capacity : ℕ)
    → 0 < length path
    → 0 < first_capacity
    → first_capacity ≤ mantaray_prefix_max_bytes
    → (first : List ℕ) × (rest : List (List ℕ)) × (split_prefix_bytes path first_capacity
        ≡ some (first ∷ rest))
      × (flatten (first ∷ rest) ≡ path)
      × IsPiece first_capacity first
      × All (IsPiece mantaray_prefix_max_bytes) rest
unfolding split_prefix_bytes flatten
split_prefix_bytes-flatten path first_capacity some_path some_room few =
    let rest = drop first_capacity path in
    let (whole, pieces) =
      split_loop-flatten (length path) rest (omega (arith, length-drop first_capacity path)) in
    let len = length-take first_capacity path in
    (
      take first_capacity path,
      split_loop (length path) rest,
      ground arith,
      rw whole (take-append-drop first_capacity path),
      (omega (arith, len), omega (arith, len)),
      pieces,
    )

matching_loop-le : (limit : ℕ) (xs ys : List ℕ) → matching_loop limit xs ys ≤ limit
unfolding matching_loop
matching_loop-le zero xs ys = omega arith
matching_loop-le (suc limit) [] ys = omega arith
matching_loop-le (suc limit) (x ∷ xs) [] = omega arith
matching_loop-le (suc limit) (x ∷ xs) (y ∷ ys) = ground (arith, matching_loop-le limit xs ys)

-- Two paths agree on some number of bytes.
abbrev pub Agree : List ℕ → ℕ → List ℕ → Type 0
Agree first n path = (n ≤ length path) × (take n path ≡ take n first)

matching_loop-Agree : (limit n : ℕ) (xs ys : List ℕ) → n ≤ matching_loop limit xs ys → Agree xs n ys
unfolding matching_loop
matching_loop-Agree limit zero xs ys h = (omega arith, refl)
matching_loop-Agree zero (suc n) xs ys h = absurd (omega arith)
matching_loop-Agree (suc limit) (suc n) [] ys h = absurd (omega arith)
matching_loop-Agree (suc limit) (suc n) (x ∷ xs) [] h = absurd (omega arith)
matching_loop-Agree (suc limit) (suc n) (x ∷ xs) (y ∷ ys) h = elim (Bool-cases (x == y)) [
  | inl same ↦
      let (long, agree) = matching_loop-Agree limit n xs ys (ground arith) in
      let head : y ≡ x = ground arith in (omega arith, rw (head, agree) refl)
  | inr other ↦ absurd (ground arith)
]

matching_loop-most :
    (limit n : ℕ) (xs ys : List ℕ)
    → n ≤ limit
    → n ≤ length xs
    → Agree xs n ys
    → n ≤ matching_loop limit xs ys
unfolding matching_loop
matching_loop-most limit zero xs ys h l a = omega arith
matching_loop-most zero (suc n) xs ys h l a = absurd (omega arith)
matching_loop-most (suc limit) (suc n) [] ys h l a = absurd (omega arith)
matching_loop-most (suc limit) (suc n) (x ∷ xs) [] h l a = absurd (omega (arith, a.0))
matching_loop-most (suc limit) (suc n) (x ∷ xs) (y ∷ ys) h l (long, agree) =
    let head : y ≡ x = cc in
    let tail : take n ys ≡ take n xs = cc in
    ground (arith, matching_loop-most limit n xs ys (omega arith) (omega arith) (omega arith, tail))

prefix_loop_iff :
    (first : List ℕ) (paths : List (List ℕ)) (prefix_len n : ℕ)
    → prefix_len ≤ length first
    → (n ≤ prefix_loop first paths prefix_len) ↔ ((n ≤ prefix_len) × All (Agree first n) paths)
unfolding prefix_loop
prefix_loop_iff first [] prefix_len n h = (λ le. (le, tt), λ p. p.0)
prefix_loop_iff first (path ∷ paths) prefix_len n h =
    let limit : ℕ = min prefix_len (length path) in
    let m = matching_loop limit first path in
    let small = matching_loop-le limit first path in
    let ih = prefix_loop_iff first paths m n (omega arith) in
    (
      λ le.
          (let (few, rest) = ih.0 le in
            (omega arith, (matching_loop-Agree limit n first path few, rest))),
      λ p. ih.1 (
        matching_loop-most limit n first path (omega (arith, p.1.0.0)) (omega (arith, p.0)) p.1.0,
        p.1.1,
      ),
    )

abbrev pub common_len : List ℕ → List (List ℕ) → ℕ
common_len first paths = prefix_loop first paths (min (length first) mantaray_prefix_max_bytes)

-- The common prefix is the longest one of at most 30 bytes: a number of bytes is within its length
-- exactly if the first path has that many and every other path agrees with it on them. A common
-- prefix of no bytes is none.
pub common_prefix_bytes_lem :
    (first : List ℕ) (paths : List (List ℕ)) (n : ℕ)
    → (common_prefix_bytes (first ∷ paths) ≡ (
        if ltb 0 (common_len first paths)
        then some (take (common_len first paths) first)
        else none))
      × ((n ≤ common_len first paths)
          ↔ ((n ≤ min (length first) mantaray_prefix_max_bytes) × All (Agree first n) paths))
unfolding common_prefix_bytes
common_prefix_bytes_lem first paths n = (
  refl,
  prefix_loop_iff first paths (min (length first) mantaray_prefix_max_bytes) n (omega arith),
)
