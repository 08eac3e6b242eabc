-- ===== src/Chunk/Bmt/Tree.antt =====
-- src/conventions.rs: the levels of the tree, with the nodes over nothing but zeros left out.
use weeb.Prelude.{
  ℕ, zero, suc, ◌+◌, ◌-◌, ◌*◌, ◌/◌, ◌%◌, ◌^◌, ◌≤◌, ◌<◌, Bool, true, false, Bool-cases,
  if◌then◌else◌, ◌==◌, List, [], ◌∷◌, ◌++◌, length, length-set, length-take, take, drop, get_or,
  set, replicate, ◌≡◌, refl, sym, ap, ◌∙◌, inl, inr, arith,
}
use mathlib.Core.List.{append-nil, append_assoc}
use native.Mathlib.Nat.{pow-suc, pow-zero}
use weeb.Chunk.Keccak.{keccak256}
use weeb.Chunk.Bmt.{zero_levels, hash_pairs, hash_levels}

-- The next level: the hashes of the pairs.
unfoldable pub pairs : List (List ℕ) → List (List ℕ)
pairs [] = []
pairs (x ∷ []) = []
pairs (x ∷ y ∷ nodes) = keccak256 (x ++ y) ∷ pairs nodes

unfoldable pub tree : ℕ → List (List ℕ) → List (List ℕ)
tree zero nodes = nodes
tree (suc n) nodes = tree n (pairs nodes)

pairs-append :
    (m : ℕ) (xs ys : List (List ℕ)) → length xs ≡ m + m → pairs (xs ++ ys) ≡ pairs xs ++ pairs ys
unfolding pairs
pairs-append m [] ys e = refl
pairs-append m (x ∷ []) ys e = absurd (omega arith)
pairs-append zero (x ∷ y ∷ xs) ys e = absurd (omega arith)
pairs-append (suc m) (x ∷ y ∷ xs) ys e =
    ap (◌∷◌ (keccak256 (x ++ y))) (pairs-append m xs ys (omega arith))

twice_suc : (m : ℕ) → suc m + suc m ≡ suc (suc (m + m))
twice_suc m = omega arith

pairs-replicate :
    (m : ℕ) (z : List ℕ) → pairs (replicate (m + m) z) ≡ replicate m (keccak256 (z ++ z))
unfolding pairs
pairs-replicate zero z = refl
pairs-replicate (suc m) z = rw (twice_suc m) (ap (◌∷◌ (keccak256 (z ++ z))) (pairs-replicate m z))

take-set_before :
    (n i : ℕ) (xs : List (List ℕ)) (v : List ℕ) → n ≤ i → take n (set xs i v) ≡ take n xs
take-set_before zero i xs v h = refl
take-set_before (suc n) i [] v h = refl
take-set_before (suc n) zero (x ∷ xs) v h = absurd (omega arith)
take-set_before (suc n) (suc i) (x ∷ xs) v h = ap (◌∷◌ x) (take-set_before n i xs v (omega arith))

take-set_last :
    (i : ℕ) (xs : List (List ℕ)) (v : List ℕ)
    → i < length xs
    → take (suc i) (set xs i v) ≡ take i xs ++ (v ∷ [])
take-set_last i [] v h = absurd (omega arith)
take-set_last zero (x ∷ xs) v h = refl
take-set_last (suc i) (x ∷ xs) v h = ap (◌∷◌ x) (take-set_last i xs v (omega arith))

drop-set_before :
    (n i : ℕ) (xs : List (List ℕ)) (v : List ℕ) → i < n → drop n (set xs i v) ≡ drop n xs
drop-set_before zero i xs v h = absurd (omega arith)
drop-set_before (suc n) i [] v h = refl
drop-set_before (suc n) zero (x ∷ xs) v h = refl
drop-set_before (suc n) (suc i) (x ∷ xs) v h = drop-set_before n i xs v (omega arith)

two_more :
    (n i : ℕ) (xs : List (List ℕ))
    → i + 1 < length xs
    → take (suc (suc n)) (drop i xs)
      ≡ get_or xs i [] ∷ (get_or xs (i + 1) [] ∷ take n (drop (i + 2) xs))
two_more n i [] h = absurd (omega arith)
two_more n zero (x ∷ []) h = absurd (omega arith)
two_more n zero (x ∷ y ∷ xs) h = refl
two_more n (suc i) (x ∷ xs) h =
    let a : suc i + 1 ≡ suc (i + 1) = omega arith in
    let b : suc i + 2 ≡ suc (i + 2) = omega arith in rw (a, b) (two_more n i xs (omega arith))

-- The loop over the pairs makes the next level in place.
hash_pairs-from :
    (m index : ℕ) (nodes : List (List ℕ))
    → 2 * index + (m + m) ≤ length nodes
    → take (index + m) (hash_pairs m index nodes)
      ≡ take index nodes ++ pairs (take (m + m) (drop (2 * index) nodes))
unfolding hash_pairs pairs
hash_pairs-from zero index nodes h =
    let z : index + 0 ≡ index = omega arith in rw z (sym (append-nil (take index nodes)))
hash_pairs-from (suc m) index nodes h =
    let node : List ℕ =
      keccak256 (get_or nodes (2 * index) [] ++ get_or nodes (2 * index + 1) []) in
    let nodes' : List (List ℕ) = set nodes index node in
    let a : index + suc m ≡ index + 1 + m = omega arith in
    let s : index + 1 ≡ suc index = omega arith in
    let b : 2 * (index + 1) ≡ 2 * index + 2 = omega arith in
    let rest : drop (2 * (index + 1)) nodes' ≡ drop (2 * index + 2) nodes =
      ap (λ k. drop k nodes') b ∙ drop-set_before (2 * index + 2) index nodes node (omega arith) in
    let first : take (index + 1) nodes' ≡ take index nodes ++ (node ∷ []) =
      ap (λ k. take k nodes') s ∙ take-set_last index nodes node (omega arith) in
    let ih = hash_pairs-from m (index + 1) nodes' (omega (arith, length-set nodes index node)) in
    ap (λ k. take k (hash_pairs m (index + 1) nodes')) a
    ∙ ih
    ∙ rw (first, rest, twice_suc m, two_more (m + m) (2 * index) nodes (omega arith))
        (append_assoc (take index nodes) (node ∷ [])
          (pairs (take (m + m) (drop (2 * index + 2) nodes))))

hash_pairs-pairs :
    (m : ℕ) (nodes : List (List ℕ))
    → m + m ≤ length nodes
    → take m (hash_pairs m 0 nodes) ≡ pairs (take (m + m) nodes)
hash_pairs-pairs m nodes h =
    let z : 0 + m ≡ m = omega arith in rw z at (hash_pairs-from m 0 nodes (omega arith))

-- The nodes of a level that are in use, with the same hash for all that are left out.
abbrev completed : ℕ → List (List ℕ) → ℕ → List ℕ → List (List ℕ)
completed occupied nodes left zero_node = take occupied nodes ++ replicate left zero_node

-- One level, where an even number of nodes is in use.
level_even :
    (m k : ℕ) (nodes : List (List ℕ)) (z : List ℕ)
    → m + m ≤ length nodes
    → pairs (completed (m + m) nodes (k + k) z)
      ≡ completed m (hash_pairs m 0 nodes) k (keccak256 (z ++ z))
level_even m k nodes z h =
    pairs-append m (take (m + m) nodes) (replicate (k + k) z)
      (omega (arith, length-take (m + m) nodes))
    ∙ rw (pairs-replicate k z, hash_pairs-pairs m nodes h) refl

snoc-append :
    (xs : List (List ℕ)) (k : ℕ) (z : List ℕ)
    → (xs ++ (z ∷ [])) ++ replicate k z ≡ xs ++ replicate (suc k) z
snoc-append xs k z = append_assoc xs (z ∷ []) (replicate k z)

-- One level, whatever the number is.
level_step :
    (occupied left half : ℕ) (nodes : List (List ℕ)) (z : List ℕ)
    → occupied + left ≡ half + half
    → half + half ≤ length nodes
    → pairs (completed occupied nodes left z)
      ≡ completed
          ((occupied + 1) / 2)
          (hash_pairs
            ((occupied + 1) / 2)
            0
            (if occupied % 2 == 0 then nodes else set nodes occupied z))
          (half - (occupied + 1) / 2)
          (keccak256 (z ++ z))
level_step occupied left half nodes z e room =
    let m : ℕ = (occupied + 1) / 2 in
    let k : ℕ = half - m in
    elim (Bool-cases (occupied % 2 == 0)) [
      | inl even ↦
          let o : occupied ≡ m + m = ground (arith, even) in
          let l : left ≡ k + k = omega arith in
          rw even (
            ap (λ (o : ℕ). pairs (completed o nodes left z)) o
            ∙ ap (λ (l : ℕ). pairs (completed (m + m) nodes l z)) l
            ∙ level_even m k nodes z (omega arith))
      | inr odd ↦
          let o : suc occupied ≡ m + m = ground (arith, odd) in
          let l : left ≡ suc (k + k) = omega arith in
          let filled : take (suc occupied) (set nodes occupied z)
              ≡ take occupied nodes ++ (z ∷ []) =
            take-set_last occupied nodes z (omega arith) in
          let same : completed occupied nodes left z
              ≡ completed (suc occupied) (set nodes occupied z) (k + k) z =
            ap (λ (l : ℕ). completed occupied nodes l z) l
            ∙ sym (snoc-append (take occupied nodes) (k + k) z)
            ∙ ap (λ t. t ++ replicate (k + k) z) (sym filled) in
          rw odd (
            ap pairs same
            ∙ ap (λ (o : ℕ). pairs (completed o (set nodes occupied z) (k + k) z)) o
            ∙ level_even m k (set nodes occupied z) z (omega (arith, length-set nodes occupied z)))
    ]

length-hash_pairs :
    (m index : ℕ) (nodes : List (List ℕ)) → length (hash_pairs m index nodes) ≡ length nodes
unfolding hash_pairs
length-hash_pairs zero index nodes = refl
length-hash_pairs (suc m) index nodes =
    length-hash_pairs m (index + 1) _
    ∙ length-set nodes index
        (keccak256 (get_or nodes (2 * index) [] ++ get_or nodes (2 * index + 1) []))

length-filled :
    (b : Bool) (nodes : List (List ℕ)) (i : ℕ) (z : List ℕ)
    → length (if b then nodes else set nodes i z) ≡ length nodes
length-filled true nodes i z = refl
length-filled false nodes i z = length-set nodes i z

get_or-take_first : (nodes : List (List ℕ)) → get_or (take 1 nodes ++ []) 0 [] ≡ get_or nodes 0 []
get_or-take_first [] = refl
get_or-take_first (x ∷ nodes) = refl

-- All levels: the root of the nodes that are in use is that of the whole tree.
pub hash_levels-tree :
    (n occupied left : ℕ) (nodes : List (List ℕ)) (z : List ℕ)
    → 0 < occupied
    → occupied + left ≡ 2 ^ n
    → 2 ^ n ≤ length nodes
    → get_or (hash_levels (zero_levels n z) occupied nodes) 0 []
      ≡ get_or (tree n (completed occupied nodes left z)) 0 []
unfolding hash_levels zero_levels tree
hash_levels-tree zero occupied left nodes z some_nodes e room =
    let p = pow-zero 2 in
    let o : occupied ≡ 1 = omega arith in
    let l : left ≡ 0 = omega arith in rw (o, l) (sym (get_or-take_first nodes))
hash_levels-tree (suc n) occupied left nodes z some_nodes e room =
    let p = pow-suc 2 n in
    let half : ℕ = 2 ^ n in
    let filled : List (List ℕ) = if occupied % 2 == 0 then nodes else set nodes occupied z in
    let size = length-filled (occupied % 2 == 0) nodes occupied z in
    let step = level_step occupied left half nodes z (omega arith) (omega arith) in
    hash_levels-tree n ((occupied + 1) / 2) (half - (occupied + 1) / 2)
      (hash_pairs ((occupied + 1) / 2) 0 filled) (keccak256 (z ++ z)) (omega arith) (omega arith)
      (omega (arith, length-hash_pairs ((occupied + 1) / 2) 0 filled))
    ∙ ap (λ t. get_or (tree n t) 0 []) (sym step)

-- A tree over nothing but the same node.
pub tree-replicate :
    (n : ℕ) (z : List ℕ) → tree n (replicate (2 ^ n) z) ≡ get_or (zero_levels (suc n) z) n [] ∷ []
unfolding tree zero_levels
tree-replicate zero z = refl
tree-replicate (suc n) z =
    let p : 2 ^ suc n ≡ 2 ^ n + 2 ^ n = omega (arith, pow-suc 2 n) in
    rw (p, pairs-replicate (2 ^ n) z) (tree-replicate n (keccak256 (z ++ z)))
