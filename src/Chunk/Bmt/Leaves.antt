-- ===== src/Chunk/Bmt/Leaves.antt =====
-- src/conventions.rs: the leaves of the tree, and the zeros at the end of a chunk.
use weeb.Prelude.{
  ℕ, zero, suc, ◌+◌, ◌-◌, ◌*◌, ◌/◌, ◌≤◌, ◌<◌, Bool-cases, ◌&&◌, ◌==◌, List, [], ◌∷◌, ◌++◌, length,
  length-drop, length-set, take, drop, replicate, ◌≡◌, refl, sym, ap, ◌∙◌, inl, inr, arith,
}
use weeb.Chunk.Keccak.{keccak256}
use weeb.Chunk.Bmt.{zero_section, section2_size, effective_len, hash_sections, hash_tail}

-- The first bytes, so many of them, with zeros for those that are missing.
abbrev pub padded : ℕ → List ℕ → List ℕ
padded zero xs = []
padded (suc n) [] = 0 ∷ padded n []
padded (suc n) (x ∷ xs) = x ∷ padded n xs

-- The hashes of so many sections.
unfoldable pub leaves : ℕ → List ℕ → List (List ℕ)
leaves zero content = []
leaves (suc n) content =
    keccak256 (padded section2_size content) ∷ leaves n (drop section2_size content)

pub length-leaves : (n : ℕ) (content : List ℕ) → length (leaves n content) ≡ n
unfolding leaves
length-leaves zero content = refl
length-leaves (suc n) content = ap suc (length-leaves n (drop section2_size content))

padded-nil : (n : ℕ) → padded n [] ≡ replicate n 0
padded-nil zero = refl
padded-nil (suc n) = ap (◌∷◌ 0) (padded-nil n)

padded-zeros : (n k : ℕ) → padded n (replicate k 0) ≡ padded n []
padded-zeros zero k = refl
padded-zeros (suc n) zero = refl
padded-zeros (suc n) (suc k) = ap (◌∷◌ 0) (padded-zeros n k)

padded-append : (n k : ℕ) (xs : List ℕ) → padded n (xs ++ replicate k 0) ≡ padded n xs
padded-append zero k xs = refl
padded-append (suc n) k [] = padded-zeros (suc n) k
padded-append (suc n) k (x ∷ xs) = ap (◌∷◌ x) (padded-append n k xs)

drop-replicate : (n k : ℕ) → drop {A = ℕ} n (replicate k 0) ≡ replicate (k - n) 0
drop-replicate zero k = let z : k - zero ≡ k = omega arith in rw z refl
drop-replicate (suc n) zero = let z : 0 - suc n ≡ 0 = omega arith in rw z refl
drop-replicate (suc n) (suc k) =
    let z : suc k - suc n ≡ k - n = omega arith in rw z (drop-replicate n k)

drop-append :
    (n k : ℕ) (xs : List ℕ)
    → drop n (xs ++ replicate k 0) ≡ drop n xs ++ replicate (k - (n - length xs)) 0
drop-append zero k xs = let z : k - (zero - length xs) ≡ k = omega arith in rw z refl
drop-append (suc n) k [] =
    let z : k - (suc n - length {A = ℕ} []) ≡ k - suc n = omega arith in
    rw z (drop-replicate (suc n) k)
drop-append (suc n) k (x ∷ xs) =
    let z : k - (suc n - length (x ∷ xs)) ≡ k - (n - length xs) = omega arith in
    rw z (drop-append n k xs)

-- Zeros at the end make no difference.
pub leaves-append : (n k : ℕ) (xs : List ℕ) → leaves n (xs ++ replicate k 0) ≡ leaves n xs
unfolding leaves
leaves-append zero k xs = refl
leaves-append (suc n) k xs =
    rw (padded-append 64 k xs, drop-append 64 k xs)
      (ap (◌∷◌ (keccak256 (padded 64 xs))) (leaves-append n (k - (64 - length xs)) (drop 64 xs)))

pub leaves-nil : (n : ℕ) → leaves n [] ≡ replicate n (keccak256 zero_section)
unfolding leaves
leaves-nil zero = refl
leaves-nil (suc n) = ap (◌∷◌ (keccak256 zero_section)) (leaves-nil n)

nil-drop : (n : ℕ) (xs : List ℕ) → length xs ≤ n → drop n xs ≡ []
nil-drop zero [] h = refl
nil-drop zero (x ∷ xs) h = absurd (omega arith)
nil-drop (suc n) [] h = refl
nil-drop (suc n) (x ∷ xs) h = nil-drop n xs (omega arith)

nil_of_length : (xs : List ℕ) → length xs ≤ 0 → xs ≡ []
nil_of_length [] h = refl
nil_of_length (x ∷ xs) h = absurd (omega arith)

-- The sections behind the last byte are all the same.
pub leaves-add :
    (n k : ℕ) (xs : List ℕ)
    → length xs ≤ 64 * n
    → leaves (n + k) xs ≡ leaves n xs ++ replicate k (keccak256 zero_section)
unfolding leaves
leaves-add zero k xs h =
    let z : zero + k ≡ k = omega arith in rw (z, nil_of_length xs (omega arith)) (leaves-nil k)
leaves-add (suc n) k xs h =
    let z : suc n + k ≡ suc (n + k) = omega arith in
    rw z (
      ap (◌∷◌ (keccak256 (padded 64 xs)))
        (leaves-add n k (drop 64 xs) (omega (arith, length-drop 64 xs))))

-- The bytes of a chunk are those up to the last that is not zero, and zeros.
pub take-effective_len :
    (content : List ℕ)
    → (effective_len content ≤ length content)
      × (content
          ≡ take (effective_len content) content
            ++ replicate (length content - effective_len content) 0)
unfolding effective_len
take-effective_len [] = (omega arith, refl)
take-effective_len (x ∷ xs) =
    let (le, parts) = take-effective_len xs in
    elim (Bool-cases (effective_len xs == 0 && x == 0)) [
      | inl both ↦
          let e : effective_len xs ≡ 0 = ground (arith, both) in
          let z : x ≡ 0 = ground (arith, both) in
          let n : suc (length xs) - 0 ≡ suc (length xs) = omega arith in
          let m : length xs - 0 ≡ length xs = omega arith in
          let same : x ∷ xs ≡ replicate (suc (length xs)) 0 =
            rw z (ap (◌∷◌ 0) (parts ∙ rw (e, m) refl)) in
          rw (both, n) (omega arith, same)
      | inr last ↦
          let s : effective_len xs + 1 ≡ suc (effective_len xs) = omega arith in
          let n : suc (length xs) - suc (effective_len xs) ≡ length xs - effective_len xs =
            omega arith in
          rw (last, s, n) (omega arith, ap (◌∷◌ x) parts)
    ]

padded-take : (n : ℕ) (xs : List ℕ) → n ≤ length xs → padded n xs ≡ take n xs
padded-take zero xs h = refl
padded-take (suc n) [] h = absurd (omega arith)
padded-take (suc n) (x ∷ xs) h = ap (◌∷◌ x) (padded-take n xs (omega arith))

padded-fill :
    (n : ℕ) (xs : List ℕ) → length xs ≤ n → xs ++ drop (length xs) (replicate n 0) ≡ padded n xs
padded-fill n [] h = sym (padded-nil n)
padded-fill zero (x ∷ xs) h = absurd (omega arith)
padded-fill (suc n) (x ∷ xs) h = ap (◌∷◌ x) (padded-fill n xs (omega arith))

drop-drop : (n : ℕ) (xs : List ℕ) → drop (64 * suc n) xs ≡ drop (64 * n) (drop 64 xs)
drop-drop n xs = let z : 64 * suc n ≡ 64 + 64 * n = omega arith in rw z (drop-add 64 (64 * n) xs)
  where
    drop-add : (a b : ℕ) (ys : List ℕ) → drop (a + b) ys ≡ drop b (drop a ys)
    drop-add zero b ys = let z : zero + b ≡ b = omega arith in rw z refl
    drop-add (suc a) b [] =
        let z : suc a + b ≡ suc (a + b) = omega arith in rw z (sym (nil-drop b [] (omega arith)))
    drop-add (suc a) b (y ∷ ys) =
        let z : suc a + b ≡ suc (a + b) = omega arith in rw z (drop-add a b ys)

-- The nodes that are written are the leaves, where the last section is not empty.
take-hash_tail-zero :
    (tail : List ℕ) (nodes : List (List ℕ))
    → length tail < 64
    → (length tail + 63) / 64 ≤ length nodes
    → take ((length tail + 63) / 64) (hash_tail 0 tail nodes)
      ≡ leaves ((length tail + 63) / 64) tail
unfolding hash_tail leaves
take-hash_tail-zero [] nodes h room = refl
take-hash_tail-zero (x ∷ tail) [] h room = absurd (omega arith)
take-hash_tail-zero (x ∷ tail) (y ∷ nodes) h room =
    let one : (suc (length tail) + 63) / 64 ≡ 1 = omega arith in
    rw (one, padded-fill 64 (x ∷ tail) (omega arith)) refl

hash_tail-suc :
    (n : ℕ) (tail : List ℕ) (x : List ℕ) (nodes : List (List ℕ))
    → hash_tail (suc n) tail (x ∷ nodes) ≡ x ∷ hash_tail n tail nodes
unfolding hash_tail
hash_tail-suc n [] x nodes = refl
hash_tail-suc n (y ∷ tail) x nodes = refl

pub take-hash_tail :
    (n : ℕ) (bytes : List ℕ) (nodes : List (List ℕ))
    → 64 * n ≤ length bytes
    → length bytes < 64 * n + 64
    → (length bytes + 63) / 64 ≤ length nodes
    → take
        ((length bytes + 63) / 64)
        (hash_tail n (drop (64 * n) bytes) (hash_sections n bytes nodes))
      ≡ leaves ((length bytes + 63) / 64) bytes
unfolding hash_sections leaves
take-hash_tail zero bytes nodes lo hi room = take-hash_tail-zero bytes nodes (omega arith) room
take-hash_tail (suc n) bytes [] lo hi room = absurd (omega arith)
take-hash_tail (suc n) bytes (x ∷ nodes) lo hi room =
    let d = length-drop 64 bytes in
    let c : (length bytes + 63) / 64 ≡ suc ((length (drop 64 bytes) + 63) / 64) = omega arith in
    rw
      (
        c,
        drop-drop n bytes,
        hash_tail-suc n (drop (64 * n) (drop 64 bytes)) (keccak256 (take 64 bytes))
            (hash_sections n (drop 64 bytes) nodes),
        padded-take 64 bytes (omega arith),
      )
      (ap (◌∷◌ (keccak256 (take 64 bytes)))
        (take-hash_tail n (drop 64 bytes) nodes (omega arith) (omega arith) (omega arith)))

length-hash_sections :
    (n : ℕ) (bytes : List ℕ) (nodes : List (List ℕ))
    → length (hash_sections n bytes nodes) ≡ length nodes
unfolding hash_sections
length-hash_sections zero bytes nodes = refl
length-hash_sections (suc n) bytes [] = refl
length-hash_sections (suc n) bytes (x ∷ nodes) =
    ap suc (length-hash_sections n (drop 64 bytes) nodes)

pub length-hash_tail :
    (n : ℕ) (tail bytes : List ℕ) (nodes : List (List ℕ))
    → length (hash_tail n tail (hash_sections n bytes nodes)) ≡ length nodes
unfolding hash_tail
length-hash_tail n [] bytes nodes = length-hash_sections n bytes nodes
length-hash_tail n (x ∷ tail) bytes nodes =
    length-set (hash_sections n bytes nodes) n _ ∙ length-hash_sections n bytes nodes
