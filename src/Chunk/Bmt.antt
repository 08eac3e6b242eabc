-- ===== src/Chunk/Bmt.antt =====
-- src/conventions.rs: `bmt_root`. The bytes of a chunk are hashed in sections of 64, and the hashes
-- in pairs; where nothing but zeros is left, the source takes hashes that it has computed once.
pub mod Tree
pub mod Leaves
pub mod Root
use weeb.Prelude.{
  ℕ, zero, suc, ◌+◌, ◌-◌, ◌*◌, ◌/◌, ◌%◌, Bool, true, false, ◌&&◌, if◌then◌else◌, ltb, ◌==◌, Option,
  none, some, List, [], ◌∷◌, ◌++◌, length, take, drop, get_or, set, replicate,
}
use weeb.Erasure.Tree.{chunk_size}
use weeb.Chunk.Keccak.{keccak256}

abbrev pub section2_size : ℕ
section2_size = 64

abbrev pub bmt_leaf_count : ℕ
bmt_leaf_count = 64

abbrev pub bmt_level_count : ℕ
bmt_level_count = 7

-- So many hashes, each of the one before twice.
unfoldable pub zero_levels : ℕ → List ℕ → List (List ℕ)
zero_levels zero node = []
zero_levels (suc n) node = node ∷ zero_levels n (keccak256 (node ++ node))

abbrev pub zero_section : List ℕ
zero_section = replicate section2_size 0

unfoldable pub zero_bmt_nodes : List (List ℕ)
unfolding zero_levels
zero_bmt_nodes = zero_levels bmt_level_count (keccak256 zero_section)

-- One behind the last byte that is not zero.
unfoldable pub effective_len : List ℕ → ℕ
effective_len [] = 0
effective_len (x ∷ xs) = let rest = effective_len xs in if rest == 0 && x == 0 then 0 else rest + 1

-- The first nodes become the hashes of the whole sections.
unfoldable pub hash_sections : ℕ → List ℕ → List (List ℕ) → List (List ℕ)
hash_sections zero content nodes = nodes
hash_sections (suc n) content [] = []
hash_sections (suc n) content (x ∷ nodes) =
    keccak256 (take section2_size content) ∷ hash_sections n (drop section2_size content) nodes

-- The node behind them becomes the hash of the tail, filled up with zeros.
unfoldable pub hash_tail : ℕ → List ℕ → List (List ℕ) → List (List ℕ)
hash_tail n [] nodes = nodes
hash_tail n (x ∷ tail) nodes =
    set nodes n (keccak256 ((x ∷ tail) ++ drop (length (x ∷ tail)) zero_section))

-- The loop over the pairs, so many of them, from an index on.
unfoldable pub hash_pairs : ℕ → ℕ → List (List ℕ) → List (List ℕ)
hash_pairs zero index nodes = nodes
hash_pairs (suc m) index nodes =
    hash_pairs m (index + 1)
      (set nodes index (keccak256 (get_or nodes (2 * index) [] ++ get_or nodes (2 * index + 1) [])))

-- The loop over the levels, with the hash of zeros at each.
unfoldable pub hash_levels : List (List ℕ) → ℕ → List (List ℕ) → List (List ℕ)
unfolding hash_pairs
hash_levels [] occupied nodes = nodes
hash_levels (zero_node ∷ zeros) occupied nodes = hash_levels zeros ((occupied + 1) / 2) (
    hash_pairs ((occupied + 1) / 2) 0
      (if occupied % 2 == 0 then nodes else set nodes occupied zero_node))

unfoldable pub bmt_root : List ℕ → Option (List ℕ)
unfolding zero_bmt_nodes effective_len hash_sections hash_tail hash_levels
bmt_root content =
    let used = effective_len content in
    let sections = used / section2_size in
    let bytes = take used content in
    let nodes = hash_sections sections bytes (replicate bmt_leaf_count (replicate 32 0)) in
    let leaves = hash_tail sections (drop (section2_size * sections) bytes) nodes in
    if ltb chunk_size (length content)
    then none
    else if used == 0
    then some (get_or zero_bmt_nodes (bmt_level_count - 1) [])
    else some (
        get_or
          (hash_levels (take (bmt_level_count - 1) zero_bmt_nodes)
            ((used + (section2_size - 1)) / section2_size) leaves)
          0 [])
