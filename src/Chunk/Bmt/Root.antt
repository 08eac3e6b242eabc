-- ===== src/Chunk/Bmt/Root.antt =====
-- src/conventions.rs: the root is that of the whole tree over the chunk.
use weeb.Prelude.{
  ℕ, ◌+◌, ◌-◌, ◌*◌, ◌/◌, ◌≤◌, ◌<◌, true, false, Bool-cases, if◌then◌else◌, ltb, leb, ◌==◌, none,
  some, List, [], ◌++◌, length, length-take, take, drop, get_or, replicate, ◌≡◌, refl, sym, ap, ◌∙◌,
  inl, inr, arith,
}
use weeb.Chunk.Keccak.{keccak256}
use weeb.Erasure.Tree.{chunk_size}
use weeb.Chunk.Bmt.{
  zero_section, zero_bmt_nodes, effective_len, hash_sections, hash_tail, hash_levels, bmt_root,
}
use weeb.Chunk.Bmt.Tree.{tree, hash_levels-tree, tree-replicate}
use weeb.Chunk.Bmt.Leaves.{
  leaves, leaves-append, leaves-nil, leaves-add, take-effective_len, take-hash_tail,
  length-hash_tail,
}

-- The root of the tree over 64 sections of 64 bytes, with zeros for the bytes that are missing, and
-- six levels of pairs above them.
abbrev pub full_root : List ℕ → List ℕ
full_root content = get_or (tree 6 (leaves 64 content)) 0 []

-- Only the bytes up to the last that is not zero matter.
leaves-effective :
    (content : List ℕ) → leaves 64 content ≡ leaves 64 (take (effective_len content) content)
leaves-effective content =
    let (le, parts) = take-effective_len content in
    ap (leaves 64) parts
    ∙ leaves-append 64 (length content - effective_len content)
        (take (effective_len content) content)

root_of_zeros :
    (content : List ℕ) → effective_len content ≡ 0 → get_or zero_bmt_nodes 6 [] ≡ full_root content
unfolding zero_bmt_nodes
root_of_zeros content e =
    let bare : leaves 64 content ≡ replicate 64 (keccak256 zero_section) =
      leaves-effective content ∙ ap (λ n. leaves 64 (take n content)) e ∙ leaves-nil 64 in
    rw (bare, tree-replicate 6 (keccak256 zero_section)) refl

-- The bytes that are in use, their sections, and the nodes of the lowest level.
abbrev written : List ℕ → List (List ℕ)
written bytes =
    hash_tail (length bytes / 64) (drop (64 * (length bytes / 64)) bytes)
      (hash_sections (length bytes / 64) bytes (replicate 64 (replicate 32 0)))

root_of_bytes :
    (bytes : List ℕ)
    → 0 < length bytes
    → length bytes ≤ 4096
    → get_or (hash_levels (take 6 zero_bmt_nodes) ((length bytes + 63) / 64) (written bytes)) 0 []
      ≡ get_or (tree 6 (leaves 64 bytes)) 0 []
unfolding zero_bmt_nodes
root_of_bytes bytes some_bytes fits =
    let occupied : ℕ = (length bytes + 63) / 64 in
    let left : ℕ = 64 - occupied in
    let total : occupied + left ≡ 64 = omega arith in
    let size =
      length-hash_tail (length bytes / 64) (drop (64 * (length bytes / 64)) bytes) bytes
        (replicate 64 (replicate 32 0)) in
    let lowest : take occupied (written bytes) ≡ leaves occupied bytes =
      take-hash_tail (length bytes / 64) bytes (replicate 64 (replicate 32 0)) (omega arith)
        (omega arith) (omega arith) in
    let all : take occupied (written bytes) ++ replicate left (keccak256 zero_section)
        ≡ leaves 64 bytes =
      ap (λ t. t ++ replicate left (keccak256 zero_section)) lowest
      ∙ sym (leaves-add occupied left bytes (omega arith))
      ∙ ap (λ n. leaves n bytes) total in
    hash_levels-tree 6 occupied left (written bytes) (keccak256 zero_section) (omega arith) total
      (omega arith)
    ∙ ap (λ t. get_or (tree 6 t) 0 []) all

-- The root of a chunk of at most 4096 bytes is that of the whole tree, although the source hashes
-- no section and no pair that holds nothing but zeros; a longer chunk has none.
pub bmt_root-full_root :
    (content : List ℕ)
    → bmt_root content
      ≡ (if leb (length content) chunk_size then some (full_root content) else none)
unfolding bmt_root
bmt_root-full_root content = elim (Bool-cases (ltb chunk_size (length content))) [
  | inl long ↦
      let l : leb (length content) chunk_size ≡ false = ground (arith, long) in rw (long, l) refl
  | inr short ↦
      let fits : length content ≤ 4096 = ground (arith, short) in
      let l : leb (length content) chunk_size ≡ true = ground (arith, fits) in
      let (le, parts) = take-effective_len content in
      elim (Bool-cases (effective_len content == 0)) [
        | inl z ↦
            let e : effective_len content ≡ 0 = ground (arith, z) in
            rw (short, l, z) (ap (λ r. some r) (root_of_zeros content e))
        | inr used ↦
            let bytes : List ℕ = take (effective_len content) content in
            let n : length bytes ≡ effective_len content =
              omega (arith, length-take (effective_len content) content) in
            let found =
              root_of_bytes bytes (ground (arith, used, n)) (omega arith)
              ∙ ap (λ t. get_or (tree 6 t) 0 []) (sym (leaves-effective content)) in
            rw (short, l, used) (ap (λ r. some r) (rw n at found))
      ]
]
