-- ===== src/Chunk/Tests.antt =====
-- src/conventions.rs: hashes and addresses at concrete inputs.
use weeb.Prelude.{
  Bool, Option, ◌++◌, take, arith, ℕ, ◌+◌, ◌≤◌, true, some, none, List, [], ◌∷◌, length, replicate,
  if◌then◌else◌, leb, ◌≡◌, ◌↔◌, refl, to_le, from_le,
}
use weeb.Chunk.Signer.{recover_address, valid_soc, valid_soc_iff, namehash}
use weeb.Chunk.Proximity.{max_po, leading_zeros, get_proximity, AgreeBits, get_proximity_iff}
use weeb.Chunk.Keccak.{keccak256}
use weeb.Erasure.Tree.{chunk_size}
use weeb.Erasure.Span.{span_size}
use weeb.Chunk.Bmt.{bmt_root}
use weeb.Chunk.Bmt.Root.{full_root, bmt_root-full_root}
use weeb.Chunk.Address.{valid_cac, chunk_hash, valid_cac_iff}

-- The hash of nothing, and of "abc".
keccak256-nil :
    from_le (keccak256 []) ≡ 0x70a4855d04d8fa7b3b2782ca53b600e5c003c7dcb27d7e923c23f7860146d2c5
unfolding keccak256 to_le from_le
keccak256-nil = refl

keccak256-abc :
    from_le (keccak256 (97 ∷ 98 ∷ 99 ∷ []))
    ≡ 0x456c2da18ff544ec36a0643ae3e6d1c067d6c826a87bd4c74fa945ea7a65034e
unfolding keccak256 to_le from_le
keccak256-abc = refl

abbrev bytes : List ℕ
bytes = replicate 70 7

abbrev address : List ℕ
address = replicate 32 1

bmt_root-full_root_example :
    bmt_root bytes ≡ (if leb (length bytes) chunk_size then some (full_root bytes) else none)
bmt_root-full_root_example = bmt_root-full_root bytes

valid_cac_iff_example : (valid_cac bytes address ≡ true) ↔ (
    (span_size ≤ length bytes)
    × (length bytes ≤ span_size + chunk_size)
    × (address ≡ chunk_hash bytes))
valid_cac_iff_example = valid_cac_iff bytes address

get_proximity_iff_example :
    ((12 ≤ get_proximity (5 ∷ 16 ∷ 0 ∷ 9 ∷ []) (5 ∷ 24 ∷ 1 ∷ 9 ∷ []))
      ↔ AgreeBits 12 (take 4 (5 ∷ 16 ∷ 0 ∷ 9 ∷ [])) (take 4 (5 ∷ 24 ∷ 1 ∷ 9 ∷ [])))
    × (get_proximity (5 ∷ 16 ∷ 0 ∷ 9 ∷ []) (5 ∷ 24 ∷ 1 ∷ 9 ∷ []) ≤ max_po)
get_proximity_iff_example =
    get_proximity_iff (5 ∷ 16 ∷ 0 ∷ 9 ∷ []) (5 ∷ 24 ∷ 1 ∷ 9 ∷ []) 12 (omega arith) (omega arith)
      (omega arith) (omega arith) (omega arith)

proximity_12 : get_proximity (5 ∷ 16 ∷ 0 ∷ 9 ∷ []) (5 ∷ 24 ∷ 1 ∷ 9 ∷ []) ≡ 12
unfolding get_proximity leading_zeros
proximity_12 = refl

-- The node of the name "eth".
namehash-eth :
    from_le (namehash (101 ∷ 116 ∷ 104 ∷ []))
    ≡ 0xaec43fa988cc0b0a69046fedd8cf331c9d16760128b98e66dc45758b70ebcd93
unfolding namehash keccak256 to_le from_le
namehash-eth = refl

abbrev owner_id : List ℕ
owner_id = replicate 32 1

abbrev zero_signature : List ℕ
zero_signature = replicate 65 0

abbrev wrapped : List ℕ
wrapped = replicate 20 7

-- A key that is read from the bytes that were signed.
abbrev read_slice : List ℕ → Option (List ℕ)
read_slice bytes = some bytes

abbrev keep : List ℕ → Option (List ℕ)
keep sig = none

abbrev read_key : List ℕ → List ℕ → Bool → Option (List ℕ)
read_key hash sig parity = some hash

abbrev key_bytes : List ℕ → List ℕ
key_bytes key = key

wrapped_long : span_size ≤ length wrapped
wrapped_long = omega arith

wrapped_short : length wrapped ≤ span_size + chunk_size
wrapped_short = omega arith

valid_soc_iff_example :
    (valid_soc read_slice keep read_key key_bytes (owner_id ++ (zero_signature ++ wrapped)) address
      ≡ true)
    ↔ ((owner : List ℕ) × (recover_address read_slice keep read_key key_bytes zero_signature
            (keccak256 (owner_id ++ chunk_hash wrapped))
          ≡ some owner)
        × (address ≡ keccak256 (owner_id ++ owner)))
valid_soc_iff_example =
    valid_soc_iff read_slice keep read_key key_bytes owner_id zero_signature wrapped address refl
      refl wrapped_long wrapped_short
