-- ===== src/Manifest/Node.antt =====
-- src/manifest.rs and src/manifest_upload.rs: a node as it is written. The entries are ordered by
-- their first bytes, which a bit index of 32 bytes tells too; behind a key of 32 bytes, zero where
-- there is no obfuscation, all is combined with the key.
pub mod Order
pub mod Index
pub mod Place
use weeb.Prelude.{
  ℕ, zero, suc, ◌+◌, ◌-◌, ◌*◌, ◌/◌, ◌%◌, ◌^◌, bit_or, bit_xor, Bool, true, false, not, ◌&&◌, ◌||◌,
  if◌then◌else◌, ltb, leb, ◌==◌, Option, none, some, ◌>>=◌, ◌>>◌, guard, List, [], ◌∷◌, ◌++◌,
  length, take, drop, get_or, set, replicate,
}
use mathlib.Core.List.{flatten}
use mathlib.Core.Option
use weeb.Manifest.Prefix.{mantaray_prefix_max_bytes}
use weeb.Manifest.Fork.{fork_prefix, is_empty, encode_fork}

-- The slot of an entry, by its first byte.
unfoldable pub fork_key : List ℕ → Option ℕ
fork_key fork = do
  let prefix = fork_prefix fork
  guard (not (is_empty prefix || ltb mantaray_prefix_max_bytes (length prefix)))
  some (get_or prefix 0 0)

-- A byte of the index with the bit of a key set.
unfoldable pub set_index : ℕ → List ℕ → List ℕ
set_index key index = set index (key / 8) (bit_or (get_or index (key / 8) 0) (2 ^ (key % 8)))

-- The loop over the entries, with the slots and the index so far. It is the same for whatever
-- stands for entries, once their slots are known.
unfoldable pub place_all :
    {A : Type 0}
    → (A → Option ℕ)
    → List A
    → List (Option A)
    → List ℕ
    → Option (List (Option A) × List ℕ)
unfolding set_index
place_all key_of [] ordered index = some (ordered, index)
place_all key_of (fork ∷ forks) ordered index = do
  key ← key_of fork
  let rest = place_all key_of forks (set ordered key (some fork)) (set_index key index)
  elim (get_or ordered key none) [ some old ↦ none | none ↦ rest ]

-- `into_iter().flatten()`.
unfoldable pub present : {A : Type 0} → List (Option A) → List A
present [] = []
present (none ∷ xs) = present xs
present (some x ∷ xs) = x ∷ present xs

unfoldable pub ordered_indexed_forks : List (List ℕ) → Option (List (List ℕ) × List ℕ)
unfolding place_all present fork_key
ordered_indexed_forks forks = do
  (ordered, index) ← place_all fork_key forks (replicate 256 none) (replicate 32 0)
  some (present ordered, index)

abbrev pub mantaray_version_02 : List ℕ
mantaray_version_02 =
    0x57 ∷ 0x68 ∷ 0xb3 ∷ 0xb6 ∷ 0xa7 ∷ 0xdb ∷ 0x56 ∷ 0xd2 ∷ 0x1d ∷ 0x1a ∷ 0xbf ∷ 0xf4 ∷ 0x0d ∷ 0x41
    ∷ 0xce ∷ 0xbf ∷ 0xc8 ∷ 0x34 ∷ 0x48 ∷ 0xfe ∷ 0xd8 ∷ 0xd7 ∷ 0xe9 ∷ 0xb0 ∷ 0x6e ∷ 0xc0 ∷ 0xd3
    ∷ 0xb0 ∷ 0x73 ∷ 0xf2 ∷ 0x8f ∷ []

-- Bytes combined with a key of 32 bytes, again and again, from an offset on.
unfoldable pub xor_cycle : List ℕ → ℕ → List ℕ → List ℕ
xor_cycle key offset [] = []
xor_cycle key offset (b ∷ bs) =
    bit_xor b (get_or key (offset % 32) 0) ∷ xor_cycle key (offset + 1) bs

unfoldable pub any_nonzero : List ℕ → Bool
any_nonzero [] = false
any_nonzero (b ∷ bs) = not (b == 0) || any_nonzero bs

-- `random` stands for the bytes of the random number generator.
unfoldable pub manifest_obfuscation_key : List ℕ → Bool → List ℕ
manifest_obfuscation_key random obfuscated = if obfuscated then random else replicate 32 0

unfoldable pub obfuscate_manifest : List ℕ → List ℕ
unfolding any_nonzero xor_cycle
obfuscate_manifest manifest =
    if any_nonzero (take 32 manifest)
    then take 32 manifest ++ xor_cycle (take 32 manifest) 0 (drop 32 manifest)
    else manifest

unfoldable pub serialized_reference_size : Bool → List ℕ → Option ℕ
serialized_reference_size encrypted reference =
    if length reference == 0 && encrypted
    then some 64
    else if length reference == 0 || length reference == 32
    then some 32
    else if length reference == 64
    then some 64
    else none

-- A node with no reference has zeros for it.
unfoldable pub node_content : ℕ → List ℕ → List ℕ → List (List ℕ) → List ℕ
node_content reference_size reference index forks =
    mantaray_version_02
    ++ (reference_size
        ∷ ((reference ++ (if is_empty reference then replicate reference_size 0 else []))
            ++ (index ++ flatten forks)))

-- No bytes where the source gives up.
unfoldable pub serialize_manifest : List ℕ → Bool → List ℕ → List (List ℕ) → List ℕ
unfolding ordered_indexed_forks obfuscate_manifest
serialize_manifest random encrypted reference forks =
    Option.get_or
      (do
        reference_size ← serialized_reference_size encrypted reference
        (ordered, index) ← ordered_indexed_forks forks
        some (
            obfuscate_manifest (
              manifest_obfuscation_key random encrypted
              ++ node_content reference_size reference index ordered)))
      []

unfoldable pub create_fork : List ℕ → List ℕ → List ℕ → List ℕ
unfolding encode_fork
create_fork path reference metadata =
    Option.get_or (encode_fork path reference metadata (is_empty metadata)) []

unfoldable pub create_stub : List ℕ → ℕ → Bool → List ℕ
unfolding obfuscate_manifest manifest_obfuscation_key
create_stub random stub_ref_size obfuscated = obfuscate_manifest (
    manifest_obfuscation_key random obfuscated
    ++ (mantaray_version_02 ++ (stub_ref_size ∷ replicate (32 + stub_ref_size) 0)))
