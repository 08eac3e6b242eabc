-- ===== src/Manifest/Fork.antt =====
-- src/manifest.rs: the entries of a node. An entry has a type, a prefix of at most 30 bytes that
-- is filled up to 30, a reference, and metadata that are filled up to blocks.
pub mod Encoding
use weeb.Prelude.{
  ℕ, zero, suc, ◌+◌, ◌-◌, ◌*◌, ◌/◌, ◌%◌, ◌^◌, ◌≤◌, ◌<◌, min, bit_or, Bool, true, false, not, ◌&&◌,
  ◌||◌, if◌then◌else◌, ltb, leb, ◌==◌, Option, none, some, ◌>>=◌, ◌>>◌, guard, List, [], ◌∷◌, ◌++◌,
  length, take, get_or, get_range, replicate, to_be, checked_add, usize_max, ◌≡◌, arith,
}
use mathlib.Core.Option
use weeb.Manifest.Prefix.{mantaray_prefix_max_bytes}

abbrev pub node_type_value : ℕ
node_type_value = 2

abbrev pub node_type_edge : ℕ
node_type_edge = 4

abbrev pub node_type_with_path_separator : ℕ
node_type_with_path_separator = 8

abbrev pub node_type_with_metadata : ℕ
node_type_with_metadata = 16

abbrev pub metadata_block_bytes : ℕ
metadata_block_bytes = 32

-- `position` of a byte.
unfoldable pub byte_position : ℕ → List ℕ → Option ℕ
byte_position c [] = none
byte_position c (x ∷ xs) = if x == c then some 0 else (do p ← byte_position c xs; some (p + 1))

-- A slash behind the first byte.
unfoldable pub has_separator : List ℕ → Bool
unfolding byte_position
has_separator prefix = elim (byte_position 47 prefix) [ none ↦ false | some index ↦ ltb 0 index ]

abbrev pub flag : Bool → ℕ → ℕ → ℕ
flag b bit node_type = if b then bit_or node_type bit else node_type

unfoldable pub fork_type : List ℕ → Bool → Bool → Bool → ℕ
unfolding has_separator
fork_type prefix has_value has_edge has_metadata = flag has_metadata node_type_with_metadata (
    flag (has_separator prefix) node_type_with_path_separator
      (flag has_edge node_type_edge (flag has_value node_type_value 0)))

unfoldable pub metadata_padding : ℕ → ℕ
metadata_padding with_size =
    if ltb with_size metadata_block_bytes
    then metadata_block_bytes - with_size
    else if ltb metadata_block_bytes with_size
    then metadata_block_bytes - with_size % metadata_block_bytes
    else 0

unfoldable pub padded_metadata_len : ℕ → Option ℕ
unfolding metadata_padding
padded_metadata_len metadata_len = do
  with_size ← checked_add usize_max metadata_len 2
  stored_len ← checked_add usize_max metadata_len (metadata_padding with_size)
  guard (leb stored_len (2 ^ 16 - 1))
  some stored_len

abbrev pub is_empty : List ℕ → Bool
is_empty [] = true
is_empty (x ∷ xs) = false

-- `resize` of a vector.
unfoldable pub resize : ℕ → ℕ → List ℕ → List ℕ
resize size value xs = take size xs ++ replicate (size - length xs) value

-- The stored length of the metadata, if there are any.
unfoldable pub stored_metadata_len : List ℕ → Option (Option ℕ)
unfolding padded_metadata_len
stored_metadata_len metadata =
    if is_empty metadata
    then some none
    else Option.map (λ n. some n) (padded_metadata_len (length metadata))

unfoldable pub metadata_part : Option ℕ → List ℕ → List ℕ
metadata_part none metadata = []
metadata_part (some stored_len) metadata =
    to_be 2 (stored_len % 2 ^ 16) ++ (metadata ++ replicate (stored_len - length metadata) 10)

unfoldable pub encode_fork_with_separator_path :
    List ℕ → List ℕ → List ℕ → Bool → List ℕ → Option (List ℕ)
unfolding fork_type resize stored_metadata_len metadata_part
encode_fork_with_separator_path prefix reference metadata has_edge separator_path = do
  guard (not (is_empty prefix || ltb mantaray_prefix_max_bytes (length prefix)))
  guard (length reference == 32 || length reference == 64)
  let has_metadata = not (is_empty metadata)
  stored_len ← stored_metadata_len metadata
  some (
      resize 32 0 (
        fork_type separator_path has_metadata has_edge has_metadata
        ∷ (length prefix % 256 ∷ prefix))
      ++ (reference ++ metadata_part stored_len metadata))

unfoldable pub encode_fork : List ℕ → List ℕ → List ℕ → Bool → Option (List ℕ)
unfolding encode_fork_with_separator_path
encode_fork prefix reference metadata has_edge =
    encode_fork_with_separator_path prefix reference metadata has_edge prefix

unfoldable pub fork_prefix : List ℕ → List ℕ
fork_prefix fork = Option.get_or (get_range fork 2 (2 + get_or fork 1 0)) []

-- Metadata are stored with fewer than 33 bytes of filling, so that with the two bytes of their
-- length they fill whole blocks; there is no length exactly if it would not fit 16 bits.
pub padded_metadata_len_lem :
    (metadata_len : ℕ)
    → metadata_len < 2 ^ 31
    → (stored_len : ℕ) × (padded_metadata_len metadata_len
        ≡ (if ltb stored_len (2 ^ 16) then some stored_len else none))
      × ((stored_len + 2) % metadata_block_bytes ≡ 0)
      × (metadata_len ≤ stored_len)
      × (stored_len ≤ metadata_len + metadata_block_bytes)
unfolding padded_metadata_len
padded_metadata_len_lem metadata_len small =
    let stored_len : ℕ = metadata_len + metadata_padding (metadata_len + 2) in
    (stored_len, ground arith, ground arith, omega arith, ground arith)
