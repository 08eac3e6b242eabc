-- ===== src/Manifest/Parse.antt =====
-- src/manifest.rs: how a node is read. It stands behind a span of 8 bytes. An index of the source
-- that was checked against the length before is a read with a default here.
pub mod Decode
pub mod Decrypt
pub mod Header
pub mod Forks
pub mod RoundTrip
use weeb.Prelude.{
  ℕ, zero, suc, ◌+◌, ◌-◌, ◌*◌, ◌/◌, ◌%◌, ◌^◌, bit_and, bit_xor, Bool, true, false, not, ◌&&◌, ◌||◌,
  if◌then◌else◌, ltb, leb, ◌==◌, Option, none, some, ◌>>=◌, ◌>>◌, guard, List, [], ◌∷◌, ◌++◌,
  length, take, drop, get_or, get_range, from_le, reverse, checked_add, checked_sub, usize_max,
}
use weeb.Prelude.Text.{Text, text_eq}
use weeb.Manifest.Prefix.{mantaray_prefix_max_bytes}
use weeb.Manifest.Fork.{node_type_with_metadata}
use weeb.Manifest.Node.{mantaray_version_02, xor_cycle, any_nonzero}

abbrev pub max_manifest_payload_bytes : ℕ
max_manifest_payload_bytes = 17 * 1024 * 1024

abbrev pub manifest_fixed_header_size : ℕ
manifest_fixed_header_size = 72

abbrev pub manifest_index_size : ℕ
manifest_index_size = 32

abbrev pub manifest_version_start : ℕ
manifest_version_start = 40

abbrev pub manifest_version_end : ℕ
manifest_version_end = 71

abbrev pub manifest_reference_size_offset : ℕ
manifest_reference_size_offset = 71

abbrev pub mantaray_version_01 : List ℕ
mantaray_version_01 =
    0x02 ∷ 0x51 ∷ 0x84 ∷ 0x78 ∷ 0x9d ∷ 0x63 ∷ 0x63 ∷ 0x57 ∷ 0x66 ∷ 0xd7 ∷ 0x8c ∷ 0x41 ∷ 0x90 ∷ 0x01
    ∷ 0x96 ∷ 0xb5 ∷ 0x7d ∷ 0x74 ∷ 0x00 ∷ 0x87 ∷ 0x5e ∷ 0xbe ∷ 0x4d ∷ 0x9b ∷ 0x5d ∷ 0x1e ∷ 0x76
    ∷ 0xbd ∷ 0x96 ∷ 0x52 ∷ 0xa9 ∷ []

unfoldable pub manifest_payload_size_allowed : ℕ → Bool
manifest_payload_size_allowed size = leb size max_manifest_payload_bytes

-- `count_ones` of a number of so many bits.
unfoldable pub count_ones : ℕ → ℕ → ℕ
count_ones zero b = 0
count_ones (suc bits) b = b % 2 + count_ones bits (b / 2)

unfoldable pub count_index : List ℕ → ℕ
unfolding count_ones
count_index [] = 0
count_index (b ∷ bs) = count_ones 8 b + count_index bs

unfoldable pub manifest_fork_count : List ℕ → ℕ → Option ℕ
unfolding count_index
manifest_fork_count index reference_size =
    if not (length index == 32)
    then none
    else if reference_size == 0
    then some 0
    else some (count_index index)

unfoldable pub valid_reference_size : ℕ → Bool
valid_reference_size ref_size = ref_size == 0 || ref_size == 32 || ref_size == 64

unfoldable pub valid_manifest_version : List ℕ → Bool
valid_manifest_version version =
    text_eq version mantaray_version_01 || text_eq version mantaray_version_02

-- `input[first..last]` where the length allows it.
abbrev pub slice : List ℕ → ℕ → ℕ → List ℕ
slice input first last = take (last - first) (drop first input)

unfoldable pub decoded_header_byte : List ℕ → ℕ → List ℕ → ℕ
decoded_header_byte input index key =
    if ltb index manifest_version_start || not (any_nonzero key)
    then get_or input index 0
    else bit_xor (get_or input index 0) (get_or key ((index - manifest_version_start) % 32) 0)

-- The decoded bytes from one index on, so many of them.
unfoldable pub decoded_header : ℕ → List ℕ → ℕ → List ℕ → List ℕ
unfolding decoded_header_byte
decoded_header zero input index key = []
decoded_header (suc n) input index key =
    decoded_header_byte input index key ∷ decoded_header n input (index + 1) key

unfoldable pub is_bzz_manifest_header : List ℕ → Bool
unfolding decoded_header valid_manifest_version valid_reference_size
is_bzz_manifest_header input =
    let key = slice input 8 40 in
    let ref_size = decoded_header_byte input manifest_reference_size_offset key in
    not (ltb (length input) manifest_fixed_header_size)
    && valid_manifest_version (decoded_header 31 input manifest_version_start key)
    && valid_reference_size ref_size
    && leb (manifest_fixed_header_size + ref_size + manifest_index_size) (length input)

-- The input after the decryption.
unfoldable pub decrypted : List ℕ → List ℕ
decrypted input =
    let key = slice input 8 40 in
    if any_nonzero key
    then take manifest_version_start input ++ xor_cycle key 0 (drop manifest_version_start input)
    else input

-- The input is changed in place also where there is no result.
unfoldable pub decrypt_manifest_in_place : List ℕ → List ℕ × Option ℕ
unfolding decrypted valid_manifest_version valid_reference_size
decrypt_manifest_in_place input =
    if ltb (length input) manifest_fixed_header_size
    then (input, none)
    else (let input' = decrypted input in
        (
          input',
          do
            guard
                (valid_manifest_version (slice input' manifest_version_start manifest_version_end))
            let ref_size = get_or input' manifest_reference_size_offset 0
            guard (valid_reference_size ref_size)
            with_reference ← checked_add usize_max manifest_fixed_header_size ref_size
            index_delimiter ← checked_add usize_max with_reference manifest_index_size
            guard (leb index_delimiter (length input'))
            some ref_size,
        ))

pub record BzzManifestFork (V : Type 0) : Type 0 where
  pub fork_type : ℕ
  pub prefix : List ℕ
  pub reference : List ℕ
  pub metadata : Option V

pub record ParsedBzzManifest (V : Type 0) : Type 0 where
  pub ref_size : ℕ
  pub forks : List (BzzManifestFork V)
  pub explicit_index : Option Text
  pub wrapped_reference : Option (List ℕ)

-- What serde_json reads from some bytes.
module _ {V : Type 0} (from_slice : List ℕ → Option V) where
  -- The metadata at a cursor, and the cursor behind them.
  unfoldable pub parse_metadata : List ℕ → ℕ → Option (Option V × ℕ)
  parse_metadata input cursor = do
    size_end ← checked_add usize_max cursor 2
    guard (leb size_end (length input))
    let metadata_size = from_le (reverse (slice input cursor size_end))
    delimiter ← checked_add usize_max size_end metadata_size
    guard (leb delimiter (length input))
    some (from_slice (slice input size_end delimiter), delimiter)

  -- One round of the loop: the entry at a cursor, and the cursor behind it.
  unfoldable pub parse_fork : List ℕ → ℕ → ℕ → Option (BzzManifestFork V × ℕ)
  unfolding parse_metadata
  parse_fork input ref_size fork_start = do
    prefix_delimiter ← checked_add usize_max fork_start 32
    reference_delimiter ← checked_add usize_max prefix_delimiter ref_size
    guard (leb reference_delimiter (length input))
    let fork_type = get_or input fork_start 0
    let fork_prefix_length = get_or input (fork_start + 1) 0
    prefix_start ← checked_add usize_max fork_start 2
    prefix_end ← checked_add usize_max prefix_start fork_prefix_length
    guard (not (fork_prefix_length == 0 || ltb mantaray_prefix_max_bytes fork_prefix_length))
    guard (leb prefix_end (length input))
    let prefix = slice input prefix_start prefix_end
    let reference = slice input prefix_delimiter reference_delimiter
    (metadata, next) ←
        if bit_and fork_type node_type_with_metadata == node_type_with_metadata
        then parse_metadata input reference_delimiter
        else some (none, reference_delimiter)
    some (
      record { fork_type = fork_type; prefix = prefix; reference = reference; metadata = metadata },
      next,
    )

-- The index document so far, and the string under "website-index-document" of an entry's metadata.
abbrev pub later_index : {V : Type 0} → (V → Option Text) → Option Text → Option V → Option Text
later_index index_document explicit_index metadata = elim (metadata >>= index_document) [
  | none ↦ explicit_index
  | some index ↦ some index
]

-- Also, how that string is looked up in a value.
module _ {V : Type 0} (from_slice : List ℕ → Option V) (index_document : V → Option Text) where
  unfoldable pub parse_forks :
      ℕ
      → List ℕ
      → ℕ
      → ℕ
      → List (BzzManifestFork V)
      → Option Text
      → Option (List (BzzManifestFork V) × Option Text)
  parse_forks zero input ref_size cursor forks explicit_index = some (forks, explicit_index)
  parse_forks (suc fork_count) input ref_size cursor forks explicit_index = do
    (fork, next) ← parse_fork from_slice input ref_size cursor
    parse_forks fork_count input ref_size next (forks ++ (fork ∷ []))
        (later_index index_document explicit_index fork.metadata)

  unfoldable pub parse_bzz_manifest : List ℕ → Option (ParsedBzzManifest V)
  unfolding manifest_payload_size_allowed decrypt_manifest_in_place manifest_fork_count parse_forks
  parse_bzz_manifest input = do
    payload_size ← checked_sub (length input) 8
    guard (manifest_payload_size_allowed payload_size)
    ref_size ← (decrypt_manifest_in_place input).1
    let plain = (decrypt_manifest_in_place input).0
    reference_end ← checked_add usize_max manifest_fixed_header_size ref_size
    let reference = slice plain manifest_fixed_header_size reference_end
    index_delimiter ← checked_add usize_max reference_end manifest_index_size
    fork_count ← manifest_fork_count (slice plain reference_end index_delimiter) ref_size
    (forks, explicit_index) ← parse_forks fork_count plain ref_size index_delimiter [] none
    some (record {
      ref_size = ref_size;
      forks = forks;
      explicit_index = explicit_index;
      wrapped_reference = if any_nonzero reference then some reference else none;
    })
