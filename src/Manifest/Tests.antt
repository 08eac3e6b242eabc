-- ===== src/Manifest/Tests.antt =====
-- src/manifest.rs and src/manifest_upload.rs: runs, and the theorems at concrete nodes.
use weeb.Prelude.{
  ℕ, ◌+◌, ◌%◌, ◌^◌, ◌≤◌, true, false, if◌then◌else◌, ltb, none, some, List, [], ◌∷◌, ◌++◌, map,
  length, replicate, All, ◌≡◌, inl, refl, arith, to_le,
}
use mathlib.Core.List.{Permᴰ, flatten}
use weeb.Manifest.Prefix.{
  mantaray_prefix_max_bytes, split_prefix_bytes, IsPiece, split_prefix_bytes-flatten,
}
use weeb.Manifest.Fork.{
  padded_metadata_len, padded_metadata_len_lem, metadata_block_bytes, stored_metadata_len,
  fork_prefix, encode_fork_with_separator_path,
}
use weeb.Manifest.Node.{
  any_nonzero, fork_key, ordered_indexed_forks, serialized_reference_size, serialize_manifest,
  manifest_obfuscation_key, node_content,
}
use weeb.Manifest.Node.Order.{IsKeyed, IsAscending, in_order}
use weeb.Manifest.Node.Place.{ordered_indexed_forks-twice}
use weeb.Manifest.Parse.{
  count_index, is_bzz_manifest_header, decrypt_manifest_in_place, parse_bzz_manifest,
}
use weeb.Manifest.Parse.Header.{is_some, is_bzz_manifest_header-decrypt_manifest_in_place}
use weeb.Manifest.Parse.Forks.{Item, encoded, first_byte, read_item, last_index}
use weeb.Manifest.Parse.RoundTrip.{
  ordered_indexed_forks-encoded, parse_bzz_manifest-serialize_manifest,
}
use weeb.Manifest.Guard.{reference, no_budget_used, descend_reference}
use weeb.Manifest.Guard.Reach.{
  Resolution, start, to_reference, here, next, guard_at, IsWithin, Reach-IsWithin, joined,
}

-- The directory "/", and the file "a" with metadata of two bytes.
slash : Item 32
unfolding stored_metadata_len
slash = record {
  entry = record {
    prefix = 47 ∷ [];
    reference = replicate 32 1;
    metadata = [];
    has_edge = true;
    separator_path = 47 ∷ [];
  };
  valid = record {
    some_prefix = omega arith;
    short = omega arith;
    byte = omega arith;
    sized = refl;
    stored = none;
    stores = refl;
  };
}

file : Item 32
unfolding stored_metadata_len
file = record {
  entry = record {
    prefix = 97 ∷ [];
    reference = replicate 32 2;
    metadata = 123 ∷ 125 ∷ [];
    has_edge = false;
    separator_path = 97 ∷ [];
  };
  valid = record {
    some_prefix = omega arith;
    short = omega arith;
    byte = omega arith;
    sized = refl;
    stored = some 30;
    stores = refl;
  };
}

abbrev span : List ℕ
span = replicate 8 0

abbrev random : List ℕ
random = replicate 32 7

abbrev root : List ℕ
root = replicate 32 5

files_differ : IsKeyed first_byte 256 (file ∷ slash ∷ [])
unfolding file slash
files_differ = omega arith

parse_bzz_manifest-serialize_manifest_example :
    parse_bzz_manifest
      (λ bytes. some bytes)
      (λ v. none)
      (span ++ serialize_manifest random true root (map encoded (file ∷ slash ∷ [])))
    ≡ some (record {
      ref_size = 32;
      forks = map (read_item (λ bytes. some bytes)) (in_order first_byte (file ∷ slash ∷ []));
      explicit_index =
          last_index
            (λ v. none)
            none
            (map (read_item (λ bytes. some bytes)) (in_order first_byte (file ∷ slash ∷ [])));
      wrapped_reference = if any_nonzero root then some root else none;
    })
unfolding serialize_manifest serialized_reference_size file slash fork_prefix
    encode_fork_with_separator_path to_le manifest_obfuscation_key node_content flatten
parse_bzz_manifest-serialize_manifest_example =
    parse_bzz_manifest-serialize_manifest (λ bytes. some bytes) (λ v. none) span random root true 32
      (file ∷ slash ∷ []) refl refl refl files_differ (omega arith)

is_bzz_manifest_header-decrypt_manifest_in_place_example :
    is_bzz_manifest_header (replicate 200 3)
    ≡ is_some (decrypt_manifest_in_place (replicate 200 3)).1
is_bzz_manifest_header-decrypt_manifest_in_place_example =
    is_bzz_manifest_header-decrypt_manifest_in_place (replicate 200 3)

ordered_indexed_forks-encoded_example :
    (ordered : List (Item 32)) × (index : List ℕ) × (ordered_indexed_forks
        (map encoded (file ∷ slash ∷ []))
      ≡ some (map encoded ordered, index))
    × Permᴰ ordered (file ∷ slash ∷ [])
    × IsAscending first_byte 0 ordered
    × (count_index index ≡ length (file ∷ slash ∷ []))
ordered_indexed_forks-encoded_example =
    ordered_indexed_forks-encoded 32 (file ∷ slash ∷ []) (inl refl) files_differ

ordered_indexed_forks-twice_example :
    ordered_indexed_forks ([] ++ (encoded file ∷ ((encoded slash ∷ []) ++ (encoded file ∷ []))))
    ≡ none
unfolding fork_key file fork_prefix encode_fork_with_separator_path to_le
ordered_indexed_forks-twice_example =
    ordered_indexed_forks-twice [] (encoded file) (encoded slash ∷ []) (encoded file) [] 97 refl
      refl (omega arith)

split_prefix_bytes-flatten_example :
    (first : List ℕ) × (rest : List (List ℕ)) × (split_prefix_bytes (replicate 70 8) 10
      ≡ some (first ∷ rest))
    × (flatten (first ∷ rest) ≡ replicate 70 8)
    × IsPiece 10 first
    × All (IsPiece mantaray_prefix_max_bytes) rest
split_prefix_bytes-flatten_example =
    split_prefix_bytes-flatten (replicate 70 8) 10 (omega arith) (omega arith) (omega arith)

padded_metadata_len_lem_example :
    (stored_len : ℕ) × (padded_metadata_len 40
      ≡ (if ltb stored_len (2 ^ 16) then some stored_len else none))
    × ((stored_len + 2) % metadata_block_bytes ≡ 0)
    × (40 ≤ stored_len)
    × (stored_len ≤ 40 + metadata_block_bytes)
padded_metadata_len_lem_example = padded_metadata_len_lem 40 (omega arith)

-- The root is resolved once; the second time is a cycle.
abbrev once : Resolution
once = joined (descend_reference (guard_at 0 start.guards) root start.shared) start.guards

Reach-IsWithin_example :
    IsWithin (joined (descend_reference (guard_at 0 once.guards) root once.shared) once.guards)
Reach-IsWithin_example =
    Reach-IsWithin (next (next here (to_reference start 0 root)) (to_reference once 0 root))

cycle_refused : descend_reference (reference root ∷ []) root no_budget_used ≡ (no_budget_used, none)
unfolding descend_reference
cycle_refused = refl

abbrev shared_path : List ℕ
shared_path = 97 ∷ (98 ∷ (99 ∷ []))
