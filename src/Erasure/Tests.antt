-- ===== src/Erasure/Tests.antt =====
-- src/erasure_coding.rs: levels, spans, trees, layouts and bundles at concrete inputs.
use weeb.Prelude.{
  ℕ, ◌*◌, ◌≤◌, ◌^◌, max, Bool, true, false, some, none, List, [], ◌∷◌, ◌++◌, ◌≡◌, ◌↔◌, refl, arith,
  length, to_le, replicate,
}
use mathlib.Core.List.{flatten}
use weeb.Prelude.{is_utf8, usize_max}
use weeb.Erasure.Level.{RedundancyLevel, medium, parities, max_shards}
use weeb.Erasure.Level
use weeb.Erasure.Level.Capacity.{group_bytes, group_bytes_iff}
use weeb.Erasure.Span.{decode_span, decode_span_plain}
use weeb.Erasure.Tree.{div_ceil, chunk_size, upload_tree_chunk_count}
use weeb.Erasure.Tree.Count.{upload_tree_chunk_count_fits, upload_tree_chunk_count_rejects}
use weeb.Erasure.Layout.{
  ReferenceLayout, reference_layout, encoded_reference_payload_len, split_references,
}
use weeb.Erasure.Layout.Bounds.{reference_layout_total}
use weeb.Erasure.Layout.Split.{split_references-flatten, split_references_rejects}
use weeb.Erasure.Slices.{new_plan, next_slice, slices, AreTiles, slices_lem}
use weeb.Prelude.{map, ℕ_discrete, if◌then◌else◌, ◌==◌}
use weeb.Erasure.MatrixCache.{MatrixResult, request_all, IsCorrect, request_all_lem}
use weeb.Erasure.Bundle.{ResourceEntry, encode_resource_bundle, decode_resource_bundle, push_field}
use weeb.Erasure.Bundle
use weeb.Erasure.Bundle.RoundTrip.{bundle, decode-encode_bundle}

group_bytes_iff_example : (group_bytes medium true 59 ≤ 4096) ↔ (59 ≤ max_shards medium true)
group_bytes_iff_example = group_bytes_iff medium true 59

decode_span_plain_example : decode_span (to_le 8 70000 ++ []) ≡ some (Level.none, 70000)
decode_span_plain_example = decode_span_plain 70000 [] (omega arith)

upload_tree_chunk_count_fits_example :
    (t : ℕ) × (upload_tree_chunk_count 1000000 medium false ≡ some t)
    × (max (div_ceil 1000000 chunk_size) 1 ≤ t)
    × (t ≤ max (div_ceil 1000000 chunk_size) 1 * 259)
upload_tree_chunk_count_fits_example =
    upload_tree_chunk_count_fits medium false 1000000 (omega arith)
      (unfold max_shards in omega arith)

upload_tree_chunk_count_rejects_example :
    upload_tree_chunk_count (2 ^ 63) Level.paranoid true ≡ none
upload_tree_chunk_count_rejects_example =
    upload_tree_chunk_count_rejects Level.paranoid true (2 ^ 63) (omega arith)
      (unfold max_shards in omega arith)

reference_layout_total_example :
    (layout : ReferenceLayout) × (k : ℕ) × (reference_layout 1000000 medium false ≡ some layout)
    × (layout.child_capacity ≡ chunk_size * max_shards medium false ^ k)
    × (layout.data_shards ≡ div_ceil 1000000 layout.child_capacity)
    × (2 ≤ layout.data_shards)
    × (layout.data_shards ≤ max_shards medium false)
    × (layout.parity_shards ≡ parities medium layout.data_shards false)
    × (encoded_reference_payload_len 1000000 medium false
        ≡ some (group_bytes medium false layout.data_shards))
    × (group_bytes medium false layout.data_shards ≤ chunk_size)
reference_layout_total_example =
    reference_layout_total medium false 1000000 (omega arith) (omega arith)

abbrev small_layout : ReferenceLayout
small_layout = record { data_shards = 2; parity_shards = 1; child_capacity = 4096 }

abbrev one_reference : List ℕ
one_reference = replicate 32 7

split_references_rejects_example : split_references one_reference small_layout false ≡ none
split_references_rejects_example =
    split_references_rejects false small_layout one_reference (ground arith)

split_references-flatten_example :
    split_references
      (flatten (one_reference ∷ (one_reference ∷ [])) ++ flatten (one_reference ∷ []))
      small_layout
      false
    ≡ some (one_reference ∷ (one_reference ∷ []), one_reference ∷ [])
split_references-flatten_example =
    split_references-flatten false small_layout (one_reference ∷ (one_reference ∷ []))
      (one_reference ∷ []) refl refl (refl, (refl, tt)) (refl, tt) (omega arith)

-- One resource: three bytes of content, the type "a" and the name "b".
abbrev resources : List ResourceEntry
resources = (255 ∷ (0 ∷ (9 ∷ [])), 97 ∷ [], 98 ∷ []) ∷ []

abbrev any_length : ℕ → Bool
any_length n = true

small_text : is_utf8 (97 ∷ []) ≡ true
unfolding is_utf8
small_text = refl

small_name : is_utf8 (98 ∷ []) ≡ true
unfolding is_utf8
small_name = refl

small_bundle : length (bundle resources (98 ∷ [])) ≤ usize_max
unfolding bundle to_le
small_bundle = omega arith

decode-encode_bundle_example :
    (encoded : List ℕ) × (encode_resource_bundle any_length resources (98 ∷ []) ≡ some encoded)
    × (decode_resource_bundle encoded ≡ some (resources, 98 ∷ []))
decode-encode_bundle_example =
    decode-encode_bundle any_length resources (98 ∷ []) small_bundle refl small_name
      ((small_text, small_name), tt)

encoded_small :
    encode_resource_bundle any_length resources (98 ∷ []) ≡ some (bundle resources (98 ∷ []))
unfolding encode_resource_bundle bundle push_field to_le Bundle.encoded_field_len
    Bundle.encoded_len_loop Bundle.push_resources
encoded_small = refl

slices_lem_example :
    AreTiles 0 10000000 (slices 3 (new_plan 10000000)).1
    × ((next_slice (slices 3 (new_plan 10000000)).0).1 ≡ none)
slices_lem_example = slices_lem 10000000 3 (omega arith) (omega arith)

-- Keys are numbers here, the matrix of a key is the key, and 0 has none.
abbrev number_matrix : ℕ → MatrixResult ℕ ℕ
number_matrix n = if n == 0 then MatrixResult.err 9 else MatrixResult.ok n

request_all_lem_example :
    ((request_all ℕ_discrete number_matrix (4 ∷ (0 ∷ (4 ∷ []))) []).1
      ≡ map number_matrix (4 ∷ (0 ∷ (4 ∷ []))))
    × IsCorrect ℕ_discrete number_matrix
        (request_all ℕ_discrete number_matrix (4 ∷ (0 ∷ (4 ∷ []))) []).0
request_all_lem_example = request_all_lem ℕ_discrete number_matrix (4 ∷ (0 ∷ (4 ∷ [])))
