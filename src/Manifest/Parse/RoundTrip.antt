-- ===== src/Manifest/Parse/RoundTrip.antt =====
-- src/manifest.rs and src/manifest_upload.rs: a node is read as it was written.
use weeb.Prelude.{
  ℕ, zero, suc, ◌+◌, ◌≤◌, Bool, true, false, if◌then◌else◌, ltb, ◌==◌, Option, none, some, ◌>>=◌,
  List, [], ◌∷◌, ◌++◌, map, length, length-append, length-replicate, replicate, IsAt, IsAt-start,
  IsAt-skip, IsAt-length, usize_max, ◌≡◌, ◌⊎◌, inl, inr, refl, sym, ap, ◌∙◌, arith,
}
use mathlib.Core.List.{flatten, append-nil}
use mathlib.Core.List.{Permᴰ}
use mathlib.Core.Path.{subst}
use weeb.Prelude.Text.{Text}
use weeb.Manifest.Fork.{is_empty}
use weeb.Manifest.Fork.Encoding.{encode-eq-some, is_empty-pos, fork_prefix-entry_bytes}
use weeb.Manifest.Node.{
  any_nonzero, fork_key, node_content, mantaray_version_02, obfuscate_manifest,
  manifest_obfuscation_key, ordered_indexed_forks, serialized_reference_size, serialize_manifest,
}
use weeb.Manifest.Node.Index.{index_of, count_index-index_of}
use weeb.Manifest.Node.Order.{
  fill, IsKeyed, IsAscending, in_order, in_order-perm, in_order-IsAscending, length-fill,
}
use weeb.Manifest.Node.Place.{ordered_indexed_forks-eq-some}
use weeb.Manifest.Parse.{
  count_index, manifest_fork_count, parse_bzz_manifest, max_manifest_payload_bytes,
}
use weeb.Manifest.Parse.Decode.{slice-IsAt}
use weeb.Manifest.Parse.Decrypt.{
  length-obfuscate_manifest, decrypt_manifest_in_place-obfuscate_manifest,
}
use weeb.Manifest.Parse.Forks.{
  Item, item_bytes, encoded, first_byte, read_item, last_index, manifest_of, parse_forks-flatten,
  parse_reads,
}

reference_sizes :
    (encrypted : Bool) (reference : List ℕ) (ref_size : ℕ)
    → serialized_reference_size encrypted reference ≡ some ref_size
    → ((ref_size ≡ 32) ⊎ (ref_size ≡ 64)) × ((length reference ≡ 0) ⊎ (length reference ≡ ref_size))
unfolding serialized_reference_size
reference_sizes encrypted reference ref_size h = (ground (arith, h), ground (arith, h))

-- The reference that stands in a node.
abbrev stored_reference : ℕ → List ℕ → List ℕ
stored_reference ref_size reference =
    reference ++ (if is_empty reference then replicate ref_size 0 else [])

length-stored_reference :
    (ref_size : ℕ) (reference : List ℕ)
    → (length reference ≡ 0) ⊎ (length reference ≡ ref_size)
    → length (stored_reference ref_size reference) ≡ ref_size
length-stored_reference ref_size [] h = length-replicate ref_size 0
length-stored_reference ref_size (b ∷ bs) (inl e) = absurd (omega arith)
length-stored_reference ref_size (b ∷ bs) (inr e) = ap (λ t. length (b ∷ t)) (append-nil bs) ∙ e

any_nonzero-zeros : (n : ℕ) → any_nonzero (replicate n 0) ≡ false
unfolding any_nonzero
any_nonzero-zeros zero = refl
any_nonzero-zeros (suc n) = any_nonzero-zeros n

wrapped :
    (ref_size : ℕ) (reference : List ℕ)
    → (if any_nonzero (stored_reference ref_size reference)
        then some (stored_reference ref_size reference)
        else none)
      ≡ (if any_nonzero reference then some reference else none)
unfolding any_nonzero
wrapped ref_size [] = rw (any_nonzero-zeros ref_size) refl
wrapped ref_size (b ∷ bs) = rw (append-nil bs) refl

item_key :
    {ref_size : ℕ} (item : Item ref_size) → fork_key (item_bytes item) ≡ some (first_byte item)
unfolding fork_key
item_key {ref_size} item =
    let prefix = fork_prefix-entry_bytes ref_size item.entry item.valid item.valid.stored in
    let some_bytes = is_empty-pos item.entry.prefix item.valid.some_prefix in
    let short : ltb 30 (length item.entry.prefix) ≡ false = ground (arith, item.valid.short) in
    rw (prefix, some_bytes, short) refl

encoded-items :
    (ref_size : ℕ) (items : List (Item ref_size))
    → (ref_size ≡ 32) ⊎ (ref_size ≡ 64)
    → map encoded items ≡ map item_bytes items
encoded-items ref_size [] size = refl
encoded-items ref_size (item ∷ items) size =
    rw (encode-eq-some ref_size item.entry item.valid size)
      (ap (◌∷◌ (item_bytes item)) (encoded-items ref_size items size))

abbrev slots_of : {ref_size : ℕ} → List (Item ref_size) → List (Option (Item ref_size))
slots_of items = fill first_byte items (replicate 256 none)

-- What a node is made of.
serialize_manifest-parts :
    (random reference : List ℕ) (encrypted : Bool) (ref_size : ℕ) (items : List (Item ref_size))
    → serialized_reference_size encrypted reference ≡ some ref_size
    → IsKeyed first_byte 256 items
    → serialize_manifest random encrypted reference (map encoded items)
      ≡ obfuscate_manifest (
          manifest_obfuscation_key random encrypted
          ++ node_content ref_size reference
              (index_of 32 (slots_of items))
              (map item_bytes (in_order first_byte items)))
unfolding serialize_manifest
serialize_manifest-parts random reference encrypted ref_size items size keyed =
    let bytes =
      encoded-items ref_size items (reference_sizes encrypted reference ref_size size).0 in
    let ordered = ordered_indexed_forks-eq-some first_byte item_bytes items item_key keyed in
    rw (bytes, size, ◌>>=◌) (rw (ordered, ◌>>=◌) refl)

length-key :
    (random : List ℕ) (encrypted : Bool)
    → length random ≡ 32
    → length (manifest_obfuscation_key random encrypted) ≡ 32
unfolding manifest_obfuscation_key
length-key random true e = e
length-key random false e = refl

count-index_of :
    (ref_size : ℕ) (items : List (Item ref_size))
    → (ref_size ≡ 32) ⊎ (ref_size ≡ 64)
    → manifest_fork_count (index_of 32 (slots_of items)) ref_size
      ≡ some (length (in_order first_byte items))
unfolding manifest_fork_count
count-index_of ref_size items size =
    let counted =
      count_index-index_of 32 (slots_of items)
        (omega (arith, length-fill first_byte items (replicate 256 none))) in
    let some_size : (ref_size == 0) ≡ false = ground (arith, size) in rw (some_size, counted) refl

perm_length : {A : Type 0} {xs ys : List A} → Permᴰ xs ys → length xs ≡ length ys
perm_length Permᴰ.nil = refl
perm_length (Permᴰ.cons e d) = ap suc (perm_length d)
perm_length (Permᴰ.swap e f) = refl
perm_length (Permᴰ.trans d e) = perm_length d ∙ perm_length e

-- Entries with different first bytes are all kept, each once, in the rising order of those bytes,
-- in whatever order they are given; the bit index beside them has as many bits as there are entries.
pub ordered_indexed_forks-encoded :
    (ref_size : ℕ) (items : List (Item ref_size))
    → (ref_size ≡ 32) ⊎ (ref_size ≡ 64)
    → IsKeyed first_byte 256 items
    → (ordered : List (Item ref_size)) × (index : List ℕ) × (ordered_indexed_forks
          (map encoded items)
        ≡ some (map encoded ordered, index))
      × Permᴰ ordered items
      × IsAscending first_byte 0 ordered
      × (count_index index ≡ length items)
ordered_indexed_forks-encoded ref_size items size keyed =
    let perm = in_order-perm first_byte items keyed in
    (
      in_order first_byte items,
      index_of 32 (slots_of items),
      rw
          (
            encoded-items ref_size items size,
            encoded-items ref_size (in_order first_byte items) size,
          )
          (ordered_indexed_forks-eq-some first_byte item_bytes items item_key keyed),
      perm,
      in_order-IsAscending first_byte items,
      count_index-index_of 32 (slots_of items)
            (omega (arith, length-fill first_byte items (replicate 256 none)))
          ∙ perm_length perm,
    )

-- What stands behind the size of the references.
abbrev node_rest : (ref_size : ℕ) → List ℕ → List (Item ref_size) → List ℕ
node_rest ref_size reference items =
    stored_reference ref_size reference
    ++ (index_of 32 (slots_of items) ++ flatten (map item_bytes (in_order first_byte items)))

module _ {V : Type 0} (from_slice : List ℕ → Option V) (index_document : V → Option Text) where
  parse_written :
      (span key reference : List ℕ) (ref_size : ℕ) (items : List (Item ref_size))
      → length span ≡ 8
      → length key ≡ 32
      → (ref_size ≡ 32) ⊎ (ref_size ≡ 64)
      → (length reference ≡ 0) ⊎ (length reference ≡ ref_size)
      → length (
          obfuscate_manifest
            (key ++ (mantaray_version_02 ++ (ref_size ∷ node_rest ref_size reference items))))
        ≤ max_manifest_payload_bytes
      → parse_bzz_manifest from_slice index_document (
          span
          ++ obfuscate_manifest
              (key ++ (mantaray_version_02 ++ (ref_size ∷ node_rest ref_size reference items))))
        ≡ some (
            manifest_of ref_size
              (map (read_item from_slice) (in_order first_byte items))
              (last_index index_document none
                (map (read_item from_slice) (in_order first_byte items)))
              (stored_reference ref_size reference))
  parse_written span key reference ref_size items hs hk size given allowed =
      let ordered : List (Item ref_size) = in_order first_byte items in
      let index : List ℕ = index_of 32 (slots_of items) in
      let entries : List ℕ = flatten (map item_bytes ordered) in
      let held : List ℕ = stored_reference ref_size reference in
      let content : List ℕ =
        mantaray_version_02 ++ (ref_size ∷ node_rest ref_size reference items) in
      let input : List ℕ = span ++ obfuscate_manifest (key ++ content) in
      let plain : List ℕ = span ++ (key ++ content) in
      let sized : length held ≡ ref_size = length-stored_reference ref_size reference given in
      let rest_size : length (node_rest ref_size reference items)
          ≡ ref_size + (32 + length entries) =
        omega (arith, length-append held (index ++ entries), length-append index entries) in
      let written : length (obfuscate_manifest (key ++ content))
          ≡ 64 + ref_size + 32 + length entries =
        omega (
          arith,
          length-obfuscate_manifest key content hk,
          length-append mantaray_version_02 (ref_size ∷ node_rest ref_size reference items),
        ) in
      let input_size : length input ≡ 72 + ref_size + 32 + length entries =
        omega (arith, length-append span (obfuscate_manifest (key ++ content))) in
      let at8 : IsAt plain 8 (key ++ content) =
        IsAt-skip plain 0 8 span (key ++ content) (omega arith) (IsAt-start plain) in
      let at40 : IsAt plain 40 content = IsAt-skip plain 8 40 key content (omega arith) at8 in
      let at71 : IsAt plain 71 (ref_size ∷ node_rest ref_size reference items) =
        IsAt-skip plain 40 71 mantaray_version_02 (ref_size ∷ node_rest ref_size reference items)
          (omega arith) at40 in
      let at72 : IsAt plain 72 (held ++ (index ++ entries)) =
        IsAt-skip plain 71 72 (ref_size ∷ []) (held ++ (index ++ entries)) (omega arith) at71 in
      let at_index : IsAt plain (72 + ref_size) (index ++ entries) =
        IsAt-skip plain 72 (72 + ref_size) held (index ++ entries) (omega arith) at72 in
      let at_entries : IsAt plain (104 + ref_size) entries =
        IsAt-skip plain (72 + ref_size) (104 + ref_size) index entries (omega arith) at_index in
      let at_end : IsAt plain (104 + ref_size) (entries ++ []) =
        subst (λ t. IsAt plain (104 + ref_size) t) (sym (append-nil entries)) at_entries in
      let plain_size : length plain ≤ usize_max =
        omega (arith, IsAt-length plain (104 + ref_size) entries at_entries) in
      parse_reads from_slice index_document input plain held index ref_size (length ordered) _ _
        (omega arith) (omega arith)
        (decrypt_manifest_in_place-obfuscate_manifest span key (node_rest ref_size reference items)
          ref_size hs hk size (omega arith))
        (ground (arith, size))
        (slice-IsAt plain held (index ++ entries) 72 (72 + ref_size) (omega arith) at72)
        (slice-IsAt plain index entries (72 + ref_size) (104 + ref_size) (omega arith) at_index)
        (count-index_of ref_size items size)
        (parse_forks-flatten from_slice index_document ref_size ordered plain (104 + ref_size) [] []
          none plain_size at_end)

  -- A node that is written is read back: behind any span of 8 bytes, and with any 32 random bytes,
  -- `parse_bzz_manifest` gives for the output of `serialize_manifest` the size of the references,
  -- the entries in the order of their first bytes with what their metadata decode to, the last
  -- index document that they name, and the reference that the node holds unless it is zero. The
  -- entries are ones that can be encoded for that size, they differ in their first bytes, and the
  -- output is no larger than a payload may be.
  pub parse_bzz_manifest-serialize_manifest :
      (span random reference : List ℕ) (encrypted : Bool) (ref_size : ℕ)
      (items : List (Item ref_size))
      → length span ≡ 8
      → length random ≡ 32
      → serialized_reference_size encrypted reference ≡ some ref_size
      → IsKeyed first_byte 256 items
      → length (serialize_manifest random encrypted reference (map encoded items))
        ≤ max_manifest_payload_bytes
      → parse_bzz_manifest from_slice index_document
          (span ++ serialize_manifest random encrypted reference (map encoded items))
        ≡ some (record {
          ref_size = ref_size;
          forks = map (read_item from_slice) (in_order first_byte items);
          explicit_index =
              last_index index_document none
                (map (read_item from_slice) (in_order first_byte items));
          wrapped_reference = if any_nonzero reference then some reference else none;
        })
  unfolding node_content
  parse_bzz_manifest-serialize_manifest span random reference encrypted ref_size items hs hr size
        keyed allowed =
      let parts = serialize_manifest-parts random reference encrypted ref_size items size keyed in
      let sizes = reference_sizes encrypted reference ref_size size in
      rw parts (
        parse_written span (manifest_obfuscation_key random encrypted) reference ref_size items hs
          (length-key random encrypted hr) sizes.0 sizes.1 (rw parts at allowed)
        ∙ rw (wrapped ref_size reference) refl)
