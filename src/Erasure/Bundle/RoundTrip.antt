-- ===== src/Erasure/Bundle/RoundTrip.antt =====
-- src/erasure_coding.rs: what `encode_resource_bundle` writes, `decode_resource_bundle` reads back.
use weeb.Prelude.{
  ℕ, zero, suc, ◌+◌, ◌≤◌, Bool, true, ltb, leb, le→leb, lt→ltb, some, usize_max, List, [], ◌∷◌,
  ◌++◌, ◌≡◌, refl, sym, ap, ◌∙◌, arith, length, length-append, All, to_le, length-to_le,
  from_le-to_le, is_utf8, utf8_or_default, IsAt, IsAt-start, IsAt-skip, get_range-IsAt, IsAt-length,
  Option-cases, inl, inr,
}
use mathlib.Core.List.{append_assoc, append-nil}
use weeb.Erasure.Bundle.{
  ResourceEntry, encoded_field_len, push_field, encoded_len_loop, push_resources,
  encode_resource_bundle, read_len, read_bytes, read_string, read_resource, decode_loop,
  decode_resource_bundle,
}

-- The layout of a bundle.
abbrev pub field : List ℕ → List ℕ
field bytes = to_le 8 (length bytes) ++ bytes

abbrev pub entries : List ResourceEntry → List ℕ
entries [] = []
entries ((content, media_type, name) ∷ rs) =
    field media_type ++ (field name ++ (field content ++ entries rs))

length-field : (bytes : List ℕ) → length (field bytes) ≡ 8 + length bytes
length-field bytes =
    omega (arith, length-append (to_le 8 (length bytes)) bytes, length-to_le 8 (length bytes))

push_resources-entries :
    (output : List ℕ) (rs : List ResourceEntry) → push_resources output rs ≡ output ++ entries rs
unfolding push_resources
push_resources-entries output [] = sym (append-nil output)
push_resources-entries output ((content, media_type, name) ∷ rs) =
    push_resources-entries (push_field (push_field (push_field output media_type) name) content) rs
    ∙ unfold push_field in simp append_assoc

abbrev entries_len : List ResourceEntry → ℕ
entries_len rs = length (entries rs)

length-entries :
    (content media_type name : List ℕ) (rs : List ResourceEntry)
    → entries_len ((content, media_type, name) ∷ rs)
      ≡ (8 + length media_type) + (8 + length name) + (8 + length content) + entries_len rs
length-entries content media_type name rs = omega (
  arith,
  length-append (field media_type) (field name ++ (field content ++ entries rs)),
  length-append (field name) (field content ++ entries rs),
  length-append (field content) (entries rs),
  length-field media_type,
  length-field name,
  length-field content,
)

encoded_len_loop-eq-some :
    (n : ℕ) (rs : List ResourceEntry) (total : ℕ)
    → n ≤ usize_max
    → encoded_len_loop n rs ≡ some total
    → (total ≡ n + entries_len rs) × (total ≤ usize_max)
unfolding encoded_len_loop
encoded_len_loop-eq-some n [] total fits h = ground arith
encoded_len_loop-eq-some n ((content, media_type, name) ∷ rs) total fits h = ground (
  arith,
  encoded_len_loop-eq-some (n + (8 + length media_type) + (8 + length name) + (8 + length content))
      rs total,
  length-entries content media_type name rs,
)

-- The strings of a resource are UTF-8.
abbrev pub IsText : ResourceEntry → Type 0
IsText (content, media_type, name) = (is_utf8 media_type ≡ true) × (is_utf8 name ≡ true)

-- The readers, at a cursor where a field stands.
module _ (input : List ℕ) (fits : length input ≤ usize_max) where
  read_len-field :
      (cursor : ℕ) (bytes rest : List ℕ)
      → IsAt input cursor (field bytes ++ rest)
      → (read_len input cursor ≡ some (length bytes, cursor + 8))
        × IsAt input (cursor + 8) (bytes ++ rest)
  unfolding read_len
  read_len-field cursor bytes rest at =
      let len = to_le 8 (length bytes) in
      let at' : IsAt input cursor (len ++ (bytes ++ rest)) =
        rw (append_assoc len bytes rest) at at in
      let total = IsAt-length input cursor (len ++ (bytes ++ rest)) at' in
      let long = length-append len (bytes ++ rest) in
      let end : cursor + 8 ≡ cursor + length len = omega (arith, length-to_le 8 (length bytes)) in
      let small = length-append bytes rest in
      let back = from_le-to_le 8 (length bytes) (omega arith) in
      (
        ground (
          arith,
          get_range-IsAt input cursor (cursor + 8) len (bytes ++ rest) end at',
          back,
          length-to_le 8 (length bytes),
        ),
        IsAt-skip input cursor (cursor + 8) len (bytes ++ rest) end at',
      )

  read_bytes-field :
      (cursor : ℕ) (bytes rest : List ℕ)
      → IsAt input cursor (bytes ++ rest)
      → (read_bytes input cursor (length bytes) ≡ some (bytes, cursor + length bytes))
        × IsAt input (cursor + length bytes) rest
  unfolding read_bytes
  read_bytes-field cursor bytes rest at =
      let total = IsAt-length input cursor (bytes ++ rest) at in
      let long = length-append bytes rest in
      (
        ground (arith, get_range-IsAt input cursor (cursor + length bytes) bytes rest refl at),
        IsAt-skip input cursor (cursor + length bytes) bytes rest refl at,
      )

  read_string-field :
      (cursor : ℕ) (bytes rest : List ℕ)
      → is_utf8 bytes ≡ true
      → IsAt input cursor (field bytes ++ rest)
      → (read_string input cursor ≡ some (bytes, cursor + 8 + length bytes))
        × IsAt input (cursor + 8 + length bytes) rest
  unfolding read_string utf8_or_default
  read_string-field cursor bytes rest text at =
      let (len, at') = read_len-field cursor bytes rest at in
      let (body, at'') = read_bytes-field (cursor + 8) bytes rest at' in
      (rw (len, body, text), at'')

  read_resource-entries :
      (cursor : ℕ) (content media_type name : List ℕ) (rs : List ResourceEntry)
      → is_utf8 media_type ≡ true
      → is_utf8 name ≡ true
      → IsAt input cursor (entries ((content, media_type, name) ∷ rs))
      → (end : ℕ) × (read_resource input cursor ≡ some ((content, media_type, name), end))
        × IsAt input end (entries rs)
  unfolding read_resource
  read_resource-entries cursor content media_type name rs text_type text_name at =
      let (a, at₁) =
        read_string-field cursor media_type (field name ++ (field content ++ entries rs)) text_type
          at in
      let (b, at₂) =
        read_string-field (cursor + 8 + length media_type) name (field content ++ entries rs)
          text_name at₁ in
      let start = cursor + 8 + length media_type + 8 + length name in
      let (c, at₃) = read_len-field start content (entries rs) at₂ in
      let (d, at₄) = read_bytes-field (start + 8) content (entries rs) at₃ in
      (start + 8 + length content, rw (a, b, c, d), at₄)

  decode_loop-entries :
      (rs : List ResourceEntry) (rounds cursor : ℕ) (resources : List ResourceEntry)
      → All IsText rs
      → length (entries rs) ≤ rounds
      → IsAt input cursor (entries rs)
      → decode_loop rounds input cursor resources ≡ some (resources ++ rs)
  unfolding decode_loop
  decode_loop-entries [] zero cursor resources text enough at =
      ground (arith, IsAt-length input cursor [] at, append-nil resources)
  decode_loop-entries [] (suc rounds) cursor resources text enough at =
      ground (arith, IsAt-length input cursor [] at, append-nil resources)
  decode_loop-entries ((content, media_type, name) ∷ rs) zero cursor resources text enough at =
      absurd (omega (arith, length-entries content media_type name rs))
  decode_loop-entries ((content, media_type, name) ∷ rs) (suc rounds) cursor resources text enough
        at =
      let entry : ResourceEntry = (content, media_type, name) in
      let (end, read, at') =
        read_resource-entries cursor content media_type name rs text.0.0 text.0.1 at in
      let more : ltb cursor (length input) ≡ true = lt→ltb _ _ (
        omega (
          arith,
          IsAt-length input cursor (entries (entry ∷ rs)) at,
          length-entries content media_type name rs,
        )) in
      rw (more, read)
        (decode_loop-entries rs rounds end (resources ++ (entry ∷ [])) text.1
            (omega (arith, length-entries content media_type name rs)) at'
          ∙ ap some (append_assoc resources (entry ∷ []) rs))

-- The bytes of a whole bundle.
unfoldable pub bundle : List ResourceEntry → List ℕ → List ℕ
bundle rs index = field index ++ entries rs

-- Whatever is encoded has the announced layout, so its length is exactly the one that was checked
-- and reserved, and no longer than a usize can say.
pub encode-eq-bundle :
    (reserves : ℕ → Bool) (rs : List ResourceEntry) (index encoded : List ℕ)
    → encode_resource_bundle reserves rs index ≡ some encoded
    → (encoded ≡ bundle rs index)
      × (length encoded ≤ usize_max)
      × (reserves (length encoded) ≡ true)
unfolding encode_resource_bundle encoded_field_len bundle
encode-eq-bundle reserves rs index encoded h =
    let whole = length-append (field index) (entries rs) in
    let pushed = push_resources-entries (push_field [] index) rs in
    elim (Option-cases (encoded_len_loop (8 + length index) rs)) [
      | inl e ↦ absurd (ground (arith, e))
      | inr (total, e) ↦
          unfold push_field in
          ground (
            arith,
            e,
            pushed,
            encoded_len_loop-eq-some (8 + length index) rs total,
            length-field index,
            whole,
          )
    ]

encoded_len_loop_total :
    (n : ℕ) (rs : List ResourceEntry)
    → n + entries_len rs ≤ usize_max
    → encoded_len_loop n rs ≡ some (n + entries_len rs)
unfolding encoded_len_loop
encoded_len_loop_total n [] fits = ap some (omega arith)
encoded_len_loop_total n ((content, media_type, name) ∷ rs) fits = ground (
  arith,
  encoded_len_loop_total (n + (8 + length media_type) + (8 + length name) + (8 + length content))
      rs,
  length-entries content media_type name rs,
)

-- Where a bundle's length fits a usize and can be allocated, encoding gives that bundle.
encode_total :
    (reserves : ℕ → Bool) (rs : List ResourceEntry) (index : List ℕ)
    → length (bundle rs index) ≤ usize_max
    → reserves (length (bundle rs index)) ≡ true
    → encode_resource_bundle reserves rs index ≡ some (bundle rs index)
unfolding encode_resource_bundle encoded_field_len bundle
encode_total reserves rs index fits room =
    let whole = length-append (field index) (entries rs) in
    let len : 8 + length index + entries_len rs ≡ length (field index ++ entries rs) =
      omega (arith, whole, length-field index) in
    let room' : reserves (8 + length index + entries_len rs) ≡ true = rw len room in
    let first : leb (8 + length index) usize_max ≡ true =
      le→leb _ _ (omega (arith, length-field index)) in
    rw
      (
        first,
        encoded_len_loop_total (8 + length index) rs (omega (arith, length-field index)),
        room',
      )
      (ap some (push_resources-entries (push_field [] index) rs ∙ unfold push_field in refl))

decode-bundle :
    (rs : List ResourceEntry) (index : List ℕ)
    → length (bundle rs index) ≤ usize_max
    → is_utf8 index ≡ true
    → All IsText rs
    → decode_resource_bundle (bundle rs index) ≡ some (rs, index)
unfolding decode_resource_bundle bundle
decode-bundle rs index fits text texts =
    let input = field index ++ entries rs in
    let (first, at) = read_string-field input fits 0 index (entries rs) text (IsAt-start input) in
    rw (
      first,
      decode_loop-entries input fits rs (length input) _ [] texts
          (omega (arith, IsAt-length input _ (entries rs) at)) at,
    )

-- Where a bundle's length fits a usize and can be allocated, encoding succeeds, and what it gives
-- decodes to the same resources and index. The index, the media types and the names are UTF-8, as
-- Rust strings are; the contents are any bytes.
pub decode-encode_bundle :
    (reserves : ℕ → Bool) (rs : List ResourceEntry) (index : List ℕ)
    → length (bundle rs index) ≤ usize_max
    → reserves (length (bundle rs index)) ≡ true
    → is_utf8 index ≡ true
    → All IsText rs
    → (encoded : List ℕ) × (encode_resource_bundle reserves rs index ≡ some encoded)
      × (decode_resource_bundle encoded ≡ some (rs, index))
decode-encode_bundle reserves rs index fits room text texts = (
  bundle rs index,
  encode_total reserves rs index fits room,
  decode-bundle rs index fits text texts,
)
