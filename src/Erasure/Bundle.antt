-- ===== src/Erasure/Bundle.antt =====
-- src/erasure_coding.rs: the resource bundle, a list of byte fields with 8-byte lengths.
pub mod RoundTrip
use weeb.Prelude.{
  ℕ, zero, suc, ◌+◌, Bool, if◌then◌else◌, ltb, Option, none, some, ◌>>=◌, ◌>>◌, guard, checked_add,
  try_from, usize_max, List, [], ◌∷◌, ◌++◌, length, get_range, to_le, from_le, utf8_or_default,
}

-- Data, media type and name. A string is its bytes.
abbrev pub ResourceEntry : Type 0
ResourceEntry = List ℕ × List ℕ × List ℕ

unfoldable pub encoded_field_len : ℕ → Option ℕ
encoded_field_len len = checked_add usize_max 8 len

unfoldable pub push_field : List ℕ → List ℕ → List ℕ
push_field output bytes = output ++ (to_le 8 (length bytes) ++ bytes)

-- The length that the bundle will have, from the length so far.
unfoldable pub encoded_len_loop : ℕ → List ResourceEntry → Option ℕ
unfolding encoded_field_len
encoded_len_loop encoded_len [] = some encoded_len
encoded_len_loop encoded_len ((content, media_type, name) ∷ resources) = do
  media_type_len ← encoded_field_len (length media_type)
  with_media_type ← checked_add usize_max encoded_len media_type_len
  name_len ← encoded_field_len (length name)
  with_name ← checked_add usize_max with_media_type name_len
  content_len ← encoded_field_len (length content)
  with_content ← checked_add usize_max with_name content_len
  encoded_len_loop with_content resources

unfoldable pub push_resources : List ℕ → List ResourceEntry → List ℕ
unfolding push_field
push_resources output [] = output
push_resources output ((content, media_type, name) ∷ resources) =
    push_resources (push_field (push_field (push_field output media_type) name) content) resources

-- `reserves` says whether the allocator gives out that many bytes.
unfoldable pub encode_resource_bundle : (ℕ → Bool) → List ResourceEntry → List ℕ → Option (List ℕ)
encode_resource_bundle reserves resources index = do
  index_len ← encoded_field_len (length index)
  encoded_len ← encoded_len_loop index_len resources
  guard (reserves encoded_len)
  some (push_resources (push_field [] index) resources)

-- A reader returns what it read and the cursor behind it.
unfoldable pub read_len : List ℕ → ℕ → Option (ℕ × ℕ)
read_len input cursor = do
  end ← checked_add usize_max cursor 8
  bytes ← get_range input cursor end
  len ← try_from usize_max (from_le bytes)
  some (len, end)

unfoldable pub read_bytes : List ℕ → ℕ → ℕ → Option (List ℕ × ℕ)
read_bytes input cursor len = do
  end ← checked_add usize_max cursor len
  bytes ← get_range input cursor end
  some (bytes, end)

unfoldable pub read_string : List ℕ → ℕ → Option (List ℕ × ℕ)
read_string input cursor = do
  (len, start) ← read_len input cursor
  (bytes, end) ← read_bytes input start len
  some (utf8_or_default bytes, end)

-- One round of the decoding loop.
unfoldable pub read_resource : List ℕ → ℕ → Option (ResourceEntry × ℕ)
read_resource input cursor = do
  (media_type, after_type) ← read_string input cursor
  (name, after_name) ← read_string input after_type
  (content_len, start) ← read_len input after_name
  (content, end) ← read_bytes input start content_len
  some ((content, media_type, name), end)

-- The loop. A round takes 24 bytes at least, so the bytes of the input are rounds enough.
unfoldable pub decode_loop : ℕ → List ℕ → ℕ → List ResourceEntry → Option (List ResourceEntry)
decode_loop zero input cursor resources = if ltb cursor (length input) then none else some resources
decode_loop (suc rounds) input cursor resources =
    if ltb cursor (length input)
    then (do
      (entry, end) ← read_resource input cursor
      decode_loop rounds input end (resources ++ (entry ∷ [])))
    else some resources

unfoldable pub decode_resource_bundle : List ℕ → Option (List ResourceEntry × List ℕ)
decode_resource_bundle input = do
  (index, cursor) ← read_string input 0
  resources ← decode_loop (length input) input cursor []
  some (resources, index)
