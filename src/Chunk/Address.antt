-- ===== src/Chunk/Address.antt =====
-- src/conventions.rs and src/feed.rs: the addresses of chunks, and the hashes behind them.
use weeb.Prelude.{
  ℕ, ◌+◌, ◌≤◌, Bool, true, false, Bool-cases, ◌&&◌, if◌then◌else◌, leb, ◌==◌, Option, none, some,
  ◌>>=◌, ◌>>◌, guard, List, [], ◌∷◌, ◌++◌, length, length-drop, take, drop, replicate, to_le, to_be,
  ◌≡◌, ◌↔◌, refl, inl, inr, arith,
}
use mathlib.Core.Option
use weeb.Prelude.Text.{text_eq, text_eq_refl, text_eq_sound}
use weeb.Chunk.Keccak.{keccak256}
use weeb.Erasure.Tree.{chunk_size}
use weeb.Erasure.Span.{span_size}
use weeb.Chunk.Bmt.{bmt_root}
use weeb.Chunk.Bmt.Root.{full_root, bmt_root-full_root}

-- `None` where there is no whole span, or too much behind it.
unfoldable pub content_address_array : List ℕ → Option (List ℕ)
content_address_array chunk_content = do
  guard (leb span_size (length chunk_content))
  root ← bmt_root (drop span_size chunk_content)
  some (keccak256 (take span_size chunk_content ++ root))

unfoldable pub content_address : List ℕ → List ℕ
unfolding content_address_array
content_address chunk_content = Option.get_or (content_address_array chunk_content) []

unfoldable pub valid_cac : List ℕ → List ℕ → Bool
valid_cac chunk_content address = elim (content_address_array chunk_content) [
  | none ↦ false
  | some expected ↦ text_eq address expected
]

abbrev pub bee_replica_owner : List ℕ
bee_replica_owner =
    0xdc ∷ 0x5b ∷ 0x20 ∷ 0x84 ∷ 0x7f ∷ 0x43 ∷ 0xd6 ∷ 0x79 ∷ 0x28 ∷ 0xf4 ∷ 0x9c ∷ 0xd4 ∷ 0xf8 ∷ 0x5d
    ∷ 0x69 ∷ 0x6b ∷ 0x5a ∷ 0x76 ∷ 0x17 ∷ 0xb5 ∷ []

unfoldable pub bee_replica_address : List ℕ → List ℕ
bee_replica_address id = keccak256 (id ++ bee_replica_owner)

unfoldable pub encryption_segment_key : List ℕ → ℕ → List ℕ
encryption_segment_key key counter = keccak256 (keccak256 (key ++ to_le 4 counter))

unfoldable pub sequence_index_bytes : ℕ → List ℕ
sequence_index_bytes index = to_be 8 index

-- With the hash as the source passes it on.
unfoldable pub sequence_feed_id : List ℕ → ℕ → (List ℕ → List ℕ) → List ℕ
unfolding sequence_index_bytes
sequence_feed_id topic index keccak = keccak (topic ++ sequence_index_bytes index)

unfoldable pub sequence_feed_address : List ℕ → List ℕ → ℕ → (List ℕ → List ℕ) → List ℕ
unfolding sequence_feed_id
sequence_feed_address topic owner index keccak =
    keccak (sequence_feed_id topic index keccak ++ owner)

unfoldable pub generate_sign_data : List ℕ → List ℕ → ℕ → List ℕ → ℕ → List ℕ → List ℕ
generate_sign_data underlay overlay network_id nonce timestamp chequebook_address =
    (98 ∷ 101 ∷ 101 ∷ 45 ∷ 104 ∷ 97 ∷ 110 ∷ 100 ∷ 115 ∷ 104 ∷ 97 ∷ 107 ∷ 101 ∷ 45 ∷ [])
    ++ (underlay
        ++ (overlay
            ++ (to_be 8 network_id
                ++ (nonce
                    ++ (to_be 8 timestamp
                        ++ (if length chequebook_address == 0
                            then replicate 20 0
                            else chequebook_address))))))

-- The hash that a chunk is stored under.
abbrev pub chunk_hash : List ℕ → List ℕ
chunk_hash chunk_content =
    keccak256 (take span_size chunk_content ++ full_root (drop span_size chunk_content))

pub content_address_array_lem :
    (chunk_content : List ℕ)
    → content_address_array chunk_content ≡ (
        if leb span_size (length chunk_content)
          && leb (length chunk_content) (span_size + chunk_size)
        then some (chunk_hash chunk_content)
        else none)
unfolding content_address_array
content_address_array_lem chunk_content =
    let n = length-drop span_size chunk_content in
    elim (Bool-cases (leb span_size (length chunk_content))) [
      | inr short ↦ rw short refl
      | inl long ↦
          let same : leb (length (drop span_size chunk_content)) chunk_size
              ≡ leb (length chunk_content) (span_size + chunk_size) =
            ground (arith, long, n) in
          let root = bmt_root-full_root (drop span_size chunk_content) in
          elim (Bool-cases (leb (length chunk_content) (span_size + chunk_size))) [
            | inl fits ↦
                let found : bmt_root (drop span_size chunk_content)
                    ≡ some (full_root (drop span_size chunk_content)) =
                  rw (same, fits) at root in
                rw (long, fits) (rw (found, ◌>>=◌) refl)
            | inr large ↦
                let none_found : bmt_root (drop span_size chunk_content) ≡ none =
                  rw (same, large) at root in
                rw (long, large) (rw (none_found, ◌>>=◌) refl)
          ]
    ]

-- An address is taken for a chunk exactly if the chunk has a whole span and at most 4096 bytes
-- behind it, and the address is the hash of the span and the root of the whole tree.
pub valid_cac_iff :
    (chunk_content address : List ℕ)
    → (valid_cac chunk_content address ≡ true) ↔ (
        (span_size ≤ length chunk_content)
        × (length chunk_content ≤ span_size + chunk_size)
        × (address ≡ chunk_hash chunk_content))
unfolding valid_cac
valid_cac_iff chunk_content address =
    let whole = content_address_array_lem chunk_content in
    elim (Bool-cases (
      leb span_size (length chunk_content)
      && leb (length chunk_content) (span_size + chunk_size))) [
        | inl t ↦
            let found : content_address_array chunk_content ≡ some (chunk_hash chunk_content) =
              rw t at whole in
            rw (valid_cac, found)
              (
                λ h. (
                  ground (arith, t),
                  ground (arith, t),
                  text_eq_sound address (chunk_hash chunk_content) h,
                ),
                λ p. rw (p.2) (text_eq_refl (chunk_hash chunk_content)),
              )
        | inr f ↦
            let none_found : content_address_array chunk_content ≡ none = rw f at whole in
            rw (valid_cac, none_found)
              (λ h. absurd (ground (arith, h)), λ p. absurd (ground (arith, f, p.0, p.1)))
      ]
