-- ===== src/Chunk/Signer.antt =====
-- src/conventions.rs: signers of messages, and single owner chunks. The curve of k256 is a parameter:
-- how bytes are read as a signature, its normal form where that is another, the recovery of a key
-- from a hash, a signature and the parity of its point, and a key as an uncompressed point.
use weeb.Prelude.{
  le→leb, take_append, drop_append, length-append, Option-cases, ◌≤◌, ◌≡◌, ◌↔◌, refl, sym, ap, ◌∙◌,
  inl, inr, arith, ℕ, ◌+◌, ◌%◌, Bool, true, false, not, ◌||◌, if◌then◌else◌, ltb, leb, ◌==◌, Option,
  none, some, ◌>>=◌, ◌>>◌, guard, List, [], ◌∷◌, ◌++◌, length, take, drop, get_or, replicate,
}
use mathlib.Core.List.{append_assoc}
use mathlib.Core.Option
use weeb.Erasure.Tree.{chunk_size}
use weeb.Prelude.Text.{text_eq, text_eq_refl, text_eq_sound}
use weeb.Prelude.Decimal.{decimal}
use weeb.Erasure.Span.{span_size}
use weeb.Chunk.Keccak.{keccak256}
use weeb.Chunk.Address.{
  chunk_hash, content_address_array_lem, content_address_array, generate_sign_data,
}

abbrev pub message_prefix : List ℕ
message_prefix =
    25 ∷ 69 ∷ 116 ∷ 104 ∷ 101 ∷ 114 ∷ 101 ∷ 117 ∷ 109 ∷ 32 ∷ 83 ∷ 105 ∷ 103 ∷ 110 ∷ 101 ∷ 100 ∷ 32
    ∷ 77 ∷ 101 ∷ 115 ∷ 115 ∷ 97 ∷ 103 ∷ 101 ∷ 58 ∷ 10 ∷ []

unfoldable pub eip191_hash_message : List ℕ → List ℕ
unfolding decimal
eip191_hash_message message = keccak256 (message_prefix ++ (decimal (length message) ++ message))

-- The labels of a name, between dots.
unfoldable pub labels : List ℕ → List (List ℕ)
labels [] = [] ∷ []
labels (c ∷ cs) =
    if c == 46
    then [] ∷ labels cs
    else (elim (labels cs) [ [] ↦ (c ∷ []) ∷ [] | label ∷ rest ↦ (c ∷ label) ∷ rest ])

-- The fold from the last label on.
unfoldable pub hash_labels : List (List ℕ) → List ℕ
hash_labels [] = replicate 32 0
hash_labels (label ∷ rest) = keccak256 (hash_labels rest ++ keccak256 label)

unfoldable pub namehash : List ℕ → List ℕ
unfolding hash_labels labels
namehash name = if length name == 0 then replicate 32 0 else hash_labels (labels name)

unfoldable pub recovery_parity : ℕ → Option Bool
recovery_parity v =
    if v == 0 || v == 1
    then some (v == 1)
    else if v == 27 || v == 28 || leb 35 v
    then some (v % 2 == 0)
    else none

not_ltb : (a b : ℕ) → b ≤ a → ltb a b ≡ false
not_ltb a b h = ground arith

false-ne-true : ¬ (false ≡ true)
false-ne-true h = cc h

none-ne-some : {a : List ℕ} → ¬ (none ≡ some a)
none-ne-some h = cc h

some_same : {a b : List ℕ} → some a ≡ some b → b ≡ a
some_same h = cc h

module _ {Signature VerifyingKey : Type 0} (from_slice : List ℕ → Option Signature)
    (normalize_s : Signature → Option Signature)
    (recover_from_prehash : List ℕ → Signature → Bool → Option VerifyingKey)
    (encoded_point : VerifyingKey → List ℕ) where
  unfoldable pub public_key_address : VerifyingKey → List ℕ
  public_key_address key = drop 12 (keccak256 (drop 1 (encoded_point key)))

  unfoldable pub normal_form : Signature → Bool → Signature × Bool
  normal_form sig parity = elim (normalize_s sig) [
    | none ↦ (sig, parity)
    | some normalized ↦ (normalized, not parity)
  ]

  unfoldable pub recover_address : List ℕ → List ℕ → Option (List ℕ)
  unfolding recovery_parity normal_form public_key_address eip191_hash_message
  recover_address signature message = do
    guard (length signature == 65)
    parity ← recovery_parity (get_or signature 64 0)
    sig ← from_slice (take 64 signature)
    let normal = normal_form sig parity
    key ← recover_from_prehash (eip191_hash_message message) normal.0 normal.1
    some (public_key_address key)

  -- The three parts of the chunk, and the address.
  unfoldable pub soc_check : List ℕ → List ℕ → List ℕ → List ℕ → Bool
  soc_check soc_address soc_signature content address = elim (content_address_array content) [
    | none ↦ false
    | some wrapped_address ↦
        (elim (recover_address soc_signature (keccak256 (soc_address ++ wrapped_address))) [
          | none ↦ false
          | some owner ↦ text_eq address (keccak256 (soc_address ++ owner))
        ])
  ]

  unfoldable pub valid_soc : List ℕ → List ℕ → Bool
  valid_soc chunk_content address =
      if ltb (length chunk_content) (97 + span_size)
      then false
      else soc_check (take 32 chunk_content) (take 65 (drop 32 chunk_content))
          (drop 97 chunk_content) address

  unfoldable pub parse_address : List ℕ → List ℕ → List ℕ → List ℕ → ℕ → ℕ → List ℕ → List ℕ
  unfolding recover_address generate_sign_data
  parse_address underlay overlay signature nonce timestamp network_id chequebook_address =
      Option.get_or
        (recover_address signature
          (generate_sign_data underlay overlay network_id nonce timestamp chequebook_address))
        (replicate 20 0)

  soc_check_iff :
      (id signature content address hash : List ℕ)
      → content_address_array content ≡ some hash
      → (soc_check id signature content address ≡ true) ↔ (
          (owner : List ℕ) × (recover_address signature (keccak256 (id ++ hash)) ≡ some owner)
          × (address ≡ keccak256 (id ++ owner)))
  unfolding soc_check
  soc_check_iff id signature content address hash wrapped =
      elim (Option-cases (recover_address signature (keccak256 (id ++ hash)))) [
        | inl e ↦
            rw (soc_check, wrapped)
              (rw e (λ h. absurd (false-ne-true h), λ p. absurd (none-ne-some p.1)))
        | inr (owner, e) ↦
            rw (soc_check, wrapped)
              (rw e (
                λ h. (owner, refl, text_eq_sound address (keccak256 (id ++ owner)) h),
                λ p. rw (p.2, some_same p.1) (text_eq_refl (keccak256 (id ++ owner))),
              ))
      ]

  -- A single owner chunk with a span and at most 4096 bytes behind its id and its signature is taken
  -- for an address exactly if a signer is recovered from the signature over the id and the content
  -- address, and the address is the hash of the id and that signer.
  pub valid_soc_iff :
      (id signature content address : List ℕ)
      → length id ≡ 32
      → length signature ≡ 65
      → span_size ≤ length content
      → length content ≤ span_size + chunk_size
      → (valid_soc (id ++ (signature ++ content)) address ≡ true) ↔ (
          (owner : List ℕ) × (recover_address signature (keccak256 (id ++ chunk_hash content))
            ≡ some owner)
          × (address ≡ keccak256 (id ++ owner)))
  unfolding valid_soc
  valid_soc_iff id signature content address hi hs lo hi' =
      let n : length (id ++ signature) ≡ 97 = omega (arith, length-append id signature) in
      let c : drop 97 (id ++ (signature ++ content)) ≡ content =
        ap (drop 97) (sym (append_assoc id signature content))
        ∙ drop_append 97 (id ++ signature) content n in
      let long : ltb (length (id ++ (signature ++ content))) (97 + span_size) ≡ false =
        not_ltb _ _ (
          omega
            (arith, length-append id (signature ++ content), length-append signature content)) in
      let wrapped : content_address_array content ≡ some (chunk_hash content) =
        rw (le→leb _ _ lo, le→leb _ _ hi') at (content_address_array_lem content) in
      rw
        (
          valid_soc,
          long,
          take_append 32 id (signature ++ content) hi,
          drop_append 32 id (signature ++ content) hi,
          take_append 65 signature content hs,
          c,
        )
        (soc_check_iff id signature content address (chunk_hash content) wrapped)
