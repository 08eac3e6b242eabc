-- ===== src/Manifest/Parse/Decrypt.antt =====
-- src/manifest.rs and src/manifest_upload.rs: an obfuscated node is made readable again.
use weeb.Prelude.{
  ℕ, suc, ◌+◌, ◌%◌, ◌≤◌, Bool, true, false, Bool-cases, if◌then◌else◌, ltb, leb, Option, some,
  ◌>>=◌, ◌>>◌, guard, checked_add, List, [], ◌∷◌, ◌++◌, length, length-append, take, drop,
  take_append, drop_append, get_or, IsAt, IsAt-start, IsAt-skip, IsAt-length, usize_max, ◌≡◌, ◌⊎◌,
  inl, inr, refl, sym, ap, ◌∙◌, arith,
}
use mathlib.Core.List.{append_assoc}
use weeb.Prelude.Bits.{bit_xor_cancel}
use weeb.Prelude.Text.{text_eq}
use weeb.Manifest.Node.{xor_cycle, any_nonzero, obfuscate_manifest, mantaray_version_02}
use weeb.Manifest.Parse.{
  slice, decrypted, valid_manifest_version, valid_reference_size, decrypt_manifest_in_place,
}
use weeb.Manifest.Parse.Decode.{slice-IsAt, get_or-IsAt}

xor_cycle_twice :
    (key : List ℕ) (offset : ℕ) (bs : List ℕ) → xor_cycle key offset (xor_cycle key offset bs) ≡ bs
unfolding xor_cycle
xor_cycle_twice key offset [] = refl
xor_cycle_twice key offset (b ∷ bs) =
    rw (bit_xor_cancel b (get_or key (offset % 32) 0))
      (ap (◌∷◌ b) (xor_cycle_twice key (offset + 1) bs))

pub length-xor_cycle :
    (key : List ℕ) (offset : ℕ) (bs : List ℕ) → length (xor_cycle key offset bs) ≡ length bs
unfolding xor_cycle
length-xor_cycle key offset [] = refl
length-xor_cycle key offset (b ∷ bs) = ap suc (length-xor_cycle key (offset + 1) bs)

-- How the obfuscation of a node with its key comes out.
obfuscate_cases :
    (key content : List ℕ)
    → length key ≡ 32
    → ((any_nonzero key ≡ true)
        × (obfuscate_manifest (key ++ content) ≡ key ++ xor_cycle key 0 content))
      ⊎ ((any_nonzero key ≡ false) × (obfuscate_manifest (key ++ content) ≡ key ++ content))
unfolding obfuscate_manifest
obfuscate_cases key content e =
    let k = take_append 32 key content e in
    let d = drop_append 32 key content e in
    elim (Bool-cases (any_nonzero key)) [
      | inl t ↦ inl (t, rw (k, d, t) refl)
      | inr f ↦ inr (f, rw (k, d, f) refl)
    ]

pub length-obfuscate_manifest :
    (key content : List ℕ)
    → length key ≡ 32
    → length (obfuscate_manifest (key ++ content)) ≡ 32 + length content
length-obfuscate_manifest key content e = elim (obfuscate_cases key content e) [
  | inl (t, o) ↦ omega (
    arith,
    ap length o,
    length-append key (xor_cycle key 0 content),
    length-xor_cycle key 0 content,
  )
  | inr (f, o) ↦ omega (arith, ap length o, length-append key content)
]

-- The bytes behind the key, after the decryption.
decrypted_parts :
    (span key content : List ℕ)
    → length span ≡ 8
    → length key ≡ 32
    → decrypted (span ++ (key ++ content)) ≡ (
        if any_nonzero key
        then span ++ (key ++ xor_cycle key 0 content)
        else span ++ (key ++ content))
unfolding decrypted
decrypted_parts span key content hs hk =
    let at : IsAt (span ++ (key ++ content)) 8 (key ++ content) =
      IsAt-skip (span ++ (key ++ content)) 0 8 span (key ++ content) (omega arith) (IsAt-start _) in
    let k = slice-IsAt (span ++ (key ++ content)) key content 8 40 (omega arith) at in
    let long : length (span ++ key) ≡ 40 = omega (arith, length-append span key) in
    let t : take 40 (span ++ (key ++ content)) ≡ span ++ key =
      rw (sym (append_assoc span key content)) (take_append 40 (span ++ key) content long) in
    let d : drop 40 (span ++ (key ++ content)) ≡ content =
      rw (sym (append_assoc span key content)) (drop_append 40 (span ++ key) content long) in
    rw (k, t, d, append_assoc span key (xor_cycle key 0 content)) refl

-- The decryption undoes the obfuscation.
pub decrypted-obfuscate_manifest :
    (span key content : List ℕ)
    → length span ≡ 8
    → length key ≡ 32
    → decrypted (span ++ obfuscate_manifest (key ++ content)) ≡ span ++ (key ++ content)
decrypted-obfuscate_manifest span key content hs hk = elim (obfuscate_cases key content hk) [
  | inl (t, o) ↦
      rw
        (
          o,
          decrypted_parts span key (xor_cycle key 0 content) hs hk,
          t,
          xor_cycle_twice key 0 content,
        )
        refl
  | inr (f, o) ↦ rw (o, decrypted_parts span key content hs hk, f) refl
]

version_02 : valid_manifest_version mantaray_version_02 ≡ true
unfolding valid_manifest_version text_eq
version_02 = refl

valid_size :
    (ref_size : ℕ) → (ref_size ≡ 32) ⊎ (ref_size ≡ 64) → valid_reference_size ref_size ≡ true
unfolding valid_reference_size
valid_size ref_size size = ground (arith, size)

-- The tests behind the decryption.
tests_pass :
    (version valid : Bool) (read ref_size size : ℕ)
    → version ≡ true
    → valid ≡ true
    → read ≡ ref_size
    → ref_size ≤ 64
    → 104 + ref_size ≤ size
    → (do
      guard version
      guard valid
      with_reference ← checked_add usize_max 72 read
      index_delimiter ← checked_add usize_max with_reference 32
      guard (leb index_delimiter size)
      some read)
      ≡ some ref_size
tests_pass version valid read ref_size size v w r small room = ground arith

decrypt_reads :
    (input plain : List ℕ) (ref_size : ℕ)
    → 72 ≤ length input
    → decrypted input ≡ plain
    → valid_manifest_version (slice plain 40 71) ≡ true
    → get_or plain 71 0 ≡ ref_size
    → valid_reference_size ref_size ≡ true
    → ref_size ≤ 64
    → 104 + ref_size ≤ length plain
    → decrypt_manifest_in_place input ≡ (plain, some ref_size)
unfolding decrypt_manifest_in_place
decrypt_reads input plain ref_size long p v r valid small room =
    let l : ltb (length input) 72 ≡ false = ground arith in
    rw (l, p)
      (ap (λ (o : Option ℕ). (plain, o))
        (tests_pass (valid_manifest_version (slice plain 40 71))
          (valid_reference_size (get_or plain 71 0)) (get_or plain 71 0) ref_size (length plain) v
          (ap valid_reference_size r ∙ valid) r small room))

-- A node that the program wrote is taken, with the size of its references.
pub decrypt_manifest_in_place-obfuscate_manifest :
    (span key rest : List ℕ) (ref_size : ℕ)
    → length span ≡ 8
    → length key ≡ 32
    → (ref_size ≡ 32) ⊎ (ref_size ≡ 64)
    → ref_size + 32 ≤ length rest
    → decrypt_manifest_in_place
        (span ++ obfuscate_manifest (key ++ (mantaray_version_02 ++ (ref_size ∷ rest))))
      ≡ (span ++ (key ++ (mantaray_version_02 ++ (ref_size ∷ rest))), some ref_size)
unfolding decrypt_manifest_in_place
decrypt_manifest_in_place-obfuscate_manifest span key rest ref_size hs hk size room =
    let content = mantaray_version_02 ++ (ref_size ∷ rest) in
    let input = span ++ obfuscate_manifest (key ++ content) in
    let plain = span ++ (key ++ content) in
    let p = decrypted-obfuscate_manifest span key content hs hk in
    let at8 : IsAt plain 8 (key ++ content) =
      IsAt-skip plain 0 8 span (key ++ content) (omega arith) (IsAt-start _) in
    let at40 : IsAt plain 40 content = IsAt-skip plain 8 40 key content (omega arith) at8 in
    let at71 : IsAt plain 71 (ref_size ∷ rest) =
      IsAt-skip plain 40 71 mantaray_version_02 (ref_size ∷ rest) (omega arith) at40 in
    let v : valid_manifest_version (slice plain 40 71) ≡ true =
      rw (slice-IsAt plain mantaray_version_02 (ref_size ∷ rest) 40 71 (omega arith) at40)
        version_02 in
    decrypt_reads input plain ref_size
      (omega (
        arith,
        length-append span (obfuscate_manifest (key ++ content)),
        length-obfuscate_manifest key content hk,
        length-append mantaray_version_02 (ref_size ∷ rest),
      ))
      p v (get_or-IsAt plain ref_size rest 71 at71) (valid_size ref_size size)
      (ground (arith, size)) (omega (arith, IsAt-length plain 71 (ref_size ∷ rest) at71))
