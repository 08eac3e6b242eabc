-- ===== src/Manifest/Parse/Header.antt =====
-- src/manifest.rs: the test of a header, without a decryption of the whole.
use weeb.Prelude.{
  ℕ, zero, suc, ◌+◌, ◌-◌, ◌%◌, ◌≤◌, ◌<◌, bit_xor, Bool, true, false, ◌&&◌, Bool-cases, ltb, leb,
  Option, none, some, ◌>>=◌, ◌>>◌, guard, checked_add, List, [], ◌∷◌, ◌++◌, length, length-append,
  length-take, length-drop, take, drop, get_or, usize_max, ◌≡◌, refl, sym, ap, ◌∙◌, inl, inr, arith,
}
use weeb.Manifest.Node.{xor_cycle, any_nonzero}
use weeb.Manifest.Parse.{
  slice, decrypted, decoded_header_byte, decoded_header, valid_manifest_version,
  valid_reference_size, is_bzz_manifest_header, decrypt_manifest_in_place,
}
use weeb.Manifest.Parse.Decrypt.{length-xor_cycle}

get_or-xor_cycle :
    (key : List ℕ) (offset i : ℕ) (bs : List ℕ)
    → i < length bs
    → get_or (xor_cycle key offset bs) i 0
      ≡ bit_xor (get_or bs i 0) (get_or key ((offset + i) % 32) 0)
unfolding xor_cycle
get_or-xor_cycle key offset i [] h = absurd (omega arith)
get_or-xor_cycle key offset zero (b ∷ bs) h = let e : offset + 0 ≡ offset = omega arith in rw e refl
get_or-xor_cycle key offset (suc i) (b ∷ bs) h =
    let e : offset + suc i ≡ offset + 1 + i = omega arith in
    rw e (get_or-xor_cycle key (offset + 1) i bs (omega arith))

get_or-append_right :
    (n i : ℕ) (xs ys : List ℕ) → length xs ≡ n → get_or (xs ++ ys) (n + i) 0 ≡ get_or ys i 0
get_or-append_right zero i [] ys e = let z : zero + i ≡ i = omega arith in rw z refl
get_or-append_right zero i (x ∷ xs) ys e = absurd (omega arith)
get_or-append_right (suc n) i [] ys e = absurd (omega arith)
get_or-append_right (suc n) i (x ∷ xs) ys e =
    let z : suc n + i ≡ suc (n + i) = omega arith in
    rw z (get_or-append_right n i xs ys (omega arith))

get_or-drop : (n i : ℕ) (xs : List ℕ) → get_or (drop n xs) i 0 ≡ get_or xs (n + i) 0
get_or-drop zero i xs = let z : zero + i ≡ i = omega arith in rw z refl
get_or-drop (suc n) i [] = refl
get_or-drop (suc n) i (x ∷ xs) =
    let z : suc n + i ≡ suc (n + i) = omega arith in rw z (get_or-drop n i xs)

abbrev key_of : List ℕ → List ℕ
key_of input = slice input 8 40

-- A byte of the decryption, by itself.
get_or-decrypted :
    (input : List ℕ) (index : ℕ)
    → 40 ≤ index
    → index < length input
    → decoded_header_byte input index (key_of input) ≡ get_or (decrypted input) index 0
unfolding decrypted decoded_header_byte
get_or-decrypted input index behind inside =
    let i = index - 40 in
    let z : index ≡ 40 + i = omega arith in
    let late : ltb index 40 ≡ false = ground arith in
    elim (Bool-cases (any_nonzero (key_of input))) [
      | inl t ↦
          let there : get_or (take 40 input ++ xor_cycle (key_of input) 0 (drop 40 input)) index 0
              ≡ get_or (xor_cycle (key_of input) 0 (drop 40 input)) i 0 =
            ap (λ k. get_or (take 40 input ++ xor_cycle (key_of input) 0 (drop 40 input)) k 0) z
            ∙ get_or-append_right 40 i (take 40 input) _ (omega (arith, length-take 40 input)) in
          let one =
            get_or-xor_cycle (key_of input) 0 i (drop 40 input)
              (omega (arith, length-drop 40 input)) in
          let byte : get_or (drop 40 input) i 0 ≡ get_or input index 0 =
            get_or-drop 40 i input ∙ ap (λ k. get_or input k 0) (sym z) in
          let n : 0 + i ≡ i = omega arith in rw (t, late) (sym (there ∙ one ∙ rw (byte, n) refl))
      | inr f ↦ rw (f, late) refl
    ]

length-decrypted : (input : List ℕ) → length (decrypted input) ≡ length input
unfolding decrypted
length-decrypted input = elim (Bool-cases (any_nonzero (key_of input))) [
  | inl t ↦ rw t (
      omega (
        arith,
        length-append (take 40 input) (xor_cycle (key_of input) 0 (drop 40 input)),
        length-xor_cycle (key_of input) 0 (drop 40 input),
        length-take 40 input,
        length-drop 40 input,
      ))
  | inr f ↦ rw f refl
]

take-drop-suc :
    (n i : ℕ) (xs : List ℕ)
    → i < length xs
    → take (suc n) (drop i xs) ≡ get_or xs i 0 ∷ take n (drop (suc i) xs)
take-drop-suc n i [] h = absurd (omega arith)
take-drop-suc n zero (x ∷ xs) h = refl
take-drop-suc n (suc i) (x ∷ xs) h = take-drop-suc n i xs (omega arith)

decoded_header-decrypted :
    (n : ℕ) (input : List ℕ) (index : ℕ)
    → 40 ≤ index
    → index + n ≤ length input
    → decoded_header n input index (key_of input) ≡ take n (drop index (decrypted input))
unfolding decoded_header
decoded_header-decrypted zero input index behind inside = refl
decoded_header-decrypted (suc n) input index behind inside =
    let z : index + 1 ≡ suc index = omega arith in
    rw
      (
        take-drop-suc n index (decrypted input) (omega (arith, length-decrypted input)),
        get_or-decrypted input index behind (omega arith),
        decoded_header-decrypted n input (index + 1) (omega arith) (omega arith),
        z,
      )
      refl

abbrev pub is_some : {A : Type 0} → Option A → Bool
is_some none = false
is_some (some a) = true

tests_same :
    (version : Bool) (read size : ℕ)
    → is_some (do
      guard version
      guard (valid_reference_size read)
      with_reference ← checked_add usize_max 72 read
      index_delimiter ← checked_add usize_max with_reference 32
      guard (leb index_delimiter size)
      some read)
      ≡ (version && valid_reference_size read && leb (72 + read + 32) size)
unfolding valid_reference_size
tests_same version read size = ground arith

-- The header test, which decodes only the bytes that it needs, passes exactly if the decryption of
-- the whole gives a size of references.
pub is_bzz_manifest_header-decrypt_manifest_in_place :
    (input : List ℕ) → is_bzz_manifest_header input ≡ is_some (decrypt_manifest_in_place input).1
unfolding is_bzz_manifest_header decrypt_manifest_in_place
is_bzz_manifest_header-decrypt_manifest_in_place input = elim (Bool-cases (ltb (length input) 72)) [
  | inl t ↦ rw t refl
  | inr f ↦
      let long : 72 ≤ length input = ground (arith, f) in
      rw
        (
          f,
          decoded_header-decrypted 31 input 40 (omega arith) (omega arith),
          get_or-decrypted input 71 (omega arith) (omega arith),
          sym (length-decrypted input),
        )
        (sym (
          tests_same (valid_manifest_version (slice (decrypted input) 40 71))
            (get_or (decrypted input) 71 0) (length (decrypted input))))
]
