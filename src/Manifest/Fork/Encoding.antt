-- ===== src/Manifest/Fork/Encoding.antt =====
-- src/manifest.rs: the bytes of an entry.
use weeb.Prelude.{
  ℕ, zero, suc, ◌+◌, ◌-◌, ◌%◌, ◌≤◌, ◌<◌, Bool, true, false, not, ◌||◌, ltb, ◌==◌, Option, some,
  List, [], ◌∷◌, ◌++◌, length, take, get_or, get_range-append, replicate, ◌≡◌, refl, ap, arith, ◌⊎◌,
}
use mathlib.Core.List.{append_assoc}
use mathlib.Core.Option
use weeb.Manifest.Fork.{
  fork_type, is_empty, stored_metadata_len, metadata_part, encode_fork_with_separator_path,
  fork_prefix,
}

-- What an entry is made from.
pub record Entry : Type 0 where
  pub prefix : List ℕ
  pub reference : List ℕ
  pub metadata : List ℕ
  pub has_edge : Bool
  pub separator_path : List ℕ

abbrev pub encode : Entry → Option (List ℕ)
encode e =
    encode_fork_with_separator_path e.prefix e.reference e.metadata e.has_edge e.separator_path

-- An entry that can be encoded in a node whose references have a size, and the length that its
-- metadata are stored with.
pub record IsEntry (ref_size : ℕ) (e : Entry) : Type 0 where
  pub some_prefix : 0 < length e.prefix
  pub short : length e.prefix ≤ 30
  pub byte : get_or e.prefix 0 0 < 256
  pub sized : length e.reference ≡ ref_size
  pub stored : Option ℕ
  pub stores : stored_metadata_len e.metadata ≡ some stored

abbrev pub entry_type : Entry → ℕ
entry_type e =
    fork_type e.separator_path (not (is_empty e.metadata)) e.has_edge (not (is_empty e.metadata))

-- The bytes of an entry whose metadata are stored with a length.
abbrev pub entry_bytes : Entry → Option ℕ → List ℕ
entry_bytes e stored =
    entry_type e
    ∷ (length e.prefix
        ∷ (e.prefix
            ++ (replicate (30 - length e.prefix) 0
                ++ (e.reference ++ metadata_part stored e.metadata))))

take-all : {A : Type 0} (n : ℕ) (xs : List A) → length xs ≤ n → take n xs ≡ xs
take-all zero [] h = refl
take-all zero (x ∷ xs) h = absurd (omega arith)
take-all (suc n) [] h = refl
take-all (suc n) (x ∷ xs) h = ap (◌∷◌ x) (take-all n xs (omega arith))

pub is_empty-pos : (xs : List ℕ) → 0 < length xs → is_empty xs ≡ false
is_empty-pos [] h = absurd (omega arith)
is_empty-pos (x ∷ xs) h = refl

pub encode-eq-some :
    (ref_size : ℕ) (e : Entry) (v : IsEntry ref_size e)
    → (ref_size ≡ 32) ⊎ (ref_size ≡ 64)
    → encode e ≡ some (entry_bytes e v.stored)
unfolding encode_fork_with_separator_path
encode-eq-some ref_size e v size =
    let p : length e.prefix % 256 ≡ length e.prefix = omega (arith, v.short) in
    let sized : (length e.reference == 32 || length e.reference == 64) ≡ true =
      ground (arith, v.sized) in
    let long : ltb 30 (length e.prefix) ≡ false = ground (arith, v.short) in
    let pad : 32 - suc (suc (length e.prefix)) ≡ 30 - length e.prefix = omega arith in
    rw
      (
        is_empty-pos e.prefix v.some_prefix,
        long,
        sized,
        v.stores,
        p,
        take-all 30 e.prefix v.short,
        pad,
      )
      (ap (λ (t : List ℕ). some (entry_type e ∷ (length e.prefix ∷ t)))
        (append_assoc e.prefix (replicate (30 - length e.prefix) 0)
          (e.reference ++ metadata_part v.stored e.metadata)))

pub fork_prefix-entry_bytes :
    (ref_size : ℕ) (e : Entry) (v : IsEntry ref_size e) (stored : Option ℕ)
    → fork_prefix (entry_bytes e stored) ≡ e.prefix
unfolding fork_prefix
fork_prefix-entry_bytes ref_size e v stored =
    let found =
      get_range-append (entry_type e ∷ (length e.prefix ∷ [])) e.prefix
        (replicate (30 - length e.prefix) 0 ++ (e.reference ++ metadata_part stored e.metadata)) 2
        (2 + length e.prefix) refl refl in
    ap (λ r. Option.get_or r []) found
