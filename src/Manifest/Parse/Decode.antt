-- ===== src/Manifest/Parse/Decode.antt =====
-- src/manifest.rs: an entry is read as it was written.
use weeb.Prelude.{
  ℕ, ◌+◌, ◌-◌, ◌%◌, ◌^◌, ◌≤◌, ◌<◌, bit_and, Bool, true, false, not, if◌then◌else◌, ◌==◌, Bool-cases,
  Option-cases, Option, none, some, List, [], ◌∷◌, ◌++◌, length, drop, take_append, drop_append,
  get_or, replicate, length-replicate, length-append, to_be, to_le, from_le, from_le-to_le, reverse,
  IsAt, IsAt-skip, IsAt-length, usize_max, ◌≡◌, refl, sym, ap, arith, inl, inr, ◌⊎◌,
}
use mathlib.Core.List.{reverse-reverse, append_assoc}
use mathlib.Core.Path.{subst}
use weeb.Manifest.Fork.{
  fork_type, flag, has_separator, padded_metadata_len, is_empty, stored_metadata_len, metadata_part,
}
use weeb.Manifest.Fork.Encoding.{Entry, IsEntry, entry_bytes, entry_type}
use weeb.Manifest.Parse.{BzzManifestFork, slice, parse_metadata, parse_fork}

pub slice-IsAt :
    (input xs rest : List ℕ) (first last : ℕ)
    → last ≡ first + length xs
    → IsAt input first (xs ++ rest)
    → slice input first last ≡ xs
slice-IsAt input xs rest first last e at =
    let d : drop first input ≡ xs ++ rest =
      rw (at.parts) (drop_append first at.before (xs ++ rest) (sym at.place)) in
    rw d (take_append (last - first) xs rest (omega arith))

pub get_or-IsAt :
    (input : List ℕ) (x : ℕ) (rest : List ℕ) (i : ℕ)
    → IsAt input i (x ∷ rest)
    → get_or input i 0 ≡ x
get_or-IsAt input x rest i at = rw (at.parts, at.place) (get_or-middle at.before x rest)
  where
    get_or-middle : (ys : List ℕ) (y : ℕ) (zs : List ℕ) → get_or (ys ++ (y ∷ zs)) (length ys) 0 ≡ y
    get_or-middle [] y zs = refl
    get_or-middle (w ∷ ys) y zs = get_or-middle ys y zs

flags : (s m e : Bool) → (bit_and (flag m 16 (flag s 8 (flag e 4 (flag m 2 0)))) 16 == 16) ≡ m
flags true true true = refl
flags true true false = refl
flags true false true = refl
flags true false false = refl
flags false true true = refl
flags false true false = refl
flags false false true = refl
flags false false false = refl

metadata_flag : (e : Entry) → (bit_and (entry_type e) 16 == 16) ≡ not (is_empty e.metadata)
unfolding fork_type
metadata_flag e = flags (has_separator e.separator_path) (not (is_empty e.metadata)) e.has_edge

-- How metadata are stored.
stored_cases :
    (metadata : List ℕ) (stored : Option ℕ)
    → stored_metadata_len metadata ≡ some stored
    → ((is_empty metadata ≡ true) × (stored ≡ none))
      ⊎ ((n : ℕ) × (stored ≡ some n)
          × (is_empty metadata ≡ false)
          × (n < 2 ^ 16)
          × (length metadata ≤ n))
unfolding stored_metadata_len padded_metadata_len
stored_cases metadata stored h = elim (Bool-cases (is_empty metadata)) [
  | inl empty ↦ inl (empty, ground (arith, empty))
  | inr some_bytes ↦ elim (Option-cases (padded_metadata_len (length metadata))) [
    | inl e ↦ absurd (ground (arith, e, some_bytes))
    | inr (n, e) ↦ inr (n, ground (arith, e, some_bytes), some_bytes, ground arith, ground arith)
  ]
]

length-to_be : (v : ℕ) → length (to_be 2 v) ≡ 2
unfolding to_le
length-to_be v = refl

-- Metadata as they are stored, and where the JSON reader takes them from.
abbrev pub stored_metadata : Entry → Option ℕ → List ℕ
stored_metadata e none = []
stored_metadata e (some n) = e.metadata ++ replicate (n - length e.metadata) 10

module _ {V : Type 0} (from_slice : List ℕ → Option V) where
  -- What is read of an entry.
  abbrev pub decoded : Entry → Option ℕ → BzzManifestFork V
  decoded e stored = record {
    fork_type = entry_type e;
    prefix = e.prefix;
    reference = e.reference;
    metadata = if is_empty e.metadata then none else from_slice (stored_metadata e stored);
  }

  parse_metadata-part :
      (input : List ℕ) (cursor n : ℕ) (metadata rest : List ℕ)
      → length input ≤ usize_max
      → n < 2 ^ 16
      → length metadata ≤ n
      → IsAt input cursor (metadata_part (some n) metadata ++ rest)
      → parse_metadata from_slice input cursor
        ≡ some (from_slice (metadata ++ replicate (n - length metadata) 10), cursor + 2 + n)
  unfolding parse_metadata metadata_part
  parse_metadata-part input cursor n metadata rest fits small long at =
      let stored = metadata ++ replicate (n - length metadata) 10 in
      let l : length stored ≡ n = omega (
        arith,
        length-append metadata (replicate (n - length metadata) 10),
        length-replicate {A = ℕ} (n - length metadata) 10,
      ) in
      let v : n % 2 ^ 16 ≡ n = omega arith in
      let at1 : IsAt input cursor (to_be 2 n ++ (stored ++ rest)) =
        subst (λ t. IsAt input cursor t) (append_assoc (to_be 2 n) stored rest) (rw v at at) in
      let at2 : IsAt input (cursor + 2) (stored ++ rest) =
        IsAt-skip input cursor (cursor + 2) (to_be 2 n) (stored ++ rest)
          (omega (arith, length-to_be n)) at1 in
      let at3 : IsAt input (cursor + 2 + n) rest =
        IsAt-skip input (cursor + 2) (cursor + 2 + n) stored rest (omega arith) at2 in
      let size : from_le (reverse (to_be 2 n)) ≡ n =
        rw (reverse-reverse (to_le 2 n)) (from_le-to_le 2 n (omega arith)) in
      let a =
        slice-IsAt input (to_be 2 n) (stored ++ rest) cursor (cursor + 2)
          (omega (arith, length-to_be n)) at1 in
      let b = slice-IsAt input stored rest (cursor + 2) (cursor + 2 + n) (omega arith) at2 in
      let end = IsAt-length input (cursor + 2 + n) rest at3 in ground (arith, a, b, size, end)

  -- One round, from what it reads.
  parse_fork-reads :
      (input : List ℕ) (ref_size cursor ty len : ℕ) (prefix reference : List ℕ) (m : Option V)
      (next : ℕ)
      → cursor + 32 + ref_size ≤ length input
      → length input ≤ usize_max
      → get_or input cursor 0 ≡ ty
      → get_or input (cursor + 1) 0 ≡ len
      → 0 < len
      → len ≤ 30
      → slice input (cursor + 2) (cursor + 2 + len) ≡ prefix
      → slice input (cursor + 32) (cursor + 32 + ref_size) ≡ reference
      → (if bit_and ty 16 == 16
          then parse_metadata from_slice input (cursor + 32 + ref_size)
          else some (none, cursor + 32 + ref_size))
        ≡ some (m, next)
      → parse_fork from_slice input ref_size cursor
        ≡ some
            (record { fork_type = ty; prefix = prefix; reference = reference; metadata = m }, next)
  unfolding parse_fork
  parse_fork-reads input ref_size cursor ty len prefix reference m next room fits a b pos short c d
        rest =
      ground (arith, a, b, c, d, rest)

  metadata_read :
      (ref_size : ℕ) (e : Entry) (v : IsEntry ref_size e) (input : List ℕ) (cursor : ℕ)
      (rest : List ℕ) (next : ℕ)
      → next ≡ cursor + length (metadata_part v.stored e.metadata)
      → length input ≤ usize_max
      → IsAt input cursor (metadata_part v.stored e.metadata ++ rest)
      → (if bit_and (entry_type e) 16 == 16
          then parse_metadata from_slice input cursor
          else some (none, cursor))
        ≡ some ((decoded e v.stored).metadata, next)
  unfolding metadata_part
  metadata_read ref_size e v input cursor rest next behind fits at =
      elim (stored_cases e.metadata v.stored v.stores) [
        | inl (empty, bare) ↦
            let z : next ≡ cursor =
              omega (arith, ap (λ s. length (metadata_part s e.metadata)) bare) in
            rw (metadata_flag e, empty, z) refl
        | inr (n, stored, some_bytes, small, long) ↦
            let size : length (metadata_part v.stored e.metadata) ≡ 2 + n = omega (
              arith,
              ap (λ s. length (metadata_part s e.metadata)) stored,
              length-append (to_be 2 (n % 2 ^ 16))
                  (e.metadata ++ replicate (n - length e.metadata) 10),
              length-to_be (n % 2 ^ 16),
              length-append e.metadata (replicate (n - length e.metadata) 10),
              length-replicate {A = ℕ} (n - length e.metadata) 10,
            ) in
            let z : next ≡ cursor + 2 + n = omega arith in
            rw (metadata_flag e, some_bytes, z, stored)
              (parse_metadata-part input cursor n e.metadata rest fits small long (rw stored at at))
      ]

  -- An entry that stands at a cursor is read back, and the cursor moves behind it.
  pub parse_fork-entry_bytes :
      (ref_size : ℕ) (e : Entry) (v : IsEntry ref_size e) (input : List ℕ) (cursor : ℕ)
      (rest : List ℕ)
      → length input ≤ usize_max
      → IsAt input cursor (entry_bytes e v.stored ++ rest)
      → parse_fork from_slice input ref_size cursor
        ≡ some (decoded e v.stored, cursor + length (entry_bytes e v.stored))
  unfolding parse_fork
  parse_fork-entry_bytes ref_size e v input cursor rest fits at =
      let pad : List ℕ = replicate (30 - length e.prefix) 0 in
      let tail : List ℕ = metadata_part v.stored e.metadata in
      let at_len : IsAt input (cursor + 1)
          (length e.prefix ∷ ((e.prefix ++ (pad ++ (e.reference ++ tail))) ++ rest)) =
        IsAt-skip input cursor (cursor + 1) (entry_type e ∷ []) _ refl at in
      let at_prefix : IsAt input (cursor + 2)
          (e.prefix ++ ((pad ++ (e.reference ++ tail)) ++ rest)) =
        subst (λ t. IsAt input (cursor + 2) t)
          (append_assoc e.prefix (pad ++ (e.reference ++ tail)) rest)
          (IsAt-skip input (cursor + 1) (cursor + 2) (length e.prefix ∷ []) _ (omega arith)
            at_len) in
      let at_pad : IsAt input (cursor + 2 + length e.prefix)
          (pad ++ ((e.reference ++ tail) ++ rest)) =
        subst (λ t. IsAt input (cursor + 2 + length e.prefix) t)
          (append_assoc pad (e.reference ++ tail) rest)
          (IsAt-skip input (cursor + 2) _ e.prefix _ refl at_prefix) in
      let at_ref : IsAt input (cursor + 32) (e.reference ++ (tail ++ rest)) =
        subst (λ t. IsAt input (cursor + 32) t) (append_assoc e.reference tail rest)
          (IsAt-skip input _ (cursor + 32) pad _
            (omega (arith, length-replicate {A = ℕ} (30 - length e.prefix) 0, v.short)) at_pad) in
      let at_tail : IsAt input (cursor + 32 + ref_size) (tail ++ rest) =
        IsAt-skip input (cursor + 32) _ e.reference _ (omega (arith, v.sized)) at_ref in
      let end = IsAt-length input _ _ at_tail in
      let a = get_or-IsAt input _ _ cursor at in
      let b = get_or-IsAt input _ _ (cursor + 1) at_len in
      let c =
        slice-IsAt input e.prefix _ (cursor + 2) (cursor + 2 + length e.prefix) refl at_prefix in
      let d =
        slice-IsAt input e.reference _ (cursor + 32) (cursor + 32 + ref_size)
          (omega (arith, v.sized)) at_ref in
      let long : length (entry_bytes e v.stored) ≡ 32 + ref_size + length tail = omega (
        arith,
        length-append e.prefix (pad ++ (e.reference ++ tail)),
        length-append pad (e.reference ++ tail),
        length-append e.reference tail,
        length-replicate {A = ℕ} (30 - length e.prefix) 0,
        v.short,
        v.sized,
      ) in
      parse_fork-reads input ref_size cursor _ _ e.prefix e.reference _ _ (omega (arith, end)) fits
        a b v.some_prefix v.short c d
        (metadata_read ref_size e v input (cursor + 32 + ref_size) rest _ (omega (arith, long)) fits
          at_tail)
