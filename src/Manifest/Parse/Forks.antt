-- ===== src/Manifest/Parse/Forks.antt =====
-- src/manifest.rs: the entries of a node are read one behind the other, and what is read of a node.
use weeb.Prelude.{
  ℕ, ◌+◌, ◌-◌, ◌≤◌, true, if◌then◌else◌, leb, Option, none, some, ◌>>=◌, ◌>>◌, guard, checked_add,
  checked_sub, List, [], ◌∷◌, ◌++◌, map, length, get_or, IsAt, IsAt-skip, usize_max, ◌≡◌, refl, sym,
  ap, ◌∙◌, arith,
}
use mathlib.Core.List.{flatten, append_assoc, append-nil}
use mathlib.Core.Option
use mathlib.Core.Path.{subst}
use weeb.Prelude.Text.{Text}
use weeb.Manifest.Fork.Encoding.{Entry, IsEntry, encode, entry_bytes}
use weeb.Manifest.Node.{any_nonzero}
use weeb.Manifest.Parse.{
  BzzManifestFork, ParsedBzzManifest, slice, later_index, parse_forks, manifest_fork_count,
  parse_bzz_manifest, decrypt_manifest_in_place, max_manifest_payload_bytes,
}
use weeb.Manifest.Parse.Decode.{decoded, parse_fork-entry_bytes}

-- An entry that a node with references of a size can hold.
pub record Item (ref_size : ℕ) : Type 0 where
  pub entry : Entry
  pub valid : IsEntry ref_size entry

abbrev pub item_bytes : {ref_size : ℕ} → Item ref_size → List ℕ
item_bytes item = entry_bytes item.entry item.valid.stored

-- The bytes of an entry as the program makes them.
abbrev pub encoded : {ref_size : ℕ} → Item ref_size → List ℕ
encoded item = Option.get_or (encode item.entry) []

abbrev pub first_byte : {ref_size : ℕ} → Item ref_size → ℕ
first_byte item = get_or item.entry.prefix 0 0

-- What is read of an entry.
abbrev pub read_item :
    {V : Type 0} → (List ℕ → Option V) → {ref_size : ℕ} → Item ref_size → BzzManifestFork V
read_item from_slice item = decoded from_slice item.entry item.valid.stored

-- The last index document that some entries name, behind one so far.
abbrev pub last_index :
    {V : Type 0} → (V → Option Text) → Option Text → List (BzzManifestFork V) → Option Text
last_index index_document explicit_index [] = explicit_index
last_index index_document explicit_index (fork ∷ forks) =
    last_index index_document (later_index index_document explicit_index fork.metadata) forks

abbrev pub manifest_of :
    {V : Type 0} → ℕ → List (BzzManifestFork V) → Option Text → List ℕ → ParsedBzzManifest V
manifest_of ref_size forks explicit_index reference = record {
  ref_size = ref_size;
  forks = forks;
  explicit_index = explicit_index;
  wrapped_reference = if any_nonzero reference then some reference else none;
}

module _ {V : Type 0} (from_slice : List ℕ → Option V) (index_document : V → Option Text) where
  -- Entries that stand one behind the other are read in their order.
  pub parse_forks-flatten :
      (ref_size : ℕ) (items : List (Item ref_size)) (input : List ℕ) (cursor : ℕ) (rest : List ℕ)
      (forks : List (BzzManifestFork V)) (explicit_index : Option Text)
      → length input ≤ usize_max
      → IsAt input cursor (flatten (map item_bytes items) ++ rest)
      → parse_forks from_slice index_document
          (length items)
          input
          ref_size
          cursor
          forks
          explicit_index
        ≡ some (
          forks ++ map (read_item from_slice) items,
          last_index index_document explicit_index (map (read_item from_slice) items),
        )
  unfolding parse_forks flatten
  parse_forks-flatten ref_size [] input cursor rest forks explicit_index fits at =
      ap (λ fs. some (fs, explicit_index)) (sym (append-nil forks))
  parse_forks-flatten ref_size (item ∷ items) input cursor rest forks explicit_index fits at =
      let at1 : IsAt input cursor (item_bytes item ++ (flatten (map item_bytes items) ++ rest)) =
        subst (λ t. IsAt input cursor t)
          (append_assoc (item_bytes item) (flatten (map item_bytes items)) rest) at in
      let next : ℕ = cursor + length (item_bytes item) in
      let at2 : IsAt input next (flatten (map item_bytes items) ++ rest) =
        IsAt-skip input cursor next (item_bytes item) (flatten (map item_bytes items) ++ rest) refl
          at1 in
      let one =
        parse_fork-entry_bytes from_slice ref_size item.entry item.valid input cursor
          (flatten (map item_bytes items) ++ rest) fits at1 in
      let later =
        parse_forks-flatten ref_size items input next rest
          (forks ++ (read_item from_slice item ∷ []))
          (later_index index_document explicit_index (read_item from_slice item).metadata) fits
          at2 in
      rw (one, ◌>>=◌)
        (later
          ∙ rw
              (append_assoc forks (read_item from_slice item ∷ [])
                (map (read_item from_slice) items))
              refl)

  -- What comes behind the decryption, whatever the reads are.
  rest_reads :
      (reference_of : ℕ → List ℕ) (count_of : ℕ → ℕ → ℕ → Option ℕ)
      (forks_of : ℕ → ℕ → ℕ → Option (List (BzzManifestFork V) × Option Text))
      (size ref_size count : ℕ) (forks : List (BzzManifestFork V)) (explicit_index : Option Text)
      → 8 ≤ size
      → size - 8 ≤ max_manifest_payload_bytes
      → ref_size ≤ 64
      → count_of (72 + ref_size) (72 + ref_size + 32) ref_size ≡ some count
      → forks_of count ref_size (72 + ref_size + 32) ≡ some (forks, explicit_index)
      → (do
        payload_size ← checked_sub size 8
        guard (leb payload_size max_manifest_payload_bytes)
        reference_end ← checked_add usize_max 72 ref_size
        index_delimiter ← checked_add usize_max reference_end 32
        fork_count ← count_of reference_end index_delimiter ref_size
        (forks, explicit_index) ← forks_of fork_count ref_size index_delimiter
        some (manifest_of ref_size forks explicit_index (reference_of reference_end)))
        ≡ some (manifest_of ref_size forks explicit_index (reference_of (72 + ref_size)))
  rest_reads reference_of count_of forks_of size ref_size count forks explicit_index long allowed
        small c d =
      let p : (checked_sub size 8) ≡ some (size - 8) = ground arith in
      let q : leb (size - 8) max_manifest_payload_bytes ≡ true = ground arith in
      let a : checked_add usize_max 72 ref_size ≡ some (72 + ref_size) = ground arith in
      let b : checked_add usize_max (72 + ref_size) 32 ≡ some (72 + ref_size + 32) = ground arith in
      rw (p, ◌>>=◌)
        (rw (q, ◌>>=◌) (rw (a, ◌>>=◌) (rw (b, ◌>>=◌) (rw (c, ◌>>=◌) (rw (d, ◌>>=◌) refl)))))

  pub parse_reads :
      (input plain reference index : List ℕ) (ref_size count : ℕ) (forks : List (BzzManifestFork V))
      (explicit_index : Option Text)
      → 8 ≤ length input
      → length input - 8 ≤ max_manifest_payload_bytes
      → decrypt_manifest_in_place input ≡ (plain, some ref_size)
      → ref_size ≤ 64
      → slice plain 72 (72 + ref_size) ≡ reference
      → slice plain (72 + ref_size) (104 + ref_size) ≡ index
      → manifest_fork_count index ref_size ≡ some count
      → parse_forks from_slice index_document count plain ref_size (104 + ref_size) [] none
        ≡ some (forks, explicit_index)
      → parse_bzz_manifest from_slice index_document input
        ≡ some (manifest_of ref_size forks explicit_index reference)
  unfolding parse_bzz_manifest
  parse_reads input plain reference index ref_size count forks explicit_index long allowed dec small
        a b c d =
      let e : 72 + ref_size + 32 ≡ 104 + ref_size = omega arith in
      rw (sym a, dec)
        (rest_reads (λ end. slice plain 72 end)
          (λ end delimiter size. manifest_fork_count (slice plain end delimiter) size)
          (λ n size delimiter. parse_forks from_slice index_document n plain size delimiter [] none)
          (length input) ref_size count forks explicit_index long allowed small (rw (e, b) c)
          (rw e d))
