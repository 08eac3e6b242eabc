-- ===== src/Erasure/Layout/Split.antt =====
-- src/erasure_coding.rs: `split_references` takes a payload apart into its references.
use weeb.Prelude.{
  ℕ, ◌+◌, ◌*◌, ◌≤◌, Bool, true, leb, le→leb, none, some, List, [], ◌∷◌, ◌++◌, ◌≡◌, ◌≢◌, refl, ap,
  ◌∙◌, arith, length, All, length-append, take_append, drop_append, usize_max,
}
use mathlib.Core.List.{flatten}
use weeb.Erasure.Layout.{
  ReferenceLayout, data_reference_size, hash_size, chunks_exact, split_references,
}

abbrev HasLength : ℕ → List ℕ → Type 0
HasLength n xs = length xs ≡ n

length-flatten :
    (size : ℕ) (xs : List (List ℕ))
    → All (HasLength size) xs
    → length (flatten xs) ≡ length xs * size
unfolding flatten
length-flatten size [] h = omega arith
length-flatten size (x ∷ xs) h =
    omega (arith, length-append x (flatten xs), length-flatten size xs h.1, h.0)

chunks_exact-flatten :
    (size : ℕ) (xs : List (List ℕ))
    → All (HasLength size) xs
    → chunks_exact (length xs) size (flatten xs) ≡ xs
unfolding chunks_exact flatten
chunks_exact-flatten size [] h = refl
chunks_exact-flatten size (x ∷ xs) h =
    let long : leb size (length (x ++ flatten xs)) ≡ true =
      le→leb _ _ (omega (arith, length-append x (flatten xs), h.0)) in
    rw (long, take_append size x (flatten xs) h.0, drop_append size x (flatten xs) h.0)
      (ap (◌∷◌ x) (chunks_exact-flatten size xs h.1))

module _ (encrypted : Bool) (layout : ReferenceLayout) (payload : List ℕ) where
  -- A payload of another length than the layout's is refused.
  pub split_references_rejects :
      length payload
        ≢ layout.data_shards * data_reference_size encrypted + layout.parity_shards * hash_size
      → split_references payload layout encrypted ≡ none
  unfolding split_references
  split_references_rejects h = ground arith

-- A payload that is made of the layout's number of data references, each of the size that the
-- encryption asks for, and of its parity references of 32 bytes, comes apart into exactly those.
pub split_references-flatten :
    (encrypted : Bool) (layout : ReferenceLayout) (data_refs parity_refs : List (List ℕ))
    → length data_refs ≡ layout.data_shards
    → length parity_refs ≡ layout.parity_shards
    → All (HasLength (data_reference_size encrypted)) data_refs
    → All (HasLength hash_size) parity_refs
    → layout.data_shards * data_reference_size encrypted + layout.parity_shards * hash_size
      ≤ usize_max
    → split_references (flatten data_refs ++ flatten parity_refs) layout encrypted
      ≡ some (data_refs, parity_refs)
unfolding split_references
split_references-flatten encrypted layout ds ps nd np hd hp fits =
    let size = data_reference_size encrypted in
    let d : length (flatten ds) ≡ layout.data_shards * size =
      length-flatten size ds hd ∙ ap (λ (n : ℕ). n * size) nd in
    let p : length (flatten ps) ≡ layout.parity_shards * hash_size =
      length-flatten hash_size ps hp ∙ ap (λ (n : ℕ). n * hash_size) np in
    ground (
      arith,
      length-append (flatten ds) (flatten ps),
      take_append (layout.data_shards * size) (flatten ds) (flatten ps) d,
      drop_append (layout.data_shards * size) (flatten ds) (flatten ps) d,
      rw nd at (chunks_exact-flatten size ds hd),
      rw np at (chunks_exact-flatten hash_size ps hp),
    )
