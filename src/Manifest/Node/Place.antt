-- ===== src/Manifest/Node/Place.antt =====
-- src/manifest.rs: the loop over the entries of a node puts each into its slot.
use weeb.Prelude.{
  ◌⊎◌, inl, inr, Option-cases, ℕ, zero, suc, ◌<◌, Option, none, some, ◌>>=◌, List, [], ◌∷◌, ◌++◌,
  map, length, length-set, get_or, set, replicate, ◌≡◌, refl, ap, ◌∙◌, arith,
}
use mathlib.Core.Option
use weeb.Manifest.Node.{set_index, place_all, present, fork_key, ordered_indexed_forks}
use weeb.Manifest.Node.Index.{index_of, set_index-index_of}
use weeb.Manifest.Node.Order.{fill, IsKeyed, AreFree, set-AreFree, empty-AreFree, in_order}

-- One round, where the key is known and its slot is free.
place_all_round :
    {B : Type 0} (key_of : B → Option ℕ) (fork : B) (forks : List B) (ordered : List (Option B))
    (index : List ℕ) (k : ℕ)
    → key_of fork ≡ some k
    → get_or ordered k none ≡ none
    → place_all key_of (fork ∷ forks) ordered index
      ≡ place_all key_of forks (set ordered k (some fork)) (set_index k index)
unfolding place_all
place_all_round key_of fork forks ordered index k e free = ground (arith, e, free)

module _ {A : Type 0} {B : Type 0} (key : A → ℕ) (f : A → B) where
  abbrev slots_of : List (Option A) → List (Option B)
  slots_of [] = []
  slots_of (x ∷ slots) = Option.map f x ∷ slots_of slots

  get_or-slots_of :
      (slots : List (Option A)) (i : ℕ)
      → get_or slots i none ≡ none
      → get_or (slots_of slots) i none ≡ none
  get_or-slots_of [] i free = refl
  get_or-slots_of (x ∷ slots) zero free = ap (Option.map f) free
  get_or-slots_of (x ∷ slots) (suc i) free = get_or-slots_of slots i free

  set-slots_of :
      (slots : List (Option A)) (i : ℕ) (v : Option A)
      → set (slots_of slots) i (Option.map f v) ≡ slots_of (set slots i v)
  set-slots_of [] i v = refl
  set-slots_of (x ∷ slots) zero v = refl
  set-slots_of (x ∷ slots) (suc i) v = ap (◌∷◌ (Option.map f x)) (set-slots_of slots i v)

  present-slots_of : (slots : List (Option A)) → present (slots_of slots) ≡ map f (present slots)
  unfolding present
  present-slots_of [] = refl
  present-slots_of (none ∷ slots) = present-slots_of slots
  present-slots_of (some x ∷ slots) = ap (◌∷◌ (f x)) (present-slots_of slots)

  slots_of-empty : (n : ℕ) → slots_of (replicate n none) ≡ replicate n none
  slots_of-empty zero = refl
  slots_of-empty (suc n) = ap (◌∷◌ none) (slots_of-empty n)

  -- Where the keys differ, all entries are placed, and the index tells their slots.
  pub place_all-eq-some :
      (key_of : B → Option ℕ) (xs : List A) (slots : List (Option A))
      → ((x : A) → key_of (f x) ≡ some (key x))
      → length slots ≡ 256
      → IsKeyed key 256 xs
      → AreFree key slots xs
      → place_all key_of (map f xs) (slots_of slots) (index_of 32 slots)
        ≡ some (slots_of (fill key xs slots), index_of 32 (fill key xs slots))
  unfolding place_all fill
  place_all-eq-some key_of [] slots keys size keyed free = refl
  place_all-eq-some key_of (x ∷ xs) slots keys size keyed free =
      place_all_round key_of (f x) (map f xs) (slots_of slots) (index_of 32 slots) (key x) (keys x)
        (get_or-slots_of slots (key x) free.0)
      ∙ rw
          (
            set-slots_of slots (key x) (some x),
            set_index-index_of 32 (key x) slots x (omega arith) (omega (arith, keyed.0)) free.0,
          )
          (place_all-eq-some key_of xs (set slots (key x) (some x)) keys
            (length-set slots (key x) (some x) ∙ size) keyed.2
            (set-AreFree key slots (key x) (some x) xs keyed.1 free.1))

module _ {A : Type 0} (key : A → ℕ) (f : A → List ℕ) where
  -- The entries of a node in the order of their keys, and the index of their slots.
  pub ordered_indexed_forks-eq-some :
      (xs : List A)
      → ((x : A) → fork_key (f x) ≡ some (key x))
      → IsKeyed key 256 xs
      → ordered_indexed_forks (map f xs)
        ≡ some (map f (in_order key xs), index_of 32 (fill key xs (replicate 256 none)))
  unfolding ordered_indexed_forks
  ordered_indexed_forks-eq-some xs keys keyed =
      let placed =
        place_all-eq-some key f fork_key xs (replicate 256 none) keys refl keyed
          (empty-AreFree key 256 xs) in
      let blank : index_of {A = A} 32 (replicate 256 none) ≡ replicate 32 0 = refl in
      let start = rw (slots_of-empty key f 256, blank) at placed in
      rw (start, present-slots_of key f (fill key xs (replicate 256 none))) refl

-- A taken slot stays taken.
still_taken :
    {B : Type 0} (ordered : List (Option B)) (j k : ℕ) (v old : B)
    → get_or ordered k none ≡ some old
    → (now : B) × (get_or (set ordered j (some v)) k none ≡ some now)
still_taken [] j k v old taken = (old, taken)
still_taken (x ∷ ordered) zero zero v old taken = (v, refl)
still_taken (x ∷ ordered) zero (suc k) v old taken = (old, taken)
still_taken (x ∷ ordered) (suc j) zero v old taken = (old, taken)
still_taken (x ∷ ordered) (suc j) (suc k) v old taken = still_taken ordered j k v old taken

get_or-set_same :
    {B : Type 0} (ordered : List (Option B)) (k : ℕ) (v : B)
    → k < length ordered
    → get_or (set ordered k (some v)) k none ≡ some v
get_or-set_same [] k v h = absurd (omega arith)
get_or-set_same (x ∷ ordered) zero v h = refl
get_or-set_same (x ∷ ordered) (suc k) v h = get_or-set_same ordered k v (omega arith)

module _ {B : Type 0} (key_of : B → Option ℕ) where
  -- One round, whatever the key and its slot are: it stops, or the entry is placed.
  one_round :
      (fork : B) (forks : List B) (ordered : List (Option B)) (index : List ℕ)
      → (place_all key_of (fork ∷ forks) ordered index ≡ none)
        ⊎ ((k : ℕ) × (place_all key_of (fork ∷ forks) ordered index
              ≡ place_all key_of forks (set ordered k (some fork)) (set_index k index)))
  unfolding place_all
  one_round fork forks ordered index = elim (Option-cases (key_of fork)) [
    | inl e ↦ inl (rw (e, ◌>>=◌) refl)
    | inr (k, e) ↦ elim (Option-cases (get_or ordered k none)) [
      | inl free ↦ inr (k, place_all_round key_of fork forks ordered index k e free)
      | inr (old, taken) ↦ inl (ground (arith, e, taken))
    ]
  ]

  -- An entry whose slot is taken stops the loop, wherever it comes.
  place_all-taken :
      (middle : List B) (b : B) (after : List B) (ordered : List (Option B)) (index : List ℕ)
      (k : ℕ) (old : B)
      → key_of b ≡ some k
      → get_or ordered k none ≡ some old
      → place_all key_of (middle ++ (b ∷ after)) ordered index ≡ none
  unfolding place_all
  place_all-taken [] b after ordered index k old e taken = ground (arith, e, taken)
  place_all-taken (m ∷ middle) b after ordered index k old e taken =
      elim (one_round m (middle ++ (b ∷ after)) ordered index) [
        | inl stopped ↦ stopped
        | inr (j, placed) ↦
            let (now, still) = still_taken ordered j k m old taken in
            placed
            ∙ place_all-taken middle b after (set ordered j (some m)) (set_index j index) k now e
                still
      ]

  -- Two entries of one key stop the loop, wherever they come.
  place_all-twice :
      (before : List B) (a : B) (middle : List B) (b : B) (after : List B)
      (ordered : List (Option B)) (index : List ℕ) (k : ℕ)
      → key_of a ≡ some k
      → key_of b ≡ some k
      → k < length ordered
      → place_all key_of (before ++ (a ∷ (middle ++ (b ∷ after)))) ordered index ≡ none
  unfolding place_all
  place_all-twice [] a middle b after ordered index k ea eb h =
      elim (Option-cases (get_or ordered k none)) [
        | inl free ↦
            place_all_round key_of a (middle ++ (b ∷ after)) ordered index k ea free
            ∙ place_all-taken middle b after (set ordered k (some a)) (set_index k index) k a eb
                (get_or-set_same ordered k a h)
        | inr (old, taken) ↦ ground (arith, ea, taken)
      ]
  place_all-twice (m ∷ before) a middle b after ordered index k ea eb h =
      elim (one_round m (before ++ (a ∷ (middle ++ (b ∷ after)))) ordered index) [
        | inl stopped ↦ stopped
        | inr (j, placed) ↦
            placed
            ∙ place_all-twice before a middle b after (set ordered j (some m)) (set_index j index) k
                ea eb (omega (arith, length-set ordered j (some m)))
      ]

-- No node is made where two of the entries begin with the same byte, wherever they come.
pub ordered_indexed_forks-twice :
    (before : List (List ℕ)) (a : List ℕ) (middle : List (List ℕ)) (b : List ℕ)
    (after : List (List ℕ)) (k : ℕ)
    → fork_key a ≡ some k
    → fork_key b ≡ some k
    → k < 256
    → ordered_indexed_forks (before ++ (a ∷ (middle ++ (b ∷ after)))) ≡ none
unfolding ordered_indexed_forks
ordered_indexed_forks-twice before a middle b after k ea eb h =
    rw
      (
        place_all-twice fork_key before a middle b after (replicate 256 none) (replicate 32 0) k ea
            eb (omega arith),
        ◌>>=◌,
      )
      refl
