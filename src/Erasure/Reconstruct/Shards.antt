-- ===== src/Erasure/Reconstruct/Shards.antt =====
-- src/erasure_coding.rs: which shards are selected, which are missing, and what is written.
use weeb.Prelude.{
  ℕ, zero, suc, ◌+◌, ◌-◌, ◌<◌, ◌≤◌, ◌==◌, ==_iff, leb, ltb, Bool, Bool-cases, ◌||◌, ◌&&◌,
  if◌then◌else◌, Option, none, some, length, length-set, get_elem?, get_or, set, take, All, List,
  [], ◌∷◌, map, ◌≡◌, inl, inr, refl, sym, ap, ◌∙◌, arith,
}
use mathlib.Core.Path.{subst}
use weeb.Erasure.BinaryField.{BinaryField}
use weeb.Erasure.Coding.{indices}
use weeb.Erasure.Coding.Systematic.{Ascending}
use weeb.Erasure.Reconstruct.{member, keep, present, shard_at, write_shards}

pub Ascending-take :
    (limit from n : ℕ) (is : List ℕ) → Ascending limit from is → Ascending limit from (take n is)
Ascending-take limit from zero is h = tt
Ascending-take limit from (suc n) [] h = tt
Ascending-take limit from (suc n) (i ∷ is) h = (h.0, h.1, Ascending-take limit (suc i) n is h.2)

pub All-take : {B : Type 0} (P : B → Type 0) (n : ℕ) (xs : List B) → All P xs → All P (take n xs)
All-take P zero xs h = tt
All-take P (suc n) [] h = tt
All-take P (suc n) (x ∷ xs) h = (h.0, All-take P n xs h.1)

Ascending-weaken :
    (limit less from : ℕ) (is : List ℕ)
    → less ≤ from
    → Ascending limit from is
    → Ascending limit less is
Ascending-weaken limit less from [] le h = tt
Ascending-weaken limit less from (i ∷ is) le h = (omega (arith, h.0), h.1, h.2)

-- What is kept of a range.
pub member-keep :
    (p : ℕ → Bool) (from n j : ℕ)
    → member j (keep p (indices from n)) ≡ (leb from j && (ltb j (from + n) && p j))
member-keep p from zero j = ground arith
member-keep p from (suc n) j = elim (Bool-cases (from == j)) [
  | inl e ↦
      let same : from ≡ j = (==_iff from j).0 e in
      elim (Bool-cases (p from)) [
        | inl y ↦ rw (y, e, ← same, y) (ground arith)
        | inr n' ↦ rw (n', member-keep p (suc from) n j, ← same, n') (ground arith)
      ]
  | inr ne ↦ elim (Bool-cases (p from)) [
    | inl y ↦ rw (y, ne, member-keep p (suc from) n j) (ground arith)
    | inr n' ↦ rw (n', member-keep p (suc from) n j) (ground arith)
  ]
]

pub keep-below :
    (p : ℕ → Bool) (limit from n : ℕ)
    → from + n ≤ limit
    → All (λ i. i < limit) (keep p (indices from n))
keep-below p limit from zero h = tt
keep-below p limit from (suc n) h = elim (Bool-cases (p from)) [
  | inl y ↦ rw y (omega arith, keep-below p limit (suc from) n (omega arith))
  | inr n' ↦ rw n' (keep-below p limit (suc from) n (omega arith))
]

get_elem?-set :
    {B : Type 0} (xs : List B) (i j : ℕ) (v : B)
    → i < length xs
    → get_elem? (set xs i v) j ≡ (if i == j then some v else get_elem? xs j)
get_elem?-set [] i j v h = absurd (omega arith)
get_elem?-set (x ∷ xs) zero zero v h = refl
get_elem?-set (x ∷ xs) zero (suc j) v h = ground arith
get_elem?-set (x ∷ xs) (suc i) zero v h = ground arith
get_elem?-set (x ∷ xs) (suc i) (suc j) v h = ground (arith, get_elem?-set xs i j v)

module _ {A : Type 0} ⦃k : BinaryField A⦄ where
  -- A write at each index of a list, of a value that depends on the index.
  pub get_elem?-write_shards :
      (val : ℕ → List A) (is : List ℕ) (shards : List (Option (List A))) (j : ℕ)
      → All (λ i. i < length shards) is
      → get_elem? (write_shards is (map val is) shards) j
        ≡ (if member j is then some (some (val j)) else get_elem? shards j)
  unfolding write_shards
  get_elem?-write_shards val [] shards j h = refl
  get_elem?-write_shards val (i ∷ is) shards j h =
      let shards' = set shards i (some (val i)) in
      let l : length shards' ≡ length shards = length-set shards i (some (val i)) in
      get_elem?-write_shards val is shards' j (subst (λ n. All (λ i. i < n) is) (sym l) h.1)
      ∙ ap (λ o. if member j is then some (some (val j)) else o)
          (get_elem?-set shards i j (some (val i)) h.0)
      ∙ choose
    where
      choose :
          (if member j is
            then some (some (val j))
            else (if i == j then some (some (val i)) else get_elem? shards j))
          ≡ (if (i == j) || member j is then some (some (val j)) else get_elem? shards j)
      choose = elim (Bool-cases (i == j)) [
        | inl e ↦
            rw (e, (==_iff i j).0 e)
              (elim (Bool-cases (member j is)) [ inl y ↦ rw y refl | inr n' ↦ rw n' refl ])
        | inr ne ↦ rw ne refl
      ]

  -- The shards that are there are some of the encoded ones.
  abbrev pub ArePartOf : List (Option (List A)) → List (List A) → Type 0
  ArePartOf [] [] = Unit {0}
  ArePartOf (none ∷ shards) (e ∷ es) = ArePartOf shards es
  ArePartOf (some v ∷ shards) (e ∷ es) = (v ≡ e) × ArePartOf shards es
  ArePartOf _ _ = ⊥

  pub ArePartOf-length :
      (shards : List (Option (List A))) (es : List (List A))
      → ArePartOf shards es
      → length shards ≡ length es
  ArePartOf-length [] [] h = refl
  ArePartOf-length [] (e ∷ es) h = absurd h
  ArePartOf-length (none ∷ shards) [] h = absurd h
  ArePartOf-length (some v ∷ shards) [] h = absurd h
  ArePartOf-length (none ∷ shards) (e ∷ es) h = ap suc (ArePartOf-length shards es h)
  ArePartOf-length (some v ∷ shards) (e ∷ es) h = ap suc (ArePartOf-length shards es h.1)

  pub present-Ascending :
      (limit from : ℕ) (shards : List (Option (List A)))
      → from + length shards ≤ limit
      → Ascending limit from (present from shards)
  unfolding present
  present-Ascending limit from [] h = tt
  present-Ascending limit from (none ∷ shards) h =
      Ascending-weaken limit from (suc from) (present (suc from) shards) (omega arith)
        (present-Ascending limit (suc from) shards (omega arith))
  present-Ascending limit from (some v ∷ shards) h =
      (omega arith, omega arith, present-Ascending limit (suc from) shards (omega arith))

  later_shards :
      (es : List (List A)) (e : List A) (o : Option (List A)) (shards : List (Option (List A)))
      (from : ℕ) (is : List ℕ)
      → All
          (λ r. (suc from ≤ r) × (shard_at shards (r - suc from) ≡ get_or es (r - suc from) []))
          is
      → All
          (λ r. (from ≤ r) × (shard_at (o ∷ shards) (r - from) ≡ get_or (e ∷ es) (r - from) []))
          is
  later_shards es e o shards from [] h = tt
  later_shards es e o shards from (r ∷ is) h =
      let (le, same) = h.0 in
      let next : suc (r - suc from) ≡ r - from = omega arith in
      (
        (omega arith, subst (λ i. shard_at (o ∷ shards) i ≡ get_or (e ∷ es) i []) next same),
        later_shards es e o shards from is h.1,
      )

  pub present-shards :
      (from : ℕ) (shards : List (Option (List A))) (es : List (List A))
      → ArePartOf shards es
      → All
          (λ r. (from ≤ r) × (shard_at shards (r - from) ≡ get_or es (r - from) []))
          (present from shards)
  unfolding present
  present-shards from [] es h = tt
  present-shards from (none ∷ shards) [] h = absurd h
  present-shards from (some v ∷ shards) [] h = absurd h
  present-shards from (none ∷ shards) (e ∷ es) h =
      later_shards es e none shards from (present (suc from) shards)
        (present-shards (suc from) shards es h)
  present-shards from (some v ∷ shards) (e ∷ es) h = (
    (
      omega arith,
      subst (λ i. shard_at (some v ∷ shards) i ≡ get_or (e ∷ es) i []) {x = 0} {y = from - from}
          (omega arith) h.0,
    ),
    later_shards es e (some v) shards from (present (suc from) shards)
        (present-shards (suc from) shards es h.1),
  )
