-- ===== src/Manifest/Node/Index.antt =====
-- src/manifest.rs: the bit index tells the slots that are taken.
use weeb.Prelude.{
  ℕ, zero, suc, ◌+◌, ◌-◌, ◌*◌, ◌/◌, ◌%◌, ◌^◌, ◌≤◌, ◌<◌, bit_or, Option, none, some, List, [], ◌∷◌,
  ◌++◌, length, take, drop, get_or, set, length-take, length-drop, length-append, take-append-drop,
  ◌≡◌, refl, sym, ap, ◌∙◌, arith, dec_lt,
}
use native.Mathlib.Nat.{pow-suc, pow-zero}
use weeb.Prelude.Bits.{bit_or-digit}
use weeb.Manifest.Node.{set_index, present}
use weeb.Manifest.Parse.{count_ones, count_index}

or_zero_fuel : (n a : ℕ) → a ≤ n → bit_or a 0 ≡ a
or_zero_fuel zero zero h = refl
or_zero_fuel zero (suc a) h = absurd (omega arith)
or_zero_fuel (suc n) a h = omega (arith, bit_or-digit a 0, or_zero_fuel n (a / 2) (omega arith))

module _ {A : Type 0} where
  abbrev bit : Option A → ℕ
  bit none = 0
  bit (some x) = 1

  -- Some slots as the bits of a number.
  abbrev byte : List (Option A) → ℕ
  byte [] = 0
  byte (x ∷ xs) = bit x + byte xs * 2

  bit-lt : (x : Option A) → bit x < 2
  bit-lt none = omega arith
  bit-lt (some x) = omega arith

  byte-set :
      (r : ℕ) (xs : List (Option A)) (a : A)
      → r < length xs
      → get_or xs r none ≡ none
      → byte (set xs r (some a)) ≡ bit_or (byte xs) (2 ^ r)
  byte-set r [] a h free = absurd (omega arith)
  byte-set zero (x ∷ xs) a h free =
      let z : bit x ≡ 0 = ap bit free in
      let half : (bit x + byte xs * 2) / 2 ≡ byte xs = omega arith in
      omega (
        arith,
        pow-zero 2,
        rw half at (bit_or-digit (bit x + byte xs * 2) 1),
        or_zero_fuel (byte xs) (byte xs) (omega arith),
      )
  byte-set (suc r) (x ∷ xs) a h free =
      let l = bit-lt x in
      let half : (bit x + byte xs * 2) / 2 ≡ byte xs = omega arith in
      let pow : 2 ^ suc r / 2 ≡ 2 ^ r = omega (arith, pow-suc 2 r) in
      omega (
        arith,
        l,
        pow-suc 2 r,
        rw (half, pow) at (bit_or-digit (bit x + byte xs * 2) (2 ^ suc r)),
        byte-set r xs a (omega arith) free,
      )

  length-present :
      (x : Option A) (xs : List (Option A))
      → length (present (x ∷ xs)) ≡ bit x + length (present xs)
  unfolding present
  length-present none xs = omega arith
  length-present (some x) xs = omega arith

  count_ones-byte :
      (n : ℕ) (xs : List (Option A)) → length xs ≤ n → count_ones n (byte xs) ≡ length (present xs)
  unfolding count_ones present
  count_ones-byte zero [] e = refl
  count_ones-byte zero (x ∷ xs) e = absurd (omega arith)
  count_ones-byte (suc n) [] e = omega (arith, count_ones-byte n [] (omega arith))
  count_ones-byte (suc n) (x ∷ xs) e =
      let l = bit-lt x in
      let half : byte (x ∷ xs) / 2 ≡ byte xs = omega arith in
      omega (arith, ap (count_ones n) half, count_ones-byte n xs (omega arith), length-present x xs)

  -- All slots as the bytes of an index.
  abbrev pub index_of : ℕ → List (Option A) → List ℕ
  index_of zero xs = []
  index_of (suc n) xs = byte (take 8 xs) ∷ index_of n (drop 8 xs)

  present-append : (xs ys : List (Option A)) → present (xs ++ ys) ≡ present xs ++ present ys
  unfolding present
  present-append [] ys = refl
  present-append (none ∷ xs) ys = present-append xs ys
  present-append (some x ∷ xs) ys = ap (◌∷◌ x) (present-append xs ys)

  -- The index counts the slots that are taken.
  pub count_index-index_of :
      (n : ℕ) (slots : List (Option A))
      → length slots ≤ n * 8
      → count_index (index_of n slots) ≡ length (present slots)
  unfolding count_index present
  count_index-index_of zero [] h = refl
  count_index-index_of zero (x ∷ slots) h = absurd (omega arith)
  count_index-index_of (suc n) slots h =
      let parts = present-append (take 8 slots) (drop 8 slots) in
      let whole : present slots ≡ present (take 8 slots) ++ present (drop 8 slots) =
        rw (take-append-drop 8 slots) at parts in
      omega (
        arith,
        ap length whole,
        length-append (present (take 8 slots)) (present (drop 8 slots)),
        count_ones-byte 8 (take 8 slots) (omega (arith, length-take 8 slots)),
        count_index-index_of n (drop 8 slots) (omega (arith, length-drop 8 slots)),
      )

  get_or-take :
      (n i : ℕ) (xs : List (Option A)) → i < n → get_or (take n xs) i none ≡ get_or xs i none
  get_or-take zero i xs h = absurd (omega arith)
  get_or-take (suc n) i [] h = refl
  get_or-take (suc n) zero (x ∷ xs) h = refl
  get_or-take (suc n) (suc i) (x ∷ xs) h = get_or-take n i xs (omega arith)

  get_or-drop :
      (n i : ℕ) (xs : List (Option A)) → get_or (drop n xs) i none ≡ get_or xs (n + i) none
  get_or-drop zero i xs = ap (λ k. get_or xs k none) (omega arith)
  get_or-drop (suc n) i [] = refl
  get_or-drop (suc n) i (x ∷ xs) =
      let k : suc n + i ≡ suc (n + i) = omega arith in rw k (get_or-drop n i xs)

  take-set :
      (n i : ℕ) (xs : List (Option A)) (v : Option A) → take n (set xs i v) ≡ set (take n xs) i v
  take-set zero i xs v = refl
  take-set (suc n) i [] v = refl
  take-set (suc n) zero (x ∷ xs) v = refl
  take-set (suc n) (suc i) (x ∷ xs) v = ap (◌∷◌ x) (take-set n i xs v)

  set_beyond : (i : ℕ) (xs : List (Option A)) (v : Option A) → length xs ≤ i → set xs i v ≡ xs
  set_beyond i [] v h = refl
  set_beyond zero (x ∷ xs) v h = absurd (omega arith)
  set_beyond (suc i) (x ∷ xs) v h = ap (◌∷◌ x) (set_beyond i xs v (omega arith))

  drop-set_before :
      (n i : ℕ) (xs : List (Option A)) (v : Option A) → i < n → drop n (set xs i v) ≡ drop n xs
  drop-set_before zero i xs v h = absurd (omega arith)
  drop-set_before (suc n) i [] v h = refl
  drop-set_before (suc n) zero (x ∷ xs) v h = refl
  drop-set_before (suc n) (suc i) (x ∷ xs) v h = drop-set_before n i xs v (omega arith)

  drop-set :
      (n i : ℕ) (xs : List (Option A)) (v : Option A)
      → drop n (set xs (n + i) v) ≡ set (drop n xs) i v
  drop-set zero i xs v = ap (λ k. set xs k v) (omega arith)
  drop-set (suc n) i [] v = refl
  drop-set (suc n) i (x ∷ xs) v =
      let k : suc n + i ≡ suc (n + i) = omega arith in rw k (drop-set n i xs v)

  -- Setting the bit of a free slot is what filling the slot does to the index.
  pub set_index-index_of :
      (n key : ℕ) (slots : List (Option A)) (a : A)
      → length slots ≡ n * 8
      → key < length slots
      → get_or slots key none ≡ none
      → set_index key (index_of n slots) ≡ index_of n (set slots key (some a))
  unfolding set_index
  set_index-index_of zero key slots a e h free = absurd (omega arith)
  set_index-index_of (suc n) key slots a e h free = elim (dec_lt key 8) [
    | yes low ↦
        let q : key / 8 ≡ 0 = omega arith in
        let r : key % 8 ≡ key = omega arith in
        let fits : key < length (take 8 slots) = omega (arith, length-take 8 slots) in
        rw (q, r, take-set 8 key slots (some a), drop-set_before 8 key slots (some a) low)
          (ap (λ (b : ℕ). b ∷ index_of n (drop 8 slots))
            (sym (byte-set key (take 8 slots) a fits (get_or-take 8 key slots low ∙ free))))
    | no high ↦
        let i = key - 8 in
        let k : key ≡ 8 + i = omega arith in
        let q : key / 8 ≡ suc (i / 8) = omega arith in
        let r : key % 8 ≡ i % 8 = omega arith in
        let t : take 8 (set slots key (some a)) ≡ take 8 slots =
          take-set 8 key slots (some a)
          ∙ set_beyond key (take 8 slots) (some a) (omega (arith, length-take 8 slots)) in
        let d : drop 8 (set slots key (some a)) ≡ set (drop 8 slots) i (some a) =
          ap (λ j. drop 8 (set slots j (some a))) k ∙ drop-set 8 i slots (some a) in
        let free' : get_or (drop 8 slots) i none ≡ none =
          get_or-drop 8 i slots ∙ ap (λ j. get_or slots j none) (sym k) ∙ free in
        rw (q, r, t, d)
          (ap (◌∷◌ (byte (take 8 slots))) (
            set_index-index_of n i (drop 8 slots) a (omega (arith, length-drop 8 slots))
              (omega (arith, length-drop 8 slots)) free'))
  ]
