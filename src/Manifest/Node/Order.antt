-- ===== src/Manifest/Node/Order.antt =====
-- src/manifest.rs: the entries of a node are put into 256 slots, by their first bytes.
use weeb.Prelude.{
  ℕ, zero, suc, ◌+◌, ◌≤◌, ◌<◌, Option, none, some, List, [], ◌∷◌, ◌++◌, length, get_or, set,
  replicate, length-set, All, ◌≡◌, ◌≢◌, refl, ap, ◌∙◌, arith,
}
use mathlib.Core.List.{Permᴰ}
use mathlib.Core.List.Permᴰ
use weeb.Manifest.Node.{present}

module _ {A : Type 0} (key : A → ℕ) where
  -- Some things put into their slots.
  unfoldable pub fill : List A → List (Option A) → List (Option A)
  fill [] slots = slots
  fill (x ∷ xs) slots = fill xs (set slots (key x) (some x))

  -- No two of the things have the same key, and all keys are below a bound.
  abbrev pub IsKeyed : ℕ → List A → Type 0
  IsKeyed bound [] = Unit
  IsKeyed bound (x ∷ xs) = (key x < bound) × All (λ y. key x ≢ key y) xs × IsKeyed bound xs

  -- The slots of the things are free.
  abbrev pub AreFree : List (Option A) → List A → Type 0
  AreFree slots xs = All (λ x. get_or slots (key x) none ≡ none) xs

  -- In each slot, counted from a number on, stands nothing or a thing with that key.
  abbrev AreOwn : ℕ → List (Option A) → Type 0
  AreOwn from [] = Unit
  AreOwn from (none ∷ slots) = AreOwn (from + 1) slots
  AreOwn from (some x ∷ slots) = (key x ≡ from) × AreOwn (from + 1) slots

  -- The keys rise, from a number on.
  abbrev pub IsAscending : ℕ → List A → Type 0
  IsAscending from [] = Unit
  IsAscending from (x ∷ xs) = (from ≤ key x) × IsAscending (key x + 1) xs

  IsAscending-from :
      (from less : ℕ) (xs : List A) → less ≤ from → IsAscending from xs → IsAscending less xs
  IsAscending-from from less [] h a = tt
  IsAscending-from from less (x ∷ xs) h a = (omega (arith, a.0), a.1)

  present-IsAscending :
      (from : ℕ) (slots : List (Option A)) → AreOwn from slots → IsAscending from (present slots)
  unfolding present
  present-IsAscending from [] own = tt
  present-IsAscending from (none ∷ slots) own =
      IsAscending-from (from + 1) from (present slots) (omega arith)
        (present-IsAscending (from + 1) slots own)
  present-IsAscending from (some x ∷ slots) own = (
    omega (arith, own.0),
    IsAscending-from (from + 1) (key x + 1) (present slots) (omega (arith, own.0))
        (present-IsAscending (from + 1) slots own.1),
  )

  set-AreOwn :
      (from i : ℕ) (slots : List (Option A)) (x : A)
      → key x ≡ from + i
      → AreOwn from slots
      → AreOwn from (set slots i (some x))
  set-AreOwn from i [] x e own = tt
  set-AreOwn from zero (none ∷ slots) x e own = (omega arith, own)
  set-AreOwn from zero (some y ∷ slots) x e own = (omega arith, own.1)
  set-AreOwn from (suc i) (none ∷ slots) x e own = set-AreOwn (from + 1) i slots x (omega arith) own
  set-AreOwn from (suc i) (some y ∷ slots) x e own =
      (own.0, set-AreOwn (from + 1) i slots x (omega arith) own.1)

  fill-AreOwn : (xs : List A) (slots : List (Option A)) → AreOwn 0 slots → AreOwn 0 (fill xs slots)
  unfolding fill
  fill-AreOwn [] slots own = own
  fill-AreOwn (x ∷ xs) slots own =
      fill-AreOwn xs (set slots (key x) (some x)) (set-AreOwn 0 (key x) slots x (omega arith) own)

  empty-AreOwn : (n from : ℕ) → AreOwn from (replicate n none)
  empty-AreOwn zero from = tt
  empty-AreOwn (suc n) from = empty-AreOwn n (from + 1)

  get_or-set_other :
      (slots : List (Option A)) (i j : ℕ) (v : Option A)
      → i ≢ j
      → get_or slots j none ≡ none
      → get_or (set slots i v) j none ≡ none
  get_or-set_other [] i j v n free = free
  get_or-set_other (x ∷ slots) zero zero v n free = absurd (n refl)
  get_or-set_other (x ∷ slots) zero (suc j) v n free = free
  get_or-set_other (x ∷ slots) (suc i) zero v n free = free
  get_or-set_other (x ∷ slots) (suc i) (suc j) v n free =
      get_or-set_other slots i j v (λ e. n (ap suc e)) free

  pub set-AreFree :
      (slots : List (Option A)) (i : ℕ) (v : Option A) (xs : List A)
      → All (λ y. i ≢ key y) xs
      → AreFree slots xs
      → AreFree (set slots i v) xs
  set-AreFree slots i v [] other free = tt
  set-AreFree slots i v (x ∷ xs) other free =
      (get_or-set_other slots i (key x) v other.0 free.0, set-AreFree slots i v xs other.1 free.1)

  empty_free : (n i : ℕ) → get_or {A = Option A} (replicate n none) i none ≡ none
  empty_free zero i = refl
  empty_free (suc n) zero = refl
  empty_free (suc n) (suc i) = empty_free n i

  pub empty-AreFree : (n : ℕ) (xs : List A) → AreFree (replicate n none) xs
  empty-AreFree n [] = tt
  empty-AreFree n (x ∷ xs) = (empty_free n (key x), empty-AreFree n xs)

  present-set :
      (slots : List (Option A)) (i : ℕ) (x : A)
      → i < length slots
      → get_or slots i none ≡ none
      → Permᴰ (present (set slots i (some x))) (x ∷ present slots)
  unfolding present
  present-set [] i x h free = absurd (omega arith)
  present-set (none ∷ slots) zero x h free = Permᴰ.refl _
  present-set (some y ∷ slots) zero x h free = absurd (ground (arith, free))
  present-set (none ∷ slots) (suc i) x h free = present-set slots i x (omega arith) free
  present-set (some y ∷ slots) (suc i) x h free =
      Permᴰ.trans (Permᴰ.cons refl (present-set slots i x (omega arith) free))
        (Permᴰ.swap refl refl)

  pub fill-perm :
      (xs : List A) (slots : List (Option A))
      → IsKeyed (length slots) xs
      → AreFree slots xs
      → Permᴰ (present (fill xs slots)) (xs ++ present slots)
  unfolding fill
  fill-perm [] slots keyed free = Permᴰ.refl _
  fill-perm (x ∷ xs) slots keyed free =
      Permᴰ.trans
        (fill-perm xs (set slots (key x) (some x)) (rw (length-set slots (key x) (some x)) keyed.2)
          (set-AreFree slots (key x) (some x) xs keyed.1 free.1))
        (Permᴰ.trans (Permᴰ.append_left xs (present-set slots (key x) x keyed.0 free.0))
          (Permᴰ.middle x xs (present slots)))

  -- The things in the order of their keys.
  abbrev pub in_order : List A → List A
  in_order xs = present (fill xs (replicate 256 none))

  pub in_order-IsAscending : (xs : List A) → IsAscending 0 (in_order xs)
  in_order-IsAscending xs =
      present-IsAscending 0 (fill xs (replicate 256 none))
        (fill-AreOwn xs (replicate 256 none) (empty-AreOwn 256 0))

  present-empty : (n : ℕ) → present {A = A} (replicate n none) ≡ []
  unfolding present
  present-empty zero = refl
  present-empty (suc n) = present-empty n

  append-nil_of : (xs ys : List A) → ys ≡ [] → Permᴰ (xs ++ ys) xs
  append-nil_of xs ys e = rw e (Permᴰ.append-nil xs)

  pub in_order-perm : (xs : List A) → IsKeyed 256 xs → Permᴰ (in_order xs) xs
  in_order-perm xs keyed =
      Permᴰ.trans (fill-perm xs (replicate 256 none) keyed (empty-AreFree 256 xs))
        (append-nil_of xs (present (replicate 256 none)) (present-empty 256))

  pub length-fill : (xs : List A) (slots : List (Option A)) → length (fill xs slots) ≡ length slots
  unfolding fill
  length-fill [] slots = refl
  length-fill (x ∷ xs) slots =
      length-fill xs (set slots (key x) (some x)) ∙ length-set slots (key x) (some x)
