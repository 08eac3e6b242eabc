-- ===== src/Erasure/Gauss/Pivot.antt =====
-- src/erasure_coding.rs: the choice of a pivot, as a trade of two rows.
use weeb.Prelude.{
  ℕ, suc, Bool-cases, length, All, List, [], ◌∷◌, none, some, ◌≡◌, ◌≢◌, ◌⊎◌, inl, inr, refl, ap,
  arith,
}
use weeb.Erasure.BinaryField.{BinaryField}
use weeb.Erasure.Gauss.{entry, swap_in, select_pivot}
use weeb.Erasure.Gauss.Rows.{eq_false}

-- One row in the place of another, which is taken out.
pub data Traded {A : Type 0} (row : A) : List A → A → List A → Type 0 where
  here : {c : A} {rest : List A} → Traded row (c ∷ rest) c (row ∷ rest)
  later : {x c : A} {rest out : List A} → Traded row rest c out → Traded row (x ∷ rest) c (x ∷ out)

pub data Picked {A : Type 0} : List A → A → List A → Type 0 where
  first : {row : A} {rest : List A} → Picked (row ∷ rest) row rest
  traded : {row c : A} {rest out : List A} → Traded row rest c out → Picked (row ∷ rest) c out

module _ {A : Type 0} where
  Traded-length : {row c : A} {rest out : List A} → Traded row rest c out → length out ≡ length rest
  Traded-length here = refl
  Traded-length (later t) = ap suc (Traded-length t)

  pub Picked-length :
      {c : A} {rows out : List A} → Picked rows c out → length rows ≡ suc (length out)
  Picked-length first = refl
  Picked-length (traded t) = omega (arith, Traded-length t)

  Traded-All :
      (P : A → Type 0) {row c : A} {rest out : List A}
      → Traded row rest c out
      → P row
      → All P rest
      → P c × All P out
  Traded-All P here p h = (h.0, (p, h.1))
  Traded-All P (later t) p h = let r = Traded-All P t p h.1 in (r.0, (h.0, r.1))

  pub Picked-All :
      (P : A → Type 0) {c : A} {rows out : List A}
      → Picked rows c out
      → All P rows
      → P c × All P out
  Picked-All P first h = h
  Picked-All P (traded t) h = Traded-All P t h.0 h.1

  Traded-All_back :
      (P : A → Type 0) {row c : A} {rest out : List A}
      → Traded row rest c out
      → P c
      → All P out
      → P row × All P rest
  Traded-All_back P here p h = (h.0, (p, h.1))
  Traded-All_back P (later t) p h = let r = Traded-All_back P t p h.1 in (r.0, (h.0, r.1))

  pub Picked-All_back :
      (P : A → Type 0) {c : A} {rows out : List A}
      → Picked rows c out
      → P c
      → All P out
      → All P rows
  Picked-All_back P first p h = (p, h)
  Picked-All_back P (traded t) p h = Traded-All_back P t p h

module _ {A : Type 0} ⦃k : BinaryField A⦄ where
  swap_in_cases :
      (d : ℕ) (row : List A) (rest : List (List A))
      → ((swap_in d row rest ≡ none) × All (λ (r : List A). entry r d ≡ k.zero) rest)
        ⊎ ((c : List A) × (out : List (List A)) × (swap_in d row rest ≡ some (c, out))
            × Traded row rest c out
            × (entry c d ≢ k.zero))
  unfolding swap_in
  swap_in_cases d row [] = inl (refl, tt)
  swap_in_cases d row (x ∷ rest) = elim (Bool-cases (k.eq (entry x d) k.zero)) [
    | inr pivot ↦ inr (x, row ∷ rest, rw pivot refl, here, eq_false _ _ pivot)
    | inl z ↦ elim (swap_in_cases d row rest) [
      | inl (e, h) ↦ inl (rw (z, e) refl, ((k.eq_iff _ _).0 z, h))
      | inr (c, out, e, t, ne) ↦ inr (c, x ∷ out, rw (z, e) refl, later t, ne)
    ]
  ]

  pub select_pivot_cases :
      (d : ℕ) (rows : List (List A))
      → ((select_pivot d rows ≡ none) × All (λ (r : List A). entry r d ≡ k.zero) rows)
        ⊎ ((c : List A) × (out : List (List A)) × (select_pivot d rows ≡ some (c, out))
            × Picked rows c out
            × (entry c d ≢ k.zero))
  unfolding select_pivot
  select_pivot_cases d [] = inl (refl, tt)
  select_pivot_cases d (row ∷ rest) = elim (Bool-cases (k.eq (entry row d) k.zero)) [
    | inr pivot ↦ inr (row, rest, rw pivot refl, first, eq_false _ _ pivot)
    | inl z ↦ elim (swap_in_cases d row rest) [
      | inl (e, h) ↦ inl (rw (z, e) refl, ((k.eq_iff _ _).0 z, h))
      | inr (c, out, e, t, ne) ↦ inr (c, out, rw (z, e) refl, traded t, ne)
    ]
  ]
