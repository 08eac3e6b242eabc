-- ===== src/Erasure/Coding/Decode.antt =====
-- src/erasure_coding.rs: lemmas on unit vectors and columns for `inverse_rows_for_selected`.
use weeb.Prelude.{
  ℕ, zero, suc, ◌+◌, ◌<◌, ◌==◌, ==_false, if◌then◌else◌, length, length-replicate, length-set,
  get_or, get_elem?, set, drop, All, some, List, [], ◌∷◌, map, ◌≡◌, refl, sym, ap, ◌∙◌, arith,
}
use mathlib.Core.Path.{subst}
use weeb.Erasure.BinaryField.{BinaryField}
use weeb.Erasure.BinaryField.Vectors.{dot, dot_comm, zeros, zeros-dot}
use weeb.Erasure.Gauss.{entry}
use weeb.Erasure.Gauss.Solve.{unknowns}
use weeb.Erasure.Coding.{indices, code_row_slices}
use weeb.Erasure.Coding.Combine.{
  apply, column, HasWidth, dot-code_row_slices, length-code_row_slices, entry-code_row_slices,
  entry-zeros,
}
use weeb.Erasure.Coding.Inverse.{unit_entry}
use weeb.Erasure.Coding.Systematic.{Ascending}

pub All-indices :
    {B : Type 0} (P : B → Type 0) (f : ℕ → B) (from n i : ℕ)
    → All P (map f (indices from n))
    → i < n
    → P (f (from + i))
All-indices P f from zero i h lt = absurd (omega arith)
All-indices P f from (suc n) zero h lt =
    subst (λ j. P (f j)) {x = from} {y = from + 0} (omega arith) h.0
All-indices P f from (suc n) (suc i) h lt =
    subst (λ j. P (f j)) {x = suc from + i} {y = from + suc i} (omega arith)
      (All-indices P f (suc from) n i h.1 (omega arith))

pub Ascending-below :
    (limit from : ℕ) (is : List ℕ) → Ascending limit from is → All (λ i. i < limit) is
Ascending-below limit from [] h = tt
Ascending-below limit from (i ∷ is) h = (h.1, Ascending-below limit (suc i) is h.2)

pub All-imp :
    {B : Type 0} (P Q : B → Type 0) (xs : List B) → ((x : B) → P x → Q x) → All P xs → All Q xs
All-imp P Q [] f h = tt
All-imp P Q (x ∷ xs) f h = (f x h.0, All-imp P Q xs f h.1)

pub get_elem-indices :
    {B : Type 0} (g : ℕ → B) (from n i : ℕ)
    → i < n
    → get_elem? (map g (indices from n)) i ≡ some (g (from + i))
get_elem-indices g from zero i h = absurd (omega arith)
get_elem-indices g from (suc n) zero h =
    ap (λ j. some (g j)) {x = from} {y = from + 0} (omega arith)
get_elem-indices g from (suc n) (suc i) h =
    get_elem-indices g (suc from) n i (omega arith)
    ∙ ap (λ j. some (g j)) {x = suc from + i} {y = from + suc i} (omega arith)

module _ {A : Type 0} ⦃k : BinaryField A⦄ where
  pub list_ext :
      (u v : List A)
      → length u ≡ length v
      → ((i : ℕ) → i < length u → entry u i ≡ entry v i)
      → u ≡ v
  unfolding entry
  list_ext [] [] e h = refl
  list_ext [] (y ∷ v) e h = absurd (omega arith)
  list_ext (x ∷ u) [] e h = absurd (omega arith)
  list_ext (x ∷ u) (y ∷ v) e h =
      ap (λ c. c ∷ u) (h 0 (omega arith))
      ∙ ap (◌∷◌ y) (list_ext u v (omega arith) (λ i lt. h (suc i) (omega arith)))

  entry-unit :
      (n r i : ℕ) → i < n → entry (set (zeros n) r k.one) i ≡ (if r == i then k.one else k.zero)
  unfolding entry
  entry-unit zero r i h = absurd (omega arith)
  entry-unit (suc n) zero zero h = refl
  entry-unit (suc n) zero (suc i) h =
      entry-zeros n i ∙ rw (==_false 0 (suc i) (λ e. absurd (omega arith))) refl
  entry-unit (suc n) (suc r) zero h = rw (==_false (suc r) 0 (λ e. absurd (omega arith))) refl
  entry-unit (suc n) (suc r) (suc i) h =
      entry-unit n r i (omega arith)
      ∙ ap (λ b. if b then k.one else k.zero) {x = r == i} {y = suc r == suc i} (ground arith)

  -- Entry j of the ones that mark an original row.
  pub entry-mark :
      (requested : List ℕ) (o j : ℕ)
      → j < length requested
      → entry (map (λ row. if row == o then k.one else k.zero) requested) j
        ≡ (if get_or requested j 0 == o then k.one else k.zero)
  unfolding entry
  entry-mark [] o j h = absurd (omega arith)
  entry-mark (r ∷ requested) o zero h = refl
  entry-mark (r ∷ requested) o (suc j) h = entry-mark requested o j (omega arith)

  entry-drop : (d j : ℕ) (r : List A) → entry (drop d r) j ≡ entry r (d + j)
  unfolding entry
  entry-drop zero j r = ap (entry r) {x = j} {y = 0 + j} (omega arith)
  entry-drop (suc d) j [] = refl
  entry-drop (suc d) j (x ∷ r) =
      entry-drop d j r ∙ ap (entry (x ∷ r)) {x = suc (d + j)} {y = suc d + j} (omega arith)

  -- A column behind the identity, as the unknowns for a unit vector.
  pub unknowns-unit :
      (d q j : ℕ) (w : List (List A))
      → j < q
      → unknowns d w (set (zeros q) j k.one) ≡ map (λ (r : List A). entry r (d + j)) w
  unknowns-unit d q j [] h = refl
  unknowns-unit d q j (r ∷ w) h =
      ap (λ y. y ∷ unknowns d w (set (zeros q) j k.one))
        (dot_comm (drop d r) (set (zeros q) j k.one)
          ∙ unit_entry q j (drop d r) h
          ∙ entry-drop d j r)
      ∙ ap (◌∷◌ (entry r (d + j))) (unknowns-unit d q j w h)

  -- Rows that pick a row of the data from what the selected rows make of it.
  abbrev pub Picks : ℕ → List (List A) → List A → ℕ → Type 0
  Picks d rows dec r =
      (length dec ≡ d) × ((x : List A) → length x ≡ d → dot dec (apply rows x) ≡ entry x r)

  -- A sum of rows with the entries of a unit vector picks an entry.
  pub picks :
      (d r : ℕ) (rows : List (List A)) (dec x : List A)
      → r < d
      → HasWidth d rows
      → ((o : ℕ) → o < d → dot dec (column o rows) ≡ (if r == o then k.one else k.zero))
      → dot dec (apply rows x) ≡ entry x r
  picks d r rows dec x lt wide marks =
      let l = length-code_row_slices dec rows d in
      let y = code_row_slices dec rows d in
      let unit : y ≡ set (zeros d) r k.one =
        list_ext y (set (zeros d) r k.one)
          (l ∙ sym (length-set (zeros d) r k.one ∙ length-replicate d k.zero))
          (λ o lo.
            entry-code_row_slices dec rows d o (omega arith)
            ∙ marks o (omega arith)
            ∙ sym (entry-unit d r o (omega arith))) in
      sym (dot-code_row_slices dec rows d x wide) ∙ ap (λ u. dot u x) unit ∙ unit_entry d r x lt

  pub nothing :
      (d : ℕ) (rows : List (List A)) (u x : List A)
      → HasWidth d rows
      → ((o : ℕ) → o < d → dot u (column o rows) ≡ k.zero)
      → dot u (apply rows x) ≡ k.zero
  nothing d rows u x wide empty =
      let l = length-code_row_slices u rows d in
      let y = code_row_slices u rows d in
      let none_left : y ≡ zeros d =
        list_ext y (zeros d) (l ∙ sym (length-replicate d k.zero)) (λ o lo.
          entry-code_row_slices u rows d o (omega arith)
          ∙ empty o (omega arith)
          ∙ sym (entry-zeros d o)) in
      sym (dot-code_row_slices u rows d x wide) ∙ ap (λ v. dot v x) none_left ∙ zeros-dot d x
