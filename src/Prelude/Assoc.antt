-- ===== src/Prelude/Assoc.antt =====
-- Maps as association lists over keys with a decidable equality: the first entry of a key counts.
use mathlib.Core.Path.{◌≡◌, refl, subst}
use mathlib.Core.Logic.{◌≢◌, ite, if_pos, if_neg}
use mathlib.Core.List.{List, [], ◌∷◌}
use mathlib.Core.Option.{Option, none, some, none-ne-some, some-injective}
use native.Mathlib.Omega.{arith}

module _ {ℓ} {K V : Type ℓ} (dec : Discrete K) where
  unfoldable pub find : K → List (K × V) → Option V
  find k [] = none
  find k ((j, v) ∷ m) = ite (dec j k) (some v) (find k m)

  -- `HashMap::insert`.
  unfoldable pub put : K → V → List (K × V) → List (K × V)
  put k v [] = (k, v) ∷ []
  put k v ((j, w) ∷ m) = ite (dec j k) ((k, v) ∷ m) ((j, w) ∷ put k v m)

  -- `HashMap::remove`.
  unfoldable pub delete : K → List (K × V) → List (K × V)
  delete k [] = []
  delete k ((j, w) ∷ m) = ite (dec j k) (delete k m) ((j, w) ∷ delete k m)

  pub find-put_self : (k : K) (v : V) (m : List (K × V)) → find k (put k v m) ≡ some v
  unfolding find put
  find-put_self k v [] = ground arith
  find-put_self k v ((j, w) ∷ m) = ground (arith, find-put_self k v m)

  pub find-put_ne : (k q : K) (v : V) (m : List (K × V)) → k ≢ q → find q (put k v m) ≡ find q m
  unfolding find put
  find-put_ne k q v [] h = ground arith
  find-put_ne k q v ((j, w) ∷ m) h = ground (arith, find-put_ne k q v m)

  pub find-delete_self : (k : K) (m : List (K × V)) → find k (delete k m) ≡ none
  unfolding find delete
  find-delete_self k [] = refl
  find-delete_self k ((j, w) ∷ m) = ground (arith, find-delete_self k m)

  pub find-delete_ne : (k q : K) (m : List (K × V)) → k ≢ q → find q (delete k m) ≡ find q m
  unfolding find delete
  find-delete_ne k q [] h = refl
  find-delete_ne k q ((j, w) ∷ m) h = ground (arith, find-delete_ne k q m)

-- A property of every stored value.
module _ {ℓ κ} {K V : Type ℓ} where
  abbrev pub AllValues : (V → Type κ) → List (K × V) → Type κ
  AllValues P [] = Unit {κ}
  AllValues P ((j, w) ∷ m) = P w × AllValues P m

  pub AllValues-map :
      (P Q : V → Type κ) (m : List (K × V)) → ((v : V) → P v → Q v) → AllValues P m → AllValues Q m
  AllValues-map P Q [] f h = tt
  AllValues-map P Q ((j, w) ∷ m) f h = (f w h.0, AllValues-map P Q m f h.1)

  module _ (dec : Discrete K) (P : V → Type κ) where
    pub find-AllValues :
        (k : K) (v : V) (m : List (K × V)) → AllValues P m → find dec k m ≡ some v → P v
    unfolding find
    find-AllValues k v [] h e = absurd (none-ne-some v e)
    find-AllValues k v ((j, w) ∷ m) h e = elim (dec j k) [
      | yes p ↦ subst P (some-injective w v (rw (if_pos (dec j k) p) at e)) h.0
      | no p ↦ find-AllValues k v m h.1 (rw (if_neg (dec j k) p) at e)
    ]

    pub put-AllValues :
        (k : K) (v : V) (m : List (K × V)) → P v → AllValues P m → AllValues P (put dec k v m)
    unfolding put
    put-AllValues k v [] hv h = (hv, tt)
    put-AllValues k v ((j, w) ∷ m) hv h = elim (dec j k) [
      | yes p ↦ rw (if_pos (dec j k) p) (hv, h.1)
      | no p ↦ rw (if_neg (dec j k) p) (h.0, put-AllValues k v m hv h.1)
    ]

    pub delete-AllValues : (k : K) (m : List (K × V)) → AllValues P m → AllValues P (delete dec k m)
    unfolding delete
    delete-AllValues k [] h = tt
    delete-AllValues k ((j, w) ∷ m) h = elim (dec j k) [
      | yes p ↦ rw (if_pos (dec j k) p) (delete-AllValues k m h.1)
      | no p ↦ rw (if_neg (dec j k) p) (h.0, delete-AllValues k m h.1)
    ]
