-- ===== src/Erasure/MatrixCache.antt =====
-- src/erasure_coding.rs: the cache of coding matrices, least recently used first. `Rc::clone` gives
-- the same matrix, so matrices are values of any type here, and so are keys.
use weeb.Prelude.{
  ℕ, ◌+◌, ◌≤◌, if◌then◌else◌, ◌==◌, Option, none, some, List, [], ◌∷◌, ◌++◌, length, length-snoc,
  All, map, ◌≡◌, refl, sym, arith, Bool-cases, ◌⊎◌, ◌-◌, inl, inr,
}
use mathlib.Core.Path.{subst}
use mathlib.Core.Logic.{ite, if_pos, if_neg}

abbrev pub coding_matrix_cache_entries : ℕ
coding_matrix_cache_entries = 64

-- A result of `coding_matrix`.
pub data MatrixResult (M E : Type 0) : Type 0 where
  ok : M → MatrixResult M E
  err : E → MatrixResult M E

abbrev pub pop_front : {A : Type 0} → List A → List A
pop_front [] = []
pop_front (e ∷ es) = es

unfoldable pub insert : {K M : Type 0} → K → M → List (K × M) → List (K × M)
insert key matrix es =
    (if length es == coding_matrix_cache_entries then pop_front es else es) ++ ((key, matrix) ∷ [])

module _ {K M : Type 0} (dec : Discrete K) where
  -- The first entry of a key, and the entries without it: `position`, then `remove`.
  unfoldable pub take_entry : K → List (K × M) → Option (M × List (K × M))
  take_entry key [] = none
  take_entry key ((k, v) ∷ es) =
      let rest = take_entry key es in
      ite (dec k key) (some (v, es))
        (elim rest [ none ↦ none | some found ↦ some (found.0, (k, v) ∷ found.1) ])

  unfoldable pub get : K → List (K × M) → List (K × M) × Option M
  get key es = elim (take_entry key es) [
    | none ↦ (es, none)
    | some found ↦ (found.1 ++ ((key, found.0) ∷ []), some found.0)
  ]

-- `coding_matrix` is any function here; only what it returns with `Ok` is cached.
module _ {K M E : Type 0} (dec : Discrete K) (coding_matrix : K → MatrixResult M E) where
  -- `cached_coding_matrix` after `coding_matrix`, and after the lookup.
  abbrev pub after_computing : K → List (K × M) → MatrixResult M E → List (K × M) × MatrixResult M E
  after_computing key es (err e) = (es, err e)
  after_computing key es (ok matrix) = (insert key matrix es, ok matrix)

  abbrev pub after_get : K → List (K × M) × Option M → List (K × M) × MatrixResult M E
  after_get key (es, some matrix) = (es, ok matrix)
  after_get key (es, none) = after_computing key es (coding_matrix key)

  unfoldable pub cached_coding_matrix : K → List (K × M) → List (K × M) × MatrixResult M E
  cached_coding_matrix key es = after_get key (get dec key es)

  -- The results of requests, one after the other, and the cache after them.
  unfoldable pub request_all : List K → List (K × M) → List (K × M) × List (MatrixResult M E)
  request_all [] es = (es, [])
  request_all (key ∷ keys) es =
      let (es', result) = cached_coding_matrix key es in
      let (es'', results) = request_all keys es' in (es'', result ∷ results)

  -- Every entry holds the matrix of its key, and there are 64 entries at most.
  abbrev pub IsCorrect : List (K × M) → Type 0
  IsCorrect es =
      All {A = K × M} (λ e. coding_matrix e.0 ≡ ok e.1) es
      × (length es ≤ coding_matrix_cache_entries)

  AreCorrect : List (K × M) → Type 0
  AreCorrect = All (λ e. coding_matrix e.0 ≡ ok e.1)

  take_entry_correct :
      (key : K) (es : List (K × M))
      → AreCorrect es
      → (take_entry dec key es ≡ none)
        ⊎ ((m : M) × (rest : List (K × M)) × (take_entry dec key es ≡ some (m, rest))
            × (coding_matrix key ≡ ok m)
            × AreCorrect rest
            × (length rest + 1 ≡ length es))
  unfolding take_entry AreCorrect
  take_entry_correct key [] h = inl refl
  take_entry_correct key ((k, v) ∷ es) h = elim (dec k key) [
    | yes same ↦ inr (
      v,
      es,
      rw (if_pos (dec k key) same) refl,
      subst (λ j. coding_matrix j ≡ ok v) same h.0,
      h.1,
      omega arith,
    )
    | no other ↦ elim (take_entry_correct key es h.1) [
      | inl e ↦ inl (rw (if_neg (dec k key) other, e) refl)
      | inr (m, rest, e, found, ok_rest, len) ↦ inr (
        m,
        (k, v) ∷ rest,
        rw (if_neg (dec k key) other, e) refl,
        found,
        (h.0, ok_rest),
        omega arith,
      )
    ]
  ]

  snoc-AreCorrect :
      (es : List (K × M)) (key : K) (m : M)
      → AreCorrect es
      → coding_matrix key ≡ ok m
      → AreCorrect (es ++ ((key, m) ∷ []))
  unfolding AreCorrect
  snoc-AreCorrect [] key m h e = (e, tt)
  snoc-AreCorrect (x ∷ es) key m h e = (h.0, snoc-AreCorrect es key m h.1 e)

  pop_front-AreCorrect :
      (es : List (K × M))
      → AreCorrect es
      → AreCorrect (pop_front es) × (length (pop_front es) ≡ length es - 1)
  unfolding AreCorrect
  pop_front-AreCorrect [] h = (tt, refl)
  pop_front-AreCorrect (e ∷ es) h = (h.1, omega arith)

  insert-IsCorrect :
      (es : List (K × M)) (key : K) (m : M)
      → IsCorrect es
      → coding_matrix key ≡ ok m
      → IsCorrect (insert key m es)
  unfolding insert AreCorrect
  insert-IsCorrect es key m (h, few) e =
      elim (Bool-cases (length es == coding_matrix_cache_entries)) [
        | inl full ↦
            let (front, shorter) = pop_front-AreCorrect es h in
            rw full (
              snoc-AreCorrect (pop_front es) key m front e,
              ground (arith, length-snoc (pop_front es) (key, m)),
            )
        | inr room ↦ rw room (snoc-AreCorrect es key m h e, ground (arith, length-snoc es (key, m)))
      ]

  abbrev pub IsServed : K → List (K × M) × MatrixResult M E → Type 0
  IsServed key r = IsCorrect r.0 × (r.1 ≡ coding_matrix key)

  computed-IsCorrect :
      (key : K) (es : List (K × M)) (r : MatrixResult M E)
      → IsCorrect es
      → coding_matrix key ≡ r
      → IsCorrect (after_computing key es r).0 × ((after_computing key es r).1 ≡ r)
  computed-IsCorrect key es (err x) v e = (v, refl)
  computed-IsCorrect key es (ok m) v e = (insert-IsCorrect es key m v e, refl)

  pub cached-IsServed :
      (key : K) (es : List (K × M)) → IsCorrect es → IsServed key (cached_coding_matrix key es)
  unfolding cached_coding_matrix AreCorrect get
  cached-IsServed key es (h, few) = elim (take_entry_correct key es h) [
    | inr (m, rest, e, found, ok_rest, len) ↦
        let hit : get dec key es ≡ (rest ++ ((key, m) ∷ []), some m) = rw (e, get) refl in
        let served : IsServed key (after_get key (rest ++ ((key, m) ∷ []), some m)) = (
          (snoc-AreCorrect rest key m ok_rest found, omega (arith, length-snoc rest (key, m))),
          sym found,
        ) in
        subst (λ r. IsServed key (after_get key r)) (sym hit) served
    | inl e ↦
        let miss : get dec key es ≡ (es, none) = rw (e, get) refl in
        subst (λ r. IsServed key (after_get key r)) (sym miss)
          (computed-IsCorrect key es (coding_matrix key) (h, few) refl)
  ]

  request_all-IsCorrect :
      (keys : List K) (es : List (K × M))
      → IsCorrect es
      → ((request_all keys es).1 ≡ map coding_matrix keys) × IsCorrect (request_all keys es).0
  unfolding request_all
  request_all-IsCorrect [] es v = (refl, v)
  request_all-IsCorrect (key ∷ keys) es v =
      let (kept, same) = cached-IsServed key es v in
      let (results, after) = request_all-IsCorrect keys (cached_coding_matrix key es).0 kept in
      (cc, after)

  -- From an empty cache any requests, in any order, get exactly what `coding_matrix` computes, its
  -- errors included; the cache never holds more than 64 matrices, each that of its key.
  pub request_all_lem :
      (keys : List K)
      → ((request_all keys []).1 ≡ map coding_matrix keys) × IsCorrect (request_all keys []).0
  request_all_lem keys = request_all-IsCorrect keys [] (tt, omega arith)
