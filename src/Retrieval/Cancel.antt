-- ===== src/Retrieval/Cancel.antt =====
-- src/retrieval_conventions.rs: the registry that cancels the requests of older stream
-- generations. A token shares its scope's cell with the registry; a scope is never dropped while
-- the registry lives, so the registry's entry is that cell.
use weeb.Prelude.{
  ℕ, ◌≤◌, ◌<◌, ◌^◌, max, Bool, true, false, ◌||◌, not, if◌then◌else◌, leb, ap, ◌∙◌, ◌==◌, Option,
  none, some, List, [], ◌∷◌, All, ◌≡◌, ◌≢◌, refl, arith,
}
use mathlib.Core.Option.{get_or}
use mathlib.Core.Logic.{ite, if_pos, if_neg}
use weeb.Prelude.Assoc
use weeb.Retrieval.Generation.{latest_registered_generation, latest-max}

pub record RetrieveCancelToken {ℓ} (K : Type ℓ) : Type ℓ where
  pub stream_key : K
  pub generation : ℕ

-- `is_empty` is the source's test of the stream key.
module _ {K : Type 0} (dec : Discrete K) (is_empty : K → Bool) where
  abbrev pub Registry : Type 0
  Registry = List (K × ℕ)

  -- The latest generation of a key's scope; a new scope starts at 0.
  abbrev pub latest_of : Registry → K → ℕ
  latest_of scopes key = get_or (Assoc.find dec key scopes) 0

  -- Also says whether the waiters of the scope are notified.
  unfoldable pub register : K → ℕ → Registry → Registry × Option (RetrieveCancelToken K) × Bool
  register stream_key generation scopes =
      if is_empty stream_key || generation == 0
      then (scopes, none, false)
      else (let current = latest_of scopes stream_key in
          let latest = latest_registered_generation current generation in
          (
            Assoc.put dec stream_key latest scopes,
            some (record { stream_key = stream_key; generation = generation }),
            not (latest == current),
          ))

  unfoldable pub is_current : Registry → RetrieveCancelToken K → Bool
  is_current scopes token = latest_of scopes token.stream_key == token.generation

  unfoldable pub retrieve_cancel_token_current : Registry → Option (RetrieveCancelToken K) → Bool
  unfolding is_current
  retrieve_cancel_token_current scopes none = true
  retrieve_cancel_token_current scopes (some token) = is_current scopes token

  -- Registrations by any streams, one after the other.
  pub register_all : List (K × ℕ) → Registry → Registry
  register_all [] scopes = scopes
  register_all ((key, generation) ∷ calls) scopes =
      register_all calls (register key generation scopes).0

  -- A registration leaves the scopes of other keys alone.
  register_other :
      (key other : K) (generation : ℕ) (scopes : Registry)
      → key ≢ other
      → latest_of (register key generation scopes).0 other ≡ latest_of scopes other
  unfolding register
  register_other key other generation scopes h = ground (
    arith,
    Assoc.find-put_ne dec key other (latest_registered_generation (latest_of scopes key) generation)
        scopes h,
  )

  -- In its own scope it keeps the greater generation.
  register_own :
      (key : K) (generation : ℕ) (scopes : Registry)
      → is_empty key ≡ false
      → latest_of scopes key < 2 ^ 63
      → generation < 2 ^ 63
      → latest_of (register key generation scopes).0 key ≡ max (latest_of scopes key) generation
  unfolding register
  register_own key generation scopes named hc hg = ground (
    arith,
    latest-max (latest_of scopes key) generation hc hg,
    Assoc.find-put_self dec key (latest_registered_generation (latest_of scopes key) generation)
        scopes,
  )

  register_step :
      (k key : K) (g : ℕ) (scopes : Registry)
      → is_empty key ≡ false
      → latest_of scopes key < 2 ^ 63
      → g < 2 ^ 63
      → latest_of (register k g scopes).0 key
        ≡ ite (dec k key) (max (latest_of scopes key) g) (latest_of scopes key)
  register_step k key g scopes named hc hg = elim (dec k key) [
    | yes p ↦ rw (if_pos (dec k key) p) (rw p (register_own key g scopes named hc hg))
    | no p ↦ rw (if_neg (dec k key) p) (register_other k key g scopes p)
  ]

  ite-lt : (k key : K) (a b : ℕ) → a < 2 ^ 63 → b < 2 ^ 63 → ite (dec k key) a b < 2 ^ 63
  ite-lt k key a b ha hb = ground arith

  ite-ge : (k key : K) (m g : ℕ) → m ≤ ite (dec k key) (max m g) m
  ite-ge k key m g = ground arith

  -- The greatest generation that the calls register for a key, or what there was before.
  abbrev pub newest : K → List (K × ℕ) → ℕ → ℕ
  newest key [] m = m
  newest key ((k, g) ∷ calls) m = newest key calls (ite (dec k key) (max m g) m)

  -- The scope of a key holds the greatest generation that was registered for it, whatever streams
  -- register in between and in whatever order, while generations stay below half their range.
  pub register_all-newest :
      (key : K) (calls : List (K × ℕ)) (scopes : Registry)
      → is_empty key ≡ false
      → latest_of scopes key < 2 ^ 63
      → All (λ c. c.1 < 2 ^ 63) calls
      → latest_of (register_all calls scopes) key ≡ newest key calls (latest_of scopes key)
  unfolding register_all
  register_all-newest key [] scopes named hc h = refl
  register_all-newest key ((k, g) ∷ calls) scopes named hc h =
      let step = register_step k key g scopes named hc h.0 in
      let bound : latest_of (register k g scopes).0 key < 2 ^ 63 =
        rw step
          (ite-lt k key (max (latest_of scopes key) g) (latest_of scopes key) (omega arith) hc) in
      register_all-newest key calls (register k g scopes).0 named bound h.1
      ∙ ap (newest key calls) step

  newest-ge : (key : K) (calls : List (K × ℕ)) (m : ℕ) → m ≤ newest key calls m
  newest-ge key [] m = omega arith
  newest-ge key ((k, g) ∷ calls) m =
      omega (arith, newest-ge key calls (ite (dec k key) (max m g) m), ite-ge k key m g)

  -- A token that a newer generation of its stream has cancelled is never current again, whatever
  -- is registered later, while generations stay below half their range.
  pub cancelled_for_good :
      (token : RetrieveCancelToken K) (calls : List (K × ℕ)) (scopes : Registry)
      → is_empty token.stream_key ≡ false
      → token.generation < latest_of scopes token.stream_key
      → latest_of scopes token.stream_key < 2 ^ 63
      → All (λ c. c.1 < 2 ^ 63) calls
      → is_current (register_all calls scopes) token ≡ false
  unfolding is_current
  cancelled_for_good token calls scopes named old hc h =
      let key = token.stream_key in
      ground (
        arith,
        register_all-newest key calls scopes named hc h,
        newest-ge key calls (latest_of scopes key),
      )

  -- A stream's registration hands out a token of its key and generation. The token is current
  -- exactly if no later generation registered before, and every other stream keeps its scope.
  pub register_token :
      (key other : K) (generation : ℕ) (scopes : Registry)
      → is_empty key ≡ false
      → key ≢ other
      → generation ≢ 0
      → latest_of scopes key < 2 ^ 63
      → generation < 2 ^ 63
      → ((register key generation scopes).1
          ≡ some (record { stream_key = key; generation = generation }))
        × (is_current
              (register key generation scopes).0
              (record { stream_key = key; generation = generation })
            ≡ leb (latest_of scopes key) generation)
        × (latest_of (register key generation scopes).0 other ≡ latest_of scopes other)
  unfolding is_current
  register_token key other generation scopes named differ some_gen hc hg = (
    unfold register in ground arith,
    ground (arith, register_own key generation scopes named hc hg),
    register_other key other generation scopes differ,
  )
