-- ===== src/Retrieval/Singleflight/Laws.antt =====
-- src/retrieval_conventions.rs: leaders, followers, stale producers and leaving waiters.
use weeb.Prelude.{
  ℕ, zero, suc, ◌+◌, ◌-◌, ◌^◌, ◌<◌, Bool, true, false, if◌then◌else◌, ◌==◌, ==_iff, ==_false, none,
  some, Bool-cases, inl, inr, List, [], ◌∷◌, ◌++◌, ◌≡◌, ◌≢◌, refl, ap, arith, length,
}
use weeb.Prelude.Assoc
use weeb.Retrieval.Generation.{next_nonzero_generation}
use weeb.Retrieval.Singleflight.{
  SingleflightRegistration, SingleflightFlight, SingleflightRegistry, position, pop_last,
  swap_remove, flight_of, register, remove_waiter, take,
}
use weeb.Retrieval.Singleflight.Ids.{IsValid, flight_of-IsIssued, next-suc}

module _ {K W A R : Type 0} (dec : Discrete K) (key : K) (waiter : W) (make_shared : A)
    (project : A → A × R) (r : SingleflightRegistry K W A) where
  abbrev pub registered : SingleflightRegistry K W A × SingleflightRegistration K R
  registered = register dec key waiter make_shared project r

  -- Registering for a key with a flight joins that flight: the registration does not lead, the
  -- flight keeps its id and gains the waiter behind the others, and other keys keep their flights.
  pub register_joins :
      (f : SingleflightFlight W A) (other : K)
      → flight_of dec r key ≡ some f
      → key ≢ other
      → (registered.1.leader ≡ false)
        × (registered.1.flight_id ≡ f.flight_id)
        × (flight_of dec registered.0 key
            ≡ some (record f {
              shared = (project f.shared).0;
              waiters = f.waiters ++ ((registered.1.waiter_id, waiter) ∷ []);
            }))
        × (flight_of dec registered.0 other ≡ flight_of dec r other)
  unfolding register
  register_joins f other e differ =
      rw (e, register)
        (
          refl,
          refl,
          Assoc.find-put_self dec key _ r.flights,
          Assoc.find-put_ne dec key other _ r.flights differ,
        )

  -- Registering for a key with no flight leads a new one, whose only waiter it is.
  pub register_leads :
      (other : K)
      → flight_of dec r key ≡ none
      → key ≢ other
      → (registered.1.leader ≡ true)
        × (flight_of dec registered.0 key
            ≡ some (record {
              flight_id = registered.1.flight_id;
              shared = (project make_shared).0;
              waiters = (registered.1.waiter_id, waiter) ∷ [];
            }))
        × (flight_of dec registered.0 other ≡ flight_of dec r other)
  unfolding register
  register_leads other e differ =
      rw (e, register)
        (
          refl,
          Assoc.find-put_self dec key _ r.flights,
          Assoc.find-put_ne dec key other _ r.flights differ,
        )

  leads :
      flight_of dec r key ≡ none
      → (registered.1.leader ≡ true)
        × (flight_of dec registered.0 key
            ≡ some (record {
              flight_id = registered.1.flight_id;
              shared = (project make_shared).0;
              waiters = (registered.1.waiter_id, waiter) ∷ [];
            }))
  unfolding register
  leads e = rw (e, register) (refl, Assoc.find-put_self dec key _ r.flights)

  leads_id :
      flight_of dec r key ≡ none → registered.1.flight_id ≡ next_nonzero_generation r.next_flight_id
  unfolding register
  leads_id e = rw (e, register)

module _ {K W A : Type 0} (dec : Discrete K) (key : K) (f : SingleflightFlight W A)
    (r : SingleflightRegistry K W A) where
  take_own :
      (id : ℕ)
      → flight_of dec r key ≡ some f
      → f.flight_id ≡ id
      → take dec key id r ≡ (record r { flights = Assoc.delete dec key r.flights }, some f)
  unfolding take
  take_own id e same = rw (e, take, (==_iff f.flight_id id).1 same)

  take_stale :
      (id : ℕ) → flight_of dec r key ≡ some f → f.flight_id ≢ id → take dec key id r ≡ (r, none)
  unfolding take
  take_stale id e other = rw (e, take, ==_false f.flight_id id other)

-- After a producer has taken its flight, the next registration for the key leads a flight with
-- another id. That flight is registered for the key, with the shared value as projected and the
-- new waiter as its only one. The first producer's id no longer takes anything: a second `take`
-- with it returns no flight and leaves the registry, and so the newer flight, as it is. The flight
-- counter has not come to the end of a u64.
pub stale_producer :
    {K W A R : Type 0} (dec : Discrete K) (key : K) (waiter : W) (make_shared : A)
    (project : A → A × R) (r : SingleflightRegistry K W A) (f : SingleflightFlight W A)
    → IsValid r
    → r.next_flight_id < 2 ^ 64 - 1
    → flight_of dec r key ≡ some f
    → let (taken, old) = take dec key f.flight_id r in
      let (newer, registration) = registered dec key waiter make_shared project taken in
      (old ≡ some f)
      × (registration.leader ≡ true)
      × (registration.flight_id ≢ f.flight_id)
      × (flight_of dec newer key
          ≡ some (record {
            flight_id = registration.flight_id;
            shared = (project make_shared).0;
            waiters = (registration.waiter_id, waiter) ∷ [];
          }))
      × (take dec key f.flight_id newer ≡ (newer, none))
stale_producer dec key waiter make_shared project r f v room e =
    let r' = record r { flights = Assoc.delete dec key r.flights } in
    let gone : flight_of dec r' key ≡ none = Assoc.find-delete_self dec key r.flights in
    let (lead, here) = leads dec key waiter make_shared project r' gone in
    let id = leads_id dec key waiter make_shared project r' gone in
    let old = (flight_of-IsIssued dec key f r v e).0 in
    let differ : (registered dec key waiter make_shared project r').1.flight_id ≢ f.flight_id =
      λ same. absurd (omega (arith, id, next-suc r.next_flight_id room, old, same)) in
    rw (take_own dec key f r f.flight_id e refl)
      (refl, lead, differ, here, take_stale dec key _ _ f.flight_id here differ)

-- How many waiters of an id there are.
abbrev pub count : {W : Type 0} → ℕ → List (ℕ × W) → ℕ
count j [] = 0
count j ((i, w) ∷ ws) = (if i == j then 1 else 0) + count j ws

module _ {W : Type 0} where
  position-count :
      (id : ℕ) (ws : List (ℕ × W)) → 0 < count id ws → (p : ℕ) × (position id ws ≡ some p)
  unfolding position
  position-count id [] h = absurd (omega arith)
  position-count id ((i, w) ∷ ws) h = elim (Bool-cases (i == id)) [
    | inl same ↦ (0, rw same)
    | inr other ↦ let (p, found) = position-count id ws (ground arith) in (suc p, rw (other, found))
  ]

  pop_last-count :
      (j : ℕ) (x : ℕ × W) (xs : List (ℕ × W))
      → (count j ((pop_last x xs).1 ∷ (pop_last x xs).0) ≡ count j (x ∷ xs))
        × (length (pop_last x xs).0 ≡ length xs)
  unfolding pop_last
  pop_last-count j x [] = (refl, refl)
  pop_last-count j x (y ∷ ys) = let (c, l) = pop_last-count j y ys in omega (arith, c, l)

  position-zero :
      (id i : ℕ) (w : W) (ws : List (ℕ × W)) → position id ((i, w) ∷ ws) ≡ some zero → i ≡ id
  unfolding position
  position-zero id i w ws h = ground arith

  position-suc :
      (id i p : ℕ) (w : W) (ws : List (ℕ × W))
      → position id ((i, w) ∷ ws) ≡ some (suc p)
      → position id ws ≡ some p
  unfolding position
  position-suc id i p w ws h = ground arith

  swap_remove-count :
      (id p j : ℕ) (ws : List (ℕ × W))
      → position id ws ≡ some p
      → (count j (swap_remove p ws) + (if id == j then 1 else 0) ≡ count j ws)
        × (length (swap_remove p ws) + 1 ≡ length ws)
  unfolding position swap_remove
  swap_remove-count id p j [] h = cc
  swap_remove-count id zero j ((i, w) ∷ []) h = ground (arith, position-zero id i w [] h)
  swap_remove-count id zero j ((i, w) ∷ (y ∷ ys)) h =
      ground (arith, position-zero id i w (y ∷ ys) h, pop_last-count j y ys)
  swap_remove-count id (suc p) j ((i, w) ∷ ws) h =
      ground (arith, swap_remove-count id p j ws (position-suc id i p w ws h))

-- A waiter that leaves is taken off its flight once: any id is then held as often as before, less
-- one for the id that left. The flight stays registered under its id, also with no waiters left.
-- The caller gets the shared value exactly if the last waiter has left.
pub remove_waiter_lem :
    {K W A : Type 0} (dec : Discrete K) (key : K) (waiter_id j : ℕ) (r : SingleflightRegistry K W A)
    (f : SingleflightFlight W A)
    → flight_of dec r key ≡ some f
    → 0 < count waiter_id f.waiters
    → ((remove_waiter dec key f.flight_id waiter_id r).1
        ≡ (if length f.waiters == 1 then some f.shared else none))
      × ((g : SingleflightFlight W A) × (flight_of dec
              (remove_waiter dec key f.flight_id waiter_id r).0
              key
            ≡ some g)
          × (g.flight_id ≡ f.flight_id)
          × (g.shared ≡ f.shared)
          × (length g.waiters + 1 ≡ length f.waiters)
          × (count j g.waiters + (if waiter_id == j then 1 else 0) ≡ count j f.waiters))
unfolding remove_waiter
remove_waiter_lem dec key waiter_id j r f e held =
    let (p, found) = position-count waiter_id f.waiters held in
    let (counts, shorter) = swap_remove-count waiter_id p j f.waiters found in
    let g = record f { waiters = swap_remove p f.waiters } in
    let last : (length (swap_remove p f.waiters) == 0) ≡ (length f.waiters == 1) = ground arith in
    rw (e, remove_waiter, (==_iff f.flight_id f.flight_id).1 refl, found)
      (
        ap (λ (b : Bool). if b then some f.shared else none) last,
        (g, Assoc.find-put_self dec key g r.flights, refl, refl, shorter, counts),
      )
