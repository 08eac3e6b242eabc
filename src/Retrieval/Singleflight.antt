-- ===== src/Retrieval/Singleflight.antt =====
-- src/retrieval_conventions.rs: the singleflight registry. Waiters for one key share a flight.
pub mod Ids
pub mod Laws
use weeb.Prelude.{
  ℕ, zero, suc, ◌+◌, Bool, true, false, if◌then◌else◌, ◌==◌, Option, none, some, ◌>>=◌, ◌>>◌, guard,
  List, [], ◌∷◌, ◌++◌, length, set,
}
use weeb.Prelude.Assoc
use weeb.Retrieval.Generation.{next_nonzero_generation}

pub record SingleflightRegistration (K R : Type 0) : Type 0 where
  pub key : K
  pub flight_id : ℕ
  pub waiter_id : ℕ
  pub shared : R
  pub leader : Bool

pub record SingleflightFlight (W A : Type 0) : Type 0 where
  pub flight_id : ℕ
  pub shared : A
  pub waiters : List (ℕ × W)

pub record SingleflightRegistry (K W A : Type 0) : Type 0 where
  pub next_flight_id : ℕ
  pub next_waiter_id : ℕ
  pub flights : List (K × SingleflightFlight W A)

-- `Default::default`.
abbrev pub new_registry : {K W A : Type 0} → SingleflightRegistry K W A
new_registry = record { next_flight_id = 0; next_waiter_id = 0; flights = [] }

-- `retain` by a test of the waiter.
unfoldable pub retain : {W : Type 0} → (W → Bool) → List (ℕ × W) → List (ℕ × W)
retain keep [] = []
retain keep ((i, w) ∷ ws) = if keep w then (i, w) ∷ retain keep ws else retain keep ws

-- The position of the first waiter with an id.
unfoldable pub position : {W : Type 0} → ℕ → List (ℕ × W) → Option ℕ
position id [] = none
position id ((i, w) ∷ ws) = if i == id then some 0 else (do p ← position id ws; some (suc p))

-- All but the last element, and the last one.
unfoldable pub pop_last : {A : Type 0} → A → List A → List A × A
pop_last x [] = ([], x)
pop_last x (y ∷ ys) = let (front, last) = pop_last y ys in (x ∷ front, last)

-- `swap_remove`: the last element takes the place of the removed one.
unfoldable pub swap_remove : {A : Type 0} → ℕ → List A → List A
unfolding pop_last
swap_remove p [] = []
swap_remove zero (x ∷ []) = []
swap_remove zero (x ∷ (y ∷ ys)) = let (front, last) = pop_last y ys in last ∷ front
swap_remove (suc p) (x ∷ xs) = x ∷ swap_remove p xs

module _ {K W A : Type 0} (dec : Discrete K) where
  abbrev pub flight_of : SingleflightRegistry K W A → K → Option (SingleflightFlight W A)
  flight_of r key = Assoc.find dec key r.flights

  -- The flight of a key, written back.
  abbrev pub with_flight :
      K → SingleflightFlight W A → SingleflightRegistry K W A → SingleflightRegistry K W A
  with_flight key flight r = record r { flights = Assoc.put dec key flight r.flights }

  unfoldable pub inspect_waiters :
      K → (W → Bool) → SingleflightRegistry K W A → SingleflightRegistry K W A × Option (ℕ × A × ℕ)
  unfolding retain
  inspect_waiters key keep r = elim (flight_of r key) [
    | none ↦ (r, none)
    | some flight ↦
        let flight' = record flight { waiters = retain keep flight.waiters } in
        (with_flight key flight' r, some (flight.flight_id, flight.shared, length flight'.waiters))
  ]

  -- `shared_mut`, with what the caller does to the shared value.
  unfoldable pub shared_mut :
      K → ℕ → (A → A) → SingleflightRegistry K W A → SingleflightRegistry K W A × Bool
  shared_mut key flight_id change r = elim (flight_of r key) [
    | none ↦ (r, false)
    | some flight ↦
        if flight.flight_id == flight_id
        then (with_flight key (record flight { shared = change flight.shared }) r, true)
        else (r, false)
  ]

  -- `project` may change the shared value, and returns what the registration carries.
  unfoldable pub register :
      {R : Type 0}
      → K
      → W
      → A
      → (A → A × R)
      → SingleflightRegistry K W A
      → SingleflightRegistry K W A × SingleflightRegistration K R
  register key waiter make_shared project r =
      let waiter_id = next_nonzero_generation r.next_waiter_id in
      let r' = record r { next_waiter_id = waiter_id } in
      elim (flight_of r key) [
        | some flight ↦
            let (shared, projected) = project flight.shared in
            (
              with_flight key
                  (record flight {
                    shared = shared;
                    waiters = flight.waiters ++ ((waiter_id, waiter) ∷ []);
                  })
                  r',
              record {
                key = key;
                flight_id = flight.flight_id;
                waiter_id = waiter_id;
                shared = projected;
                leader = false;
              },
            )
        | none ↦
            let flight_id = next_nonzero_generation r.next_flight_id in
            let (shared, projected) = project make_shared in
            (
              with_flight key
                  (record {
                    flight_id = flight_id;
                    shared = shared;
                    waiters = (waiter_id, waiter) ∷ [];
                  })
                  (record r' { next_flight_id = flight_id }),
              record {
                key = key;
                flight_id = flight_id;
                waiter_id = waiter_id;
                shared = projected;
                leader = true;
              },
            )
      ]

  unfoldable pub remove_waiter :
      K → ℕ → ℕ → SingleflightRegistry K W A → SingleflightRegistry K W A × Option A
  remove_waiter key flight_id waiter_id r = elim (flight_of r key) [
    | none ↦ (r, none)
    | some flight ↦
        if flight.flight_id == flight_id
        then elim (position waiter_id flight.waiters) [
          | none ↦ (r, none)
          | some p ↦
              let flight' = record flight { waiters = swap_remove p flight.waiters } in
              (
                with_flight key flight' r,
                if length flight'.waiters == 0 then some flight.shared else none,
              )
        ]
        else (r, none)
  ]

  unfoldable pub take :
      K
      → ℕ
      → SingleflightRegistry K W A
      → SingleflightRegistry K W A × Option (SingleflightFlight W A)
  take key flight_id r = elim (flight_of r key) [
    | none ↦ (r, none)
    | some flight ↦
        if flight.flight_id == flight_id
        then (record r { flights = Assoc.delete dec key r.flights }, some flight)
        else (r, none)
  ]
