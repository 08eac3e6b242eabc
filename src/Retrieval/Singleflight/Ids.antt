-- ===== src/Retrieval/Singleflight/Ids.antt =====
-- src/retrieval_conventions.rs: the ids of flights and waiters stay behind the registry's counters.
use weeb.Prelude.{
  ℕ, zero, suc, ◌+◌, ◌-◌, ◌^◌, ◌≤◌, ◌<◌, Bool, ◌==◌, some, Option-cases, Bool-cases, inl, inr, List,
  [], ◌∷◌, ◌++◌, ◌≡◌, arith, All,
}
use weeb.Prelude.Assoc
use weeb.Retrieval.Generation.{next_nonzero_generation}
use weeb.Retrieval.Singleflight.{
  SingleflightFlight, SingleflightRegistry, retain, position, pop_last, swap_remove, flight_of,
  with_flight, inspect_waiters, shared_mut, register, remove_waiter, take,
}

-- The ids that a flight holds were handed out by counters that have come this far.
abbrev pub IsIssued : {W A : Type 0} → ℕ → ℕ → SingleflightFlight W A → Type 0
IsIssued {W} flights waiters f =
    (f.flight_id ≤ flights) × All {A = ℕ × W} (λ w. w.0 ≤ waiters) f.waiters

abbrev pub IsValid : {K W A : Type 0} → SingleflightRegistry K W A → Type 0
IsValid r = Assoc.AllValues (IsIssued r.next_flight_id r.next_waiter_id) r.flights

-- Away from the end of the range the next id is the successor.
pub next-suc : (n : ℕ) → n < 2 ^ 64 - 1 → next_nonzero_generation n ≡ n + 1
unfolding next_nonzero_generation
next-suc n h = ground arith

module _ {W : Type 0} where
  All-weaken : (a b : ℕ) (ws : List (ℕ × W)) → a ≤ b → All (λ w. w.0 ≤ a) ws → All (λ w. w.0 ≤ b) ws
  All-weaken a b [] h all = tt
  All-weaken a b (w ∷ ws) h all = (omega arith, All-weaken a b ws h all.1)

  All-snoc :
      (b : ℕ) (ws : List (ℕ × W)) (w : ℕ × W)
      → w.0 ≤ b
      → All (λ v. v.0 ≤ b) ws
      → All (λ v. v.0 ≤ b) (ws ++ (w ∷ []))
  All-snoc b [] w h all = (h, tt)
  All-snoc b (v ∷ ws) w h all = (all.0, All-snoc b ws w h all.1)

  retain-All :
      (keep : W → Bool) (b : ℕ) (ws : List (ℕ × W))
      → All (λ w. w.0 ≤ b) ws
      → All (λ w. w.0 ≤ b) (retain keep ws)
  unfolding retain
  retain-All keep b [] all = tt
  retain-All keep b ((i, w) ∷ ws) all = elim (Bool-cases (keep w)) [
    | inl kept ↦ rw kept (all.0, retain-All keep b ws all.1)
    | inr dropped ↦ rw dropped (retain-All keep b ws all.1)
  ]

  pop_last-All :
      (b : ℕ) (x : ℕ × W) (xs : List (ℕ × W))
      → All (λ w. w.0 ≤ b) (x ∷ xs)
      → ((pop_last x xs).1.0 ≤ b) × All (λ w. w.0 ≤ b) (pop_last x xs).0
  unfolding pop_last
  pop_last-All b x [] all = (all.0, tt)
  pop_last-All b x (y ∷ ys) all =
      let (last, front) = pop_last-All b y ys all.1 in (last, (all.0, front))

  swap_remove-All :
      (p b : ℕ) (ws : List (ℕ × W)) → All (λ w. w.0 ≤ b) ws → All (λ w. w.0 ≤ b) (swap_remove p ws)
  unfolding swap_remove
  swap_remove-All p b [] all = tt
  swap_remove-All zero b (x ∷ []) all = tt
  swap_remove-All zero b (x ∷ (y ∷ ys)) all =
      let (last, front) = pop_last-All b y ys all.1 in (last, front)
  swap_remove-All (suc p) b (x ∷ xs) all = (all.0, swap_remove-All p b xs all.1)

module _ {K W A : Type 0} (dec : Discrete K) where
  put_flight :
      (key : K) (f : SingleflightFlight W A) (r : SingleflightRegistry K W A)
      → IsIssued r.next_flight_id r.next_waiter_id f
      → IsValid r
      → IsValid (with_flight dec key f r)
  put_flight key f r issued v =
      Assoc.put-AllValues dec (IsIssued r.next_flight_id r.next_waiter_id) key f r.flights issued v

  -- Counters that have gone further still cover the ids.
  IsValid-later :
      (r : SingleflightRegistry K W A) (flights waiters : ℕ)
      → r.next_flight_id ≤ flights
      → r.next_waiter_id ≤ waiters
      → IsValid r
      → IsValid (record r { next_flight_id = flights; next_waiter_id = waiters })
  IsValid-later r flights waiters hf hw v =
      Assoc.AllValues-map (IsIssued r.next_flight_id r.next_waiter_id) (IsIssued flights waiters)
        r.flights (λ f h. (omega arith, All-weaken r.next_waiter_id waiters f.waiters hw h.1)) v

  pub flight_of-IsIssued :
      (key : K) (f : SingleflightFlight W A) (r : SingleflightRegistry K W A)
      → IsValid r
      → flight_of dec r key ≡ some f
      → IsIssued r.next_flight_id r.next_waiter_id f
  flight_of-IsIssued key f r v e =
      Assoc.find-AllValues dec (IsIssued r.next_flight_id r.next_waiter_id) key f r.flights v e

  pub inspect_waiters-IsValid :
      (key : K) (keep : W → Bool) (r : SingleflightRegistry K W A)
      → IsValid r
      → IsValid (inspect_waiters dec key keep r).0
  unfolding inspect_waiters
  inspect_waiters-IsValid key keep r v = elim (Option-cases (flight_of dec r key)) [
    | inl e ↦ rw (e, inspect_waiters) v
    | inr (f, e) ↦
        let h = flight_of-IsIssued key f r v e in
        rw (e, inspect_waiters)
          (put_flight key _ r (h.0, retain-All keep r.next_waiter_id f.waiters h.1) v)
  ]

  pub shared_mut-IsValid :
      (key : K) (id : ℕ) (change : A → A) (r : SingleflightRegistry K W A)
      → IsValid r
      → IsValid (shared_mut dec key id change r).0
  unfolding shared_mut
  shared_mut-IsValid key id change r v = elim (Option-cases (flight_of dec r key)) [
    | inl e ↦ rw (e, shared_mut) v
    | inr (f, e) ↦
        let h = flight_of-IsIssued key f r v e in
        rw (e, shared_mut)
          (elim (Bool-cases (f.flight_id == id)) [
            | inl same ↦ rw same (put_flight key _ r h v)
            | inr other ↦ rw other v
          ])
  ]

  pub take-IsValid :
      (key : K) (id : ℕ) (r : SingleflightRegistry K W A)
      → IsValid r
      → IsValid (take dec key id r).0
  unfolding take
  take-IsValid key id r v = elim (Option-cases (flight_of dec r key)) [
    | inl e ↦ rw (e, take) v
    | inr (f, e) ↦
        rw (e, take)
          (elim (Bool-cases (f.flight_id == id)) [
            | inl same ↦ rw same (
                Assoc.delete-AllValues dec (IsIssued r.next_flight_id r.next_waiter_id) key
                  r.flights v)
            | inr other ↦ rw other v
          ])
  ]

  pub remove_waiter-IsValid :
      (key : K) (id waiter : ℕ) (r : SingleflightRegistry K W A)
      → IsValid r
      → IsValid (remove_waiter dec key id waiter r).0
  unfolding remove_waiter
  remove_waiter-IsValid key id waiter r v = elim (Option-cases (flight_of dec r key)) [
    | inl e ↦ rw (e, remove_waiter) v
    | inr (f, e) ↦
        let h = flight_of-IsIssued key f r v e in
        rw (e, remove_waiter)
          (elim (Bool-cases (f.flight_id == id)) [
            | inl same ↦ rw same (elim (Option-cases (position waiter f.waiters)) [
              | inl absent ↦ rw absent v
              | inr (p, found) ↦
                  rw found
                    (put_flight key _ r (h.0, swap_remove-All p r.next_waiter_id f.waiters h.1) v)
            ])
            | inr other ↦ rw other v
          ])
  ]

  -- Registering keeps the ids behind the counters while those have not come to the end of a u64.
  pub register-IsValid :
      {R : Type 0} (key : K) (waiter : W) (make_shared : A) (project : A → A × R)
      (r : SingleflightRegistry K W A)
      → r.next_flight_id < 2 ^ 64 - 1
      → r.next_waiter_id < 2 ^ 64 - 1
      → IsValid r
      → IsValid (register dec key waiter make_shared project r).0
  unfolding register
  register-IsValid key waiter make_shared project r hf hw v =
      let w = next-suc r.next_waiter_id hw in
      let g = next-suc r.next_flight_id hf in
      elim (Option-cases (flight_of dec r key)) [
        | inl e ↦
            rw (e, register, w, g)
              (Assoc.put-AllValues dec (IsIssued (r.next_flight_id + 1) (r.next_waiter_id + 1)) key
                _ r.flights (omega arith, (omega arith, tt))
                (IsValid-later r (r.next_flight_id + 1) (r.next_waiter_id + 1) (omega arith)
                  (omega arith) v))
        | inr (f, e) ↦
            let h = flight_of-IsIssued key f r v e in
            rw (e, register, w)
              (Assoc.put-AllValues dec (IsIssued r.next_flight_id (r.next_waiter_id + 1)) key _
                r.flights
                (
                  h.0,
                  All-snoc (r.next_waiter_id + 1) f.waiters _ (omega arith) (
                      All-weaken r.next_waiter_id (r.next_waiter_id + 1) f.waiters (omega arith)
                        h.1),
                )
                (IsValid-later r r.next_flight_id (r.next_waiter_id + 1) (omega arith) (omega arith)
                  v))
      ]
