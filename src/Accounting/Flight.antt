-- ===== src/Accounting/Flight.antt =====
-- src/accounting.rs as the exchanges of src/retrieval.rs and src/upload.rs use it: an exchange
-- reserves its price first, and settles that amount once, by a credit or by a cancellation.
use weeb.Prelude.{ℕ, ◌+◌, ◌≤◌, ◌≡◌, refl, Bool, some, List, [], ◌∷◌, ◌++◌, arith, u64_max}
use weeb.Accounting.Account.{
  Account, Session, Instruction, reserve, credited, apply_credit, apply_refreshment, cancel_reserve,
  retire_timed_out_session, set_payment_threshold,
}
use weeb.Accounting.Reserve.{reserve-eq-some, apply_credit_account}

abbrev pub sum : List ℕ → ℕ
sum [] = 0
sum (x ∷ xs) = x + sum xs

sum-middle : (xs : List ℕ) (p : ℕ) (ys : List ℕ) → sum (xs ++ (p ∷ ys)) ≡ p + sum (xs ++ ys)
sum-middle [] p ys = refl
sum-middle (x ∷ xs) p ys = omega (arith, sum-middle xs p ys)

-- A session with the prices of the exchanges in flight.
pub record Flight : Type 0 where
  pub session : Session
  pub in_flight : List ℕ

-- The balances stay covered by the threshold, and the reserve is what is in flight.
pub record IsFunded (f : Flight) : Type 0 where
  pub bounded : f.session.account.threshold ≤ u64_max
  pub reserved : f.session.account.reserve ≡ sum f.in_flight
  pub covered : f.session.account.balance + f.session.account.reserve ≤ f.session.account.threshold

module _ (accepts : List Instruction → Bool) where
  -- One event of the program while a connection lasts. A peer that lowers its threshold is left
  -- out, and so is a settlement that clears the whole balance.
  pub data Step (f : Flight) : Flight → Type 0 where
    start :
        (price c : ℕ) (a : Account) (g : Flight)
        → reserve f.session.account price ≡ some (c, a)
        → g
          ≡ record { session = record (f.session) { account = a }; in_flight = price ∷ f.in_flight }
        → Step f g
    settle :
        (xs : List ℕ) (price : ℕ) (ys : List ℕ)
        → f.in_flight ≡ xs ++ (price ∷ ys)
        → Step f (record { session = apply_credit accepts price f.session; in_flight = xs ++ ys })
    cancel :
        (xs : List ℕ) (price : ℕ) (ys : List ℕ)
        → f.in_flight ≡ xs ++ (price ∷ ys)
        → Step f (record { session = cancel_reserve price f.session; in_flight = xs ++ ys })
    refreshed :
        (amount : ℕ) → Step f (record f { session = (apply_refreshment amount f.session).0 })
    timed_out :
        (connection : ℕ)
        → Step f (record f { session = retire_timed_out_session accepts connection f.session })
    raised :
        (amount : ℕ)
        → f.session.account.threshold ≤ amount
        → amount ≤ u64_max
        → Step f (record f { session = set_payment_threshold accepts amount f.session })

  pub data Reach (f : Flight) : Flight → Type 0 where
    here : Reach f f
    next : {g h : Flight} → Reach f g → Step g h → Reach f h

  retire_account :
      (c : ℕ) (s : Session)
      → ((retire_timed_out_session accepts c s).account.balance ≡ s.account.balance)
        × ((retire_timed_out_session accepts c s).account.reserve ≡ s.account.reserve)
        × ((retire_timed_out_session accepts c s).account.threshold ≡ s.account.threshold)
  unfolding retire_timed_out_session
  retire_account c s = ground arith

  set_threshold_account :
      (amount : ℕ) (s : Session)
      → s.account.balance ≤ u64_max
      → ((set_payment_threshold accepts amount s).account.balance ≡ s.account.balance)
        × ((set_payment_threshold accepts amount s).account.reserve ≡ s.account.reserve)
        × ((set_payment_threshold accepts amount s).account.threshold ≡ amount)
  unfolding set_payment_threshold
  set_threshold_account amount s fits = ground arith

  Step-IsFunded : {f g : Flight} → Step f g → IsFunded f → IsFunded g
  Step-IsFunded {f} (start price c a g r e) v =
      ground (arith, reserve-eq-some f.session.account price r)
  Step-IsFunded {f} (settle xs price ys e) v =
      unfold credited in
      ground (arith, sum-middle xs price ys, apply_credit_account accepts price f.session)
  Step-IsFunded {f} (cancel xs price ys e) v =
      unfold cancel_reserve in ground (arith, sum-middle xs price ys)
  Step-IsFunded (refreshed amount) v = unfold apply_refreshment in ground arith
  Step-IsFunded {f} (timed_out c) v = ground (arith, retire_account c f.session)
  Step-IsFunded {f} (raised amount up fits) v =
      ground (arith, set_threshold_account amount f.session)

  -- From a session that is funded, whatever exchanges, refreshments, timeouts and threshold
  -- increases happen, in any order, the reserve is exactly the sum of the prices in flight, and
  -- debt and reserve together do not exceed the threshold.
  pub Reach-IsFunded : {f g : Flight} → IsFunded f → Reach f g → IsFunded g
  Reach-IsFunded v here = v
  Reach-IsFunded v (next r st) = Step-IsFunded st (Reach-IsFunded v r)
