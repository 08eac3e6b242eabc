-- ===== src/Accounting/Reserve.antt =====
-- src/accounting.rs: what `reserve` grants, and what `apply_credit` books.
use weeb.Prelude.{
  ℕ, ◌+◌, ◌-◌, ◌≤◌, ◌≡◌, min, Bool, false, ◌&&◌, if◌then◌else◌, ltb, leb, ◌==◌, none, some, List,
  arith, u64_max,
}
use mathlib.Core.Option
use weeb.Accounting.Pricing.{refreshment_due, price, price_bounds, max_chunk_price}
use weeb.Accounting.Account.{Account, Session, Instruction, reserve, credited, send, apply_credit}

-- For a threshold that is a u64, `reserve` grants exactly the amounts that keep balance and
-- reserve within the threshold of a connected account: its overflow checks refuse nothing else.
-- A grant adds the amount to the reserve and leaves every other field alone.
pub reserve_grants :
    (a : Account) (amount : ℕ)
    → a.threshold ≤ u64_max
    → reserve a amount ≡ (
        if leb (a.balance + (a.reserve + amount)) a.threshold
        then Option.map (λ c. (c, record a { reserve = a.reserve + amount })) a.connection_id
        else none)
unfolding reserve
reserve_grants a amount fits = ground arith

pub reserve-eq-some :
    (a : Account) (amount : ℕ) {c : ℕ} {a' : Account}
    → reserve a amount ≡ some (c, a')
    → (a.connection_id ≡ some c)
      × (a' ≡ record a { reserve = a.reserve + amount })
      × (a.balance + (a.reserve + amount) ≤ a.threshold)
unfolding reserve
reserve-eq-some a amount h = ground arith

-- A connected account with nothing in flight and no refreshment due can pay for a chunk at any
-- proximity, if its threshold is a u64 and covers the dearest chunk.
pub reserve-not_due :
    (a : Account) (c proximity : ℕ)
    → a.connection_id ≡ some c
    → a.reserve ≡ 0
    → a.threshold ≤ u64_max
    → max_chunk_price ≤ a.threshold
    → refreshment_due a.balance a.refreshment a.threshold ≡ false
    → reserve a (price proximity) ≡ some (c, record a { reserve = price proximity })
unfolding reserve refreshment_due
reserve-not_due a c proximity conn idle fits covers due = ground (arith, price_bounds proximity)

-- Sending touches nothing of the account but `refresh_scheduled`.
pub send_account :
    (accepts : List Instruction → Bool) (i : Instruction) (s : Session)
    → (send accepts i s).account ≡ record s.account { refresh_scheduled = accepts s.queue }
unfolding send
send_account accepts i s = ground arith

-- The balances after `apply_credit` are those of `credited`.
pub apply_credit_account :
    (accepts : List Instruction → Bool) (amount : ℕ) (s : Session)
    → ((apply_credit accepts amount s).account.balance ≡ (credited s.account amount).balance)
      × ((apply_credit accepts amount s).account.reserve ≡ s.account.reserve - amount)
      × ((apply_credit accepts amount s).account.threshold ≡ s.account.threshold)
      × ((apply_credit accepts amount s).account.connection_id ≡ s.account.connection_id)
      × ((apply_credit accepts amount s).account.surplus_balance
          ≡ s.account.surplus_balance - amount)
unfolding apply_credit
apply_credit_account accepts amount s = ground arith

-- What `apply_credit` leaves alone, and whom it notifies.
apply_credit_rest :
    (accepts : List Instruction → Bool) (amount : ℕ) (s : Session)
    → let s' = apply_credit accepts amount s in
      (s'.account.id ≡ s.account.id)
      × (s'.account.refreshment ≡ s.account.refreshment)
      × (s'.drained ≡ s.drained + (if s.account.reserve - amount == 0 then 1 else 0))
      × (s'.credit ≡ s.credit + (if ltb 0 (min s.account.surplus_balance amount) then 1 else 0))
unfolding apply_credit
apply_credit_rest accepts amount s = ground arith

-- A credit of a reserved amount takes it out of the reserve and books it as debt. It is paid from
-- the surplus as far as that goes, and the rest is added to the balance, which has room in a u64:
-- balance and reserve less surplus stay the same. The threshold, the ids, the connection and the
-- time of the last refreshment stay. The waiters for a drained account are notified exactly if the
-- amount was the whole reserve, those for credit exactly if surplus was used.
pub apply_credit_conserves :
    (accepts : List Instruction → Bool) (amount : ℕ) (s : Session)
    → amount ≤ s.account.reserve
    → s.account.balance + amount ≤ u64_max
    → let s' = apply_credit accepts amount s in
      (s'.account.reserve + amount ≡ s.account.reserve)
      × (s'.account.surplus_balance ≡ s.account.surplus_balance - amount)
      × (s'.account.balance ≡ s.account.balance + (amount - s.account.surplus_balance))
      × (s'.account.balance + s'.account.reserve + s.account.surplus_balance
          ≡ s.account.balance + s.account.reserve + s'.account.surplus_balance)
      × (s'.account.threshold ≡ s.account.threshold)
      × (s'.account.id ≡ s.account.id)
      × (s'.account.connection_id ≡ s.account.connection_id)
      × (s'.account.refreshment ≡ s.account.refreshment)
      × (s'.drained ≡ s.drained + (if s.account.reserve == amount then 1 else 0))
      × (s'.credit ≡ s.credit + (if ltb 0 s.account.surplus_balance && ltb 0 amount then 1 else 0))
unfolding credited
apply_credit_conserves accepts amount s held fits =
    ground (arith, apply_credit_account accepts amount s, apply_credit_rest accepts amount s)
