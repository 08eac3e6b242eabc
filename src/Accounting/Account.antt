-- ===== src/Accounting/Account.antt =====
-- src/accounting.rs and `PeerAccounting` of src/conventions.rs: the account of one peer, and the
-- channel on which its settlements are requested. An operation maps a session to the next one.
use weeb.Prelude.{
  ℕ, ◌+◌, ◌-◌, min, Bool, true, false, not, ◌&&◌, ◌||◌, if◌then◌else◌, ltb, leb, ◌==◌, Option, none,
  some, ◌>>=◌, ◌>>◌, guard, List, [], ◌∷◌, ◌++◌, sat_add, checked_add, u64_max,
}
use weeb.Accounting.Pricing.{refreshment_due}

-- Peer and connection ids are only copied and compared, so numbers stand for them. `refreshment`
-- is the time of the last refreshment in milliseconds, 0 for none.
pub record Account : Type 0 where
  pub balance : ℕ
  pub surplus_balance : ℕ
  pub threshold : ℕ
  pub reserve : ℕ
  pub refreshment : ℕ
  pub refresh_scheduled : Bool
  pub id : ℕ
  pub connection_id : Option ℕ

pub data RefreshmentAction : Type 0 where
  refresh retire : RefreshmentAction

-- The account that an instruction carries is the session's own.
pub record Instruction : Type 0 where
  pub peer : ℕ
  pub connection : ℕ
  pub action : RefreshmentAction

-- The account, the instructions sent and not yet received, and how often the waiters for a
-- drained account and for credit have been notified.
pub record Session : Type 0 where
  pub account : Account
  pub queue : List Instruction
  pub drained : ℕ
  pub credit : ℕ

abbrev pub notify_credit_available : Bool → Session → Session
notify_credit_available b s = if b then record s { credit = s.credit + 1 } else s

abbrev pub notify_drained : Bool → Session → Session
notify_drained b s = if b then record s { drained = s.drained + 1 } else s

unfoldable pub reserve : Account → ℕ → Option (ℕ × Account)
reserve account amount = do
  connection ← account.connection_id
  new_reserve ← checked_add u64_max account.reserve amount
  total ← checked_add u64_max account.balance new_reserve
  guard (not (ltb account.threshold total))
  some (connection, record account { reserve = new_reserve })

unfoldable pub apply_refreshment : ℕ → Session → Session × Option (ℕ × ℕ × ℕ)
apply_refreshment amount s =
    let a = s.account in
    let s' = notify_credit_available (ltb 0 amount && ltb 0 a.balance) s in
    if leb a.balance amount
    then (let growth = amount - a.balance in
        let surplus = sat_add a.surplus_balance growth in
        (
          record s' { account = record a { balance = 0; surplus_balance = surplus } },
          if ltb 0 growth then some (a.id, growth, surplus) else none,
        ))
    else (record s' { account = record a { balance = a.balance - amount } }, none)

unfoldable pub cancel_reserve : ℕ → Session → Session
cancel_reserve amount s =
    let a = s.account in
    let released = ltb 0 amount && ltb 0 a.reserve in
    let a' = record a { reserve = a.reserve - amount } in
    notify_credit_available released (notify_drained (a'.reserve == 0) (record s { account = a' }))

-- What `apply_credit` does to the balances.
unfoldable pub credited : Account → ℕ → Account
credited a amount =
    let compensated = min a.surplus_balance amount in
    record a {
      reserve = a.reserve - amount;
      surplus_balance = a.surplus_balance - compensated;
      balance = sat_add a.balance (amount - compensated);
    }

-- The refresh that `apply_credit` asks for, if one is due and none is scheduled.
unfoldable pub refresh_instruction : Account → Option Instruction
refresh_instruction a =
    if refreshment_due a.balance a.refreshment a.threshold && not a.refresh_scheduled
    then (do
      connection ← a.connection_id
      some (record { peer = a.id; connection = connection; action = refresh }))
    else none

-- `accepts` says whether the channel takes one more instruction: it is neither full nor closed.
module _ (accepts : List Instruction → Bool) where
  -- `refresh_scheduled = true`, then `try_send`, which takes the mark back where it fails.
  unfoldable pub send : Instruction → Session → Session
  send i s =
      if accepts s.queue
      then record s {
        account = record s.account { refresh_scheduled = true };
        queue = s.queue ++ (i ∷ []);
      }
      else record s { account = record s.account { refresh_scheduled = false } }

  unfoldable pub retire_timed_out_session : ℕ → Session → Session
  unfolding send
  retire_timed_out_session connection s = elim s.account.connection_id [
    | none ↦ s
    | some c ↦
        if not (c == connection) || s.account.refresh_scheduled
        then s
        else send (record { peer = s.account.id; connection = connection; action = retire }) s
  ]

  unfoldable pub apply_credit : ℕ → Session → Session
  unfolding send credited refresh_instruction
  apply_credit amount s =
      let a = credited s.account amount in
      let compensated = min s.account.surplus_balance amount in
      let s' =
        notify_credit_available (ltb 0 compensated)
          (notify_drained (a.reserve == 0) (record s { account = a })) in
      elim (refresh_instruction a) [ none ↦ s' | some i ↦ send i s' ]

  unfoldable pub set_payment_threshold : ℕ → Session → Session
  unfolding apply_credit
  set_payment_threshold amount s =
      let increased = ltb s.account.threshold amount in
      let s' =
        notify_credit_available increased
          (record s { account = record s.account { threshold = amount } }) in
      if ltb 0 s.account.balance then apply_credit 0 s' else s'
