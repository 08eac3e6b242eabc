-- ===== src/Accounting/Ownership.antt =====
-- src/accounting.rs: who settles an account. A queued instruction, or one that its receiver in
-- src/lib.rs works on, owns the settlement; `refresh_scheduled` is its mark.
use weeb.Prelude.{
  ℕ, ◌+◌, ◌≡◌, Bool, false, if◌then◌else◌, some, List, ◌∷◌, ◌++◌, arith, length, length-snoc,
  length-middle,
}
use weeb.Accounting.Account.{
  Account, Session, Instruction, reserve, send, apply_credit, apply_refreshment, cancel_reserve,
  retire_timed_out_session, set_payment_threshold,
}

-- A session with the instructions that were received and are not yet settled.
pub record Settlement : Type 0 where
  pub session : Session
  pub running : List Instruction

abbrev pub owners : Settlement → ℕ
owners s = length s.session.queue + length s.running

-- There is one owner if the mark is set, and none otherwise.
abbrev pub IsOwned : Settlement → Type 0
IsOwned s = owners s ≡ (if s.session.account.refresh_scheduled then 1 else 0)

module _ (accepts : List Instruction → Bool) where
  -- One event at the account. `received` and `settled` are the receiver's: it takes the oldest
  -- instruction, and clears the mark when it is done with a refresh. One that is never done, such
  -- as a retirement, stays at work and keeps its mark.
  pub data Event (s : Settlement) : Settlement → Type 0 where
    reserved :
        (amount c : ℕ) (a : Account)
        → reserve s.session.account amount ≡ some (c, a)
        → Event s (record s { session = record (s.session) { account = a } })
    cancelled : (amount : ℕ) → Event s (record s { session = cancel_reserve amount s.session })
    settled_debt :
        (amount : ℕ) → Event s (record s { session = apply_credit accepts amount s.session })
    refreshed :
        (amount : ℕ) → Event s (record s { session = (apply_refreshment amount s.session).0 })
    announced :
        (amount : ℕ)
        → Event s (record s { session = set_payment_threshold accepts amount s.session })
    timed_out :
        (connection : ℕ)
        → Event s (record s { session = retire_timed_out_session accepts connection s.session })
    received :
        (i : Instruction) (rest : List Instruction)
        → s.session.queue ≡ i ∷ rest
        → Event s
            (record { session = record (s.session) { queue = rest }; running = i ∷ s.running })
    settled :
        (xs : List Instruction) (i : Instruction) (ys : List Instruction)
        → s.running ≡ xs ++ (i ∷ ys)
        → Event s (record {
          session = record (s.session) {
            account = record (s.session.account) { refresh_scheduled = false };
          };
          running = xs ++ ys;
        })

  pub data Run (s : Settlement) : Settlement → Type 0 where
    here : Run s s
    next : {t u : Settlement} → Run s t → Event t u → Run s u

  -- An operation that may send one instruction, and only while the mark is clear.
  abbrev Sends : Session → Session → Type 0
  Sends s t =
      length s.queue + (if t.account.refresh_scheduled then 1 else 0)
      ≡ length t.queue + (if s.account.refresh_scheduled then 1 else 0)

  send-Sends :
      (i : Instruction) (s : Session)
      → s.account.refresh_scheduled ≡ false
      → Sends s (send accepts i s)
  unfolding send
  send-Sends i s clear = ground (arith, length-snoc {0} s.queue i)

  apply_credit-Sends : (amount : ℕ) (s : Session) → Sends s (apply_credit accepts amount s)
  unfolding apply_credit
  apply_credit-Sends amount s = grind (arith, length-snoc {A = Instruction} s.queue)

  set_threshold-Sends :
      (amount : ℕ) (s : Session) → Sends s (set_payment_threshold accepts amount s)
  unfolding set_payment_threshold
  set_threshold-Sends amount s = grind (arith, length-snoc {A = Instruction} s.queue)

  retire-Sends : (c : ℕ) (s : Session) → Sends s (retire_timed_out_session accepts c s)
  unfolding retire_timed_out_session
  retire-Sends c s = grind (arith, length-snoc {A = Instruction} s.queue)

  Event-IsOwned : {s t : Settlement} → Event s t → IsOwned s → IsOwned t
  Event-IsOwned {s} (reserved amount c a r) h = unfold reserve in ground arith
  Event-IsOwned {s} (cancelled amount) h = unfold cancel_reserve in ground arith
  Event-IsOwned {s} (settled_debt amount) h = ground (arith, apply_credit-Sends amount s.session)
  Event-IsOwned {s} (refreshed amount) h = unfold apply_refreshment in ground arith
  Event-IsOwned {s} (announced amount) h = ground (arith, set_threshold-Sends amount s.session)
  Event-IsOwned {s} (timed_out c) h = ground (arith, retire-Sends c s.session)
  Event-IsOwned {s} (received i rest e) h = ground arith
  Event-IsOwned {s} (settled xs i ys e) h = ground (arith, length-middle {0} xs i ys)

  -- From a session where this holds, in every run of the account's operations and of its
  -- receiver, an account has at most one settlement queued or at work, and `refresh_scheduled`
  -- says exactly whether it has one.
  pub Run-IsOwned : {s t : Settlement} → IsOwned s → Run s t → IsOwned t
  Run-IsOwned h here = h
  Run-IsOwned h (next r e) = Event-IsOwned e (Run-IsOwned h r)
