-- ===== src/Accounting/Tests.antt =====
-- src/accounting.rs: the account at concrete inputs.
use weeb.Prelude.{◌+◌, Bool, true, false, some, List, [], ◌∷◌, ◌≡◌, refl, arith}
use weeb.Accounting.Pricing.{price, price_step, refreshment_due, po_price}
use weeb.Accounting.Account.{Account, Session, Instruction, reserve, apply_credit}
use weeb.Accounting.Reserve.{reserve-not_due, apply_credit_conserves}
use weeb.Accounting.Flight.{Flight, IsFunded, Step, Reach, Reach-IsFunded}
use weeb.Accounting.Ownership.{Settlement, IsOwned, Event, Run, Run-IsOwned}

abbrev peer_account : Account
peer_account = record {
  balance = 100000;
  surplus_balance = 30000;
  threshold = 1350000;
  reserve = 0;
  refreshment = 7;
  refresh_scheduled = false;
  id = 5;
  connection_id = some 9;
}

abbrev any_queue : List Instruction → Bool
any_queue queue = true

abbrev reserved_account : Account
reserved_account = record peer_account { reserve = 320000 }

abbrev peer_session : Session
peer_session = record { account = peer_account; queue = []; drained = 0; credit = 0 }

abbrev reserved_session : Session
reserved_session = record peer_session { account = reserved_account }

reserve_peer : reserve peer_account 320000 ≡ some (9, reserved_account)
unfolding reserve
reserve_peer = refl

not_due_peer : refreshment_due 100000 7 1350000 ≡ false
unfolding refreshment_due
not_due_peer = refl

reserve-not_due_example :
    reserve peer_account (price 12) ≡ some (9, record peer_account { reserve = price 12 })
reserve-not_due_example =
    reserve-not_due peer_account 9 12 refl refl (omega arith) (omega arith) not_due_peer

abbrev credited_session : Session
credited_session = apply_credit any_queue 320000 reserved_session

apply_credit_conserves_example :
    (credited_session.account.reserve + 320000 ≡ 320000)
    × (credited_session.account.surplus_balance ≡ 0)
    × (credited_session.account.balance ≡ 390000)
    × (credited_session.account.balance + credited_session.account.reserve + 30000
        ≡ 100000 + 320000 + credited_session.account.surplus_balance)
    × (credited_session.account.threshold ≡ 1350000)
    × (credited_session.account.id ≡ 5)
    × (credited_session.account.connection_id ≡ some 9)
    × (credited_session.account.refreshment ≡ 7)
    × (credited_session.drained ≡ 1)
    × (credited_session.credit ≡ 1)
apply_credit_conserves_example =
    apply_credit_conserves any_queue 320000 reserved_session (omega arith) (omega arith)

price_step_example : price 4 + po_price ≡ price 3
price_step_example = price_step 3 (omega arith)

abbrev idle_flight : Flight
idle_flight = record { session = peer_session; in_flight = [] }

abbrev one_flight : Flight
one_flight = record { session = reserved_session; in_flight = 320000 ∷ [] }

abbrev settled_flight : Flight
settled_flight = record { session = apply_credit any_queue 320000 reserved_session; in_flight = [] }

idle-IsFunded : IsFunded idle_flight
idle-IsFunded = record { bounded = omega arith; reserved = refl; covered = omega arith }

started : Reach any_queue idle_flight one_flight
started = Reach.next Reach.here (Step.start 320000 9 reserved_account one_flight reserve_peer refl)

exchange : Reach any_queue idle_flight settled_flight
exchange = Reach.next started (Step.settle [] 320000 [] refl)

Reach-IsFunded_example : IsFunded settled_flight
Reach-IsFunded_example = Reach-IsFunded any_queue idle-IsFunded exchange

abbrev idle_settlement : Settlement
idle_settlement = record { session = reserved_session; running = [] }

abbrev credited_settlement : Settlement
credited_settlement = record {
  session = apply_credit any_queue 320000 reserved_session;
  running = [];
}

Run-IsOwned_example : IsOwned credited_settlement
Run-IsOwned_example =
    Run-IsOwned any_queue {s = idle_settlement} refl (Run.next Run.here (Event.settled_debt 320000))
