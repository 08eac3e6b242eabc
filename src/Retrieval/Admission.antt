-- ===== src/Retrieval/Admission.antt =====
-- src/retrieval_conventions.rs: the admission of physical exchanges for one retrieval. The
-- runtime is single-threaded and no operation awaits in its middle, so each is one step.
pub mod Budget
use weeb.Prelude.{
  ℕ, zero, suc, ◌+◌, ◌-◌, Bool, true, false, not, ◌&&◌, if◌then◌else◌, ◌==◌, Option, none, some,
  List, [], ◌∷◌,
}
use mathlib.Core.Option

pub record RetrieveAttemptBudget : Type 0 where
  pub limit : ℕ
  pub remaining : ℕ
  pub timed_out : ℕ
  pub confirmed_empty : ℕ

abbrev pub closed_state : ℕ
closed_state = 0

abbrev pub open_state : ℕ
open_state = 1

abbrev pub listened_state : ℕ
listened_state = 2

-- `waiting` counts the listeners of the `closed` event that have not been woken.
pub record RetrieveAdmission : Type 0 where
  pub state : ℕ
  pub returned_cac : Bool
  pub attempts : Option RetrieveAttemptBudget
  pub waiting : ℕ

unfoldable pub with_attempts_remaining : Option ℕ → RetrieveAdmission
with_attempts_remaining none = record {
  state = open_state;
  returned_cac = false;
  attempts = none;
  waiting = 0;
}
with_attempts_remaining (some limit) = record {
  state = if limit == 0 then closed_state else open_state;
  returned_cac = false;
  attempts = some (record { limit = limit; remaining = limit; timed_out = 0; confirmed_empty = 0 });
  waiting = 0;
}

abbrev pub new_admission : RetrieveAdmission
new_admission = with_attempts_remaining none

abbrev pub new_with_attempt_limit : ℕ → RetrieveAdmission
new_with_attempt_limit max_attempts = with_attempts_remaining (some max_attempts)

unfoldable pub is_open : RetrieveAdmission → Bool
is_open a = not (a.state == 0)

unfoldable pub record_returned_cac : RetrieveAdmission → RetrieveAdmission
record_returned_cac a = record a { returned_cac = true }

-- `swap(0)`, which wakes the listeners if there may be any.
unfoldable pub close : RetrieveAdmission → RetrieveAdmission
close a = record a {
  state = closed_state;
  waiting = if a.state == listened_state then 0 else a.waiting;
}

unfoldable pub physical_attempt_available : RetrieveAdmission → Bool
physical_attempt_available a = elim a.attempts [ none ↦ true | some b ↦ not (b.remaining == 0) ]

unfoldable pub claimed_physical_attempts : RetrieveAdmission → Option ℕ
claimed_physical_attempts a = Option.map (λ b. b.limit - b.remaining) a.attempts

abbrev pub with_budget :
    (RetrieveAttemptBudget → RetrieveAttemptBudget) → RetrieveAdmission → RetrieveAdmission
with_budget f a = record a { attempts = Option.map f a.attempts }

unfoldable pub record_physical_attempt_timeout : RetrieveAdmission → RetrieveAdmission
record_physical_attempt_timeout = with_budget (λ b. record b { timed_out = b.timed_out + 1 })

unfoldable pub timed_out_physical_attempts : RetrieveAdmission → Option ℕ
timed_out_physical_attempts a = Option.map (λ b. b.timed_out) a.attempts

unfoldable pub record_confirmed_empty_physical_attempt : RetrieveAdmission → RetrieveAdmission
record_confirmed_empty_physical_attempt =
    with_budget (λ b. record b { confirmed_empty = b.confirmed_empty + 1 })

unfoldable pub confirmed_empty_physical_attempts : RetrieveAdmission → Option ℕ
confirmed_empty_physical_attempts a = Option.map (λ b. b.confirmed_empty) a.attempts

unfoldable pub try_claim_physical_attempt : RetrieveAdmission → RetrieveAdmission × Bool
unfolding is_open close
try_claim_physical_attempt a = elim a.attempts [
  | none ↦ (a, true)
  | some b ↦
      if not (is_open a)
      then (a, false)
      else if b.remaining == 0
      then (a, false)
      else (let a' = record a { attempts = some (record b { remaining = b.remaining - 1 }) } in
          (if b.remaining == 1 then close a' else a', true))
]

-- `wait_closed` up to its await; the waiter goes on at once if the admission is closed.
unfoldable pub wait_closed : RetrieveAdmission → RetrieveAdmission
wait_closed a =
    if a.state == closed_state
    then a
    else record a { state = listened_state; waiting = a.waiting + 1 }

-- `retrieve_admission_current`.
unfoldable pub retrieve_admission_current : Bool → Option RetrieveAdmission → Bool
unfolding is_open
retrieve_admission_current stream_generation_current none = stream_generation_current
retrieve_admission_current stream_generation_current (some a) =
    stream_generation_current && is_open a

-- The calls that holders of an admission may make.
pub data Call : Type 0 where
  claim close_now wait timed_out confirmed_empty returned : Call

-- One call: the new admission, and how many exchanges the call allowed.
unfoldable pub perform : Call → RetrieveAdmission → RetrieveAdmission × ℕ
unfolding try_claim_physical_attempt wait_closed record_physical_attempt_timeout
    record_confirmed_empty_physical_attempt record_returned_cac
perform claim a = let (a', allowed) = try_claim_physical_attempt a in (a', if allowed then 1 else 0)
perform close_now a = (close a, 0)
perform wait a = (wait_closed a, 0)
perform timed_out a = (record_physical_attempt_timeout a, 0)
perform confirmed_empty a = (record_confirmed_empty_physical_attempt a, 0)
perform returned a = (record_returned_cac a, 0)

-- Calls in any order.
unfoldable pub perform_all : List Call → RetrieveAdmission → RetrieveAdmission × ℕ
perform_all [] a = (a, 0)
perform_all (c ∷ cs) a =
    let (a', n) = perform c a in let (a'', m) = perform_all cs a' in (a'', n + m)
