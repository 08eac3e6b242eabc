-- ===== src/Retrieval/Tests.antt =====
-- src/retrieval_conventions.rs: the registries and the admission at concrete inputs.
use weeb.Prelude.{
  ℕ, ◌+◌, ◌≤◌, Bool, true, false, if◌then◌else◌, ◌==◌, some, none, List, [], ◌∷◌, ◌≡◌, ◌≢◌, refl,
  arith, ℕ_discrete,
}
use weeb.Prelude.Assoc
use weeb.Retrieval.Generation.{
  next_nonzero_generation, generation_is_newer, next_nonzero_generation_newer,
  pending_generation_relation, replace, reject_stale, replace_reject, register_all-maximum, IsU64,
}
use weeb.Retrieval.Generation
use weeb.Retrieval.Cancel.{
  RetrieveCancelToken, Registry, latest_of, is_current, cancelled_for_good, register_token,
}
use weeb.Retrieval.Cancel
use weeb.Retrieval.Admission.{
  RetrieveAdmission, Call, claim, wait, timed_out, perform_all, new_with_attempt_limit, is_open,
  claimed_physical_attempts,
}
use weeb.Retrieval.Admission.Budget.{admission_budget}
use weeb.Retrieval.Hedge.{RetrieveHedgeDemand, distinct_shard_managed, ordinary}
use weeb.Retrieval.Singleflight.{
  SingleflightFlight, SingleflightRegistry, SingleflightRegistration, flight_of, register, take,
}
use weeb.Retrieval.Singleflight.Ids.{IsValid, register-IsValid}
use weeb.Retrieval.Singleflight.Laws.{registered, stale_producer}

replaced : pending_generation_relation 3 8 ≡ replace
unfolding pending_generation_relation
replaced = refl

register_all-maximum_example :
    Generation.register_all 0 (5 ∷ (9 ∷ (7 ∷ []))) ≡ Generation.maximum 0 (5 ∷ (9 ∷ (7 ∷ [])))
register_all-maximum_example =
    register_all-maximum 0 (5 ∷ (9 ∷ (7 ∷ []))) (omega arith)
      (omega arith, (omega arith, (omega arith, tt)))

-- Streams are numbers here, and 0 is the empty key.
abbrev no_stream : ℕ → Bool
no_stream k = k == 0

abbrev streams : List (ℕ × ℕ)
streams = (4, 6) ∷ ((9, 2) ∷ [])

abbrev later : List (ℕ × ℕ)
later = (9, 8) ∷ ((4, 7) ∷ [])

cancelled_for_good_example :
    is_current ℕ_discrete no_stream
      (Cancel.register_all ℕ_discrete no_stream later streams)
      (record { stream_key = 4; generation = 5 })
    ≡ false
unfolding ℕ_discrete
cancelled_for_good_example =
    cancelled_for_good ℕ_discrete no_stream (record { stream_key = 4; generation = 5 }) later
      streams refl (unfold Assoc.find in omega arith) (unfold Assoc.find in omega arith)
      (omega arith, (omega arith, tt))

abbrev calls : List Call
calls = wait ∷ (claim ∷ (timed_out ∷ (claim ∷ (claim ∷ []))))

admission_budget_example :
    ((perform_all calls (new_with_attempt_limit 2)).1 ≤ 2)
    × (claimed_physical_attempts (perform_all calls (new_with_attempt_limit 2)).0
        ≡ some (perform_all calls (new_with_attempt_limit 2)).1)
    × ((if is_open (perform_all calls (new_with_attempt_limit 2)).0
          then 0
          else (perform_all calls (new_with_attempt_limit 2)).0.waiting)
        ≡ 0)
admission_budget_example = admission_budget 2 calls

abbrev closed_admission : RetrieveAdmission
closed_admission = record {
  state = 0;
  returned_cac = false;
  attempts = some (record { limit = 3; remaining = 1; timed_out = 0; confirmed_empty = 2 });
  waiting = 0;
}

closed_admission_closed : is_open closed_admission ≡ false
unfolding is_open
closed_admission_closed = refl

abbrev promotions : List RetrieveHedgeDemand
promotions = distinct_shard_managed ∷ (ordinary ∷ (ordinary ∷ []))

-- Keys, waiters and shared values are numbers here.
abbrev one_flight : SingleflightFlight ℕ ℕ
one_flight = record { flight_id = 3; shared = 50; waiters = (6, 60) ∷ ((7, 70) ∷ []) }

abbrev flights : SingleflightRegistry ℕ ℕ ℕ
flights = record { next_flight_id = 3; next_waiter_id = 7; flights = (8, one_flight) ∷ [] }

flights-IsValid : IsValid flights
flights-IsValid = ((omega arith, (omega arith, (omega arith, tt))), tt)

abbrev keep_shared : ℕ → ℕ × ℕ
keep_shared a = (a + 1, a)

found : flight_of ℕ_discrete flights 8 ≡ some one_flight
unfolding Assoc.find ℕ_discrete
found = refl

not_found : flight_of ℕ_discrete flights 5 ≡ none
unfolding Assoc.find ℕ_discrete
not_found = refl

abbrev joined : SingleflightRegistry ℕ ℕ ℕ × SingleflightRegistration ℕ ℕ
joined = register ℕ_discrete 8 80 50 keep_shared flights

abbrev led : SingleflightRegistry ℕ ℕ ℕ × SingleflightRegistration ℕ ℕ
led = register ℕ_discrete 5 80 50 keep_shared flights

register-IsValid_example : IsValid joined.0
register-IsValid_example =
    register-IsValid ℕ_discrete 8 80 50 keep_shared flights (omega arith) (omega arith)
      flights-IsValid

abbrev taken : SingleflightRegistry ℕ ℕ ℕ
taken = (take ℕ_discrete 8 3 flights).0

abbrev retried : SingleflightRegistry ℕ ℕ ℕ × SingleflightRegistration ℕ ℕ
retried = registered ℕ_discrete 8 80 50 keep_shared taken

stale_producer_example :
    ((take ℕ_discrete 8 3 flights).1 ≡ some one_flight)
    × (retried.1.leader ≡ true)
    × (retried.1.flight_id ≢ 3)
    × (flight_of ℕ_discrete retried.0 8
        ≡ some (record {
          flight_id = retried.1.flight_id;
          shared = 51;
          waiters = (retried.1.waiter_id, 80) ∷ [];
        }))
    × (take ℕ_discrete 8 3 retried.0 ≡ (retried.0, none))
stale_producer_example =
    stale_producer ℕ_discrete 8 80 50 keep_shared flights one_flight flights-IsValid (omega arith)
      found
