-- ===== src/Retrieval/Admission/Budget.antt =====
-- src/retrieval_conventions.rs: an admission allows no more exchanges than its budget, and loses
-- no wake-up.
use weeb.Prelude.{
  ℕ, zero, suc, ◌+◌, ◌-◌, ◌≤◌, min, replicate, false, if◌then◌else◌, ◌==◌, some, List, [], ◌∷◌, ◌≡◌,
  refl, arith,
}
use weeb.Retrieval.Admission.{
  RetrieveAttemptBudget, RetrieveAdmission, Call, claim, close_now, wait, timed_out,
  confirmed_empty, returned, new_with_attempt_limit, with_attempts_remaining, is_open,
  claimed_physical_attempts, perform, perform_all, listened_state,
}

-- What holds of a budget of `limit` attempts after `used` of them: the rest remains, a spent
-- budget is closed, and whoever waits has marked the state.
pub record IsSound (limit used : ℕ) (a : RetrieveAdmission) (b : RetrieveAttemptBudget)
    : Type 0 where
  pub has : a.attempts ≡ some b
  pub whole : b.limit ≡ limit
  pub split : used + b.remaining ≡ limit
  pub spent : (if b.remaining == 0 then 0 else a.state) ≡ a.state
  pub marked : (if a.state == listened_state then a.waiting else 0) ≡ a.waiting
  pub known : a.state ≤ 2

unfoldable pub budget_after :
    Call → RetrieveAdmission → RetrieveAttemptBudget → RetrieveAttemptBudget
budget_after claim a b = if a.state == 0 then b else record b { remaining = b.remaining - 1 }
budget_after timed_out a b = record b { timed_out = b.timed_out + 1 }
budget_after confirmed_empty a b = record b { confirmed_empty = b.confirmed_empty + 1 }
budget_after close_now a b = b
budget_after wait a b = b
budget_after returned a b = b

perform-IsSound :
    (c : Call) (limit used : ℕ) (a : RetrieveAdmission) (b : RetrieveAttemptBudget)
    → IsSound limit used a b
    → IsSound limit (used + (perform c a).1) (perform c a).0 (budget_after c a b)
unfolding perform budget_after
perform-IsSound claim limit used a b v = ground arith
perform-IsSound close_now limit used a b v = ground arith
perform-IsSound wait limit used a b v = ground arith
perform-IsSound timed_out limit used a b v = ground arith
perform-IsSound confirmed_empty limit used a b v = ground arith
perform-IsSound returned limit used a b v = ground arith

perform_all-IsSound :
    (cs : List Call) (limit used : ℕ) (a : RetrieveAdmission) (b : RetrieveAttemptBudget)
    → IsSound limit used a b
    → (b' : RetrieveAttemptBudget) × IsSound limit
        (used + (perform_all cs a).1)
        (perform_all cs a).0
        b'
unfolding perform_all
perform_all-IsSound [] limit used a b v = let z : used + 0 ≡ used = omega arith in (b, rw z v)
perform_all-IsSound (c ∷ cs) limit used a b v =
    let (b', v') =
      perform_all-IsSound cs limit (used + (perform c a).1) (perform c a).0 _
        (perform-IsSound c limit used a b v) in
    let e : used + ((perform c a).1 + (perform_all cs (perform c a).0).1)
        ≡ used + (perform c a).1 + (perform_all cs (perform c a).0).1 =
      omega arith in
    (b', rw e v')

new-IsSound :
    (limit : ℕ) → (b : RetrieveAttemptBudget) × IsSound limit 0 (new_with_attempt_limit limit) b
unfolding with_attempts_remaining
new-IsSound limit =
    (record { limit = limit; remaining = limit; timed_out = 0; confirmed_empty = 0 }, ground arith)

sound_facts :
    (limit used : ℕ) (a : RetrieveAdmission) (b : RetrieveAttemptBudget)
    → IsSound limit used a b
    → (used ≤ limit)
      × (claimed_physical_attempts a ≡ some used)
      × ((if is_open a then 0 else a.waiting) ≡ 0)
unfolding claimed_physical_attempts is_open
sound_facts limit used a b v = ground arith

-- Whatever calls the holders make, and in whatever order, a budget of `limit` attempts allows at
-- most that many exchanges; the claimed attempts are exactly those that were allowed; and once
-- the admission is closed nobody waits for that.
pub admission_budget :
    (limit : ℕ) (cs : List Call)
    → ((perform_all cs (new_with_attempt_limit limit)).1 ≤ limit)
      × (claimed_physical_attempts (perform_all cs (new_with_attempt_limit limit)).0
          ≡ some (perform_all cs (new_with_attempt_limit limit)).1)
      × ((if is_open (perform_all cs (new_with_attempt_limit limit)).0
            then 0
            else (perform_all cs (new_with_attempt_limit limit)).0.waiting)
          ≡ 0)
admission_budget limit cs =
    let (b, v) = new-IsSound limit in
    let (b', v') = perform_all-IsSound cs limit 0 (new_with_attempt_limit limit) b v in
    let e : 0 + (perform_all cs (new_with_attempt_limit limit)).1
        ≡ (perform_all cs (new_with_attempt_limit limit)).1 =
      omega arith in
    sound_facts limit _ _ b' (rw e at v')

perform_closed :
    (c : Call) (a : RetrieveAdmission) (b : RetrieveAttemptBudget)
    → a.attempts ≡ some b
    → is_open a ≡ false
    → ((perform c a).1 ≡ 0)
      × (is_open (perform c a).0 ≡ false)
      × ((b' : RetrieveAttemptBudget) × ((perform c a).0.attempts ≡ some b'))
unfolding perform is_open
perform_closed claim a b h closed = (ground arith, ground arith, (b, ground arith))
perform_closed close_now a b h closed = (ground arith, ground arith, (b, ground arith))
perform_closed wait a b h closed = (ground arith, ground arith, (b, ground arith))
perform_closed timed_out a b h closed =
    (ground arith, ground arith, (record b { timed_out = b.timed_out + 1 }, ground arith))
perform_closed confirmed_empty a b h closed = (
  ground arith,
  ground arith,
  (record b { confirmed_empty = b.confirmed_empty + 1 }, ground arith),
)
perform_closed returned a b h closed = (ground arith, ground arith, (b, ground arith))

-- A closed admission with a budget stays closed, and allows no exchange any more.
pub closed_for_good :
    (cs : List Call) (a : RetrieveAdmission) (b : RetrieveAttemptBudget)
    → a.attempts ≡ some b
    → is_open a ≡ false
    → ((perform_all cs a).1 ≡ 0) × (is_open (perform_all cs a).0 ≡ false)
unfolding perform_all
closed_for_good [] a b h closed = (refl, closed)
closed_for_good (c ∷ cs) a b h closed =
    let (none_now, closed', (b', h')) = perform_closed c a b h closed in
    let (none_later, still) = closed_for_good cs (perform c a).0 b' h' closed' in
    (omega arith, still)

-- `n` claims in a row.
abbrev pub claims : ℕ → List Call
claims n = replicate n claim

abbrev after_claim : RetrieveAttemptBudget → RetrieveAttemptBudget
after_claim b = record b { remaining = b.remaining - 1 }

claim_step :
    (a : RetrieveAdmission) (b : RetrieveAttemptBudget)
    → a.attempts ≡ some b
    → (a.state == 0) ≡ (b.remaining == 0)
    → ((perform claim a).0.attempts ≡ some (after_claim b))
      × (((perform claim a).0.state == 0) ≡ (b.remaining - 1 == 0))
      × ((perform claim a).1 ≡ min 1 b.remaining)
unfolding perform
claim_step a b h live = ground arith

claims-min :
    (n : ℕ) (a : RetrieveAdmission) (b : RetrieveAttemptBudget)
    → a.attempts ≡ some b
    → (a.state == 0) ≡ (b.remaining == 0)
    → (perform_all (claims n) a).1 ≡ min n b.remaining
unfolding perform_all
claims-min zero a b h live = omega arith
claims-min (suc n) a b h live =
    let (h', live', got) = claim_step a b h live in
    omega (arith, got, claims-min n (perform claim a).0 (after_claim b) h' live')

-- Of `n` claims in a row on a fresh budget the first `limit` are allowed, and no other.
pub claims_allowed :
    (n limit : ℕ) → (perform_all (claims n) (new_with_attempt_limit limit)).1 ≡ min n limit
unfolding with_attempts_remaining
claims_allowed n limit =
    claims-min n (new_with_attempt_limit limit)
      (record { limit = limit; remaining = limit; timed_out = 0; confirmed_empty = 0 }) refl
      (ground arith)
