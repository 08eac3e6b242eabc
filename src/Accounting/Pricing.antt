-- ===== src/Accounting/Pricing.antt =====
-- src/accounting.rs: prices, thresholds and dialling capacity.
use weeb.Prelude.{
  ℕ, ◌+◌, ◌-◌, ◌*◌, ◌/◌, ◌≤◌, ◌<◌, min, max, ◌≡◌, Bool, true, false, arith, if◌then◌else◌, ltb, leb,
  ◌==◌, sat_add, sat_mul, u64_max, ◌⊎◌,
}
use native.Mathlib.Nat.{div-add-mod, mod-lt}

abbrev pub connection_buildup_limit : ℕ
connection_buildup_limit = 200

abbrev pub refresh_rate : ℕ
refresh_rate = 450000

abbrev pub po_price : ℕ
po_price = 10000

abbrev pub max_chunk_price : ℕ
max_chunk_price = 32 * po_price

-- A time is in milliseconds; 0 says that there has been no refreshment.
unfoldable pub refreshment_due : ℕ → ℕ → ℕ → Bool
refreshment_due balance last_refreshment payment_threshold =
    let target : ℕ = if last_refreshment == 0 then sat_mul refresh_rate 2 else refresh_rate in
    leb
      (if payment_threshold == 0
        then target
        else min target (max (payment_threshold - max_chunk_price) 1))
      balance

unfoldable pub connection_population_deficit : ℕ → ℕ → ℕ
connection_population_deficit connected ongoing =
    connection_buildup_limit - sat_add connected ongoing

unfoldable pub connection_dial_capacity_available : ℕ → ℕ → Bool
unfolding connection_population_deficit
connection_dial_capacity_available connected ongoing =
    ltb 0 (connection_population_deficit connected ongoing)

-- The parameter `rate` is the source's `refresh_rate`.
unfoldable pub bee_reconnect_delay_seconds : ℕ → ℕ → ℕ → ℕ → ℕ
bee_reconnect_delay_seconds balance reserve payment_threshold rate =
    let bee_refresh_rate = sat_mul rate 10 in
    let bee_payment_threshold = sat_mul payment_threshold 10 in
    if rate == 0
    then 1
    else sat_add (max (sat_add balance reserve) bee_refresh_rate) bee_payment_threshold
      / bee_refresh_rate

unfoldable pub price : ℕ → ℕ
price proximity = max (max_chunk_price - proximity * po_price) po_price

-- Every proximity has a price between one tier and all tiers.
pub price_bounds : (po : ℕ) → (po_price ≤ price po) × (price po ≤ max_chunk_price)
unfolding price
price_bounds po = omega arith

-- A closer peer is never dearer.
pub price_antitone : (po qo : ℕ) → po ≤ qo → price qo ≤ price po
unfolding price
price_antitone po qo h = omega arith

-- Each proximity bit below 31 takes exactly one tier off the price.
pub price_step : (po : ℕ) → po < 31 → price (po + 1) + po_price ≡ price po
unfolding price
price_step po h = omega arith

-- Dialling is allowed exactly while connected and ongoing peers are below the limit, and then
-- the deficit is the number of dials that reaches it.
pub dial_capacity_cases :
    (connected ongoing : ℕ)
    → ((connection_dial_capacity_available connected ongoing ≡ true)
        × (connected + ongoing < connection_buildup_limit)
        × (connected + ongoing + connection_population_deficit connected ongoing
            ≡ connection_buildup_limit))
      ⊎ ((connection_dial_capacity_available connected ongoing ≡ false)
          × (connection_population_deficit connected ongoing ≡ 0)
          × (connection_buildup_limit ≤ connected + ongoing))
unfolding connection_dial_capacity_available
dial_capacity_cases connected ongoing = ground arith

div_covers : (a r : ℕ) → 0 < r → r ≤ a → (1 ≤ a / r) × (a < (a / r + 1) * r)
div_covers a r pos h = grind (arith, div-add-mod a r, mod-lt)

reconnect_delay_exact :
    (balance reserve threshold rate : ℕ)
    → 0 < rate
    → max (balance + reserve) (rate * 10) + threshold * 10 ≤ u64_max
    → bee_reconnect_delay_seconds balance reserve threshold rate
      ≡ (max (balance + reserve) (rate * 10) + threshold * 10) / (rate * 10)
unfolding bee_reconnect_delay_seconds
reconnect_delay_exact balance reserve threshold rate pos fits =
    let r : sat_mul rate 10 ≡ rate * 10 = omega arith in
    let t : sat_mul threshold 10 ≡ threshold * 10 = omega arith in
    let b : sat_add balance reserve ≡ balance + reserve = omega arith in
    let s : sat_add (max (balance + reserve) (rate * 10)) (threshold * 10)
        ≡ max (balance + reserve) (rate * 10) + threshold * 10 =
      omega arith in
    let z : (rate == 0) ≡ false = ground arith in rw (z, r, t, b, s)

-- With no overflow, the delay lasts at least a second, and Bee's own refreshment over the delay
-- and one more second covers what is owed, what is reserved and the threshold together.
pub reconnect_delay_covers :
    (balance reserve threshold rate : ℕ)
    → 0 < rate
    → max (balance + reserve) (rate * 10) + threshold * 10 ≤ u64_max
    → (1 ≤ bee_reconnect_delay_seconds balance reserve threshold rate)
      × (balance + reserve + threshold * 10
          < (bee_reconnect_delay_seconds balance reserve threshold rate + 1) * (rate * 10))
reconnect_delay_covers balance reserve threshold rate pos fits =
    let a : ℕ = max (balance + reserve) (rate * 10) + threshold * 10 in
    let (lo, hi) = div_covers a (rate * 10) (omega arith) (omega arith) in
    rw (reconnect_delay_exact balance reserve threshold rate pos fits) (lo, omega arith)
