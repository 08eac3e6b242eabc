-- ===== src/Retrieval/Hedge.antt =====
-- src/retrieval_conventions.rs: hedge demand, when an attempt may start, and the rolling group.
use weeb.Prelude.{
  ℕ, ◌+◌, max, Bool, true, false, ◌&&◌, ◌||◌, if◌then◌else◌, ltb, ◌==◌, List, [], ◌∷◌, ◌≡◌, refl,
}

pub data RetrieveHedgeDemand : Type 0 where
  distinct_shard_managed ordinary : RetrieveHedgeDemand

abbrev pub as_u8 : RetrieveHedgeDemand → ℕ
as_u8 distinct_shard_managed = 0
as_u8 ordinary = 1

-- The shared cell, and how often its waiters were notified.
pub record SharedRetrieveHedgeDemand : Type 0 where
  pub demand : ℕ
  pub notified : ℕ

unfoldable pub new_demand : RetrieveHedgeDemand → SharedRetrieveHedgeDemand
new_demand demand = record { demand = as_u8 demand; notified = 0 }

unfoldable pub current : SharedRetrieveHedgeDemand → RetrieveHedgeDemand
current s = if s.demand == 0 then distinct_shard_managed else ordinary

-- `fetch_max`, and a notification where it raised the value.
unfoldable pub promote : RetrieveHedgeDemand → SharedRetrieveHedgeDemand → SharedRetrieveHedgeDemand
promote demand s = record {
  demand = max s.demand (as_u8 demand);
  notified = if ltb s.demand (as_u8 demand) then s.notified + 1 else s.notified;
}

unfoldable pub is_ordinary : RetrieveHedgeDemand → Bool
is_ordinary distinct_shard_managed = false
is_ordinary ordinary = true

unfoldable pub retrieve_attempt_start_allowed : RetrieveHedgeDemand → ℕ → Bool → Bool
unfolding is_ordinary
retrieve_attempt_start_allowed demand in_flight ordinary_hedge_due =
    in_flight == 0 || (is_ordinary demand && ordinary_hedge_due)

unfoldable pub rolling_full_group_static_candidate : ℕ → ℕ → ℕ → Bool
rolling_full_group_static_candidate requested_count data_count parity_count =
    ltb 0 data_count && requested_count == data_count && ltb 0 parity_count

unfoldable pub rolling_full_group_eligible : ℕ → ℕ → ℕ → ℕ → ℕ → Bool
unfolding rolling_full_group_static_candidate
rolling_full_group_eligible requested_count data_count parity_count decoded_only_count
      unresolved_count =
    rolling_full_group_static_candidate requested_count data_count parity_count
    && ltb 0 unresolved_count
    && ltb decoded_only_count parity_count

-- Promotions by any waiters, one after the other.
unfoldable pub promote_all :
    List RetrieveHedgeDemand → SharedRetrieveHedgeDemand → SharedRetrieveHedgeDemand
promote_all [] s = s
promote_all (d ∷ ds) s = promote_all ds (promote d s)

abbrev any_ordinary : List RetrieveHedgeDemand → Bool
any_ordinary [] = false
any_ordinary (distinct_shard_managed ∷ ds) = any_ordinary ds
any_ordinary (ordinary ∷ ds) = true

promote_all_ordinary :
    (ds : List RetrieveHedgeDemand) (n : ℕ)
    → (current (promote_all ds (record { demand = 1; notified = n })) ≡ ordinary)
      × ((promote_all ds (record { demand = 1; notified = n })).notified ≡ n)
unfolding promote_all promote current
promote_all_ordinary [] n = (refl, refl)
promote_all_ordinary (distinct_shard_managed ∷ ds) n = promote_all_ordinary ds n
promote_all_ordinary (ordinary ∷ ds) n = promote_all_ordinary ds n

-- A managed demand becomes ordinary exactly if some waiter promotes it to that, and never goes
-- back; the waiters are notified once then, and not otherwise.
pub promote_all_lem :
    (ds : List RetrieveHedgeDemand)
    → (current (promote_all ds (new_demand distinct_shard_managed))
        ≡ (if any_ordinary ds then ordinary else distinct_shard_managed))
      × ((promote_all ds (new_demand distinct_shard_managed)).notified
          ≡ (if any_ordinary ds then 1 else 0))
unfolding promote_all promote current new_demand
promote_all_lem [] = (refl, refl)
promote_all_lem (distinct_shard_managed ∷ ds) = promote_all_lem ds
promote_all_lem (ordinary ∷ ds) = promote_all_ordinary ds 1
