-- ===== src/Erasure/Level.antt =====
-- src/erasure_coding.rs: redundancy levels and their tables of parity counts.
pub mod Capacity
use weeb.Prelude.{
  ℕ, zero, suc, ◌-◌, ◌/◌, Bool, true, false, if◌then◌else◌, leb, ◌==◌, ◌||◌, Option, List, [], ◌∷◌,
}
use mathlib.Core.Option.{get_or}

pub data RedundancyLevel : Type 0 where
  none medium strong insane paranoid : RedundancyLevel

abbrev pub default_upload : RedundancyLevel
default_upload = medium

abbrev pub default_download : RedundancyLevel
default_download = paranoid

unfoldable pub from_u8 : ℕ → Option RedundancyLevel
from_u8 zero = Option.some none
from_u8 (suc zero) = Option.some medium
from_u8 (suc (suc zero)) = Option.some strong
from_u8 (suc (suc (suc zero))) = Option.some insane
from_u8 (suc (suc (suc (suc zero)))) = Option.some paranoid
from_u8 (suc (suc (suc (suc (suc n))))) = Option.none

abbrev pub as_u8 : RedundancyLevel → ℕ
as_u8 none = 0
as_u8 medium = 1
as_u8 strong = 2
as_u8 insane = 3
as_u8 paranoid = 4

abbrev pub medium_shards : List ℕ
medium_shards = 95 ∷ 69 ∷ 47 ∷ 29 ∷ 15 ∷ 6 ∷ 2 ∷ 1 ∷ []

abbrev pub medium_parities : List ℕ
medium_parities = 9 ∷ 8 ∷ 7 ∷ 6 ∷ 5 ∷ 4 ∷ 3 ∷ 2 ∷ []

abbrev pub enc_medium_shards : List ℕ
enc_medium_shards = 47 ∷ 34 ∷ 23 ∷ 14 ∷ 7 ∷ 3 ∷ 1 ∷ []

abbrev pub enc_medium_parities : List ℕ
enc_medium_parities = 9 ∷ 8 ∷ 7 ∷ 6 ∷ 5 ∷ 4 ∷ 3 ∷ []

abbrev pub strong_shards : List ℕ
strong_shards =
    105 ∷ 96 ∷ 87 ∷ 78 ∷ 70 ∷ 62 ∷ 54 ∷ 47 ∷ 40 ∷ 33 ∷ 27 ∷ 21 ∷ 16 ∷ 11 ∷ 7 ∷ 4 ∷ 2 ∷ 1 ∷ []

abbrev pub strong_parities : List ℕ
strong_parities =
    21 ∷ 20 ∷ 19 ∷ 18 ∷ 17 ∷ 16 ∷ 15 ∷ 14 ∷ 13 ∷ 12 ∷ 11 ∷ 10 ∷ 9 ∷ 8 ∷ 7 ∷ 6 ∷ 5 ∷ 4 ∷ []

abbrev pub enc_strong_shards : List ℕ
enc_strong_shards =
    52 ∷ 48 ∷ 43 ∷ 39 ∷ 35 ∷ 31 ∷ 27 ∷ 23 ∷ 20 ∷ 16 ∷ 13 ∷ 10 ∷ 8 ∷ 5 ∷ 3 ∷ 2 ∷ 1 ∷ []

abbrev pub enc_strong_parities : List ℕ
enc_strong_parities =
    21 ∷ 20 ∷ 19 ∷ 18 ∷ 17 ∷ 16 ∷ 15 ∷ 14 ∷ 13 ∷ 12 ∷ 11 ∷ 10 ∷ 9 ∷ 8 ∷ 7 ∷ 6 ∷ 5 ∷ []

abbrev pub insane_shards : List ℕ
insane_shards =
    93 ∷ 88 ∷ 83 ∷ 78 ∷ 74 ∷ 69 ∷ 64 ∷ 60 ∷ 55 ∷ 51 ∷ 46 ∷ 42 ∷ 38 ∷ 34 ∷ 30 ∷ 27 ∷ 23 ∷ 20 ∷ 17
    ∷ 14 ∷ 11 ∷ 9 ∷ 6 ∷ 4 ∷ 3 ∷ 2 ∷ 1 ∷ []

abbrev pub insane_parities : List ℕ
insane_parities =
    31 ∷ 30 ∷ 29 ∷ 28 ∷ 27 ∷ 26 ∷ 25 ∷ 24 ∷ 23 ∷ 22 ∷ 21 ∷ 20 ∷ 19 ∷ 18 ∷ 17 ∷ 16 ∷ 15 ∷ 14 ∷ 13
    ∷ 12 ∷ 11 ∷ 10 ∷ 9 ∷ 8 ∷ 7 ∷ 6 ∷ 5 ∷ []

abbrev pub enc_insane_shards : List ℕ
enc_insane_shards =
    46 ∷ 44 ∷ 41 ∷ 39 ∷ 37 ∷ 34 ∷ 32 ∷ 30 ∷ 27 ∷ 25 ∷ 23 ∷ 21 ∷ 19 ∷ 17 ∷ 15 ∷ 13 ∷ 11 ∷ 10 ∷ 8 ∷ 7
    ∷ 5 ∷ 4 ∷ 3 ∷ 2 ∷ 1 ∷ []

abbrev pub enc_insane_parities : List ℕ
enc_insane_parities =
    31 ∷ 30 ∷ 29 ∷ 28 ∷ 27 ∷ 26 ∷ 25 ∷ 24 ∷ 23 ∷ 22 ∷ 21 ∷ 20 ∷ 19 ∷ 18 ∷ 17 ∷ 16 ∷ 15 ∷ 14 ∷ 13
    ∷ 12 ∷ 11 ∷ 10 ∷ 9 ∷ 8 ∷ 6 ∷ []

abbrev pub paranoid_shards : List ℕ
paranoid_shards =
    37 ∷ 36 ∷ 35 ∷ 34 ∷ 33 ∷ 32 ∷ 31 ∷ 30 ∷ 29 ∷ 28 ∷ 27 ∷ 26 ∷ 25 ∷ 24 ∷ 23 ∷ 22 ∷ 21 ∷ 20 ∷ 19
    ∷ 18 ∷ 17 ∷ 16 ∷ 15 ∷ 14 ∷ 13 ∷ 12 ∷ 11 ∷ 10 ∷ 9 ∷ 8 ∷ 7 ∷ 6 ∷ 5 ∷ 4 ∷ 3 ∷ 2 ∷ 1 ∷ []

abbrev pub paranoid_parities : List ℕ
paranoid_parities =
    89 ∷ 87 ∷ 86 ∷ 84 ∷ 83 ∷ 81 ∷ 80 ∷ 78 ∷ 76 ∷ 75 ∷ 73 ∷ 71 ∷ 70 ∷ 68 ∷ 66 ∷ 65 ∷ 63 ∷ 61 ∷ 59
    ∷ 58 ∷ 56 ∷ 54 ∷ 52 ∷ 50 ∷ 48 ∷ 47 ∷ 45 ∷ 43 ∷ 40 ∷ 38 ∷ 36 ∷ 34 ∷ 31 ∷ 29 ∷ 26 ∷ 23 ∷ 19 ∷ []

abbrev pub enc_paranoid_shards : List ℕ
enc_paranoid_shards =
    18 ∷ 17 ∷ 16 ∷ 15 ∷ 14 ∷ 13 ∷ 12 ∷ 11 ∷ 10 ∷ 9 ∷ 8 ∷ 7 ∷ 6 ∷ 5 ∷ 4 ∷ 3 ∷ 2 ∷ 1 ∷ []

abbrev pub enc_paranoid_parities : List ℕ
enc_paranoid_parities =
    87 ∷ 84 ∷ 81 ∷ 78 ∷ 75 ∷ 71 ∷ 68 ∷ 65 ∷ 61 ∷ 58 ∷ 54 ∷ 50 ∷ 47 ∷ 43 ∷ 38 ∷ 34 ∷ 29 ∷ 23 ∷ []

-- The thresholds, from the greatest on, and the parity count from each threshold on.
unfoldable pub erasure_table : RedundancyLevel → Bool → List ℕ × List ℕ
erasure_table none encrypted = ([], [])
erasure_table medium false = (medium_shards, medium_parities)
erasure_table medium true = (enc_medium_shards, enc_medium_parities)
erasure_table strong false = (strong_shards, strong_parities)
erasure_table strong true = (enc_strong_shards, enc_strong_parities)
erasure_table insane false = (insane_shards, insane_parities)
erasure_table insane true = (enc_insane_shards, enc_insane_parities)
erasure_table paranoid false = (paranoid_shards, paranoid_parities)
erasure_table paranoid true = (enc_paranoid_shards, enc_paranoid_parities)

-- `zip` and `find_map`: the count at the first threshold that `shards` reaches.
unfoldable pub find_parities : ℕ → List ℕ → List ℕ → Option ℕ
find_parities shards [] counts = Option.none
find_parities shards (t ∷ ts) [] = Option.none
find_parities shards (t ∷ ts) (c ∷ cs) =
    if leb t shards then Option.some c else find_parities shards ts cs

unfoldable pub parities : RedundancyLevel → ℕ → Bool → ℕ
unfolding erasure_table find_parities
parities level shards encrypted =
    if as_u8 level == 0 || shards == 0
    then 0
    else get_or
        (find_parities shards (erasure_table level encrypted).0 (erasure_table level encrypted).1) 0

unfoldable pub max_shards : RedundancyLevel → Bool → ℕ
unfolding parities
max_shards level true = (128 - parities level 64 true) / 2
max_shards level false = 128 - parities level 128 false

unfoldable pub replica_count : RedundancyLevel → ℕ
replica_count none = 0
replica_count medium = 2
replica_count strong = 4
replica_count insane = 8
replica_count paranoid = 16
