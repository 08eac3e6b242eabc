-- ===== src/Progress/Trim.antt =====
-- src/events.rs: which rows trimming keeps.
use weeb.Prelude.{ℕ, zero, suc, ◌+◌, ◌-◌, true, false, List, [], ◌∷◌, take, ◌≡◌, refl, arith}
use weeb.Progress.{
  ProgressRow, ProgressStore, trim_rows, trim_completed, rows_done, flag_eq,
  completed_progress_limit,
}

trim_rows-active :
    (seen : ℕ) (rows : List ProgressRow)
    → rows_done false (trim_rows seen rows) ≡ rows_done false rows
unfolding trim_rows rows_done flag_eq
trim_rows-active seen [] = refl
trim_rows-active seen (row ∷ rows) =
    grind (arith, trim_rows-active seen rows, trim_rows-active (seen + 1) rows)

trim_rows-completed :
    (seen left : ℕ) (rows : List ProgressRow)
    → left ≡ completed_progress_limit - seen
    → rows_done true (trim_rows seen rows) ≡ take left (rows_done true rows)
unfolding trim_rows rows_done flag_eq
trim_rows-completed seen zero [] e = refl
trim_rows-completed seen (suc left) [] e = refl
trim_rows-completed seen zero (row ∷ rows) e = grind (
  arith,
  trim_rows-completed seen zero rows e,
  trim_rows-completed (seen + 1) zero rows (omega arith),
)
trim_rows-completed seen (suc left) (row ∷ rows) e = grind (
  arith,
  trim_rows-completed seen (suc left) rows e,
  trim_rows-completed (seen + 1) left rows (omega arith),
)

-- Trimming keeps every row that is not done, and of the done ones the 24 newest, in their order.
pub trim_completed_lem :
    (s : ProgressStore)
    → (rows_done false (trim_completed s).rows ≡ rows_done false s.rows)
      × (rows_done true (trim_completed s).rows ≡ take 24 (rows_done true s.rows))
unfolding trim_completed
trim_completed_lem s = (trim_rows-active 0 s.rows, trim_rows-completed 0 24 s.rows refl)
