-- ===== src/Progress.antt =====
-- src/events.rs: the store of progress rows that the page shows.
pub mod Trim
pub mod Ids
pub mod Revision
mod Tests
use weeb.Prelude.{
  ℕ, ◌+◌, Bool, true, false, not, ◌&&◌, if◌then◌else◌, leb, ◌==◌, Option, none, some, List, [], ◌∷◌,
  ◌++◌, sat_add,
}
use weeb.Prelude.Text.{Text, text_eq}
use weeb.Prelude.Decimal.{decimal}

abbrev pub completed_progress_limit : ℕ
completed_progress_limit = 24

pub record ProgressRow : Type 0 where
  pub id : Text
  pub kind : Text
  pub subject : Text
  pub phase : Text
  pub percent : Option ℕ
  pub detail : Text
  pub done : Bool
  pub ok : Bool

pub record ProgressStore : Type 0 where
  pub next_id : ℕ
  pub revision : ℕ
  pub rows : List ProgressRow

-- `Default`.
abbrev pub new_store : ProgressStore
new_store = record { next_id = 0; revision = 0; rows = [] }

-- `format!("op-{}", n)`.
unfoldable pub op_id : ℕ → Text
op_id n = 111 ∷ (112 ∷ (45 ∷ decimal n))

unfoldable pub bump_revision : ProgressStore → ProgressStore
bump_revision s = record s { revision = sat_add s.revision 1 }

unfoldable pub start : Text → Text → Text → Option ℕ → Text → ProgressStore → ProgressStore × Text
unfolding bump_revision
start kind subject phase percent detail s =
    let next_id = sat_add s.next_id 1 in
    let id = op_id next_id in
    let row : ProgressRow = record {
      id = id;
      kind = kind;
      subject = subject;
      phase = phase;
      percent = percent;
      detail = detail;
      done = false;
      ok = true;
    } in
    (bump_revision (record s { next_id = next_id; rows = row ∷ s.rows }), id)

-- The first row with an id, and the rows with that row changed.
unfoldable pub find_row : Text → List ProgressRow → Option ProgressRow
find_row id [] = none
find_row id (row ∷ rows) = if text_eq row.id id then some row else find_row id rows

unfoldable pub set_row : Text → ProgressRow → List ProgressRow → List ProgressRow
set_row id new [] = []
set_row id new (row ∷ rows) =
    let rest = set_row id new rows in if text_eq row.id id then new ∷ rows else row ∷ rest

-- Equality of `Option<u8>`.
unfoldable pub percent_eq : Option ℕ → Option ℕ → Bool
percent_eq none none = true
percent_eq none (some b) = false
percent_eq (some a) none = false
percent_eq (some a) (some b) = a == b

-- Equality of `bool`.
unfoldable pub flag_eq : Bool → Bool → Bool
flag_eq true b = b
flag_eq false b = not b

unfoldable pub update : Text → Text → Option ℕ → Text → ProgressStore → ProgressStore
unfolding bump_revision
update id phase percent detail s = elim (find_row id s.rows) [
  | none ↦ s
  | some row ↦
      if row.done
      then s
      else if text_eq row.phase phase && percent_eq row.percent percent && text_eq row.detail detail
      then s
      else (let row' = record row { phase = phase; percent = percent; detail = detail } in
          bump_revision (record s { rows = set_row id row' s.rows }))
]

-- `retain`, with the count of completed rows so far.
unfoldable pub trim_rows : ℕ → List ProgressRow → List ProgressRow
trim_rows completed_seen [] = []
trim_rows completed_seen (row ∷ rows) =
    if not row.done
    then row ∷ trim_rows completed_seen rows
    else if leb (completed_seen + 1) completed_progress_limit
    then row ∷ trim_rows (completed_seen + 1) rows
    else trim_rows (completed_seen + 1) rows

unfoldable pub trim_completed : ProgressStore → ProgressStore
unfolding trim_rows
trim_completed s = record s { rows = trim_rows 0 s.rows }

unfoldable pub finish : Text → Text → Text → Bool → ProgressStore → ProgressStore
unfolding bump_revision trim_completed
finish id phase detail ok s = elim (find_row id s.rows) [
  | none ↦ s
  | some row ↦
      let percent = if ok then some 100 else row.percent in
      if text_eq row.phase phase
        && percent_eq row.percent percent
        && text_eq row.detail detail
        && row.done
        && flag_eq row.ok ok
      then s
      else (let row' = record row {
        phase = phase;
        percent = percent;
        detail = detail;
        done = true;
        ok = ok;
      } in
          bump_revision (trim_completed (record s { rows = set_row id row' s.rows })))
]

-- `filter` by whether a row is done.
unfoldable pub rows_done : Bool → List ProgressRow → List ProgressRow
rows_done done [] = []
rows_done done (row ∷ rows) =
    if flag_eq row.done done then row ∷ rows_done done rows else rows_done done rows

unfoldable pub snapshot_if_changed : ℕ → ProgressStore → Option (ℕ × List ProgressRow)
unfolding rows_done
snapshot_if_changed seen_revision s =
    if s.revision == seen_revision
    then none
    else some (s.revision, rows_done false s.rows ++ rows_done true s.rows)

-- The calls that change the store.
pub data Call : Type 0 where
  start_call : Text → Text → Text → Option ℕ → Text → Call
  update_call : Text → Text → Option ℕ → Text → Call
  finish_call : Text → Text → Text → Bool → Call

unfoldable pub perform : Call → ProgressStore → ProgressStore
unfolding start update finish
perform (start_call kind subject phase percent detail) s =
    (start kind subject phase percent detail s).0
perform (update_call id phase percent detail) s = update id phase percent detail s
perform (finish_call id phase detail ok) s = finish id phase detail ok s

unfoldable pub perform_all : List Call → ProgressStore → ProgressStore
unfolding perform
perform_all [] s = s
perform_all (c ∷ cs) s = perform_all cs (perform c s)
