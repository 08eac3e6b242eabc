-- ===== src/Progress/Ids.antt =====
-- src/events.rs: the rows of a store have different ids, and are bounded while done.
use weeb.Prelude.{
  All, length-take, ℕ, leb, sat_add, ◌+◌, ◌≤◌, ◌<◌, Bool, true, false, if◌then◌else◌, Option, some,
  List, [], ◌∷◌, length, ◌≡◌, ◌≢◌, inl, inr, refl, sym, ◌∙◌, arith, u64_max, Option-cases,
  Bool-cases,
}
use weeb.Prelude.Text.{Text, text_eq, text_eq_sound}
use weeb.Prelude.Decimal.{decimal-injective}
use weeb.Progress.Trim.{trim_completed_lem}
use weeb.Progress.{
  ProgressRow, ProgressStore, Call, start_call, update_call, finish_call, perform, perform_all,
  find_row, set_row, start, update, finish, bump_revision, trim_completed, trim_rows, rows_done,
  op_id, new_store, flag_eq, completed_progress_limit,
}

pub op_id-injective : (m n : ℕ) → m ≤ u64_max → n ≤ u64_max → op_id m ≡ op_id n → m ≡ n
unfolding op_id
op_id-injective m n hm hn e = decimal-injective m n hm hn cc

-- The ids are those of numbers below `bound`, each smaller than the one before.
abbrev pub IsDescending : ℕ → List ProgressRow → Type 0
IsDescending bound [] = 0 ≤ bound
IsDescending bound (row ∷ rows) = (n : ℕ) × (row.id ≡ op_id n) × (n < bound) × IsDescending n rows

weaken : (a b : ℕ) (rows : List ProgressRow) → a ≤ b → IsDescending a rows → IsDescending b rows
weaken a b [] h v = omega arith
weaken a b (row ∷ rows) h (n, e, below, rest) = (n, e, omega arith, rest)

trim-IsDescending :
    (seen bound : ℕ) (rows : List ProgressRow)
    → IsDescending bound rows
    → IsDescending bound (trim_rows seen rows)
unfolding trim_rows
trim-IsDescending seen bound [] v = v
trim-IsDescending seen bound (row ∷ rows) (n, e, below, rest) =
    let kept : IsDescending bound (row ∷ trim_rows seen rows) =
      (n, e, below, trim-IsDescending seen n rows rest) in
    let kept_later : IsDescending bound (row ∷ trim_rows (seen + 1) rows) =
      (n, e, below, trim-IsDescending (seen + 1) n rows rest) in
    let dropped : IsDescending bound (trim_rows (seen + 1) rows) =
      weaken n bound (trim_rows (seen + 1) rows) (omega arith)
        (trim-IsDescending (seen + 1) n rows rest) in
    elim (Bool-cases row.done) [
      | inr active ↦ rw active kept
      | inl done ↦ elim (Bool-cases (leb (seen + 1) completed_progress_limit)) [
        | inl room ↦ rw (done, room) kept_later
        | inr full ↦ rw (done, full) dropped
      ]
    ]

set_row-IsDescending :
    (id : Text) (new : ProgressRow) (bound : ℕ) (rows : List ProgressRow)
    → new.id ≡ id
    → IsDescending bound rows
    → IsDescending bound (set_row id new rows)
unfolding set_row
set_row-IsDescending id new bound [] same v = v
set_row-IsDescending id new bound (row ∷ rows) same (n, e, below, rest) =
    elim (Bool-cases (text_eq row.id id)) [
      | inl found ↦ rw found (n, same ∙ sym (text_eq_sound row.id id found) ∙ e, below, rest)
      | inr other ↦ rw other (n, e, below, set_row-IsDescending id new n rows same rest)
    ]

find_row-id :
    (id : Text) (rows : List ProgressRow) {row : ProgressRow}
    → find_row id rows ≡ some row
    → row.id ≡ id
unfolding find_row
find_row-id id [] h = cc
find_row-id id (r ∷ rows) {row} h = elim (Bool-cases (text_eq r.id id)) [
  | inl found ↦ ground (arith, found, text_eq_sound r.id id found)
  | inr other ↦ find_row-id id rows (rw other at h)
]

-- What holds of a store: the ids count down from `next_id`, and at most 24 rows are done.
pub record IsValid (s : ProgressStore) : Type 0 where
  pub descending : IsDescending (s.next_id + 1) s.rows
  pub bounded : length (rows_done true s.rows) ≤ completed_progress_limit

if-IsValid : (b : Bool) (s t : ProgressStore) → IsValid s → IsValid t → IsValid (if b then s else t)
if-IsValid true s t hs ht = hs
if-IsValid false s t hs ht = ht

start-IsValid :
    (kind subject phase : Text) (percent : Option ℕ) (detail : Text) (s : ProgressStore)
    → s.next_id < u64_max
    → IsValid s
    → IsValid (start kind subject phase percent detail s).0
unfolding start bump_revision
start-IsValid kind subject phase percent detail s h v =
    let next : sat_add s.next_id 1 ≡ s.next_id + 1 = omega arith in
    record {
      descending = rw next (s.next_id + 1, refl, omega arith, v.descending);
      bounded = unfold rows_done flag_eq in v.bounded;
    }

set_row-done :
    (id : Text) (row new : ProgressRow) (rows : List ProgressRow)
    → find_row id rows ≡ some row
    → new.done ≡ row.done
    → length (rows_done true (set_row id new rows)) ≡ length (rows_done true rows)
unfolding find_row set_row rows_done
set_row-done id row new [] h same = refl
set_row-done id row new (r ∷ rows) h same = ground (arith, set_row-done id row new rows)

trim_completed-le :
    (s : ProgressStore) → length (rows_done true (trim_completed s).rows) ≤ completed_progress_limit
trim_completed-le s =
    rw ((trim_completed_lem s).1) (omega (arith, length-take 24 (rows_done true s.rows)))

update-IsValid :
    (id phase : Text) (percent : Option ℕ) (detail : Text) (s : ProgressStore)
    → IsValid s
    → IsValid (update id phase percent detail s)
unfolding update
update-IsValid id phase percent detail s v = elim (Option-cases (find_row id s.rows)) [
  | inl e ↦ rw (e, update) v
  | inr (row, e) ↦
      let row' : ProgressRow = record row { phase = phase; percent = percent; detail = detail } in
      let kept : IsValid (bump_revision (record s { rows = set_row id row' s.rows })) =
        unfold bump_revision in
        record {
          descending =
              set_row-IsDescending id row' (s.next_id + 1) s.rows (find_row-id id s.rows e)
                v.descending;
          bounded = rw (set_row-done id row row' s.rows e refl) v.bounded;
        } in
      rw (e, update) (if-IsValid _ s _ v (if-IsValid _ s _ v kept))
]

finish-IsValid :
    (id phase detail : Text) (ok : Bool) (s : ProgressStore)
    → IsValid s
    → IsValid (finish id phase detail ok s)
unfolding finish
finish-IsValid id phase detail ok s v = elim (Option-cases (find_row id s.rows)) [
  | inl e ↦ rw (e, finish) v
  | inr (row, e) ↦
      let row' : ProgressRow = record row {
        phase = phase;
        percent = if ok then some 100 else row.percent;
        detail = detail;
        done = true;
        ok = ok;
      } in
      let s' : ProgressStore = record s { rows = set_row id row' s.rows } in
      let kept : IsValid (bump_revision (trim_completed s')) =
        unfold bump_revision in
        record {
          descending =
              unfold trim_completed in
              trim-IsDescending 0 (s.next_id + 1) (set_row id row' s.rows) (
                set_row-IsDescending id row' (s.next_id + 1) s.rows (find_row-id id s.rows e)
                  v.descending);
          bounded = trim_completed-le s';
        } in
      rw (e, finish) (if-IsValid _ s _ v kept)
]

perform-IsValid :
    (c : Call) (s : ProgressStore) → s.next_id < u64_max → IsValid s → IsValid (perform c s)
unfolding perform
perform-IsValid (start_call kind subject phase percent detail) s h v =
    start-IsValid kind subject phase percent detail s h v
perform-IsValid (update_call id phase percent detail) s h v =
    update-IsValid id phase percent detail s v
perform-IsValid (finish_call id phase detail ok) s h v = finish-IsValid id phase detail ok s v

perform-next : (c : Call) (s : ProgressStore) → (perform c s).next_id ≤ s.next_id + 1
unfolding perform
perform-next (start_call kind subject phase percent detail) s =
    unfold start bump_revision in omega arith
perform-next (update_call id phase percent detail) s = unfold update bump_revision in ground arith
perform-next (finish_call id phase detail ok) s =
    unfold finish bump_revision trim_completed in ground arith

perform_all-next :
    (cs : List Call) (s : ProgressStore) → (perform_all cs s).next_id ≤ s.next_id + length cs
unfolding perform_all
perform_all-next [] s = omega arith
perform_all-next (c ∷ cs) s = omega (arith, perform-next c s, perform_all-next cs (perform c s))

pub perform_all-IsValid :
    (cs : List Call) (s : ProgressStore)
    → s.next_id + length cs ≤ u64_max
    → IsValid s
    → IsValid (perform_all cs s)
unfolding perform_all
perform_all-IsValid [] s h v = v
perform_all-IsValid (c ∷ cs) s h v =
    perform_all-IsValid cs (perform c s) (omega (arith, perform-next c s))
      (perform-IsValid c s (omega arith) v)

-- No row of an id.
abbrev pub IsFresh : Text → List ProgressRow → Type 0
IsFresh id = All (λ row. row.id ≢ id)

-- Every row's id is that of no row behind it.
abbrev pub AreDifferent : List ProgressRow → Type 0
AreDifferent [] = 0 ≤ 0
AreDifferent (row ∷ rows) = IsFresh row.id rows × AreDifferent rows

fresh :
    (n m : ℕ) (rows : List ProgressRow)
    → m ≤ n
    → n ≤ u64_max
    → IsDescending m rows
    → IsFresh (op_id n) rows
fresh n m [] h top v = tt
fresh n m (row ∷ rows) h top (k, e, below, rest) = (
  λ same. absurd (omega (arith, op_id-injective k n (omega arith) top (sym e ∙ same))),
  fresh n k rows (omega arith) top rest,
)

different :
    (bound : ℕ) (rows : List ProgressRow)
    → bound ≤ u64_max + 1
    → IsDescending bound rows
    → AreDifferent rows
different bound [] top v = omega arith
different bound (row ∷ rows) top (n, e, below, rest) =
    (rw e (fresh n n rows (omega arith) (omega arith) rest), different n rows (omega arith) rest)

-- Whatever calls come, in whatever order, the rows of a store have pairwise different ids, so an
-- id that `start` returned names one row at most, and no more than 24 rows are done. There are
-- fewer calls than ids of 64 bits.
pub perform_all_lem :
    (cs : List Call)
    → length cs < u64_max
    → AreDifferent (perform_all cs new_store).rows
      × (length (rows_done true (perform_all cs new_store).rows) ≤ 24)
perform_all_lem cs h =
    let start_valid : IsValid new_store = record {
      descending = omega arith;
      bounded = unfold rows_done in omega arith;
    } in
    let v = perform_all-IsValid cs new_store (omega arith) start_valid in
    (different _ _ (omega (arith, perform_all-next cs new_store)) v.descending, v.bounded)
