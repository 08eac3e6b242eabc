-- ===== src/Progress/Tests.antt =====
-- src/events.rs: the store of progress rows at concrete inputs.
use weeb.Prelude.{◌≤◌, true, false, some, none, List, [], ◌∷◌, ◌++◌, ◌≡◌, ◌⊎◌, arith, take, length}
use weeb.Progress.{
  ProgressRow, ProgressStore, Call, start_call, update_call, finish_call, perform_all, new_store,
  trim_completed, rows_done, snapshot_if_changed,
}
use weeb.Progress.Trim.{trim_completed_lem}
use weeb.Progress.Ids.{AreDifferent, perform_all_lem}
use weeb.Progress.Revision.{snapshot_if_changed_lem}

abbrev one_row : ProgressRow
one_row = record {
  id = 111 ∷ (112 ∷ (45 ∷ (49 ∷ [])));
  kind = 117 ∷ [];
  subject = 97 ∷ [];
  phase = 112 ∷ [];
  percent = some 40;
  detail = [];
  done = false;
  ok = true;
}

abbrev some_store : ProgressStore
some_store = record {
  next_id = 2;
  revision = 5;
  rows = record one_row { id = 111 ∷ (112 ∷ (45 ∷ (50 ∷ []))); done = true } ∷ (one_row ∷ []);
}

abbrev calls : List Call
calls =
    start_call (117 ∷ []) (98 ∷ []) (112 ∷ []) none []
    ∷ (update_call (111 ∷ (112 ∷ (45 ∷ (49 ∷ [])))) (113 ∷ []) (some 60) []
        ∷ (finish_call (111 ∷ (112 ∷ (45 ∷ (49 ∷ [])))) (114 ∷ []) [] true ∷ []))

trim_completed_lem_example :
    (rows_done false (trim_completed some_store).rows ≡ rows_done false some_store.rows)
    × (rows_done true (trim_completed some_store).rows ≡ take 24 (rows_done true some_store.rows))
trim_completed_lem_example = trim_completed_lem some_store

perform_all_lem_example :
    AreDifferent (perform_all calls new_store).rows
    × (length (rows_done true (perform_all calls new_store).rows) ≤ 24)
perform_all_lem_example = perform_all_lem calls (omega arith)

snapshot_if_changed_lem_example :
    ((snapshot_if_changed 5 (perform_all calls some_store) ≡ none)
      × (perform_all calls some_store ≡ some_store))
    ⊎ (snapshot_if_changed 5 (perform_all calls some_store)
        ≡ some (
          (perform_all calls some_store).revision,
          rows_done false (perform_all calls some_store).rows
              ++ rows_done true (perform_all calls some_store).rows,
        ))
snapshot_if_changed_lem_example = snapshot_if_changed_lem calls some_store (omega arith)
