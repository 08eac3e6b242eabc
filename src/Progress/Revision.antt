-- ===== src/Progress/Revision.antt =====
-- src/events.rs: a reader that polls by revision misses no change.
use weeb.Prelude.{
  ℕ, ◌+◌, ◌≤◌, ◌<◌, Bool, true, false, Option, none, some, List, [], ◌∷◌, ◌++◌, length, ◌≡◌, ◌⊎◌,
  inl, inr, refl, ap, ◌∙◌, arith, u64_max,
}
use weeb.Prelude.Text.{Text}
use weeb.Progress.{
  ProgressStore, Call, start_call, update_call, finish_call, perform, perform_all,
  snapshot_if_changed, start, update, finish, bump_revision, rows_done,
}

-- A call leaves the store as it is, or counts the revision up by one.
IsStep : ProgressStore → ProgressStore → Type 0
IsStep s t = (t ≡ s) ⊎ (t.revision ≡ s.revision + 1)

update-IsStep :
    (id phase : Text) (percent : Option ℕ) (detail : Text) (s : ProgressStore)
    → s.revision < u64_max
    → IsStep s (update id phase percent detail s)
unfolding update IsStep
update-IsStep id phase percent detail s h = ground arith

finish-IsStep :
    (id phase detail : Text) (ok : Bool) (s : ProgressStore)
    → s.revision < u64_max
    → IsStep s (finish id phase detail ok s)
unfolding finish IsStep
finish-IsStep id phase detail ok s h = ground arith

perform-IsStep : (c : Call) (s : ProgressStore) → s.revision < u64_max → IsStep s (perform c s)
unfolding perform
perform-IsStep (start_call kind subject phase percent detail) s h =
    unfold IsStep start bump_revision in inr (omega arith)
perform-IsStep (update_call id phase percent detail) s h = update-IsStep id phase percent detail s h
perform-IsStep (finish_call id phase detail ok) s h = finish-IsStep id phase detail ok s h

-- Over a run the revision grows, unless the store stays as it is.
perform_all_cases :
    (cs : List Call) (s : ProgressStore)
    → s.revision + length cs ≤ u64_max
    → (perform_all cs s ≡ s) ⊎ (s.revision < (perform_all cs s).revision)
unfolding perform_all IsStep
perform_all_cases [] s h = inl refl
perform_all_cases (c ∷ cs) s h = elim (perform-IsStep c s (omega arith)) [
  | inl same ↦ elim (perform_all_cases cs s (omega arith)) [
    | inl kept ↦ inl (ap (perform_all cs) same ∙ kept)
    | inr grown ↦
        inr (omega (arith, ap (λ (c : ProgressStore). (perform_all cs c).revision) same, grown))
  ]
  | inr more ↦ elim (perform_all_cases cs (perform c s) (omega arith)) [
    | inl same ↦ inr (omega (arith, ap (λ (t : ProgressStore). t.revision) same, more))
    | inr grown ↦ inr (omega arith)
  ]
]

-- A reader that has seen a revision gets nothing only if no call since then has changed the
-- store; else it gets the current revision and all rows, those in progress first. The revision
-- counter has room for the calls.
pub snapshot_if_changed_lem :
    (cs : List Call) (s : ProgressStore)
    → s.revision + length cs ≤ u64_max
    → ((snapshot_if_changed s.revision (perform_all cs s) ≡ none) × (perform_all cs s ≡ s))
      ⊎ (snapshot_if_changed s.revision (perform_all cs s)
          ≡ some (
            (perform_all cs s).revision,
            rows_done false (perform_all cs s).rows ++ rows_done true (perform_all cs s).rows,
          ))
unfolding snapshot_if_changed
snapshot_if_changed_lem cs s h = elim (perform_all_cases cs s h) [
  | inl same ↦ inl (rw same (ground arith), same)
  | inr grown ↦ inr (ground arith)
]
