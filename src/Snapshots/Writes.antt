-- ===== src/Snapshots/Writes.antt =====
-- The snapshots that `take_snapshot` of src/store.rs writes.
use fossic.Prelude.{
  ℕ, ◌+◌, ◌<◌, ◌≤◌, ◌≡◌, ◌≢◌, sym, ◌∙◌, ap, subst, true, [], ◌++◌, none, some, leb, keep,
  keep_of_none, All-keep, All-keep_mono, All-append, All-last, All-mono, Option-cases, inl, inr,
  last, arith, append-nil,
}
use fossic.Prelude.Words.{Bytes}
use fossic.Prelude.Order.{IsAscending-last, All-order_by}
use fossic.Text.{Str}
use fossic.Error.{Error, Result, ok, err, ◌>>=◌, >>=-eq-ok, ok-injective}
use fossic.Tables.{StoredEvent, Db}
use fossic.Append.{at_stream, next_version}
use fossic.Append.Log.{IsUnique, below_next}
use fossic.Reducers.{BoxedReducer, ReducerRegistry}
use fossic.Read.{read_range_impl, select_range, version_of, in_range, i64_max, at_least}
use fossic.Read.Page.{select_range-IsAscending, select_range-at_least}
use fossic.Snapshots.{
  SnapshotInfo, find_latest_snapshot, apply_events, start_of, fold_query, write_snapshot,
  take_snapshot, compute_state_bytes, fold_state, get_reducer, existing_info, snapshot_info_impl,
}
use fossic.Snapshots.Range.{events_between, events_between-split, keep-select_range}
use fossic.Snapshots.State.{full_state, IsSettled, HasSettled, fold_state-full}

newest-lt :
    (db : Db) (s b : Str) (from : ℕ) (newest : StoredEvent)
    → last (events_between db s b from none) ≡ some newest
    → newest.version < next_version s b db.events
unfolding read_range_impl select_range
newest-lt db s b from newest h =
    let q = fold_query s b from none in
    All-last (λ e. e.version < next_version s b db.events) (select_range db q from) newest
      (All-order_by version_of _ (keep (in_range q from) db.events) (
        All-keep_mono (λ e. at_stream s b e ≡ true → e.version < next_version s b db.events) _
          (in_range q from) db.events (λ e below t. below (ground arith))
          (below_next s b db.events)))
      h

-- After the newest event there is none.
nothing_after :
    (db : Db) (s b : Str) (from : ℕ) (newest : StoredEvent)
    → IsUnique db.events
    → next_version s b db.events ≤ i64_max
    → last (events_between db s b from none) ≡ some newest
    → events_between db s b (newest.version + 1) none ≡ []
unfolding read_range_impl
nothing_after db s b from newest u room h =
    let q = fold_query s b from none in
    let v = newest.version in
    let rows = select_range db q from in
    let low : at_least from v ≡ true =
      All-last (λ e. at_least from e.version ≡ true) rows newest (select_range-at_least db q from)
        h in
    let lt = newest-lt db s b from newest h in
    sym (
      keep-select_range db q (fold_query s b (v + 1) none) from (v + 1) (λ e. leb (v + 1) e.version)
        u (λ e. ground (arith, low, lt, room)))
    ∙ keep_of_none (λ e. leb (v + 1) e.version) rows
        (All-mono (λ e. e.version ≤ v) _ rows (λ e h. ground arith)
          (IsAscending-last version_of rows newest (select_range-IsAscending db q from u) h))

full_state-newest :
    (db : Db) (reducer : BoxedReducer) (s b : Str) (from : ℕ) (newest : StoredEvent)
    → IsUnique db.events
    → next_version s b db.events ≤ i64_max
    → last (events_between db s b from none) ≡ some newest
    → full_state db reducer s b (some newest.version) ≡ full_state db reducer s b none
full_state-newest db reducer s b from newest u room h =
    let lt = newest-lt db s b from newest h in
    ap (λ es. reducer.initial_state_bytes >>= λ i. apply_events reducer s i es)
      (sym (
        events_between-split db s b newest.version none u (ground (arith, lt, room))
          (omega (arith, lt, room))
        ∙ ap (◌++◌ (events_between db s b 0 (some newest.version)))
            (nothing_after db s b from newest u room h)
        ∙ append-nil (events_between db s b 0 (some newest.version))))

write_snapshot-HasSettled :
    (db : Db) (reducer : BoxedReducer) (s b : Str) (v : ℕ) (state : Bytes) (now : ℕ)
    → HasSettled reducer db
    → v < next_version s b db.events
    → full_state db reducer s b (some v) ≡ ok state
    → HasSettled reducer
        (write_snapshot db s b v reducer.name reducer.version reducer.state_schema_version state
          now).1
unfolding write_snapshot read_range_impl select_range
write_snapshot-HasSettled db reducer s b v state now settled lt full =
    All-append (IsSettled db reducer) _ _ (All-keep (IsSettled db reducer) _ db.snapshots settled)
      ((lt, λ _. full), tt)

-- The state that a snapshot stores is the fold of all events.
fold_from_latest :
    (db : Db) (reducer : BoxedReducer) (s b : Str) (from : ℕ) (bytes state : Bytes)
    → start_of reducer (find_latest_snapshot db s b reducer.name reducer.state_schema_version none)
      ≡ ok (from, bytes)
    → apply_events reducer s bytes (events_between db s b from none) ≡ ok state
    → fold_state db reducer s b none ≡ ok state
unfolding fold_state compute_state_bytes
fold_from_latest db reducer s b from bytes state start folded = rw start folded

failed : {A : Type 0} {e : Error} {a : A} → ◌≢◌ {A = Result Error A} (err e) (ok a)
failed h = cc

-- Where event positions are unique, the branch has used no version of 2 ^ 63 - 1 or more, and every snapshot of
-- the stream's reducer holds the state of the fold up to its version, a version that its branch has, this is still so after a successful `take_snapshot`.
pub take_snapshot-HasSettled :
    (db db' : Db) (registry : ReducerRegistry) (reducer : BoxedReducer) (s b : Str) (now : ℕ)
    (info : SnapshotInfo)
    → IsUnique db.events
    → next_version s b db.events ≤ i64_max
    → HasSettled reducer db
    → get_reducer registry s ≡ ok reducer
    → take_snapshot db registry s b now ≡ ok (info, db')
    → HasSettled reducer db'
unfolding take_snapshot
take_snapshot-HasSettled db db' registry reducer s b now info u room settled found h =
    let h' = rw found at h in
    let ((from, bytes), start, rest) =
      >>=-eq-ok
        (start_of reducer
          (find_latest_snapshot db s b reducer.name reducer.state_schema_version none))
        _ h' in
    elim (Option-cases (last (events_between db s b from none))) [
      | inl empty ↦
          elim (Option-cases
            (find_latest_snapshot db s b reducer.name reducer.state_schema_version none)) [
              | inl no_snap ↦ absurd (failed (rw (empty, no_snap) at rest))
              | inr (_, a_snap) ↦
                  (let (_, _, made) =
                      >>=-eq-ok (existing_info s b (snapshot_info_impl db s b reducer.name)) _
                        (rw (empty, a_snap) at rest) in
                    subst (HasSettled reducer) (ap (λ p. p.1) (ok-injective made)) settled)
            ]
      | inr (newest, e) ↦
          (let (state, applied, made) =
              >>=-eq-ok (apply_events reducer s bytes (events_between db s b from none)) _
                (rw e at rest) in
            subst (HasSettled reducer) (ap (λ p. p.1) (ok-injective made)) (
              write_snapshot-HasSettled db reducer s b newest.version state now settled
                (newest-lt db s b from newest e)
                (full_state-newest db reducer s b from newest u room e
                  ∙ sym (fold_state-full db reducer s b none u room settled)
                  ∙ fold_from_latest db reducer s b from bytes state start applied)))
    ]
