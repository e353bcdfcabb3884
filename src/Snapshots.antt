-- ===== src/Snapshots.antt =====
-- src/snapshots.rs and the folds of src/store.rs: `compute_state_bytes`, `apply_reducer_guarded`,
-- `read_state_bytes_at_version` and `take_snapshot`.
-- A lock that is poisoned, and the pool of connections, are not part of the model.
pub mod Range
pub mod State
pub mod Writes
pub mod Appends
pub mod Auto
pub mod Reads
use fossic.Prelude.{
  ℕ, suc, ◌+◌, Bool, true, false, not, ◌&&◌, ◌||◌, List, [], ◌∷◌, ◌++◌, Option, none, some, ltb,
  leb, ◌==◌, any, keep, find, length, last, if◌then◌else◌,
}
use fossic.Prelude.Order.{order_by}
use fossic.Prelude.Lex.{same}
use fossic.Prelude.Words.{Bytes}
use fossic.Text.{Str}
use fossic.EventId.{to_hex}
use fossic.Error.{
  Error, reducer_panicked, reducer_not_found, no_events_to_snapshot, Result, ok, err, ◌>>=◌,
}
use fossic.Tables.{StoredEvent, Snapshot, Db}
use fossic.Reducers.{
  Call, returned, panicked, BoxedReducer, ReducerEntry, ReducerRegistry, find_entry,
}
use fossic.Read.{ReadQuery, up_to, read_range_impl}

pub record SnapshotInfo : Type 0 where
  pub stream_id : Str
  pub branch : Str
  pub version : ℕ
  pub reducer_name : Str
  pub reducer_version : ℕ
  pub state_schema_version : ℕ
  pub created_at : ℕ

abbrev pub snapshot_version : Snapshot → ℕ
snapshot_version p = p.version

-- `WHERE stream_id = ?1 AND branch = ?2 AND reducer_name = ?3 AND state_schema_version = ?4`, and
-- `AND version <= ?5` if there is a bound; without one the version of a row is an `i64` all the same
abbrev pub snapshot_matches : Str → Str → Str → ℕ → Option ℕ → Snapshot → Bool
snapshot_matches stream_id branch reducer_name state_schema_version max_version p =
    same p.stream_id stream_id
    && same p.branch branch
    && same p.reducer_name reducer_name
    && p.state_schema_version == state_schema_version
    && up_to max_version p.version

abbrev pub version_and_blob : Option Snapshot → Option (ℕ × Bytes)
version_and_blob none = none
version_and_blob (some p) = some (p.version, p.state_blob)

-- `ORDER BY version DESC LIMIT 1` takes the last row in ascending order.
unfoldable pub find_latest_snapshot : Db → Str → Str → Str → ℕ → Option ℕ → Option (ℕ × Bytes)
find_latest_snapshot db stream_id branch reducer_name state_schema_version max_version =
    version_and_blob (
      last (
        order_by snapshot_version (
          keep (snapshot_matches stream_id branch reducer_name state_schema_version max_version)
            db.snapshots)))

-- the primary key of two rows
abbrev pub same_key : Snapshot → Snapshot → Bool
same_key p r =
    same p.stream_id r.stream_id
    && same p.branch r.branch
    && same p.reducer_name r.reducer_name
    && p.state_schema_version == r.state_schema_version
    && p.version == r.version

abbrev pub info_of : Snapshot → SnapshotInfo
info_of p = record {
  stream_id = p.stream_id;
  branch = p.branch;
  version = p.version;
  reducer_name = p.reducer_name;
  reducer_version = p.reducer_version;
  state_schema_version = p.state_schema_version;
  created_at = p.created_at;
}

-- `INSERT OR REPLACE` deletes the row with the same key.
unfoldable pub write_snapshot : Db → Str → Str → ℕ → Str → ℕ → ℕ → Bytes → ℕ → SnapshotInfo × Db
write_snapshot db stream_id branch version reducer_name reducer_version state_schema_version
      state_blob now =
    let row : Snapshot = record {
      stream_id = stream_id;
      branch = branch;
      version = version;
      reducer_name = reducer_name;
      reducer_version = reducer_version;
      state_schema_version = state_schema_version;
      state_blob = state_blob;
      created_at = now;
    } in
    (
      info_of row,
      record db { snapshots = keep (λ p. not (same_key p row)) db.snapshots ++ row ∷ [] },
    )

abbrev pub some_info : Option Snapshot → Option SnapshotInfo
some_info none = none
some_info (some p) = some (info_of p)

unfoldable pub snapshot_info_impl : Db → Str → Str → Str → Option SnapshotInfo
snapshot_info_impl db stream_id branch reducer_name = some_info (
    last (
      order_by snapshot_version (
        keep
          (λ (p : Snapshot).
            same p.stream_id stream_id && same p.branch branch && same p.reducer_name reducer_name)
          db.snapshots)))

-- the deletions of the loop, which together delete every pair that is not active
abbrev pub is_active : List (Str × ℕ) → Snapshot → Bool
is_active active p = any (λ k. same k.0 p.reducer_name && k.1 == p.state_schema_version) active

unfoldable pub gc_orphaned_snapshots_impl : Db → List (Str × ℕ) → ℕ × Db
gc_orphaned_snapshots_impl db [] = (length db.snapshots, record db { snapshots = [] })
gc_orphaned_snapshots_impl db (k ∷ active) = (
  length (keep (λ p. not (is_active (k ∷ active) p)) db.snapshots),
  record db { snapshots = keep (is_active (k ∷ active)) db.snapshots },
)

abbrev pub guarded : Str → Str → StoredEvent → Call (Result Error Bytes) → Result Error Bytes
guarded stream_id name event (returned inner) = inner
guarded stream_id name event (panicked msg) =
    err (reducer_panicked stream_id name (to_hex event.id) msg)

unfoldable pub apply_reducer_guarded : BoxedReducer → Bytes → StoredEvent → Str → Result Error Bytes
apply_reducer_guarded reducer state_bytes event stream_id =
    guarded stream_id reducer.name event (reducer.apply_bytes state_bytes event.payload)

-- the loop over the events
unfoldable pub apply_events : BoxedReducer → Str → Bytes → List StoredEvent → Result Error Bytes
unfolding apply_reducer_guarded
apply_events reducer stream_id state [] = ok state
apply_events reducer stream_id state (event ∷ events) = do
  state' ← apply_reducer_guarded reducer state event stream_id
  apply_events reducer stream_id state' events

abbrev pub fold_query : Str → Str → ℕ → Option ℕ → ReadQuery
fold_query stream_id branch start_v max_version = record {
  stream_id = stream_id;
  branch = branch;
  from_version = some start_v;
  to_version = max_version;
  limit = none;
  event_type_filter = none;
}

-- the first version to fold, and the state to fold from
abbrev pub start_of : BoxedReducer → Option (ℕ × Bytes) → Result Error (ℕ × Bytes)
start_of reducer (some (v, b)) = ok (v + 1, b)
start_of reducer none = do bytes ← reducer.initial_state_bytes; ok (0, bytes)

unfoldable pub compute_state_bytes :
    Db → BoxedReducer → Str → Str → Option ℕ → Result Error (Bytes × List StoredEvent)
unfolding find_latest_snapshot read_range_impl
compute_state_bytes db reducer stream_id branch max_version = do
  (start_v, bytes) ← start_of reducer (
      find_latest_snapshot db stream_id branch reducer.name reducer.state_schema_version
        max_version)
  ok (bytes, read_range_impl db (fold_query stream_id branch start_v max_version))

-- the state at a version, or the current state
unfoldable pub fold_state : Db → BoxedReducer → Str → Str → Option ℕ → Result Error Bytes
unfolding compute_state_bytes apply_events
fold_state db reducer stream_id branch max_version = do
  (state_bytes, events) ← compute_state_bytes db reducer stream_id branch max_version
  apply_events reducer stream_id state_bytes events

unfoldable pub get_reducer : ReducerRegistry → Str → Result Error BoxedReducer
unfolding find_entry
get_reducer registry stream_id = elim (find_entry registry stream_id) [
  | none ↦ err (reducer_not_found stream_id)
  | some entry ↦ ok entry.reducer
]

unfoldable pub read_state_bytes_at_version :
    Db → ReducerRegistry → Str → Str → ℕ → Result Error Bytes
unfolding get_reducer fold_state
read_state_bytes_at_version db registry stream_id branch version = do
  reducer ← get_reducer registry stream_id
  fold_state db reducer stream_id branch (some version)

-- the snapshot to start from, and whether there is one
abbrev pub existing_info : Str → Str → Option SnapshotInfo → Result Error SnapshotInfo
existing_info stream_id branch none = err (no_events_to_snapshot stream_id branch)
existing_info stream_id branch (some info) = ok info

unfoldable pub take_snapshot :
    Db → ReducerRegistry → Str → Str → ℕ → Result Error (SnapshotInfo × Db)
unfolding get_reducer find_latest_snapshot read_range_impl snapshot_info_impl apply_events
    write_snapshot
take_snapshot db registry stream_id branch now = do
  reducer ← get_reducer registry stream_id
  let snap = find_latest_snapshot db stream_id branch reducer.name reducer.state_schema_version none
  (start_v, bytes) ← start_of reducer snap
  let events = read_range_impl db (fold_query stream_id branch start_v none)
  elim (last events) [
    | some newest ↦ (do
      state ← apply_events reducer stream_id bytes events
      ok (
          write_snapshot db stream_id branch newest.version reducer.name reducer.version
            reducer.state_schema_version state now))
    | none ↦ elim snap [
      | some _ ↦ (do
        info ← existing_info stream_id branch (snapshot_info_impl db stream_id branch reducer.name)
        ok (info, db))
      | none ↦ err (no_events_to_snapshot stream_id branch)
    ]
  ]
