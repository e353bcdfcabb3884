-- ===== src/Executor.antt =====
-- src/executor.rs: the background tasks of a store, by priority and deadline.
-- The heap is the list of its tasks; of equal tasks the earlier comes first. The thread is the sequence of
-- its rounds: a round is told the time, the tasks that were sent, whether it is to stop and whether the
-- store is still there. A closure is what it makes of the database, since a panic in it is caught.
-- `i64` times are plain numbers. Warnings, the wait for the thread and its grace period are left out.
pub mod Order
pub mod Rounds
use fossic.Prelude.{
  ℕ, zero, suc, ◌+◌, Bool, true, false, not, ◌&&◌, ◌||◌, List, [], ◌∷◌, ◌++◌, Option, none, some,
  ltb, leb, ◌==◌, length, last, if◌then◌else◌,
}
use fossic.Text.{Str, codes}
use fossic.Json
use fossic.Json.{Value}
use fossic.Error.{Error, Result, ok, err, ◌>>=◌}
use fossic.Env.{Env}
use fossic.Tables.{StoredEvent, Db}
use fossic.Read.{read_range_impl}
use fossic.Reducers.{BoxedReducer, ReducerRegistry, active_keys}
use fossic.Snapshots.{
  SnapshotInfo, find_latest_snapshot, start_of, fold_query, get_reducer, take_snapshot,
  gc_orphaned_snapshots_impl,
}
use fossic.Snapshots.Auto.{Keyed, put_at}
use fossic.SystemStream.{emit}

pub data TaskPriority : Type 0 where
  low normal high : TaskPriority

abbrev pub rank : TaskPriority → ℕ
rank low = 0
rank normal = 1
rank high = 2

pub data TaskKind : Type 0 where
  gc_orphan_snapshots : TaskKind
  take_snapshot_of : Str → Str → TaskKind
  custom : (Db → Db) → TaskKind

unfoldable pub name_of : TaskKind → Str
name_of gc_orphan_snapshots = codes "GcOrphanSnapshots"
name_of (take_snapshot_of s b) = codes "TakeSnapshot"
name_of (custom f) = codes "Custom"

pub record BacklogTask : Type 0 where
  pub priority : TaskPriority
  pub deadline_us : ℕ
  pub persist_on_drop : Bool
  pub kind : TaskKind
  -- in microseconds
  pub recurring_interval : Option ℕ

-- `a > b` in the order of the heap
unfoldable pub precedes : BacklogTask → BacklogTask → Bool
precedes a b =
    ltb (rank b.priority) (rank a.priority)
    || (rank a.priority == rank b.priority && ltb a.deadline_us b.deadline_us)

-- `heap.pop()`
unfoldable pub pop : List BacklogTask → Option (BacklogTask × List BacklogTask)
unfolding precedes
pop [] = none
pop (t ∷ ts) = elim (pop ts) [
  | none ↦ some (t, ts)
  | some (u, rest) ↦ if precedes u t then some (u, t ∷ rest) else some (t, ts)
]

pub record QuiescenceMonitor : Type 0 where
  pub last_write_us : ℕ
  pub last_subscription_dispatch_us : ℕ

abbrev pub note_write : QuiescenceMonitor → ℕ → QuiescenceMonitor
note_write m now = record m { last_write_us = now }

abbrev pub note_dispatch : QuiescenceMonitor → ℕ → QuiescenceMonitor
note_dispatch m now = record m { last_subscription_dispatch_us = now }

-- `now - last >= window_us`, for both
unfoldable pub is_quiescent : QuiescenceMonitor → ℕ → ℕ → Bool
is_quiescent m window_us now =
    leb (m.last_write_us + window_us) now && leb (m.last_subscription_dispatch_us + window_us) now

-- The thread's heap and what its tasks change.
pub record Background : Type 0 where
  pub heap : List BacklogTask
  pub db : Db
  pub last_snapshot_us : Keyed ℕ
  pub running : Bool

pub record Tick : Type 0 where
  pub now : ℕ
  pub received : List BacklogTask
  pub stop : Bool
  pub store_is_alive : Bool

abbrev pub is_some {ℓ} : {A : Type ℓ} → Option A → Bool
is_some none = false
is_some (some a) = true

module _ (registry : ReducerRegistry) (now : ℕ) where
  unfoldable pub bg_gc_orphaned_snapshots : Db → ℕ × Db
  unfolding gc_orphaned_snapshots_impl active_keys
  bg_gc_orphaned_snapshots db = gc_orphaned_snapshots_impl db (active_keys registry)

  -- whether there is an event after the latest snapshot
  unfoldable pub has_new_events : Db → Str → Str → Result Error Bool
  unfolding get_reducer find_latest_snapshot read_range_impl
  has_new_events db s b = do
    reducer ← get_reducer registry s
    (start_v, bytes) ←
        start_of reducer
          (find_latest_snapshot db s b reducer.name reducer.state_schema_version none)
    ok (is_some (last (read_range_impl db (fold_query s b start_v none))))

  -- A snapshot that is written is recorded with its time.
  unfoldable pub bg_take_snapshot :
      Db → Keyed ℕ → Str → Str → Result Error (SnapshotInfo × (Db × Keyed ℕ))
  unfolding take_snapshot has_new_events put_at
  bg_take_snapshot db stamps s b = do
    (info, db') ← take_snapshot db registry s b now
    written ← has_new_events db s b
    ok (info, (db', if written then put_at s b now stamps else stamps))

  abbrev pub or_unchanged : Background → Result Error (SnapshotInfo × (Db × Keyed ℕ)) → Background
  or_unchanged state (ok (info, (db, stamps))) = record state { db = db; last_snapshot_us = stamps }
  or_unchanged state (err e) = state

  -- A task that fails leaves the state as it is.
  unfoldable pub execute_task : Background → TaskKind → Background
  unfolding bg_gc_orphaned_snapshots bg_take_snapshot
  execute_task state gc_orphan_snapshots = record state {
    db = (bg_gc_orphaned_snapshots state.db).1;
  }
  execute_task state (take_snapshot_of s b) =
      or_unchanged state (bg_take_snapshot state.db state.last_snapshot_us s b)
  execute_task state (custom f) = record state { db = f state.db }

-- the task as it is pushed again
abbrev pub requeue : ℕ → BacklogTask → Option ℕ → List BacklogTask
requeue now task none = []
requeue now task (some interval) = record task { deadline_us = now + interval } ∷ []

abbrev pub priority_text : TaskPriority → Str
priority_text low = codes "Low"
priority_text normal = codes "Normal"
priority_text high = codes "High"

abbrev pub dropped_payload : BacklogTask → Value
dropped_payload task = Json.object (
    Json.field (codes "deadline_us") (Json.number (Json.int task.deadline_us)) (
      Json.field (codes "priority") (Json.string (priority_text task.priority))
        (Json.field (codes "task") (Json.string (name_of task.kind)) Json.end)))

module _ (env : Env) (now : ℕ) where
  -- one task that is dropped at the stop
  unfoldable pub drop_task : Db → BacklogTask → Db
  unfolding name_of emit
  drop_task db task =
      if task.persist_on_drop
      then emit env db (codes "DeferredTaskDropped") (dropped_payload task) none now
      else db

  -- The heap is emptied in as many rounds as it has tasks.
  unfoldable pub drop_all : ℕ → Db → List BacklogTask → Db
  unfolding pop drop_task
  drop_all zero db heap = db
  drop_all (suc n) db heap = elim (pop heap) [
    | none ↦ db
    | some (task, rest) ↦ drop_all n (drop_task db task) rest
  ]

module _ (env : Env) (registry : ReducerRegistry) where
  -- the task that was popped
  unfoldable pub run_task : Background → Tick → BacklogTask → List BacklogTask → Background
  unfolding execute_task
  run_task state tick task rest =
      let executed =
        if tick.store_is_alive then execute_task registry tick.now state task.kind else state in
      record executed { heap = rest ++ requeue tick.now task task.recurring_interval }

  -- One turn of the loop: the new state, and the task that was popped.
  unfoldable pub turn : Background → QuiescenceMonitor → ℕ → Tick → Background × Option BacklogTask
  unfolding is_quiescent pop run_task drop_all
  turn state monitor window_us tick =
      let heap = state.heap ++ tick.received in
      if tick.stop
      then (
        record state {
          heap = [];
          db = drop_all env tick.now (length heap) state.db heap;
          running = false;
        },
        none,
      )
      else if is_quiescent monitor window_us tick.now
      then elim (pop heap) [
        | none ↦ (record state { heap = heap }, none)
        | some (task, rest) ↦ (run_task state tick task rest, some task)
      ]
      else (record state { heap = heap }, none)
