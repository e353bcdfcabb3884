-- ===== src/Tests/Background.antt =====
-- The theorems on the system stream, the state monitor and the executor at small data.
use fossic.Prelude.{
  ℕ, ◌≡◌, ◌<◌, ◌≤◌, refl, Bool, true, false, List, [], ◌∷◌, Option, none, some, arith, All,
}
use fossic.Text.{codes}
use fossic.Json
use fossic.Error.{ok, ◌>>=◌}
use fossic.Tables.{Db}
use fossic.Append.{append_impl, next_version}
use fossic.Read.{i64_max}
use fossic.Reducers.{BoxedReducer, ReducerEntry, every_n_events, find_entry, returned}
use fossic.Snapshots.State.{full_state}
use fossic.Snapshots.Auto.{StoreState, get_at, maybe_auto_snapshot, read_state_bytes}
use fossic.Snapshots.Reads.{read_state_bytes-full, maybe_auto_snapshot-lt}
use fossic.SystemStream.{system_stream, emit}
use fossic.SystemStream.Emit.{system_append, after, emit-append_impl}
use fossic.Executor.{
  BacklogTask, low, normal, high, gc_orphan_snapshots, take_snapshot_of, pop, QuiescenceMonitor,
  Background, Tick, turn,
}
use fossic.Executor.Rounds.{rounds, executed, IsOrder, rounds-IsOrder}
use fossic.Tests.{small, notes, notes_info, declared, two_events}

abbrev with_system : Db
with_system = record declared { streams = record notes_info { id = system_stream } ∷ [] }

system_declared : fossic.Stream.stream_exists with_system system_stream ≡ true
unfolding fossic.Stream.stream_exists fossic.Prelude.Lex.same
system_declared = refl

emit-append_impl_example :
    emit small with_system (codes "x") Json.null none 7
    ≡ after with_system (
        small.to_vec Json.null >>= λ bytes.
        append_impl small with_system
          (system_append (codes "x") Json.null none 7)
          Json.null
          bytes
          7)
unfolding fossic.Append.check_tags
emit-append_impl_example =
    emit-append_impl small with_system (codes "x") Json.null none 7 system_declared refl

abbrev collector : BoxedReducer
collector = record {
  name = codes "collect";
  version = 1;
  state_schema_version = 1;
  initial_state_bytes = ok [];
  apply_bytes = λ state payload. returned (ok payload);
}

abbrev collector_entry : ReducerEntry
collector_entry = record {
  pattern = codes "**";
  specificity = 0;
  reducer = collector;
  policy = every_n_events 5;
}

abbrev opened : StoreState
opened = record {
  db = two_events;
  snapshot_counters = ((notes, codes "main"), 4) ∷ [];
  last_snapshot_us = [];
  state_monitors = [];
  store_open_us = 1;
  scheduled = [];
}

maybe_auto_snapshot-lt_example :
    get_at notes
      (codes "main")
      0
      (maybe_auto_snapshot
        (collector_entry ∷ [])
        30
        opened
        notes
        (codes "main")
        2
        (every_n_events 5)).0.snapshot_counters
    < 5
maybe_auto_snapshot-lt_example =
    maybe_auto_snapshot-lt (collector_entry ∷ []) 30 opened notes (codes "main") 2 5 (omega arith)

entry_found : find_entry (collector_entry ∷ []) notes ≡ some collector_entry
unfolding find_entry fossic.Glob.matches fossic.Prelude.Lex.same
entry_found = refl

state_read :
    (read_state_bytes small
      (collector_entry ∷ [])
      (λ e. 3)
      30
      (some 1000)
      opened
      notes
      (codes "main")).1
    ≡ ok (193 ∷ 194 ∷ [])
unfolding read_state_bytes fossic.Glob.matches fossic.Prelude.Lex.same fossic.Prelude.Order.order_by
state_read = refl

two-IsUnique : fossic.Append.Log.IsUnique two_events.events
unfolding fossic.Prelude.Lex.same
two-IsUnique = ((refl, tt), (tt, tt))

few_versions : next_version notes (codes "main") two_events.events ≤ i64_max
unfolding next_version fossic.Prelude.Lex.same
few_versions = omega arith

read_state_bytes-full_example :
    full_state two_events collector notes (codes "main") none ≡ ok (193 ∷ 194 ∷ [])
read_state_bytes-full_example =
    read_state_bytes-full small (collector_entry ∷ []) (λ e. 3) 30 (some 1000) opened notes
      (codes "main") collector_entry (193 ∷ 194 ∷ []) two-IsUnique few_versions tt entry_found
      state_read

abbrev sweep : BacklogTask
sweep = record {
  priority = low;
  deadline_us = 9;
  persist_on_drop = false;
  kind = gc_orphan_snapshots;
  recurring_interval = none;
}

abbrev urgent : BacklogTask
urgent = record sweep { priority = high; kind = take_snapshot_of notes (codes "main") }

abbrev idle : Background
idle = record { heap = sweep ∷ urgent ∷ []; db = two_events; last_snapshot_us = []; running = true }

abbrev quiet_monitor : QuiescenceMonitor
quiet_monitor = record { last_write_us = 1; last_subscription_dispatch_us = 2 }

abbrev tick_at : ℕ → Tick
tick_at now = record { now = now; received = []; stop = false; store_is_alive = true }

abbrev two_ticks : List Tick
two_ticks = tick_at 20 ∷ tick_at 25 ∷ []

rounds-IsOrder_example :
    IsOrder (rounds small (collector_entry ∷ []) quiet_monitor 10 idle two_ticks).1 idle.heap
    × ((rounds small (collector_entry ∷ []) quiet_monitor 10 idle two_ticks).0
        ≡ record (executed small
            (collector_entry ∷ [])
            quiet_monitor
            10
            two_ticks
            (rounds small (collector_entry ∷ []) quiet_monitor 10 idle two_ticks).1
            idle) { heap = [] })
unfolding fossic.Executor.is_quiescent
rounds-IsOrder_example =
    rounds-IsOrder small (collector_entry ∷ []) quiet_monitor 10 idle two_ticks
      ((refl, (refl, refl), refl), ((refl, (refl, refl), refl), tt)) (refl, (refl, tt)) refl
