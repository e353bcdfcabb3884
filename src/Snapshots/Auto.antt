-- ===== src/Snapshots/Auto.antt =====
-- The reads of the current state in src/store.rs, with the state monitor and the automatic snapshots that
-- they drive.
-- A map by stream and branch is an association list. The time that an application of the reducer takes is
-- a function of the event, and the clock is read once. `none` as a threshold is `usize::MAX`.
use fossic.Prelude.{
  ℕ, ◌+◌, ◌*◌, ◌/◌, ◌%◌, Bool, ◌&&◌, List, [], ◌∷◌, ◌++◌, Option, none, some, ltb, leb, drop,
  length, if◌then◌else◌,
}
use fossic.Prelude.Lex.{same}
use fossic.Prelude.Words.{Bytes}
use fossic.Text.{Str, codes}
use fossic.Json
use fossic.Json.{Value}
use fossic.Error.{Error, no_events_to_snapshot, reducer_not_found, Result, ok, err}
use fossic.Env.{Env}
use fossic.Tables.{StoredEvent, Db}
use fossic.Reducers.{
  BoxedReducer, ReducerEntry, ReducerRegistry, SnapshotPolicy, manual, every_n_events,
  every_n_seconds, state_adaptive, find_entry,
}
use fossic.Snapshots.{SnapshotInfo, apply_reducer_guarded, compute_state_bytes, take_snapshot}
use fossic.SystemStream.{emit}

abbrev pub Keyed : Type 0 → Type 0
Keyed V = List ((Str × Str) × V)

module _ {V : Type 0} where
  abbrev pub is_key : Str → Str → (Str × Str) × V → Bool
  is_key s b item = same item.0.0 s && same item.0.1 b

  -- `get(..)`, with what stands for a missing key
  unfoldable pub get_at : Str → Str → V → Keyed V → V
  get_at s b missing [] = missing
  get_at s b missing (item ∷ items) = if is_key s b item then item.1 else get_at s b missing items

  -- `insert(..)`
  unfoldable pub put_at : Str → Str → V → Keyed V → Keyed V
  put_at s b v [] = ((s, b), v) ∷ []
  put_at s b v (item ∷ items) =
      let rest = put_at s b v items in if is_key s b item then (item.0, v) ∷ items else item ∷ rest

pub record StateMonitor : Type 0 where
  pub state_sizes : List ℕ
  pub last_emission_us : ℕ
  pub apply_costs_us : List ℕ

abbrev pub no_monitor : StateMonitor
no_monitor = record { state_sizes = []; last_emission_us = 0; apply_costs_us = [] }

abbrev pub window : ℕ
window = 32

-- `if len() >= 32 { remove(0); } push(..)`
unfoldable pub push_window : List ℕ → ℕ → List ℕ
push_window xs x = (if leb window (length xs) then drop 1 xs else xs) ++ x ∷ []

abbrev pub sum : List ℕ → ℕ
sum [] = 0
sum (x ∷ xs) = x + sum xs

unfoldable pub mean : List ℕ → ℕ
mean [] = 0
mean (x ∷ xs) = sum (x ∷ xs) / length (x ∷ xs)

unfoldable pub push_costs : StateMonitor → ℕ → ℕ → StateMonitor
unfolding push_window
push_costs m size cost = record m {
  state_sizes = push_window m.state_sizes size;
  apply_costs_us = push_window m.apply_costs_us cost;
}

-- What the store keeps beside the database, and the snapshots that it asked its executor for.
pub record StoreState : Type 0 where
  pub db : Db
  pub snapshot_counters : Keyed ℕ
  pub last_snapshot_us : Keyed ℕ
  pub state_monitors : Keyed StateMonitor
  pub store_open_us : ℕ
  pub scheduled : List (Str × Str)

-- `u64::MAX`
abbrev pub u64_max : ℕ
u64_max = 18446744073709551615

abbrev pub saturating_mul : ℕ → ℕ → ℕ
saturating_mul a b = if ltb u64_max (a * b) then u64_max else a * b

abbrev pub u32_add : ℕ → ℕ → ℕ
u32_add a b = (a + b) % 4294967296

abbrev pub with_counter : StoreState → Str → Str → ℕ → StoreState
with_counter state s b n = record state { snapshot_counters = put_at s b n state.snapshot_counters }

module _ (registry : ReducerRegistry) (now : ℕ) where
  -- A stream without new events is passed over; other errors are returned, and what was counted stays.
  abbrev pub snapshot_result :
      StoreState → Result Error (SnapshotInfo × Db) → StoreState × Result Error (Unit {0})
  snapshot_result state (ok (info, db')) = (record state { db = db' }, ok tt)
  snapshot_result state (err (no_events_to_snapshot s b)) = (state, ok tt)
  snapshot_result state (err e) = (state, err e)

  unfoldable pub snapshot_now : StoreState → Str → Str → StoreState × Result Error (Unit {0})
  unfolding take_snapshot
  snapshot_now state s b = snapshot_result state (take_snapshot state.db registry s b now)

  unfoldable pub maybe_auto_snapshot :
      StoreState → Str → Str → ℕ → SnapshotPolicy → StoreState × Result Error (Unit {0})
  unfolding get_at put_at snapshot_now mean
  maybe_auto_snapshot state s b events_applied (every_n_events n) =
      let counter = u32_add (get_at s b 0 state.snapshot_counters) events_applied in
      if leb n counter
      then snapshot_now (with_counter state s b 0) s b
      else (with_counter state s b counter, ok tt)
  maybe_auto_snapshot state s b events_applied (state_adaptive target min_events) =
      let accumulated = u32_add (get_at s b 0 state.snapshot_counters) events_applied in
      let avg_cost = mean (get_at s b no_monitor state.state_monitors).apply_costs_us in
      if ltb accumulated min_events
      then (with_counter state s b accumulated, ok tt)
      else if ltb target (saturating_mul accumulated avg_cost)
      then snapshot_now (with_counter state s b 0) s b
      else (with_counter state s b accumulated, ok tt)
  maybe_auto_snapshot state s b events_applied (every_n_seconds n) =
      let last = get_at s b state.store_open_us state.last_snapshot_us in
      if leb (last + n * 1000000) now
      then (
        record state {
          last_snapshot_us = put_at s b now state.last_snapshot_us;
          scheduled = state.scheduled ++ (s, b) ∷ [];
        },
        ok tt,
      )
      else (state, ok tt)
  maybe_auto_snapshot state s b events_applied manual = (state, ok tt)

unfoldable pub update_state_monitor : StoreState → Str → Str → ℕ → ℕ → StoreState
unfolding get_at put_at push_costs
update_state_monitor state s b state_len cost = record state {
  state_monitors =
      put_at s b (push_costs (get_at s b no_monitor state.state_monitors) state_len cost)
        state.state_monitors;
}

abbrev pub large_payload : Str → Str → ℕ → ℕ → Value
large_payload s b mean_size threshold = Json.object (
    Json.field (codes "branch") (Json.string b) (
      Json.field (codes "mean_state_bytes") (Json.number (Json.int mean_size)) (
        Json.field (codes "stream_id") (Json.string s)
          (Json.field (codes "threshold_bytes") (Json.number (Json.int threshold)) Json.end))))

module _ (env : Env) (now : ℕ) where
  -- A monitor that is missing has a mean of 0.
  unfoldable pub maybe_emit_state_large : Option ℕ → StoreState → Str → Str → StoreState
  unfolding get_at put_at mean emit
  maybe_emit_state_large none state s b = state
  maybe_emit_state_large (some threshold) state s b =
      let m = get_at s b no_monitor state.state_monitors in
      let mean_size = mean m.state_sizes in
      if leb mean_size threshold
      then state
      else if ltb now (m.last_emission_us + 60000000)
      then state
      else record state {
        state_monitors = put_at s b (record m { last_emission_us = now }) state.state_monitors;
        db =
            emit env state.db (codes "ReducerStateLarge") (large_payload s b mean_size threshold)
              none now;
      }

-- the loop over the events, which also feeds the monitor
unfoldable pub apply_monitored :
    (StoredEvent → ℕ)
    → BoxedReducer
    → Str
    → Str
    → StoreState
    → Bytes
    → List StoredEvent
    → StoreState × Result Error Bytes
unfolding apply_reducer_guarded update_state_monitor
apply_monitored cost_of reducer s b state bytes [] = (state, ok bytes)
apply_monitored cost_of reducer s b state bytes (event ∷ events) =
    elim (apply_reducer_guarded reducer bytes event s) [
      | err e ↦ (state, err e)
      | ok bytes' ↦
          apply_monitored cost_of reducer s b
            (update_state_monitor state s b (length bytes') (cost_of event)) bytes' events
    ]

module _ (env : Env) (registry : ReducerRegistry) (cost_of : StoredEvent → ℕ) (now : ℕ) where
  abbrev pub and_return :
      Bytes → StoreState × Result Error (Unit {0}) → StoreState × Result Error Bytes
  and_return bytes (state, ok _) = (state, ok bytes)
  and_return bytes (state, err e) = (state, err e)

  -- after the loop
  abbrev pub finish_read :
      Option ℕ
      → Str
      → Str
      → ℕ
      → SnapshotPolicy
      → StoreState × Result Error Bytes
      → StoreState × Result Error Bytes
  finish_read threshold s b events_applied policy (state, err e) = (state, err e)
  finish_read threshold s b events_applied policy (state, ok bytes) = and_return bytes (
      maybe_auto_snapshot registry now (maybe_emit_state_large env now threshold state s b) s b
        events_applied policy)

  abbrev pub read_with :
      Option ℕ → StoreState → Str → Str → ReducerEntry → StoreState × Result Error Bytes
  read_with threshold state s b entry = elim (compute_state_bytes state.db entry.reducer s b none) [
    | err e ↦ (state, err e)
    | ok (bytes, events) ↦
        finish_read threshold s b (length events % 4294967296) entry.policy
          (apply_monitored cost_of entry.reducer s b state bytes events)
  ]

  unfoldable pub read_state_bytes :
      Option ℕ → StoreState → Str → Str → StoreState × Result Error Bytes
  unfolding find_entry compute_state_bytes apply_monitored maybe_auto_snapshot
      maybe_emit_state_large
  read_state_bytes threshold state s b = elim (find_entry registry s) [
    | none ↦ (state, err (reducer_not_found s))
    | some entry ↦ read_with threshold state s b entry
  ]
