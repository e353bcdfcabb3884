-- ===== src/Snapshots/Reads.antt =====
-- The read of the current state in src/store.rs, against the fold of all events, and the windows and counters
-- that it keeps.
use fossic.Prelude.{
  ℕ, ◌%◌, ◌<◌, ◌≤◌, ◌≡◌, refl, sym, ◌∙◌, List, [], ◌∷◌, Option, none, some, leb, length, Bool-cases,
  inl, inr, arith,
}
use fossic.Prelude.Lex.{same_refl}
use fossic.Prelude.Words.{Bytes}
use fossic.Text.{Str}
use fossic.Error.{Error, no_events_to_snapshot, Result, ok, err, Result-cases}
use fossic.Env.{Env}
use fossic.Tables.{StoredEvent, Db}
use fossic.Append.{next_version}
use fossic.Append.Log.{IsUnique}
use fossic.Read.{i64_max}
use fossic.Reducers.{BoxedReducer, ReducerEntry, ReducerRegistry, every_n_events, find_entry}
use fossic.Snapshots.{
  SnapshotInfo, apply_reducer_guarded, apply_events, compute_state_bytes, fold_state, take_snapshot,
}
use fossic.Snapshots.State.{full_state, HasSettled, fold_state-full}
use fossic.Snapshots.Auto.{
  Keyed, is_key, get_at, put_at, StoreState, u32_add, snapshot_result, snapshot_now, with_counter,
  maybe_auto_snapshot, update_state_monitor, apply_monitored, and_return, finish_read, read_with,
  read_state_bytes,
}

-- The bytes of the monitored loop are those of the plain one.
apply_monitored-apply_events :
    (cost_of : StoredEvent → ℕ) (reducer : BoxedReducer) (s b : Str) (state : StoreState)
    (bytes : Bytes) (events : List StoredEvent)
    → (apply_monitored cost_of reducer s b state bytes events).1
      ≡ apply_events reducer s bytes events
unfolding apply_monitored apply_events
apply_monitored-apply_events cost_of reducer s b state bytes [] = refl
apply_monitored-apply_events cost_of reducer s b state bytes (e ∷ es) =
    elim (Result-cases (apply_reducer_guarded reducer bytes e s)) [
      | inl (next, applied) ↦
          rw (applied, apply_monitored)
            (apply_monitored-apply_events cost_of reducer s b
              (update_state_monitor state s b (length next) (cost_of e)) next es)
      | inr (x, failed) ↦ rw (failed, apply_monitored) refl
    ]

module _ (env : Env) (registry : ReducerRegistry) (cost_of : StoredEvent → ℕ) (now : ℕ) where
  finish_read-ok :
      (threshold : Option ℕ) (s b : Str) (n : ℕ) (entry : ReducerEntry)
      (r : StoreState × Result Error Bytes) (bytes : Bytes)
      → (finish_read env registry cost_of now threshold s b n entry.policy r).1 ≡ ok bytes
      → r.1 ≡ ok bytes
  finish_read-ok threshold s b n entry (state, err e) bytes h = absurd (cc)
  finish_read-ok threshold s b n entry (state, ok found) bytes h = and_return-ok _ found bytes h
    where
      and_return-ok :
          (r : StoreState × Result Error (Unit {0})) (found bytes : Bytes)
          → (and_return env registry cost_of now found r).1 ≡ ok bytes
          → ◌≡◌ {A = Result Error Bytes} (ok found) (ok bytes)
      and_return-ok (state, ok _) found bytes h = h
      and_return-ok (state, err e) found bytes h = absurd (cc)

  read_with-fold :
      (threshold : Option ℕ) (state : StoreState) (s b : Str) (entry : ReducerEntry) (bytes : Bytes)
      → (read_with env registry cost_of now threshold state s b entry).1 ≡ ok bytes
      → fold_state state.db entry.reducer s b none ≡ ok bytes
  unfolding fold_state
  read_with-fold threshold state s b entry bytes h =
      elim (Result-cases (compute_state_bytes state.db entry.reducer s b none)) [
        | inr (e, failed) ↦ absurd (no_bytes state e bytes (rw (failed, read_with) at h))
        | inl ((start, events), computed) ↦ rw computed (
            sym (apply_monitored-apply_events cost_of entry.reducer s b state start events)
            ∙ finish_read-ok threshold s b (length events % 4294967296) entry
                (apply_monitored cost_of entry.reducer s b state start events) bytes
                (rw (computed, read_with) at h))
      ]
    where
      no_bytes :
          (state : StoreState) (e : Error) (bytes : Bytes)
          → ◌≡◌ {A = Result Error Bytes} (err e) (ok bytes)
          → ⊥
      no_bytes state e bytes h = cc

  -- Where event positions are unique, the branch has used no version of 2 ^ 63 - 1 or more, and the snapshots of the
  -- stream's reducer hold the state of the fold up to their version, one that their branch has, a read of the current state that succeeds returns the fold of the stored payloads of all events of the
  -- branch from the initial state, whatever the monitor and the automatic snapshots do.
  pub read_state_bytes-full :
      (threshold : Option ℕ) (state : StoreState) (s b : Str) (entry : ReducerEntry) (bytes : Bytes)
      → IsUnique state.db.events
      → next_version s b state.db.events ≤ i64_max
      → HasSettled entry.reducer state.db
      → find_entry registry s ≡ some entry
      → (read_state_bytes env registry cost_of now threshold state s b).1 ≡ ok bytes
      → full_state state.db entry.reducer s b none ≡ ok bytes
  unfolding read_state_bytes
  read_state_bytes-full threshold state s b entry bytes u room settled found h =
      sym (fold_state-full state.db entry.reducer s b none u room settled)
      ∙ read_with-fold threshold state s b entry bytes (rw (found, read_state_bytes) at h)

get_at-put_at :
    {V : Type 0} (s b : Str) (v missing : V) (items : Keyed V)
    → get_at s b missing (put_at s b v items) ≡ v
unfolding get_at put_at
get_at-put_at s b v missing [] = rw (same_refl s, same_refl b) refl
get_at-put_at s b v missing (item ∷ items) = elim (Bool-cases (is_key s b item)) [
  | inl t ↦ rw t (rw t refl)
  | inr t ↦ rw t (rw t (get_at-put_at s b v missing items))
]

snapshot_result-counters :
    (registry : ReducerRegistry) (now : ℕ) (state : StoreState)
    (r : Result Error (SnapshotInfo × Db))
    → (snapshot_result registry now state r).0.snapshot_counters ≡ state.snapshot_counters
snapshot_result-counters registry now state (ok (info, db')) = refl
snapshot_result-counters registry now state (err (no_events_to_snapshot s b)) = refl
snapshot_result-counters registry now state (err e) = refl

-- With the policy of a snapshot every `n` events, `n` at least 1, the counter of the stream and branch is
-- below `n` after every read that is counted, whether or not a snapshot is taken and succeeds.
pub maybe_auto_snapshot-lt :
    (registry : ReducerRegistry) (now : ℕ) (state : StoreState) (s b : Str) (applied n : ℕ)
    → 0 < n
    → get_at s b 0
        (maybe_auto_snapshot registry now state s b applied (every_n_events n)).0.snapshot_counters
      < n
unfolding maybe_auto_snapshot snapshot_now
maybe_auto_snapshot-lt registry now state s b applied n pos =
    let counter = u32_add (get_at s b 0 state.snapshot_counters) applied in
    elim (Bool-cases (leb n counter)) [
      | inl due ↦ rw due (
          rw
            (
              snapshot_result-counters registry now (with_counter state s b 0)
                  (take_snapshot state.db registry s b now),
              get_at-put_at s b 0 0 state.snapshot_counters,
            )
            pos)
      | inr early ↦
          rw early
            (rw (get_at-put_at s b counter 0 state.snapshot_counters) (ground (arith, early)))
    ]
