-- ===== src/Snapshots/State.antt =====
-- The states that src/store.rs folds from a snapshot, against the fold over all events.
use fossic.Prelude.{
  ℕ, ◌+◌, ◌<◌, ◌≤◌, ◌≡◌, refl, sym, ◌∙◌, ap, subst, true, ◌&&◌, List, [], ◌∷◌, ◌++◌, Option, none,
  some, keep, ◌==◌, All, All-keep_mono, All-last, Option-cases, inl, inr, last, arith,
}
use fossic.Prelude.Lex.{same, same_iff}
use fossic.Prelude.Words.{Bytes}
use fossic.Prelude.Order.{order_by, All-order_by}
use fossic.Text.{Str}
use fossic.Error.{Error, Result, ok, err, ◌>>=◌, Result-cases}
use fossic.Tables.{StoredEvent, Snapshot, Db}
use fossic.Append.{next_version}
use fossic.Append.Log.{IsUnique}
use fossic.Reducers.{BoxedReducer, ReducerRegistry}
use fossic.Read.{i64_max, up_to}
use fossic.Snapshots.{
  snapshot_version, snapshot_matches, version_and_blob, find_latest_snapshot, apply_reducer_guarded,
  apply_events, compute_state_bytes, fold_state, get_reducer, read_state_bytes_at_version,
}
use fossic.Snapshots.Range.{events_between, events_between-split}

-- The fold of all events up to a version, or of all, from the initial state.
abbrev pub full_state : Db → BoxedReducer → Str → Str → Option ℕ → Result Error Bytes
full_state db reducer s b max =
    reducer.initial_state_bytes >>= λ i. apply_events reducer s i (events_between db s b 0 max)

-- A snapshot of the reducer, by name and schema version, holds the full state at its version.
abbrev pub IsFolded : Db → BoxedReducer → Snapshot → Type 0
IsFolded db reducer p =
    (same p.reducer_name reducer.name && p.state_schema_version == reducer.state_schema_version)
      ≡ true
    → full_state db reducer p.stream_id p.branch (some p.version) ≡ ok p.state_blob

-- A snapshot of the reducer holds the state of the fold up to its version, and its version is one
-- that its branch already has.
abbrev pub IsSettled : Db → BoxedReducer → Snapshot → Type 0
IsSettled db reducer p =
    (p.version < next_version p.stream_id p.branch db.events) × IsFolded db reducer p

abbrev pub HasSettled : BoxedReducer → Db → Type 0
HasSettled reducer db = All (IsSettled db reducer) db.snapshots

apply_events-append :
    (reducer : BoxedReducer) (s : Str) (state : Bytes) (xs ys : List StoredEvent)
    → apply_events reducer s state (xs ++ ys)
      ≡ (apply_events reducer s state xs >>= λ state'. apply_events reducer s state' ys)
unfolding apply_events
apply_events-append reducer s state [] ys = refl
apply_events-append reducer s state (e ∷ xs) ys =
    elim (Result-cases (apply_reducer_guarded reducer state e s)) [
      | inl (state', h) ↦ rw h (apply_events-append reducer s state' xs ys)
      | inr (x, h) ↦ rw h refl
    ]

-- What is found has a version within the bound and holds the full state there.
abbrev pub IsSound : Db → BoxedReducer → Str → Str → Option ℕ → Snapshot → Type 0
IsSound db reducer s b max p =
    (up_to max p.version ≡ true)
    × (p.version < next_version s b db.events)
    × (full_state db reducer s b (some p.version) ≡ ok p.state_blob)

IsSettled-IsSound :
    (db : Db) (reducer : BoxedReducer) (s b : Str) (max : Option ℕ) (p : Snapshot)
    → IsSettled db reducer p
    → snapshot_matches s b reducer.name reducer.state_schema_version max p ≡ true
    → IsSound db reducer s b max p
IsSettled-IsSound db reducer s b max p (below, folded) h =
    let at_s : p.stream_id ≡ s = ground (arith, same_iff p.stream_id s) in
    let at_b : p.branch ≡ b = ground (arith, same_iff p.branch b) in
    (
      ground (arith, h),
      subst (λ t. p.version < next_version t b db.events) at_s
          (subst (λ c. p.version < next_version p.stream_id c db.events) at_b below),
      subst (λ t. full_state db reducer t b (some p.version) ≡ ok p.state_blob) at_s
          (subst (λ c. full_state db reducer p.stream_id c (some p.version) ≡ ok p.state_blob) at_b
            (folded (ground (arith, h)))),
    )

picked :
    (o : Option Snapshot) (v : ℕ) (blob : Bytes)
    → version_and_blob o ≡ some (v, blob)
    → (p : Snapshot) × (o ≡ some p) × (p.version ≡ v) × (p.state_blob ≡ blob)
picked none v blob h = absurd (cc)
picked (some p) v blob h = (p, refl, cc, cc)

start_initial :
    (db : Db) (reducer : BoxedReducer) (s b : Str) (max : Option ℕ) (initial : Result Error Bytes)
    → (initial
        >>= (λ bytes. ok (0, bytes))
        >>= (λ (x : ℕ × Bytes). ok (x.1, events_between db s b x.0 max))
        >>= λ (y : Bytes × List StoredEvent). apply_events reducer s y.0 y.1)
      ≡ (initial >>= λ i. apply_events reducer s i (events_between db s b 0 max))
start_initial db reducer s b max (ok i) = refl
start_initial db reducer s b max (err e) = refl

latest-IsSound :
    (db : Db) (reducer : BoxedReducer) (s b : Str) (max : Option ℕ) (v : ℕ) (blob : Bytes)
    → HasSettled reducer db
    → find_latest_snapshot db s b reducer.name reducer.state_schema_version max ≡ some (v, blob)
    → (up_to max v ≡ true)
      × (v < next_version s b db.events)
      × (full_state db reducer s b (some v) ≡ ok blob)
unfolding find_latest_snapshot
latest-IsSound db reducer s b max v blob folded h =
    let rows =
      order_by snapshot_version
        (keep (snapshot_matches s b reducer.name reducer.state_schema_version max) db.snapshots) in
    let sound : All (IsSound db reducer s b max) rows =
      All-order_by snapshot_version (IsSound db reducer s b max) _ (
        All-keep_mono (IsSettled db reducer) (IsSound db reducer s b max) _ db.snapshots
          (λ p f m. IsSettled-IsSound db reducer s b max p f m) folded) in
    let (p, e, version, state) = picked (last rows) v blob h in
    let (bound, below, full) = All-last (IsSound db reducer s b max) rows p sound e in
    (
      subst (λ n. up_to max n ≡ true) version bound,
      subst (λ n. n < next_version s b db.events) version below,
      ap (λ n. full_state db reducer s b (some n)) (sym version) ∙ full ∙ ap ok state,
    )

-- The full state goes on from the full state at an earlier version.
full_state-resume :
    (db : Db) (reducer : BoxedReducer) (s b : Str) (v : ℕ) (max : Option ℕ)
    → IsUnique db.events
    → up_to max v ≡ true
    → v < i64_max
    → full_state db reducer s b max ≡ (
        full_state db reducer s b (some v) >>= λ state.
        apply_events reducer s state (events_between db s b (v + 1) max))
unfolding apply_events
full_state-resume db reducer s b v max u bound fits =
    elim (Result-cases reducer.initial_state_bytes) [
      | inl (i, h) ↦ rw h (
          ap (apply_events reducer s i) (events_between-split db s b v max u bound fits)
          ∙ apply_events-append reducer s i (events_between db s b 0 (some v))
              (events_between db s b (v + 1) max))
      | inr (e, h) ↦ rw h refl
    ]

-- Folding from the latest snapshot gives what folding everything gives.
pub fold_state-full :
    (db : Db) (reducer : BoxedReducer) (s b : Str) (max : Option ℕ)
    → IsUnique db.events
    → next_version s b db.events ≤ i64_max
    → HasSettled reducer db
    → fold_state db reducer s b max ≡ full_state db reducer s b max
unfolding fold_state compute_state_bytes
fold_state-full db reducer s b max u room folded =
    elim (Option-cases
      (find_latest_snapshot db s b reducer.name reducer.state_schema_version max)) [
        | inl none_found ↦
            rw none_found (start_initial db reducer s b max reducer.initial_state_bytes)
        | inr ((v, blob), found) ↦
            (let (bound, below, full) = latest-IsSound db reducer s b max v blob folded found in
              rw found (
                sym (
                  full_state-resume db reducer s b v max u bound (omega (arith, room, below))
                  ∙ ap
                      (λ m. m >>= λ state.
                        apply_events reducer s state (events_between db s b (v + 1) max))
                      full)))
      ]

-- Where event positions are unique, the branch has used no version of 2 ^ 63 - 1 or more, and every snapshot
-- of the reducer holds the state of the fold up to its version, one that its branch has, the state that is
-- read at a version is the fold, from the reducer's initial state, of the stored payloads of all events
-- up to that version, or of none if the version is 2 ^ 63 or more: the reads with snapshots succeed and fail as
-- those without, with equal results.
pub read_state_bytes_at_version-full :
    (db : Db) (registry : ReducerRegistry) (reducer : BoxedReducer) (s b : Str) (v : ℕ)
    → IsUnique db.events
    → next_version s b db.events ≤ i64_max
    → HasSettled reducer db
    → get_reducer registry s ≡ ok reducer
    → read_state_bytes_at_version db registry s b v ≡ full_state db reducer s b (some v)
unfolding read_state_bytes_at_version
read_state_bytes_at_version-full db registry reducer s b v u room settled found =
    rw found (fold_state-full db reducer s b (some v) u room settled)
