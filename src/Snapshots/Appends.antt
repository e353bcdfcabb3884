-- ===== src/Snapshots/Appends.antt =====
-- The snapshots of src/snapshots.rs under the appends of src/append.rs.
use fossic.Prelude.{
  ℕ, ◌<◌, ◌≡◌, refl, sym, ◌∙◌, ap, subst, false, List, [], ◌∷◌, ◌++◌, some, keep, keep-append,
  All-mono, Bool-cases, inl, inr, arith, append-nil,
}
use fossic.Prelude.Words.{Bytes}
use fossic.Prelude.Order.{order_by}
use fossic.Text.{Str}
use fossic.Env.{Env}
use fossic.Json.{Value}
use fossic.Error.{ok, ◌>>=◌}
use fossic.Tables.{StoredEvent, Append, Snapshot, Db}
use fossic.Append.{AppendOutcome, at_stream, next_version, append_impl}
use fossic.Append.Log.{at_stream-eq, next_version-grows}
use fossic.Append.Outcome.{row_of, with_row, append_impl-Appended, Appended-cases}
use fossic.Reducers.{BoxedReducer}
use fossic.Read.{in_range, version_of, read_range_impl, select_range}
use fossic.Snapshots.{apply_events, fold_query}
use fossic.Snapshots.Range.{events_between}
use fossic.Snapshots.State.{IsSettled, HasSettled}

out_of_range :
    (es : List StoredEvent) (s b : Str) (v : ℕ) (new : StoredEvent)
    → v < next_version s b es
    → new.version ≡ next_version new.stream_id new.branch es
    → in_range (fold_query s b 0 (some v)) 0 new ≡ false
out_of_range es s b v new lt at = elim (Bool-cases (at_stream s b new)) [
  | inl here ↦
      (let (es_s, es_b) = at_stream-eq s b new here in
        let next : new.version ≡ next_version s b es =
          at ∙ ap (λ t. next_version t new.branch es) es_s ∙ ap (λ c. next_version s c es) es_b in
        ground (arith, next, lt))
  | inr other ↦ rw other refl
]

events_between-push :
    (db db' : Db) (s b : Str) (v : ℕ) (new : StoredEvent)
    → v < next_version s b db.events
    → new.version ≡ next_version new.stream_id new.branch db.events
    → db'.events ≡ db.events ++ new ∷ []
    → events_between db' s b 0 (some v) ≡ events_between db s b 0 (some v)
unfolding read_range_impl select_range
events_between-push db db' s b v new lt at pushed =
    let test = in_range (fold_query s b 0 (some v)) 0 in
    ap (order_by version_of) (
      ap (keep test) pushed
      ∙ keep-append test db.events (new ∷ [])
      ∙ rw (out_of_range db.events s b v new lt at) (append-nil (keep test db.events)))

IsSettled-push :
    (db db' : Db) (reducer : BoxedReducer) (p : Snapshot) (new : StoredEvent)
    → new.version ≡ next_version new.stream_id new.branch db.events
    → db'.events ≡ db.events ++ new ∷ []
    → IsSettled db reducer p
    → IsSettled db' reducer p
IsSettled-push db db' reducer p new at pushed (lt, folded) =
    let grows = next_version-grows p.stream_id p.branch db.events new at in
    (
      subst (λ es. p.version < next_version p.stream_id p.branch es) (sym pushed)
          (omega (arith, lt, grows)),
      λ mine.
          ap (λ es. reducer.initial_state_bytes >>= λ i. apply_events reducer p.stream_id i es)
            (events_between-push db db' p.stream_id p.branch p.version new lt at pushed)
          ∙ folded mine,
    )

-- If every snapshot of a reducer holds the state of the fold up to its version, a version that its
-- branch already has, this is still so after a successful append to any stream.
pub append_impl-HasSettled :
    (env : Env) (db db' : Db) (a : Append) (payload : Value) (bytes : Bytes) (now : ℕ)
    (o : AppendOutcome) (reducer : BoxedReducer)
    → HasSettled reducer db
    → append_impl env db a payload bytes now ≡ ok (o, db')
    → HasSettled reducer db'
append_impl-HasSettled env db db' a payload bytes now o reducer settled h =
    let row = row_of env db a o.event_id o.timestamp_us bytes in
    Appended-cases env (HasSettled reducer) db db' a payload bytes now o
      (append_impl-Appended env db db' a payload bytes now o h) (λ _ _. settled)
      (λ _ _.
        All-mono (IsSettled db reducer) (IsSettled (with_row env db row) reducer) db.snapshots
          (λ p. IsSettled-push db (with_row env db row) reducer p row refl refl) settled)
