-- ===== src/Snapshots/Range.antt =====
-- The events that a fold of src/store.rs reads, divided at a version.
use fossic.Prelude.{
  ℕ, suc, ◌+◌, ◌<◌, ◌≡◌, ◌∙◌, ap, ap₂, Bool, true, ◌&&◌, List, ◌++◌, Option, none, some, leb, keep,
  keep-cong, keep-keep, arith,
}
use fossic.Prelude.Order.{order_by, keep-split, keep-order_by}
use fossic.Text.{Str}
use fossic.Tables.{StoredEvent, Db}
use fossic.Append.Log.{IsUnique}
use fossic.Read.{ReadQuery, i64_max, in_range, version_of, up_to, select_range, read_range_impl}
use fossic.Read.Page.{in_range-IsDistinct, select_range-IsAscending}
use fossic.Snapshots.{fold_query}

-- The events of a branch from one version to another.
abbrev pub events_between : Db → Str → Str → ℕ → Option ℕ → List StoredEvent
events_between db s b from max = read_range_impl db (fold_query s b from max)

-- A selection from the rows of a query is the rows of the narrower query.
pub keep-select_range :
    (db : Db) (q q' : ReadQuery) (from from' : ℕ) (test : StoredEvent → Bool)
    → IsUnique db.events
    → ((e : StoredEvent) → (in_range q from e && test e) ≡ in_range q' from' e)
    → keep test (select_range db q from) ≡ select_range db q' from'
unfolding select_range
keep-select_range db q q' from from' test u h =
    keep-order_by version_of test (keep (in_range q from) db.events)
      (in_range-IsDistinct q from db.events u)
    ∙ ap (order_by version_of) (
        keep-keep test (in_range q from) db.events
        ∙ keep-cong (λ e. in_range q from e && test e) (in_range q' from') db.events h)

low_events :
    (s b : Str) (max : Option ℕ) (v : ℕ) (e : StoredEvent)
    → up_to max v ≡ true
    → (in_range (fold_query s b 0 max) 0 e && leb e.version v)
      ≡ in_range (fold_query s b 0 (some v)) 0 e
low_events s b none v e h = ground arith
low_events s b (some m) v e h = ground arith

pub events_between-split :
    (db : Db) (s b : Str) (v : ℕ) (max : Option ℕ)
    → IsUnique db.events
    → up_to max v ≡ true
    → v < i64_max
    → events_between db s b 0 max
      ≡ events_between db s b 0 (some v) ++ events_between db s b (v + 1) max
unfolding read_range_impl
events_between-split db s b v max u h fits =
    let q = fold_query s b 0 max in
    keep-split version_of v (select_range db q 0) (select_range-IsAscending db q 0 u)
    ∙ ap₂ (λ xs ys. xs ++ ys)
        (keep-select_range db q (fold_query s b 0 (some v)) 0 0 (λ e. leb e.version v) u
          (λ e. low_events s b max v e h))
        (keep-select_range db q (fold_query s b (v + 1) max) 0 (v + 1) (λ e. leb (suc v) e.version)
          u (λ e. ground (arith, fits)))
