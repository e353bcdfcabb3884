-- ===== src/CrossStream/Aggregate.antt =====
-- aggregate_impl and aggregate_bounded_impl of src/cross_stream.rs.
-- `GLOB`, `json_extract` and the views of numbers are SQLite's and serde_json's: a parameter. `upcast` is
-- what apply_upcaster makes of an event. The key in a message of an error is left out.
pub mod Prefix
use fossic.Prelude.{
  ℕ, zero, suc, ◌+◌, Bool, true, false, not, ◌&&◌, ◌||◌, List, [], ◌∷◌, ◌++◌, Option, none, some,
  ltb, leb, ◌==◌, all, keep, length, if◌then◌else◌,
}
use fossic.Prelude.Lex.{same}
use fossic.Prelude.Order.{order_by}
use fossic.Text.{Str, codes}
use fossic.Json
use fossic.Json.{Value, Fields, Number, end, field, as_i64}
use fossic.Error.{Error, internal, Result, ok, err, ◌>>=◌}
use fossic.Glob.{matches}
use fossic.Tables.{StoredEvent, Db}
use fossic.Read.{ReadOutcome, complete, truncated, result_count, byte_size, timestamp_of, has_type}

-- The state of an aggregator is explicit, and `finalize` leaves it, as that of a clone does.
pub record Aggregator (State Output : Type 0) : Type 0 where
  pub fold : State → StoredEvent → State
  pub finalize : State → Output

pub record AggregateQuery : Type 0 where
  pub stream_pattern : Str
  pub branch : Str
  pub event_type_filter : Option Str
  pub from_timestamp_us : Option ℕ
  pub to_timestamp_us : Option ℕ
  pub indexed_tags_filter : Option Value

abbrev pub default_query : AggregateQuery
default_query = record {
  stream_pattern = codes "*";
  branch = codes "main";
  event_type_filter = none;
  from_timestamp_us = none;
  to_timestamp_us = none;
  indexed_tags_filter = none;
}

-- a bound value
pub data Param : Type 0 where
  integer : ℕ → Param
  real : ℕ → Param
  text : Str → Param

-- A condition on `json_extract(indexed_tags, path)`.
pub data Condition : Type 0 where
  is_null : Str → Condition
  equals : Str → Param → Condition

pub record Sql : Type 0 where
  -- `stream_id GLOB pattern`, by the pattern and the stream
  pub glob : Str → Str → Bool
  -- a condition, on the text of a row's tags
  pub holds : Condition → Option Str → Bool
  pub as_f64 : Number → Option ℕ
  pub is_alphanumeric : ℕ → Bool

abbrev pub is_some_text : Str → Bool
is_some_text [] = false
is_some_text (c ∷ s) = true

module _ (sql : Sql) where
  unfoldable pub is_safe_tag_key : Str → Bool
  is_safe_tag_key key = is_some_text key && all (λ c. sql.is_alphanumeric c || c == b'_') key

  abbrev pub real_condition : Str → Option ℕ → List Condition
  real_condition path none = []
  real_condition path (some f) = equals path (real f) ∷ []

  abbrev pub number_condition : Str → Number → Option ℕ → List Condition
  number_condition path n (some i) = equals path (integer i) ∷ []
  number_condition path n none = real_condition path (sql.as_f64 n)

  abbrev pub bit : Bool → ℕ
  bit true = 1
  bit false = 0

  -- the clause of a pair
  unfoldable pub tag_condition : Str → Value → Result Error (List Condition)
  tag_condition path Json.null = ok (is_null path ∷ [])
  tag_condition path (Json.bool b) = ok (equals path (integer (bit b)) ∷ [])
  tag_condition path (Json.number n) = ok (number_condition path n (as_i64 n))
  tag_condition path (Json.string s) = ok (equals path (text s) ∷ [])
  tag_condition path (Json.array _) =
      err (internal (codes "indexed_tags_filter value must be a JSON primitive"))
  tag_condition path (Json.object _) =
      err (internal (codes "indexed_tags_filter value must be a JSON primitive"))

  unfoldable pub tag_conditions : Fields → Result Error (List Condition)
  unfolding is_safe_tag_key tag_condition
  tag_conditions end = ok []
  tag_conditions (field key value fields) =
      let rest = tag_conditions fields in
      if not (is_safe_tag_key key)
      then err (
          internal
            (codes "indexed_tags_filter key must contain only letters, digits, and underscores"))
      else (do
        condition ← tag_condition (codes "$." ++ key) value
        conditions ← rest
        ok (condition ++ conditions))

  -- A filter that is not an object adds no clause.
  abbrev pub filter_conditions : Option Value → Result Error (List Condition)
  filter_conditions (some (Json.object fields)) = tag_conditions fields
  filter_conditions _ = ok []

  -- `timestamp_us >= ?`
  abbrev pub from_on : Option ℕ → ℕ → Bool
  from_on none t = true
  from_on (some from) t = leb from t

  -- `timestamp_us <= ?`
  abbrev pub to_on : Option ℕ → ℕ → Bool
  to_on none t = true
  to_on (some to) t = leb t to

  abbrev pub is_selected : AggregateQuery → List Condition → StoredEvent → Bool
  is_selected q conditions e =
      sql.glob q.stream_pattern e.stream_id
      && same e.branch q.branch
      && has_type q.event_type_filter e.event_type
      && from_on q.from_timestamp_us e.timestamp_us
      && to_on q.to_timestamp_us e.timestamp_us
      && all (λ c. sql.holds c e.indexed_tags) conditions

  -- the rows of the query
  unfoldable pub select_rows : Db → AggregateQuery → Result Error (List StoredEvent)
  unfolding tag_conditions
  select_rows db q = do
    conditions ← filter_conditions q.indexed_tags_filter
    ok (order_by timestamp_of (keep (is_selected q conditions) db.events))

-- `max_events.is_some_and(|n| events_scanned >= n)`
abbrev pub over_count : Option ℕ → ℕ → Bool
over_count none scanned = false
over_count (some n) scanned = leb n scanned

-- `max_bytes.is_some_and(|b| events_scanned > 0 && byte_count + event_bytes > b)`
abbrev pub over_bytes : Option ℕ → ℕ → ℕ → Bool
over_bytes none scanned total = false
over_bytes (some b) scanned total = ltb 0 scanned && ltb b total

module _ (upcast : StoredEvent → Result Error StoredEvent) {State Output : Type 0}
    (agg : Aggregator State Output) where
  -- the loop over the rows
  unfoldable pub fold_rows : Str → State → List StoredEvent → Result Error State
  fold_rows pattern state [] = ok state
  fold_rows pattern state (row ∷ rows) = do
    event ← upcast row
    fold_rows pattern (if matches pattern event.stream_id then agg.fold state event else state) rows

  -- the loop, with the state, `events_scanned` and `byte_count`
  unfoldable pub fold_rows_bounded :
      Str
      → Option ℕ
      → Option ℕ
      → State
      → ℕ
      → ℕ
      → List StoredEvent
      → Result Error (ReadOutcome Output)
  fold_rows_bounded pattern max_events max_bytes state scanned bytes [] =
      ok (complete (agg.finalize state))
  fold_rows_bounded pattern max_events max_bytes state scanned bytes (row ∷ rows) =
      upcast row >>= λ event.
      let total = bytes + length event.payload in
      let by_count = over_count max_events scanned in
      let by_bytes = over_bytes max_bytes scanned total in
      let next =
        fold_rows_bounded pattern max_events max_bytes (agg.fold state event) (scanned + 1) total
          rows in
      let skip = fold_rows_bounded pattern max_events max_bytes state scanned bytes rows in
      if matches pattern event.stream_id
      then (if by_count || by_bytes
          then ok
              (truncated (agg.finalize state) none (if by_count then result_count else byte_size))
          else next)
      else skip

module _ (sql : Sql) (upcast : StoredEvent → Result Error StoredEvent) {State Output : Type 0}
    (agg : Aggregator State Output) where
  unfoldable pub aggregate_impl : Db → AggregateQuery → State → Result Error Output
  unfolding select_rows fold_rows
  aggregate_impl db q state = do
    rows ← select_rows sql db q
    state' ← fold_rows upcast agg q.stream_pattern state rows
    ok (agg.finalize state')

  unfoldable pub aggregate_bounded_impl :
      Db → AggregateQuery → State → Option ℕ → Option ℕ → Result Error (ReadOutcome Output)
  unfolding select_rows fold_rows_bounded
  aggregate_bounded_impl db q state max_events max_bytes = do
    rows ← select_rows sql db q
    fold_rows_bounded upcast agg q.stream_pattern max_events max_bytes state 0 0 rows
