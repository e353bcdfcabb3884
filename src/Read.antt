-- ===== src/Read.antt =====
-- src/read.rs: the reads of the event log, with `ReadQuery`, `ReadOutcome` and `CursorInner` of
-- src/types.rs.
-- A row of the table stands for the event made of it; its version is that of the `u64`. A `u64` that a
-- caller gives is cast to `i64`. A `LIMIT` is the number of the rows taken, all when it is absent or
-- negative.
pub mod Page
pub mod Own
use fossic.Prelude.{
  ℕ, ◌+◌, Bool, true, false, not, ◌&&◌, ◌||◌, List, [], ◌∷◌, ◌++◌, Option, none, some, ltb, leb,
  ◌==◌, any, keep, find, take, length, if◌then◌else◌,
}
use fossic.Prelude.Order.{order_by}
use fossic.Prelude.Lex.{same}
use fossic.Prelude.Words.{Bytes}
use fossic.Text.{Str, codes}
use fossic.EventId.{EventId}
use fossic.Error.{Error, sqlite, Result, ok, err, ◌>>=◌}
use fossic.Tables.{StoredEvent, Db}
use fossic.Append.{at_stream, unwrap_or}

pub record ReadQuery : Type 0 where
  pub stream_id : Str
  pub branch : Str
  pub from_version : Option ℕ
  pub to_version : Option ℕ
  pub limit : Option ℕ
  pub event_type_filter : Option Str

-- `ReadQuery::stream`
abbrev pub stream_query : Str → ReadQuery
stream_query stream_id = record {
  stream_id = stream_id;
  branch = codes "main";
  from_version = none;
  to_version = none;
  limit = none;
  event_type_filter = none;
}

pub data TruncationReason : Type 0 where
  result_count byte_size : TruncationReason

pub data CursorInner : Type 0 where
  range : Str → Str → ℕ → CursorInner
  correlation : EventId → EventId → CursorInner
  causation : List EventId → ℕ → ℕ → CursorInner

pub data ReadOutcome (A : Type 0) : Type 0 where
  complete : A → ReadOutcome A
  truncated : A → Option Bytes → TruncationReason → ReadOutcome A

abbrev pub i64_max : ℕ
i64_max = 9223372036854775807

-- `version <= to`, where `to` is `v as i64`, negative from 2 ^ 63 on, or `i64::MAX`
abbrev pub up_to : Option ℕ → ℕ → Bool
up_to none v = leb v i64_max
up_to (some to) v = leb to i64_max && leb v to

-- `version >= from`, where `from` is a `u64 as i64`
abbrev pub at_least : ℕ → ℕ → Bool
at_least from v = ltb i64_max from || leb from v

-- `?6 IS NULL OR event_type = ?6`
abbrev pub has_type : Option Str → Str → Bool
has_type none t = true
has_type (some filter) t = same t filter

-- `WHERE stream_id = ?1 AND branch = ?2 AND version >= ?3 AND version <= ?4 AND ...`
abbrev pub in_range : ReadQuery → ℕ → StoredEvent → Bool
in_range q from e =
    at_stream q.stream_id q.branch e
    && at_least from e.version
    && up_to q.to_version e.version
    && has_type q.event_type_filter e.event_type

abbrev pub version_of : StoredEvent → ℕ
version_of e = e.version

-- the rows of the query, `ORDER BY version ASC`
unfoldable pub select_range : Db → ReadQuery → ℕ → List StoredEvent
select_range db q from = order_by version_of (keep (in_range q from) db.events)

abbrev pub limited : Option ℕ → List StoredEvent → List StoredEvent
limited none es = es
limited (some n) es = take n es

unfoldable pub read_range_impl : Db → ReadQuery → List StoredEvent
unfolding select_range
read_range_impl db q = limited q.limit (select_range db q (unwrap_or q.from_version 0))

unfoldable pub read_one_impl : Db → EventId → Option StoredEvent
read_one_impl db id = find (λ (e : StoredEvent). same e.id id) db.events

abbrev pub timestamp_of : StoredEvent → ℕ
timestamp_of e = e.timestamp_us

-- SQLite's bound on the parameters of a statement, of which a statement over ids binds one for each.
abbrev pub max_parameters : ℕ
max_parameters = 32766

abbrev pub too_many : List EventId → Bool
too_many frontier = ltb max_parameters (length frontier)

abbrev pub bind_all {ℓ} : {A : Type ℓ} → List EventId → A → Result Error A
bind_all frontier a =
    if too_many frontier then err (sqlite (codes "too many SQL variables")) else ok a

-- `WHERE id IN (...) ORDER BY timestamp_us ASC`
unfoldable pub read_batch_impl : Db → List EventId → Result Error (List StoredEvent)
read_batch_impl db [] = ok []
read_batch_impl db (id ∷ ids) = bind_all (id ∷ ids) (
    order_by timestamp_of (keep (λ (e : StoredEvent). any (λ i. same e.id i) (id ∷ ids)) db.events))

-- `external_id = ?2` is not true of a missing external id.
abbrev pub has_external_id : Str → StoredEvent → Bool
has_external_id external_id e = elim e.external_id [ none ↦ false | some x ↦ same x external_id ]

unfoldable pub read_by_external_id_impl : Db → Str → Str → Option StoredEvent
read_by_external_id_impl db stream_id external_id =
    find (λ (e : StoredEvent). same e.stream_id stream_id && has_external_id external_id e)
      db.events

-- `max_results.is_some_and(|n| events.len() >= n)`
abbrev pub exceed_count : Option ℕ → List StoredEvent → Bool
exceed_count none events = false
exceed_count (some n) events = leb n (length events)

-- `max_bytes.is_some_and(|b| !events.is_empty() && byte_count + event_bytes > b)`
abbrev pub exceed_bytes : Option ℕ → List StoredEvent → ℕ → Bool
exceed_bytes none events n = false
exceed_bytes (some b) events n = ltb 0 (length events) && ltb b n

-- `encode`, the msgpack codec of a cursor, is a parameter.
module _ (encode : CursorInner → Result Error Bytes) where
  -- the loop over the rows
  unfoldable pub read_rows :
      ReadQuery
      → Option ℕ
      → Option ℕ
      → List StoredEvent
      → List StoredEvent
      → ℕ
      → Result Error (ReadOutcome (List StoredEvent))
  read_rows q max_results max_bytes [] events byte_count = ok (complete events)
  read_rows q max_results max_bytes (event ∷ rows) events byte_count =
      let event_bytes = length event.payload in
      let by_count = exceed_count max_results events in
      let by_bytes = exceed_bytes max_bytes events (byte_count + event_bytes) in
      let rest =
        read_rows q max_results max_bytes rows (events ++ event ∷ []) (byte_count + event_bytes) in
      if by_count || by_bytes
      then (do
        cursor ← encode (range q.stream_id q.branch event.version)
        ok (truncated events (some cursor) (if by_count then result_count else byte_size)))
      else rest

  unfoldable pub read_range_bounded_impl :
      Db
      → ReadQuery
      → Option ℕ
      → Option ℕ
      → Option ℕ
      → Result Error (ReadOutcome (List StoredEvent))
  unfolding read_rows select_range
  read_range_bounded_impl db q resume_version max_results max_bytes =
      let start = unwrap_or resume_version (unwrap_or q.from_version 0) in
      read_rows q max_results max_bytes (select_range db q start) [] 0
