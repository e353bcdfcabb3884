-- ===== src/CrossStream.antt =====
-- src/cross_stream.rs: reads by correlation and the walks along causation.
-- A recursive query is computed level by level: a level is the ids that the query adds at one depth, and
-- an id may stand in several levels. `ORDER BY` two keys is an ordering by the second and then by the first.
pub mod Levels
pub mod Walks
pub mod Bounded
pub mod Aggregate
use fossic.Prelude.{
  ℕ, zero, suc, ◌+◌, ◌-◌, ◌%◌, ◌^◌, Bool, true, false, not, ◌&&◌, ◌||◌, List, [], ◌∷◌, ◌++◌, Option,
  none, some, ltb, any, keep, map, take, length, last, if◌then◌else◌,
}
use fossic.Prelude.Lex.{same, lex_lt}
use fossic.Prelude.Words.{Bytes}
use fossic.Prelude.Order.{order_by}
use fossic.Cce.Sort.{sort_by}
use fossic.Error.{Error, Result, ok, err, ◌>>=◌}
use fossic.EventId.{EventId}
use fossic.Tables.{StoredEvent, Db}
use fossic.Read.{
  ReadOutcome, complete, truncated, TruncationReason, result_count, byte_size, CursorInner,
  correlation, timestamp_of, exceed_count, exceed_bytes,
}

pub data WalkDirection : Type 0 where
  forward backward both : WalkDirection

-- `column = id`, which does not hold of NULL
abbrev pub is_id : EventId → Option EventId → Bool
is_id id none = false
is_id id (some x) = same x id

abbrev pub id_of : StoredEvent → EventId
id_of e = e.id

unfoldable pub read_by_correlation_impl : Db → EventId → List StoredEvent
read_by_correlation_impl db correlation_id =
    order_by timestamp_of
      (keep (λ (e : StoredEvent). is_id correlation_id e.correlation_id) db.events)

-- `?2 IS NULL OR id > ?2`
abbrev pub is_after : Option EventId → StoredEvent → Bool
is_after none e = true
is_after (some id) e = lex_lt id e.id

-- the rows of the bounded query, `ORDER BY id ASC`
unfoldable pub select_correlation : Db → EventId → Option EventId → List StoredEvent
select_correlation db correlation_id resume = sort_by id_of (
    keep (λ (e : StoredEvent). is_id correlation_id e.correlation_id && is_after resume e)
      db.events)

-- `events.last().map(..).unwrap_or([0u8; 32])`
abbrev pub last_seen : Option StoredEvent → EventId
last_seen (some e) = e.id
last_seen none = zeros 32
  where
    zeros : ℕ → List ℕ
    zeros zero = []
    zeros (suc n) = 0 ∷ zeros n

module _ (encode : CursorInner → Result Error Bytes) where
  -- the loop over the rows
  unfoldable pub correlation_rows :
      EventId
      → Option ℕ
      → Option ℕ
      → List StoredEvent
      → List StoredEvent
      → ℕ
      → Result Error (ReadOutcome (List StoredEvent))
  correlation_rows correlation_id max_results max_bytes [] events byte_count = ok (complete events)
  correlation_rows correlation_id max_results max_bytes (event ∷ rows) events byte_count =
      let event_bytes = length event.payload in
      let by_count = exceed_count max_results events in
      let by_bytes = exceed_bytes max_bytes events (byte_count + event_bytes) in
      let rest =
        correlation_rows correlation_id max_results max_bytes rows (events ++ event ∷ [])
          (byte_count + event_bytes) in
      if by_count || by_bytes
      then (do
        cursor ← encode (correlation correlation_id (last_seen (last events)))
        ok (truncated events (some cursor) (if by_count then result_count else byte_size)))
      else rest

  unfoldable pub read_by_correlation_bounded_impl :
      Db
      → EventId
      → Option EventId
      → Option ℕ
      → Option ℕ
      → Result Error (ReadOutcome (List StoredEvent))
  unfolding correlation_rows select_correlation
  read_by_correlation_bounded_impl db correlation_id resume max_results max_bytes =
      correlation_rows correlation_id max_results max_bytes
        (select_correlation db correlation_id resume) [] 0

-- `SELECT e.id FROM events e` whose cause is among the ids
unfoldable pub effects : Db → List EventId → List EventId
effects db ids =
    map id_of (keep (λ (e : StoredEvent). any (λ i. is_id i e.causation_id) ids) db.events)

abbrev pub causes_in : List StoredEvent → List EventId
causes_in [] = []
causes_in (e ∷ es) = elim e.causation_id [ none ↦ causes_in es | some c ↦ c ∷ causes_in es ]

-- `SELECT e.causation_id FROM events e` of the events with these ids, where it is not NULL
unfoldable pub causes : Db → List EventId → List EventId
causes db ids = causes_in (keep (λ (e : StoredEvent). any (λ i. same e.id i) ids) db.events)

-- the rows of the recursive query, by their depth from 1 on
unfoldable pub levels : (List EventId → List EventId) → ℕ → List EventId → List (List EventId)
levels expand zero ids = []
levels expand (suc depth) ids = let next = expand ids in next ∷ levels expand depth next

unfoldable pub in_levels : List (List EventId) → EventId → Bool
in_levels levels id = any (λ level. any (same id) level) levels

-- `MIN(depth)` of an id, less 1
unfoldable pub min_depth : List (List EventId) → EventId → ℕ
min_depth [] id = 0
min_depth (level ∷ levels) id =
    let later = min_depth levels id in if any (same id) level then 0 else suc later

-- `ORDER BY bfs_depth ASC, timestamp_us ASC`
unfoldable pub select_levels : Db → List (List EventId) → List StoredEvent
unfolding in_levels min_depth
select_levels db levels =
    order_by (λ (e : StoredEvent). min_depth levels e.id)
      (order_by timestamp_of (keep (λ (e : StoredEvent). in_levels levels e.id) db.events))

-- For a depth of 0 there is no level.
unfoldable pub walk_forward : Db → EventId → ℕ → List StoredEvent
unfolding effects levels select_levels
walk_forward db start max_depth = select_levels db (levels (effects db) max_depth (start ∷ []))

unfoldable pub walk_backward : Db → EventId → ℕ → List StoredEvent
unfolding causes levels select_levels
walk_backward db start max_depth = select_levels db (levels (causes db) max_depth (start ∷ []))

-- the events of the second list whose ids are not in the first, after the first
unfoldable pub merge : List StoredEvent → List StoredEvent → List StoredEvent
merge fwd bwd =
    fwd ++ keep (λ (e : StoredEvent). not (any (λ (f : StoredEvent). same f.id e.id) fwd)) bwd

unfoldable pub walk_causation_impl : Db → EventId → WalkDirection → ℕ → List StoredEvent
unfolding walk_forward walk_backward merge
walk_causation_impl db start forward max_depth = walk_forward db start max_depth
walk_causation_impl db start backward max_depth = walk_backward db start max_depth
walk_causation_impl db start both max_depth =
    merge (walk_forward db start max_depth) (walk_backward db start max_depth)
