-- ===== src/Tests/Walks.antt =====
-- The theorems on walks along causation and on aggregates, at a small graph of events.
use fossic.Prelude.{
  arith, ℕ, ◌+◌, ◌≡◌, ◌⊎◌, ◌↔◌, refl, true, List, [], ◌∷◌, none, some, In, map, length,
}
use fossic.Text.{codes}
use fossic.Error.{Error, Result, ok}
use fossic.Json
use fossic.Tables.{StoredEvent, Db}
use fossic.Read.{ReadOutcome, complete, truncated, result_count, CursorInner}
use fossic.CrossStream.{forward, both, id_of, walk_causation_impl}
use fossic.CrossStream.Walks.{Finds, walk_causation_impl_iff}
use fossic.CrossStream.Bounded.{exhaustive, walk_causation_bounded_impl, next_level}
use fossic.CrossStream.Bounded.Budget.{data_of, IsWithin, walk_causation_bounded_impl-IsWithin}
use fossic.CrossStream.Bounded.Whole.{IsWhole, walk_causation_bounded_impl-IsWhole}
use fossic.CrossStream.Aggregate.{
  Aggregator, AggregateQuery, default_query, Sql, select_rows, aggregate_bounded_impl,
}
use fossic.CrossStream.Aggregate.Prefix.{IsPrefix, aggregate_bounded_impl-IsPrefix}
use fossic.Tests.{one_event, first_row}

abbrev root : StoredEvent
root = record first_row { id = 1 ∷ [] }

-- Two effects of the root, and one of the first of them.
abbrev left : StoredEvent
left = record first_row {
  id = 2 ∷ [];
  version = 1;
  timestamp_us = 12;
  causation_id = some (1 ∷ []);
}

abbrev right : StoredEvent
right = record first_row {
  id = 3 ∷ [];
  version = 2;
  timestamp_us = 11;
  causation_id = some (1 ∷ []);
}

abbrev leaf : StoredEvent
leaf = record first_row {
  id = 4 ∷ [];
  version = 3;
  timestamp_us = 10;
  causation_id = some (2 ∷ []);
}

abbrev graph : Db
graph = record one_event { events = root ∷ left ∷ right ∷ leaf ∷ [] }

forward_walk :
    map id_of (walk_causation_impl graph (1 ∷ []) forward 2) ≡ (3 ∷ []) ∷ (2 ∷ []) ∷ (4 ∷ []) ∷ []
unfolding walk_causation_impl fossic.Prelude.Order.order_by fossic.Prelude.Lex.same
forward_walk = refl

walk_causation_impl_iff_example :
    In leaf (walk_causation_impl graph (1 ∷ []) forward 2)
    ↔ (In leaf graph.events × Finds graph (1 ∷ []) forward 2 leaf.id)
walk_causation_impl_iff_example = walk_causation_impl_iff graph (1 ∷ []) forward 2 leaf

-- A cursor of one byte.
abbrev encode : CursorInner → Result Error (List ℕ)
encode c = ok (7 ∷ [])

abbrev two_results : ReadOutcome (List StoredEvent)
two_results = truncated (left ∷ right ∷ []) (some (7 ∷ [])) result_count

cut_walk :
    walk_causation_bounded_impl encode graph forward 3 exhaustive (some 2) none (1 ∷ []) none
    ≡ ok two_results
unfolding walk_causation_bounded_impl fossic.Cce.Sort.sort_by fossic.Prelude.Lex.same
    fossic.Prelude.Lex.lex_lt
cut_walk = refl

walk_causation_bounded_impl-IsWithin_example :
    (next_level graph forward 3 exhaustive ((1 ∷ []) ∷ []) ((1 ∷ []) ∷ [])
      ≡ ok (data_of two_results))
    ⊎ IsWithin (some 2) none (data_of two_results)
walk_causation_bounded_impl-IsWithin_example =
    walk_causation_bounded_impl-IsWithin encode graph forward 3 exhaustive (some 2) none (1 ∷ [])
      none two_results cut_walk

-- From `left` both ways the whole graph is found, `right` through the common cause.
both_walk :
    walk_causation_bounded_impl encode graph both 3 exhaustive none none (2 ∷ []) none
    ≡ ok (complete (root ∷ leaf ∷ right ∷ []))
unfolding walk_causation_bounded_impl fossic.Cce.Sort.sort_by fossic.Prelude.Lex.same
    fossic.Prelude.Lex.lex_lt
both_walk = refl

-- The unbounded walk does not find `right`.
both_union : map id_of (walk_causation_impl graph (2 ∷ []) both 3) ≡ (4 ∷ []) ∷ (1 ∷ []) ∷ []
unfolding walk_causation_impl fossic.Prelude.Order.order_by fossic.Prelude.Lex.same
both_union = refl

-- Resumed after the first level, the walk comes back to its start.
resumed_walk :
    walk_causation_bounded_impl encode graph both 2 exhaustive none none
      (2 ∷ [])
      (some ((1 ∷ []) ∷ (4 ∷ []) ∷ [], 1))
    ≡ ok (complete (left ∷ right ∷ []))
unfolding walk_causation_bounded_impl fossic.Cce.Sort.sort_by fossic.Prelude.Lex.same
    fossic.Prelude.Lex.lex_lt
resumed_walk = refl

walk_causation_bounded_impl-IsWhole_example :
    (es : List StoredEvent) × (walk_causation_bounded_impl encode graph both 3 exhaustive none none
        (2 ∷ [])
        none
      ≡ ok (complete es))
    × IsWhole graph both (2 ∷ []) 3 es
walk_causation_bounded_impl-IsWhole_example =
    walk_causation_bounded_impl-IsWhole encode graph both (2 ∷ []) 3 (omega arith)

-- SQLite for which every text fits every pattern.
abbrev any_row : Sql
any_row = record {
  glob = λ p s. true;
  holds = λ c t. true;
  as_f64 = λ n. none;
  is_alphanumeric = λ c. true;
}

abbrev counter : Aggregator ℕ ℕ
counter = record { fold = λ n e. n + 1; finalize = λ n. n }

abbrev tagged : AggregateQuery
tagged = record default_query {
  stream_pattern = codes "notes";
  indexed_tags_filter = some (Json.object (Json.field (codes "kind") (Json.bool true) Json.end));
}

counted :
    aggregate_bounded_impl any_row ok counter graph tagged 0 (some 2) none
    ≡ ok (truncated 2 none result_count)
unfolding aggregate_bounded_impl fossic.Prelude.Order.order_by fossic.Prelude.Lex.same
    fossic.Glob.matches
counted = refl

aggregate_bounded_impl-IsPrefix_example :
    (rows : List StoredEvent) × (select_rows any_row graph tagged ≡ ok rows)
    × IsPrefix ok counter (codes "notes") 0 rows (truncated 2 none result_count)
aggregate_bounded_impl-IsPrefix_example =
    aggregate_bounded_impl-IsPrefix ok counter any_row graph tagged 0 (some 2) none
      (truncated 2 none result_count) counted
