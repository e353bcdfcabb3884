-- ===== src/CrossStream/Aggregate/Prefix.antt =====
-- aggregate_bounded_impl of src/cross_stream.rs, against aggregate_impl.
use fossic.Prelude.{
  ℕ, ◌+◌, ◌≡◌, refl, ap, subst, ◌||◌, List, [], ◌∷◌, ◌++◌, Option, none, length, Bool-cases, inl,
  inr, if◌then◌else◌,
}
use fossic.Text.{Str}
use fossic.Error.{Error, Result, ok, >>=-eq-ok, ok-injective}
use fossic.Glob.{matches}
use fossic.Tables.{StoredEvent, Db}
use fossic.Read.{ReadOutcome, complete, truncated}
use fossic.CrossStream.Aggregate.{
  Sql, Aggregator, AggregateQuery, select_rows, fold_rows, over_count, over_bytes,
  fold_rows_bounded, aggregate_bounded_impl,
}

module _ (upcast : StoredEvent → Result Error StoredEvent) {State Output : Type 0}
    (agg : Aggregator State Output) where
  -- A bounded fold of rows is the fold of all of them, or that of the rows in front of one at which it stops.
  abbrev pub IsPrefix : Str → State → List StoredEvent → ReadOutcome Output → Type 0
  IsPrefix pattern state rows (complete a) =
      (s : State) × (fold_rows upcast agg pattern state rows ≡ ok s) × (agg.finalize s ≡ a)
  IsPrefix pattern state rows (truncated a cursor reason) =
      (front : List StoredEvent) × (e : StoredEvent) × (rest : List StoredEvent) × (s : State)
      × (rows ≡ front ++ e ∷ rest)
      × (fold_rows upcast agg pattern state front ≡ ok s)
      × (agg.finalize s ≡ a)
      × (cursor ≡ none)

  IsPrefix-cons :
      (pattern : Str) (state : State) (row event : StoredEvent) (rows : List StoredEvent)
      (out : ReadOutcome Output)
      → upcast row ≡ ok event
      → IsPrefix pattern
          (if matches pattern event.stream_id then agg.fold state event else state)
          rows
          out
      → IsPrefix pattern state (row ∷ rows) out
  unfolding fold_rows
  IsPrefix-cons pattern state row event rows (complete a) u (s, f, e) = (s, rw u f, e)
  IsPrefix-cons pattern state row event rows (truncated a cursor reason) u
        (front, e, rest, s, split, f, eq, c) =
      (row ∷ front, e, rest, s, ap (◌∷◌ row) split, rw u f, eq, c)

  fold_rows_bounded-IsPrefix :
      (pattern : Str) (r b : Option ℕ) (state : State) (scanned bytes : ℕ) (rows : List StoredEvent)
      (out : ReadOutcome Output)
      → fold_rows_bounded upcast agg pattern r b state scanned bytes rows ≡ ok out
      → IsPrefix pattern state rows out
  unfolding fold_rows_bounded fold_rows
  fold_rows_bounded-IsPrefix pattern r b state scanned bytes [] out h =
      subst (IsPrefix pattern state []) (ok-injective h) (state, refl, refl)
  fold_rows_bounded-IsPrefix pattern r b state scanned bytes (row ∷ rows) out h =
      let (event, u, next) = >>=-eq-ok (upcast row) _ h in
      elim (Bool-cases (matches pattern event.stream_id)) [
        | inl m ↦
            elim (Bool-cases
              (over_count r scanned || over_bytes b scanned (bytes + length event.payload))) [
                | inl over ↦
                    subst (IsPrefix pattern state (row ∷ rows))
                      (ok-injective (rw over at (rw m at next)))
                      ([], row, rows, state, refl, refl, refl, refl)
                | inr under ↦ IsPrefix-cons pattern state row event rows out u (
                    rw m (
                      fold_rows_bounded-IsPrefix pattern r b (agg.fold state event) (scanned + 1)
                        (bytes + length event.payload) rows out (rw under at (rw m at next))))
              ]
        | inr skip ↦ IsPrefix-cons pattern state row event rows out u (
            rw skip (
              fold_rows_bounded-IsPrefix pattern r b state scanned bytes rows out
                (rw skip at next)))
      ]

  -- A bounded aggregation that succeeds returns a complete result only if it is what the unbounded
  -- aggregation returns; a truncated one has no cursor, and is that of the rows of the query in front of
  -- one of them.
  pub aggregate_bounded_impl-IsPrefix :
      (sql : Sql) (db : Db) (q : AggregateQuery) (state : State) (r b : Option ℕ)
      (out : ReadOutcome Output)
      → aggregate_bounded_impl sql upcast agg db q state r b ≡ ok out
      → (rows : List StoredEvent) × (select_rows sql db q ≡ ok rows)
        × IsPrefix q.stream_pattern state rows out
  unfolding aggregate_bounded_impl
  aggregate_bounded_impl-IsPrefix sql db q state r b out h =
      let (rows, selected, folded) = >>=-eq-ok (select_rows sql db q) _ h in
      (rows, selected, fold_rows_bounded-IsPrefix q.stream_pattern r b state 0 0 rows out folded)
