-- ===== src/Store/Reads.antt =====
-- The reads of `Store` in src/store.rs, which apply the upcasters to what the log holds.
-- The chain of upcasters runs on fuel, and `none` is a read whose fuel is spent. Connections, pools and locks
-- are left out; the codec of cursors is a parameter.
use fossic.Prelude.{ℕ, ◌≡◌, List, [], ◌∷◌, Option, none, some}
use fossic.Prelude.Words.{Bytes}
use fossic.Text.{Str, codes}
use fossic.Error.{Error, internal, Result, ok, err, ◌>>=◌, map_ok}
use fossic.EventId.{EventId}
use fossic.Tables.{StoredEvent, Db}
use fossic.Read.{
  ReadQuery, TruncationReason, CursorInner, range, correlation, causation, ReadOutcome, complete,
  truncated, read_range_impl, read_range_bounded_impl, read_one_impl, read_batch_impl,
  read_by_external_id_impl,
}
use fossic.CrossStream.{WalkDirection, read_by_correlation_impl, walk_causation_impl}
use fossic.Upcasters.{UpcasterRegistry, entries_of, apply_upcaster}
use fossic.Upcasters.Chains.{Upcasts}

-- What a read gives: `none` when the fuel is spent.
abbrev pub Answer : Type 0 → Type 0
Answer A = Option (Result Error A)

-- The first error ends the collection.
abbrev pub push_event : Answer StoredEvent → Answer (List StoredEvent) → Answer (List StoredEvent)
push_event none rest = none
push_event (some (err x)) rest = some (err x)
push_event (some (ok e)) none = none
push_event (some (ok e)) (some r) = some (map_ok (λ es. e ∷ es) r)

abbrev pub or_default : Option ℕ → Option ℕ → Option ℕ
or_default (some n) default = some n
or_default none default = default

module _ (fuel : ℕ) (upcasters : UpcasterRegistry) where
  -- `into_iter().map(apply_upcaster).collect()`
  unfoldable pub upcast_all : List StoredEvent → Answer (List StoredEvent)
  unfolding apply_upcaster
  upcast_all [] = some (ok [])
  upcast_all (e ∷ es) = push_event (apply_upcaster fuel upcasters e) (upcast_all es)

  unfoldable pub upcast_one : Option StoredEvent → Answer (Option StoredEvent)
  unfolding apply_upcaster
  upcast_one none = some (ok none)
  upcast_one (some e) = elim (apply_upcaster fuel upcasters e) [
    | none ↦ none
    | some r ↦ some (map_ok some r)
  ]

  unfoldable pub read_range : Db → ReadQuery → Answer (List StoredEvent)
  unfolding upcast_all read_range_impl
  read_range db q = upcast_all (read_range_impl db q)

  unfoldable pub read_one : Db → EventId → Answer (Option StoredEvent)
  unfolding upcast_one read_one_impl
  read_one db id = upcast_one (read_one_impl db id)

  unfoldable pub read_batch : Db → List EventId → Answer (List StoredEvent)
  unfolding upcast_all read_batch_impl
  read_batch db ids = elim (read_batch_impl db ids) [
    | err e ↦ some (err e)
    | ok events ↦ upcast_all events
  ]

  unfoldable pub read_by_external_id : Db → Str → Str → Answer (Option StoredEvent)
  unfolding upcast_one read_by_external_id_impl
  read_by_external_id db stream_id external_id =
      upcast_one (read_by_external_id_impl db stream_id external_id)

  unfoldable pub read_by_correlation : Db → EventId → Answer (List StoredEvent)
  unfolding upcast_all read_by_correlation_impl
  read_by_correlation db correlation_id = upcast_all (read_by_correlation_impl db correlation_id)

  unfoldable pub walk_causation : Db → EventId → WalkDirection → ℕ → Answer (List StoredEvent)
  unfolding upcast_all walk_causation_impl
  walk_causation db start direction max_depth =
      upcast_all (walk_causation_impl db start direction max_depth)

  abbrev pub cut_data :
      Option Bytes
      → TruncationReason
      → Answer (List StoredEvent)
      → Answer (ReadOutcome (List StoredEvent))
  cut_data cursor reason none = none
  cut_data cursor reason (some r) = some (map_ok (λ es. truncated es cursor reason) r)

  abbrev pub all_data : Answer (List StoredEvent) → Answer (ReadOutcome (List StoredEvent))
  all_data none = none
  all_data (some r) = some (map_ok complete r)

  -- the match on the outcome
  unfoldable pub upcast_outcome :
      ReadOutcome (List StoredEvent) → Answer (ReadOutcome (List StoredEvent))
  unfolding upcast_all
  upcast_outcome (complete events) = all_data (upcast_all events)
  upcast_outcome (truncated events cursor reason) = cut_data cursor reason (upcast_all events)

  -- An event of the log, and as a read gives it: with the payload to which a chain of upcasters leads.
  abbrev pub IsUpcast : StoredEvent → StoredEvent → Type 0
  IsUpcast e e' =
      (p : Bytes) × (e' ≡ record e { payload = p }
        × Upcasts (entries_of upcasters e.event_type) e.type_version e.payload p)

  abbrev pub AllUpcast : List StoredEvent → List StoredEvent → Type 0
  AllUpcast [] [] = Unit {0}
  AllUpcast (e ∷ es) (e' ∷ es') = IsUpcast e e' × AllUpcast es es'
  AllUpcast es es' = ⊥

  abbrev pub IsUpcastOutcome :
      ReadOutcome (List StoredEvent) → ReadOutcome (List StoredEvent) → Type 0
  IsUpcastOutcome (complete es) (complete es') = AllUpcast es es'
  IsUpcastOutcome (truncated es cursor reason) (truncated es' cursor' reason') =
      AllUpcast es es' × (cursor' ≡ cursor × reason' ≡ reason)
  IsUpcastOutcome o o' = ⊥

module _ (fuel : ℕ) (upcasters : UpcasterRegistry) (encode : CursorInner → Result Error Bytes)
    (decode : Bytes → Result Error CursorInner) where
  abbrev pub resume_of : CursorInner → Result Error (Option ℕ)
  resume_of (range stream_id branch next_version) = ok (some next_version)
  resume_of (correlation id last) = err (internal (codes "cursor type mismatch: expected Range"))
  resume_of (causation ids depth direction) =
      err (internal (codes "cursor type mismatch: expected Range"))

  abbrev pub decode_resume : Option Bytes → Result Error (Option ℕ)
  decode_resume none = ok none
  decode_resume (some cursor) = do inner ← decode cursor; resume_of inner

  abbrev pub upcast_result :
      Result Error (ReadOutcome (List StoredEvent)) → Answer (ReadOutcome (List StoredEvent))
  upcast_result (err e) = some (err e)
  upcast_result (ok outcome) = upcast_outcome fuel upcasters outcome

  -- The limits of the call go before the two of the store.
  unfoldable pub read_range_bounded :
      Option ℕ × Option ℕ
      → Db
      → ReadQuery
      → Option ℕ
      → Option ℕ
      → Option Bytes
      → Answer (ReadOutcome (List StoredEvent))
  unfolding read_range_bounded_impl upcast_outcome
  read_range_bounded defaults db q max_results max_bytes resume = upcast_result (do
    resume_version ← decode_resume resume
    read_range_bounded_impl encode db q resume_version (or_default max_results defaults.0)
        (or_default max_bytes defaults.1))
