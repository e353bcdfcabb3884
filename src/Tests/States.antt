-- ===== src/Tests/States.antt =====
-- The theorems on states, snapshots and upcasters at a reducer that collects payloads.
use fossic.Prelude.{
  ℕ, suc, ◌≡◌, ◌<◌, ◌≤◌, ◌↔◌, refl, Bool, true, false, ◌-◌, ◌++◌, List, [], ◌∷◌, Option, none, some,
  arith, All, keep,
}
use fossic.Prelude.Words.{Bytes}
use fossic.Text.{Str, codes}
use fossic.Json
use fossic.Error.{Error, Result, ok}
use fossic.Tables.{StoredEvent, Snapshot, Db}
use fossic.Append.{append_impl, next_version}
use fossic.Read.{i64_max}
use fossic.Append.Log.{IsUnique}
use fossic.Glob.{matches}
use fossic.Reducers.{BoxedReducer, ReducerRegistry, manual, returned}
use fossic.Snapshots.{SnapshotInfo, get_reducer, read_state_bytes_at_version, take_snapshot}
use fossic.Snapshots.State.{full_state, HasSettled, read_state_bytes_at_version-full}
use fossic.Snapshots.Writes.{take_snapshot-HasSettled}
use fossic.Snapshots.Appends.{append_impl-HasSettled}
use fossic.Upcasters.{UpcasterEntry, UpcasterRegistry, TransformEntry, entries_of, apply}
use fossic.Upcasters.Chains.{Upcasts, apply_iff, apply-ends}
use fossic.Tests.{
  small, notes, declared, first_note, first_outcome, first_row, one_event, two_events,
}

abbrev collector : BoxedReducer
collector = record {
  name = codes "collect";
  version = 1;
  state_schema_version = 1;
  initial_state_bytes = ok [];
  apply_bytes = λ state payload. returned (ok (state ++ payload));
}

abbrev registry : ReducerRegistry
registry =
    record { pattern = codes "**"; specificity = 0; reducer = collector; policy = manual } ∷ []

found : get_reducer registry notes ≡ ok collector
unfolding get_reducer matches fossic.Prelude.Lex.same
found = refl

abbrev first_snapshot : Snapshot
first_snapshot = record {
  stream_id = notes;
  branch = codes "main";
  version = 0;
  reducer_name = codes "collect";
  reducer_version = 1;
  state_schema_version = 1;
  state_blob = 192 ∷ [];
  created_at = 20;
}

abbrev one_snapshot : Db
one_snapshot = record one_event { snapshots = first_snapshot ∷ [] }

abbrev snapshot_and_two : Db
snapshot_and_two = record two_events { snapshots = first_snapshot ∷ [] }

two-IsUnique : IsUnique snapshot_and_two.events
unfolding fossic.Prelude.Lex.same
two-IsUnique = ((refl, tt), (tt, tt))

first_settled : HasSettled collector snapshot_and_two
unfolding fossic.Append.next_version fossic.Prelude.Lex.same fossic.Snapshots.apply_events
    fossic.Read.read_range_impl fossic.Prelude.Order.order_by
first_settled = ((omega arith, λ mine. refl), tt)

few_versions : next_version notes (codes "main") snapshot_and_two.events ≤ i64_max
unfolding next_version fossic.Prelude.Lex.same
few_versions = omega arith

read_state_bytes_at_version-full_example :
    read_state_bytes_at_version snapshot_and_two registry notes (codes "main") 1
    ≡ full_state snapshot_and_two collector notes (codes "main") (some 1)
read_state_bytes_at_version-full_example =
    read_state_bytes_at_version-full snapshot_and_two registry collector notes (codes "main") 1
      two-IsUnique few_versions first_settled found

abbrev first_info : SnapshotInfo
first_info = record {
  stream_id = notes;
  branch = codes "main";
  version = 0;
  reducer_name = codes "collect";
  reducer_version = 1;
  state_schema_version = 1;
  created_at = 20;
}

snapshot_taken :
    take_snapshot one_event registry notes (codes "main") 20 ≡ ok (first_info, one_snapshot)
unfolding take_snapshot matches fossic.Prelude.Lex.same fossic.Prelude.Order.order_by
snapshot_taken = refl

few_before : next_version notes (codes "main") one_event.events ≤ i64_max
unfolding next_version fossic.Prelude.Lex.same
few_before = omega arith

take_snapshot-HasSettled_example : HasSettled collector one_snapshot
take_snapshot-HasSettled_example =
    take_snapshot-HasSettled one_event one_snapshot registry collector notes (codes "main") 20
      first_info (tt, tt) few_before tt found snapshot_taken

-- Another stream with a snapshot.
abbrev other_row : StoredEvent
other_row = record first_row { id = 7 ∷ []; stream_id = codes "other" }

abbrev other_snapshot : Snapshot
other_snapshot = record first_snapshot { stream_id = codes "other" }

abbrev before : Db
before = record declared { events = other_row ∷ []; snapshots = other_snapshot ∷ [] }

abbrev after : Db
after = record before { events = other_row ∷ first_row ∷ [] }

appended : append_impl small before first_note Json.null (192 ∷ []) 9 ≡ ok (first_outcome, after)
unfolding append_impl fossic.Cce.derive_event_id fossic.Cce.event_id_input fossic.Cce.encode_string
    fossic.Text.as_bytes fossic.Cce.encode_value fossic.Prelude.Lex.same
    fossic.Prelude.Words.le_bytes fossic.Cce.encode_u32_as_i64 fossic.Cce.encode_i64
    fossic.Cce.encode_optional_bytes
appended = refl

before_settled : HasSettled collector before
unfolding fossic.Append.next_version fossic.Prelude.Lex.same fossic.Snapshots.apply_events
    fossic.Read.read_range_impl fossic.Prelude.Order.order_by
before_settled = ((omega arith, λ mine. refl), tt)

append_impl-HasSettled_example : HasSettled collector after
append_impl-HasSettled_example =
    append_impl-HasSettled small before after first_note Json.null (192 ∷ []) 9 first_outcome
      collector before_settled appended

abbrev upcasters : UpcasterRegistry
upcasters =
    (
      codes "n",
      record { from = 1; to = 2; upcast = λ p. ok (2 ∷ p) }
          ∷ record { from = 2; to = 3; upcast = λ p. ok (3 ∷ p) }
          ∷ [],
    )
    ∷ []

apply_iff_example :
    ((fuel : ℕ) × (apply fuel upcasters (codes "n") 1 (9 ∷ []) ≡ some (ok (3 ∷ 2 ∷ 9 ∷ []))))
    ↔ Upcasts (entries_of upcasters (codes "n")) 1 (9 ∷ []) (3 ∷ 2 ∷ 9 ∷ [])
apply_iff_example = apply_iff upcasters (codes "n") 1 (9 ∷ []) (3 ∷ 2 ∷ 9 ∷ [])

rising :
    All (λ (e : UpcasterEntry). (e.from < e.to) × (e.from < 3)) (entries_of upcasters (codes "n"))
unfolding entries_of fossic.Prelude.Lex.same
rising = ((omega arith, omega arith), ((omega arith, omega arith), tt))

three_steps : 3 - 1 < 3
three_steps = omega arith

apply-ends_example : (r : Result Error Bytes) × (apply 3 upcasters (codes "n") 1 (9 ∷ []) ≡ some r)
apply-ends_example = apply-ends 3 3 upcasters (codes "n") 1 (9 ∷ []) rising three_steps

abbrev transforms : List TransformEntry
transforms =
    record { pattern = codes "notes"; transform = λ t p. ok (5 ∷ p) }
    ∷ record { pattern = codes "a/*"; transform = λ t p. ok [] }
    ∷ []
