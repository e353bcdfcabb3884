-- ===== src/Tests/Purges.antt =====
-- The theorems on deletion at a log of two events.
use fossic.Prelude.{◌≡◌, refl, true, false, List, [], ◌∷◌, Option, none, some, arith}
use fossic.Prelude.Lex.{same}
use fossic.Text.{codes}
use fossic.Error.{ok}
use fossic.Tables.{Db}
use fossic.Append.Log.{IsUnique}
use fossic.Append.Outcome.{IsDeclared}
use fossic.Read.{read_one_impl}
use fossic.Deletion.{purge_event_impl, purge_confirm, purged_row, system_stream}
use fossic.Deletion.Purge.{read_one_impl-kept, purge_event_impl-IsUnique}
use fossic.Tests.{small, second_row, two_events, notes_info}

abbrev purged_db : Db
purged_db = record {
  events = second_row ∷ purged_row (229 ∷ []) 0 50 (1 ∷ []) ∷ [];
  branches = [];
  snapshots = [];
  streams =
      notes_info
      ∷ record {
        id = system_stream;
        declared_by = codes "fossic-internal";
        declared_at = 0;
        description = some (codes "Internal fossic system events");
      }
      ∷ [];
  cursors = [];
}

purge_ok :
    purge_event_impl small two_events (31 ∷ []) purge_confirm (codes "r") (codes "me") 50
    ≡ ok purged_db
unfolding purge_event_impl same fossic.Cce.derive_event_id fossic.Cce.event_id_input
    fossic.Cce.encode_string fossic.Text.as_bytes fossic.Cce.encode_value fossic.EventId.to_hex
    fossic.Cce.encode_number fossic.Cce.encode_pairs fossic.Cce.Sort.sort_by
    fossic.Prelude.Lex.lex_lt fossic.Prelude.Words.le_bytes fossic.Cce.encode_u32_as_i64
    fossic.Cce.encode_i64 fossic.Cce.encode_optional_bytes
purge_ok = refl

other_id : same (31 ∷ []) (32 ∷ []) ≡ false
unfolding same
other_id = refl

second_read : read_one_impl two_events (32 ∷ []) ≡ some second_row
unfolding read_one_impl same
second_read = refl

read_one_impl-kept_example : read_one_impl purged_db (32 ∷ []) ≡ some second_row
read_one_impl-kept_example =
    read_one_impl-kept small two_events purged_db (31 ∷ []) (32 ∷ []) purge_confirm (codes "r")
      (codes "me") 50 second_row purge_ok other_id second_read

two-IsUnique : IsUnique two_events.events
unfolding same
two-IsUnique = ((refl, tt), (tt, tt))

two-IsDeclared : IsDeclared two_events
unfolding fossic.Stream.stream_exists same
two-IsDeclared = (refl, (refl, tt))

purge_event_impl-IsUnique_example : IsUnique purged_db.events × IsDeclared purged_db
purge_event_impl-IsUnique_example =
    purge_event_impl-IsUnique small two_events purged_db (31 ∷ []) purge_confirm (codes "r")
      (codes "me") 50 two-IsUnique two-IsDeclared purge_ok
