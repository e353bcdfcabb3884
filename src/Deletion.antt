-- ===== src/Deletion.antt =====
-- src/deletion.rs: removing one event, with an audit event in its place.
-- The line that is written to the standard error output is not modelled.
pub mod Purge
use fossic.Prelude.{
  ℕ, Bool, true, false, not, List, [], ◌∷◌, ◌++◌, Option, none, some, keep, if◌then◌else◌,
}
use fossic.Prelude.Lex.{same}
use fossic.Prelude.Words.{Bytes}
use fossic.Text.{Str, codes}
use fossic.Error.{
  Error, purge_confirmation_error, event_not_found, not_implemented, cce, Result, ok, err, ◌>>=◌,
  map_err,
}
use fossic.Json.{Value}
use fossic.Json
use fossic.EventId.{EventId, to_hex}
use fossic.Cce.{derive_event_id}
use fossic.Env.{Env}
use fossic.Tables.{StoredEvent, Db}
use fossic.Stream.{insert_stream}
use fossic.Append.{next_version, insert_or_ignore}
use fossic.Read.{read_one_impl}

abbrev pub purge_confirm : Str
purge_confirm = codes "I understand this breaks replay-from-zero"

abbrev pub system_stream : Str
system_stream = codes "_fossic/system"

abbrev pub purged_event_type : Str
purged_event_type = codes "Purged"

-- the payload of the audit event, without the payload of the purged one; `json!` holds its keys in order
abbrev pub purged_payload : EventId → StoredEvent → Str → Str → ℕ → Value
purged_payload id original reason purged_by purged_at_us = Json.object (
    Json.field (codes "event_id_purged") (Json.string (to_hex id)) (
      Json.field (codes "original_event_type") (Json.string original.event_type) (
        Json.field (codes "original_stream_id") (Json.string original.stream_id) (
          Json.field (codes "original_timestamp_us") (Json.number (Json.int original.timestamp_us))
            (Json.field (codes "purged_at_us") (Json.number (Json.int purged_at_us)) (
              Json.field (codes "purged_by") (Json.string purged_by)
                (Json.field (codes "reason") (Json.string reason) Json.end)))))))

-- The row of the audit event.
abbrev pub purged_row : EventId → ℕ → ℕ → Bytes → StoredEvent
purged_row id version purged_at_us payload = record {
  id = id;
  stream_id = system_stream;
  branch = codes "main";
  version = version;
  timestamp_us = purged_at_us;
  causation_id = none;
  correlation_id = none;
  event_type = purged_event_type;
  type_version = 1;
  payload = payload;
  external_id = none;
  indexed_tags = none;
}

-- The writes of the transaction: the stream, the audit event, and the deletion.
unfoldable pub purge_rows : Db → EventId → EventId → ℕ → Bytes → Db
unfolding insert_stream next_version insert_or_ignore
purge_rows db id purged_id purged_at_us payload =
    let row =
      purged_row purged_id (next_version system_stream (codes "main") db.events) purged_at_us
        payload in
    record db {
      streams =
          insert_stream
            (record {
              id = system_stream;
              declared_by = codes "fossic-internal";
              declared_at = 0;
              description = some (codes "Internal fossic system events");
            })
            db.streams;
      events = keep (λ e. not (same e.id id)) (insert_or_ignore row db.events).0;
    }

unfoldable pub purge_event_impl : Env → Db → EventId → Str → Str → Str → ℕ → Result Error Db
unfolding read_one_impl purge_rows
purge_event_impl env db id confirm reason purged_by purged_at_us =
    if same confirm purge_confirm
    then elim (read_one_impl db id) [
      | none ↦ err (event_not_found (to_hex id))
      | some original ↦ (do
        let payload = purged_payload id original reason purged_by purged_at_us
        purged_id ← map_err cce (derive_event_id env.nfc env.hash purged_event_type 1 none payload)
        payload_bytes ← env.to_vec payload
        ok (purge_rows db id purged_id purged_at_us payload_bytes))
    ]
    else err (purge_confirmation_error confirm)
