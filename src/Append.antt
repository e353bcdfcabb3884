-- ===== src/Append.antt =====
-- src/append.rs: the writes to the event log.
-- A transaction that ends in an error leaves the database as it was, so an error carries no database.
pub mod Log
pub mod Outcome
pub mod Batch
use fossic.Prelude.{
  ℕ, suc, ◌<◌, Bool, true, false, not, ◌&&◌, ◌||◌, List, [], ◌∷◌, ◌++◌, Option, none, some, ◌==◌,
  ltb, any, map, if◌then◌else◌,
}
use fossic.Prelude.Lex.{same}
use fossic.Prelude.Words.{Bytes}
use fossic.Text.{Str, codes}
use fossic.Error.{
  Error, invalid_indexed_tags, stream_not_declared, cce, Result, ok, err, ◌>>=◌, map_err,
}
use fossic.Json.{Value, is_object}
use fossic.Json
use fossic.EventId.{EventId}
use fossic.Cce.{derive_event_id}
use fossic.Env.{Env}
use fossic.Tables.{StoredEvent, Append, Db}
use fossic.Stream.{stream_exists}

pub record AppendOutcome : Type 0 where
  pub event_id : EventId
  pub version : ℕ
  pub timestamp_us : ℕ
  pub payload_bytes : Bytes
  pub is_new : Bool

-- the word for a value that is not an object
abbrev pub json_kind : Value → Str
json_kind (Json.array _) = codes "array"
json_kind (Json.bool _) = codes "bool"
json_kind (Json.number _) = codes "number"
json_kind (Json.string _) = codes "string"
json_kind Json.null = codes "null"
json_kind (Json.object _) = codes "object"

unfoldable pub check_tags : Option Value → Result Error (Unit {0})
check_tags none = ok tt
check_tags (some tags) =
    if is_object tags then ok tt else err (invalid_indexed_tags (json_kind tags))

abbrev pub at_stream : Str → Str → StoredEvent → Bool
at_stream stream_id branch e = same e.stream_id stream_id && same e.branch branch

-- `COALESCE(MAX(version), -1) + 1`
unfoldable pub next_version : Str → Str → List StoredEvent → ℕ
next_version stream_id branch [] = 0
next_version stream_id branch (e ∷ es) =
    let rest = next_version stream_id branch es in
    if at_stream stream_id branch e && ltb rest (suc e.version) then suc e.version else rest

-- The primary key and the unique constraint of the table.
abbrev pub conflicts : StoredEvent → StoredEvent → Bool
conflicts new old =
    same old.id new.id || (at_stream new.stream_id new.branch old && old.version == new.version)

-- `INSERT OR IGNORE INTO events`: the table, and whether a row was added
unfoldable pub insert_or_ignore : StoredEvent → List StoredEvent → List StoredEvent × Bool
insert_or_ignore new events =
    if any (conflicts new) events then (events, false) else (events ++ new ∷ [], true)

abbrev pub unwrap_or_default : Result Error Bytes → Bytes
unwrap_or_default (ok bytes) = bytes
unwrap_or_default (err e) = []

abbrev pub unwrap_or : Option ℕ → ℕ → ℕ
unwrap_or none d = d
unwrap_or (some t) d = t

module _ (env : Env) where
  abbrev pub to_text : Option Value → Option Str
  to_text none = none
  to_text (some tags) = some (env.to_json tags)

  unfoldable pub append_id : Append → Value → Result Error EventId
  append_id a payload =
      map_err cce
        (derive_event_id env.nfc env.hash a.event_type a.type_version a.causation_id payload)

  -- The row of an append at a version.
  abbrev pub new_row : Append → EventId → ℕ → ℕ → Bytes → StoredEvent
  new_row a event_id version timestamp payload_bytes = record {
    id = event_id;
    stream_id = a.stream_id;
    branch = a.branch;
    version = version;
    timestamp_us = timestamp;
    causation_id = a.causation_id;
    correlation_id = a.correlation_id;
    event_type = a.event_type;
    type_version = a.type_version;
    payload = payload_bytes;
    external_id = a.external_id;
    indexed_tags = to_text a.indexed_tags;
  }

  -- The transaction, from the test of the stream to the insert.
  unfoldable pub insert_event :
      Db → Append → EventId → ℕ → Bytes → Bytes → Result Error (AppendOutcome × Db)
  unfolding next_version insert_or_ignore stream_exists
  insert_event db a event_id timestamp payload_bytes outcome_bytes =
      if stream_exists db a.stream_id
      then (let version = next_version a.stream_id a.branch db.events in
          let (events, is_new) =
            insert_or_ignore (new_row a event_id version timestamp payload_bytes) db.events in
          ok (
            record {
              event_id = event_id;
              version = version;
              timestamp_us = timestamp;
              payload_bytes = outcome_bytes;
              is_new = is_new;
            },
            record db { events = events },
          ))
      else err (stream_not_declared a.stream_id)

  unfoldable pub append_impl : Db → Append → Value → Bytes → ℕ → Result Error (AppendOutcome × Db)
  unfolding check_tags append_id insert_event
  append_impl db a payload payload_bytes now = do
    _ ← check_tags a.indexed_tags
    event_id ← append_id a payload
    insert_event db a event_id (unwrap_or a.timestamp_us now) payload_bytes
        (unwrap_or_default (env.to_vec payload))

  -- the condition reads the database inside the transaction, after the test of the stream
  unfoldable pub append_if_impl :
      Db
      → Append
      → Value
      → Bytes
      → ℕ
      → (Db → Result Error Bool)
      → Result Error (Option AppendOutcome × Db)
  unfolding check_tags append_id insert_event
  append_if_impl db a payload payload_bytes now condition = do
    _ ← check_tags a.indexed_tags
    event_id ← append_id a payload
    if stream_exists db a.stream_id
        then (do
          holds ← condition db
          if holds
              then (do
                (outcome, db') ←
                    insert_event db a event_id (unwrap_or a.timestamp_us now) payload_bytes
                      (unwrap_or_default (env.to_vec payload))
                ok (some outcome, db'))
              else ok (none, db))
        else err (stream_not_declared a.stream_id)
