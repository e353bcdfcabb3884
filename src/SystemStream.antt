-- ===== src/SystemStream.antt =====
-- src/system_stream.rs and the writers of src/registry.rs: the events that the store writes about itself.
-- An emission that fails is dropped: the database stays as it is. Failures of the connection are left out,
-- and so is a writer that could not be opened. The objects of `json!` hold their keys in order. Integers are words below 2 ^ 63.
pub mod Emit
use fossic.Prelude.{ℕ, List, [], ◌∷◌, Option, none, some}
use fossic.Prelude.Words.{Bytes}
use fossic.Text.{Str, codes}
use fossic.Json
use fossic.Json.{Value}
use fossic.Error.{Result, ok, err}
use fossic.EventId.{EventId}
use fossic.Env.{Env}
use fossic.Cce.{derive_event_id}
use fossic.Tables.{StoredEvent, Db}
use fossic.Append.{next_version, insert_or_ignore, to_text}

abbrev pub system_stream : Str
system_stream = codes "_fossic/system"

abbrev pub system_branch : Str
system_branch = codes "main"

abbrev pub system_row : Env → EventId → ℕ → ℕ → Str → Bytes → Option Value → StoredEvent
system_row env id version ts event_type payload indexed_tags = record {
  id = id;
  stream_id = system_stream;
  branch = system_branch;
  version = version;
  timestamp_us = ts;
  causation_id = none;
  correlation_id = none;
  event_type = event_type;
  type_version = 1;
  payload = payload;
  external_id = none;
  indexed_tags = to_text env indexed_tags;
}

module _ (env : Env) where
  unfoldable pub emit : Db → Str → Value → Option Value → ℕ → Db
  unfolding next_version insert_or_ignore
  emit db event_type payload indexed_tags ts = elim (env.to_vec payload) [
    | err _ ↦ db
    | ok payload_bytes ↦ elim (derive_event_id env.nfc env.hash event_type 1 none payload) [
      | err _ ↦ db
      | ok event_id ↦
          (let version = next_version system_stream system_branch db.events in
            let row = system_row env event_id version ts event_type payload_bytes indexed_tags in
            record db { events = (insert_or_ignore row db.events).0 })
    ]
  ]

  abbrev pub degraded_payload : ℕ → Str → Str → ℕ → Value
  degraded_payload sub_id stream_id branch dropped_version = Json.object (
      Json.field (codes "branch") (Json.string branch) (
        Json.field (codes "dropped_version") (Json.number (Json.int dropped_version)) (
          Json.field (codes "stream_id") (Json.string stream_id)
            (Json.field (codes "subscription_id") (Json.number (Json.int sub_id)) Json.end))))

  unfoldable pub emit_subscription_degraded : Db → ℕ → Str → Str → ℕ → ℕ → Db
  unfolding emit
  emit_subscription_degraded db sub_id stream_id branch dropped_version ts =
      emit db (codes "SubscriptionDegraded")
        (degraded_payload sub_id stream_id branch dropped_version) none ts

  abbrev pub source_tags : Str → Value
  source_tags source_store =
      Json.object (Json.field (codes "source_store") (Json.string source_store) Json.end)

  unfoldable pub emit_project_registered : Db → Str → Str → Str → Str → ℕ → Db
  unfolding emit
  emit_project_registered db source_store local_store_path subscribe_pattern project_description
        ts =
      emit db (codes "ProjectRegistered")
        (Json.object (
          Json.field (codes "local_store_path") (Json.string local_store_path) (
            Json.field (codes "project_description") (Json.string project_description) (
              Json.field (codes "source_store") (Json.string source_store) (
                Json.field (codes "subscribe_pattern") (Json.string subscribe_pattern) Json.end)))))
        (some (source_tags source_store)) ts

  unfoldable pub emit_relay_heartbeat : Db → Str → ℕ → ℕ → ℕ → ℕ → Db
  unfolding emit
  emit_relay_heartbeat db source_store last_event_version queue_lag uptime_us ts =
      emit db (codes "RelayHeartbeat")
        (Json.object (
          Json.field (codes "last_event_version") (Json.number (Json.int last_event_version)) (
            Json.field (codes "queue_lag") (Json.number (Json.int queue_lag)) (
              Json.field (codes "source_store") (Json.string source_store)
                (Json.field (codes "uptime_us") (Json.number (Json.int uptime_us)) Json.end)))))
        (some (source_tags source_store)) ts
