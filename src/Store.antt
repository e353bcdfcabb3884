-- ===== src/Store.antt =====
-- The appends of `Store` in src/store.rs: the payload is transformed and encoded before the write, and a
-- new event is handed on to the subscribers.
-- The delivery to subscribers, the write notification and the counters are not modelled: `append`
-- returns the event that it hands on.
pub mod Published
pub mod Batch
pub mod Reads
pub mod Upcast
use fossic.Prelude.{
  ℕ, Bool, true, false, not, ◌&&◌, List, [], ◌∷◌, Option, none, some, if◌then◌else◌,
}
use fossic.Prelude.Words.{Bytes}
use fossic.Text.{Str, codes, starts_with}
use fossic.Error.{Error, Result, ok, err, ◌>>=◌}
use fossic.Json.{Value}
use fossic.EventId.{EventId}
use fossic.Env.{Env}
use fossic.Tables.{StoredEvent, Append, Db}
use fossic.Append.{AppendOutcome, append_impl, to_text}
use fossic.Upcasters.{TransformEntry, apply_transforms}

module _ (env : Env) where
  unfoldable pub prepare_payload :
      List TransformEntry → Str → Str → Value → Result Error (Value × Bytes)
  unfolding apply_transforms
  prepare_payload transforms stream_id event_type payload = do
    raw_bytes ← env.to_vec payload
    final_bytes ← apply_transforms transforms stream_id event_type raw_bytes
    final_value ← env.from_slice final_bytes
    ok (final_value, final_bytes)

  abbrev pub build_stored_event : AppendOutcome → Append → StoredEvent
  build_stored_event outcome a = record {
    id = outcome.event_id;
    stream_id = a.stream_id;
    branch = a.branch;
    version = outcome.version;
    timestamp_us = outcome.timestamp_us;
    causation_id = a.causation_id;
    correlation_id = a.correlation_id;
    event_type = a.event_type;
    type_version = a.type_version;
    payload = outcome.payload_bytes;
    external_id = a.external_id;
    indexed_tags = to_text env a.indexed_tags;
  }

  -- the event that is dispatched after the commit
  abbrev pub post_commit : Bool → AppendOutcome → Append → Option StoredEvent
  post_commit has_subs outcome a =
      if outcome.is_new && (has_subs && not (starts_with a.stream_id (codes "_fossic/")))
      then some (build_stored_event outcome a)
      else none

  unfoldable pub append :
      List TransformEntry
      → Bool
      → Db
      → Append
      → ℕ
      → Result Error (EventId × (Option StoredEvent × Db))
  unfolding prepare_payload append_impl starts_with
  append transforms has_subs db a now = do
    (payload_val, payload_bytes) ← prepare_payload transforms a.stream_id a.event_type a.payload
    (outcome, db') ← append_impl env db a payload_val payload_bytes now
    ok (outcome.event_id, (post_commit has_subs outcome a, db'))
