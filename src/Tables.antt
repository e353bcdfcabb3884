-- ===== src/Tables.antt =====
-- The tables of src/schema.rs and the records of src/types.rs that stand for their rows.
-- A table is the list of its rows in the order in which they were inserted. Numbers that the source
-- casts between `u64` and `i64` are plain numbers (versions stay far below 2 ^ 63), and so are
-- timestamps. The JSON that a row keeps as text stays text.
use fossic.Prelude.{ℕ, List, [], Option}
use fossic.Prelude.Words.{Bytes}
use fossic.Text.{Str}
use fossic.EventId.{EventId}
use fossic.Json.{Value}

-- `StoredEvent`, a row of `events`
pub record StoredEvent : Type 0 where
  pub id : EventId
  pub stream_id : Str
  pub branch : Str
  pub version : ℕ
  pub timestamp_us : ℕ
  pub causation_id : Option EventId
  pub correlation_id : Option EventId
  pub event_type : Str
  pub type_version : ℕ
  pub payload : Bytes
  pub external_id : Option Str
  pub indexed_tags : Option Str

pub record Append : Type 0 where
  pub stream_id : Str
  pub branch : Str
  pub event_type : Str
  pub type_version : ℕ
  pub payload : Value
  pub causation_id : Option EventId
  pub correlation_id : Option EventId
  pub external_id : Option Str
  pub indexed_tags : Option Value
  pub timestamp_us : Option ℕ

pub record StreamInfo : Type 0 where
  pub id : Str
  pub declared_by : Str
  pub declared_at : ℕ
  pub description : Option Str

pub record BranchInfo : Type 0 where
  pub id : Str
  pub stream_id : Str
  pub parent_id : Str
  pub parent_version : ℕ
  pub description : Option Str
  pub created_at : ℕ
  pub lifecycle : Str
  pub closed_at : Option ℕ
  pub closed_reason : Option Str
  pub alternatives : Option Str

-- a row of `snapshots`
pub record Snapshot : Type 0 where
  pub stream_id : Str
  pub branch : Str
  pub version : ℕ
  pub reducer_name : Str
  pub reducer_version : ℕ
  pub state_schema_version : ℕ
  pub state_blob : Bytes
  pub created_at : ℕ

-- a row of `cursors`
pub record Cursor : Type 0 where
  pub consumer_id : Str
  pub stream_id : Str
  pub branch : Str
  pub version : ℕ
  pub updated_at : ℕ

pub record Db : Type 0 where
  pub events : List StoredEvent
  pub branches : List BranchInfo
  pub snapshots : List Snapshot
  pub streams : List StreamInfo
  pub cursors : List Cursor

abbrev pub empty_db : Db
empty_db = record { events = []; branches = []; snapshots = []; streams = []; cursors = [] }
