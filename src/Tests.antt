-- ===== src/Tests.antt =====
-- Concrete data, and the theorems applied to it.
mod Ids
mod Patterns
mod Logs
mod States
mod Rows
mod Purges
mod Listings
mod Published
mod Subs
mod Walks
mod Background
mod Facade
use fossic.Prelude.{ℕ, Bool, true, ◌&&◌, ◌||◌, leb, ◌==◌, List, [], ◌∷◌, length, none, some}
use fossic.Prelude.Words.{Bytes}
use fossic.Text.{Str, codes}
use fossic.Json
use fossic.Error.{ok}
use fossic.Env.{Env}
use fossic.Tables.{StoredEvent, Append, StreamInfo, Db}
use fossic.Append.{AppendOutcome}

-- Lower-case letters and digits.
abbrev pub letters : ℕ → Bool
letters c = (leb b'a' c && leb c b'z') || (leb b'0' c && leb c b'9')

-- The hash is the length, a payload's bytes are its tag.
abbrev pub small : Env
small = record {
  nfc = λ s. s;
  hash = λ bytes. length bytes ∷ [];
  to_json = λ v. codes "{}";
  to_vec = λ v. ok (1 ∷ []);
  from_slice = λ bytes. ok Json.null;
}

abbrev pub notes : Str
notes = codes "notes"

abbrev pub notes_info : StreamInfo
notes_info = record { id = notes; declared_by = codes "me"; declared_at = 5; description = none }

-- One declared stream and no event.
abbrev pub declared : Db
declared = record {
  events = [];
  branches = [];
  snapshots = [];
  streams = notes_info ∷ [];
  cursors = [];
}

abbrev pub note_of : Json.Value → Append
note_of v = record {
  stream_id = notes;
  branch = codes "main";
  event_type = codes "n";
  type_version = 1;
  payload = v;
  causation_id = none;
  correlation_id = none;
  external_id = none;
  indexed_tags = none;
  timestamp_us = none;
}

abbrev pub first_note : Append
first_note = note_of Json.null

-- What the append of the first note returns, and the row that it writes.
abbrev pub first_outcome : AppendOutcome
first_outcome = record {
  event_id = 31 ∷ [];
  version = 0;
  timestamp_us = 9;
  payload_bytes = 1 ∷ [];
  is_new = true;
}

abbrev pub first_row : StoredEvent
first_row = record {
  id = 31 ∷ [];
  stream_id = notes;
  branch = codes "main";
  version = 0;
  timestamp_us = 9;
  causation_id = none;
  correlation_id = none;
  event_type = codes "n";
  type_version = 1;
  payload = 192 ∷ [];
  external_id = none;
  indexed_tags = none;
}

abbrev pub one_event : Db
one_event = record {
  events = first_row ∷ [];
  branches = [];
  snapshots = [];
  streams = notes_info ∷ [];
  cursors = [];
}

-- A second event of the stream.
abbrev pub second_row : StoredEvent
second_row = record first_row { id = 32 ∷ []; version = 1; payload = 193 ∷ 194 ∷ [] }

abbrev pub two_events : Db
two_events = record one_event { events = first_row ∷ second_row ∷ [] }
