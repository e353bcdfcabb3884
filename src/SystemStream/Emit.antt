-- ===== src/SystemStream/Emit.antt =====
-- Emissions of src/system_stream.rs, against appends.
use fossic.Prelude.{ℕ, ◌≡◌, refl, true, Option, none, some, inl, inr}
use fossic.Text.{Str}
use fossic.Json.{Value}
use fossic.Error.{Error, Result, ok, err, Result-cases, ◌>>=◌}
use fossic.Env.{Env}
use fossic.Cce.{derive_event_id}
use fossic.Tables.{Append, Db}
use fossic.Stream.{stream_exists}
use fossic.Append.{AppendOutcome, append_impl, append_id, check_tags, insert_event}
use fossic.SystemStream.{system_stream, system_branch, emit}

-- The append of an event of the system stream.
abbrev pub system_append : Str → Value → Option Value → ℕ → Append
system_append event_type payload indexed_tags ts = record {
  stream_id = system_stream;
  branch = system_branch;
  event_type = event_type;
  type_version = 1;
  payload = payload;
  causation_id = none;
  correlation_id = none;
  external_id = none;
  indexed_tags = indexed_tags;
  timestamp_us = some ts;
}

-- The database after a call that may fail.
abbrev pub after : Db → Result Error (AppendOutcome × Db) → Db
after db (ok (o, db')) = db'
after db (err e) = db

module _ (env : Env) where
  -- With the system stream declared and the tags of a form that an append accepts, an emission leaves the
  -- database as the append of the same event to the system stream leaves it, with the encoded payload:
  -- unchanged where the payload cannot be encoded, its id cannot be derived or is in the log already.
  pub emit-append_impl :
      (db : Db) (event_type : Str) (payload : Value) (tags : Option Value) (ts : ℕ)
      → stream_exists db system_stream ≡ true
      → check_tags tags ≡ ok tt
      → emit env db event_type payload tags ts
        ≡ after db (
            env.to_vec payload >>= λ bytes.
            append_impl env db (system_append event_type payload tags ts) payload bytes ts)
  unfolding emit append_impl insert_event append_id
  emit-append_impl db t payload tags ts declared accepted =
      elim (Result-cases (env.to_vec payload)) [
        | inr (e, failed) ↦ rw (failed, emit) refl
        | inl (bytes, encoded) ↦
            elim (Result-cases (derive_event_id env.nfc env.hash t 1 none payload)) [
              | inr (e, failed) ↦ rw (encoded, emit) (rw accepted (rw (failed, emit) refl))
              | inl (id, derived) ↦
                  rw (encoded, emit) (rw accepted (rw (derived, emit) (rw declared refl)))
            ]
      ]
