-- ===== src/Env.antt =====
-- What the sources take from other crates: Unicode normalisation, the blake3 hash, JSON text and the
-- msgpack codec of payloads.
use fossic.Prelude.Words.{Bytes}
use fossic.Text.{Str}
use fossic.Error.{Error, Result}
use fossic.Json.{Value}

pub record Env : Type 0 where
  -- `nfc().collect()` of unicode_normalization
  pub nfc : Str → Str
  -- `blake3::hash`
  pub hash : Bytes → Bytes
  -- `to_string` of a serde_json value
  pub to_json : Value → Str
  -- `rmp_serde::to_vec` and `rmp_serde::from_slice`
  pub to_vec : Value → Result Error Bytes
  pub from_slice : Bytes → Result Error Value
