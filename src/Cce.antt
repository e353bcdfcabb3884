-- ===== src/Cce.antt =====
-- src/cce.rs: the canonical content encoding and the event ids derived from it.
-- A function that writes to `out` returns the bytes that it appends. Unicode normalisation (`nfc`)
-- and the hash are parameters. Proofs about the encoding stand in the modules below.
pub mod Sort
pub mod Canon
pub mod Writes
pub mod Unique
pub mod Sized
pub mod Identity
pub mod Order
use fossic.Prelude.{
  ℕ, ◌+◌, ◌%◌, ◌≡◌, refl, Bool, true, false, ◌||◌, List, [], ◌∷◌, ◌++◌, Option, none, some, length,
  ltb, ◌==◌, if◌then◌else◌,
}
use fossic.Prelude.Lex.{same}
use fossic.Prelude.Words.{Bytes, le_bytes}
use fossic.Text.{Str, as_bytes, codes}
use fossic.Error.{CceError, u64_overflow, duplicate_keys, string_too_large, Result, ok, err, ◌>>=◌}
use fossic.Json.{
  Number, int, big, float, Value, null, bool, number, string, array, object, Items, nil, cons,
  Fields, end, field, count,
}
use Sort.{sort_by}

abbrev pub tag_null : ℕ
tag_null = 0

abbrev pub tag_bool : ℕ
tag_bool = 1

abbrev pub tag_int : ℕ
tag_int = 2

abbrev pub tag_float : ℕ
tag_float = 3

abbrev pub tag_string : ℕ
tag_string = 4

abbrev pub tag_bytes : ℕ
tag_bytes = 5

abbrev pub tag_array : ℕ
tag_array = 6

abbrev pub tag_map : ℕ
tag_map = 7

-- 64 * 1024 * 1024
abbrev pub max_string_bytes : ℕ
max_string_bytes = 67108864

-- "fossic-cce-v1\0"
abbrev pub cce_prefix : Bytes
cce_prefix = codes "fossic-cce-v1" ++ 0 ∷ []

unfoldable pub encode_i64 : ℕ → Bytes
encode_i64 v = tag_int ∷ le_bytes 8 v

-- NaN: all exponent bits set and a fraction that is not zero. Both zeros have no bit but the sign.
unfoldable pub canonicalize_f64 : ℕ → ℕ
canonicalize_f64 v =
    if ltb 0x7ff0_0000_0000_0000 (v % 0x8000_0000_0000_0000)
    then 0x7ff8_0000_0000_0000
    else if (v % 0x8000_0000_0000_0000) == 0
    then 0
    else v

unfoldable pub encode_f64 : ℕ → Bytes
encode_f64 v = tag_float ∷ le_bytes 8 (canonicalize_f64 v)

unfoldable pub encode_u32_as_i64 : ℕ → Bytes
encode_u32_as_i64 v = encode_i64 v

-- `len as u32`: `le_bytes 4` keeps the low 32 bits.
unfoldable pub encode_bytes : Bytes → Bytes
encode_bytes bytes = tag_bytes ∷ le_bytes 4 (length bytes) ++ bytes

unfoldable pub encode_optional_bytes : Option Bytes → Bytes
encode_optional_bytes none = tag_null ∷ []
encode_optional_bytes (some b) = encode_bytes b

-- `windows(2)` with equal keys
abbrev pub adjacent_duplicate {ℓ} : {A : Type ℓ} → (A → Bytes) → List A → Bool
adjacent_duplicate key [] = false
adjacent_duplicate key (p ∷ []) = false
adjacent_duplicate key (p ∷ q ∷ ps) = same (key p) (key q) || adjacent_duplicate key (q ∷ ps)

-- the loop that writes the sorted pairs
abbrev pub write_pairs : List (Bytes × Bytes) → Bytes
write_pairs [] = []
write_pairs ((k, v) ∷ ps) = k ++ (v ++ write_pairs ps)

-- The key of an encoded pair.
abbrev pub pair_key : Bytes × Bytes → Bytes
pair_key p = p.0

unfoldable pub encode_pairs : List (Bytes × Bytes) → Result CceError Bytes
encode_pairs pairs =
    let sorted = sort_by pair_key pairs in
    if adjacent_duplicate pair_key sorted
    then err duplicate_keys
    else ok (tag_map ∷ le_bytes 4 (length sorted) ++ write_pairs sorted)

unfoldable pub encode_number : Number → Result CceError Bytes
encode_number (int i) = ok (encode_i64 i)
encode_number (big u) = err (u64_overflow u)
encode_number (float f) = ok (encode_f64 f)

module _ (nfc : Str → Str) where
  unfoldable pub encode_string : Str → Result CceError Bytes
  encode_string s =
      let bytes = as_bytes (nfc s) in
      if ltb max_string_bytes (length bytes)
      then err (string_too_large (length bytes))
      else ok (tag_string ∷ le_bytes 4 (length bytes) ++ bytes)

  unfoldable mutual
    pub encode_value : Value → Result CceError Bytes
    encode_value null = ok (tag_null ∷ [])
    encode_value (bool b) = ok (tag_bool ∷ (if b then 1 else 0) ∷ [])
    encode_value (number n) = encode_number n
    encode_value (string s) = encode_string s
    encode_value (array arr) = do
      body ← encode_items arr
      ok (tag_array ∷ le_bytes 4 (count arr) ++ body)
    encode_value (object map) = do pairs ← encode_fields map; encode_pairs pairs

    pub encode_items : Items → Result CceError Bytes
    encode_items nil = ok []
    encode_items (cons item rest) = do b ← encode_value item; bs ← encode_items rest; ok (b ++ bs)

    pub encode_fields : Fields → Result CceError (List (Bytes × Bytes))
    encode_fields end = ok []
    encode_fields (field k v rest) = do
      key_bytes ← encode_string k
      val_bytes ← encode_value v
      pairs ← encode_fields rest
      ok ((key_bytes, val_bytes) ∷ pairs)

  -- The buffer that `derive_event_id` hashes.
  unfoldable pub event_id_input : Str → ℕ → Option Bytes → Value → Result CceError Bytes
  event_id_input event_type type_version causation_id payload = do
    t ← encode_string event_type
    p ← encode_value payload
    ok (
        cce_prefix
        ++ (t ++ (encode_u32_as_i64 type_version ++ (encode_optional_bytes causation_id ++ p))))

  unfoldable pub derive_event_id :
      (Bytes → Bytes) → Str → ℕ → Option Bytes → Value → Result CceError Bytes
  derive_event_id hash event_type type_version causation_id payload = do
    buf ← event_id_input event_type type_version causation_id payload
    ok (hash buf)
