-- ===== src/Cce/Canon.antt =====
-- What an encoding of src/cce.rs is about: the content of a payload, with texts normalised, floats
-- canonical and the fields of an object in the order of their encoded keys.
use fossic.Prelude.{ℕ, suc, Bool, List, [], ◌∷◌, ◌++◌, length, ltb, if◌then◌else◌}
use fossic.Prelude.Words.{Bytes, le_bytes}
use fossic.Text.{Str, as_bytes}
use fossic.Error.{CceError, u64_overflow, duplicate_keys, string_too_large, Result, ok, err, ◌>>=◌}
use fossic.Json
use fossic.Json.{Number, Value, Items, Fields}
use fossic.Cce.{
  tag_null, tag_bool, tag_int, tag_float, tag_string, tag_array, tag_map, max_string_bytes,
  canonicalize_f64, adjacent_duplicate,
}
use fossic.Cce.Sort.{sort_by}

mutual
  pub data Canon : Type 0 where
    null : Canon
    bool : Bool → Canon
    int : ℕ → Canon
    float : ℕ → Canon
    string : Bytes → Canon
    array : Elements → Canon
    object : Entries → Canon

  pub data Elements : Type 0 where
    nil : Elements
    cons : Canon → Elements → Elements

  pub data Entries : Type 0 where
    end : Entries
    entry : Bytes → Canon → Entries → Entries

abbrev pub Pair : Type 0
Pair = Bytes × Canon

abbrev pub count : Elements → ℕ
count nil = 0
count (cons c cs) = suc (count cs)

abbrev pub size : Entries → ℕ
size end = 0
size (entry k c es) = suc (size es)

abbrev pub to_entries : List Pair → Entries
to_entries [] = end
to_entries ((k, c) ∷ ps) = entry k c (to_entries ps)

unfoldable pub string_code : Bytes → Bytes
string_code bytes = tag_string ∷ le_bytes 4 (length bytes) ++ bytes

unfoldable mutual
  pub encode_canon : Canon → Bytes
  encode_canon null = tag_null ∷ []
  encode_canon (bool b) = tag_bool ∷ (if b then 1 else 0) ∷ []
  encode_canon (int w) = tag_int ∷ le_bytes 8 w
  encode_canon (float w) = tag_float ∷ le_bytes 8 w
  encode_canon (string s) = string_code s
  encode_canon (array cs) = tag_array ∷ le_bytes 4 (count cs) ++ encode_elements cs
  encode_canon (object es) = tag_map ∷ le_bytes 4 (size es) ++ encode_entries es

  pub encode_elements : Elements → Bytes
  encode_elements nil = []
  encode_elements (cons c cs) = encode_canon c ++ encode_elements cs

  pub encode_entries : Entries → Bytes
  encode_entries end = []
  encode_entries (entry k c es) = string_code k ++ (encode_canon c ++ encode_entries es)

-- Objects are ordered by the encoding of their keys.
abbrev pub entry_key : Pair → Bytes
entry_key p = string_code p.0

unfoldable pub canonical_pairs : List Pair → Result CceError Canon
canonical_pairs pairs =
    let sorted = sort_by entry_key pairs in
    if adjacent_duplicate entry_key sorted
    then err duplicate_keys
    else ok (object (to_entries sorted))

unfoldable pub canonical_number : Number → Result CceError Canon
canonical_number (Json.int w) = ok (int w)
canonical_number (Json.big u) = err (u64_overflow u)
canonical_number (Json.float w) = ok (float (canonicalize_f64 w))

module _ (nfc : Str → Str) where
  unfoldable pub canonical_string : Str → Result CceError Bytes
  canonical_string s =
      let bytes = as_bytes (nfc s) in
      if ltb max_string_bytes (length bytes)
      then err (string_too_large (length bytes))
      else ok bytes

  unfoldable mutual
    pub canonical : Value → Result CceError Canon
    canonical Json.null = ok null
    canonical (Json.bool b) = ok (bool b)
    canonical (Json.number n) = canonical_number n
    canonical (Json.string s) = do bytes ← canonical_string s; ok (string bytes)
    canonical (Json.array vs) = do cs ← canonical_items vs; ok (array cs)
    canonical (Json.object fs) = do pairs ← canonical_fields fs; canonical_pairs pairs

    pub canonical_items : Items → Result CceError Elements
    canonical_items Json.nil = ok nil
    canonical_items (Json.cons v vs) = do c ← canonical v; cs ← canonical_items vs; ok (cons c cs)

    pub canonical_fields : Fields → Result CceError (List Pair)
    canonical_fields Json.end = ok []
    canonical_fields (Json.field k v fs) = do
      key ← canonical_string k
      c ← canonical v
      pairs ← canonical_fields fs
      ok ((key, c) ∷ pairs)
