-- ===== src/Cce/Writes.antt =====
-- `encode_value` of src/cce.rs and canonical values.
use fossic.Prelude.{suc, ◌≡◌, refl, ap, List, [], ◌∷◌, map, length, arith, Bool-cases, inl, inr}
use fossic.Prelude.Words.{Bytes}
use fossic.Text.{Str}
use fossic.Error.{ok, map_ok, Result-cases}
use fossic.Json
use fossic.Json.{Number, Value, Items, Fields}
use fossic.Cce.{
  encode_i64, encode_f64, encode_number, encode_string, encode_value, encode_items, encode_fields,
  adjacent_duplicate, encode_pairs, write_pairs, pair_key,
}
use fossic.Cce.Sort.{sort_by, map-sort_by}
use fossic.Cce.Canon
use fossic.Cce.Canon.{
  Canon, Elements, Entries, Pair, to_entries, string_code, encode_canon, entry_key, canonical_pairs,
  canonical_number, canonical_string, canonical, canonical_items, canonical_fields, count, size,
  nil, cons,
}

-- The pair that the encoder keeps for a pair of a key and a canonical value.
abbrev coded : Pair → Bytes × Bytes
coded p = (string_code p.0, encode_canon p.1)

adjacent_duplicate-map {ℓ κ} :
    {A : Type ℓ} {B : Type κ} (f : A → B) (key : A → Bytes) (key' : B → Bytes)
    → ((a : A) → key' (f a) ≡ key a)
    → (xs : List A) → adjacent_duplicate key' (map f xs) ≡ adjacent_duplicate key xs
adjacent_duplicate-map f key key' agree [] = refl
adjacent_duplicate-map f key key' agree (x ∷ []) = refl
adjacent_duplicate-map f key key' agree (x ∷ y ∷ xs) =
    rw (agree x, agree y, adjacent_duplicate-map f key key' agree (y ∷ xs))

write_pairs-coded :
    (ps : List Pair) → write_pairs (map coded ps) ≡ Canon.encode_entries (to_entries ps)
unfolding encode_canon
write_pairs-coded [] = refl
write_pairs-coded ((k, c) ∷ ps) = rw (write_pairs-coded ps)

size-to_entries : (ps : List Pair) → size (to_entries ps) ≡ length ps
size-to_entries [] = refl
size-to_entries ((k, c) ∷ ps) = ap suc (size-to_entries ps)

length-coded : (ps : List Pair) → length (map coded ps) ≡ length ps
length-coded [] = refl
length-coded (p ∷ ps) = ap suc (length-coded ps)

encode_pairs-coded :
    (ps : List Pair) → encode_pairs (map coded ps) ≡ map_ok encode_canon (canonical_pairs ps)
unfolding encode_pairs canonical_pairs encode_canon
encode_pairs-coded ps =
    rw
      (
        map-sort_by coded entry_key pair_key (λ a. refl) ps,
        adjacent_duplicate-map coded entry_key pair_key (λ a. refl) (sort_by entry_key ps),
        write_pairs-coded (sort_by entry_key ps),
        length-coded (sort_by entry_key ps),
        ← size-to_entries (sort_by entry_key ps),
      )
      (elim (Bool-cases (adjacent_duplicate entry_key (sort_by entry_key ps))) [
        | inl e ↦ rw e
        | inr e ↦ rw e
      ])

module _ (nfc : Str → Str) where
  pub encode_string-canonical :
      (s : Str) → encode_string nfc s ≡ map_ok string_code (canonical_string nfc s)
  unfolding encode_string canonical_string string_code
  encode_string-canonical s = ground arith

  encode_number-canonical :
      (n : Number) → encode_number n ≡ map_ok encode_canon (canonical_number n)
  unfolding encode_number canonical_number encode_canon encode_i64 encode_f64
  encode_number-canonical (Json.int w) = refl
  encode_number-canonical (Json.big u) = refl
  encode_number-canonical (Json.float w) = refl

  count-canonical_items :
      (vs : Items) (cs : Elements) → canonical_items nfc vs ≡ ok cs → count cs ≡ Json.count vs
  unfolding canonical
  count-canonical_items Json.nil cs h = ground arith
  count-canonical_items (Json.cons v vs) nil h = ground arith
  count-canonical_items (Json.cons v vs) (cons c cs) h = ground (arith, count-canonical_items vs cs)

  encode_array-canonical :
      (vs : Items)
      → encode_items nfc vs ≡ map_ok Canon.encode_elements (canonical_items nfc vs)
      → encode_value nfc (Json.array vs) ≡ map_ok encode_canon (canonical nfc (Json.array vs))
  unfolding encode_value canonical encode_canon
  encode_array-canonical vs h = elim (Result-cases (canonical_items nfc vs)) [
    | inl (cs, e) ↦ ground (arith, count-canonical_items vs cs)
    | inr (x, e) ↦ ground arith
  ]

  encode_object-canonical :
      (fs : Fields)
      → encode_fields nfc fs ≡ map_ok (map coded) (canonical_fields nfc fs)
      → encode_value nfc (Json.object fs) ≡ map_ok encode_canon (canonical nfc (Json.object fs))
  unfolding encode_value canonical
  encode_object-canonical fs h = elim (Result-cases (canonical_fields nfc fs)) [
    | inl (ps, e) ↦ ground (arith, encode_pairs-coded ps)
    | inr (x, e) ↦ ground arith
  ]

  mutual
    unfolding encode_value canonical encode_canon

    encodes : (v : Value) → encode_value nfc v ≡ map_ok encode_canon (canonical nfc v)
    encodes Json.null = refl
    encodes (Json.bool b) = refl
    encodes (Json.number n) = encode_number-canonical n
    encodes (Json.string s) = ground (arith, encode_string-canonical s)
    encodes (Json.array vs) = encode_array-canonical vs (encodes_items vs)
    encodes (Json.object fs) = encode_object-canonical fs (encodes_fields fs)

    encodes_items :
        (vs : Items) → encode_items nfc vs ≡ map_ok Canon.encode_elements (canonical_items nfc vs)
    encodes_items Json.nil = refl
    encodes_items (Json.cons v vs) = ground (arith, encodes v, encodes_items vs)

    encodes_fields :
        (fs : Fields) → encode_fields nfc fs ≡ map_ok (map coded) (canonical_fields nfc fs)
    encodes_fields Json.end = refl
    encodes_fields (Json.field k v fs) =
        ground (arith, encode_string-canonical k, encodes v, encodes_fields fs)

  -- The encoder succeeds exactly where the canonical value exists, with the encoding of that value,
  -- and it fails with the same error.
  pub encode_value-canonical :
      (v : Value) → encode_value nfc v ≡ map_ok encode_canon (canonical nfc v)
  encode_value-canonical v = encodes v
