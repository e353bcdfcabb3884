-- ===== src/Tests/Ids.antt =====
-- The theorems on canonical encoding and on event ids at small values.
use fossic.Prelude.{
  ℕ, ◌≡◌, ◌≢◌, ◌⊎◌, refl, Bool, true, false, List, [], ◌∷◌, ◌++◌, Option, none, some, arith, map,
}
use fossic.Prelude.Words.{Bytes}
use fossic.Text.{Str, codes}
use fossic.Json.{Value, Fields, IsSized}
use fossic.Json
use fossic.Error.{ok}
use fossic.Cce.{encode_value, event_id_input, derive_event_id}
use fossic.Cce.Canon.{encode_canon, canonical}
use fossic.Cce.Order.{swap, encode_value-Reordered}
use fossic.Cce.Identity.{Source, InRange, input, SameContent, derive_event_id-identifies}
use fossic.EventId.{EventId, IsEventId, to_hex, from_hex}
use fossic.EventId.Hex.{to_hex-from_hex, to_lower}

abbrev plain : Str → Str
plain s = s

-- `{"b": 1, "a": null}`
abbrev fields : Fields
fields =
    Json.field (codes "b") (Json.number (Json.int 1)) (Json.field (codes "a") Json.null Json.end)

abbrev swapped : Fields
swapped =
    Json.field (codes "a") Json.null (Json.field (codes "b") (Json.number (Json.int 1)) Json.end)

abbrev fields_code : Bytes
fields_code =
    7 ∷ 2 ∷ 0 ∷ 0 ∷ 0 ∷ 4 ∷ 1 ∷ 0 ∷ 0 ∷ 0 ∷ 97 ∷ 0 ∷ 4 ∷ 1 ∷ 0 ∷ 0 ∷ 0 ∷ 98 ∷ 2 ∷ 1 ∷ 0 ∷ 0 ∷ 0 ∷ 0
    ∷ 0 ∷ 0 ∷ 0 ∷ []

fields_encoded : encode_value plain (Json.object fields) ≡ ok fields_code
unfolding encode_value fossic.Cce.encode_string fossic.Text.as_bytes fossic.Cce.encode_number
    fossic.Cce.encode_pairs fossic.Cce.Sort.sort_by fossic.Prelude.Lex.lex_lt
    fossic.Prelude.Words.le_bytes fossic.Prelude.Lex.same fossic.Cce.encode_i64
fields_encoded = refl

encode_value-Reordered_example : encode_value plain (Json.object swapped) ≡ ok fields_code
encode_value-Reordered_example = encode_value-Reordered plain fields_code swap fields_encoded

abbrev source : Source
source = record {
  event_type = codes "n";
  type_version = 1;
  causation_id = none;
  payload = Json.bool true;
}

source-InRange : InRange source
source-InRange = record { version = omega arith; cause = tt; sized = tt }

abbrev source_input : Bytes
source_input =
    102 ∷ 111 ∷ 115 ∷ 115 ∷ 105 ∷ 99 ∷ 45 ∷ 99 ∷ 99 ∷ 101 ∷ 45 ∷ 118 ∷ 49 ∷ 0 ∷ 4 ∷ 1 ∷ 0 ∷ 0 ∷ 0
    ∷ 110 ∷ 2 ∷ 1 ∷ 0 ∷ 0 ∷ 0 ∷ 0 ∷ 0 ∷ 0 ∷ 0 ∷ 0 ∷ 1 ∷ 1 ∷ []

source_input_ok : input plain source ≡ ok source_input
unfolding event_id_input fossic.Cce.encode_string fossic.Text.as_bytes encode_value
    fossic.Prelude.Words.le_bytes fossic.Cce.encode_u32_as_i64 fossic.Cce.encode_i64
    fossic.Cce.encode_optional_bytes
source_input_ok = refl

abbrev first_two : Bytes → Bytes
first_two (x ∷ y ∷ s) = x ∷ y ∷ []
first_two s = s

source_id :
    derive_event_id plain first_two (codes "n") 1 none (Json.bool true) ≡ ok (102 ∷ 111 ∷ [])
unfolding derive_event_id event_id_input fossic.Cce.encode_string fossic.Text.as_bytes encode_value
source_id = refl

derive_event_id-identifies_example :
    SameContent plain source source
    ⊎ ((x y : Bytes) × (input plain source ≡ ok x)
        × (input plain source ≡ ok y)
        × (x ≢ y)
        × (first_two x ≡ first_two y))
derive_event_id-identifies_example =
    derive_event_id-identifies plain first_two source source (102 ∷ 111 ∷ []) source-InRange
      source-InRange source_id source_id

abbrev upper : Source
upper = record source { event_type = codes "N" }

-- A normalisation that makes every text the same.
abbrev blank : Str → Str
blank s = []

source-SameContent-upper : SameContent blank source upper
unfolding fossic.Cce.Canon.canonical_string
source-SameContent-upper = record {
  event_type = refl;
  type_version = refl;
  causation_id = refl;
  payload = refl;
}

-- 32 bytes
abbrev some_id : EventId
some_id =
    171 ∷ 0 ∷ 0 ∷ 0 ∷ 0 ∷ 0 ∷ 0 ∷ 0 ∷ 0 ∷ 0 ∷ 0 ∷ 0 ∷ 0 ∷ 0 ∷ 0 ∷ 0 ∷ 0 ∷ 0 ∷ 0 ∷ 0 ∷ 0 ∷ 0 ∷ 0 ∷ 0
    ∷ 0 ∷ 0 ∷ 0 ∷ 0 ∷ 0 ∷ 0 ∷ 0 ∷ 255 ∷ []

abbrev some_text : Str
some_text = codes "AB000000000000000000000000000000000000000000000000000000000000fF"

some_id-IsEventId : IsEventId some_id
some_id-IsEventId = ground arith

read_text : from_hex some_text ≡ ok some_id
unfolding from_hex
read_text = refl

to_hex-from_hex_example : IsEventId some_id × (to_hex some_id ≡ map to_lower some_text)
to_hex-from_hex_example = to_hex-from_hex some_text some_id read_text
