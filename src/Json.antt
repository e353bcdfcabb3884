-- ===== src/Json.antt =====
-- The values of serde_json as the sources match on them: `Value`, and `Number` as its three views
-- `as_i64`, `as_u64` and `as_f64` tell it apart. A word is its bit pattern: an `i64` in two's
-- complement, an `f64` in IEEE 754.
use fossic.Prelude.{ℕ, suc, Bool, true, false, Option, none, some, ◌<◌}
use fossic.Text.{Str}

-- An integer in the range of `i64`, a larger one in that of `u64`, or a float.
pub data Number : Type 0 where
  int : ℕ → Number
  big : ℕ → Number
  float : ℕ → Number

abbrev pub as_i64 : Number → Option ℕ
as_i64 (int w) = some w
as_i64 _ = none

abbrev pub as_u64 : Number → Option ℕ
as_u64 (big u) = some u
as_u64 _ = none

mutual
  pub data Value : Type 0 where
    null : Value
    bool : Bool → Value
    number : Number → Value
    string : Str → Value
    array : Items → Value
    object : Fields → Value

  pub data Items : Type 0 where
    nil : Items
    cons : Value → Items → Items

  pub data Fields : Type 0 where
    end : Fields
    field : Str → Value → Fields → Fields

abbrev pub count : Items → ℕ
count nil = 0
count (cons v vs) = suc (count vs)

abbrev pub size : Fields → ℕ
size end = 0
size (field k v fs) = suc (size fs)

abbrev pub is_object : Value → Bool
is_object (object _) = true
is_object _ = false

abbrev pub is_array : Value → Bool
is_array (array _) = true
is_array _ = false

-- What the representation of a value guarantees: a word has 64 bits. And its lists are shorter than
-- 2 ^ 32, the range of the counts that are encoded.
abbrev NumberIsSized : Number → Type 0
NumberIsSized (int w) = w < 18446744073709551616
NumberIsSized (big u) = u < 18446744073709551616
NumberIsSized (float w) = w < 18446744073709551616

abbrev mutual
  pub IsSized : Value → Type 0
  IsSized null = Unit
  IsSized (bool b) = Unit
  IsSized (number n) = NumberIsSized n
  IsSized (string s) = Unit
  IsSized (array xs) = (count xs < 4294967296) × ItemsIsSized xs
  IsSized (object fs) = (size fs < 4294967296) × FieldsIsSized fs

  pub ItemsIsSized : Items → Type 0
  ItemsIsSized nil = Unit
  ItemsIsSized (cons v vs) = IsSized v × ItemsIsSized vs

  pub FieldsIsSized : Fields → Type 0
  FieldsIsSized end = Unit
  FieldsIsSized (field k v fs) = IsSized v × FieldsIsSized fs
