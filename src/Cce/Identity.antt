-- ===== src/Cce/Identity.antt =====
-- The content of an event, and the buffer that `derive_event_id` of src/cce.rs hashes for it.
use fossic.Prelude.{
  ℕ, ◌<◌, ◌≡◌, ◌≢◌, ◌⊎◌, inl, inr, refl, sym, ◌∙◌, ap, Option, none, some, [], ◌++◌, length, arith,
  Bool-cases,
}
use fossic.Prelude.Lex.{same, same_iff}
use fossic.Prelude.Words.{Bytes, le_bytes-inj, Fits-u64}
use fossic.Text.{Str}
use fossic.Error.{CceError, Result, ok, >>=-eq-ok, ok-injective, map_ok-eq-ok}
use fossic.Json.{Value, IsSized}
use fossic.Cce.{
  encode_string, encode_value, encode_i64, encode_u32_as_i64, encode_bytes, encode_optional_bytes,
  event_id_input, derive_event_id, cce_prefix,
}
use fossic.Cce.Canon.{Canon, encode_canon, canonical, canonical_string, string_code}
use fossic.Cce.Writes.{encode_string-canonical, encode_value-canonical}
use fossic.Cce.Unique.{append-inj_length, string_code-inj, encode_canon-inj, counted-inj}
use fossic.Cce.Sized.{canonical-IsCounted, canonical_string-lt}

-- Causes are ids of 32 bytes.
abbrev pub CauseFits : Option Bytes → Type 0
CauseFits none = Unit
CauseFits (some b) = length b ≡ 32

optional_bytes-inj :
    (a b : Option Bytes) (r s : Bytes)
    → CauseFits a
    → CauseFits b
    → encode_optional_bytes a ++ r ≡ encode_optional_bytes b ++ s
    → (a ≡ b) × (r ≡ s)
unfolding encode_optional_bytes encode_bytes
optional_bytes-inj none none r s ha hb e = ground arith
optional_bytes-inj none (some b) r s ha hb e = ground arith
optional_bytes-inj (some a) none r s ha hb e = ground arith
optional_bytes-inj (some a) (some b) r s ha hb e = ground (
  arith,
  counted-inj (length a) (length b) a b r s (omega arith) (omega arith),
  append-inj_length a b r s,
)

u32-inj :
    (m n : ℕ) (r s : Bytes)
    → m < 4294967296
    → n < 4294967296
    → encode_u32_as_i64 m ++ r ≡ encode_u32_as_i64 n ++ s
    → (m ≡ n) × (r ≡ s)
unfolding encode_u32_as_i64 encode_i64
u32-inj m n r s hm hn e =
    ground (arith, le_bytes-inj 8 m n r s (Fits-u64 m (omega arith)) (Fits-u64 n (omega arith)))

prefix-cancel : (x y : Bytes) → cce_prefix ++ x ≡ cce_prefix ++ y → x ≡ y
prefix-cancel x y e = (append-inj_length cce_prefix cce_prefix x y refl e).1

-- The event as `derive_event_id` sees it.
pub record Source : Type 0 where
  pub event_type : Str
  pub type_version : ℕ
  pub causation_id : Option Bytes
  pub payload : Value

-- `type_version` is a `u32`, a cause has 32 bytes, and the payload is in range.
pub record InRange (s : Source) : Type 0 where
  pub version : s.type_version < 4294967296
  pub cause : CauseFits s.causation_id
  pub sized : IsSized s.payload

module _ (nfc : Str → Str) where
  abbrev pub input : Source → Result CceError Bytes
  input s = event_id_input nfc s.event_type s.type_version s.causation_id s.payload

  -- The same type up to normalisation, version, cause and payload content.
  pub record SameContent (s t : Source) : Type 0 where
    pub event_type : canonical_string nfc s.event_type ≡ canonical_string nfc t.event_type
    pub type_version : s.type_version ≡ t.type_version
    pub causation_id : s.causation_id ≡ t.causation_id
    pub payload : canonical nfc s.payload ≡ canonical nfc t.payload

  -- The parts of a buffer.
  record Parts (s : Source) (buf : Bytes) : Type 0 where
    name : Bytes
    content : Canon
    name_ok : canonical_string nfc s.event_type ≡ ok name
    content_ok : canonical nfc s.payload ≡ ok content
    layout :
        buf
        ≡ cce_prefix
          ++ (string_code name
              ++ (encode_u32_as_i64 s.type_version
                  ++ (encode_optional_bytes s.causation_id ++ encode_canon content)))

  parts : (s : Source) (buf : Bytes) → input s ≡ ok buf → Parts s buf
  unfolding event_id_input
  parts s buf e =
      let (t, ok_t, next) = >>=-eq-ok (encode_string nfc s.event_type) _ e in
      let (p, ok_p, done) = >>=-eq-ok (encode_value nfc s.payload) _ next in
      let (name, name_ok, t_eq) =
        map_ok-eq-ok string_code _ (sym (encode_string-canonical nfc s.event_type) ∙ ok_t) in
      let (content, content_ok, p_eq) =
        map_ok-eq-ok encode_canon _ (sym (encode_value-canonical nfc s.payload) ∙ ok_p) in
      record {
        name = name;
        content = content;
        name_ok = name_ok;
        content_ok = content_ok;
        layout = rw (t_eq, p_eq) (sym (ok-injective done));
      }

  -- Two events in range that are hashed through the same buffer have the same content.
  pub event_id_input-inj :
      (s t : Source) (buf : Bytes)
      → InRange s
      → InRange t
      → input s ≡ ok buf
      → input t ≡ ok buf
      → SameContent s t
  event_id_input-inj s t buf hs ht es et =
      let p = parts s buf es in
      let q = parts t buf et in
      let (name, after_name) =
        string_code-inj p.name q.name
          (encode_u32_as_i64 s.type_version
            ++ (encode_optional_bytes s.causation_id ++ encode_canon p.content))
          (encode_u32_as_i64 t.type_version
            ++ (encode_optional_bytes t.causation_id ++ encode_canon q.content))
          (canonical_string-lt nfc s.event_type p.name p.name_ok)
          (canonical_string-lt nfc t.event_type q.name q.name_ok)
          (prefix-cancel _ _ (sym p.layout ∙ q.layout)) in
      let (version, after_version) =
        u32-inj s.type_version t.type_version
          (encode_optional_bytes s.causation_id ++ encode_canon p.content)
          (encode_optional_bytes t.causation_id ++ encode_canon q.content) hs.version ht.version
          after_name in
      let (cause, after_cause) =
        optional_bytes-inj s.causation_id t.causation_id (encode_canon p.content)
          (encode_canon q.content) hs.cause ht.cause after_version in
      let (content, _) =
        encode_canon-inj p.content q.content [] []
          (canonical-IsCounted nfc s.payload p.content hs.sized p.content_ok)
          (canonical-IsCounted nfc t.payload q.content ht.sized q.content_ok)
          (ap (λ b. b ++ []) after_cause) in
      record {
        event_type = p.name_ok ∙ ap ok name ∙ sym q.name_ok;
        type_version = version;
        causation_id = cause;
        payload = p.content_ok ∙ ap ok content ∙ sym q.content_ok;
      }

  -- Events with the same content are hashed through the same buffer, or fail alike.
  pub event_id_input-eq_of_SameContent : (s t : Source) → SameContent s t → input s ≡ input t
  unfolding event_id_input
  event_id_input-eq_of_SameContent s t h = rw (
    encode_string-canonical nfc s.event_type,
    encode_string-canonical nfc t.event_type,
    encode_value-canonical nfc s.payload,
    encode_value-canonical nfc t.payload,
    h.event_type,
    h.payload,
    h.type_version,
    h.causation_id,
  )

  -- Two events in range with one id have the same content, or else the buffers that are hashed for them
  -- are a collision of the hash: they differ and have the same hash.
  pub derive_event_id-identifies :
      (hash : Bytes → Bytes) (s t : Source) (id : Bytes)
      → InRange s
      → InRange t
      → derive_event_id nfc hash s.event_type s.type_version s.causation_id s.payload ≡ ok id
      → derive_event_id nfc hash t.event_type t.type_version t.causation_id t.payload ≡ ok id
      → SameContent s t
        ⊎ ((x y : Bytes) × (input s ≡ ok x) × (input t ≡ ok y) × (x ≢ y) × (hash x ≡ hash y))
  unfolding derive_event_id
  derive_event_id-identifies hash s t id hs ht es et =
      let (x, ok_x, hx) = >>=-eq-ok (input s) _ es in
      let (y, ok_y, hy) = >>=-eq-ok (input t) _ et in
      elim (Bool-cases (same x y)) [
        | inl e ↦ inl (event_id_input-inj s t y hs ht (ok_x ∙ ap ok ((same_iff x y).0 e)) ok_y)
        | inr e ↦
            inr (x, y, ok_x, ok_y, (λ p. ground (arith, same_iff x y)), ok-injective (hx ∙ sym hy))
      ]

  -- Events with the same content have the same id.
  pub derive_event_id-eq_of_SameContent :
      (hash : Bytes → Bytes) (s t : Source)
      → SameContent s t
      → derive_event_id nfc hash s.event_type s.type_version s.causation_id s.payload
        ≡ derive_event_id nfc hash t.event_type t.type_version t.causation_id t.payload
  unfolding derive_event_id
  derive_event_id-eq_of_SameContent hash s t h = rw (event_id_input-eq_of_SameContent s t h)
