-- ===== src/EventId/Hex.antt =====
-- Printing and reading the hexadecimal form of an event id of src/types.rs.
use Prim.Native.Nat.{bit_or}
use fossic.Prelude.{
  ℕ, zero, suc, ◌+◌, ◌-◌, ◌*◌, ◌/◌, ◌%◌, ◌<◌, ◌≡◌, refl, ◌∙◌, ap, Bool, true, false, ◌&&◌, [], ◌∷◌,
  ◌++◌, leb, ◌==◌, ==_iff, length, ltb, if◌then◌else◌, All, arith, map, Bool-cases, inl, inr, subst,
}
use fossic.Prelude.Words.{Bytes}
use fossic.Text.{Str, as_bytes, utf8_char}
use fossic.Error.{Result, ok, err, map_err, >>=-eq-ok, ok-injective}
use fossic.EventId.{EventId, IsEventId, hex_digit, to_hex, hex_nibble, from_chunks, from_hex}

all_below : ℕ → (ℕ → Bool) → Bool
all_below zero test = true
all_below (suc n) test = test n && all_below n test

all_below_sound :
    (n : ℕ) (test : ℕ → Bool) (x : ℕ) → all_below n test ≡ true → x < n → test x ≡ true
unfolding all_below
all_below_sound zero test x h lt = absurd (omega arith)
all_below_sound (suc n) test x h lt = ground (arith, all_below_sound n test x)

join_table : all_below 256 (λ x. bit_or (x / 16 * 16 % 256) (x % 16) == x) ≡ true
unfolding all_below
join_table = refl

join_halves : (x : ℕ) → x < 256 → bit_or (x / 16 * 16 % 256) (x % 16) ≡ x
join_halves x h = (==_iff _ x).0 (all_below_sound 256 _ x join_table h)

hex_nibble-hex_digit : (d : ℕ) → d < 16 → hex_nibble (hex_digit d) ≡ ok d
unfolding hex_nibble hex_digit
hex_nibble-hex_digit d h = ground arith

hex_digit-lt : (d : ℕ) → d < 16 → hex_digit d < 128
unfolding hex_digit
hex_digit-lt d h = ground arith

-- Characters below 128 are their own bytes.
as_bytes_ascii : (s : Str) → All (λ c. c < 128) s → as_bytes s ≡ s
unfolding as_bytes
as_bytes_ascii [] h = refl
as_bytes_ascii (c ∷ s) h = ground (arith, as_bytes_ascii s h.1)

to_hex_ascii : (id : EventId) → All (λ b. b < 256) id → All (λ c. c < 128) (to_hex id)
unfolding to_hex
to_hex_ascii [] h = tt
to_hex_ascii (b ∷ bs) h = (
  hex_digit-lt (b / 16) (omega arith),
  (hex_digit-lt (b % 16) (omega arith), to_hex_ascii bs h.1),
)

length-to_hex : (id : EventId) → length (to_hex id) ≡ 2 * length id
unfolding to_hex
length-to_hex [] = refl
length-to_hex (b ∷ bs) = omega (arith, length-to_hex bs)

from_chunks-to_hex : (id : EventId) → All (λ b. b < 256) id → from_chunks (to_hex id) ≡ ok id
unfolding to_hex from_chunks
from_chunks-to_hex [] h = refl
from_chunks-to_hex (b ∷ bs) h = rw (
  hex_nibble-hex_digit (b / 16) (omega arith),
  hex_nibble-hex_digit (b % 16) (omega arith),
  from_chunks-to_hex bs h.1,
  join_halves b h.0,
)

-- An id that is printed is read back.
pub from_hex-to_hex : (id : EventId) → IsEventId id → from_hex (to_hex id) ≡ ok id
unfolding from_hex
from_hex-to_hex id h = rw (
  as_bytes_ascii (to_hex id) (to_hex_ascii id h.1),
  from_chunks-to_hex id h.1,
  length-to_hex id,
  h.0,
)

-- `A` to `F` as `a` to `f`
abbrev pub to_lower : ℕ → ℕ
to_lower c = if leb b'A' c && leb c b'F' then c + 32 else c

nibble-lower : (c d : ℕ) → hex_nibble c ≡ ok d → (d < 16) × (hex_digit d ≡ to_lower c)
unfolding hex_nibble hex_digit
nibble-lower c d h = ground arith

nibble_ascii : (c d : ℕ) → hex_nibble c ≡ ok d → c < 128
unfolding hex_nibble
nibble_ascii c d h = ground arith

join : (hi lo : ℕ) → hi < 16 → lo < 16 → bit_or (hi * 16 % 256) lo ≡ hi * 16 + lo
join hi lo h l =
    let quotient : (hi * 16 + lo) / 16 ≡ hi = omega arith in
    let remainder : (hi * 16 + lo) % 16 ≡ lo = omega arith in
    subst (λ q. bit_or (q * 16 % 256) lo ≡ hi * 16 + lo) quotient
      (subst (λ r. bit_or ((hi * 16 + lo) / 16 * 16 % 256) r ≡ hi * 16 + lo) remainder
        (join_halves (hi * 16 + lo) (omega arith)))

-- What a successful read has read.
record Digits (cs : Bytes) (id : EventId) : Type 0 where
  ascii : All (λ c. c < 128) cs
  bytes : All (λ b. b < 256) id
  twice : length cs ≡ 2 * length id
  digits : to_hex id ≡ map to_lower cs

map_err-eq-ok {ℓ} :
    {E F : Type 0} {A : Type ℓ} (f : E → F) (m : Result E A) {a : A} → map_err f m ≡ ok a → m ≡ ok a
map_err-eq-ok f (ok a) h = cc
map_err-eq-ok f (err e) h = cc

cons-Digits :
    (c d hi lo : ℕ) (cs : Bytes) (id : EventId)
    → hex_nibble c ≡ ok hi
    → hex_nibble d ≡ ok lo
    → Digits cs id
    → Digits (c ∷ d ∷ cs) (bit_or (hi * 16 % 256) lo ∷ id)
unfolding to_hex
cons-Digits c d hi lo cs id ok_hi ok_lo rest =
    let (hi_lt, hi_digit) = nibble-lower c hi ok_hi in
    let (lo_lt, lo_digit) = nibble-lower d lo ok_lo in
    let quotient : (hi * 16 + lo) / 16 ≡ hi = omega arith in
    let remainder : (hi * 16 + lo) % 16 ≡ lo = omega arith in
    rw (join hi lo hi_lt lo_lt) (record {
      ascii = (nibble_ascii c hi ok_hi, (nibble_ascii d lo ok_lo, rest.ascii));
      bytes = (omega arith, rest.bytes);
      twice = omega (arith, rest.twice);
      digits = rw (quotient, remainder, hi_digit, lo_digit, rest.digits);
    })

from_chunks-Digits :
    (n : ℕ) (cs : Bytes) (id : EventId) → length cs ≡ 2 * n → from_chunks cs ≡ ok id → Digits cs id
unfolding from_chunks to_hex
from_chunks-Digits n [] id len e =
    subst (Digits []) (ok-injective e)
      (record { ascii = tt; bytes = tt; twice = refl; digits = refl })
from_chunks-Digits n (c ∷ []) id len e = absurd (omega arith)
from_chunks-Digits n (c ∷ d ∷ cs) id len e =
    let (hi, ok_hi, e₁) = >>=-eq-ok (map_err _ (hex_nibble c)) _ e in
    let (lo, ok_lo, e₂) = >>=-eq-ok (map_err _ (hex_nibble d)) _ e₁ in
    let (rest, ok_rest, done) = >>=-eq-ok (from_chunks cs) _ e₂ in
    subst (Digits (c ∷ d ∷ cs)) (ok-injective done) (
      cons-Digits c d hi lo cs rest (map_err-eq-ok _ _ ok_hi) (map_err-eq-ok _ _ ok_lo)
        (from_chunks-Digits (n - 1) cs rest (omega arith) ok_rest))

utf8_low : (c : ℕ) → ltb c 0x80 ≡ true → utf8_char c ≡ c ∷ []
unfolding utf8_char
utf8_low c h = ground arith

-- Any other character begins with a byte above 127.
utf8_high : (c : ℕ) (t : Bytes) → ltb c 0x80 ≡ false → All (λ b. b < 128) (utf8_char c ++ t) → ⊥
unfolding utf8_char
utf8_high c t h g = elim (Bool-cases (ltb c 0x800)) [
  | inl two ↦ let g' = rw (h, two) at g in omega (arith, g'.0)
  | inr e ↦ elim (Bool-cases (ltb c 0x10000)) [
    | inl three ↦ let g' = rw (h, e, three) at g in omega (arith, g'.0)
    | inr four ↦ let g' = rw (h, e, four) at g in omega (arith, g'.0)
  ]
]

ascii_char :
    (c : ℕ) (t : Bytes)
    → All (λ b. b < 128) (utf8_char c ++ t)
    → (utf8_char c ≡ c ∷ []) × All (λ b. b < 128) t
ascii_char c t h = elim (Bool-cases (ltb c 0x80)) [
  | inl low ↦ (utf8_low c low, (subst (λ u. All (λ b. b < 128) (u ++ t)) (utf8_low c low) h).1)
  | inr high ↦ absurd (utf8_high c t high h)
]

as_bytes_of_ascii : (s : Str) → All (λ b. b < 128) (as_bytes s) → as_bytes s ≡ s
unfolding as_bytes
as_bytes_of_ascii [] h = refl
as_bytes_of_ascii (c ∷ s) h =
    let (one, rest) = ascii_char c (as_bytes s) h in rw (one, as_bytes_of_ascii s rest)

-- Whatever text is read as an id: the id has 32 bytes, and prints as the text in lower case.
pub to_hex-from_hex :
    (s : Str) (id : EventId) → from_hex s ≡ ok id → IsEventId id × (to_hex id ≡ map to_lower s)
unfolding from_hex
to_hex-from_hex s id e = elim (Bool-cases (length (as_bytes s) == 64)) [
  | inr n ↦ ground arith
  | inl n ↦
      let len : length (as_bytes s) ≡ 2 * 32 = (==_iff _ _).0 n in
      let d = from_chunks-Digits 32 (as_bytes s) id len (rw n at e) in
      let same_text = as_bytes_of_ascii s d.ascii in
      ((omega (arith, d.twice), d.bytes), d.digits ∙ ap (map to_lower) same_text)
]
