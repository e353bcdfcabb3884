-- ===== src/EventId.antt =====
-- `EventId` of src/types.rs: 32 bytes, printed and read as 64 hexadecimal digits.
pub mod Hex
use Prim.Native.Nat.{bit_or}
use fossic.Prelude.{
  ℕ, ◌+◌, ◌-◌, ◌*◌, ◌/◌, ◌%◌, ◌<◌, ◌≡◌, Bool, ◌&&◌, List, [], ◌∷◌, ◌++◌, leb, ◌==◌, length,
  if◌then◌else◌, All,
}
use fossic.Prelude.Words.{Bytes}
use fossic.Text.{Str, as_bytes}
use fossic.Error.{
  Error, invalid_event_id, expected_hex_chars, invalid_hex_char, Result, ok, err, ◌>>=◌, map_err,
}

abbrev pub EventId : Type 0
EventId = Bytes

-- What the type `[u8; 32]` guarantees.
abbrev pub IsEventId : EventId → Type 0
IsEventId id = (length id ≡ 32) × All (λ b. b < 256) id

-- one digit of `{:02x}`
unfoldable pub hex_digit : ℕ → ℕ
hex_digit d = if leb d 9 then d + b'0' else d - 10 + b'a'

unfoldable pub to_hex : EventId → Str
unfolding hex_digit
to_hex [] = []
to_hex (b ∷ bs) = hex_digit (b / 16) ∷ hex_digit (b % 16) ∷ to_hex bs

-- the character that is no digit, or the value of the digit
unfoldable pub hex_nibble : ℕ → Result ℕ ℕ
hex_nibble b =
    if leb b'0' b && leb b b'9'
    then ok (b - b'0')
    else if leb b'a' b && leb b b'f'
    then ok (b - b'a' + 10)
    else if leb b'A' b && leb b b'F'
    then ok (b - b'A' + 10)
    else err b

-- the loop over `chunks(2)`; the last chunk has two bytes, since the length is even
unfoldable pub from_chunks : Bytes → Result Error EventId
unfolding hex_nibble
from_chunks [] = ok []
from_chunks (c ∷ []) = ok []
from_chunks (c ∷ d ∷ rest) = do
  hi ← map_err (λ x. invalid_event_id (invalid_hex_char x)) (hex_nibble c)
  lo ← map_err (λ x. invalid_event_id (invalid_hex_char x)) (hex_nibble d)
  bytes ← from_chunks rest
  ok (bit_or (hi * 16 % 256) lo ∷ bytes)

unfoldable pub from_hex : Str → Result Error EventId
unfolding from_chunks as_bytes
from_hex s =
    if length (as_bytes s) == 64
    then from_chunks (as_bytes s)
    else err (invalid_event_id (expected_hex_chars (length (as_bytes s))))
