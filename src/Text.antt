-- ===== src/Text.antt =====
-- Rust's `str` as the list of its characters (Unicode scalar values), and what the sources use of it.
pub mod Split
use Prim.Native.Char.{code}
use fossic.Prelude.{
  ℕ, ◌+◌, ◌/◌, ◌%◌, String, ◌≡◌, refl, Bool, true, false, ◌&&◌, ◌||◌, List, [], ◌∷◌, ◌++◌, ltb, leb,
  ◌==◌, length, if◌then◌else◌,
}
use fossic.Prelude.Words.{Bytes}

abbrev pub Str : Type 0
Str = List ℕ

-- The characters of a literal.
abbrev pub codes : String → Str
codes String.[] = []
codes (String.◌∷◌ c s) = code c ∷ codes s

-- The UTF-8 bytes of a character and of a text, `as_bytes`.
unfoldable pub utf8_char : ℕ → Bytes
utf8_char c =
    if ltb c 0x80
    then c ∷ []
    else if ltb c 0x800
    then (0xc0 + c / 64) ∷ (0x80 + c % 64) ∷ []
    else if ltb c 0x10000
    then (0xe0 + c / 4096) ∷ (0x80 + c / 64 % 64) ∷ (0x80 + c % 64) ∷ []
    else (0xf0 + c / 262144) ∷ (0x80 + c / 4096 % 64) ∷ (0x80 + c / 64 % 64) ∷ (0x80 + c % 64) ∷ []

unfoldable pub as_bytes : Str → Bytes
unfolding utf8_char
as_bytes [] = []
as_bytes (c ∷ s) = utf8_char c ++ as_bytes s

-- `s.len()`: the number of bytes
unfoldable pub byte_len : Str → ℕ
unfolding as_bytes
byte_len s = length (as_bytes s)

-- `starts_with`
unfoldable pub starts_with : Str → Str → Bool
starts_with s [] = true
starts_with [] (p ∷ ps) = false
starts_with (c ∷ s) (p ∷ ps) = c == p && starts_with s ps

-- `s.split('/')`: one segment more than there are slashes
cons_head : ℕ → List Str → List Str
cons_head c [] = (c ∷ []) ∷ []
cons_head c (seg ∷ rest) = (c ∷ seg) ∷ rest

unfoldable pub split : Str → List Str
unfolding cons_head
split [] = [] ∷ []
split (c ∷ s) = let rest = split s in if c == b'/' then [] ∷ rest else cons_head c rest

split_path : split (codes "a/bc//") ≡ codes "a" ∷ codes "bc" ∷ [] ∷ [] ∷ []
unfolding split
split_path = refl

two_byte_char : as_bytes (codes "é") ≡ 0xc3 ∷ 0xa9 ∷ []
unfolding as_bytes
two_byte_char = refl
