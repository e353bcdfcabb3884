-- ===== src/Prelude/Words.antt =====
-- `to_le_bytes` of a word of `k` bytes. A number that does not fit loses its high bytes.
use Prim.Native.Nat.{ℕ, zero, suc, ◌/◌, ◌%◌, ◌<◌}
use mathlib.Core.Path.{◌≡◌}
use mathlib.Core.List.{List, [], ◌∷◌, ◌++◌}
use native.Mathlib.Omega.{arith}

abbrev pub Bytes : Type 0
Bytes = List ℕ

unfoldable pub le_bytes : ℕ → ℕ → Bytes
le_bytes zero n = []
le_bytes (suc k) n = (n % 256) ∷ le_bytes k (n / 256)

-- `n` is a word of `k` bytes.
abbrev pub Fits : ℕ → ℕ → Type 0
Fits zero n = n ≡ 0
Fits (suc k) n = Fits k (n / 256)

-- A word of a fixed width is read back from the front of a buffer.
pub le_bytes-inj :
    (k m n : ℕ) (r s : Bytes)
    → Fits k m
    → Fits k n
    → le_bytes k m ++ r ≡ le_bytes k n ++ s
    → (m ≡ n) × (r ≡ s)
unfolding le_bytes
le_bytes-inj zero m n r s hm hn e = (omega arith, e)
le_bytes-inj (suc k) m n r s hm hn e = ground (arith, le_bytes-inj k (m / 256) (n / 256) r s)

pub Fits-u32 : (n : ℕ) → n < 4294967296 → Fits 4 n
Fits-u32 n h = omega arith

pub Fits-u64 : (n : ℕ) → n < 18446744073709551616 → Fits 8 n
Fits-u64 n h = omega arith
