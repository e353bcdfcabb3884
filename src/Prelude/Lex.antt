-- ===== src/Prelude/Lex.antt =====
-- Equality and the lexicographic order of byte strings and texts, as Rust's slices have them.
use Prim.Native.Nat.{ℕ}
use mathlib.Core.Path.{◌≡◌, refl}
use mathlib.Core.Bool.{Bool, true, false, ◌&&◌}
use mathlib.Core.Logic.{◌↔◌, ◌≢◌, inl, inr}
use mathlib.Core.List.{List, [], ◌∷◌}
use native.Mathlib.Omega.{arith}
use fossic.Prelude.Tests.{ltb, ◌==◌, if◌then◌else◌, Bool-cases}

unfoldable pub same : List ℕ → List ℕ → Bool
same [] [] = true
same [] (y ∷ ys) = false
same (x ∷ xs) [] = false
same (x ∷ xs) (y ∷ ys) = x == y && same xs ys

pub same_iff : (xs ys : List ℕ) → (same xs ys ≡ true) ↔ (xs ≡ ys)
unfolding same
same_iff [] [] = ground arith
same_iff [] (y ∷ ys) = ground arith
same_iff (x ∷ xs) [] = ground arith
same_iff (x ∷ xs) (y ∷ ys) = ground (arith, same_iff xs ys)

pub same_refl : (xs : List ℕ) → same xs xs ≡ true
same_refl xs = (same_iff xs xs).1 refl

pub same-false : (xs ys : List ℕ) → xs ≢ ys → same xs ys ≡ false
same-false xs ys h = ground (arith, same_iff xs ys)

-- `a < b` of two slices: the first difference decides, and a proper prefix is smaller.
unfoldable pub lex_lt : List ℕ → List ℕ → Bool
lex_lt xs [] = false
lex_lt [] (y ∷ ys) = true
lex_lt (x ∷ xs) (y ∷ ys) =
    let rest = lex_lt xs ys in if ltb x y then true else if x == y then rest else false

pub lex_lt_irrefl : (xs : List ℕ) → lex_lt xs xs ≡ false
unfolding lex_lt
lex_lt_irrefl [] = refl
lex_lt_irrefl (x ∷ xs) = ground (arith, lex_lt_irrefl xs)

pub lex_lt_trans :
    (xs ys zs : List ℕ) → lex_lt xs ys ≡ true → lex_lt ys zs ≡ true → lex_lt xs zs ≡ true
unfolding lex_lt
lex_lt_trans xs ys [] p q = cc
lex_lt_trans [] [] (z ∷ zs) p q = refl
lex_lt_trans (x ∷ xs) [] (z ∷ zs) p q = cc
lex_lt_trans [] (y ∷ ys) (z ∷ zs) p q = refl
lex_lt_trans (x ∷ xs) (y ∷ ys) (z ∷ zs) p q = ground (arith, lex_lt_trans xs ys zs)

-- Two strings neither of which is smaller are equal.
pub lex_lt_connex : (xs ys : List ℕ) → lex_lt xs ys ≡ false → lex_lt ys xs ≡ false → xs ≡ ys
unfolding lex_lt
lex_lt_connex [] [] p q = refl
lex_lt_connex [] (y ∷ ys) p q = ground arith
lex_lt_connex (x ∷ xs) [] p q = ground arith
lex_lt_connex (x ∷ xs) (y ∷ ys) p q = ground (arith, lex_lt_connex xs ys)

pub lex_lt-asymm : (xs ys : List ℕ) → lex_lt xs ys ≡ true → lex_lt ys xs ≡ false
lex_lt-asymm xs ys p = ground (arith, lex_lt_trans xs ys xs, lex_lt_irrefl xs)

-- `x ≤ y` and `y ≤ z` give `x ≤ z`.
pub lex_le_trans :
    (xs ys zs : List ℕ) → lex_lt ys xs ≡ false → lex_lt zs ys ≡ false → lex_lt zs xs ≡ false
lex_le_trans xs ys zs p q = elim (Bool-cases (lex_lt zs xs)) [
  | inr e ↦ e
  | inl e ↦ elim (Bool-cases (lex_lt xs ys)) [
    | inl f ↦ cc (lex_lt_trans zs xs ys e f)
    | inr f ↦ cc (lex_lt_connex xs ys f p)
  ]
]

-- `x < y` and `y ≤ z` give `x < z`.
pub lex_lt_le_trans :
    (xs ys zs : List ℕ) → lex_lt xs ys ≡ true → lex_lt zs ys ≡ false → lex_lt xs zs ≡ true
lex_lt_le_trans xs ys zs p q = elim (Bool-cases (lex_lt ys zs)) [
  | inl f ↦ lex_lt_trans xs ys zs p f
  | inr f ↦ cc (lex_lt_connex ys zs f q)
]
