-- ===== src/Prelude/Lists.antt =====
-- Lists measured by native numbers, Boolean searches, and predicates on every element.
use Prim.Native.Nat.{ℕ, zero, suc, ◌+◌}
use mathlib.Core.Path.{◌≡◌, refl, ap, sym, subst, ◌∙◌}
use mathlib.Core.Logic.{◌⊎◌, inl, inr}
use mathlib.Core.Bool.{Bool, true, false, ◌&&◌, ◌||◌}
use mathlib.Core.List.{List, [], ◌∷◌, ◌++◌}
use mathlib.Core.Option.{Option, none, some}
use native.Mathlib.Omega.{arith}
use fossic.Prelude.Tests.{if◌then◌else◌, Bool-cases}

module _ {ℓ} {A : Type ℓ} where
  abbrev pub length : List A → ℕ
  length [] = 0
  length (x ∷ xs) = suc (length xs)

  abbrev pub take : ℕ → List A → List A
  take zero xs = []
  take (suc n) [] = []
  take (suc n) (x ∷ xs) = x ∷ take n xs

  abbrev pub drop : ℕ → List A → List A
  drop zero xs = xs
  drop (suc n) [] = []
  drop (suc n) (x ∷ xs) = drop n xs

  -- `iter().any(test)`, `iter().all(test)`, `iter().filter(test)` and `iter().find(test)`
  abbrev pub any : (A → Bool) → List A → Bool
  any test [] = false
  any test (x ∷ xs) = test x || any test xs

  abbrev pub all : (A → Bool) → List A → Bool
  all test [] = true
  all test (x ∷ xs) = test x && all test xs

  abbrev pub keep : (A → Bool) → List A → List A
  keep test [] = []
  keep test (x ∷ xs) = let rest = keep test xs in if test x then x ∷ rest else rest

  abbrev pub find : (A → Bool) → List A → Option A
  find test [] = none
  find test (x ∷ xs) = if test x then some x else find test xs

  -- `last()`
  abbrev pub last : List A → Option A
  last [] = none
  last (x ∷ []) = some x
  last (x ∷ y ∷ xs) = last (y ∷ xs)

  pub length-append : (xs ys : List A) → length (xs ++ ys) ≡ length xs + length ys
  length-append [] ys = omega arith
  length-append (x ∷ xs) ys = omega (arith, length-append xs ys)

abbrev pub All {ℓ κ} : {A : Type ℓ} → (A → Type κ) → List A → Type κ
All P [] = Unit
All P (x ∷ xs) = P x × All P xs

pub All-append {ℓ κ} :
    {A : Type ℓ} (P : A → Type κ) (xs ys : List A) → All P xs → All P ys → All P (xs ++ ys)
All-append P [] ys hx hy = hy
All-append P (x ∷ xs) ys hx hy = (hx.0, All-append P xs ys hx.1 hy)

pub All-mono {ℓ κ μ} :
    {A : Type ℓ} (P : A → Type κ) (Q : A → Type μ) (xs : List A)
    → ((a : A) → P a → Q a)
    → All P xs
    → All Q xs
All-mono P Q [] f h = tt
All-mono P Q (x ∷ xs) f h = (f x h.0, All-mono P Q xs f h.1)

pub All-middle {ℓ κ} :
    {A : Type ℓ} (P : A → Type κ) (xs : List A) (y : A) (ys : List A) → All P (xs ++ y ∷ ys) → P y
All-middle P [] y ys h = h.0
All-middle P (x ∷ xs) y ys h = All-middle P xs y ys h.1

pub append-nil {ℓ} : {A : Type ℓ} (xs : List A) → xs ++ [] ≡ xs
append-nil [] = refl
append-nil (x ∷ xs) = ap (◌∷◌ x) (append-nil xs)

pub append_assoc {ℓ} : {A : Type ℓ} (xs ys zs : List A) → (xs ++ ys) ++ zs ≡ xs ++ (ys ++ zs)
append_assoc [] ys zs = refl
append_assoc (x ∷ xs) ys zs = ap (◌∷◌ x) (append_assoc xs ys zs)

pub All-keep {ℓ κ} :
    {A : Type ℓ} (P : A → Type κ) (test : A → Bool) (xs : List A) → All P xs → All P (keep test xs)
All-keep P test [] h = tt
All-keep P test (x ∷ xs) h = elim (Bool-cases (test x)) [
  | inl e ↦ rw e (h.0, All-keep P test xs h.1)
  | inr e ↦ rw e (All-keep P test xs h.1)
]

pub All-keep_mono {ℓ κ μ} :
    {A : Type ℓ} (P : A → Type κ) (Q : A → Type μ) (test : A → Bool) (xs : List A)
    → ((a : A) → P a → test a ≡ true → Q a)
    → All P xs
    → All Q (keep test xs)
All-keep_mono P Q test [] f h = tt
All-keep_mono P Q test (x ∷ xs) f h = elim (Bool-cases (test x)) [
  | inl e ↦ rw e (f x h.0 e, All-keep_mono P Q test xs f h.1)
  | inr e ↦ rw e (All-keep_mono P Q test xs f h.1)
]

pub keep-cong {ℓ} :
    {A : Type ℓ} (test test' : A → Bool) (xs : List A)
    → ((x : A) → test x ≡ test' x)
    → keep test xs ≡ keep test' xs
keep-cong test test' [] h = refl
keep-cong test test' (x ∷ xs) h = rw (h x, keep-cong test test' xs h) refl

-- A kept element passes the test.
pub All-keep_test {ℓ} :
    {A : Type ℓ} (test : A → Bool) (xs : List A) → All (λ x. test x ≡ true) (keep test xs)
All-keep_test test [] = tt
All-keep_test test (x ∷ xs) = elim (Bool-cases (test x)) [
  | inl e ↦ rw e (e, All-keep_test test xs)
  | inr e ↦ rw e (All-keep_test test xs)
]

pub keep_of_All {ℓ} :
    {A : Type ℓ} (test : A → Bool) (xs : List A) → All (λ x. test x ≡ true) xs → keep test xs ≡ xs
keep_of_All test [] h = refl
keep_of_All test (x ∷ xs) h = rw h.0 (ap (◌∷◌ x) (keep_of_All test xs h.1))

pub keep_of_none {ℓ} :
    {A : Type ℓ} (test : A → Bool) (xs : List A) → All (λ x. test x ≡ false) xs → keep test xs ≡ []
keep_of_none test [] h = refl
keep_of_none test (x ∷ xs) h = rw h.0 (keep_of_none test xs h.1)

pub keep-append {ℓ} :
    {A : Type ℓ} (test : A → Bool) (xs ys : List A)
    → keep test (xs ++ ys) ≡ keep test xs ++ keep test ys
keep-append test [] ys = refl
keep-append test (x ∷ xs) ys = elim (Bool-cases (test x)) [
  | inl e ↦ rw e (ap (◌∷◌ x) (keep-append test xs ys))
  | inr e ↦ rw e (keep-append test xs ys)
]

-- Of two selections in turn, the second may already decide.
pub keep-keep {ℓ} :
    {A : Type ℓ} (test test' : A → Bool) (xs : List A)
    → keep test (keep test' xs) ≡ keep (λ x. test' x && test x) xs
keep-keep test test' [] = refl
keep-keep test test' (x ∷ xs) = elim (Bool-cases (test' x)) [
  | inl e ↦ rw e (ground (arith, keep-keep test test' xs))
  | inr e ↦ rw e (keep-keep test test' xs)
]

abbrev pub In : {A : Type 0} → A → List A → Type 0
In x [] = ⊥
In x (y ∷ ys) = (x ≡ y) ⊎ In x ys

pub All-In {κ} : {A : Type 0} (P : A → Type κ) (x : A) (xs : List A) → All P xs → In x xs → P x
All-In P x [] h i = absurd i
All-In P x (y ∷ ys) h (inl e) = subst P (sym e) h.0
All-In P x (y ∷ ys) h (inr i) = All-In P x ys h.1 i

pub In-append_left : {A : Type 0} (x : A) (xs ys : List A) → In x xs → In x (xs ++ ys)
In-append_left x [] ys i = absurd i
In-append_left x (z ∷ xs) ys (inl e) = inl e
In-append_left x (z ∷ xs) ys (inr i) = inr (In-append_left x xs ys i)

pub In-append_last : {A : Type 0} (x : A) (xs : List A) → In x (xs ++ x ∷ [])
In-append_last x [] = inl refl
In-append_last x (z ∷ xs) = inr (In-append_last x xs)

pub any-append {ℓ} :
    {A : Type ℓ} (test : A → Bool) (xs ys : List A)
    → any test (xs ++ ys) ≡ (any test xs || any test ys)
any-append test [] ys = refl
any-append test (x ∷ xs) ys = ground (arith, any-append test xs ys)

pub All-last {ℓ κ} :
    {A : Type ℓ} (P : A → Type κ) (xs : List A) (x : A) → All P xs → last xs ≡ some x → P x
All-last P [] x h e = absurd (cc)
All-last P (y ∷ []) x h e = (let eq : y ≡ x = cc in subst P eq h.0)
All-last P (y ∷ z ∷ xs) x h e = All-last P (z ∷ xs) x h.1 e

pub find-append :
    {A : Type 0} (test : A → Bool) (xs ys : List A) (x : A)
    → find test xs ≡ some x
    → find test (xs ++ ys) ≡ some x
find-append test [] ys x h = absurd (cc)
find-append test (z ∷ xs) ys x h = elim (Bool-cases (test z)) [
  | inl e ↦ rw e (rw e at h)
  | inr e ↦ rw e (find-append test xs ys x (rw e at h))
]

pub In-append_right : {A : Type 0} (x : A) (xs ys : List A) → In x ys → In x (xs ++ ys)
In-append_right x [] ys i = i
In-append_right x (z ∷ xs) ys i = inr (In-append_right x xs ys i)

pub In-keep :
    {A : Type 0} (test : A → Bool) (x : A) (xs : List A)
    → In x xs
    → test x ≡ true
    → In x (keep test xs)
In-keep test x [] i t = i
In-keep test x (y ∷ ys) (inl e) t = (let t' : test y ≡ true = ap test (sym e) ∙ t in rw t' (inl e))
In-keep test x (y ∷ ys) (inr i) t = elim (Bool-cases (test y)) [
  | inl u ↦ rw u (inr (In-keep test x ys i t))
  | inr u ↦ rw u (In-keep test x ys i t)
]
