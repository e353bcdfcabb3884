-- ===== src/Prelude/Order.antt =====
-- `ORDER BY` a number, as an insertion sort, and lists whose keys ascend.
use Prim.Native.Nat.{ℕ, suc, ◌<◌, ◌≤◌}
use mathlib.Core.Path.{◌≡◌, refl, sym, ap, ◌∙◌, subst}
use mathlib.Core.Logic.{◌≢◌, inl, inr}
use mathlib.Core.Bool.{Bool, true, false}
use mathlib.Core.List.{List, [], ◌∷◌, ◌++◌}
use native.Mathlib.Omega.{arith}
use fossic.Prelude.Tests.{ltb, leb, if◌then◌else◌, Bool-cases}
use fossic.Prelude.Lists.{
  keep, All, All-middle, All-mono, All-keep, keep_of_none, keep_of_All, last, In,
}
use mathlib.Core.Option.{some}

module _ {ℓ} {A : Type ℓ} (key : A → ℕ) where
  unfoldable pub insert_by : A → List A → List A
  insert_by x [] = x ∷ []
  insert_by x (y ∷ ys) =
      let later = y ∷ insert_by x ys in if ltb (key y) (key x) then later else x ∷ y ∷ ys

  unfoldable pub order_by : List A → List A
  unfolding insert_by
  order_by [] = []
  order_by (x ∷ xs) = insert_by x (order_by xs)

  abbrev pub IsAscending : List A → Type 0
  IsAscending [] = Unit
  IsAscending (x ∷ xs) = All (λ y. key x < key y) xs × IsAscending xs

  abbrev pub IsDistinct : List A → Type 0
  IsDistinct [] = Unit
  IsDistinct (x ∷ xs) = All (λ y. key y ≢ key x) xs × IsDistinct xs

module _ {ℓ} {A : Type ℓ} (key : A → ℕ) where
  All-insert_by {κ} :
      (P : A → Type κ) (x : A) (xs : List A) → P x → All P xs → All P (insert_by key x xs)
  unfolding insert_by
  All-insert_by P x [] px pxs = (px, tt)
  All-insert_by P x (y ∷ ys) px pxs = elim (Bool-cases (ltb (key y) (key x))) [
    | inl e ↦ rw e (pxs.0, All-insert_by P x ys px pxs.1)
    | inr e ↦ rw e (px, pxs)
  ]

  pub All-order_by {κ} : (P : A → Type κ) (xs : List A) → All P xs → All P (order_by key xs)
  unfolding order_by
  All-order_by P [] h = tt
  All-order_by P (x ∷ xs) h = All-insert_by P x (order_by key xs) h.0 (All-order_by P xs h.1)

  insert_by-IsAscending :
      (x : A) (xs : List A)
      → All (λ y. key y ≢ key x) xs
      → IsAscending key xs
      → IsAscending key (insert_by key x xs)
  unfolding insert_by
  insert_by-IsAscending x [] d a = (tt, tt)
  insert_by-IsAscending x (y ∷ ys) d a = elim (Bool-cases (ltb (key y) (key x))) [
    | inl e ↦ rw e (
      All-insert_by (λ z. key y < key z) x ys (ground arith) a.0,
      insert_by-IsAscending x ys d.1 a.1,
    )
    | inr e ↦
        (let lt : key x < key y = (let ne = d.0 in ground arith) in
          rw e (
            (
              lt,
              All-mono (λ z. key y < key z) (λ z. key x < key z) ys (λ z h. omega (arith, h, lt))
                  a.0,
            ),
            a,
          ))
  ]

  pub order_by-IsAscending : (xs : List A) → IsDistinct key xs → IsAscending key (order_by key xs)
  unfolding order_by
  order_by-IsAscending [] d = tt
  order_by-IsAscending (x ∷ xs) d =
      insert_by-IsAscending x (order_by key xs) (All-order_by (λ y. key y ≢ key x) xs d.0)
        (order_by-IsAscending xs d.1)

  insert_by-front :
      (x : A) (xs : List A)
      → All (λ y. ltb (key y) (key x) ≡ false) xs
      → insert_by key x xs ≡ x ∷ xs
  unfolding insert_by
  insert_by-front x [] h = refl
  insert_by-front x (y ∷ ys) h = rw h.0 refl

  keep-insert_by_in :
      (test : A → Bool) (x : A) (xs : List A)
      → IsAscending key xs
      → test x ≡ true
      → keep test (insert_by key x xs) ≡ insert_by key x (keep test xs)
  unfolding insert_by
  keep-insert_by_in test x [] a h = rw h refl
  keep-insert_by_in test x (y ∷ ys) a h = elim (Bool-cases (ltb (key y) (key x))) [
    | inl e ↦ rw e (elim (Bool-cases (test y)) [
      | inl t ↦ rw (t, e) (ap (◌∷◌ y) (keep-insert_by_in test x ys a.1 h))
      | inr t ↦ rw t (keep-insert_by_in test x ys a.1 h)
    ])
    | inr e ↦
        (let front =
            All-keep (λ z. ltb (key z) (key x) ≡ false) test (y ∷ ys)
              (
                e,
                All-mono (λ z. key y < key z) (λ z. ltb (key z) (key x) ≡ false) ys
                    (λ z lt. ground arith) a.0,
              ) in
          rw (e, h) (sym (insert_by-front x (keep test (y ∷ ys)) front)))
  ]

  keep-insert_by_out :
      (test : A → Bool) (x : A) (xs : List A)
      → test x ≡ false
      → keep test (insert_by key x xs) ≡ keep test xs
  unfolding insert_by
  keep-insert_by_out test x [] h = rw h refl
  keep-insert_by_out test x (y ∷ ys) h = elim (Bool-cases (ltb (key y) (key x))) [
    | inl e ↦ rw (e, keep-insert_by_out test x ys h) refl
    | inr e ↦ rw (e, h) refl
  ]

  -- Selecting before or after the ordering.
  pub keep-order_by :
      (test : A → Bool) (xs : List A)
      → IsDistinct key xs
      → keep test (order_by key xs) ≡ order_by key (keep test xs)
  unfolding order_by
  keep-order_by test [] d = refl
  keep-order_by test (x ∷ xs) d = elim (Bool-cases (test x)) [
    | inl t ↦ rw t (
        keep-insert_by_in test x (order_by key xs) (order_by-IsAscending xs d.1) t
        ∙ ap (insert_by key x) (keep-order_by test xs d.1))
    | inr t ↦ rw t (keep-insert_by_out test x (order_by key xs) t ∙ keep-order_by test xs d.1)
  ]

  -- In an ascending list the keys before an element are below its key, and those after it above.
  pub IsAscending-split :
      (xs : List A) (y : A) (ys : List A)
      → IsAscending key (xs ++ y ∷ ys)
      → All (λ x. key x < key y) xs × All (λ z. key y < key z) ys
  IsAscending-split [] y ys a = (tt, a.0)
  IsAscending-split (x ∷ xs) y ys a =
      let (before, after) = IsAscending-split xs y ys a.1 in
      ((All-middle (λ z. key x < key z) xs y ys a.0, before), after)

  -- An ascending list is its part up to a key and its part after it.
  pub keep-split :
      (n : ℕ) (xs : List A)
      → IsAscending key xs
      → xs ≡ keep (λ x. leb (key x) n) xs ++ keep (λ x. leb (suc n) (key x)) xs
  keep-split n [] a = refl
  keep-split n (x ∷ xs) a = elim (Bool-cases (leb (key x) n)) [
    | inl low ↦
        (let high : leb (suc n) (key x) ≡ false = ground arith in
          rw (low, high) (ap (◌∷◌ x) (keep-split n xs a.1)))
    | inr above ↦
        (let high : leb (suc n) (key x) ≡ true = ground arith in
          rw
            (
              above,
              high,
              keep_of_none (λ y. leb (key y) n) xs
                  (All-mono (λ y. key x < key y) _ xs (λ y lt. ground arith) a.0),
              keep_of_All (λ y. leb (suc n) (key y)) xs
                  (All-mono (λ y. key x < key y) _ xs (λ y lt. ground arith) a.0),
            )
            refl)
  ]

  -- The last key of an ascending list is the greatest.
  pub IsAscending-last :
      (xs : List A) (x : A) → IsAscending key xs → last xs ≡ some x → All (λ y. key y ≤ key x) xs
  IsAscending-last [] x a h = tt
  IsAscending-last (y ∷ []) x a h =
      (let eq : y ≡ x = cc in subst (λ z. key y ≤ key z) eq (ground arith), tt)
  IsAscending-last (y ∷ z ∷ ys) x a h =
      let below = IsAscending-last (z ∷ ys) x a.1 h in (omega (arith, a.0.0, below.0), below)

module _ {A : Type 0} (key : A → ℕ) where
  In-insert_by_self : (x : A) (xs : List A) → In x (insert_by key x xs)
  unfolding insert_by
  In-insert_by_self x [] = inl refl
  In-insert_by_self x (y ∷ ys) = elim (Bool-cases (ltb (key y) (key x))) [
    | inl e ↦ rw e (inr (In-insert_by_self x ys))
    | inr e ↦ rw e (inl refl)
  ]

  In-insert_by : (x z : A) (xs : List A) → In z xs → In z (insert_by key x xs)
  unfolding insert_by
  In-insert_by x z [] i = absurd i
  In-insert_by x z (y ∷ ys) i = elim (Bool-cases (ltb (key y) (key x))) [
    | inl e ↦ rw e (elim i [ inl here ↦ inl here | inr later ↦ inr (In-insert_by x z ys later) ])
    | inr e ↦ rw e (inr i)
  ]

  -- An ordering loses nothing.
  pub In-order_by : (z : A) (xs : List A) → In z xs → In z (order_by key xs)
  unfolding order_by
  In-order_by z [] i = i
  In-order_by z (x ∷ xs) (inl e) = rw e (In-insert_by_self x (order_by key xs))
  In-order_by z (x ∷ xs) (inr i) = In-insert_by x z (order_by key xs) (In-order_by z xs i)
