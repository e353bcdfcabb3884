-- ===== src/Cce/Sort.antt =====
-- `sort_unstable_by` of src/cce.rs, as an insertion sort by a key.
-- Items with equal keys may come out in any order there. The encoder refuses such a list.
use fossic.Prelude.{
  All, Bool-cases, inl, inr, ◌≡◌, ◌∙◌, refl, ap, List, [], ◌∷◌, map, if◌then◌else◌, length, arith,
  suc,
}
use fossic.Prelude.Lex.{lex_lt}
use fossic.Prelude.Words.{Bytes}

module _ {ℓ} {A : Type ℓ} (key : A → Bytes) where
  unfoldable pub insert : A → List A → List A
  insert x [] = x ∷ []
  insert x (y ∷ ys) =
      let later = y ∷ insert x ys in if lex_lt (key y) (key x) then later else x ∷ y ∷ ys

  unfoldable pub sort_by : List A → List A
  unfolding insert
  sort_by [] = []
  sort_by (x ∷ xs) = insert x (sort_by xs)

module _ {ℓ} {A : Type ℓ} (key : A → Bytes) where
  length-insert : (x : A) (xs : List A) → length (insert key x xs) ≡ suc (length xs)
  unfolding insert
  length-insert x [] = refl
  length-insert x (y ∷ ys) = ground (arith, length-insert x ys)

  pub length-sort_by : (xs : List A) → length (sort_by key xs) ≡ length xs
  unfolding sort_by
  length-sort_by [] = refl
  length-sort_by (x ∷ xs) = length-insert x (sort_by key xs) ∙ ap suc (length-sort_by xs)

-- Sorting does not look at more than the keys.
module _ {ℓ κ} {A : Type ℓ} {B : Type κ} (f : A → B) (key : A → Bytes) (key' : B → Bytes)
    (agree : (a : A) → key' (f a) ≡ key a) where
  map-insert : (x : A) (xs : List A) → insert key' (f x) (map f xs) ≡ map f (insert key x xs)
  unfolding insert
  map-insert x [] = refl
  map-insert x (y ∷ ys) = rw (agree x, agree y) (ground (arith, map-insert x ys))

  pub map-sort_by : (xs : List A) → sort_by key' (map f xs) ≡ map f (sort_by key xs)
  unfolding sort_by
  map-sort_by [] = refl
  map-sort_by (x ∷ xs) = rw (map-sort_by xs) (map-insert x (sort_by key xs))

module _ {ℓ κ} {A : Type ℓ} (P : A → Type κ) (key : A → Bytes) where
  pub All-insert : (x : A) (xs : List A) → P x → All P xs → All P (insert key x xs)
  unfolding insert
  All-insert x [] px pxs = (px, pxs)
  All-insert x (y ∷ ys) px pxs = elim (Bool-cases (lex_lt (key y) (key x))) [
    | inl e ↦ rw e (pxs.0, All-insert x ys px pxs.1)
    | inr e ↦ rw e (px, pxs)
  ]

  pub All-sort_by : (xs : List A) → All P xs → All P (sort_by key xs)
  unfolding sort_by
  All-sort_by [] h = h
  All-sort_by (x ∷ xs) h = All-insert x (sort_by key xs) h.0 (All-sort_by xs h.1)
