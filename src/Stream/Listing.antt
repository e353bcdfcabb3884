-- ===== src/Stream/Listing.antt =====
-- The streams that `streams_impl` of src/stream.rs lists.
use fossic.Prelude.{
  ℕ, ◌+◌, ◌<◌, ◌≤◌, ◌⊎◌, ◌↔◌, ◌==◌, leb, ◌≡◌, refl, subst, sym, ◌∙◌, ap, Bool, true, false, not,
  ◌&&◌, ◌||◌, List, [], ◌∷◌, any, keep, Bool-cases, inl, inr, arith,
}
use fossic.Prelude.Lex.{same, same_iff, lex_lt}
use fossic.Prelude.Words.{Bytes}
use fossic.Text.{Str, codes}
use fossic.Cce.Sort.{insert, sort_by}
use fossic.Tables.{StreamInfo, Db}
use fossic.Stream.{lower, begins_like, like_system, id_bytes, streams_impl, stream_exists}

any-insert :
    {A : Type 0} (key : A → Bytes) (test : A → Bool) (x : A) (xs : List A)
    → any test (insert key x xs) ≡ (test x || any test xs)
unfolding insert
any-insert key test x [] = refl
any-insert key test x (y ∷ ys) = elim (Bool-cases (lex_lt (key y) (key x))) [
  | inl e ↦ rw e (ground (arith, any-insert key test x ys))
  | inr e ↦ rw e refl
]

any-sort_by :
    {A : Type 0} (key : A → Bytes) (test : A → Bool) (xs : List A)
    → any test (sort_by key xs) ≡ any test xs
unfolding sort_by
any-sort_by key test [] = refl
any-sort_by key test (x ∷ xs) =
    any-insert key test x (sort_by key xs) ∙ ap (λ b. test x || b) (any-sort_by key test xs)

any-visible :
    (id : Str) (streams : List StreamInfo)
    → any
        (λ (s : StreamInfo). same s.id id)
        (keep (λ (s : StreamInfo). not (like_system s.id)) streams)
      ≡ (any (λ (s : StreamInfo). same s.id id) streams && not (like_system id))
any-visible id [] = refl
any-visible id (s ∷ streams) = elim (Bool-cases (same s.id id)) [
  | inl here ↦
      (let equal : like_system id ≡ like_system s.id =
          ap like_system (sym ((same_iff s.id id).0 here)) in
        elim (Bool-cases (like_system s.id)) [
          | inl h ↦
              (let hidden : like_system id ≡ true = equal ∙ h in
                rw (here, h) (any-visible id streams ∙ rw hidden (ground arith)))
          | inr h ↦
              (let shown : like_system id ≡ false = equal ∙ h in rw (here, h, shown) (rw here refl))
        ])
  | inr other ↦ elim (Bool-cases (like_system s.id)) [
    | inl h ↦ rw (other, h) (any-visible id streams)
    | inr h ↦ rw (other, h) (rw other (any-visible id streams))
  ]
]

listed :
    (db : Db) (id : Str)
    → any (λ (s : StreamInfo). same s.id id) (streams_impl db)
      ≡ (stream_exists db id && not (like_system id))
unfolding streams_impl stream_exists
listed db id = any-sort_by id_bytes (λ (s : StreamInfo). same s.id id) _ ∙ any-visible id db.streams

-- A character in upper or lower case: itself if it is no upper-case letter, else the letter 32 above it.
abbrev pub SameLetter : ℕ → ℕ → Type 0
SameLetter c p = ((c ≡ p) × ((c < 65) ⊎ (90 < c))) ⊎ ((65 ≤ c) × (c ≤ 90) × (c + 32 ≡ p))

-- A text that begins with a pattern, in upper or lower case.
pub data Begins : Str → Str → Type 0 where
  ended : {s : Str} → Begins s []
  next : {c p : ℕ} {s ps : Str} → SameLetter c p → Begins s ps → Begins (c ∷ s) (p ∷ ps)

-- Any one character, and then `fossic/` in upper or lower case.
abbrev pub IsHidden : Str → Type 0
IsHidden id = (c : ℕ) × (rest : Str) × (id ≡ c ∷ rest) × Begins rest (codes "fossic/")

Begins-nil : {p : ℕ} {ps : Str} → Begins [] (p ∷ ps) → ⊥
Begins-nil b = elim b [ ]

Begins-cons : {c p : ℕ} {s ps : Str} → Begins (c ∷ s) (p ∷ ps) → SameLetter c p × Begins s ps
Begins-cons (next l b) = (l, b)

lower_iff : (c p : ℕ) → ((lower c == p) ≡ true) ↔ SameLetter c p
lower_iff c p = elim (Bool-cases (leb b'A' c && leb c b'Z')) [
  | inl upper ↦ (
    (λ h. inr (ground (arith, upper), ground (arith, upper), ground (arith, upper, rw upper at h))),
    λ l. rw upper (elim l [
      | inl (_, apart) ↦ ground (arith, upper, apart)
      | inr (_, _, e) ↦ ground (arith, e)
    ]),
  )
  | inr other ↦ (
    (λ h. inl (ground (arith, rw other at h), ground (arith, other))),
    λ l. rw other (elim l [
      | inl (e, _) ↦ ground (arith, e)
      | inr (low, high, _) ↦ ground (arith, other, low, high)
    ]),
  )
]

begins_like_iff : (s ps : Str) → (begins_like s ps ≡ true) ↔ Begins s ps
unfolding begins_like
begins_like_iff s [] = ((λ h. ended), λ b. refl)
begins_like_iff [] (p ∷ ps) = ((λ h. absurd (cc)), λ b. absurd (Begins-nil b))
begins_like_iff (c ∷ s) (p ∷ ps) = (
  (λ h.
      next ((lower_iff c p).0 (ground (arith, h))) ((begins_like_iff s ps).0 (ground (arith, h)))),
  λ b. (let (l, rest) = Begins-cons b in rw ((lower_iff c p).1 l) ((begins_like_iff s ps).1 rest)),
)

like_system_iff : (id : Str) → (like_system id ≡ true) ↔ IsHidden id
like_system_iff [] = ((λ h. absurd (cc)), λ (c, rest, e, b). absurd (nothing e))
  where
    nothing : {c : ℕ} {rest : Str} → ◌≡◌ {A = Str} [] (c ∷ rest) → ⊥
    nothing h = cc
like_system_iff (c ∷ s) = (
  (λ h. (c, s, refl, (begins_like_iff s (codes "fossic/")).0 h)),
  λ (d, rest, e, b).
      (let same_rest : rest ≡ s = cc in
        (begins_like_iff s (codes "fossic/")).1
          (subst (λ t. Begins t (codes "fossic/")) same_rest b)),
)

-- Exactly the declared streams are listed whose id does not consist of any one character and a rest that
-- begins with `fossic/`, in upper or lower case.
pub streams_impl_iff :
    (db : Db) (id : Str)
    → (any (λ (s : StreamInfo). same s.id id) (streams_impl db) ≡ true)
      ↔ ((stream_exists db id ≡ true) × ¬ (IsHidden id))
streams_impl_iff db id = elim (Bool-cases (like_system id)) [
  | inl hidden ↦ (
    (λ h. absurd (shown (sym h ∙ listed db id) hidden)),
    λ h. absurd (h.1 ((like_system_iff id).0 hidden)),
  )
  | inr visible ↦ (
    (λ h. (
      ground (arith, sym h ∙ listed db id),
      λ is_hidden. clash (sym visible ∙ (like_system_iff id).1 is_hidden),
    )),
    λ h. listed db id ∙ rw (h.0, visible) refl,
  )
]
  where
    shown : true ≡ (stream_exists db id && not (like_system id)) → like_system id ≡ true → ⊥
    shown h t = ground (arith, h, t)

    clash : ◌≡◌ {A = Bool} false true → ⊥
    clash h = cc
