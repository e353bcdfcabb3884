-- ===== src/Text/Split.antt =====
-- Splitting a text at `/` and joining the segments again.
use fossic.Prelude.{
  ℕ, ◌≡◌, ◌≢◌, refl, sym, ◌∙◌, ap, List, [], ◌∷◌, ◌++◌, arith, All, ◌==◌, ==_iff, Bool-cases, inl,
  inr,
}
use fossic.Text.{Str, split, cons_head}

unfoldable pub join : List Str → Str
join [] = []
join (seg ∷ []) = seg
join (seg ∷ next ∷ rest) = seg ++ b'/' ∷ join (next ∷ rest)

cons_head-ne-nil : (c : ℕ) (l : List Str) → cons_head c l ≢ []
unfolding cons_head
cons_head-ne-nil c [] e = cc
cons_head-ne-nil c (seg ∷ l) e = cc

-- There is always a segment.
pub split-ne-nil : (s : Str) → split s ≢ []
unfolding split
split-ne-nil [] e = cc
split-ne-nil (c ∷ s) e = ground (arith, cons_head-ne-nil c (split s))

join-cons_head : (c : ℕ) (l : List Str) → join (cons_head c l) ≡ c ∷ join l
unfolding join cons_head
join-cons_head c [] = refl
join-cons_head c (seg ∷ []) = refl
join-cons_head c (seg ∷ next ∷ rest) = refl

join-nil-cons : (l : List Str) → l ≢ [] → join ([] ∷ l) ≡ b'/' ∷ join l
unfolding join
join-nil-cons [] h = absurd (h refl)
join-nil-cons (seg ∷ l) h = refl

pub join-split : (s : Str) → join (split s) ≡ s
unfolding split
join-split [] = unfold join in refl
join-split (c ∷ s) = elim (Bool-cases (c == b'/')) [
  | inl e ↦
      rw (e, join-nil-cons (split s) (split-ne-nil s), join-split s)
        (ap (λ d. d ∷ s) (sym ((==_iff c b'/').0 e)))
  | inr e ↦ rw (e, join-cons_head c (split s), join-split s)
]

pub split-injective : (s t : Str) → split s ≡ split t → s ≡ t
split-injective s t e = sym (join-split s) ∙ ap join e ∙ join-split t

All-cons_head {κ} :
    (P : ℕ → Type κ) (c : ℕ) (l : List Str) → P c → All (All P) l → All (All P) (cons_head c l)
unfolding cons_head
All-cons_head P c [] p h = ((p, tt), tt)
All-cons_head P c (seg ∷ l) p h = ((p, h.0), h.1)

-- What holds of every character of a text holds of those of its segments.
pub All-split {κ} : (P : ℕ → Type κ) (s : Str) → All P s → All (All P) (split s)
unfolding split
All-split P [] h = (tt, tt)
All-split P (c ∷ s) h = elim (Bool-cases (c == b'/')) [
  | inl e ↦ rw e (tt, All-split P s h.1)
  | inr e ↦ rw e (All-cons_head P c (split s) h.0 (All-split P s h.1))
]
