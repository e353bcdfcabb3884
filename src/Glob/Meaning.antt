-- ===== src/Glob/Meaning.antt =====
-- The relation between a pattern and a stream id that the matcher of src/glob.rs is to decide.
use fossic.Prelude.{
  ◌≡◌, ◌≢◌, ◌↔◌, ◌⊎◌, inl, inr, refl, Bool, true, List, [], ◌∷◌, arith, Bool-cases,
}
use fossic.Prelude.Lex.{same, same_iff, same-false}
use fossic.Text.{Str, split}
use fossic.Glob.{star, double_star, any_suffix, match_segment, match_parts, matches}

-- The segments of a stream id that a list of pattern segments stands for.
pub data Matches : List Str → List Str → Type 0 where
  stop : Matches [] []
  -- any other segment is `*` or stands for itself
  one :
      {p x : Str} {ps xs : List Str}
      → p ≢ double_star
      → (p ≡ star) ⊎ (p ≡ x)
      → Matches ps xs
      → Matches (p ∷ ps) (x ∷ xs)
  -- `**` stands for no segment,
  leave : {p : Str} {ps xs : List Str} → p ≡ double_star → Matches ps xs → Matches (p ∷ ps) xs
  -- or for one more
  take :
      {p x : Str} {ps xs : List Str}
      → p ≡ double_star
      → Matches (p ∷ ps) xs
      → Matches (p ∷ ps) (x ∷ xs)

module _ (ps : List Str) (sound : (s : List Str) → match_parts ps s ≡ true → Matches ps s) where
  any_suffix_sound :
      (p : Str) (s : List Str)
      → p ≡ double_star
      → any_suffix (match_parts ps) s ≡ true
      → Matches (p ∷ ps) s
  unfolding any_suffix
  any_suffix_sound p [] e h = leave e (sound [] h)
  any_suffix_sound p (x ∷ xs) e h = elim (Bool-cases (match_parts ps (x ∷ xs))) [
    | inl here ↦ leave e (sound (x ∷ xs) here)
    | inr later ↦ take e (any_suffix_sound p xs e (rw later at h))
  ]

  match_segment_sound :
      (p : Str) (s : List Str)
      → p ≢ double_star
      → match_segment p (match_parts ps) s ≡ true
      → Matches (p ∷ ps) s
  unfolding match_segment
  match_segment_sound p [] e h = cc
  match_segment_sound p (x ∷ xs) e h =
      one e (ground (arith, same_iff p star, same_iff p x)) (sound xs (ground arith))

match_parts_sound : (ps s : List Str) → match_parts ps s ≡ true → Matches ps s
unfolding match_parts
match_parts_sound [] [] h = stop
match_parts_sound [] (x ∷ xs) h = cc
match_parts_sound (p ∷ ps) s h = elim (Bool-cases (same p double_star)) [
  | inl e ↦
      any_suffix_sound ps (match_parts_sound ps) p s ((same_iff p double_star).0 e) (rw e at h)
  | inr e ↦
      match_segment_sound ps (match_parts_sound ps) p s
        (λ q. ground (arith, same_iff p double_star)) (rw e at h)
]

any_suffix_here : (test : List Str → Bool) (s : List Str) → test s ≡ true → any_suffix test s ≡ true
unfolding any_suffix
any_suffix_here test [] h = h
any_suffix_here test (x ∷ xs) h = rw h

any_suffix_later :
    (test : List Str → Bool) (x : Str) (s : List Str)
    → any_suffix test s ≡ true
    → any_suffix test (x ∷ s) ≡ true
unfolding any_suffix
any_suffix_later test x s h = ground arith

match_parts-double_star :
    (p : Str) (ps s : List Str)
    → p ≡ double_star
    → match_parts (p ∷ ps) s ≡ any_suffix (match_parts ps) s
unfolding match_parts
match_parts-double_star p ps s e = rw ((same_iff p double_star).1 e)

match_parts-segment :
    (p x : Str) (ps xs : List Str)
    → p ≢ double_star
    → (p ≡ star) ⊎ (p ≡ x)
    → match_parts ps xs ≡ true
    → match_parts (p ∷ ps) (x ∷ xs) ≡ true
unfolding match_parts
match_parts-segment p x ps xs h c rest =
    rw (same-false p double_star h) (ground (arith, same_iff p star, same_iff p x))

match_parts_complete : {ps s : List Str} → Matches ps s → match_parts ps s ≡ true
match_parts_complete stop = unfold match_parts in refl
match_parts_complete (one {p} {x} {ps} {xs} h c d) =
    match_parts-segment p x ps xs h c (match_parts_complete d)
match_parts_complete (leave {p} {ps} {xs} e d) =
    rw (match_parts-double_star p ps xs e)
      (any_suffix_here (match_parts ps) xs (match_parts_complete d))
match_parts_complete (take {p} {x} {ps} {xs} e d) = rw (match_parts-double_star p ps (x ∷ xs) e) (
    any_suffix_later (match_parts ps) x xs
      (rw (match_parts-double_star p ps xs e) at (match_parts_complete d)))

pub match_parts_iff : (ps s : List Str) → (match_parts ps s ≡ true) ↔ Matches ps s
match_parts_iff ps s = (match_parts_sound ps s, match_parts_complete)

-- A pattern matches a stream id exactly if the segments of the id can be divided among those of the
-- pattern: one for `*`, any number for `**`, and the same segment for any other.
pub matches_iff :
    (pattern stream_id : Str)
    → (matches pattern stream_id ≡ true) ↔ Matches (split pattern) (split stream_id)
unfolding matches
matches_iff pattern stream_id = match_parts_iff (split pattern) (split stream_id)
