-- ===== src/Reducers/Overlap.antt =====
-- `patterns_may_overlap` of src/reducers.rs against the matcher of src/glob.rs.
use fossic.Prelude.{
  ◌≡◌, ◌≢◌, ◌⊎◌, inl, inr, refl, sym, ◌∙◌, ap, true, false, List, [], ◌∷◌, arith, suc, length,
  Bool-cases, ==_iff, subst, if◌then◌else◌,
}
use fossic.Prelude.Lex.{same, same_iff}
use fossic.Text.{Str, split}
use fossic.Glob.{star, double_star, matches, match_parts}
use fossic.Glob.Meaning.{Matches, stop, one, leave, take, matches_iff, match_parts_iff}
use fossic.Reducers.{compatible, has_double_star, parts_may_overlap, patterns_may_overlap}

-- Without `**` a pattern has one segment for each segment of the id.
length-Matches :
    {ps s : List Str} → Matches ps s → has_double_star ps ≡ false → length ps ≡ length s
length-Matches stop h = refl
length-Matches (one {p} {x} {ps} {xs} n c d) h = ap suc (length-Matches d (ground arith))
length-Matches (leave {p} {ps} e d) h = ground (arith, same_iff p double_star)
length-Matches (take {p} {x} {ps} e d) h = ground (arith, same_iff p double_star)

not-double_star :
    (p : Str) (ps : List Str)
    → has_double_star (p ∷ ps) ≡ false
    → (p ≢ double_star) × (has_double_star ps ≡ false)
not-double_star p ps h = ((λ e. ground (arith, same_iff p double_star)), ground arith)

-- A first segment, with the other pattern matched on.
compatible-one :
    (p : Str) (ps : List Str) {bs s : List Str} (x : Str) (xs : List Str)
    → Matches bs s
    → s ≡ x ∷ xs
    → has_double_star bs ≡ false
    → (p ≡ star) ⊎ (p ≡ x)
    → ((bs' : List Str) → has_double_star bs' ≡ false → Matches bs' xs → compatible ps bs' ≡ true)
    → compatible (p ∷ ps) bs ≡ true
compatible-one p ps x xs stop e hb c ih = cc
compatible-one p ps x xs (leave {p = q} e' d) e hb c ih = ground (arith, same_iff q double_star)
compatible-one p ps x xs (take {p = q} e' d) e hb c ih = ground (arith, same_iff q double_star)
compatible-one p ps x xs (one {p = q} {x = y} {ps = qs} {xs = ys} n c' d) e hb c ih =
    let tails : ys ≡ xs = cc in
    let rest = ih qs (not-double_star q qs hb).1 (subst (Matches qs) tails d) in
    ground (arith, same_iff p star, same_iff q star, same_iff p q)

compatible-Matches :
    {ps s : List Str} (bs : List Str)
    → Matches ps s
    → has_double_star ps ≡ false
    → has_double_star bs ≡ false
    → Matches bs s
    → compatible ps bs ≡ true
compatible-Matches bs stop ha hb m = refl
compatible-Matches bs (leave {p} e d) ha hb m = ground (arith, same_iff p double_star)
compatible-Matches bs (take {p} e d) ha hb m = ground (arith, same_iff p double_star)
compatible-Matches bs (one {p} {x} {ps} {xs} n c d) ha hb m =
    compatible-one p ps x xs m refl hb c
      (λ bs' h m'. compatible-Matches bs' d (not-double_star p ps ha).1 h m')

parts_sound : (ps qs s : List Str) → Matches ps s → Matches qs s → parts_may_overlap ps qs ≡ true
unfolding parts_may_overlap
parts_sound ps qs s m n = elim (Bool-cases (has_double_star ps)) [
  | inl e ↦ rw e
  | inr e ↦ elim (Bool-cases (has_double_star qs)) [
    | inl f ↦ rw (e, f)
    | inr f ↦ rw (
      e,
      f,
      (==_iff (length ps) (length qs)).1 (length-Matches m e ∙ sym (length-Matches n f)),
      compatible-Matches qs m e f n,
    )
  ]
]

-- Two patterns that match one stream id are reported as overlapping.
pub patterns_may_overlap_sound :
    (a b stream_id : Str)
    → matches a stream_id ≡ true
    → matches b stream_id ≡ true
    → patterns_may_overlap a b ≡ true
unfolding patterns_may_overlap
patterns_may_overlap_sound a b stream_id ha hb =
    parts_sound (split a) (split b) (split stream_id) ((matches_iff a stream_id).0 ha)
      ((matches_iff b stream_id).0 hb)

-- A segment that two compatible segments match.
abbrev common : Str → Str → Str
common p q = if same p star then q else p

-- Without `**` the report is exact: compatible patterns of one length match some id together.
compatible-witness :
    (ps qs : List Str)
    → has_double_star ps ≡ false
    → has_double_star qs ≡ false
    → length ps ≡ length qs
    → compatible ps qs ≡ true
    → (s : List Str) × Matches ps s × Matches qs s
compatible-witness [] [] ha hb n c = ([], stop, stop)
compatible-witness [] (q ∷ qs) ha hb n c = absurd (omega arith)
compatible-witness (p ∷ ps) [] ha hb n c = absurd (omega arith)
compatible-witness (p ∷ ps) (q ∷ qs) ha hb n c =
    let (p_lit, ha') = not-double_star p ps ha in
    let (q_lit, hb') = not-double_star q qs hb in
    let (s, m, m') = compatible-witness ps qs ha' hb' (omega arith) (ground arith) in
    (
      common p q ∷ s,
      one p_lit (ground (arith, same_iff p star)) m,
      one q_lit (ground (arith, same_iff p star, same_iff q star, same_iff p q)) m',
    )

-- Where neither pattern has `**`, an overlap is reported only if some segments match both.
pub parts_may_overlap_exact :
    (ps qs : List Str)
    → has_double_star ps ≡ false
    → has_double_star qs ≡ false
    → parts_may_overlap ps qs ≡ true
    → (s : List Str) × (match_parts ps s ≡ true) × (match_parts qs s ≡ true)
unfolding parts_may_overlap
parts_may_overlap_exact ps qs ha hb h =
    let same_length : length ps ≡ length qs = ground arith in
    let (s, m, m') = compatible-witness ps qs ha hb same_length (ground arith) in
    (s, (match_parts_iff ps s).1 m, (match_parts_iff qs s).1 m')
