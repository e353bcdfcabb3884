-- ===== src/Reducers/Lookup.antt =====
-- Registration and lookup in the registry of src/reducers.rs.
use fossic.Prelude.{
  ◌<◌, ◌≡◌, ◌⊎◌, inl, inr, refl, sym, Bool, true, false, ◌&&◌, [], ◌∷◌, ◌++◌, Option, none, some,
  arith, All, All-append, All-mono, All-In, In, In-append_left, In-append_last, ltb, ◌==◌,
  Bool-cases, if◌then◌else◌, subst,
}
use mathlib.Core.List.{append-nil, append_assoc}
use fossic.Text.{Str}
use fossic.Error.{ok, >>=-eq-ok, ok-injective}
use fossic.Glob.{matches, specificity_score}
use fossic.Reducers.{
  BoxedReducer, SnapshotPolicy, ReducerEntry, ReducerRegistry, validate_snapshot_policy,
  patterns_may_overlap, check_ambiguous, register_with_policy, better, find_best, find_entry,
}
use fossic.Reducers.Overlap.{patterns_may_overlap_sound}

-- `new` is registered after `old`, and could be as specific for some stream.
abbrev pub clash : ReducerEntry → ReducerEntry → Bool
clash old new = patterns_may_overlap new.pattern old.pattern && new.specificity == old.specificity

-- What registration maintains: no entry clashes with a later one.
abbrev pub Unambiguous : ReducerRegistry → Type 0
Unambiguous [] = Unit
Unambiguous (e ∷ es) = All (λ f. clash e f ≡ false) es × Unambiguous es

check_ambiguous-ok :
    (new : ReducerEntry) (es : ReducerRegistry)
    → check_ambiguous new.pattern new.specificity es ≡ ok tt
    → All (λ e. clash e new ≡ false) es
unfolding check_ambiguous
check_ambiguous-ok new [] h = tt
check_ambiguous-ok new (e ∷ es) h = (ground arith, check_ambiguous-ok new es (ground arith))

Unambiguous-push :
    (es : ReducerRegistry) (new : ReducerEntry)
    → Unambiguous es
    → All (λ e. clash e new ≡ false) es
    → Unambiguous (es ++ new ∷ [])
Unambiguous-push [] new u h = (tt, tt)
Unambiguous-push (e ∷ es) new u h = (
  All-append (λ f. clash e f ≡ false) es (new ∷ []) u.0 (h.0, tt),
  Unambiguous-push es new u.1 h.1,
)

-- A registration that succeeds keeps the registry unambiguous.
pub register_with_policy-Unambiguous :
    (es es' : ReducerRegistry) (pattern : Str) (reducer : BoxedReducer) (policy : SnapshotPolicy)
    → Unambiguous es
    → register_with_policy es pattern reducer policy ≡ ok es'
    → Unambiguous es'
unfolding register_with_policy
register_with_policy-Unambiguous es es' pattern reducer policy u h =
    let (_, _, h₁) = >>=-eq-ok (validate_snapshot_policy policy) _ h in
    let new : ReducerEntry = record {
      pattern = pattern;
      specificity = specificity_score pattern;
      reducer = reducer;
      policy = policy;
    } in
    let (_, clear, h₂) = >>=-eq-ok (check_ambiguous pattern (specificity_score pattern) es) _ h₁ in
    subst Unambiguous (ok-injective h₂)
      (Unambiguous-push es new u (check_ambiguous-ok new es clear))

-- Every entry that matches is `e` or less specific.
abbrev Beats : Str → ReducerEntry → ReducerEntry → Type 0
Beats id e f = matches f.pattern id ≡ true → (f ≡ e) ⊎ (f.specificity < e.specificity)

-- `best` is the choice among the entries `seen`: none if none matches, and else the one entry that is
-- more specific than every other entry that matches.
abbrev pub IsBest : Str → ReducerRegistry → Option ReducerEntry → Type 0
IsBest id seen none = All (λ f. matches f.pattern id ≡ false) seen
IsBest id seen (some e) = In e seen × (matches e.pattern id ≡ true) × All (Beats id e) seen

module _ (id : Str) (seen : ReducerRegistry) (entry : ReducerEntry) where
  skip-IsBest :
      (best : Option ReducerEntry)
      → matches entry.pattern id ≡ false
      → IsBest id seen best
      → IsBest id (seen ++ entry ∷ []) best
  skip-IsBest none n h = All-append (λ f. matches f.pattern id ≡ false) seen (entry ∷ []) h (n, tt)
  skip-IsBest (some e) n h = (
    In-append_left e seen (entry ∷ []) h.0,
    h.1,
    All-append (Beats id e) seen (entry ∷ []) h.2 ((λ m. cc), tt),
  )

  first-IsBest :
      matches entry.pattern id ≡ true
      → All (λ f. matches f.pattern id ≡ false) seen
      → IsBest id (seen ++ entry ∷ []) (some entry)
  first-IsBest m h = (
    In-append_last entry seen,
    m,
    All-append (Beats id entry) seen (entry ∷ [])
        (All-mono (λ f. matches f.pattern id ≡ false) (Beats id entry) seen (λ f n m'. cc) h)
        ((λ _. inl refl), tt),
  )

  replace-IsBest :
      (b : ReducerEntry)
      → b.specificity < entry.specificity
      → matches entry.pattern id ≡ true
      → IsBest id seen (some b)
      → IsBest id (seen ++ entry ∷ []) (some entry)
  replace-IsBest b lt m h = (
    In-append_last entry seen,
    m,
    All-append (Beats id entry) seen (entry ∷ [])
        (All-mono (Beats id b) (Beats id entry) seen (λ f beats m'. inr (ground (arith, beats m')))
          h.2)
        ((λ _. inl refl), tt),
  )

  -- Both match, so their patterns overlap: if neither clashes, they differ in specificity.
  keep-IsBest :
      (b : ReducerEntry)
      → ltb b.specificity entry.specificity ≡ false
      → matches entry.pattern id ≡ true
      → All (λ f. clash f entry ≡ false) seen
      → IsBest id seen (some b)
      → IsBest id (seen ++ entry ∷ []) (some b)
  keep-IsBest b n m clear h =
      let no_clash = All-In (λ f. clash f entry ≡ false) b seen clear h.0 in
      let overlap = patterns_may_overlap_sound entry.pattern b.pattern id m h.1 in
      (
        In-append_left b seen (entry ∷ []) h.0,
        h.1,
        All-append (Beats id b) seen (entry ∷ []) h.2 ((λ _. inr (ground arith)), tt),
      )

  better-IsBest :
      (best : Option ReducerEntry)
      → All (λ f. clash f entry ≡ false) seen
      → IsBest id seen best
      → IsBest id (seen ++ entry ∷ []) (better id best entry)
  unfolding better
  better-IsBest best clear h = elim (Bool-cases (matches entry.pattern id)) [
    | inr n ↦ rw n (skip-IsBest best n h)
    | inl m ↦ rw m (choose best h m)
  ]
    where
      choose :
          (best : Option ReducerEntry)
          → IsBest id seen best
          → matches entry.pattern id ≡ true
          → IsBest id (seen ++ entry ∷ []) (elim best [
            | none ↦ some entry
            | some b ↦ if ltb b.specificity entry.specificity then some entry else some b
          ])
      choose none h m = first-IsBest m h
      choose (some b) h m = elim (Bool-cases (ltb b.specificity entry.specificity)) [
        | inl lt ↦ rw lt (replace-IsBest b (ground arith) m h)
        | inr n ↦ rw n (keep-IsBest b n m clear h)
      ]

-- Nothing that is seen clashes with what follows.
clear_of_Unambiguous :
    (seen : ReducerRegistry) (e : ReducerEntry) (es : ReducerRegistry)
    → Unambiguous (seen ++ e ∷ es)
    → All (λ f. clash f e ≡ false) seen
clear_of_Unambiguous [] e es u = tt
clear_of_Unambiguous (f ∷ seen) e es u =
    (All-middle seen e es u.0, clear_of_Unambiguous seen e es u.1)
  where
    All-middle :
        (xs : ReducerRegistry) (y : ReducerEntry) (ys : ReducerRegistry)
        → All (λ g. clash f g ≡ false) (xs ++ y ∷ ys)
        → clash f y ≡ false
    All-middle [] y ys h = h.0
    All-middle (x ∷ xs) y ys h = All-middle xs y ys h.1

find_best-IsBest :
    (id : Str) (seen : ReducerRegistry) (best : Option ReducerEntry) (es : ReducerRegistry)
    → Unambiguous (seen ++ es)
    → IsBest id seen best
    → IsBest id (seen ++ es) (find_best id best es)
unfolding find_best
find_best-IsBest id seen best [] u h = rw append-nil h
find_best-IsBest id seen best (e ∷ es) u h =
    let shift : (seen ++ e ∷ []) ++ es ≡ seen ++ (e ∷ es) = append_assoc seen (e ∷ []) es in
    subst (λ l. IsBest id l (find_best id (better id best e) es)) shift
      (find_best-IsBest id (seen ++ e ∷ []) (better id best e) es (subst Unambiguous (sym shift) u)
        (better-IsBest id seen e best (clear_of_Unambiguous seen e es u) h))

-- In an unambiguous registry the lookup finds nothing exactly if no pattern matches the stream, and
-- else a registered entry that matches and is more specific than every other one that matches.
pub find_entry-IsBest :
    (es : ReducerRegistry) (id : Str) → Unambiguous es → IsBest id es (find_entry es id)
unfolding find_entry
find_entry-IsBest es id u = find_best-IsBest id [] none es u tt
