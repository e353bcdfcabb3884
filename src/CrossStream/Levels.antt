-- ===== src/CrossStream/Levels.antt =====
-- The levels of the recursive queries of src/cross_stream.rs, against chains of causes.
use fossic.Prelude.{
  ℕ, zero, suc, ◌<◌, ◌≤◌, ◌≡◌, ◌⊎◌, refl, sym, ◌∙◌, ap, subst, Bool, true, List, [], ◌∷◌, Option,
  none, some, any, keep, map, In, In-keep, Bool-cases, Option-cases, inl, inr, arith,
}
use fossic.Prelude.Lex.{same, same_iff, same_refl}
use fossic.EventId.{EventId}
use fossic.Tables.{StoredEvent, Db}
use fossic.CrossStream.{is_id, id_of, effects, causes_in, causes, levels, in_levels}

-- A chain of so many links from one id to another.
pub data Chain (Link : EventId → EventId → Type 0) : EventId → ℕ → EventId → Type 0 where
  here : {s x : EventId} → s ≡ x → Chain Link s zero x
  link : {s y x : EventId} {k : ℕ} → Link s y → Chain Link y k x → Chain Link s (suc k) x

-- The first is the cause of an event with the second id, or the other way round.
abbrev pub Causes : Db → EventId → EventId → Type 0
Causes db s x = (e : StoredEvent) × In e db.events × (e.causation_id ≡ some s) × (e.id ≡ x)

abbrev pub CausedBy : Db → EventId → EventId → Type 0
CausedBy db s x = Causes db x s

pub any_In : (x : List ℕ) (xs : List (List ℕ)) → any (same x) xs ≡ true → In x xs
any_In x [] h = absurd (cc)
any_In x (y ∷ ys) h = elim (Bool-cases (same x y)) [
  | inl e ↦ inl ((same_iff x y).0 e)
  | inr e ↦ inr (any_In x ys (rw e at h))
]

pub In-any : (x : List ℕ) (xs : List (List ℕ)) → In x xs → any (same x) xs ≡ true
In-any x [] i = absurd i
In-any x (y ∷ ys) (inl e) = rw e (rw (same_refl y) refl)
In-any x (y ∷ ys) (inr i) = ground (arith, In-any x ys i)

-- What a step of a query adds are the ids that a link leads to.
abbrev pub Expands : (EventId → EventId → Type 0) → (List EventId → List EventId) → Type 0
Expands Link expand =
    (ids : List EventId) (x : EventId)
    → (In x (expand ids) → (s : EventId) × In s ids × Link s x)
      × ((s : EventId) → In s ids → Link s x → In x (expand ids))

In-cons_of : (x : List ℕ) (y : List ℕ) (ys : List (List ℕ)) → In x (y ∷ ys) → (x ≡ y) ⊎ In x ys
In-cons_of x y ys i = i

module _ (Link : EventId → EventId → Type 0) (expand : List EventId → List EventId)
    (step : Expands Link expand) where
  pub levels_sound :
      (n : ℕ) (ids : List EventId) (x : EventId)
      → in_levels (levels expand n ids) x ≡ true
      → (s : EventId) × (k : ℕ) × In s ids × (0 < k) × (k ≤ n) × Chain Link s k x
  unfolding levels in_levels
  levels_sound zero ids x h = absurd (cc)
  levels_sound (suc n) ids x h = elim (Bool-cases (any (same x) (expand ids))) [
    | inl now ↦
        (let (s, i, l) = (step ids x).0 (any_In x (expand ids) now) in
          (s, 1, i, omega arith, omega arith, link l (here refl)))
    | inr later ↦
        (let (y, k, i, pos, le, c) = levels_sound n (expand ids) x (rw later at h) in
          let (s, j, l) = (step ids y).0 i in
          (s, suc k, j, omega arith, omega (arith, le), link l c))
  ]

  pub levels_complete :
      (n : ℕ) (ids : List EventId) (s x : EventId) (k : ℕ)
      → In s ids
      → 0 < k
      → k ≤ n
      → Chain Link s k x
      → in_levels (levels expand n ids) x ≡ true
  unfolding levels in_levels
  levels_complete n ids s x zero i pos le c = absurd (omega (arith, pos))
  levels_complete zero ids s x (suc k) i pos le c = absurd (omega (arith, le))
  levels_complete (suc n) ids s x (suc zero) i pos le (link {y = y} l (here e)) =
      rw (In-any x (expand ids) (subst (λ z. In z (expand ids)) e ((step ids y).1 s i l))) refl
  levels_complete (suc n) ids s x (suc (suc k)) i pos le (link {y = y} l c) = ground (
    arith,
    levels_complete n (expand ids) y x (suc k) ((step ids y).1 s i l) (omega arith)
        (omega (arith, le)) c,
  )

is_id_iff : (i : EventId) (o : Option EventId) → is_id i o ≡ true → o ≡ some i
is_id_iff i none h = absurd (cc)
is_id_iff i (some x) h = ap some ((same_iff x i).0 h)

pub In-map_id :
    (x : EventId) (es : List StoredEvent)
    → In x (map id_of es)
    → (e : StoredEvent) × In e es × (e.id ≡ x)
In-map_id x [] i = absurd i
In-map_id x (e ∷ es) (inl eq) = (e, inl refl, sym eq)
In-map_id x (e ∷ es) (inr i) = (let (f, j, eq) = In-map_id x es i in (f, inr j, eq))

pub In-map_of : (e : StoredEvent) (es : List StoredEvent) → In e es → In e.id (map id_of es)
In-map_of e [] i = absurd i
In-map_of e (f ∷ es) (inl eq) = inl (ap id_of eq)
In-map_of e (f ∷ es) (inr i) = inr (In-map_of e es i)

-- A kept element was there, and passes the test.
pub In-of_keep :
    {A : Type 0} (test : A → Bool) (x : A) (xs : List A)
    → In x (keep test xs)
    → In x xs × (test x ≡ true)
In-of_keep test x [] i = absurd i
In-of_keep test x (y ∷ ys) i =
    let rest = In-of_keep test x ys in
    elim (Bool-cases (test y)) [
      | inl t ↦ first t rest (rw t at i)
      | inr t ↦ (let (j, u) = rest (rw t at i) in (inr j, u))
    ]
  where
    first :
        test y ≡ true
        → (In x (keep test ys) → In x ys × (test x ≡ true))
        → In x (y ∷ keep test ys)
        → In x (y ∷ ys) × (test x ≡ true)
    first t rest (inl e) = (inl e, ap test e ∙ t)
    first t rest (inr i) = (let (j, u) = rest i in (inr j, u))

pub any-is_id :
    (o : Option EventId) (ids : List EventId)
    → any (λ i. is_id i o) ids ≡ true
    → (s : EventId) × In s ids × (o ≡ some s)
any-is_id o [] h = absurd (cc)
any-is_id o (i ∷ ids) h = elim (Bool-cases (is_id i o)) [
  | inl e ↦ (i, inl refl, is_id_iff i o e)
  | inr e ↦ (let (s, j, eq) = any-is_id o ids (rw e at h) in (s, inr j, eq))
]

pub is_id-any :
    (s : EventId) (ids : List EventId) → In s ids → any (λ i. is_id i (some s)) ids ≡ true
is_id-any s [] i = absurd i
is_id-any s (i ∷ ids) (inl e) = rw e (rw (same_refl i) refl)
is_id-any s (i ∷ ids) (inr j) = ground (arith, is_id-any s ids j)

pub effects-Expands : (db : Db) → Expands (Causes db) (effects db)
unfolding effects
effects-Expands db ids x = (
  λ i.
      (let (e, j, eq) = In-map_id x _ i in
        let (k, t) =
          In-of_keep (λ (e : StoredEvent). any (λ i. is_id i e.causation_id) ids) e db.events j in
        let (s, l, c) = any-is_id e.causation_id ids t in (s, l, (e, k, c, eq))),
  λ s i l.
      (let (e, j, c, eq) = l in
        subst (λ z. In z (effects db ids)) eq
          (In-map_of e _ (
            In-keep (λ (e : StoredEvent). any (λ i. is_id i e.causation_id) ids) e db.events j
              (rw c (is_id-any s ids i))))),
)

In-causes_in :
    (x : EventId) (es : List StoredEvent)
    → In x (causes_in es)
    → (e : StoredEvent) × In e es × (e.causation_id ≡ some x)
In-causes_in x [] i = absurd i
In-causes_in x (e ∷ es) i =
    let rest = In-causes_in x es in
    elim (Option-cases e.causation_id) [
      | inl n ↦ (let (f, j, c) = rest (rw n at i) in (f, inr j, c))
      | inr (y, eq) ↦ first y eq rest (rw eq at i)
    ]
  where
    first :
        (y : EventId)
        → e.causation_id ≡ some y
        → (In x (causes_in es) → (f : StoredEvent) × In f es × (f.causation_id ≡ some x))
        → In x (y ∷ causes_in es)
        → (f : StoredEvent) × In f (e ∷ es) × (f.causation_id ≡ some x)
    first y eq rest (inl same_id) = (e, inl refl, eq ∙ ap some (sym same_id))
    first y eq rest (inr i) = (let (f, j, c) = rest i in (f, inr j, c))

causes_in-In :
    (x : EventId) (e : StoredEvent) (es : List StoredEvent)
    → In e es
    → e.causation_id ≡ some x
    → In x (causes_in es)
causes_in-In x e [] i c = absurd i
causes_in-In x e (f ∷ es) (inl eq) c =
    (let c' : f.causation_id ≡ some x = subst (λ (z : StoredEvent). z.causation_id ≡ some x) eq c in
      rw c' (inl refl))
causes_in-In x e (f ∷ es) (inr i) c = elim (Option-cases f.causation_id) [
  | inl n ↦ rw n (causes_in-In x e es i c)
  | inr (y, eq) ↦ rw eq (inr (causes_in-In x e es i c))
]

pub causes-Expands : (db : Db) → Expands (CausedBy db) (causes db)
unfolding causes
causes-Expands db ids x = (
  λ i.
      (let (e, j, c) = In-causes_in x _ i in
        let (k, t) = In-of_keep (λ (e : StoredEvent). any (λ i. same e.id i) ids) e db.events j in
        (e.id, any_In e.id ids t, (e, k, c, refl))),
  λ s i l.
      (let (e, j, c, eq) = l in
        causes_in-In x e _
          (In-keep (λ (e : StoredEvent). any (λ i. same e.id i) ids) e db.events j
            (rw eq (In-any s ids i)))
          c),
)
