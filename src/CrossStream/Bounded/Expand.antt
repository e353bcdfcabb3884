-- ===== src/CrossStream/Bounded/Expand.antt =====
-- One level of the bounded walk of src/cross_stream.rs.
use fossic.Prelude.{
  ℕ, ◌+◌, ◌≤◌, ◌≡◌, ◌⊎◌, ◌↔◌, refl, subst, false, not, length, length-append, arith, Bool, List, [],
  ◌∷◌, ◌++◌, some, any, keep, map, In, In-keep, In-append_left, In-append_right, All-In, Bool-cases,
  inl, inr,
}
use fossic.Prelude.Lex.{same, lex_lt}
use fossic.Cce.Sort.{insert, sort_by, All-sort_by}
use fossic.EventId.{EventId}
use fossic.Tables.{StoredEvent, Db}
use fossic.CrossStream.{WalkDirection, forward, backward, both, is_id, id_of, causes, merge}
use fossic.CrossStream.Levels.{
  CausedBy, any_In, In-any, In-of_keep, In-map_of, any-is_id, is_id-any, causes-Expands,
}
use fossic.CrossStream.Walks.{All-self, has_id_of, In-of_append}
use fossic.Read.{max_parameters, too_many}
use fossic.CrossStream.Bounded.{
  children_of, parents_of, bfs_expand_forward, bfs_expand_backward, expand_frontier, union,
}
use fossic.Error.{ok}

-- An event that a step in the direction leads to from an id.
abbrev pub Linked : Db → WalkDirection → EventId → StoredEvent → Type 0
Linked db forward s e = e.causation_id ≡ some s
Linked db backward s e = CausedBy db s e.id
Linked db both s e = (e.causation_id ≡ some s) ⊎ CausedBy db s e.id

module _ {A : Type 0} (key : A → List ℕ) where
  In-insert_self : (x : A) (xs : List A) → In x (insert key x xs)
  unfolding insert
  In-insert_self x [] = inl refl
  In-insert_self x (y ∷ ys) = elim (Bool-cases (lex_lt (key y) (key x))) [
    | inl e ↦ rw e (inr (In-insert_self x ys))
    | inr e ↦ rw e (inl refl)
  ]

  In-insert : (x z : A) (xs : List A) → In z xs → In z (insert key x xs)
  unfolding insert
  In-insert x z [] i = absurd i
  In-insert x z (y ∷ ys) i = elim (Bool-cases (lex_lt (key y) (key x))) [
    | inl e ↦ rw e (elim i [ inl now ↦ inl now | inr later ↦ inr (In-insert x z ys later) ])
    | inr e ↦ rw e (inr i)
  ]

  In-sort_by : (z : A) (xs : List A) → In z xs → In z (sort_by key xs)
  unfolding sort_by
  In-sort_by z [] i = i
  In-sort_by z (x ∷ xs) (inl e) = rw e (In-insert_self x (sort_by key xs))
  In-sort_by z (x ∷ xs) (inr i) = In-insert x z (sort_by key xs) (In-sort_by z xs i)

  In-of_sort_by : (z : A) (xs : List A) → In z (sort_by key xs) → In z xs
  In-of_sort_by z xs i =
      All-In (λ y. In y xs) z (sort_by key xs)
        (All-sort_by (λ y. In y xs) key xs (All-self xs xs (λ y j. j))) i

-- An event is linked to one of the ids.
abbrev pub LinkedTo : Db → WalkDirection → List EventId → StoredEvent → Type 0
LinkedTo db direction ids e = (s : EventId) × In s ids × Linked db direction s e

forward_iff :
    (db : Db) (ids : List EventId) (e : StoredEvent)
    → In e (children_of db ids) ↔ (In e db.events × LinkedTo db forward ids e)
unfolding children_of
forward_iff db ids e = (
  λ i.
      (let (j, t) = In-of_keep _ e db.events (In-of_sort_by id_of e _ i) in
        (j, any-is_id e.causation_id ids t)),
  λ h.
      (let (j, (s, i, c)) = h in
        In-sort_by id_of e _ (
          In-keep (λ (e : StoredEvent). any (λ i. is_id i e.causation_id) ids) e db.events j
            (rw c (is_id-any s ids i)))),
)

backward_iff :
    (db : Db) (ids : List EventId) (e : StoredEvent)
    → In e (parents_of db ids) ↔ (In e db.events × LinkedTo db backward ids e)
unfolding parents_of
backward_iff db ids e = (
  λ i.
      (let (j, t) = In-of_keep _ e db.events (In-of_sort_by id_of e _ i) in
        (j, (causes-Expands db ids e.id).0 (any_In e.id (causes db ids) t))),
  λ h.
      (let (j, (s, i, l)) = h in
        In-sort_by id_of e _ (
          In-keep (λ (e : StoredEvent). any (same e.id) (causes db ids)) e db.events j
            (In-any e.id (causes db ids) ((causes-Expands db ids e.id).1 s i l)))),
)

-- the rows of an expansion
unfoldable pub expand_rows : Db → List EventId → WalkDirection → List StoredEvent
unfolding children_of parents_of merge
expand_rows db ids forward = children_of db ids
expand_rows db ids backward = parents_of db ids
expand_rows db ids both = union (children_of db ids) (parents_of db ids)

-- With no more ids than a statement has parameters, an expansion gives them.
pub expand_frontier-expand_rows :
    (db : Db) (ids : List EventId) (direction : WalkDirection)
    → length ids ≤ max_parameters
    → expand_frontier db ids direction ≡ ok (expand_rows db ids direction)
unfolding expand_frontier expand_rows bfs_expand_forward bfs_expand_backward
expand_frontier-expand_rows db ids direction le =
    let fits : too_many ids ≡ false = ground (arith, le) in expanded direction fits
  where
    expanded :
        (direction : WalkDirection)
        → too_many ids ≡ false
        → expand_frontier db ids direction ≡ ok (expand_rows db ids direction)
    expanded forward fits = rw fits refl
    expanded backward fits = rw fits refl
    expanded both fits = rw fits refl

-- A level holds events of the log that a step leads to from its frontier.
pub expand_rows_sound :
    (db : Db) (ids : List EventId) (direction : WalkDirection) (e : StoredEvent)
    → In e (expand_rows db ids direction)
    → In e db.events × LinkedTo db direction ids e
unfolding expand_rows merge
expand_rows_sound db ids forward e i = (forward_iff db ids e).0 i
expand_rows_sound db ids backward e i = (backward_iff db ids e).0 i
expand_rows_sound db ids both e i =
    let fwd = children_of db ids in
    let bwd = parents_of db ids in
    let new = λ (f : StoredEvent). not (any (λ (g : StoredEvent). same g.id f.id) fwd) in
    elim (In-of_append e fwd (keep new bwd) (In-of_sort_by id_of e _ i)) [
      | inl j ↦ (let (l, (s, k, c)) = (forward_iff db ids e).0 j in (l, (s, k, inl c)))
      | inr j ↦
          (let (l, (s, k, c)) = (backward_iff db ids e).0 (In-of_keep new e bwd j).0 in
            (l, (s, k, inr c)))
    ]

In-sorted_id :
    (e f : StoredEvent) (es : List StoredEvent)
    → In f es
    → f.id ≡ e.id
    → In e.id (map id_of (sort_by id_of es))
In-sorted_id e f es i eq =
    subst (λ x. In x (map id_of (sort_by id_of es))) eq
      (In-map_of f (sort_by id_of es) (In-sort_by id_of f es i))

-- The id of every event of the log that a step leads to is in the level.
pub expand_rows_complete :
    (db : Db) (ids : List EventId) (direction : WalkDirection) (e : StoredEvent)
    → In e db.events
    → LinkedTo db direction ids e
    → In e.id (map id_of (expand_rows db ids direction))
unfolding expand_rows merge
expand_rows_complete db ids forward e i l =
    In-map_of e (children_of db ids) ((forward_iff db ids e).1 (i, l))
expand_rows_complete db ids backward e i l =
    In-map_of e (parents_of db ids) ((backward_iff db ids e).1 (i, l))
expand_rows_complete db ids both e i (s, k, inl c) =
    In-sorted_id e e _
      (In-append_left e (children_of db ids) _ ((forward_iff db ids e).1 (i, (s, k, c)))) refl
expand_rows_complete db ids both e i (s, k, inr c) =
    let fwd = children_of db ids in
    let bwd = parents_of db ids in
    let new = λ (f : StoredEvent). not (any (λ (g : StoredEvent). same g.id f.id) fwd) in
    elim (Bool-cases (any (λ (g : StoredEvent). same g.id e.id) fwd)) [
      | inl known ↦
          (let (g, j, eq) = has_id_of e.id fwd known in
            In-sorted_id e g _ (In-append_left g fwd (keep new bwd) j) eq)
      | inr unknown ↦
          In-sorted_id e e _
            (In-append_right e fwd (keep new bwd)
              (In-keep new e bwd ((backward_iff db ids e).1 (i, (s, k, c))) (rw unknown refl)))
            refl
    ]

length-keep :
    (test : StoredEvent → Bool) (es : List StoredEvent) → length (keep test es) ≤ length es
length-keep test [] = omega arith
length-keep test (e ∷ es) = elim (Bool-cases (test e)) [
  | inl t ↦ rw t (omega (arith, length-keep test es))
  | inr t ↦ rw t (omega (arith, length-keep test es))
]

length-insert :
    (e : StoredEvent) (es : List StoredEvent) → length (insert id_of e es) ≡ length es + 1
unfolding insert
length-insert e [] = omega arith
length-insert e (f ∷ es) = elim (Bool-cases (lex_lt (id_of f) (id_of e))) [
  | inl t ↦ rw t (omega (arith, length-insert e es))
  | inr t ↦ rw t (omega arith)
]

length-sort_by : (es : List StoredEvent) → length (sort_by id_of es) ≡ length es
unfolding sort_by
length-sort_by [] = refl
length-sort_by (e ∷ es) = omega (arith, length-insert e (sort_by id_of es), length-sort_by es)

length-children_of : (db : Db) (ids : List EventId) → length (children_of db ids) ≤ length db.events
unfolding children_of
length-children_of db ids =
    let test = λ (e : StoredEvent). any (λ i. is_id i e.causation_id) ids in
    omega (arith, length-sort_by (keep test db.events), length-keep test db.events)

length-parents_of : (db : Db) (ids : List EventId) → length (parents_of db ids) ≤ length db.events
unfolding parents_of
length-parents_of db ids =
    let test = λ (e : StoredEvent). any (same e.id) (causes db ids) in
    omega (arith, length-sort_by (keep test db.events), length-keep test db.events)

-- An expansion has at most twice as many rows as the log.
pub length-expand_rows :
    (db : Db) (ids : List EventId) (direction : WalkDirection)
    → length (expand_rows db ids direction) ≤ length db.events + length db.events
unfolding expand_rows merge
length-expand_rows db ids forward = omega (arith, length-children_of db ids)
length-expand_rows db ids backward = omega (arith, length-parents_of db ids)
length-expand_rows db ids both =
    let fwd = children_of db ids in
    let bwd = parents_of db ids in
    let new = λ (f : StoredEvent). not (any (λ (g : StoredEvent). same g.id f.id) fwd) in
    omega (
      arith,
      length-sort_by (fwd ++ keep new bwd),
      length-append fwd (keep new bwd),
      length-keep new bwd,
      length-children_of db ids,
      length-parents_of db ids,
    )

pub length-unseen :
    (seen : List EventId) (es : List StoredEvent)
    → length (keep (λ (e : StoredEvent). not (any (same e.id) seen)) es) ≤ length es
length-unseen seen es = length-keep (λ (e : StoredEvent). not (any (same e.id) seen)) es

pub length-map_id : (es : List StoredEvent) → length (map id_of es) ≡ length es
length-map_id [] = refl
length-map_id (e ∷ es) = omega (arith, length-map_id es)
