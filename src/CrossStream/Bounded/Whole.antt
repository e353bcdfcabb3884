-- ===== src/CrossStream/Bounded/Whole.antt =====
-- The bounded walk of src/cross_stream.rs without a budget and without sampling.
use fossic.Prelude.{
  ℕ, zero, suc, ◌+◌, ◌≤◌, ◌≡◌, ◌≢◌, ◌⊎◌, refl, sym, ◌∙◌, ap, subst, Bool, true, not, ◌||◌, List, [],
  ◌∷◌, ◌++◌, none, any, keep, map, In, In-append_left, In-append_right, Bool-cases, inl, inr, arith,
  length,
}
use fossic.Prelude.Lex.{same}
use fossic.Prelude.Words.{Bytes}
use fossic.Error.{Error, Result, ok}
use fossic.EventId.{EventId}
use fossic.Tables.{StoredEvent, Db}
use fossic.Read.{complete, CursorInner}
use fossic.CrossStream.{WalkDirection, id_of}
use fossic.CrossStream.Levels.{Chain, here, link, any_In, In-any, In-of_keep, In-map_id}
use fossic.CrossStream.Walks.{Within, In-of_append}
use fossic.Read.{max_parameters}
use fossic.CrossStream.Bounded.{
  exhaustive, is_empty, next_level, apply_bfs_sampling, level_bytes, walk_rounds,
  walk_causation_bounded_impl,
}
use fossic.CrossStream.Bounded.Expand.{
  Linked, expand_rows, expand_rows_sound, expand_rows_complete, expand_frontier-expand_rows,
  length-expand_rows, length-unseen, length-map_id,
}

-- A step from an id to the id of an event of the log.
abbrev pub Joins : Db → WalkDirection → EventId → EventId → Type 0
Joins db direction s x = (e : StoredEvent) × In e db.events × Linked db direction s e × (e.id ≡ x)

Chain-snoc :
    (Link : EventId → EventId → Type 0) {s p x : EventId} {k : ℕ}
    → Chain Link s k p
    → Link p x
    → Chain Link s (suc k) x
Chain-snoc Link {x = x} (here e) l = link (subst (λ z. Link z x) (sym e) l) (here refl)
Chain-snoc Link (link m c) l = link m (Chain-snoc Link c l)

Chain-last :
    (Link : EventId → EventId → Type 0) (s x : EventId) (k : ℕ)
    → Chain Link s (suc k) x
    → (p : EventId) × Chain Link s k p × Link p x
Chain-last Link s x zero (link {y = y} l (here e)) = (s, here refl, subst (λ z. Link s z) e l)
Chain-last Link s x (suc k) (link {y = y} l c) =
    (let (p, d, m) = Chain-last Link y x k c in (p, link l d, m))

not_seen : {b : Bool} → not b ≡ true → b ≡ true → ⊥
not_seen h t = ground (arith, h, t)

In-map_keep :
    (test : EventId → Bool) (x : EventId) (es : List StoredEvent)
    → In x (map id_of es)
    → test x ≡ true
    → In x (map id_of (keep (λ (e : StoredEvent). test e.id) es))
In-map_keep test x [] i t = i
In-map_keep test x (e ∷ es) (inl eq) t =
    (let t' : test e.id ≡ true = ap test (sym eq) ∙ t in rw t' (inl eq))
In-map_keep test x (e ∷ es) (inr i) t = elim (Bool-cases (test e.id)) [
  | inl u ↦ rw u (inr (In-map_keep test x es i t))
  | inr u ↦ rw u (In-map_keep test x es i t)
]

In-map_append :
    (x : EventId) (xs ys : List StoredEvent)
    → In x (map id_of xs) ⊎ In x (map id_of ys)
    → In x (map id_of (xs ++ ys))
In-map_append x [] ys (inl i) = absurd i
In-map_append x [] ys (inr i) = i
In-map_append x (e ∷ xs) ys (inl (inl eq)) = inl eq
In-map_append x (e ∷ xs) ys (inl (inr i)) = inr (In-map_append x xs ys (inl i))
In-map_append x (e ∷ xs) ys (inr i) = inr (In-map_append x xs ys (inr i))

module _ (db : Db) (direction : WalkDirection) (start : EventId) where
  abbrev Reached : ℕ → EventId → Type 0
  Reached n x = (k : ℕ) × (k ≤ n) × Chain (Joins db direction) start k x

  -- The loop after `depth` levels: what was seen is what was found and the start; it holds all that so
  -- many steps reach; and all that a step reaches from it, but for the frontier.
  record Inv (depth : ℕ) (frontier seen : List EventId) (results : List StoredEvent) : Type 0 where
    found : (x : EventId) → In x seen → (x ≡ start) ⊎ In x (map id_of results)
    began : In start seen
    old : (x : EventId) → In x frontier → In x seen
    near : (x : EventId) → In x frontier → Reached depth x
    sound :
        (e : StoredEvent)
        → In e results
        → In e db.events × (e.id ≢ start) × Within (Joins db direction) start depth e.id
    all : (k : ℕ) (x : EventId) → k ≤ depth → Chain (Joins db direction) start k x → In x seen
    closed :
        (s : EventId)
        → In s seen
        → In s frontier
          ⊎ ((e : StoredEvent) → In e db.events → Linked db direction s e → In e.id seen)

  abbrev level_of : List EventId → List EventId → List StoredEvent
  level_of frontier seen =
      keep (λ (e : StoredEvent). not (any (same e.id) seen)) (expand_rows db frontier direction)

  -- A step from the frontier leads to what was seen or to the next level.
  expands :
      (frontier seen : List EventId) (s : EventId) (e : StoredEvent)
      → In s frontier
      → In e db.events
      → Linked db direction s e
      → In e.id (seen ++ map id_of (level_of frontier seen))
  expands frontier seen s e i j l = elim (Bool-cases (any (same e.id) seen)) [
    | inl known ↦ In-append_left e.id seen _ (any_In e.id seen known)
    | inr unknown ↦ In-append_right e.id seen _ (
        In-map_keep (λ (x : EventId). not (any (same x) seen)) e.id
          (expand_rows db frontier direction)
          (expand_rows_complete db frontier direction e j (s, i, l)) (rw unknown refl))
  ]

  seen_more : (x : EventId) (seen more : List EventId) → In x seen → In x (seen ++ more)
  seen_more x seen more i = In-append_left x seen more i

  Inv-step :
      (depth : ℕ) (frontier seen : List EventId) (results : List StoredEvent)
      → Inv depth frontier seen results
      → Inv
          (depth + 1)
          (map id_of (level_of frontier seen))
          (seen ++ map id_of (level_of frontier seen))
          (results ++ level_of frontier seen)
  Inv-step depth frontier seen results v =
      let level = level_of frontier seen in
      let new = map id_of level in
      record {
        found = λ x i. (elim (In-of_append x seen new i) [
          | inl j ↦ (elim (v.found x j) [
            | inl e ↦ inl e
            | inr k ↦ inr (In-map_append x results level (inl k))
          ])
          | inr j ↦ inr (In-map_append x results level (inr j))
        ]);
        began = In-append_left start seen new v.began;
        old = λ x i. In-append_right x seen new i;
        near = λ x i.
            (let (e, j, eq) = In-map_id x level i in
              let (k, pos, le, c) = (level_sound e j).1.1 in
              (k, le, subst (λ z. Chain (Joins db direction) start k z) eq c));
        sound = λ e i. (elim (In-of_append e results level i) [
          | inl j ↦
              (let (l, ne, (k, pos, le, c)) = v.sound e j in
                (l, ne, (k, pos, omega (arith, le), c)))
          | inr j ↦ (let (l, (ne, w)) = level_sound e j in (l, ne, w))
        ]);
        all = within;
        closed = λ s i. (elim (In-of_append s seen new i) [
          | inl j ↦ (elim (v.closed s j) [
            | inl k ↦ inr (λ e m l. expands frontier seen s e k m l)
            | inr c ↦ inr (λ e m l. In-append_left e.id seen new (c e m l))
          ])
          | inr j ↦ inl j
        ]);
      }
    where
      level_sound :
          (e : StoredEvent)
          → In e (level_of frontier seen)
          → In e db.events × ((e.id ≢ start) × Within (Joins db direction) start (depth + 1) e.id)
      level_sound e i =
          let (j, t) =
            In-of_keep (λ (e : StoredEvent). not (any (same e.id) seen)) e
              (expand_rows db frontier direction) i in
          let (m, (s, k, l)) = expand_rows_sound db frontier direction e j in
          let (n, le, c) = v.near s k in
          (
            m,
            (
              λ eq. not_seen t (In-any e.id seen (subst (λ z. In z seen) (sym eq) v.began)),
              (
                suc n,
                omega arith,
                omega (arith, le),
                Chain-snoc (Joins db direction) c (e, m, l, refl),
              ),
            ),
          )

      within :
          (k : ℕ) (x : EventId)
          → k ≤ depth + 1
          → Chain (Joins db direction) start k x
          → In x (seen ++ map id_of (level_of frontier seen))
      within zero x le c = In-append_left x seen _ (v.all zero x (omega arith) c)
      within (suc k) x le c =
          let (p, d, (e, j, l, eq)) = Chain-last (Joins db direction) start x k c in
          let known = v.all k p (omega (arith, le)) d in
          elim (v.closed p known) [
            | inl i ↦
                subst (λ z. In z (seen ++ map id_of (level_of frontier seen))) eq
                  (expands frontier seen p e i j l)
            | inr shut ↦ In-append_left x seen _ (subst (λ z. In z seen) eq (shut e j l))
          ]

  -- Where no step leads out of what was seen, all chains stay in it.
  stays :
      (seen : List EventId)
      → ((s : EventId)
          → In s seen
          → (e : StoredEvent) → In e db.events
          → Linked db direction s e
          → In e.id seen)
      → (s : EventId) (k : ℕ) (x : EventId) → In s seen
      → Chain (Joins db direction) s k x
      → In x seen
  stays seen shut s zero x i (here e) = subst (λ z. In z seen) e i
  stays seen shut s (suc k) x i (link {y = y} (e, j, l, eq) c) =
      stays seen shut y k x (subst (λ z. In z seen) eq (shut s i e j l)) c

  empty-In : {A : Type 0} (x : A) (xs : List A) → is_empty xs ≡ true → In x xs → ⊥
  empty-In x [] h i = i
  empty-In x (y ∷ xs) h i = cc

  -- Where the frontier or the next level is empty, nothing more is found.
  exhausted :
      (depth : ℕ) (frontier seen : List EventId) (results : List StoredEvent)
      → Inv depth frontier seen results
      → (is_empty frontier || is_empty (level_of frontier seen)) ≡ true
      → (k : ℕ) (x : EventId) → Chain (Joins db direction) start k x
      → In x seen
  exhausted depth frontier seen results v stop k x c = stays seen shut start k x v.began c
    where
      shut :
          (s : EventId)
          → In s seen
          → (e : StoredEvent) → In e db.events
          → Linked db direction s e
          → In e.id seen
      shut s i e j l = elim (v.closed s i) [
        | inr c ↦ c e j l
        | inl f ↦ elim (In-of_append e.id seen _ (expands frontier seen s e f j l)) [
          | inl known ↦ known
          | inr new ↦
              (let (d, m, eq) = In-map_id e.id (level_of frontier seen) new in
                absurd (elim (Bool-cases (is_empty frontier)) [
                  | inl none_left ↦ empty-In s frontier none_left f
                  | inr some_left ↦
                      empty-In d (level_of frontier seen) (ground (arith, stop, some_left)) m
                ]))
        ]
      ]

  -- What a walk to a depth is to return.
  abbrev pub IsWhole : ℕ → List StoredEvent → Type 0
  IsWhole n es =
      ((e : StoredEvent)
        → In e es
        → In e db.events × (e.id ≢ start) × Within (Joins db direction) start n e.id)
      × ((e : StoredEvent)
          → e.id ≢ start
          → Within (Joins db direction) start n e.id
          → In e.id (map id_of es))

  Inv-IsWhole :
      (depth n : ℕ) (frontier seen : List EventId) (results : List StoredEvent)
      → Inv depth frontier seen results
      → depth ≤ n
      → ((k : ℕ) (x : EventId) → k ≤ n → Chain (Joins db direction) start k x → In x seen)
      → IsWhole n results
  Inv-IsWhole depth n frontier seen results v le reach = (
    λ e i.
        (let (j, ne, (k, pos, low, c)) = v.sound e i in
          (j, ne, (k, pos, omega (arith, low, le), c))),
    λ e ne w.
        (let (k, pos, low, c) = w in
          elim (v.found e.id (reach k e.id low c)) [ inl eq ↦ absurd (ne eq) | inr i ↦ i ]),
  )

module _ (encode : CursorInner → Result Error Bytes) (db : Db) (direction : WalkDirection)
    (start : EventId) (max_depth : ℕ)
    (small : length db.events + length db.events ≤ max_parameters) where
  walk_rounds-IsWhole :
      (rounds depth : ℕ) (frontier seen : List EventId) (results : List StoredEvent) (bytes at : ℕ)
      → Inv db direction start depth frontier seen results
      → depth + rounds ≡ max_depth
      → length frontier ≤ max_parameters
      → (es : List StoredEvent) × (walk_rounds encode db direction max_depth exhaustive none none
            rounds frontier seen results bytes at
          ≡ ok (complete es))
        × IsWhole db direction start max_depth es
  unfolding walk_rounds next_level apply_bfs_sampling
  walk_rounds-IsWhole zero depth frontier seen results bytes at v e fits = (
    results,
    refl,
    Inv-IsWhole db direction start depth max_depth frontier seen results v (omega (arith, e))
        (λ k x le c. v.all k x (omega (arith, le, e)) c),
  )
  walk_rounds-IsWhole (suc rounds) depth frontier seen results bytes at v e fits =
      let level = level_of db direction start frontier seen in
      rw (expand_frontier-expand_rows db frontier direction fits)
        (elim (Bool-cases (is_empty frontier || is_empty level)) [
          | inl stop ↦ (
            results,
            rw stop refl,
            Inv-IsWhole db direction start depth max_depth frontier seen results v
                (omega (arith, e))
                (λ k x le c. exhausted db direction start depth frontier seen results v stop k x c),
          )
          | inr go ↦ rw go (
              walk_rounds-IsWhole rounds (depth + 1) (map id_of level) (seen ++ map id_of level)
                (results ++ level) (bytes + level_bytes level) (at + 1)
                (Inv-step db direction start depth frontier seen results v) (omega (arith, e))
                (omega (
                  arith,
                  small,
                  length-map_id level,
                  length-unseen seen (expand_rows db frontier direction),
                  length-expand_rows db frontier direction,
                )))
        ])

  Inv-start : Inv db direction start 0 (start ∷ []) (start ∷ []) []
  Inv-start = record {
    found = λ x i. i;
    began = inl refl;
    old = λ x i. i;
    near = λ x i. (0, omega arith, here (sym (only x i)));
    sound = λ e i. absurd i;
    all = at_start;
    closed = λ s i. inl i;
  }
    where
      only : (x : EventId) → In x (start ∷ []) → x ≡ start
      only x (inl e) = e
      only x (inr i) = absurd i

      at_start :
          (k : ℕ) (x : EventId) → k ≤ 0 → Chain (Joins db direction) start k x → In x (start ∷ [])
      at_start zero x le (here e) = inl (sym e)
      at_start (suc k) x le c = absurd (omega (arith, le))

  -- In a log of at most 16,383 events a bounded walk from the start, without a budget and without sampling,
  -- succeeds with a complete result.
  -- It returns events of the log other than the start that a chain of at least one step and at most as
  -- many as the depth joins with the start, and the id of every such event. Forward a step leads from an
  -- id to an event that it caused, backward to its cause, and both ways each step may be of either kind.
  pub walk_causation_bounded_impl-IsWhole :
      (es : List StoredEvent) × (walk_causation_bounded_impl encode db direction max_depth
          exhaustive none none start none
        ≡ ok (complete es))
      × IsWhole db direction start max_depth es
  unfolding walk_causation_bounded_impl
  walk_causation_bounded_impl-IsWhole =
      walk_rounds-IsWhole max_depth 0 (start ∷ []) (start ∷ []) [] 0 1 Inv-start (omega arith)
        (omega arith)
