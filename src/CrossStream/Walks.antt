-- ===== src/CrossStream/Walks.antt =====
-- What the walks along causation of src/cross_stream.rs return.
use fossic.Prelude.{
  ℕ, ◌<◌, ◌≤◌, ◌≡◌, ◌⊎◌, ◌↔◌, refl, subst, true, not, List, [], ◌∷◌, ◌++◌, any, keep, In, In-keep,
  In-append_left, In-append_right, All, All-In, Bool-cases, inl, inr,
}
use fossic.Prelude.Lex.{same, same_iff}
use fossic.Prelude.Order.{order_by, In-order_by, All-order_by}
use fossic.EventId.{EventId}
use fossic.Tables.{StoredEvent, Db}
use fossic.Read.{timestamp_of}
use fossic.CrossStream.{
  WalkDirection, forward, backward, both, effects, causes, levels, in_levels, min_depth,
  select_levels, walk_forward, walk_backward, merge, walk_causation_impl,
}
use fossic.CrossStream.Levels.{
  Chain, Causes, CausedBy, Expands, levels_sound, levels_complete, effects-Expands, causes-Expands,
  In-of_keep,
}

pub All-self : {A : Type 0} (xs ys : List A) → ((z : A) → In z ys → In z xs) → All (λ z. In z xs) ys
All-self xs [] h = tt
All-self xs (y ∷ ys) h = (h y (inl refl), All-self xs ys (λ z i. h z (inr i)))

pub In-of_order_by :
    {A : Type 0} (key : A → ℕ) (x : A) (xs : List A) → In x (order_by key xs) → In x xs
In-of_order_by key x xs i =
    All-In (λ z. In z xs) x (order_by key xs)
      (All-order_by key (λ z. In z xs) xs (All-self xs xs (λ z i. i))) i

In-select_levels :
    (db : Db) (ls : List (List EventId)) (e : StoredEvent)
    → In e (select_levels db ls)
    → In e db.events × (in_levels ls e.id ≡ true)
unfolding select_levels
In-select_levels db ls e i =
    In-of_keep (λ (f : StoredEvent). in_levels ls f.id) e db.events
      (In-of_order_by timestamp_of e _
        (In-of_order_by (λ (f : StoredEvent). min_depth ls f.id) e _ i))

select_levels-In :
    (db : Db) (ls : List (List EventId)) (e : StoredEvent)
    → In e db.events
    → in_levels ls e.id ≡ true
    → In e (select_levels db ls)
unfolding select_levels
select_levels-In db ls e i t =
    In-order_by (λ (f : StoredEvent). min_depth ls f.id) e _
      (In-order_by timestamp_of e _
        (In-keep (λ (f : StoredEvent). in_levels ls f.id) e db.events i t))

-- A chain of at least one link and at most `n`.
abbrev pub Within : (EventId → EventId → Type 0) → EventId → ℕ → EventId → Type 0
Within Link start n x = (k : ℕ) × (0 < k) × (k ≤ n) × Chain Link start k x

in_levels_iff :
    (Link : EventId → EventId → Type 0) (expand : List EventId → List EventId) (start : EventId)
    (n : ℕ) (x : EventId)
    → Expands Link expand
    → (in_levels (levels expand n (start ∷ [])) x ≡ true) ↔ Within Link start n x
in_levels_iff Link expand start n x step = (
  λ h.
      (let (s, k, i, pos, le, c) = levels_sound Link expand step n (start ∷ []) x h in
        (k, pos, le, subst (λ z. Chain Link z k x) (only s i) c)),
  λ w.
      (let (k, pos, le, c) = w in
        levels_complete Link expand step n (start ∷ []) start x k (inl refl) pos le c),
)
  where
    only : (s : EventId) → In s (start ∷ []) → s ≡ start
    only s (inl e) = e
    only s (inr i) = absurd i

-- What a walk in a direction is to find.
abbrev pub Finds : Db → EventId → WalkDirection → ℕ → EventId → Type 0
Finds db start forward n x = Within (Causes db) start n x
Finds db start backward n x = Within (CausedBy db) start n x
Finds db start both n x = Within (Causes db) start n x ⊎ Within (CausedBy db) start n x

walk_forward_iff :
    (db : Db) (start : EventId) (n : ℕ) (e : StoredEvent)
    → In e (walk_forward db start n) ↔ (In e db.events × Within (Causes db) start n e.id)
unfolding walk_forward
walk_forward_iff db start n e =
    let reach = in_levels_iff (Causes db) (effects db) start n e.id (effects-Expands db) in
    (
      λ i. (let (j, t) = In-select_levels db _ e i in (j, reach.0 t)),
      λ h. select_levels-In db _ e h.0 (reach.1 h.1),
    )

walk_backward_iff :
    (db : Db) (start : EventId) (n : ℕ) (e : StoredEvent)
    → In e (walk_backward db start n) ↔ (In e db.events × Within (CausedBy db) start n e.id)
unfolding walk_backward
walk_backward_iff db start n e =
    let reach = in_levels_iff (CausedBy db) (causes db) start n e.id (causes-Expands db) in
    (
      λ i. (let (j, t) = In-select_levels db _ e i in (j, reach.0 t)),
      λ h. select_levels-In db _ e h.0 (reach.1 h.1),
    )

pub has_id_of :
    (x : EventId) (es : List StoredEvent)
    → any (λ (f : StoredEvent). same f.id x) es ≡ true
    → (f : StoredEvent) × In f es × (f.id ≡ x)
has_id_of x [] h = absurd (cc)
has_id_of x (f ∷ es) h = elim (Bool-cases (same f.id x)) [
  | inl e ↦ (f, inl refl, (same_iff f.id x).0 e)
  | inr e ↦ (let (g, i, eq) = has_id_of x es (rw e at h) in (g, inr i, eq))
]

pub In-of_append : {A : Type 0} (x : A) (xs ys : List A) → In x (xs ++ ys) → In x xs ⊎ In x ys
In-of_append x [] ys i = inr i
In-of_append x (y ∷ xs) ys (inl e) = inl (inl e)
In-of_append x (y ∷ xs) ys (inr i) = elim (In-of_append x xs ys i) [
  | inl j ↦ inl (inr j)
  | inr j ↦ inr j
]

-- A walk returns the events of the log that a chain of causes of at least one link, and at most as many as
-- the depth allows, joins with the start: forward the events that the start led to, backward those
-- that led to it, and both ways those that either of the two finds.
pub walk_causation_impl_iff :
    (db : Db) (start : EventId) (direction : WalkDirection) (max_depth : ℕ) (e : StoredEvent)
    → In e (walk_causation_impl db start direction max_depth)
      ↔ (In e db.events × Finds db start direction max_depth e.id)
unfolding walk_causation_impl merge
walk_causation_impl_iff db start forward n e = walk_forward_iff db start n e
walk_causation_impl_iff db start backward n e = walk_backward_iff db start n e
walk_causation_impl_iff db start both n e =
    let fwd = walk_forward db start n in
    let bwd = walk_backward db start n in
    let new = λ (f : StoredEvent). not (any (λ (g : StoredEvent). same g.id f.id) fwd) in
    (
      λ i. (elim (In-of_append e fwd (keep new bwd) i) [
        | inl j ↦ (let (l, w) = (walk_forward_iff db start n e).0 j in (l, inl w))
        | inr j ↦
            (let (l, w) = (walk_backward_iff db start n e).0 (In-of_keep new e bwd j).0 in
              (l, inr w))
      ]),
      λ h. (elim h.1 [
        | inl w ↦ In-append_left e fwd (keep new bwd) ((walk_forward_iff db start n e).1 (h.0, w))
        | inr w ↦ elim (Bool-cases (any (λ (g : StoredEvent). same g.id e.id) fwd)) [
          | inl known ↦
              (let (g, i, eq) = has_id_of e.id fwd known in
                In-append_left e fwd (keep new bwd) (
                  (walk_forward_iff db start n e).1 (
                    h.0,
                    subst (Within (Causes db) start n) eq ((walk_forward_iff db start n g).0 i).1,
                  )))
          | inr unknown ↦
              In-append_right e fwd (keep new bwd)
                (In-keep new e bwd ((walk_backward_iff db start n e).1 (h.0, w)) (rw unknown refl))
        ]
      ]),
    )
