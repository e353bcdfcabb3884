-- ===== src/WalWatch/Groups.antt =====
-- The groups of a scan of src/wal_watch.rs: the lowest cursors, and the events above them.
use fossic.Prelude.{
  ℕ, ◌≡◌, refl, Bool, true, ◌&&◌, List, [], ◌∷◌, none, some, any, In, In-keep, In-append_left,
  In-append_right, Bool-cases, inl, inr, if◌then◌else◌, arith,
}
use fossic.Prelude.Lex.{same, same_iff, same_refl}
use fossic.Prelude.Order.{In-order_by}
use fossic.Text.{Str}
use fossic.Tables.{StoredEvent, Db}
use fossic.Append.{at_stream}
use fossic.Read.{version_of}
use fossic.Subscriptions.{Position, StreamCursor, is_past, is_cursor_of}
use fossic.WalWatch.{
  PostCommitCursor, is_below, lower_at, scanned_streams, lower_all, group_min, fetch_events_after,
  send_groups,
}

-- The lower of two cursors is past what one of them is past.
pub min_left :
    (p q : Position) (v : ℕ) → is_past p v ≡ true → is_past (if is_below p q then p else q) v ≡ true
min_left none none v h = refl
min_left none (some q) v h = refl
min_left (some p) none v h = refl
min_left (some p) (some q) v h = ground (arith, h)

pub min_right :
    (p q : Position) (v : ℕ) → is_past q v ≡ true → is_past (if is_below p q then p else q) v ≡ true
min_right none none v h = refl
min_right none (some q) v h = refl
min_right (some p) none v h = refl
min_right (some p) (some q) v h = ground (arith, h)

-- Some group of the stream and branch is scanned from below the version.
abbrev pub reaches : Str → Str → ℕ → List StreamCursor → Bool
reaches s b v = any (λ (g : StreamCursor). is_cursor_of s b g && is_past g.position v)

reaches-lower_at :
    (s b s' b' : Str) (c : Position) (v : ℕ) (gs : List StreamCursor)
    → reaches s b v gs ≡ true
    → reaches s b v (lower_at s' b' c gs) ≡ true
unfolding lower_at
reaches-lower_at s b s' b' c v [] h = absurd (cc)
reaches-lower_at s b s' b' c v (g ∷ gs) h = elim (Bool-cases (is_cursor_of s' b' g)) [
  | inl t ↦ rw t (ground (arith, h, min_right c g.position v))
  | inr t ↦ rw t (ground (arith, h, reaches-lower_at s b s' b' c v gs))
]

lower_at-reaches :
    (s b : Str) (c : Position) (v : ℕ) (gs : List StreamCursor)
    → is_past c v ≡ true
    → reaches s b v (lower_at s b c gs) ≡ true
unfolding lower_at
lower_at-reaches s b c v [] h = rw (same_refl s, same_refl b, h) refl
lower_at-reaches s b c v (g ∷ gs) h = elim (Bool-cases (is_cursor_of s b g)) [
  | inl t ↦ rw t (rw t (ground (arith, min_left c g.position v h)))
  | inr t ↦ rw t (ground (arith, lower_at-reaches s b c v gs h))
]

reaches-lower_all :
    (ss : List Str) (s b b' : Str) (c : Position) (v : ℕ) (gs : List StreamCursor)
    → reaches s b v gs ≡ true
    → reaches s b v (lower_all ss b' c gs) ≡ true
unfolding lower_all
reaches-lower_all [] s b b' c v gs h = h
reaches-lower_all (t ∷ ss) s b b' c v gs h =
    reaches-lower_all ss s b b' c v (lower_at t b' c gs) (reaches-lower_at s b t b' c v gs h)

lower_all-reaches :
    (ss : List Str) (s b : Str) (c : Position) (v : ℕ) (gs : List StreamCursor)
    → any (same s) ss ≡ true
    → is_past c v ≡ true
    → reaches s b v (lower_all ss b c gs) ≡ true
unfolding lower_all
lower_all-reaches [] s b c v gs i h = absurd (cc)
lower_all-reaches (t ∷ ss) s b c v gs i h = elim (Bool-cases (same s t)) [
  | inl e ↦
      reaches-lower_all ss s b b c v (lower_at t b c gs)
        (let eq : s ≡ t = (same_iff s t).0 e in rw (← eq) (lower_at-reaches s b c v gs h))
  | inr e ↦ lower_all-reaches ss s b c v (lower_at t b c gs) (rw e at i) h
]

reaches-group_min :
    (all_streams : List Str) (cs : List PostCommitCursor) (s b : Str) (v : ℕ)
    (gs : List StreamCursor)
    → reaches s b v gs ≡ true
    → reaches s b v (group_min all_streams cs gs) ≡ true
unfolding group_min
reaches-group_min all_streams [] s b v gs h = h
reaches-group_min all_streams (c ∷ cs) s b v gs h =
    reaches-group_min all_streams cs s b v _ (
      reaches-lower_all (scanned_streams all_streams c.stream_pattern) s b c.branch c.cursor v gs h)

pub group_min-reaches :
    (all_streams : List Str) (c : PostCommitCursor) (cs : List PostCommitCursor) (s : Str) (v : ℕ)
    (gs : List StreamCursor)
    → In c cs
    → any (same s) (scanned_streams all_streams c.stream_pattern) ≡ true
    → is_past c.cursor v ≡ true
    → reaches s c.branch v (group_min all_streams cs gs) ≡ true
unfolding group_min
group_min-reaches all_streams c [] s v gs i named h = absurd i
group_min-reaches all_streams c (d ∷ cs) s v gs (inl e) named h =
    reaches-group_min all_streams cs s c.branch v _ (
      rw (← e) (
        lower_all-reaches (scanned_streams all_streams c.stream_pattern) s c.branch c.cursor v gs
          named h))
group_min-reaches all_streams c (d ∷ cs) s v gs (inr i) named h =
    group_min-reaches all_streams c cs s v _ i named h

pub send_groups-In :
    (db : Db) (e : StoredEvent) (gs : List StreamCursor)
    → In e db.events
    → reaches e.stream_id e.branch e.version gs ≡ true
    → In e (send_groups db gs)
unfolding send_groups fetch_events_after
send_groups-In db e [] i h = absurd (cc)
send_groups-In db e (g ∷ gs) i h =
    elim (Bool-cases (is_cursor_of e.stream_id e.branch g && is_past g.position e.version)) [
      | inl t ↦ In-append_left e _ (send_groups db gs) (
          In-order_by version_of e _ (
            In-keep
              (λ (f : StoredEvent).
                at_stream g.stream_id g.branch f && is_past g.position f.version)
              e db.events i
              (ground (
                arith,
                t,
                same_iff g.stream_id e.stream_id,
                same_iff e.stream_id g.stream_id,
                same_iff g.branch e.branch,
                same_iff e.branch g.branch,
              ))))
      | inr t ↦ In-append_right e _ (send_groups db gs) (send_groups-In db e gs i (rw t at h))
    ]
