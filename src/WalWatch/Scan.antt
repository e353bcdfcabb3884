-- ===== src/WalWatch/Scan.antt =====
-- What a scan of src/wal_watch.rs finds.
use fossic.Prelude.{
  ℕ, ◌≡◌, ◌⊎◌, refl, sym, subst, true, false, not, List, [], ◌∷◌, ◌++◌, any, keep, In,
  In-append_right, Bool-cases, inl, inr, if◌then◌else◌, arith,
}
use fossic.Prelude.Lex.{same, same_iff, same_refl}
use fossic.Text.{Str}
use fossic.Glob.{matches}
use fossic.Tables.{StoredEvent, Db}
use fossic.Subscriptions.{
  Position, StreamCursor, is_past, is_cursor_of, position_of, effective_cursor, is_exact,
  post_commit, SubscriberEntry, Entries, SubscriptionRegistry, accepts,
}
use fossic.Subscriptions.Seed.{matches-exact}
use fossic.WalWatch.{
  PostCommitCursor, min_cursor, scan_cursor, cursor_row, post_commit_cursors, scanned_streams,
  group_min, stream_ids, all_streams_for, scan,
}
use fossic.WalWatch.Groups.{min_left, min_right, reaches, group_min-reaches, send_groups-In}

min_cursor-first :
    (p : Position) (cs : List StreamCursor) (v : ℕ)
    → is_past p v ≡ true
    → is_past (min_cursor p cs) v ≡ true
unfolding min_cursor
min_cursor-first p [] v h = h
min_cursor-first p (c ∷ cs) v h = min_right (min_cursor c.position cs) p v h

min_cursor-is_past :
    (p : Position) (cs : List StreamCursor) (s b : Str) (v : ℕ)
    → any (is_cursor_of s b) cs ≡ true
    → is_past (position_of cs s b) v ≡ true
    → is_past (min_cursor p cs) v ≡ true
unfolding min_cursor position_of
min_cursor-is_past p [] s b v k h = absurd (cc)
min_cursor-is_past p (c ∷ cs) s b v k h = elim (Bool-cases (is_cursor_of s b c)) [
  | inl t ↦ min_left (min_cursor c.position cs) p v (min_cursor-first c.position cs v (rw t at h))
  | inr t ↦
      min_left (min_cursor c.position cs) p v
        (min_cursor-is_past c.position cs s b v (rw t at k) (rw t at h))
]

-- A subscription follows a stream: it is for that stream alone, or it has no cursor yet, or one for the
-- stream.
abbrev pub Follows : Str → List StreamCursor → Str → Str → Type 0
Follows pattern cs s b = (is_exact pattern ≡ true) ⊎ (cs ≡ []) ⊎ (any (is_cursor_of s b) cs ≡ true)

scan_cursor-is_past :
    (pattern : Str) (wal : Position) (cs : List StreamCursor) (s b : Str) (v : ℕ)
    → Follows pattern cs s b
    → is_past (effective_cursor pattern wal cs s b) v ≡ true
    → is_past (scan_cursor pattern wal cs) v ≡ true
unfolding position_of min_cursor
scan_cursor-is_past pattern wal [] s b v f h = elim (Bool-cases (is_exact pattern)) [
  | inl t ↦ rw t (rw t at h)
  | inr t ↦ rw t refl
]
scan_cursor-is_past pattern wal (c ∷ cs) s b v f h = elim (Bool-cases (is_exact pattern)) [
  | inl t ↦ rw t (rw t at h)
  | inr t ↦ rw t (among f t (rw t at h))
]
  where
    among :
        Follows pattern (c ∷ cs) s b
        → is_exact pattern ≡ false
        → is_past (position_of (c ∷ cs) s b) v ≡ true
        → is_past (min_cursor c.position cs) v ≡ true
    among (inl exact) t h = absurd (cc)
    among (inr (inl e)) t h = absurd (cc)
    among (inr (inr k)) t h = elim (Bool-cases (is_cursor_of s b c)) [
      | inl u ↦ min_cursor-first c.position cs v (rw u at h)
      | inr u ↦ min_cursor-is_past c.position cs s b v (rw u at k) (rw u at h)
    ]

any-keep-matches :
    (pattern s : Str) (ss : List Str)
    → any (same s) ss ≡ true
    → matches pattern s ≡ true
    → any (same s) (keep (matches pattern) ss) ≡ true
any-keep-matches pattern s [] h m = absurd (cc)
any-keep-matches pattern s (t ∷ ss) h m = elim (Bool-cases (same s t)) [
  | inl e ↦ (let eq : s ≡ t = (same_iff s t).0 e in rw (← eq) (rw m (rw (same_refl s) refl)))
  | inr e ↦ elim (Bool-cases (matches pattern t)) [
    | inl u ↦ rw u (ground (arith, any-keep-matches pattern s ss (rw e at h) m))
    | inr u ↦ rw u (any-keep-matches pattern s ss (rw e at h) m)
  ]
]

any-glob :
    (c : PostCommitCursor) (cs : List PostCommitCursor)
    → In c cs
    → is_exact c.stream_pattern ≡ false
    → any (λ (d : PostCommitCursor). not (is_exact d.stream_pattern)) cs ≡ true
any-glob c [] i h = absurd i
any-glob c (d ∷ cs) (inl e) h =
    (let h' : is_exact d.stream_pattern ≡ false =
        subst (λ (x : PostCommitCursor). is_exact x.stream_pattern ≡ false) e h in
      rw h' refl)
any-glob c (d ∷ cs) (inr i) h = ground (arith, any-glob c cs i h)

scanned_streams-named :
    (db : Db) (c : PostCommitCursor) (cs : List PostCommitCursor) (s : Str)
    → In c cs
    → any (same s) (stream_ids db.streams) ≡ true
    → matches c.stream_pattern s ≡ true
    → any (same s) (scanned_streams (all_streams_for db cs) c.stream_pattern) ≡ true
unfolding all_streams_for
scanned_streams-named db c cs s i declared m = elim (Bool-cases (is_exact c.stream_pattern)) [
  | inl t ↦ rw t (rw (matches-exact c.stream_pattern s t m) (rw (same_refl s) refl))
  | inr t ↦ rw t (
      rw (any-glob c cs i t)
        (any-keep-matches c.stream_pattern s (stream_ids db.streams) declared m))
]

module _ {Chan : Type 0} where
  abbrev row_of_entry : ℕ → SubscriberEntry Chan → Position → List StreamCursor → PostCommitCursor
  row_of_entry id entry wal cs = record {
    id = id;
    stream_pattern = entry.stream_pattern;
    branch = entry.branch;
    cursor = scan_cursor entry.stream_pattern wal cs;
  }

  post_commit_cursors-In :
      (id : ℕ) (entry : SubscriberEntry Chan) (es : Entries Chan) (tx : Chan) (wal : Position)
      (cs : List StreamCursor)
      → In (id, entry) es
      → entry.degraded ≡ false
      → entry.kind ≡ post_commit tx wal cs
      → In (row_of_entry id entry wal cs) (post_commit_cursors es)
  unfolding post_commit_cursors
  post_commit_cursors-In id entry [] tx wal cs i d k = absurd i
  post_commit_cursors-In id entry ((j, other) ∷ es) tx wal cs (inl e) d k =
      subst
        (λ (p : ℕ × SubscriberEntry Chan).
          In (row_of_entry id entry wal cs)
            ((if p.1.degraded then [] else cursor_row p.0 p.1 p.1.kind) ++ post_commit_cursors es))
        e
        (rw d (
          subst
            (λ kind.
              In (row_of_entry id entry wal cs)
                (cursor_row id entry kind ++ post_commit_cursors es))
            (sym k) (inl refl)))
  post_commit_cursors-In id entry ((j, other) ∷ es) tx wal cs (inr i) d k =
      In-append_right _ (if other.degraded then [] else cursor_row j other other.kind)
        (post_commit_cursors es) (post_commit_cursors-In id entry es tx wal cs i d k)

  -- A scan finds every event that a subscriber with a channel still has to get: an event of the log, in a
  -- declared stream, that the subscriber accepts and whose version is above its cursor, if the subscriber
  -- follows the stream (it names that stream alone, or has no stream cursor at all, or one for the stream).
  pub scan-finds :
      (db : Db) (registry : SubscriptionRegistry Chan) (id : ℕ) (entry : SubscriberEntry Chan)
      (tx : Chan) (wal : Position) (cs : List StreamCursor) (e : StoredEvent)
      → In (id, entry) registry.entries
      → entry.kind ≡ post_commit tx wal cs
      → In e db.events
      → any (same e.stream_id) (stream_ids db.streams) ≡ true
      → accepts entry e ≡ true
      → is_past (effective_cursor entry.stream_pattern wal cs e.stream_id e.branch) e.version ≡ true
      → Follows entry.stream_pattern cs e.stream_id e.branch
      → In e (scan db registry)
  unfolding scan accepts
  scan-finds db registry id entry tx wal cs e i k logged declared a past follows =
      let cursors = post_commit_cursors registry.entries in
      let row = row_of_entry id entry wal cs in
      let listed =
        post_commit_cursors-In id entry registry.entries tx wal cs i (ground (arith, a)) k in
      let on_branch : entry.branch ≡ e.branch =
        (same_iff entry.branch e.branch).0 (ground (arith, a)) in
      send_groups-In db e (group_min (all_streams_for db cursors) cursors []) logged (
        subst
          (λ b.
            reaches e.stream_id b e.version (group_min (all_streams_for db cursors) cursors [])
            ≡ true)
          on_branch
          (group_min-reaches (all_streams_for db cursors) row cursors e.stream_id e.version []
            listed
            (scanned_streams-named db row cursors e.stream_id listed declared (ground (arith, a)))
            (scan_cursor-is_past entry.stream_pattern wal cs e.stream_id e.branch e.version follows
              past)))
