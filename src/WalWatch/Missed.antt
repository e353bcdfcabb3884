-- ===== src/WalWatch/Missed.antt =====
-- Events that a scan of src/wal_watch.rs leaves out: those of streams that a glob subscription has not met.
use fossic.Prelude.{
  ℕ, ◌<◌, ◌≡◌, refl, sym, subst, true, false, ◌&&◌, List, [], ◌∷◌, ◌++◌, some, keep, All,
  All-append, All-mono, All-keep_test, Bool-cases, inl, inr, arith,
}
use fossic.Prelude.Order.{All-order_by}
use fossic.Text.{Str}
use fossic.Glob.{matches}
use fossic.Tables.{StoredEvent, Db}
use fossic.Append.{at_stream}
use fossic.Read.{version_of}
use fossic.Subscriptions.{
  Position, StreamCursor, is_past, is_cursor_of, is_exact, post_commit, SubscriberEntry,
  SubscriptionRegistry,
}
use fossic.WalWatch.{
  min_cursor, cursor_row, post_commit_cursors, lower_at, lower_all, group_min, stream_ids,
  all_streams_for, fetch_events_after, send_groups, scan,
}

abbrev StartsAt : ℕ → List StreamCursor → Type 0
StartsAt m = All (λ (g : StreamCursor). g.position ≡ some m)

lower_at-StartsAt :
    (s b : Str) (m : ℕ) (gs : List StreamCursor)
    → StartsAt m gs
    → StartsAt m (lower_at s b (some m) gs)
unfolding lower_at
lower_at-StartsAt s b m [] h = (refl, tt)
lower_at-StartsAt s b m (g ∷ gs) h = elim (Bool-cases (is_cursor_of s b g)) [
  | inl t ↦ rw t (rw h.0 (ground arith), h.1)
  | inr t ↦ rw t (h.0, lower_at-StartsAt s b m gs h.1)
]

lower_all-StartsAt :
    (ss : List Str) (b : Str) (m : ℕ) (gs : List StreamCursor)
    → StartsAt m gs
    → StartsAt m (lower_all ss b (some m) gs)
unfolding lower_all
lower_all-StartsAt [] b m gs h = h
lower_all-StartsAt (s ∷ ss) b m gs h =
    lower_all-StartsAt ss b m (lower_at s b (some m) gs) (lower_at-StartsAt s b m gs h)

send_groups-above :
    (db : Db) (m : ℕ) (gs : List StreamCursor)
    → StartsAt m gs
    → All (λ e. m < e.version) (send_groups db gs)
unfolding send_groups fetch_events_after
send_groups-above db m [] h = tt
send_groups-above db m (g ∷ gs) h =
    All-append (λ e. m < e.version) _ (send_groups db gs)
      (All-order_by version_of (λ e. m < e.version) _
        (All-mono _ (λ e. m < e.version) _ (λ e t. above e (rw h.0 at t))
          (All-keep_test
            (λ (e : StoredEvent). at_stream g.stream_id g.branch e && is_past g.position e.version)
            db.events)))
      (send_groups-above db m gs h.1)
  where
    above :
        (e : StoredEvent)
        → (at_stream g.stream_id g.branch e && is_past (some m) e.version) ≡ true
        → m < e.version
    above e t = ground (arith, t)

module _ {Chan : Type 0} where
  -- Where the one subscription, not degraded, has a pattern with a `*` and its lowest stream cursor is a
  -- version, a scan finds only events above that version, also in the streams for which the subscription
  -- has no cursor, of which it got no event.
  pub scan-above :
      (db : Db) (registry : SubscriptionRegistry Chan) (id : ℕ) (entry : SubscriberEntry Chan)
      (tx : Chan) (wal : Position) (c : StreamCursor) (cs : List StreamCursor) (m : ℕ)
      → registry.entries ≡ (id, entry) ∷ []
      → entry.kind ≡ post_commit tx wal (c ∷ cs)
      → is_exact entry.stream_pattern ≡ false
      → entry.degraded ≡ false
      → min_cursor c.position cs ≡ some m
      → All (λ e. m < e.version) (scan db registry)
  unfolding scan post_commit_cursors group_min
  scan-above db registry id entry tx wal c cs m only kind glob live lowest = rw only (
      rw live (
        subst
          (λ k.
            All (λ e. m < e.version)
              (send_groups db (
                group_min (all_streams_for db (cursor_row id entry k ++ []))
                  (cursor_row id entry k ++ []) [])))
          (sym kind)
          (rw glob (
            rw lowest (
              send_groups-above db m _ (
                lower_all-StartsAt (keep (matches entry.stream_pattern) (stream_ids db.streams))
                  entry.branch m [] tt))))))
