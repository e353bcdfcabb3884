-- ===== src/WalWatch.antt =====
-- src/wal_watch.rs: the scan of the log after another process has written to it.
-- The events of the file system, `PRAGMA data_version` and the errors of the reads, which the scan passes
-- over, are left out. A scan is the list of the events that it sends on to the dispatcher; the maps of the
-- source are lists, in some order.
pub mod Groups
pub mod Scan
pub mod Missed
use fossic.Prelude.{
  ℕ, Bool, true, false, not, ◌&&◌, List, [], ◌∷◌, ◌++◌, Option, none, some, ltb, any, keep,
  if◌then◌else◌,
}
use fossic.Prelude.Lex.{same}
use fossic.Prelude.Order.{order_by}
use fossic.Text.{Str}
use fossic.Glob.{matches}
use fossic.Tables.{StoredEvent, StreamInfo, Db}
use fossic.Append.{at_stream}
use fossic.Read.{version_of}
use fossic.Subscriptions.{
  Position, StreamCursor, is_past, is_cursor_of, is_exact, SubscriberKind, synchronous, post_commit,
  SubscriberEntry, Entries, SubscriptionRegistry,
}

-- an item of `post_commit_cursors`
pub record PostCommitCursor : Type 0 where
  pub id : ℕ
  pub stream_pattern : Str
  pub branch : Str
  pub cursor : Position

-- `a < b` of two cursors
abbrev pub is_below : Position → Position → Bool
is_below p none = false
is_below none (some b) = true
is_below (some a) (some b) = ltb a b

-- `values().min()`, of the cursor and those after it
unfoldable pub min_cursor : Position → List StreamCursor → Position
min_cursor p [] = p
min_cursor p (c ∷ cs) = let rest = min_cursor c.position cs in if is_below rest p then rest else p

abbrev pub scan_cursor : Str → Position → List StreamCursor → Position
scan_cursor pattern wal_cursor [] = if is_exact pattern then wal_cursor else none
scan_cursor pattern wal_cursor (c ∷ cs) =
    if is_exact pattern then wal_cursor else min_cursor c.position cs

module _ {Chan : Type 0} where
  abbrev pub cursor_row : ℕ → SubscriberEntry Chan → SubscriberKind Chan → List PostCommitCursor
  cursor_row id entry (synchronous handler) = []
  cursor_row id entry (post_commit tx wal_cursor stream_cursors) =
      record {
        id = id;
        stream_pattern = entry.stream_pattern;
        branch = entry.branch;
        cursor = scan_cursor entry.stream_pattern wal_cursor stream_cursors;
      }
      ∷ []

  unfoldable pub post_commit_cursors : Entries Chan → List PostCommitCursor
  unfolding min_cursor
  post_commit_cursors [] = []
  post_commit_cursors ((id, entry) ∷ entries) =
      (if entry.degraded then [] else cursor_row id entry entry.kind) ++ post_commit_cursors entries

-- `group_min.entry(key).or_insert(cursor)`, lowered to the cursor
unfoldable pub lower_at : Str → Str → Position → List StreamCursor → List StreamCursor
lower_at stream_id branch cursor [] =
    record { stream_id = stream_id; branch = branch; position = cursor } ∷ []
lower_at stream_id branch cursor (g ∷ gs) =
    let rest = lower_at stream_id branch cursor gs in
    if is_cursor_of stream_id branch g
    then record g { position = if is_below cursor g.position then cursor else g.position } ∷ gs
    else g ∷ rest

-- the streams that a subscription's pattern names
abbrev pub scanned_streams : List Str → Str → List Str
scanned_streams all_streams pattern =
    if is_exact pattern then pattern ∷ [] else keep (matches pattern) all_streams

unfoldable pub lower_all : List Str → Str → Position → List StreamCursor → List StreamCursor
unfolding lower_at
lower_all [] branch cursor groups = groups
lower_all (s ∷ ss) branch cursor groups =
    lower_all ss branch cursor (lower_at s branch cursor groups)

-- the loop over the cursors
unfoldable pub group_min : List Str → List PostCommitCursor → List StreamCursor → List StreamCursor
unfolding lower_all
group_min all_streams [] groups = groups
group_min all_streams (c ∷ cursors) groups =
    group_min all_streams cursors
      (lower_all (scanned_streams all_streams c.stream_pattern) c.branch c.cursor groups)

abbrev pub stream_ids : List StreamInfo → List Str
stream_ids [] = []
stream_ids (s ∷ streams) = s.id ∷ stream_ids streams

-- `list_all_streams`, which is called only if a pattern has a `*`
unfoldable pub all_streams_for : Db → List PostCommitCursor → List Str
all_streams_for db cursors =
    let has_glob = any (λ (c : PostCommitCursor). not (is_exact c.stream_pattern)) cursors in
    if has_glob then stream_ids db.streams else []

unfoldable pub fetch_events_after : Db → Str → Str → Position → List StoredEvent
fetch_events_after db stream_id branch after_version = order_by version_of (
    keep (λ (e : StoredEvent). at_stream stream_id branch e && is_past after_version e.version)
      db.events)

unfoldable pub send_groups : Db → List StreamCursor → List StoredEvent
unfolding fetch_events_after
send_groups db [] = []
send_groups db (g ∷ groups) =
    fetch_events_after db g.stream_id g.branch g.position ++ send_groups db groups

module _ {Chan : Type 0} where
  unfoldable pub scan : Db → SubscriptionRegistry Chan → List StoredEvent
  unfolding post_commit_cursors all_streams_for group_min send_groups
  scan db registry =
      let cursors = post_commit_cursors registry.entries in
      send_groups db (group_min (all_streams_for db cursors) cursors [])
