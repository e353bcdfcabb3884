-- ===== src/Subscriptions.antt =====
-- src/subscriptions.rs: the registry of subscriptions and the two dispatches of an event.
-- The map of subscribers is the list of its entries, which a dispatch visits in the list's order. The
-- handlers and the channels are foreign code: a handler is a function that may panic, and a
-- channel's operations are a parameter. A cursor of -1 is `none`. A dispatch also returns what it hands to
-- the handlers or the channels. The warnings that it prints are left out.
pub mod Runs
pub mod Visit
pub mod Steps
pub mod Offers
pub mod Keeps
pub mod Dispatches
pub mod Order
pub mod Seed
pub mod Reach
use fossic.Prelude.{
  ℕ, zero, suc, ◌+◌, Bool, true, false, not, ◌&&◌, ◌||◌, List, [], ◌∷◌, ◌++◌, Option, none, some,
  ltb, ◌==◌, any, keep, map, if◌then◌else◌,
}
use fossic.Prelude.Lex.{same}
use fossic.Text.{Str, codes, starts_with}
use fossic.Glob.{matches}
use fossic.Reducers.{Call, returned, panicked}
use fossic.Tables.{StoredEvent}

pub data SubscriptionMode : Type 0 where
  synchronous_mode : SubscriptionMode
  post_commit_mode : ℕ → SubscriptionMode

pub record SubscribeQuery : Type 0 where
  pub stream_pattern : Str
  pub branch : Str
  pub include_system : Bool

abbrev pub SubscriptionHandler : Type 0
SubscriptionHandler = StoredEvent → Call (Unit {0})

abbrev pub Position : Type 0
Position = Option ℕ

-- an item of `stream_cursors`
pub record StreamCursor : Type 0 where
  pub stream_id : Str
  pub branch : Str
  pub position : Position

-- `version > cursor`
abbrev pub is_past : Position → ℕ → Bool
is_past none version = true
is_past (some cursor) version = ltb cursor version

-- `if version > *cursor { *cursor = version; }`
abbrev pub raise : Position → ℕ → Position
raise cursor version = if is_past cursor version then some version else cursor

abbrev pub is_cursor_of : Str → Str → StreamCursor → Bool
is_cursor_of stream_id branch c = same c.stream_id stream_id && same c.branch branch

-- `*stream_cursors.get(&(stream_id, branch)).unwrap_or(&-1)`
unfoldable pub position_of : List StreamCursor → Str → Str → Position
position_of [] stream_id branch = none
position_of (c ∷ cs) stream_id branch =
    if is_cursor_of stream_id branch c then c.position else position_of cs stream_id branch

-- `stream_cursors.entry((stream_id, branch)).or_insert(-1)`, raised to the version
unfoldable pub raise_at : Str → Str → ℕ → List StreamCursor → List StreamCursor
raise_at stream_id branch version [] =
    record { stream_id = stream_id; branch = branch; position = raise none version } ∷ []
raise_at stream_id branch version (c ∷ cs) =
    let rest = raise_at stream_id branch version cs in
    if is_cursor_of stream_id branch c
    then record c { position = raise c.position version } ∷ cs
    else c ∷ rest

-- `!stream_pattern.contains('*')`
abbrev pub is_exact : Str → Bool
is_exact pattern = not (any (λ c. c == b'*') pattern)

-- What a channel's `try_send` did.
pub data Sent (Chan : Type 0) : Type 0 where
  accepted : Chan → Sent Chan
  full : Sent Chan
  disconnected : Sent Chan

-- The bounded channels of crossbeam_channel.
pub record Channels (Chan : Type 0) : Type 0 where
  pub bounded : ℕ → Chan
  pub try_send : Chan → StoredEvent → Sent Chan
  pub len : Chan → ℕ
  pub capacity : Chan → Option ℕ

pub data SubscriberKind (Chan : Type 0) : Type 0 where
  synchronous : SubscriptionHandler → SubscriberKind Chan
  post_commit : Chan → Position → List StreamCursor → SubscriberKind Chan

pub record SubscriberEntry (Chan : Type 0) : Type 0 where
  pub stream_pattern : Str
  pub branch : Str
  pub include_system : Bool
  pub degraded : Bool
  pub kind : SubscriberKind Chan

abbrev pub Entries : Type 0 → Type 0
Entries Chan = List (ℕ × SubscriberEntry Chan)

pub record SubscriptionRegistry (Chan : Type 0) : Type 0 where
  pub entries : Entries Chan
  pub next_id : ℕ

-- What an entry makes of an event: it ignores it, takes it, or is newly degraded.
pub data Offered : Type 0 where
  skipped taken overflowed : Offered

abbrev pub is_taken : Offered → Bool
is_taken taken = true
is_taken _ = false

-- A handler that panics was called too.
abbrev pub is_called : Offered → Bool
is_called skipped = false
is_called _ = true

abbrev pub is_overflowed : Offered → Bool
is_overflowed overflowed = true
is_overflowed _ = false

-- the ids and events that were handed on
abbrev pub Delivered : Type 0
Delivered = List (ℕ × StoredEvent)

abbrev pub effective_cursor : Str → Position → List StreamCursor → Str → Str → Position
effective_cursor pattern wal_cursor stream_cursors stream_id branch =
    if is_exact pattern then wal_cursor else position_of stream_cursors stream_id branch

module _ {Chan : Type 0} where
  unfoldable pub new : SubscriptionRegistry Chan
  new = record { entries = []; next_id = 1 }

  unfoldable pub unsubscribe : SubscriptionRegistry Chan → ℕ → SubscriptionRegistry Chan
  unsubscribe registry id = record registry {
    entries = keep (λ (p : ℕ × SubscriberEntry Chan). not (p.0 == id)) registry.entries;
  }

  abbrev pub has_subscribers : SubscriptionRegistry Chan → Bool
  has_subscribers registry = any (λ (p : ℕ × SubscriberEntry Chan). true) registry.entries

  -- the guards that both dispatches begin with
  unfoldable pub accepts : SubscriberEntry Chan → StoredEvent → Bool
  accepts entry event =
      same entry.branch event.branch
      && (not (starts_with event.stream_id (codes "_")) || entry.include_system)
      && matches entry.stream_pattern event.stream_id
      && not entry.degraded

  -- a handler that panics degrades its subscription
  unfoldable pub after_call :
      Call (Unit {0}) → SubscriberEntry Chan → SubscriberEntry Chan × Offered
  after_call (returned _) entry = (entry, taken)
  after_call (panicked _) entry = (record entry { degraded = true }, overflowed)

  unfoldable pub notify :
      SubscriberKind Chan → SubscriberEntry Chan → StoredEvent → SubscriberEntry Chan × Offered
  unfolding after_call
  notify (synchronous handler) entry event = after_call (handler event) entry
  notify (post_commit tx wal_cursor stream_cursors) entry event = (entry, skipped)

  unfoldable pub notify_entry : SubscriberEntry Chan → StoredEvent → SubscriberEntry Chan × Offered
  unfolding notify
  notify_entry entry event =
      if accepts entry event then notify entry.kind entry event else (entry, skipped)

  -- A pass over the entries: what was handed on, and the ids of the newly degraded.
  unfoldable pub visit :
      (SubscriberEntry Chan → SubscriberEntry Chan × Offered)
      → (Offered → Bool)
      → StoredEvent
      → Entries Chan
      → Entries Chan × (Delivered × List ℕ)
  visit offer is_sent event [] = ([], ([], []))
  visit offer is_sent event ((id, entry) ∷ entries) =
      let (entries', (delivered, degraded)) = visit offer is_sent event entries in
      let (entry', offered) = offer entry in
      (
        (id, entry') ∷ entries',
        (
          if is_sent offered then (id, event) ∷ delivered else delivered,
          if is_overflowed offered then id ∷ degraded else degraded,
        ),
      )

  unfoldable pub dispatch_sync :
      SubscriptionRegistry Chan → StoredEvent → SubscriptionRegistry Chan × (Delivered × List ℕ)
  unfolding notify_entry visit
  dispatch_sync registry event =
      let (entries, signals) =
        visit (λ entry. notify_entry entry event) is_called event registry.entries in
      (record registry { entries = entries }, signals)

  -- a full channel degrades its subscription
  unfoldable pub after_send :
      Sent Chan
      → Position
      → List StreamCursor
      → SubscriberEntry Chan
      → SubscriberEntry Chan × Offered
  after_send (accepted tx) wal_cursor stream_cursors entry =
      (record entry { kind = post_commit tx wal_cursor stream_cursors }, taken)
  after_send full wal_cursor stream_cursors entry = (record entry { degraded = true }, overflowed)
  after_send disconnected wal_cursor stream_cursors entry = (entry, skipped)

  abbrev pub advance_kind : Str → SubscriberKind Chan → Str → Str → ℕ → SubscriberKind Chan
  advance_kind pattern (synchronous handler) stream_id branch version = synchronous handler
  advance_kind pattern (post_commit tx wal_cursor stream_cursors) stream_id branch version =
      if is_exact pattern
      then post_commit tx (raise wal_cursor version) stream_cursors
      else post_commit tx wal_cursor (raise_at stream_id branch version stream_cursors)

  -- the cursor of the subscriber `id`, in the second pass
  unfoldable pub advance_entry :
      ℕ → StoredEvent → ℕ × SubscriberEntry Chan → ℕ × SubscriberEntry Chan
  advance_entry id event (i, entry) =
      if i == id
      then (
        i,
        record entry {
          kind =
              advance_kind entry.stream_pattern entry.kind event.stream_id event.branch
                event.version;
        },
      )
      else (i, entry)

  -- the second pass, over the events that were delivered
  unfoldable pub advance : Delivered → Entries Chan → Entries Chan
  unfolding advance_entry
  advance [] entries = entries
  advance ((id, event) ∷ delivered) entries =
      advance delivered (map (advance_entry id event) entries)

module _ {Chan : Type 0} (channels : Channels Chan) where
  unfoldable pub make_kind :
      SubscriptionMode → Position → List StreamCursor → SubscriptionHandler → SubscriberKind Chan
  make_kind synchronous_mode initial_cursor initial_stream_cursors handler = synchronous handler
  make_kind (post_commit_mode queue_size) initial_cursor initial_stream_cursors handler =
      post_commit (channels.bounded queue_size) initial_cursor initial_stream_cursors

  unfoldable pub subscribe :
      SubscriptionRegistry Chan
      → SubscribeQuery
      → SubscriptionMode
      → Position
      → List StreamCursor
      → SubscriptionHandler
      → ℕ × SubscriptionRegistry Chan
  unfolding make_kind
  subscribe registry q mode initial_cursor initial_stream_cursors handler =
      let id = registry.next_id in
      let entry : SubscriberEntry Chan = record {
        stream_pattern = q.stream_pattern;
        branch = q.branch;
        include_system = q.include_system;
        degraded = false;
        kind = make_kind mode initial_cursor initial_stream_cursors handler;
      } in
      (id, record { entries = registry.entries ++ (id, entry) ∷ []; next_id = id + 1 })

  unfoldable pub offer :
      SubscriberKind Chan → SubscriberEntry Chan → StoredEvent → SubscriberEntry Chan × Offered
  unfolding after_send
  offer (synchronous handler) entry event = (entry, skipped)
  offer (post_commit tx wal_cursor stream_cursors) entry event =
      if is_past
        (effective_cursor entry.stream_pattern wal_cursor stream_cursors event.stream_id
          event.branch)
        event.version
      then after_send (channels.try_send tx event) wal_cursor stream_cursors entry
      else (entry, skipped)

  unfoldable pub offer_entry : SubscriberEntry Chan → StoredEvent → SubscriberEntry Chan × Offered
  unfolding offer
  offer_entry entry event =
      if accepts entry event then offer entry.kind entry event else (entry, skipped)

  unfoldable pub dispatch_post_commit :
      SubscriptionRegistry Chan → StoredEvent → SubscriptionRegistry Chan × (Delivered × List ℕ)
  unfolding offer_entry visit advance
  dispatch_post_commit registry event =
      let (entries, (delivered, degraded)) =
        visit (λ entry. offer_entry entry event) is_taken event registry.entries in
      (record registry { entries = advance delivered entries }, (delivered, degraded))
