-- ===== src/Subscriptions/Runs.antt =====
-- Runs of the registry of src/subscriptions.rs: any order of subscribing, dropping a handle, the two
-- dispatches, and the handler threads taking from their channels.
use fossic.Prelude.{ℕ, ◌≡◌, ◌≢◌, ◌<◌, List, [], ◌∷◌, ◌++◌, map, All, ltb, ◌==◌, if◌then◌else◌}
use fossic.Tables.{StoredEvent}
use fossic.Subscriptions.{
  SubscribeQuery, SubscriptionMode, Position, StreamCursor, SubscriptionHandler, Channels,
  SubscriberKind, synchronous, post_commit, SubscriberEntry, SubscriptionRegistry, subscribe,
  unsubscribe, dispatch_sync, dispatch_post_commit,
}

pub data Op (Chan : Type 0) : Type 0 where
  subscribing :
      SubscribeQuery
      → SubscriptionMode
      → Position
      → List StreamCursor
      → SubscriptionHandler
      → Op Chan
  dropping : ℕ → Op Chan
  -- an event that an append wrote, and one that the dispatcher thread received
  committing : StoredEvent → Op Chan
  dispatching : StoredEvent → Op Chan
  -- the handler thread of a subscriber calls the handler on an event; the channel, as the thread leaves it
  receiving : ℕ → Chan → StoredEvent → Op Chan

-- What is to be seen of a registry: the calls of synchronous handlers by a dispatch, those of handlers by their
-- threads, the events put into channels, and the ids that are reported as newly degraded.
pub data Signal : Type 0 where
  called : ℕ → StoredEvent → Signal
  handled : ℕ → StoredEvent → Signal
  queued : ℕ → StoredEvent → Signal
  degraded_id : ℕ → Signal

abbrev pub called_of : ℕ × StoredEvent → Signal
called_of d = called d.0 d.1

abbrev pub queued_of : ℕ × StoredEvent → Signal
queued_of d = queued d.0 d.1

-- `first` may be seen before `second`: a channel gets the events of a stream and branch in the order of
-- their versions, each once; and after it is reported a dispatch gives a subscriber nothing and does not
-- report it again. A thread goes on with what its channel holds.
abbrev pub Before : Signal → Signal → Type 0
Before (called i e) second = Unit
Before (handled i e) second = Unit
Before (queued i e) (called j f) = Unit
Before (queued i e) (handled j f) = Unit
Before (queued i e) (queued j f) =
    j ≡ i → f.stream_id ≡ e.stream_id → f.branch ≡ e.branch → e.version < f.version
Before (queued i e) (degraded_id j) = Unit
Before (degraded_id i) (called j f) = j ≢ i
Before (degraded_id i) (handled j f) = Unit
Before (degraded_id i) (queued j f) = j ≢ i
Before (degraded_id i) (degraded_id j) = j ≢ i

abbrev pub IsOrdered : List Signal → Type 0
IsOrdered [] = Unit
IsOrdered (x ∷ xs) = All (Before x) xs × IsOrdered xs

module _ {Chan : Type 0} where
  abbrev pub with_channel : Chan → SubscriberKind Chan → SubscriberKind Chan
  with_channel chan (synchronous handler) = synchronous handler
  with_channel chan (post_commit tx wal_cursor stream_cursors) =
      post_commit chan wal_cursor stream_cursors

  unfoldable pub set_channel : ℕ → Chan → ℕ × SubscriberEntry Chan → ℕ × SubscriberEntry Chan
  set_channel id chan (i, entry) =
      if i == id then (i, record entry { kind = with_channel chan entry.kind }) else (i, entry)

module _ {Chan : Type 0} (channels : Channels Chan) where
  unfoldable pub step :
      Op Chan → SubscriptionRegistry Chan → SubscriptionRegistry Chan × List Signal
  step (subscribing q mode cursor stream_cursors handler) registry =
      ((subscribe channels registry q mode cursor stream_cursors handler).1, [])
  step (dropping id) registry = (unsubscribe registry id, [])
  step (committing event) registry =
      let (registry', (delivered, degraded)) = dispatch_sync registry event in
      (registry', map called_of delivered ++ map degraded_id degraded)
  step (dispatching event) registry =
      let (registry', (delivered, degraded)) = dispatch_post_commit channels registry event in
      (registry', map queued_of delivered ++ map degraded_id degraded)
  step (receiving id chan event) registry = (
    record registry { entries = map (set_channel id chan) registry.entries },
    if ltb id registry.next_id then handled id event ∷ [] else [],
  )

  unfoldable pub run : List (Op Chan) → SubscriptionRegistry Chan → List Signal
  unfolding step
  run [] registry = []
  run (op ∷ ops) registry =
      let (registry', signals) = step op registry in signals ++ run ops registry'
