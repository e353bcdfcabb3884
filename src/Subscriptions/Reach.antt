-- ===== src/Subscriptions/Reach.antt =====
-- Which subscribers dispatch_post_commit of src/subscriptions.rs reaches.
use fossic.Prelude.{ℕ, ◌≡◌, Bool, true, false, In, Option, none, some}
use fossic.Tables.{StoredEvent}
use fossic.Subscriptions.{
  Channels, Sent, accepted, full, disconnected, post_commit, SubscriberEntry, SubscriptionRegistry,
  dispatch_post_commit, synchronous, SubscriberKind,
}

module _ {Chan : Type 0} where
  abbrev pub channel_of : SubscriberKind Chan → Option Chan
  channel_of (synchronous handler) = none
  channel_of (post_commit tx wal cursors) = some tx

  -- The registry holds the subscriber with this channel and this mark.
  abbrev pub Holds : SubscriptionRegistry Chan → ℕ → Option Chan → Bool → Type 0
  Holds registry id chan degraded =
      (entry : SubscriberEntry Chan) × In (id, entry) registry.entries
      × (channel_of entry.kind ≡ chan)
      × (entry.degraded ≡ degraded)

module _ {Chan : Type 0} (channels : Channels Chan) where
  -- What a dispatch is to do to a subscriber, by what its channel makes of the event: it is delivered, and
  -- the registry holds the channel with the event; the subscriber is reported, and marked; or nothing.
  abbrev pub Reaches : SubscriptionRegistry Chan → StoredEvent → ℕ → Chan → Sent Chan → Type 0
  Reaches registry event id tx (accepted tx') =
      let (registry', (delivered, degraded)) = dispatch_post_commit channels registry event in
      In (id, event) delivered × Holds registry' id (some tx') false
  Reaches registry event id tx full =
      let (registry', (delivered, degraded)) = dispatch_post_commit channels registry event in
      In id degraded × Holds registry' id (some tx) true
  Reaches registry event id tx disconnected =
      let (registry', (delivered, degraded)) = dispatch_post_commit channels registry event in
      Holds registry' id (some tx) false
