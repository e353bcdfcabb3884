-- ===== src/Subscriptions/Offers.antt =====
-- What an entry of src/subscriptions.rs remembers of the signals when an event is sent to its channel.
use fossic.Prelude.{ℕ, ◌<◌, ◌≡◌, refl, subst, true, List, Bool-cases, inl, inr}
use fossic.Tables.{StoredEvent}
use fossic.Subscriptions.{
  Position, StreamCursor, is_past, effective_cursor, is_taken, is_overflowed, Channels, Sent,
  accepted, full, disconnected, SubscriberKind, synchronous, post_commit, SubscriberEntry, accepts,
  offer, offer_entry, after_send,
}
use fossic.Subscriptions.Runs.{Signal, called, handled, queued, degraded_id}
use fossic.Subscriptions.Steps.{not_overflowed, between, HasSeen, Remembers}

module _ {Chan : Type 0} where
  after_send-Remembers :
      (x : Signal) (sent : Sent Chan) (wal : Position) (cursors : List StreamCursor) (i : ℕ)
      (entry : SubscriberEntry Chan) (tx : Chan)
      → entry.kind ≡ post_commit tx wal cursors
      → Remembers x (i, entry)
      → Remembers x (i, (after_send sent wal cursors entry).0)
  unfolding after_send
  after_send-Remembers x disconnected wal cursors i entry tx kind h = h
  after_send-Remembers (called j e) _ wal cursors i entry tx kind h = tt
  after_send-Remembers (handled j e) _ wal cursors i entry tx kind h = tt
  after_send-Remembers (queued j e) full wal cursors i entry tx kind h = h
  after_send-Remembers (queued j e) (accepted tx') wal cursors i entry tx kind h =
      λ same. subst (λ k. HasSeen entry.stream_pattern k e) kind (h same)
  after_send-Remembers (degraded_id j) full wal cursors i entry tx kind h = λ _. refl
  after_send-Remembers (degraded_id j) (accepted tx') wal cursors i entry tx kind h = h

module _ {Chan : Type 0} (channels : Channels Chan) where
  offer-Remembers :
      (x : Signal) (kind : SubscriberKind Chan) (i : ℕ) (entry : SubscriberEntry Chan)
      (event : StoredEvent)
      → entry.kind ≡ kind
      → Remembers x (i, entry)
      → Remembers x (i, (offer channels kind entry event).0)
  unfolding offer
  offer-Remembers x (synchronous handler) i entry event k h = h
  offer-Remembers x (post_commit tx wal cursors) i entry event k h =
      elim (Bool-cases (
        is_past (effective_cursor entry.stream_pattern wal cursors event.stream_id event.branch)
          event.version)) [
            | inl t ↦
                rw t
                  (after_send-Remembers x (channels.try_send tx event) wal cursors i entry tx k h)
            | inr t ↦ rw t h
          ]

  pub offer_entry-Remembers :
      (x : Signal) (event : StoredEvent) (i : ℕ) (entry : SubscriberEntry Chan)
      → Remembers x (i, entry)
      → Remembers x (i, (offer_entry channels entry event).0)
  unfolding offer_entry
  offer_entry-Remembers x event i entry h = elim (Bool-cases (accepts entry event)) [
    | inl t ↦ rw t (offer-Remembers x entry.kind i entry event refl h)
    | inr t ↦ rw t h
  ]

  after_send-marked :
      (sent : Sent Chan) (wal : Position) (cursors : List StreamCursor)
      (entry : SubscriberEntry Chan)
      → is_overflowed (after_send sent wal cursors entry).1 ≡ true
      → (after_send sent wal cursors entry).0.degraded ≡ true
  unfolding after_send
  after_send-marked (accepted tx) wal cursors entry h = absurd (cc)
  after_send-marked full wal cursors entry h = refl
  after_send-marked disconnected wal cursors entry h = absurd (cc)

  offer-marked :
      (kind : SubscriberKind Chan) (event : StoredEvent) (entry : SubscriberEntry Chan)
      → is_overflowed (offer channels kind entry event).1 ≡ true
      → (offer channels kind entry event).0.degraded ≡ true
  unfolding offer
  offer-marked (synchronous handler) event entry h = absurd (cc)
  offer-marked (post_commit tx wal cursors) event entry h =
      elim (Bool-cases (
        is_past (effective_cursor entry.stream_pattern wal cursors event.stream_id event.branch)
          event.version)) [
            | inl t ↦
                rw t (after_send-marked (channels.try_send tx event) wal cursors entry (rw t at h))
            | inr t ↦ absurd (not_overflowed (rw t at h))
          ]

  -- A channel that was full has a degraded subscription.
  pub offer_entry-marked :
      (event : StoredEvent) (entry : SubscriberEntry Chan)
      → is_overflowed (offer_entry channels entry event).1 ≡ true
      → (offer_entry channels entry event).0.degraded ≡ true
  unfolding offer_entry
  offer_entry-marked event entry h = elim (Bool-cases (accepts entry event)) [
    | inl t ↦ rw t (offer-marked entry.kind event entry (rw t at h))
    | inr t ↦ absurd (not_overflowed (rw t at h))
  ]

  offer-past :
      (kind : SubscriberKind Chan) (entry : SubscriberEntry Chan) (event e : StoredEvent)
      → is_taken (offer channels kind entry event).1 ≡ true
      → HasSeen entry.stream_pattern kind e
      → event.stream_id ≡ e.stream_id
      → event.branch ≡ e.branch
      → e.version < event.version
  unfolding offer
  offer-past (synchronous handler) entry event e h seen s b = absurd (cc)
  offer-past (post_commit tx wal cursors) entry event e h seen s b =
      elim (Bool-cases (
        is_past (effective_cursor entry.stream_pattern wal cursors event.stream_id event.branch)
          event.version)) [
            | inl t ↦
                between (effective_cursor entry.stream_pattern wal cursors e.stream_id e.branch)
                  e.version event.version seen (rw s at (rw b at t))
            | inr t ↦ absurd (not_overflowed (rw t at h))
          ]

  -- A channel takes an event only if its version is above those of the stream that it has seen.
  pub offer_entry-past :
      (entry : SubscriberEntry Chan) (event e : StoredEvent)
      → is_taken (offer_entry channels entry event).1 ≡ true
      → HasSeen entry.stream_pattern entry.kind e
      → event.stream_id ≡ e.stream_id
      → event.branch ≡ e.branch
      → e.version < event.version
  unfolding offer_entry
  offer_entry-past entry event e h seen s b = elim (Bool-cases (accepts entry event)) [
    | inl t ↦ offer-past entry.kind entry event e (rw t at h) seen s b
    | inr t ↦ absurd (not_overflowed (rw t at h))
  ]
