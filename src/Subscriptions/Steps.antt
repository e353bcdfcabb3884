-- ===== src/Subscriptions/Steps.antt =====
-- What a registry of src/subscriptions.rs remembers of the signals that were seen, and how its dispatches
-- keep it.
use fossic.Prelude.{
  ℕ, ◌<◌, ◌≡◌, ◌≢◌, refl, Bool, true, false, [], ◌∷◌, none, some, map, All, Bool-cases, inl, inr,
  ◌==◌, arith,
}
use fossic.Text.{Str}
use fossic.Reducers.{Call, returned, panicked}
use fossic.Tables.{StoredEvent}
use fossic.Subscriptions.{
  Position, is_past, is_exact, effective_cursor, is_overflowed, SubscriberKind, synchronous,
  post_commit, SubscriberEntry, Entries, Delivered, accepts, notify, notify_entry, after_call,
  advance_kind, advance_entry, advance,
}
use fossic.Subscriptions.Runs.{Signal, called, handled, queued, degraded_id, queued_of}
use fossic.Subscriptions.Visit.{
  raise-is_past, raise-reached, position_of-raise_at, raise_at-is_past, All-map,
}

pub not_overflowed : ◌≢◌ {A = Bool} false true
not_overflowed h = cc

pub between : (p : Position) (v n : ℕ) → is_past p v ≡ false → is_past p n ≡ true → v < n
between none v n h t = absurd (cc)
between (some p) v n h t = ground arith

module _ {Chan : Type 0} where
  -- A channel's subscriber has the event behind its cursor.
  abbrev pub HasSeen : Str → SubscriberKind Chan → StoredEvent → Type 0
  HasSeen pattern (synchronous handler) e = Unit
  HasSeen pattern (post_commit tx wal_cursor stream_cursors) e =
      is_past (effective_cursor pattern wal_cursor stream_cursors e.stream_id e.branch) e.version
      ≡ false

  -- What an entry remembers of a signal of its id.
  abbrev pub Remembers : Signal → ℕ × SubscriberEntry Chan → Type 0
  Remembers (called i e) p = Unit
  Remembers (handled i e) p = Unit
  Remembers (queued i e) p = p.0 ≡ i → HasSeen p.1.stream_pattern p.1.kind e
  Remembers (degraded_id i) p = p.0 ≡ i → p.1.degraded ≡ true

  advance_kind-HasSeen :
      (pattern : Str) (kind : SubscriberKind Chan) (s b : Str) (v : ℕ) (e : StoredEvent)
      → HasSeen pattern kind e
      → HasSeen pattern (advance_kind pattern kind s b v) e
  advance_kind-HasSeen pattern (synchronous handler) s b v e h = tt
  advance_kind-HasSeen pattern (post_commit tx wal cursors) s b v e h =
      elim (Bool-cases (is_exact pattern)) [
        | inl t ↦ rw t (rw t (raise-is_past wal v e.version (rw t at h)))
        | inr t ↦
            rw t (rw t (raise_at-is_past s b v cursors e.stream_id e.branch e.version (rw t at h)))
      ]

  advance_kind-reached :
      (pattern : Str) (kind : SubscriberKind Chan) (e : StoredEvent)
      → HasSeen pattern (advance_kind pattern kind e.stream_id e.branch e.version) e
  advance_kind-reached pattern (synchronous handler) e = tt
  advance_kind-reached pattern (post_commit tx wal cursors) e =
      elim (Bool-cases (is_exact pattern)) [
        | inl t ↦ rw t (rw t (raise-reached wal e.version))
        | inr t ↦ rw t (rw t (position_of-raise_at e.stream_id e.branch e.version cursors))
      ]

  advance_entry-Remembers :
      (x : Signal) (id : ℕ) (event : StoredEvent) (p : ℕ × SubscriberEntry Chan)
      → Remembers x p
      → Remembers x (advance_entry id event p)
  unfolding advance_entry
  advance_entry-Remembers (called i e) id event p h = tt
  advance_entry-Remembers (handled i e) id event p h = tt
  advance_entry-Remembers (queued i e) id event (j, entry) h = elim (Bool-cases (j == id)) [
    | inl t ↦ rw t (λ same.
        advance_kind-HasSeen entry.stream_pattern entry.kind event.stream_id event.branch
          event.version e (h same))
    | inr t ↦ rw t h
  ]
  advance_entry-Remembers (degraded_id i) id event (j, entry) h = elim (Bool-cases (j == id)) [
    | inl t ↦ rw t h
    | inr t ↦ rw t h
  ]

  pub advance-Remembers :
      (x : Signal) (ds : Delivered) (es : Entries Chan)
      → All (Remembers x) es
      → All (Remembers x) (advance ds es)
  unfolding advance
  advance-Remembers x [] es h = h
  advance-Remembers x ((id, event) ∷ ds) es h =
      advance-Remembers x ds (map (advance_entry id event) es)
        (All-map (Remembers x) (advance_entry id event) es (advance_entry-Remembers x id event) h)

  advance_entry-reached :
      (id : ℕ) (event : StoredEvent) (es : Entries Chan)
      → All (Remembers (queued id event)) (map (advance_entry id event) es)
  unfolding advance_entry
  advance_entry-reached id event [] = tt
  advance_entry-reached id event ((j, entry) ∷ es) = elim (Bool-cases (j == id)) [
    | inl t ↦ rw t (
      λ _. advance_kind-reached entry.stream_pattern entry.kind event,
      advance_entry-reached id event es,
    )
    | inr t ↦ rw t (λ same. absurd (ground arith), advance_entry-reached id event es)
  ]

  -- The second pass makes the registry remember all that was delivered.
  pub advance-reached :
      (ds : Delivered) (es : Entries Chan)
      → All (λ d. All (Remembers (queued_of d)) (advance ds es)) ds
  unfolding advance
  advance-reached [] es = tt
  advance-reached ((id, event) ∷ ds) es = (
    advance-Remembers (queued id event) ds (map (advance_entry id event) es)
        (advance_entry-reached id event es),
    advance-reached ds (map (advance_entry id event) es),
  )

  kept_id {κ} :
      (Q : ℕ → Type κ) (id : ℕ) (event : StoredEvent) (p : ℕ × SubscriberEntry Chan)
      → Q p.0
      → Q (advance_entry id event p).0
  unfolding advance_entry
  kept_id Q id event (j, entry) h = elim (Bool-cases (j == id)) [ inl t ↦ rw t h | inr t ↦ rw t h ]

  -- The ids of the entries stay.
  pub advance-All_ids {κ} :
      (Q : ℕ → Type κ) (ds : Delivered) (es : Entries Chan)
      → All (λ p. Q p.0) es
      → All (λ p. Q p.0) (advance ds es)
  unfolding advance
  advance-All_ids Q [] es h = h
  advance-All_ids Q ((id, event) ∷ ds) es h =
      advance-All_ids Q ds (map (advance_entry id event) es)
        (All-map (λ p. Q p.0) (advance_entry id event) es (kept_id Q id event) h)

  after_call-Remembers :
      (x : Signal) (c : Call (Unit {0})) (i : ℕ) (entry : SubscriberEntry Chan)
      → Remembers x (i, entry)
      → Remembers x (i, (after_call c entry).0)
  unfolding after_call
  after_call-Remembers x (returned _) i entry h = h
  after_call-Remembers (called j e) (panicked _) i entry h = tt
  after_call-Remembers (handled j e) (panicked _) i entry h = tt
  after_call-Remembers (queued j e) (panicked _) i entry h = h
  after_call-Remembers (degraded_id j) (panicked _) i entry h = λ _. refl

  notify-Remembers :
      (x : Signal) (kind : SubscriberKind Chan) (i : ℕ) (entry : SubscriberEntry Chan)
      (event : StoredEvent)
      → Remembers x (i, entry)
      → Remembers x (i, (notify kind entry event).0)
  unfolding notify
  notify-Remembers x (synchronous handler) i entry event h =
      after_call-Remembers x (handler event) i entry h
  notify-Remembers x (post_commit tx wal cursors) i entry event h = h

  pub notify_entry-Remembers :
      (x : Signal) (event : StoredEvent) (i : ℕ) (entry : SubscriberEntry Chan)
      → Remembers x (i, entry)
      → Remembers x (i, (notify_entry entry event).0)
  unfolding notify_entry
  notify_entry-Remembers x event i entry h = elim (Bool-cases (accepts entry event)) [
    | inl t ↦ rw t (notify-Remembers x entry.kind i entry event h)
    | inr t ↦ rw t h
  ]

  after_call-marked :
      (c : Call (Unit {0})) (entry : SubscriberEntry Chan)
      → is_overflowed (after_call c entry).1 ≡ true
      → (after_call c entry).0.degraded ≡ true
  unfolding after_call
  after_call-marked (returned _) entry h = absurd (cc)
  after_call-marked (panicked _) entry h = refl

  notify-marked :
      (kind : SubscriberKind Chan) (event : StoredEvent) (entry : SubscriberEntry Chan)
      → is_overflowed (notify kind entry event).1 ≡ true
      → (notify kind entry event).0.degraded ≡ true
  unfolding notify
  notify-marked (synchronous handler) event entry h = after_call-marked (handler event) entry h
  notify-marked (post_commit tx wal cursors) event entry h = absurd (cc)

  -- A handler that panicked has a degraded subscription.
  pub notify_entry-marked :
      (event : StoredEvent) (entry : SubscriberEntry Chan)
      → is_overflowed (notify_entry entry event).1 ≡ true
      → (notify_entry entry event).0.degraded ≡ true
  unfolding notify_entry
  notify_entry-marked event entry h = elim (Bool-cases (accepts entry event)) [
    | inl t ↦ rw t (notify-marked entry.kind event entry (rw t at h))
    | inr t ↦ absurd (not_overflowed (rw t at h))
  ]

  -- A degraded subscription takes nothing.
  pub accepts-degraded :
      (entry : SubscriberEntry Chan) (event : StoredEvent)
      → entry.degraded ≡ true
      → accepts entry event ≡ false
  unfolding accepts
  accepts-degraded entry event h = ground (arith, h)
