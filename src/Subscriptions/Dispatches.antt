-- ===== src/Subscriptions/Dispatches.antt =====
-- The dispatches of src/subscriptions.rs as steps of a registry, and the steps of a run.
use fossic.Prelude.{
  ℕ, ◌<◌, ◌≡◌, ◌≢◌, refl, true, [], ◌∷◌, ◌++◌, map, All, All-mono, All-append, Bool-cases, inl, inr,
  ◌==◌, ltb, arith,
}
use fossic.Prelude.Order.{IsDistinct}
use fossic.Tables.{StoredEvent}
use fossic.Subscriptions.{
  is_taken, is_called, is_overflowed, Channels, SubscriberEntry, Entries, SubscriptionRegistry,
  Delivered, notify_entry, offer_entry, visit, advance_entry, advance, dispatch_sync,
  dispatch_post_commit,
}
use fossic.Subscriptions.Runs.{
  Signal, called, handled, queued, degraded_id, called_of, queued_of, Before, Op, subscribing,
  dropping, committing, dispatching, receiving, step, set_channel,
}
use fossic.Subscriptions.Visit.{
  All-visit, visit-IsDistinct, All-delivered, All-degraded, delivered-IsDistinct,
  degraded-IsDistinct, degraded-marked, both,
}
use fossic.Subscriptions.Steps.{
  Remembers, advance-Remembers, advance-reached, advance-All_ids, notify_entry-Remembers,
  notify_entry-marked, accepts-degraded,
}
use fossic.Subscriptions.Offers.{offer_entry-Remembers, offer_entry-marked, offer_entry-past}
use fossic.Subscriptions.Keeps.{
  Keeps, IsOrdered-append, All-map_to, queued-IsOrdered, called-IsOrdered, degraded-IsOrdered,
  wrong, All-trivial, IsValid, Knows, map-IsDistinct, map-Keeps, set_channel_id,
  set_channel-Remembers, unsubscribe-Keeps, subscribe-Keeps,
}

module _ {Chan : Type 0} where
  skipped_if_degraded_sync :
      (i : ℕ) (event : StoredEvent) (p : ℕ × SubscriberEntry Chan)
      → Remembers (degraded_id i) p
      → (is_called (notify_entry p.1 event).1 ≡ true → p.0 ≢ i)
        × (is_overflowed (notify_entry p.1 event).1 ≡ true → p.0 ≢ i)
  unfolding notify_entry
  skipped_if_degraded_sync i event p h = (
    (λ t same. wrong (rw (accepts-degraded p.1 event (h same)) at t)),
    (λ t same. wrong (rw (accepts-degraded p.1 event (h same)) at t)),
  )

  dispatch_sync-Keeps :
      (registry : SubscriptionRegistry Chan) (event : StoredEvent)
      → IsValid registry
      → Keeps registry (dispatch_sync registry event).0 (
          map called_of (dispatch_sync registry event).1.0
          ++ map degraded_id (dispatch_sync registry event).1.1)
  unfolding dispatch_sync
  dispatch_sync-Keeps registry event v =
      let f = λ (entry : SubscriberEntry Chan). notify_entry entry event in
      let es = registry.entries in
      let n = registry.next_id in
      let ds = (visit f is_called event es).1.0 in
      let gs = (visit f is_called event es).1.1 in
      record {
        valid = record {
          below = All-visit f is_called event (λ p. p.0 < n) es (λ i e h. h) v.below;
          distinct = visit-IsDistinct f is_called event es v.distinct;
        };
        knows = λ x k. (
          k.0,
          All-visit f is_called event (Remembers x) es (notify_entry-Remembers x event) k.1,
        );
        learns =
            All-append (Knows _) (map called_of ds) (map degraded_id gs)
              (All-map_to (Knows _) called_of ds (
                All-mono _ _ ds (λ d h. (h.0, All-trivial _ _ (λ _. tt)))
                  (All-delivered f is_called event (λ j. j < n) es
                    (All-mono _ _ es (λ p lt t. lt) v.below))))
              (All-map_to (Knows _) degraded_id gs (
                both (λ j. j < n) _ gs
                  (All-degraded f is_called event (λ j. j < n) es
                    (All-mono _ _ es (λ p lt t. lt) v.below))
                  (degraded-marked f is_called event es (notify_entry-marked event) v.distinct)));
        ordered =
            IsOrdered-append (map called_of ds) (map degraded_id gs) (called-IsOrdered ds)
              (degraded-IsOrdered gs (degraded-IsDistinct f is_called event es v.distinct))
              (All-map_to _ called_of ds (All-trivial _ ds (λ d. All-trivial _ _ (λ _. tt))));
        after = λ x k.
            All-append (Before x) (map called_of ds) (map degraded_id gs)
              (All-map_to (Before x) called_of ds (after_called x k.1))
              (All-map_to (Before x) degraded_id gs (after_degraded x k.1));
      }
    where
      after_called :
          (x : Signal)
          → All (Remembers x) registry.entries
          → All (λ d. Before x (called_of d)) (dispatch_sync registry event).1.0
      after_called (called i e) k = All-trivial _ _ (λ _. tt)
      after_called (handled i e) k = All-trivial _ _ (λ _. tt)
      after_called (queued i e) k = All-trivial _ _ (λ _. tt)
      after_called (degraded_id i) k =
          All-mono _ _ _ (λ d h. h.0)
            (All-delivered (λ entry. notify_entry entry event) is_called event (λ j. j ≢ i)
              registry.entries
              (All-mono _ _ registry.entries (λ p h. (skipped_if_degraded_sync i event p h).0) k))

      after_degraded :
          (x : Signal)
          → All (Remembers x) registry.entries
          → All (λ i. Before x (degraded_id i)) (dispatch_sync registry event).1.1
      after_degraded (called i e) k = All-trivial _ _ (λ _. tt)
      after_degraded (handled i e) k = All-trivial _ _ (λ _. tt)
      after_degraded (queued i e) k = All-trivial _ _ (λ _. tt)
      after_degraded (degraded_id i) k =
          All-degraded (λ entry. notify_entry entry event) is_called event (λ j. j ≢ i)
            registry.entries
            (All-mono _ _ registry.entries (λ p h. (skipped_if_degraded_sync i event p h).1) k)

  skipped_if_degraded :
      (channels : Channels Chan) (i : ℕ) (event : StoredEvent) (p : ℕ × SubscriberEntry Chan)
      → Remembers (degraded_id i) p
      → (is_taken (offer_entry channels p.1 event).1 ≡ true → p.0 ≢ i)
        × (is_overflowed (offer_entry channels p.1 event).1 ≡ true → p.0 ≢ i)
  unfolding offer_entry
  skipped_if_degraded channels i event p h = (
    (λ t same. wrong (rw (accepts-degraded p.1 event (h same)) at t)),
    (λ t same. wrong (rw (accepts-degraded p.1 event (h same)) at t)),
  )

  advance_entry_id :
      (id : ℕ) (event : StoredEvent) (p : ℕ × SubscriberEntry Chan)
      → (advance_entry id event p).0 ≡ p.0
  unfolding advance_entry
  advance_entry_id id event (i, entry) = elim (Bool-cases (i == id)) [
    | inl t ↦ rw t refl
    | inr t ↦ rw t refl
  ]

  advance-IsDistinct :
      (ds : Delivered) (es : Entries Chan)
      → IsDistinct (λ p. p.0) es
      → IsDistinct (λ p. p.0) (advance ds es)
  unfolding advance
  advance-IsDistinct [] es d = d
  advance-IsDistinct ((id, event) ∷ ds) es d =
      advance-IsDistinct ds (map (advance_entry id event) es)
        (map-IsDistinct (advance_entry id event) es (advance_entry_id id event) d)

  dispatch_post_commit-Keeps :
      (channels : Channels Chan) (registry : SubscriptionRegistry Chan) (event : StoredEvent)
      → IsValid registry
      → Keeps registry (dispatch_post_commit channels registry event).0 (
          map queued_of (dispatch_post_commit channels registry event).1.0
          ++ map degraded_id (dispatch_post_commit channels registry event).1.1)
  unfolding dispatch_post_commit
  dispatch_post_commit-Keeps channels registry event v =
      let f = λ (entry : SubscriberEntry Chan). offer_entry channels entry event in
      let es = registry.entries in
      let n = registry.next_id in
      let es' = (visit f is_taken event es).0 in
      let ds = (visit f is_taken event es).1.0 in
      let gs = (visit f is_taken event es).1.1 in
      record {
        valid = record {
          below =
              advance-All_ids (λ i. i < n) ds es'
                (All-visit f is_taken event (λ p. p.0 < n) es (λ i e h. h) v.below);
          distinct = advance-IsDistinct ds es' (visit-IsDistinct f is_taken event es v.distinct);
        };
        knows = λ x k. (
          k.0,
          advance-Remembers x ds es' (
              All-visit f is_taken event (Remembers x) es (offer_entry-Remembers channels x event)
                k.1),
        );
        learns =
            All-append (Knows _) (map queued_of ds) (map degraded_id gs)
              (All-map_to (Knows _) queued_of ds (
                both (λ d. d.0 < n) _ ds
                  (All-mono _ _ ds (λ d h. h.0)
                    (All-delivered f is_taken event (λ j. j < n) es
                      (All-mono _ _ es (λ p lt t. lt) v.below)))
                  (advance-reached ds es')))
              (All-map_to (Knows _) degraded_id gs (
                both (λ j. j < n) _ gs
                  (All-degraded f is_taken event (λ j. j < n) es
                    (All-mono _ _ es (λ p lt t. lt) v.below))
                  (All-mono _ _ gs (λ i h. advance-Remembers (degraded_id i) ds es' h)
                    (degraded-marked f is_taken event es (offer_entry-marked channels event)
                      v.distinct))));
        ordered =
            IsOrdered-append (map queued_of ds) (map degraded_id gs)
              (queued-IsOrdered ds (delivered-IsDistinct f is_taken event es v.distinct))
              (degraded-IsOrdered gs (degraded-IsDistinct f is_taken event es v.distinct))
              (All-map_to _ queued_of ds
                (All-trivial _ ds (λ d. All-map_to _ degraded_id gs (All-trivial _ gs (λ _. tt)))));
        after = λ x k.
            All-append (Before x) (map queued_of ds) (map degraded_id gs)
              (All-map_to (Before x) queued_of ds (after_queued x k.1))
              (All-map_to (Before x) degraded_id gs (after_degraded x k.1));
      }
    where
      after_queued :
          (x : Signal)
          → All (Remembers x) registry.entries
          → All (λ d. Before x (queued_of d)) (dispatch_post_commit channels registry event).1.0
      after_queued (called i e) k = All-trivial _ _ (λ _. tt)
      after_queued (handled i e) k = All-trivial _ _ (λ _. tt)
      after_queued (queued i e) k =
          All-mono _ _ _ (λ d h same. rw h.1 (h.0 same))
            (All-delivered (λ entry. offer_entry channels entry event) is_taken event
              (λ j.
                j ≡ i
                → event.stream_id ≡ e.stream_id
                → event.branch ≡ e.branch
                → e.version < event.version)
              registry.entries
              (All-mono _ _ registry.entries
                (λ p h t same. offer_entry-past channels p.1 event e t (h same)) k))
      after_queued (degraded_id i) k =
          All-mono _ _ _ (λ d h. h.0)
            (All-delivered (λ entry. offer_entry channels entry event) is_taken event (λ j. j ≢ i)
              registry.entries
              (All-mono _ _ registry.entries (λ p h. (skipped_if_degraded channels i event p h).0)
                k))

      after_degraded :
          (x : Signal)
          → All (Remembers x) registry.entries
          → All (λ i. Before x (degraded_id i)) (dispatch_post_commit channels registry event).1.1
      after_degraded (called i e) k = All-trivial _ _ (λ _. tt)
      after_degraded (handled i e) k = All-trivial _ _ (λ _. tt)
      after_degraded (queued i e) k = All-trivial _ _ (λ _. tt)
      after_degraded (degraded_id i) k =
          All-degraded (λ entry. offer_entry channels entry event) is_taken event (λ j. j ≢ i)
            registry.entries
            (All-mono _ _ registry.entries (λ p h. (skipped_if_degraded channels i event p h).1) k)

module _ {Chan : Type 0} (channels : Channels Chan) where
  pub step-Keeps :
      (op : Op Chan) (registry : SubscriptionRegistry Chan)
      → IsValid registry
      → Keeps registry (step channels op registry).0 (step channels op registry).1
  unfolding step
  step-Keeps (subscribing q mode cursor cursors handler) registry v =
      subscribe-Keeps channels registry q mode cursor cursors handler v
  step-Keeps (dropping id) registry v = unsubscribe-Keeps registry id v
  step-Keeps (committing event) registry v = dispatch_sync-Keeps registry event v
  step-Keeps (dispatching event) registry v = dispatch_post_commit-Keeps channels registry event v
  step-Keeps (receiving id chan event) registry v =
      let kept =
        map-Keeps registry (set_channel id chan) (set_channel_id id chan)
          (set_channel-Remembers id chan) v in
      elim (Bool-cases (ltb id registry.next_id)) [
        | inr unknown ↦ rw unknown kept
        | inl known ↦ rw known (record {
          valid = kept.valid;
          knows = kept.knows;
          learns = ((ground (arith, known), All-trivial _ _ (λ _. tt)), tt);
          ordered = (tt, tt);
          after = λ x k. (handled_after x, tt);
        })
      ]
    where
      handled_after : (x : Signal) → Before x (handled id event)
      handled_after (called i e) = tt
      handled_after (handled i e) = tt
      handled_after (queued i e) = tt
      handled_after (degraded_id i) = tt
