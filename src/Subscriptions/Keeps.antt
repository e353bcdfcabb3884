-- ===== src/Subscriptions/Keeps.antt =====
-- Steps of a registry of src/subscriptions.rs, and the order of the signals that are seen of them.
use fossic.Prelude.{
  ℕ, ◌+◌, ◌<◌, ◌≡◌, ◌≢◌, refl, Bool, true, false, List, [], ◌∷◌, ◌++◌, map, keep, All, All-mono,
  All-append, All-keep, Bool-cases, inl, inr, ◌==◌, arith,
}
use fossic.Prelude.Order.{IsDistinct}
use fossic.Tables.{StoredEvent}
use fossic.Subscriptions.{
  Channels, SubscriberEntry, Entries, SubscriptionRegistry, Delivered, SubscribeQuery,
  SubscriptionMode, Position, StreamCursor, SubscriptionHandler, subscribe, unsubscribe, new,
  make_kind, SubscriberKind, synchronous, post_commit,
}
use fossic.Subscriptions.Runs.{
  Signal, called, handled, queued, degraded_id, called_of, queued_of, Before, IsOrdered,
  with_channel, set_channel,
}
use fossic.Subscriptions.Visit.{All-map}
use fossic.Subscriptions.Steps.{HasSeen, Remembers}

pub IsOrdered-append :
    (xs ys : List Signal)
    → IsOrdered xs
    → IsOrdered ys
    → All (λ x. All (Before x) ys) xs
    → IsOrdered (xs ++ ys)
IsOrdered-append [] ys hx hy between = hy
IsOrdered-append (x ∷ xs) ys hx hy between =
    (All-append (Before x) xs ys hx.0 between.0, IsOrdered-append xs ys hx.1 hy between.1)

pub All-map_to {ℓ κ μ} :
    {A : Type ℓ} {B : Type κ} (P : B → Type μ) (f : A → B) (xs : List A)
    → All (λ a. P (f a)) xs
    → All P (map f xs)
All-map_to P f [] h = tt
All-map_to P f (x ∷ xs) h = (h.0, All-map_to P f xs h.1)

-- Events of one dispatch go to different subscribers.
pub queued-IsOrdered : (ds : Delivered) → IsDistinct (λ d. d.0) ds → IsOrdered (map queued_of ds)
queued-IsOrdered [] d = tt
queued-IsOrdered ((i, e) ∷ ds) d = (
  All-map_to (Before (queued i e)) queued_of ds
      (All-mono (λ p. p.0 ≢ i) _ ds (λ p ne same. absurd (ne same)) d.0),
  queued-IsOrdered ds d.1,
)

pub called-IsOrdered : (ds : Delivered) → IsOrdered (map called_of ds)
called-IsOrdered [] = tt
called-IsOrdered (d ∷ ds) = (anything ds, called-IsOrdered ds)
  where
    anything : (ds : Delivered) → All (Before (called d.0 d.1)) (map called_of ds)
    anything [] = tt
    anything (x ∷ xs) = (tt, anything xs)

pub degraded-IsOrdered : (ids : List ℕ) → IsDistinct (λ i. i) ids → IsOrdered (map degraded_id ids)
degraded-IsOrdered [] d = tt
degraded-IsOrdered (i ∷ ids) d =
    (All-map_to (Before (degraded_id i)) degraded_id ids d.0, degraded-IsOrdered ids d.1)

pub wrong : ◌≢◌ {A = Bool} false true
wrong h = cc

pub All-trivial {ℓ κ} : {A : Type ℓ} (P : A → Type κ) (xs : List A) → ((a : A) → P a) → All P xs
All-trivial P [] h = tt
All-trivial P (x ∷ xs) h = (h x, All-trivial P xs h)

abbrev pub id_of : Signal → ℕ
id_of (called i e) = i
id_of (handled i e) = i
id_of (queued i e) = i
id_of (degraded_id i) = i

module _ {Chan : Type 0} where
  -- Ids are not used twice.
  pub record IsValid (registry : SubscriptionRegistry Chan) : Type 0 where
    pub below : All (λ p. p.0 < registry.next_id) registry.entries
    pub distinct : IsDistinct (λ p. p.0) registry.entries

  abbrev pub Knows : SubscriptionRegistry Chan → Signal → Type 0
  Knows registry x = (id_of x < registry.next_id) × All (Remembers x) registry.entries

  pub new-IsValid : IsValid (new {Chan = Chan})
  unfolding new
  new-IsValid = record { below = tt; distinct = tt }

  -- A map of the entries that keeps their ids keeps them different.
  pub map-IsDistinct :
      (f : ℕ × SubscriberEntry Chan → ℕ × SubscriberEntry Chan) (es : Entries Chan)
      → ((p : ℕ × SubscriberEntry Chan) → (f p).0 ≡ p.0)
      → IsDistinct (λ p. p.0) es
      → IsDistinct (λ p. p.0) (map f es)
  map-IsDistinct f [] same d = tt
  map-IsDistinct f (p ∷ es) same d = (
    rw (same p) (All-map (λ q. q.0 ≢ p.0) f es (λ q ne. rw (same q) ne) d.0),
    map-IsDistinct f es same d.1,
  )

  -- A step of the registry does what the order of the signals needs.
  pub record Keeps (registry registry' : SubscriptionRegistry Chan) (signals : List Signal)
      : Type 0 where
    pub valid : IsValid registry'
    pub knows : (x : Signal) → Knows registry x → Knows registry' x
    pub learns : All (Knows registry') signals
    pub ordered : IsOrdered signals
    pub after : (x : Signal) → Knows registry x → All (Before x) signals

  pub map-Keeps :
      (registry : SubscriptionRegistry Chan)
      (f : ℕ × SubscriberEntry Chan → ℕ × SubscriberEntry Chan)
      → ((p : ℕ × SubscriberEntry Chan) → (f p).0 ≡ p.0)
      → ((x : Signal) (p : ℕ × SubscriberEntry Chan) → Remembers x p → Remembers x (f p))
      → IsValid registry
      → Keeps registry (record registry { entries = map f registry.entries }) []
  map-Keeps registry f same remember v = record {
    valid = record {
      below =
          All-map (λ p. p.0 < registry.next_id) f registry.entries (λ p lt. rw (same p) lt) v.below;
      distinct = map-IsDistinct f registry.entries same v.distinct;
    };
    knows = λ x k. (k.0, All-map (Remembers x) f registry.entries (remember x) k.1);
    learns = tt;
    ordered = tt;
    after = λ x k. tt;
  }

  with_channel-HasSeen :
      (pattern : fossic.Text.Str) (kind : SubscriberKind Chan) (chan : Chan) (e : StoredEvent)
      → HasSeen pattern kind e
      → HasSeen pattern (with_channel chan kind) e
  with_channel-HasSeen pattern (synchronous handler) chan e h = h
  with_channel-HasSeen pattern (post_commit tx wal cursors) chan e h = h

  pub set_channel_id :
      (id : ℕ) (chan : Chan) (p : ℕ × SubscriberEntry Chan) → (set_channel id chan p).0 ≡ p.0
  unfolding set_channel
  set_channel_id id chan (i, entry) = elim (Bool-cases (i == id)) [
    | inl t ↦ rw t refl
    | inr t ↦ rw t refl
  ]

  pub set_channel-Remembers :
      (id : ℕ) (chan : Chan) (x : Signal) (p : ℕ × SubscriberEntry Chan)
      → Remembers x p
      → Remembers x (set_channel id chan p)
  unfolding set_channel
  set_channel-Remembers id chan (called j e) p h = tt
  set_channel-Remembers id chan (handled j e) p h = tt
  set_channel-Remembers id chan (queued j e) (i, entry) h = elim (Bool-cases (i == id)) [
    | inl t ↦ rw t (λ same. with_channel-HasSeen entry.stream_pattern entry.kind chan e (h same))
    | inr t ↦ rw t h
  ]
  set_channel-Remembers id chan (degraded_id j) (i, entry) h = elim (Bool-cases (i == id)) [
    | inl t ↦ rw t h
    | inr t ↦ rw t h
  ]

  keep-IsDistinct :
      (test : ℕ × SubscriberEntry Chan → Bool) (es : Entries Chan)
      → IsDistinct (λ p. p.0) es
      → IsDistinct (λ p. p.0) (keep test es)
  keep-IsDistinct test [] d = tt
  keep-IsDistinct test (p ∷ es) d = elim (Bool-cases (test p)) [
    | inl t ↦ rw t (All-keep (λ q. q.0 ≢ p.0) test es d.0, keep-IsDistinct test es d.1)
    | inr t ↦ rw t (keep-IsDistinct test es d.1)
  ]

  pub unsubscribe-Keeps :
      (registry : SubscriptionRegistry Chan) (id : ℕ)
      → IsValid registry
      → Keeps registry (unsubscribe registry id) []
  unfolding unsubscribe
  unsubscribe-Keeps registry id v = record {
    valid = record {
      below = All-keep (λ p. p.0 < registry.next_id) _ registry.entries v.below;
      distinct = keep-IsDistinct _ registry.entries v.distinct;
    };
    knows = λ x k. (k.0, All-keep (Remembers x) _ registry.entries k.1);
    learns = tt;
    ordered = tt;
    after = λ x k. tt;
  }

  push-IsDistinct :
      (p : ℕ × SubscriberEntry Chan) (es : Entries Chan)
      → All (λ q. q.0 < p.0) es
      → IsDistinct (λ q. q.0) es
      → IsDistinct (λ q. q.0) (es ++ p ∷ [])
  push-IsDistinct p [] below d = (tt, tt)
  push-IsDistinct p (q ∷ es) below d = (
    All-append (λ r. r.0 ≢ q.0) es (p ∷ []) d.0 ((λ same. omega (arith, below.0, same)), tt),
    push-IsDistinct p es below.1 d.1,
  )

  -- A new id is remembered for nothing.
  fresh-Remembers :
      (x : Signal) (id : ℕ) (entry : SubscriberEntry Chan) → id_of x < id → Remembers x (id, entry)
  fresh-Remembers (called i e) id entry lt = tt
  fresh-Remembers (handled i e) id entry lt = tt
  fresh-Remembers (queued i e) id entry lt = λ same. absurd (omega (arith, lt, same))
  fresh-Remembers (degraded_id i) id entry lt = λ same. absurd (omega (arith, lt, same))

  pub subscribe-Keeps :
      (channels : Channels Chan) (registry : SubscriptionRegistry Chan) (q : SubscribeQuery)
      (mode : SubscriptionMode) (cursor : Position) (cursors : List StreamCursor)
      (handler : SubscriptionHandler)
      → IsValid registry
      → Keeps registry (subscribe channels registry q mode cursor cursors handler).1 []
  unfolding subscribe
  subscribe-Keeps channels registry q mode cursor cursors handler v =
      let entry : SubscriberEntry Chan = record {
        stream_pattern = q.stream_pattern;
        branch = q.branch;
        include_system = q.include_system;
        degraded = false;
        kind = make_kind channels mode cursor cursors handler;
      } in
      record {
        valid = record {
          below =
              All-append (λ p. p.0 < registry.next_id + 1) registry.entries _
                (All-mono _ _ registry.entries (λ p lt. omega (arith, lt)) v.below)
                (omega arith, tt);
          distinct = push-IsDistinct (registry.next_id, entry) registry.entries v.below v.distinct;
        };
        knows = λ x k. (
          omega (arith, k.0),
          All-append (Remembers x) registry.entries _ k.1
              (fresh-Remembers x registry.next_id entry k.0, tt),
        );
        learns = tt;
        ordered = tt;
        after = λ x k. tt;
      }
