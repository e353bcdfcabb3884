-- ===== src/Subscriptions/Seed.antt =====
-- `Store::subscribe` of src/store.rs: the cursors that a new subscription starts with.
use fossic.Prelude.{
  ℕ, zero, suc, ◌<◌, ◌≡◌, ◌≢◌, refl, ap₂, subst, true, false, List, [], ◌∷◌, none, some, any, keep,
  map, All, All-mono, All-append, All-In, In, Bool-cases, inl, inr, if◌then◌else◌, arith, ◌==◌,
}
use fossic.Prelude.Lex.{same, same_iff, same_refl}
use fossic.Text.{Str, split}
use fossic.Text.Split.{split-injective, All-split}
use fossic.Glob.{star, double_star, matches}
use fossic.Glob.Meaning.{Matches, stop, one, leave, matches_iff}
use fossic.Tables.{StoredEvent, Db}
use fossic.Append.{at_stream, next_version}
use fossic.Append.Log.{below_next}
use fossic.Subscriptions.{
  SubscribeQuery, SubscriptionMode, synchronous_mode, post_commit_mode, SubscriptionHandler,
  Position, StreamCursor, is_past, position_of, is_exact, Channels, SubscriptionRegistry, subscribe,
  make_kind, effective_cursor,
}
use fossic.Subscriptions.Runs.{queued, Before, Op, run}
use fossic.Subscriptions.Steps.{HasSeen, Remembers}
use fossic.Subscriptions.Keeps.{IsValid, Knows, subscribe-Keeps}
use fossic.Subscriptions.Order.{run-Before}

-- `COALESCE(MAX(version), -1)`, from the version after it
abbrev pub newest : ℕ → Position
newest zero = none
newest (suc version) = some version

-- `GROUP BY stream_id`: the streams of the rows, each once
unfoldable pub distinct : List Str → List Str
distinct [] = []
distinct (s ∷ ss) = let rest = distinct ss in if any (same s) rest then rest else s ∷ rest

unfoldable pub streams_on : Str → List StoredEvent → List Str
unfolding distinct
streams_on branch events = distinct (
    map (λ (e : StoredEvent). e.stream_id)
      (keep (λ (e : StoredEvent). same e.branch branch) events))

abbrev pub seed_of : Db → Str → Str → StreamCursor
seed_of db branch stream_id = record {
  stream_id = stream_id;
  branch = branch;
  position = newest (next_version stream_id branch db.events);
}

unfoldable pub seed : Db → SubscribeQuery → List StreamCursor
unfolding streams_on
seed db q =
    map (seed_of db q.branch) (keep (matches q.stream_pattern) (streams_on q.branch db.events))

module _ {Chan : Type 0} (channels : Channels Chan) where
  unfoldable pub subscribe_store :
      Db
      → SubscriptionRegistry Chan
      → SubscribeQuery
      → SubscriptionMode
      → SubscriptionHandler
      → ℕ × SubscriptionRegistry Chan
  unfolding seed subscribe
  subscribe_store db registry q mode handler =
      if is_exact q.stream_pattern
      then subscribe channels registry q mode
          (newest (next_version q.stream_pattern q.branch db.events)) [] handler
      else subscribe channels registry q mode none (seed db q) handler

newest-is_past : (n v : ℕ) → v < n → is_past (newest n) v ≡ false
newest-is_past zero v lt = absurd (omega arith)
newest-is_past (suc n) v lt = ground arith

any-distinct :
    (s : Str) (ss : List Str) → any (same s) ss ≡ true → any (same s) (distinct ss) ≡ true
unfolding distinct
any-distinct s [] h = absurd (cc)
any-distinct s (t ∷ ss) h = ground (arith, h, any-distinct s ss, same_iff s t)

-- A stream that has an event on the branch is among the streams of the rows.
any-streams_on :
    (branch : Str) (es : List StoredEvent) (e : StoredEvent)
    → In e es
    → e.branch ≡ branch
    → any (same e.stream_id) (streams_on branch es) ≡ true
unfolding streams_on
any-streams_on branch es e i b =
    any-distinct e.stream_id
      (map (λ (e : StoredEvent). e.stream_id) (keep (λ (e : StoredEvent). same e.branch branch) es))
      (among es i)
  where
    among :
        (es : List StoredEvent)
        → In e es
        → any (same e.stream_id) (
            map
              (λ (e : StoredEvent). e.stream_id)
              (keep (λ (e : StoredEvent). same e.branch branch) es))
          ≡ true
    among [] i = absurd i
    among (x ∷ es) (inl here) =
        rw (← here) (rw b (rw (same_refl branch) (rw (same_refl e.stream_id) refl)))
    among (x ∷ es) (inr later) = ground (arith, among es later)

position_of-seed :
    (db : Db) (branch : Str) (pattern s : Str) (ss : List Str)
    → any (same s) ss ≡ true
    → matches pattern s ≡ true
    → position_of (map (seed_of db branch) (keep (matches pattern) ss)) s branch
      ≡ newest (next_version s branch db.events)
unfolding position_of
position_of-seed db branch pattern s [] h m = absurd (cc)
position_of-seed db branch pattern s (t ∷ ss) h m = elim (Bool-cases (same s t)) [
  | inl e ↦
      (let eq : s ≡ t = (same_iff s t).0 e in
        rw (← eq) (rw m (rw (same_refl s, same_refl branch) refl)))
  | inr e ↦ elim (Bool-cases (matches pattern t)) [
    | inl mt ↦ rw mt (rw (other t s e) (position_of-seed db branch pattern s ss (rw e at h) m))
    | inr mt ↦ rw mt (position_of-seed db branch pattern s ss (rw e at h) m)
  ]
]
  where
    other : (t s : Str) → same s t ≡ false → same t s ≡ false
    other t s e = ground (arith, same_iff s t, same_iff t s)

-- A pattern without `*` matches itself only.
no_star : (p : Str) → All (λ c. (c == b'*') ≡ false) p → (p ≢ star) × (p ≢ double_star)
no_star [] h = ((λ e. cc), (λ e. cc))
no_star (c ∷ p) h = ((λ e. ground arith), (λ e. ground arith))

Matches-literal :
    (ps xs : List Str) → All (All (λ c. (c == b'*') ≡ false)) ps → Matches ps xs → ps ≡ xs
Matches-literal _ _ h stop = refl
Matches-literal (p ∷ ps) (x ∷ xs) h (one _ (inl star_p) m) = absurd ((no_star p h.0).0 star_p)
Matches-literal (p ∷ ps) (x ∷ xs) h (one _ (inr e) m) = ap₂ ◌∷◌ e (Matches-literal ps xs h.1 m)
Matches-literal (p ∷ ps) xs h (leave e m) = absurd ((no_star p h.0).1 e)
Matches-literal (p ∷ ps) (x ∷ xs) h (Matches.take e m) = absurd ((no_star p h.0).1 e)

exact-literal : (p : Str) → any (λ c. c == b'*') p ≡ false → All (λ c. (c == b'*') ≡ false) p
exact-literal [] h = tt
exact-literal (c ∷ p) h = (ground (arith, h), exact-literal p (ground (arith, h)))

pub matches-exact :
    (pattern s : Str) → is_exact pattern ≡ true → matches pattern s ≡ true → pattern ≡ s
matches-exact pattern s exact m = split-injective pattern s (
    Matches-literal (split pattern) (split s)
      (All-split (λ c. (c == b'*') ≡ false) pattern (exact-literal pattern (ground (arith, exact))))
      ((matches_iff pattern s).0 m))

below-next_version :
    (db : Db) (e : StoredEvent)
    → In e db.events
    → e.version < next_version e.stream_id e.branch db.events
below-next_version db e i =
    All-In
      (λ f.
        at_stream e.stream_id e.branch f ≡ true
        → f.version < next_version e.stream_id e.branch db.events)
      e db.events (below_next e.stream_id e.branch db.events) i
      (rw (same_refl e.stream_id, same_refl e.branch) refl)

module _ {Chan : Type 0} (channels : Channels Chan) where
  make_kind-HasSeen :
      (pattern : Str) (mode : SubscriptionMode) (cursor : Position) (cursors : List StreamCursor)
      (handler : SubscriptionHandler) (e : StoredEvent)
      → is_past (effective_cursor pattern cursor cursors e.stream_id e.branch) e.version ≡ false
      → HasSeen pattern (make_kind channels mode cursor cursors handler) e
  unfolding make_kind
  make_kind-HasSeen pattern synchronous_mode cursor cursors handler e h = tt
  make_kind-HasSeen pattern (post_commit_mode n) cursor cursors handler e h = h

  -- The entry of a new subscription has seen an event if its first cursors have.
  subscribe-Knows :
      (registry : SubscriptionRegistry Chan) (q : SubscribeQuery) (mode : SubscriptionMode)
      (cursor : Position) (cursors : List StreamCursor) (handler : SubscriptionHandler)
      (e : StoredEvent)
      → IsValid registry
      → is_past (effective_cursor q.stream_pattern cursor cursors e.stream_id e.branch) e.version
        ≡ false
      → (let (id, registry') = subscribe channels registry q mode cursor cursors handler in
          IsValid registry' × Knows registry' (queued id e))
  unfolding subscribe
  subscribe-Knows registry q mode cursor cursors handler e v h = (
    (subscribe-Keeps channels registry q mode cursor cursors handler v).valid,
    (
      omega arith,
      All-append (Remembers (queued registry.next_id e)) registry.entries _
          (All-mono (λ p. p.0 < registry.next_id) _ registry.entries
            (λ p lt same. absurd (omega (arith, lt, same))) v.below)
          ((λ _. make_kind-HasSeen q.stream_pattern mode cursor cursors handler e h), tt),
    ),
  )

  subscribe_store-Knows :
      (db : Db) (registry : SubscriptionRegistry Chan) (q : SubscribeQuery)
      (mode : SubscriptionMode) (handler : SubscriptionHandler) (e : StoredEvent)
      → IsValid registry
      → In e db.events
      → e.branch ≡ q.branch
      → matches q.stream_pattern e.stream_id ≡ true
      → (let (id, registry') = subscribe_store channels db registry q mode handler in
          IsValid registry' × Knows registry' (queued id e))
  unfolding subscribe_store seed
  subscribe_store-Knows db registry q mode handler e v i b m =
      let behind : is_past (newest (next_version e.stream_id q.branch db.events)) e.version
          ≡ false =
        newest-is_past _ e.version (
          subst (λ x. e.version < next_version e.stream_id x db.events) b
            (below-next_version db e i)) in
      elim (Bool-cases (is_exact q.stream_pattern)) [
        | inl exact ↦ rw exact (
            subscribe-Knows registry q mode
              (newest (next_version q.stream_pattern q.branch db.events)) [] handler e v
              (rw exact (rw (matches-exact q.stream_pattern e.stream_id exact m) behind)))
        | inr glob ↦ rw glob (
            subscribe-Knows registry q mode none (seed db q) handler e v (
              rw glob (
                rw b (
                  rw
                    (position_of-seed db q.branch q.stream_pattern e.stream_id
                      (streams_on q.branch db.events) (any-streams_on q.branch db.events e i b) m)
                    behind))))
      ]

  -- A subscription that `Store::subscribe` adds to a registry with valid ids, in any run from there on,
  -- gets into its channel no event of the history: each event that it gets is later than all events of
  -- its stream and branch that were in the log when it subscribed, in streams that its pattern matches
  -- and on the branch that it asks for.
  pub subscribe_store-Before :
      (db : Db) (registry : SubscriptionRegistry Chan) (q : SubscribeQuery)
      (mode : SubscriptionMode) (handler : SubscriptionHandler) (ops : List (Op Chan))
      (e : StoredEvent)
      → IsValid registry
      → In e db.events
      → e.branch ≡ q.branch
      → matches q.stream_pattern e.stream_id ≡ true
      → (let (id, registry') = subscribe_store channels db registry q mode handler in
          All (Before (queued id e)) (run channels ops registry'))
  subscribe_store-Before db registry q mode handler ops e v i b m =
      let (v', k) = subscribe_store-Knows db registry q mode handler e v i b m in
      let (id, registry') = subscribe_store channels db registry q mode handler in
      run-Before channels ops registry' (queued id e) v' k
