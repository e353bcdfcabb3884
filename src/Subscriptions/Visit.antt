-- ===== src/Subscriptions/Visit.antt =====
-- The passes of the dispatches of src/subscriptions.rs over the entries of the registry.
use fossic.Prelude.{
  ℕ, ◌≡◌, ◌≢◌, refl, Bool, true, false, none, some, List, [], ◌∷◌, map, All, All-mono, Bool-cases,
  inl, inr, arith,
}
use fossic.Prelude.Lex.{same_refl}
use fossic.Prelude.Order.{IsDistinct}
use fossic.Text.{Str}
use fossic.Tables.{StoredEvent}
use fossic.Subscriptions.{
  Position, StreamCursor, is_past, raise, is_cursor_of, position_of, raise_at, Offered,
  is_overflowed, SubscriberEntry, Entries, visit,
}

-- A raised cursor is past no less, and reaches the version.
pub raise-is_past : (p : Position) (v n : ℕ) → is_past p n ≡ false → is_past (raise p v) n ≡ false
raise-is_past none v n h = cc
raise-is_past (some p) v n h = ground arith

pub raise-reached : (p : Position) (v : ℕ) → is_past (raise p v) v ≡ false
raise-reached none v = ground arith
raise-reached (some p) v = ground arith

-- So it is with the cursor of a stream: it reaches the version,
pub position_of-raise_at :
    (s b : Str) (v : ℕ) (cs : List StreamCursor)
    → is_past (position_of (raise_at s b v cs) s b) v ≡ false
unfolding position_of raise_at
position_of-raise_at s b v [] = rw (same_refl s, same_refl b) (raise-reached none v)
position_of-raise_at s b v (c ∷ cs) = elim (Bool-cases (is_cursor_of s b c)) [
  | inl e ↦ rw e (rw e (raise-reached c.position v))
  | inr e ↦ rw e (rw e (position_of-raise_at s b v cs))
]

-- and no cursor is past more.
pub raise_at-is_past :
    (s b : Str) (v : ℕ) (cs : List StreamCursor) (s' b' : Str) (n : ℕ)
    → is_past (position_of cs s' b') n ≡ false
    → is_past (position_of (raise_at s b v cs) s' b') n ≡ false
unfolding position_of raise_at
raise_at-is_past s b v [] s' b' n h = cc
raise_at-is_past s b v (c ∷ cs) s' b' n h = elim (Bool-cases (is_cursor_of s b c)) [
  | inl e ↦ rw e (elim (Bool-cases (is_cursor_of s' b' c)) [
    | inl t ↦ rw t (raise-is_past c.position v n (rw t at h))
    | inr t ↦ rw t (rw t at h)
  ])
  | inr e ↦ rw e (elim (Bool-cases (is_cursor_of s' b' c)) [
    | inl t ↦ rw t (rw t at h)
    | inr t ↦ rw t (raise_at-is_past s b v cs s' b' n (rw t at h))
  ])
]

pub All-map {ℓ κ} :
    {A : Type ℓ} (P : A → Type κ) (f : A → A) (xs : List A)
    → ((x : A) → P x → P (f x))
    → All P xs
    → All P (map f xs)
All-map P f [] keep h = tt
All-map P f (x ∷ xs) keep h = (keep x h.0, All-map P f xs keep h.1)

pub both {ℓ κ μ} :
    {A : Type ℓ} (P : A → Type κ) (Q : A → Type μ) (xs : List A)
    → All P xs
    → All Q xs
    → All (λ a. P a × Q a) xs
both P Q [] hp hq = tt
both P Q (x ∷ xs) hp hq = ((hp.0, hq.0), both P Q xs hp.1 hq.1)

module _ {Chan : Type 0} where
  module _ (offer : SubscriberEntry Chan → SubscriberEntry Chan × Offered)
      (is_sent : Offered → Bool) (event : StoredEvent) where
    pub All-visit {κ} :
        (P : ℕ × SubscriberEntry Chan → Type κ) (es : Entries Chan)
        → ((i : ℕ) (e : SubscriberEntry Chan) → P (i, e) → P (i, (offer e).0))
        → All P es
        → All P (visit offer is_sent event es).0
    unfolding visit
    All-visit P [] keep h = tt
    All-visit P ((i, e) ∷ es) keep h = (keep i e h.0, All-visit P es keep h.1)

    pub visit-IsDistinct :
        (es : Entries Chan)
        → IsDistinct (λ p. p.0) es
        → IsDistinct (λ p. p.0) (visit offer is_sent event es).0
    unfolding visit
    visit-IsDistinct [] d = tt
    visit-IsDistinct ((i, e) ∷ es) d =
        (All-visit (λ p. p.0 ≢ i) es (λ j f h. h) d.0, visit-IsDistinct es d.1)

    -- What holds of every entry that takes the event holds of what is handed on.
    pub All-delivered {κ} :
        (R : ℕ → Type κ) (es : Entries Chan)
        → All (λ p. is_sent (offer p.1).1 ≡ true → R p.0) es
        → All (λ d. R d.0 × (d.1 ≡ event)) (visit offer is_sent event es).1.0
    unfolding visit
    All-delivered R [] h = tt
    All-delivered R ((i, e) ∷ es) h = elim (Bool-cases (is_sent (offer e).1)) [
      | inl t ↦ rw t ((h.0 t, refl), All-delivered R es h.1)
      | inr t ↦ rw t (All-delivered R es h.1)
    ]

    pub All-degraded {κ} :
        (R : ℕ → Type κ) (es : Entries Chan)
        → All (λ p. is_overflowed (offer p.1).1 ≡ true → R p.0) es
        → All R (visit offer is_sent event es).1.1
    unfolding visit
    All-degraded R [] h = tt
    All-degraded R ((i, e) ∷ es) h = elim (Bool-cases (is_overflowed (offer e).1)) [
      | inl t ↦ rw t (h.0 t, All-degraded R es h.1)
      | inr t ↦ rw t (All-degraded R es h.1)
    ]

    pub delivered-IsDistinct :
        (es : Entries Chan)
        → IsDistinct (λ p. p.0) es
        → IsDistinct (λ d. d.0) (visit offer is_sent event es).1.0
    unfolding visit
    delivered-IsDistinct [] d = tt
    delivered-IsDistinct ((i, e) ∷ es) d = elim (Bool-cases (is_sent (offer e).1)) [
      | inl t ↦ rw t (
        All-mono _ (λ p. p.0 ≢ i) _ (λ p h. h.0)
            (All-delivered (λ j. j ≢ i) es (All-mono (λ p. p.0 ≢ i) _ es (λ p h t. h) d.0)),
        delivered-IsDistinct es d.1,
      )
      | inr t ↦ rw t (delivered-IsDistinct es d.1)
    ]

    pub degraded-IsDistinct :
        (es : Entries Chan)
        → IsDistinct (λ p. p.0) es
        → IsDistinct (λ i. i) (visit offer is_sent event es).1.1
    unfolding visit
    degraded-IsDistinct [] d = tt
    degraded-IsDistinct ((i, e) ∷ es) d = elim (Bool-cases (is_overflowed (offer e).1)) [
      | inl t ↦ rw t (
        All-degraded (λ j. j ≢ i) es (All-mono (λ p. p.0 ≢ i) _ es (λ p h t. h) d.0),
        degraded-IsDistinct es d.1,
      )
      | inr t ↦ rw t (degraded-IsDistinct es d.1)
    ]

    -- Where an entry that overflows is marked, every entry with a reported id is marked.
    pub degraded-marked :
        (es : Entries Chan)
        → ((e : SubscriberEntry Chan)
            → is_overflowed (offer e).1 ≡ true
            → (offer e).0.degraded ≡ true)
        → IsDistinct (λ p. p.0) es
        → All
            (λ i. All (λ p. p.0 ≡ i → p.1.degraded ≡ true) (visit offer is_sent event es).0)
            (visit offer is_sent event es).1.1
    unfolding visit
    degraded-marked [] mark d = tt
    degraded-marked ((i, e) ∷ es) mark d =
        let others =
          All-mono
            (λ j.
              All (λ p. p.0 ≡ j → p.1.degraded ≡ true) (visit offer is_sent event es).0 × (j ≢ i))
            (λ j.
              (i ≡ j → (offer e).0.degraded ≡ true)
              × All (λ p. p.0 ≡ j → p.1.degraded ≡ true) (visit offer is_sent event es).0)
            (visit offer is_sent event es).1.1 (λ j h. ((λ same. absurd (h.1 (cc))), h.0))
            (both (λ j. All (λ p. p.0 ≡ j → p.1.degraded ≡ true) (visit offer is_sent event es).0)
              (λ j. j ≢ i) (visit offer is_sent event es).1.1 (degraded-marked es mark d.1)
              (All-degraded (λ j. j ≢ i) es (All-mono (λ p. p.0 ≢ i) _ es (λ p h t. h) d.0))) in
        elim (Bool-cases (is_overflowed (offer e).1)) [
          | inl t ↦ rw t (
            (
              (λ _. mark e t),
              All-mono (λ p. p.0 ≢ i) _ _ (λ p h same. absurd (h same))
                  (All-visit (λ p. p.0 ≢ i) es (λ j f h. h) d.0),
            ),
            others,
          )
          | inr t ↦ rw t others
        ]
