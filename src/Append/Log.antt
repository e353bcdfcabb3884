-- ===== src/Append/Log.antt =====
-- Lemmas on the event log that src/append.rs writes: versions, positions and identities.
use fossic.Prelude.{
  ℕ, suc, ◌<◌, ◌≤◌, ◌≡◌, refl, sym, ◌∙◌, ap, ap₂, subst, Bool, true, false, ◌&&◌, List, [], ◌∷◌,
  ◌++◌, arith, All, All-append, All-mono, any, any-append, ◌==◌, Bool-cases, inl, inr,
}
use fossic.Prelude.Lex.{same, same_iff}
use fossic.Text.{Str}
use fossic.Tables.{StoredEvent}
use fossic.EventId.{EventId}
use fossic.Append.{at_stream, next_version, conflicts}

-- The next version of a stream is above all its versions.
pub below_next :
    (s b : Str) (es : List StoredEvent)
    → All (λ e. at_stream s b e ≡ true → e.version < next_version s b es) es
unfolding next_version
below_next s b [] = tt
below_next s b (e ∷ es) = (
  (λ h. ground arith),
  All-mono (λ f. at_stream s b f ≡ true → f.version < next_version s b es) _ es
      (λ f below h. ground (arith, below h)) (below_next s b es),
)

pub next_version-push_other :
    (s b : Str) (es : List StoredEvent) (new : StoredEvent)
    → at_stream s b new ≡ false
    → next_version s b (es ++ new ∷ []) ≡ next_version s b es
unfolding next_version
next_version-push_other s b [] new h = ground (arith, h)
next_version-push_other s b (e ∷ es) new h = rw (next_version-push_other s b es new h) refl

next_version-cons_le :
    (s b : Str) (e : StoredEvent) (es : List StoredEvent)
    → next_version s b es ≤ next_version s b (e ∷ es)
unfolding next_version
next_version-cons_le s b e es = ground arith

next_version-push_here :
    (s b : Str) (es : List StoredEvent) (new : StoredEvent)
    → at_stream s b new ≡ true
    → next_version s b es ≤ new.version
    → next_version s b (es ++ new ∷ []) ≡ suc new.version
unfolding next_version
next_version-push_here s b [] new h le = ground (arith, h)
next_version-push_here s b (e ∷ es) new h le =
    rw (next_version-push_here s b es new h (omega (arith, next_version-cons_le s b e es, le)))
      (ground arith)

-- An identity is in the log.
abbrev pub has_id : EventId → List StoredEvent → Bool
has_id id es = any (λ (e : StoredEvent). same e.id id) es

-- A stream has an event at a version.
abbrev pub has_version : Str → Str → ℕ → List StoredEvent → Bool
has_version s b v es = any (λ (e : StoredEvent). at_stream s b e && e.version == v) es

-- An event at the next version of its stream conflicts with the log only by its identity.
pub conflicts-at_next :
    (es : List StoredEvent) (new : StoredEvent)
    → All (λ e. at_stream new.stream_id new.branch e ≡ true → e.version < new.version) es
    → any (conflicts new) es ≡ has_id new.id es
conflicts-at_next [] new h = refl
conflicts-at_next (e ∷ es) new h = ground (arith, h.0, conflicts-at_next es new h.1)

pub any-conflicts :
    (es : List StoredEvent) (new : StoredEvent)
    → new.version ≡ next_version new.stream_id new.branch es
    → any (conflicts new) es ≡ has_id new.id es
any-conflicts es new h = conflicts-at_next es new (
    subst (λ v. All (λ e. at_stream new.stream_id new.branch e ≡ true → e.version < v) es) (sym h)
      (below_next new.stream_id new.branch es))

-- No two rows share an identity or a position.
abbrev pub IsUnique : List StoredEvent → Type 0
IsUnique [] = Unit
IsUnique (e ∷ es) = All (λ f. conflicts f e ≡ false) es × IsUnique es

-- The versions of every stream start at 0 and have no gaps.
abbrev pub IsDense : List StoredEvent → Type 0
IsDense es = (s b : Str) (v : ℕ) → v < next_version s b es → has_version s b v es ≡ true

pub at_stream-eq :
    (s b : Str) (e : StoredEvent) → at_stream s b e ≡ true → (e.stream_id ≡ s) × (e.branch ≡ b)
at_stream-eq s b e h =
    (ground (arith, h, same_iff e.stream_id s), ground (arith, h, same_iff e.branch b))

conflicts-sym : (e f : StoredEvent) → conflicts f e ≡ conflicts e f
conflicts-sym e f = ground (
  arith,
  same_iff e.id f.id,
  same_iff f.id e.id,
  same_iff e.stream_id f.stream_id,
  same_iff f.stream_id e.stream_id,
  same_iff e.branch f.branch,
  same_iff f.branch e.branch,
)

pub IsUnique-push :
    (es : List StoredEvent) (new : StoredEvent)
    → IsUnique es
    → any (conflicts new) es ≡ false
    → IsUnique (es ++ new ∷ [])
IsUnique-push [] new u h = (tt, tt)
IsUnique-push (e ∷ es) new u h = (
  All-append (λ f. conflicts f e ≡ false) es (new ∷ []) u.0 (ground (arith, h), tt),
  IsUnique-push es new u.1 (ground (arith, h)),
)

next_version-push :
    (s b : Str) (es : List StoredEvent) (new : StoredEvent)
    → at_stream s b new ≡ true
    → new.version ≡ next_version new.stream_id new.branch es
    → (next_version s b (es ++ new ∷ []) ≡ suc (next_version s b es))
      × (new.version ≡ next_version s b es)
next_version-push s b es new here h =
    let (es_s, es_b) = at_stream-eq s b new here in
    let at : new.version ≡ next_version s b es = h ∙ ap₂ (λ s b. next_version s b es) es_s es_b in
    (next_version-push_here s b es new here (omega (arith, at)) ∙ ap suc at, at)

pub IsDense-push :
    (es : List StoredEvent) (new : StoredEvent)
    → IsDense es
    → new.version ≡ next_version new.stream_id new.branch es
    → IsDense (es ++ new ∷ [])
IsDense-push es new d h s b v lt =
    any-append (λ (e : StoredEvent). at_stream s b e && e.version == v) es (new ∷ [])
    ∙ elim (Bool-cases (at_stream s b new)) [
      | inl here ↦
          (let (next, at) = next_version-push s b es new here h in
            ground (arith, next, at, lt, here, d s b v))
      | inr other ↦ ground (arith, lt, other, next_version-push_other s b es new other, d s b v)
    ]

pub next_version-grows :
    (s b : Str) (es : List StoredEvent) (new : StoredEvent)
    → new.version ≡ next_version new.stream_id new.branch es
    → next_version s b es ≤ next_version s b (es ++ new ∷ [])
next_version-grows s b es new at = elim (Bool-cases (at_stream s b new)) [
  | inl here ↦ omega (arith, (next_version-push s b es new here at).0)
  | inr other ↦ omega (arith, next_version-push_other s b es new other)
]
