-- ===== src/Upcasters/Chains.antt =====
-- Chains of the upcasters of src/upcasters.rs, the loop over them, and the transforms of src/transforms.rs.
use fossic.Prelude.{
  ℕ, zero, suc, ◌-◌, ◌<◌, ◌≡◌, ◌≢◌, ◌↔◌, refl, ap, subst, Bool, true, false, List, [], ◌∷◌, ◌++◌,
  Option, none, some, find, keep, All, Bool-cases, Option-cases, inl, inr, arith, if◌then◌else◌,
}
use fossic.Prelude.Words.{Bytes}
use fossic.Text.{Str}
use fossic.Error.{Error, upcaster_chain_gap, Result, ok, err, ◌>>=◌, Result-cases}
use fossic.Upcasters.{
  UpcasterEntry, UpcasterRegistry, entries_of, starts_at, entry_from, has_higher, upcast_from,
  is_none, apply, TransformEntry, pattern_matches, apply_transforms,
}
use fossic.Glob.{matches}

-- The first entry that starts at a version.
abbrev pub IsFirst : List UpcasterEntry → ℕ → UpcasterEntry → Type 0
IsFirst entries v e =
    (before : List UpcasterEntry) × (after : List UpcasterEntry) × (entries ≡ before ++ e ∷ after)
    × All (λ (x : UpcasterEntry). x.from ≢ v) before
    × (e.from ≡ v)

-- A chain of upcasters from a version, each the first that starts where the one before it leads, to a
-- version above all that an upcaster starts from.
pub data Upcasts (entries : List UpcasterEntry) : ℕ → Bytes → Bytes → Type 0 where
  finished :
      (v : ℕ) (payload : Bytes)
      → All (λ (e : UpcasterEntry). e.from < v) entries
      → Upcasts entries v payload payload
  upcasted :
      (v : ℕ) (payload payload' out : Bytes) (e : UpcasterEntry)
      → IsFirst entries v e
      → e.upcast payload ≡ ok payload'
      → Upcasts entries e.to payload' out
      → Upcasts entries v payload out

none_from :
    (v : ℕ) (entries : List UpcasterEntry)
    → entry_from v entries ≡ none
    → has_higher v entries ≡ false
    → All (λ (e : UpcasterEntry). e.from < v) entries
unfolding entry_from has_higher
none_from v [] h k = tt
none_from v (e ∷ entries) h k = elim (Bool-cases (starts_at v e)) [
  | inl t ↦ absurd (found (rw t at h))
  | inr t ↦ (ground (arith, t, k), none_from v entries (rw t at h) (ground (arith, k)))
]
  where
    found : some e ≢ none
    found h = cc

all_below :
    (v : ℕ) (entries : List UpcasterEntry)
    → All (λ (e : UpcasterEntry). e.from < v) entries
    → (entry_from v entries ≡ none) × (has_higher v entries ≡ false)
unfolding entry_from has_higher
all_below v [] h = (refl, refl)
all_below v (e ∷ entries) h =
    let other : starts_at v e ≡ false = ground (arith, h.0) in
    let (missing, top) = all_below v entries h.1 in (rw other missing, ground (arith, h.0, top))

entry_from-IsFirst :
    (v : ℕ) (entries : List UpcasterEntry) (e : UpcasterEntry)
    → entry_from v entries ≡ some e
    → IsFirst entries v e
unfolding entry_from
entry_from-IsFirst v [] e h = absurd (cc)
entry_from-IsFirst v (x ∷ entries) e h = elim (Bool-cases (starts_at v x)) [
  | inl t ↦
      (let eq : some x ≡ some e = rw t at h in
        let at : x ≡ e = cc in
        (
          [],
          entries,
          ap (λ y. y ∷ entries) at,
          tt,
          subst (λ (y : UpcasterEntry). y.from ≡ v) at (ground (arith, t)),
        ))
  | inr t ↦
      (let (before, after, split, others, at) = entry_from-IsFirst v entries e (rw t at h) in
        (x ∷ before, after, ap (λ l. x ∷ l) split, (ground (arith, t), others), at))
]

IsFirst-entry_from :
    (v : ℕ) (entries : List UpcasterEntry) (e : UpcasterEntry)
    → IsFirst entries v e
    → entry_from v entries ≡ some e
unfolding entry_from
IsFirst-entry_from v entries e (before, after, split, others, at) = rw split (past before others)
  where
    past :
        (before : List UpcasterEntry)
        → All (λ (x : UpcasterEntry). x.from ≢ v) before
        → find (starts_at v) (before ++ e ∷ after) ≡ some e
    past [] others = let here : starts_at v e ≡ true = ground (arith, at) in rw here refl
    past (x ∷ before) (ne, others) =
        let other : starts_at v x ≡ false = ground (arith, ne) in rw other (past before others)

upcast_from_sound :
    (fuel : ℕ) (t : Str) (entries : List UpcasterEntry) (v : ℕ) (payload out : Bytes)
    → upcast_from fuel t entries v payload ≡ some (ok out)
    → Upcasts entries v payload out
unfolding upcast_from
upcast_from_sound zero t entries v payload out h = absurd (cc)
upcast_from_sound (suc fuel) t entries v payload out h =
    elim (Option-cases (entry_from v entries)) [
      | inl missing ↦ elim (Bool-cases (has_higher v entries)) [
        | inl gap ↦ absurd (failed (rw (upcast_from, missing, gap) at h))
        | inr top ↦
            subst (Upcasts entries v payload) (given (rw (upcast_from, missing, top) at h))
              (finished v payload (none_from v entries missing top))
      ]
      | inr (e, found) ↦ elim (Result-cases (e.upcast payload)) [
        | inl (payload', done) ↦
            upcasted v payload payload' out e (entry_from-IsFirst v entries e found) done (
              upcast_from_sound fuel t entries e.to payload' out
                (rw (upcast_from, found, done) at h))
        | inr (x, wrong) ↦ absurd (failed (rw (upcast_from, found, wrong) at h))
      ]
    ]
  where
    given :
        {l l' : Bytes} → ◌≡◌ {A = Option (Result Error Bytes)} (some (ok l)) (some (ok l')) → l ≡ l'
    given h = cc

    failed :
        {e : Error} {l : Bytes} → ◌≢◌ {A = Option (Result Error Bytes)} (some (err e)) (some (ok l))
    failed h = cc

upcast_from_complete :
    (t : Str) (entries : List UpcasterEntry) (v : ℕ) (payload out : Bytes)
    → Upcasts entries v payload out
    → (fuel : ℕ) × (upcast_from fuel t entries v payload ≡ some (ok out))
unfolding upcast_from
upcast_from_complete t entries _ _ _ (finished v payload below) =
    let (missing, top) = all_below v entries below in (1, rw (upcast_from, missing, top) refl)
upcast_from_complete t entries _ _ _ (upcasted v payload payload' out e is_first done more) =
    let found = IsFirst-entry_from v entries e is_first in
    let (fuel, h) = upcast_from_complete t entries e.to payload' out more in
    (suc fuel, rw (upcast_from, found, done) h)

find-All :
    {A : Type 0} (P : A → Type 0) (test : A → Bool) (xs : List A) (x : A)
    → All P xs
    → find test xs ≡ some x
    → P x × (test x ≡ true)
find-All P test [] x h e = absurd (cc)
find-All P test (y ∷ xs) x h e = elim (Bool-cases (test y)) [
  | inl t ↦
      (let eq : some y ≡ some x = rw t at e in
        let at : y ≡ x = cc in (subst P at h.0, subst (λ z. test z ≡ true) at t))
  | inr t ↦ find-All P test xs x h.1 (rw t at e)
]

entry_from-All :
    (P : UpcasterEntry → Type 0) (v : ℕ) (entries : List UpcasterEntry) (e : UpcasterEntry)
    → All P entries
    → entry_from v entries ≡ some e
    → P e × (starts_at v e ≡ true)
unfolding entry_from
entry_from-All P v entries e all found = find-All P (starts_at v) entries e all found

upcast_from_ends :
    (fuel top : ℕ) (t : Str) (entries : List UpcasterEntry) (v : ℕ) (payload : Bytes)
    → All (λ (e : UpcasterEntry). (e.from < e.to) × (e.from < top)) entries
    → top - v < fuel
    → (r : Result Error Bytes) × (upcast_from fuel t entries v payload ≡ some r)
unfolding upcast_from
upcast_from_ends zero top t entries v payload up lt = absurd (omega arith)
upcast_from_ends (suc fuel) top t entries v payload up lt =
    elim (Option-cases (entry_from v entries)) [
      | inl missing ↦ elim (Bool-cases (has_higher v entries)) [
        | inl gap ↦ (err (upcaster_chain_gap t v), rw (upcast_from, missing, gap) refl)
        | inr none_higher ↦ (ok payload, rw (upcast_from, missing, none_higher) refl)
      ]
      | inr (e, found) ↦ elim (Result-cases (e.upcast payload)) [
        | inl (payload', done) ↦
            (let ((rises, below), at) = entry_from-All _ v entries e up found in
              let here : e.from ≡ v = ground arith in
              let (r, h) = upcast_from_ends fuel top t entries e.to payload' up (omega arith) in
              (r, rw (upcast_from, found, done) h))
        | inr (x, wrong) ↦ (err x, rw (upcast_from, found, wrong) refl)
      ]
    ]

-- No registered upcasters.
Upcasts-nil : (v : ℕ) (payload out : Bytes) → Upcasts [] v payload out → payload ≡ out
unfolding entry_from
Upcasts-nil v payload _ (finished _ _ _) = refl
Upcasts-nil v payload out (upcasted _ _ _ _ e is_first _ _) =
    absurd (missing (IsFirst-entry_from v [] e is_first))
  where
    missing : entry_from v [] ≢ some e
    missing h = cc

Upcasts-empty : (v : ℕ) (payload : Bytes) → Upcasts [] v payload payload
Upcasts-empty v payload = finished v payload tt

entries_sound :
    (fuel : ℕ) (t : Str) (entries : List UpcasterEntry) (v : ℕ) (payload out : Bytes)
    → (if is_none entries then some (ok payload) else upcast_from fuel t entries v payload)
      ≡ some (ok out)
    → Upcasts entries v payload out
entries_sound fuel t [] v payload out h =
    (let eq : payload ≡ out = cc in subst (Upcasts [] v payload) eq (Upcasts-empty v payload))
entries_sound fuel t (e ∷ entries) v payload out h =
    upcast_from_sound fuel t (e ∷ entries) v payload out h

entries_complete :
    (t : Str) (entries : List UpcasterEntry) (v : ℕ) (payload out : Bytes)
    → Upcasts entries v payload out
    → (fuel : ℕ) × ((if is_none entries
          then some (ok payload)
          else upcast_from fuel t entries v payload)
        ≡ some (ok out))
entries_complete t [] v payload out up = (0, ap (λ p. some (ok p)) (Upcasts-nil v payload out up))
entries_complete t (e ∷ entries) v payload out up =
    upcast_from_complete t (e ∷ entries) v payload out up

-- The transforms in turn.
unfoldable pub transform_all : Str → Bytes → List TransformEntry → Result Error Bytes
transform_all t payload [] = ok payload
transform_all t payload (e ∷ entries) =
    e.transform t payload >>= λ payload'. transform_all t payload' entries

-- Upcasters that lead to a higher version come to an end: with more fuel than there are versions from the
-- stored one to a version above all that upcasters start from, `apply` returns a payload or an error.
pub apply-ends :
    (fuel top : ℕ) (registry : UpcasterRegistry) (t : Str) (v : ℕ) (payload : Bytes)
    → All (λ (e : UpcasterEntry). (e.from < e.to) × (e.from < top)) (entries_of registry t)
    → top - v < fuel
    → (r : Result Error Bytes) × (apply fuel registry t v payload ≡ some r)
unfolding apply
apply-ends fuel top registry t v payload up lt =
    elim (Bool-cases (is_none (entries_of registry t))) [
      | inl e ↦ (ok payload, rw e refl)
      | inr e ↦
          (let (r, h) = upcast_from_ends fuel top t (entries_of registry t) v payload up lt in
            (r, rw (e, h) refl))
    ]

-- `apply` gives a payload, with some fuel, exactly when a chain of registered upcasters leads to it: from the
-- stored version each is the first in the order of the registry that starts at the version to which
-- the one before leads, and the last leads to a version above all that an upcaster starts from.
pub apply_iff :
    (registry : UpcasterRegistry) (t : Str) (v : ℕ) (payload out : Bytes)
    → ((fuel : ℕ) × (apply fuel registry t v payload ≡ some (ok out)))
      ↔ Upcasts (entries_of registry t) v payload out
unfolding apply
apply_iff registry t v payload out = (
  (λ h. entries_sound h.0 t (entries_of registry t) v payload out h.1),
  entries_complete t (entries_of registry t) v payload out,
)

-- Only the transforms whose pattern matches the stream act on a payload, in the order of their
-- registration.
pub apply_transforms-keep :
    (entries : List TransformEntry) (s t : Str) (payload : Bytes)
    → apply_transforms entries s t payload
      ≡ transform_all t payload (keep (λ (e : TransformEntry). matches e.pattern s) entries)
unfolding apply_transforms pattern_matches transform_all
apply_transforms-keep [] s t payload = refl
apply_transforms-keep (e ∷ entries) s t payload = elim (Bool-cases (matches e.pattern s)) [
  | inl m ↦ rw m (elim (Result-cases (e.transform t payload)) [
    | inl (p, h) ↦ rw h (apply_transforms-keep entries s t p)
    | inr (x, h) ↦ rw h refl
  ])
  | inr m ↦ rw m (apply_transforms-keep entries s t payload)
]
