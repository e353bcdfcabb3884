-- ===== src/Error.antt =====
-- src/error.rs: every way in which an operation of the store fails, and `Result`.
-- A message that the source formats is kept as its parts. What a third-party library puts into its
-- error is kept as a text.
use fossic.Prelude.{ℕ, ◌≡◌, refl, ◌⊎◌, inl, inr}
use fossic.Text.{Str}

pub data CceError : Type 0 where
  u64_overflow : ℕ → CceError
  duplicate_keys : CceError
  string_too_large : ℕ → CceError

-- The texts that the source builds for `reason` and the like.
pub data Reason : Type 0 where
  literal : Str → Reason
  expected_hex_chars : ℕ → Reason
  invalid_hex_char : ℕ → Reason
  exceeds_character_limit : ℕ → Reason
  disallowed_character : ℕ → Reason
  too_many_segments : ℕ → ℕ → Reason
  max_chars : ℕ → ℕ → Reason
  invalid_character : ℕ → Reason
  already_dead_end : Str → Reason
  already_promoted : Str → Reason

pub data BudgetKind : Type 0 where
  result_count byte_size : BudgetKind

pub data Error : Type 0 where
  stream_not_declared : Str → Error
  invalid_stream_id : Str → Reason → Error
  invalid_indexed_tags : Str → Error
  invalid_event_id : Reason → Error
  store_not_found : Str → Error
  schema_mismatch : ℕ → ℕ → Error
  not_implemented : Str → Error
  branch_not_found : Str → Str → Error
  branch_lifecycle_error : Reason → Error
  invalid_branch_id : Str → Reason → Error
  invalid_alternatives : Error
  reducer_pattern_ambiguous : Str → Str → Error
  reducer_not_found : Str → Error
  reducer_not_found_by_name : Str → Error
  reducer_error : Str → Error
  no_events_to_snapshot : Str → Str → Error
  purge_confirmation_error : Str → Error
  event_not_found : Str → Error
  upcaster_chain_gap : Str → ℕ → Error
  cce : CceError → Error
  sqlite : Str → Error
  msgpack_encode : Str → Error
  msgpack_decode : Str → Error
  io : Str → Error
  pool_exhausted : ℕ → ℕ → Error
  read_budget_exceeded : BudgetKind → ℕ → Error
  reducer_panicked : Str → Str → Str → Str → Error
  internal : Str → Error
  snapshot_policy_invalid : Str → Error

pub data Result {ℓ} (E : Type 0) (A : Type ℓ) : Type ℓ where
  ok : A → Result E A
  err : E → Result E A

-- `?`
infixl 5 ◌>>=◌
abbrev pub ◌>>=◌ {ℓ κ} :
    {E : Type 0} {A : Type ℓ} {B : Type κ} → Result E A → (A → Result E B) → Result E B
ok a >>= f = f a
err e >>= f = err e

abbrev pub map_ok {ℓ κ} : {E : Type 0} {A : Type ℓ} {B : Type κ} → (A → B) → Result E A → Result E B
map_ok f (ok a) = ok (f a)
map_ok f (err e) = err e

abbrev pub map_err {ℓ} : {E F : Type 0} {A : Type ℓ} → (E → F) → Result E A → Result F A
map_err f (ok a) = ok a
map_err f (err e) = err (f e)

module _ {ℓ κ} {E : Type 0} {A : Type ℓ} {B : Type κ} where
  -- Inversion of a successful chain.
  pub >>=-eq-ok :
      (r : Result E A) (next : A → Result E B) {y : B}
      → (r >>= next) ≡ ok y
      → (x : A) × (r ≡ ok x) × (next x ≡ ok y)
  >>=-eq-ok (err _) next failed = cc
  >>=-eq-ok (ok x) next done = (x, refl, done)

  pub >>=-cong :
      (m : Result E A) (f g : A → Result E B) → ((a : A) → f a ≡ g a) → (m >>= f) ≡ (m >>= g)
  >>=-cong (ok a) f g h = h a
  >>=-cong (err e) f g h = refl

pub Result-cases {ℓ} :
    {E : Type 0} {A : Type ℓ} (r : Result E A) → ((a : A) × (r ≡ ok a)) ⊎ ((e : E) × (r ≡ err e))
Result-cases (ok a) = inl (a, refl)
Result-cases (err e) = inr (e, refl)

pub ok-injective {ℓ} :
    {E : Type 0} {A : Type ℓ} {a b : A} → ◌≡◌ {A = Result E A} (ok a) (ok b) → a ≡ b
ok-injective h = cc

pub map_ok-eq-ok {ℓ κ} :
    {E : Type 0} {A : Type ℓ} {B : Type κ} (f : A → B) (m : Result E A) {b : B}
    → map_ok f m ≡ ok b
    → (a : A) × (m ≡ ok a) × (f a ≡ b)
map_ok-eq-ok f (ok a) h = (a, refl, ok-injective h)
map_ok-eq-ok f (err e) h = cc
