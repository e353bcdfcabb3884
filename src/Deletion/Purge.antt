-- ===== src/Deletion/Purge.antt =====
-- The database after `purge_event_impl` of src/deletion.rs.
use fossic.Prelude.{
  find-append, ℕ, ◌≡◌, refl, sym, ◌∙◌, subst, Bool, true, false, not, ◌||◌, List, [], ◌∷◌, none,
  some, keep, find, any, All, All-keep, All-append, All-mono, Bool-cases, Option-cases, inl, inr,
  arith,
}
use fossic.Prelude.Lex.{same, same_iff, same_refl}
use fossic.Text.{Str}
use fossic.Prelude.Words.{Bytes}
use fossic.Error.{Error, cce, Result, ok, err, >>=-eq-ok, ok-injective, map_err}
use fossic.EventId.{EventId}
use fossic.Cce.{derive_event_id}
use fossic.Env.{Env}
use fossic.Tables.{StoredEvent, Db}
use fossic.Stream.{stream_exists}
use fossic.Stream.Registry.{exists-insert_stream}
use fossic.Append.{conflicts, insert_or_ignore}
use fossic.Append.Log.{has_id, IsUnique, IsUnique-push}
use fossic.Append.Outcome.{IsDeclared}
use fossic.Read.{read_one_impl}
use fossic.Deletion.{
  purge_confirm, purged_event_type, purged_row, purged_payload, purge_rows, purge_event_impl,
  system_stream,
}

IsUnique-keep :
    (test : StoredEvent → Bool) (es : List StoredEvent) → IsUnique es → IsUnique (keep test es)
IsUnique-keep test [] u = tt
IsUnique-keep test (e ∷ es) u = elim (Bool-cases (test e)) [
  | inl t ↦ rw t (All-keep (λ f. conflicts f e ≡ false) test es u.0, IsUnique-keep test es u.1)
  | inr t ↦ rw t (IsUnique-keep test es u.1)
]

IsUnique-insert_or_ignore :
    (row : StoredEvent) (es : List StoredEvent) → IsUnique es → IsUnique (insert_or_ignore row es).0
unfolding insert_or_ignore
IsUnique-insert_or_ignore row es u = elim (Bool-cases (any (conflicts row) es)) [
  | inl e ↦ rw e u
  | inr e ↦ rw e (IsUnique-push es row u e)
]

gone :
    (id : EventId) (es : List StoredEvent) → has_id id (keep (λ e. not (same e.id id)) es) ≡ false
gone id [] = refl
gone id (e ∷ es) = elim (Bool-cases (same e.id id)) [
  | inl h ↦ rw h (gone id es)
  | inr h ↦ rw h (rw h (gone id es))
]

-- Another event is found as before.
found_after_keep :
    (id x : EventId) (es : List StoredEvent)
    → same id x ≡ false
    → find (λ (e : StoredEvent). same e.id x) (keep (λ e. not (same e.id id)) es)
      ≡ find (λ (e : StoredEvent). same e.id x) es
found_after_keep id x [] other = refl
found_after_keep id x (e ∷ es) other = elim (Bool-cases (same e.id id)) [
  | inl h ↦
      (let apart : same e.id x ≡ false =
          ground (arith, h, other, same_iff e.id id, same_iff e.id x, same_iff id x) in
        rw (h, apart) (found_after_keep id x es other))
  | inr h ↦ rw h (ground (arith, found_after_keep id x es other))
]

found_after_insert :
    (x : EventId) (row : StoredEvent) (es : List StoredEvent) (e : StoredEvent)
    → find (λ (f : StoredEvent). same f.id x) es ≡ some e
    → find (λ (f : StoredEvent). same f.id x) (insert_or_ignore row es).0 ≡ some e
unfolding insert_or_ignore
found_after_insert x row es e h = elim (Bool-cases (any (conflicts row) es)) [
  | inl c ↦ rw c h
  | inr c ↦ rw c (find-append (λ (f : StoredEvent). same f.id x) es (row ∷ []) e h)
]

-- A search that finds nothing.
find-none :
    (x : EventId) (es : List StoredEvent)
    → has_id x es ≡ false
    → find (λ (e : StoredEvent). same e.id x) es ≡ none
find-none x [] h = refl
find-none x (e ∷ es) h = elim (Bool-cases (same e.id x)) [
  | inl here ↦ absurd (clash (rw here at h))
  | inr other ↦ rw other (find-none x es (rw other at h))
]
  where
    clash : true ≡ false → ⊥
    clash h = cc

stream_exists-purge_rows :
    (db : Db) (id purged_id : EventId) (now : ℕ) (payload : Bytes) (s : Str)
    → stream_exists (purge_rows db id purged_id now payload) s
      ≡ (same system_stream s || stream_exists db s)
unfolding purge_rows stream_exists
stream_exists-purge_rows db id purged_id now payload s = exists-insert_stream _ db.streams s

All-insert_or_ignore :
    (P : StoredEvent → Type 0) (row : StoredEvent) (es : List StoredEvent)
    → All P es
    → P row
    → All P (insert_or_ignore row es).0
unfolding insert_or_ignore
All-insert_or_ignore P row es h new = elim (Bool-cases (any (conflicts row) es)) [
  | inl e ↦ rw e h
  | inr e ↦ rw e (All-append P es (row ∷ []) h (new, tt))
]

All-purge_rows :
    (P : StoredEvent → Type 0) (db : Db) (id purged_id : EventId) (now : ℕ) (payload : Bytes)
    → All P db.events
    → ((v : ℕ) → P (purged_row purged_id v now payload))
    → All P (purge_rows db id purged_id now payload).events
unfolding purge_rows
All-purge_rows P db id purged_id now payload h new =
    All-keep P _ _ (All-insert_or_ignore P _ db.events h (new _))

purge_rows-IsDeclared :
    (db : Db) (id purged_id : EventId) (now : ℕ) (payload : Bytes)
    → IsDeclared db
    → IsDeclared (purge_rows db id purged_id now payload)
purge_rows-IsDeclared db id purged_id now payload declared =
    All-purge_rows (λ e. stream_exists (purge_rows db id purged_id now payload) e.stream_id ≡ true)
      db id purged_id now payload
      (All-mono (λ (e : StoredEvent). stream_exists db e.stream_id ≡ true) _ db.events
        (λ e here.
          stream_exists-purge_rows db id purged_id now payload e.stream_id ∙ rw here (ground arith))
        declared)
      (λ v.
        stream_exists-purge_rows db id purged_id now payload system_stream
        ∙ rw (same_refl system_stream) refl)

-- The result of a purge.
purged :
    (env : Env) (db db' : Db) (id : EventId) (confirm reason by : Str) (now : ℕ)
    → purge_event_impl env db id confirm reason by now ≡ ok db'
    → (purged_id : EventId) × (payload : Bytes) × (db' ≡ purge_rows db id purged_id now payload)
unfolding purge_event_impl
purged env db db' id confirm reason by now h = elim (Bool-cases (same confirm purge_confirm)) [
  | inr e ↦ absurd (failed (rw e at h))
  | inl e ↦ elim (Option-cases (read_one_impl db id)) [
    | inl missing ↦ absurd (failed (rw (e, missing) at h))
    | inr (original, found) ↦
        (let (purged_id, _, rest) =
            >>=-eq-ok
              (map_err cce (
                derive_event_id env.nfc env.hash purged_event_type 1 none
                  (purged_payload id original reason by now)))
              _ (rw (e, found) at h) in
          let (payload, _, made) =
            >>=-eq-ok (env.to_vec (purged_payload id original reason by now)) _ rest in
          (purged_id, payload, sym (ok-injective made)))
  ]
]
  where
    failed : {e : Error} {d : Db} → ◌≡◌ {A = Result Error Db} (err e) (ok d) → ⊥
    failed h = cc

-- After a purge the purged id reads no event.
pub read_one_impl-purge_event_impl :
    (env : Env) (db db' : Db) (id : EventId) (confirm reason by : Str) (now : ℕ)
    → purge_event_impl env db id confirm reason by now ≡ ok db'
    → read_one_impl db' id ≡ none
unfolding read_one_impl purge_rows
read_one_impl-purge_event_impl env db db' id confirm reason by now h =
    let (purged_id, payload, eq) = purged env db db' id confirm reason by now h in
    subst (λ d. read_one_impl d id ≡ none) (sym eq)
      (find-none id (purge_rows db id purged_id now payload).events (gone id _))

-- After a purge every other event that could be read is read as before.
pub read_one_impl-kept :
    (env : Env) (db db' : Db) (id x : EventId) (confirm reason by : Str) (now : ℕ) (e : StoredEvent)
    → purge_event_impl env db id confirm reason by now ≡ ok db'
    → same id x ≡ false
    → read_one_impl db x ≡ some e
    → read_one_impl db' x ≡ some e
unfolding read_one_impl purge_rows
read_one_impl-kept env db db' id x confirm reason by now e h other found =
    let (purged_id, payload, eq) = purged env db db' id confirm reason by now h in
    subst (λ d. read_one_impl d x ≡ some e) (sym eq)
      (found_after_keep id x _ other ∙ found_after_insert x _ db.events e found)

-- A purge keeps ids and positions unique, and every event in a declared stream.
pub purge_event_impl-IsUnique :
    (env : Env) (db db' : Db) (id : EventId) (confirm reason by : Str) (now : ℕ)
    → IsUnique db.events
    → IsDeclared db
    → purge_event_impl env db id confirm reason by now ≡ ok db'
    → IsUnique db'.events × IsDeclared db'
unfolding purge_rows
purge_event_impl-IsUnique env db db' id confirm reason by now u declared h =
    let (purged_id, payload, eq) = purged env db db' id confirm reason by now h in
    subst (λ (d : Db). IsUnique d.events × IsDeclared d) (sym eq)
      (
        IsUnique-keep _ _ (IsUnique-insert_or_ignore _ db.events u),
        purge_rows-IsDeclared db id purged_id now payload declared,
      )
