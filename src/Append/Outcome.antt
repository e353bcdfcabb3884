-- ===== src/Append/Outcome.antt =====
-- append_impl and append_if_impl of src/append.rs: the outcome, the row that is written, and the log.
use fossic.Prelude.{
  ℕ, ◌≡◌, refl, sym, ◌∙◌, ap, subst, Bool, true, false, not, [], ◌∷◌, ◌++◌, Option, none, some,
  arith, All, All-append, any, any-append, Bool-cases, inl, inr, if◌then◌else◌,
}
use fossic.Prelude.Lex.{same, same_refl}
use fossic.Prelude.Words.{Bytes}
use fossic.Env.{Env}
use fossic.Json.{Value}
use fossic.Error.{Error, stream_not_declared, Result, ok, err, ◌>>=◌, >>=-eq-ok, ok-injective}
use fossic.Tables.{StoredEvent, Append, Db}
use fossic.EventId.{EventId}
use fossic.Stream.{stream_exists}
use fossic.Append.{
  AppendOutcome, next_version, conflicts, insert_or_ignore, append_id, check_tags, new_row,
  insert_event, append_impl, append_if_impl, unwrap_or, unwrap_or_default,
}
use fossic.Append.Log.{has_id, any-conflicts, IsUnique, IsDense, IsUnique-push, IsDense-push}

if-not {ℓ} : {A : Type ℓ} (b : Bool) (x y : A) → (if b then x else y) ≡ (if not b then y else x)
if-not true x y = refl
if-not false x y = refl

-- What is returned when the condition is known.
abbrev pub as_some : AppendOutcome × Db → Result Error (Option AppendOutcome × Db)
as_some (o, db') = ok (some o, db')

abbrev pub when_holds : Db → AppendOutcome × Db → Bool → Result Error (Option AppendOutcome × Db)
when_holds db p holds = if holds then as_some p else ok (none, db)

-- A test between the guards and the insertion may as well come after the insertion.
condition_last :
    (db : Db) (tags : Result Error (Unit {0})) (id : Result Error EventId)
    (holds : Result Error Bool) (here : Bool) (inserted : EventId → AppendOutcome × Db)
    (missing : Error)
    → (tags >>= λ _. id >>= λ i.
        if here
        then (holds >>= λ c.
            if c
            then ((if here then ok (inserted i) else err missing) >>= as_some)
            else ok (none, db))
        else err missing)
      ≡ ((tags >>= λ _. id >>= λ i. if here then ok (inserted i) else err missing) >>= λ p.
          holds >>= when_holds db p)
condition_last db (err e) id holds here inserted missing = refl
condition_last db (ok _) (err e) holds here inserted missing = refl
condition_last db (ok _) (ok i) holds false inserted missing = refl
condition_last db (ok _) (ok i) (err e) true inserted missing = refl
condition_last db (ok _) (ok i) (ok true) true inserted missing = refl
condition_last db (ok _) (ok i) (ok false) true inserted missing = refl

module _ (env : Env) where
  -- The row that an append writes into a database.
  abbrev pub row_of : Db → Append → EventId → ℕ → Bytes → StoredEvent
  row_of db a id timestamp bytes =
      new_row env a id (next_version a.stream_id a.branch db.events) timestamp bytes

  abbrev pub with_row : Db → StoredEvent → Db
  with_row db row = record db { events = db.events ++ row ∷ [] }

  insert_event-eq :
      (db : Db) (a : Append) (id : EventId) (t : ℕ) (bytes out : Bytes)
      → stream_exists db a.stream_id ≡ true
      → insert_event env db a id t bytes out
        ≡ ok (
          record {
            event_id = id;
            version = next_version a.stream_id a.branch db.events;
            timestamp_us = t;
            payload_bytes = out;
            is_new = not (has_id id db.events);
          },
          if has_id id db.events then db else with_row db (row_of db a id t bytes),
        )
  unfolding insert_event insert_or_ignore
  insert_event-eq db a id t bytes out here =
      let fresh : any (conflicts (row_of db a id t bytes)) db.events ≡ has_id id db.events =
        any-conflicts db.events (row_of db a id t bytes) refl in
      elim (Bool-cases (has_id id db.events)) [
        | inl old ↦ rw (here, fresh, old) refl
        | inr new ↦ rw (here, fresh, new) refl
      ]

  insert_event-declared :
      (db db' : Db) (a : Append) (id : EventId) (t : ℕ) (bytes out : Bytes) (o : AppendOutcome)
      → insert_event env db a id t bytes out ≡ ok (o, db')
      → stream_exists db a.stream_id ≡ true
  unfolding insert_event
  insert_event-declared db db' a id t bytes out o h =
      elim (Bool-cases (stream_exists db a.stream_id)) [
        | inl here ↦ here
        | inr missing ↦
            (let failed : insert_event env db a id t bytes out
                  ≡ err (stream_not_declared a.stream_id) =
                rw missing refl in
              cc)
      ]

  -- What a successful append says of its result: the id is derived from the content, the stream was
  -- declared, the version is the next one, and the row is added unless its id is in the log.
  abbrev pub Appended : Db → Append → Value → Bytes → ℕ → AppendOutcome → Db → Type 0
  Appended db a payload bytes now o db' =
      (append_id env a payload ≡ ok o.event_id)
      × (stream_exists db a.stream_id ≡ true)
      × (o.version ≡ next_version a.stream_id a.branch db.events)
      × (o.timestamp_us ≡ unwrap_or a.timestamp_us now)
      × (o.is_new ≡ not (has_id o.event_id db.events))
      × (db' ≡ (if o.is_new then with_row db (row_of db a o.event_id o.timestamp_us bytes) else db))

  pub insert_event-Appended :
      (db db' : Db) (a : Append) (payload : Value) (id : EventId) (now : ℕ) (bytes out : Bytes)
      (o : AppendOutcome)
      → append_id env a payload ≡ ok id
      → insert_event env db a id (unwrap_or a.timestamp_us now) bytes out ≡ ok (o, db')
      → Appended db a payload bytes now o db'
  insert_event-Appended db db' a payload id now bytes out o e h =
      let here = insert_event-declared db db' a id (unwrap_or a.timestamp_us now) bytes out o h in
      subst (λ (p : AppendOutcome × Db). Appended db a payload bytes now p.0 p.1)
        (ok-injective
          (sym (insert_event-eq db a id (unwrap_or a.timestamp_us now) bytes out here) ∙ h))
        (e, here, refl, refl, refl, if-not (has_id id db.events) db _)

  pub append_impl-Appended :
      (db db' : Db) (a : Append) (payload : Value) (bytes : Bytes) (now : ℕ) (o : AppendOutcome)
      → append_impl env db a payload bytes now ≡ ok (o, db')
      → Appended db a payload bytes now o db'
  unfolding append_impl
  append_impl-Appended db db' a payload bytes now o h =
      let (_, tags, rest) = >>=-eq-ok (check_tags a.indexed_tags) _ h in
      let (id, e, inserted) = >>=-eq-ok (append_id env a payload) _ rest in
      insert_event-Appended db db' a payload id now bytes _ o e inserted

-- Every event belongs to a declared stream.
abbrev pub IsDeclared : Db → Type 0
IsDeclared db = All (λ (e : StoredEvent). stream_exists db e.stream_id ≡ true) db.events

-- Identities and positions are unique, versions have no gaps and streams are declared.
abbrev pub IsConsistent : Db → Type 0
IsConsistent db = IsUnique db.events × IsDense db.events × IsDeclared db

module _ (env : Env) where
  with_row-IsDeclared :
      (db : Db) (row : StoredEvent)
      → IsDeclared db
      → stream_exists db row.stream_id ≡ true
      → IsDeclared (with_row env db row)
  unfolding stream_exists
  with_row-IsDeclared db row declared here =
      All-append (λ (e : StoredEvent). stream_exists db e.stream_id ≡ true) db.events (row ∷ [])
        declared (here, tt)

  with_row-IsConsistent :
      (db : Db) (a : Append) (id : EventId) (t : ℕ) (bytes : Bytes)
      → IsConsistent db
      → stream_exists db a.stream_id ≡ true
      → has_id id db.events ≡ false
      → IsConsistent (with_row env db (row_of env db a id t bytes))
  with_row-IsConsistent db a id t bytes (unique, dense, declared) here fresh =
      let row = row_of env db a id t bytes in
      (
        IsUnique-push db.events row unique (any-conflicts db.events row refl ∙ fresh),
        IsDense-push db.events row dense refl,
        with_row-IsDeclared db row declared here,
      )

  -- The two results of a successful append.
  pub Appended-cases {ℓ} :
      (P : Db → Type ℓ) (db db' : Db) (a : Append) (payload : Value) (bytes : Bytes) (now : ℕ)
      (o : AppendOutcome)
      → Appended env db a payload bytes now o db'
      → (has_id o.event_id db.events ≡ true → o.is_new ≡ false → P db)
      → (has_id o.event_id db.events ≡ false
          → o.is_new ≡ true
          → P (with_row env db (row_of env db a o.event_id o.timestamp_us bytes)))
      → P db'
  Appended-cases P db db' a payload bytes now o (_, _, _, _, new, result) old fresh =
      elim (Bool-cases (has_id o.event_id db.events)) [
        | inl e ↦
            (let is : o.is_new ≡ false = new ∙ ap not e in
              subst P (sym (rw is at result)) (old e is))
        | inr e ↦
            (let is : o.is_new ≡ true = new ∙ ap not e in
              subst P (sym (rw is at result)) (fresh e is))
      ]

  -- A successful append keeps the database consistent: no two events share an id or a position, the
  -- versions of every stream and branch run from 0 without a gap, and every event belongs to a
  -- declared stream.
  pub append_impl-IsConsistent :
      (db db' : Db) (a : Append) (payload : Value) (bytes : Bytes) (now : ℕ) (o : AppendOutcome)
      → IsConsistent db
      → append_impl env db a payload bytes now ≡ ok (o, db')
      → IsConsistent db'
  append_impl-IsConsistent db db' a payload bytes now o consistent h =
      let done = append_impl-Appended env db db' a payload bytes now o h in
      Appended-cases IsConsistent db db' a payload bytes now o done (λ _ _. consistent)
        (λ fresh _.
          with_row-IsConsistent db a o.event_id o.timestamp_us bytes consistent done.1 fresh)

  pub has_id-append_impl :
      (db db' : Db) (a : Append) (payload : Value) (bytes : Bytes) (now : ℕ) (o : AppendOutcome)
      → append_impl env db a payload bytes now ≡ ok (o, db')
      → has_id o.event_id db'.events ≡ true
  has_id-append_impl db db' a payload bytes now o h =
      let done = append_impl-Appended env db db' a payload bytes now o h in
      Appended-cases (λ d. has_id o.event_id d.events ≡ true) db db' a payload bytes now o done
        (λ old _. old)
        (λ fresh _.
          rw (any-append (λ (e : StoredEvent). same e.id o.event_id) db.events _)
            (ground (arith, same_refl o.event_id)))

  append_impl-of_known :
      (db : Db) (a : Append) (payload : Value) (bytes : Bytes) (now : ℕ) (id : EventId)
      → check_tags a.indexed_tags ≡ ok tt
      → append_id env a payload ≡ ok id
      → stream_exists db a.stream_id ≡ true
      → has_id id db.events ≡ true
      → (o : AppendOutcome) × (append_impl env db a payload bytes now ≡ ok (o, db))
        × (o.event_id ≡ id)
        × (o.is_new ≡ false)
  unfolding append_impl
  append_impl-of_known db a payload bytes now id tags e here old = (
    record {
      event_id = id;
      version = next_version a.stream_id a.branch db.events;
      timestamp_us = unwrap_or a.timestamp_us now;
      payload_bytes = unwrap_or_default (env.to_vec payload);
      is_new = false;
    },
    rw (tags, e, insert_event-eq env db a id (unwrap_or a.timestamp_us now) bytes _ here, old) refl,
    refl,
    refl,
  )

  -- After a successful append, an append whose content gives the same id, to any declared stream and
  -- with any bytes, clock and well-formed tags, succeeds with that id, reports that it is not new, and
  -- leaves the database unchanged.
  pub append_impl-again :
      (db db' : Db) (a a' : Append) (payload payload' : Value) (bytes bytes' : Bytes) (now now' : ℕ)
      (o : AppendOutcome)
      → append_impl env db a payload bytes now ≡ ok (o, db')
      → append_id env a' payload' ≡ append_id env a payload
      → check_tags a'.indexed_tags ≡ ok tt
      → stream_exists db' a'.stream_id ≡ true
      → (o' : AppendOutcome) × (append_impl env db' a' payload' bytes' now' ≡ ok (o', db'))
        × (o'.event_id ≡ o.event_id)
        × (o'.is_new ≡ false)
  append_impl-again db db' a a' payload payload' bytes bytes' now now' o h id tags here =
      let (same_id, _, _, _, _, _) = append_impl-Appended env db db' a payload bytes now o h in
      append_impl-of_known db' a' payload' bytes' now' o.event_id tags (id ∙ same_id) here
        (has_id-append_impl db db' a payload bytes now o h)

  -- A conditional append is, in all its branches, an append in front of the condition: it fails where
  -- the append fails, then where the condition fails; where the condition is false it returns
  -- nothing and the database as it was, and where it is true, the outcome and database of the append.
  pub append_if_impl-eq :
      (db : Db) (a : Append) (payload : Value) (bytes : Bytes) (now : ℕ)
      (condition : Db → Result Error Bool)
      → append_if_impl env db a payload bytes now condition
        ≡ (append_impl env db a payload bytes now >>= λ p. condition db >>= when_holds db p)
  unfolding append_if_impl append_impl insert_event append_id
  append_if_impl-eq db a payload bytes now condition =
      condition_last db (check_tags a.indexed_tags) (append_id env a payload) (condition db)
        (stream_exists db a.stream_id) _ _

  -- The bytes of the outcome are the payload's encoding.
  pub append_impl-payload_bytes :
      (db db' : Db) (a : Append) (payload : Value) (bytes : Bytes) (now : ℕ) (o : AppendOutcome)
      → append_impl env db a payload bytes now ≡ ok (o, db')
      → o.payload_bytes ≡ unwrap_or_default (env.to_vec payload)
  unfolding append_impl
  append_impl-payload_bytes db db' a payload bytes now o h =
      let (_, tags, rest) = >>=-eq-ok (check_tags a.indexed_tags) _ h in
      let (id, e, inserted) = >>=-eq-ok (append_id env a payload) _ rest in
      let t = unwrap_or a.timestamp_us now in
      let out = unwrap_or_default (env.to_vec payload) in
      let here = insert_event-declared env db db' a id t bytes out o inserted in
      sym (
        ap (λ (p : AppendOutcome × Db). p.0.payload_bytes)
          (ok-injective (sym (insert_event-eq env db a id t bytes out here) ∙ inserted)))
