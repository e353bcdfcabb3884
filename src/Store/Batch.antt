-- ===== src/Store/Batch.antt =====
-- The batch and the conditional append of `Store` in src/store.rs. As for `append`, what is returned is the
-- ids, the events that are handed on, and the database.
use fossic.Prelude.{
  ℕ, ◌≡◌, ◌↔◌, refl, sym, ◌∙◌, ap, Bool, List, [], ◌∷◌, Option, none, some, map, inl, inr,
}
use fossic.Error.{Error, Result, ok, ◌>>=◌, >>=-eq-ok, Result-cases, ok-injective}
use fossic.EventId.{EventId}
use fossic.Env.{Env}
use fossic.Tables.{StoredEvent, Append, Db}
use fossic.Append.{AppendOutcome, append_impl, append_if_impl}
use fossic.Append.Batch.{Prepared, append_batch_impl, append_each, append_batch_impl_iff}
use fossic.Upcasters.{TransformEntry}
use fossic.Store.{prepare_payload, post_commit, append}

-- ids, the events that are handed on, and the database
abbrev pub Published : Type 0
Published = List EventId × (List StoredEvent × Db)

abbrev pub push_some : Option StoredEvent → List StoredEvent → List StoredEvent
push_some none events = events
push_some (some e) events = e ∷ events

abbrev pub id_of : AppendOutcome → EventId
id_of outcome = outcome.event_id

module _ (env : Env) (transforms : List TransformEntry) (has_subs : Bool) where
  abbrev pub prepare : Append × ℕ → Result Error Prepared
  prepare (a, now) = do
    (payload_val, payload_bytes) ← prepare_payload env transforms a.stream_id a.event_type a.payload
    ok (record { append = a; payload = payload_val; payload_bytes = payload_bytes; now = now })

  -- Each append comes with the clock that it reads.
  unfoldable pub prepare_all : List (Append × ℕ) → Result Error (List Prepared)
  prepare_all [] = ok []
  prepare_all (x ∷ xs) = do p ← prepare x; ps ← prepare_all xs; ok (p ∷ ps)

  -- the loop over the zipped outcomes and appends
  unfoldable pub post_commits : List AppendOutcome → List (Append × ℕ) → List StoredEvent
  post_commits [] xs = []
  post_commits (o ∷ os) [] = []
  post_commits (o ∷ os) (x ∷ xs) = push_some (post_commit env has_subs o x.0) (post_commits os xs)

  abbrev pub published : List (Append × ℕ) → List AppendOutcome × Db → Published
  published xs (outcomes, db') = (map id_of outcomes, (post_commits outcomes xs, db'))

  unfoldable pub append_batch : Db → List (Append × ℕ) → Result Error Published
  unfolding prepare_all append_batch_impl post_commits
  append_batch db [] = ok ([], ([], db))
  append_batch db (x ∷ xs) = do
    prepared ← prepare_all (x ∷ xs)
    outcomes ← append_batch_impl env db prepared
    ok (published (x ∷ xs) outcomes)

  abbrev pub if_published : Append → Option AppendOutcome → Option EventId × Option StoredEvent
  if_published a none = (none, none)
  if_published a (some o) = (some o.event_id, post_commit env has_subs o a)

  unfoldable pub append_if :
      Db
      → Append
      → ℕ
      → (Db → Result Error Bool)
      → Result Error ((Option EventId × Option StoredEvent) × Db)
  unfolding prepare_payload append_if_impl
  append_if db a now condition = do
    (payload_val, payload_bytes) ← prepare_payload env transforms a.stream_id a.event_type a.payload
    (outcome, db') ← append_if_impl env db a payload_val payload_bytes now condition
    ok (if_published a outcome, db')

  -- The appends one after the other, each in its own call of `append`.
  unfoldable pub append_in_turn : Db → List (Append × ℕ) → Result Error Published
  unfolding append
  append_in_turn db [] = ok ([], ([], db))
  append_in_turn db (x ∷ xs) = do
    (id, (post, db')) ← append env transforms has_subs db x.0 x.1
    (ids, (posts, db'')) ← append_in_turn db' xs
    ok (id ∷ ids, (push_some post posts, db''))

  append_each-append_in_turn :
      (db : Db) (xs : List (Append × ℕ)) (ps : List Prepared)
      → prepare_all xs ≡ ok ps
      → (append_each env db ps >>= λ r. ok (published xs r)) ≡ append_in_turn db xs
  unfolding prepare_all append_each append_in_turn post_commits append
  append_each-append_in_turn db [] ps h = rw (sym (ok-injective h), append_each) refl
  append_each-append_in_turn db (x ∷ xs) ps h =
      let (p, first, rest) = >>=-eq-ok (prepare x) _ h in
      let (qs, others, made) = >>=-eq-ok (prepare_all xs) _ rest in
      let a = x.0 in
      let ((v, bytes), encoded, made_p) =
        >>=-eq-ok (prepare_payload env transforms a.stream_id a.event_type a.payload) _ first in
      rw (sym (ok-injective made), sym (ok-injective made_p), encoded)
        (elim (Result-cases (append_impl env db a v bytes x.1)) [
          | inr (e, failed) ↦ rw failed refl
          | inl ((o, db'), appended) ↦ rw appended (
              rw (sym (append_each-append_in_turn db' xs qs others))
                (elim (Result-cases (append_each env db' qs)) [
                  | inr (e, failed) ↦ rw failed refl
                  | inl (r, done) ↦ rw done refl
                ]))
        ])

  prepared_of_append_in_turn :
      (db : Db) (xs : List (Append × ℕ)) (r : Published)
      → append_in_turn db xs ≡ ok r
      → (ps : List Prepared) × (prepare_all xs ≡ ok ps)
  unfolding prepare_all append_in_turn append
  prepared_of_append_in_turn db [] r h = ([], refl)
  prepared_of_append_in_turn db (x ∷ xs) r h =
      let a = x.0 in
      let ((id, (post, db')), first, rest) =
        >>=-eq-ok (append env transforms has_subs db a x.1) _ h in
      let ((v, bytes), encoded, _) =
        >>=-eq-ok (prepare_payload env transforms a.stream_id a.event_type a.payload) _ first in
      let (r', others, _) = >>=-eq-ok (append_in_turn db' xs) _ rest in
      let (ps, prepared) = prepared_of_append_in_turn db' xs r' others in
      (
        record { append = a; payload = v; payload_bytes = bytes; now = x.1 } ∷ ps,
        rw (encoded, prepared) refl,
      )

  -- A batch of the store succeeds exactly when its appends succeed one after the other, each in a call of
  -- `append`; it then returns their ids, hands on their events in their order and leaves their database.
  pub append_batch_iff :
      (db : Db) (xs : List (Append × ℕ)) (r : Published)
      → (append_batch db xs ≡ ok r) ↔ (append_in_turn db xs ≡ ok r)
  unfolding append_batch append_in_turn prepare_all
  append_batch_iff db [] r = ((λ h. h), λ h. h)
  append_batch_iff db (x ∷ xs) r = (
    (λ h.
        let (ps, prepared, rest) = >>=-eq-ok (prepare_all (x ∷ xs)) _ h in
        let (outcomes, batched, made) = >>=-eq-ok (append_batch_impl env db ps) _ rest in
        sym (append_each-append_in_turn db (x ∷ xs) ps prepared)
        ∙ ap (λ m. m >>= λ o. ok (published (x ∷ xs) o))
            ((append_batch_impl_iff env db ps outcomes).0 batched)
        ∙ made),
    (λ h.
        let (ps, prepared) = prepared_of_append_in_turn db (x ∷ xs) r h in
        let (outcomes, each, made) =
          >>=-eq-ok (append_each env db ps) _
            (append_each-append_in_turn db (x ∷ xs) ps prepared ∙ h) in
        rw (prepared, (append_batch_impl_iff env db ps outcomes).1 each) made),
  )
