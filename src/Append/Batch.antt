-- ===== src/Append/Batch.antt =====
-- append_batch_impl of src/append.rs: the whole batch is encoded first, then inserted in one
-- transaction.
use fossic.Prelude.{
  ℕ, ◌≡◌, ◌↔◌, refl, sym, ◌∙◌, ap, subst, List, [], ◌∷◌, Option, none, some, if◌then◌else◌,
  Bool-cases, inl, inr,
}
use fossic.Prelude.Words.{Bytes}
use fossic.Text.{Str, codes}
use fossic.Env.{Env}
use fossic.Json.{Value, is_object}
use fossic.Json
use fossic.Error.{
  Error, invalid_indexed_tags, Result, ok, err, ◌>>=◌, >>=-eq-ok, >>=-cong, ok-injective,
}
use fossic.Tables.{Append, Db}
use fossic.EventId.{EventId}
use fossic.Append.{
  AppendOutcome, append_id, check_tags, insert_event, append_impl, unwrap_or, unwrap_or_default,
}
use fossic.Append.Outcome.{IsConsistent, append_impl-IsConsistent}

-- An append of the batch, its prepared payload, and the clock when it is encoded.
pub record Prepared : Type 0 where
  pub append : Append
  pub payload : Value
  pub payload_bytes : Bytes
  pub now : ℕ

pub record Encoded : Type 0 where
  pub event_id : EventId
  pub payload_bytes : Bytes
  pub payload_for_outcome : Bytes
  pub timestamp_us : ℕ

abbrev pub batch_kind : Value → Str
batch_kind (Json.array _) = codes "array"
batch_kind v = codes "non-object"

unfoldable pub check_batch_tags : Option Value → Result Error (Unit {0})
check_batch_tags none = ok tt
check_batch_tags (some tags) =
    if is_object tags then ok tt else err (invalid_indexed_tags (batch_kind tags))

module _ (env : Env) where
  abbrev pub encoding : Prepared → EventId → Encoded
  encoding p event_id = record {
    event_id = event_id;
    payload_bytes = p.payload_bytes;
    payload_for_outcome = unwrap_or_default (env.to_vec p.payload);
    timestamp_us = unwrap_or p.append.timestamp_us p.now;
  }

  -- the loop's body before the transaction
  unfoldable pub encode_append : Prepared → Result Error Encoded
  unfolding check_batch_tags append_id
  encode_append p = do
    _ ← check_batch_tags p.append.indexed_tags
    event_id ← append_id env p.append p.payload
    ok (encoding p event_id)

  unfoldable pub encode_all : List Prepared → Result Error (List Encoded)
  unfolding encode_append
  encode_all [] = ok []
  encode_all (p ∷ ps) = do e ← encode_append p; es ← encode_all ps; ok (e ∷ es)

  -- the loop inside the transaction, over the two zipped lists
  unfoldable pub insert_all :
      Db → List Prepared → List Encoded → Result Error (List AppendOutcome × Db)
  unfolding insert_event
  insert_all db [] es = ok ([], db)
  insert_all db (p ∷ ps) [] = ok ([], db)
  insert_all db (p ∷ ps) (e ∷ es) = do
    (outcome, db') ←
        insert_event env db p.append e.event_id e.timestamp_us e.payload_bytes e.payload_for_outcome
    (outcomes, db'') ← insert_all db' ps es
    ok (outcome ∷ outcomes, db'')

  unfoldable pub append_batch_impl : Db → List Prepared → Result Error (List AppendOutcome × Db)
  unfolding encode_all insert_all
  append_batch_impl db [] = ok ([], db)
  append_batch_impl db (p ∷ ps) = do encoded ← encode_all (p ∷ ps); insert_all db (p ∷ ps) encoded

  -- The appends of the batch, one transaction each.
  unfoldable pub append_each : Db → List Prepared → Result Error (List AppendOutcome × Db)
  unfolding append_impl
  append_each db [] = ok ([], db)
  append_each db (p ∷ ps) = do
    (outcome, db') ← append_impl env db p.append p.payload p.payload_bytes p.now
    (outcomes, db'') ← append_each db' ps
    ok (outcome ∷ outcomes, db'')

  check_batch_tags_ok :
      (tags : Option Value) → check_batch_tags tags ≡ ok tt → check_tags tags ≡ ok tt
  unfolding check_batch_tags check_tags
  check_batch_tags_ok none h = h
  check_batch_tags_ok (some tags) h = elim (Bool-cases (is_object tags)) [
    | inl e ↦ rw e refl
    | inr e ↦ absurd (cc)
  ]

  check_tags_ok : (tags : Option Value) → check_tags tags ≡ ok tt → check_batch_tags tags ≡ ok tt
  unfolding check_batch_tags check_tags
  check_tags_ok none h = h
  check_tags_ok (some tags) h = elim (Bool-cases (is_object tags)) [
    | inl e ↦ rw e refl
    | inr e ↦ absurd (cc)
  ]

  -- An encoded append inserts what the single append does.
  insert_event-encoded :
      (db : Db) (p : Prepared) (e : Encoded)
      → encode_append p ≡ ok e
      → insert_event env db p.append e.event_id e.timestamp_us e.payload_bytes e.payload_for_outcome
        ≡ append_impl env db p.append p.payload p.payload_bytes p.now
  unfolding encode_append append_impl
  insert_event-encoded db p e h =
      let (_, tags, rest) = >>=-eq-ok (check_batch_tags p.append.indexed_tags) _ h in
      let (id, known, made) = >>=-eq-ok (append_id env p.append p.payload) _ rest in
      rw (check_batch_tags_ok p.append.indexed_tags tags, known, sym (ok-injective made)) refl

  insert_all-encoded :
      (db : Db) (ps : List Prepared) (es : List Encoded)
      → encode_all ps ≡ ok es
      → insert_all db ps es ≡ append_each db ps
  unfolding encode_all insert_all append_each
  insert_all-encoded db [] es h = refl
  insert_all-encoded db (p ∷ ps) [] h =
      let (e, _, rest) = >>=-eq-ok (encode_append p) _ h in
      let (es, _, last) = >>=-eq-ok (encode_all ps) _ rest in absurd (cc)
  insert_all-encoded db (p ∷ ps) (e ∷ es) h =
      let (e', first, rest) = >>=-eq-ok (encode_append p) _ h in
      let (es', others, made) = >>=-eq-ok (encode_all ps) _ rest in
      let same_es : es' ≡ es = cc in
      let same_e : e' ≡ e = cc in
      ap (λ m. m >>= λ x. insert_all x.1 ps es >>= λ y. ok (x.0 ∷ y.0, y.1))
        (insert_event-encoded db p e (first ∙ ap ok same_e))
      ∙ >>=-cong (append_impl env db p.append p.payload p.payload_bytes p.now) _ _ (λ x.
        ap (λ m. m >>= λ y. ok (x.0 ∷ y.0, y.1))
          (insert_all-encoded x.1 ps es (others ∙ ap ok same_es)))

  encoded_of_append_each :
      (db : Db) (ps : List Prepared) {r : List AppendOutcome × Db}
      → append_each db ps ≡ ok r
      → (es : List Encoded) × (encode_all ps ≡ ok es)
  unfolding encode_all append_each encode_append append_impl
  encoded_of_append_each db [] h = ([], refl)
  encoded_of_append_each db (p ∷ ps) h =
      let ((o, db'), first, rest) =
        >>=-eq-ok (append_impl env db p.append p.payload p.payload_bytes p.now) _ h in
      let (_, tags, more) = >>=-eq-ok (check_tags p.append.indexed_tags) _ first in
      let (id, known, _) = >>=-eq-ok (append_id env p.append p.payload) _ more in
      let (r, others, _) = >>=-eq-ok (append_each db' ps) _ rest in
      let (es, encoded) = encoded_of_append_each db' ps others in
      (encoding p id ∷ es, rw (check_tags_ok p.append.indexed_tags tags, known, encoded) refl)

  -- A batch succeeds with some outcomes and a database exactly when its appends, one transaction
  -- each, all succeed in their order, and then its outcomes and database are theirs.
  pub append_batch_impl_iff :
      (db : Db) (ps : List Prepared) (r : List AppendOutcome × Db)
      → (append_batch_impl db ps ≡ ok r) ↔ (append_each db ps ≡ ok r)
  unfolding append_batch_impl append_each
  append_batch_impl_iff db [] r = ((λ h. h), λ h. h)
  append_batch_impl_iff db (p ∷ ps) r = (
    (λ h.
        let (es, encoded, inserted) = >>=-eq-ok (encode_all (p ∷ ps)) _ h in
        sym (insert_all-encoded db (p ∷ ps) es encoded) ∙ inserted),
    (λ h.
        let (es, encoded) = encoded_of_append_each db (p ∷ ps) h in
        ap (λ m. m >>= insert_all db (p ∷ ps)) encoded
        ∙ insert_all-encoded db (p ∷ ps) es encoded
        ∙ h),
  )

  append_each-IsConsistent :
      (db : Db) (ps : List Prepared) (r : List AppendOutcome × Db)
      → IsConsistent db
      → append_each db ps ≡ ok r
      → IsConsistent r.1
  unfolding append_each
  append_each-IsConsistent db [] r consistent h =
      subst (λ (x : List AppendOutcome × Db). IsConsistent x.1) (ok-injective h) consistent
  append_each-IsConsistent db (p ∷ ps) r consistent h =
      let ((o, db'), first, rest) =
        >>=-eq-ok (append_impl env db p.append p.payload p.payload_bytes p.now) _ h in
      let (r', others, made) = >>=-eq-ok (append_each db' ps) _ rest in
      subst (λ (x : List AppendOutcome × Db). IsConsistent x.1) (ok-injective made)
        (append_each-IsConsistent db' ps r'
          (append_impl-IsConsistent env db db' p.append p.payload p.payload_bytes p.now o consistent
            first)
          others)

  -- A successful batch keeps the database consistent.
  pub append_batch_impl-IsConsistent :
      (db : Db) (ps : List Prepared) (r : List AppendOutcome × Db)
      → IsConsistent db
      → append_batch_impl db ps ≡ ok r
      → IsConsistent r.1
  append_batch_impl-IsConsistent db ps r consistent h =
      append_each-IsConsistent db ps r consistent ((append_batch_impl_iff db ps r).0 h)
