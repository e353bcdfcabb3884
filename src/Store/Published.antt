-- ===== src/Store/Published.antt =====
-- The event that `append` of src/store.rs hands on to subscribers, and the log.
use fossic.Prelude.{
  ℕ, ◌≡◌, sym, ◌∙◌, ap, ap₂, Bool, true, not, ◌&&◌, List, [], Option, none, some, keep, Bool-cases,
  inl, inr, arith,
}
use fossic.Prelude.Lex.{same_refl}
use fossic.Prelude.Words.{Bytes}
use fossic.Text.{Str, codes, starts_with}
use fossic.Error.{ok, >>=-eq-ok, ok-injective}
use fossic.Json.{Value}
use fossic.EventId.{EventId}
use fossic.Env.{Env}
use fossic.Glob.{matches}
use fossic.Tables.{StoredEvent, Append, Db}
use fossic.Append.{AppendOutcome, append_impl, unwrap_or_default, to_text}
use fossic.Append.Outcome.{row_of, append_impl-Appended, append_impl-payload_bytes}
use fossic.Read.{read_one_impl}
use fossic.Read.Own.{read_one_impl-append_impl}
use fossic.Upcasters.{TransformEntry, apply_transforms}
use fossic.Upcasters.Chains.{apply_transforms-keep, transform_all}
use fossic.Store.{prepare_payload, build_stored_event, post_commit, append}

module _ (env : Env) where
  -- Without a transform for the stream the stored bytes are the payload's encoding, which decodes to the
  -- prepared value.
  prepared :
      (transforms : List TransformEntry) (s t : Str) (payload v : Value) (b : Bytes)
      → keep (λ (e : TransformEntry). matches e.pattern s) transforms ≡ []
      → prepare_payload env transforms s t payload ≡ ok (v, b)
      → (env.to_vec payload ≡ ok b) × (env.from_slice b ≡ ok v)
  unfolding prepare_payload transform_all
  prepared transforms s t payload v b no_match h =
      let (raw, encoded, rest) = >>=-eq-ok (env.to_vec payload) _ h in
      let (final, applied, last) = >>=-eq-ok (apply_transforms transforms s t raw) _ rest in
      let (w, decoded, made) = >>=-eq-ok (env.from_slice final) _ last in
      let unchanged : raw ≡ final = ok-injective (
        sym (apply_transforms-keep transforms s t raw ∙ ap (transform_all t raw) no_match)
        ∙ applied) in
      let same_w : w ≡ v = ap (λ (p : Value × Bytes). p.0) (ok-injective made) in
      let same_b : final ≡ b = ap (λ (p : Value × Bytes). p.1) (ok-injective made) in
      (
        encoded ∙ ap ok (unchanged ∙ same_b),
        ap env.from_slice (sym same_b) ∙ decoded ∙ ap ok same_w,
      )

  handed_on :
      (has_subs : Bool) (o : AppendOutcome) (a : Append) (e : StoredEvent)
      → post_commit env has_subs o a ≡ some e
      → (o.is_new ≡ true) × (build_stored_event env o a ≡ e)
  handed_on has_subs o a e h =
      elim (Bool-cases
        (o.is_new && (has_subs && not (starts_with a.stream_id (codes "_fossic/"))))) [
          | inl t ↦ ((ground (arith, t)), given (rw t at h))
          | inr t ↦ absurd (nothing (rw t at h))
        ]
    where
      given : {x y : StoredEvent} → some x ≡ some y → x ≡ y
      given h = cc

      nothing : {x : StoredEvent} → none ≡ some x → ⊥
      nothing h = cc

  -- The row that was written is the event that is built from the outcome.
  row_of-built :
      (db d : Db) (a : Append) (v : Value) (b : Bytes) (now : ℕ) (o : AppendOutcome)
      → env.to_vec v ≡ ok b
      → append_impl env db a v b now ≡ ok (o, d)
      → row_of env db a o.event_id o.timestamp_us b ≡ build_stored_event env o a
  row_of-built db d a v b now o encoded written =
      let (_, _, version, _, _, _) = append_impl-Appended env db d a v b now o written in
      let bytes : o.payload_bytes ≡ b =
        append_impl-payload_bytes env db d a v b now o written ∙ ap unwrap_or_default encoded in
      ap₂
        (λ n p. record {
          id = o.event_id;
          stream_id = a.stream_id;
          branch = a.branch;
          version = n;
          timestamp_us = o.timestamp_us;
          causation_id = a.causation_id;
          correlation_id = a.correlation_id;
          event_type = a.event_type;
          type_version = a.type_version;
          payload = p;
          external_id = a.external_id;
          indexed_tags = to_text env a.indexed_tags;
        })
        (sym version) (sym bytes)

  published :
      (db d db' : Db) (a : Append) (v : Value) (b : Bytes) (now : ℕ) (o : AppendOutcome)
      (has_subs : Bool) (id : EventId) (e : StoredEvent)
      → env.to_vec v ≡ ok b
      → append_impl env db a v b now ≡ ok (o, d)
      → ◌≡◌ {A = EventId × (Option StoredEvent × Db)}
          (o.event_id, (post_commit env has_subs o a, d))
          (id, (some e, db'))
      → read_one_impl db' id ≡ some e
  published db d db' a v b now o has_subs id e encoded written made =
      let (new, built) = handed_on has_subs o a e (ap (λ p. p.1.0) made) in
      ap₂ read_one_impl (sym (ap (λ p. p.1.1) made)) (sym (ap (λ p. p.0) made))
      ∙ read_one_impl-append_impl env db d a v b now o o.event_id written new
      ∙ rw (same_refl o.event_id) (ap some (row_of-built db d a v b now o encoded written ∙ built))

  -- Where decoding an encoded payload and encoding it again gives the same bytes, and no transform
  -- matches the stream, the event that a successful append hands on to subscribers is the event that its
  -- id reads from the log.
  pub append-read_one_impl :
      (transforms : List TransformEntry) (has_subs : Bool) (db db' : Db) (a : Append) (now : ℕ)
      (id : EventId) (e : StoredEvent)
      → ((v w : Value) (b : Bytes)
          → env.to_vec v ≡ ok b
          → env.from_slice b ≡ ok w
          → env.to_vec w ≡ ok b)
      → keep (λ (t : TransformEntry). matches t.pattern a.stream_id) transforms ≡ []
      → append env transforms has_subs db a now ≡ ok (id, (some e, db'))
      → read_one_impl db' id ≡ some e
  unfolding append
  append-read_one_impl transforms has_subs db db' a now id e recode no_match h =
      let ((v, b), ready, rest) =
        >>=-eq-ok (prepare_payload env transforms a.stream_id a.event_type a.payload) _ h in
      let ((o, d), written, made) = >>=-eq-ok (append_impl env db a v b now) _ rest in
      let (encoded, decoded) =
        prepared transforms a.stream_id a.event_type a.payload v b no_match ready in
      published db d db' a v b now o has_subs id e (recode a.payload v b encoded decoded) written
        (ok-injective made)
