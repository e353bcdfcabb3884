-- ===== src/Stream/Registry.antt =====
-- Declaring the streams of src/stream.rs.
use fossic.Prelude.{
  ℕ, ◌≡◌, refl, ap, ◌∙◌, subst, Bool, true, ◌||◌, List, [], ◌∷◌, Option, arith, any, any-append,
  Bool-cases, inl, inr,
}
use fossic.Prelude.Lex.{same, same_iff, same_refl}
use fossic.Text.{Str}
use fossic.Error.{ok, >>=-eq-ok, ok-injective}
use fossic.Tables.{StreamInfo, Db}
use fossic.Stream.{insert_stream, declare_stream, stream_exists, validate_stream_id}

-- Whether a stream exists after an insertion.
pub exists-insert_stream :
    (s : StreamInfo) (streams : List StreamInfo) (id : Str)
    → any (λ (t : StreamInfo). same t.id id) (insert_stream s streams)
      ≡ (same s.id id || any (λ (t : StreamInfo). same t.id id) streams)
unfolding insert_stream
exists-insert_stream s streams id =
    elim (Bool-cases (any (λ (t : StreamInfo). same t.id s.id) streams)) [
      | inl old ↦ rw old (present streams old)
      | inr new ↦
          rw (new, any-append (λ (t : StreamInfo). same t.id id) streams (s ∷ [])) (ground arith)
    ]
  where
    present :
        (l : List StreamInfo)
        → any (λ (t : StreamInfo). same t.id s.id) l ≡ true
        → any (λ (t : StreamInfo). same t.id id) l
          ≡ (same s.id id || any (λ (t : StreamInfo). same t.id id) l)
    present [] h = cc
    present (t ∷ l) h =
        ground (arith, present l, same_iff t.id s.id, same_iff t.id id, same_iff s.id id)

module _ (is_alphanumeric : ℕ → Bool) where
  -- After a declaration exactly the declared stream exists besides those that existed before.
  pub stream_exists-declare_stream :
      (db db' : Db) (stream_id declared_by : Str) (description : Option Str) (now : ℕ) (id : Str)
      → declare_stream is_alphanumeric db stream_id declared_by description now ≡ ok db'
      → stream_exists db' id ≡ (same stream_id id || stream_exists db id)
  unfolding declare_stream stream_exists
  stream_exists-declare_stream db db' stream_id declared_by description now id h =
      let (_, _, done) = >>=-eq-ok (validate_stream_id is_alphanumeric stream_id) _ h in
      subst
        (λ d.
          any (λ (t : StreamInfo). same t.id id) d.streams
          ≡ (same stream_id id || any (λ (t : StreamInfo). same t.id id) db.streams))
        (ok-injective done)
        (exists-insert_stream
          (record {
            id = stream_id;
            declared_by = declared_by;
            declared_at = now;
            description = description;
          })
          db.streams id)

  valid_of_declared :
      (db db' : Db) (stream_id by : Str) (description : Option Str) (now : ℕ)
      → declare_stream is_alphanumeric db stream_id by description now ≡ ok db'
      → validate_stream_id is_alphanumeric stream_id ≡ ok tt
  unfolding declare_stream
  valid_of_declared db db' stream_id by description now h =
      let (_, valid, _) = >>=-eq-ok (validate_stream_id is_alphanumeric stream_id) _ h in valid

  declare_stream-of_existing :
      (db : Db) (stream_id by : Str) (description : Option Str) (now : ℕ)
      → validate_stream_id is_alphanumeric stream_id ≡ ok tt
      → stream_exists db stream_id ≡ true
      → declare_stream is_alphanumeric db stream_id by description now ≡ ok db
  unfolding declare_stream insert_stream stream_exists
  declare_stream-of_existing db stream_id by description now valid present =
      rw (valid, present) refl

  -- A second declaration of a stream, whatever its other arguments, changes nothing.
  pub declare_stream_again :
      (db db' : Db) (stream_id by by' : Str) (description description' : Option Str) (now now' : ℕ)
      → declare_stream is_alphanumeric db stream_id by description now ≡ ok db'
      → declare_stream is_alphanumeric db' stream_id by' description' now' ≡ ok db'
  declare_stream_again db db' stream_id by by' description description' now now' h =
      let present : stream_exists db' stream_id ≡ true =
        stream_exists-declare_stream db db' stream_id by description now stream_id h
        ∙ ap (λ b. b || stream_exists db stream_id) (same_refl stream_id) in
      declare_stream-of_existing db' stream_id by' description' now'
        (valid_of_declared db db' stream_id by description now h) present
