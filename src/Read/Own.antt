-- ===== src/Read/Own.antt =====
-- read_one_impl of src/read.rs after append_impl of src/append.rs.
use fossic.Prelude.{
  ℕ, ◌≡◌, refl, Bool, true, false, ◌||◌, List, [], ◌∷◌, ◌++◌, some, find, Bool-cases, inl, inr,
  arith, if◌then◌else◌,
}
use fossic.Prelude.Lex.{same, same_iff}
use fossic.Prelude.Words.{Bytes}
use fossic.Env.{Env}
use fossic.Json.{Value}
use fossic.Error.{ok}
use fossic.EventId.{EventId}
use fossic.Tables.{StoredEvent, Append, Db}
use fossic.Append.{AppendOutcome, append_impl}
use fossic.Append.Log.{has_id}
use fossic.Append.Outcome.{row_of, append_impl-Appended, Appended-cases}
use fossic.Read.{read_one_impl}

or_right : (a b : Bool) → (a || b) ≡ false → b ≡ false
or_right a b h = ground (arith, h)

find-push :
    (id : EventId) (es : List StoredEvent) (row : StoredEvent)
    → has_id row.id es ≡ false
    → find (λ (e : StoredEvent). same e.id id) (es ++ row ∷ [])
      ≡ (if same row.id id then some row else find (λ (e : StoredEvent). same e.id id) es)
find-push id [] row h = refl
find-push id (e ∷ es) row h = elim (Bool-cases (same e.id id)) [
  | inl at ↦
      (let other : same row.id id ≡ false =
          ground (arith, at, h, same_iff e.id id, same_iff row.id id, same_iff e.id row.id) in
        rw (at, other) refl)
  | inr miss ↦ rw miss (find-push id es row (or_right (same e.id row.id) (has_id row.id es) h))
]

-- After a successful append that is new, its id reads the event with the append's fields at the version
-- that was next, and every other id reads what it read before.
pub read_one_impl-append_impl :
    (env : Env) (db db' : Db) (a : Append) (payload : Value) (bytes : Bytes) (now : ℕ)
    (o : AppendOutcome) (id : EventId)
    → append_impl env db a payload bytes now ≡ ok (o, db')
    → o.is_new ≡ true
    → read_one_impl db' id ≡ (
        if same o.event_id id
        then some (row_of env db a o.event_id o.timestamp_us bytes)
        else read_one_impl db id)
unfolding read_one_impl
read_one_impl-append_impl env db db' a payload bytes now o id h new =
    Appended-cases env
      (λ d. read_one_impl d id ≡ (
        if same o.event_id id
        then some (row_of env db a o.event_id o.timestamp_us bytes)
        else read_one_impl db id))
      db db' a payload bytes now o (append_impl-Appended env db db' a payload bytes now o h)
      (λ _ old. absurd (cc))
      (λ fresh _. find-push id db.events (row_of env db a o.event_id o.timestamp_us bytes) fresh)
