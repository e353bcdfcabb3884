-- ===== src/Stream.antt =====
-- src/stream.rs: stream ids and the registry of declared streams.
pub mod Valid
pub mod Registry
pub mod Listing
use fossic.Prelude.{
  ℕ, ◌+◌, leb, keep, Bool, true, false, not, ◌&&◌, ◌||◌, List, [], ◌∷◌, ◌++◌, Option, ltb, ◌==◌,
  any, length, if◌then◌else◌,
}
use fossic.Prelude.Lex.{same}
use fossic.Text.{Str, codes, split, byte_len, as_bytes}
use fossic.Error.{
  Error, invalid_stream_id, Reason, literal, exceeds_character_limit, disallowed_character,
  too_many_segments, Result, ok, err, ◌>>=◌,
}
use fossic.Prelude.Words.{Bytes}
use fossic.Cce.Sort.{sort_by}
use fossic.Tables.{StreamInfo, Db}

abbrev pub max_stream_id_len : ℕ
max_stream_id_len = 256

abbrev pub max_stream_segments : ℕ
max_stream_segments = 4

-- the loop over the segments
abbrev pub is_empty : Str → Bool
is_empty [] = true
is_empty (c ∷ s) = false

unfoldable pub check_segments : Str → List Str → Result Error (Unit {0})
check_segments id [] = ok tt
check_segments id (seg ∷ rest) =
    if is_empty seg
    then err (
        invalid_stream_id id
          (literal (codes "contains empty path segment (leading/trailing slash or double slash)")))
    else check_segments id rest

-- the test of the number of segments
unfoldable pub check_count : Str → ℕ → Result Error (Unit {0})
check_count id n =
    if ltb max_stream_segments n
    then err (invalid_stream_id id (too_many_segments n max_stream_segments))
    else ok tt

-- `INSERT OR IGNORE INTO streams`: the id is the primary key
unfoldable pub insert_stream : StreamInfo → List StreamInfo → List StreamInfo
insert_stream s streams =
    if any (λ (t : StreamInfo). same t.id s.id) streams then streams else streams ++ s ∷ []

-- `char::is_alphanumeric` is a parameter.
module _ (is_alphanumeric : ℕ → Bool) where
  abbrev pub allowed : ℕ → Bool
  allowed c = is_alphanumeric c || c == b'-' || c == b'_' || c == b'/'

  -- the loop over the characters
  unfoldable pub check_allowed : Str → Str → Result Error (Unit {0})
  check_allowed id [] = ok tt
  check_allowed id (c ∷ rest) =
      if allowed c
      then check_allowed id rest
      else err (invalid_stream_id id (disallowed_character c))

  unfoldable pub validate_stream_id : Str → Result Error (Unit {0})
  unfolding check_allowed check_count check_segments
  validate_stream_id id =
      if is_empty id
      then err (invalid_stream_id id (literal (codes "must not be empty")))
      else if ltb max_stream_id_len (byte_len id)
      then err (invalid_stream_id id (exceeds_character_limit max_stream_id_len))
      else do
        _ ← check_allowed id id
        _ ← check_count id (length (split id))
        check_segments id (split id)

  unfoldable pub declare_stream : Db → Str → Str → Option Str → ℕ → Result Error Db
  unfolding insert_stream
  declare_stream db stream_id declared_by description now = do
    _ ← validate_stream_id stream_id
    ok (record db {
      streams =
          insert_stream
            (record {
              id = stream_id;
              declared_by = declared_by;
              declared_at = now;
              description = description;
            })
            db.streams;
    })

unfoldable pub stream_exists : Db → Str → Bool
stream_exists db stream_id = any (λ (t : StreamInfo). same t.id stream_id) db.streams

-- `LIKE` compares ASCII letters without their case.
abbrev pub lower : ℕ → ℕ
lower c = if leb b'A' c && leb c b'Z' then c + 32 else c

unfoldable pub begins_like : Str → Str → Bool
begins_like s [] = true
begins_like [] (p ∷ ps) = false
begins_like (c ∷ s) (p ∷ ps) = lower c == p && begins_like s ps

-- `id LIKE '_fossic/%'`: the `_` stands for any one character.
abbrev pub like_system : Str → Bool
like_system [] = false
like_system (c ∷ s) = begins_like s (codes "fossic/")

abbrev pub id_bytes : StreamInfo → Bytes
id_bytes s = as_bytes s.id

-- `WHERE id NOT LIKE '_fossic/%' ORDER BY id`
unfoldable pub streams_impl : Db → List StreamInfo
unfolding begins_like
streams_impl db = sort_by id_bytes (keep (λ (s : StreamInfo). not (like_system s.id)) db.streams)
