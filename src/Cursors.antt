-- ===== src/Cursors.antt =====
-- src/cursors.rs: the progress of consumers.
pub mod Laws
use fossic.Prelude.{
  ℕ, Bool, ◌&&◌, List, [], ◌∷◌, ◌++◌, Option, none, some, any, find, map, if◌then◌else◌,
}
use fossic.Prelude.Lex.{same}
use fossic.Text.{Str}
use fossic.Tables.{Cursor, Db}

-- the primary key
abbrev pub is_cursor : Str → Str → Str → Cursor → Bool
is_cursor consumer_id stream_id branch c =
    same c.consumer_id consumer_id && same c.stream_id stream_id && same c.branch branch

abbrev pub cursor_version : Option Cursor → Option ℕ
cursor_version none = none
cursor_version (some c) = some c.version

unfoldable pub get_cursor_impl : Db → Str → Str → Str → Option ℕ
get_cursor_impl db consumer_id stream_id branch =
    cursor_version (find (is_cursor consumer_id stream_id branch) db.cursors)

abbrev pub move_cursor : Str → Str → Str → ℕ → ℕ → Cursor → Cursor
move_cursor consumer_id stream_id branch version now c =
    if is_cursor consumer_id stream_id branch c
    then record c { version = version; updated_at = now }
    else c

-- `INSERT ... ON CONFLICT(...) DO UPDATE`
unfoldable pub set_cursor_impl : Db → Str → Str → Str → ℕ → ℕ → Db
set_cursor_impl db consumer_id stream_id branch version now =
    if any (is_cursor consumer_id stream_id branch) db.cursors
    then record db {
      cursors = map (move_cursor consumer_id stream_id branch version now) db.cursors;
    }
    else record db {
      cursors =
          db.cursors
          ++ record {
            consumer_id = consumer_id;
            stream_id = stream_id;
            branch = branch;
            version = version;
            updated_at = now;
          }
            ∷ [];
    }
