-- ===== src/Cursors/Laws.antt =====
-- Setting and reading the cursors of src/cursors.rs.
use fossic.Prelude.{
  ℕ, ◌≡◌, ◌≢◌, refl, sym, ◌∙◌, ap, Bool, true, false, ◌&&◌, List, [], ◌∷◌, ◌++◌, some, any, find,
  map, if◌then◌else◌, Bool-cases, inl, inr, arith,
}
use fossic.Prelude.Lex.{same, same_iff, same_refl}
use fossic.Text.{Str}
use fossic.Tables.{Cursor, Db}
use fossic.Cursors.{is_cursor, cursor_version, move_cursor, get_cursor_impl, set_cursor_impl}

-- Whether two keys are equal.
abbrev pub same_cursor : Str → Str → Str → Str → Str → Str → Bool
same_cursor c s b c' s' b' = same c c' && same s s' && same b b'

is_cursor-move_cursor :
    (c s b c' s' b' : Str) (v now : ℕ) (row : Cursor)
    → is_cursor c' s' b' (move_cursor c s b v now row) ≡ is_cursor c' s' b' row
is_cursor-move_cursor c s b c' s' b' v now row = elim (Bool-cases (is_cursor c s b row)) [
  | inl e ↦ rw e refl
  | inr e ↦ rw e refl
]

moved_here :
    (c s b : Str) (v now : ℕ) (rows : List Cursor)
    → any (is_cursor c s b) rows ≡ true
    → cursor_version (find (is_cursor c s b) (map (move_cursor c s b v now) rows)) ≡ some v
moved_here c s b v now [] h = cc
moved_here c s b v now (row ∷ rows) h = elim (Bool-cases (is_cursor c s b row)) [
  | inl e ↦ rw (is_cursor-move_cursor c s b c s b v now row, e) refl
  | inr e ↦
      rw (is_cursor-move_cursor c s b c s b v now row, e) (moved_here c s b v now rows (rw e at h))
]

-- A row under another key.
apart :
    (c s b c' s' b' : Str) (row : Cursor)
    → same_cursor c s b c' s' b' ≡ false
    → is_cursor c' s' b' row ≡ true
    → is_cursor c s b row ≡ false
apart c s b c' s' b' row other at = ground (
  arith,
  other,
  at,
  same_iff row.consumer_id c,
  same_iff row.consumer_id c',
  same_iff c c',
  same_iff row.stream_id s,
  same_iff row.stream_id s',
  same_iff s s',
  same_iff row.branch b,
  same_iff row.branch b',
  same_iff b b',
)

moved_elsewhere :
    (c s b c' s' b' : Str) (v now : ℕ) (rows : List Cursor)
    → same_cursor c s b c' s' b' ≡ false
    → find (is_cursor c' s' b') (map (move_cursor c s b v now) rows)
      ≡ find (is_cursor c' s' b') rows
moved_elsewhere c s b c' s' b' v now [] other = refl
moved_elsewhere c s b c' s' b' v now (row ∷ rows) other =
    elim (Bool-cases (is_cursor c' s' b' row)) [
      | inl e ↦
          rw (is_cursor-move_cursor c s b c' s' b' v now row, e)
            (rw (apart c s b c' s' b' row other e) refl)
      | inr e ↦
          rw (is_cursor-move_cursor c s b c' s' b' v now row, e)
            (moved_elsewhere c s b c' s' b' v now rows other)
    ]

last_here :
    (c s b : Str) (rows : List Cursor) (new : Cursor)
    → is_cursor c s b new ≡ true
    → any (is_cursor c s b) rows ≡ false
    → find (is_cursor c s b) (rows ++ new ∷ []) ≡ some new
last_here c s b [] new own h = rw own refl
last_here c s b (row ∷ rows) new own h = elim (Bool-cases (is_cursor c s b row)) [
  | inl e ↦ absurd (clash (rw e at h))
  | inr e ↦ rw e (last_here c s b rows new own (rw e at h))
]
  where
    clash : true ≢ false
    clash h = cc

last_elsewhere :
    (c s b : Str) (rows : List Cursor) (new : Cursor)
    → is_cursor c s b new ≡ false
    → find (is_cursor c s b) (rows ++ new ∷ []) ≡ find (is_cursor c s b) rows
last_elsewhere c s b [] new other = rw other refl
last_elsewhere c s b (row ∷ rows) new other = rw (last_elsewhere c s b rows new other) refl

own_key : (c s b : Str) → same_cursor c s b c s b ≡ true
own_key c s b = rw (same_refl c, same_refl s, same_refl b) refl

set_here :
    (db : Db) (c s b : Str) (v now : ℕ)
    → get_cursor_impl (set_cursor_impl db c s b v now) c s b ≡ some v
unfolding get_cursor_impl set_cursor_impl
set_here db c s b v now = elim (Bool-cases (any (is_cursor c s b) db.cursors)) [
  | inl old ↦ rw old (moved_here c s b v now db.cursors old)
  | inr fresh ↦ rw fresh (
      ap cursor_version (
        last_here c s b db.cursors
          (record { consumer_id = c; stream_id = s; branch = b; version = v; updated_at = now })
          (own_key c s b) fresh))
]

set_elsewhere :
    (db : Db) (c s b c' s' b' : Str) (v now : ℕ)
    → same_cursor c s b c' s' b' ≡ false
    → get_cursor_impl (set_cursor_impl db c s b v now) c' s' b' ≡ get_cursor_impl db c' s' b'
unfolding get_cursor_impl set_cursor_impl
set_elsewhere db c s b c' s' b' v now other = elim (Bool-cases (any (is_cursor c s b) db.cursors)) [
  | inl old ↦ rw old (ap cursor_version (moved_elsewhere c s b c' s' b' v now db.cursors other))
  | inr fresh ↦ rw fresh (
      ap cursor_version (
        last_elsewhere c' s' b' db.cursors
          (record { consumer_id = c; stream_id = s; branch = b; version = v; updated_at = now })
          other))
]

-- Setting a cursor to a version makes reads of its key return that version, and leaves every other
-- cursor as it is.
pub get_cursor-set_cursor :
    (db : Db) (c s b c' s' b' : Str) (v now : ℕ)
    → get_cursor_impl (set_cursor_impl db c s b v now) c' s' b'
      ≡ (if same_cursor c s b c' s' b' then some v else get_cursor_impl db c' s' b')
get_cursor-set_cursor db c s b c' s' b' v now = elim (Bool-cases (same_cursor c s b c' s' b')) [
  | inl e ↦
      (let at_c : c ≡ c' = ground (arith, e, same_iff c c') in
        let at_s : s ≡ s' = ground (arith, e, same_iff s s') in
        let at_b : b ≡ b' = ground (arith, e, same_iff b b') in
        rw e (
          ap (get_cursor_impl (set_cursor_impl db c s b v now) c' s') (sym at_b)
          ∙ ap (λ t. get_cursor_impl (set_cursor_impl db c s b v now) c' t b) (sym at_s)
          ∙ ap (λ t. get_cursor_impl (set_cursor_impl db c s b v now) t s b) (sym at_c)
          ∙ set_here db c s b v now))
  | inr e ↦ rw e (set_elsewhere db c s b c' s' b' v now e)
]
