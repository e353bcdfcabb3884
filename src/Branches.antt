-- ===== src/Branches.antt =====
-- src/branches.rs: the branches of a stream, their lifecycle, and the chain of a branch's ancestors.
-- The loop of `resolve_branch_chain` runs on fuel: `none` means that the fuel did not suffice.
pub mod Lifecycle
pub mod Chain
use fossic.Prelude.{
  ℕ, zero, suc, Bool, true, false, not, ◌&&◌, ◌||◌, List, [], ◌∷◌, ◌++◌, Option, none, some, ltb,
  ◌==◌, any, find, keep, map, if◌then◌else◌,
}
use fossic.Prelude.Order.{order_by}
use fossic.Prelude.Lex.{same}
use fossic.Text.{Str, codes, byte_len}
use fossic.Json.{Value, is_array}
use fossic.Env.{Env}
use fossic.Error.{
  Error, invalid_branch_id, invalid_alternatives, branch_not_found, branch_lifecycle_error, sqlite,
  Reason, literal, max_chars, invalid_character, already_dead_end, already_promoted, Result, ok,
  err, ◌>>=◌,
}
use fossic.Glob.{starts_with_slash, ends_with_slash}
use fossic.Stream.{is_empty, allowed}
use fossic.Tables.{BranchInfo, Db}
use fossic.Append.{to_text}

pub record CreateBranch : Type 0 where
  pub stream_id : Str
  pub branch_id : Str
  pub parent_id : Str
  pub parent_version : ℕ
  pub description : Option Str
  pub alternatives : Option Value

pub record BranchSegment : Type 0 where
  pub branch_id : Str
  pub to_version : Option ℕ

abbrev pub main : Str
main = codes "main"

abbrev pub ephemeral : Str
ephemeral = codes "ephemeral"

abbrev pub promoted : Str
promoted = codes "promoted"

abbrev pub dead_end : Str
dead_end = codes "dead_end"

-- `contains("//")`
unfoldable pub contains_double_slash : Str → Bool
contains_double_slash [] = false
contains_double_slash (c ∷ []) = false
contains_double_slash (c ∷ d ∷ s) = (c == b'/' && d == b'/') || contains_double_slash (d ∷ s)

unfoldable pub check_alternatives : Option Value → Result Error (Unit {0})
check_alternatives none = ok tt
check_alternatives (some alt) = if is_array alt then ok tt else err invalid_alternatives

-- the row of `WHERE stream_id = ?1 AND id = ?2`, the primary key
abbrev pub is_row : Str → Str → BranchInfo → Bool
is_row stream_id branch_id row = same row.stream_id stream_id && same row.id branch_id

unfoldable pub find_branch : Db → Str → Str → Option BranchInfo
find_branch db stream_id branch_id = find (is_row stream_id branch_id) db.branches

-- `char::is_alphanumeric` is a parameter.
module _ (is_alphanumeric : ℕ → Bool) where
  -- the loop over the characters
  unfoldable pub check_characters : Str → Str → Result Error (Unit {0})
  check_characters id [] = ok tt
  check_characters id (c ∷ s) =
      if allowed is_alphanumeric c
      then check_characters id s
      else err (invalid_branch_id id (invalid_character c))

  unfoldable pub validate_branch_id : Str → Result Error (Unit {0})
  unfolding check_characters contains_double_slash
  validate_branch_id id =
      if is_empty id
      then err (invalid_branch_id id (literal (codes "cannot be empty")))
      else if ltb 128 (byte_len id)
      then err (invalid_branch_id id (max_chars 128 (byte_len id)))
      else do
        _ ← check_characters id id
        if starts_with_slash id || ends_with_slash id || contains_double_slash id
            then err
                (invalid_branch_id id (literal (codes "no leading/trailing/consecutive slashes")))
            else ok tt

  -- The message of a violated primary key comes from the database.
  unfoldable pub create_branch_impl : Env → Str → Db → CreateBranch → ℕ → Result Error Db
  unfolding validate_branch_id check_alternatives find_branch
  create_branch_impl env violation db b now =
      if same b.branch_id main
      then err (invalid_branch_id main (literal (codes "'main' is reserved")))
      else do
        _ ← validate_branch_id b.branch_id
        _ ← check_alternatives b.alternatives
        if any (is_row b.stream_id b.branch_id) db.branches
            then err (sqlite violation)
            else ok (record db {
              branches =
                  db.branches
                  ++ record {
                    id = b.branch_id;
                    stream_id = b.stream_id;
                    parent_id = b.parent_id;
                    parent_version = b.parent_version;
                    description = b.description;
                    created_at = now;
                    lifecycle = ephemeral;
                    closed_at = none;
                    closed_reason = none;
                    alternatives = to_text env b.alternatives;
                  }
                    ∷ [];
            })

-- `UPDATE branches SET lifecycle = .., closed_at = ?1, closed_reason = ?2 WHERE ..`
abbrev pub close_row : Str → Str → Str → Option Str → ℕ → BranchInfo → BranchInfo
close_row stream_id branch_id lifecycle reason now row =
    if is_row stream_id branch_id row
    then record row { lifecycle = lifecycle; closed_at = some now; closed_reason = reason }
    else row

abbrev pub close_branch : Db → Str → Str → Str → Option Str → ℕ → Db
close_branch db stream_id branch_id lifecycle reason now = record db {
  branches = map (close_row stream_id branch_id lifecycle reason now) db.branches;
}

unfoldable pub promote_branch_impl : Db → Str → Str → Option Str → ℕ → Result Error Db
unfolding find_branch
promote_branch_impl db stream_id branch_id reason now = elim (find_branch db stream_id branch_id) [
  | none ↦ err (branch_not_found stream_id branch_id)
  | some row ↦
      if same row.lifecycle promoted
      then ok db
      else if same row.lifecycle dead_end
      then err (branch_lifecycle_error (already_dead_end branch_id))
      else ok (close_branch db stream_id branch_id promoted reason now)
]

unfoldable pub mark_branch_dead_end_impl : Db → Str → Str → Option Str → ℕ → Result Error Db
unfolding find_branch
mark_branch_dead_end_impl db stream_id branch_id reason now =
    elim (find_branch db stream_id branch_id) [
      | none ↦ err (branch_not_found stream_id branch_id)
      | some row ↦
          if same row.lifecycle dead_end
          then ok db
          else if same row.lifecycle promoted
          then err (branch_lifecycle_error (already_promoted branch_id))
          else ok (close_branch db stream_id branch_id dead_end reason now)
    ]

abbrev pub creation : BranchInfo → ℕ
creation row = row.created_at

unfoldable pub list_branches_impl : Db → Str → List BranchInfo
list_branches_impl db stream_id =
    order_by creation (keep (λ (row : BranchInfo). same row.stream_id stream_id) db.branches)

-- the loop, with `current`, `fork_version` and `chain_rev`
unfoldable pub walk :
    ℕ
    → Db
    → Str
    → Str
    → Option ℕ
    → List (Str × Option ℕ)
    → Option (Result Error (List (Str × Option ℕ)))
unfolding find_branch
walk zero db stream_id current fork_version chain_rev = none
walk (suc fuel) db stream_id current fork_version chain_rev =
    if same current main
    then some (ok (chain_rev ++ (main, fork_version) ∷ []))
    else elim (find_branch db stream_id current) [
      | none ↦ some (err (branch_not_found stream_id current))
      | some row ↦
          walk fuel db stream_id row.parent_id (some row.parent_version)
            (chain_rev ++ (current, fork_version) ∷ [])
    ]

abbrev pub segment : Str × Option ℕ → BranchSegment
segment p = record { branch_id = p.0; to_version = p.1 }

-- `reverse()`
unfoldable pub reverse : List (Str × Option ℕ) → List (Str × Option ℕ)
reverse [] = []
reverse (x ∷ xs) = reverse xs ++ x ∷ []

abbrev pub segments_of :
    Option (Result Error (List (Str × Option ℕ))) → Option (Result Error (List BranchSegment))
segments_of none = none
segments_of (some (err e)) = some (err e)
segments_of (some (ok chain_rev)) = some (ok (map segment (reverse chain_rev)))

unfoldable pub resolve_branch_chain :
    ℕ → Db → Str → Str → Option (Result Error (List BranchSegment))
unfolding walk reverse
resolve_branch_chain fuel db stream_id branch_id =
    if same branch_id main
    then some (ok (record { branch_id = main; to_version = none } ∷ []))
    else segments_of (walk fuel db stream_id branch_id none [])
