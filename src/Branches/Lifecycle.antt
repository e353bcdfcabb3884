-- ===== src/Branches/Lifecycle.antt =====
-- The operations of src/branches.rs as steps, and the lifecycle of a branch under them.
use fossic.Prelude.{
  find-append, ℕ, ◌≡◌, ◌≢◌, refl, sym, ◌∙◌, ap, subst, Bool, true, false, ◌||◌, List, [], ◌∷◌,
  Option, none, some, map, find, any, Bool-cases, Option-cases, inl, inr, arith,
}
use fossic.Prelude.Lex.{same, same_iff}
use fossic.Text.{Str}
use fossic.Env.{Env}
use fossic.Error.{Error, Result, ok, err, >>=-eq-ok, ok-injective}
use fossic.Tables.{BranchInfo, Db}
use fossic.Branches.{
  CreateBranch, main, promoted, dead_end, is_row, find_branch, validate_branch_id,
  check_alternatives, create_branch_impl, close_row, close_branch, promote_branch_impl,
  mark_branch_dead_end_impl,
}

abbrev pub is_closed : BranchInfo → Bool
is_closed row = same row.lifecycle promoted || same row.lifecycle dead_end

-- One successful operation on the branches of a store.
pub data Step (is_alphanumeric : ℕ → Bool) (env : Env) (violation : Str) (db db' : Db)
    : Type 0 where
  created :
      (b : CreateBranch) (now : ℕ)
      → create_branch_impl is_alphanumeric env violation db b now ≡ ok db'
      → Step is_alphanumeric env violation db db'
  promotion :
      (s b : Str) (reason : Option Str) (now : ℕ)
      → promote_branch_impl db s b reason now ≡ ok db'
      → Step is_alphanumeric env violation db db'
  ending :
      (s b : Str) (reason : Option Str) (now : ℕ)
      → mark_branch_dead_end_impl db s b reason now ≡ ok db'
      → Step is_alphanumeric env violation db db'

pub data Steps (is_alphanumeric : ℕ → Bool) (env : Env) (violation : Str) : Db → Db → Type 0 where
  stop : (db : Db) → Steps is_alphanumeric env violation db db
  next :
      (db db' db'' : Db)
      → Step is_alphanumeric env violation db db'
      → Steps is_alphanumeric env violation db' db''
      → Steps is_alphanumeric env violation db db''

abbrev map_row : (BranchInfo → BranchInfo) → Option BranchInfo → Option BranchInfo
map_row f none = none
map_row f (some row) = some (f row)

-- Closing a row keeps its key.
is_row-close_row :
    (s b s' b' l : Str) (reason : Option Str) (now : ℕ) (row : BranchInfo)
    → is_row s b (close_row s' b' l reason now row) ≡ is_row s b row
is_row-close_row s b s' b' l reason now row = elim (Bool-cases (is_row s' b' row)) [
  | inl e ↦ rw e refl
  | inr e ↦ rw e refl
]

find-map :
    (test : BranchInfo → Bool) (f : BranchInfo → BranchInfo) (rows : List BranchInfo)
    → ((row : BranchInfo) → test (f row) ≡ test row)
    → find test (map f rows) ≡ map_row f (find test rows)
find-map test f [] h = refl
find-map test f (row ∷ rows) h = elim (Bool-cases (test row)) [
  | inl e ↦ rw (h row, e) refl
  | inr e ↦ rw (h row, e) (find-map test f rows h)
]

-- A row is found under its own key.
find_branch-is_row :
    (s b : Str) (rows : List BranchInfo) (row : BranchInfo)
    → find (is_row s b) rows ≡ some row
    → is_row s b row ≡ true
find_branch-is_row s b [] row h = absurd (cc)
find_branch-is_row s b (r ∷ rows) row h = elim (Bool-cases (is_row s b r)) [
  | inl e ↦
      (let eq : some r ≡ some row = rw e at h in
        let at : r ≡ row = cc in subst (λ x. is_row s b x ≡ true) at e)
  | inr e ↦ find_branch-is_row s b rows row (rw e at h)
]

find_branch-key :
    (db : Db) (s b : Str) (row : BranchInfo)
    → find_branch db s b ≡ some row
    → (row.stream_id ≡ s) × (row.id ≡ b)
unfolding find_branch
find_branch-key db s b row h =
    let own = find_branch-is_row s b db.branches row h in
    (ground (arith, own, same_iff row.stream_id s), ground (arith, own, same_iff row.id b))

find_branch-close_branch :
    (db : Db) (s b s' b' l : Str) (reason : Option Str) (now : ℕ)
    → find_branch (close_branch db s' b' l reason now) s b
      ≡ map_row (close_row s' b' l reason now) (find_branch db s b)
unfolding find_branch
find_branch-close_branch db s b s' b' l reason now =
    find-map (is_row s b) (close_row s' b' l reason now) db.branches
      (is_row-close_row s b s' b' l reason now)

-- Closing a branch that is open leaves a closed one as it is.
closed-close_branch :
    (db : Db) (s b s' b' l : Str) (reason : Option Str) (now : ℕ) (row r : BranchInfo)
    → find_branch db s b ≡ some row
    → is_closed row ≡ true
    → find_branch db s' b' ≡ some r
    → is_closed r ≡ false
    → find_branch (close_branch db s' b' l reason now) s b ≡ some row
closed-close_branch db s b s' b' l reason now row r found closed found' unclosed =
    find_branch-close_branch db s b s' b' l reason now
    ∙ ap (map_row (close_row s' b' l reason now)) found
    ∙ elim (Bool-cases (is_row s' b' row)) [
      | inl e ↦
          (let (own_s, own_b) = find_branch-key db s b row found in
            let at_s : s ≡ s' = sym own_s ∙ ground (arith, e, same_iff row.stream_id s') in
            let at_b : b ≡ b' = sym own_b ∙ ground (arith, e, same_iff row.id b') in
            let equal : some row ≡ some r =
              sym found
              ∙ ap (λ t. find_branch db t b) at_s
              ∙ ap (find_branch db s') at_b
              ∙ found' in
            let the_row : row ≡ r = cc in
            absurd (clash (sym closed ∙ ap is_closed the_row ∙ unclosed)))
      | inr e ↦ rw e refl
    ]
  where
    clash : true ≢ false
    clash h = cc

failed : {A : Type 0} {e : Error} {a : A} → ◌≢◌ {A = Result Error A} (err e) (ok a)
failed h = cc

module _ (is_alphanumeric : ℕ → Bool) (env : Env) (violation : Str) where
  kept-create_branch :
      (db db' : Db) (s b : Str) (row : BranchInfo)
      → find_branch db s b ≡ some row
      → (c : CreateBranch) (now : ℕ)
      → create_branch_impl is_alphanumeric env violation db c now ≡ ok db'
      → find_branch db' s b ≡ some row
  unfolding create_branch_impl find_branch
  kept-create_branch db db' s b row found c now h = elim (Bool-cases (same c.branch_id main)) [
    | inl e ↦ absurd (failed (rw e at h))
    | inr e ↦
        (let (_, _, checked) =
            >>=-eq-ok (validate_branch_id is_alphanumeric c.branch_id) _ (rw e at h) in
          let (_, _, inserted) = >>=-eq-ok (check_alternatives c.alternatives) _ checked in
          elim (Bool-cases (any (is_row c.stream_id c.branch_id) db.branches)) [
            | inl old ↦ absurd (failed (rw old at inserted))
            | inr fresh ↦
                subst (λ (d : Db). find (is_row s b) d.branches ≡ some row)
                  (ok-injective (rw fresh at inserted))
                  (find-append (is_row s b) db.branches _ row found)
          ])
  ]

  closed-Step :
      (db db' : Db) (s b : Str) (row : BranchInfo)
      → find_branch db s b ≡ some row
      → is_closed row ≡ true
      → Step is_alphanumeric env violation db db'
      → find_branch db' s b ≡ some row
  unfolding promote_branch_impl mark_branch_dead_end_impl
  closed-Step db db' s b row found closed (created c now h) =
      kept-create_branch db db' s b row found c now h
  closed-Step db db' s b row found closed (promotion s' b' reason now h) =
      elim (Option-cases (find_branch db s' b')) [
        | inl missing ↦ absurd (failed (rw (promote_branch_impl, missing) at h))
        | inr (r, found') ↦ elim (Bool-cases (same r.lifecycle promoted)) [
          | inl e ↦
              subst (λ d. find_branch d s b ≡ some row)
                (ok-injective (rw (promote_branch_impl, found', e) at h)) found
          | inr e ↦ elim (Bool-cases (same r.lifecycle dead_end)) [
            | inl e' ↦ absurd (failed (rw (promote_branch_impl, found', e, e') at h))
            | inr e' ↦
                subst (λ d. find_branch d s b ≡ some row)
                  (ok-injective (rw (promote_branch_impl, found', e, e') at h))
                  (closed-close_branch db s b s' b' promoted reason now row r found closed found'
                    (rw (e, e') refl))
          ]
        ]
      ]
  closed-Step db db' s b row found closed (ending s' b' reason now h) =
      elim (Option-cases (find_branch db s' b')) [
        | inl missing ↦ absurd (failed (rw (mark_branch_dead_end_impl, missing) at h))
        | inr (r, found') ↦ elim (Bool-cases (same r.lifecycle dead_end)) [
          | inl e ↦
              subst (λ d. find_branch d s b ≡ some row)
                (ok-injective (rw (mark_branch_dead_end_impl, found', e) at h)) found
          | inr e ↦ elim (Bool-cases (same r.lifecycle promoted)) [
            | inl e' ↦ absurd (failed (rw (mark_branch_dead_end_impl, found', e, e') at h))
            | inr e' ↦
                subst (λ d. find_branch d s b ≡ some row)
                  (ok-injective (rw (mark_branch_dead_end_impl, found', e, e') at h))
                  (closed-close_branch db s b s' b' dead_end reason now row r found closed found'
                    (rw (e', e) refl))
          ]
        ]
      ]

  -- Once a branch is promoted or a dead end, its row stays as it is, whatever branches are created,
  -- promoted or marked as dead ends afterwards.
  pub closed-Steps :
      (db db' : Db) (s b : Str) (row : BranchInfo)
      → find_branch db s b ≡ some row
      → is_closed row ≡ true
      → Steps is_alphanumeric env violation db db'
      → find_branch db' s b ≡ some row
  closed-Steps db _ s b row found closed (stop _) = found
  closed-Steps db db' s b row found closed (next _ mid _ step steps) =
      closed-Steps mid db' s b row (closed-Step db mid s b row found closed step) closed steps
