-- ===== src/Branches/Chain.antt =====
-- `resolve_branch_chain` of src/branches.rs: the chain that it returns, and its loop.
use fossic.Prelude.{
  ℕ, zero, suc, ◌<◌, ◌≡◌, ◌≢◌, ◌↔◌, refl, sym, ◌∙◌, ap, subst, List, [], ◌∷◌, ◌++◌, Option, none,
  some, map, length, Bool-cases, Option-cases, inl, inr, arith, append_assoc,
}
use fossic.Prelude.Lex.{same, same_iff, same_refl, same-false}
use fossic.Text.{Str}
use fossic.Error.{Error, branch_not_found, Result, ok, err}
use fossic.Tables.{BranchInfo, Db}
use fossic.Branches.{
  BranchSegment, main, find_branch, walk, segment, segments_of, reverse, resolve_branch_chain,
}

-- The way from a branch to `main`: each branch with the version up to which it is read, which is the
-- version at which the branch before it forked.
pub data Ancestors (db : Db) (s : Str) : Str → Option ℕ → List (Str × Option ℕ) → Type 0 where
  root : (fork : Option ℕ) → Ancestors db s main fork ((main, fork) ∷ [])
  forked :
      (branch : Str) (fork : Option ℕ) (row : BranchInfo) (l : List (Str × Option ℕ))
      → branch ≢ main
      → find_branch db s branch ≡ some row
      → Ancestors db s row.parent_id (some row.parent_version) l
      → Ancestors db s branch fork ((branch, fork) ∷ l)

walk_sound :
    (fuel : ℕ) (db : Db) (s current : Str) (fork : Option ℕ) (acc l : List (Str × Option ℕ))
    → walk fuel db s current fork acc ≡ some (ok l)
    → (way : List (Str × Option ℕ)) × Ancestors db s current fork way × (l ≡ acc ++ way)
unfolding walk
walk_sound zero db s current fork acc l h = absurd (cc)
walk_sound (suc fuel) db s current fork acc l h = elim (Bool-cases (same current main)) [
  | inl e ↦
      (let at_main : current ≡ main = (same_iff current main).0 e in
        (
          (main, fork) ∷ [],
          subst (λ c. Ancestors db s c fork ((main, fork) ∷ [])) (sym at_main) (root fork),
          sym (done (rw e at h)),
        ))
  | inr e ↦ elim (Option-cases (find_branch db s current)) [
    | inl missing ↦ absurd (failed (rw (e, missing) at h))
    | inr (row, found) ↦
        (let (way, up, eq) =
            walk_sound fuel db s row.parent_id (some row.parent_version)
              (acc ++ (current, fork) ∷ []) l (rw (e, found) at h) in
          (
            (current, fork) ∷ way,
            forked current fork row way (λ eq. ground (arith, e, same_refl main)) found up,
            eq ∙ append_assoc acc ((current, fork) ∷ []) way,
          ))
  ]
]
  where
    done :
        {l l' : List (Str × Option ℕ)}
        → ◌≡◌ {A = Option (Result Error (List (Str × Option ℕ)))} (some (ok l)) (some (ok l'))
        → l ≡ l'
    done h = cc

    failed :
        {e : Error} {l : List (Str × Option ℕ)}
        → ◌≢◌ {A = Option (Result Error (List (Str × Option ℕ)))} (some (err e)) (some (ok l))
    failed h = cc

walk_complete :
    (db : Db) (s current : Str) (fork : Option ℕ) (acc way : List (Str × Option ℕ))
    → Ancestors db s current fork way
    → walk (length way) db s current fork acc ≡ some (ok (acc ++ way))
unfolding walk
walk_complete db s _ _ acc _ (root fork) = rw (same_refl main) refl
walk_complete db s _ _ acc _ (forked branch fork row l other found up) =
    rw (same-false branch main other, found)
      (walk_complete db s row.parent_id (some row.parent_version) (acc ++ (branch, fork) ∷ []) l up
        ∙ ap (λ w. some (ok w)) (append_assoc acc ((branch, fork) ∷ []) l))

-- With enough fuel the loop ends if every parent has a smaller rank than its branch.
walk_ends :
    (rank : Str → ℕ) (fuel : ℕ) (db : Db) (s current : Str) (fork : Option ℕ)
    (acc : List (Str × Option ℕ))
    → ((branch : Str) (row : BranchInfo)
        → find_branch db s branch ≡ some row
        → rank row.parent_id < rank branch)
    → rank current < fuel
    → (r : Result Error (List (Str × Option ℕ))) × (walk fuel db s current fork acc ≡ some r)
unfolding walk
walk_ends rank zero db s current fork acc up lt = absurd (omega arith)
walk_ends rank (suc fuel) db s current fork acc up lt = elim (Bool-cases (same current main)) [
  | inl e ↦ (ok (acc ++ (main, fork) ∷ []), rw e refl)
  | inr e ↦ elim (Option-cases (find_branch db s current)) [
    | inl missing ↦ (err (branch_not_found s current), rw (e, missing) refl)
    | inr (row, found) ↦
        (let (r, h) =
            walk_ends rank fuel db s row.parent_id (some row.parent_version)
              (acc ++ (current, fork) ∷ []) up (let below = up current row found in omega arith) in
          (r, rw (e, found) h))
  ]
]

-- A branch that is its own parent.
walk_cycle :
    (fuel : ℕ) (db : Db) (s branch : Str) (row : BranchInfo) (fork : Option ℕ)
    (acc : List (Str × Option ℕ))
    → branch ≢ main
    → find_branch db s branch ≡ some row
    → row.parent_id ≡ branch
    → walk fuel db s branch fork acc ≡ none
unfolding walk
walk_cycle zero db s branch row fork acc other found own = refl
walk_cycle (suc fuel) db s branch row fork acc other found own =
    rw (same-false branch main other, found)
      (ap (λ p. walk fuel db s p (some row.parent_version) (acc ++ (branch, fork) ∷ [])) own
        ∙ walk_cycle fuel db s branch row (some row.parent_version) (acc ++ (branch, fork) ∷ [])
            other found own)

segments_of-eq :
    (m : Option (Result Error (List (Str × Option ℕ)))) (chain : List BranchSegment)
    → segments_of m ≡ some (ok chain)
    → (l : List (Str × Option ℕ)) × (m ≡ some (ok l)) × (chain ≡ map segment (reverse l))
segments_of-eq none chain h = absurd (cc)
segments_of-eq (some (err e)) chain h = absurd (cc)
segments_of-eq (some (ok l)) chain h = (l, refl, cc)

resolved_sound :
    (fuel : ℕ) (db : Db) (s branch : Str) (chain : List BranchSegment)
    → resolve_branch_chain fuel db s branch ≡ some (ok chain)
    → (way : List (Str × Option ℕ)) × Ancestors db s branch none way
      × (chain ≡ map segment (reverse way))
unfolding resolve_branch_chain reverse
resolved_sound fuel db s branch chain h = elim (Bool-cases (same branch main)) [
  | inl e ↦
      (let at_main : branch ≡ main = (same_iff branch main).0 e in
        (
          (main, none) ∷ [],
          subst (λ c. Ancestors db s c none ((main, none) ∷ [])) (sym at_main) (root none),
          sym (given (rw e at h)),
        ))
  | inr e ↦
      (let (l, walked, eq) = segments_of-eq (walk fuel db s branch none []) chain (rw e at h) in
        let (way, up, eq') = walk_sound fuel db s branch none [] l walked in
        (way, up, eq ∙ ap (λ w. map segment (reverse w)) eq'))
]
  where
    given :
        {l l' : List BranchSegment}
        → ◌≡◌ {A = Option (Result Error (List BranchSegment))} (some (ok l)) (some (ok l'))
        → l ≡ l'
    given h = cc

resolved_by_walk :
    (fuel : ℕ) (db : Db) (s branch : Str)
    → branch ≢ main
    → resolve_branch_chain fuel db s branch ≡ segments_of (walk fuel db s branch none [])
unfolding resolve_branch_chain
resolved_by_walk fuel db s branch other = rw (same-false branch main other) refl

resolved_complete :
    (db : Db) (s branch : Str) (way : List (Str × Option ℕ))
    → Ancestors db s branch none way
    → resolve_branch_chain (length way) db s branch ≡ some (ok (map segment (reverse way)))
unfolding resolve_branch_chain reverse
resolved_complete db s _ _ (root _) = rw (same_refl main) refl
resolved_complete db s _ _ (forked branch fork row l other found up) =
    resolved_by_walk (length ((branch, fork) ∷ l)) db s branch other
    ∙ (ap segments_of (
        walk_complete db s branch fork [] ((branch, fork) ∷ l)
          (forked branch fork row l other found up)))

-- The chain that is returned is the way from the branch to `main`, from `main` on: some fuel gives it
-- exactly when it is this way.
pub resolve_branch_chain_iff :
    (db : Db) (s branch : Str) (chain : List BranchSegment)
    → ((fuel : ℕ) × (resolve_branch_chain fuel db s branch ≡ some (ok chain))) ↔ (
        (way : List (Str × Option ℕ)) × Ancestors db s branch none way
        × (chain ≡ map segment (reverse way)))
resolve_branch_chain_iff db s branch chain = (
  (λ h. resolved_sound h.0 db s branch chain h.1),
  (λ h. (length h.0, resolved_complete db s branch h.0 h.1 ∙ ap (λ c. some (ok c)) (sym h.2))),
)

segments_of-ends :
    (r : Result Error (List (Str × Option ℕ)))
    → (r' : Result Error (List BranchSegment)) × (segments_of (some r) ≡ some r')
segments_of-ends (ok l) = (ok (map segment (reverse l)), refl)
segments_of-ends (err e) = (err e, refl)

-- If a rank of the branches of a stream falls from every branch to its parent, the chain of a branch
-- is resolved, to a chain or an error, with fuel above the branch's rank.
pub resolve_branch_chain_ends :
    (rank : Str → ℕ) (fuel : ℕ) (db : Db) (s branch : Str)
    → ((b : Str) (row : BranchInfo) → find_branch db s b ≡ some row → rank row.parent_id < rank b)
    → rank branch < fuel
    → (r : Result Error (List BranchSegment)) × (resolve_branch_chain fuel db s branch ≡ some r)
unfolding resolve_branch_chain
resolve_branch_chain_ends rank fuel db s branch up lt = elim (Bool-cases (same branch main)) [
  | inl e ↦ (ok (record { branch_id = main; to_version = none } ∷ []), rw e refl)
  | inr e ↦
      (let (r, h) = walk_ends rank fuel db s branch none [] up lt in
        let (r', h') = segments_of-ends r in (r', rw (e, h) h'))
]

-- For a branch other than `main` that is its own parent no fuel is enough.
pub resolve_branch_chain-own_parent :
    (fuel : ℕ) (db : Db) (s branch : Str) (row : BranchInfo)
    → branch ≢ main
    → find_branch db s branch ≡ some row
    → row.parent_id ≡ branch
    → resolve_branch_chain fuel db s branch ≡ none
unfolding resolve_branch_chain
resolve_branch_chain-own_parent fuel db s branch row other found own =
    rw (same-false branch main other, walk_cycle fuel db s branch row none [] other found own) refl
