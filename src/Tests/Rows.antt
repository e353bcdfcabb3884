-- ===== src/Tests/Rows.antt =====
-- The theorems on branches and cursors at small tables.
use fossic.Prelude.{
  ℕ, ◌≡◌, ◌≢◌, ◌<◌, ◌↔◌, refl, sym, ◌∙◌, subst, Bool-cases, inl, inr, Bool, true, false, ◌==◌, List,
  [], ◌∷◌, Option, none, some, map, if◌then◌else◌, arith, length,
}
use fossic.Prelude.Lex.{same, same_iff}
use fossic.Text.{Str, codes}
use fossic.Error.{Error, Result, ok}
use fossic.Tables.{BranchInfo, Db}
use fossic.Branches.{
  BranchSegment, main, ephemeral, promoted, is_row, find_branch, segment, reverse,
  resolve_branch_chain, mark_branch_dead_end_impl,
}
use fossic.Branches.Chain.{Ancestors, resolve_branch_chain_iff, resolve_branch_chain_ends}
use fossic.Branches.Lifecycle.{Steps, next, stop, ending, closed-Steps, is_closed}
use fossic.Tests.{small, letters, notes, declared}

abbrev draft : BranchInfo
draft = record {
  id = codes "draft";
  stream_id = notes;
  parent_id = main;
  parent_version = 3;
  description = none;
  created_at = 1;
  lifecycle = promoted;
  closed_at = some 2;
  closed_reason = none;
  alternatives = none;
}

abbrev idea : BranchInfo
idea = record draft {
  id = codes "idea";
  parent_id = codes "draft";
  parent_version = 5;
  lifecycle = ephemeral;
}

abbrev two_branches : Db
two_branches = record declared { branches = draft ∷ idea ∷ [] }

abbrev chain : List BranchSegment
chain =
    record { branch_id = main; to_version = some 3 }
    ∷ record { branch_id = codes "draft"; to_version = some 5 }
    ∷ record { branch_id = codes "idea"; to_version = none }
    ∷ []

resolve_branch_chain_iff_example :
    ((fuel : ℕ) × (resolve_branch_chain fuel two_branches notes (codes "idea") ≡ some (ok chain)))
    ↔ ((way : List (Str × Option ℕ)) × Ancestors two_branches notes (codes "idea") none way
        × (chain ≡ map segment (reverse way)))
resolve_branch_chain_iff_example = resolve_branch_chain_iff two_branches notes (codes "idea") chain

abbrev one_branch : Db
one_branch = record declared { branches = draft ∷ [] }

-- The parent of the only branch has a shorter name.
parent_shorter :
    (b : Str) (row : BranchInfo)
    → find_branch one_branch notes b ≡ some row
    → length row.parent_id < length b
unfolding find_branch fossic.Prelude.Lex.same
parent_shorter b row h = elim (Bool-cases (is_row notes b draft)) [
  | inl e ↦
      (let found : some draft ≡ some row = rw e at h in
        let the_row : draft ≡ row = cc in
        let named : codes "draft" ≡ b = (same_iff (codes "draft") b).0 e in
        subst (λ (r : BranchInfo). length r.parent_id < length b) the_row
          (subst (λ n. 4 < length n) named (omega arith)))
  | inr e ↦ absurd (nothing (rw e at h))
]
  where
    nothing : {row : BranchInfo} → none ≢ some row
    nothing h = cc

short : length (codes "draft") < 6
short = omega arith

resolve_branch_chain_ends_example :
    (r : Result Error (List BranchSegment)) × (resolve_branch_chain 6 one_branch notes
        (codes "draft")
      ≡ some r)
resolve_branch_chain_ends_example =
    resolve_branch_chain_ends length 6 one_branch notes (codes "draft") parent_shorter short

abbrev loop : BranchInfo
loop = record draft { id = codes "loop"; parent_id = codes "loop" }

abbrev looping : Db
looping = record declared { branches = loop ∷ [] }

different : same (codes "loop") main ≡ false
unfolding fossic.Prelude.Lex.same
different = refl

loop-ne-main : codes "loop" ≢ main
loop-ne-main h = clash (sym ((same_iff (codes "loop") main).1 h) ∙ different)
  where
    clash : true ≢ false
    clash h = cc

loop_found : find_branch looping notes (codes "loop") ≡ some loop
unfolding find_branch fossic.Prelude.Lex.same
loop_found = refl

draft_found : find_branch two_branches notes (codes "draft") ≡ some draft
unfolding find_branch fossic.Prelude.Lex.same
draft_found = refl

draft_closed : is_closed draft ≡ true
unfolding fossic.Prelude.Lex.same
draft_closed = refl

abbrev ended : Db
ended = record declared {
  branches = draft ∷ record idea { lifecycle = codes "dead_end"; closed_at = some 9 } ∷ [];
}

idea_ended : mark_branch_dead_end_impl two_branches notes (codes "idea") none 9 ≡ ok ended
unfolding mark_branch_dead_end_impl fossic.Prelude.Lex.same
idea_ended = refl

ended-Steps : Steps letters small [] two_branches ended
ended-Steps =
    next two_branches ended ended (ending notes (codes "idea") none 9 idea_ended) (stop ended)

closed-Steps_example : find_branch ended notes (codes "draft") ≡ some draft
closed-Steps_example =
    closed-Steps letters small [] two_branches ended notes (codes "draft") draft draft_found
      draft_closed ended-Steps
