-- ===== src/Reducers.antt =====
-- src/reducers.rs: the registry of reducers by stream pattern, and snapshot policies.
-- A reducer is foreign code: its five methods are fields, and a call of `apply_bytes` may panic.
pub mod Overlap
pub mod Lookup
use fossic.Prelude.{
  ℕ, ◌≡◌, Bool, true, false, not, ◌&&◌, ◌||◌, List, [], ◌∷◌, ◌++◌, Option, none, some, ltb, ◌==◌,
  any, all, length, map, find, if◌then◌else◌,
}
use fossic.Prelude.Lex.{same}
use fossic.Prelude.Words.{Bytes}
use fossic.Text.{Str, codes, split}
use fossic.Error.{Error, snapshot_policy_invalid, reducer_pattern_ambiguous, Result, ok, err, ◌>>=◌}
use fossic.Glob.{star, double_star, matches, specificity_score}

-- What a call of foreign code did.
pub data Call {ℓ} (A : Type ℓ) : Type ℓ where
  returned : A → Call A
  panicked : Str → Call A

pub record BoxedReducer : Type 0 where
  pub name : Str
  pub version : ℕ
  pub state_schema_version : ℕ
  pub initial_state_bytes : Result Error Bytes
  pub apply_bytes : Bytes → Bytes → Call (Result Error Bytes)

-- `SnapshotPolicy` of src/types.rs
pub data SnapshotPolicy : Type 0 where
  manual : SnapshotPolicy
  every_n_events : ℕ → SnapshotPolicy
  every_n_seconds : ℕ → SnapshotPolicy
  state_adaptive : ℕ → ℕ → SnapshotPolicy

pub record ReducerEntry : Type 0 where
  pub pattern : Str
  pub specificity : ℕ
  pub reducer : BoxedReducer
  pub policy : SnapshotPolicy

abbrev pub ReducerRegistry : Type 0
ReducerRegistry = List ReducerEntry

unfoldable pub validate_snapshot_policy : SnapshotPolicy → Result Error (Unit {0})
validate_snapshot_policy manual = ok tt
validate_snapshot_policy (every_n_events n) =
    if n == 0 then err (snapshot_policy_invalid (codes "EveryNEvents requires N >= 1")) else ok tt
validate_snapshot_policy (every_n_seconds n) =
    if n == 0 then err (snapshot_policy_invalid (codes "EveryNSeconds requires N >= 1")) else ok tt
validate_snapshot_policy (state_adaptive target min) = ok tt

-- the test of `zip(..).all(..)` on two patterns without `**`
abbrev pub compatible : List Str → List Str → Bool
compatible [] bs = true
compatible (a ∷ as') [] = true
compatible (a ∷ as') (b ∷ bs) = (same a star || same b star || same a b) && compatible as' bs

abbrev pub has_double_star : List Str → Bool
has_double_star = any (λ s. same s double_star)

unfoldable pub parts_may_overlap : List Str → List Str → Bool
parts_may_overlap a_parts b_parts =
    let a_has_dstar = has_double_star a_parts in
    let b_has_dstar = has_double_star b_parts in
    if not a_has_dstar && not b_has_dstar && not (length a_parts == length b_parts)
    then false
    else if not a_has_dstar && not b_has_dstar
    then compatible a_parts b_parts
    else true

unfoldable pub patterns_may_overlap : Str → Str → Bool
unfolding parts_may_overlap split
patterns_may_overlap a b = parts_may_overlap (split a) (split b)

-- the loop over the entries: the first one that the new pattern is ambiguous with
unfoldable pub check_ambiguous : Str → ℕ → ReducerRegistry → Result Error (Unit {0})
check_ambiguous pattern spec [] = ok tt
check_ambiguous pattern spec (existing ∷ rest) =
    if patterns_may_overlap pattern existing.pattern && spec == existing.specificity
    then err (reducer_pattern_ambiguous existing.pattern pattern)
    else check_ambiguous pattern spec rest

unfoldable pub register_with_policy :
    ReducerRegistry → Str → BoxedReducer → SnapshotPolicy → Result Error ReducerRegistry
unfolding check_ambiguous
register_with_policy entries pattern reducer policy = do
  _ ← validate_snapshot_policy policy
  let spec = specificity_score pattern
  _ ← check_ambiguous pattern spec entries
  ok (
      entries
      ++ record { pattern = pattern; specificity = spec; reducer = reducer; policy = policy } ∷ [])

unfoldable pub register : ReducerRegistry → Str → BoxedReducer → Result Error ReducerRegistry
unfolding register_with_policy
register entries pattern reducer = register_with_policy entries pattern reducer manual

-- the choice of the loop between the best entry so far and the next one
unfoldable pub better : Str → Option ReducerEntry → ReducerEntry → Option ReducerEntry
better stream_id best entry =
    if matches entry.pattern stream_id
    then elim best [
      | none ↦ some entry
      | some b ↦ if ltb b.specificity entry.specificity then some entry else some b
    ]
    else best

unfoldable pub find_best : Str → Option ReducerEntry → ReducerRegistry → Option ReducerEntry
unfolding better
find_best stream_id best [] = best
find_best stream_id best (entry ∷ rest) = find_best stream_id (better stream_id best entry) rest

-- `find_arc_with_policy`, with the whole entry in place of its reducer and policy
unfoldable pub find_entry : ReducerRegistry → Str → Option ReducerEntry
unfolding find_best
find_entry entries stream_id = find_best stream_id none entries

unfoldable pub find_by_name : ReducerRegistry → Str → Option BoxedReducer
find_by_name entries name = elim (find (λ (e : ReducerEntry). same e.reducer.name name) entries) [
  | none ↦ none
  | some e ↦ some e.reducer
]

unfoldable pub active_keys : ReducerRegistry → List (Str × ℕ)
active_keys = map (λ (e : ReducerEntry). (e.reducer.name, e.reducer.state_schema_version))
