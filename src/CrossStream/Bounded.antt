-- ===== src/CrossStream/Bounded.antt =====
-- walk_causation_bounded_impl of src/cross_stream.rs: the walk by whole levels, within a budget.
-- The loop runs for the rounds that its depth leaves. A set of ids is the list of them. The codec of
-- cursors is a parameter.
pub mod Budget
pub mod Expand
pub mod Whole
use fossic.Prelude.{
  ℕ, zero, suc, ◌+◌, ◌-◌, ◌/◌, ◌%◌, Bool, true, false, not, ◌&&◌, ◌||◌, List, [], ◌∷◌, ◌++◌, Option,
  none, some, ltb, any, keep, map, take, length, if◌then◌else◌,
}
use fossic.Prelude.Lex.{same}
use fossic.Prelude.Words.{Bytes}
use fossic.Text.{codes}
use fossic.Cce.Sort.{sort_by}
use fossic.Error.{Error, sqlite, Result, ok, err, ◌>>=◌}
use fossic.EventId.{EventId}
use fossic.Tables.{StoredEvent, Db}
use fossic.Read.{
  bind_all, ReadOutcome, complete, truncated, result_count, byte_size, CursorInner, causation,
}
use fossic.CrossStream.{WalkDirection, forward, backward, both, is_id, id_of, causes, merge}

pub data SamplingMode : Type 0 where
  exhaustive : SamplingMode
  breadth_first : ℕ → SamplingMode
  adaptive : ℕ → SamplingMode

abbrev pub is_empty {ℓ} : {A : Type ℓ} → List A → Bool
is_empty [] = true
is_empty (x ∷ xs) = false

-- the rows of the two statements
unfoldable pub children_of : Db → List EventId → List StoredEvent
children_of db frontier =
    sort_by id_of (keep (λ (e : StoredEvent). any (λ i. is_id i e.causation_id) frontier) db.events)

-- `id IN (SELECT causation_id ...)`
unfoldable pub parents_of : Db → List EventId → List StoredEvent
unfolding causes
parents_of db frontier =
    let parents = causes db frontier in
    sort_by id_of (keep (λ (e : StoredEvent). any (same e.id) parents) db.events)

unfoldable pub bfs_expand_forward : Db → List EventId → Result Error (List StoredEvent)
unfolding children_of
bfs_expand_forward db frontier = bind_all frontier (children_of db frontier)

unfoldable pub bfs_expand_backward : Db → List EventId → Result Error (List StoredEvent)
unfolding parents_of
bfs_expand_backward db frontier = bind_all frontier (parents_of db frontier)

-- the union of the two, in the order of the ids
abbrev pub union : List StoredEvent → List StoredEvent → List StoredEvent
union fwd bwd = sort_by id_of (merge fwd bwd)

unfoldable pub expand_frontier : Db → List EventId → WalkDirection → Result Error (List StoredEvent)
unfolding bfs_expand_forward bfs_expand_backward merge
expand_frontier db frontier forward = bfs_expand_forward db frontier
expand_frontier db frontier backward = bfs_expand_backward db frontier
expand_frontier db frontier both = do
  fwd ← bfs_expand_forward db frontier
  bwd ← bfs_expand_backward db frontier
  ok (union fwd bwd)

-- `n.max(1)`
abbrev pub at_least_one : ℕ → ℕ
at_least_one zero = 1
at_least_one (suc n) = suc n

unfoldable pub apply_bfs_sampling : List StoredEvent → SamplingMode → ℕ → List StoredEvent
apply_bfs_sampling events exhaustive max_depth = events
apply_bfs_sampling events (breadth_first max_per_level) max_depth = take max_per_level events
apply_bfs_sampling events (adaptive target_count) max_depth =
    take (at_least_one (target_count / at_least_one max_depth)) events

abbrev pub direction_byte : WalkDirection → ℕ
direction_byte forward = 0
direction_byte backward = 1
direction_byte both = 2

-- `limit.is_some_and(|n| total > n)`
abbrev pub would_exceed : Option ℕ → ℕ → Bool
would_exceed none total = false
would_exceed (some n) total = ltb n total

abbrev pub level_bytes : List StoredEvent → ℕ
level_bytes [] = 0
level_bytes (e ∷ es) = length e.payload + level_bytes es

abbrev pub unseen : List EventId → List StoredEvent → List StoredEvent
unseen seen events = keep (λ (e : StoredEvent). not (any (same e.id) seen)) events

-- the events of the next level
unfoldable pub next_level :
    Db
    → WalkDirection
    → ℕ
    → SamplingMode
    → List EventId
    → List EventId
    → Result Error (List StoredEvent)
unfolding expand_frontier apply_bfs_sampling
next_level db direction max_depth sampling frontier seen = do
  events ← expand_frontier db frontier direction
  ok (apply_bfs_sampling (unseen seen events) sampling max_depth)

module _ (encode : CursorInner → Result Error Bytes) (db : Db) (direction : WalkDirection)
    (max_depth : ℕ) (sampling : SamplingMode) (max_results max_bytes : Option ℕ) where
  -- the loop: the rounds left, `current_frontier`, `seen`, `results`, `byte_count` and `depth`
  unfoldable pub walk_rounds :
      ℕ
      → List EventId
      → List EventId
      → List StoredEvent
      → ℕ
      → ℕ
      → Result Error (ReadOutcome (List StoredEvent))
  unfolding next_level
  walk_rounds zero frontier seen results byte_count depth = ok (complete results)
  walk_rounds (suc rounds) frontier seen results byte_count depth = do
    level ← next_level db direction max_depth sampling frontier seen
    let by_count = would_exceed max_results (length results + length level)
    let by_bytes = would_exceed max_bytes (byte_count + level_bytes level)
    let rest =
        walk_rounds rounds (map id_of level) (seen ++ map id_of level) (results ++ level)
          (byte_count + level_bytes level) (depth + 1)
    if is_empty frontier || is_empty level
        then ok (complete results)
        else if (by_count || by_bytes) && not (is_empty results)
        then (do
          cursor ← encode (causation frontier (direction_byte direction) ((depth - 1) % 4294967296))
          ok (truncated results (some cursor) (if by_count then result_count else byte_size)))
        else rest

  -- from the start or, with a cursor's frontier and depth, from there; `depth <= max_depth` holds for
  -- as many rounds
  unfoldable pub walk_causation_bounded_impl :
      EventId → Option (List EventId × ℕ) → Result Error (ReadOutcome (List StoredEvent))
  unfolding walk_rounds
  walk_causation_bounded_impl start none = walk_rounds max_depth (start ∷ []) (start ∷ []) [] 0 1
  walk_causation_bounded_impl start (some (frontier, depth_consumed)) =
      walk_rounds (max_depth + 1 - (depth_consumed + 1)) frontier frontier [] 0 (depth_consumed + 1)
