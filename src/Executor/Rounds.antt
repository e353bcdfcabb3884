-- ===== src/Executor/Rounds.antt =====
-- Rounds of the thread of src/executor.rs while the store is quiescent.
use fossic.Prelude.{
  ℕ, sym, suc, ◌≡◌, refl, ◌∙◌, ap, subst, true, false, List, [], ◌∷◌, ◌++◌, Option, none, some,
  length, append-nil, All, arith,
}
use fossic.Error.{Error, Result, ok, err}
use fossic.Snapshots.{SnapshotInfo}
use fossic.Snapshots.Auto.{Keyed}
use fossic.Tables.{Db}
use fossic.Env.{Env}
use fossic.Reducers.{ReducerRegistry}
use fossic.Executor.{
  BacklogTask, precedes, pop, QuiescenceMonitor, is_quiescent, Background, Tick, run_task, requeue,
  turn, execute_task, TaskKind, gc_orphan_snapshots, take_snapshot_of, custom, or_unchanged,
  bg_take_snapshot,
}
use fossic.Executor.Order.{Inserted, first, later, IsBest, pop-IsBest}

-- The tasks of a heap, each once, in an order in which no task precedes one before it.
pub data IsOrder : List BacklogTask → List BacklogTask → Type 0 where
  done : IsOrder [] []
  next :
      {t : BacklogTask} {out rest ts : List BacklogTask}
      → Inserted t rest ts
      → All (λ u. precedes u t ≡ false) ts
      → IsOrder out rest
      → IsOrder (t ∷ out) ts

abbrev pub added : Option BacklogTask → List BacklogTask → List BacklogTask
added none ts = ts
added (some t) ts = t ∷ ts

module _ (env : Env) (registry : ReducerRegistry) (monitor : QuiescenceMonitor)
    (window_us : ℕ) where
  -- the rounds from a state: the last state, and the tasks that were popped
  unfoldable pub rounds : Background → List Tick → Background × List BacklogTask
  unfolding turn
  rounds state [] = (state, [])
  rounds state (tick ∷ ticks) =
      let (state', popped) = turn env registry state monitor window_us tick in
      let (state_end, out) = rounds state' ticks in (state_end, added popped out)

  abbrev pub IsQuiet : Tick → Type 0
  IsQuiet tick =
      tick.stop ≡ false
      × (tick.received ≡ [] × is_quiescent monitor window_us tick.now ≡ true)
      × tick.store_is_alive ≡ true

  turn_quiet :
      (state : Background) (tick : Tick) (task : BacklogTask) (rest : List BacklogTask)
      → IsQuiet tick
      → pop state.heap ≡ some (task, rest)
      → turn env registry state monitor window_us tick
        ≡ (run_task env registry state tick task rest, some task)
  unfolding turn
  turn_quiet state tick task rest (running, (nothing, quiet), alive) e =
      let same_heap = ap (λ ts. state.heap ++ ts) nothing ∙ append-nil state.heap in
      rw (running, turn) (rw same_heap (rw quiet (rw e refl)))

  -- the task is run once
  abbrev pub IsOnce : BacklogTask → Type 0
  IsOnce task = task.recurring_interval ≡ none

  run_task-heap :
      (state : Background) (tick : Tick) (task : BacklogTask) (rest : List BacklogTask)
      → IsOnce task
      → (run_task env registry state tick task rest).heap ≡ rest
  unfolding run_task
  run_task-heap state tick task rest h = rw h (append-nil rest)

  Inserted-All :
      (P : BacklogTask → Type 0) {t : BacklogTask} {rest ts : List BacklogTask}
      → Inserted t rest ts
      → All P ts
      → P t × All P rest
  Inserted-All P first (p, ps) = (p, ps)
  Inserted-All P (later i) (p, ps) = let (q, qs) = Inserted-All P i ps in (q, (p, qs))

  Inserted-length :
      {t : BacklogTask} {rest ts : List BacklogTask}
      → Inserted t rest ts
      → length ts ≡ suc (length rest)
  Inserted-length first = refl
  Inserted-length (later i) = ap suc (Inserted-length i)

  -- The state after tasks were executed in their order, each at the time of its tick.
  unfoldable pub executed : List Tick → List BacklogTask → Background → Background
  unfolding execute_task
  executed (tick ∷ ticks) (task ∷ tasks) state =
      executed ticks tasks (execute_task registry tick.now state task.kind)
  executed ticks tasks state = state

  -- What the tasks make of a state does not depend on the heap.
  execute_task-heap :
      (now : ℕ) (state : Background) (kind : TaskKind) (heap : List BacklogTask)
      → record (execute_task registry now state kind) { heap = heap }
        ≡ execute_task registry now (record state { heap = heap }) kind
  unfolding execute_task
  execute_task-heap now state gc_orphan_snapshots heap = refl
  execute_task-heap now state (custom f) heap = refl
  execute_task-heap now state (take_snapshot_of s b) heap =
      taken (bg_take_snapshot registry now state.db state.last_snapshot_us s b)
    where
      taken :
          (r : Result Error (SnapshotInfo × (Db × Keyed ℕ)))
          → record (or_unchanged registry now state r) { heap = heap }
            ≡ or_unchanged registry now (record state { heap = heap }) r
      taken (ok (info, (db, stamps))) = refl
      taken (err e) = refl

  executed-heap :
      (ticks : List Tick) (tasks : List BacklogTask) (state : Background) (heap : List BacklogTask)
      → record (executed ticks tasks (record state { heap = heap })) { heap = [] }
        ≡ record (executed ticks tasks state) { heap = [] }
  unfolding executed
  executed-heap [] tasks state heap = refl
  executed-heap (tick ∷ ticks) [] state heap = refl
  executed-heap (tick ∷ ticks) (task ∷ tasks) state heap =
      ap (λ (s : Background). record (executed ticks tasks s) { heap = [] })
        (sym (execute_task-heap tick.now state task.kind heap))
      ∙ executed-heap ticks tasks (execute_task registry tick.now state task.kind) heap

  run_task-executed :
      (state : Background) (tick : Tick) (task : BacklogTask) (rest : List BacklogTask)
      → tick.store_is_alive ≡ true
      → run_task env registry state tick task rest
        ≡ record (execute_task registry tick.now state task.kind) {
          heap = rest ++ requeue tick.now task task.recurring_interval;
        }
  unfolding run_task
  run_task-executed state tick task rest alive = rw alive refl

  -- Where the store is alive, quiet rounds, as many as the heap has tasks that do not recur, take each of them
  -- once from the heap and leave it empty; no task is taken before one that precedes it; and the state is
  -- what executing the tasks makes of it, in that order and each at the time of its round.
  pub rounds-IsOrder :
      (state : Background) (ticks : List Tick)
      → All IsQuiet ticks
      → All IsOnce state.heap
      → length ticks ≡ length state.heap
      → IsOrder (rounds state ticks).1 state.heap
        × ((rounds state ticks).0
            ≡ record (executed ticks (rounds state ticks).1 state) { heap = [] })
  unfolding rounds executed
  rounds-IsOrder state ticks quiet once h =
      drain state ticks quiet once h (pop state.heap) (pop-IsBest state.heap) refl
    where
      no_rounds : {A : Type 0} → ⊥ → A
      no_rounds b = absurd b

      drain :
          (state : Background) (ticks : List Tick)
          → All IsQuiet ticks
          → All IsOnce state.heap
          → length ticks ≡ length state.heap
          → (o : Option (BacklogTask × List BacklogTask)) → IsBest state.heap o
          → pop state.heap ≡ o
          → IsOrder (rounds state ticks).1 state.heap
            × ((rounds state ticks).0
                ≡ record (executed ticks (rounds state ticks).1 state) { heap = [] })
      drain state [] quiet once h none empty e =
          (rw empty done, ap (λ ts. record state { heap = ts }) empty)
      drain state (tick ∷ ticks) quiet once h none empty e =
          no_rounds (omega (arith, h, ap length empty))
      drain state [] quiet once h (some (t, rest)) (i, best) e =
          no_rounds (omega (arith, h, Inserted-length i))
      drain state (tick ∷ ticks) (q, quiet) once h (some (t, rest)) (i, best) e =
          let (once_t, once_rest) = Inserted-All IsOnce i once in
          let state' = run_task env registry state tick t rest in
          let heap' = run_task-heap state tick t rest once_t in
          let out = (rounds state' ticks).1 in
          let (order, made) =
            drain state' ticks quiet (rw heap' once_rest)
              (rw heap' (omega (arith, h, Inserted-length i))) (pop state'.heap)
              (pop-IsBest state'.heap) refl in
          let (_, _, alive) = q in
          let step = run_task-executed state tick t rest alive in
          rw (turn_quiet state tick t rest q e) (
            next i best (subst (IsOrder out) heap' order),
            made
                ∙ ap (λ (s : Background). record (executed ticks out s) { heap = [] }) step
                ∙ executed-heap ticks out (execute_task registry tick.now state t.kind) _,
          )
