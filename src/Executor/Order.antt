-- ===== src/Executor/Order.antt =====
-- The order in which the heap of src/executor.rs gives its tasks.
use fossic.Prelude.{
  ◌≡◌, refl, true, false, List, [], ◌∷◌, Option, none, some, All, All-mono, Bool-cases, inl, inr,
  arith,
}
use fossic.Executor.{BacklogTask, precedes, pop}

-- The order is transitive in this form.
precedes_trans :
    (t u v : BacklogTask) → precedes u t ≡ false → precedes v u ≡ false → precedes v t ≡ false
unfolding precedes
precedes_trans t u v h k = ground (arith, h, k)

-- The first task is not preceded by the other, or the other comes first.
precedes_asym : (t u : BacklogTask) → precedes u t ≡ true → precedes t u ≡ false
unfolding precedes
precedes_asym t u h = ground (arith, h)

precedes_irrefl : (t : BacklogTask) → precedes t t ≡ false
unfolding precedes
precedes_irrefl t = ground arith

-- A permutation in one step: the list is the task put somewhere into the rest.
pub data Inserted (t : BacklogTask) : List BacklogTask → List BacklogTask → Type 0 where
  first : {ts : List BacklogTask} → Inserted t ts (t ∷ ts)
  later :
      {u : BacklogTask} {rest ts : List BacklogTask}
      → Inserted t rest ts
      → Inserted t (u ∷ rest) (u ∷ ts)

-- What a pop gives: a task that no task of the heap precedes, and the others.
abbrev pub IsBest : List BacklogTask → Option (BacklogTask × List BacklogTask) → Type 0
IsBest ts none = ts ≡ []
IsBest ts (some (t, rest)) = Inserted t rest ts × All (λ u. precedes u t ≡ false) ts

pop_step :
    (t : BacklogTask) (ts : List BacklogTask) (o : Option (BacklogTask × List BacklogTask))
    → IsBest ts o
    → pop ts ≡ o
    → IsBest (t ∷ ts) (pop (t ∷ ts))
unfolding pop
pop_step t ts none h e = rw (e, pop) (first, (precedes_irrefl t, rw h tt))
pop_step t ts (some (u, rest)) h e = elim (Bool-cases (precedes u t)) [
  | inl before ↦ rw (e, pop) (rw before (later h.0, (precedes_asym t u before, h.1)))
  | inr not_before ↦
      rw (e, pop)
        (rw not_before (
          first,
          (
            precedes_irrefl t,
            All-mono (λ v. precedes v u ≡ false) _ ts (λ v k. precedes_trans t u v not_before k)
                h.1,
          ),
        ))
]

-- A pop of the heap gives one of its tasks such that no task of the heap precedes it, with a higher priority or
-- with the same and an earlier deadline; the rest is the heap without it. Only of an empty heap
-- there is none.
pub pop-IsBest : (ts : List BacklogTask) → IsBest ts (pop ts)
unfolding pop
pop-IsBest [] = refl
pop-IsBest (t ∷ ts) = pop_step t ts (pop ts) (pop-IsBest ts) refl
