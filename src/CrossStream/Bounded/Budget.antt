-- ===== src/CrossStream/Bounded/Budget.antt =====
-- The budget of walk_causation_bounded_impl of src/cross_stream.rs.
use fossic.Prelude.{
  ℕ, zero, suc, ◌+◌, ◌-◌, ◌≤◌, ◌≡◌, ◌⊎◌, refl, sym, ◌∙◌, ap, subst, Bool, true, false, ◌&&◌, ◌||◌,
  List, [], ◌∷◌, ◌++◌, Option, none, some, length, length-append, map, Bool-cases, inl, inr, arith,
  if◌then◌else◌,
}
use fossic.Prelude.Words.{Bytes}
use fossic.Error.{Error, Result, ok, >>=-eq-ok, ok-injective}
use fossic.EventId.{EventId}
use fossic.Tables.{StoredEvent, Db}
use fossic.Read.{ReadOutcome, complete, truncated, CursorInner}
use fossic.CrossStream.{WalkDirection, id_of}
use fossic.CrossStream.Bounded.{
  SamplingMode, is_empty, would_exceed, level_bytes, next_level, walk_rounds,
  walk_causation_bounded_impl,
}

abbrev pub data_of : {A : Type 0} → ReadOutcome A → A
data_of (complete a) = a
data_of (truncated a cursor reason) = a

abbrev pub IsAtMost : ℕ → Option ℕ → Type 0
IsAtMost n none = Unit
IsAtMost n (some limit) = n ≤ limit

-- Within both budgets.
abbrev pub IsWithin : Option ℕ → Option ℕ → List StoredEvent → Type 0
IsWithin max_results max_bytes es =
    IsAtMost (length es) max_results × IsAtMost (level_bytes es) max_bytes

level_bytes-append :
    (xs ys : List StoredEvent) → level_bytes (xs ++ ys) ≡ level_bytes xs + level_bytes ys
level_bytes-append [] ys = omega arith
level_bytes-append (x ∷ xs) ys = omega (arith, level_bytes-append xs ys)

IsAtMost-of_test :
    (limit : Option ℕ) (n m : ℕ) → would_exceed limit n ≡ false → m ≡ n → IsAtMost m limit
IsAtMost-of_test none n m h e = tt
IsAtMost-of_test (some l) n m h e = ground (arith, h, e)

nonempty : (xs ys : List StoredEvent) → is_empty xs ≡ false → is_empty (xs ++ ys) ≡ false
nonempty [] ys h = absurd (cc)
nonempty (x ∷ xs) ys h = refl

not_over : {A : Type 0} (b : Bool) (x y : A) {z : A} → (if b && false then x else y) ≡ z → y ≡ z
not_over true x y h = h
not_over false x y h = h

nothing : (max_results max_bytes : Option ℕ) → IsWithin max_results max_bytes []
nothing none none = (tt, tt)
nothing none (some b) = (tt, omega arith)
nothing (some r) none = (omega arith, tt)
nothing (some r) (some b) = (omega arith, omega arith)

module _ (encode : CursorInner → Result Error Bytes) (db : Db) (direction : WalkDirection)
    (max_depth : ℕ) (sampling : SamplingMode) (max_results max_bytes : Option ℕ) where
  walk_rounds-IsWithin :
      (rounds : ℕ) (frontier seen : List EventId) (first results : List StoredEvent)
      (bytes depth : ℕ) (out : ReadOutcome (List StoredEvent))
      → (results ≡ first) ⊎ IsWithin max_results max_bytes results
      → is_empty results ≡ false
      → bytes ≡ level_bytes results
      → walk_rounds encode db direction max_depth sampling max_results max_bytes rounds frontier
          seen results bytes depth
        ≡ ok out
      → (data_of out ≡ first) ⊎ IsWithin max_results max_bytes (data_of out)
  unfolding walk_rounds
  walk_rounds-IsWithin zero frontier seen first results bytes depth out w ne b h =
      subst (λ o. (data_of o ≡ first) ⊎ IsWithin max_results max_bytes (data_of o)) (ok-injective h)
        w
  walk_rounds-IsWithin (suc rounds) frontier seen first results bytes depth out w ne b h0 =
      let (level, _, h) =
        >>=-eq-ok (next_level db direction max_depth sampling frontier seen) _ h0 in
      let n = length results + length level in
      let m = bytes + level_bytes level in
      elim (Bool-cases (is_empty frontier || is_empty level)) [
        | inl stop ↦
            subst (λ o. (data_of o ≡ first) ⊎ IsWithin max_results max_bytes (data_of o))
              (ok-injective (rw stop at h)) w
        | inr go ↦ elim (Bool-cases (would_exceed max_results n || would_exceed max_bytes m)) [
          | inl over ↦
              (let (cursor, _, made) =
                  >>=-eq-ok (encode _) _ (rw ne at (rw over at (rw go at h))) in
                subst (λ o. (data_of o ≡ first) ⊎ IsWithin max_results max_bytes (data_of o))
                  (ok-injective made) w)
          | inr under ↦
              walk_rounds-IsWithin rounds (map id_of level) (seen ++ map id_of level) first
                (results ++ level) m (depth + 1) out
                (inr (
                  IsAtMost-of_test max_results n _ (ground (arith, under))
                      (length-append results level),
                  IsAtMost-of_test max_bytes m _ (ground (arith, under))
                      (omega (arith, b, level_bytes-append results level)),
                ))
                (nonempty results level ne) (omega (arith, b, level_bytes-append results level))
                (rw under at (rw go at h))
        ]
      ]

  walk_rounds-first :
      (rounds : ℕ) (frontier : List EventId) (depth : ℕ) (out : ReadOutcome (List StoredEvent))
      → walk_rounds encode db direction max_depth sampling max_results max_bytes rounds frontier
          frontier [] 0 depth
        ≡ ok out
      → (next_level db direction max_depth sampling frontier frontier ≡ ok (data_of out))
        ⊎ IsWithin max_results max_bytes (data_of out)
  unfolding walk_rounds
  walk_rounds-first zero frontier depth out h =
      subst
        (λ o.
          (next_level db direction max_depth sampling frontier frontier ≡ ok (data_of o))
          ⊎ IsWithin max_results max_bytes (data_of o))
        (ok-injective h) (inr (nothing max_results max_bytes))
  walk_rounds-first (suc rounds) frontier depth out h0 =
      let (level, found, h) =
        >>=-eq-ok (next_level db direction max_depth sampling frontier frontier) _ h0 in
      elim (Bool-cases (is_empty frontier || is_empty level)) [
        | inl stop ↦
            subst
              (λ o.
                (next_level db direction max_depth sampling frontier frontier ≡ ok (data_of o))
                ⊎ IsWithin max_results max_bytes (data_of o))
              (ok-injective (rw stop at h)) (inr (nothing max_results max_bytes))
        | inr go ↦
            elim (walk_rounds-IsWithin rounds (map id_of level) (frontier ++ map id_of level) level
              level (0 + level_bytes level) (depth + 1) out (inl refl) (ground (arith, go))
              (omega arith)
              (not_over
                (would_exceed max_results (0 + length level)
                  || would_exceed max_bytes (0 + level_bytes level))
                _ _ (rw go at h))) [ inl e ↦ inl (found ∙ ap ok (sym e)) | inr w ↦ inr w ]
      ]

  abbrev frontier_of : EventId → Option (List EventId × ℕ) → List EventId
  frontier_of start none = start ∷ []
  frontier_of start (some (frontier, depth)) = frontier

  -- A bounded walk that succeeds returns no more events than its limit and no more bytes of payload than
  -- its budget, as far as they are given; or it returns exactly the first level from its frontier, which is
  -- the start or that of the cursor it resumes.
  pub walk_causation_bounded_impl-IsWithin :
      (start : EventId) (resume : Option (List EventId × ℕ)) (out : ReadOutcome (List StoredEvent))
      → walk_causation_bounded_impl encode db direction max_depth sampling max_results max_bytes
          start resume
        ≡ ok out
      → (next_level db direction max_depth sampling
            (frontier_of start resume)
            (frontier_of start resume)
          ≡ ok (data_of out))
        ⊎ IsWithin max_results max_bytes (data_of out)
  unfolding walk_causation_bounded_impl
  walk_causation_bounded_impl-IsWithin start none out h =
      walk_rounds-first max_depth (start ∷ []) 1 out h
  walk_causation_bounded_impl-IsWithin start (some (frontier, depth)) out h =
      walk_rounds-first (max_depth + 1 - (depth + 1)) frontier (depth + 1) out h
