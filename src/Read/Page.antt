-- ===== src/Read/Page.antt =====
-- read_range_bounded_impl of src/read.rs: its pages and cursors, against the unlimited read.
use fossic.Prelude.{
  ℕ, zero, suc, ◌+◌, ◌≤◌, ◌<◌, ◌≡◌, ◌≢◌, refl, sym, ◌∙◌, ap, subst, true, false, ◌&&◌, ◌||◌, List,
  [], ◌∷◌, ◌++◌, Option, none, some, leb, keep, length, All, All-keep_mono, All-keep_test, All-mono,
  All-middle, append-nil, append_assoc, keep-cong, keep-keep, keep-append, keep_of_All,
  keep_of_none, Bool-cases, inl, inr, arith,
}
use fossic.Prelude.Order.{
  order_by, IsDistinct, IsAscending, order_by-IsAscending, keep-order_by, All-order_by,
  IsAscending-split,
}
use fossic.Prelude.Lex.{same_iff}
use fossic.Prelude.Words.{Bytes}
use fossic.Error.{Error, Result, ok, >>=-eq-ok, ok-injective}
use fossic.Tables.{StoredEvent, Db}
use fossic.Append.{conflicts, unwrap_or}
use fossic.Append.Log.{IsUnique}
use fossic.Read.{
  ReadQuery, CursorInner, range, ReadOutcome, complete, truncated, i64_max, up_to, at_least,
  in_range, version_of, select_range, exceed_count, exceed_bytes, read_rows, read_range_impl,
  read_range_bounded_impl,
}

pub in_range-IsDistinct :
    (q : ReadQuery) (from : ℕ) (es : List StoredEvent)
    → IsUnique es
    → IsDistinct version_of (keep (in_range q from) es)
in_range-IsDistinct q from [] u = tt
in_range-IsDistinct q from (e ∷ es) u = elim (Bool-cases (in_range q from e)) [
  | inl t ↦ rw t (
    All-keep_mono (λ f. conflicts f e ≡ false) (λ f. f.version ≢ e.version) (in_range q from) es
        (λ f c h v. ground (
          arith,
          c,
          h,
          t,
          v,
          same_iff e.stream_id f.stream_id,
          same_iff e.stream_id q.stream_id,
          same_iff f.stream_id q.stream_id,
          same_iff e.branch f.branch,
          same_iff e.branch q.branch,
          same_iff f.branch q.branch,
        ))
        u.0,
    in_range-IsDistinct q from es u.1,
  )
  | inr t ↦ rw t (in_range-IsDistinct q from es u.1)
]

pub select_range-IsAscending :
    (db : Db) (q : ReadQuery) (from : ℕ)
    → IsUnique db.events
    → IsAscending version_of (select_range db q from)
unfolding select_range
select_range-IsAscending db q from u =
    order_by-IsAscending version_of (keep (in_range q from) db.events)
      (in_range-IsDistinct q from db.events u)

-- A read from a later version selects from the read.
select_range-later :
    (db : Db) (q : ReadQuery) (from v : ℕ)
    → IsUnique db.events
    → from ≤ v
    → v ≤ i64_max
    → select_range db q v ≡ keep (λ e. leb v e.version) (select_range db q from)
unfolding select_range
select_range-later db q from v u le fits =
    ap (order_by version_of) (
      keep-cong (in_range q v) (λ e. in_range q from e && leb v e.version) db.events
        (λ e. ground (arith, le, fits))
      ∙ sym (keep-keep (λ (e : StoredEvent). leb v e.version) (in_range q from) db.events))
    ∙ sym (
        keep-order_by version_of (λ e. leb v e.version) (keep (in_range q from) db.events)
          (in_range-IsDistinct q from db.events u))

pub select_range-at_least :
    (db : Db) (q : ReadQuery) (from : ℕ)
    → All (λ f. at_least from f.version ≡ true) (select_range db q from)
unfolding select_range
select_range-at_least db q from =
    All-order_by version_of (λ f. at_least from f.version ≡ true) (keep (in_range q from) db.events)
      (All-mono (λ f. in_range q from f ≡ true) _ _ (λ f h. ground (arith, h))
        (All-keep_test (in_range q from) db.events))

select_range-from :
    (db : Db) (q : ReadQuery) (from : ℕ)
    → from ≤ i64_max
    → All (λ f. from ≤ f.version) (select_range db q from)
unfolding select_range
select_range-from db q from fits =
    All-order_by version_of (λ f. from ≤ f.version) (keep (in_range q from) db.events)
      (All-mono (λ f. in_range q from f ≡ true) _ _ (λ f h. ground (arith, h, fits))
        (All-keep_test (in_range q from) db.events))

up_to-fits : (max : Option ℕ) (v : ℕ) → up_to max v ≡ true → v ≤ i64_max
up_to-fits none v h = ground (arith, h)
up_to-fits (some m) v h = ground (arith, h)

-- A version that is selected is an `i64`.
pub select_range-fits :
    (db : Db) (q : ReadQuery) (from : ℕ) → All (λ f. f.version ≤ i64_max) (select_range db q from)
unfolding select_range
select_range-fits db q from =
    All-order_by version_of (λ f. f.version ≤ i64_max) (keep (in_range q from) db.events)
      (All-mono (λ f. in_range q from f ≡ true) _ _
        (λ f h. up_to-fits q.to_version f.version (ground (arith, h)))
        (All-keep_test (in_range q from) db.events))

-- The read from the version of one of its rows is that row and what follows.
select_range-at :
    (db : Db) (q : ReadQuery) (from : ℕ) (before : List StoredEvent) (e : StoredEvent)
    (after : List StoredEvent)
    → IsUnique db.events
    → from ≤ i64_max
    → select_range db q from ≡ before ++ e ∷ after
    → select_range db q e.version ≡ e ∷ after
select_range-at db q from before e after u fits split =
    let ascending = subst (IsAscending version_of) split (select_range-IsAscending db q from u) in
    let (low, high) = IsAscending-split version_of before e after ascending in
    let from_le : from ≤ e.version =
      All-middle (λ f. from ≤ f.version) before e after
        (subst (All (λ f. from ≤ f.version)) split (select_range-from db q from fits)) in
    let e_fits : e.version ≤ i64_max =
      All-middle (λ f. f.version ≤ i64_max) before e after
        (subst (All (λ f. f.version ≤ i64_max)) split (select_range-fits db q from)) in
    select_range-later db q from e.version u from_le e_fits
    ∙ ap (keep (λ f. leb e.version f.version)) split
    ∙ keep-append (λ f. leb e.version f.version) before (e ∷ after)
    ∙ ap (◌++◌ (keep (λ f. leb e.version f.version) before)) (
        keep_of_All (λ (f : StoredEvent). leb e.version f.version) (e ∷ after)
          (ground arith, All-mono (λ f. e.version < f.version) _ after (λ f lt. ground arith) high))
    ∙ ap (λ l. l ++ e ∷ after)
        (keep_of_none (λ (f : StoredEvent). leb e.version f.version) before
          (All-mono (λ f. f.version < e.version) _ before (λ f lt. ground arith) low))

abbrev pub total_bytes : List StoredEvent → ℕ
total_bytes [] = 0
total_bytes (e ∷ es) = length e.payload + total_bytes es

total_bytes-push :
    (es : List StoredEvent) (e : StoredEvent)
    → total_bytes (es ++ e ∷ []) ≡ total_bytes es + length e.payload
total_bytes-push [] e = omega arith
total_bytes-push (x ∷ es) e = omega (arith, total_bytes-push es e)

-- An empty page is within every budget but that of no results.
within-empty :
    (r b : Option ℕ) (n : ℕ) → r ≢ some 0 → (exceed_count r [] || exceed_bytes b [] n) ≢ true
within-empty none none n limit h = ground arith
within-empty none (some b) n limit h = ground arith
within-empty (some zero) b n limit h = limit refl
within-empty (some (suc r)) none n limit h = ground arith
within-empty (some (suc r)) (some b) n limit h = ground arith

module _ (encode : CursorInner → Result Error Bytes) where
  -- What the loop returns: all rows; or the rows in front of the one that is over the budget, with
  -- the cursor of that row.
  abbrev pub IsCut :
      ReadQuery → Option ℕ → Option ℕ → List StoredEvent → ReadOutcome (List StoredEvent) → Type 0
  IsCut q max_results max_bytes rows (complete es) = es ≡ rows
  IsCut q max_results max_bytes rows (truncated es cursor reason) =
      (e : StoredEvent) × (after : List StoredEvent) × (c : Bytes) × (rows ≡ es ++ e ∷ after)
      × (encode (range q.stream_id q.branch e.version) ≡ ok c)
      × (cursor ≡ some c)
      × ((exceed_count max_results es
            || exceed_bytes max_bytes es (total_bytes es + length e.payload))
          ≡ true)

  read_rows-IsCut :
      (q : ReadQuery) (r b : Option ℕ) (rows acc : List StoredEvent) (n : ℕ)
      (out : ReadOutcome (List StoredEvent))
      → n ≡ total_bytes acc
      → read_rows encode q r b rows acc n ≡ ok out
      → IsCut q r b (acc ++ rows) out
  unfolding read_rows
  read_rows-IsCut q r b [] acc n out bytes h =
      subst (IsCut q r b (acc ++ [])) (ok-injective h) (sym (append-nil acc))
  read_rows-IsCut q r b (e ∷ rows) acc n out bytes h =
      elim (Bool-cases (exceed_count r acc || exceed_bytes b acc (n + length e.payload))) [
        | inl over ↦
            (let (c, encoded, made) =
                >>=-eq-ok (encode (range q.stream_id q.branch e.version)) _ (rw over at h) in
              subst (IsCut q r b (acc ++ e ∷ rows)) (ok-injective made) (
                e,
                rows,
                c,
                refl,
                encoded,
                refl,
                subst
                    (λ m. (exceed_count r acc || exceed_bytes b acc (m + length e.payload)) ≡ true)
                    bytes over,
              ))
        | inr under ↦
            subst (λ l. IsCut q r b l out) (append_assoc acc (e ∷ []) rows)
              (read_rows-IsCut q r b rows (acc ++ e ∷ []) (n + length e.payload) out
                (omega (arith, bytes, total_bytes-push acc e)) (rw under at h))
      ]

  -- The read from a version on, without a limit.
  abbrev pub read_from : Db → ReadQuery → ℕ → List StoredEvent
  read_from db q v = read_range_impl db (record q { from_version = some v; limit = none })

  -- A page of the read from `start`: the whole read; or a part of it with the cursor of a later
  -- version such that the read from that version is the rest.
  abbrev pub IsPage : Db → ReadQuery → ℕ → ReadOutcome (List StoredEvent) → Type 0
  IsPage db q start (complete es) = es ≡ read_from db q start
  IsPage db q start (truncated es cursor reason) =
      (v : ℕ) × (c : Bytes) × (start < v)
      × (encode (range q.stream_id q.branch v) ≡ ok c)
      × (cursor ≡ some c)
      × (read_from db q start ≡ es ++ read_from db q v)

  IsCut-IsPage :
      (db : Db) (q : ReadQuery) (start : ℕ) (r b : Option ℕ) (out : ReadOutcome (List StoredEvent))
      → IsUnique db.events
      → start ≤ i64_max
      → r ≢ some 0
      → IsCut q r b (select_range db q start) out
      → IsPage db q start out
  unfolding read_range_impl select_range
  IsCut-IsPage db q start r b (complete es) u fits limit cut = cut
  IsCut-IsPage db q start r b (truncated [] cursor reason) u fits limit
        (e, after, c, split, encoded, at, over) =
      absurd (within-empty r b (total_bytes [] + length e.payload) limit over)
  IsCut-IsPage db q start r b (truncated (d ∷ es) cursor reason) u fits limit
        (e, after, c, split, encoded, at, over) =
      (
        e.version,
        c,
        later,
        encoded,
        at,
        split ∙ ap (◌++◌ (d ∷ es)) (sym (select_range-at db q start (d ∷ es) e after u fits split)),
      )
    where
      later : start < e.version
      later =
          let ascending =
            subst (IsAscending version_of) split (select_range-IsAscending db q start u) in
          let first : start ≤ d.version =
            (subst (All (λ f. start ≤ f.version)) split (select_range-from db q start fits)).0 in
          let (low, _) = IsAscending-split version_of (d ∷ es) e after ascending in
          omega (arith, first, low.0)

  -- In a database whose events have unique positions, a bounded read from a version below 2 ^ 63 that
  -- succeeds, with a limit on the results other than 0 or with none, returns the whole unlimited read from its start; or a part of
  -- it with a cursor, and the cursor holds a later version from which the unlimited read returns exactly
  -- the rest. Its start is the resumed version, or else the version that the query asks for.
  pub read_range_bounded_impl-IsPage :
      (db : Db) (q : ReadQuery) (resume r b : Option ℕ) (out : ReadOutcome (List StoredEvent))
      → IsUnique db.events
      → unwrap_or resume (unwrap_or q.from_version 0) ≤ i64_max
      → r ≢ some 0
      → read_range_bounded_impl encode db q resume r b ≡ ok out
      → IsPage db q (unwrap_or resume (unwrap_or q.from_version 0)) out
  unfolding read_range_bounded_impl
  read_range_bounded_impl-IsPage db q resume r b out u fits limit h =
      let start = unwrap_or resume (unwrap_or q.from_version 0) in
      IsCut-IsPage db q start r b out u fits limit
        (read_rows-IsCut q r b (select_range db q start) [] 0 out refl h)
