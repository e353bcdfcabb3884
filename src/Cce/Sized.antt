-- ===== src/Cce/Sized.antt =====
-- The ranges of words and counts in the payloads and canonical values of src/cce.rs.
use fossic.Prelude.{
  ℕ, suc, ◌<◌, ◌≡◌, refl, Bool, false, List, [], ◌∷◌, length, arith, if◌then◌else◌, All, ap, subst,
}
use fossic.Prelude.Words.{Bytes}
use fossic.Text.{Str}
use fossic.Error.{CceError, ok, err, >>=-eq-ok, ok-injective}
use fossic.Json
use fossic.Json.{Value, Items, Fields, IsSized, ItemsIsSized, FieldsIsSized}
use fossic.Cce.{canonicalize_f64, adjacent_duplicate}
use fossic.Cce.Sort.{sort_by, length-sort_by, All-sort_by}
use fossic.Cce.Canon.{
  Canon, Elements, Pair, to_entries, canonical_pairs, canonical_number, canonical_string, canonical,
  canonical_items, canonical_fields, entry_key, count, size,
}
use fossic.Cce.Unique.{IsCounted, ElementsCounted, EntriesCounted}

abbrev pub PairCounted : Pair → Type 0
PairCounted p = (length p.0 < 4294967296) × IsCounted p.1

EntriesCounted-to_entries : (ps : List Pair) → All PairCounted ps → EntriesCounted (to_entries ps)
EntriesCounted-to_entries [] h = tt
EntriesCounted-to_entries ((k, c) ∷ ps) h = (h.0.0, h.0.1, EntriesCounted-to_entries ps h.1)

size-to_entries : (ps : List Pair) → size (to_entries ps) ≡ length ps
size-to_entries [] = refl
size-to_entries ((k, c) ∷ ps) = ap suc (size-to_entries ps)

if_ok :
    (b : Bool) (x : CceError) (c d : Canon)
    → (if b then err x else ok c) ≡ ok d
    → (b ≡ false) × (c ≡ d)
if_ok b x c d e = ground arith

canonical_pairs-IsCounted :
    (ps : List Pair) (c : Canon)
    → length ps < 4294967296
    → All PairCounted ps
    → canonical_pairs ps ≡ ok c
    → IsCounted c
unfolding canonical_pairs
canonical_pairs-IsCounted ps c n h e =
    subst IsCounted (if_ok (adjacent_duplicate entry_key (sort_by entry_key ps)) _ _ c e).1 (
      omega (arith, size-to_entries (sort_by entry_key ps), length-sort_by entry_key ps),
      EntriesCounted-to_entries (sort_by entry_key ps) (All-sort_by PairCounted entry_key ps h),
    )

canonicalize_f64-lt : (w : ℕ) → w < 18446744073709551616 → canonicalize_f64 w < 18446744073709551616
unfolding canonicalize_f64
canonicalize_f64-lt w h = ground arith

module _ (nfc : Str → Str) where
  pub canonical_string-lt :
      (s : Str) (b : Bytes) → canonical_string nfc s ≡ ok b → length b < 4294967296
  unfolding canonical_string
  canonical_string-lt s b e = ground arith

  canonical_number-IsCounted :
      (n : Json.Number) (c : Canon)
      → IsSized (Json.number n)
      → canonical_number n ≡ ok c
      → IsCounted c
  unfolding canonical_number
  canonical_number-IsCounted (Json.int w) c h e = subst IsCounted (ok-injective e) h
  canonical_number-IsCounted (Json.big u) c h e = cc
  canonical_number-IsCounted (Json.float w) c h e =
      subst IsCounted (ok-injective e) (canonicalize_f64-lt w h)

  length-canonical_fields :
      (fs : Fields) (ps : List Pair) → canonical_fields nfc fs ≡ ok ps → length ps ≡ Json.size fs
  unfolding canonical
  length-canonical_fields Json.end ps e = ground arith
  length-canonical_fields (Json.field k v fs) [] e = ground arith
  length-canonical_fields (Json.field k v fs) (p ∷ ps) e =
      ground (arith, length-canonical_fields fs ps)

  mutual
    unfolding canonical

    counted : (v : Value) (c : Canon) → IsSized v → canonical nfc v ≡ ok c → IsCounted c
    counted Json.null c h e = subst IsCounted (ok-injective e) tt
    counted (Json.bool b) c h e = subst IsCounted (ok-injective e) tt
    counted (Json.number n) c h e = canonical_number-IsCounted n c h e
    counted (Json.string s) c h e =
        let (b, ok_b, done) = >>=-eq-ok (canonical_string nfc s) _ e in
        subst IsCounted (ok-injective done) (canonical_string-lt s b ok_b)
    counted (Json.array vs) c h e =
        let (cs, ok_cs, done) = >>=-eq-ok (canonical_items nfc vs) _ e in
        let (each, n) = counted_items vs cs h.1 ok_cs in
        subst IsCounted (ok-injective done) (omega arith, each)
    counted (Json.object fs) c h e =
        let (ps, ok_ps, done) = >>=-eq-ok (canonical_fields nfc fs) _ e in
        canonical_pairs-IsCounted ps c (omega (arith, length-canonical_fields fs ps ok_ps))
          (counted_fields fs ps h.1 ok_ps) done

    counted_items :
        (vs : Items) (cs : Elements)
        → ItemsIsSized vs
        → canonical_items nfc vs ≡ ok cs
        → ElementsCounted cs × (count cs ≡ Json.count vs)
    counted_items Json.nil cs h e =
        subst (λ xs. ElementsCounted xs × (count xs ≡ 0)) (ok-injective e) (tt, refl)
    counted_items (Json.cons v vs) cs h e =
        let (c, ok_c, next) = >>=-eq-ok (canonical nfc v) _ e in
        let (ds, ok_ds, done) = >>=-eq-ok (canonical_items nfc vs) _ next in
        let (each, n) = counted_items vs ds h.1 ok_ds in
        subst (λ xs. ElementsCounted xs × (count xs ≡ suc (Json.count vs))) (ok-injective done)
          ((counted v c h.0 ok_c, each), ap suc n)

    counted_fields :
        (fs : Fields) (ps : List Pair)
        → FieldsIsSized fs
        → canonical_fields nfc fs ≡ ok ps
        → All PairCounted ps
    counted_fields Json.end ps h e = subst (All PairCounted) (ok-injective e) tt
    counted_fields (Json.field k v fs) ps h e =
        let (key, ok_key, next) = >>=-eq-ok (canonical_string nfc k) _ e in
        let (c, ok_c, next') = >>=-eq-ok (canonical nfc v) _ next in
        let (qs, ok_qs, done) = >>=-eq-ok (canonical_fields nfc fs) _ next' in
        subst (All PairCounted) (ok-injective done)
          ((canonical_string-lt k key ok_key, counted v c h.0 ok_c), counted_fields fs qs h.1 ok_qs)

  pub canonical-IsCounted :
      (v : Value) (c : Canon) → IsSized v → canonical nfc v ≡ ok c → IsCounted c
  canonical-IsCounted v c h e = counted v c h e
