-- ===== src/Cce/Unique.antt =====
-- Reading the encoding of canonical values, which src/cce.rs writes.
use fossic.Prelude.{
  ℕ, ◌<◌, ◌≡◌, refl, sym, ◌∙◌, ap, ap₂, true, false, List, [], ◌∷◌, ◌++◌, length, arith,
}
use fossic.Prelude.Words.{Bytes, le_bytes, le_bytes-inj, Fits-u32, Fits-u64}
use fossic.Cce.Canon.{
  Canon, null, bool, int, float, string, array, object, Elements, nil, cons, Entries, end, entry,
  encode_canon, encode_elements, encode_entries, string_code, count, size,
}
use mathlib.Core.List.{append_assoc}

-- Words have 64 bits, and what a 32-bit field counts is counted exactly.
abbrev mutual
  pub IsCounted : Canon → Type 0
  IsCounted null = Unit
  IsCounted (bool b) = Unit
  IsCounted (int w) = w < 18446744073709551616
  IsCounted (float w) = w < 18446744073709551616
  IsCounted (string s) = length s < 4294967296
  IsCounted (array cs) = (count cs < 4294967296) × ElementsCounted cs
  IsCounted (object es) = (size es < 4294967296) × EntriesCounted es

  pub ElementsCounted : Elements → Type 0
  ElementsCounted nil = Unit
  ElementsCounted (cons c cs) = IsCounted c × ElementsCounted cs

  pub EntriesCounted : Entries → Type 0
  EntriesCounted end = Unit
  EntriesCounted (entry k c es) = (length k < 4294967296) × IsCounted c × EntriesCounted es

pub append-inj_length {ℓ} :
    {A : Type ℓ} (xs ys r s : List A)
    → length xs ≡ length ys
    → xs ++ r ≡ ys ++ s
    → (xs ≡ ys) × (r ≡ s)
append-inj_length [] [] r s h e = (refl, e)
append-inj_length [] (y ∷ ys) r s h e = absurd (omega arith)
append-inj_length (x ∷ xs) [] r s h e = absurd (omega arith)
append-inj_length (x ∷ xs) (y ∷ ys) r s h e = ground (arith, append-inj_length xs ys r s)

pub string_code-inj :
    (a b r s : Bytes)
    → length a < 4294967296
    → length b < 4294967296
    → string_code a ++ r ≡ string_code b ++ s
    → (a ≡ b) × (r ≡ s)
unfolding string_code
string_code-inj a b r s ha hb e = ground (
  arith,
  append_assoc (le_bytes 4 (length a)) a r,
  append_assoc (le_bytes 4 (length b)) b s,
  le_bytes-inj 4 (length a) (length b) (a ++ r) (b ++ s) (Fits-u32 _ ha) (Fits-u32 _ hb),
  append-inj_length a b r s,
)

regroup :
    (k j a b x y r s : Bytes)
    → (k ++ (a ++ x)) ++ r ≡ (j ++ (b ++ y)) ++ s
    → k ++ (a ++ (x ++ r)) ≡ j ++ (b ++ (y ++ s))
regroup k j a b x y r s e = simp append_assoc at e

-- A count of four bytes, then what is counted.
pub counted-inj :
    (m n : ℕ) (x y r s : Bytes)
    → m < 4294967296
    → n < 4294967296
    → (le_bytes 4 m ++ x) ++ r ≡ (le_bytes 4 n ++ y) ++ s
    → (m ≡ n) × (x ++ r ≡ y ++ s)
counted-inj m n x y r s hm hn e =
    le_bytes-inj 4 m n (x ++ r) (y ++ s) (Fits-u32 m hm) (Fits-u32 n hn)
      (sym (append_assoc (le_bytes 4 m) x r) ∙ e ∙ append_assoc (le_bytes 4 n) y s)

mutual
  unfolding encode_canon string_code

  inj :
      (a b : Canon) (r s : Bytes)
      → IsCounted a
      → IsCounted b
      → encode_canon a ++ r ≡ encode_canon b ++ s
      → (a ≡ b) × (r ≡ s)
  inj null null r s ha hb e = ground arith
  inj (bool true) (bool true) r s ha hb e = ground arith
  inj (bool false) (bool false) r s ha hb e = ground arith
  inj (int v) (int w) r s ha hb e =
      ground (arith, le_bytes-inj 8 v w r s (Fits-u64 v ha) (Fits-u64 w hb))
  inj (float v) (float w) r s ha hb e =
      ground (arith, le_bytes-inj 8 v w r s (Fits-u64 v ha) (Fits-u64 w hb))
  inj (string a) (string b) r s ha hb e = ground (arith, string_code-inj a b r s ha hb)
  inj (array xs) (array ys) r s ha hb e =
      let (n, rest) =
        counted-inj (count xs) (count ys) (encode_elements xs) (encode_elements ys) r s ha.0 hb.0
          (ground arith) in
      let (same, left) = inj_elements xs ys r s ha.1 hb.1 n rest in (ap array same, left)
  inj (object xs) (object ys) r s ha hb e =
      let (n, rest) =
        counted-inj (size xs) (size ys) (encode_entries xs) (encode_entries ys) r s ha.0 hb.0
          (ground arith) in
      let (same, left) = inj_entries xs ys r s ha.1 hb.1 n rest in (ap object same, left)
  inj a b r s ha hb e = ground arith

  inj_elements :
      (xs ys : Elements) (r s : Bytes)
      → ElementsCounted xs
      → ElementsCounted ys
      → count xs ≡ count ys
      → encode_elements xs ++ r ≡ encode_elements ys ++ s
      → (xs ≡ ys) × (r ≡ s)
  inj_elements nil nil r s ha hb n e = (refl, e)
  inj_elements nil (cons b ys) r s ha hb n e = absurd (omega arith)
  inj_elements (cons a xs) nil r s ha hb n e = absurd (omega arith)
  inj_elements (cons a xs) (cons b ys) r s ha hb n e =
      let (first, rest) = inj a b (encode_elements xs ++ r) (encode_elements ys ++ s) ha.0 hb.0 (
        sym (append_assoc (encode_canon a) (encode_elements xs) r)
        ∙ e
        ∙ append_assoc (encode_canon b) (encode_elements ys) s) in
      let (same, left) = inj_elements xs ys r s ha.1 hb.1 (omega arith) rest in
      (ap₂ cons first same, left)

  inj_entries :
      (xs ys : Entries) (r s : Bytes)
      → EntriesCounted xs
      → EntriesCounted ys
      → size xs ≡ size ys
      → encode_entries xs ++ r ≡ encode_entries ys ++ s
      → (xs ≡ ys) × (r ≡ s)
  inj_entries end end r s ha hb n e = (refl, e)
  inj_entries end (entry k b ys) r s ha hb n e = absurd (omega arith)
  inj_entries (entry k a xs) end r s ha hb n e = absurd (omega arith)
  inj_entries (entry k a xs) (entry j b ys) r s ha hb n e =
      let (key, value) =
        string_code-inj k j (encode_canon a ++ (encode_entries xs ++ r))
          (encode_canon b ++ (encode_entries ys ++ s)) ha.0 hb.0
          (regroup (string_code k) (string_code j) (encode_canon a) (encode_canon b)
            (encode_entries xs) (encode_entries ys) r s e) in
      let (first, rest) =
        inj a b (encode_entries xs ++ r) (encode_entries ys ++ s) ha.1 hb.1 value in
      let (same, left) = inj_entries xs ys r s ha.2 hb.2 (omega arith) rest in
      (cc (key, first, same), left)

-- If the encodings of two values within their ranges, each followed by anything, agree, then the
-- values are equal, and so is what follows.
pub encode_canon-inj :
    (a b : Canon) (r s : Bytes)
    → IsCounted a
    → IsCounted b
    → encode_canon a ++ r ≡ encode_canon b ++ s
    → (a ≡ b) × (r ≡ s)
encode_canon-inj a b r s ha hb e = inj a b r s ha hb e
