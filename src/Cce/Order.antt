-- ===== src/Cce/Order.antt =====
-- The sorting of an object's fields in src/cce.rs.
use mathlib.Core.List.{Permᴰ}
use mathlib.Core.List.Permᴰ
use fossic.Prelude.{
  ◌≡◌, ◌≢◌, refl, sym, ◌∙◌, ap, ap₂, subst, true, false, List, [], ◌∷◌, arith, All, All-mono,
  Bool-cases, inl, inr,
}
use fossic.Prelude.Lex.{
  same_iff, lex_lt, lex_lt_irrefl, lex_lt_trans, lex_lt_connex, lex_lt-asymm, lex_le_trans,
  lex_lt_le_trans,
}
use fossic.Prelude.Words.{Bytes}
use fossic.Text.{Str}
use fossic.Error.{ok, >>=-eq-ok, ok-injective}
use fossic.Json.{Value, object, Fields, end, field}
use fossic.Cce.{
  adjacent_duplicate, encode_pairs, encode_fields, encode_string, encode_value, pair_key,
}
use fossic.Cce.Sort.{insert, sort_by, All-insert}

module _ {ℓ} {A : Type ℓ} (key : A → Bytes) where
  -- No two items have one key.
  abbrev pub Distinct : List A → Type 0
  Distinct [] = Unit
  Distinct (x ∷ xs) = All (λ y. key x ≢ key y) xs × Distinct xs

  insert_comm :
      (x y : A) (l : List A)
      → key x ≢ key y
      → insert key x (insert key y l) ≡ insert key y (insert key x l)
  unfolding insert
  insert_comm x y [] h = ground (
    arith,
    lex_lt_connex (key x) (key y),
    lex_lt_trans (key x) (key y) (key x),
    lex_lt_irrefl (key x),
  )
  insert_comm x y (z ∷ l) h = ground (
    arith,
    insert_comm x y l h,
    lex_lt_connex (key x) (key y),
    lex_lt_connex (key y) (key z),
    lex_lt_connex (key x) (key z),
    lex_lt_trans (key x) (key y) (key x),
    lex_lt_irrefl (key x),
    lex_lt_trans (key z) (key x) (key y),
    lex_lt_trans (key z) (key y) (key x),
    lex_lt_trans (key x) (key z) (key y),
    lex_lt_trans (key y) (key z) (key x),
  )

  All-perm {κ} : {xs ys : List A} (P : A → Type κ) → Permᴰ xs ys → All P xs → All P ys
  All-perm P Permᴰ.nil h = h
  All-perm P (Permᴰ.cons e p) h = (subst P e h.0, All-perm P p h.1)
  All-perm P (Permᴰ.swap e f) h = (subst P f h.1.0, (subst P e h.0, h.1.1))
  All-perm P (Permᴰ.trans p q) h = All-perm P q (All-perm P p h)

  Distinct-perm : {xs ys : List A} → Permᴰ xs ys → Distinct xs → Distinct ys
  Distinct-perm Permᴰ.nil h = h
  Distinct-perm (Permᴰ.cons {a} {b} {l₂} e p) h = (
    subst (λ z. All (λ y. key z ≢ key y) l₂) e (All-perm (λ y. key a ≢ key y) p h.0),
    Distinct-perm p h.1,
  )
  Distinct-perm (Permᴰ.swap {a} {b} {a'} {b'} {l} e f) h = (
    (
      λ q. h.0.0 (ap key e ∙ sym q ∙ sym (ap key f)),
      subst (λ z. All (λ y. key z ≢ key y) l) f h.1.0,
    ),
    (subst (λ z. All (λ y. key z ≢ key y) l) e h.0.1, h.1.1),
  )
  Distinct-perm (Permᴰ.trans p q) h = Distinct-perm q (Distinct-perm p h)

  insert-perm : (x : A) (l : List A) → Permᴰ (insert key x l) (x ∷ l)
  unfolding insert
  insert-perm x [] = Permᴰ.refl (x ∷ [])
  insert-perm x (y ∷ l) = elim (Bool-cases (lex_lt (key y) (key x))) [
    | inl e ↦ rw e (Permᴰ.trans (Permᴰ.cons refl (insert-perm x l)) (Permᴰ.swap refl refl))
    | inr e ↦ rw e (Permᴰ.refl (x ∷ y ∷ l))
  ]

  sort_by-perm : (l : List A) → Permᴰ (sort_by key l) l
  unfolding sort_by
  sort_by-perm [] = Permᴰ.nil
  sort_by-perm (x ∷ l) =
      Permᴰ.trans (insert-perm x (sort_by key l)) (Permᴰ.cons refl (sort_by-perm l))

  -- With distinct keys the sorted list does not depend on the order of the input.
  sort_by-eq_of_perm :
      {xs ys : List A} → Permᴰ xs ys → Distinct xs → sort_by key xs ≡ sort_by key ys
  unfolding sort_by
  sort_by-eq_of_perm Permᴰ.nil h = refl
  sort_by-eq_of_perm (Permᴰ.cons e p) h = ap₂ (insert key) e (sort_by-eq_of_perm p h.1)
  sort_by-eq_of_perm (Permᴰ.swap {a} {b} {a'} {b'} {l} e f) h =
      insert_comm a b (sort_by key l) h.0.0
      ∙ ap₂ (λ x y. insert key x (insert key y (sort_by key l))) f e
  sort_by-eq_of_perm (Permᴰ.trans p q) h =
      sort_by-eq_of_perm p h ∙ sort_by-eq_of_perm q (Distinct-perm p h)

  IsSorted : List A → Type 0
  IsSorted [] = Unit
  IsSorted (x ∷ xs) = All (λ y. lex_lt (key y) (key x) ≡ false) xs × IsSorted xs

  insert-IsSorted : (x : A) (l : List A) → IsSorted l → IsSorted (insert key x l)
  unfolding insert IsSorted
  insert-IsSorted x [] h = (tt, tt)
  insert-IsSorted x (y ∷ l) h = elim (Bool-cases (lex_lt (key y) (key x))) [
    | inl e ↦ rw e (
      All-insert (λ z. lex_lt (key z) (key y) ≡ false) key x l (lex_lt-asymm (key y) (key x) e) h.0,
      insert-IsSorted x l h.1,
    )
    | inr e ↦ rw e (
      (
        e,
        All-mono (λ z. lex_lt (key z) (key y) ≡ false) (λ z. lex_lt (key z) (key x) ≡ false) l
            (λ z. lex_le_trans (key x) (key y) (key z) e) h.0,
      ),
      h,
    )
  ]

  sort_by-IsSorted : (l : List A) → IsSorted (sort_by key l)
  unfolding sort_by IsSorted
  sort_by-IsSorted [] = tt
  sort_by-IsSorted (x ∷ l) = insert-IsSorted x (sort_by key l) (sort_by-IsSorted l)

  -- In a sorted list with no equal neighbours all keys are different.
  sorted-Distinct : (l : List A) → IsSorted l → adjacent_duplicate key l ≡ false → Distinct l
  unfolding IsSorted
  sorted-Distinct [] h e = tt
  sorted-Distinct (x ∷ []) h e = (tt, tt)
  sorted-Distinct (x ∷ y ∷ l) h e =
      let below : lex_lt (key x) (key y) ≡ true =
        ground (arith, same_iff (key x) (key y), lex_lt_connex (key x) (key y), h.0.0) in
      let apart : (z : A) → lex_lt (key x) (key z) ≡ true → key x ≢ key z =
        λ z b q. cc (lex_lt_irrefl (key x)) in
      (
        (
          apart y below,
          All-mono (λ z. lex_lt (key z) (key y) ≡ false) (λ z. key x ≢ key z) l
              (λ z g. apart z (lex_lt_le_trans (key x) (key y) (key z) below g)) h.1.0,
        ),
        sorted-Distinct (y ∷ l) h.1 (ground arith),
      )

  -- What the encoder accepts had no two equal keys.
  accepted-Distinct : (l : List A) → adjacent_duplicate key (sort_by key l) ≡ false → Distinct l
  accepted-Distinct l e =
      Distinct-perm (sort_by-perm l) (sorted-Distinct (sort_by key l) (sort_by-IsSorted l) e)

-- The fields of one object in two orders.
pub data Reordered : Fields → Fields → Type 0 where
  done : Reordered end end
  skip :
      {k : Str} {v : Value} {fs gs : Fields}
      → Reordered fs gs
      → Reordered (field k v fs) (field k v gs)
  swap :
      {k j : Str} {v w : Value} {fs : Fields}
      → Reordered (field k v (field j w fs)) (field j w (field k v fs))
  trans : {fs gs hs : Fields} → Reordered fs gs → Reordered gs hs → Reordered fs hs

module _ (nfc : Str → Str) where
  -- A field that is encoded, and the rest of its list.
  record FieldCode (k : Str) (v : Value) (fs : Fields) (ps : List (Bytes × Bytes)) : Type 0 where
    key : Bytes
    val : Bytes
    rest : List (Bytes × Bytes)
    key_ok : encode_string nfc k ≡ ok key
    val_ok : encode_value nfc v ≡ ok val
    rest_ok : encode_fields nfc fs ≡ ok rest
    layout : ps ≡ (key, val) ∷ rest

  field_code :
      (k : Str) (v : Value) (fs : Fields) (ps : List (Bytes × Bytes))
      → encode_fields nfc (field k v fs) ≡ ok ps
      → FieldCode k v fs ps
  unfolding encode_value
  field_code k v fs ps e =
      let (key, key_ok, e₁) = >>=-eq-ok (encode_string nfc k) _ e in
      let (val, val_ok, e₂) = >>=-eq-ok (encode_value nfc v) _ e₁ in
      let (rest, rest_ok, e₃) = >>=-eq-ok (encode_fields nfc fs) _ e₂ in
      record {
        key = key;
        val = val;
        rest = rest;
        key_ok = key_ok;
        val_ok = val_ok;
        rest_ok = rest_ok;
        layout = sym (ok-injective e₃);
      }

  encode_fields-field :
      (k : Str) (v : Value) (fs : Fields) {key val : Bytes} {rest : List (Bytes × Bytes)}
      → encode_string nfc k ≡ ok key
      → encode_value nfc v ≡ ok val
      → encode_fields nfc fs ≡ ok rest
      → encode_fields nfc (field k v fs) ≡ ok ((key, val) ∷ rest)
  unfolding encode_value
  encode_fields-field k v fs ek ev er = rw (ek, ev, er)

  encode_fields-Reordered :
      {fs gs : Fields} (ps : List (Bytes × Bytes))
      → Reordered fs gs
      → encode_fields nfc fs ≡ ok ps
      → (qs : List (Bytes × Bytes)) × (encode_fields nfc gs ≡ ok qs) × Permᴰ ps qs
  encode_fields-Reordered ps done e = (ps, e, Permᴰ.refl ps)
  encode_fields-Reordered ps (skip {k} {v} {fs} {gs} r) e =
      let c = field_code k v fs ps e in
      let (rest, rest_ok, p) = encode_fields-Reordered c.rest r c.rest_ok in
      (
        (c.key, c.val) ∷ rest,
        encode_fields-field k v gs c.key_ok c.val_ok rest_ok,
        subst (λ l. Permᴰ l ((c.key, c.val) ∷ rest)) (sym c.layout) (Permᴰ.cons refl p),
      )
  encode_fields-Reordered ps (swap {k} {j} {v} {w} {fs}) e =
      let c = field_code k v (field j w fs) ps e in
      let d = field_code j w fs c.rest c.rest_ok in
      (
        (d.key, d.val) ∷ (c.key, c.val) ∷ d.rest,
        encode_fields-field j w (field k v fs) d.key_ok d.val_ok
            (encode_fields-field k v fs c.key_ok c.val_ok d.rest_ok),
        subst (λ l. Permᴰ l ((d.key, d.val) ∷ (c.key, c.val) ∷ d.rest))
            (sym (c.layout ∙ ap (◌∷◌ (c.key, c.val)) d.layout)) (Permᴰ.swap refl refl),
      )
  encode_fields-Reordered ps (trans r s) e =
      let (qs, ok_qs, p) = encode_fields-Reordered ps r e in
      let (rs, ok_rs, q) = encode_fields-Reordered qs s ok_qs in (rs, ok_rs, Permᴰ.trans p q)

  accepted : (ps : List (Bytes × Bytes)) (b : Bytes) → encode_pairs ps ≡ ok b → Distinct pair_key ps
  unfolding encode_pairs
  accepted ps b e = accepted-Distinct pair_key ps (ground arith)

  -- If an object is encoded, then with its fields in any other order it is encoded to the same bytes.
  pub encode_value-Reordered :
      {fs gs : Fields} (b : Bytes)
      → Reordered fs gs
      → encode_value nfc (object fs) ≡ ok b
      → encode_value nfc (object gs) ≡ ok b
  unfolding encode_value
  encode_value-Reordered {fs} {gs} b r e =
      let (ps, ok_ps, e') = >>=-eq-ok (encode_fields nfc fs) _ e in
      let (qs, ok_qs, p) = encode_fields-Reordered ps r ok_ps in
      rw ok_qs (unfold encode_pairs in (rw (← sort_by-eq_of_perm pair_key p (accepted ps b e')) e'))
