-- ===== src/Store/Upcast.antt =====
-- What the reads of `Store` in src/store.rs return, against the log and the registered upcasters.
use fossic.Prelude.{ℕ, ◌≡◌, refl, sym, ◌∙◌, ap, subst, List, [], ◌∷◌, Option, none, some, inl, inr}
use fossic.Prelude.Words.{Bytes}
use fossic.Error.{Error, Result, ok, err, Result-cases, >>=-eq-ok, ok-injective}
use fossic.Text.{Str}
use fossic.Tables.{StoredEvent, Db}
use fossic.Read.{
  ReadQuery, CursorInner, range, correlation, causation, ReadOutcome, complete, truncated,
  read_range_bounded_impl,
}
use fossic.Upcasters.{UpcasterRegistry, apply, apply_upcaster, with_payload}
use fossic.Upcasters.Chains.{apply_iff}
use fossic.Store.Reads.{
  Answer, push_event, or_default, upcast_all, IsUpcast, AllUpcast, IsUpcastOutcome, cut_data,
  all_data, upcast_outcome, resume_of, decode_resume, read_range_bounded,
}

module _ (fuel : ℕ) (upcasters : UpcasterRegistry) where
  apply_upcaster-IsUpcast :
      (e e' : StoredEvent)
      → apply_upcaster fuel upcasters e ≡ some (ok e')
      → IsUpcast fuel upcasters e e'
  unfolding apply_upcaster
  apply_upcaster-IsUpcast e e' h =
      found (apply fuel upcasters e.event_type e.type_version e.payload) refl h
    where
      found :
          (r : Answer Bytes)
          → apply fuel upcasters e.event_type e.type_version e.payload ≡ r
          → with_payload e r ≡ some (ok e')
          → IsUpcast fuel upcasters e e'
      found none k h = absurd (cc)
      found (some (err x)) k h = absurd (cc)
      found (some (ok p)) k h = (
        p,
        (
          sym (same_event h),
          (apply_iff upcasters e.event_type e.type_version e.payload p).0 (fuel, k),
        ),
      )
        where
          same_event :
              {x y : StoredEvent} → ◌≡◌ {A = Answer StoredEvent} (some (ok x)) (some (ok y)) → x ≡ y
          same_event h = cc

  upcast_all-AllUpcast :
      (es out : List StoredEvent)
      → upcast_all fuel upcasters es ≡ some (ok out)
      → AllUpcast fuel upcasters es out
  unfolding upcast_all
  upcast_all-AllUpcast [] [] h = tt
  upcast_all-AllUpcast [] (e ∷ out) h = absurd (cc)
  upcast_all-AllUpcast (e ∷ es) out h =
      pushed (apply_upcaster fuel upcasters e) (upcast_all fuel upcasters es) out refl refl
        (λ out' r. upcast_all-AllUpcast es out' r) h
    where
      pushed :
          (first : Answer StoredEvent) (rest : Answer (List StoredEvent)) (out : List StoredEvent)
          → apply_upcaster fuel upcasters e ≡ first
          → upcast_all fuel upcasters es ≡ rest
          → ((out' : List StoredEvent)
              → upcast_all fuel upcasters es ≡ some (ok out')
              → AllUpcast fuel upcasters es out')
          → push_event first rest ≡ some (ok out)
          → AllUpcast fuel upcasters (e ∷ es) out
      pushed none rest out f r others h = absurd (cc)
      pushed (some (err x)) rest out f r others h = absurd (cc)
      pushed (some (ok e')) none out f r others h = absurd (cc)
      pushed (some (ok e')) (some (err x)) out f r others h = absurd (cc)
      pushed (some (ok e')) (some (ok es')) [] f r others h = absurd (cc)
      pushed (some (ok e')) (some (ok es')) (o ∷ out) f r others h =
          let same_e : e' ≡ o = cc in
          let same_es : es' ≡ out = cc in
          (
            apply_upcaster-IsUpcast e o (f ∙ ap (λ x. some (ok x)) same_e),
            others out (r ∙ ap (λ x. some (ok x)) same_es),
          )

  upcast_outcome-IsUpcastOutcome :
      (o o' : ReadOutcome (List StoredEvent))
      → upcast_outcome fuel upcasters o ≡ some (ok o')
      → IsUpcastOutcome fuel upcasters o o'
  unfolding upcast_outcome
  upcast_outcome-IsUpcastOutcome (complete es) o' h = whole (upcast_all fuel upcasters es) o' refl h
    where
      whole :
          (r : Answer (List StoredEvent)) (o' : ReadOutcome (List StoredEvent))
          → upcast_all fuel upcasters es ≡ r
          → all_data fuel upcasters r ≡ some (ok o')
          → IsUpcastOutcome fuel upcasters (complete es) o'
      whole none o' k h = absurd (cc)
      whole (some (err x)) o' k h = absurd (cc)
      whole (some (ok es')) (truncated out c w) k h = absurd (cc)
      whole (some (ok es')) (complete out) k h =
          let same_es : es' ≡ out = cc in
          upcast_all-AllUpcast es out (k ∙ ap (λ x. some (ok x)) same_es)
  upcast_outcome-IsUpcastOutcome (truncated es cursor reason) o' h =
      part (upcast_all fuel upcasters es) o' refl h
    where
      part :
          (r : Answer (List StoredEvent)) (o' : ReadOutcome (List StoredEvent))
          → upcast_all fuel upcasters es ≡ r
          → cut_data fuel upcasters cursor reason r ≡ some (ok o')
          → IsUpcastOutcome fuel upcasters (truncated es cursor reason) o'
      part none o' k h = absurd (cc)
      part (some (err x)) o' k h = absurd (cc)
      part (some (ok es')) (complete out) k h = absurd (cc)
      part (some (ok es')) (truncated out c w) k h =
          let same_es : es' ≡ out = cc in
          let same_c : c ≡ cursor = cc in
          let same_w : w ≡ reason = cc in
          (upcast_all-AllUpcast es out (k ∙ ap (λ x. some (ok x)) same_es), (same_c, same_w))

-- The limit of a read: that of the call, or else the store's.
pub data IsLimit : Option ℕ → Option ℕ → Option ℕ → Type 0 where
  given : {n : ℕ} {default : Option ℕ} → IsLimit (some n) default (some n)
  left_out : {default : Option ℕ} → IsLimit none default default

-- Where a read starts: where the query says, or at the version in the cursor of a range.
pub data StartsAt (decode : Bytes → Result Error CursorInner)
    : Option Bytes → Option ℕ → Type 0 where
  fresh : StartsAt decode none none
  resumed :
      {cursor : Bytes} {stream_id branch : Str} {version : ℕ}
      → decode cursor ≡ ok (range stream_id branch version)
      → StartsAt decode (some cursor) (some version)

or_default-IsLimit : (n default : Option ℕ) → IsLimit n default (or_default n default)
or_default-IsLimit (some n) default = given
or_default-IsLimit none default = left_out

module _ (fuel : ℕ) (upcasters : UpcasterRegistry) (encode : CursorInner → Result Error Bytes)
    (decode : Bytes → Result Error CursorInner) where
  decode_resume-StartsAt :
      (resume : Option Bytes) (start : Option ℕ)
      → decode_resume fuel upcasters encode decode resume ≡ ok start
      → StartsAt decode resume start
  decode_resume-StartsAt none start h = subst (StartsAt decode none) (ok-injective h) fresh
  decode_resume-StartsAt (some cursor) start h =
      let (inner, decoded, rest) = >>=-eq-ok (decode cursor) _ h in from inner decoded rest
    where
      from :
          (inner : CursorInner)
          → decode cursor ≡ ok inner
          → resume_of fuel upcasters encode decode inner ≡ ok start
          → StartsAt decode (some cursor) start
      from (range s b v) decoded e =
          subst (StartsAt decode (some cursor)) (ok-injective e) (resumed decoded)
      from (correlation id last) decoded e = absurd (cc)
      from (causation ids depth direction) decoded e = absurd (cc)

  -- A bounded read of the store that succeeds returns the page that the read of the log returns: from the
  -- version in its cursor, which is one of a range, or without a cursor from where the query says; and
  -- within each limit of the call or, where the call has none, of the store. It is complete or truncated
  -- alike, with the same cursor and reason, and event by event the same but for the payload, to which a
  -- chain of registered upcasters leads from the stored one.
  pub read_range_bounded-IsUpcast :
      (defaults : Option ℕ × Option ℕ) (db : Db) (q : ReadQuery) (max_results max_bytes : Option ℕ)
      (resume : Option Bytes) (o' : ReadOutcome (List StoredEvent))
      → read_range_bounded fuel upcasters encode decode defaults db q max_results max_bytes resume
        ≡ some (ok o')
      → (start results bytes : Option ℕ) × (o : ReadOutcome (List StoredEvent)) × StartsAt decode
          resume start
        × IsLimit max_results defaults.0 results
        × IsLimit max_bytes defaults.1 bytes
        × (read_range_bounded_impl encode db q start results bytes ≡ ok o)
        × IsUpcastOutcome fuel upcasters o o'
  unfolding read_range_bounded
  read_range_bounded-IsUpcast defaults db q max_results max_bytes resume o' h =
      let results = or_default max_results defaults.0 in
      let bytes = or_default max_bytes defaults.1 in
      elim (Result-cases (decode_resume fuel upcasters encode decode resume)) [
        | inr (e, failed) ↦ absurd (refused (rw failed at h))
        | inl (start, decoded) ↦
            elim (Result-cases (read_range_bounded_impl encode db q start results bytes)) [
              | inr (e, failed) ↦ absurd (refused (rw (decoded, failed) at h))
              | inl (o, page) ↦ (
                start,
                results,
                bytes,
                o,
                decode_resume-StartsAt resume start decoded,
                or_default-IsLimit max_results defaults.0,
                or_default-IsLimit max_bytes defaults.1,
                page,
                upcast_outcome-IsUpcastOutcome fuel upcasters o o' (rw (decoded, page) at h),
              )
            ]
      ]
    where
      refused :
          {e : Error} {o : ReadOutcome (List StoredEvent)}
          → ◌≡◌ {A = Answer (ReadOutcome (List StoredEvent))} (some (err e)) (some (ok o))
          → ⊥
      refused h = cc
