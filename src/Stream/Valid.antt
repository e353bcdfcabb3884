-- ===== src/Stream/Valid.antt =====
-- The stream ids of src/stream.rs, and such an id as a pattern of src/glob.rs.
use fossic.Prelude.{
  ℕ, ◌≤◌, ◌≡◌, ◌≢◌, ◌↔◌, ◌⊎◌, inl, inr, refl, sym, ap₂, Bool, true, false, List, [], ◌∷◌, arith,
  All, All-mono, length, subst,
}
use fossic.Text.{Str, split, byte_len}
use fossic.Text.Split.{split-injective, All-split}
use fossic.Error.{ok, ◌>>=◌, >>=-eq-ok}
use fossic.Glob.{matches}
use fossic.Glob.Meaning.{Matches, stop, one, leave, take, matches_iff}
use fossic.Stream.{
  allowed, check_allowed, check_count, is_empty, check_segments, validate_stream_id,
}

module _ (is_alphanumeric : ℕ → Bool) where
  abbrev pub IsAllowed : ℕ → Type 0
  IsAllowed c = (is_alphanumeric c ≡ true) ⊎ (c ≡ b'-') ⊎ (c ≡ b'_') ⊎ (c ≡ b'/')

  allowed_iff : (c : ℕ) → (allowed is_alphanumeric c ≡ true) ↔ IsAllowed c
  allowed_iff c = ground arith

  -- The rules for stream ids.
  pub record IsStreamId (id : Str) : Type 0 where
    pub short : byte_len id ≤ 256
    pub characters : All IsAllowed id
    pub few : length (split id) ≤ 4
    pub segments : All (λ seg. seg ≢ []) (split id)

  check_allowed_iff : (id s : Str) → (check_allowed is_alphanumeric id s ≡ ok tt) ↔ All IsAllowed s
  unfolding check_allowed
  check_allowed_iff id [] = ((λ _. tt), (λ _. refl))
  check_allowed_iff id (c ∷ s) = (
    (λ h. ((allowed_iff c).0 (ground arith), (check_allowed_iff id s).0 (ground arith))),
    (λ h. rw ((allowed_iff c).1 h.0) ((check_allowed_iff id s).1 h.1)),
  )

  check_segments_iff :
      (id : Str) (segs : List Str) → (check_segments id segs ≡ ok tt) ↔ All (λ seg. seg ≢ []) segs
  unfolding check_segments
  check_segments_iff id [] = ((λ _. tt), (λ _. refl))
  check_segments_iff id ([] ∷ segs) = ((λ h. cc), (λ h. absurd (h.0 refl)))
  check_segments_iff id ((c ∷ s) ∷ segs) = (
    (λ h. ((λ e. cc), (check_segments_iff id segs).0 h)),
    (λ h. (check_segments_iff id segs).1 h.1),
  )

  check_count_iff : (id : Str) (n : ℕ) → (check_count id n ≡ ok tt) ↔ (n ≤ 4)
  unfolding check_count
  check_count_iff id n = ground arith

  validate_sound : (id : Str) → validate_stream_id is_alphanumeric id ≡ ok tt → IsStreamId id
  unfolding validate_stream_id
  validate_sound id h =
      let rest : (do
        _ ← check_allowed is_alphanumeric id id
        _ ← check_count id (length (split id))
        check_segments id (split id))
          ≡ ok tt =
        ground arith in
      let (_, e₁, h₁) = >>=-eq-ok (check_allowed is_alphanumeric id id) _ rest in
      let (_, e₂, h₂) = >>=-eq-ok (check_count id (length (split id))) _ h₁ in
      record {
        short = ground arith;
        characters = (check_allowed_iff id id).0 e₁;
        few = (check_count_iff id (length (split id))).0 e₂;
        segments = (check_segments_iff id (split id)).0 h₂;
      }

  not_empty : (id : Str) → All (λ seg. seg ≢ []) (split id) → is_empty id ≡ false
  unfolding split
  not_empty [] h = absurd (h.0 refl)
  not_empty (c ∷ id) h = refl

  validate_complete : (id : Str) → IsStreamId id → validate_stream_id is_alphanumeric id ≡ ok tt
  unfolding validate_stream_id
  validate_complete id h =
      rw
        (
          not_empty id h.segments,
          (check_allowed_iff id id).1 h.characters,
          (check_count_iff id (length (split id))).1 h.few,
          (check_segments_iff id (split id)).1 h.segments,
        )
        (ground arith)

  -- An id is accepted exactly if it has at most 256 bytes of UTF-8, all its characters are alphanumeric (of
  -- any script) or one of `-`, `_` and `/`, and the slashes divide it into at most 4 segments, none of them
  -- empty. An id below `_fossic/` is accepted like any other.
  pub validate_stream_id_iff :
      (id : Str) → (validate_stream_id is_alphanumeric id ≡ ok tt) ↔ IsStreamId id
  validate_stream_id_iff id = (validate_sound id, validate_complete id)

  -- Without `*` among its characters a pattern matches its own segments only.
  plain : {ps s : List Str} → Matches ps s → All (All (λ c. c ≢ b'*')) ps → s ≡ ps
  plain stop h = refl
  plain (one {p} {x} {ps} {xs} n (inl e) d) h = absurd ((subst (All (λ c. c ≢ b'*')) e h.0).0 refl)
  plain (one {p} {x} {ps} {xs} n (inr e) d) h = ap₂ ◌∷◌ (sym e) (plain d h.1)
  plain (leave {p} e d) h = absurd ((subst (All (λ c. c ≢ b'*')) e h.0).0 refl)
  plain (take {p} e d) h = absurd ((subst (All (λ c. c ≢ b'*')) e h.0).0 refl)

  itself : (ps : List Str) → All (All (λ c. c ≢ b'*')) ps → Matches ps ps
  itself [] h = stop
  itself (p ∷ ps) h =
      one (λ e. (subst (All (λ c. c ≢ b'*')) e h.0).0 refl) (inr refl) (itself ps h.1)

  no_star :
      (id : Str)
      → is_alphanumeric b'*' ≡ false
      → IsStreamId id
      → All (All (λ c. c ≢ b'*')) (split id)
  no_star id n v =
      All-split (λ c. c ≢ b'*') id
        (All-mono IsAllowed (λ c. c ≢ b'*') id
          (λ c a e.
            let a' = subst (λ d. allowed is_alphanumeric d ≡ true) e ((allowed_iff c).1 a) in
            let b = rw n at a' in cc)
          v.characters)

  -- An accepted id, used as a pattern, matches itself and no other stream.
  pub matches-stream_id :
      (id stream_id : Str)
      → is_alphanumeric b'*' ≡ false
      → validate_stream_id is_alphanumeric id ≡ ok tt
      → (matches id stream_id ≡ true) ↔ (stream_id ≡ id)
  matches-stream_id id stream_id n h =
      let plain_id = no_star id n (validate_sound id h) in
      (
        (λ m. split-injective stream_id id (plain ((matches_iff id stream_id).0 m) plain_id)),
        (λ e. rw e ((matches_iff id id).1 (itself (split id) plain_id))),
      )
