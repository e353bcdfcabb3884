-- ===== src/Upcasters.antt =====
-- src/upcasters.rs and src/transforms.rs: the functions on payloads that a user registers.
-- They are foreign code. The loop of `apply` runs on fuel: `none` means that the fuel did not suffice.
pub mod Chains
use fossic.Prelude.{
  ℕ, zero, suc, Bool, true, false, List, [], ◌∷◌, ◌++◌, Option, none, some, ltb, ◌==◌, any, find,
  if◌then◌else◌,
}
use fossic.Prelude.Order.{order_by}
use fossic.Prelude.Lex.{same}
use fossic.Prelude.Words.{Bytes}
use fossic.Text.{Str}
use fossic.Error.{Error, upcaster_chain_gap, Result, ok, err, ◌>>=◌, map_ok}
use fossic.Glob.{matches}
use fossic.Tables.{StoredEvent}

pub record UpcasterEntry : Type 0 where
  pub from : ℕ
  pub to : ℕ
  pub upcast : Bytes → Result Error Bytes

-- the map from event types to entries
abbrev pub UpcasterRegistry : Type 0
UpcasterRegistry = List (Str × List UpcasterEntry)

unfoldable pub entries_of : UpcasterRegistry → Str → List UpcasterEntry
entries_of [] event_type = []
entries_of ((t, entries) ∷ registry) event_type =
    if same t event_type then entries else entries_of registry event_type

abbrev pub from_of : UpcasterEntry → ℕ
from_of e = e.from

-- `push` and the stable sort by `from`
abbrev pub push_sorted : UpcasterEntry → List UpcasterEntry → List UpcasterEntry
push_sorted e entries = order_by from_of (entries ++ e ∷ [])

unfoldable pub register : UpcasterRegistry → Str → UpcasterEntry → UpcasterRegistry
register [] event_type e = (event_type, push_sorted e []) ∷ []
register ((t, entries) ∷ registry) event_type e =
    if same t event_type
    then (t, push_sorted e entries) ∷ registry
    else (t, entries) ∷ register registry event_type e

abbrev pub starts_at : ℕ → UpcasterEntry → Bool
starts_at current e = e.from == current

unfoldable pub entry_from : ℕ → List UpcasterEntry → Option UpcasterEntry
entry_from current entries = find (starts_at current) entries

unfoldable pub has_higher : ℕ → List UpcasterEntry → Bool
has_higher current entries = any (λ (e : UpcasterEntry). ltb current e.from) entries

-- the loop, with `current` and `payload`
unfoldable pub upcast_from : ℕ → Str → List UpcasterEntry → ℕ → Bytes → Option (Result Error Bytes)
unfolding entry_from has_higher
upcast_from zero event_type entries current payload = none
upcast_from (suc fuel) event_type entries current payload = elim (entry_from current entries) [
  | none ↦
      if has_higher current entries
      then some (err (upcaster_chain_gap event_type current))
      else some (ok payload)
  | some e ↦ elim (e.upcast payload) [
    | ok payload' ↦ upcast_from fuel event_type entries e.to payload'
    | err x ↦ some (err x)
  ]
]

abbrev pub is_none : List UpcasterEntry → Bool
is_none [] = true
is_none (e ∷ entries) = false

unfoldable pub apply : ℕ → UpcasterRegistry → Str → ℕ → Bytes → Option (Result Error Bytes)
unfolding entries_of upcast_from
apply fuel registry event_type stored_version payload =
    let entries = entries_of registry event_type in
    let walked = upcast_from fuel event_type entries stored_version payload in
    if is_none entries then some (ok payload) else walked

abbrev pub with_payload :
    StoredEvent → Option (Result Error Bytes) → Option (Result Error StoredEvent)
with_payload event none = none
with_payload event (some r) = some (map_ok (λ payload. record event { payload = payload }) r)

unfoldable pub apply_upcaster :
    ℕ → UpcasterRegistry → StoredEvent → Option (Result Error StoredEvent)
unfolding apply
apply_upcaster fuel registry event =
    with_payload event (apply fuel registry event.event_type event.type_version event.payload)

pub record TransformEntry : Type 0 where
  pub pattern : Str
  pub transform : Str → Bytes → Result Error Bytes

unfoldable pub pattern_matches : Str → Str → Bool
unfolding matches
pattern_matches pattern stream_id = matches pattern stream_id

unfoldable pub apply_transforms : List TransformEntry → Str → Str → Bytes → Result Error Bytes
unfolding pattern_matches
apply_transforms [] stream_id event_type payload_bytes = ok payload_bytes
apply_transforms (entry ∷ entries) stream_id event_type payload_bytes = do
  payload' ←
      (if pattern_matches entry.pattern stream_id
        then entry.transform event_type payload_bytes
        else ok payload_bytes)
  apply_transforms entries stream_id event_type payload'
