-- ===== src/Tests/Published.antt =====
-- The theorem on events that are handed on, at one append.
use fossic.Prelude.{◌≡◌, refl, true, List, [], ◌∷◌, some, keep}
use fossic.Prelude.Words.{Bytes}
use fossic.Text.{codes}
use fossic.Json.{Value}
use fossic.Error.{ok}
use fossic.Glob.{matches}
use fossic.Tables.{StoredEvent}
use fossic.Upcasters.{TransformEntry}
use fossic.Read.{read_one_impl}
use fossic.Store.{append}
use fossic.Store.Published.{append-read_one_impl}
use fossic.Tests.{small, declared, notes, first_note, first_row, one_event}

abbrev transforms : List TransformEntry
transforms = record { pattern = codes "a/*"; transform = λ t p. ok [] } ∷ []

none_matches : keep (λ (t : TransformEntry). matches t.pattern notes) transforms ≡ []
unfolding matches fossic.Prelude.Lex.same
none_matches = refl

-- The codec of `small` writes one byte.
recoded :
    (v w : Value) (b : Bytes)
    → small.to_vec v ≡ ok b
    → small.from_slice b ≡ ok w
    → small.to_vec w ≡ ok b
recoded v w b encoded decoded = encoded

abbrev row : StoredEvent
row = record first_row { payload = 1 ∷ [] }

append_ok :
    append small transforms true declared first_note 9
    ≡ ok (31 ∷ [], (some row, record one_event { events = row ∷ [] }))
unfolding append fossic.Cce.derive_event_id fossic.Cce.event_id_input fossic.Cce.encode_string
    fossic.Text.as_bytes fossic.Cce.encode_value fossic.Prelude.Lex.same
    fossic.Prelude.Words.le_bytes fossic.Cce.encode_u32_as_i64 fossic.Cce.encode_i64
    fossic.Cce.encode_optional_bytes matches fossic.Glob.match_parts fossic.Text.split
append_ok = refl

append-read_one_impl_example :
    read_one_impl (record one_event { events = row ∷ [] }) (31 ∷ []) ≡ some row
append-read_one_impl_example =
    append-read_one_impl small transforms true declared (record one_event { events = row ∷ [] })
      first_note 9 (31 ∷ []) row recoded none_matches append_ok
