-- ===== src/Tests/Facade.antt =====
-- The theorems on the batch append and the bounded read of the store, at small data.
use fossic.Prelude.{ℕ, ◌≡◌, ◌↔◌, refl, true, List, [], ◌∷◌, Option, none, some}
use fossic.Prelude.Words.{Bytes}
use fossic.Text.{codes}
use fossic.Error.{Error, Result, ok}
use fossic.Tables.{StoredEvent, Append}
use fossic.Read.{
  ReadOutcome, CursorInner, range, truncated, result_count, stream_query, read_range_bounded_impl,
}
use fossic.Upcasters.{UpcasterRegistry}
use fossic.Store.Batch.{append_batch, append_in_turn, append_batch_iff}
use fossic.Store.Reads.{IsUpcastOutcome, read_range_bounded}
use fossic.Store.Upcast.{StartsAt, IsLimit, read_range_bounded-IsUpcast}
use fossic.Tests.{small, declared, notes, first_note, first_row, one_event, two_events}

abbrev row : StoredEvent
row = record first_row { payload = 1 ∷ [] }

-- The second append of the batch is the first again.
abbrev twice : List (Append × ℕ)
twice = (first_note, 9) ∷ (first_note, 12) ∷ []

append_batch_iff_example :
    (append_batch small [] true declared twice
      ≡ ok ((31 ∷ []) ∷ (31 ∷ []) ∷ [], (row ∷ [], record one_event { events = row ∷ [] })))
    ↔ (append_in_turn small [] true declared twice
        ≡ ok ((31 ∷ []) ∷ (31 ∷ []) ∷ [], (row ∷ [], record one_event { events = row ∷ [] })))
append_batch_iff_example =
    append_batch_iff small [] true declared twice
      ((31 ∷ []) ∷ (31 ∷ []) ∷ [], (row ∷ [], record one_event { events = row ∷ [] }))

append_batch_twice :
    append_batch small [] true declared twice
    ≡ ok ((31 ∷ []) ∷ (31 ∷ []) ∷ [], (row ∷ [], record one_event { events = row ∷ [] }))
unfolding append_batch fossic.Store.prepare_payload fossic.Cce.derive_event_id
    fossic.Cce.event_id_input fossic.Cce.encode_string fossic.Text.as_bytes fossic.Cce.encode_value
    fossic.Prelude.Lex.same fossic.Text.starts_with fossic.Prelude.Words.le_bytes
    fossic.Cce.encode_u32_as_i64 fossic.Cce.encode_i64 fossic.Cce.encode_optional_bytes
append_batch_twice = refl

abbrev upcasters : UpcasterRegistry
upcasters = (codes "n", record { from = 1; to = 2; upcast = λ p. ok (2 ∷ p) } ∷ []) ∷ []

-- The codec of the cursors of `notes`, one byte for the version.
abbrev encode : CursorInner → Result Error Bytes
encode (range s b v) = ok (v ∷ [])
encode c = ok []

abbrev decode : Bytes → Result Error CursorInner
decode [] = ok (range notes (codes "main") 0)
decode (v ∷ vs) = ok (range notes (codes "main") v)

abbrev page : ReadOutcome (List StoredEvent)
page = truncated (record first_row { payload = 2 ∷ 192 ∷ [] } ∷ []) (some (1 ∷ [])) result_count

page_read :
    read_range_bounded 3 upcasters encode decode
      (some 1, none)
      two_events
      (stream_query notes)
      none
      none
      (some (0 ∷ []))
    ≡ some (ok page)
unfolding read_range_bounded fossic.Prelude.Order.order_by fossic.Prelude.Lex.same
page_read = refl

read_range_bounded-IsUpcast_example :
    (start results bytes : Option ℕ) × (o : ReadOutcome (List StoredEvent)) × StartsAt decode
      (some (0 ∷ []))
      start
    × IsLimit none (some 1) results
    × IsLimit none none bytes
    × (read_range_bounded_impl encode two_events (stream_query notes) start results bytes ≡ ok o)
    × IsUpcastOutcome 3 upcasters o page
read_range_bounded-IsUpcast_example =
    read_range_bounded-IsUpcast 3 upcasters encode decode (some 1, none) two_events
      (stream_query notes) none none (some (0 ∷ [])) page page_read
