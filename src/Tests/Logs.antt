-- ===== src/Tests/Logs.antt =====
-- The theorems on appends and reads at small logs.
use fossic.Prelude.{
  ℕ, ◌≡◌, ◌≢◌, refl, Bool, true, false, List, [], ◌∷◌, ◌++◌, Option, none, some, arith,
  if◌then◌else◌,
}
use fossic.Prelude.Lex.{same}
use fossic.Prelude.Words.{Bytes}
use fossic.Text.{Str, codes}
use fossic.Json
use fossic.Error.{Error, Result, ok, ◌>>=◌}
use fossic.Tables.{StoredEvent, Db}
use fossic.Append.{AppendOutcome, check_tags, append_impl, append_if_impl, next_version}
use fossic.Append.Log.{IsUnique}
use fossic.Append.Outcome.{
  IsConsistent, when_holds, append_impl-IsConsistent, append_impl-again, append_if_impl-eq,
}
use fossic.Append.Batch.{Prepared, append_batch_impl, append_each, append_batch_impl_iff}
use fossic.Read.{
  CursorInner, range, ReadOutcome, truncated, result_count, stream_query, read_range_bounded_impl,
}
use fossic.Read.Page.{IsPage, read_range_bounded_impl-IsPage}
use fossic.Stream.{stream_exists}
use fossic.Tests.{
  small, notes, declared, first_note, first_outcome, first_row, one_event, two_events,
}

first_append :
    append_impl small declared first_note Json.null (192 ∷ []) 9 ≡ ok (first_outcome, one_event)
unfolding append_impl fossic.Cce.derive_event_id fossic.Cce.event_id_input fossic.Cce.encode_string
    fossic.Text.as_bytes fossic.Cce.encode_value same fossic.Prelude.Words.le_bytes
    fossic.Cce.encode_u32_as_i64 fossic.Cce.encode_i64 fossic.Cce.encode_optional_bytes
first_append = refl

declared-IsConsistent : IsConsistent declared
unfolding next_version
declared-IsConsistent = (tt, (λ s b v lt. absurd (omega arith)), tt)

append_impl-IsConsistent_example : IsConsistent one_event
append_impl-IsConsistent_example =
    append_impl-IsConsistent small declared one_event first_note Json.null (192 ∷ []) 9
      first_outcome declared-IsConsistent first_append

no_tags : check_tags none ≡ ok tt
unfolding check_tags
no_tags = refl

notes_exist : stream_exists one_event notes ≡ true
unfolding stream_exists same
notes_exist = refl

append_impl-again_example :
    (o : AppendOutcome) × (append_impl small one_event first_note Json.null (7 ∷ []) 88
      ≡ ok (o, one_event))
    × (o.event_id ≡ 31 ∷ [])
    × (o.is_new ≡ false)
append_impl-again_example =
    append_impl-again small declared one_event first_note first_note Json.null Json.null (192 ∷ [])
      (7 ∷ []) 9 88 first_outcome first_append refl no_tags notes_exist

append_if_impl-eq_example :
    append_if_impl small declared first_note Json.null (192 ∷ []) 9 (λ db. ok true) ≡ (
      append_impl small declared first_note Json.null (192 ∷ []) 9 >>= λ p.
      ok true >>= when_holds declared p)
append_if_impl-eq_example =
    append_if_impl-eq small declared first_note Json.null (192 ∷ []) 9 (λ db. ok true)

abbrev batch : List Prepared
batch =
    record { append = first_note; payload = Json.null; payload_bytes = 192 ∷ []; now = 9 }
    ∷ record { append = first_note; payload = Json.null; payload_bytes = 192 ∷ []; now = 10 }
    ∷ []

abbrev again_outcome : AppendOutcome
again_outcome = record first_outcome { version = 1; timestamp_us = 10; is_new = false }

abbrev batch_result : List AppendOutcome × Db
batch_result = (first_outcome ∷ again_outcome ∷ [], one_event)

batch_ok : append_batch_impl small declared batch ≡ ok batch_result
unfolding append_batch_impl fossic.Cce.derive_event_id fossic.Cce.event_id_input
    fossic.Cce.encode_string fossic.Text.as_bytes fossic.Cce.encode_value same
    fossic.Prelude.Words.le_bytes fossic.Cce.encode_u32_as_i64 fossic.Cce.encode_i64
    fossic.Cce.encode_optional_bytes
batch_ok = refl

append_batch_impl_iff_example :
    (append_batch_impl small declared batch ≡ ok batch_result
      → append_each small declared batch ≡ ok batch_result)
    × (append_each small declared batch ≡ ok batch_result
        → append_batch_impl small declared batch ≡ ok batch_result)
append_batch_impl_iff_example = append_batch_impl_iff small declared batch batch_result

-- A cursor's bytes are its version.
abbrev version_codec : CursorInner → Result Error Bytes
version_codec (range s b v) = ok (v ∷ [])
version_codec c = ok []

abbrev page : ReadOutcome (List StoredEvent)
page = truncated (first_row ∷ []) (some (1 ∷ [])) result_count

page_ok :
    read_range_bounded_impl version_codec two_events (stream_query notes) none (some 1) none
    ≡ ok page
unfolding read_range_bounded_impl fossic.Prelude.Order.order_by same
page_ok = refl

two-IsUnique : IsUnique two_events.events
unfolding same
two-IsUnique = ((refl, tt), (tt, tt))

one_not_none : ◌≢◌ {A = Option ℕ} (some 1) (some 0)
one_not_none h = cc

read_range_bounded_impl-IsPage_example : IsPage version_codec two_events (stream_query notes) 0 page
read_range_bounded_impl-IsPage_example =
    read_range_bounded_impl-IsPage version_codec two_events (stream_query notes) none (some 1) none
      page two-IsUnique (omega arith) one_not_none page_ok
