-- ===== src/Tests/Listings.antt =====
-- The theorem on the listing of streams, at a stream that a user declared.
use fossic.Prelude.{◌≡◌, ◌↔◌, refl, true, [], ◌∷◌, any}
use fossic.Prelude.Lex.{same}
use fossic.Text.{codes}
use fossic.Tables.{StreamInfo, Db}
use fossic.Stream.{streams_impl, stream_exists}
use fossic.Stream.Listing.{IsHidden, streams_impl_iff}
use fossic.Tests.{declared, notes_info}

-- `afossic/x` is no system stream.
abbrev user_stream : Db
user_stream = record declared {
  streams = notes_info ∷ record notes_info { id = codes "afossic/x" } ∷ [];
}

-- It is not listed.
user_stream_hidden : streams_impl user_stream ≡ notes_info ∷ []
unfolding streams_impl fossic.Cce.Sort.sort_by
user_stream_hidden = refl

streams_impl_iff_example :
    (any (λ (s : StreamInfo). same s.id (codes "afossic/x")) (streams_impl user_stream) ≡ true)
    ↔ ((stream_exists user_stream (codes "afossic/x") ≡ true) × ¬ (IsHidden (codes "afossic/x")))
streams_impl_iff_example = streams_impl_iff user_stream (codes "afossic/x")
