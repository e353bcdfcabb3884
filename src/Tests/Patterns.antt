-- ===== src/Tests/Patterns.antt =====
-- The theorems on patterns, reducers and stream ids at small texts.
use fossic.Prelude.{◌≡◌, ◌↔◌, refl, true, false, List, [], ◌∷◌, none}
use fossic.Prelude.Lex.{same}
use fossic.Text.{Str, codes, split}
use fossic.Error.{ok}
use fossic.Glob.{matches, match_parts, star}
use fossic.Glob.Meaning.{Matches, matches_iff}
use fossic.Reducers.{
  BoxedReducer, manual, ReducerEntry, ReducerRegistry, returned, parts_may_overlap,
  patterns_may_overlap, has_double_star, register_with_policy, find_entry,
}
use fossic.Reducers.Overlap.{patterns_may_overlap_sound}
use fossic.Reducers.Lookup.{
  Unambiguous, IsBest, register_with_policy-Unambiguous, find_entry-IsBest,
}
use fossic.Stream.{validate_stream_id, declare_stream}
use fossic.Stream.Valid.{IsStreamId, validate_stream_id_iff}
use fossic.Tables.{empty_db}
use fossic.Tests.{letters, notes, declared}

matches_iff_example :
    (matches (codes "a/**/*") (codes "a/b/c") ≡ true)
    ↔ Matches (split (codes "a/**/*")) (split (codes "a/b/c"))
matches_iff_example = matches_iff (codes "a/**/*") (codes "a/b/c")

left_matches : matches (codes "a/*") (codes "a/b") ≡ true
unfolding matches same
left_matches = refl

right_matches : matches (codes "**") (codes "a/b") ≡ true
unfolding matches same
right_matches = refl

patterns_may_overlap_sound_example : patterns_may_overlap (codes "a/*") (codes "**") ≡ true
patterns_may_overlap_sound_example =
    patterns_may_overlap_sound (codes "a/*") (codes "**") (codes "a/b") left_matches right_matches

abbrev a_star : List Str
a_star = codes "a" ∷ star ∷ []

abbrev star_b : List Str
star_b = star ∷ codes "b" ∷ []

no_double_left : has_double_star a_star ≡ false
unfolding same
no_double_left = refl

no_double_right : has_double_star star_b ≡ false
unfolding same
no_double_right = refl

they_overlap : parts_may_overlap a_star star_b ≡ true
unfolding parts_may_overlap same
they_overlap = refl

abbrev constant_reducer : BoxedReducer
constant_reducer = record {
  name = codes "r";
  version = 1;
  state_schema_version = 1;
  initial_state_bytes = ok [];
  apply_bytes = λ state payload. returned (ok state);
}

abbrev one_entry : ReducerRegistry
one_entry =
    record { pattern = codes "a/*"; specificity = 1; reducer = constant_reducer; policy = manual }
    ∷ []

abbrev two_entries : ReducerRegistry
two_entries =
    record { pattern = codes "a/*"; specificity = 1; reducer = constant_reducer; policy = manual }
    ∷ record { pattern = codes "a/b"; specificity = 2; reducer = constant_reducer; policy = manual }
    ∷ []

registered : register_with_policy one_entry (codes "a/b") constant_reducer manual ≡ ok two_entries
unfolding register_with_policy fossic.Reducers.validate_snapshot_policy patterns_may_overlap same
    fossic.Glob.specificity_score
registered = refl

one_entry-Unambiguous : Unambiguous one_entry
one_entry-Unambiguous = (tt, tt)

register_with_policy-Unambiguous_example : Unambiguous two_entries
register_with_policy-Unambiguous_example =
    register_with_policy-Unambiguous one_entry two_entries (codes "a/b") constant_reducer manual
      one_entry-Unambiguous registered

two_entries-Unambiguous : Unambiguous two_entries
two_entries-Unambiguous =
    register_with_policy-Unambiguous one_entry two_entries (codes "a/b") constant_reducer manual
      one_entry-Unambiguous registered

find_entry-IsBest_example : IsBest (codes "a/b") two_entries (find_entry two_entries (codes "a/b"))
find_entry-IsBest_example = find_entry-IsBest two_entries (codes "a/b") two_entries-Unambiguous

validate_stream_id_iff_example :
    (validate_stream_id letters (codes "a/b") ≡ ok tt) ↔ IsStreamId letters (codes "a/b")
validate_stream_id_iff_example = validate_stream_id_iff letters (codes "a/b")

no_star : letters b'*' ≡ false
no_star = refl

valid_id : validate_stream_id letters (codes "a/b") ≡ ok tt
unfolding validate_stream_id fossic.Text.byte_len split
valid_id = refl

declaration : declare_stream letters empty_db notes (codes "me") none 5 ≡ ok declared
unfolding declare_stream validate_stream_id fossic.Text.byte_len split
declaration = refl
