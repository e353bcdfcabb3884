-- ===== src/Glob.antt =====
-- src/glob.rs: stream patterns. `*` is one segment and `**` any number of segments.
pub mod Meaning
use fossic.Prelude.{
  ℕ, zero, suc, Bool, true, false, ◌&&◌, ◌||◌, List, [], ◌∷◌, ◌==◌, last, if◌then◌else◌,
}
use fossic.Prelude.Lex.{same}
use fossic.Text.{Str, codes, split}
use fossic.Error.{Error, invalid_stream_id, literal, Result, ok, err, ◌>>=◌}

abbrev pub star : Str
star = codes "*"

abbrev pub double_star : Str
double_star = codes "**"

-- the loop over `i in 0..=s.len()`: some suffix passes the test
unfoldable pub any_suffix : (List Str → Bool) → List Str → Bool
any_suffix test [] = test []
any_suffix test (x ∷ xs) = test (x ∷ xs) || any_suffix test xs

-- the branch for a segment that is not `**`
unfoldable pub match_segment : Str → (List Str → Bool) → List Str → Bool
match_segment p rest [] = false
match_segment p rest (x ∷ xs) = (same p star || same p x) && rest xs

unfoldable pub match_parts : List Str → List Str → Bool
unfolding any_suffix match_segment
match_parts [] [] = true
match_parts [] (x ∷ xs) = false
match_parts (p ∷ ps) s =
    if same p double_star then any_suffix (match_parts ps) s else match_segment p (match_parts ps) s

unfoldable pub matches : Str → Str → Bool
unfolding match_parts split
matches pattern stream_id = match_parts (split pattern) (split stream_id)

-- `take_while(..).count()`
abbrev pub leading_literals : List Str → ℕ
leading_literals [] = 0
leading_literals (s ∷ rest) =
    let more = suc (leading_literals rest) in if same s star || same s double_star then 0 else more

unfoldable pub specificity_score : Str → ℕ
unfolding split
specificity_score pattern = leading_literals (split pattern)

-- the loop over the characters: the first one that is whitespace or a quote
unfoldable pub check_chars : (ℕ → Bool) → Str → Str → Result Error (Unit {0})
check_chars is_whitespace pattern [] = ok tt
check_chars is_whitespace pattern (ch ∷ rest) =
    if is_whitespace ch
    then err (invalid_stream_id pattern (literal (codes "pattern must not contain whitespace")))
    else if ch == b'"' || ch == 39
    then err
        (invalid_stream_id pattern (literal (codes "pattern must not contain quote characters")))
    else check_chars is_whitespace pattern rest

abbrev pub starts_with_slash : Str → Bool
starts_with_slash [] = false
starts_with_slash (c ∷ s) = c == b'/'

abbrev pub ends_with_slash : Str → Bool
ends_with_slash [] = false
ends_with_slash (c ∷ []) = c == b'/'
ends_with_slash (c ∷ d ∷ s) = ends_with_slash (d ∷ s)

-- `char::is_whitespace` is a parameter.
unfoldable pub validate_pattern : (ℕ → Bool) → Str → Result Error (Unit {0})
unfolding check_chars
validate_pattern is_whitespace [] =
    err (invalid_stream_id [] (literal (codes "pattern must not be empty")))
validate_pattern is_whitespace (c ∷ rest) =
    let pattern = c ∷ rest in
    if starts_with_slash pattern || ends_with_slash pattern
    then err (
        invalid_stream_id pattern
          (literal (codes "pattern must not have a leading or trailing '/'")))
    else check_chars is_whitespace pattern pattern
