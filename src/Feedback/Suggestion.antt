-- ===== src/Feedback/Suggestion.antt =====
-- `apply_inline_suggestion` of src/feedback.rs: a suggestion replaces the lines that its review names. Its
-- caller `prepare_repair` has refused line 0 (`review_range`).
pub mod Hunks
use pi_tools.Common.{
  ℕ, ◌-◌, Bool, false, not, ◌&&◌, ◌||◌, Option, none, some, List, [], ◌∷◌, ◌++◌, ltb, leb, ◌==◌,
  if◌then◌else◌, is_empty, any, length, take, drop, Result, ok, ◌>>=◌, ◌>>◌, reject_if, ok_or,
}
use pi_tools.Text.{Text, codes}
use pi_tools.Paths.{split_on}
use pi_tools.Feedback.{FeedbackError, stale_patch, malformed_suggestion, join_lines}

-- `ends_with('\n')`, and `strip_suffix('\n').unwrap_or(…)`.
abbrev pub ends_with_line_end : Text → Bool
ends_with_line_end [] = false
ends_with_line_end (c ∷ []) = c == 0xa
ends_with_line_end (c ∷ d ∷ s) = ends_with_line_end (d ∷ s)

abbrev pub without_line_end : Text → Text
without_line_end [] = []
without_line_end (c ∷ []) = if c == 0xa then [] else c ∷ []
without_line_end (c ∷ d ∷ s) = c ∷ without_line_end (d ∷ s)

-- The lines of a text, none of an empty one.
abbrev pub lines_of : Text → List Text
lines_of text = if is_empty text then [] else split_on 0xa text

abbrev pub or_line : Option ℕ → ℕ → ℕ
or_line none line = line
or_line (some start_line) line = start_line

-- The lines of a review, as `prepare_repair` reads them.
unfoldable pub review_range : Option ℕ → Option ℕ → Result FeedbackError (ℕ × ℕ)
review_range start_line line = do
  line ← ok_or line (malformed_suggestion (codes "review line is missing"))
  reject_if (line == 0 || (or_line start_line line == 0 || ltb line (or_line start_line line)))
      (malformed_suggestion (codes "review line range is invalid"))
  ok (or_line start_line line, line)

abbrev pub has_return : Text → Bool
has_return = any (λ c. c == 0xd)

-- `splice`, and the lines put together again.
abbrev pub spliced : Text → ℕ → ℕ → Text → List Text
spliced original start end suggestion =
    let lines = lines_of (without_line_end original) in
    take start lines ++ (lines_of suggestion ++ drop end lines)

abbrev pub put_together : Bool → List Text → Text
put_together has_trailing_newline lines =
    if has_trailing_newline && not (is_empty lines)
    then join_lines lines ++ (0xa ∷ [])
    else join_lines lines

unfoldable pub apply_inline_suggestion : Text → ℕ → ℕ → Text → Result FeedbackError Text
unfolding split_on join_lines
apply_inline_suggestion original start_line end_line suggestion =
    let start = start_line - 1 in
    let lines = lines_of (without_line_end original) in
    reject_if (has_return original || has_return suggestion)
      (stale_patch (codes "line-ending normalization is not supported"))
    >> (reject_if (ltb (length lines) end_line || leb end_line start)
          (stale_patch (codes "review line range is outside the current file"))
        >> ok (
            put_together (ends_with_line_end original)
              (spliced original start end_line suggestion)))
