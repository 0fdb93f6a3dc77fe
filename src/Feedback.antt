-- ===== src/Feedback.antt =====
-- `Hunk`, `HunkLine`, `require_exact_line` and `apply_hunks` of src/feedback.rs: a parsed patch is applied
-- to the lines of a file.
pub mod Slices
pub mod Laws
pub mod Suggestion
pub mod Parse
pub mod Fence
pub mod Files
pub mod Repair
pub mod Reply
mod Tests
use pi_tools.Common.{
  ℕ, zero, suc, ◌+◌, ◌-◌, Bool, false, not, ◌||◌, Option, none, some, List, [], ◌∷◌, ◌++◌, ltb,
  ◌==◌, if◌then◌else◌, length, take, drop, Result, ok, ◌>>=◌, ◌>>◌, reject_if,
}
use pi_tools.Text.{Text, codes, text_eq}
use pi_tools.Paths.{split_on}

pub data HunkLine : Type 0 where
  context remove add : Text → HunkLine

pub record Hunk : Type 0 where
  pub old_start : ℕ
  pub old_count : ℕ
  pub new_count : ℕ
  pub lines : List HunkLine

-- `stale_line` is the stale patch whose message names the line, counted from 1.
pub data FeedbackError : Type 0 where
  stale_patch malformed_patch malformed_suggestion invalid_path io : Text → FeedbackError
  stale_line : ℕ → FeedbackError

abbrev pub nth : List Text → ℕ → Option Text
nth [] i = none
nth (x ∷ xs) zero = some x
nth (x ∷ xs) (suc i) = nth xs i

abbrev pub is_line : Option Text → Text → Bool
is_line none expected = false
is_line (some found) expected = text_eq found expected

unfoldable pub require_exact_line : List Text → ℕ → Text → Result FeedbackError (Unit {0})
unfolding text_eq
require_exact_line source index expected =
    reject_if (not (is_line (nth source index) expected)) (stale_line (index + 1))

-- The lines that a hunk pushes, and the index behind it.
unfoldable pub apply_lines : List Text → ℕ → List HunkLine → Result FeedbackError (List Text × ℕ)
unfolding require_exact_line
apply_lines source source_index [] = ok ([], source_index)
apply_lines source source_index (context expected ∷ lines) = do
  require_exact_line source source_index expected
  (pushed, behind) ← apply_lines source (source_index + 1) lines
  ok (expected ∷ pushed, behind)
apply_lines source source_index (remove expected ∷ lines) = do
  require_exact_line source source_index expected
  apply_lines source (source_index + 1) lines
apply_lines source source_index (add value ∷ lines) = do
  (pushed, behind) ← apply_lines source source_index lines
  ok (value ∷ pushed, behind)

abbrev pub start_of : Hunk → ℕ
start_of hunk = if hunk.old_count == 0 then hunk.old_start else hunk.old_start - 1

abbrev pub slice : ℕ → ℕ → List Text → List Text
slice from to source = take (to - from) (drop from source)

unfoldable pub apply_from : List Text → ℕ → List Hunk → Result FeedbackError (List Text)
unfolding apply_lines
apply_from source cursor [] = ok (drop cursor source)
apply_from source cursor (hunk ∷ hunks) = do
  reject_if (ltb (start_of hunk) cursor || ltb (length source) (start_of hunk))
      (stale_patch (codes "hunks overlap or address lines outside the file"))
  (pushed, behind) ← apply_lines source (start_of hunk) hunk.lines
  reject_if (not (length pushed == hunk.new_count))
      (malformed_patch (codes "new hunk count changed during application"))
  rest ← apply_from source behind hunks
  ok (slice cursor (start_of hunk) source ++ (pushed ++ rest))

unfoldable pub join_lines : List Text → Text
join_lines [] = []
join_lines (line ∷ []) = line
join_lines (line ∷ next ∷ rest) = line ++ 0xa ∷ join_lines (next ∷ rest)

unfoldable pub apply_hunks : Text → List Hunk → Result FeedbackError Text
unfolding apply_from join_lines split_on
apply_hunks original hunks = do
  lines ← apply_from (split_on 0xa original) 0 hunks
  ok (join_lines lines)
