-- ===== src/Feedback/Tests.antt =====
-- A patch of one hunk, applied to a file of three lines.
use pi_tools.Common.{◌≡◌, refl, List, [], ◌∷◌, ◌++◌, ok}
use pi_tools.Text.{Text, codes, text_eq}
use pi_tools.Paths.{split_on}
use pi_tools.Feedback.{
  Hunk, add, apply_from, apply_hunks, apply_lines, context, join_lines, remove, require_exact_line,
}
use pi_tools.Feedback.Suggestion.{apply_inline_suggestion}
use pi_tools.Feedback.Suggestion.Hunks.{hunk_of, apply_inline_suggestion-hunk}
use pi_tools.Feedback.Laws.{Patched, apply_hunks-Patched}

abbrev original : Text
original = codes "a" ++ (0xa ∷ codes "b" ++ (0xa ∷ codes "c"))

abbrev patch : List Hunk
patch =
    record {
      old_start = 1;
      old_count = 2;
      new_count = 2;
      lines = context (codes "a") ∷ remove (codes "b") ∷ add (codes "d") ∷ [];
    }
    ∷ []

patched : apply_hunks original patch ≡ ok (codes "a" ++ (0xa ∷ codes "d" ++ (0xa ∷ codes "c")))
unfolding apply_hunks apply_from apply_lines require_exact_line join_lines split_on text_eq
patched = refl

apply_hunks-Patched_example :
    (lines : List Text) × (codes "a" ++ (0xa ∷ codes "d" ++ (0xa ∷ codes "c")) ≡ join_lines lines)
    × Patched 0 patch (split_on 0xa original) lines
apply_hunks-Patched_example = apply_hunks-Patched original patch patched

abbrev suggested : Text
suggested = codes "a" ++ (0xa ∷ codes "x" ++ (0xa ∷ codes "c"))

suggestion : apply_inline_suggestion original 2 2 (codes "x") ≡ ok suggested
unfolding apply_inline_suggestion
suggestion = refl

apply_inline_suggestion-hunk_example :
    apply_hunks original (hunk_of original 2 2 (codes "x") ∷ []) ≡ ok suggested
apply_inline_suggestion-hunk_example =
    apply_inline_suggestion-hunk original 2 2 (codes "x") suggested suggestion
