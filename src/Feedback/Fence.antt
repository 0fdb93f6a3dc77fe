-- ===== src/Feedback/Fence.antt =====
-- `extract_exact_suggestion` and `extract_inline_suggestion` of src/feedback.rs: the suggestion in the body
-- of a comment.
use pi_tools.Common.{
  ℕ, ◌*◌, not, ◌||◌, ltb, ◌==◌, ◌++◌, [], ◌∷◌, is_empty, Option, none, some, Result, ok, ◌>>=◌,
  ◌>>◌, reject_if, ok_or,
}
use pi_tools.Text.{Text, codes, byte_len, strip_prefix, contains}
use pi_tools.Text.Search.{split_once, strip_suffix, match_count}
use pi_tools.Feedback.{FeedbackError, malformed_suggestion}
use pi_tools.Feedback.Suggestion.{has_return, without_line_end}

abbrev pub max_patch_bytes : ℕ
max_patch_bytes = 256 * 1024

abbrev pub fence : Text
fence = codes "```"

abbrev pub opening : Text
opening = codes "```suggestion" ++ (0xa ∷ [])

abbrev pub closing : Text
closing = 0xa ∷ fence

abbrev and_then {ℓ κ} : {A : Type ℓ} {B : Type κ} → Option A → (A → Option B) → Option B
and_then none f = none
and_then (some a) f = f a

unfoldable pub extract_exact_suggestion : Text → Result FeedbackError Text
unfolding byte_len strip_prefix strip_suffix contains
extract_exact_suggestion body = do
  reject_if (ltb max_patch_bytes (byte_len body) || has_return body)
      (malformed_suggestion (codes "unsupported size or line endings"))
  suggestion ←
      ok_or
        (and_then (strip_prefix opening (without_line_end body))
          (λ value. strip_suffix closing value))
        (malformed_suggestion
          (codes "expected exactly one suggestion fence and no surrounding text"))
  reject_if (is_empty suggestion || contains suggestion fence)
      (malformed_suggestion (codes "empty or ambiguous suggestion fence"))
  ok suggestion

-- Once the marker was counted, `find` does not fail.
unfoldable pub extract_inline_suggestion : Text → Result FeedbackError Text
unfolding byte_len match_count split_once contains
extract_inline_suggestion body = do
  reject_if (ltb max_patch_bytes (byte_len body) || has_return body)
      (malformed_suggestion (codes "unsupported size or line endings"))
  reject_if (not (match_count opening body == 1))
      (malformed_suggestion (codes "expected exactly one suggestion fence"))
  (before, content) ←
      ok_or (split_once opening body)
        (malformed_suggestion (codes "expected exactly one suggestion fence"))
  (suggestion, after) ←
      ok_or (split_once closing content)
        (malformed_suggestion (codes "unterminated suggestion fence"))
  reject_if (contains suggestion fence)
      (malformed_suggestion (codes "suggestion contains a nested code fence"))
  ok suggestion
