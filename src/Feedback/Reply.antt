-- ===== src/Feedback/Reply.antt =====
-- `parse_feedback_comment_target` and `render_feedback_reply` of src/feedback.rs.
use pi_tools.Common.{
  ℕ, not, none, some, ◌++◌, ◌==◌, ◌||◌, if◌then◌else◌, is_empty, filter, take, Result, ok, err,
  ok_or, ◌>>=◌,
}
use pi_tools.Text.{Text, codes, strip_prefix}
use pi_tools.Text.Search.{parse_positive_i64}

pub data FeedbackReplyTarget : Type 0 where
  review_thread pull_request_conversation : FeedbackReplyTarget

pub data FeedbackCommentTarget : Type 0 where
  review_comment conversation_comment : ℕ → FeedbackCommentTarget

pub data FeedbackTargetError : Type 0 where
  unsupported invalid_id : FeedbackTargetError

abbrev comment_id : Text → Result FeedbackTargetError ℕ
comment_id id = ok_or (parse_positive_i64 id) invalid_id

unfoldable pub parse_feedback_comment_target :
    Text → Result FeedbackTargetError FeedbackCommentTarget
unfolding strip_prefix parse_positive_i64
parse_feedback_comment_target feedback_id =
    elim (strip_prefix (codes "review-comment:") feedback_id) [
      | some id ↦ comment_id id >>= λ n. ok (review_comment n)
      | none ↦ elim (strip_prefix (codes "issue-comment:") feedback_id) [
        | some id ↦ comment_id id >>= λ n. ok (conversation_comment n)
        | none ↦ elim (strip_prefix (codes "review:") feedback_id) [
          | some id ↦ comment_id id >>= λ n. ok (conversation_comment n)
          | none ↦ err unsupported
        ]
      ]
    ]

pub data FeedbackReply : Type 0 where
  applied : FeedbackReplyTarget → Text → Text → FeedbackReply
  rejected : FeedbackReplyTarget → FeedbackReply

unfoldable pub safe_reply_fragment : Text → Text
safe_reply_fragment value =
    let fragment = take 128 (filter (λ c. not (c == b'`' || (c == 0xd || c == 0xa))) value) in
    if is_empty fragment then codes "(unavailable)" else fragment

abbrev applied_to : Text → Text → Text
applied_to path commit =
    codes "PiTools applied this approved automation suggestion to `"
    ++ (safe_reply_fragment path
        ++ (codes "` and pushed commit `"
            ++ (safe_reply_fragment commit ++ codes "` after configured validation passed. ")))

abbrev pub rejected_suggestion : Text
rejected_suggestion =
    codes
      "PiTools rejected this automation suggestion after deterministic validation failed. No branch change was accepted. "

abbrev pub no_thread : Text
no_thread =
    codes
      "This PR-level outcome comment records the result; no review thread is available to resolve."

unfoldable pub render_feedback_reply : FeedbackReply → Text
unfolding safe_reply_fragment
render_feedback_reply (applied review_thread path commit) =
    applied_to path commit ++ codes "The review thread is being resolved."
render_feedback_reply (applied pull_request_conversation path commit) =
    applied_to path commit ++ no_thread
render_feedback_reply (rejected review_thread) =
    rejected_suggestion
    ++ codes "The review thread is being resolved; human follow-up remains required."
render_feedback_reply (rejected pull_request_conversation) =
    rejected_suggestion ++ (no_thread ++ codes " Human follow-up remains required.")
