-- ===== src/Reconcile/ReadSet.antt =====
-- `reconcile_read_set` of src/reconcile.rs, and the records of feedback that it makes.
pub mod Ready
use pi_tools.Common.{
  Bool, false, not, ◌&&◌, ◌||◌, Option, none, some, List, [], ◌∷◌, ◌++◌, map, ltb, if◌then◌else◌,
  any, filter, is_empty,
}
use pi_tools.Text.{Text, codes, text_eq, is_whitespace}
use pi_tools.Sort.{dedup}
use pi_tools.Sort.{sort_by}
use pi_tools.Maps.Texts.{get_text, values}
use pi_tools.Policy.{Policy, is_configured_automation_actor}
use pi_tools.Events.{FeedbackRecord}
use pi_tools.Readiness.{ReadinessInput, FeedbackSnapshot}
use pi_tools.Reconcile.{
  PullRequestReview, PullRequestComment, RequiredPullRequestReviews, PullRequestReadSet,
  ReconciledPullRequest, to_string,
}
use pi_tools.Reconcile.Reviews.{
  is_state, latest_review_decisions, latest_review_reviews, current_approval_count,
}
use pi_tools.Reconcile.Checks.{check_records, readiness_checks}

-- `str::trim`.
abbrev pub trim_start : Text → Text
trim_start [] = []
trim_start (c ∷ s) = if is_whitespace c then trim_start s else c ∷ s

abbrev pub trim_end : Text → Text
trim_end [] = []
trim_end (c ∷ s) =
    let rest = trim_end s in if is_empty rest && is_whitespace c then [] else c ∷ rest

unfoldable pub nonempty_body : Option Text → Option Text
nonempty_body none = none
nonempty_body (some body) =
    let text = trim_end (trim_start body) in if is_empty text then none else some text

unfoldable pub is_automation : Text → Text → Policy → Bool
unfolding text_eq is_configured_automation_actor
is_automation login actor_type policy =
    text_eq actor_type (codes "Bot") || is_configured_automation_actor policy login

unfoldable pub comment_records : Text → List PullRequestComment → Policy → List FeedbackRecord
unfolding nonempty_body is_automation
comment_records prefix [] policy = []
comment_records prefix (comment ∷ comments) policy = elim (nonempty_body comment.body) [
  | none ↦ comment_records prefix comments policy
  | some body ↦
      record {
        id = prefix ++ (codes ":" ++ to_string comment.id);
        actor_login = comment.user.login;
        actor_type = comment.user.actor_type;
        body = body;
        resolved = false;
        is_automation = is_automation comment.user.login comment.user.actor_type policy;
        path = comment.path;
        start_line = comment.start_line;
        line = comment.line;
      }
      ∷ comment_records prefix comments policy
]

abbrev pub is_closed : Text → Bool
is_closed state = any (text_eq state) (codes "APPROVED" ∷ codes "DISMISSED" ∷ [])

abbrev pub is_closed_latest : Option Text → Bool
is_closed_latest none = false
is_closed_latest (some state) = is_closed state

unfoldable pub review_records :
    List PullRequestReview → List (Text × Text) → Policy → List FeedbackRecord
unfolding nonempty_body is_automation text_eq
review_records [] latest policy = []
review_records (review ∷ reviews) latest policy = elim (nonempty_body review.body) [
  | none ↦ review_records reviews latest policy
  | some body ↦
      record {
        id = codes "review:" ++ to_string review.id;
        actor_login = review.user.login;
        actor_type = review.user.actor_type;
        body = body;
        resolved = is_closed review.state || is_closed_latest (get_text review.user.login latest);
        is_automation = is_automation review.user.login review.user.actor_type policy;
        path = none;
        start_line = none;
        line = none;
      }
      ∷ review_records reviews latest policy
]

unfoldable pub feedback_records : PullRequestReadSet → Policy → List FeedbackRecord
unfolding latest_review_decisions review_records comment_records sort_by dedup
feedback_records read_set policy =
    dedup (λ record_. record_.id)
      (sort_by (λ record_. record_.id)
        (review_records read_set.reviews (latest_review_decisions read_set.reviews) policy
          ++ (comment_records (codes "issue-comment") read_set.issue_comments policy
              ++ comment_records (codes "review-comment") read_set.review_comments policy)))

abbrev pub feedback_snapshot : FeedbackRecord → FeedbackSnapshot
feedback_snapshot r = record {
  id = r.id;
  actor_login = r.actor_login;
  actor_type = r.actor_type;
  body = r.body;
  resolved = r.resolved;
  is_automation = r.is_automation;
}

-- `unwrap_or_default`.
abbrev pub requirements_of : Option RequiredPullRequestReviews → RequiredPullRequestReviews
requirements_of none = record {
  require_code_owner_reviews = false;
  required_approving_review_count = 0;
  require_last_push_approval = false;
}
requirements_of (some requirements) = requirements

abbrev pub is_settled_state : Option Text → Bool
is_settled_state none = false
is_settled_state (some state) = not (any (text_eq state) (codes "blocked" ∷ codes "unknown" ∷ []))

abbrev pub is_commit : Text → Option Text → Bool
is_commit head_sha none = false
is_commit head_sha (some commit) = text_eq commit head_sha

unfoldable pub readiness_input : PullRequestReadSet → Policy → ReadinessInput
unfolding feedback_records readiness_checks current_approval_count latest_review_reviews text_eq
readiness_input read_set policy =
    let (approval_count, stale) = current_approval_count read_set.reviews read_set.head_sha in
    let requirements = requirements_of read_set.required_pull_request_reviews in
    let code_owner = requirements.require_code_owner_reviews in
    let latest_push =
      any
        (λ review.
          is_state (codes "APPROVED") review && is_commit read_set.head_sha review.commit_id)
        (values (latest_review_reviews read_set.reviews)) in
    record {
      mergeable = read_set.mergeable;
      branch_is_current = text_eq read_set.base_sha read_set.base_branch_sha;
      required_checks = readiness_checks read_set policy;
      approved = ltb 0 approval_count;
      approval_count = approval_count;
      required_approval_count = requirements.required_approving_review_count;
      stale_approval_present = stale;
      last_push_approval_required = requirements.require_last_push_approval;
      latest_push_approval = latest_push || ltb 0 approval_count;
      code_owner_review_required = code_owner;
      code_owner_review_satisfied = not code_owner || is_settled_state read_set.mergeable_state;
      unresolved_feedback =
          map feedback_snapshot (filter (λ r. not r.resolved) (feedback_records read_set policy));
      is_draft = read_set.draft;
    }

unfoldable pub reconcile_read_set : PullRequestReadSet → Policy → ReconciledPullRequest
unfolding feedback_records check_records readiness_input
reconcile_read_set read_set policy = record {
  readiness = readiness_input read_set policy;
  feedback = feedback_records read_set policy;
  checks = check_records read_set;
}
