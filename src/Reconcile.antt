-- ===== src/Reconcile.antt =====
-- src/reconcile.rs: what is read of a pull request, as records of feedback and of checks and as the input of
-- `evaluate`; the records of src/github/client.rs that it reads, with the fields that are used. Ids and
-- line numbers are natural numbers.
pub mod Reviews
pub mod Checks
pub mod ReadSet
mod Tests
use pi_tools.Common.{ℕ, suc, zero, ◌+◌, ◌/◌, ◌%◌, Bool, Option, List, [], ◌∷◌, ◌==◌, if◌then◌else◌}
use pi_tools.Text.{Text}
use pi_tools.Events.{CheckRecord, FeedbackRecord}
use pi_tools.Readiness.{ReadinessInput}

pub record Author : Type 0 where
  pub login : Text
  pub actor_type : Text

pub record PullRequestReview : Type 0 where
  pub id : ℕ
  pub body : Option Text
  pub state : Text
  pub submitted_at : Option Text
  pub commit_id : Option Text
  pub user : Author

pub record PullRequestComment : Type 0 where
  pub id : ℕ
  pub body : Option Text
  pub user : Author
  pub path : Option Text
  pub start_line : Option ℕ
  pub line : Option ℕ

pub record GitHubCheckRun : Type 0 where
  pub id : ℕ
  pub name : Text
  pub status : Text
  pub conclusion : Option Text
  pub details_url : Option Text
  pub app_id : Option ℕ

pub record CommitStatus : Type 0 where
  pub id : ℕ
  pub context : Text
  pub state : Text
  pub target_url : Option Text

pub record RequiredStatusCheck : Type 0 where
  pub context : Text
  pub app_id : Option ℕ

pub record RequiredStatusChecks : Type 0 where
  pub contexts : List Text
  pub checks : List RequiredStatusCheck

pub record RequiredPullRequestReviews : Type 0 where
  pub require_code_owner_reviews : Bool
  pub required_approving_review_count : ℕ
  pub require_last_push_approval : Bool

-- `PullRequestReadSet`, with the fields of the pull request, its base branch and the branch's
-- protection beside one another.
pub record PullRequestReadSet : Type 0 where
  pub draft : Bool
  pub mergeable : Option Bool
  pub mergeable_state : Option Text
  pub head_sha : Text
  pub base_sha : Text
  pub base_branch_sha : Text
  pub required_status_checks : Option RequiredStatusChecks
  pub required_pull_request_reviews : Option RequiredPullRequestReviews
  pub reviews : List PullRequestReview
  pub issue_comments : List PullRequestComment
  pub review_comments : List PullRequestComment
  pub check_runs : List GitHubCheckRun
  pub statuses : List CommitStatus

pub record ReconciledPullRequest : Type 0 where
  pub readiness : ReadinessInput
  pub feedback : List FeedbackRecord
  pub checks : List CheckRecord

-- `to_string` of a number: its decimal digits. No number has more of them than its fuel.
abbrev digits : ℕ → ℕ → Text → Text
digits zero n text = text
digits (suc fuel) n text =
    let longer = digits fuel (n / 10) ((48 + n % 10) ∷ text) in
    if n / 10 == 0 then (48 + n % 10) ∷ text else longer

abbrev pub to_string : ℕ → Text
to_string n = digits (suc n) n []
