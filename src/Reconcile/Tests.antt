-- ===== src/Reconcile/Tests.antt =====
-- A pull request with one required check and a reviewer who changed her mind.
use pi_tools.Common.{◌≡◌, refl, true, false, none, some, [], ◌∷◌, count, any}
use pi_tools.Text.{codes}
use pi_tools.Maps.Texts.{values}
use pi_tools.Policy.{default}
use pi_tools.Readiness.{evaluate}
use pi_tools.Reconcile.{PullRequestReview, PullRequestReadSet}
use pi_tools.Reconcile.Reviews.{latest_review_reviews, current_approval_count}
use pi_tools.Reconcile.Reviews.Latest.{LatestOf}
use pi_tools.Reconcile.Reviews.Count.{approves, is_stale, current_approval_count-LatestOf}
use pi_tools.Reconcile.ReadSet.{reconcile_read_set}
use pi_tools.Reconcile.ReadSet.Ready.{Ready, reconcile-Ready}

abbrev asked : PullRequestReview
asked = record {
  id = 1;
  body = none;
  state = codes "CHANGES_REQUESTED";
  submitted_at = some (codes "2026-01-01T00:00:00Z");
  commit_id = some (codes "abc");
  user = record { login = codes "ada"; actor_type = codes "User" };
}

abbrev agreed : PullRequestReview
agreed = record {
  id = 2;
  body = none;
  state = codes "APPROVED";
  submitted_at = some (codes "2026-01-02T00:00:00Z");
  commit_id = some (codes "abc");
  user = record { login = codes "ada"; actor_type = codes "User" };
}

abbrev read_set : PullRequestReadSet
read_set = record {
  draft = false;
  mergeable = some true;
  mergeable_state = some (codes "clean");
  head_sha = codes "abc";
  base_sha = codes "base";
  base_branch_sha = codes "base";
  required_status_checks = some (record { contexts = codes "ci" ∷ []; checks = [] });
  required_pull_request_reviews = some (record {
    require_code_owner_reviews = false;
    required_approving_review_count = 1;
    require_last_push_approval = true;
  });
  reviews = agreed ∷ asked ∷ [];
  issue_comments = [];
  review_comments = [];
  check_runs =
      record {
        id = 7;
        name = codes "ci";
        status = codes "completed";
        conclusion = some (codes "success");
        details_url = none;
        app_id = none;
      }
      ∷ [];
  statuses = [];
}

is_ready : (evaluate (reconcile_read_set read_set default).readiness default 5 6).ready ≡ true
unfolding evaluate reconcile_read_set
is_ready = refl

-- Without the check run, which is required, it is not ready.
is_not_ready :
    (evaluate
      (reconcile_read_set (record read_set { check_runs = [] }) default).readiness
      default
      5
      6).ready
    ≡ false
unfolding evaluate reconcile_read_set
is_not_ready = refl

reconcile-Ready_example : Ready read_set default
reconcile-Ready_example = reconcile-Ready read_set default 5 6 is_ready

current_approval_count-LatestOf_example :
    LatestOf (agreed ∷ asked ∷ []) (values (latest_review_reviews (agreed ∷ asked ∷ [])))
    × (current_approval_count (agreed ∷ asked ∷ []) (codes "abc") ≡ (
      count (approves (codes "abc")) (values (latest_review_reviews (agreed ∷ asked ∷ []))),
      any (is_stale (codes "abc")) (values (latest_review_reviews (agreed ∷ asked ∷ []))),
    ))
current_approval_count-LatestOf_example =
    current_approval_count-LatestOf (agreed ∷ asked ∷ []) (codes "abc")
