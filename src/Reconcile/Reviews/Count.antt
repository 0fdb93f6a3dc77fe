-- ===== src/Reconcile/Reviews/Count.antt =====
-- What `current_approval_count` counts.
use pi_tools.Common.{
  ℕ, suc, ◌+◌, ◌≡◌, ap, ◌∙◌, inl, inr, Bool, true, false, not, ◌&&◌, ◌||◌, List, [], ◌∷◌, arith,
  Bool-cases, any, count,
}
use mathlib.Core.Bool.{or-true, or-false}
use mathlib.Core.Path.{ap₂}
use pi_tools.Text.{Text, codes}
use pi_tools.Maps.Texts.{values}
use pi_tools.Reconcile.{PullRequestReview}
use pi_tools.Reconcile.Reviews.{
  is_state, latest_review_reviews, on_head, count_approvals, current_approval_count,
}
use pi_tools.Reconcile.Reviews.Latest.{LatestOf, latest_review_reviews-LatestOf}

-- The approvals of a commit, and those of another commit.
abbrev pub approves : Text → PullRequestReview → Bool
approves head_sha r = is_state (codes "APPROVED") r && on_head head_sha r.commit_id

abbrev pub is_stale : Text → PullRequestReview → Bool
is_stale head_sha r = is_state (codes "APPROVED") r && not (on_head head_sha r.commit_id)

count_approvals-count :
    (rs : List PullRequestReview) (head_sha : Text) (n : ℕ) (stale : Bool)
    → count_approvals rs head_sha (n, stale)
      ≡ (count (approves head_sha) rs + n, any (is_stale head_sha) rs || stale)
unfolding count_approvals
count_approvals-count [] head_sha n stale = ap (λ k. (k, stale)) (omega arith)
count_approvals-count (r ∷ rs) head_sha n stale =
    elim (Bool-cases (is_state (codes "APPROVED") r)) [
      | inr other ↦ rw (count_approvals, other) (count_approvals-count rs head_sha n stale)
      | inl approved ↦ elim (Bool-cases (on_head head_sha r.commit_id)) [
        | inl here ↦
            rw (count_approvals, approved, here)
              (count_approvals-count rs head_sha (suc n) stale
                ∙ ap (λ k. (k, any (is_stale head_sha) rs || stale)) (omega arith))
        | inr there ↦
            rw (count_approvals, approved, there)
              (count_approvals-count rs head_sha n true
                ∙ ap (λ b. (count (approves head_sha) rs + n, b)) (or-true _))
      ]
    ]

-- The approvals that are counted are those of the current commit, or of no named one, among the latest decisions
-- of the reviewers, one of each reviewer; and an approval is stale if one of those is of another commit.
pub current_approval_count-LatestOf :
    (reviews : List PullRequestReview) (head_sha : Text)
    → let kept = values (latest_review_reviews reviews) in
      LatestOf reviews kept
      × (current_approval_count reviews head_sha
          ≡ (count (approves head_sha) kept, any (is_stale head_sha) kept))
unfolding current_approval_count
current_approval_count-LatestOf reviews head_sha =
    let kept = values (latest_review_reviews reviews) in
    (
      latest_review_reviews-LatestOf reviews,
      count_approvals-count kept head_sha 0 false ∙ ap₂ (λ n b. (n, b)) (omega arith) (or-false _),
    )
