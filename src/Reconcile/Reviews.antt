-- ===== src/Reconcile/Reviews.antt =====
-- The reviews in src/reconcile.rs: `latest_review_decisions`, `latest_review_reviews` and
-- `current_approval_count`.
pub mod Order
pub mod Latest
pub mod Count
use pi_tools.Common.{
  ℕ, suc, Bool, true, false, not, ◌&&◌, ◌||◌, Option, none, some, List, [], ◌∷◌, ltb, if◌then◌else◌,
}
use pi_tools.Text.{Text, codes, text_eq, text_lt}
use pi_tools.Maps.Texts.{put_text, values}
use pi_tools.Sort.Orders.{sort_with}
use pi_tools.Reconcile.{PullRequestReview}

-- `Option::cmp`: a time that is missing comes before all times.
abbrev pub option_lt : Option Text → Option Text → Bool
option_lt none none = false
option_lt none (some t) = true
option_lt (some s) none = false
option_lt (some s) (some t) = text_lt s t

abbrev pub option_eq : Option Text → Option Text → Bool
option_eq none none = true
option_eq none (some t) = false
option_eq (some s) none = false
option_eq (some s) (some t) = text_eq s t

-- The comparison of the sort: by the time, then by the id.
unfoldable pub review_before : PullRequestReview → PullRequestReview → Bool
unfolding text_lt text_eq
review_before l r =
    option_lt l.submitted_at r.submitted_at
    || (option_eq l.submitted_at r.submitted_at && ltb l.id r.id)

abbrev pub is_state : Text → PullRequestReview → Bool
is_state state review = text_eq review.state state

unfoldable pub is_decision : PullRequestReview → Bool
unfolding text_eq
is_decision review =
    is_state (codes "APPROVED") review
    || (is_state (codes "CHANGES_REQUESTED") review || is_state (codes "DISMISSED") review)

-- The loop that both functions have, with what they store of a review.
unfoldable pub latest_from :
    {V : Type 0}
    → (PullRequestReview → V)
    → List PullRequestReview
    → List (Text × V)
    → List (Text × V)
unfolding is_decision text_eq text_lt
latest_from keep [] latest = latest
latest_from keep (review ∷ rest) latest =
    latest_from keep rest
      (if is_decision review then put_text review.user.login (keep review) latest else latest)

unfoldable pub latest_review_reviews : List PullRequestReview → List (Text × PullRequestReview)
unfolding latest_from review_before
latest_review_reviews reviews = latest_from (λ r. r) (sort_with review_before reviews) []

unfoldable pub latest_review_decisions : List PullRequestReview → List (Text × Text)
unfolding latest_from review_before
latest_review_decisions reviews = latest_from (λ r. r.state) (sort_with review_before reviews) []

abbrev pub on_head : Text → Option Text → Bool
on_head head_sha none = true
on_head head_sha (some commit) = text_eq commit head_sha

unfoldable pub count_approvals : List PullRequestReview → Text → ℕ × Bool → ℕ × Bool
unfolding text_eq
count_approvals [] head_sha (n, stale) = (n, stale)
count_approvals (review ∷ rest) head_sha (n, stale) = count_approvals rest head_sha (
    if not (is_state (codes "APPROVED") review)
    then (n, stale)
    else if on_head head_sha review.commit_id
    then (suc n, stale)
    else (n, true))

unfoldable pub current_approval_count : List PullRequestReview → Text → ℕ × Bool
unfolding latest_review_reviews count_approvals
current_approval_count reviews head_sha =
    count_approvals (values (latest_review_reviews reviews)) head_sha (0, false)
