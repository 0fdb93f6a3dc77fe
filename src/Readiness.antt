-- ===== src/Readiness.antt =====
-- src/readiness.rs and the records of src/models.rs that it reads: whether a pull request is ready.
pub mod Names
pub mod Laws
mod Tests
use pi_tools.Common.{
  ℕ, Bool, true, false, not, ◌&&◌, Option, none, some, List, [], ◌∷◌, ◌++◌, map, ltb, ◌==◌,
  if◌then◌else◌, is_empty, any, find, filter,
}
use pi_tools.Text.{Text, codes, text_eq}
use pi_tools.Policy.{Policy, is_configured_automation_actor}
use pi_tools.Sort.{sort_by, dedup}

pub data CheckStatus : Type 0 where
  queued in_progress completed unknown : CheckStatus

pub data CheckConclusion : Type 0 where
  success failure cancelled timed_out neutral skipped action_required stale startup_failure
        unknown :
      CheckConclusion

pub record CheckSnapshot : Type 0 where
  pub name : Text
  pub app_id : Option ℕ
  pub required_app_id : Option ℕ
  pub status : CheckStatus
  pub conclusion : Option CheckConclusion
  pub required : Bool

pub record FeedbackSnapshot : Type 0 where
  pub id : Text
  pub actor_login : Text
  pub actor_type : Text
  pub body : Text
  pub resolved : Bool
  pub is_automation : Bool

pub record ReadinessInput : Type 0 where
  pub mergeable : Option Bool
  pub branch_is_current : Bool
  pub required_checks : List CheckSnapshot
  pub approved : Bool
  pub approval_count : ℕ
  pub required_approval_count : ℕ
  pub stale_approval_present : Bool
  pub last_push_approval_required : Bool
  pub latest_push_approval : Bool
  pub code_owner_review_required : Bool
  pub code_owner_review_satisfied : Bool
  pub unresolved_feedback : List FeedbackSnapshot
  pub is_draft : Bool

pub data ReadinessReason : Type 0 where
  draft mergeability_unknown merge_conflict branch_out_of_date required_check_pending
        required_check_failed required_check_missing required_check_wrong_app
        required_review_missing required_review_count_missing stale_review
        last_push_approval_missing code_owner_review_missing unresolved_automation_feedback :
      ReadinessReason

-- `format!("{reason:?}")`
abbrev pub debug_name : ReadinessReason → Text
debug_name draft = codes "Draft"
debug_name mergeability_unknown = codes "MergeabilityUnknown"
debug_name merge_conflict = codes "MergeConflict"
debug_name branch_out_of_date = codes "BranchOutOfDate"
debug_name required_check_pending = codes "RequiredCheckPending"
debug_name required_check_failed = codes "RequiredCheckFailed"
debug_name required_check_missing = codes "RequiredCheckMissing"
debug_name required_check_wrong_app = codes "RequiredCheckWrongApp"
debug_name required_review_missing = codes "RequiredReviewMissing"
debug_name required_review_count_missing = codes "RequiredReviewCountMissing"
debug_name stale_review = codes "StaleReview"
debug_name last_push_approval_missing = codes "LastPushApprovalMissing"
debug_name code_owner_review_missing = codes "CodeOwnerReviewMissing"
debug_name unresolved_automation_feedback = codes "UnresolvedAutomationFeedback"

pub record ReadinessSnapshot : Type 0 where
  pub ready : Bool
  pub reason_codes : List ReadinessReason
  pub evaluated_at : ℕ
  pub snapshot_id : ℕ

-- `if condition { reason_codes.push(reason) }`
abbrev pub when : Bool → ReadinessReason → List ReadinessReason
when true reason = reason ∷ []
when false reason = []

abbrev pub merge_reasons : Option Bool → List ReadinessReason
merge_reasons (some true) = []
merge_reasons (some false) = merge_conflict ∷ []
merge_reasons none = mergeability_unknown ∷ []

-- The names of the checks that are required, by the input or by the policy, each once.
unfoldable pub required_names : ReadinessInput → Policy → List Text
unfolding sort_by dedup text_eq
required_names input policy =
    dedup (λ name. name)
      (sort_by (λ name. name)
        (map (λ check. check.name) (filter (λ check. check.required) input.required_checks)
          ++ policy.required_checks))

abbrev pub same_app : Option ℕ → Option ℕ → Bool
same_app none none = true
same_app (some a) (some b) = a == b
same_app none (some b) = false
same_app (some a) none = false

abbrev pub is_wrong_app : CheckSnapshot → Bool
is_wrong_app check = elim check.required_app_id [
  | none ↦ false
  | some a ↦ not (same_app check.app_id (some a))
]

abbrev pub is_passing : CheckConclusion → Bool
is_passing success = true
is_passing skipped = true
is_passing _ = false

abbrev pub conclusion_reasons : CheckStatus → Option CheckConclusion → List ReadinessReason
conclusion_reasons completed (some conclusion) =
    if is_passing conclusion then [] else required_check_failed ∷ []
conclusion_reasons completed none = required_check_failed ∷ []
conclusion_reasons queued _ = required_check_pending ∷ []
conclusion_reasons in_progress _ = required_check_pending ∷ []
conclusion_reasons unknown _ = required_check_pending ∷ []

abbrev pub named : Text → CheckSnapshot → Bool
named name check = text_eq check.name name

abbrev pub found_reasons : CheckSnapshot → List ReadinessReason
found_reasons check =
    if is_wrong_app check
    then required_check_wrong_app ∷ []
    else conclusion_reasons check.status check.conclusion

unfoldable pub check_reasons : List CheckSnapshot → Text → List ReadinessReason
unfolding text_eq
check_reasons checks name = elim (find (named name) checks) [
  | none ↦ required_check_missing ∷ []
  | some check ↦ found_reasons check
]

unfoldable pub all_check_reasons : List CheckSnapshot → List Text → List ReadinessReason
unfolding check_reasons
all_check_reasons checks [] = []
all_check_reasons checks (name ∷ names) =
    check_reasons checks name ++ all_check_reasons checks names

abbrev pub count_reasons : ReadinessInput → List ReadinessReason
count_reasons input =
    if ltb input.approval_count input.required_approval_count
    then if input.approval_count == 0
      then required_review_missing ∷ []
      else required_review_count_missing ∷ []
    else []

abbrev pub push_reasons : ReadinessInput → List ReadinessReason
push_reasons input =
    if input.last_push_approval_required && not input.latest_push_approval
    then if input.stale_approval_present then stale_review ∷ [] else last_push_approval_missing ∷ []
    else []

abbrev pub is_unresolved : Policy → FeedbackSnapshot → Bool
is_unresolved policy feedback =
    is_configured_automation_actor policy feedback.actor_login && not feedback.resolved

-- The reasons in the order in which they are pushed.
unfoldable pub reasons : ReadinessInput → Policy → List ReadinessReason
unfolding required_names all_check_reasons is_configured_automation_actor
reasons input policy =
    when input.is_draft draft
    ++ (merge_reasons input.mergeable
        ++ (when (policy.require_current_branch && not input.branch_is_current) branch_out_of_date
            ++ (all_check_reasons input.required_checks (required_names input policy)
                ++ (when (policy.require_approval && not input.approved) required_review_missing
                    ++ (count_reasons input
                        ++ (push_reasons input
                            ++ (when
                                  (input.code_owner_review_required
                                    && not input.code_owner_review_satisfied)
                                  code_owner_review_missing
                                ++ when (any (is_unresolved policy) input.unresolved_feedback)
                                    unresolved_automation_feedback)))))))

-- `evaluate`, where the instant and the id of the snapshot are drawn.
unfoldable pub evaluate : ReadinessInput → Policy → ℕ → ℕ → ReadinessSnapshot
unfolding reasons sort_by dedup
evaluate input policy now snapshot_id =
    let reason_codes = dedup debug_name (sort_by debug_name (reasons input policy)) in
    record {
      ready = is_empty reason_codes;
      reason_codes = reason_codes;
      evaluated_at = now;
      snapshot_id = snapshot_id;
    }
