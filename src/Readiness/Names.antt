-- ===== src/Readiness/Names.antt =====
-- No two reasons have the same name.
use pi_tools.Common.{◌≡◌, refl, sym, ap, ◌∙◌, Option, some, List, [], ◌∷◌, find}
use pi_tools.Text.{Text, text_eq}
use mathlib.Core.Option.{some-injective}
use pi_tools.Readiness.{
  ReadinessReason, debug_name, draft, mergeability_unknown, merge_conflict, branch_out_of_date,
  required_check_pending, required_check_failed, required_check_missing, required_check_wrong_app,
  required_review_missing, required_review_count_missing, stale_review, last_push_approval_missing,
  code_owner_review_missing, unresolved_automation_feedback,
}

abbrev all_reasons : List ReadinessReason
all_reasons =
    draft ∷ mergeability_unknown ∷ merge_conflict ∷ branch_out_of_date ∷ required_check_pending
    ∷ required_check_failed ∷ required_check_missing ∷ required_check_wrong_app
    ∷ required_review_missing ∷ required_review_count_missing ∷ stale_review
    ∷ last_push_approval_missing ∷ code_owner_review_missing ∷ unresolved_automation_feedback ∷ []

-- The reason that a text is the name of.
unfoldable reason_named : Text → Option ReadinessReason
unfolding text_eq
reason_named name = find (λ r. text_eq (debug_name r) name) all_reasons

reason_named-debug_name : (r : ReadinessReason) → reason_named (debug_name r) ≡ some r
unfolding reason_named text_eq
reason_named-debug_name draft = refl
reason_named-debug_name mergeability_unknown = refl
reason_named-debug_name merge_conflict = refl
reason_named-debug_name branch_out_of_date = refl
reason_named-debug_name required_check_pending = refl
reason_named-debug_name required_check_failed = refl
reason_named-debug_name required_check_missing = refl
reason_named-debug_name required_check_wrong_app = refl
reason_named-debug_name required_review_missing = refl
reason_named-debug_name required_review_count_missing = refl
reason_named-debug_name stale_review = refl
reason_named-debug_name last_push_approval_missing = refl
reason_named-debug_name code_owner_review_missing = refl
reason_named-debug_name unresolved_automation_feedback = refl

pub debug_name-injective : (r s : ReadinessReason) → debug_name r ≡ debug_name s → r ≡ s
debug_name-injective r s e =
    some-injective _ _
      (sym (reason_named-debug_name r) ∙ ap reason_named e ∙ reason_named-debug_name s)
