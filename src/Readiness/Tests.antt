-- ===== src/Readiness/Tests.antt =====
-- The readiness of one pull request.
use pi_tools.Common.{◌≡◌, true, false, none, some, [], ◌∷◌}
use pi_tools.Text.{codes}
use pi_tools.Policy.{Policy, default}
use pi_tools.Readiness.{CheckSnapshot, ReadinessInput, evaluate, completed, success}
use pi_tools.Readiness.Laws.{evaluate-ready, is_mergeable_now}

abbrev policy : Policy
policy = record default { required_checks = codes "build" ∷ [] }

abbrev build : CheckSnapshot
build = record {
  name = codes "build";
  app_id = none;
  required_app_id = none;
  status = completed;
  conclusion = some success;
  required = true;
}

abbrev input : ReadinessInput
input = record {
  mergeable = some true;
  branch_is_current = true;
  required_checks = build ∷ [];
  approved = true;
  approval_count = 1;
  required_approval_count = 1;
  stale_approval_present = false;
  last_push_approval_required = false;
  latest_push_approval = false;
  code_owner_review_required = false;
  code_owner_review_satisfied = false;
  unresolved_feedback = [];
  is_draft = false;
}

evaluate-ready_example : (evaluate input policy 7 1).ready ≡ is_mergeable_now input policy
evaluate-ready_example = evaluate-ready input policy 7 1
