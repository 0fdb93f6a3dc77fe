-- ===== src/Ci/Tests.antt =====
-- One repair of a failed check.
use pi_tools.Common.{◌≤◌, none, ◌<◌, ◌≡◌, refl, true, false, List, [], ◌∷◌, ◌++◌, any, All, ok}
use pi_tools.Text.{contains, starts_with, byte_len, Text, codes, text_eq, contains_any}
use pi_tools.Paths.{split_on, components, is_absolute, later_components}
use pi_tools.Policy.{cargo_test}
use pi_tools.Ci.{
  CiFailureInput, new_failure, bounded_text, classify_failure, CiFailure, CiRepairPlan,
  WorktreePlan, new_repair_plan, test,
}
use pi_tools.Ci.Laws.{validate_patch_set-Admissible}
use pi_tools.Ci.Patch.{
  Admissible, CiPatch, has_wrong_headers, is_header, lines, max_patches, validate_patch,
  validate_patch_set, validate_patches, validate_repository_path,
}
use pi_tools.Ci.Sandbox.{
  before_worktree, behind_separator, behind_worktree, unsafe_characters, validation_sandbox_argv,
  validation_sandbox_argv-behind,
}

abbrev failure : CiFailure
failure = record {
  repository_id = 10;
  pull_request_number = 5;
  head_sha = codes "abc";
  workflow_name = codes "CI";
  job_name = codes "unit";
  check_name = codes "cargo test";
  details_url = none;
  log_excerpt = codes "panicked";
  kind = test;
}

abbrev worktree : WorktreePlan
worktree = record { root = codes "/work"; branch = codes "topic"; head_sha = codes "abc" }

abbrev repair : CiRepairPlan
repair = record {
  failure = failure;
  worktree = worktree;
  validation_commands = cargo_test ∷ [];
  requires_approval = true;
}

planned : new_repair_plan failure worktree (cargo_test ∷ []) ≡ ok repair
unfolding new_repair_plan
planned = refl

abbrev patch : CiPatch
patch = record {
  path = codes "a.rs";
  unified_diff =
      codes "--- a/a.rs" ++ 0xa ∷ codes "+++ b/a.rs" ++ 0xa ∷ codes "@@ -1 +1 @@" ++ 0xa ∷ [];
}

accepted : validate_patch_set (patch ∷ []) (codes "a.rs" ∷ []) ≡ ok tt
unfolding validate_patch_set validate_patches validate_patch has_wrong_headers is_header lines
    validate_repository_path components is_absolute later_components split_on starts_with text_eq
    byte_len
accepted = refl

validate_patch_set-Admissible_example :
    (0 < 1) × (1 ≤ max_patches) × All (Admissible (codes "a.rs" ∷ [])) (patch ∷ [])
validate_patch_set-Admissible_example =
    validate_patch_set-Admissible (patch ∷ []) (codes "a.rs" ∷ []) accepted

abbrev command : List Text
command = codes "cargo" ∷ codes "test" ∷ codes "--" ∷ codes "--nocapture" ∷ []

abbrev sandboxed : List Text
sandboxed = before_worktree ++ codes "/work" ∷ behind_worktree ++ command

built : validation_sandbox_argv (codes "/work") command ≡ ok sandboxed
unfolding validation_sandbox_argv is_absolute starts_with
built = refl

validation_sandbox_argv-behind_example :
    (behind_separator sandboxed ≡ command)
    × (is_absolute (codes "/work") ≡ true)
    × (any (contains_any unsafe_characters) (codes "/work" ∷ command) ≡ false)
validation_sandbox_argv-behind_example =
    validation_sandbox_argv-behind (codes "/work") command sandboxed built

abbrev input : CiFailureInput
input = record {
  repository_id = 10;
  pull_request_number = 5;
  head_sha = codes "abc";
  workflow_name = codes "CI";
  job_name = codes "unit";
  check_name = codes "cargo test";
  details_url = none;
  log_excerpt = codes "panicked";
}

classified : new_failure input ≡ ok failure
unfolding new_failure bounded_text byte_len classify_failure contains starts_with
classified = refl
