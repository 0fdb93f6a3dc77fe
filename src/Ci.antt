-- ===== src/Ci.antt =====
-- src/ci.rs: what a repair of a failed check may do. The commands that it runs are modelled up to their
-- processes (Ci.Bounded); the redaction of logs is left out. A path is a text: every path that the
-- service passes on is valid UTF-8.
pub mod Patch
pub mod Bounded
pub mod Sandbox
pub mod Laws
mod Tests
use pi_tools.Common.{
  ℕ, ◌*◌, Bool, true, not, ◌||◌, Option, List, [], ◌∷◌, ◌++◌, ltb, ◌==◌, if◌then◌else◌, is_empty,
  any, all, Result, ok, err, ◌>>=◌, ◌>>◌, reject_if,
}
use pi_tools.Text.{
  Text, codes, text_eq, byte_len, to_ascii_lowercase, starts_with, contains, contains_any, is_blank,
}
use pi_tools.Paths.{is_normal, is_absolute, components}
use pi_tools.Policy.{ValidationCommand}

abbrev pub max_log_bytes : ℕ
max_log_bytes = 128 * 1024

pub data CiError : Type 0 where
  approval_required no_validation_commands empty_command unsafe_command input_too_large
        output_too_large timed_out missing_pipe no_patches too_many_patches :
      CiError
  invalid_worktree invalid_branch spawn wait read_output write_input path_not_allowed
        invalid_patch :
      Text → CiError

-- How an error prints.
abbrev pub message : CiError → Text
message approval_required = codes "typed CI mutations require explicit approval"
message no_validation_commands = codes "no validation commands were configured"
message empty_command = codes "command has no executable"
message unsafe_command = codes "command contains unsafe control characters"
message input_too_large = codes "CI input is too large or contains unsupported line endings"
message output_too_large = codes "command output exceeded the configured limit"
message (spawn text) = codes "failed to spawn validation command: " ++ text
message (wait text) = codes "failed to wait for validation command: " ++ text
message (read_output text) = codes "failed to read validation output: " ++ text
message timed_out = codes "validation command timed out"
message missing_pipe = codes "validation command pipe unavailable"
message (write_input text) = codes "failed to write command input: " ++ text
message no_patches = codes "CI repair did not contain a patch"
message too_many_patches = codes "CI repair contained too many patches"
message (invalid_worktree path) = codes "worktree path is invalid: " ++ path
message (invalid_branch branch) = codes "branch name is invalid: " ++ branch
message (path_not_allowed path) = codes "CI repair proposed a path outside the allowlist: " ++ path
message (invalid_patch path) = codes "CI repair patch is invalid for path: " ++ path

unfoldable pub is_repairable_check_conclusion : Text → Bool
unfolding text_eq
is_repairable_check_conclusion conclusion = any (text_eq conclusion) (
    codes "action_required"
    ∷ codes "cancelled"
    ∷ codes "failure"
    ∷ codes "startup_failure"
    ∷ codes "stale"
    ∷ codes "timed_out"
    ∷ [])

pub data CiFailureKind : Type 0 where
  test lint build dependency infrastructure unknown : CiFailureKind

pub record CiFailure : Type 0 where
  pub repository_id : ℕ
  pub pull_request_number : ℕ
  pub head_sha : Text
  pub workflow_name : Text
  pub job_name : Text
  pub check_name : Text
  pub details_url : Option Text
  pub log_excerpt : Text
  pub kind : CiFailureKind

pub record CiFailureInput : Type 0 where
  pub repository_id : ℕ
  pub pull_request_number : ℕ
  pub head_sha : Text
  pub workflow_name : Text
  pub job_name : Text
  pub check_name : Text
  pub details_url : Option Text
  pub log_excerpt : Text

unfoldable pub bounded_text : Text → ℕ → Result CiError Text
unfolding byte_len
bounded_text value maximum =
    if ltb maximum (byte_len value) || contains_any (0 ∷ 0xd ∷ []) value
    then err input_too_large
    else ok value

unfoldable pub classify_failure : Text → Text → Text → Text → CiFailureKind
unfolding contains
classify_failure workflow job check log =
    let haystack =
      to_ascii_lowercase (workflow ++ codes " " ++ job ++ codes " " ++ check ++ codes " " ++ log) in
    if contains haystack (codes "dependabot") || contains haystack (codes "dependency")
    then dependency
    else if contains haystack (codes "clippy")
        || (contains haystack (codes "lint") || contains haystack (codes "format"))
    then lint
    else if contains haystack (codes "test") || contains haystack (codes "spec")
    then test
    else if contains haystack (codes "build") || contains haystack (codes "compile")
    then build
    else if contains haystack (codes "runner")
        || (contains haystack (codes "timeout") || contains haystack (codes "network"))
    then infrastructure
    else unknown

-- `CiFailure::new`.
unfoldable pub new_failure : CiFailureInput → Result CiError CiFailure
unfolding bounded_text classify_failure
new_failure input = do
  log_excerpt ← bounded_text input.log_excerpt max_log_bytes
  check_name ← bounded_text input.check_name 256
  job_name ← bounded_text input.job_name 256
  workflow_name ← bounded_text input.workflow_name 256
  head_sha ← bounded_text input.head_sha 128
  ok record {
    repository_id = input.repository_id;
    pull_request_number = input.pull_request_number;
    head_sha = head_sha;
    workflow_name = workflow_name;
    job_name = job_name;
    check_name = check_name;
    details_url = input.details_url;
    log_excerpt = log_excerpt;
    kind = classify_failure workflow_name job_name check_name log_excerpt;
  }

unfoldable pub validate_branch : Text → Result CiError (Unit {0})
unfolding starts_with contains
validate_branch branch =
    if is_empty branch
      || (starts_with branch (codes "-")
          || (contains_any (0 ∷ 0xd ∷ 0xa ∷ b' ' ∷ []) branch || contains branch (codes "..")))
    then err (invalid_branch branch)
    else ok tt

pub record WorktreePlan : Type 0 where
  pub root : Text
  pub branch : Text
  pub head_sha : Text

-- `WorktreePlan::new`.
unfoldable pub new_worktree : Text → Text → Text → Result CiError WorktreePlan
unfolding validate_branch
new_worktree root branch head_sha = do
  reject_if (is_blank root || is_blank head_sha)
      (invalid_worktree (codes "root and head_sha are required"))
  validate_branch branch
  ok record { root = root; branch = branch; head_sha = head_sha }

unfoldable validate_relative_destination : Text → Result CiError (Unit {0})
unfolding is_absolute components
validate_relative_destination path =
    if is_empty path || (is_absolute path || not (all is_normal (components path)))
    then err (invalid_worktree path)
    else ok tt

-- `WorktreePlan::git_worktree_add_argv`.
unfoldable pub git_worktree_add_argv : WorktreePlan → Text → Result CiError (List Text)
unfolding validate_relative_destination
git_worktree_add_argv worktree destination = do
  validate_relative_destination destination
  ok (
      codes "git"
      ∷ codes "worktree"
      ∷ codes "add"
      ∷ codes "--detach"
      ∷ destination
      ∷ worktree.head_sha
      ∷ [])

pub record CiRepairPlan : Type 0 where
  pub failure : CiFailure
  pub worktree : WorktreePlan
  pub validation_commands : List ValidationCommand
  pub requires_approval : Bool

-- `CiRepairPlan::new`.
unfoldable pub new_repair_plan :
    CiFailure → WorktreePlan → List ValidationCommand → Result CiError CiRepairPlan
new_repair_plan failure worktree validation_commands = do
  reject_if (is_empty validation_commands) no_validation_commands
  ok record {
    failure = failure;
    worktree = worktree;
    validation_commands = validation_commands;
    requires_approval = true;
  }

-- `CiMutationAdmission`.
pub data Admission : Type 0 where
  no_mutation waiting_approval admitted : Admission

unfoldable pub admit_ci_mutation : ℕ → Bool → Bool → Result CiError Admission
admit_ci_mutation patch_count requires_approval plan_approved =
    if patch_count == 0
    then ok no_mutation
    else if not requires_approval
    then err approval_required
    else if not plan_approved
    then ok waiting_approval
    else ok admitted
