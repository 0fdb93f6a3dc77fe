-- ===== src/Workspace/Repairs.antt =====
-- The repairs of src/workspace.rs: an automated suggestion, the patches of a CI repair, and a rebase.
use pi_tools.Common.{Bool, not, some, List, [], ◌∷◌, ◌++◌, map, Result, ok, err, reject_if, ok_or}
use pi_tools.Text.{Text, codes}
use pi_tools.Text.Search.{trim}
use pi_tools.Paths.{components}
use pi_tools.Policy.{ValidationCommand}
use pi_tools.Ci.{CiError, message}
use pi_tools.Ci.Patch.{CiPatch, validate_patch_set}
use pi_tools.Feedback.{FeedbackError}
use pi_tools.Feedback.Repair.{Feedback, apply, RepairOutcome, repair_feedback}
use pi_tools.Workspace.{
  CommandResult, WorkspaceError, repair_not_applied, ci_patch, command_failed, feedback_error,
  RepositoryWorkspace, repaired, Environment, Run, done, check, ◌>>=◌, ◌>>◌,
}
use pi_tools.Workspace.Checks.{audit_commit_message, head_ref}
use pi_tools.Workspace.Calls.{
  bounded_input, ensure, run_in, run, ensure_clean, ensure_remote_head, ensure_staged_paths,
}
use pi_tools.Workspace.Snapshot.{prepare_validation_snapshot, validate_all}

pub record RepairCommit : Type 0 where
  pub commit : Text
  pub path : Text

pub record CiRepairCommit : Type 0 where
  pub commit : Text
  pub paths : List Text

pub record RebaseCommit : Type 0 where
  pub before : Text
  pub after : Text
  pub target_branch : Text
  pub force_pushed : Bool

abbrev pub no_hooks : List Text
no_hooks = codes "git" ∷ codes "-c" ∷ codes "core.hooksPath=/dev/null" ∷ []

abbrev pub commit_argv : Text → List Text
commit_argv commit_message =
    no_hooks
    ++ (codes "-c"
        ∷ codes "user.name=PiTools[bot]"
        ∷ codes "-c"
        ∷ codes "user.email=pitools[bot]@users.noreply.github.com"
        ∷ codes "commit"
        ∷ codes "--no-verify"
        ∷ codes "-m"
        ∷ commit_message
        ∷ [])

abbrev pub push_argv : Text → Text → List Text
push_argv remote_url branch =
    no_hooks
    ++ (codes "-c"
        ∷ (codes "remote.origin.url=" ++ remote_url)
        ∷ codes "push"
        ∷ codes "--no-verify"
        ∷ codes "origin"
        ∷ (codes "HEAD:" ++ head_ref branch)
        ∷ [])

abbrev pub rev_parse_argv : List Text
rev_parse_argv = codes "git" ∷ codes "rev-parse" ∷ codes "HEAD" ∷ []

abbrev pub or_feedback_error :
    Result FeedbackError RepairOutcome → Result WorkspaceError RepairOutcome
or_feedback_error (err e) = err (feedback_error e)
or_feedback_error (ok outcome) = ok outcome

abbrev or_ci_patch : Result CiError (Unit {0}) → Result WorkspaceError (Unit {0})
or_ci_patch (err e) = err (ci_patch (message e))
or_ci_patch (ok u) = ok u

abbrev check_argv : List Text
check_argv =
    codes "git"
    ∷ codes "apply"
    ∷ codes "--check"
    ∷ codes "--whitespace=error"
    ∷ codes "--recount"
    ∷ codes "-"
    ∷ []

abbrev apply_argv : List Text
apply_argv =
    codes "git" ∷ codes "apply" ∷ codes "--whitespace=error" ∷ codes "--recount" ∷ codes "-" ∷ []

module _ {E : Environment} (ws : RepositoryWorkspace) where
  -- `repair_feedback` with the decision to apply.
  unfoldable pub call_repair : List Text → Feedback → Run E RepairOutcome
  unfolding components repair_feedback
  call_repair actor_allowlist feedback w =
      let (state, answer) =
        repair_feedback E.files (components ws.repository_root) w.state E.meanwhile E.afterwards
          actor_allowlist feedback apply in
      (record { state = state; log = repaired answer ∷ w.log }, or_feedback_error answer)

  -- What both repairs do with the staged change: validate it, commit it and push it. It answers with the
  -- commit.
  unfoldable pub publish : Text → Text → List ValidationCommand → List Text → Text → Run E Text
  unfolding prepare_validation_snapshot validate_all ensure_staged_paths ensure_remote_head run_in
  publish branch expected_head_sha validation_commands paths commit_message =
      prepare_validation_snapshot ws paths >>= λ validation_root.
      (validate_all validation_root validation_commands
        >> (ensure_staged_paths ws paths
            >> (ensure
                >> (ensure
                    >> (ensure_remote_head ws branch expected_head_sha
                        >> (run ws (commit_argv commit_message) >>= λ committed.
                            (ensure
                              >> (run ws (push_argv ws.remote_url branch) >>= λ pushed.
                                  (run ws rev_parse_argv >>= λ commit.
                                  done (trim commit.stdout))))))))))

  unfoldable pub apply_feedback :
      Text → List Text → Feedback → Text → Text → List ValidationCommand → Run E RepairCommit
  unfolding ensure_clean call_repair run_in publish audit_commit_message
  apply_feedback job_id actor_allowlist feedback branch expected_head_sha validation_commands = do
    ensure_clean ws
    ensure
    outcome ← call_repair actor_allowlist feedback
    check (reject_if (not outcome.resolution_eligible) repair_not_applied)
    path ← check (ok_or outcome.path repair_not_applied)
    ensure
    added ← run ws (codes "git" ∷ codes "add" ∷ codes "--" ∷ path ∷ [])
    commit ← publish branch expected_head_sha validation_commands (path ∷ []) (
        audit_commit_message (codes "fix: apply automated review suggestion") job_id
          (codes "feedback") expected_head_sha)
    done record { commit = commit; path = path }

  unfoldable pub patch_call : List Text → Text → Run E CommandResult
  unfolding bounded_input
  patch_call argv input = bounded_input ws.repository_root argv [] (some input)

  unfoldable pub run_patch_command : List Text → Text → Run E (Unit {0})
  run_patch_command argv input = do
    result ← patch_call argv input
    ensure
    check (reject_if (not result.success) (command_failed argv result.stderr))

  unfoldable pub apply_patches : List CiPatch → Run E (Unit {0})
  unfolding run_patch_command
  apply_patches [] = done tt
  apply_patches (patch ∷ patches) = do
    ensure
    run_patch_command check_argv patch.unified_diff
    ensure
    run_patch_command apply_argv patch.unified_diff
    apply_patches patches

  unfoldable pub apply_ci_repair :
      Text → List CiPatch → List Text → Text → Text → List ValidationCommand → Run E CiRepairCommit
  unfolding validate_patch_set ensure_clean apply_patches run_in publish audit_commit_message
  apply_ci_repair job_id patches allowed_paths branch expected_head_sha validation_commands = do
    check (or_ci_patch (validate_patch_set patches allowed_paths))
    ensure_clean ws
    apply_patches patches
    ensure
    let paths = map (λ p. p.path) patches
    added ← run ws (codes "git" ∷ codes "add" ∷ codes "--" ∷ paths)
    commit ← publish branch expected_head_sha validation_commands paths (
        audit_commit_message (codes "fix: repair failed CI check") job_id (codes "ci")
          expected_head_sha)
    done record { commit = commit; paths = paths }
