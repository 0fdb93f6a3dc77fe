-- ===== src/Workspace/Refused.antt =====
-- The two repairs of src/workspace.rs that commit, where `run_bounded_argv` of src/ci.rs refuses their commit.
use pi_tools.Common.{◌≡◌, refl, Bool, true, false, List, [], ◌∷◌, ◌++◌, any, is_ok, Result, err, ok}
use pi_tools.Text.{Text, contains_any}
use pi_tools.Policy.{ValidationCommand}
use pi_tools.Ci.{unsafe_command}
use pi_tools.Ci.Bounded.{validate_argv}
use pi_tools.Ci.Patch.{CiPatch}
use pi_tools.Feedback.Repair.{Feedback}
use pi_tools.Workspace.{
  WorkspaceError, RepositoryWorkspace, Event, repaired, Environment, World, Run, check, ◌>>=◌,
}
use pi_tools.Workspace.Checks.{audit_commit_message}
use pi_tools.Workspace.Calls.{bounded_input, run_result, run_in}
use pi_tools.Workspace.Repairs.{
  commit_argv, publish, call_repair, patch_call, run_patch_command, apply_patches, apply_feedback,
  apply_ci_repair,
}
use pi_tools.Workspace.Steps.{
  is_push_argv, is_push, Adds, Steps, Quiet, weaken, done-Quiet, check-Quiet, check-then,
  bind-Steps, bind-Quiet,
}
use pi_tools.Workspace.Steps.Calls.{
  OnOk-Unit, ensure-Quiet, run_in-Quiet, bounded_input-Quiet, ensure_clean-Meets,
  ensure_staged_paths-Quiet, ensure_remote_head-Meets,
}
use pi_tools.Workspace.Steps.Validation.{
  or_ci_error-ok, prepare_validation_snapshot-Root, validate_all-Meets,
}

-- A line end, or what else no argument may hold.
abbrev is_unsafe : Text → Bool
is_unsafe = contains_any (0 ∷ 0xd ∷ 0xa ∷ [])

commit_argv-refused :
    (message : Text)
    → is_unsafe message ≡ true
    → validate_argv (commit_argv message) ≡ err unsafe_command
unfolding validate_argv
commit_argv-refused message h = rw h refl

module _ {E : Environment} where
  -- The run has added no push and fails.
  abbrev Never : {A : Type 0} → Run E A → Type 0
  Never m = Steps m (λ a new. ⊥)

  first-Never : {A B : Type 0} {m : Run E A} (k : A → Run E B) → Never m → Never (m >>= k)
  first-Never k first = bind-Steps (λ a new. ⊥) (λ b new. ⊥) first (λ a old never. absurd never)

  later-Never :
      {A B : Type 0} {m : Run E A} {k : A → Run E B}
      → Quiet m
      → ((a : A) → Never (k a))
      → Never (m >>= k)
  later-Never first rest = bind-Steps (λ a new. Unit) (λ b new. ⊥) first (λ a old u. rest a)

  check-Never :
      {A B : Type 0} {k : A → Run E B} (r : Result WorkspaceError A)
      → ((a : A) → Never (k a))
      → Never (check r >>= k)
  check-Never r rest = check-then _ r (λ a h. rest a)

  module _ (ws : RepositoryWorkspace) where
    run_in-Never :
        (directory : Text) (command : List Text)
        → validate_argv command ≡ err unsafe_command
        → Never (run_in {E = E} ws directory command)
    unfolding run_in run_result bounded_input
    run_in-Never directory command refused =
        first-Never _
          (first-Never _ (check-then _ _ (λ u h. absurd (cc (refused, or_ci_error-ok _ h)))))

    publish-Never :
        (branch expected_head_sha : Text) (commands : List ValidationCommand) (paths : List Text)
        (message : Text)
        → is_unsafe message ≡ true
        → Never (publish {E = E} ws branch expected_head_sha commands paths message)
    unfolding publish
    publish-Never branch expected_head_sha commands paths message h =
        later-Never (weaken _ _ (λ a new r. tt) (prepare_validation_snapshot-Root ws paths))
          (λ root. later-Never (weaken _ _ (λ a new r. tt) (validate_all-Meets root commands)) (λ u.
            later-Never (ensure_staged_paths-Quiet ws paths) (λ u1. later-Never ensure-Quiet (λ u2.
              later-Never ensure-Quiet (λ u3.
                later-Never
                  (weaken _ _ (λ a new r. tt)
                    (ensure_remote_head-Meets ws branch expected_head_sha))
                  (λ u4. first-Never _ (
                    run_in-Never ws.repository_root (commit_argv message)
                      (commit_argv-refused message h))))))))

    run_patch_command-Quiet :
        (argv : List Text) (input : Text) → Quiet (run_patch_command {E = E} ws argv input)
    unfolding run_patch_command patch_call
    run_patch_command-Quiet argv input =
        bind-Quiet (bounded_input-Quiet ws.repository_root argv [] input)
          (λ r. bind-Quiet ensure-Quiet (λ u. check-Quiet _))

    apply_patches-Quiet : (patches : List CiPatch) → Quiet (apply_patches {E = E} ws patches)
    unfolding apply_patches
    apply_patches-Quiet [] = done-Quiet tt
    apply_patches-Quiet (patch ∷ patches) = bind-Quiet ensure-Quiet (λ u.
        bind-Quiet (run_patch_command-Quiet _ patch.unified_diff) (λ u1.
          bind-Quiet ensure-Quiet (λ u2.
            bind-Quiet (run_patch_command-Quiet _ patch.unified_diff)
              (λ u3. apply_patches-Quiet patches))))

    call_repair-Quiet :
        (allowlist : List Text) (feedback : Feedback)
        → Quiet (call_repair {E = E} ws allowlist feedback)
    unfolding call_repair is_push
    call_repair-Quiet allowlist feedback = record {
      at = λ w. (repaired _ ∷ [], refl, refl, OnOk-Unit _ _);
    }

    -- The run fails, and no push is among the calls that it adds to the log.
    pub record Refused {A : Type 0} (w : World E) (r : World E × Result WorkspaceError A)
        : Type 0 where
      pub added : List Event
      pub log : r.0.log ≡ added ++ w.log
      pub no_push : any is_push added ≡ false
      pub failed : is_ok r.1 ≡ false

    Adds-Refused :
        {A : Type 0} (w : World E) (r : World E × Result WorkspaceError A)
        → Adds (λ a new. ⊥) w r
        → Refused w r
    Adds-Refused w (after, err e) (new, log, quiet, u) = record {
      added = new;
      log = log;
      no_push = quiet;
      failed = refl;
    }
    Adds-Refused w (after, ok a) (new, log, quiet, never) = absurd never

    -- However git, the sandbox, the files and the queue answer, a CI repair fails, and no push is among the
    -- calls that it adds to the log.
    pub apply_ci_repair-Refused :
        (job_id : Text) (patches : List CiPatch) (allowed_paths : List Text)
        (branch expected_head_sha : Text) (commands : List ValidationCommand) (w : World E)
        → Refused w
            (apply_ci_repair ws job_id patches allowed_paths branch expected_head_sha commands w)
    unfolding apply_ci_repair is_push_argv audit_commit_message
    apply_ci_repair-Refused job_id patches allowed_paths branch expected_head_sha commands w =
        let never : Never (
            apply_ci_repair {E = E} ws job_id patches allowed_paths branch expected_head_sha
              commands) =
          check-Never _ (λ u.
            later-Never (weaken _ _ (λ a new r. tt) (ensure_clean-Meets ws)) (λ u1.
              later-Never (apply_patches-Quiet patches) (λ u2. later-Never ensure-Quiet (λ u3.
                later-Never (run_in-Quiet ws ws.repository_root _ refl) (λ added.
                  first-Never _ (publish-Never branch expected_head_sha commands _ _ refl)))))) in
        Adds-Refused w
          (apply_ci_repair {E = E} ws job_id patches allowed_paths branch expected_head_sha commands
            w)
          (never.at w)

    -- However git, the sandbox, the files and the queue answer, and whatever the suggestion, its repair fails,
    -- and no push is among the calls that it adds to the log.
    pub apply_feedback-Refused :
        (job_id : Text) (allowlist : List Text) (feedback : Feedback)
        (branch expected_head_sha : Text) (commands : List ValidationCommand) (w : World E)
        → Refused w
            (apply_feedback ws job_id allowlist feedback branch expected_head_sha commands w)
    unfolding apply_feedback is_push_argv audit_commit_message
    apply_feedback-Refused job_id allowlist feedback branch expected_head_sha commands w =
        let never : Never (
            apply_feedback {E = E} ws job_id allowlist feedback branch expected_head_sha commands) =
          later-Never (weaken _ _ (λ a new r. tt) (ensure_clean-Meets ws)) (λ u.
            later-Never ensure-Quiet (λ u1.
              later-Never (call_repair-Quiet allowlist feedback) (λ outcome. check-Never _ (λ u2.
                check-Never _ (λ path. later-Never ensure-Quiet (λ u3.
                  later-Never (run_in-Quiet ws ws.repository_root _ refl) (λ added.
                    first-Never _
                      (publish-Never branch expected_head_sha commands (path ∷ []) _ refl)))))))) in
        Adds-Refused w
          (apply_feedback {E = E} ws job_id allowlist feedback branch expected_head_sha commands w)
          (never.at w)
