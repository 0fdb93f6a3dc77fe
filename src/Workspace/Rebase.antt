-- ===== src/Workspace/Rebase.antt =====
-- `clone_branch` and `rebase_onto` of src/workspace.rs.
use pi_tools.Common.{
  Bool, ◌&&◌, false, not, List, [], ◌∷◌, ◌++◌, if◌then◌else◌, Result, err, reject_if,
}
use pi_tools.Text.{Text, codes, text_eq}
use pi_tools.Text.Search.{trim}
use pi_tools.Policy.{ValidationCommand}
use pi_tools.Workspace.{
  command_failed, remote_head_changed, rebase_conflict, rebase_requires_force_push, invalid_input,
  RepositoryWorkspace, WorkspaceError, Environment, Run, done, check, ◌>>=◌, ◌>>◌, create_dir,
}
use pi_tools.Workspace.Checks.{
  validate_segment, validate_branch, validate_sha, rebase_push_argv, head_ref,
}
use pi_tools.Workspace.Calls.{
  call_touch, ensure, run_result, run_in, run, ensure_clean, first_word, observed_or_missing,
  file_of,
}
use pi_tools.Workspace.Snapshot.{prepare_validation_snapshot, validate_all}
use pi_tools.Workspace.Repairs.{RebaseCommit, no_hooks, rev_parse_argv}

abbrev pub ls_remote_argv : Text → List Text
ls_remote_argv branch = codes "git" ∷ codes "ls-remote" ∷ codes "origin" ∷ head_ref branch ∷ []

abbrev remote_ref : Text → Text
remote_ref branch = codes "refs/remotes/origin/" ++ branch

abbrev clone_argv : Text → Text → Text → List Text
clone_argv branch clone_url destination =
    codes "git"
    ∷ codes "clone"
    ∷ codes "--no-checkout"
    ∷ codes "--filter=blob:none"
    ∷ codes "--single-branch"
    ∷ codes "--branch"
    ∷ branch
    ∷ clone_url
    ∷ destination
    ∷ []

-- The workspace below a fresh root.
abbrev pub new_workspace : Text → Text → Text → Text → Text → RepositoryWorkspace
new_workspace root askpass owner repository token = record {
  root = root;
  repository_root = file_of root (codes "repo");
  askpass = askpass;
  remote_url = codes "https://github.com/" ++ (owner ++ (b'/' ∷ repository ++ codes ".git"));
  username = codes "x-access-token";
  password = token;
}

module _ {E : Environment} where
  -- The fresh root and the path of the executable are arguments.
  unfoldable pub clone_branch :
      Text → Text → Text → Text → Text → Text → Text → Run E RepositoryWorkspace
  unfolding validate_segment validate_branch validate_sha run_in ensure_clean
  clone_branch root askpass owner repository branch head_sha token = do
    check (validate_segment owner (codes "owner"))
    check (validate_segment repository (codes "repository"))
    check (validate_branch branch)
    check (validate_sha head_sha)
    call_touch (create_dir root)
    let ws = new_workspace root askpass owner repository token
    cloned ← run_in ws ws.root (clone_argv branch ws.remote_url ws.repository_root)
    fetched ←
        run ws (codes "git" ∷ codes "fetch" ∷ codes "--no-tags" ∷ codes "origin" ∷ head_sha ∷ [])
    checked_out ← run ws (codes "git" ∷ codes "checkout" ∷ codes "--detach" ∷ head_sha ∷ [])
    ensure_clean ws
    done ws

module _ {E : Environment} where
  -- `let _ = …` and then the answer.
  unfoldable pub ignoring {ℓ κ} :
      {A : Type ℓ} {B : Type κ} → Run E A → Result WorkspaceError B → Run E B
  ignoring first answer w = ((first w).0, answer)

module _ {E : Environment} (ws : RepositoryWorkspace) where
  -- The head of the branch is still the one that was checked out.
  unfoldable pub expect_remote_head : Text → Text → Run E (Unit {0})
  unfolding run_result text_eq
  expect_remote_head branch expected_head_sha = do
    remote_head ← run_result ws ws.repository_root (ls_remote_argv branch)
    check (
        reject_if (not remote_head.success)
          (command_failed (ls_remote_argv branch) remote_head.stderr))
    check (
        reject_if (not (text_eq (first_word remote_head.stdout) expected_head_sha)) (
          remote_head_changed branch expected_head_sha
            (observed_or_missing (first_word remote_head.stdout))))

  -- The rebase, which is undone where it fails; the answer to that is not looked at.
  unfoldable pub run_rebase : Text → Text → Run E (Unit {0})
  unfolding run_result
  run_rebase branch target_branch =
      run_result ws ws.repository_root
        (no_hooks ++ (codes "rebase" ∷ remote_ref target_branch ∷ []))
      >>= λ rebase.
          if rebase.success
          then done tt
          else ignoring
              (run_result ws ws.repository_root
                (no_hooks ++ (codes "rebase" ∷ codes "--abort" ∷ [])))
              (err (rebase_conflict branch target_branch rebase.stderr))

  -- Whether the push rewrites the branch, which the caller must have allowed.
  unfoldable pub force_needed : Text → Text → Text → Text → Bool → Run E Bool
  unfolding run_result
  force_needed branch target_branch expected_head_sha after allow_force_push = do
    ancestor ←
        run_result ws ws.repository_root (
          codes "git" ∷ codes "merge-base" ∷ codes "--is-ancestor" ∷ expected_head_sha ∷ after ∷ [])
    check (
        reject_if (not ancestor.success && not allow_force_push)
          (rebase_requires_force_push branch target_branch))
    done (not ancestor.success)

  unfoldable pub push_rebased :
      Text → Text → Text → Bool → List ValidationCommand → Text → Run E RebaseCommit
  unfolding prepare_validation_snapshot validate_all force_needed rebase_push_argv run_in
  push_rebased branch target_branch expected_head_sha allow_force_push validation_commands after =
      prepare_validation_snapshot ws [] >>= λ validation_root.
      (validate_all validation_root validation_commands
        >> (force_needed branch target_branch expected_head_sha after allow_force_push
            >>= λ force_pushed.
                (ensure
                  >> (check (rebase_push_argv branch expected_head_sha force_pushed) >>= λ argv.
                      (run ws argv >>= λ pushed. done record {
                        before = expected_head_sha;
                        after = after;
                        target_branch = target_branch;
                        force_pushed = force_pushed;
                      })))))

  -- Where the rebase changed nothing, there is nothing to push.
  unfoldable pub rebased_to :
      Text → Text → Text → Text → Bool → List ValidationCommand → Run E RebaseCommit
  unfolding push_rebased text_eq
  rebased_to after branch target_branch expected_head_sha allow_force_push validation_commands =
      if text_eq after expected_head_sha
      then done record {
        before = expected_head_sha;
        after = after;
        target_branch = target_branch;
        force_pushed = false;
      }
      else push_rebased branch target_branch expected_head_sha allow_force_push validation_commands
          after

  unfoldable pub rebase_onto :
      Text → Text → Text → Bool → List ValidationCommand → Run E RebaseCommit
  unfolding validate_branch validate_sha text_eq ensure_clean expect_remote_head run_in run_rebase
      rebased_to
  rebase_onto branch target_branch expected_head_sha allow_force_push validation_commands = do
    check (validate_branch branch)
    check (validate_branch target_branch)
    check (validate_sha expected_head_sha)
    check (
        reject_if (text_eq branch target_branch)
          (invalid_input (codes "rebase branch and target branch must differ")))
    ensure_clean ws
    ensure
    expect_remote_head branch expected_head_sha
    ensure
    fetched ← run ws (
        codes "git"
        ∷ codes "fetch"
        ∷ codes "--no-tags"
        ∷ codes "origin"
        ∷ (head_ref target_branch ++ (b':' ∷ remote_ref target_branch))
        ∷ [])
    ensure
    named ← run ws (codes "git" ∷ codes "config" ∷ codes "user.name" ∷ codes "PiTools[bot]" ∷ [])
    ensure
    mailed ← run ws (
        codes "git"
        ∷ codes "config"
        ∷ codes "user.email"
        ∷ codes "pitools[bot]@users.noreply.github.com"
        ∷ [])
    run_rebase branch target_branch
    ensure
    head ← run ws rev_parse_argv
    rebased_to (trim head.stdout) branch target_branch expected_head_sha allow_force_push
        validation_commands
