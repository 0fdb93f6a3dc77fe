-- ===== src/Workspace/Calls.antt =====
-- The parts that the repairs of src/workspace.rs share, and the validation in the sandbox of src/ci.rs.
use pi_tools.Common.{
  ℕ, zero, suc, ◌-◌, not, Option, none, some, List, [], ◌∷◌, ◌++◌, if◌then◌else◌, length, is_empty,
  Result, ok, err, reject_if,
}
use pi_tools.Text.{Text, codes, text_eq, starts_with, is_blank}
use pi_tools.Text.Search.{trim}
use pi_tools.Paths.{split_whitespace}
use pi_tools.Ci.{CiError}
use pi_tools.Ci.Bounded.{validate_argv, finished, printed}
use pi_tools.Feedback.Files.{FileType}
use pi_tools.Workspace.{
  CommandResult, WorkspaceError, dirty_workspace, lease_lost, io, ci_error,
  unexpected_workspace_changes, lease_check, command_failed, remote_head_changed,
  RepositoryWorkspace, FileCall, Event, checked_lease, ran, ran_with_input, touched, looked_at,
  Environment, Run, done, check, ◌>>=◌, ◌>>◌,
}
use pi_tools.Workspace.Checks.{
  validate_sha, remote_head_argv, validate_staged_paths, validate_staged_diff_summary,
}

-- `str::replace`, of a text that is not empty; the number is how much of a match is still to skip.
replace_from : Text → Text → ℕ → Text → Text
unfolding starts_with
replace_from from to skip [] = []
replace_from from to (suc skip) (c ∷ s) = replace_from from to skip s
replace_from from to zero (c ∷ s) =
    let kept = replace_from from to zero s in
    let replaced = replace_from from to (length from - 1) s in
    if starts_with (c ∷ s) from then to ++ replaced else c ∷ kept

unfoldable pub replace : Text → Text → Text → Text
unfolding replace_from
replace from to s = replace_from from to zero s

abbrev pub environment_of : RepositoryWorkspace → List (Text × Text)
environment_of ws =
    (codes "GIT_ASKPASS", ws.askpass)
    ∷ (codes "GIT_TERMINAL_PROMPT", codes "0")
    ∷ (codes "GIT_CONFIG_NOSYSTEM", codes "1")
    ∷ (codes "GIT_CONFIG_GLOBAL", codes "/dev/null")
    ∷ (codes "GIT_CONFIG_SYSTEM", codes "/dev/null")
    ∷ (codes "GIT_ATTR_NOSYSTEM", codes "1")
    ∷ (codes "PITOOLS_GIT_ASKPASS", codes "1")
    ∷ (codes "PITOOLS_GIT_USERNAME", ws.username)
    ∷ (codes "PITOOLS_GIT_PASSWORD", ws.password)
    ∷ []

abbrev pub or_error {ℓ} :
    {A : Type ℓ} → (Text → WorkspaceError) → Result Text A → Result WorkspaceError A
or_error wrap (err text) = err (wrap text)
or_error wrap (ok a) = ok a

abbrev pub first_word : Text → Text
first_word text = elim (split_whitespace text) [ [] ↦ [] | word ∷ words ↦ word ]

abbrev pub observed_or_missing : Text → Text
observed_or_missing observed = if is_empty observed then codes "missing" else observed

abbrev pub file_of : Text → Text → Text
file_of directory name = directory ++ b'/' ∷ name

abbrev pub staged_argv : List Text
staged_argv = codes "git" ∷ codes "diff" ∷ codes "--cached" ∷ codes "--name-only" ∷ codes "--" ∷ []

abbrev pub or_ci_error {ℓ} : {A : Type ℓ} → Result CiError A → Result WorkspaceError A
or_ci_error r = or_error ci_error (printed r)

-- The event of a command.
abbrev pub called : Text → List Text → Result Text CommandResult → Option Text → Event
called directory command answer none = ran directory command answer
called directory command answer (some input) = ran_with_input command input answer

module _ {E : Environment} where
  unfoldable pub call_touch : FileCall → Run E (Unit {0})
  call_touch c w =
      let (state, answer) = E.touch w.state c in
      (record { state = state; log = touched c answer ∷ w.log }, or_error io answer)

  unfoldable pub call_look : Text → Run E (Option FileType)
  call_look path w =
      let answer = E.symlink_metadata w.state path in
      (record { state = w.state; log = looked_at path answer ∷ w.log }, or_error io answer)

  -- A command that is not refused.
  unfoldable pub spawned : Text → List Text → List (Text × Text) → Option Text → Run E CommandResult
  unfolding finished
  spawned directory command environment input w =
      let (state, left) = E.run_child w.state directory command environment input in
      let answer = printed (finished E.from_utf8_lossy command left) in
      (
        record { state = state; log = called directory command answer input ∷ w.log },
        or_error ci_error answer,
      )

  -- `run_bounded_argv_with_optional_input`: what is refused reaches no process.
  unfoldable pub bounded_input :
      Text → List Text → List (Text × Text) → Option Text → Run E CommandResult
  unfolding validate_argv spawned
  bounded_input directory command environment input =
      check (or_ci_error (validate_argv command)) >> spawned directory command environment input

  -- `run_bounded_argv`.
  abbrev pub bounded : Text → List Text → List (Text × Text) → Run E CommandResult
  bounded directory command environment = bounded_input directory command environment none

  -- `LeaseGuard::ensure`.
  unfoldable pub ensure : Run E (Unit {0})
  ensure w =
      let (state, answer) = E.assert_lease w.state in
      (
        record { state = state; log = checked_lease answer ∷ w.log },
        elim answer [
          | err text ↦ err (lease_check text)
          | ok held ↦ reject_if (not held) lease_lost
        ],
      )

  module _ (ws : RepositoryWorkspace) where
    unfoldable pub run_result : Text → List Text → Run E CommandResult
    unfolding replace
    run_result worktree command = bounded worktree command (environment_of ws) >>= λ result.
        done (record result { stderr = replace ws.password (codes "[REDACTED]") result.stderr })

    unfoldable pub run_in : Text → List Text → Run E CommandResult
    unfolding run_result
    run_in worktree command = do
      result ← run_result worktree command
      check (reject_if (not result.success) (command_failed command result.stderr))
      done result

    abbrev pub run : List Text → Run E CommandResult
    run = run_in ws.repository_root

    unfoldable pub ensure_clean : Run E (Unit {0})
    unfolding run_in
    ensure_clean = do
      result ← run (
          codes "git"
          ∷ codes "status"
          ∷ codes "--porcelain=v1"
          ∷ codes "--untracked-files=all"
          ∷ [])
      check (reject_if (not (is_blank result.stdout)) dirty_workspace)

    unfoldable pub ensure_remote_head : Text → Text → Run E (Unit {0})
    unfolding validate_sha remote_head_argv run_result text_eq
    ensure_remote_head branch expected_head_sha = do
      check (validate_sha expected_head_sha)
      argv ← check (remote_head_argv branch)
      result ← run_result ws.repository_root argv
      check (reject_if (not result.success) (command_failed argv result.stderr))
      check (
          reject_if (not (text_eq (first_word result.stdout) expected_head_sha)) (
            remote_head_changed branch expected_head_sha
              (observed_or_missing (first_word result.stdout))))

    unfoldable pub ensure_staged_paths : List Text → Run E (Unit {0})
    unfolding run_in validate_staged_paths validate_staged_diff_summary
    ensure_staged_paths expected = do
      staged ← run staged_argv
      check (validate_staged_paths expected staged.stdout)
      summary ←
          run (codes "git" ∷ codes "diff" ∷ codes "--cached" ∷ codes "--summary" ∷ codes "--" ∷ [])
      check (validate_staged_diff_summary summary.stdout)
      unstaged ← run (codes "git" ∷ codes "diff" ∷ codes "--name-only" ∷ codes "--" ∷ [])
      check (
          reject_if (not (is_blank unstaged.stdout))
            (unexpected_workspace_changes (trim unstaged.stdout)))
      untracked ←
          run (codes "git" ∷ codes "ls-files" ∷ codes "--others" ∷ codes "--exclude-standard" ∷ [])
      check (
          reject_if (not (is_blank untracked.stdout))
            (unexpected_workspace_changes (trim untracked.stdout)))
