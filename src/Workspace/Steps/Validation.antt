-- ===== src/Workspace/Steps/Validation.antt =====
-- What the snapshot and the validation add to the log.
use pi_tools.Common.{
  ◌≡◌, refl, ap, inl, inr, arith, true, false, not, Option, none, some, List, [], ◌∷◌, ◌++◌, map,
  Bool-cases, Option-cases, ok-injective, Result, err, ok, find,
}
use mathlib.Core.Path.{subst}
use pi_tools.Text.{Text, codes}
use pi_tools.Policy.{ValidationCommand, argv}
use pi_tools.Ci.{CiError}
use pi_tools.Ci.Sandbox.{validation_sandbox_argv, sandboxed}
use pi_tools.Feedback.Files.{FileType, is_symlink, is_file}
use pi_tools.Workspace.{CommandResult, RepositoryWorkspace, Event, ran, Environment}
use pi_tools.Workspace.Calls.{file_of, or_ci_error}
use pi_tools.Workspace.Snapshot.{
  copy_found, copy_changed_path, copy_changed_paths, run_sandboxed,
  run_validation_commands_sandboxed, validate_all, reject_failed, prepare_validation_snapshot,
}
use pi_tools.Workspace.Steps.{
  is_push_argv, met, met-append, met-new, met-later, Steps, Quiet, Meets, done-Steps, done-Quiet,
  check-Steps, check-then, check-Quiet, bind-Steps, bind-Quiet, bind-Value,
}
use pi_tools.Workspace.Steps.Calls.{
  texts_eq_self, is_command, is_passed, call_touch-Quiet, call_look-Quiet, bounded-Ran,
  run_in-Quiet,
}

-- What runs in the sandbox is not git.
sandbox_argv-quiet :
    (worktree : Text) (command given : List Text)
    → validation_sandbox_argv worktree command ≡ ok given
    → is_push_argv given ≡ false
unfolding validation_sandbox_argv is_push_argv
sandbox_argv-quiet worktree [] given h = absurd (ground (arith, h))
sandbox_argv-quiet worktree (program ∷ arguments) given h =
    let (built, absolute, clean) = sandboxed worktree program arguments given h in
    subst (λ l. is_push_argv l ≡ false) built refl

is_command-known :
    (root : Text) (command : ValidationCommand) (given : List Text)
    → validation_sandbox_argv root (argv command) ≡ ok given
    → is_command root command given ≡ true
unfolding is_command
is_command-known root command given h = rw (is_command, h) (texts_eq_self given)

is_passed-met :
    (root : Text) (command : ValidationCommand) (given : List Text) (r : CommandResult)
    → validation_sandbox_argv root (argv command) ≡ ok given
    → r.success ≡ true
    → met (is_passed root command ∷ []) (ran (codes "/") given (ok r) ∷ []) ≡ true
unfolding is_passed
is_passed-met root command given r h good = rw (good, is_command-known root command given h) refl

pub or_ci_error-ok : {A : Type 0} (r : Result CiError A) {a : A} → or_ci_error r ≡ ok a → r ≡ ok a
or_ci_error-ok (err e) h = cc
or_ci_error-ok (ok b) h = ap ok (ok-injective (ok b) refl h)

abbrev AllPassed : Text → List ValidationCommand → List CommandResult → List Event → Type 0
AllPassed root commands results new =
    find (λ r. not r.success) results ≡ none → met (map (is_passed root) commands) new ≡ true

reject_failed-none :
    (results : List CommandResult) {u : Unit {0}}
    → reject_failed results ≡ ok u
    → find (λ r. not r.success) results ≡ none
reject_failed-none results h = elim (Option-cases (find (λ r. not r.success) results)) [
  | inl e ↦ e
  | inr (failed, e) ↦ absurd (cc (rw (reject_failed, e) at h))
]

module _ {E : Environment} where
  copy_found-Quiet :
      (source destination path : Text) (found : Option FileType)
      → Quiet (copy_found {E = E} source destination path found)
  unfolding copy_found
  copy_found-Quiet source destination path none = call_touch-Quiet _
  copy_found-Quiet source destination path (some metadata) =
      elim (Bool-cases (is_symlink metadata)) [
        | inl link ↦ rw link (check-Quiet _)
        | inr plain ↦ elim (Bool-cases (is_file metadata)) [
          | inl file ↦ rw (plain, file) (bind-Quiet (call_touch-Quiet _) (λ u. call_touch-Quiet _))
          | inr other ↦ rw (plain, other) (check-Quiet _)
        ]
      ]

  copy_changed_paths-Quiet :
      (source_root destination_root : Text) (paths : List Text)
      → Quiet (copy_changed_paths {E = E} source_root destination_root paths)
  unfolding copy_changed_paths copy_changed_path
  copy_changed_paths-Quiet source_root destination_root [] = done-Quiet tt
  copy_changed_paths-Quiet source_root destination_root (path ∷ paths) =
      bind-Quiet
        (bind-Quiet (check-Quiet _)
          (λ u. bind-Quiet (call_look-Quiet _) (λ found. copy_found-Quiet _ _ path found)))
        (λ u. copy_changed_paths-Quiet source_root destination_root paths)

  -- The snapshot pushes nothing and is where the validation is to run.
  pub prepare_validation_snapshot-Root :
      (ws : RepositoryWorkspace) (paths : List Text)
      → Steps
          (prepare_validation_snapshot {E = E} ws paths)
          (λ root new. root ≡ file_of ws.root (codes "validation"))
  unfolding prepare_validation_snapshot is_push_argv
  prepare_validation_snapshot-Root ws paths = bind-Value _ (call_touch-Quiet _) (λ u.
      bind-Value _ (run_in-Quiet ws ws.repository_root _ refl) (λ archived.
        bind-Value _ (run_in-Quiet ws ws.repository_root _ refl) (λ unpacked.
          bind-Value _ (call_touch-Quiet _)
            (λ v. bind-Value _ (copy_changed_paths-Quiet _ _ paths) (λ v'. done-Steps _ _ refl)))))

  run_sandboxed-AllPassed :
      (root : Text) (commands : List ValidationCommand)
      → Steps (run_sandboxed {E = E} root commands) (AllPassed root commands)
  unfolding run_sandboxed is_passed
  run_sandboxed-AllPassed root [] = done-Steps _ [] (λ h. refl)
  run_sandboxed-AllPassed root (command ∷ commands) = check-then _ _ (λ sandbox_argv e.
      let known = or_ci_error-ok _ e in
      bind-Steps (λ r new. new ≡ ran (codes "/") sandbox_argv (ok r) ∷ []) _
        (bounded-Ran (codes "/") sandbox_argv []
          (sandbox_argv-quiet root (argv command) sandbox_argv known))
        (λ result old event. elim (Bool-cases result.success) [
          | inl good ↦ rw good (
              bind-Steps (AllPassed root commands) _ (run_sandboxed-AllPassed root commands)
                (λ rest new later. done-Steps _ _ (λ h.
                  met-append (is_passed root command ∷ []) _ (new ++ old)
                    (met-later (is_passed root command ∷ []) new old
                      (rw event (is_passed-met root command sandbox_argv result known good)))
                    (met-new _ new old (later h)))))
          | inr bad ↦ rw bad (
              bind-Steps (λ rest new. Unit {0}) _ (done-Quiet [])
                (λ rest new u. done-Steps _ _ (λ h. cc h)))
        ]))

  run_validation_commands_sandboxed-passed :
      (root : Text) (commands : List ValidationCommand)
      → Steps (run_validation_commands_sandboxed {E = E} root commands) (AllPassed root commands)
  unfolding run_validation_commands_sandboxed
  run_validation_commands_sandboxed-passed root [] = check-Steps _ _ (λ results h. cc)
  run_validation_commands_sandboxed-passed root (command ∷ commands) =
      run_sandboxed-AllPassed root (command ∷ commands)

  -- Once the validation has succeeded, each command has passed in its sandbox.
  pub validate_all-Meets :
      (root : Text) (commands : List ValidationCommand)
      → Meets (validate_all {E = E} root commands) (map (is_passed root) commands)
  unfolding validate_all
  validate_all-Meets root commands =
      bind-Steps (AllPassed root commands) _
        (run_validation_commands_sandboxed-passed root commands)
        (λ results old passed. check-Steps _ _ (λ u h. passed (reject_failed-none results h)))
