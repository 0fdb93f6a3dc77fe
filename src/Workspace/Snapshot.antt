-- ===== src/Workspace/Snapshot.antt =====
-- The validation of a change in src/workspace.rs and src/ci.rs: a copy of the commit with the changed files
-- put into it, and the configured commands, one after another, each in its sandbox.
use pi_tools.Common.{
  all, Bool, not, ◌||◌, Option, none, some, List, [], ◌∷◌, ◌++◌, is_empty, if◌then◌else◌, find,
  Result, ok, err,
}
use pi_tools.Text.{Text, codes, text_eq}
use pi_tools.Paths.{split_on, dot}
use pi_tools.Policy.{ValidationCommand, argv}
use pi_tools.Ci.{message, no_validation_commands}
use pi_tools.Ci.Sandbox.{validation_sandbox_argv}
use pi_tools.Feedback.Files.{FileType, is_symlink, is_file}
use pi_tools.Feedback.Parse.{join_with}
use pi_tools.Workspace.{
  CommandResult, WorkspaceError, invalid_input, ci_error, validation_failed, RepositoryWorkspace,
  create_dir, create_dir_all, remove_file, remove_file_if_any, copy, Environment, Run, done, check,
  ◌>>=◌, ◌>>◌,
}
use pi_tools.Workspace.Checks.{validate_workspace_relative_path}
use pi_tools.Workspace.Calls.{or_ci_error, call_touch, call_look, bounded, run_in, file_of}

-- `Path::parent`, of a path that has one.
abbrev all_empty : List Text → Bool
unfolding text_eq
all_empty = all (λ part. is_empty part || text_eq part dot)

abbrev drop_name : List Text → List Text
drop_name [] = []
drop_name (part ∷ parts) = if all_empty parts then [] else part ∷ drop_name parts

abbrev parent_of : Text → Text
parent_of path = join_with b'/' (drop_name (split_on b'/' path))

abbrev pub reject_failed : List CommandResult → Result WorkspaceError (Unit {0})
reject_failed results = elim (find (λ r. not r.success) results) [
  | some failed ↦ err (validation_failed failed.argv failed.stderr)
  | none ↦ ok tt
]

module _ {E : Environment} where
  unfoldable pub copy_found : Text → Text → Text → Option FileType → Run E (Unit {0})
  unfolding split_on all_empty
  copy_found source destination path none = call_touch (remove_file_if_any destination)
  copy_found source destination path (some metadata) =
      if is_symlink metadata
      then check (err (invalid_input (codes "symlink repair path is not supported: " ++ path)))
      else if is_file metadata
      then call_touch (create_dir_all (parent_of destination))
        >> call_touch (copy source destination)
      else check (err (invalid_input (codes "repair path is not a regular file: " ++ path)))

  unfoldable pub copy_changed_path : Text → Text → Text → Run E (Unit {0})
  unfolding validate_workspace_relative_path copy_found
  copy_changed_path source_root destination_root path = do
    check (validate_workspace_relative_path path)
    found ← call_look (file_of source_root path)
    copy_found (file_of source_root path) (file_of destination_root path) path found

  unfoldable pub copy_changed_paths : Text → Text → List Text → Run E (Unit {0})
  unfolding copy_changed_path
  copy_changed_paths source_root destination_root [] = done tt
  copy_changed_paths source_root destination_root (path ∷ paths) = do
    copy_changed_path source_root destination_root path
    copy_changed_paths source_root destination_root paths

  -- The loop of `run_validation_commands_sandboxed`: it ends behind a command that failed.
  unfoldable pub run_sandboxed : Text → List ValidationCommand → Run E (List CommandResult)
  unfolding validation_sandbox_argv
  run_sandboxed worktree [] = done []
  run_sandboxed worktree (command ∷ commands) = do
    sandbox_argv ← check (or_ci_error (validation_sandbox_argv worktree (argv command)))
    result ← bounded (codes "/") sandbox_argv []
    rest ← if result.success then run_sandboxed worktree commands else done []
    done (record result { argv = argv command } ∷ rest)

  unfoldable pub run_validation_commands_sandboxed :
      Text → List ValidationCommand → Run E (List CommandResult)
  unfolding run_sandboxed
  run_validation_commands_sandboxed worktree [] =
      check (err (ci_error (message no_validation_commands)))
  run_validation_commands_sandboxed worktree (command ∷ commands) =
      run_sandboxed worktree (command ∷ commands)

  -- Its callers refuse a command that failed.
  unfoldable pub validate_all : Text → List ValidationCommand → Run E (Unit {0})
  unfolding run_validation_commands_sandboxed
  validate_all worktree commands = do
    validation ← run_validation_commands_sandboxed worktree commands
    check (reject_failed validation)

  unfoldable pub prepare_validation_snapshot : RepositoryWorkspace → List Text → Run E Text
  unfolding run_in copy_changed_paths
  prepare_validation_snapshot ws changed_paths = do
    let validation_root = file_of ws.root (codes "validation")
    let archive = file_of ws.root (codes "source.tar")
    call_touch (create_dir validation_root)
    run_in ws ws.repository_root (
          codes "git"
          ∷ codes "-c"
          ∷ codes "core.hooksPath=/dev/null"
          ∷ codes "archive"
          ∷ codes "--format=tar"
          ∷ codes "--output"
          ∷ archive
          ∷ codes "HEAD"
          ∷ [])
        >>= λ archived.
            run_in ws ws.repository_root
              (codes "tar" ∷ codes "-xf" ∷ archive ∷ codes "-C" ∷ validation_root ∷ [])
            >>= λ unpacked.
                (call_touch (remove_file archive)
                  >> (copy_changed_paths ws.repository_root validation_root changed_paths
                      >> done validation_root))
