-- ===== src/Workspace.antt =====
-- src/workspace.rs: the clone of a repository in which a repair is made. What it calls of the world (git,
-- the sandbox, the files, the queue) is an environment over an unknown state; each call and its answer is
-- written to a log, the latest first.
pub mod Checks
pub mod Calls
pub mod Snapshot
pub mod Repairs
pub mod Rebase
pub mod Steps
pub mod Refused
pub mod Rebased
mod Tests
use pi_tools.Common.{ℕ, Bool, Option, List, Result, ok, err}
use pi_tools.Text.{Text}
use pi_tools.Ci.{CiError}
pub use pi_tools.Ci.Bounded.{CommandResult}
use pi_tools.Ci.Bounded.{Finished}
use pi_tools.Feedback.{FeedbackError}
use pi_tools.Feedback.Files.{FileSystem, FileType}
use pi_tools.Feedback.Repair.{RepairOutcome}

pub data WorkspaceError : Type 0 where
  dirty_workspace repair_not_applied lease_lost : WorkspaceError
  io invalid_input ci_error unexpected_workspace_changes ci_patch lease_check :
      Text → WorkspaceError
  command_failed validation_failed : List Text → Text → WorkspaceError
  unexpected_staged_paths : List Text → List Text → WorkspaceError
  feedback_error : FeedbackError → WorkspaceError
  remote_head_changed rebase_conflict : Text → Text → Text → WorkspaceError
  rebase_requires_force_push : Text → Text → WorkspaceError

pub record RepositoryWorkspace : Type 0 where
  pub root : Text
  pub repository_root : Text
  pub askpass : Text
  pub remote_url : Text
  pub username : Text
  pub password : Text

-- The calls of `std::fs` outside of `repair_feedback`. To `remove_file_if_any` it is no error that there is
-- nothing to remove.
pub data FileCall : Type 0 where
  create_dir create_dir_all remove_file remove_file_if_any : Text → FileCall
  copy : Text → Text → FileCall

pub data Event : Type 0 where
  checked_lease : Result Text Bool → Event
  ran : Text → List Text → Result Text CommandResult → Event
  ran_with_input : List Text → Text → Result Text CommandResult → Event
  repaired : Result FeedbackError RepairOutcome → Event
  touched : FileCall → Result Text (Unit {0}) → Event
  looked_at : Text → Result Text (Option FileType) → Event

-- What may fail answers with the message of the error; `symlink_metadata` answers with none where nothing
-- is found. Between two steps of `repair_feedback` other processes change the files by `meanwhile` and
-- `afterwards`. `run_child` starts a command in a directory with these variables and this input, and waits
-- for its end.
pub record Environment : Type 1 where
  pub files : FileSystem
  pub meanwhile : files.State → files.State
  pub afterwards : files.State → files.State
  pub assert_lease : files.State → files.State × Result Text Bool
  pub run_child :
      files.State
      → Text
      → List Text
      → List (Text × Text)
      → Option Text
      → files.State × Result CiError Finished
  pub from_utf8_lossy : List ℕ → Text
  pub touch : files.State → FileCall → files.State × Result Text (Unit {0})
  pub symlink_metadata : files.State → Text → Result Text (Option FileType)

module _ (E : Environment) where
  pub record World : Type 0 where
    pub state : E.files.State
    pub log : List Event

  -- An `async fn` that answers with a `Result`.
  abbrev pub Run {ℓ} : Type ℓ → Type ℓ
  Run A = World → World × Result WorkspaceError A

module _ {E : Environment} where
  unfoldable pub done {ℓ} : {A : Type ℓ} → A → Run E A
  done a w = (w, ok a)

  -- A check without a call.
  unfoldable pub check {ℓ} : {A : Type ℓ} → Result WorkspaceError A → Run E A
  check result w = (w, result)

  abbrev pub continue {ℓ κ} :
      {A : Type ℓ} {B : Type κ}
      → (A → Run E B)
      → World E × Result WorkspaceError A
      → World E × Result WorkspaceError B
  continue rest (w, err failure) = (w, err failure)
  continue rest (w, ok value) = rest value w

  infixl 5 ◌>>=◌ ◌>>◌
  -- `.await?`, and then the rest of the function.
  unfoldable pub ◌>>=◌ {ℓ κ} : {A : Type ℓ} {B : Type κ} → Run E A → (A → Run E B) → Run E B
  (first >>= rest) w = continue rest (first w)

  abbrev pub ◌>>◌ {ℓ} : {B : Type ℓ} → Run E (Unit {0}) → Run E B → Run E B
  first >> rest = first >>= λ u. rest
