-- ===== src/Feedback/Files.antt =====
-- The calls of `std::fs` that src/feedback.rs makes, over an unknown state of the file system, and
-- `checked_target`. An absolute path is the list of its components.
use pi_tools.Common.{
  Bool, true, false, not, ◌&&◌, ◌||◌, List, [], ◌∷◌, ◌++◌, Result, ok, err, ◌>>=◌, ◌>>◌, reject_if,
}
use pi_tools.Text.{Text, text_eq}
use pi_tools.Paths.{Component, root_dir, cur_dir, parent_dir, normal, components}
use pi_tools.Feedback.{FeedbackError, invalid_path, io}
use pi_tools.Feedback.Parse.{validate_relative_path}

abbrev pub PathBuf : Type 0
PathBuf = List Component

pub data FileType : Type 0 where
  regular directory symlink other : FileType

-- What may fail answers with the message of the error.
pub record FileSystem : Type 1 where
  pub State : Type 0
  pub canonicalize : State → PathBuf → Result Text PathBuf
  pub symlink_metadata : State → PathBuf → Result Text FileType
  pub metadata : State → PathBuf → Result Text FileType
  pub read_to_string : State → PathBuf → Result Text Text
  pub write : State → PathBuf → Text → State × Result Text (Unit {0})

-- `PathBuf::push`.
abbrev pub push : PathBuf → Component → PathBuf
push path root_dir = root_dir ∷ []
push path cur_dir = path
push path parent_dir = path ++ (parent_dir ∷ [])
push path (normal name) = path ++ (normal name ∷ [])

abbrev pub is_symlink : FileType → Bool
is_symlink regular = false
is_symlink directory = false
is_symlink symlink = true
is_symlink other = false

abbrev pub is_file : FileType → Bool
is_file regular = true
is_file directory = false
is_file symlink = false
is_file other = false

unfoldable pub component_eq : Component → Component → Bool
unfolding text_eq
component_eq root_dir root_dir = true
component_eq cur_dir cur_dir = true
component_eq parent_dir parent_dir = true
component_eq (normal a) (normal b) = text_eq a b
component_eq root_dir cur_dir = false
component_eq root_dir parent_dir = false
component_eq root_dir (normal b) = false
component_eq cur_dir root_dir = false
component_eq cur_dir parent_dir = false
component_eq cur_dir (normal b) = false
component_eq parent_dir root_dir = false
component_eq parent_dir cur_dir = false
component_eq parent_dir (normal b) = false
component_eq (normal a) root_dir = false
component_eq (normal a) cur_dir = false
component_eq (normal a) parent_dir = false

-- The equality of paths, and `Path::starts_with`.
unfoldable pub path_eq : PathBuf → PathBuf → Bool
unfolding component_eq
path_eq [] [] = true
path_eq (c ∷ p) (d ∷ q) = component_eq c d && path_eq p q
path_eq [] (d ∷ q) = false
path_eq (c ∷ p) [] = false

unfoldable pub path_starts_with : PathBuf → PathBuf → Bool
unfolding component_eq
path_starts_with path [] = true
path_starts_with [] (d ∷ base) = false
path_starts_with (c ∷ path) (d ∷ base) = component_eq c d && path_starts_with path base

-- `?` on a call of `std::fs`.
abbrev pub io_result {ℓ} : {A : Type ℓ} → Result Text A → Result FeedbackError A
io_result (err e) = err (io e)
io_result (ok a) = ok a

module _ (F : FileSystem) where
  -- The loop of `checked_target`: the target is extended by one component after another.
  unfoldable pub extend : F.State → Text → PathBuf → List Component → Result FeedbackError PathBuf
  extend s relative target [] = ok target
  extend s relative target (component ∷ rest) = do
    metadata ← io_result (F.symlink_metadata s (push target component))
    reject_if (is_symlink metadata) (invalid_path relative)
    extend s relative (push target component) rest

  unfoldable pub checked_target : F.State → PathBuf → Text → Result FeedbackError PathBuf
  unfolding validate_relative_path components extend path_eq path_starts_with
  checked_target s repository_root relative = do
    validate_relative_path relative
    root ← io_result (F.canonicalize s repository_root)
    target ← extend s relative root (components relative)
    metadata ← io_result (F.metadata s target)
    reject_if (not (is_file metadata)) (invalid_path relative)
    canonical ← io_result (F.canonicalize s target)
    reject_if (not (path_starts_with canonical root) || not (path_eq canonical target))
        (invalid_path relative)
    ok target
