-- ===== src/Ci/Patch.antt =====
-- `validate_patch_set` of src/ci.rs: which files the patches of a repair may change.
use pi_tools.Common.{
  ℕ, ◌*◌, ◌≤◌, ◌≡◌, Bool, not, ◌||◌, List, [], ◌∷◌, ◌++◌, ltb, ◌==◌, if◌then◌else◌, length,
  is_empty, any, all, count, In, Result, ok, err, ◌>>◌, reject_if,
}
use pi_tools.Text.{Text, codes, text_eq, byte_len, starts_with, contains_any}
use pi_tools.Paths.{split_on, is_normal, is_absolute, components, resolve}
use pi_tools.Paths.Laws.{names}
use pi_tools.Ci.{CiError, no_patches, too_many_patches, path_not_allowed, invalid_patch}

abbrev pub max_patch_bytes : ℕ
max_patch_bytes = 128 * 1024

abbrev pub max_patches : ℕ
max_patches = 32

pub record CiPatch : Type 0 where
  pub path : Text
  pub unified_diff : Text

unfoldable pub validate_repository_path : Text → Result CiError (Unit {0})
unfolding is_absolute components
validate_repository_path path =
    if is_empty path
      || (contains_any (b'\\' ∷ 0 ∷ 0xd ∷ 0xa ∷ []) path
          || (is_absolute path || not (all is_normal (components path))))
    then err (invalid_patch path)
    else ok tt

abbrev pub drop_last_empty : List Text → List Text
drop_last_empty [] = []
drop_last_empty (line ∷ []) = if is_empty line then [] else line ∷ []
drop_last_empty (line ∷ next ∷ rest) = line ∷ drop_last_empty (next ∷ rest)

-- `str::lines`, of a text without carriage returns.
unfoldable pub lines : Text → List Text
unfolding split_on
lines s = drop_last_empty (split_on 0xa s)

abbrev pub old_header : Text → Text
old_header path = codes "--- a/" ++ path

abbrev pub new_header : Text → Text
new_header path = codes "+++ b/" ++ path

-- `line.starts_with("--- ") || line.starts_with("+++ ")`
unfoldable pub is_header : Text → Bool
unfolding starts_with
is_header line = starts_with line (codes "--- ") || starts_with line (codes "+++ ")

unfoldable pub has_wrong_headers : CiPatch → Bool
unfolding text_eq lines is_header starts_with
has_wrong_headers patch =
    let diff = lines patch.unified_diff in
    not (count (λ line. text_eq line (old_header patch.path)) diff == 1)
    || (not (count (λ line. text_eq line (new_header patch.path)) diff == 1)
        || (not (count is_header diff == 2)
            || not (any (λ line. starts_with line (codes "@@")) diff)))

-- The body of the loop.
unfoldable pub validate_patch : List Text → CiPatch → Result CiError (Unit {0})
unfolding validate_repository_path text_eq byte_len has_wrong_headers
validate_patch allowed_paths patch = do
  validate_repository_path patch.path
  reject_if (not (any (λ p. text_eq p patch.path) allowed_paths)) (path_not_allowed patch.path)
  reject_if
      (is_empty patch.unified_diff
        || (ltb max_patch_bytes (byte_len patch.unified_diff)
            || contains_any (0 ∷ 0xd ∷ []) patch.unified_diff))
      (invalid_patch patch.path)
  reject_if (has_wrong_headers patch) (invalid_patch patch.path)

unfoldable pub validate_patches : List Text → List CiPatch → Result CiError (Unit {0})
unfolding validate_patch
validate_patches allowed_paths [] = ok tt
validate_patches allowed_paths (patch ∷ patches) = do
  validate_patch allowed_paths patch
  validate_patches allowed_paths patches

unfoldable pub validate_patch_set : List CiPatch → List Text → Result CiError (Unit {0})
unfolding validate_patches
validate_patch_set patches allowed_paths = do
  reject_if (is_empty patches) no_patches
  reject_if (ltb max_patches (length patches)) too_many_patches
  validate_patches allowed_paths patches

-- A patch that may be applied: its path is one of the given ones and leads below the worktree, and its
-- diff is bounded and names the old and the new file once, both times by this path.
pub record Admissible (allowed_paths : List Text) (patch : CiPatch) : Type 0 where
  pub allowed : In patch.path allowed_paths
  pub confined :
      (here : List Text)
      → resolve here (components patch.path) ≡ names (components patch.path) ++ here
  pub bounded : byte_len patch.unified_diff ≤ max_patch_bytes
  pub old_once : count (λ line. text_eq line (old_header patch.path)) (lines patch.unified_diff) ≡ 1
  pub new_once : count (λ line. text_eq line (new_header patch.path)) (lines patch.unified_diff) ≡ 1
  pub no_other : count is_header (lines patch.unified_diff) ≡ 2
