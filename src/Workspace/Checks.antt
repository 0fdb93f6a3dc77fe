-- ===== src/Workspace/Checks.antt =====
-- The checks of src/workspace.rs on names, paths and what git prints, and the command lines that it builds.
use pi_tools.Common.{
  ℕ, Bool, true, false, not, ◌||◌, List, [], ◌∷◌, ◌++◌, filter, ltb, ◌==◌, ◌&&◌, if◌then◌else◌,
  is_empty, any, all, Result, ok, ◌>>◌, reject_if,
}
use pi_tools.Text.{
  Text, codes, text_eq, text_lt, byte_len, starts_with, contains, contains_any, to_ascii_lowercase,
  is_ascii_hexdigit,
}
use pi_tools.Text.Search.{trim}
use pi_tools.Paths.{split_on, is_normal, is_absolute, components, dot, dot_dot}
use pi_tools.Policy.{is_last, branch_characters}
use pi_tools.Workspace.{
  WorkspaceError, invalid_input, unexpected_staged_paths, unexpected_workspace_changes,
}

unfoldable pub validate_workspace_relative_path : Text → Result WorkspaceError (Unit {0})
unfolding is_absolute components
validate_workspace_relative_path value =
    reject_if
      (is_empty value
        || (contains_any (b'\\' ∷ 0 ∷ 0xd ∷ 0xa ∷ []) value
            || (is_absolute value || not (all is_normal (components value)))))
      (invalid_input (codes "invalid repository-relative path: " ++ value))

unfoldable pub validate_segment : Text → Text → Result WorkspaceError (Unit {0})
unfolding text_eq
validate_segment value field =
    reject_if
      (is_empty value
        || (text_eq value dot
            || (text_eq value dot_dot || contains_any (b'/' ∷ b'\\' ∷ 0 ∷ 0xd ∷ 0xa ∷ []) value)))
      (invalid_input (codes "invalid " ++ field))

abbrev pub is_control_byte : ℕ → Bool
is_control_byte c = ltb c 0x20 || c == 0x7f

abbrev pub is_bad_component : Text → Bool
is_bad_component part = is_empty part || (text_eq part dot || text_eq part dot_dot)

unfoldable pub is_bad_branch : Text → Bool
unfolding text_eq byte_len starts_with contains split_on
is_bad_branch value =
    is_empty value
    || (ltb 255 (byte_len value)
        || (text_eq value dot
            || (text_eq value dot_dot
                || (starts_with value (codes "-")
                    || (starts_with value (codes "/")
                        || (is_last b'/' value
                            || (is_last b'.' value
                                || (text_eq value (codes "@")
                                    || (contains value (codes "//")
                                        || (contains value (codes "@{")
                                            || (contains_any branch_characters value
                                                || (contains value (codes "..")
                                                    || (any is_control_byte value
                                                        || any is_bad_component
                                                            (split_on b'/' value))))))))))))))

unfoldable pub validate_branch : Text → Result WorkspaceError (Unit {0})
unfolding is_bad_branch
validate_branch value = reject_if (is_bad_branch value) (invalid_input (codes "invalid branch"))

unfoldable pub validate_sha : Text → Result WorkspaceError (Unit {0})
unfolding byte_len
validate_sha value =
    reject_if
      (ltb (byte_len value) 7 || (ltb 64 (byte_len value) || not (all is_ascii_hexdigit value)))
      (invalid_input (codes "invalid commit SHA"))

abbrev pub head_ref : Text → Text
head_ref branch = codes "refs/heads/" ++ branch

unfoldable pub rebase_push_argv : Text → Text → Bool → Result WorkspaceError (List Text)
unfolding validate_branch validate_sha
rebase_push_argv branch expected_head_sha force_with_lease = do
  validate_branch branch
  validate_sha expected_head_sha
  let lease = codes "--force-with-lease=" ++ (head_ref branch ++ (b':' ∷ expected_head_sha))
  ok (
      codes "git"
      ∷ codes "push"
      ∷ ((if force_with_lease then lease ∷ [] else [])
          ++ (codes "origin" ∷ (codes "HEAD:" ++ head_ref branch) ∷ [])))

unfoldable pub remote_head_argv : Text → Result WorkspaceError (List Text)
unfolding validate_branch
remote_head_argv branch = do
  validate_branch branch
  ok (codes "git" ∷ codes "ls-remote" ∷ codes "origin" ∷ head_ref branch ∷ [])

unfoldable pub audit_commit_message : Text → Text → Text → Text → Text
audit_commit_message subject job_id repair_kind expected_head_sha =
    subject
    ++ (0xa ∷ 0xa ∷ codes "PiTools-Job: "
        ++ (job_id
            ++ (0xa ∷ codes "PiTools-Repair: "
                ++ (repair_kind ++ (0xa ∷ codes "PiTools-Head: " ++ expected_head_sha)))))

-- A `BTreeSet` of texts: in order, each once.
unfoldable pub insert_text : Text → List Text → List Text
unfolding text_eq text_lt
insert_text t [] = t ∷ []
insert_text t (u ∷ us) =
    let later = insert_text t us in
    if text_eq t u then u ∷ us else if text_lt t u then t ∷ u ∷ us else u ∷ later

unfoldable pub text_set : List Text → List Text
unfolding insert_text
text_set [] = []
text_set (t ∷ ts) = insert_text t (text_set ts)

unfoldable pub texts_eq : List Text → List Text → Bool
unfolding text_eq
texts_eq [] [] = true
texts_eq (s ∷ ss) (t ∷ ts) = text_eq s t && texts_eq ss ts
texts_eq [] (t ∷ ts) = false
texts_eq (s ∷ ss) [] = false

unfoldable pub validate_all_paths : List Text → Result WorkspaceError (Unit {0})
unfolding validate_workspace_relative_path
validate_all_paths [] = ok tt
validate_all_paths (path ∷ paths) = do
  validate_workspace_relative_path path
  validate_all_paths paths

-- `str::lines`: a line ends with a line feed, or with a carriage return and a line feed.
abbrev without_return : Text → Text
without_return [] = []
without_return (c ∷ []) = if c == 0xd then [] else c ∷ []
without_return (c ∷ d ∷ s) = c ∷ without_return (d ∷ s)

abbrev ended : List Text → List Text
ended [] = []
ended (line ∷ []) = if is_empty line then [] else line ∷ []
ended (line ∷ next ∷ rest) = without_return line ∷ ended (next ∷ rest)

unfoldable pub lines : Text → List Text
unfolding split_on
lines s = ended (split_on 0xa s)

abbrev pub staged_lines : Text → List Text
unfolding lines
staged_lines observed = filter (λ path. not (is_empty path)) (lines observed)

unfoldable pub validate_staged_paths : List Text → Text → Result WorkspaceError (Unit {0})
unfolding validate_all_paths text_set texts_eq staged_lines
validate_staged_paths expected observed = do
  validate_all_paths expected
  let wanted = text_set expected
  let staged = text_set (staged_lines observed)
  reject_if (not (texts_eq wanted staged)) (unexpected_staged_paths wanted staged)

abbrev is_wider : Text → Bool
is_wider line =
    contains line (codes "mode change")
    || (starts_with line (codes "rename ") || starts_with line (codes "copy "))

unfoldable pub validate_staged_diff_summary : Text → Result WorkspaceError (Unit {0})
unfolding lines contains starts_with
validate_staged_diff_summary summary =
    reject_if (any is_wider (lines (to_ascii_lowercase summary)))
      (unexpected_workspace_changes (trim summary))
