-- ===== src/Feedback/Parse.antt =====
-- `parse_unified_patch` of src/feedback.rs, with the functions that it calls.
pub mod Hunks
pub mod Laws
use pi_tools.Common.{
  ℕ, Bool, true, false, not, ◌&&◌, ◌||◌, Option, none, some, List, [], ◌∷◌, ◌++◌, map, ◌==◌,
  if◌then◌else◌, is_empty, all, count, Result, ok, err, ◌>>=◌, ◌>>◌, reject_if, ok_or,
}
use pi_tools.Text.{Text, codes, text_eq, starts_with, strip_prefix, contains_any}
use pi_tools.Text.Search.{split_once, parse_usize}
use pi_tools.Paths.{
  split_on, Component, root_dir, cur_dir, parent_dir, normal, is_normal, is_absolute, components,
}
use pi_tools.Feedback.{
  Hunk, HunkLine, context, remove, add, FeedbackError, malformed_patch, invalid_path,
}

pub record ParsedPatch : Type 0 where
  pub path : Text
  pub hunks : List Hunk

-- `Component::as_os_str`.
abbrev pub as_text : Component → Text
as_text (normal name) = name
as_text root_dir = codes "/"
as_text cur_dir = codes "."
as_text parent_dir = codes ".."

abbrev pub join_with : ℕ → List Text → Text
join_with d [] = []
join_with d (part ∷ []) = part
join_with d (part ∷ next ∷ parts) = part ++ d ∷ join_with d (next ∷ parts)

unfoldable pub validate_relative_path : Text → Result FeedbackError (Unit {0})
unfolding is_absolute components text_eq
validate_relative_path value = do
  reject_if (is_empty value || contains_any (b'\\' ∷ 0 ∷ []) value) (invalid_path value)
  reject_if (is_absolute value || not (all is_normal (components value))) (invalid_path value)
  reject_if (not (text_eq (join_with b'/' (map as_text (components value))) value))
      (invalid_path value)

abbrev start_and_count : Text → Option (Text × Text) → Text × Text
start_and_count range none = (range, codes "1")
start_and_count range (some parts) = parts

unfoldable pub parse_range : Text → Result FeedbackError (ℕ × ℕ)
unfolding split_once parse_usize
parse_range range =
    let parts = start_and_count range (split_once (codes ",") range) in
    do
      start ← ok_or (parse_usize parts.0) (malformed_patch (codes "invalid hunk start"))
      count ← ok_or (parse_usize parts.1) (malformed_patch (codes "invalid hunk count"))
      ok (start, count)

abbrev pub next : List Text → Option Text
next [] = none
next (part ∷ parts) = some part

abbrev pub behind : List Text → List Text
behind [] = []
behind (part ∷ parts) = parts

-- `next().and_then(|part| part.strip_prefix(prefix))`
unfoldable pub next_with : Text → List Text → Option Text
unfolding strip_prefix
next_with prefix [] = none
next_with prefix (part ∷ parts) = strip_prefix prefix part

unfoldable pub parse_hunk_header : Text → Result FeedbackError (ℕ × ℕ × ℕ)
unfolding strip_prefix split_once split_on next_with parse_range
parse_hunk_header header = do
  rest ← ok_or (strip_prefix (codes "@@ ") header) (malformed_patch (codes "invalid hunk header"))
  parts ← ok_or (split_once (codes " @@") rest) (malformed_patch (codes "unterminated hunk header"))
  let ranges = split_on b' ' parts.0
  old ← ok_or (next_with (codes "-") ranges) (malformed_patch (codes "missing old hunk range"))
  new ←
      ok_or (next_with (codes "+") (behind ranges))
        (malformed_patch (codes "missing new hunk range"))
  reject_if (not (is_empty (behind (behind ranges))))
      (malformed_patch (codes "unexpected hunk range fields"))
  (old_start, old_count) ← parse_range old
  (new_start, new_count) ← parse_range new
  reject_if (old_start == 0 && not (old_count == 0))
      (malformed_patch (codes "old line numbers are one-based"))
  ok (old_start, old_count, new_count)

unfoldable pub parse_line : Text → Result FeedbackError HunkLine
parse_line [] = err (malformed_patch (codes "hunk line lacks a valid prefix"))
parse_line (c ∷ text) =
    if c == b' '
    then ok (context text)
    else if c == b'-'
    then ok (remove text)
    else if c == b'+'
    then ok (add text)
    else err (malformed_patch (codes "hunk line lacks a valid prefix"))

-- The two filters that count.
abbrev pub is_old : HunkLine → Bool
is_old (context text) = true
is_old (remove text) = true
is_old (add text) = false

abbrev pub is_new : HunkLine → Bool
is_new (context text) = true
is_new (remove text) = false
is_new (add text) = true

abbrev pub Header : Type 0
Header = ℕ × ℕ × ℕ

-- The head of the outer loop.
unfoldable pub open_hunk : Text → Result FeedbackError Header
unfolding parse_hunk_header
open_hunk header = do
  reject_if (is_empty header) (malformed_patch (codes "unexpected blank line between hunks"))
  parse_hunk_header header

-- Its end.
unfoldable pub close_hunk : Header → List HunkLine → Result FeedbackError Hunk
close_hunk (old_start, old_count, new_count) hunk_lines = do
  reject_if
      (not (count is_old hunk_lines == old_count) || not (count is_new hunk_lines == new_count))
      (malformed_patch (codes "hunk header line counts do not match its body"))
  ok record {
    old_start = old_start;
    old_count = old_count;
    new_count = new_count;
    lines = hunk_lines;
  }

-- Both loops, from inside a hunk: the lines that were pushed so far, and the lines still to read.
unfoldable pub read_hunks : Header → List HunkLine → List Text → Result FeedbackError (List Hunk)
unfolding starts_with open_hunk close_hunk parse_line
read_hunks opened hunk_lines [] = do hunk ← close_hunk opened hunk_lines; ok (hunk ∷ [])
read_hunks opened hunk_lines (line ∷ lines) = elim (starts_with line (codes "@@")) [
  | true ↦ do
    hunk ← close_hunk opened hunk_lines
    header ← open_hunk line
    hunks ← read_hunks header [] lines
    ok (hunk ∷ hunks)
  | false ↦ do parsed ← parse_line line; read_hunks opened (hunk_lines ++ (parsed ∷ [])) lines
]

unfoldable pub parse_hunks : List Text → Result FeedbackError (List Hunk)
unfolding open_hunk read_hunks
parse_hunks [] = err (malformed_patch (codes "patch has no hunks"))
parse_hunks (header ∷ lines) = do opened ← open_hunk header; read_hunks opened [] lines

unfoldable pub parse_unified_patch : Text → Result FeedbackError ParsedPatch
unfolding split_on next_with text_eq validate_relative_path parse_hunks
parse_unified_patch source = do
  let lines = split_on 0xa source
  old_path ←
      ok_or (next_with (codes "--- a/") lines) (malformed_patch (codes "missing old-file header"))
  new_path ←
      ok_or (next_with (codes "+++ b/") (behind lines))
        (malformed_patch (codes "missing new-file header"))
  reject_if (not (text_eq old_path new_path))
      (malformed_patch (codes "old and new paths must match"))
  validate_relative_path old_path
  hunks ← parse_hunks (behind (behind lines))
  ok record { path = old_path; hunks = hunks }
