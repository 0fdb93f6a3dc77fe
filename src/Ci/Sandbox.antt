-- ===== src/Ci/Sandbox.antt =====
-- `validation_sandbox_argv` of src/ci.rs: the command line that runs a validation in its sandbox.
use pi_tools.Common.{
  ℕ, ◌≡◌, refl, true, false, not, ◌||◌, List, [], ◌∷◌, ◌++◌, map, arith, ◌==◌, if◌then◌else◌,
  or_parts, is_empty, any, Result, ok, err, ◌>>◌, reject_if, >>=-eq-ok, reject_if-ok, ok-injective,
}
use pi_tools.Text.{Text, codes, text_eq, contains_any}
use pi_tools.Paths.{is_absolute}
use pi_tools.Ci.{CiError, empty_command, unsafe_command, invalid_worktree}

abbrev pub before_worktree : List Text
before_worktree = map codes (
    "/usr/bin/bwrap" ∷ "--die-with-parent" ∷ "--unshare-all" ∷ "--new-session" ∷ "--tmpfs" ∷ "/"
    ∷ "--dir" ∷ "/usr" ∷ "--ro-bind" ∷ "/usr" ∷ "/usr" ∷ "--symlink" ∷ "usr/bin" ∷ "/bin"
    ∷ "--symlink" ∷ "usr/sbin" ∷ "/sbin" ∷ "--dir" ∷ "/lib" ∷ "--ro-bind" ∷ "/lib" ∷ "/lib"
    ∷ "--dir" ∷ "/lib64" ∷ "--ro-bind" ∷ "/lib64" ∷ "/lib64" ∷ "--dir" ∷ "/etc" ∷ "--ro-bind"
    ∷ "/etc" ∷ "/etc" ∷ "--dev" ∷ "/dev" ∷ "--proc" ∷ "/proc" ∷ "--tmpfs" ∷ "/tmp" ∷ "--dir"
    ∷ "/tmp/home" ∷ "--dir" ∷ "/workspace" ∷ "--bind" ∷ [])

abbrev pub behind_worktree : List Text
behind_worktree = map codes (
    "/workspace" ∷ "--chdir" ∷ "/workspace" ∷ "--setenv" ∷ "CI" ∷ "1" ∷ "--setenv" ∷ "HOME"
    ∷ "/tmp/home" ∷ "--setenv" ∷ "TMPDIR" ∷ "/tmp" ∷ "--setenv" ∷ "PATH"
    ∷ "/usr/local/sbin:/usr/local/bin:/usr/sbin:/usr/bin:/sbin:/bin" ∷ "--setenv"
    ∷ "GIT_TERMINAL_PROMPT" ∷ "0" ∷ "--setenv" ∷ "GIT_CONFIG_NOSYSTEM" ∷ "1" ∷ "--unshare-net"
    ∷ "--" ∷ [])

abbrev pub unsafe_characters : List ℕ
unsafe_characters = 0 ∷ 0xd ∷ 0xa ∷ []

unfoldable pub validation_sandbox_argv : Text → List Text → Result CiError (List Text)
unfolding is_absolute
validation_sandbox_argv worktree [] =
    if not (is_absolute worktree) || (is_empty worktree || contains_any unsafe_characters worktree)
    then err (invalid_worktree worktree)
    else err empty_command
validation_sandbox_argv worktree (program ∷ arguments) = do
  reject_if
      (not (is_absolute worktree) || (is_empty worktree || contains_any unsafe_characters worktree))
      (invalid_worktree worktree)
  reject_if (any (contains_any unsafe_characters) (program ∷ arguments)) unsafe_command
  ok (before_worktree ++ worktree ∷ behind_worktree ++ program ∷ arguments)

-- What bubblewrap runs: its options end at the first "--".
unfoldable pub behind_separator : List Text → List Text
unfolding text_eq
behind_separator [] = []
behind_separator (argument ∷ arguments) =
    let rest = behind_separator arguments in
    if text_eq argument (codes "--") then arguments else rest

text_eq_absolute :
    (c : ℕ) (s t : Text) → (c == b'-') ≡ true → is_absolute s ≡ true → text_eq s (c ∷ t) ≡ false
unfolding is_absolute text_eq
text_eq_absolute c [] t d h = refl
text_eq_absolute c (x ∷ s) t d h = ground arith

-- What is said behind the worktree.
behind_worktree-behind :
    (worktree : Text) (rest : List Text)
    → is_absolute worktree ≡ true
    → behind_separator (before_worktree ++ worktree ∷ behind_worktree ++ rest) ≡ rest
unfolding behind_separator text_eq
behind_worktree-behind worktree rest h = rw (text_eq_absolute b'-' worktree (b'-' ∷ []) refl h) refl

pub sandboxed :
    (worktree program : Text) (arguments argv : List Text)
    → validation_sandbox_argv worktree (program ∷ arguments) ≡ ok argv
    → (before_worktree ++ worktree ∷ behind_worktree ++ program ∷ arguments ≡ argv)
      × (is_absolute worktree ≡ true)
      × (any (contains_any unsafe_characters) (worktree ∷ program ∷ arguments) ≡ false)
unfolding validation_sandbox_argv
sandboxed worktree program arguments argv h =
    let place =
      not (is_absolute worktree)
      || (is_empty worktree || contains_any unsafe_characters worktree) in
    let bad = any (contains_any unsafe_characters) (program ∷ arguments) in
    let (u, good, h1) = >>=-eq-ok (reject_if place (invalid_worktree worktree)) _ h in
    let (v, fine, built) = >>=-eq-ok (reject_if bad unsafe_command) _ h1 in
    let (absolute, rest) = or_parts {a = not (is_absolute worktree)} (reject_if-ok place _ good) in
    let (some_path, clean) = or_parts {a = is_empty worktree} rest in
    (ok-injective _ refl built, ground (arith, absolute), rw clean (reject_if-ok bad _ fine))

-- The sandbox is built only for an absolute worktree, and only if neither it nor an argument of the
-- command contains a zero, a carriage return or a line feed; then bubblewrap runs the command as it was
-- given, behind its own options.
pub validation_sandbox_argv-behind :
    (worktree : Text) (command argv : List Text)
    → validation_sandbox_argv worktree command ≡ ok argv
    → (behind_separator argv ≡ command)
      × (is_absolute worktree ≡ true)
      × (any (contains_any unsafe_characters) (worktree ∷ command) ≡ false)
unfolding validation_sandbox_argv
validation_sandbox_argv-behind worktree [] argv h = ground arith
validation_sandbox_argv-behind worktree (program ∷ arguments) argv h =
    let (built, absolute, clean) = sandboxed worktree program arguments argv h in
    (rw (← built) (behind_worktree-behind worktree (program ∷ arguments) absolute), absolute, clean)
