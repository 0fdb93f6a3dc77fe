-- ===== src/Workspace/Tests.antt =====
-- The three repairs in a workspace where every command that reaches git succeeds.
use pi_tools.Common.{
  ◌≡◌, refl, Bool, true, false, none, some, List, [], ◌∷◌, ◌++◌, if◌then◌else◌, ok, err, any,
}
use pi_tools.Text.{Text, codes, text_eq}
use pi_tools.Paths.{root_dir, normal}
use pi_tools.Policy.{ValidationCommand, cargo_test}
use pi_tools.Ci.{message, unsafe_command}
use pi_tools.Ci.Bounded.{Finished, validate_argv}
use pi_tools.Ci.Patch.{CiPatch}
use pi_tools.Feedback.Files.{FileSystem, PathBuf, regular, directory, path_eq}
use pi_tools.Feedback.Repair.{Feedback}
use pi_tools.Workspace.{RepositoryWorkspace, Environment, World, ci_error, ◌>>=◌, check, done}
use pi_tools.Workspace.Calls.{spawned, bounded_input, ensure, call_touch, call_look}
use pi_tools.Workspace.Repairs.{patch_call, apply_ci_repair, apply_feedback}
use pi_tools.Workspace.Rebase.{rebase_onto}
use pi_tools.Workspace.Steps.{guarded, is_push}
use pi_tools.Workspace.Steps.Calls.{is_remote_head}
use pi_tools.Workspace.Refused.{Refused, apply_ci_repair-Refused, apply_feedback-Refused}
use pi_tools.Workspace.Rebased.{rebasable, rebase_onto-guarded}

abbrev only_file : PathBuf
only_file = root_dir ∷ normal (codes "w") ∷ normal (codes "repo") ∷ normal (codes "a") ∷ []

unfoldable is_only_file : PathBuf → Bool
unfolding path_eq
is_only_file p = path_eq p only_file

abbrev one_file : FileSystem
one_file = record {
  State = Text;
  canonicalize = λ s p. ok p;
  symlink_metadata = λ s p. ok (if is_only_file p then regular else directory);
  metadata = λ s p. ok (if is_only_file p then regular else directory);
  read_to_string = λ s p. if is_only_file p then ok s else err (codes "not found");
  write = λ s p text. if is_only_file p then (text, ok tt) else (s, err (codes "not found"));
}

abbrev old_head : Text
old_head = codes "abcdef0"

unfoldable has : Text → List Text → Bool
unfolding text_eq
has word = any (text_eq word)

-- What git prints.
unfoldable printed : List Text → Text
unfolding has
printed argv =
    if has (codes "ls-remote") argv
    then old_head ++ codes " refs/heads/b"
    else if has (codes "rev-parse") argv
    then codes "abcdef1" ++ (0xa ∷ [])
    else if has (codes "--cached") argv
    then (if has (codes "--name-only") argv then codes "a" ++ (0xa ∷ []) else [])
    else []

abbrev succeeding : List Text → Finished
succeeding argv = record { success = true; stdout = printed argv; stderr = [] }

abbrev environment : Environment
environment = record {
  files = one_file;
  meanwhile = λ s. s;
  afterwards = λ s. s;
  assert_lease = λ s. (s, ok true);
  run_child = λ s directory argv e input. (s, ok (succeeding argv));
  from_utf8_lossy = λ bytes. bytes;
  touch = λ s c. (s, ok tt);
  symlink_metadata = λ s path. ok (some regular);
}

abbrev ws : RepositoryWorkspace
ws = record {
  root = codes "/w";
  repository_root = codes "/w/repo";
  askpass = codes "/bin/pitools";
  remote_url = codes "https://github.com/o/r.git";
  username = codes "x-access-token";
  password = codes "secret";
}

abbrev start : World environment
start = record { state = codes "a" ++ (0xa ∷ codes "b" ++ (0xa ∷ [])); log = [] }

abbrev commands : List ValidationCommand
commands = cargo_test ∷ []

abbrev patch : CiPatch
patch = record {
  path = codes "a";
  unified_diff =
      codes "--- a/a"
      ++ (0xa ∷ codes "+++ b/a"
          ++ (0xa ∷ codes "@@ -1 +1 @@" ++ (0xa ∷ codes "-a" ++ (0xa ∷ codes "+c"))));
}

-- The commit is refused, although everything before it has succeeded.
repaired :
    (apply_ci_repair {E = environment} ws
      (codes "7")
      (patch ∷ [])
      (codes "a" ∷ [])
      (codes "b")
      old_head
      commands
      start).1
    ≡ err (ci_error (message unsafe_command))
unfolding apply_ci_repair printed ◌>>=◌ check done ensure patch_call call_touch call_look
    bounded_input spawned validate_argv
repaired = refl

-- It had come as far as the head of the remote branch.
reaches_head :
    any
      (is_remote_head (codes "b") old_head)
      (apply_ci_repair {E = environment} ws
        (codes "7")
        (patch ∷ [])
        (codes "a" ∷ [])
        (codes "b")
        old_head
        commands
        start).0.log
    ≡ true
unfolding apply_ci_repair printed ◌>>=◌ check done ensure patch_call call_touch call_look
    bounded_input spawned validate_argv is_remote_head
reaches_head = refl

apply_ci_repair-Refused_example : Refused {E = environment} ws start (
    apply_ci_repair {E = environment} ws
      (codes "7")
      (patch ∷ [])
      (codes "a" ∷ [])
      (codes "b")
      old_head
      commands
      start)
apply_ci_repair-Refused_example =
    apply_ci_repair-Refused ws (codes "7") (patch ∷ []) (codes "a" ∷ []) (codes "b") old_head
      commands start

abbrev suggestion : Feedback
suggestion = record {
  actor_login = codes "bot";
  actor_type = codes "Bot";
  is_automation = true;
  body = codes "```suggestion" ++ (0xa ∷ codes "x" ++ (0xa ∷ codes "```"));
  path = some (codes "a");
  start_line = none;
  line = some 2;
}

applied :
    (apply_feedback {E = environment} ws
      (codes "7")
      (codes "bot" ∷ [])
      suggestion
      (codes "b")
      old_head
      commands
      start).1
    ≡ err (ci_error (message unsafe_command))
unfolding apply_feedback printed is_only_file ◌>>=◌ check done ensure call_touch call_look
    bounded_input spawned validate_argv
applied = refl

apply_feedback-Refused_example : Refused {E = environment} ws start (
    apply_feedback {E = environment} ws
      (codes "7")
      (codes "bot" ∷ [])
      suggestion
      (codes "b")
      old_head
      commands
      start)
apply_feedback-Refused_example =
    apply_feedback-Refused ws (codes "7") (codes "bot" ∷ []) suggestion (codes "b") old_head
      commands start

rebase_onto-guarded_example :
    guarded
      (rebasable ws (codes "b") old_head commands)
      (rebase_onto {E = environment} ws
        (codes "b")
        (codes "main")
        old_head
        false
        commands
        start).0.log
    ≡ true
rebase_onto-guarded_example =
    rebase_onto-guarded ws (codes "b") old_head commands (codes "main") false start refl

pushes :
    any is_push
      (rebase_onto {E = environment} ws
        (codes "b")
        (codes "main")
        old_head
        false
        commands
        start).0.log
    ≡ true
unfolding rebase_onto printed bounded_input spawned validate_argv ◌>>=◌ check done ensure call_touch
    call_look is_push
pushes = refl
