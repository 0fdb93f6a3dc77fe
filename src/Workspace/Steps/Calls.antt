-- ===== src/Workspace/Steps/Calls.antt =====
-- What the shared parts of the repairs add to the log.
use pi_tools.Common.{
  ◌≡◌, refl, arith, Bool, true, false, not, ◌&&◌, none, some, List, [], ◌∷◌, ◌++◌, Result, err, ok,
  reject_if-ok, >>=-eq-ok, ok-injective,
}
use mathlib.Core.Path.{subst}
use pi_tools.Text.{Text, codes, text_eq, is_blank}
use pi_tools.Text.Laws.{text_eq_self}
use pi_tools.Policy.{ValidationCommand, argv}
use pi_tools.Ci.Bounded.{finished, printed}
use pi_tools.Ci.Sandbox.{validation_sandbox_argv}
use pi_tools.Workspace.{
  CommandResult, WorkspaceError, RepositoryWorkspace, FileCall, Event, checked_lease, ran,
  ran_with_input, repaired, touched, looked_at, Environment,
}
use pi_tools.Workspace.Checks.{validate_sha, validate_branch, texts_eq, remote_head_argv}
use pi_tools.Workspace.Calls.{
  call_touch, call_look, spawned, bounded_input, bounded, ensure, run_result, run_in, ensure_clean,
  ensure_remote_head, ensure_staged_paths, first_word, or_error,
}
use pi_tools.Workspace.Rebase.{ls_remote_argv}
use pi_tools.Workspace.Steps.{
  is_push_argv, is_push, Test, met, met-later, OnOk, Steps, Quiet, Meets, done-Steps, check-Steps,
  check-then, check-Quiet, weaken, bind-Steps, bind-Quiet,
}

pub texts_eq_self : (ts : List Text) → texts_eq ts ts ≡ true
unfolding texts_eq
texts_eq_self [] = refl
texts_eq_self (t ∷ ts) = rw (text_eq_self t) (texts_eq_self ts)

-- A test on the commands that were run and answered.
abbrev pub of_run : (List Text → CommandResult → Bool) → Test
of_run t (ran directory argv (ok result)) = t argv result
of_run t (ran directory argv (err text)) = false
of_run t (checked_lease answer) = false
of_run t (ran_with_input argv input answer) = false
of_run t (repaired answer) = false
of_run t (touched c answer) = false
of_run t (looked_at path answer) = false

-- The branch was seen to have this head on the remote.
unfoldable pub is_remote_head : Text → Text → Test
unfolding texts_eq text_eq
is_remote_head branch sha = of_run (λ argv r.
    texts_eq argv (ls_remote_argv branch) && (r.success && text_eq (first_word r.stdout) sha))

abbrev status_argv : List Text
status_argv =
    codes "git" ∷ codes "status" ∷ codes "--porcelain=v1" ∷ codes "--untracked-files=all" ∷ []

-- The worktree was seen without changes.
unfoldable pub is_clean : Test
unfolding texts_eq
is_clean = of_run (λ argv r. texts_eq argv status_argv && (r.success && is_blank r.stdout))

-- The command succeeded in its sandbox.
unfoldable pub is_command : Text → ValidationCommand → List Text → Bool
unfolding validation_sandbox_argv texts_eq
is_command root command given = elim (validation_sandbox_argv root (argv command)) [
  | ok sandbox_argv ↦ texts_eq given sandbox_argv
  | err e ↦ false
]

unfoldable pub is_passed : Text → ValidationCommand → Test
unfolding is_command
is_passed root command = of_run (λ given r. r.success && is_command root command given)

pub OnOk-Unit :
    {A : Type 0} (r : Result WorkspaceError A) (new : List Event) → OnOk (λ a n. Unit {0}) r new
OnOk-Unit (err e) new = tt
OnOk-Unit (ok a) new = tt

OnOk-ran :
    (directory : Text) (command : List Text) (wrap : Text → WorkspaceError)
    (answer : Result Text CommandResult)
    → OnOk
        (λ r new. new ≡ ran directory command (ok r) ∷ [])
        (or_error wrap answer)
        (ran directory command answer ∷ [])
OnOk-ran directory command wrap (err text) = tt
OnOk-ran directory command wrap (ok r) = refl

-- The event of a command that succeeded.
abbrev pub Succeeded : Text → List Text → CommandResult → List Event → Type 0
Succeeded directory command r new =
    (raw : CommandResult) × (new ≡ ran directory command (ok raw) ∷ [])
    × (raw.success ≡ r.success)
    × (raw.stdout ≡ r.stdout)

-- A test that the event of a command meets was met by the log that holds it.
pub of_run-met :
    (t : List Text → CommandResult → Bool) (directory : Text) (command : List Text)
    (r : CommandResult) (new old : List Event)
    → Succeeded directory command r old
    → ((raw : CommandResult)
        → raw.success ≡ r.success
        → raw.stdout ≡ r.stdout
        → t command raw ≡ true)
    → met (of_run t ∷ []) (new ++ old) ≡ true
of_run-met t directory command r new old (raw, event, success, stdout) meets =
    let hit = meets raw success stdout in met-later (of_run t ∷ []) new old (rw event (rw hit refl))

remote_head_argv-ok :
    (branch : Text) (argv : List Text)
    → remote_head_argv branch ≡ ok argv
    → ls_remote_argv branch ≡ argv
unfolding remote_head_argv
remote_head_argv-ok branch argv h =
    let (u, e, rest) = >>=-eq-ok (validate_branch branch) _ h in ok-injective _ refl rest

module _ {E : Environment} where
  pub call_touch-Quiet : (c : FileCall) → Quiet (call_touch {E = E} c)
  unfolding is_push call_touch
  call_touch-Quiet c = record {
    at = λ w. (touched c (E.touch w.state c).1 ∷ [], refl, refl, OnOk-Unit _ _);
  }

  pub call_look-Quiet : (path : Text) → Quiet (call_look {E = E} path)
  unfolding is_push call_look
  call_look-Quiet path = record {
    at = λ w. (looked_at path (E.symlink_metadata w.state path) ∷ [], refl, refl, OnOk-Unit _ _);
  }

  pub ensure-Quiet : Quiet (ensure {E = E})
  unfolding is_push ensure
  ensure-Quiet = record {
    at = λ w. (checked_lease (E.assert_lease w.state).1 ∷ [], refl, refl, OnOk-Unit _ _);
  }

  spawned-Ran :
      (directory : Text) (command : List Text) (environment : List (Text × Text))
      → is_push_argv command ≡ false
      → Steps
          (spawned {E = E} directory command environment none)
          (λ r new. new ≡ ran directory command (ok r) ∷ [])
  unfolding is_push spawned
  spawned-Ran directory command environment quiet = record {
    at = λ w.
        let left = (E.run_child w.state directory command environment none).1 in
        let answer = printed (finished E.from_utf8_lossy command left) in
        (
          ran directory command answer ∷ [],
          refl,
          rw quiet refl,
          OnOk-ran directory command _ answer,
        );
  }

  pub bounded-Ran :
      (directory : Text) (command : List Text) (environment : List (Text × Text))
      → is_push_argv command ≡ false
      → Steps
          (bounded {E = E} directory command environment)
          (λ r new. new ≡ ran directory command (ok r) ∷ [])
  unfolding bounded_input
  bounded-Ran directory command environment quiet =
      check-then _ _ (λ u h. spawned-Ran directory command environment quiet)

  -- With an input a command pushes nothing.
  pub bounded_input-Quiet :
      (directory : Text) (command : List Text) (environment : List (Text × Text)) (input : Text)
      → Quiet (bounded_input {E = E} directory command environment (some input))
  unfolding is_push bounded_input spawned
  bounded_input-Quiet directory command environment input =
      check-then _ _ (λ u h. record {
        at = λ w. (ran_with_input command input _ ∷ [], refl, refl, OnOk-Unit _ _);
      })

  module _ (ws : RepositoryWorkspace) where
    pub run_result-Ran :
        (directory : Text) (command : List Text)
        → is_push_argv command ≡ false
        → Steps (run_result {E = E} ws directory command) (Succeeded directory command)
    unfolding run_result
    run_result-Ran directory command quiet =
        bind-Steps (λ r new. new ≡ ran directory command (ok r) ∷ []) (Succeeded directory command)
          (bounded-Ran directory command _ quiet) (λ raw old e. done-Steps _ _ (raw, e, refl, refl))

    pub run_in-Ran :
        (directory : Text) (command : List Text)
        → is_push_argv command ≡ false
        → Steps
            (run_in {E = E} ws directory command)
            (λ r new. Succeeded directory command r new × (r.success ≡ true))
    unfolding run_in
    run_in-Ran directory command quiet =
        bind-Steps (Succeeded directory command)
          (λ r new. Succeeded directory command r new × (r.success ≡ true))
          (run_result-Ran directory command quiet)
          (λ r old s. check-then _ _ (λ u h.
            let checked : not r.success ≡ false = reject_if-ok _ _ h in
            done-Steps _ _ (s, ground (arith, checked))))

    pub run_in-Quiet :
        (directory : Text) (command : List Text)
        → is_push_argv command ≡ false
        → Quiet (run_in {E = E} ws directory command)
    run_in-Quiet directory command quiet =
        weaken _ (λ r new. Unit) (λ r new s. tt) (run_in-Ran directory command quiet)

    pub ensure_clean-Meets : Meets (ensure_clean {E = E} ws) (is_clean ∷ [])
    unfolding ensure_clean is_push_argv is_clean
    ensure_clean-Meets =
        bind-Steps (λ r new. Succeeded ws.repository_root status_argv r new × (r.success ≡ true)) _
          (run_in-Ran ws.repository_root status_argv refl)
          (λ r old s. check-Steps _ _ (λ u h.
            let blank : not (is_blank r.stdout) ≡ false = reject_if-ok _ _ h in
            of_run-met _ ws.repository_root status_argv r [] old s.0 (λ raw success stdout.
              rw (texts_eq_self status_argv) (rw (success, s.1, stdout) (ground (arith, blank))))))

    pub ensure_staged_paths-Quiet :
        (paths : List Text) → Quiet (ensure_staged_paths {E = E} ws paths)
    unfolding ensure_staged_paths is_push_argv
    ensure_staged_paths-Quiet paths = bind-Quiet (run_in-Quiet ws.repository_root _ refl) (λ staged.
        bind-Quiet (check-Quiet _) (λ u.
          bind-Quiet (run_in-Quiet ws.repository_root _ refl) (λ summary.
            bind-Quiet (check-Quiet _) (λ v.
              bind-Quiet (run_in-Quiet ws.repository_root _ refl) (λ unstaged.
                bind-Quiet (check-Quiet _) (λ v'.
                  bind-Quiet (run_in-Quiet ws.repository_root _ refl)
                    (λ untracked. check-Quiet _)))))))

    pub ensure_remote_head-Meets :
        (branch sha : Text)
        → Meets (ensure_remote_head {E = E} ws branch sha) (is_remote_head branch sha ∷ [])
    unfolding ensure_remote_head is_push_argv is_remote_head remote_head_argv
    ensure_remote_head-Meets branch sha = check-then _ (validate_sha sha) (λ u h.
        check-then _ (remote_head_argv branch) (λ argv a.
          let same = remote_head_argv-ok branch argv a in
          bind-Steps (Succeeded ws.repository_root argv) _
            (run_result-Ran ws.repository_root argv (subst (λ l. is_push_argv l ≡ false) same refl))
            (λ r old s. check-then _ _ (λ v ran_well. check-Steps _ _ (λ v' seen.
              let good : not r.success ≡ false = reject_if-ok _ _ ran_well in
              let head : not (text_eq (first_word r.stdout) sha) ≡ false = reject_if-ok _ _ seen in
              of_run-met _ ws.repository_root argv r [] old s (λ raw success stdout. rw (← same) (
                rw (texts_eq_self (ls_remote_argv branch))
                  (rw (success, stdout) (ground (arith, good, head))))))))))
