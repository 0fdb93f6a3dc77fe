-- ===== src/Workspace/Rebased.antt =====
-- What the push of a rebase waits for.
use pi_tools.Common.{
  ◌≡◌, refl, sym, ap, inl, inr, arith, Bool, true, false, not, List, [], ◌∷◌, ◌++◌, map, Bool-cases,
  Result, reject_if-ok,
}
use mathlib.Core.Path.{subst}
use pi_tools.Text.{Text, codes, text_eq}
use pi_tools.Text.Search.{trim}
use pi_tools.Policy.{ValidationCommand}
use pi_tools.Workspace.{WorkspaceError, RepositoryWorkspace, Environment, World, Run}
use pi_tools.Workspace.Calls.{run_result, file_of, first_word}
use pi_tools.Workspace.Snapshot.{validate_all}
use pi_tools.Workspace.Rebase.{
  ls_remote_argv, expect_remote_head, run_rebase, force_needed, push_rebased, rebased_to,
  rebase_onto, ignoring,
}
use pi_tools.Workspace.Steps.{
  is_push_argv, Test, guarded, Meets, Quiet, weaken, done-Quiet, check-Steps, check-then,
  bind-Quiet, bind-Steps,
}
use pi_tools.Workspace.Steps.Calls.{
  is_remote_head, is_passed, is_clean, texts_eq_self, ensure-Quiet, run_in-Quiet, run_result-Ran,
  ensure_clean-Meets, Succeeded, of_run-met, OnOk-Unit,
}
use pi_tools.Workspace.Steps.Validation.{prepare_validation_snapshot-Root, validate_all-Meets}
use pi_tools.Workspace.Steps.Guards.{
  Guards, result-Guards, bind-Guards, skip-Guards, check-Guards, ensure-Guards, check-Pushes,
  run-Pushes, quiet-Guards,
}

module _ (ws : RepositoryWorkspace) (branch expected_head_sha : Text)
    (commands : List ValidationCommand) where
  abbrev tests_passed : List Test
  tests_passed = map (is_passed (file_of ws.root (codes "validation"))) commands

  -- Each command has passed in its sandbox, and before the rebase the remote branch had the expected head
  -- and the worktree was clean.
  abbrev pub rebasable : List Test
  rebasable = tests_passed ++ (is_remote_head branch expected_head_sha ∷ is_clean ∷ [])

  module _ {E : Environment} where
    run_result-Quiet :
        (command : List Text)
        → is_push_argv command ≡ false
        → Quiet (run_result {E = E} ws ws.repository_root command)
    run_result-Quiet command quiet =
        weaken _ _ (λ r new s. tt) (run_result-Ran ws ws.repository_root command quiet)

    ignoring-Quiet :
        {A B : Type 0} {m : Run E A} (answer : Result WorkspaceError B)
        → Quiet m
        → Quiet (ignoring m answer)
    unfolding ignoring
    ignoring-Quiet answer quiet = record {
      at =
          λ w. let (new, log, no_push, u) = quiet.at w in (new, log, no_push, OnOk-Unit answer new);
    }

    expect_remote_head-Meets :
        Meets
          (expect_remote_head {E = E} ws branch expected_head_sha)
          (is_remote_head branch expected_head_sha ∷ [])
    unfolding expect_remote_head is_push_argv is_remote_head
    expect_remote_head-Meets =
        bind-Steps (Succeeded ws.repository_root (ls_remote_argv branch)) _
          (run_result-Ran ws ws.repository_root (ls_remote_argv branch) refl)
          (λ r old s. check-then _ _ (λ v ran_well. check-Steps _ _ (λ v' seen.
            let good : not r.success ≡ false = reject_if-ok _ _ ran_well in
            let head : not (text_eq (first_word r.stdout) expected_head_sha) ≡ false =
              reject_if-ok _ _ seen in
            of_run-met _ ws.repository_root (ls_remote_argv branch) r [] old s
              (λ raw success stdout.
                rw (texts_eq_self (ls_remote_argv branch))
                  (rw (success, stdout) (ground (arith, good, head)))))))

    run_rebase-Quiet : (target_branch : Text) → Quiet (run_rebase {E = E} ws branch target_branch)
    unfolding run_rebase is_push_argv
    run_rebase-Quiet target_branch = bind-Quiet (run_result-Quiet _ refl) (λ r.
        elim (Bool-cases r.success) [
          | inl good ↦ rw good (done-Quiet tt)
          | inr bad ↦ rw bad (ignoring-Quiet _ (run_result-Quiet _ refl))
        ])

    force_needed-Quiet :
        (target_branch after : Text) (allow_force_push : Bool)
        → Quiet
            (force_needed {E = E} ws branch target_branch expected_head_sha after allow_force_push)
    unfolding force_needed is_push_argv
    force_needed-Quiet target_branch after allow_force_push =
        bind-Quiet (run_result-Quiet _ refl) (λ r. check-then _ _ (λ u h. done-Quiet _))

    push_rebased-Guards :
        (target_branch after : Text) (allow_force_push : Bool)
        → Guards {E = E} rebasable
            (is_remote_head branch expected_head_sha ∷ is_clean ∷ [])
            (push_rebased ws branch target_branch expected_head_sha allow_force_push commands after)
    unfolding push_rebased
    push_rebased-Guards target_branch after allow_force_push =
        result-Guards _ _ []
          (weaken _ _ (λ a new h. (refl, h)) (prepare_validation_snapshot-Root ws []))
          (λ root at_root.
            bind-Guards _ tests_passed
              (subst (λ r. Meets (validate_all {E = E} r commands) tests_passed) (sym at_root)
                (validate_all-Meets (file_of ws.root (codes "validation")) commands))
              (λ u.
                skip-Guards _ (force_needed-Quiet target_branch after allow_force_push)
                  (λ force_pushed. ensure-Guards _ (λ u1.
                    check-Pushes _ _ (λ argv h.
                      run-Pushes _ ws ws.repository_root argv (λ pushed. done-Quiet _))))))

    -- In the log that a rebase leaves, where it began with an empty one, each push stands directly behind a
    -- check that found the lease held, and behind the findings that the worktree was clean, that the remote
    -- branch had the expected head, and that each configured command passed in the sandbox.
    pub rebase_onto-guarded :
        (target_branch : Text) (allow_force_push : Bool) (w : World E)
        → w.log ≡ []
        → guarded rebasable
            (rebase_onto ws branch target_branch expected_head_sha allow_force_push commands
              w).0.log
          ≡ true
    unfolding rebase_onto rebased_to is_push_argv guarded
    rebase_onto-guarded target_branch allow_force_push w fresh =
        let g : Guards {E = E} rebasable []
            (rebase_onto ws branch target_branch expected_head_sha allow_force_push commands) =
          check-Guards _ _ (λ u h. check-Guards _ _ (λ u1 h1. check-Guards _ _ (λ u2 h2.
            check-Guards _ _ (λ u3 h3. bind-Guards _ (is_clean ∷ []) (ensure_clean-Meets ws) (λ u4.
              skip-Guards _ ensure-Quiet (λ u5.
                bind-Guards _ (is_remote_head branch expected_head_sha ∷ [])
                  expect_remote_head-Meets
                  (λ u6. skip-Guards _ ensure-Quiet (λ u7.
                    skip-Guards _ (run_in-Quiet ws ws.repository_root _ refl) (λ fetched.
                      skip-Guards _ ensure-Quiet (λ u8.
                        skip-Guards _ (run_in-Quiet ws ws.repository_root _ refl) (λ named.
                          skip-Guards _ ensure-Quiet (λ u9.
                            skip-Guards _ (run_in-Quiet ws ws.repository_root _ refl) (λ mailed.
                              skip-Guards _ (run_rebase-Quiet target_branch) (λ v.
                                skip-Guards _ ensure-Quiet (λ v1.
                                  skip-Guards _ (run_in-Quiet ws ws.repository_root _ refl) (λ head.
                                    elim (Bool-cases
                                      (text_eq (trim head.stdout) expected_head_sha)) [
                                        | inl same ↦ rw same (quiet-Guards _ (done-Quiet _))
                                        | inr new ↦
                                            rw new
                                              (push_rebased-Guards target_branch _ allow_force_push)
                                      ])))))))))))))))) in
        g.at w refl (ap (guarded rebasable) fresh)
