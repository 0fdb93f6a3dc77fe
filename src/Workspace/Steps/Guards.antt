-- ===== src/Workspace/Steps/Guards.antt =====
-- Which runs keep a guarded log guarded.
use pi_tools.Common.{
  ◌≡◌, refl, ap, ◌∙◌, ◌⊎◌, inl, inr, none, arith, true, false, List, [], ◌∷◌, ◌++◌, Result-cases,
  Result, err, ok,
}
use pi_tools.Text.{Text}
use pi_tools.Workspace.{
  continue, CommandResult, WorkspaceError, RepositoryWorkspace, Event, checked_lease, ran,
  Environment, World, Run, done, check, ◌>>=◌, ◌>>◌,
}
use pi_tools.Ci.Bounded.{validate_argv}
use pi_tools.Workspace.Calls.{
  or_ci_error, spawned, bounded_input, bounded, ensure, run_result, run_in, environment_of,
}
use pi_tools.Workspace.Steps.{
  is_push, Test, met, met-new, met-later, met-append, lease_now, guarded, guarded-append, Adds,
  Steps, Quiet, Meets, weaken,
}

module _ {E : Environment} where
  -- Both runs leave the same log; a silent run leaves it as it was.
  record SameLog {A B : Type 0} (m : Run E A) (n : Run E B) : Type 0 where
    at : (w : World E) → (m w).0.log ≡ (n w).0.log

  record Silent {A : Type 0} (m : Run E A) : Type 0 where
    at : (w : World E) → (m w).0.log ≡ w.log

  done-Silent : {A : Type 0} (a : A) → Silent (done a)
  unfolding done
  done-Silent a = record { at = λ w. refl }

  check-Silent :
      {A B : Type 0} {k : A → Run E B} (r : Result WorkspaceError A)
      → ((a : A) → Silent (k a))
      → Silent (check r >>= k)
  unfolding check ◌>>=◌
  check-Silent (err e) rest = record { at = λ w. refl }
  check-Silent (ok a) rest = record { at = λ w. (rest a).at w }

  check-one :
      {A : Type 0} (r : Result WorkspaceError (Unit {0})) (m : Run E A) (w : World E)
      → (((check r >> m) w).0.log ≡ w.log) ⊎ (((check r >> m) w).0.log ≡ (m w).0.log)
  unfolding check ◌>>=◌
  check-one (err e) m w = inl refl
  check-one (ok u) m w = inr refl

  continue-log :
      {A B : Type 0} (k : A → Run E B) (r : World E × Result WorkspaceError A)
      → ((a : A) → Silent (k a))
      → (continue k r).0.log ≡ r.0.log
  continue-log k (w, err e) silent = refl
  continue-log k (w, ok a) silent = (silent a).at w

  bind-same :
      {A B : Type 0} {m : Run E A} {k : A → Run E B}
      → ((a : A) → Silent (k a))
      → SameLog (m >>= k) m
  unfolding ◌>>=◌
  bind-same {m = m} {k = k} silent = record { at = λ w. continue-log k (m w) silent }

  same_trans :
      {A B C : Type 0} {m : Run E A} {n : Run E B} {l : Run E C}
      → SameLog m n
      → SameLog n l
      → SameLog m l
  same_trans f g = record { at = λ w. f.at w ∙ g.at w }

module _ {E : Environment} (tests : List Test) where
  -- Where these tests were met, the run keeps the log guarded by all tests.
  pub record Guards {A : Type 0} (before : List Test) (m : Run E A) : Type 0 where
    pub at :
        (w : World E)
        → met before w.log ≡ true
        → guarded tests w.log ≡ true
        → guarded tests (m w).0.log ≡ true

  -- Where all tests were met and the lease was just found held, it does as well.
  pub record Pushes {A : Type 0} (m : Run E A) : Type 0 where
    pub at :
        (w : World E)
        → lease_now w.log ≡ true
        → met tests w.log ≡ true
        → guarded tests w.log ≡ true
        → guarded tests (m w).0.log ≡ true

  Adds-guarded :
      {A : Type 0} (Q : A → List Event → Type 0) (w : World E)
      (r : World E × Result WorkspaceError A)
      → Adds Q w r
      → guarded tests w.log ≡ true
      → guarded tests r.0.log ≡ true
  Adds-guarded Q w (after, result) (new, log, quiet, q) g =
      ap (guarded tests) log ∙ guarded-append tests new w.log quiet ∙ g

  pub quiet-Guards :
      {A : Type 0} {Q : A → List Event → Type 0} {m : Run E A} {before : List Test}
      → Steps m Q
      → Guards before m
  quiet-Guards {m = m} steps = record { at = λ w b g. Adds-guarded _ w (m w) (steps.at w) g }

  module _ {A B : Type 0} {k : A → Run E B} (P : A → Type 0) (before more : List Test) where
    continue-guarded :
        (w : World E) (r : World E × Result WorkspaceError A)
        → Adds (λ a new. (met more new ≡ true) × P a) w r
        → ((a : A) → P a → Guards (more ++ before) (k a))
        → met before w.log ≡ true
        → guarded tests w.log ≡ true
        → guarded tests (continue k r).0.log ≡ true
    continue-guarded w (after, err e) (new, log, quiet, q) rest b g =
        ap (guarded tests) log ∙ guarded-append tests new w.log quiet ∙ g
    continue-guarded w (after, ok a) (new, log, quiet, q) rest b g =
        (rest a q.1).at after
          (ap (met (more ++ before)) log
            ∙ met-append more before (new ++ w.log) (met-new more new w.log q.0)
                (met-later before new w.log b))
          (ap (guarded tests) log ∙ guarded-append tests new w.log quiet ∙ g)

  -- What a run meets is met for the rest.
  pub result-Guards :
      {A B : Type 0} {m : Run E A} {k : A → Run E B} {before : List Test} (P : A → Type 0)
      (more : List Test)
      → Steps m (λ a new. (met more new ≡ true) × P a)
      → ((a : A) → P a → Guards (more ++ before) (k a))
      → Guards before (m >>= k)
  unfolding ◌>>=◌
  result-Guards {m = m} {before = before} P more first rest = record {
    at = λ w b g. continue-guarded P before more w (m w) (first.at w) rest b g;
  }

  pub bind-Guards :
      {A B : Type 0} {m : Run E A} {k : A → Run E B} {before : List Test} (more : List Test)
      → Meets m more
      → ((a : A) → Guards (more ++ before) (k a))
      → Guards before (m >>= k)
  bind-Guards more first rest =
      result-Guards (λ a. Unit {0}) more (weaken _ _ (λ a new h. (h, tt)) first) (λ a u. rest a)

  pub skip-Guards :
      {A B : Type 0} {m : Run E A} {k : A → Run E B} {before : List Test}
      → Quiet m
      → ((a : A) → Guards before (k a))
      → Guards before (m >>= k)
  skip-Guards first rest = bind-Guards [] (weaken _ _ (λ a new u. refl) first) rest

  pub check-Guards :
      {A B : Type 0} {k : A → Run E B} {before : List Test} (r : Result WorkspaceError A)
      → ((a : A) → r ≡ ok a → Guards before (k a))
      → Guards before (check r >>= k)
  unfolding check ◌>>=◌
  check-Guards (err e) rest = record { at = λ w b g. g }
  check-Guards (ok a) rest = record { at = λ w b g. (rest a refl).at w b g }

  pub check-Pushes :
      {A B : Type 0} {k : A → Run E B} (r : Result WorkspaceError A)
      → ((a : A) → r ≡ ok a → Pushes (k a))
      → Pushes (check r >>= k)
  unfolding check ◌>>=◌
  check-Pushes (err e) rest = record { at = λ w held m g. g }
  check-Pushes (ok a) rest = record { at = λ w held m g. (rest a refl).at w held m g }

  pub ensure-Guards :
      {B : Type 0} {k : Unit {0} → Run E B}
      → ((u : Unit {0}) → Pushes (k u))
      → Guards tests (ensure >>= k)
  unfolding ensure ◌>>=◌ guarded is_push
  ensure-Guards {k = k} rest = record {
    at = λ w b g. elim (Result-cases (E.assert_lease w.state).1) [
      | inl (text, e) ↦ rw e g
      | inr (false, e) ↦ rw e g
      | inr (true, e) ↦ rw e (
          (rest tt).at
            (record {
              state = (E.assert_lease w.state).0;
              log = checked_lease (E.assert_lease w.state).1 ∷ w.log;
            })
            (rw e refl) (met-later tests (checked_lease (E.assert_lease w.state).1 ∷ []) w.log b) g)
    ];
  }

  continue-Quiet :
      {A B : Type 0} (k : A → Run E B) (r : World E × Result WorkspaceError A)
      → ((a : A) → Quiet (k a))
      → guarded tests r.0.log ≡ true
      → guarded tests (continue k r).0.log ≡ true
  continue-Quiet k (w, err e) quiet g = g
  continue-Quiet k (w, ok a) quiet g = Adds-guarded _ w (k a w) ((quiet a).at w) g

  module _ (ws : RepositoryWorkspace) (directory : Text) (command : List Text) where
    run_in-bounded :
        SameLog
          (run_in {E = E} ws directory command)
          (bounded {E = E} directory command (environment_of ws))
    unfolding run_in run_result
    run_in-bounded =
        same_trans (bind-same (λ r. check-Silent _ (λ u. done-Silent r)))
          (bind-same (λ r. done-Silent _))

    bounded-one :
        (w : World E)
        → ((bounded {E = E} directory command (environment_of ws) w).0.log ≡ w.log)
          ⊎ ((answer : Result Text CommandResult) × ((bounded {E = E} directory command
                  (environment_of ws)
                  w).0.log
                ≡ ran directory command answer ∷ w.log))
    unfolding bounded_input spawned
    bounded-one w =
        elim (check-one (or_ci_error (validate_argv command))
          (spawned {E = E} directory command (environment_of ws) none) w) [
            | inl refused ↦ inl refused
            | inr run ↦ inr (_, run)
          ]

    pub run-Pushes :
        {B : Type 0} {k : CommandResult → Run E B}
        → ((r : CommandResult) → Quiet (k r))
        → Pushes (run_in ws directory command >>= k)
    unfolding ◌>>=◌ guarded
    run-Pushes {k = k} rest = record {
      at = λ w held m g. continue-Quiet k (run_in {E = E} ws directory command w) rest (
          ap (guarded tests) (run_in-bounded.at w) ∙ elim (bounded-one w) [
            | inl refused ↦ ap (guarded tests) refused ∙ g
            | inr (answer, log) ↦
                let after : guarded tests (ran directory command answer ∷ w.log) ≡ true =
                  ground (arith, held, m, g) in
                ap (guarded tests) log ∙ after
          ]);
    }
