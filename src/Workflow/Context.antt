-- ===== src/Workflow/Context.antt =====
-- What the lookup of a Check Run (`control_context` of src/repository.rs) depends on.
use pi_tools.Common.{
  ℕ, ◌≡◌, refl, sym, ◌∙◌, ◌⊎◌, inl, inr, Bool, true, false, none, some, List, [], ◌∷◌, Bool-cases,
  find, map,
}
use mathlib.Core.Path.{ap₂}
use pi_tools.Queue.Table.{Job, Table, update_row, update}
use pi_tools.Queue.Invariant.{Keeps, row_identity}
use pi_tools.Repositories.{
  Tables, PullRequestRow, RepositoryRow, InstallationRow, control_context, context_of,
  repository_of, is_linked,
}
use pi_tools.Workflow.Effect.{Update}

-- What the lookup of a Check Run reads beside the jobs.
abbrev pub Rest : Type 0
Rest = List (ℕ × ℕ) × List PullRequestRow × List RepositoryRow × List InstallationRow

abbrev pub rest : Tables → Rest
rest w = (w.check_runs, w.pull_requests, w.repositories, w.installations)

abbrev pub with_rest : Rest → Table → Tables
with_rest (check_runs, pull_requests, repositories, installations) jobs = record {
  jobs = jobs;
  check_runs = check_runs;
  pull_requests = pull_requests;
  repositories = repositories;
  installations = installations;
  controls = [];
  audit = [];
}

pub control_context-rest :
    (check_run_id : ℕ) (w : Tables)
    → control_context check_run_id w ≡ control_context check_run_id (with_rest (rest w) w.jobs)
unfolding control_context context_of repository_of
control_context-rest check_run_id w = refl

find-map :
    {A : Type 0} (p : A → Bool) (f : A → A) (xs : List A)
    → ((x : A) → p (f x) ≡ p x)
    → ((find p xs ≡ none) × (find p (map f xs) ≡ none))
      ⊎ (x : A) × (find p xs ≡ some x) × (find p (map f xs) ≡ some (f x))
find-map p f [] same = inl (refl, refl)
find-map p f (x ∷ xs) same = elim (Bool-cases (p x)) [
  | inl hit ↦ let hit' : p (f x) ≡ true = same x ∙ hit in inr (x, rw hit refl, rw hit' refl)
  | inr miss ↦
      let miss' : p (f x) ≡ false = same x ∙ miss in rw (miss, miss') (find-map p f xs same)
]

module _ (check_run_id : ℕ) (w : Tables) where
  control_context-found :
      (j : Job)
      → find (is_linked w check_run_id) w.jobs ≡ some j
      → control_context check_run_id w ≡ context_of w j.id j.repository_id j.pull_request_number
  unfolding control_context
  control_context-found j e = rw (control_context, e) refl

  control_context-none :
      find (is_linked w check_run_id) w.jobs ≡ none → control_context check_run_id w ≡ none
  unfolding control_context
  control_context-none e = rw (control_context, e) refl

module _ (check_run_id : ℕ) (w : Tables) {selects : Job → Bool} {change : Job → Job}
    (k : Keeps selects change) where
  abbrev after : Tables
  after = record w { jobs = update selects change w.jobs }

  context_of-update : (a b c : ℕ) → context_of after a b c ≡ context_of w a b c
  unfolding context_of repository_of
  context_of-update a b c = refl

  control_context-update : control_context check_run_id after ≡ control_context check_run_id w
  unfolding update
  control_context-update =
      elim (find-map (is_linked w check_run_id) (update_row selects change) w.jobs
        (λ j. rw (row_identity k j).id refl)) [
          | inl (before, later) ↦
              control_context-none check_run_id after later
              ∙ sym (control_context-none check_run_id w before)
          | inr (j, before, later) ↦
              let same = row_identity k j in
              control_context-found check_run_id after _ later
              ∙ rw (same.id, same.repository, same.number) (context_of-update _ _ _)
              ∙ sym (control_context-found check_run_id w j before)
        ]

pub Update-control_context :
    (check_run_id : ℕ) (w w' : Tables)
    → rest w' ≡ rest w
    → Update w.jobs w'.jobs
    → control_context check_run_id w' ≡ control_context check_run_id w
Update-control_context check_run_id w w' same u =
    control_context-rest check_run_id w'
    ∙ ap₂ (λ r t. control_context check_run_id (with_rest r t)) same u.result
    ∙ sym (control_context-rest check_run_id (record w { jobs = update u.selects u.change w.jobs }))
    ∙ control_context-update check_run_id w u.keeps
