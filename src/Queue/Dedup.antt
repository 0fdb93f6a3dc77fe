-- ===== src/Queue/Dedup.antt =====
-- `enqueue` joins a request to the job that already covers it.
use pi_tools.Common.{
  ℕ, ◌≡◌, refl, ◌∙◌, inl, inr, true, ◌||◌, none, some, ◌∷◌, arith, Option-cases, find, In, find-In,
  ok,
}
use pi_tools.Queue.Table.{as_database_value, is_succeeded, is_active, Job, Table}
use pi_tools.Queue.Enqueue.{
  JobSpec, JobDeduplicationKey, deduplication_key, has_key, first_by, later, terminal_head_sha,
  new_job, is_active_with, insert_job, repaired, succeeded_job, enqueue,
}
use pi_tools.Queue.Preserve.{first_by-In}
use pi_tools.Json.{Json}
use pi_tools.Text.{Text}
use pi_tools.Text.Laws.{text_eq_self}
use mathlib.Core.Path.{subst}

module _ (print : Json → Text) (spec : JobSpec) where
  abbrev key : JobDeduplicationKey
  key = deduplication_key spec

  -- The job that a request is answered with, in the table that the request leaves.
  pub record Covers (t : Table) (id : ℕ) : Type 0 where
    pub job : Job
    pub row : In job t
    pub named : job.id ≡ id
    pub keyed : has_key key job ≡ true
    pub live : (is_active job.state || is_succeeded job.state) ≡ true

  succeeded_job-In :
      (t : Table) {j : Job}
      → succeeded_job print spec t ≡ some j
      → In j t × (has_key key j ≡ true) × (is_succeeded j.state ≡ true)
  unfolding succeeded_job
  succeeded_job-In t {j} h = elim (Option-cases (terminal_head_sha spec.plan)) [
    | inl e ↦ absurd (ground arith)
    | inr (sha, e) ↦
        let found : first_by later (repaired print key sha) t ≡ some j = ground arith in
        let (m, hit) = first_by-In _ _ t found in (m, ground arith, ground arith)
  ]

  insert_job-Covers :
      (id now : ℕ) (t : Table) {t' : Table} {got : ℕ}
      → insert_job id now spec t ≡ ok (t', got)
      → Covers t' got
  unfolding insert_job
  insert_job-Covers id now t {t'} {got} h = elim (Option-cases (find (is_active_with key) t)) [
    | inr (j, e) ↦
        let (m, hit) = find-In _ t e in
        let same : t ≡ t' = ground arith in
        record {
          job = j;
          row = subst (In j) same m;
          named = ground arith;
          keyed = ground arith;
          live = ground arith;
        }
    | inl e ↦
        let same : (new_job id now spec ∷ t) ≡ t' = ground arith in
        record {
          job = new_job id now spec;
          row = subst (In (new_job id now spec)) same (inl refl);
          named = ground arith;
          keyed = ground (arith, text_eq_self (as_database_value spec.kind));
          live = refl;
        }
  ]

  -- A request that succeeds is answered with a job of its repository, pull request and kind that is
  -- active, or has already succeeded, in the table that the request leaves.
  pub enqueue-Covers :
      (id now : ℕ) (t : Table) {t' : Table} {got : ℕ}
      → enqueue print id now spec t ≡ ok (t', got)
      → Covers t' got
  unfolding enqueue
  enqueue-Covers id now t {t'} {got} h = elim (Option-cases (succeeded_job print spec t)) [
    | inl e ↦ insert_job-Covers id now t (rw (e, enqueue) at h)
    | inr (j, e) ↦
        let (m, keyed, over) = succeeded_job-In t e in
        let same : t ≡ t' = ground arith in
        record {
          job = j;
          row = subst (In j) same m;
          named = ground arith;
          keyed = keyed;
          live = ground arith;
        }
  ]

  -- The new row is queued, so it cannot be the job that succeeded.
  succeeded_job-new :
      (id now : ℕ) (t : Table)
      → succeeded_job print spec (new_job id now spec ∷ t) ≡ succeeded_job print spec t
  unfolding succeeded_job first_by
  succeeded_job-new id now t = ground arith

  -- A request made twice is answered with the same job, and the second time it changes nothing.
  pub enqueue_idem :
      (id now id' now' : ℕ) (t : Table) {t' : Table} {got : ℕ}
      → enqueue print id now spec t ≡ ok (t', got)
      → enqueue print id' now' spec t' ≡ ok (t', got)
  unfolding enqueue insert_job
  enqueue_idem id now id' now' t {t'} {got} h = elim (Option-cases (succeeded_job print spec t)) [
    | inr (j, e) ↦ let same : t ≡ t' = ground arith in rw (← same) (rw (e, enqueue) (ground arith))
    | inl e ↦ elim (Option-cases (find (is_active_with key) t)) [
      | inr (j, f) ↦
          let same : t ≡ t' = ground arith in
          rw (← same) (rw (e, enqueue) (rw (f, insert_job) (ground arith)))
      | inl f ↦
          let same : (new_job id now spec ∷ t) ≡ t' = ground arith in
          let none_ : succeeded_job print spec (new_job id now spec ∷ t) ≡ none =
            succeeded_job-new id now t ∙ e in
          let hit : is_active_with key (new_job id now spec) ≡ true =
            ground (arith, text_eq_self (as_database_value spec.kind)) in
          rw (← same) (rw (none_, enqueue) (ground (arith, hit)))
    ]
  ]
