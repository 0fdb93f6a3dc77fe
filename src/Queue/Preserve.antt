-- ===== src/Queue/Preserve.antt =====
-- Each statement of src/queue.rs keeps the table well formed.
use pi_tools.Common.{
  ℕ, ◌≡◌, refl, inl, inr, Bool, true, false, not, ◌&&◌, some, [], ◌∷◌, arith, Bool-cases, and_parts,
  Option-cases, any, find, In, find-none, any-weaken, map-congr, Apart-In, ok,
}
use pi_tools.Queue.Table.{has_id, as_database_value, JobState, is_running, Job, Table, update}
use pi_tools.Queue.Enqueue.{
  JobSpec, deduplication_key, first_by, earlier, new_job, is_active_with, insert_job, succeeded_job,
  enqueue,
}
use pi_tools.Queue.Lease.{
  is_exhausted, fail_exhausted, is_leaseable, claim, claim_first, holds, extend_lease, finish,
}
use pi_tools.Queue.Control.{
  is_active_job, cancel, is_skippable, requeue_skipped, wait_for_approval, is_approvable, approve,
}
use pi_tools.Queue.Invariant.{is_cancelled, same_id, Inv, Keeps, same_id_symm, update-Inv}
use pi_tools.Json.{Json}
use pi_tools.Text.{Text}
use pi_tools.Text.Laws.{text_eq_iff}
use mathlib.Core.Path.{subst}

module _ (job_id : ℕ) (worker_id : Text) (held now : ℕ) where
  pub extend_lease-Keeps : Keeps (holds job_id worker_id held now) (extend_lease now)
  extend_lease-Keeps = record {
    valid = λ j h v. ground arith;
    active = λ j h. ground arith;
    identity = λ j. ground arith;
  }

  pub finish-Keeps :
      (s : JobState) (value : Json)
      → is_running s ≡ false
      → is_cancelled s ≡ false
      → Keeps (holds job_id worker_id held now) (finish s value now)
  finish-Keeps s value stopped kept = record {
    valid = λ j h v. ground arith;
    active = λ j h. ground arith;
    identity = λ j. ground arith;
  }

  pub wait_for_approval-Keeps :
      (details : Json) → Keeps (holds job_id worker_id held now) (wait_for_approval details now)
  wait_for_approval-Keeps details = record {
    valid = λ j h v. ground arith;
    active = λ j h. ground arith;
    identity = λ j. ground arith;
  }

module _ (now : ℕ) where
  pub fail_exhausted-Keeps : Keeps (is_exhausted now) (fail_exhausted now)
  fail_exhausted-Keeps = record {
    valid = λ j h v. ground arith;
    active = λ j h. ground arith;
    identity = λ j. ground arith;
  }

  pub claim-Keeps :
      (job_id : ℕ) (worker_id : Text) (token : ℕ)
      → Keeps (λ j. has_id job_id j && is_leaseable now j) (claim worker_id token now)
  claim-Keeps job_id worker_id token = record {
    valid = λ j h v. ground arith;
    active = λ j h. ground arith;
    identity = λ j. ground arith;
  }

  module _ (job_id : ℕ) where
    pub cancel-Keeps : Keeps (is_active_job job_id) (cancel now)
    cancel-Keeps = record {
      valid = λ j h v. ground arith;
      active = λ j h. ground arith;
      identity = λ j. ground arith;
    }

    pub requeue_skipped-Keeps : Keeps (is_skippable job_id) (requeue_skipped now)
    requeue_skipped-Keeps = record {
      valid = λ j h v. ground arith;
      active = λ j h. ground arith;
      identity = λ j. ground arith;
    }

    pub approve-Keeps : Keeps (is_approvable job_id) (approve now)
    approve-Keeps = record {
      valid = λ j h v. ground arith;
      active = λ j h. ground arith;
      identity = λ j. ground arith;
    }

-- The row that `first_by` answers with is in the table, and meets the test.
pub first_by-In :
    (before : Job → Job → Bool) (selects : Job → Bool) (t : Table) {j : Job}
    → first_by before selects t ≡ some j
    → In j t × (selects j ≡ true)
unfolding first_by
first_by-In before selects [] h = cc
first_by-In before selects (x ∷ t) {j} h = elim (Option-cases (first_by before selects t)) [
  | inl e ↦ ground arith
  | inr (k, e) ↦
      let (m, s) = first_by-In before selects t e in
      elim (Bool-cases (selects x)) [
        | inl hit ↦ elim (Bool-cases (before k x)) [
          | inl first ↦
              let same : k ≡ j = ground arith in
              (inr (subst (λ i. In i t) same m), ground (arith, same))
          | inr last ↦ let same : x ≡ j = ground arith in (inl same, ground (arith, same))
        ]
        | inr miss ↦
            let same : k ≡ j = ground arith in
            (inr (subst (λ i. In i t) same m), ground (arith, same))
      ]
]

-- Identifiers are unique, so that a row with the id of a leaseable row is that row.
pub claim-update :
    (worker_id : Text) (token now : ℕ) (t : Table) (j : Job)
    → Inv t
    → In j t
    → is_leaseable now j ≡ true
    → update (has_id j.id) (claim worker_id token now) t
      ≡ update (λ k. has_id j.id k && is_leaseable now k) (claim worker_id token now) t
unfolding update
claim-update worker_id token now t j v m open_ = map-congr _ _ t λ k n.
    elim (Bool-cases (has_id j.id k)) [
      | inl hit ↦
          let same : k ≡ j = Apart-In same_id same_id_symm t v.ids n m hit in
          let leaseable : is_leaseable now k ≡ true = rw same open_ in rw (hit, leaseable) refl
      | inr miss ↦ rw miss refl
    ]

pub claim_first-Inv :
    (worker_id : Text) (token : ℕ) (locked : ℕ → Bool) (now : ℕ) (t : Table)
    → Inv t
    → Inv (claim_first worker_id token locked now t).0
unfolding claim_first
claim_first-Inv worker_id token locked now t v =
    elim (Option-cases (first_by earlier (λ j. is_leaseable now j && not (locked j.id)) t)) [
      | inl e ↦ rw (e, claim_first) v
      | inr (j, e) ↦
          let (m, s) = first_by-In _ _ t e in
          let open_ : is_leaseable now j ≡ true = (and_parts s).0 in
          rw (e, claim_first)
            (rw (claim-update worker_id token now t j v m open_)
              (update-Inv (claim-Keeps now j.id worker_id token) t v))
    ]

new_job-Inv :
    (proposed_id now : ℕ) (spec : JobSpec) (t : Table)
    → Inv t
    → any (has_id proposed_id) t ≡ false
    → any (is_active_with (deduplication_key spec)) t ≡ false
    → Inv (new_job proposed_id now spec ∷ t)
new_job-Inv proposed_id now spec t v fresh alone = record {
  valid = (ground arith, v.valid);
  ids = (any-weaken _ _ t (λ k h. ground arith) fresh, v.ids);
  alone = (
    any-weaken _ _ t
        (λ k h. ground (
          arith,
          text_eq_iff (as_database_value spec.kind) k.kind,
          text_eq_iff k.kind (as_database_value spec.kind),
        ))
        alone,
    v.alone,
  );
}

pub insert_job-Inv :
    (proposed_id now : ℕ) (spec : JobSpec) (t : Table) {t' : Table} {id : ℕ}
    → Inv t
    → insert_job proposed_id now spec t ≡ ok (t', id)
    → Inv t'
unfolding insert_job
insert_job-Inv proposed_id now spec t {t'} v h =
    elim (Option-cases (find (is_active_with (deduplication_key spec)) t)) [
      | inr (j, e) ↦ let same : t ≡ t' = ground arith in subst Inv same v
      | inl e ↦ elim (Bool-cases (any (has_id proposed_id) t)) [
        | inl taken ↦ absurd (ground arith)
        | inr fresh ↦
            let same : (new_job proposed_id now spec ∷ t) ≡ t' = ground arith in
            subst Inv same (new_job-Inv proposed_id now spec t v fresh (find-none _ t e))
      ]
    ]

module _ (print : Json → Text) where
  -- The row that `enqueue` answers with, or the table it returns.
  pub enqueue-Inv :
      (proposed_id now : ℕ) (spec : JobSpec) (t : Table) {t' : Table} {id : ℕ}
      → Inv t
      → enqueue print proposed_id now spec t ≡ ok (t', id)
      → Inv t'
  unfolding enqueue
  enqueue-Inv proposed_id now spec t {t'} v h = elim (Option-cases (succeeded_job print spec t)) [
    | inl e ↦ insert_job-Inv proposed_id now spec t v (rw (e, enqueue) at h)
    | inr (j, e) ↦ let same : t ≡ t' = ground arith in subst Inv same v
  ]
