-- ===== src/Queue/Fencing.antt =====
-- What protects a lease: which calls can touch a running job, and what a worker whose lease was lost
-- can still do.
use pi_tools.Common.{
  ℕ, ◌≡◌, refl, ap, ◌∙◌, inl, inr, Bool, true, false, not, ◌&&◌, some, arith, ◌==◌, Bool-cases,
  and_parts, Option-cases, any, find, In, All-In, find-In, find-none, any-none_elim, Apart,
  Apart-In, ok,
}
use pi_tools.Queue.Table.{
  has_id, succeeded, failed, is_running, is_active, Job, Table, text_is, number_is, is_after,
  update, changed_one,
}
use pi_tools.Queue.Enqueue.{
  JobSpec, deduplication_key, first_by, earlier, is_active_with, insert_job, succeeded_job, enqueue,
}
use pi_tools.Queue.Lease.{
  is_exhausted, fail_exhausted, is_leaseable, claim, claim_first, lease_next, holds_lease, holds,
  extend_lease, renew_lease, finish, mark_succeeded, mark_failed, lease_test, assert_lease,
}
use pi_tools.Queue.Control.{
  is_active_job, cancel, request_cancel, is_skippable, requeue_skipped, cannot_skip,
  skip_current_item, wait_for_approval, mark_waiting_approval, is_approvable, approve, approve_plan,
}
use pi_tools.Queue.Invariant.{JobValid, same_id, Inv, same_id_symm, update-Inv}
use pi_tools.Queue.Preserve.{fail_exhausted-Keeps, first_by-In, claim-update}
use pi_tools.Queue.Calls.{
  Call, enqueues, leases, renews, succeeds, fails, waits, approves, cancels, skips, after, step,
}
use pi_tools.Queue.Rows.{update-In_other, update-refused}
use pi_tools.Json.{Json}
use pi_tools.Text.{Text}

-- The calls that the holder of the lease of a job makes, and the two controls of an operator.
abbrev owns : Job → ℕ → Text → ℕ → Bool
owns j id worker token =
    j.id == id && (text_is j.lease_owner worker && number_is j.lease_token token)

abbrev pub may_touch : Job → Call → Bool
may_touch j (enqueues id spec) = false
may_touch j (leases worker token locked) = false
may_touch j (renews id worker token) = owns j id worker token
may_touch j (succeeds id worker token value) = owns j id worker token
may_touch j (fails id worker token value) = owns j id worker token
may_touch j (waits id worker token value) = owns j id worker token
may_touch j (approves id) = false
may_touch j (cancels id) = j.id == id
may_touch j (skips id) = j.id == id

-- That no guard of a call selects the row.
abbrev Refuses : ℕ → Job → Call → Type 0
Refuses now j (enqueues id spec) = Unit
Refuses now j (leases worker token locked) =
    (is_exhausted now j ≡ false) × (is_leaseable now j ≡ false)
Refuses now j (renews id worker token) = holds id worker token now j ≡ false
Refuses now j (succeeds id worker token value) = holds id worker token now j ≡ false
Refuses now j (fails id worker token value) = holds id worker token now j ≡ false
Refuses now j (waits id worker token value) = holds id worker token now j ≡ false
Refuses now j (approves id) = is_approvable id j ≡ false
Refuses now j (cancels id) = is_active_job id j ≡ false
Refuses now j (skips id) = is_skippable id j ≡ false

module _ (t : Table) (j : Job) (m : In j t) where
  claim_first-In :
      (worker : Text) (token : ℕ) (locked : ℕ → Bool) (now : ℕ)
      → Inv t
      → is_leaseable now j ≡ false
      → In j (claim_first worker token locked now t).0
  unfolding claim_first
  claim_first-In worker token locked now v closed =
      elim (Option-cases (first_by earlier (λ k. is_leaseable now k && not (locked k.id)) t)) [
        | inl e ↦ rw (e, claim_first) m
        | inr (k, e) ↦
            let (n, s) = first_by-In _ _ t e in
            let other : (has_id k.id j && is_leaseable now j) ≡ false = rw closed (ground arith) in
            rw (e, claim_first)
              (rw (claim-update worker token now t k v n (and_parts s).0)
                (update-In_other (claim worker token now) _ t j m other))
      ]

  insert_job-In : (id now : ℕ) (spec : JobSpec) → In j (after t (insert_job id now spec t))
  unfolding insert_job
  insert_job-In id now spec =
      elim (Option-cases (find (is_active_with (deduplication_key spec)) t)) [
        | inr (k, e) ↦ rw (e, insert_job) m
        | inl e ↦ elim (Bool-cases (any (has_id id) t)) [
          | inl taken ↦ rw (e, insert_job) (rw taken m)
          | inr fresh ↦ rw (e, insert_job) (rw fresh (inr m))
        ]
      ]

  enqueue-In :
      (print : Json → Text) (id now : ℕ) (spec : JobSpec)
      → In j (after t (enqueue print id now spec t))
  unfolding enqueue
  enqueue-In print id now spec = elim (Option-cases (succeeded_job print spec t)) [
    | inr (k, e) ↦ rw (e, enqueue) m
    | inl e ↦ rw (e, enqueue) (insert_job-In id now spec)
  ]

  skip-In : (id now : ℕ) → is_skippable id j ≡ false → In j (after t (skip_current_item id now t))
  unfolding skip_current_item
  skip-In id now h = elim (Bool-cases (any (cannot_skip id) t)) [
    | inl fails_ ↦ rw fails_ m
    | inr works ↦ rw works (update-In_other (requeue_skipped now) _ t j m h)
  ]

module _ (print : Json → Text) (t : Table) (j : Job) (now : ℕ) (v : Inv t) (m : In j t) where
  step-refused : (c : Call) → Refuses now j c → In j (step print t (now, c))
  unfolding step lease_next renew_lease mark_succeeded mark_failed mark_waiting_approval
      approve_plan request_cancel
  step-refused (enqueues id spec) h = enqueue-In t j m print id now spec
  step-refused (leases worker token locked) h =
      claim_first-In _ j (update-In_other (fail_exhausted now) _ t j m h.0) worker token locked now
        (update-Inv (fail_exhausted-Keeps now) t v) h.1
  step-refused (renews id worker token) h = update-In_other (extend_lease now) _ t j m h
  step-refused (succeeds id worker token value) h =
      update-In_other (finish succeeded value now) _ t j m h
  step-refused (fails id worker token value) h = update-In_other (finish failed value now) _ t j m h
  step-refused (waits id worker token value) h =
      update-In_other (wait_for_approval value now) _ t j m h
  step-refused (approves id) h = update-In_other (approve now) _ t j m h
  step-refused (cancels id) h = update-In_other (cancel now) _ t j m h
  step-refused (skips id) h = skip-In t j m id now h

  finished-Refuses : is_active j.state ≡ false → (c : Call) → Refuses now j c
  finished-Refuses h (enqueues id spec) = tt
  finished-Refuses h (leases worker token locked) = ground arith
  finished-Refuses h c = ground arith

  -- A finished job (succeeded, failed or cancelled) of a well formed table is never touched again: its row
  -- survives every call, unchanged.
  pub step-finished : (c : Call) → is_active j.state ≡ false → In j (step print t (now, c))
  step-finished c h = step-refused c (finished-Refuses h c)

  leased-Refuses :
      is_running j.state ≡ true
      → is_after j.lease_until now ≡ true
      → (c : Call) → may_touch j c ≡ false
      → Refuses now j c
  leased-Refuses running_ unexpired (enqueues id spec) h = tt
  leased-Refuses running_ unexpired (leases worker token locked) h = ground arith
  leased-Refuses running_ unexpired c h = ground arith

  -- In a well formed table, while the lease of a running job has not run out, its row survives, unchanged, every call but
  -- those of the worker that holds the lease (by owner and token) and the operator's cancel and
  -- skip of that job: no other worker can lease it, renew it or finish it.
  pub step-leased :
      (c : Call)
      → is_running j.state ≡ true
      → is_after j.lease_until now ≡ true
      → may_touch j c ≡ false
      → In j (step print t (now, c))
  step-leased c running_ unexpired h = step-refused c (leased-Refuses running_ unexpired c h)

-- On a well formed row the three-valued test of `assert_lease` is never NULL.
lease_test-holds_lease :
    (j : Job) (worker : Text) (token now : ℕ)
    → JobValid j
    → lease_test worker token now j ≡ some (holds_lease worker token now j)
lease_test-holds_lease j worker token now v = ground arith

find-has_id : (t : Table) (j : Job) → Apart same_id t → In j t → find (has_id j.id) t ≡ some j
find-has_id t j ids m = elim (Option-cases (find (has_id j.id) t)) [
  | inl e ↦
      let absent : has_id j.id j ≡ false = any-none_elim _ j t (find-none _ t e) m in
      absurd (ground arith)
  | inr (k, e) ↦
      let (n, hit) = find-In _ t e in e ∙ ap some (Apart-In same_id same_id_symm t ids n m hit)
]

-- What a worker is told that names a job whose lease it does not hold.
pub record Rejected (t : Table) (id : ℕ) (worker : Text) (token now : ℕ) : Type 0 where
  pub renewal : renew_lease id worker token now t ≡ (t, false)
  pub success : (value : Json) → mark_succeeded id worker token value now t ≡ (t, false)
  pub failure : (value : Json) → mark_failed id worker token value now t ≡ (t, false)
  pub wait : (details : Json) → mark_waiting_approval id worker token details now t ≡ (t, false)
  pub assertion : assert_lease id worker token now t ≡ ok false

module _ (t : Table) (j : Job) (worker : Text) (token now : ℕ) (v : Inv t) (m : In j t) where
  -- `assert_lease` answers, for every row of a well formed table, what the guards of the other statements
  -- of a worker test, and it does not fail.
  pub assert_lease-holds_lease :
      assert_lease j.id worker token now t ≡ ok (holds_lease worker token now j)
  unfolding assert_lease
  assert_lease-holds_lease =
      rw (find-has_id t j v.ids m, assert_lease)
        (rw (lease_test-holds_lease j worker token now (All-In JobValid t v.valid m)) refl)

  -- A worker that does not hold the lease of a row of a well formed table (it expired, was taken over,
  -- cancelled or given back) changes nothing by renewing, finishing or pausing the job, and each of these
  -- calls and `assert_lease` tell it so.
  pub lost_lease-Rejected :
      holds_lease worker token now j ≡ false → Rejected t j.id worker token now
  unfolding renew_lease mark_succeeded mark_failed mark_waiting_approval
  lost_lease-Rejected h = record {
    renewal = refused (extend_lease now);
    success = λ value. refused (finish succeeded value now);
    failure = λ value. refused (finish failed value now);
    wait = λ details. refused (wait_for_approval details now);
    assertion = assert_lease-holds_lease ∙ ap ok h;
  }
    where
      refused :
          (change : Job → Job)
          → ◌≡◌ {A = Table × Bool}
              (
                update (holds j.id worker token now) change t,
                changed_one (holds j.id worker token now) t,
              )
              (t, false)
      refused change =
          let (same, told) = update-refused (holds_lease worker token now) change t j v.ids m h in
          rw (same, told) refl
