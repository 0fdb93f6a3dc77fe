-- ===== src/Queue/Calls.antt =====
-- The calls of src/queue.rs as steps on the table, in any order and by any number of workers: each
-- statement is atomic in the database, so a history is a list of calls with their instants.
use pi_tools.Common.{ℕ, ◌≡◌, refl, inl, inr, Bool, List, [], ◌∷◌, Bool-cases, any, Result, ok, err}
use pi_tools.Queue.Table.{QueueError, succeeded, failed, Table}
use pi_tools.Queue.Enqueue.{JobSpec, enqueue}
use pi_tools.Queue.Lease.{lease_next, renew_lease, mark_succeeded, mark_failed}
use pi_tools.Queue.Control.{
  request_cancel, cannot_skip, skip_current_item, mark_waiting_approval, approve_plan,
}
use pi_tools.Queue.Invariant.{Inv, update-Inv}
use pi_tools.Queue.Preserve.{
  extend_lease-Keeps, finish-Keeps, wait_for_approval-Keeps, fail_exhausted-Keeps, cancel-Keeps,
  requeue_skipped-Keeps, approve-Keeps, claim_first-Inv, enqueue-Inv,
}
use pi_tools.Json.{Json}
use pi_tools.Text.{Text}

pub data Call : Type 0 where
  enqueues : ℕ → JobSpec → Call
  leases : Text → ℕ → (ℕ → Bool) → Call
  renews : ℕ → Text → ℕ → Call
  succeeds fails waits : ℕ → Text → ℕ → Json → Call
  approves cancels skips : ℕ → Call

-- A statement that fails leaves the table as it was.
abbrev pub after {ℓ} : {A : Type ℓ} → Table → Result QueueError (Table × A) → Table
after t (ok (t', a)) = t'
after t (err e) = t

module _ (print : Json → Text) where
  unfoldable pub step : Table → ℕ × Call → Table
  step t (now, enqueues id spec) = after t (enqueue print id now spec t)
  step t (now, leases worker token locked) = (lease_next worker token locked now t).0
  step t (now, renews id worker token) = (renew_lease id worker token now t).0
  step t (now, succeeds id worker token value) = (mark_succeeded id worker token value now t).0
  step t (now, fails id worker token value) = (mark_failed id worker token value now t).0
  step t (now, waits id worker token value) = (mark_waiting_approval id worker token value now t).0
  step t (now, approves id) = (approve_plan id now t).0
  step t (now, cancels id) = (request_cancel id now t).0
  step t (now, skips id) = after t (skip_current_item id now t)

  unfoldable pub run : Table → List (ℕ × Call) → Table
  unfolding step
  run t [] = t
  run t (c ∷ cs) = run (step t c) cs

  enqueues-Inv :
      (t : Table) (now id : ℕ) (spec : JobSpec)
      → Inv t
      → Inv (after t (enqueue print id now spec t))
  enqueues-Inv t now id spec v = go (enqueue print id now spec t) refl
    where
      go : (r : Result QueueError (Table × ℕ)) → enqueue print id now spec t ≡ r → Inv (after t r)
      go (err e) h = v
      go (ok (t', j)) h = enqueue-Inv print id now spec t v h

  -- Every call keeps the table well formed.
  pub step-Inv : (t : Table) (c : ℕ × Call) → Inv t → Inv (step t c)
  unfolding step lease_next renew_lease mark_succeeded mark_failed mark_waiting_approval
      approve_plan request_cancel skip_current_item
  step-Inv t (now, enqueues id spec) v = enqueues-Inv t now id spec v
  step-Inv t (now, leases worker token locked) v =
      claim_first-Inv worker token locked now _ (update-Inv (fail_exhausted-Keeps now) t v)
  step-Inv t (now, renews id worker token) v =
      update-Inv (extend_lease-Keeps id worker token now) t v
  step-Inv t (now, succeeds id worker token value) v =
      update-Inv (finish-Keeps id worker token now succeeded value refl refl) t v
  step-Inv t (now, fails id worker token value) v =
      update-Inv (finish-Keeps id worker token now failed value refl refl) t v
  step-Inv t (now, waits id worker token value) v =
      update-Inv (wait_for_approval-Keeps id worker token now value) t v
  step-Inv t (now, approves id) v = update-Inv (approve-Keeps now id) t v
  step-Inv t (now, cancels id) v = update-Inv (cancel-Keeps now id) t v
  step-Inv t (now, skips id) v = elim (Bool-cases (any (cannot_skip id) t)) [
    | inl fails_ ↦ rw fails_ v
    | inr works ↦ rw works (update-Inv (requeue_skipped-Keeps now id) t v)
  ]

  -- After any history of calls, from any well formed table, each row is well formed, no two rows
  -- share an id, and no two active jobs share repository, pull request and kind.
  pub run-Inv : (t : Table) (cs : List (ℕ × Call)) → Inv t → Inv (run t cs)
  unfolding run
  run-Inv t [] v = v
  run-Inv t (c ∷ cs) v = run-Inv (step t c) cs (step-Inv t c v)
