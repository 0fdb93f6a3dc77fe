-- ===== src/Queue/Tests.antt =====
-- The queue on a small table: a job that runs, one that waits for its turn and one that is done.
use pi_tools.Common.{
  ℕ, ◌≡◌, refl, ◌≢◌, inl, inr, Bool, false, none, some, List, [], ◌∷◌, arith, In, ok,
}
use pi_tools.Text.{Text, codes, text_eq}
use pi_tools.Json.{Json, str, obj, end, field, get_field}
use pi_tools.Queue.Table.{reconcile, ci_repair, queued, running, succeeded, Job, Table, update}
use pi_tools.Queue.Enqueue.{JobSpec, first_by, succeeded_job, insert_job, enqueue, new_job}
use pi_tools.Queue.Lease.{claim_first, claim, leased_job, lease_next, holds_lease}
use pi_tools.Queue.Invariant.{Inv, JobValid}
use pi_tools.Queue.Calls.{Call, step, run, run-Inv, leases, succeeds, cancels}
use pi_tools.Queue.Fencing.{step-finished, step-leased, may_touch, Rejected, lost_lease-Rejected}
use pi_tools.Queue.Order.{Granted, lease_next-Granted, lease_next_some}
use pi_tools.Queue.Dedup.{Covers, enqueue-Covers, enqueue_idem}

abbrev print : Json → Text
print v = []

abbrev one : Text
one = codes "worker-1"

abbrev two : Text
two = codes "worker-2"

abbrev empty_plan : Json
empty_plan = obj end

-- Leased by the first worker under token 3 until 1000.
abbrev leased : Job
leased = record {
  id = 1;
  repository_id = 10;
  pull_request_number = 5;
  kind = codes "reconcile";
  state = running;
  current_item = none;
  plan = empty_plan;
  result = none;
  attempt = 1;
  max_attempts = 5;
  lease_owner = some one;
  lease_until = some 1000;
  lease_token = some 3;
  cancel_requested = false;
  created_at = 100;
  updated_at = 200;
}

abbrev ready : Job
ready = record leased {
  id = 2;
  repository_id = 11;
  state = queued;
  attempt = 0;
  lease_owner = none;
  lease_until = none;
  lease_token = none;
  created_at = 150;
}

abbrev done : Job
done = record ready { id = 3; repository_id = 12; state = succeeded; result = some empty_plan }

abbrev table : Table
table = leased ∷ ready ∷ done ∷ []

table-Inv : Inv table
table-Inv = record {
  valid = (leased-JobValid, (ready-JobValid, (done-JobValid, tt)));
  ids = (refl, (refl, (refl, tt)));
  alone = (refl, (refl, (refl, tt)));
}
  where
    leased-JobValid : JobValid leased
    leased-JobValid = record {
      attempts = omega arith;
      owner = refl;
      until = refl;
      token = refl;
      cancel = refl;
    }

    ready-JobValid : JobValid ready
    ready-JobValid = record {
      attempts = omega arith;
      owner = refl;
      until = refl;
      token = refl;
      cancel = refl;
    }

    done-JobValid : JobValid done
    done-JobValid = record {
      attempts = omega arith;
      owner = refl;
      until = refl;
      token = refl;
      cancel = refl;
    }

abbrev history : List (ℕ × Call)
history =
    (300, leases two 4 (λ id. false)) ∷ (400, succeeds 1 one 3 empty_plan) ∷ (500, cancels 2) ∷ []

run-Inv_example : Inv (run print table history)
run-Inv_example = run-Inv print table history table-Inv

step-finished_example : In done (step print table (900, cancels 3))
step-finished_example =
    step-finished print table done 900 table-Inv (inr (inr (inl refl))) (cancels 3) refl

foreign : may_touch leased (succeeds 1 two 3 empty_plan) ≡ false
unfolding text_eq
foreign = refl

step-leased_example : In leased (step print table (900, succeeds 1 two 3 empty_plan))
step-leased_example =
    step-leased print table leased 900 table-Inv (inl refl) (succeeds 1 two 3 empty_plan) refl refl
      foreign

-- The lease has run out at its last instant.
expired : holds_lease one 3 1000 leased ≡ false
unfolding text_eq
expired = refl

lost_lease-Rejected_example : Rejected table 1 one 3 1000
lost_lease-Rejected_example =
    lost_lease-Rejected table leased one 3 1000 table-Inv (inl refl) expired

abbrev nothing_locked : ℕ → Bool
nothing_locked id = false

granted :
    lease_next two 9 nothing_locked 300 table
    ≡ (leased ∷ claim two 9 300 ready ∷ done ∷ [], some (leased_job 9 300 ready))
unfolding lease_next claim_first update first_by
granted = refl

lease_next-Granted_example :
    Granted two 9 nothing_locked 300 table
      (leased ∷ claim two 9 300 ready ∷ done ∷ [])
      (leased_job 9 300 ready)
lease_next-Granted_example = lease_next-Granted two 9 nothing_locked 300 table granted

lease_next_some_example : (lease_next two 9 nothing_locked 300 table).1 ≢ none
lease_next_some_example =
    lease_next_some two 9 nothing_locked 300 table ready (inr (inl refl)) refl refl

abbrev spec : JobSpec
spec = record {
  repository_id = 10;
  pull_request_number = 6;
  kind = ci_repair;
  plan = obj (field (codes "head_sha") (str (codes "abc")) end);
}

enqueued : enqueue print 4 300 spec table ≡ ok (new_job 4 300 spec ∷ table, 4)
unfolding enqueue succeeded_job insert_job first_by text_eq get_field
enqueued = refl

enqueue-Covers_example : Covers print spec (new_job 4 300 spec ∷ table) 4
enqueue-Covers_example = enqueue-Covers print spec 4 300 table enqueued

enqueue_idem_example :
    enqueue print 5 350 spec (new_job 4 300 spec ∷ table) ≡ ok (new_job 4 300 spec ∷ table, 4)
enqueue_idem_example = enqueue_idem print spec 4 300 5 350 table enqueued

-- A second request of the running kind is answered with the running job.
abbrev again : JobSpec
again = record { repository_id = 10; pull_request_number = 5; kind = reconcile; plan = empty_plan }

enqueue-active : enqueue print 4 300 again table ≡ ok (table, 1)
unfolding enqueue succeeded_job insert_job text_eq
enqueue-active = refl
