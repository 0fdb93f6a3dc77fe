-- ===== src/Queue/Control.antt =====
-- src/queue.rs: `request_cancel`, `skip_current_item`, `mark_waiting_approval` and `approve_plan`.
use pi_tools.Common.{
  ℕ, ◌-◌, Bool, true, false, not, ◌&&◌, ◌||◌, Option, none, some, if◌then◌else◌, is_empty, any,
  Result, ok, err,
}
use pi_tools.Text.{Text, codes}
use pi_tools.Json.{Json, bool, str, arr, obj, nil, cons, end, field, get, as_str, concat, set_key}
use pi_tools.Queue.Table.{
  QueueError, database, has_id, queued, waiting_approval, cancelled, is_running,
  is_waiting_approval, is_active, Job, Table, is_null, update, changed_one,
}
use pi_tools.Controls.Approval.Keys.{
  approved, approved_hash, approval_details, skipped_items, plan_hash,
}
use pi_tools.Queue.Lease.{holds}

abbrev pub is_active_job : ℕ → Job → Bool
is_active_job job_id j = has_id job_id j && is_active j.state

abbrev pub cancel : ℕ → Job → Job
cancel now j = record j {
  state = cancelled;
  cancel_requested = true;
  lease_owner = none;
  lease_until = none;
  lease_token = none;
  updated_at = now;
}

unfoldable pub request_cancel : ℕ → ℕ → Table → Table × Bool
unfolding update changed_one
request_cancel job_id now t =
    (update (is_active_job job_id) (cancel now) t, changed_one (is_active_job job_id) t)

-- `NULLIF(current_item, '') IS NOT NULL`
abbrev pub has_item : Option Text → Bool
has_item none = false
has_item (some item) = not (is_empty item)

abbrev pub is_skippable : ℕ → Job → Bool
is_skippable job_id j =
    has_id job_id j
    && ((is_running j.state || is_waiting_approval j.state)
        && (not j.cancel_requested && has_item j.current_item))

abbrev pub or_keep {ℓ} : {A : Type ℓ} → Option A → A → A
or_keep none a = a
or_keep (some b) a = b

-- `COALESCE(plan->'skipped_items', '[]'::jsonb) || jsonb_build_array(current_item)`
abbrev pub more_skipped : Json → Text → Json
more_skipped plan item =
    concat (or_keep (get skipped_items plan) (arr nil)) (arr (cons (str item) nil))

abbrev pub skipped_plan : Json → Option Text → Option Json
skipped_plan plan none = some plan
skipped_plan plan (some item) = set_key skipped_items (more_skipped plan item) plan

abbrev pub requeue_skipped : ℕ → Job → Job
requeue_skipped now j = record j {
  state = queued;
  current_item = none;
  plan = or_keep (skipped_plan j.plan j.current_item) j.plan;
  attempt = j.attempt - 1;
  lease_owner = none;
  lease_until = none;
  lease_token = none;
  updated_at = now;
}

-- `jsonb_set` refuses a plan that is no object, and then the statement fails as a whole.
abbrev pub cannot_skip : ℕ → Job → Bool
cannot_skip job_id j = is_skippable job_id j && is_null (skipped_plan j.plan j.current_item)

unfoldable pub skip_current_item : ℕ → ℕ → Table → Result QueueError (Table × Bool)
unfolding update changed_one
skip_current_item job_id now t =
    if any (cannot_skip job_id) t
    then err database
    else ok
        (update (is_skippable job_id) (requeue_skipped now) t, changed_one (is_skippable job_id) t)

abbrev pub wait_for_approval : Json → ℕ → Job → Job
wait_for_approval details now j = record j {
  state = waiting_approval;
  plan = concat j.plan details;
  result = some (obj (field (codes "state") (str (codes "waiting_approval")) end));
  lease_owner = none;
  lease_until = none;
  lease_token = none;
  updated_at = now;
}

unfoldable pub mark_waiting_approval : ℕ → Text → ℕ → Json → ℕ → Table → Table × Bool
unfolding update changed_one
mark_waiting_approval job_id worker_id token details now t =
    let mine = holds job_id worker_id token now in
    (update mine (wait_for_approval details now) t, changed_one mine t)

-- `plan->'approval_details'->'plan_hash'`, if it is a string inside an object.
abbrev pub shown_hash : Json → Option Text
shown_hash plan = elim (get approval_details plan) [
  | none ↦ none
  | some details ↦ elim (get plan_hash details) [ none ↦ none | some v ↦ as_str v ]
]

abbrev pub awaits_approval : Job → Bool
awaits_approval j =
    is_waiting_approval j.state && (not j.cancel_requested && not (is_null (shown_hash j.plan)))

abbrev pub is_approvable : ℕ → Job → Bool
is_approvable job_id j = has_id job_id j && awaits_approval j

abbrev pub set_or_keep : Text → Json → Json → Json
set_or_keep k v plan = or_keep (set_key k v plan) plan

abbrev pub approved_plan : Json → Json
approved_plan plan = elim (shown_hash plan) [
  | none ↦ plan
  | some hash ↦ set_or_keep approved_hash (str hash) (set_or_keep approved (bool true) plan)
]

abbrev pub approve : ℕ → Job → Job
approve now j = record j {
  state = queued;
  plan = approved_plan j.plan;
  result = none;
  updated_at = now;
}

unfoldable pub approve_plan : ℕ → ℕ → Table → Table × Bool
unfolding update changed_one
approve_plan job_id now t =
    (update (is_approvable job_id) (approve now) t, changed_one (is_approvable job_id) t)
