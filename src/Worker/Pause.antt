-- ===== src/Worker/Pause.antt =====
-- src/worker.rs: what a repair answers that waits for an approval (`waiting_for_approval`), and the
-- end of `execute_job` that stores such an answer with the job. The comment that is updated in between
-- changes no row, and the bound details always carry the hash that is read from them.
use pi_tools.Common.{ℕ, ◌≡◌, refl, Bool, true, false, none, arith, In}
use pi_tools.Queue.Table.{Job, Table}
use pi_tools.Queue.Lease.{LeasedJob, holds_lease}
use pi_tools.Queue.Control.{
  wait_for_approval, mark_waiting_approval, shown_hash, awaits_approval, approve, approve_plan,
  or_keep,
}
use pi_tools.Queue.Invariant.{Inv, update-Inv}
use pi_tools.Queue.Preserve.{wait_for_approval-Keeps}
use pi_tools.Queue.Rows.{update-refused, update-done}
use pi_tools.Json.{
  Json, bool, str, arr, obj, nil, cons, Fields, end, field, get_field, insert_field, get, concat,
}
use pi_tools.Text.{Text, codes, text_eq}
use pi_tools.Json.Laws.{get_field-insert_field, get_field-merge_fields-none}
use pi_tools.Controls.Approval.Keys.{approval_details, plan_hash}
use pi_tools.Controls.Approval.{approval_fingerprint, bind_approval_details, detail_fields}
use pi_tools.Controls.Approval.Laws.{bind_approval_details-obj}

completed : Text
completed = codes "completed"

-- `waiting_for_approval`, with the keys of each object in order.
abbrev pub waiting_details : Text → Text → Fields
waiting_details summary blocker =
    field (codes "blocker") (str blocker) (field (codes "summary") (str summary) end)

unfoldable pub waiting_for_approval : Text → Text → Json
waiting_for_approval summary blocker = obj (
    field approval_details (obj (waiting_details summary blocker)) (
      field (codes "changes") (arr (cons (str summary) nil)) (
        field (codes "completed") (bool false) (
          field (codes "remaining_blockers") (arr (cons (str blocker) nil)) (
            field (codes "requires_approval") (bool true) (
              field (codes "tests") (arr nil)
                (field (codes "waiting_approval") (bool true) end)))))))

-- `result.get("approval_details").cloned().unwrap_or_else(|| json!({}))`
abbrev pub raw_details : Json → Json
raw_details result = or_keep (get approval_details result) (obj end)

module _ (digest : Json → Text) where
  unfoldable pub pause_for_approval : LeasedJob → Text → Json → ℕ → Table → Table × Bool
  pause_for_approval job worker_id result now t =
      mark_waiting_approval job.id worker_id job.lease_token
        (bind_approval_details digest job.plan (raw_details result)) now t

  unbound :
      (fs : Fields) (details : Json)
      → get_field approval_details fs ≡ none
      → get_field approval_details (detail_fields details) ≡ none
      → shown_hash (concat (obj fs) (bind_approval_details digest (obj fs) details)) ≡ none
  unfolding concat text_eq
  unbound fs details h g = rw (bind_approval_details-obj digest (obj fs) details) (
      ground (
        arith,
        get_field-merge_fields-none approval_details fs (
            insert_field plan_hash
              (str (approval_fingerprint digest (obj fs) (obj (detail_fields details))))
              (detail_fields details)),
        get_field-insert_field plan_hash approval_details
            (str (approval_fingerprint digest (obj fs) (obj (detail_fields details))))
            (detail_fields details),
      ))

  -- The worker stores the bound details at the top of the plan, and `approve_plan` looks for them
  -- under `approval_details`. So, for a worker that holds the lease of a job whose plan is an object, where
  -- neither the plan nor the details have a field `approval_details` of their own, the pause succeeds, and
  -- then an approval of the job changes nothing and is refused.
  pub pause-never_approved :
      (t : Table) (j : Job) (job : LeasedJob) (worker : Text) (result : Json) (now instant : ℕ)
      (fs : Fields)
      → Inv t
      → In j t
      → j.id ≡ job.id
      → j.plan ≡ obj fs
      → job.plan ≡ obj fs
      → holds_lease worker job.lease_token now j ≡ true
      → get_field approval_details fs ≡ none
      → get_field approval_details (detail_fields (raw_details result)) ≡ none
      → let paused = pause_for_approval job worker result now t in
        (paused.1 ≡ true) × (approve_plan job.id instant paused.0 ≡ (paused.0, false))
  unfolding pause_for_approval mark_waiting_approval approve_plan
  pause-never_approved t j job worker result now instant fs v m same e e' holding absent unnamed =
      let details = bind_approval_details digest job.plan (raw_details result) in
      let change = wait_for_approval details now in
      let first = update-done (holds_lease worker job.lease_token now) change t j v.ids m holding in
      let w = update-Inv (wait_for_approval-Keeps j.id worker job.lease_token now details) t v in
      let hidden : shown_hash (change j).plan ≡ none =
        rw (e, e') (unbound fs (raw_details result) absent unnamed) in
      let refused =
        update-refused awaits_approval (approve instant) _ (change j) w.ids first.0
          (rw hidden (ground arith)) in
      rw (← same) (first.1, rw (refused.0, refused.1) refl)
