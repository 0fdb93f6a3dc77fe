-- ===== src/Queue/Approval.antt =====
-- The approval of a plan through the queue: `mark_waiting_approval` with the bound details, then
-- `approve_plan`, then `plan_is_approved` when the job is leased again.
use pi_tools.Common.{ℕ, ◌≡◌, refl, sym, ◌∙◌, Bool, true, some, arith, ◌==◌, ==_self, and_parts, In}
use pi_tools.Queue.Table.{Job, Table}
use pi_tools.Queue.Lease.{holds_lease}
use pi_tools.Queue.Control.{
  wait_for_approval, mark_waiting_approval, shown_hash, awaits_approval, is_approvable,
  approved_plan, approve, approve_plan,
}
use pi_tools.Queue.Invariant.{Inv, update-Inv}
use pi_tools.Queue.Preserve.{wait_for_approval-Keeps}
use pi_tools.Queue.Rows.{update-done}
use pi_tools.Json.{
  Json, bool, str, obj, Fields, end, field, insert_field, get, merge_fields, concat, set_key,
}
use pi_tools.Text.{Text, text_eq}
use pi_tools.Json.Laws.{get_field-insert_field, get_field-insert_field_self}
use pi_tools.Controls.Approval.Keys.{approved, approved_hash, approval_details, plan_hash}
use pi_tools.Controls.Approval.{
  remove_control_fields, approval_fingerprint, bind_approval_details, detail_fields,
  plan_is_approved,
}
use pi_tools.Controls.Approval.Laws.{
  bind_approval_details-obj, fingerprint-proposal, fingerprint-bound, IsApproved,
  plan_is_approved_iff, remove_control_fields-approved, remove_control_fields-approved_hash,
  remove_control_fields-approval_details,
}

module _ (digest : Json → Text) where
  -- The update that src/queue.rs reads back: the bound details under the key `approval_details`.
  abbrev pub shown_details : Json → Json → Json
  shown_details plan details =
      obj (field approval_details (bind_approval_details digest plan details) end)

  -- The plan of a job that waits with such details.
  abbrev waiting_fields : Fields → Json → Fields
  waiting_fields fs details =
      insert_field approval_details (bind_approval_details digest (obj fs) details) fs

  abbrev fingerprint : Fields → Json → Text
  fingerprint fs details = approval_fingerprint digest (obj fs) (obj (detail_fields details))

  bound_hash :
      (fs : Fields) (details : Json)
      → get plan_hash (bind_approval_details digest (obj fs) details)
        ≡ some (str (fingerprint fs details))
  bound_hash fs details =
      rw (bind_approval_details-obj digest (obj fs) details)
        (get_field-insert_field_self plan_hash _ _)

  shown_hash-waiting :
      (fs : Fields) (details : Json)
      → shown_hash (obj (waiting_fields fs details)) ≡ some (fingerprint fs details)
  shown_hash-waiting fs details =
      rw
        (
          get_field-insert_field_self approval_details
              (bind_approval_details digest (obj fs) details) fs,
          shown_hash,
        )
        (rw (bound_hash fs details) refl)

  abbrev approved_fields : Fields → Json → Fields
  approved_fields fs details =
      insert_field approved_hash (str (fingerprint fs details))
        (insert_field approved (bool true) (waiting_fields fs details))

  approved_plan-waiting :
      (fs : Fields) (details : Json)
      → approved_plan (obj (waiting_fields fs details)) ≡ obj (approved_fields fs details)
  unfolding set_key
  approved_plan-waiting fs details = ground (arith, shown_hash-waiting fs details)

  remove_control_fields-approved_fields :
      (fs : Fields) (details : Json)
      → remove_control_fields (approved_fields fs details) ≡ remove_control_fields fs
  remove_control_fields-approved_fields fs details =
      remove_control_fields-approved_hash _ _
      ∙ remove_control_fields-approved _ _
      ∙ remove_control_fields-approval_details _ _

  -- What the queue writes does not change the fingerprint.
  fingerprint-approved :
      (fs : Fields) (details : Json)
      → approval_fingerprint digest
          (obj (approved_fields fs details))
          (bind_approval_details digest (obj fs) details)
        ≡ fingerprint fs details
  fingerprint-approved fs details =
      fingerprint-proposal digest _ fs _ (remove_control_fields-approved_fields fs details)
      ∙ rw (bind_approval_details-obj digest (obj fs) details)
          (fingerprint-bound digest (obj fs) details _)

  approved_fields-IsApproved :
      (fs : Fields) (details : Json) → IsApproved digest (obj (approved_fields fs details))
  unfolding text_eq
  approved_fields-IsApproved fs details = record {
    details = bind_approval_details digest (obj fs) details;
    hash = fingerprint fs details;
    bit =
        rw (get_field-insert_field approved_hash approved)
          (get_field-insert_field_self approved _ _);
    granted = get_field-insert_field_self approved_hash _ _;
    shown = rw (get_field-insert_field approved_hash approval_details) (
        rw (get_field-insert_field approved approval_details)
          (get_field-insert_field_self approval_details _ _));
    bound = bound_hash fs details;
    fingerprint = sym (fingerprint-approved fs details);
  }

  -- The row after the two statements, as the worker leases it again.
  approve-IsApproved :
      (j : Job) (fs : Fields) (details : Json) (now instant : ℕ)
      → j.plan ≡ obj fs
      → IsApproved digest
          (approve instant (wait_for_approval (shown_details j.plan details) now j)).plan
  unfolding concat merge_fields
  approve-IsApproved j fs details now instant e =
      rw e (rw (approved_plan-waiting fs details) (approved_fields-IsApproved fs details))

  module _ (t : Table) (j : Job) (v : Inv t) (m : In j t) (worker : Text) (token now : ℕ)
      (holding : holds_lease worker token now j ≡ true) (fs : Fields) (e : j.plan ≡ obj fs) where
    abbrev waiting : Json → Job
    waiting details = wait_for_approval (shown_details j.plan details) now j

    abbrev paused : Json → Table × Bool
    paused details = mark_waiting_approval j.id worker token (shown_details j.plan details) now t

    is_approvable-waiting : (details : Json) → is_approvable j.id (waiting details) ≡ true
    unfolding concat merge_fields
    is_approvable-waiting details =
        let shown = shown_hash-waiting fs details in rw (e, ==_self j.id) (rw shown (ground arith))

    -- A job of a well formed table whose plan is an object, whose worker holds its lease and pauses with
    -- the bound details under `approval_details`, and which is then approved, is queued again with a plan
    -- that counts as approved; both calls report success.
    pub approval_round_trip :
        (details : Json) (instant : ℕ)
        → ((paused details).1 ≡ true)
          × ((approve_plan j.id instant (paused details).0).1 ≡ true)
          × In (approve instant (waiting details)) (approve_plan j.id instant (paused details).0).0
          × (plan_is_approved digest (approve instant (waiting details)).plan ≡ true)
    unfolding mark_waiting_approval approve_plan
    approval_round_trip details instant =
        let change = wait_for_approval (shown_details j.plan details) now in
        let first = update-done (holds_lease worker token now) change t j v.ids m holding in
        let w =
          update-Inv (wait_for_approval-Keeps j.id worker token now (shown_details j.plan details))
            t v in
        let second =
          update-done awaits_approval (approve instant) _ (waiting details) w.ids first.0
            (and_parts {a = j.id == j.id} (is_approvable-waiting details)).1 in
        (
          first.1,
          second.1,
          second.0,
          (plan_is_approved_iff digest _).1 (approve-IsApproved j fs details now instant e),
        )
