-- ===== src/Workflow.antt =====
-- `process_check_run_control` of src/workflow.rs: a button of a Check Run, from the delivery to the
-- queue. The YAML parser and `Value::as_i64` are parameters.
pub mod Context
pub mod Again
pub mod Effect
mod Tests
use pi_tools.Common.{
  ℕ, Bool, true, false, not, ◌&&◌, Option, none, some, ◌==◌, if◌then◌else◌, Result, ok, err, ◌>>=◌,
  ◌>>◌,
}
use pi_tools.Text.{Text, codes, is_blank}
use pi_tools.Json.{Json, bool, obj, end, field}
use pi_tools.Policy.{Policy, PolicyError, default, validate}
use pi_tools.Queue.Table.{Table, QueueError}
use pi_tools.Queue.Control
use pi_tools.Controls.Run.{
  ControlAction, approve_plan, skip_current_item, cancel_run, parse_action, is_authorized,
}
use pi_tools.Events.{DeliveryEnvelope, CheckRunControl, EventParseError, check_run_control}
use pi_tools.Repositories.{
  AuditEntry, ControlContext, JobControl, Tables, control_context, record_audit, record_job_control,
}

pub data ControlDisposition : Type 0 where
  not_a_control_event unknown_check_run rejected_context rejected_unknown rejected_unauthorized
        duplicate applied run_not_active :
      ControlDisposition

pub data WorkflowError : Type 0 where
  event : EventParseError → WorkflowError
  policy : PolicyError → WorkflowError
  queue : QueueError → WorkflowError

abbrev pub Outcome : Type 0
Outcome = Tables × Result WorkflowError ControlDisposition

abbrev has_number : Option ℕ → ℕ → Bool
has_number none n = false
has_number (some m) n = m == n

unfoldable pub control_delivery_matches_context : DeliveryEnvelope → ControlContext → Bool
control_delivery_matches_context delivery context =
    has_number delivery.repository_id context.repository_id
    && has_number delivery.pull_request_number context.pull_request_number

abbrev pub control_row : DeliveryEnvelope → CheckRunControl → ControlContext → Text → JobControl
control_row delivery control context decision = record {
  job_id = context.job_id;
  request_id = delivery.delivery_id;
  action = control.action;
  actor_login = control.actor_login;
  target_item_id = none;
  decision = decision;
}

-- The call of the queue that an action makes.
unfoldable pub act : ControlAction → ℕ → ℕ → Table → Result QueueError (Table × Bool)
act approve_plan job_id now t = ok (Control.approve_plan job_id now t)
act skip_current_item job_id now t = Control.skip_current_item job_id now t
act cancel_run job_id now t = ok (Control.request_cancel job_id now t)

abbrev summary_of : ControlAction → Text
summary_of approve_plan = codes "approve-plan requested"
summary_of skip_current_item = codes "skip-current-item requested"
summary_of cancel_run = codes "cancel-run requested"

abbrev pub audit_of : ControlAction → CheckRunControl → ControlContext → Bool → AuditEntry
audit_of action control context changed = record {
  repository_id = some context.repository_id;
  pull_request_number = some context.pull_request_number;
  job_id = some context.job_id;
  actor_login = some control.actor_login;
  event_type = codes "job_control";
  summary = summary_of action;
  evidence = obj (field (codes "changed") (bool changed) end);
}

-- The `match action` at the end.
unfoldable pub apply_to_queue :
    ControlAction → CheckRunControl → ControlContext → ℕ → Tables → Outcome
unfolding act record_audit
apply_to_queue action control context now w = elim (act action context.job_id now w.jobs) [
  | err e ↦ (w, err (queue e))
  | ok (jobs, changed) ↦ (
    record_audit (audit_of action control context changed) (record w { jobs = jobs }),
    ok (if changed then applied else run_not_active),
  )
]

abbrev rejected : JobControl → ControlDisposition → Tables → Outcome
rejected row disposition w = ((record_job_control row w).0, ok disposition)

-- From the record of an accepted control on.
unfoldable pub accept :
    DeliveryEnvelope → CheckRunControl → ControlContext → ControlAction → ℕ → Tables → Outcome
unfolding record_job_control apply_to_queue
accept delivery control context action now w =
    let (w', inserted) =
      record_job_control (control_row delivery control context (codes "accepted")) w in
    elim inserted [
      | false ↦ (w', ok duplicate)
      | true ↦ apply_to_queue action control context now w'
    ]

unfoldable pub decide :
    DeliveryEnvelope → CheckRunControl → ControlContext → Policy → ℕ → Tables → Outcome
unfolding record_job_control parse_action is_authorized accept
decide delivery control context p now w = elim (parse_action control.action) [
  | err e ↦
      rejected (control_row delivery control context (codes "rejected-unknown")) rejected_unknown w
  | ok action ↦
      if not (is_authorized control.actor_login context.pr_author p.maintainers)
      then rejected (control_row delivery control context (codes "rejected-unauthorized"))
          rejected_unauthorized w
      else accept delivery control context action now w
]

module _ (parse : Text → Result PolicyError Policy) where
  -- `Policy::from_yaml`, and the default for a repository without a policy.
  unfoldable pub policy_of : Text → Result PolicyError Policy
  unfolding validate
  policy_of yaml = if is_blank yaml then ok default else (parse yaml >>= λ p. validate p >> ok p)

  unfoldable pub in_context :
      DeliveryEnvelope → CheckRunControl → ControlContext → ℕ → Tables → Outcome
  unfolding record_job_control control_delivery_matches_context policy_of decide
  in_context delivery control context now w =
      if not (control_delivery_matches_context delivery context)
      then rejected (control_row delivery control context (codes "rejected-context"))
          rejected_context w
      else elim (policy_of context.policy_yaml) [
        | err e ↦ (w, err (policy e))
        | ok p ↦ decide delivery control context p now w
      ]

  unfoldable pub process_control : DeliveryEnvelope → CheckRunControl → ℕ → Tables → Outcome
  unfolding control_context in_context
  process_control delivery control now w = elim (control_context control.check_run_id w) [
    | none ↦ (w, ok unknown_check_run)
    | some context ↦ in_context delivery control context now w
  ]

  module _ (as_i64 : Json → Option ℕ) where
    unfoldable pub process_check_run_control : DeliveryEnvelope → ℕ → Tables → Outcome
    unfolding check_run_control process_control
    process_check_run_control delivery now w = elim (check_run_control as_i64 delivery) [
      | err e ↦ (w, err (event e))
      | ok none ↦ (w, ok not_a_control_event)
      | ok (some control) ↦ process_control delivery control now w
    ]
