-- ===== src/Workflow/Effect.antt =====
-- What a control of a Check Run can do to the jobs, and who can make it.
use pi_tools.Common.{
  ℕ, ◌≡◌, refl, sym, ap, ◌∙◌, ◌⊎◌, inl, inr, Bool, true, false, Option, none, some, ◌∷◌, arith,
  Bool-cases, any, Result, ok, Result-cases, Option-cases,
}
use pi_tools.Text.{Text, codes}
use pi_tools.Json.{Json}
use pi_tools.Policy.{Policy, PolicyError}
use pi_tools.Queue.Table.{Job, Table, update}
use pi_tools.Queue.Control
use pi_tools.Queue.Invariant.{Inv, Keeps, update-Inv}
use pi_tools.Queue.Preserve.{cancel-Keeps, requeue_skipped-Keeps, approve-Keeps}
use pi_tools.Controls.Run.{
  ControlAction, approve_plan, skip_current_item, cancel_run, parse_action, is_authorized,
}
use pi_tools.Controls.Run.Permission.{MayControl, is_authorized_iff}
use pi_tools.Events.{DeliveryEnvelope, CheckRunControl, check_run_control}
use pi_tools.Repositories.{
  ControlContext, JobControl, Tables, control_context, record_audit, record_job_control,
  same_request,
}
use pi_tools.Workflow.{
  Outcome, accept, act, apply_to_queue, control_delivery_matches_context, control_row, decide,
  in_context, policy_of, process_check_run_control, process_control,
}

abbrev pub is_recorded : ControlContext → DeliveryEnvelope → Tables → Bool
is_recorded context delivery w = any (same_request context.job_id delivery.delivery_id) w.controls

-- An update of rows that keeps the table well formed, as which an action leaves the jobs.
pub record Update (t t' : Table) : Type 0 where
  pub selects : Job → Bool
  pub change : Job → Job
  pub keeps : Keeps selects change
  pub result : t' ≡ update selects change t

pub act-Update :
    (action : ControlAction) (job_id now : ℕ) (t t' : Table) (changed : Bool)
    → act action job_id now t ≡ ok (t', changed)
    → Update t t'
unfolding act Control.approve_plan Control.skip_current_item Control.request_cancel
act-Update approve_plan job_id now t t' changed h = record {
  selects = Control.is_approvable job_id;
  change = Control.approve now;
  keeps = approve-Keeps now job_id;
  result = ground (arith, h);
}
act-Update skip_current_item job_id now t t' changed h = record {
  selects = Control.is_skippable job_id;
  change = Control.requeue_skipped now;
  keeps = requeue_skipped-Keeps now job_id;
  result = ground (arith, h);
}
act-Update cancel_run job_id now t t' changed h = record {
  selects = Control.is_active_job job_id;
  change = Control.cancel now;
  keeps = cancel-Keeps now job_id;
  result = ground (arith, h);
}

module _ (c : JobControl) (w : Tables) where
  pub record_job_control-old :
      any (same_request c.job_id c.request_id) w.controls ≡ true
      → record_job_control c w ≡ (w, false)
  unfolding record_job_control
  record_job_control-old h = rw h refl

  pub record_job_control-new :
      any (same_request c.job_id c.request_id) w.controls ≡ false
      → record_job_control c w ≡ (record w { controls = c ∷ w.controls }, true)
  unfolding record_job_control
  record_job_control-new h = rw h refl

  pub record_job_control-jobs : (record_job_control c w).0.jobs ≡ w.jobs
  record_job_control-jobs =
      elim (Bool-cases (any (same_request c.job_id c.request_id) w.controls)) [
        | inl old ↦ rw (record_job_control-old old) refl
        | inr fresh ↦ rw (record_job_control-new fresh) refl
      ]

module _ (action : ControlAction) (control : CheckRunControl) (context : ControlContext)
    (now : ℕ) where
  apply_to_queue-jobs :
      (w : Tables)
      → ((apply_to_queue action control context now w).0.jobs ≡ w.jobs)
        ⊎ (changed : Bool) × (act action context.job_id now w.jobs
            ≡ ok ((apply_to_queue action control context now w).0.jobs, changed))
  unfolding apply_to_queue record_audit
  apply_to_queue-jobs w = elim (Result-cases (act action context.job_id now w.jobs)) [
    | inl (e, failed) ↦ inl (rw (apply_to_queue, failed) refl)
    | inr (result, done) ↦ inr (result.1, rw (apply_to_queue, done) refl)
  ]

  accept-jobs :
      (delivery : DeliveryEnvelope) (w : Tables)
      → ((accept delivery control context action now w).0.jobs ≡ w.jobs)
        ⊎ (is_recorded context delivery w ≡ false)
          × (changed : Bool) × (act action context.job_id now w.jobs
              ≡ ok ((accept delivery control context action now w).0.jobs, changed))
  unfolding accept
  accept-jobs delivery w =
      let row = control_row delivery control context (codes "accepted") in
      elim (Bool-cases (is_recorded context delivery w)) [
        | inl old ↦
            inl (rw (accept, record_job_control-old row w old) (record_job_control-jobs row w))
        | inr fresh ↦
            rw (accept, record_job_control-new row w fresh)
              (elim (apply_to_queue-jobs (record_job_control row w).0) [
                | inl same ↦ inl (same ∙ record_job_control-jobs row w)
                | inr (changed, done) ↦ inr (
                  fresh,
                  changed,
                  sym (ap (act action context.job_id now) (record_job_control-jobs row w)) ∙ done,
                )
              ])
      ]

-- A control that may change the jobs: what was read from the delivery and from the tables, and the
-- outcome of the queue's call.
pub record Permitted (parse : Text → Result PolicyError Policy) (as_i64 : Json → Option ℕ)
    (delivery : DeliveryEnvelope) (now : ℕ) (w : Tables) (jobs : Table) : Type 0 where
  pub control : CheckRunControl
  pub context : ControlContext
  pub p : Policy
  pub action : ControlAction
  pub changed : Bool
  pub is_control : check_run_control as_i64 delivery ≡ ok (some control)
  pub is_known : control_context control.check_run_id w ≡ some context
  pub matches : control_delivery_matches_context delivery context ≡ true
  pub has_policy : policy_of parse context.policy_yaml ≡ ok p
  pub is_action : parse_action control.action ≡ ok action
  pub actor : MayControl control.actor_login context.pr_author p.maintainers
  pub fresh : is_recorded context delivery w ≡ false
  pub result : act action context.job_id now w.jobs ≡ ok (jobs, changed)

module _ (delivery : DeliveryEnvelope) (control : CheckRunControl) (context : ControlContext)
    (now : ℕ) (w : Tables) where
  decide-jobs :
      (p : Policy)
      → let out = decide delivery control context p now w in
        (out.0.jobs ≡ w.jobs)
        ⊎ (action : ControlAction) × (changed : Bool) × (parse_action control.action ≡ ok action)
          × MayControl control.actor_login context.pr_author p.maintainers
          × (is_recorded context delivery w ≡ false)
          × (act action context.job_id now w.jobs ≡ ok (out.0.jobs, changed))
  unfolding decide
  decide-jobs p = elim (Result-cases (parse_action control.action)) [
    | inl (e, unknown) ↦ inl (rw (decide, unknown) (record_job_control-jobs _ w))
    | inr (action, known) ↦
        elim (Bool-cases (is_authorized control.actor_login context.pr_author p.maintainers)) [
          | inr refused ↦ inl (rw (decide, known, refused) (record_job_control-jobs _ w))
          | inl allowed ↦
              rw (decide, known, allowed)
                (elim (accept-jobs action control context now delivery w) [
                  | inl same ↦ inl same
                  | inr (fresh, changed, done) ↦
                      inr (action, changed, refl, (is_authorized_iff _ _ _).0 allowed, fresh, done)
                ])
        ]
  ]

module _ (parse : Text → Result PolicyError Policy) (as_i64 : Json → Option ℕ)
    (delivery : DeliveryEnvelope) (now : ℕ) (w : Tables) where
  -- The tables and the answer that the delivery leads to.
  abbrev outcome : Outcome
  outcome = process_check_run_control parse as_i64 delivery now w

  abbrev Explained : Tables → Type 0
  Explained after = (after.jobs ≡ w.jobs) ⊎ Permitted parse as_i64 delivery now w after.jobs

  in_context-effect :
      (control : CheckRunControl) (context : ControlContext)
      → check_run_control as_i64 delivery ≡ ok (some control)
      → control_context control.check_run_id w ≡ some context
      → Explained (in_context parse delivery control context now w).0
  unfolding in_context
  in_context-effect control context read known =
      elim (Bool-cases (control_delivery_matches_context delivery context)) [
        | inr other ↦ inl (rw (in_context, other) (record_job_control-jobs _ w))
        | inl bound ↦ elim (Result-cases (policy_of parse context.policy_yaml)) [
          | inl (e, failed) ↦ inl (rw (in_context, bound, failed) refl)
          | inr (p, parsed) ↦
              rw (in_context, bound, parsed)
                (elim (decide-jobs delivery control context now w p) [
                  | inl same ↦ inl same
                  | inr (action, changed, is_action, actor, fresh, done) ↦ inr (record {
                    control = control;
                    context = context;
                    p = p;
                    action = action;
                    changed = changed;
                    is_control = read;
                    is_known = known;
                    matches = bound;
                    has_policy = parsed;
                    is_action = is_action;
                    actor = actor;
                    fresh = fresh;
                    result = done;
                  })
                ])
        ]
      ]

  -- Processing a delivery leaves the jobs as they are, or the delivery is the press of a button whose
  -- Check Run belongs to a job of the delivery's own repository and pull request, the button names an
  -- action, its actor may control the job by the policy of the repository, no control of that job was
  -- recorded under the id of the delivery before, and the jobs are what the queue's call for that
  -- action and that job makes of them.
  pub process-effect : Explained outcome.0
  unfolding process_check_run_control process_control
  process-effect = elim (Result-cases (check_run_control as_i64 delivery)) [
    | inl (e, failed) ↦ inl (rw (process_check_run_control, failed) refl)
    | inr (none, read) ↦ inl (rw (process_check_run_control, read) refl)
    | inr (some control, read) ↦ elim (Option-cases (control_context control.check_run_id w)) [
      | inl unknown ↦ inl (rw (process_check_run_control, process_control, read, unknown) refl)
      | inr (context, known) ↦
          rw (process_check_run_control, process_control, read, known)
            (in_context-effect control context read known)
    ]
  ]

  -- Processing a delivery keeps the table of jobs well formed.
  pub process-Inv : Inv w.jobs → Inv outcome.0.jobs
  process-Inv inv = elim process-effect [
    | inl same ↦ rw same inv
    | inr m ↦
        let u = act-Update m.action m.context.job_id now w.jobs _ m.changed m.result in
        rw u.result (update-Inv u.keeps w.jobs inv)
  ]
