-- ===== src/Workflow/Again.antt =====
-- A delivery that GitHub sends again: what `process_check_run_control` leaves for the second time.
use pi_tools.Common.{
  ℕ, ◌≡◌, refl, sym, ap, ◌∙◌, ==_self, inl, inr, Bool, true, Option, none, some, Bool-cases, Result,
  ok, err, Result-cases, Option-cases,
}
use mathlib.Core.Path.{ap₂}
use pi_tools.Text.{Text, codes}
use pi_tools.Text.Laws.{text_eq_self}
use pi_tools.Json.{Json}
use pi_tools.Policy.{Policy, PolicyError}
use pi_tools.Controls.Run.{ControlAction, parse_action, is_authorized}
use pi_tools.Events.{DeliveryEnvelope, CheckRunControl, EventParseError, check_run_control}
use pi_tools.Repositories.{
  ControlContext, JobControl, Tables, control_context, record_audit, record_job_control,
}
use pi_tools.Workflow.{
  Outcome, accept, act, apply_to_queue, control_delivery_matches_context, control_row, decide,
  in_context, policy_of, process_check_run_control, process_control,
}
use pi_tools.Workflow.Effect.{
  act-Update, is_recorded, record_job_control-old, record_job_control-new, process-effect,
}
use pi_tools.Workflow.Context.{rest, with_rest, control_context-rest, Update-control_context}

module _ (delivery : DeliveryEnvelope) (control : CheckRunControl) (context : ControlContext) where
  -- The control is recorded, and what the lookup reads beside the jobs is as it was.
  abbrev Recorded : Tables → Tables → Type 0
  Recorded before after = (rest after ≡ rest before) × (is_recorded context delivery after ≡ true)

  module _ (decision : Text) (w : Tables) where
    abbrev row : JobControl
    row = control_row delivery control context decision

    record_job_control-Recorded : Recorded w (record_job_control row w).0
    unfolding record_job_control
    record_job_control-Recorded = elim (Bool-cases (is_recorded context delivery w)) [
      | inl old ↦ rw (record_job_control-old row w old) (refl, old)
      | inr fresh ↦
          rw (record_job_control-new row w fresh)
            (refl, rw (==_self context.job_id, text_eq_self delivery.delivery_id) refl)
    ]

  apply_to_queue-Recorded :
      (action : ControlAction) (now : ℕ) (w : Tables)
      → is_recorded context delivery w ≡ true
      → Recorded w (apply_to_queue action control context now w).0
  unfolding apply_to_queue record_audit
  apply_to_queue-Recorded action now w h =
      elim (Result-cases (act action context.job_id now w.jobs)) [
        | inl (e, failed) ↦ rw (apply_to_queue, failed) (refl, h)
        | inr (result, done) ↦ rw (apply_to_queue, done) (refl, h)
      ]

  module _ (now : ℕ) (w : Tables) where
    accept-Recorded :
        (action : ControlAction) → Recorded w (accept delivery control context action now w).0
    unfolding accept
    accept-Recorded action = elim (Bool-cases (is_recorded context delivery w)) [
      | inl old ↦
          rw (accept, record_job_control-old (row (codes "accepted") w) w old)
            (record_job_control-Recorded (codes "accepted") w)
      | inr fresh ↦
          let (same, kept) = record_job_control-Recorded (codes "accepted") w in
          rw (accept, record_job_control-new (row (codes "accepted") w) w fresh)
            (let (same', kept') = apply_to_queue-Recorded action now _ kept in
              (same' ∙ same, kept'))
    ]

    decide-Recorded : (p : Policy) → Recorded w (decide delivery control context p now w).0
    unfolding decide
    decide-Recorded p = elim (Result-cases (parse_action control.action)) [
      | inl (e, unknown) ↦ rw (decide, unknown) (record_job_control-Recorded _ w)
      | inr (action, known) ↦
          elim (Bool-cases (is_authorized control.actor_login context.pr_author p.maintainers)) [
            | inr refused ↦ rw (decide, known, refused) (record_job_control-Recorded _ w)
            | inl allowed ↦ rw (decide, known, allowed) (accept-Recorded action)
          ]
    ]

    -- A control that is recorded changes nothing.
    decide-settled :
        (p : Policy)
        → is_recorded context delivery w ≡ true
        → (decide delivery control context p now w).0 ≡ w
    unfolding decide accept
    decide-settled p h =
        let old = λ (decision : Text). record_job_control-old (row decision w) w h in
        elim (Result-cases (parse_action control.action)) [
          | inl (e, unknown) ↦ rw (decide, unknown, old (codes "rejected-unknown")) refl
          | inr (action, known) ↦
              elim (Bool-cases
                (is_authorized control.actor_login context.pr_author p.maintainers)) [
                  | inr refused ↦
                      rw (decide, known, refused, old (codes "rejected-unauthorized")) refl
                  | inl allowed ↦
                      rw (decide, known, allowed, accept, old (codes "accepted"))
                        (ap (λ (x : Tables × Bool). x.0) (old (codes "accepted")))
                ]
        ]

module _ (parse : Text → Result PolicyError Policy) (delivery : DeliveryEnvelope) where
  module _ (control : CheckRunControl) (context : ControlContext) where
    -- What the second processing of a control leaves, where the context is the same.
    in_context-again :
        (now now' : ℕ) (w : Tables)
        → let after = (in_context parse delivery control context now w).0 in
          (rest after ≡ rest w) × ((in_context parse delivery control context now' after).0 ≡ after)
    unfolding in_context
    in_context-again now now' w =
        elim (Bool-cases (control_delivery_matches_context delivery context)) [
          | inr other ↦
              let row = control_row delivery control context (codes "rejected-context") in
              let (same, kept) =
                record_job_control-Recorded delivery control context (codes "rejected-context") w in
              rw (in_context, other)
                (same, ap (λ (x : Tables × Bool). x.0) (record_job_control-old row _ kept))
          | inl bound ↦ elim (Result-cases (policy_of parse context.policy_yaml)) [
            | inl (e, failed) ↦
                rw (in_context, bound, failed) (refl, rw (in_context, bound, failed) refl)
            | inr (p, parsed) ↦
                let (same, kept) = decide-Recorded delivery control context now w p in
                rw (in_context, bound, parsed)
                  (
                    same,
                    rw (in_context, bound, parsed)
                        (decide-settled delivery control context now' _ p kept),
                  )
          ]
        ]

  module _ (as_i64 : Json → Option ℕ) (now : ℕ) (w : Tables) where
    process-failed :
        (e : EventParseError)
        → check_run_control as_i64 delivery ≡ err e
        → (process_check_run_control parse as_i64 delivery now w).0 ≡ w
    unfolding process_check_run_control
    process-failed e failed = rw (process_check_run_control, failed) refl

    process-other :
        check_run_control as_i64 delivery ≡ ok none
        → (process_check_run_control parse as_i64 delivery now w).0 ≡ w
    unfolding process_check_run_control
    process-other other = rw (process_check_run_control, other) refl

    module _ (control : CheckRunControl)
        (read : check_run_control as_i64 delivery ≡ ok (some control)) where
      process-unknown :
          control_context control.check_run_id w ≡ none
          → (process_check_run_control parse as_i64 delivery now w).0 ≡ w
      unfolding process_check_run_control process_control
      process-unknown unknown = rw (process_check_run_control, process_control, read, unknown) refl

      process-found :
          (context : ControlContext)
          → control_context control.check_run_id w ≡ some context
          → process_check_run_control parse as_i64 delivery now w
            ≡ in_context parse delivery control context now w
      unfolding process_check_run_control process_control
      process-found context known =
          rw (process_check_run_control, process_control, read, known) refl

  module _ (as_i64 : Json → Option ℕ) (now now' : ℕ) (w : Tables) where
    abbrev processed : Tables
    processed = (process_check_run_control parse as_i64 delivery now w).0

    processed-control_context :
        (check_run_id : ℕ)
        → rest processed ≡ rest w
        → control_context check_run_id processed ≡ control_context check_run_id w
    processed-control_context check_run_id same =
        elim (process-effect parse as_i64 delivery now w) [
          | inl kept ↦
              control_context-rest check_run_id processed
              ∙ ap₂ (λ r t. control_context check_run_id (with_rest r t)) same kept
              ∙ sym (control_context-rest check_run_id w)
          | inr m ↦
              Update-control_context check_run_id w processed same
                (act-Update m.action m.context.job_id now w.jobs _ m.changed m.result)
        ]

    -- A delivery that is processed once more, at any later or earlier time, leaves every table as the
    -- first time left it: the jobs, the recorded controls and the audit.
    pub process-again :
        (process_check_run_control parse as_i64 delivery now' processed).0 ≡ processed
    process-again = elim (Result-cases (check_run_control as_i64 delivery)) [
      | inl (e, failed) ↦ process-failed as_i64 now' processed e failed
      | inr (none, other) ↦ process-other as_i64 now' processed other
      | inr (some control, read) ↦ elim (Option-cases (control_context control.check_run_id w)) [
        | inl unknown ↦
            let same = process-unknown as_i64 now w control read unknown in
            process-unknown as_i64 now' processed control read (rw same unknown)
        | inr (context, known) ↦
            let first =
              ap (λ (x : Outcome). x.0) (process-found as_i64 now w control read context known) in
            let (same, again) = in_context-again control context now now' w in
            let known' =
              processed-control_context control.check_run_id (ap rest first ∙ same) ∙ known in
            ap (λ (x : Outcome). x.0)
              (process-found as_i64 now' processed control read context known')
            ∙ ap (λ u. (in_context parse delivery control context now' u).0) first
            ∙ again
            ∙ sym first
      ]
    ]
