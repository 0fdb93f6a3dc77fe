-- ===== src/Controls/Run/Invariant.antt =====
-- The invariant of a run under src/pr_controls.rs: unique items within their bound, and one item in
-- progress exactly while the run is running.
use pi_tools.Common.{
  suc, ◌≤◌, ◌≡◌, refl, sym, ap, ◌∙◌, inl, inr, true, false, some, List, [], ◌∷◌, map, arith,
  Bool-cases, Option-cases, length, any, count, Apart, Result, ok, ◌>>=◌, >>=-eq-ok,
}
use pi_tools.Text.{Text, text_eq}
use pi_tools.Controls.Validate.{in_progress, skipped, PlanItem, max_items}
use pi_tools.Controls.Run.{
  ControlAction, approve_plan, skip_current_item, cancel_run, ControlError, ControlRequest,
  RunStatus, waiting_approval, running, completed, cancelled, RunState, is_pending, is_in_progress,
  set_first, is_authorized, apply_approve, after_skip_waiting, after_skip_running, apply_skip,
  cancel_item, apply_cancel, apply_action, apply_control,
}
use pi_tools.Controls.Run.Laws.{
  set_first-count, set_first-none, Advances, Advances-trans, set_first-Advances,
  cancel_item-Advances, Advances-length, same_item, Advances-Apart,
}
use mathlib.Core.Path.{subst}

-- How many items are in progress, and how many are still pending once a run is over.
abbrev pub Shape : RunStatus → List PlanItem → Type 0
Shape waiting_approval items = (count is_in_progress items ≡ 0) × Unit {0}
Shape running items = (count is_in_progress items ≡ 1) × Unit {0}
Shape completed items = (count is_in_progress items ≡ 0) × (any is_pending items ≡ false)
Shape cancelled items = (count is_in_progress items ≡ 0) × (any is_pending items ≡ false)

pub record Coherent (s : RunState) : Type 0 where
  pub unique : Apart same_item s.items
  pub bounded : length s.items ≤ max_items
  pub shape : Shape s.status s.items

-- A pending item that starts, one that is skipped, and a current item that is skipped.
pub start-count :
    (xs : List PlanItem) {ys : List PlanItem}
    → set_first is_pending in_progress xs ≡ some ys
    → count is_in_progress ys ≡ suc (count is_in_progress xs)
start-count xs h =
    let (x, hit, sum) = set_first-count is_in_progress is_pending in_progress xs h in ground arith

skip_pending-count :
    (xs : List PlanItem) {ys : List PlanItem}
    → set_first is_pending skipped xs ≡ some ys
    → count is_in_progress ys ≡ count is_in_progress xs
skip_pending-count xs h =
    let (x, hit, sum) = set_first-count is_in_progress is_pending skipped xs h in ground arith

skip_current-count :
    (xs : List PlanItem) {ys : List PlanItem}
    → set_first is_in_progress skipped xs ≡ some ys
    → suc (count is_in_progress ys) ≡ count is_in_progress xs
skip_current-count xs h =
    let (x, hit, sum) = set_first-count is_in_progress is_in_progress skipped xs h in ground arith

pub start-Advances :
    (xs : List PlanItem) {ys : List PlanItem}
    → set_first is_pending in_progress xs ≡ some ys
    → Advances xs ys
start-Advances xs h = set_first-Advances is_pending in_progress (λ x e. ground arith) xs h

skip_pending-Advances :
    (xs : List PlanItem) {ys : List PlanItem}
    → set_first is_pending skipped xs ≡ some ys
    → Advances xs ys
skip_pending-Advances xs h = set_first-Advances is_pending skipped (λ x e. ground arith) xs h

skip_current-Advances :
    (xs : List PlanItem) {ys : List PlanItem}
    → set_first is_in_progress skipped xs ≡ some ys
    → Advances xs ys
skip_current-Advances xs h = set_first-Advances is_in_progress skipped (λ x e. ground arith) xs h

cancel_item-closed :
    (xs : List PlanItem)
    → (count is_in_progress (map cancel_item xs) ≡ 0)
      × (any is_pending (map cancel_item xs) ≡ false)
cancel_item-closed [] = (refl, refl)
cancel_item-closed (x ∷ xs) = let (a, b) = cancel_item-closed xs in (ground arith, ground arith)

-- What a control does to the items and the status of a run.
record Moved (s s' : RunState) : Type 0 where
  advances : Advances s.items s'.items
  shape : Shape s'.status s'.items

Moved-Coherent : (s s' : RunState) → Moved s s' → Coherent s → Coherent s'
Moved-Coherent s s' m v = record {
  unique = Advances-Apart s.items s'.items m.advances v.unique;
  bounded = omega (arith, Advances-length s.items s'.items m.advances, v.bounded);
  shape = m.shape;
}

abbrev state : RunStatus → List PlanItem → List Text → RunState
state status items ids = record { status = status; items = items; applied_request_ids = ids }

apply_approve-Moved :
    (r : RunStatus) (xs : List PlanItem) (ids : List Text) {s' : RunState}
    → Shape r xs
    → apply_approve (state r xs ids) ≡ ok s'
    → Moved (state r xs ids) s'
unfolding apply_approve
apply_approve-Moved waiting_approval xs ids {s'} v h =
    elim (Option-cases (set_first is_pending in_progress xs)) [
      | inl e ↦ absurd (ground arith)
      | inr (ys, e) ↦
          let same : state running ys ids ≡ s' = ground arith in
          subst (Moved (state waiting_approval xs ids)) same
            (record { advances = start-Advances xs e; shape = (start-count xs e ∙ ap suc v.0, tt) })
    ]
apply_approve-Moved r xs ids v h = absurd (ground arith)

after_skip_waiting-Moved :
    (xs ys : List PlanItem) (ids : List Text)
    → Shape waiting_approval xs
    → set_first is_pending skipped xs ≡ some ys
    → Moved (state waiting_approval xs ids) (after_skip_waiting (state waiting_approval xs ids) ys)
unfolding after_skip_waiting
after_skip_waiting-Moved xs ys ids v e = elim (Bool-cases (any is_pending ys)) [
  | inl more ↦ rw more (record {
    advances = skip_pending-Advances xs e;
    shape = (skip_pending-count xs e ∙ v.0, tt);
  })
  | inr over ↦ rw over (record {
    advances = skip_pending-Advances xs e;
    shape = (skip_pending-count xs e ∙ v.0, over);
  })
]

after_skip_running-Moved :
    (xs ys : List PlanItem) (ids : List Text)
    → Shape running xs
    → set_first is_in_progress skipped xs ≡ some ys
    → Moved (state running xs ids) (after_skip_running (state running xs ids) ys)
unfolding after_skip_running
after_skip_running-Moved xs ys ids v e =
    let left : count is_in_progress ys ≡ 0 = omega (arith, skip_current-count xs e, v.0) in
    elim (Option-cases (set_first is_pending in_progress ys)) [
      | inl over ↦
          rw (over, after_skip_running)
            (record {
              advances = skip_current-Advances xs e;
              shape = (left, set_first-none is_pending in_progress ys over);
            })
      | inr (zs, next) ↦
          rw (next, after_skip_running)
            (record {
              advances =
                  Advances-trans xs ys zs (skip_current-Advances xs e) (start-Advances ys next);
              shape = (start-count ys next ∙ ap suc left, tt);
            })
    ]

apply_skip-Moved :
    (r : RunStatus) (xs : List PlanItem) (ids : List Text) {s' : RunState}
    → Shape r xs
    → apply_skip (state r xs ids) ≡ ok s'
    → Moved (state r xs ids) s'
unfolding apply_skip
apply_skip-Moved waiting_approval xs ids {s'} v h =
    elim (Option-cases (set_first is_pending skipped xs)) [
      | inl e ↦ absurd (ground arith)
      | inr (ys, e) ↦
          let same : after_skip_waiting (state waiting_approval xs ids) ys ≡ s' = ground arith in
          subst (Moved (state waiting_approval xs ids)) same
            (after_skip_waiting-Moved xs ys ids v e)
    ]
apply_skip-Moved running xs ids {s'} v h =
    elim (Option-cases (set_first is_in_progress skipped xs)) [
      | inl e ↦ absurd (ground arith)
      | inr (ys, e) ↦
          let same : after_skip_running (state running xs ids) ys ≡ s' = ground arith in
          subst (Moved (state running xs ids)) same (after_skip_running-Moved xs ys ids v e)
    ]
apply_skip-Moved r xs ids v h = absurd (ground arith)

apply_cancel-Moved :
    (r : RunStatus) (xs : List PlanItem) (ids : List Text) {s' : RunState}
    → apply_cancel (state r xs ids) ≡ ok s'
    → Moved (state r xs ids) s' × (s'.status ≡ cancelled)
unfolding apply_cancel
apply_cancel-Moved r xs ids {s'} h =
    let same : state cancelled (map cancel_item xs) ids ≡ s' = ground arith in
    subst (λ s. Moved (state r xs ids) s × (s.status ≡ cancelled)) same
      (record { advances = cancel_item-Advances xs; shape = cancel_item-closed xs }, refl)

apply_action-Moved :
    (action : ControlAction) (s : RunState) {s' : RunState}
    → Shape s.status s.items
    → apply_action action s ≡ ok s'
    → Moved s s'
unfolding apply_action
apply_action-Moved approve_plan s v h =
    apply_approve-Moved s.status s.items s.applied_request_ids v h
apply_action-Moved skip_current_item s v h =
    apply_skip-Moved s.status s.items s.applied_request_ids v h
apply_action-Moved cancel_run s v h =
    (apply_cancel-Moved s.status s.items s.applied_request_ids h).0

module _ (s : RunState) (request : ControlRequest) (author : Text) (maintainers : List Text) where
  -- What an accepted control went through.
  pub record Accepted (s' : RunState) : Type 0 where
    pub authorized : is_authorized request.actor_login author maintainers ≡ true
    pub fresh : any (text_eq request.request_id) s.applied_request_ids ≡ false
    pub after : RunState
    pub acted : apply_action request.action s ≡ ok after
    pub recorded :
        s' ≡ record after { applied_request_ids = request.request_id ∷ s.applied_request_ids }

  pub apply_control-Accepted :
      {s' : RunState} → apply_control s request author maintainers ≡ ok s' → Accepted s'
  unfolding apply_control
  apply_control-Accepted {s'} h =
      elim (Bool-cases (is_authorized request.actor_login author maintainers)) [
        | inr no_ ↦ absurd (ground arith)
        | inl allowed ↦ elim (Bool-cases (any (text_eq request.request_id) s.applied_request_ids)) [
          | inl again ↦ absurd (ground arith)
          | inr fresh ↦
              let recorded : RunState → Result ControlError RunState = λ u.
                ok
                  (record u { applied_request_ids = request.request_id ∷ s.applied_request_ids }) in
              let inner : (apply_action request.action s >>= recorded) ≡ ok s' = ground arith in
              let (u, e, f) = >>=-eq-ok (apply_action request.action s) recorded inner in
              record {
                authorized = allowed;
                fresh = fresh;
                after = u;
                acted = e;
                recorded = ground arith;
              }
        ]
      ]

  -- A control that is accepted keeps a coherent run coherent: ids stay unique, one item is in progress
  -- exactly while the run is running, and an ended run has no open item. Every item keeps its id,
  -- its summary and its place, and its status only moves forward.
  pub apply_control-Coherent :
      {s' : RunState}
      → Coherent s
      → apply_control s request author maintainers ≡ ok s'
      → Coherent s' × Advances s.items s'.items
  apply_control-Coherent {s'} v h =
      let a = apply_control-Accepted h in
      let moved = apply_action-Moved request.action s v.shape a.acted in
      let c = Moved-Coherent s a.after moved v in
      subst (λ r. Coherent r × Advances s.items r.items) (sym a.recorded)
        (record { unique = c.unique; bounded = c.bounded; shape = c.shape }, moved.advances)
