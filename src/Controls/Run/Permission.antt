-- ===== src/Controls/Run/Permission.antt =====
-- When src/pr_controls.rs accepts a control, and with which error it refuses one.
use pi_tools.Common.{
  ◌≡◌, refl, ◌∙◌, ◌≢◌, ◌↔◌, ◌⊎◌, inl, inr, Bool, true, false, not, ◌&&◌, List, [], ◌∷◌, arith,
  Bool-cases, and_parts, or_cases, Option-cases, is_empty, any, In, any-In, Result-cases, Result,
  ok, err, ◌>>=◌, ok_or, is_ok,
}
use mathlib.Core.Bool.{or-true}
use pi_tools.Text.{Text, text_eq, to_ascii_lowercase, eq_ignore_ascii_case}
use pi_tools.Text.Laws.{text_eq_iff, text_eq_self}
use pi_tools.Controls.Validate.{ItemStatus, in_progress, skipped, PlanItem}
use pi_tools.Controls.Run.{
  ControlAction, approve_plan, skip_current_item, cancel_run, ControlError, duplicate_action,
  run_not_active, no_current_item, ControlRequest, RunStatus, waiting_approval, running, RunState,
  is_pending, is_in_progress, set_first, is_authorized, apply_approve, apply_skip, apply_cancel,
  apply_action, apply_control,
}
use pi_tools.Controls.Run.Laws.{set_first-none, set_first-any}
use pi_tools.Controls.Run.Invariant.{apply_control-Accepted}

-- Who may control a run: its author or a maintainer, under ASCII case, never by an empty login.
abbrev SameLogin : Text → Text → Type 0
SameLogin a b = to_ascii_lowercase a ≡ to_ascii_lowercase b

abbrev pub MayControl : Text → Text → List Text → Type 0
MayControl actor author maintainers =
    (actor ≢ [])
    × ((author ≢ []) × SameLogin actor author
        ⊎ (m : Text) × In m maintainers × (m ≢ []) × SameLogin actor m)

eq_ignore_ascii_case_iff : (a b : Text) → (eq_ignore_ascii_case a b ≡ true) ↔ SameLogin a b
unfolding eq_ignore_ascii_case
eq_ignore_ascii_case_iff a b = text_eq_iff (to_ascii_lowercase a) (to_ascii_lowercase b)

is_empty-false : (s : Text) → (is_empty s ≡ false) ↔ (s ≢ [])
is_empty-false [] = (λ h e. cc, λ f. absurd (f refl))
is_empty-false (x ∷ s) = (λ h e. cc, λ f. refl)

any_witness :
    (p : Text → Bool) (xs : List Text) → any p xs ≡ true → (m : Text) × In m xs × (p m ≡ true)
any_witness p [] h = cc
any_witness p (x ∷ xs) h = elim (or_cases h) [
  | inl hit ↦ (x, inl refl, hit)
  | inr later ↦ let (m, n, hit) = any_witness p xs later in (m, inr n, hit)
]

not-true : {b : Bool} → not b ≡ true → b ≡ false
not-true h = ground arith

is_authorized_sound :
    (actor author : Text) (maintainers : List Text)
    → is_authorized actor author maintainers ≡ true
    → MayControl actor author maintainers
unfolding is_authorized
is_authorized_sound actor author maintainers h =
    let (named, known) = and_parts h in
    (
      (is_empty-false actor).0 (not-true named),
      elim (or_cases known) [
        | inl own ↦
            let (n, same) = and_parts own in
            inl (
              (is_empty-false author).0 (not-true n),
              (eq_ignore_ascii_case_iff actor author).0 same,
            )
        | inr kept ↦
            let (m, i, hit) =
              any_witness (λ x. not (is_empty x) && eq_ignore_ascii_case actor x) maintainers
                kept in
            let (n, same) =
              and_parts {a = not (is_empty m)} {b = eq_ignore_ascii_case actor m} hit in
            inr (m, i, (is_empty-false m).0 (not-true n), (eq_ignore_ascii_case_iff actor m).0 same)
      ],
    )

is_authorized_complete :
    (actor author : Text) (maintainers : List Text)
    → MayControl actor author maintainers
    → is_authorized actor author maintainers ≡ true
unfolding is_authorized
is_authorized_complete actor author maintainers (named, inl (known, same)) =
    rw ((is_empty-false actor).1 named, (is_empty-false author).1 known)
      (rw ((eq_ignore_ascii_case_iff actor author).1 same) refl)
is_authorized_complete actor author maintainers (named, inr (m, n, known, same)) =
    let hit : (not (is_empty m) && eq_ignore_ascii_case actor m) ≡ true =
      rw ((is_empty-false m).1 known, (eq_ignore_ascii_case_iff actor m).1 same) refl in
    let listed =
      any-In (λ x. not (is_empty x) && eq_ignore_ascii_case actor x) m maintainers n hit in
    rw ((is_empty-false actor).1 named, listed) (or-true _)

-- An actor is authorized exactly if its login is not empty and is, but for the case of ASCII letters, that
-- of the author, which is not empty, or that of a maintainer, which is not empty.
pub is_authorized_iff :
    (actor author : Text) (maintainers : List Text)
    → (is_authorized actor author maintainers ≡ true) ↔ MayControl actor author maintainers
is_authorized_iff actor author maintainers =
    (is_authorized_sound actor author maintainers, is_authorized_complete actor author maintainers)

-- Whether a run can take a control, from its status and its items.
abbrev pub is_available : ControlAction → RunStatus → List PlanItem → Bool
is_available approve_plan waiting_approval items = any is_pending items
is_available approve_plan _ items = false
is_available skip_current_item waiting_approval items = any is_pending items
is_available skip_current_item running items = any is_in_progress items
is_available skip_current_item _ items = false
is_available cancel_run waiting_approval items = true
is_available cancel_run running items = true
is_available cancel_run _ items = false

set_first-is_ok :
    (test : PlanItem → Bool) (to : ItemStatus) (e : ControlError) (xs : List PlanItem)
    → is_ok (ok_or (set_first test to xs) e) ≡ any test xs
set_first-is_ok test to f xs = elim (Option-cases (set_first test to xs)) [
  | inl e ↦ rw (e, set_first-none test to xs e) refl
  | inr (ys, e) ↦ rw (e, set_first-any test to xs e) refl
]

is_ok->>= :
    {A : Type 0} (m : Result ControlError A) (f : A → RunState)
    → is_ok (m >>= λ a. ok (f a)) ≡ is_ok m
is_ok->>= (ok a) f = refl
is_ok->>= (err e) f = refl

approve_skip-is_available :
    (r : RunStatus) (xs : List PlanItem) (ids : List Text)
    → let s : RunState = record { status = r; items = xs; applied_request_ids = ids } in
      (is_ok (apply_approve s) ≡ is_available approve_plan r xs)
      × (is_ok (apply_skip s) ≡ is_available skip_current_item r xs)
unfolding apply_approve apply_skip
approve_skip-is_available waiting_approval xs ids = (
  is_ok->>= _ _ ∙ set_first-is_ok is_pending in_progress run_not_active xs,
  is_ok->>= _ _ ∙ set_first-is_ok is_pending skipped no_current_item xs,
)
approve_skip-is_available running xs ids =
    (refl, is_ok->>= _ _ ∙ set_first-is_ok is_in_progress skipped no_current_item xs)
approve_skip-is_available r xs ids = (refl, refl)

apply_action-is_available :
    (action : ControlAction) (s : RunState)
    → is_ok (apply_action action s) ≡ is_available action s.status s.items
unfolding apply_action apply_cancel
apply_action-is_available approve_plan s =
    (approve_skip-is_available s.status s.items s.applied_request_ids).0
apply_action-is_available skip_current_item s =
    (approve_skip-is_available s.status s.items s.applied_request_ids).1
apply_action-is_available cancel_run s = ground arith

-- The run behind one control more: a control that is refused leaves it.
pub after_control : RunState → ControlRequest × Text × List Text → RunState
unfolding apply_control
after_control s (request, author, maintainers) = elim (apply_control s request author maintainers) [
  | ok s' ↦ s'
  | err e ↦ s
]

pub after_controls : RunState → List (ControlRequest × Text × List Text) → RunState
unfolding after_control
after_controls s [] = s
after_controls s (control ∷ later) = after_controls (after_control s control) later

after_control-keeps :
    (id : Text) (control : ControlRequest × Text × List Text) (s : RunState)
    → any (text_eq id) s.applied_request_ids ≡ true
    → any (text_eq id) (after_control s control).applied_request_ids ≡ true
unfolding after_control
after_control-keeps id (request, author, maintainers) s h =
    elim (Result-cases (apply_control s request author maintainers)) [
      | inl (e, refused) ↦ rw (after_control, refused) h
      | inr (s', accepted) ↦
          let a = apply_control-Accepted s request author maintainers accepted in
          rw (after_control, accepted) (rw a.recorded (ground (arith, h)))
    ]

after_controls-keeps :
    (id : Text) (later : List (ControlRequest × Text × List Text)) (s : RunState)
    → any (text_eq id) s.applied_request_ids ≡ true
    → any (text_eq id) (after_controls s later).applied_request_ids ≡ true
unfolding after_controls
after_controls-keeps id [] s h = h
after_controls-keeps id (control ∷ later) s h =
    after_controls-keeps id later (after_control s control) (after_control-keeps id control s h)

module _ (s : RunState) (request : ControlRequest) (author : Text) (maintainers : List Text) where
  -- A control is accepted exactly if its actor may control the run, its request id is new, and the
  -- run can take it.
  pub apply_control-is_ok : is_ok (apply_control s request author maintainers) ≡ (
      is_authorized request.actor_login author maintainers
      && (not (any (text_eq request.request_id) s.applied_request_ids)
          && is_available request.action s.status s.items))
  unfolding apply_control
  apply_control-is_ok = elim (Bool-cases (is_authorized request.actor_login author maintainers)) [
    | inr no_ ↦ rw no_ refl
    | inl allowed ↦ elim (Bool-cases (any (text_eq request.request_id) s.applied_request_ids)) [
      | inl again ↦ rw (allowed, again) refl
      | inr fresh ↦
          rw (allowed, fresh)
            (is_ok->>= (apply_action request.action s) _
              ∙ apply_action-is_available request.action s)
    ]
  ]

  -- A request that was accepted is refused as a duplicate from then on, after any further controls and whatever
  -- it asks, if its actor is authorized.
  pub apply_control-duplicate :
      {s' : RunState} (later : List (ControlRequest × Text × List Text)) (again : ControlRequest)
      (author' : Text) (maintainers' : List Text)
      → apply_control s request author maintainers ≡ ok s'
      → again.request_id ≡ request.request_id
      → is_authorized again.actor_login author' maintainers' ≡ true
      → apply_control (after_controls s' later) again author' maintainers' ≡ err duplicate_action
  unfolding apply_control
  apply_control-duplicate {s'} later again author' maintainers' h same allowed =
      let a = apply_control-Accepted s request author maintainers h in
      let known : any (text_eq again.request_id) s'.applied_request_ids ≡ true =
        rw (same, a.recorded) (rw (text_eq_self request.request_id) refl) in
      rw (allowed, after_controls-keeps again.request_id later s' known) refl
