-- ===== src/Controls/Run.antt =====
-- src/pr_controls.rs: the state of a run and the controls on it (`RunState`, `ControlRequest`,
-- `is_authorized`, `apply_control`).
pub mod Laws
pub mod Invariant
pub mod Start
pub mod Permission
use pi_tools.Common.{
  Bool, true, false, not, ◌&&◌, ◌||◌, Option, none, some, List, [], ◌∷◌, map, if◌then◌else◌,
  is_empty, any, Result, ok, err, ◌>>=◌, ◌>>◌, reject_if, ok_or,
}
use pi_tools.Text.{Text, codes, text_eq, eq_ignore_ascii_case}
use pi_tools.Controls.Validate.{
  ItemStatus, pending, in_progress, skipped, PlanItem, ContractError, validate_identifier,
  validate_items,
}

pub data ControlAction : Type 0 where
  approve_plan skip_current_item cancel_run : ControlAction

pub data ControlError : Type 0 where
  unknown_action unauthorized duplicate_action run_not_active approval_not_applicable
        no_current_item :
      ControlError

unfoldable pub parse_action : Text → Result ControlError ControlAction
unfolding text_eq
parse_action value =
    if text_eq value (codes "approve-plan")
    then ok approve_plan
    else if text_eq value (codes "skip-current-item")
    then ok skip_current_item
    else if text_eq value (codes "cancel-run")
    then ok cancel_run
    else err unknown_action

pub record ControlRequest : Type 0 where
  pub request_id : Text
  pub actor_login : Text
  pub action : ControlAction

-- `ControlRequest::new`.
unfoldable pub new_request : Text → Text → ControlAction → Result ContractError ControlRequest
unfolding validate_identifier
new_request request_id actor_login action = do
  validate_identifier (codes "control request id") request_id
  validate_identifier (codes "actor login") actor_login
  ok (record { request_id = request_id; actor_login = actor_login; action = action })

pub data RunStatus : Type 0 where
  waiting_approval running completed cancelled : RunStatus

-- `applied_request_ids` is a set: a list without order.
pub record RunState : Type 0 where
  pub status : RunStatus
  pub items : List PlanItem
  pub applied_request_ids : List Text

abbrev pub is_pending : PlanItem → Bool
is_pending item = elim item.status [ pending ↦ true | _ ↦ false ]

abbrev pub is_in_progress : PlanItem → Bool
is_in_progress item = elim item.status [ in_progress ↦ true | _ ↦ false ]

-- `items.iter_mut().find(…)` and an assignment to the status of what it finds.
unfoldable pub set_first : (PlanItem → Bool) → ItemStatus → List PlanItem → Option (List PlanItem)
set_first test status [] = none
set_first test status (item ∷ rest) =
    if test item
    then some (record item { status = status } ∷ rest)
    else elim (set_first test status rest) [ none ↦ none | some rest' ↦ some (item ∷ rest') ]

abbrev pub started : List PlanItem → RunState
started items = elim (set_first is_pending in_progress items) [
  | some items' ↦ record { status = running; items = items'; applied_request_ids = [] }
  | none ↦ record {
    status = if any is_in_progress items then running else completed;
    items = items;
    applied_request_ids = [];
  }
]

-- `RunState::new`.
unfoldable pub new_run : List PlanItem → Result ContractError RunState
unfolding validate_items set_first
new_run items = do validate_items items; ok (started items)

-- `RunState::waiting_approval`.
unfoldable pub waiting_run : List PlanItem → Result ContractError RunState
unfolding validate_items
waiting_run items = do
  validate_items items
  ok (record { status = waiting_approval; items = items; applied_request_ids = [] })

unfoldable pub is_authorized : Text → Text → List Text → Bool
unfolding eq_ignore_ascii_case
is_authorized actor_login pr_author maintainers =
    not (is_empty actor_login)
    && ((not (is_empty pr_author) && eq_ignore_ascii_case actor_login pr_author)
        || any
            (λ maintainer. not (is_empty maintainer) && eq_ignore_ascii_case actor_login maintainer)
            maintainers)

unfoldable pub apply_approve : RunState → Result ControlError RunState
apply_approve s = elim s.status [
  | waiting_approval ↦ do
    items ← ok_or (set_first is_pending in_progress s.items) run_not_active
    ok (record s { items = items; status = running })
  | _ ↦ err approval_not_applicable
]

-- After a skip: while the run waits, the next item stays pending.
unfoldable pub after_skip_waiting : RunState → List PlanItem → RunState
after_skip_waiting s items =
    if any is_pending items
    then record s { items = items }
    else record s { items = items; status = completed }

unfoldable pub after_skip_running : RunState → List PlanItem → RunState
after_skip_running s items = elim (set_first is_pending in_progress items) [
  | some items' ↦ record s { items = items' }
  | none ↦ record s { items = items; status = completed }
]

unfoldable pub apply_skip : RunState → Result ControlError RunState
unfolding after_skip_waiting after_skip_running
apply_skip s = elim s.status [
  | waiting_approval ↦ do
    items ← ok_or (set_first is_pending skipped s.items) no_current_item
    ok (after_skip_waiting s items)
  | running ↦ do
    items ← ok_or (set_first is_in_progress skipped s.items) no_current_item
    ok (after_skip_running s items)
  | _ ↦ err run_not_active
]

abbrev pub cancel_item : PlanItem → PlanItem
cancel_item item =
    if is_pending item || is_in_progress item
    then record item { status = ItemStatus.cancelled }
    else item

unfoldable pub apply_cancel : RunState → Result ControlError RunState
apply_cancel s = elim s.status [
  | waiting_approval ↦ ok (record s { items = map cancel_item s.items; status = cancelled })
  | running ↦ ok (record s { items = map cancel_item s.items; status = cancelled })
  | _ ↦ err run_not_active
]

unfoldable pub apply_action : ControlAction → RunState → Result ControlError RunState
unfolding apply_approve apply_skip apply_cancel
apply_action approve_plan s = apply_approve s
apply_action skip_current_item s = apply_skip s
apply_action cancel_run s = apply_cancel s

unfoldable pub apply_control :
    RunState → ControlRequest → Text → List Text → Result ControlError RunState
unfolding is_authorized apply_action set_first
apply_control s request pr_author maintainers = do
  reject_if (not (is_authorized request.actor_login pr_author maintainers)) unauthorized
  reject_if (any (text_eq request.request_id) s.applied_request_ids) duplicate_action
  updated ← apply_action request.action s
  ok (record updated { applied_request_ids = request.request_id ∷ s.applied_request_ids })
