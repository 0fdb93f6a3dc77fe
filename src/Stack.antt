-- ===== src/Stack.antt =====
-- src/stack.rs from `BranchState` on: the plan of a branch update and its authorization. The planner
-- of whole stacks is in Stack/Planner.antt.
pub mod Laws
pub mod Planner
mod Tests
use pi_tools.Common.{
  ℕ, Bool, true, false, not, ◌||◌, List, if◌then◌else◌, any, Result, ok, err, ◌>>=◌, ◌>>◌,
  reject_if,
}
use pi_tools.Text.{Text, text_eq}

pub record BranchState : Type 0 where
  pub name : Text
  pub clean : Bool
  pub current : Bool
  pub bot_owned : Bool

pub record RebaseTarget : Type 0 where
  pub branch : Text
  pub can_fast_forward : Bool
  pub has_conflicts : Bool

abbrev pub rebase_onto : Text → RebaseTarget
rebase_onto branch = record { branch = branch; can_fast_forward = false; has_conflicts = false }

abbrev pub fast_forward_to : Text → RebaseTarget
fast_forward_to branch = record { branch = branch; can_fast_forward = true; has_conflicts = false }

abbrev pub conflicting_with : Text → RebaseTarget
conflicting_with branch = record { branch = branch; can_fast_forward = false; has_conflicts = true }

pub data RebaseOutcome : Type 0 where
  fast_forward rebase conflict : RebaseOutcome

pub data PushMode : Type 0 where
  no_push fast_forward_only force_with_lease : PushMode

pub record RebasePlan : Type 0 where
  pub branch : Text
  pub target_branch : Text
  pub outcome : RebaseOutcome
  pub push_mode : PushMode

pub data StackError : Type 0 where
  empty_stack : StackError
  duplicate_pull_request : ℕ → StackError
  missing_parent : (pull_request parent : ℕ) → StackError
  ambiguous_parents : (pull_request : ℕ) (candidates : List ℕ) → StackError
  conflicting_parent : (pull_request explicit_parent inferred_parent : ℕ) → StackError
  cycle_detected ambiguous_order : List ℕ → StackError
  dirty_branch stale_branch force_push_prohibited rewrite_requires_bot_owned_branch :
      Text → StackError
  plan_branch_mismatch : (planned actual : Text) → StackError

abbrev pub outcome_of : RebaseTarget → RebaseOutcome × PushMode
outcome_of target =
    if target.has_conflicts
    then (conflict, no_push)
    else if target.can_fast_forward
    then (fast_forward, fast_forward_only)
    else (rebase, force_with_lease)

-- `RebasePlanner::plan`.
unfoldable pub plan : BranchState → RebaseTarget → Result StackError RebasePlan
plan branch target = do
  reject_if (not branch.clean) (dirty_branch branch.name)
  reject_if (not branch.current) (stale_branch branch.name)
  ok record {
    branch = branch.name;
    target_branch = target.branch;
    outcome = (outcome_of target).0;
    push_mode = (outcome_of target).1;
  }

pub record RebasePolicy : Type 0 where
  pub allow_bot_owned_rewrite : Bool
  pub approved_bot_owned_branches : List Text

abbrev pub is_force : PushMode → Bool
is_force force_with_lease = true
is_force no_push = false
is_force fast_forward_only = false

-- `RebasePolicy::authorize_push`.
unfoldable pub authorize_push :
    RebasePolicy → BranchState → RebasePlan → Result StackError (Unit {0})
unfolding text_eq
authorize_push policy branch plan =
    if not (text_eq plan.branch branch.name)
    then err (plan_branch_mismatch plan.branch branch.name)
    else if not (is_force plan.push_mode)
    then ok tt
    else if not policy.allow_bot_owned_rewrite
    then err (force_push_prohibited branch.name)
    else if not branch.bot_owned
        || not (any (λ b. text_eq b branch.name) policy.approved_bot_owned_branches)
    then err (rewrite_requires_bot_owned_branch branch.name)
    else ok tt
