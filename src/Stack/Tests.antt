-- ===== src/Stack/Tests.antt =====
-- The plan and the authorization of one push.
use pi_tools.Common.{◌≡◌, refl, ◌↔◌, ◌⊎◌, true, [], ◌∷◌, In, ok}
use pi_tools.Text.{codes}
use pi_tools.Stack.{
  BranchState, RebasePlan, RebasePolicy, RebaseTarget, authorize_push, plan, rebase, rebase_onto,
  force_with_lease,
}
use pi_tools.Stack.Laws.{authorize_push-plan}

abbrev branch : BranchState
branch = record { name = codes "bot/topic"; clean = true; current = true; bot_owned = true }

abbrev target : RebaseTarget
target = rebase_onto (codes "main")

abbrev policy : RebasePolicy
policy = record {
  allow_bot_owned_rewrite = true;
  approved_bot_owned_branches = codes "bot/topic" ∷ [];
}

abbrev rewrite : RebasePlan
rewrite = record {
  branch = codes "bot/topic";
  target_branch = codes "main";
  outcome = rebase;
  push_mode = force_with_lease;
}

plan-rewrite : plan branch target ≡ ok rewrite
unfolding plan
plan-rewrite = refl

authorize_push-plan_example : (authorize_push policy branch rewrite ≡ ok tt) ↔ (
    (target.has_conflicts ≡ true)
    ⊎ (target.can_fast_forward ≡ true)
    ⊎ (policy.allow_bot_owned_rewrite ≡ true)
      × (branch.bot_owned ≡ true)
      × In branch.name policy.approved_bot_owned_branches)
authorize_push-plan_example = authorize_push-plan policy branch target rewrite plan-rewrite
