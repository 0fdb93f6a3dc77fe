-- ===== src/Stack/Laws.antt =====
-- Which pushes the policy of src/stack.rs authorizes.
use pi_tools.Common.{
  ◌≡◌, ap, ◌∙◌, ◌↔◌, ◌⊎◌, inl, inr, true, not, ◌&&◌, ◌||◌, List, [], ◌∷◌, arith, and_parts,
  or_cases, any, In, any-In, ok,
}
use pi_tools.Text.{Text, text_eq}
use pi_tools.Text.Laws.{text_eq_iff, text_eq_self}
use pi_tools.Stack.{
  BranchState, RebasePlan, RebasePolicy, RebaseTarget, authorize_push, is_force, outcome_of, plan,
}

any_named :
    (name : Text) (names : List Text) → (any (λ b. text_eq b name) names ≡ true) ↔ In name names
any_named name [] = (λ h. ground (arith, h), λ m. elim m [ ])
any_named name (x ∷ xs) = (
  λ h. elim (or_cases h) [
    | inl here ↦ inl ((text_eq_iff x name).0 here)
    | inr later ↦ inr ((any_named name xs).0 later)
  ],
  λ m. any-In (λ b. text_eq b name) name (x ∷ xs) m (text_eq_self name),
)

-- What a plan for a branch and a target is.
plan-ok :
    (branch : BranchState) (target : RebaseTarget) (p : RebasePlan)
    → plan branch target ≡ ok p
    → (p.branch ≡ branch.name) × (p.push_mode ≡ (outcome_of target).1)
unfolding plan
plan-ok branch target p h = (ground arith, ground arith)

authorized :
    (policy : RebasePolicy) (branch : BranchState) (p : RebasePlan)
    → text_eq p.branch branch.name ≡ true
    → (authorize_push policy branch p ≡ ok tt) ↔ (
        (not (is_force p.push_mode)
          || (policy.allow_bot_owned_rewrite
              && (branch.bot_owned
                  && any (λ b. text_eq b branch.name) policy.approved_bot_owned_branches)))
        ≡ true)
unfolding authorize_push
authorized policy branch p same = ground arith

is_force-outcome_of :
    (target : RebaseTarget)
    → is_force (outcome_of target).1 ≡ (not target.has_conflicts && not target.can_fast_forward)
is_force-outcome_of target = ground arith

-- The push that a plan for the branch asks for is authorized exactly if the target conflicts or can be
-- fast-forwarded to, so that nothing is rewritten, or the policy allows rewrites, the branch is the bot's
-- and it is one of the branches that the policy names.
pub authorize_push-plan :
    (policy : RebasePolicy) (branch : BranchState) (target : RebaseTarget) (p : RebasePlan)
    → plan branch target ≡ ok p
    → (authorize_push policy branch p ≡ ok tt) ↔ (
        (target.has_conflicts ≡ true)
        ⊎ (target.can_fast_forward ≡ true)
        ⊎ (policy.allow_bot_owned_rewrite ≡ true)
          × (branch.bot_owned ≡ true)
          × In branch.name policy.approved_bot_owned_branches)
authorize_push-plan policy branch target p h =
    let (named, mode) = plan-ok branch target p h in
    let here : text_eq p.branch branch.name ≡ true = rw named (text_eq_self branch.name) in
    let names = any_named branch.name policy.approved_bot_owned_branches in
    let force = ap is_force mode ∙ is_force-outcome_of target in
    let step = authorized policy branch p here in
    (
      λ k. elim (or_cases (step.0 k)) [
        | inl safe ↦ ground (arith, force)
        | inr listed ↦
            let (allow, rest) = and_parts listed in
            let (owned, known) = and_parts rest in inr (inr (allow, owned, names.0 known))
      ],
      elim [
        | inl conflicts ↦ step.1 (ground (arith, force))
        | inr (inl forward) ↦ step.1 (ground (arith, force))
        | inr (inr (allow, owned, known)) ↦ step.1 (ground (arith, names.1 known))
      ],
    )
