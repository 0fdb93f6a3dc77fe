-- ===== src/Stack/Planner/Line.antt =====
-- The merge order and the corrections of base branches of a plan of `StackPlanner::plan`.
use pi_tools.Common.{
  ℕ, ◌≡◌, ◌↔◌, sym, ap, ◌∙◌, inl, inr, Option, none, some, List, [], ◌∷◌, map, In, All, All-In,
  length, length-map, Distinct, Distinct-all, ok,
}
use mathlib.Core.Path.{subst}
use pi_tools.Maps.{get_entry}
use pi_tools.Stack.Planner.{StackPullRequest, BaseUpdate, StackPlan, Parents, plan}
use pi_tools.Stack.Planner.Parents.{ParentIs, Corrects}
use pi_tools.Stack.Planner.Order.{plan-Planned}
use pi_tools.Stack.Planner.Walk.{Steps, Steps-Distinct}

-- The pull request with a number, and its parent.
abbrev pub HasParent : List StackPullRequest → ℕ → Option ℕ → Type 0
HasParent prs n o = (pr : StackPullRequest) × In pr prs × (pr.number ≡ n) × ParentIs prs pr o

-- The first number has no parent, each other one has the number before it for its parent.
abbrev pub FollowOn : List StackPullRequest → ℕ → List ℕ → Type 0
FollowOn prs a [] = Unit
FollowOn prs a (b ∷ l) = HasParent prs b (some a) × FollowOn prs b l

abbrev pub Line : List StackPullRequest → List ℕ → Type 0
Line prs [] = ⊥
Line prs (r ∷ l) = HasParent prs r none × FollowOn prs r l

abbrev pub numbers : List StackPullRequest → List ℕ
numbers prs = map (λ pr. pr.number) prs

numbers-In :
    (pr : StackPullRequest) (prs : List StackPullRequest) → In pr prs → In pr.number (numbers prs)
numbers-In pr [] m = elim m [ ]
numbers-In pr (q ∷ prs) (inl e) = inl (ap (λ (x : StackPullRequest). x.number) e)
numbers-In pr (q ∷ prs) (inr m) = inr (numbers-In pr prs m)

Steps-FollowOn :
    (prs : List StackPullRequest) (parents : Parents)
    → ((n : ℕ) (o : Option ℕ) → get_entry n parents ≡ some o → HasParent prs n o)
    → (a : ℕ) (l : List ℕ) → Steps parents a l
    → FollowOn prs a l
Steps-FollowOn prs parents has a [] s = tt
Steps-FollowOn prs parents has a (b ∷ l) (h, s) =
    (has b (some a) h, Steps-FollowOn prs parents has b l s)

keys-numbers :
    (prs : List StackPullRequest) (parents : Parents)
    → ((n : ℕ) (o : Option ℕ) → get_entry n parents ≡ some o → HasParent prs n o)
    → (n : ℕ) (o : Option ℕ) → get_entry n parents ≡ some o
    → In n (numbers prs)
keys-numbers prs parents has n o h =
    let (pr, m, e, is) = has n o h in subst (λ k. In k (numbers prs)) e (numbers-In pr prs m)

Steps-numbers :
    (prs : List StackPullRequest) (parents : Parents)
    → ((n : ℕ) (o : Option ℕ) → get_entry n parents ≡ some o → HasParent prs n o)
    → (a : ℕ) (l : List ℕ) → Steps parents a l
    → All (λ n. In n (numbers prs)) l
Steps-numbers prs parents has a [] s = tt
Steps-numbers prs parents has a (b ∷ l) (h, s) =
    (keys-numbers prs parents has b (some a) h, Steps-numbers prs parents has b l s)

module _ (prs : List StackPullRequest) (p : StackPlan) (h : plan prs ≡ some (ok p)) where
  -- The merge order of a plan names each pull request once and no other number, and it is one line: the
  -- first has no parent, and the parent of each other one, declared or else by its base branch, stands
  -- directly before it.
  pub plan-Line :
      Line prs p.merge_order
      × Distinct p.merge_order
      × ((n : ℕ) → In n p.merge_order ↔ In n (numbers prs))
  plan-Line =
      let d = plan-Planned prs p h in
      let (r, rest, order, same, size, top, steps) = d.arranged in
      let has = d.found.parent in
      let distinct = Steps-Distinct d.parents r rest [] steps top in
      let within : All (λ k. In k (numbers prs)) (r ∷ rest) =
        (keys-numbers prs d.parents has r none top, Steps-numbers prs d.parents has r rest steps) in
      let full =
        ap length (sym order)
        ∙ size
        ∙ sym (length-map (λ (pr : StackPullRequest). pr.number) prs) in
      rw order (
        (has r none top, Steps-FollowOn prs d.parents has r rest steps),
        distinct,
        λ n. (
          λ m. All-In (λ k. In k (numbers prs)) (r ∷ rest) within m,
          λ m. Distinct-all (r ∷ rest) (numbers prs) distinct within full n m,
        ),
      )

  -- The corrections of a plan are those of the pull requests that declare a parent whose head branch is
  -- not their base branch: from that base branch to that head branch.
  pub plan-base_updates :
      (u : BaseUpdate)
      → In u p.required_base_updates ↔ (pr : StackPullRequest) × In pr prs × Corrects prs pr u
  plan-base_updates u =
      let d = plan-Planned prs p h in
      let (r, rest, order, same, size, top, steps) = d.arranged in
      rw same (d.found.sound u, λ (pr, m, c). d.found.complete pr u m c)
