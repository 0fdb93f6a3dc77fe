-- ===== src/Stack/Planner/Tests.antt =====
-- Three pull requests on one another, the second with a declared parent and a base that is behind.
use pi_tools.Common.{ℕ, ◌≡◌, ◌≢◌, ◌↔◌, refl, none, some, List, [], ◌∷◌, In, Distinct, ok, err}
use pi_tools.Text.{codes}
use pi_tools.Stack.{cycle_detected}
use pi_tools.Stack.Planner.{StackPullRequest, StackPlan, plan}
use pi_tools.Stack.Planner.Order.{plan-ends}
use pi_tools.Stack.Planner.Errors.{plan-cycle}
use pi_tools.Stack.Planner.Line.{HasParent, Line, numbers, plan-Line}

abbrev low : StackPullRequest
low = record {
  number = 8;
  head_branch = codes "low";
  base_branch = codes "main";
  explicit_parent = none;
}

abbrev middle : StackPullRequest
middle = record {
  number = 5;
  head_branch = codes "middle";
  base_branch = codes "main";
  explicit_parent = some 8;
}

abbrev top : StackPullRequest
top = record {
  number = 7;
  head_branch = codes "top";
  base_branch = codes "middle";
  explicit_parent = none;
}

abbrev stack : List StackPullRequest
stack = middle ∷ top ∷ low ∷ []

abbrev expected : StackPlan
expected = record {
  merge_order = 8 ∷ 5 ∷ 7 ∷ [];
  required_base_updates =
      record { pull_request = 5; from_branch = codes "main"; to_branch = codes "low" } ∷ [];
}

planned : plan stack ≡ some (ok expected)
unfolding plan
planned = refl

abbrev looped : List StackPullRequest
looped = record middle { explicit_parent = some 7 } ∷ top ∷ low ∷ []

abbrev cycle : List ℕ
cycle = 5 ∷ 7 ∷ []

-- A cycle is refused.
refused : plan looped ≡ some (err (cycle_detected cycle))
unfolding plan
refused = refl

plan-ends_example : plan looped ≡ none → ⊥
plan-ends_example = plan-ends looped

plan-Line_example :
    Line stack expected.merge_order
    × Distinct expected.merge_order
    × ((n : ℕ) → In n expected.merge_order ↔ In n (numbers stack))
plan-Line_example = plan-Line stack expected planned

plan-cycle_example :
    (cycle ≢ []) × ((n : ℕ) → In n cycle → (m : ℕ) × In m cycle × HasParent looped n (some m))
plan-cycle_example = plan-cycle looped cycle refused
