-- ===== src/Stack/Planner.antt =====
-- `StackPlanner::plan` and `reject_cycles` of src/stack.rs. A number of a pull request is not
-- negative, so a natural number stands for the `i32`. `by_head` is only looked up, so it is a function.
pub mod Index
pub mod Parents
pub mod Found
pub mod Climb
pub mod Children
pub mod Walk
pub mod Order
pub mod Line
pub mod Cycle
pub mod Errors
mod Tests
use pi_tools.Common.{
  ℕ, not, Option, none, some, List, [], ◌∷◌, ◌++◌, map, zero, suc, ltb, leb, ◌==◌, if◌then◌else◌,
  length, is_empty, any, filter, find, drop, Result, ok, err,
}
use pi_tools.Text.{Text, text_eq}
use pi_tools.Maps.{get_entry, put_entry}
use pi_tools.Stack.{
  StackError, empty_stack, duplicate_pull_request, missing_parent, ambiguous_parents,
  conflicting_parent, cycle_detected, ambiguous_order,
}

pub record StackPullRequest : Type 0 where
  pub number : ℕ
  pub head_branch : Text
  pub base_branch : Text
  pub explicit_parent : Option ℕ

pub record BaseUpdate : Type 0 where
  pub pull_request : ℕ
  pub from_branch : Text
  pub to_branch : Text

pub record StackPlan : Type 0 where
  pub merge_order : List ℕ
  pub required_base_updates : List BaseUpdate

-- `by_number`, `by_head` with its default, and `parents`.
abbrev pub ByNumber : Type 0
ByNumber = List (ℕ × StackPullRequest)

abbrev pub ByHead : Type 0
ByHead = Text → List ℕ

abbrev pub Parents : Type 0
Parents = List (ℕ × Option ℕ)

abbrev pub push_head : StackPullRequest → ByHead → ByHead
push_head pr by_head b =
    if text_eq b pr.head_branch then by_head b ++ (pr.number ∷ []) else by_head b

-- The first loop of `plan`.
unfoldable pub index :
    List StackPullRequest → ByNumber → ByHead → Result StackError (ByNumber × ByHead)
unfolding text_eq
index [] by_number by_head = ok (by_number, by_head)
index (pr ∷ prs) by_number by_head = elim (get_entry pr.number by_number) [
  | some other ↦ err (duplicate_pull_request pr.number)
  | none ↦ index prs (put_entry pr.number pr by_number) (push_head pr by_head)
]

abbrev pub first {ℓ} : {A : Type ℓ} → List A → Option A
first [] = none
first (x ∷ xs) = some x

-- The inferred parent, where it is not the declared one.
abbrev pub conflict_with : ℕ → Option ℕ → Option ℕ
conflict_with parent none = none
conflict_with parent (some inferred_parent) =
    if inferred_parent == parent then none else some inferred_parent

abbrev pub base_update : ℕ → StackPullRequest → StackPullRequest → List BaseUpdate
base_update number pr parent =
    if text_eq pr.base_branch parent.head_branch
    then []
    else record {
      pull_request = number;
      from_branch = pr.base_branch;
      to_branch = parent.head_branch;
    }
      ∷ []

-- The body of the second loop: the parent of a pull request, and the correction of its base.
unfoldable pub find_parent :
    ByNumber → ByHead → ℕ → StackPullRequest → Result StackError (Option ℕ × List BaseUpdate)
unfolding text_eq
find_parent by_number by_head number pr =
    let inferred = by_head pr.base_branch in
    if ltb 1 (length inferred)
    then err (ambiguous_parents number inferred)
    else elim pr.explicit_parent [
      | none ↦ ok (first inferred, [])
      | some parent ↦ elim (get_entry parent by_number) [
        | none ↦ err (missing_parent number parent)
        | some parent_pull_request ↦ elim (conflict_with parent (first inferred)) [
          | some inferred_parent ↦ err (conflicting_parent number parent inferred_parent)
          | none ↦ ok (some parent, base_update number pr parent_pull_request)
        ]
      ]
    ]

unfoldable pub find_parents :
    ByNumber
    → ByHead
    → ByNumber
    → Parents
    → List BaseUpdate
    → Result StackError (Parents × List BaseUpdate)
unfolding find_parent
find_parents by_number by_head [] parents updates = ok (parents, updates)
find_parents by_number by_head (e ∷ es) parents updates =
    elim (find_parent by_number by_head e.0 e.1) [
      | err failure ↦ err failure
      | ok (parent, new) ↦
          find_parents by_number by_head es (put_entry e.0 parent parents) (updates ++ new)
    ]

-- `Vec::sort_unstable`.
unfoldable pub insert_number : ℕ → List ℕ → List ℕ
insert_number n [] = n ∷ []
insert_number n (m ∷ ms) = if leb n m then n ∷ m ∷ ms else m ∷ insert_number n ms

unfoldable pub sort_numbers : List ℕ → List ℕ
unfolding insert_number
sort_numbers [] = []
sort_numbers (n ∷ ns) = insert_number n (sort_numbers ns)

abbrev pub parent_of : Parents → ℕ → Option ℕ
parent_of parents n = elim (get_entry n parents) [ none ↦ none | some parent ↦ parent ]

pub data Ascent : Type 0 where
  out_of_fuel at_root : Ascent
  in_cycle : List ℕ → Ascent

-- The inner loop of `reject_cycles`: one step up for each unit of fuel.
unfoldable pub climb : Parents → ℕ → List ℕ → List (ℕ × ℕ) → ℕ → Ascent
unfolding sort_numbers
climb parents zero path positions current = out_of_fuel
climb parents (suc n) path positions current = elim (get_entry current positions) [
  | some position ↦ in_cycle (sort_numbers (drop position path))
  | none ↦ elim (parent_of parents current) [
    | none ↦ at_root
    | some parent ↦
        climb parents n (path ++ (current ∷ [])) (put_entry current (length path) positions) parent
  ]
]

-- `reject_cycles` from the given entries on; `none` is that the fuel ended.
unfoldable pub reject_from : Parents → Parents → Option (Result StackError (Unit {0}))
unfolding climb
reject_from parents [] = some (ok tt)
reject_from parents (e ∷ es) = elim (climb parents (suc (length parents)) [] [] e.0) [
  | out_of_fuel ↦ none
  | in_cycle numbers ↦ some (err (cycle_detected numbers))
  | at_root ↦ reject_from parents es
]

unfoldable pub reject_cycles : Parents → Option (Result StackError (Unit {0}))
unfolding reject_from
reject_cycles parents = reject_from parents parents

abbrev pub roots : Parents → List ℕ
roots [] = []
roots ((n, none) ∷ ps) = n ∷ roots ps
roots ((n, some parent) ∷ ps) = roots ps

abbrev pub Children : Type 0
Children = List (ℕ × List ℕ)

abbrev pub siblings_of : Children → ℕ → List ℕ
siblings_of children n = elim (get_entry n children) [ none ↦ [] | some ns ↦ ns ]

unfoldable pub children_of : Parents → Children → Children
children_of [] children = children
children_of ((n, none) ∷ ps) children = children_of ps children
children_of ((n, some parent) ∷ ps) children =
    children_of ps (put_entry parent (siblings_of children parent ++ (n ∷ [])) children)

-- The loop that fills `merge_order`.
unfoldable pub follow : Children → ℕ → ℕ → Option (List ℕ)
follow children zero current = none
follow children (suc n) current = elim (first (siblings_of children current)) [
  | none ↦ some (current ∷ [])
  | some child ↦ elim (follow children n child) [ none ↦ none | some rest ↦ some (current ∷ rest) ]
]

abbrev pub omitted : ByNumber → List ℕ → List ℕ
omitted by_number merge_order =
    filter (λ n. not (any (λ m. m == n) merge_order)) (map (λ e. e.0) by_number)

-- From the roots on, for `size` pull requests.
unfoldable pub arrange :
    ℕ → ByNumber → Parents → List BaseUpdate → Option (Result StackError StackPlan)
unfolding children_of follow
arrange size by_number parents updates = elim (roots parents) [
  | root ∷ [] ↦
      let children = children_of parents [] in
      elim (find (λ e. ltb 1 (length e.1)) children) [
        | some e ↦ some (err (ambiguous_order e.1))
        | none ↦ elim (follow children (suc (length parents)) root) [
          | none ↦ none
          | some merge_order ↦ some (
              if length merge_order == size
              then ok (record { merge_order = merge_order; required_base_updates = updates })
              else err (ambiguous_order (omitted by_number merge_order)))
        ]
      ]
  | rs ↦ some (err (ambiguous_order rs))
]

-- From the parents on.
unfoldable pub settle :
    ℕ → ByNumber → Parents → List BaseUpdate → Option (Result StackError StackPlan)
unfolding reject_cycles arrange
settle size by_number parents updates = elim (reject_cycles parents) [
  | none ↦ none
  | some (err failure) ↦ some (err failure)
  | some (ok u) ↦ arrange size by_number parents updates
]

-- `StackPlanner::plan`.
unfoldable pub plan : List StackPullRequest → Option (Result StackError StackPlan)
unfolding index find_parents settle
plan pull_requests =
    if is_empty pull_requests
    then some (err empty_stack)
    else elim (index pull_requests [] (λ b. [])) [
      | err failure ↦ some (err failure)
      | ok (by_number, by_head) ↦ elim (find_parents by_number by_head by_number [] []) [
        | err failure ↦ some (err failure)
        | ok (parents, updates) ↦ settle (length pull_requests) by_number parents updates
      ]
    ]
