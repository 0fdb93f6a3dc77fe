-- ===== src/Stack/Planner/Errors.antt =====
-- When `StackPlanner::plan` answers with `CycleDetected`.
use pi_tools.Common.{
  ℕ, suc, ◌≡◌, ◌≢◌, ap, ◌∙◌, inl, inr, some, List, [], ◌∷◌, ◌==◌, Bool-cases, Option-cases,
  Result-cases, In, length, ok, err, is_empty, ltb, find,
}
use pi_tools.Maps.{get_entry}
use pi_tools.Stack.{cycle_detected}
use pi_tools.Stack.Planner.{
  StackPullRequest, BaseUpdate, ByNumber, ByHead, Parents, parent_of, reject_cycles, first,
  conflict_with, index, find_parent, find_parents, roots, children_of, follow, arrange, settle,
  plan,
}
use pi_tools.Stack.Planner.Index.{index-Indexed}
use pi_tools.Stack.Planner.Parents.{list_cases}
use pi_tools.Stack.Planner.Found.{find_parents-Found}
use pi_tools.Stack.Planner.Line.{HasParent}
use pi_tools.Stack.Planner.Cycle.{reject_from-Cycle}

-- The errors that are no cycle.
index-other :
    (prs : List StackPullRequest) (by_number : ByNumber) (by_head : ByHead) (c : List ℕ)
    → index prs by_number by_head ≢ err (cycle_detected c)
unfolding index
index-other [] by_number by_head c h = cc h
index-other (pr ∷ prs) by_number by_head c h = elim (Option-cases (get_entry pr.number by_number)) [
  | inr (q, old) ↦ cc (rw (index, old) at h)
  | inl new ↦ index-other prs _ _ c (rw (index, new) at h)
]

module _ (by_number : ByNumber) (by_head : ByHead) (c : List ℕ) where
  find_parent-other :
      (n : ℕ) (pr : StackPullRequest) → find_parent by_number by_head n pr ≢ err (cycle_detected c)
  unfolding find_parent
  find_parent-other n pr h = elim (Bool-cases (ltb 1 (length (by_head pr.base_branch)))) [
    | inl many ↦ cc (rw (find_parent, many) at h)
    | inr few ↦ elim (Option-cases pr.explicit_parent) [
      | inl e ↦ cc (rw (find_parent, few, e) at h)
      | inr (a, e) ↦ elim (Option-cases (get_entry a by_number)) [
        | inl m ↦ cc (rw (find_parent, few, e, m) at h)
        | inr (q, m) ↦ elim (Option-cases (conflict_with a (first (by_head pr.base_branch)))) [
          | inl k ↦ cc (rw (find_parent, few, e, m, k) at h)
          | inr (i, k) ↦ cc (rw (find_parent, few, e, m, k) at h)
        ]
      ]
    ]
  ]

  find_parents-other :
      (es : ByNumber) (parents : Parents) (updates : List BaseUpdate)
      → find_parents by_number by_head es parents updates ≢ err (cycle_detected c)
  unfolding find_parents
  find_parents-other [] parents updates h = cc h
  find_parents-other (e ∷ es) parents updates h =
      elim (Result-cases (find_parent by_number by_head e.0 e.1)) [
        | inl (f, failed) ↦
            let same : f ≡ cycle_detected c = cc (rw (find_parents, failed) at h) in
            find_parent-other e.0 e.1 (failed ∙ ap err same)
        | inr ((o, new), found) ↦ find_parents-other es _ _ (rw (find_parents, found) at h)
      ]

  arrange-other :
      (size : ℕ) (parents : Parents) (updates : List BaseUpdate)
      → arrange size by_number parents updates ≢ some (err (cycle_detected c))
  unfolding arrange
  arrange-other size parents updates h = elim (list_cases (roots parents)) [
    | inl e ↦ cc (rw (arrange, e) at h)
    | inr (r, s ∷ rs, e) ↦ cc (rw (arrange, e) at h)
    | inr (r, [], e) ↦
        elim (Option-cases (find (λ e. ltb 1 (length e.1)) (children_of parents []))) [
          | inr (s, f) ↦ cc (rw (arrange, e, f) at h)
          | inl f ↦ elim (Option-cases (follow (children_of parents []) (suc (length parents)) r)) [
            | inl dry ↦ cc (rw (arrange, e, f, dry) at h)
            | inr (l, walked) ↦ elim (Bool-cases (length l == size)) [
              | inl full ↦ cc (rw (arrange, e, f, walked, full) at h)
              | inr short ↦ cc (rw (arrange, e, f, walked, short) at h)
            ]
          ]
        ]
  ]

parent_of-get :
    (parents : Parents) (n m : ℕ)
    → parent_of parents n ≡ some m
    → get_entry n parents ≡ some (some m)
parent_of-get parents n m h = elim (Option-cases (get_entry n parents)) [
  | inl absent ↦ absurd (cc (rw (parent_of, absent) at h))
  | inr (o, found) ↦ let same : o ≡ some m = rw (parent_of, found) at h in found ∙ ap some same
]

-- Where the planner answers that there is a cycle, its error names pull requests, at least one, each of which
-- has one of them for its parent.
pub plan-cycle :
    (prs : List StackPullRequest) (c : List ℕ)
    → plan prs ≡ some (err (cycle_detected c))
    → (c ≢ []) × ((n : ℕ) → In n c → (m : ℕ) × In m c × HasParent prs n (some m))
unfolding plan settle reject_cycles
plan-cycle prs c h = elim (Bool-cases (is_empty prs)) [
  | inl empty ↦ absurd (cc (rw (plan, empty) at h))
  | inr some_ ↦ elim (Result-cases (index prs [] (λ b. []))) [
    | inl (e, failed) ↦
        let same : e ≡ cycle_detected c = cc (rw (plan, some_, failed) at h) in
        absurd (index-other prs [] (λ b. []) c (failed ∙ ap err same))
    | inr ((by_number, by_head), indexed) ↦
        elim (Result-cases (find_parents by_number by_head by_number [] [])) [
          | inl (e, failed) ↦
              let same : e ≡ cycle_detected c = cc (rw (plan, some_, indexed, failed) at h) in
              absurd (find_parents-other by_number by_head c by_number [] [] (failed ∙ ap err same))
          | inr ((parents, updates), found) ↦
              let v = index-Indexed prs by_number by_head indexed in
              let f = find_parents-Found prs by_number by_head v parents updates found in
              elim (Option-cases (reject_cycles parents)) [
                | inl dry ↦ absurd (cc (rw (plan, some_, indexed, found, settle, dry) at h))
                | inr (ok u, acyclic) ↦ absurd (
                    arrange-other by_number by_head c (length prs) parents updates
                      (rw (plan, some_, indexed, found, settle, acyclic) at h))
                | inr (err e, cyclic) ↦
                    let same : e ≡ cycle_detected c =
                      cc (rw (plan, some_, indexed, found, settle, cyclic) at h) in
                    let (named, closed) =
                      reject_from-Cycle parents parents c (cyclic ∙ ap (λ x. some (err x)) same) in
                    (
                      named,
                      λ n i.
                          let (m, j, up) = closed n i in
                          (m, j, f.parent n (some m) (parent_of-get parents n m up)),
                    )
              ]
        ]
  ]
]
