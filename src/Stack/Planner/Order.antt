-- ===== src/Stack/Planner/Order.antt =====
-- What a plan of `StackPlanner::plan` is, and that the planner comes to an end.
use pi_tools.Common.{
  ℕ, suc, ◌≡◌, ◌≢◌, refl, inl, inr, none, some, List, [], ◌∷◌, arith, ◌==◌, ltb, Bool-cases,
  Option-cases, Result-cases, In, length, is_empty, find, ok, err, ok-injective, ==_iff,
}
use mathlib.Core.Option.{some-injective}
use pi_tools.Maps.{get_entry, Ordered}
use pi_tools.Maps.Laws.{In-get_entry}
use pi_tools.Stack.Planner.{
  StackPullRequest, BaseUpdate, StackPlan, ByNumber, Parents, index, find_parents, reject_cycles,
  roots, children_of, follow, arrange, settle, plan,
}
use pi_tools.Stack.Planner.Index.{index-Indexed}
use pi_tools.Stack.Planner.Parents.{list_cases}
use pi_tools.Stack.Planner.Found.{Found, find_parents-Found}
use pi_tools.Stack.Planner.Climb.{reject_cycles-ends}
use pi_tools.Stack.Planner.Children.{children_of-parent}
use pi_tools.Stack.Planner.Walk.{Steps, follow-Steps}

roots-In : (r : ℕ) (ps : Parents) → In r (roots ps) → In (r, none) ps
roots-In r [] m = elim m [ ]
roots-In r ((n, none) ∷ ps) (inl e) = inl (rw e refl)
roots-In r ((n, none) ∷ ps) (inr m) = inr (roots-In r ps m)
roots-In r ((n, some p) ∷ ps) m = inr (roots-In r ps m)

module _ (parents : Parents) (ordered : Ordered parents) where
  -- From the one root the walk ends, by steps down.
  walk :
      (r : ℕ)
      → roots parents ≡ r ∷ []
      → (rest : List ℕ) × (follow (children_of parents []) (suc (length parents)) r
          ≡ some (r ∷ rest))
        × Steps parents r rest
        × (get_entry r parents ≡ some none)
  walk r one =
      let top = In-get_entry r none parents ordered (roots-In r parents (rw one (inl refl))) in
      let (rest, e, steps) =
        follow-Steps parents (children_of parents [])
          (λ a c m. children_of-parent parents a c ordered m) (length parents) r [] top
          (omega arith) in
      (rest, e, steps, top)

  module _ (size : ℕ) (by_number : ByNumber) (updates : List BaseUpdate) where
    arrange-ends : arrange size by_number parents updates ≢ none
    unfolding arrange
    arrange-ends h = elim (list_cases (roots parents)) [
      | inl e ↦ cc (rw (arrange, e) at h)
      | inr (r, [], e) ↦
          let (rest, walked, steps, top) = walk r e in
          elim (Option-cases (find (λ e. ltb 1 (length e.1)) (children_of parents []))) [
            | inr (s, f) ↦ cc (rw (arrange, e, f) at h)
            | inl f ↦ cc (rw (arrange, e, f, walked) at h)
          ]
      | inr (r, s ∷ rs, e) ↦ cc (rw (arrange, e) at h)
    ]

    -- What an arrangement that is found is.
    abbrev pub Arranged : StackPlan → Type 0
    Arranged p =
        (r : ℕ) × (rest : List ℕ) × (p.merge_order ≡ r ∷ rest)
        × (p.required_base_updates ≡ updates)
        × (length p.merge_order ≡ size)
        × (get_entry r parents ≡ some none)
        × Steps parents r rest

    arrange-Arranged :
        (p : StackPlan) → arrange size by_number parents updates ≡ some (ok p) → Arranged p
    unfolding arrange
    arrange-Arranged p h = elim (list_cases (roots parents)) [
      | inl e ↦ absurd (cc (rw (arrange, e) at h))
      | inr (r, s ∷ rs, e) ↦ absurd (cc (rw (arrange, e) at h))
      | inr (r, [], e) ↦
          let (rest, walked, steps, top) = walk r e in
          elim (Option-cases (find (λ e. ltb 1 (length e.1)) (children_of parents []))) [
            | inr (s, f) ↦ absurd (cc (rw (arrange, e, f) at h))
            | inl f ↦ elim (Bool-cases (length (r ∷ rest) == size)) [
              | inr short ↦ absurd (cc (rw (arrange, e, f, walked, short) at h))
              | inl full ↦
                  let same : record { merge_order = r ∷ rest; required_base_updates = updates }
                      ≡ p =
                    ok-injective
                      (ok (record { merge_order = r ∷ rest; required_base_updates = updates })) refl
                      (some-injective _ _ (rw (arrange, e, f, walked, full) at h)) in
                  rw (← same) (r, rest, refl, refl, (==_iff _ _).0 full, top, steps)
            ]
          ]
    ]

-- The planner comes to an end: it answers with a plan or an error, and the fuel of its two walks, one
-- step more than there are pull requests, is enough.
pub plan-ends : (prs : List StackPullRequest) → plan prs ≢ none
unfolding plan settle
plan-ends prs h = elim (Bool-cases (is_empty prs)) [
  | inl empty ↦ cc (rw (plan, empty) at h)
  | inr some_ ↦ elim (Result-cases (index prs [] (λ b. []))) [
    | inl (e, failed) ↦ cc (rw (plan, some_, failed) at h)
    | inr ((by_number, by_head), indexed) ↦
        elim (Result-cases (find_parents by_number by_head by_number [] [])) [
          | inl (e, failed) ↦ cc (rw (plan, some_, indexed, failed) at h)
          | inr ((parents, updates), found) ↦
              let v = index-Indexed prs by_number by_head indexed in
              let f = find_parents-Found prs by_number by_head v parents updates found in
              elim (Option-cases (reject_cycles parents)) [
                | inl dry ↦ reject_cycles-ends parents dry
                | inr (err e, cyclic) ↦ cc (rw (plan, some_, indexed, found, settle, cyclic) at h)
                | inr (ok u, acyclic) ↦
                    arrange-ends parents f.ordered (length prs) by_number updates
                      (rw (plan, some_, indexed, found, settle, acyclic) at h)
              ]
        ]
  ]
]

-- What lies behind a plan.
pub record Planned (prs : List StackPullRequest) (p : StackPlan) : Type 0 where
  pub by_number : ByNumber
  pub parents : Parents
  pub updates : List BaseUpdate
  pub found : Found prs (λ q. In q prs) parents updates
  pub arranged : Arranged parents found.ordered (length prs) by_number updates p

pub plan-Planned :
    (prs : List StackPullRequest) (p : StackPlan) → plan prs ≡ some (ok p) → Planned prs p
unfolding plan settle
plan-Planned prs p h = elim (Bool-cases (is_empty prs)) [
  | inl empty ↦ absurd (cc (rw (plan, empty) at h))
  | inr some_ ↦ elim (Result-cases (index prs [] (λ b. []))) [
    | inl (e, failed) ↦ absurd (cc (rw (plan, some_, failed) at h))
    | inr ((by_number, by_head), indexed) ↦
        elim (Result-cases (find_parents by_number by_head by_number [] [])) [
          | inl (e, failed) ↦ absurd (cc (rw (plan, some_, indexed, failed) at h))
          | inr ((parents, updates), found) ↦
              let v = index-Indexed prs by_number by_head indexed in
              let f = find_parents-Found prs by_number by_head v parents updates found in
              elim (Option-cases (reject_cycles parents)) [
                | inl dry ↦ absurd (reject_cycles-ends parents dry)
                | inr (err e, cyclic) ↦
                    absurd (cc (rw (plan, some_, indexed, found, settle, cyclic) at h))
                | inr (ok u, acyclic) ↦ record {
                  by_number = by_number;
                  parents = parents;
                  updates = updates;
                  found = f;
                  arranged =
                      arrange-Arranged parents f.ordered (length prs) by_number updates p
                        (rw (plan, some_, indexed, found, settle, acyclic) at h);
                }
              ]
        ]
  ]
]
