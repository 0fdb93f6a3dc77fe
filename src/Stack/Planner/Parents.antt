-- ===== src/Stack/Planner/Parents.antt =====
-- The parents and the corrections of base branches that the second loop of `plan` finds.
use pi_tools.Common.{
  ℕ, ◌≡◌, ◌≢◌, ◌↔◌, ◌⊎◌, refl, sym, ap, ◌∙◌, inl, inr, false, Option, none, some, List, [], ◌∷◌,
  ltb, Bool-cases, Option-cases, In, ok, ok-injective, length,
}
use mathlib.Core.Option.{some-injective}
use mathlib.Core.Path.{subst}
use pi_tools.Text.{text_eq}
use pi_tools.Text.Laws.{text_eq_iff}
use pi_tools.Maps.{get_entry}
use pi_tools.Stack.Planner.{
  StackPullRequest, BaseUpdate, ByNumber, ByHead, first, conflict_with, base_update, find_parent,
}
use pi_tools.Stack.Planner.Index.{Indexed}

-- The parent that a pull request has among others: the one that it declares, or else the one whose
-- head branch is its base branch, or none.
abbrev pub ParentIs : List StackPullRequest → StackPullRequest → Option ℕ → Type 0
ParentIs prs pr none =
    (pr.explicit_parent ≡ none)
    × ((q : StackPullRequest) → In q prs → q.head_branch ≢ pr.base_branch)
ParentIs prs pr (some a) =
    (q : StackPullRequest) × In q prs
    × (q.number ≡ a)
    × ((pr.explicit_parent ≡ some a)
        ⊎ (pr.explicit_parent ≡ none) × (q.head_branch ≡ pr.base_branch))

-- A correction: the pull request declares a parent whose head branch is not its base branch.
abbrev pub Corrects : List StackPullRequest → StackPullRequest → BaseUpdate → Type 0
Corrects prs pr u =
    (q : StackPullRequest) × In q prs
    × (pr.explicit_parent ≡ some q.number)
    × (pr.base_branch ≢ q.head_branch)
    × (u ≡ record {
      pull_request = pr.number;
      from_branch = pr.base_branch;
      to_branch = q.head_branch;
    })

pub list_cases : (ns : List ℕ) → (ns ≡ []) ⊎ (n : ℕ) × (ms : List ℕ) × (ns ≡ n ∷ ms)
list_cases [] = inl refl
list_cases (n ∷ ns) = inr (n, ns, refl)

module _ (prs : List StackPullRequest) (by_number : ByNumber) (by_head : ByHead)
    (v : Indexed prs by_number by_head) where
  first-ParentIs :
      (pr : StackPullRequest)
      → pr.explicit_parent ≡ none
      → ParentIs prs pr (first (by_head pr.base_branch))
  first-ParentIs pr undeclared = elim (list_cases (by_head pr.base_branch)) [
    | inl empty ↦ rw empty (
      undeclared,
      λ q m e.
          let named : In q.number (by_head pr.base_branch) =
            subst (λ b. In q.number (by_head b)) e (v.heads q m) in
          elim (rw empty at named) [ ],
    )
    | inr (n, ns, e) ↦
        let (q, m, same, head) = v.head pr.base_branch n (rw e (inl refl)) in
        rw e (q, m, same, inr (undeclared, head))
  ]

  base_update_iff :
      (pr q : StackPullRequest) (u : BaseUpdate)
      → In q prs
      → pr.explicit_parent ≡ some q.number
      → In u (base_update pr.number pr q) ↔ Corrects prs pr u
  base_update_iff pr q u m declared = (
    λ h. elim (Bool-cases (text_eq pr.base_branch q.head_branch)) [
      | inl same ↦ elim (rw same at h) [ ]
      | inr other ↦ elim (rw other at h) [
        | inl e ↦ (q, m, declared, λ e'. absurd (cc ((text_eq_iff _ _).1 e', other)), sym e)
        | inr m ↦ elim m [ ]
      ]
    ],
    λ (q', m', declared', apart, e).
        let number : q.number ≡ q'.number = some-injective _ _ (sym declared ∙ declared') in
        let one : q ≡ q' =
          some-injective _ _
            (sym (v.known q m) ∙ ap (λ n. get_entry n by_number) number ∙ v.known q' m') in
        elim (Bool-cases (text_eq pr.base_branch q.head_branch)) [
          | inl same ↦
              absurd (
                apart ((text_eq_iff _ _).0 same ∙ ap (λ (x : StackPullRequest). x.head_branch) one))
          | inr other ↦ rw other (inl (rw (one, e) refl))
        ],
  )

  -- What one round of the loop finds, where it ends well.
  abbrev pub Finds : StackPullRequest → Option ℕ × List BaseUpdate → Type 0
  Finds pr (parent, new) =
      ParentIs prs pr parent × ((u : BaseUpdate) → In u new ↔ Corrects prs pr u)

  declared-Finds :
      (pr : StackPullRequest) (a : ℕ) (result : Option ℕ × List BaseUpdate)
      → pr.explicit_parent ≡ some a
      → ltb 1 (length (by_head pr.base_branch)) ≡ false
      → find_parent by_number by_head pr.number pr ≡ ok result
      → Finds pr result
  unfolding find_parent
  declared-Finds pr a result declared few h = elim (Option-cases (get_entry a by_number)) [
    | inl missing ↦ absurd (cc (rw (find_parent, few, declared, missing) at h))
    | inr (q, found) ↦ elim (Option-cases (conflict_with a (first (by_head pr.base_branch)))) [
      | inr (i, conflict) ↦ absurd (cc (rw (find_parent, few, declared, found, conflict) at h))
      | inl none_ ↦
          let same : (some a, base_update pr.number pr q) ≡ result =
            ok-injective (ok (some a, base_update pr.number pr q)) refl
              (rw (find_parent, few, declared, found, none_) at h) in
          let (m, number) = v.found a q found in
          rw (← same) (
            (q, m, number, inl declared),
            λ u. base_update_iff pr q u m (declared ∙ ap some (sym number)),
          )
    ]
  ]

  pub find_parent-Finds :
      (pr : StackPullRequest) (result : Option ℕ × List BaseUpdate)
      → find_parent by_number by_head pr.number pr ≡ ok result
      → Finds pr result
  unfolding find_parent
  find_parent-Finds pr result h = elim (Bool-cases (ltb 1 (length (by_head pr.base_branch)))) [
    | inl many ↦ absurd (cc (rw (find_parent, many) at h))
    | inr few ↦ elim (Option-cases pr.explicit_parent) [
      | inr (a, declared) ↦ declared-Finds pr a result declared few h
      | inl undeclared ↦
          let same : (first (by_head pr.base_branch), []) ≡ result =
            ok-injective (ok (first (by_head pr.base_branch), [])) refl
              (rw (find_parent, few, undeclared) at h) in
          rw (← same) (
            first-ParentIs pr undeclared,
            λ u.
                (λ m. elim m [ ], λ (q, m, declared, apart, e). absurd (cc (undeclared, declared))),
          )
    ]
  ]
