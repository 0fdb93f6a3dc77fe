-- ===== src/Stack/Planner/Found.antt =====
-- What the second loop of `plan` has found when it ends.
use pi_tools.Common.{
  ℕ, ◌≡◌, ◌↔◌, ◌⊎◌, refl, sym, ap, ◌∙◌, inl, inr, Option, some, List, [], ◌∷◌, ◌++◌, arith, ◌==◌,
  ==_iff, Bool-cases, In, ok, ok-injective, Result-cases,
}
use mathlib.Core.Option.{some-injective}
use mathlib.Core.Path.{subst}
use pi_tools.Maps.{get_entry, put_entry, Ordered}
use pi_tools.Maps.Laws.{
  get_entry-put_entry, get_entry-other, put_entry-Ordered, get_entry-In, In-get_entry,
}
use pi_tools.Stack.Planner.{
  StackPullRequest, BaseUpdate, ByNumber, ByHead, Parents, find_parent, find_parents,
}
use pi_tools.Stack.Planner.Index.{Indexed}
use pi_tools.Stack.Planner.Parents.{ParentIs, Corrects, find_parent-Finds}

-- What the loop has found, where it has been through the pull requests that `done` names.
pub record Found (prs : List StackPullRequest) (done : StackPullRequest → Type 0)
    (parents : Parents) (updates : List BaseUpdate) : Type 0 where
  pub ordered : Ordered parents
  pub parent :
      (n : ℕ) (o : Option ℕ)
      → get_entry n parents ≡ some o
      → (pr : StackPullRequest) × In pr prs × (pr.number ≡ n) × ParentIs prs pr o
  pub sound :
      (u : BaseUpdate) → In u updates → (pr : StackPullRequest) × In pr prs × Corrects prs pr u
  pub complete :
      (pr : StackPullRequest) (u : BaseUpdate) → done pr → Corrects prs pr u → In u updates

In-updates : (u : BaseUpdate) (us new : List BaseUpdate) → In u (us ++ new) ↔ (In u us ⊎ In u new)
In-updates u [] new = (λ h. inr h, λ h. elim h [ inl m ↦ elim m [ ] | inr m ↦ m ])
In-updates u (x ∷ us) new = (
  λ h. elim h [
    | inl e ↦ inl (inl e)
    | inr m ↦ elim ((In-updates u us new).0 m) [ inl a ↦ inl (inr a) | inr b ↦ inr b ]
  ],
  λ h. elim h [
    | inl (inl e) ↦ inl e
    | inl (inr a) ↦ inr ((In-updates u us new).1 (inl a))
    | inr b ↦ inr ((In-updates u us new).1 (inr b))
  ],
)

module _ (prs : List StackPullRequest) (by_number : ByNumber) (by_head : ByHead)
    (v : Indexed prs by_number by_head) where
  Found-add :
      (done : StackPullRequest → Type 0) (parents : Parents) (updates : List BaseUpdate)
      (pr : StackPullRequest) (o : Option ℕ) (new : List BaseUpdate)
      → In pr prs
      → Found prs done parents updates
      → ParentIs prs pr o
      → ((u : BaseUpdate) → In u new ↔ Corrects prs pr u)
      → Found prs (λ q. done q ⊎ (pr ≡ q)) (put_entry pr.number o parents) (updates ++ new)
  Found-add done parents updates pr o new m f is corrects = record {
    ordered = put_entry-Ordered pr.number o parents f.ordered;
    parent = λ n o' h. elim (Bool-cases (pr.number == n)) [
      | inl same ↦
          let e : pr.number ≡ n = (==_iff _ _).0 same in
          let value : o ≡ o' = some-injective _ _ (
            sym (get_entry-put_entry pr.number o parents)
            ∙ ap (λ k. get_entry k (put_entry pr.number o parents)) e
            ∙ h) in
          (pr, m, e, subst (ParentIs prs pr) value is)
      | inr other ↦
          f.parent n o'
            (sym (get_entry-other pr.number n o parents (λ e. ground (arith, e, other))) ∙ h)
    ];
    sound = λ u h. elim ((In-updates u updates new).0 h) [
      | inl a ↦ f.sound u a
      | inr b ↦ (pr, m, (corrects u).0 b)
    ];
    complete = λ q u d c. elim d [
      | inl old ↦ (In-updates u updates new).1 (inl (f.complete q u old c))
      | inr e ↦
          (In-updates u updates new).1
            (inr ((corrects u).1 (subst (λ x. Corrects prs x u) (sym e) c)))
    ];
  }

  Found-weaken :
      (done done' : StackPullRequest → Type 0) (parents : Parents) (updates : List BaseUpdate)
      → ((q : StackPullRequest) → done' q → done q)
      → Found prs done parents updates
      → Found prs done' parents updates
  Found-weaken done done' parents updates less f = record {
    ordered = f.ordered;
    parent = f.parent;
    sound = f.sound;
    complete = λ q u d. f.complete q u (less q d);
  }

  find_parents-from :
      (es : ByNumber) (done : StackPullRequest → Type 0) (parents : Parents)
      (updates : List BaseUpdate) (result : Parents × List BaseUpdate)
      → ((n : ℕ) (pr : StackPullRequest) → In (n, pr) es → In (n, pr) by_number)
      → Found prs done parents updates
      → find_parents by_number by_head es parents updates ≡ ok result
      → Found prs (λ q. done q ⊎ (n : ℕ) × In (n, q) es) result.0 result.1
  unfolding find_parents
  find_parents-from [] done parents updates result within f h =
      let same : (parents, updates) ≡ result = ok-injective (ok (parents, updates)) refl h in
      rw (← same) (
        Found-weaken done _ parents updates
          (λ q d. elim d [ inl old ↦ old | inr (n, m) ↦ elim m [ ] ]) f)
  find_parents-from ((n, pr) ∷ es) done parents updates result within f h =
      let (m, number) =
        v.found n pr (In-get_entry n pr by_number v.ordered (within n pr (inl refl))) in
      elim (Result-cases (find_parent by_number by_head n pr)) [
        | inl (e, failed) ↦ absurd (cc (rw (find_parents, failed) at h))
        | inr ((o, new), found) ↦
            let (is, corrects) =
              find_parent-Finds prs by_number by_head v pr (o, new)
                (ap (λ k. find_parent by_number by_head k pr) number ∙ found) in
            let next =
              find_parents-from es _ (put_entry n o parents) (updates ++ new) result
                (λ k q i. within k q (inr i))
                (subst
                  (λ k. Found prs (λ q. done q ⊎ (pr ≡ q)) (put_entry k o parents) (updates ++ new))
                  number (Found-add done parents updates pr o new m f is corrects))
                (rw (find_parents, found) at h) in
            Found-weaken _ _ _ _
              (λ q d. elim d [
                | inl old ↦ inl (inl old)
                | inr (k, inl e) ↦ inl (inr (ap (λ (x : ℕ × StackPullRequest). x.1) e))
                | inr (k, inr i) ↦ inr (k, i)
              ])
              next
      ]

  -- The second loop, where it ends well, has found what belongs to each pull request.
  pub find_parents-Found :
      (parents : Parents) (updates : List BaseUpdate)
      → find_parents by_number by_head by_number [] [] ≡ ok (parents, updates)
      → Found prs (λ q. In q prs) parents updates
  find_parents-Found parents updates h =
      let start : Found prs (λ q. ⊥) [] [] = record {
        ordered = tt;
        parent = λ n o e. cc;
        sound = λ u m. elim m [ ];
        complete = λ q u d. elim d [ ];
      } in
      Found-weaken _ (λ q. In q prs) parents updates
        (λ q m. inr (q.number, get_entry-In q.number q by_number (v.known q m)))
        (find_parents-from by_number (λ q. ⊥) [] [] (parents, updates) (λ n pr i. i) start h)
