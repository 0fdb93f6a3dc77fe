-- ===== src/Stack/Planner/Index.antt =====
-- What the first loop of `plan` leaves in `by_number` and `by_head`.
use pi_tools.Common.{
  ℕ, ◌≡◌, ◌↔◌, ◌⊎◌, refl, sym, ap, ◌∙◌, inl, inr, none, some, List, [], ◌∷◌, ◌++◌, arith, ◌==◌,
  ==_iff, Bool-cases, Option-cases, In, ok, ok-injective,
}
use mathlib.Core.Option.{some-injective}
use pi_tools.Text.{Text, text_eq}
use pi_tools.Text.Laws.{text_eq_iff, text_eq_self}
use pi_tools.Maps.{get_entry, put_entry, Ordered}
use pi_tools.Maps.Laws.{get_entry-put_entry, get_entry-other, put_entry-Ordered}
use pi_tools.Stack.Planner.{StackPullRequest, ByNumber, ByHead, push_head, index}

-- Of some pull requests: what a number finds, and what a head branch finds.
pub record Indexed (seen : List StackPullRequest) (by_number : ByNumber) (by_head : ByHead)
    : Type 0 where
  pub ordered : Ordered by_number
  pub found :
      (n : ℕ) (pr : StackPullRequest)
      → get_entry n by_number ≡ some pr
      → In pr seen × (pr.number ≡ n)
  pub known : (pr : StackPullRequest) → In pr seen → get_entry pr.number by_number ≡ some pr
  pub head :
      (b : Text) (n : ℕ)
      → In n (by_head b)
      → (pr : StackPullRequest) × In pr seen × (pr.number ≡ n) × (pr.head_branch ≡ b)
  pub heads : (pr : StackPullRequest) → In pr seen → In pr.number (by_head pr.head_branch)

In-append : (n : ℕ) (xs ys : List ℕ) → In n (xs ++ ys) ↔ (In n xs ⊎ In n ys)
In-append n [] ys = (λ h. inr h, λ h. elim h [ inl m ↦ elim m [ ] | inr m ↦ m ])
In-append n (x ∷ xs) ys = (
  λ h. elim h [
    | inl e ↦ inl (inl e)
    | inr m ↦ elim ((In-append n xs ys).0 m) [ inl a ↦ inl (inr a) | inr b ↦ inr b ]
  ],
  λ h. elim h [
    | inl (inl e) ↦ inl e
    | inl (inr a) ↦ inr ((In-append n xs ys).1 (inl a))
    | inr b ↦ inr ((In-append n xs ys).1 (inr b))
  ],
)

module _ (seen : List StackPullRequest) (by_number : ByNumber) (by_head : ByHead)
    (v : Indexed seen by_number by_head) (pr : StackPullRequest)
    (new : get_entry pr.number by_number ≡ none) where
  add-found :
      (n : ℕ) (q : StackPullRequest)
      → get_entry n (put_entry pr.number pr by_number) ≡ some q
      → In q (pr ∷ seen) × (q.number ≡ n)
  add-found n q h = elim (Bool-cases (pr.number == n)) [
    | inl same ↦
        let e : pr.number ≡ n = (==_iff _ _).0 same in
        let here : pr ≡ q = some-injective _ _ (
          sym (get_entry-put_entry pr.number pr by_number)
          ∙ ap (λ k. get_entry k (put_entry pr.number pr by_number)) e
          ∙ h) in
        (inl here, sym (ap (λ (x : StackPullRequest). x.number) here) ∙ e)
    | inr other ↦
        let (m, e) =
          v.found n q
            (sym (get_entry-other pr.number n pr by_number (λ e. ground (arith, e, other))) ∙ h) in
        (inr m, e)
  ]

  add-known :
      (q : StackPullRequest)
      → In q (pr ∷ seen)
      → get_entry q.number (put_entry pr.number pr by_number) ≡ some q
  add-known q (inl e) = rw (← e) (get_entry-put_entry pr.number pr by_number)
  add-known q (inr m) =
      let old = v.known q m in
      get_entry-other pr.number q.number pr by_number (λ e. absurd (cc (new, old, e))) ∙ old

  add-head :
      (b : Text) (n : ℕ)
      → In n (push_head pr by_head b)
      → (q : StackPullRequest) × In q (pr ∷ seen) × (q.number ≡ n) × (q.head_branch ≡ b)
  add-head b n h = elim (Bool-cases (text_eq b pr.head_branch)) [
    | inl same ↦ elim ((In-append n (by_head b) (pr.number ∷ [])).0 (rw same at h)) [
      | inl old ↦ let (q, m, e, e') = v.head b n old in (q, inr m, e, e')
      | inr (inl e) ↦ (pr, inl refl, e, sym ((text_eq_iff _ _).0 same))
      | inr (inr m) ↦ elim m [ ]
    ]
    | inr other ↦ let (q, m, e, e') = v.head b n (rw other at h) in (q, inr m, e, e')
  ]

  add-heads :
      (q : StackPullRequest) → In q (pr ∷ seen) → In q.number (push_head pr by_head q.head_branch)
  add-heads q (inl e) = rw (← e) (
      rw (text_eq_self pr.head_branch)
        ((In-append pr.number (by_head pr.head_branch) (pr.number ∷ [])).1 (inr (inl refl))))
  add-heads q (inr m) = elim (Bool-cases (text_eq q.head_branch pr.head_branch)) [
    | inl same ↦
        rw same
          ((In-append q.number (by_head q.head_branch) (pr.number ∷ [])).1 (inl (v.heads q m)))
    | inr other ↦ rw other (v.heads q m)
  ]

  add : Indexed (pr ∷ seen) (put_entry pr.number pr by_number) (push_head pr by_head)
  add = record {
    ordered = put_entry-Ordered pr.number pr by_number v.ordered;
    found = add-found;
    known = add-known;
    head = add-head;
    heads = add-heads;
  }

Indexed-ext :
    (xs ys : List StackPullRequest) (by_number : ByNumber) (by_head : ByHead)
    → ((q : StackPullRequest) → In q xs ↔ In q ys)
    → Indexed xs by_number by_head
    → Indexed ys by_number by_head
Indexed-ext xs ys by_number by_head same v = record {
  ordered = v.ordered;
  found = λ n q h. ((same q).0 (v.found n q h).0, (v.found n q h).1);
  known = λ q m. v.known q ((same q).1 m);
  head = λ b n h. let (q, m, e, e') = v.head b n h in (q, (same q).0 m, e, e');
  heads = λ q m. v.heads q ((same q).1 m);
}

-- The items of the second list behind those of the first, which are turned around.
abbrev rev_onto : List StackPullRequest → List StackPullRequest → List StackPullRequest
rev_onto [] ys = ys
rev_onto (x ∷ xs) ys = rev_onto xs (x ∷ ys)

In-rev_onto :
    (q : StackPullRequest) (xs ys : List StackPullRequest)
    → In q (rev_onto xs ys) ↔ (In q xs ⊎ In q ys)
In-rev_onto q [] ys = (λ h. inr h, λ h. elim h [ inl m ↦ elim m [ ] | inr m ↦ m ])
In-rev_onto q (x ∷ xs) ys = (
  λ h. elim ((In-rev_onto q xs (x ∷ ys)).0 h) [
    | inl m ↦ inl (inr m)
    | inr (inl e) ↦ inl (inl e)
    | inr (inr m) ↦ inr m
  ],
  λ h.
      (In-rev_onto q xs (x ∷ ys)).1
        (elim h [ inl (inl e) ↦ inr (inl e) | inl (inr m) ↦ inl m | inr m ↦ inr (inr m) ]),
)

index-onto :
    (prs seen : List StackPullRequest) (by_number : ByNumber) (by_head : ByHead)
    (result : ByNumber × ByHead)
    → Indexed seen by_number by_head
    → index prs by_number by_head ≡ ok result
    → Indexed (rev_onto prs seen) result.0 result.1
unfolding index
index-onto [] seen by_number by_head result v h =
    let same : (by_number, by_head) ≡ result = ok-injective (ok (by_number, by_head)) refl h in
    rw (← same) v
index-onto (pr ∷ prs) seen by_number by_head result v h =
    elim (Option-cases (get_entry pr.number by_number)) [
      | inr (other, old) ↦ absurd (cc (rw (index, old) at h))
      | inl new ↦
          index-onto prs (pr ∷ seen) _ _ result (add seen by_number by_head v pr new)
            (rw (index, new) at h)
    ]

-- The first loop, where it ends well, has all pull requests in its tables.
pub index-Indexed :
    (prs : List StackPullRequest) (by_number : ByNumber) (by_head : ByHead)
    → index prs [] (λ b. []) ≡ ok (by_number, by_head)
    → Indexed prs by_number by_head
index-Indexed prs by_number by_head h =
    let start : Indexed [] [] (λ b. []) = record {
      ordered = tt;
      found = λ n q e. cc;
      known = λ q m. elim m [ ];
      head = λ b n m. elim m [ ];
      heads = λ q m. elim m [ ];
    } in
    Indexed-ext (rev_onto prs []) prs by_number by_head
      (λ q. (
        λ m. elim ((In-rev_onto q prs []).0 m) [ inl a ↦ a | inr b ↦ elim b [ ] ],
        λ m. (In-rev_onto q prs []).1 (inl m),
      ))
      (index-onto prs [] [] (λ b. []) (by_number, by_head) start h)
