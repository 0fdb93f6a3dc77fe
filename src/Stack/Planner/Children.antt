-- ===== src/Stack/Planner/Children.antt =====
-- The map `children` of `plan`, which the parents determine.
use pi_tools.Common.{
  ℕ, ◌≡◌, ◌⊎◌, refl, sym, inl, inr, Option, none, some, List, [], ◌∷◌, ◌++◌, arith, ◌==◌, ==_iff,
  Bool-cases, In,
}
use mathlib.Core.Path.{subst}
use pi_tools.Maps.{get_entry, put_entry, Ordered}
use pi_tools.Maps.Laws.{get_entry-put_entry, get_entry-other, In-get_entry}
use pi_tools.Stack.Planner.{Parents, Children, siblings_of, children_of}

-- What `children_of` records: a child of `a` has `a` for its parent.
In-append_one : (c n : ℕ) (ns : List ℕ) → In c (ns ++ (n ∷ [])) → In c ns ⊎ (n ≡ c)
In-append_one c n [] (inl e) = inr e
In-append_one c n [] (inr m) = elim m [ ]
In-append_one c n (m ∷ ns) (inl e) = inl (inl e)
In-append_one c n (m ∷ ns) (inr h) = elim (In-append_one c n ns h) [
  | inl old ↦ inl (inr old)
  | inr new ↦ inr new
]

children_of-Sound :
    (all ps : Parents) (children : Children)
    → ((e : ℕ × Option ℕ) → In e ps → In e all)
    → ((a c : ℕ) → In c (siblings_of children a) → In (c, some a) all)
    → (a c : ℕ) → In c (siblings_of (children_of ps children) a)
    → In (c, some a) all
unfolding children_of
children_of-Sound all [] children within v a c m = v a c m
children_of-Sound all ((n, none) ∷ ps) children within v a c m =
    children_of-Sound all ps children (λ e i. within e (inr i)) v a c m
children_of-Sound all ((n, some parent) ∷ ps) children within v a c m =
    children_of-Sound all ps (put_entry parent (siblings_of children parent ++ (n ∷ [])) children)
      (λ e i. within e (inr i))
      (λ b d i. elim (Bool-cases (parent == b)) [
        | inl same ↦
            let e : parent ≡ b = (==_iff _ _).0 same in
            let i' =
              subst
                (λ x. In d (
                  siblings_of (put_entry parent (siblings_of children parent ++ (n ∷ [])) children)
                    x))
                (sym e) i in
            subst (λ x. In (d, some x) all) e
              (elim (In-append_one d n (siblings_of children parent) (
                rw
                  (
                    siblings_of,
                    get_entry-put_entry parent (siblings_of children parent ++ (n ∷ [])) children,
                  )
                  at i')) [
                    | inl old ↦ v parent d old
                    | inr new ↦ within (d, some parent) (inl (rw new refl))
                  ])
        | inr other ↦ v b d (
            rw
              (
                siblings_of,
                get_entry-other parent b (siblings_of children parent ++ (n ∷ [])) children
                    (λ e. ground (arith, e, other)),
              )
              at i)
      ])
      a c m

pub children_of-parent :
    (parents : Parents) (a c : ℕ)
    → Ordered parents
    → In c (siblings_of (children_of parents []) a)
    → get_entry c parents ≡ some (some a)
children_of-parent parents a c o m =
    In-get_entry c (some a) parents o
      (children_of-Sound parents parents [] (λ e i. i) (λ a c m. elim m [ ]) a c m)
