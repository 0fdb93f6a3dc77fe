-- ===== src/Stack/Planner/Climb.antt =====
-- The way up that `reject_cycles` takes: it ends, and where it meets itself it has found a cycle.
use pi_tools.Common.{
  ℕ, zero, suc, ◌+◌, ◌<◌, ◌≡◌, ◌≢◌, ◌⊎◌, refl, sym, ap, ◌∙◌, inl, inr, false, Option, none, some,
  List, [], ◌∷◌, ◌++◌, arith, ◌==◌, ==_iff, Bool-cases, Option-cases, In, All, All-append, length,
  length-append, length-map, any, Distinct, length-Distinct,
}
use pi_tools.Maps.{get_entry, put_entry}
use pi_tools.Maps.Laws.{get_entry-put_entry, get_entry-other, get_entry-In}
use pi_tools.Stack.Planner.{
  Parents, Ascent, out_of_fuel, at_root, in_cycle, parent_of, climb, reject_from, reject_cycles,
}
use pi_tools.Stack.Planner.Walk.{keys, In-keys}

any-append_one :
    (m n : ℕ) (ns : List ℕ)
    → any (λ k. m == k) ns ≡ false
    → (m == n) ≡ false
    → any (λ k. m == k) (ns ++ (n ∷ [])) ≡ false
any-append_one m n [] h e = rw e refl
any-append_one m n (k ∷ ns) h e = ground (arith, any-append_one m n ns)

Distinct-append_one :
    (n : ℕ) (ns : List ℕ) → Distinct ns → ((m : ℕ) → In m ns → m ≢ n) → Distinct (ns ++ (n ∷ []))
Distinct-append_one n [] d new = (refl, tt)
Distinct-append_one n (m ∷ ns) d new = (
  any-append_one m n ns d.0 (ground (arith, new m (inl refl))),
  Distinct-append_one n ns d.1 (λ k i. new k (inr i)),
)

pub In-append_one : (c n : ℕ) (ns : List ℕ) → In c (ns ++ (n ∷ [])) → In c ns ⊎ (n ≡ c)
In-append_one c n [] (inl e) = inr e
In-append_one c n [] (inr m) = elim m [ ]
In-append_one c n (m ∷ ns) (inl e) = inl (inl e)
In-append_one c n (m ∷ ns) (inr h) = elim (In-append_one c n ns h) [
  | inl old ↦ inl (inr old)
  | inr new ↦ inr new
]

pub Ascent-cases :
    (a : Ascent) → (a ≡ out_of_fuel) ⊎ (a ≡ at_root) ⊎ (c : List ℕ) × (a ≡ in_cycle c)
Ascent-cases out_of_fuel = inl refl
Ascent-cases at_root = inr (inl refl)
Ascent-cases (in_cycle c) = inr (inr (c, refl))

module _ (parents : Parents) where
  -- The numbers passed: each once, each with a parent, and each with its position.
  record Passed (path : List ℕ) (positions : List (ℕ × ℕ)) : Type 0 where
    pub distinct : Distinct path
    pub known : All (λ n. In n (keys parents)) path
    pub position : (m : ℕ) → In m path → get_entry m positions ≢ none

  parent_of-keys : (n m : ℕ) → parent_of parents n ≡ some m → In n (keys parents)
  parent_of-keys n m h = elim (Option-cases (get_entry n parents)) [
    | inl absent ↦ absurd (cc (rw (parent_of, absent) at h))
    | inr (o, found) ↦ In-keys n o parents (get_entry-In n o parents found)
  ]

  Passed-step :
      (path : List ℕ) (positions : List (ℕ × ℕ)) (current parent : ℕ)
      → Passed path positions
      → get_entry current positions ≡ none
      → parent_of parents current ≡ some parent
      → Passed (path ++ (current ∷ [])) (put_entry current (length path) positions)
  Passed-step path positions current parent p new up = record {
    distinct =
        Distinct-append_one current path p.distinct
          (λ m i e. p.position m i (ap (λ k. get_entry k positions) e ∙ new));
    known =
        All-append (λ n. In n (keys parents)) path (current ∷ []) p.known
          (parent_of-keys current parent up, tt);
    position = λ m i absent. elim (Bool-cases (current == m)) [
      | inl same ↦ cc (
        get_entry-put_entry current (length path) positions,
        ap (λ k. get_entry k (put_entry current (length path) positions))
            ((==_iff current m).0 same),
        absent,
      )
      | inr other ↦ elim (In-append_one m current path i) [
        | inl old ↦ p.position m old (
            sym (get_entry-other current m (length path) positions (λ e. ground (arith, e, other)))
            ∙ absent)
        | inr e ↦ ground (arith, e, other)
      ]
    ];
  }

  -- The fuel does not end before the numbers do.
  climb-ends :
      (n current : ℕ) (path : List ℕ) (positions : List (ℕ × ℕ))
      → Passed path positions
      → length parents < n + length path
      → climb parents n path positions current ≢ out_of_fuel
  unfolding climb
  climb-ends zero current path positions p fuel h = omega (
    arith,
    fuel,
    length-Distinct path (keys parents) p.distinct p.known,
    length-map (λ (e : ℕ × Option ℕ). e.0) parents,
  )
  climb-ends (suc n) current path positions p fuel h =
      elim (Option-cases (get_entry current positions)) [
        | inr (i, met) ↦ cc (rw (climb, met) at h)
        | inl new ↦ elim (Option-cases (parent_of parents current)) [
          | inl top ↦ cc (rw (climb, new, top) at h)
          | inr (parent, up) ↦
              climb-ends n parent _ _ (Passed-step path positions current parent p new up)
                (omega (arith, fuel, length-append path (current ∷ []))) (rw (climb, new, up) at h)
        ]
      ]

  reject_from-ends : (es : Parents) → reject_from parents es ≢ none
  unfolding reject_from
  reject_from-ends [] h = cc
  reject_from-ends (e ∷ es) h =
      let start : Passed [] [] = record {
        distinct = tt;
        known = tt;
        position = λ m i. elim i [ ];
      } in
      elim (Ascent-cases (climb parents (suc (length parents)) [] [] e.0)) [
        | inl dry ↦ climb-ends (suc (length parents)) e.0 [] [] start (omega arith) dry
        | inr (inl top) ↦ reject_from-ends es (rw (reject_from, top) at h)
        | inr (inr (c, met)) ↦ cc (rw (reject_from, met) at h)
      ]

  -- `reject_cycles` comes to an end.
  pub reject_cycles-ends : reject_cycles parents ≢ none
  unfolding reject_cycles
  reject_cycles-ends = reject_from-ends parents
