-- ===== src/Stack/Planner/Cycle.antt =====
-- The numbers at which the inner loop of `reject_cycles` meets its own path.
use pi_tools.Common.{
  ℕ, zero, suc, ◌≡◌, ◌≢◌, ◌⊎◌, ◌↔◌, refl, sym, ap, ◌∙◌, inl, inr, some, List, [], ◌∷◌, ◌++◌, arith,
  ◌==◌, ==_iff, Bool-cases, Option-cases, In, length, drop, err, leb,
}
use mathlib.Core.Option.{some-injective}
use mathlib.Core.Path.{subst}
use pi_tools.Maps.{get_entry, put_entry}
use pi_tools.Maps.Laws.{get_entry-put_entry, get_entry-other}
use pi_tools.Stack.{cycle_detected}
use pi_tools.Stack.Planner.{
  Parents, in_cycle, parent_of, climb, reject_from, insert_number, sort_numbers, first,
}
use pi_tools.Stack.Planner.Climb.{Ascent-cases}

insert_number-In : (k n : ℕ) (ns : List ℕ) → In k (insert_number n ns) ↔ ((n ≡ k) ⊎ In k ns)
unfolding insert_number
insert_number-In k n [] = (λ h. h, λ h. h)
insert_number-In k n (m ∷ ms) = elim (Bool-cases (leb n m)) [
  | inl le ↦ rw (insert_number, le) (λ h. h, λ h. h)
  | inr gt ↦
      rw (insert_number, gt)
        (
          λ h. elim h [
            | inl e ↦ inr (inl e)
            | inr i ↦ elim ((insert_number-In k n ms).0 i) [ inl e ↦ inl e | inr j ↦ inr (inr j) ]
          ],
          λ h. elim h [
            | inl e ↦ inr ((insert_number-In k n ms).1 (inl e))
            | inr (inl e) ↦ inl e
            | inr (inr j) ↦ inr ((insert_number-In k n ms).1 (inr j))
          ],
        )
]

sort_numbers-In : (k : ℕ) (ns : List ℕ) → In k (sort_numbers ns) ↔ In k ns
unfolding sort_numbers
sort_numbers-In k [] = (λ h. h, λ h. h)
sort_numbers-In k (n ∷ ns) = (
  λ h. elim ((insert_number-In k n (sort_numbers ns)).0 h) [
    | inl e ↦ inl e
    | inr i ↦ inr ((sort_numbers-In k ns).0 i)
  ],
  λ h.
      (insert_number-In k n (sort_numbers ns)).1
        (elim h [ inl e ↦ inl e | inr i ↦ inr ((sort_numbers-In k ns).1 i) ]),
)

first-append :
    (i n : ℕ) (ns ms : List ℕ) → first (drop i ns) ≡ some n → first (drop i (ns ++ ms)) ≡ some n
first-append zero n [] ms h = cc
first-append (suc i) n [] ms h = cc
first-append zero n (m ∷ ns) ms h = h
first-append (suc i) n (m ∷ ns) ms h = first-append i n ns ms h

first-end : (n : ℕ) (ns : List ℕ) → first (drop (length ns) (ns ++ (n ∷ []))) ≡ some n
first-end n [] = refl
first-end n (m ∷ ns) = first-end n ns

first-In : (ns : List ℕ) (n : ℕ) → first ns ≡ some n → In n ns
first-In [] n h = cc
first-In (m ∷ ns) n h = inl (some-injective _ _ h)

abbrev next : List ℕ → ℕ → ℕ
next [] c = c
next (n ∷ ns) c = n

module _ (parents : Parents) where
  -- Each number of a path has the next one for its parent, the last one `c`.
  abbrev Trail : List ℕ → ℕ → Type 0
  Trail [] c = Unit
  Trail (n ∷ ns) c = (parent_of parents n ≡ some (next ns c)) × Trail ns c

  Trail-append :
      (ns : List ℕ) (c d : ℕ) → Trail ns c → parent_of parents c ≡ some d → Trail (ns ++ (c ∷ [])) d
  Trail-append [] c d t h = (h, tt)
  Trail-append (n ∷ []) c d (e, t) h = (e, Trail-append [] c d t h)
  Trail-append (n ∷ m ∷ ns) c d (e, t) h = (e, Trail-append (m ∷ ns) c d t h)

  Trail-drop : (i : ℕ) (ns : List ℕ) (c : ℕ) → Trail ns c → Trail (drop i ns) c
  Trail-drop zero ns c t = t
  Trail-drop (suc i) [] c t = t
  Trail-drop (suc i) (n ∷ ns) c t = Trail-drop i ns c t.1

  Trail-parent :
      (n : ℕ) (ns : List ℕ) (c : ℕ)
      → Trail ns c
      → In n ns
      → (m : ℕ) × ((m ≡ c) ⊎ In m ns) × (parent_of parents n ≡ some m)
  Trail-parent n [] c t i = elim i [ ]
  Trail-parent n (k ∷ []) c (e, t) (inl same) = (c, inl refl, rw (← same) e)
  Trail-parent n (k ∷ j ∷ ns) c (e, t) (inl same) = (j, inr (inr (inl refl)), rw (← same) e)
  Trail-parent n (k ∷ ns) c (e, t) (inr i) =
      let (m, where_, up) = Trail-parent n ns c t i in
      (m, elim where_ [ inl e ↦ inl e | inr j ↦ inr (inr j) ], up)

  -- Numbers, at least one, each of which has one of them for its parent.
  abbrev pub Cycle : List ℕ → Type 0
  Cycle c = (c ≢ []) × ((n : ℕ) → In n c → (m : ℕ) × In m c × (parent_of parents n ≡ some m))

  meets :
      (path : List ℕ) (i current : ℕ)
      → Trail path current
      → first (drop i path) ≡ some current
      → Cycle (sort_numbers (drop i path))
  meets path i current t met =
      let here = (sort_numbers-In current (drop i path)).1 (first-In (drop i path) current met) in
      (
        λ empty. elim (rw empty at here) [ ],
        λ n m.
            let (k, where_, up) =
              Trail-parent n (drop i path) current (Trail-drop i path current t)
                ((sort_numbers-In n (drop i path)).0 m) in
            elim where_ [
              | inl e ↦ (current, here, up ∙ ap some e)
              | inr j ↦ (k, (sort_numbers-In k (drop i path)).1 j, up)
            ],
      )

  climb-Cycle :
      (n current : ℕ) (path : List ℕ) (positions : List (ℕ × ℕ)) (c : List ℕ)
      → Trail path current
      → ((m i : ℕ) → get_entry m positions ≡ some i → first (drop i path) ≡ some m)
      → climb parents n path positions current ≡ in_cycle c
      → Cycle c
  unfolding climb
  climb-Cycle zero current path positions c t at_ h = absurd (cc h)
  climb-Cycle (suc n) current path positions c t at_ h =
      elim (Option-cases (get_entry current positions)) [
        | inr (i, met) ↦
            let e : in_cycle (sort_numbers (drop i path)) ≡ in_cycle c = rw (climb, met) at h in
            subst Cycle (cc e) (meets path i current t (at_ current i met))
        | inl new ↦ elim (Option-cases (parent_of parents current)) [
          | inl top ↦ absurd (cc (rw (climb, new, top) at h))
          | inr (parent, up) ↦
              climb-Cycle n parent (path ++ (current ∷ []))
                (put_entry current (length path) positions) c
                (Trail-append path current parent t up)
                (λ m i found. elim (Bool-cases (current == m)) [
                  | inl same ↦
                      let e : current ≡ m = (==_iff _ _).0 same in
                      let value : length path ≡ i = some-injective _ _ (
                        sym (get_entry-put_entry current (length path) positions)
                        ∙ ap (λ k. get_entry k (put_entry current (length path) positions)) e
                        ∙ found) in
                      subst (λ j. first (drop j (path ++ (current ∷ []))) ≡ some m) value
                        (first-end current path ∙ ap some e)
                  | inr other ↦ first-append i m path (current ∷ []) (
                      at_ m i (
                        sym (
                          get_entry-other current m (length path) positions
                            (λ e. ground (arith, e, other)))
                        ∙ found))
                ])
                (rw (climb, new, up) at h)
        ]
      ]

  pub reject_from-Cycle :
      (es : Parents) (c : List ℕ) → reject_from parents es ≡ some (err (cycle_detected c)) → Cycle c
  unfolding reject_from
  reject_from-Cycle [] c h = absurd (cc h)
  reject_from-Cycle (e ∷ es) c h =
      elim (Ascent-cases (climb parents (suc (length parents)) [] [] e.0)) [
        | inl dry ↦ absurd (cc (rw (reject_from, dry) at h))
        | inr (inl top) ↦ reject_from-Cycle es c (rw (reject_from, top) at h)
        | inr (inr (c', met)) ↦
            let same : c' ≡ c = cc (rw (reject_from, met) at h) in
            subst Cycle same
              (climb-Cycle (suc (length parents)) e.0 [] [] c' tt (λ m i found. cc) met)
      ]
