-- ===== src/Stack/Planner/Walk.antt =====
-- The walk along `children` that fills `merge_order`: it ends, and each number comes once.
use pi_tools.Common.{
  ℕ, zero, suc, ◌+◌, ◌≤◌, ◌≡◌, refl, sym, ap, ◌∙◌, inl, inr, Option, none, some, List, [], ◌∷◌, map,
  arith, ◌==◌, ==_iff, Bool-cases, Option-cases, In, All, length, length-map, Distinct,
  length-Distinct, any-none_intro,
}
use mathlib.Core.Option.{some-injective}
use mathlib.Core.Path.{subst}
use pi_tools.Maps.{get_entry}
use pi_tools.Maps.Laws.{get_entry-In}
use pi_tools.Stack.Planner.{Parents, Children, siblings_of, first, follow}

abbrev pub keys : Parents → List ℕ
keys parents = map (λ e. e.0) parents

pub In-keys : (n : ℕ) (o : Option ℕ) (ps : Parents) → In (n, o) ps → In n (keys ps)
In-keys n o [] h = elim h [ ]
In-keys n o (e ∷ ps) (inl here) = inl (ap (λ (x : ℕ × Option ℕ). x.0) here)
In-keys n o (e ∷ ps) (inr later) = inr (In-keys n o ps later)

first-In : (ns : List ℕ) (n : ℕ) → first ns ≡ some n → In n ns
first-In [] n h = cc
first-In (m ∷ ns) n h = inl (some-injective _ _ h)

module _ (parents : Parents) where
  -- A way down from a root, with its end first.
  abbrev pub Way : List ℕ → Type 0
  Way [] = ⊥
  Way (n ∷ []) = get_entry n parents ≡ some none
  Way (n ∷ m ∷ ns) = (get_entry n parents ≡ some (some m)) × Way (m ∷ ns)

  Way-keys : (ns : List ℕ) → Way ns → All (λ n. In n (keys parents)) ns
  Way-keys [] w = elim w [ ]
  Way-keys (n ∷ []) w = (In-keys n none parents (get_entry-In n none parents w), tt)
  Way-keys (n ∷ m ∷ ns) (h, w) =
      (In-keys n (some m) parents (get_entry-In n (some m) parents h), Way-keys (m ∷ ns) w)

  -- Its end determines a way.
  Way-unique : (n : ℕ) (ms ns : List ℕ) → Way (n ∷ ms) → Way (n ∷ ns) → length ms ≡ length ns
  Way-unique n [] [] v w = refl
  Way-unique n [] (k ∷ ns) v (h, w) = absurd (cc (v, h))
  Way-unique n (j ∷ ms) [] (h, v) w = absurd (cc (w, h))
  Way-unique n (j ∷ ms) (k ∷ ns) (h, v) (h', w) =
      let same : j ≡ k = some-injective _ _ (some-injective _ _ (sym h ∙ h')) in
      ap suc (Way-unique j ms ns v (subst (λ i. Way (i ∷ ns)) (sym same) w))

  -- From a number on a way, the rest is a way, which is not longer.
  Way-from :
      (n : ℕ) (ns : List ℕ)
      → Way ns
      → In n ns
      → (ms : List ℕ) × Way (n ∷ ms) × (suc (length ms) ≤ length ns)
  Way-from n [] w m = elim w [ ]
  Way-from n (k ∷ []) w (inl e) = ([], rw (← e) w, omega arith)
  Way-from n (k ∷ []) w (inr m) = elim m [ ]
  Way-from n (k ∷ j ∷ ns) (h, w) (inl e) = (j ∷ ns, rw (← e) (h, w), omega arith)
  Way-from n (k ∷ j ∷ ns) (h, w) (inr m) =
      let (ms, v, le) = Way-from n (j ∷ ns) w m in (ms, v, omega (arith, le))

  Way-Distinct : (ns : List ℕ) → Way ns → Distinct ns
  Way-Distinct [] w = elim w [ ]
  Way-Distinct (n ∷ []) w = (refl, tt)
  Way-Distinct (n ∷ m ∷ ns) (h, w) = (
    any-none_intro (λ k. n == k) (m ∷ ns)
        (λ k i. elim (Bool-cases (n == k)) [
          | inr other ↦ other
          | inl same ↦
              let e : n ≡ k = (==_iff _ _).0 same in
              let (ms, v, le) = Way-from n (m ∷ ns) w (subst (λ x. In x (m ∷ ns)) (sym e) i) in
              absurd (omega (arith, le, Way-unique n ms (m ∷ ns) v (h, w)))
        ]),
    Way-Distinct (m ∷ ns) w,
  )

  length-Way : (ns : List ℕ) → Way ns → length ns ≤ length parents
  length-Way ns w = omega (
    arith,
    length-Distinct ns (keys parents) (Way-Distinct ns w) (Way-keys ns w),
    length-map (λ (e : ℕ × Option ℕ). e.0) parents,
  )

  -- Each number of a list is the child of the one before it, the first that of `a`.
  abbrev pub Steps : ℕ → List ℕ → Type 0
  Steps a [] = Unit
  Steps a (b ∷ l) = (get_entry b parents ≡ some (some a)) × Steps b l

  Steps-Way :
      (a b : ℕ) (l ns : List ℕ)
      → Steps a l
      → Way (a ∷ ns)
      → In b l
      → (ms : List ℕ) × Way (b ∷ ms) × (suc (length ns) ≤ length ms)
  Steps-Way a b [] ns s w m = elim m [ ]
  Steps-Way a b (c ∷ l) ns (h, s) w (inl e) =
      (a ∷ ns, subst (λ x. Way (x ∷ a ∷ ns)) e (h, w), omega arith)
  Steps-Way a b (c ∷ l) ns (h, s) w (inr m) =
      let (ms, v, le) = Steps-Way c b l (a ∷ ns) s (h, w) m in (ms, v, omega (arith, le))

  pub Steps-Distinct : (a : ℕ) (l ns : List ℕ) → Steps a l → Way (a ∷ ns) → Distinct (a ∷ l)
  Steps-Distinct a [] ns s w = (refl, tt)
  Steps-Distinct a (c ∷ l) ns (h, s) w = (
    any-none_intro (λ k. a == k) (c ∷ l)
        (λ k m. elim (Bool-cases (a == k)) [
          | inr other ↦ other
          | inl same ↦
              let e : a ≡ k = (==_iff _ _).0 same in
              let (ms, v, le) = Steps-Way a k (c ∷ l) ns (h, s) w m in
              absurd (omega (arith, le, Way-unique a ns ms w (subst (λ x. Way (x ∷ ms)) (sym e) v)))
        ]),
    Steps-Distinct c l (a ∷ ns) s (h, w),
  )

  module _ (children : Children)
      (child : (a c : ℕ)
        → In c (siblings_of children a)
        → get_entry c parents ≡ some (some a)) where
    first_child :
        (a c : ℕ) → first (siblings_of children a) ≡ some c → get_entry c parents ≡ some (some a)
    first_child a c h = child a c (first-In (siblings_of children a) c h)

    -- With as much fuel as there are pull requests beside those passed, the walk ends, by steps down.
    pub follow-Steps :
        (n current : ℕ) (ns : List ℕ)
        → Way (current ∷ ns)
        → length parents ≤ n + length ns
        → (rest : List ℕ) × (follow children (suc n) current ≡ some (current ∷ rest))
          × Steps current rest
    unfolding follow
    follow-Steps zero current ns w fuel =
        elim (Option-cases (first (siblings_of children current))) [
          | inl leaf ↦ ([], rw (follow, leaf) refl, tt)
          | inr (c, next) ↦
              absurd
                (omega (arith, fuel, length-Way (c ∷ current ∷ ns) (first_child current c next, w)))
        ]
    follow-Steps (suc n) current ns w fuel =
        elim (Option-cases (first (siblings_of children current))) [
          | inl leaf ↦ ([], rw (follow, leaf) refl, tt)
          | inr (c, next) ↦
              let below = first_child current c next in
              let (rest, e, steps) =
                follow-Steps n c (current ∷ ns) (below, w) (omega (arith, fuel)) in
              (c ∷ rest, rw (follow, next) (rw e refl), (below, steps))
        ]

  pub Steps-keys : (a : ℕ) (l : List ℕ) → Steps a l → All (λ n. In n (keys parents)) l
  Steps-keys a [] s = tt
  Steps-keys a (b ∷ l) (h, s) =
      (In-keys b (some a) parents (get_entry-In b (some a) parents h), Steps-keys b l s)
