-- ===== src/Controls/Run/Laws.antt =====
-- What the controls keep: at most one item is in progress, ids stay unique, and the statuses of
-- items only move forward.
use pi_tools.Common.{
  ℕ, suc, ◌+◌, ◌≡◌, refl, ap, ◌∙◌, inl, inr, Bool, true, false, none, some, List, [], ◌∷◌, map,
  arith, Bool-cases, Option-cases, length, any, count, Apart,
}
use pi_tools.Text.{Text, text_eq}
use mathlib.Core.Path.{subst}
use pi_tools.Controls.Validate.{ItemStatus, pending, in_progress, skipped, PlanItem}
use pi_tools.Controls.Run.{set_first, cancel_item}

abbrev pub as_count : Bool → ℕ
as_count true = 1
as_count false = 0

-- `set_first` moves one item that meets the test, and no other.
pub set_first-count :
    (p test : PlanItem → Bool) (s : ItemStatus) (xs : List PlanItem) {ys : List PlanItem}
    → set_first test s xs ≡ some ys
    → (x : PlanItem) × (test x ≡ true)
      × (count p ys + as_count (p x) ≡ count p xs + as_count (p (record x { status = s })))
unfolding set_first
set_first-count p test s [] h = cc
set_first-count p test s (x ∷ xs) {ys} h = elim (Bool-cases (test x)) [
  | inl hit ↦
      let same : (record x { status = s } ∷ xs) ≡ ys = ground arith in
      (x, hit, rw (← same) (ground arith))
  | inr miss ↦ elim (Option-cases (set_first test s xs)) [
    | inl e ↦ absurd (ground arith)
    | inr (zs, e) ↦
        let same : (x ∷ zs) ≡ ys = ground arith in
        let (y, hit, sum) = set_first-count p test s xs e in (y, hit, rw (← same) (ground arith))
  ]
]

pub set_first-none :
    (test : PlanItem → Bool) (s : ItemStatus) (xs : List PlanItem)
    → set_first test s xs ≡ none
    → any test xs ≡ false
unfolding set_first
set_first-none test s [] h = refl
set_first-none test s (x ∷ xs) h = ground (arith, set_first-none test s xs)

pub set_first-any :
    (test : PlanItem → Bool) (s : ItemStatus) (xs : List PlanItem) {ys : List PlanItem}
    → set_first test s xs ≡ some ys
    → any test xs ≡ true
unfolding set_first
set_first-any test s [] h = cc
set_first-any test s (x ∷ xs) {ys} h = elim (Option-cases (set_first test s xs)) [
  | inl e ↦ ground arith
  | inr (zs, e) ↦ ground (arith, set_first-any test s xs e)
]

-- Where the status of an item may go: from pending to in progress, and from both to a final one.
abbrev pub may_become : ItemStatus → ItemStatus → Bool
may_become pending s = elim s [
  | ItemStatus.completed ↦ false
  | ItemStatus.failed ↦ false
  | _ ↦ true
]
may_become in_progress s = elim s [
  | in_progress ↦ true
  | skipped ↦ true
  | ItemStatus.cancelled ↦ true
  | _ ↦ false
]
may_become ItemStatus.completed s = elim s [ ItemStatus.completed ↦ true | _ ↦ false ]
may_become ItemStatus.failed s = elim s [ ItemStatus.failed ↦ true | _ ↦ false ]
may_become skipped s = elim s [ skipped ↦ true | _ ↦ false ]
may_become ItemStatus.cancelled s = elim s [ ItemStatus.cancelled ↦ true | _ ↦ false ]

pub may_become_refl : (s : ItemStatus) → may_become s s ≡ true
may_become_refl pending = refl
may_become_refl s = refl

may_become_trans :
    (r s u : ItemStatus) → may_become r s ≡ true → may_become s u ≡ true → may_become r u ≡ true
may_become_trans r s u h g = ground arith

-- The same items in the same order, each with a status that its own may become.
abbrev pub Advances : List PlanItem → List PlanItem → Type 0
Advances [] [] = Unit
Advances (x ∷ xs) (y ∷ ys) =
    (x.id ≡ y.id) × (x.summary ≡ y.summary) × (may_become x.status y.status ≡ true) × Advances xs ys
Advances [] (y ∷ ys) = ⊥
Advances (x ∷ xs) [] = ⊥

pub Advances-refl : (xs : List PlanItem) → Advances xs xs
Advances-refl [] = tt
Advances-refl (x ∷ xs) = (refl, refl, may_become_refl x.status, Advances-refl xs)

pub Advances-trans : (xs ys zs : List PlanItem) → Advances xs ys → Advances ys zs → Advances xs zs
Advances-trans [] [] [] a b = tt
Advances-trans (x ∷ xs) (y ∷ ys) (z ∷ zs) (i, s, m, a) (j, r, n, b) =
    (i ∙ j, s ∙ r, may_become_trans x.status y.status z.status m n, Advances-trans xs ys zs a b)
Advances-trans [] (y ∷ ys) zs a b = elim a [ ]
Advances-trans (x ∷ xs) [] zs a b = elim a [ ]
Advances-trans [] [] (z ∷ zs) a b = elim b [ ]
Advances-trans (x ∷ xs) (y ∷ ys) [] a b = elim b [ ]

pub set_first-Advances :
    (test : PlanItem → Bool) (s : ItemStatus)
    → ((x : PlanItem) → test x ≡ true → may_become x.status s ≡ true)
    → (xs : List PlanItem) {ys : List PlanItem} → set_first test s xs ≡ some ys
    → Advances xs ys
unfolding set_first
set_first-Advances test s may [] h = cc
set_first-Advances test s may (x ∷ xs) {ys} h = elim (Bool-cases (test x)) [
  | inl hit ↦
      let same : (record x { status = s } ∷ xs) ≡ ys = ground arith in
      subst (Advances (x ∷ xs)) same (refl, refl, may x hit, Advances-refl xs)
  | inr miss ↦ elim (Option-cases (set_first test s xs)) [
    | inl e ↦ absurd (ground arith)
    | inr (zs, e) ↦
        let same : (x ∷ zs) ≡ ys = ground arith in
        subst (Advances (x ∷ xs)) same
          (refl, refl, may_become_refl x.status, set_first-Advances test s may xs e)
  ]
]

pub cancel_item-Advances : (xs : List PlanItem) → Advances xs (map cancel_item xs)
cancel_item-Advances [] = tt
cancel_item-Advances (x ∷ xs) = (ground arith, ground arith, ground arith, cancel_item-Advances xs)

pub Advances-length : (xs ys : List PlanItem) → Advances xs ys → length ys ≡ length xs
Advances-length [] [] a = refl
Advances-length (x ∷ xs) (y ∷ ys) a = ap suc (Advances-length xs ys a.3)
Advances-length [] (y ∷ ys) a = elim a [ ]
Advances-length (x ∷ xs) [] a = elim a [ ]

abbrev pub same_item : PlanItem → PlanItem → Bool
same_item x y = text_eq x.id y.id

pub Advances-any :
    (id : Text) (xs ys : List PlanItem)
    → Advances xs ys
    → any (λ y. text_eq id y.id) ys ≡ any (λ x. text_eq id x.id) xs
Advances-any id [] [] a = refl
Advances-any id (x ∷ xs) (y ∷ ys) a = rw (a.0, Advances-any id xs ys a.3) refl
Advances-any id [] (y ∷ ys) a = elim a [ ]
Advances-any id (x ∷ xs) [] a = elim a [ ]

pub Advances-Apart :
    (xs ys : List PlanItem) → Advances xs ys → Apart same_item xs → Apart same_item ys
Advances-Apart [] [] a u = tt
Advances-Apart (x ∷ xs) (y ∷ ys) a u =
    (rw (← a.0) (Advances-any x.id xs ys a.3 ∙ u.0), Advances-Apart xs ys a.3 u.1)
Advances-Apart [] (y ∷ ys) a u = elim a [ ]
Advances-Apart (x ∷ xs) [] a u = elim a [ ]
