-- ===== src/Reconcile/Reviews/Order.antt =====
-- The order of the reviews, by which src/reconcile.rs sorts them.
use pi_tools.Common.{
  ◌≡◌, refl, sym, ap, ◌∙◌, inl, inr, true, false, ◌&&◌, Option, none, some, arith, ltb, Bool-cases,
  or_parts, or_cases, and_parts,
}
use mathlib.Core.Bool.{and-false}
use pi_tools.Text.{Text}
use pi_tools.Text.Laws.{text_eq_iff, text_eq_self, text_lt_irrefl, text_lt_connex}
use pi_tools.Sort.Laws.{text_lt_asym, text_lt_ntrans}
use pi_tools.Reconcile.{PullRequestReview}
use pi_tools.Reconcile.Reviews.{option_lt, option_eq, review_before}

option_lt_asym : (s t : Option Text) → option_lt s t ≡ true → option_lt t s ≡ false
option_lt_asym none none h = refl
option_lt_asym none (some t) h = refl
option_lt_asym (some s) none h = cc h
option_lt_asym (some s) (some t) h = text_lt_asym s t h

option_lt_ntrans :
    (s t u : Option Text) → option_lt s t ≡ false → option_lt t u ≡ false → option_lt s u ≡ false
option_lt_ntrans none none none h k = refl
option_lt_ntrans none none (some u) h k = k
option_lt_ntrans none (some t) u h k = absurd (cc h)
option_lt_ntrans (some s) none none h k = refl
option_lt_ntrans (some s) none (some u) h k = absurd (cc k)
option_lt_ntrans (some s) (some t) none h k = refl
option_lt_ntrans (some s) (some t) (some u) h k = text_lt_ntrans s t u h k

option_eq_elim : (s t : Option Text) → option_eq s t ≡ true → s ≡ t
option_eq_elim none none h = refl
option_eq_elim none (some t) h = cc h
option_eq_elim (some s) none h = cc h
option_eq_elim (some s) (some t) h = ap some ((text_eq_iff s t).0 h)

option_eq_self : (s : Option Text) → option_eq s s ≡ true
option_eq_self none = refl
option_eq_self (some s) = text_eq_self s

option_lt_irrefl : (s : Option Text) → option_lt s s ≡ false
option_lt_irrefl none = refl
option_lt_irrefl (some s) = text_lt_irrefl s

option_lt_connex : (s t : Option Text) → option_lt s t ≡ false → option_lt t s ≡ false → s ≡ t
option_lt_connex none none h k = refl
option_lt_connex none (some t) h k = cc h
option_lt_connex (some s) none h k = cc k
option_lt_connex (some s) (some t) h k = ap some (text_lt_connex s t h k)

pub review_before_irrefl : (r : PullRequestReview) → review_before r r ≡ false
unfolding review_before
review_before_irrefl r =
    rw (option_lt_irrefl r.submitted_at, option_eq_self r.submitted_at) (ground arith)

pub review_before_asym :
    (l r : PullRequestReview) → review_before l r ≡ true → review_before r l ≡ false
unfolding review_before
review_before_asym l r h =
    elim (or_cases {a = option_lt l.submitted_at r.submitted_at}
      {b = option_eq l.submitted_at r.submitted_at && ltb l.id r.id} h) [
        | inl lt ↦ elim (Bool-cases (option_eq r.submitted_at l.submitted_at)) [
          | inr other ↦ rw (option_lt_asym _ _ lt, other) refl
          | inl same ↦
              let e : r.submitted_at ≡ l.submitted_at = option_eq_elim _ _ same in
              let before : option_lt l.submitted_at l.submitted_at ≡ true =
                ap (λ t. option_lt l.submitted_at t) (sym e) ∙ lt in
              absurd (cc (before, option_lt_irrefl l.submitted_at))
        ]
        | inr tie ↦
            let (same, lt) =
              and_parts {a = option_eq l.submitted_at r.submitted_at} {b = ltb l.id r.id} tie in
            let e : l.submitted_at ≡ r.submitted_at = option_eq_elim _ _ same in
            let none_ : option_lt r.submitted_at l.submitted_at ≡ false =
              rw e (option_lt_irrefl r.submitted_at) in
            let later : ltb r.id l.id ≡ false = ground (arith, lt) in
            rw (none_, later) (and-false (option_eq r.submitted_at l.submitted_at))
      ]

pub review_before_ntrans :
    (x y z : PullRequestReview)
    → review_before x y ≡ false
    → review_before y z ≡ false
    → review_before x z ≡ false
unfolding review_before
review_before_ntrans x y z h k =
    let (a, b) = or_parts h in
    let (c, d) = or_parts k in
    let lt = option_lt_ntrans x.submitted_at y.submitted_at z.submitted_at a c in
    elim (Bool-cases (option_eq x.submitted_at z.submitted_at)) [
      | inr other ↦ rw (lt, other) refl
      | inl same ↦
          let e : x.submitted_at ≡ z.submitted_at = option_eq_elim _ _ same in
          let back : option_lt y.submitted_at x.submitted_at ≡ false = rw e c in
          let e' : x.submitted_at ≡ y.submitted_at = option_lt_connex _ _ a back in
          let e'' : y.submitted_at ≡ z.submitted_at = sym e' ∙ e in
          let p : option_eq x.submitted_at y.submitted_at ≡ true =
            rw e' (option_eq_self y.submitted_at) in
          let q : option_eq y.submitted_at z.submitted_at ≡ true =
            rw e'' (option_eq_self z.submitted_at) in
          let b' : ltb x.id y.id ≡ false = rw p at b in
          let d' : ltb y.id z.id ≡ false = rw q at d in rw (lt, same) (ground (arith, b', d'))
    ]
