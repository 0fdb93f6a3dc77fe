-- ===== src/Controls/Run/Start.antt =====
-- The runs that `RunState::new` and `RunState::waiting_approval` of src/pr_controls.rs begin.
use pi_tools.Common.{
  suc, ◌≤◌, ◌≡◌, refl, ap, ◌∙◌, inl, inr, false, List, [], ◌∷◌, arith, or_parts, Option-cases,
  length, any, count, All, All-In, All-intro, any-none_elim, Apart, ok,
}
use pi_tools.Text.{Text, text_eq}
use pi_tools.Text.Laws.{text_eq_symm}
use pi_tools.Controls.Validate.{in_progress, PlanItem, validate_items, repeats, max_items}
use pi_tools.Controls.Run.{
  waiting_approval, RunState, is_pending, is_in_progress, set_first, started, new_run, waiting_run,
}
use pi_tools.Controls.Run.Laws.{
  set_first-none, Advances, Advances-refl, Advances-length, same_item, Advances-Apart,
}
use pi_tools.Controls.Run.Invariant.{Coherent, start-count, start-Advances}
use mathlib.Core.Path.{subst}

-- The ids are checked to be unique, by the set of those seen before.
repeats-Apart :
    (ids : List Text) (xs : List PlanItem)
    → repeats ids xs ≡ false
    → Apart same_item xs × All (λ id. any (λ x. text_eq id x.id) xs ≡ false) ids
unfolding repeats
repeats-Apart ids [] h = (tt, All-intro _ ids (λ id m. refl))
repeats-Apart ids (x ∷ xs) h =
    let (here, there) = or_parts h in
    let (apart, unseen) = repeats-Apart (x.id ∷ ids) xs there in
    (
      (unseen.0, apart),
      All-intro _ ids λ id m.
          let other : text_eq id x.id ≡ false =
            text_eq_symm id x.id ∙ any-none_elim (text_eq x.id) id ids here m in
          rw (other, All-In (λ i. any (λ y. text_eq i y.id) xs ≡ false) ids unseen.1 m) refl,
    )

no_current :
    (items : List PlanItem) → count is_in_progress items ≡ 0 → any is_in_progress items ≡ false
no_current [] h = refl
no_current (x ∷ xs) h = ground (arith, no_current xs)

validate_items-ok :
    (items : List PlanItem)
    → validate_items items ≡ ok tt
    → Apart same_item items × (length items ≤ max_items)
unfolding validate_items
validate_items-ok items h =
    let fresh : repeats [] items ≡ false = ground arith in
    ((repeats-Apart [] items fresh).0, ground arith)

started-Coherent :
    (items : List PlanItem)
    → Apart same_item items
    → length items ≤ max_items
    → count is_in_progress items ≡ 0
    → Coherent (started items) × Advances items (started items).items
started-Coherent items unique bounded none_ =
    elim (Option-cases (set_first is_pending in_progress items)) [
      | inl e ↦
          rw (e, started)
            (rw (no_current items none_) (
              record {
                unique = unique;
                bounded = bounded;
                shape = (none_, set_first-none is_pending in_progress items e);
              },
              Advances-refl items,
            ))
      | inr (ys, e) ↦
          let moved = start-Advances items e in
          rw (e, started)
            (
              record {
                unique = Advances-Apart items ys moved unique;
                bounded = omega (arith, Advances-length items ys moved, bounded);
                shape = (start-count items e ∙ ap suc none_, tt);
              },
              moved,
            )
    ]

-- A run that is started from items none of which is in progress is coherent, and each of its items keeps
-- its id and its summary and has at most moved forward.
pub new_run-Coherent :
    (items : List PlanItem) {s : RunState}
    → count is_in_progress items ≡ 0
    → new_run items ≡ ok s
    → Coherent s × Advances items s.items
unfolding new_run
new_run-Coherent items {s} none_ h =
    let checked : validate_items items ≡ ok tt = ground arith in
    let same : started items ≡ s = ground arith in
    let (unique, bounded) = validate_items-ok items checked in
    subst (λ r. Coherent r × Advances items r.items) same
      (started-Coherent items unique bounded none_)

-- A run that waits for approval, of items none of which is in progress, is coherent and holds the items
-- as they are.
pub waiting_run-Coherent :
    (items : List PlanItem) {s : RunState}
    → count is_in_progress items ≡ 0
    → waiting_run items ≡ ok s
    → Coherent s × (s.items ≡ items)
unfolding waiting_run
waiting_run-Coherent items {s} none_ h =
    let checked : validate_items items ≡ ok tt = ground arith in
    let (unique, bounded) = validate_items-ok items checked in
    let same : record { status = waiting_approval; items = items; applied_request_ids = [] } ≡ s =
      ground arith in
    subst (λ r. Coherent r × (r.items ≡ items)) same
      (record { unique = unique; bounded = bounded; shape = (none_, tt) }, refl)
