-- ===== src/Queue/Rows.antt =====
-- What an update with a guard on one id does to the rows of a well formed table.
use pi_tools.Common.{
  ℕ, suc, ◌≡◌, refl, ap, inl, inr, Bool, true, false, ◌&&◌, [], ◌∷◌, map, arith, ==_self,
  Bool-cases, any, count, In, any-none_intro, any-none_elim, any-weaken, map-id_of, In-map,
  count-none, Apart, Apart-In,
}
use pi_tools.Queue.Table.{has_id, Job, Table, update_row, update, changed_one}
use pi_tools.Queue.Invariant.{same_id, same_id_symm}
use mathlib.Core.Path.{subst}

-- A row that an update does not select stays, and one that it selects is changed.
module _ (change : Job → Job) (selects : Job → Bool) (t : Table) (j : Job) (m : In j t) where
  pub update-In_other : selects j ≡ false → In j (update selects change t)
  unfolding update
  update-In_other miss =
      let same : update_row selects change j ≡ j = rw miss refl in
      subst (λ k. In k (map (update_row selects change) t)) same (In-map _ j t m)

  pub update-In : selects j ≡ true → In (change j) (update selects change t)
  unfolding update
  update-In hit =
      let same : update_row selects change j ≡ change j = rw hit refl in
      subst (λ k. In k (map (update_row selects change) t)) same (In-map _ j t m)

-- An update that selects nothing reports that it changed no row.
pub update-none :
    (change : Job → Job) (selects : Job → Bool) (t : Table)
    → any selects t ≡ false
    → (update selects change t ≡ t) × (changed_one selects t ≡ false)
unfolding update changed_one
update-none change selects t h = (
  map-id_of _ t (λ j m. rw (any-none_elim selects j t h m) refl),
  ground (arith, count-none selects t h),
)

abbrev pub at : (Job → Bool) → ℕ → Job → Bool
at guard job_id j = has_id job_id j && guard j

module _ (guard : Job → Bool) where
  -- A guard that fails at the one row of that id selects nothing.
  pub at-none :
      (t : Table) (j : Job)
      → Apart same_id t
      → In j t
      → guard j ≡ false
      → any (at guard j.id) t ≡ false
  at-none t j ids m miss = any-none_intro _ t λ k n. elim (Bool-cases (has_id j.id k)) [
    | inr other ↦ rw other refl
    | inl hit ↦
        let same : k ≡ j = Apart-In same_id same_id_symm t ids n m hit in
        let fails_ : guard k ≡ false = rw same miss in rw (hit, fails_) refl
  ]

  count-one :
      (t : Table) (j : Job)
      → Apart same_id t
      → In j t
      → guard j ≡ true
      → count (at guard j.id) t ≡ 1
  count-one [] j ids m hit = elim m [ ]
  count-one (x ∷ t) j ids (inl e) hit =
      let chosen : at guard j.id x ≡ true = rw (e, ==_self j.id, hit) refl in
      let rest : any (at guard j.id) t ≡ false =
        any-weaken (at guard j.id) (same_id x) t (λ k h. ground (arith, ap (λ (i : Job). i.id) e))
          ids.0 in
      rw chosen (ap suc (count-none _ t rest))
  count-one (x ∷ t) j ids (inr m) hit =
      let apart : same_id x j ≡ false = any-none_elim (same_id x) j t ids.0 m in
      let other : at guard j.id x ≡ false = ground arith in rw other (count-one t j ids.1 m hit)

  module _ (change : Job → Job) (t : Table) (j : Job) (ids : Apart same_id t) (m : In j t) where
    pub update-refused :
        guard j ≡ false
        → (update (at guard j.id) change t ≡ t) × (changed_one (at guard j.id) t ≡ false)
    update-refused miss = update-none change _ t (at-none t j ids m miss)

    pub update-done :
        guard j ≡ true
        → In (change j) (update (at guard j.id) change t) × (changed_one (at guard j.id) t ≡ true)
    unfolding changed_one
    update-done hit = (
      update-In change (at guard j.id) t j m (rw (==_self j.id, hit) refl),
      rw (count-one t j ids m hit) refl,
    )
