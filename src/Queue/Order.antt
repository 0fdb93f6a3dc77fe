-- ===== src/Queue/Order.antt =====
-- Which job `lease_next` hands out, and that it hands one out whenever it can.
use pi_tools.Common.{
  ℕ, ◌+◌, ◌<◌, ◌≡◌, refl, sym, ap, ◌∙◌, ◌≢◌, ◌⊎◌, inl, inr, Bool, true, false, not, ◌&&◌, Option,
  none, some, [], ◌∷◌, map, arith, ==_self, Bool-cases, and_parts, Option-cases, In,
}
use pi_tools.Queue.Table.{has_id, Job, Table, update_row, update}
use pi_tools.Queue.Enqueue.{first_by, earlier}
use pi_tools.Queue.Lease.{
  lease_duration, LeasedJob, is_exhausted, fail_exhausted, is_leaseable, claim, leased_job,
  claim_first, lease_next, holds_lease,
}
use pi_tools.Queue.Preserve.{first_by-In}
use pi_tools.Queue.Rows.{update-In_other, update-In}
use pi_tools.Text.{Text}
use pi_tools.Text.Laws.{text_eq_self}
use mathlib.Core.Path.{subst}
use mathlib.Core.Option.{some-injective}

earlier_asym : (j k : Job) → earlier j k ≡ true → earlier k j ≡ false
earlier_asym j k h = ground arith

earlier_trans : (i j k : Job) → earlier i j ≡ false → earlier j k ≡ false → earlier i k ≡ false
earlier_trans i j k h g = ground arith

earlier_irrefl : (j : Job) → earlier j j ≡ false
earlier_irrefl j = ground arith

first_by-some :
    (before : Job → Job → Bool) (selects : Job → Bool) (t : Table) (k : Job)
    → In k t
    → selects k ≡ true
    → first_by before selects t ≢ none
unfolding first_by
first_by-some before selects [] k m hit = elim m [ ]
first_by-some before selects (x ∷ t) k (inl e) hit =
    let chosen : selects x ≡ true = rw e hit in ground arith
first_by-some before selects (x ∷ t) k (inr m) hit =
    ground (arith, first_by-some before selects t k m hit)

-- A round of the query: the row of the rest stays unless the new row comes first.
first_by-cons :
    (selects : Job → Bool) (x : Job) (t : Table) {j : Job} (r : Job)
    → first_by earlier selects t ≡ some r
    → first_by earlier selects (x ∷ t) ≡ some j
    → (r ≡ j) × ((selects x ≡ false) ⊎ (earlier r x ≡ true)) ⊎ (x ≡ j) × (earlier r x ≡ false)
unfolding first_by
first_by-cons selects x t r e h = elim (Bool-cases (selects x)) [
  | inr miss ↦ inl (ground arith, inl miss)
  | inl hit ↦ elim (Bool-cases (earlier r x)) [
    | inl first ↦ inl (ground arith, inr first)
    | inr last ↦ inr (ground arith, last)
  ]
]

first_by-alone :
    (selects : Job → Bool) (x : Job) (t : Table) {j : Job}
    → first_by earlier selects t ≡ none
    → first_by earlier selects (x ∷ t) ≡ some j
    → x ≡ j
unfolding first_by
first_by-alone selects x t e h = ground arith

-- The row that the query returns comes before every other row that it selects.
first_by-first :
    (selects : Job → Bool) (t : Table) {j : Job} (k : Job)
    → first_by earlier selects t ≡ some j
    → In k t
    → selects k ≡ true
    → earlier k j ≡ false
first_by-first selects [] k h m hit = elim m [ ]
first_by-first selects (x ∷ t) {j} k h (inl e) hit =
    elim (Option-cases (first_by earlier selects t)) [
      | inl nothing ↦
          let same : k ≡ j = sym e ∙ first_by-alone selects x t nothing h in
          rw same (earlier_irrefl j)
      | inr (r, found) ↦ elim (first_by-cons selects x t r found h) [
        | inl (same, why) ↦
            let first : earlier r k ≡ true = ground (arith, ap selects e, ap (earlier r) e) in
            rw (← same) (earlier_asym r k first)
        | inr (same, last) ↦ let here : k ≡ j = sym e ∙ same in rw here (earlier_irrefl j)
      ]
    ]
first_by-first selects (x ∷ t) {j} k h (inr m) hit =
    elim (Option-cases (first_by earlier selects t)) [
      | inl nothing ↦ absurd (first_by-some earlier selects t k m hit nothing)
      | inr (r, found) ↦
          let behind = first_by-first selects t k found m hit in
          elim (first_by-cons selects x t r found h) [
            | inl (same, why) ↦ rw (← same) behind
            | inr (same, last) ↦ rw (← same) (earlier_trans k r x behind last)
          ]
    ]

-- A row that may be leased is no exhausted one, so the first statement leaves it alone.
leaseable-not_exhausted :
    (now : ℕ) (j : Job) → is_leaseable now j ≡ true → is_exhausted now j ≡ false
leaseable-not_exhausted now j h = ground arith

-- A row that the first statement changes cannot be leased.
fail_exhausted-not_leaseable :
    (now : ℕ) (j : Job)
    → is_leaseable now (update_row (is_exhausted now) (fail_exhausted now) j) ≡ true
    → update_row (is_exhausted now) (fail_exhausted now) j ≡ j
fail_exhausted-not_leaseable now j h = elim (Bool-cases (is_exhausted now j)) [
  | inl gone ↦ absurd (ground arith)
  | inr kept ↦ rw kept refl
]

In-map_elim :
    (f : Job → Job) (t : Table) (j : Job) → In j (map f t) → (k : Job) × In k t × (f k ≡ j)
In-map_elim f [] j m = elim m [ ]
In-map_elim f (x ∷ t) j (inl e) = (x, inl refl, e)
In-map_elim f (x ∷ t) j (inr m) = let (k, n, e) = In-map_elim f t j m in (k, inr n, e)

module _ (worker : Text) (token : ℕ) (locked : ℕ → Bool) (now : ℕ) (t : Table) where
  -- What a successful lease says of the table before and after.
  pub record Granted (t' : Table) (l : LeasedJob) : Type 0 where
    pub job : Job
    pub row : In job t
    pub leaseable : is_leaseable now job ≡ true
    pub unlocked : locked job.id ≡ false
    pub oldest :
        (k : Job) → In k t → is_leaseable now k ≡ true → locked k.id ≡ false → earlier k job ≡ false
    pub lease : l ≡ leased_job token now job
    pub written : In (claim worker token now job) t'
    pub held :
        (instant : ℕ)
        → instant < now + lease_duration
        → holds_lease worker token instant (claim worker token now job) ≡ true

  abbrev expired : Table
  expired = update (is_exhausted now) (fail_exhausted now) t

  kept : (k : Job) → In k t → is_leaseable now k ≡ true → In k expired
  kept k m h = update-In_other (fail_exhausted now) _ t k m (leaseable-not_exhausted now k h)

  claim_first-Granted :
      {t' : Table} {l : LeasedJob} (j : Job)
      → first_by earlier (λ j. is_leaseable now j && not (locked j.id)) expired ≡ some j
      → claim_first worker token locked now expired ≡ (t', some l)
      → Granted t' l
  unfolding claim_first update
  claim_first-Granted {t'} {l} j e h =
      let (m, s) = first_by-In _ _ expired e in
      let (open_, free) = and_parts {a = is_leaseable now j} {b = not (locked j.id)} s in
      let (k, n, same) = In-map_elim _ t j m in
      let still : is_leaseable now (update_row (is_exhausted now) (fail_exhausted now) k) ≡ true =
        rw same open_ in
      let here : k ≡ j = sym (fail_exhausted-not_leaseable now k still) ∙ same in
      let result : ◌≡◌ {A = Table × Option LeasedJob}
          (update (has_id j.id) (claim worker token now) expired, some (leased_job token now j))
          (t', some l) =
        rw (e, claim_first) at h in
      record {
        job = j;
        row = subst (λ i. In i t) here n;
        leaseable = open_;
        unlocked = ground arith;
        oldest = λ i mi hi fi. first_by-first _ expired i e (kept i mi hi) (rw (hi, fi) refl);
        lease = some-injective _ _ (sym (ap (λ r. r.1) result));
        written =
            subst (In (claim worker token now j)) (ap (λ r. r.0) result)
              (update-In (claim worker token now) (has_id j.id) expired j m (==_self j.id));
        held = λ instant before. ground (arith, text_eq_self worker);
      }

  -- The job that `lease_next` leases was queued, or its lease had run out; it had attempts left; it is
  -- the oldest such job that no other transaction holds; it is returned as its row stood, with one
  -- more attempt; and from then on the worker holds its lease, with the new token, for five minutes.
  pub lease_next-Granted :
      {t' : Table} {l : LeasedJob}
      → lease_next worker token locked now t ≡ (t', some l)
      → Granted t' l
  unfolding lease_next claim_first
  lease_next-Granted {t'} {l} h =
      elim (Option-cases
        (first_by earlier (λ j. is_leaseable now j && not (locked j.id)) expired)) [
          | inl e ↦ absurd (ground arith)
          | inr (j, e) ↦ claim_first-Granted j e h
        ]

  -- If some job may be leased and its row is free, `lease_next` leases one.
  pub lease_next_some :
      (k : Job)
      → In k t
      → is_leaseable now k ≡ true
      → locked k.id ≡ false
      → (lease_next worker token locked now t).1 ≢ none
  unfolding lease_next claim_first
  lease_next_some k m h free =
      let s =
        first_by-some earlier (λ j. is_leaseable now j && not (locked j.id)) expired k (kept k m h)
          (rw (h, free) refl) in
      ground (arith, s)
