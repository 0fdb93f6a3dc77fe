-- ===== src/Queue/Invariant.antt =====
-- The invariant of the table `jobs`, and that an update of active rows keeps it.
use pi_tools.Common.{
  ◌≤◌, ◌≡◌, refl, sym, ◌∙◌, inl, inr, Bool, true, false, not, ◌&&◌, arith, ◌==◌, Bool-cases,
  and_parts, All, All-map, Apart, Apart-map,
}
use pi_tools.Queue.Table.{
  JobState, cancelled, is_running, is_active, Job, Table, is_null, update_row, update,
}
use pi_tools.Text.{text_eq}

abbrev pub is_cancelled : JobState → Bool
is_cancelled cancelled = true
is_cancelled _ = false

-- A row: attempts within their limit, a lease exactly while it runs, the request to cancel exactly
-- when it is cancelled.
pub record JobValid (j : Job) : Type 0 where
  pub attempts : j.attempt ≤ j.max_attempts
  pub owner : is_null j.lease_owner ≡ not (is_running j.state)
  pub until : is_null j.lease_until ≡ not (is_running j.state)
  pub token : is_null j.lease_token ≡ not (is_running j.state)
  pub cancel : j.cancel_requested ≡ is_cancelled j.state

abbrev pub same_id : Job → Job → Bool
same_id j k = j.id == k.id

abbrev pub same_key : Job → Job → Bool
same_key j k =
    j.repository_id == k.repository_id
    && (j.pull_request_number == k.pull_request_number && text_eq j.kind k.kind)

-- Two active jobs of one repository, pull request and kind.
abbrev pub rivals : Job → Job → Bool
rivals j k = (is_active j.state && is_active k.state) && same_key j k

pub record Inv (t : Table) : Type 0 where
  pub valid : All JobValid t
  pub ids : Apart same_id t
  pub alone : Apart rivals t

pub record SameIdentity (j k : Job) : Type 0 where
  pub id : j.id ≡ k.id
  pub repository : j.repository_id ≡ k.repository_id
  pub number : j.pull_request_number ≡ k.pull_request_number
  pub kind : j.kind ≡ k.kind

-- What an update of selected rows must keep for the table to stay well formed.
pub record Keeps (selects : Job → Bool) (change : Job → Job) : Type 0 where
  pub valid : (j : Job) → selects j ≡ true → JobValid j → JobValid (change j)
  pub active : (j : Job) → selects j ≡ true → is_active j.state ≡ true
  pub identity : (j : Job) → SameIdentity (change j) j

pub same_id_symm : (j k : Job) → same_id j k ≡ true → same_id k j ≡ true
same_id_symm j k h = ground arith

module _ {selects : Job → Bool} {change : Job → Job} (k : Keeps selects change) where
  row_valid : (j : Job) → JobValid j → JobValid (update_row selects change j)
  row_valid j v = elim (Bool-cases (selects j)) [
    | inl hit ↦ rw hit (k.valid j hit v)
    | inr miss ↦ rw miss v
  ]

  pub row_identity : (j : Job) → SameIdentity (update_row selects change j) j
  row_identity j = ground (arith, k.identity j)

  pub row_key :
      (i j : Job)
      → same_key (update_row selects change i) (update_row selects change j) ≡ same_key i j
  row_key i j =
      let a = row_identity i in
      let b = row_identity j in
      rw (a.repository, b.repository, a.number, b.number, a.kind, b.kind) refl

  row_active :
      (j : Job) → is_active (update_row selects change j).state ≡ true → is_active j.state ≡ true
  row_active j h = ground (arith, k.active j)

  row_rivals :
      (i j : Job)
      → rivals (update_row selects change i) (update_row selects change j) ≡ true
      → rivals i j ≡ true
  row_rivals i j h =
      let (active, key) = and_parts h in
      let (here, there) = and_parts active in
      let same : same_key i j ≡ true = sym (row_key i j) ∙ key in
      rw (row_active i here, row_active j there, same) refl

  pub update-Inv : (t : Table) → Inv t → Inv (update selects change t)
  unfolding update
  update-Inv t v = record {
    valid = All-map JobValid (update_row selects change) t (λ j _. row_valid j) v.valid;
    ids = Apart-map same_id _ t (λ i j h. ground (arith, row_identity i, row_identity j)) v.ids;
    alone = Apart-map rivals _ t row_rivals v.alone;
  }
