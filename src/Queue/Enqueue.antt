-- ===== src/Queue/Enqueue.antt =====
-- src/queue.rs: `JobSpec`, `JobDeduplicationKey` and `JobQueue::enqueue`.
use pi_tools.Common.{
  ℕ, Bool, true, false, ◌&&◌, ◌||◌, Option, none, some, [], ◌∷◌, ltb, ◌==◌, if◌then◌else◌, any,
  find, Result, ok, err,
}
use pi_tools.Text.{Text, codes, text_eq}
use pi_tools.Json.{Json, null, str, get, as_str}
use pi_tools.Queue.Table.{
  QueueError, database, has_id, JobKind, reconcile, feedback_repair, ci_repair, stack_rebase,
  as_database_value, queued, is_succeeded, is_active, Job, Table, text_is,
}

pub record JobSpec : Type 0 where
  pub repository_id : ℕ
  pub pull_request_number : ℕ
  pub kind : JobKind
  pub plan : Json

pub record JobDeduplicationKey : Type 0 where
  pub repository_id : ℕ
  pub pull_request_number : ℕ
  pub kind : JobKind

abbrev pub deduplication_key : JobSpec → JobDeduplicationKey
deduplication_key spec = record {
  repository_id = spec.repository_id;
  pull_request_number = spec.pull_request_number;
  kind = spec.kind;
}

-- `repository_id = $1 AND pull_request_number = $2 AND kind = $3`
abbrev pub has_key : JobDeduplicationKey → Job → Bool
has_key key j =
    j.repository_id == key.repository_id
    && (j.pull_request_number == key.pull_request_number
        && text_eq j.kind (as_database_value key.kind))

-- `ORDER BY … LIMIT 1` over the rows that a test selects.
unfoldable pub first_by : (Job → Job → Bool) → (Job → Bool) → Table → Option Job
first_by before selects [] = none
first_by before selects (j ∷ t) =
    let rest = first_by before selects t in
    if selects j
    then elim rest [ none ↦ some j | some k ↦ if before k j then some k else some j ]
    else rest

-- `ORDER BY created_at, id`
abbrev pub earlier : Job → Job → Bool
earlier j k = ltb j.created_at k.created_at || (j.created_at == k.created_at && ltb j.id k.id)

abbrev pub later : Job → Job → Bool
later j k = earlier k j

-- `plan->>'k'`, where `print` is the text that the database gives for what is no string.
abbrev pub field_text : (Json → Text) → Text → Json → Option Text
field_text print k plan = elim (get k plan) [
  | none ↦ none
  | some v ↦ elim v [ str t ↦ some t | null ↦ none | other ↦ some (print other) ]
]

abbrev pub repairs_head : JobKind → Bool
repairs_head ci_repair = true
repairs_head stack_rebase = true
repairs_head reconcile = false
repairs_head feedback_repair = false

abbrev pub head_sha : Text
head_sha = codes "head_sha"

abbrev pub terminal_head_sha : Json → Option Text
terminal_head_sha plan = elim (get head_sha plan) [ none ↦ none | some v ↦ as_str v ]

abbrev pub new_job : ℕ → ℕ → JobSpec → Job
new_job proposed_id now spec = record {
  id = proposed_id;
  repository_id = spec.repository_id;
  pull_request_number = spec.pull_request_number;
  kind = as_database_value spec.kind;
  state = queued;
  current_item = none;
  plan = spec.plan;
  result = none;
  attempt = 0;
  max_attempts = 5;
  lease_owner = none;
  lease_until = none;
  lease_token = none;
  cancel_requested = false;
  created_at = now;
  updated_at = now;
}

-- The rows of `INSERT … ON CONFLICT`: the unique index covers the active jobs.
abbrev pub is_active_with : JobDeduplicationKey → Job → Bool
is_active_with key j = is_active j.state && has_key key j

-- A conflict sets `updated_at = jobs.updated_at`, so it changes nothing and returns the row's id.
-- An id that is taken violates the primary key, which is no target of `ON CONFLICT`.
unfoldable pub insert_job : ℕ → ℕ → JobSpec → Table → Result QueueError (Table × ℕ)
insert_job proposed_id now spec t = elim (find (is_active_with (deduplication_key spec)) t) [
  | some j ↦ ok (t, j.id)
  | none ↦
      if any (has_id proposed_id) t
      then err database
      else ok (new_job proposed_id now spec ∷ t, proposed_id)
]

module _ (print : Json → Text) where
  abbrev pub repaired : JobDeduplicationKey → Text → Job → Bool
  repaired key sha j =
      has_key key j && (is_succeeded j.state && text_is (field_text print head_sha j.plan) sha)

  -- The first statement: the job that succeeded on the same head, the newest.
  unfoldable pub succeeded_job : JobSpec → Table → Option Job
  unfolding first_by
  succeeded_job spec t =
      if repairs_head spec.kind
      then elim (terminal_head_sha spec.plan) [
        | none ↦ none
        | some sha ↦ first_by later (repaired (deduplication_key spec) sha) t
      ]
      else none

  unfoldable pub enqueue : ℕ → ℕ → JobSpec → Table → Result QueueError (Table × ℕ)
  unfolding succeeded_job insert_job
  enqueue proposed_id now spec t = elim (succeeded_job spec t) [
    | some j ↦ ok (t, j.id)
    | none ↦ insert_job proposed_id now spec t
  ]
