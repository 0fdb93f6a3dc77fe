-- ===== src/Queue/Lease.antt =====
-- src/queue.rs: `lease_next`, `assert_lease`, `renew_lease`, `mark_succeeded` and `mark_failed`.
use pi_tools.Common.{
  ℕ, ◌+◌, Bool, true, false, not, ◌&&◌, ◌||◌, Option, none, some, ltb, leb, ◌==◌, find, Result, ok,
  ok_or,
}
use pi_tools.Text.{Text, codes, text_eq}
use pi_tools.Json.{Json, number, str, obj, end, field}
use pi_tools.Queue.Table.{
  QueueError, database, has_id, JobState, running, succeeded, failed, is_queued, is_running, Job,
  Table, text_is, number_is, is_after, is_past, is_null, update, changed_one,
}
use pi_tools.Queue.Enqueue.{first_by, earlier}

-- `INTERVAL '5 minutes'`, in microseconds.
abbrev pub lease_duration : ℕ
lease_duration = 300_000_000

pub record LeasedJob : Type 0 where
  pub id : ℕ
  pub repository_id : ℕ
  pub pull_request_number : ℕ
  pub kind : Text
  pub plan : Json
  pub lease_until : ℕ
  pub lease_token : ℕ
  pub attempt : ℕ
  pub max_attempts : ℕ

-- The guard of the first statement of `lease_next`.
abbrev pub is_exhausted : ℕ → Job → Bool
is_exhausted now j =
    not j.cancel_requested
    && ((is_queued j.state || is_running j.state)
        && (leb j.max_attempts j.attempt
            && (is_queued j.state || (is_null j.lease_until || is_past j.lease_until now))))

abbrev pub exhausted_result : Job → Json
exhausted_result j = obj (
    field (codes "attempt") (number j.attempt) (
      field (codes "max_attempts") (number j.max_attempts)
        (field (codes "reason") (str (codes "max_attempts_exhausted")) end)))

abbrev pub fail_exhausted : ℕ → Job → Job
fail_exhausted now j = record j {
  state = failed;
  result = some (exhausted_result j);
  lease_owner = none;
  lease_until = none;
  lease_token = none;
  updated_at = now;
}

-- The guard of the second: a job that waits, or whose lease has run out.
abbrev pub is_leaseable : ℕ → Job → Bool
is_leaseable now j =
    not j.cancel_requested
    && (ltb j.attempt j.max_attempts
        && (is_queued j.state
            || (is_running j.state && (is_null j.lease_until || is_past j.lease_until now))))

abbrev pub claim : Text → ℕ → ℕ → Job → Job
claim worker_id token now j = record j {
  state = running;
  lease_owner = some worker_id;
  lease_until = some (now + lease_duration);
  lease_token = some token;
  attempt = j.attempt + 1;
  updated_at = now;
}

abbrev pub leased_job : ℕ → ℕ → Job → LeasedJob
leased_job token now j = record {
  id = j.id;
  repository_id = j.repository_id;
  pull_request_number = j.pull_request_number;
  kind = j.kind;
  plan = j.plan;
  lease_until = now + lease_duration;
  lease_token = token;
  attempt = j.attempt + 1;
  max_attempts = j.max_attempts;
}

unfoldable pub claim_first : Text → ℕ → (ℕ → Bool) → ℕ → Table → Table × Option LeasedJob
unfolding first_by update
claim_first worker_id token locked now t =
    elim (first_by earlier (λ j. is_leaseable now j && not (locked j.id)) t) [
      | none ↦ (t, none)
      | some j ↦ (update (has_id j.id) (claim worker_id token now) t, some (leased_job token now j))
    ]

-- The rows that another transaction holds are skipped (`FOR UPDATE SKIP LOCKED`).
unfoldable pub lease_next : Text → ℕ → (ℕ → Bool) → ℕ → Table → Table × Option LeasedJob
unfolding update claim_first
lease_next worker_id token locked now t =
    claim_first worker_id token locked now (update (is_exhausted now) (fail_exhausted now) t)

-- The guard of every statement of the worker that holds a lease.
abbrev pub holds_lease : Text → ℕ → ℕ → Job → Bool
holds_lease worker_id token now j =
    is_running j.state
    && (not j.cancel_requested
        && (text_is j.lease_owner worker_id
            && (number_is j.lease_token token && is_after j.lease_until now)))

abbrev pub holds : ℕ → Text → ℕ → ℕ → Job → Bool
holds job_id worker_id token now j = has_id job_id j && holds_lease worker_id token now j

abbrev pub extend_lease : ℕ → Job → Job
extend_lease now j = record j { lease_until = some (now + lease_duration); updated_at = now }

unfoldable pub renew_lease : ℕ → Text → ℕ → ℕ → Table → Table × Bool
unfolding update changed_one
renew_lease job_id worker_id token now t =
    let mine = holds job_id worker_id token now in
    (update mine (extend_lease now) t, changed_one mine t)

abbrev pub finish : JobState → Json → ℕ → Job → Job
finish state result now j = record j {
  state = state;
  result = some result;
  lease_owner = none;
  lease_until = none;
  lease_token = none;
  updated_at = now;
}

unfoldable pub mark_succeeded : ℕ → Text → ℕ → Json → ℕ → Table → Table × Bool
unfolding update changed_one
mark_succeeded job_id worker_id token result now t =
    let mine = holds job_id worker_id token now in
    (update mine (finish succeeded result now) t, changed_one mine t)

unfoldable pub mark_failed : ℕ → Text → ℕ → Json → ℕ → Table → Table × Bool
unfolding update changed_one
mark_failed job_id worker_id token result now t =
    let mine = holds job_id worker_id token now in
    (update mine (finish failed result now) t, changed_one mine t)

-- `AND` of SQL, where `none` is NULL: false on either side decides.
abbrev pub sql_and : Option Bool → Option Bool → Option Bool
sql_and (some false) b = some false
sql_and (some true) b = b
sql_and none (some false) = some false
sql_and none (some true) = none
sql_and none none = none

abbrev pub sql_map {ℓ} : {A : Type ℓ} → (A → Bool) → Option A → Option Bool
sql_map test none = none
sql_map test (some a) = some (test a)

-- The expression that `assert_lease` selects: NULL where it compares a column that is NULL.
abbrev pub lease_test : Text → ℕ → ℕ → Job → Option Bool
lease_test worker_id token now j = sql_and (some (is_running j.state)) (
    sql_and (some (not j.cancel_requested)) (
      sql_and (sql_map (λ owner. text_eq owner worker_id) j.lease_owner) (
        sql_and (sql_map (λ held. held == token) j.lease_token)
          (sql_map (λ until. ltb now until) j.lease_until))))

-- A row that is missing counts as a lost lease, and a NULL cannot be read as `bool`.
unfoldable pub assert_lease : ℕ → Text → ℕ → ℕ → Table → Result QueueError Bool
assert_lease job_id worker_id token now t = elim (find (has_id job_id) t) [
  | none ↦ ok false
  | some j ↦ ok_or (lease_test worker_id token now j) database
]
