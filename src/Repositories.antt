-- ===== src/Repositories.antt =====
-- The parts of src/repository.rs that a control goes through: `record_job_control`, `record_audit` and
-- `control_context`, on the tables that they read and write (migrations/0001_initial.sql and later).
use pi_tools.Common.{
  ℕ, Bool, true, false, not, ◌&&◌, Option, none, some, List, ◌∷◌, if◌then◌else◌, ◌==◌, any, find,
}
use pi_tools.Text.{Text, text_eq}
use pi_tools.Json.{Json}
use pi_tools.Queue.Table.{Job, Table}

pub record JobControl : Type 0 where
  pub job_id : ℕ
  pub request_id : Text
  pub action : Text
  pub actor_login : Text
  pub target_item_id : Option Text
  pub decision : Text

pub record AuditEntry : Type 0 where
  pub repository_id : Option ℕ
  pub pull_request_number : Option ℕ
  pub job_id : Option ℕ
  pub actor_login : Option Text
  pub event_type : Text
  pub summary : Text
  pub evidence : Json

pub record PullRequestRow : Type 0 where
  pub repository_id : ℕ
  pub number : ℕ
  pub author_login : Text

pub record RepositoryRow : Type 0 where
  pub id : ℕ
  pub installation_id : ℕ
  pub active : Bool
  pub policy_yaml : Text

pub record InstallationRow : Type 0 where
  pub id : ℕ
  pub suspended : Bool

-- The database. `check_runs` is the column `jobs.check_run_id`, whose values are unique, beside the
-- rows of the queue.
pub record Tables : Type 0 where
  pub jobs : Table
  pub check_runs : List (ℕ × ℕ)
  pub pull_requests : List PullRequestRow
  pub repositories : List RepositoryRow
  pub installations : List InstallationRow
  pub controls : List JobControl
  pub audit : List AuditEntry

abbrev pub same_request : ℕ → Text → JobControl → Bool
same_request job_id request_id c = c.job_id == job_id && text_eq c.request_id request_id

-- `ON CONFLICT (job_id, request_id) DO NOTHING`.
unfoldable pub record_job_control : JobControl → Tables → Tables × Bool
unfolding text_eq
record_job_control c w =
    if any (same_request c.job_id c.request_id) w.controls
    then (w, false)
    else (record w { controls = c ∷ w.controls }, true)

unfoldable pub record_audit : AuditEntry → Tables → Tables
record_audit entry w = record w { audit = entry ∷ w.audit }

pub record ControlContext : Type 0 where
  pub job_id : ℕ
  pub repository_id : ℕ
  pub pull_request_number : ℕ
  pub pr_author : Text
  pub policy_yaml : Text

-- The rows that the join finds for a job: each table has at most one row of a key.
unfoldable pub repository_of : Tables → ℕ → Option RepositoryRow
repository_of w repository_id =
    elim (find (λ r. r.id == repository_id && r.active) w.repositories) [
      | none ↦ none
      | some r ↦
          if any (λ i. i.id == r.installation_id && not i.suspended) w.installations
          then some r
          else none
    ]

unfoldable pub context_of : Tables → ℕ → ℕ → ℕ → Option ControlContext
unfolding repository_of
context_of w job_id repository_id number =
    elim (find (λ p. p.repository_id == repository_id && p.number == number) w.pull_requests) [
      | none ↦ none
      | some p ↦ elim (repository_of w repository_id) [
        | none ↦ none
        | some r ↦ some (record {
          job_id = job_id;
          repository_id = repository_id;
          pull_request_number = number;
          pr_author = p.author_login;
          policy_yaml = r.policy_yaml;
        })
      ]
    ]

abbrev pub is_linked : Tables → ℕ → Job → Bool
is_linked w check_run_id j = any (λ l. l.0 == j.id && l.1 == check_run_id) w.check_runs

unfoldable pub control_context : ℕ → Tables → Option ControlContext
unfolding context_of
control_context check_run_id w = elim (find (is_linked w check_run_id) w.jobs) [
  | none ↦ none
  | some j ↦ context_of w j.id j.repository_id j.pull_request_number
]
