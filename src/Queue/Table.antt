-- ===== src/Queue/Table.antt =====
-- The rows of the table `jobs` (src/queue.rs and the columns of migrations/), the kinds and states
-- of jobs, and `UPDATE … WHERE …` over the rows.
use pi_tools.Common.{
  ℕ, Bool, true, false, Option, none, some, List, map, ltb, leb, ◌==◌, if◌then◌else◌, count,
}
use pi_tools.Text.{Text, codes, text_eq}
use pi_tools.Json.{Json}

pub data JobKind : Type 0 where
  reconcile feedback_repair ci_repair stack_rebase : JobKind

abbrev pub as_database_value : JobKind → Text
as_database_value reconcile = codes "reconcile"
as_database_value feedback_repair = codes "feedback_repair"
as_database_value ci_repair = codes "ci_repair"
as_database_value stack_rebase = codes "stack_rebase"

pub data JobState : Type 0 where
  queued running waiting_approval succeeded failed cancelled : JobState

abbrev pub is_queued : JobState → Bool
is_queued queued = true
is_queued _ = false

abbrev pub is_running : JobState → Bool
is_running running = true
is_running _ = false

abbrev pub is_waiting_approval : JobState → Bool
is_waiting_approval waiting_approval = true
is_waiting_approval _ = false

abbrev pub is_succeeded : JobState → Bool
is_succeeded succeeded = true
is_succeeded _ = false

-- `state IN ('queued', 'running', 'waiting_approval')`
abbrev pub is_active : JobState → Bool
is_active queued = true
is_active running = true
is_active waiting_approval = true
is_active _ = false

pub record Job : Type 0 where
  pub id : ℕ
  pub repository_id : ℕ
  pub pull_request_number : ℕ
  pub kind : Text
  pub state : JobState
  pub current_item : Option Text
  pub plan : Json
  pub result : Option Json
  pub attempt : ℕ
  pub max_attempts : ℕ
  pub lease_owner : Option Text
  pub lease_until : Option ℕ
  pub lease_token : Option ℕ
  pub cancel_requested : Bool
  pub created_at : ℕ
  pub updated_at : ℕ

abbrev pub Table : Type 0
Table = List Job

-- `QueueError::Database`; the values that the queue serializes always serialize.
pub data QueueError : Type 0 where
  database : QueueError

abbrev pub has_id : ℕ → Job → Bool
has_id job_id j = j.id == job_id

-- `column = $n`, `column > NOW()` and `column <= NOW()`: a comparison with NULL selects no row.
abbrev pub text_is : Option Text → Text → Bool
text_is none t = false
text_is (some s) t = text_eq s t

abbrev pub number_is : Option ℕ → ℕ → Bool
number_is none n = false
number_is (some m) n = m == n

abbrev pub is_after : Option ℕ → ℕ → Bool
is_after none now = false
is_after (some until) now = ltb now until

abbrev pub is_past : Option ℕ → ℕ → Bool
is_past none now = false
is_past (some until) now = leb until now

abbrev pub is_null {ℓ} : {A : Type ℓ} → Option A → Bool
is_null none = true
is_null (some a) = false

-- One row of `UPDATE jobs SET … WHERE …`, the whole table, and `rows_affected() == 1`.
abbrev pub update_row : (Job → Bool) → (Job → Job) → Job → Job
update_row selects change j = if selects j then change j else j

unfoldable pub update : (Job → Bool) → (Job → Job) → Table → Table
update selects change t = map (update_row selects change) t

unfoldable pub changed_one : (Job → Bool) → Table → Bool
changed_one selects t = count selects t == 1
