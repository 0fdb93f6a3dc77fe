-- ===== src/Reconcile/Checks.antt =====
-- The checks in src/reconcile.rs: `check_records`, `required_check_names`, `required_check_app_id` and the map
-- `readiness_checks` of `reconcile_read_set`.
pub mod Required
pub mod Sources
use pi_tools.Common.{
  ℕ, true, Option, none, some, List, [], ◌∷◌, ◌++◌, map, ltb, if◌then◌else◌, any, find,
}
use pi_tools.Text.{Text, codes, text_eq, text_lt}
use pi_tools.Sort.{sort_by, dedup}
use pi_tools.Sort.Orders.{sort_with}
use pi_tools.Maps.Texts.{get_text, put_text, values}
use pi_tools.Policy.{Policy}
use pi_tools.Events.{CheckRecord}
use pi_tools.Readiness.{
  CheckStatus, queued, in_progress, completed, CheckConclusion, success, failure, cancelled,
  timed_out, neutral, skipped, action_required, stale, startup_failure, CheckSnapshot,
}
use pi_tools.Readiness
use pi_tools.Reconcile.{
  GitHubCheckRun, CommitStatus, RequiredStatusChecks, PullRequestReadSet, to_string,
}

abbrev pub or_none {ℓ κ} : {A : Type ℓ} {B : Type κ} → Option A → (A → Option B) → Option B
or_none none f = none
or_none (some a) f = f a

abbrev pub map_option {ℓ κ} : {A : Type ℓ} {B : Type κ} → (A → B) → Option A → Option B
map_option f none = none
map_option f (some a) = some (f a)

unfoldable pub commit_status_state : Text → Text × Option Text
unfolding text_eq
commit_status_state state =
    if text_eq state (codes "success")
    then (codes "completed", some (codes "success"))
    else if any (text_eq state) (codes "failure" ∷ codes "error" ∷ [])
    then (codes "completed", some (codes "failure"))
    else if text_eq state (codes "pending")
    then (codes "in_progress", none)
    else (codes "unknown", none)

unfoldable pub check_status : Text → CheckStatus
unfolding text_eq
check_status status =
    if any (text_eq status)
      (codes "queued" ∷ codes "pending" ∷ codes "requested" ∷ codes "waiting" ∷ [])
    then queued
    else if text_eq status (codes "in_progress")
    then in_progress
    else if text_eq status (codes "completed")
    then completed
    else CheckStatus.unknown

abbrev pub conclusions : List (Text × CheckConclusion)
conclusions =
    (codes "success", success)
    ∷ (codes "failure", failure)
    ∷ (codes "cancelled", cancelled)
    ∷ (codes "timed_out", timed_out)
    ∷ (codes "neutral", neutral)
    ∷ (codes "skipped", skipped)
    ∷ (codes "action_required", action_required)
    ∷ (codes "stale", stale)
    ∷ (codes "startup_failure", startup_failure)
    ∷ []

unfoldable pub check_conclusion : Text → CheckConclusion
unfolding text_eq
check_conclusion conclusion = elim (find (λ c. text_eq c.0 conclusion) conclusions) [
  | none ↦ CheckConclusion.unknown
  | some c ↦ c.1
]

abbrev pub status_record : CommitStatus → CheckRecord
status_record status = record {
  external_id = codes "status:" ++ to_string status.id;
  name = status.context;
  app_id = none;
  status = (commit_status_state status.state).0;
  conclusion = (commit_status_state status.state).1;
  details_url = status.target_url;
}

abbrev pub run_record : GitHubCheckRun → CheckRecord
run_record check = record {
  external_id = to_string check.id;
  name = check.name;
  app_id = check.app_id;
  status = check.status;
  conclusion = check.conclusion;
  details_url = check.details_url;
}

-- Records under their names: of two with one name the later one stays.
unfoldable pub put_records :
    List CheckRecord → List (Text × CheckRecord) → List (Text × CheckRecord)
unfolding text_eq text_lt
put_records [] by_name = by_name
put_records (check ∷ rest) by_name = put_records rest (put_text check.name check by_name)

unfoldable pub check_records : PullRequestReadSet → List CheckRecord
unfolding commit_status_state put_records
check_records read_set =
    let statuses = map status_record (sort_with (λ l r. ltb l.id r.id) read_set.statuses) in
    let check_runs = map run_record (sort_with (λ l r. ltb l.id r.id) read_set.check_runs) in
    values (put_records check_runs (put_records statuses []))

abbrev pub protected_names : Option RequiredStatusChecks → List Text
protected_names none = []
protected_names (some required) = required.contexts ++ map (λ check. check.context) required.checks

-- The names that the policy and the protection of the branch require, as a set: in order, each once.
unfoldable pub required_check_names : PullRequestReadSet → Policy → List Text
unfolding sort_by dedup
required_check_names read_set policy =
    dedup (λ name. name)
      (sort_by (λ name. name)
        (policy.required_checks ++ protected_names read_set.required_status_checks))

unfoldable pub required_check_app_id : PullRequestReadSet → Text → Option ℕ
unfolding text_eq
required_check_app_id read_set name = or_none read_set.required_status_checks (λ required.
    or_none (find (λ check. text_eq check.context name) required.checks) (λ check. check.app_id))

module _ (read_set : PullRequestReadSet) (names : List Text) where
  unfoldable pub snapshot_of : CheckRecord → CheckSnapshot
  unfolding required_check_app_id check_status check_conclusion text_eq
  snapshot_of check = record {
    name = check.name;
    app_id = check.app_id;
    required_app_id = required_check_app_id read_set check.name;
    status = check_status check.status;
    conclusion = map_option check_conclusion check.conclusion;
    required = any (λ name. text_eq name check.name) names;
  }

  unfoldable pub missing_snapshot : Text → CheckSnapshot
  unfolding required_check_app_id
  missing_snapshot name = record {
    name = name;
    app_id = none;
    required_app_id = required_check_app_id read_set name;
    status = CheckStatus.unknown;
    conclusion = none;
    required = true;
  }

  unfoldable pub put_checks :
      List CheckRecord → List (Text × CheckSnapshot) → List (Text × CheckSnapshot)
  unfolding snapshot_of text_eq text_lt
  put_checks [] m = m
  put_checks (check ∷ rest) m = put_checks rest (put_text check.name (snapshot_of check) m)

  -- `entry(required_name).or_insert(…)` for each of the names.
  unfoldable pub put_missing : List Text → List (Text × CheckSnapshot) → List (Text × CheckSnapshot)
  unfolding missing_snapshot text_eq text_lt
  put_missing [] m = m
  put_missing (name ∷ rest) m =
      put_missing rest
        (elim (get_text name m) [ none ↦ put_text name (missing_snapshot name) m | some check ↦ m ])

unfoldable pub readiness_checks : PullRequestReadSet → Policy → List CheckSnapshot
unfolding check_records required_check_names put_checks put_missing
readiness_checks read_set policy =
    let names = required_check_names read_set policy in
    values
      (put_missing read_set names names (put_checks read_set names (check_records read_set) []))
