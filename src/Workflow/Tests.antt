-- ===== src/Workflow/Tests.antt =====
-- A press of `cancel-run` on the Check Run of a running job, on small tables.
use pi_tools.Common.{
  ℕ, ◌≡◌, refl, ◌⊎◌, true, false, Option, none, some, [], ◌∷◌, arith, Result, ok, map,
}
use pi_tools.Text.{Text, codes, text_eq}
use pi_tools.Json.{
  Json, null, bool, number, numeral, str, arr, obj, nil, cons, end, field, get_field,
}
use pi_tools.Policy.{Policy, PolicyError, default}
use pi_tools.Queue.Table.{running, cancelled, Job}
use pi_tools.Queue.Control.{request_cancel}
use pi_tools.Queue.Invariant.{Inv}
use pi_tools.Events.{DeliveryEnvelope, pointer}
use pi_tools.Repositories.{Tables}
use pi_tools.Workflow.{process_check_run_control}
use pi_tools.Workflow.Effect.{Permitted, process-effect, process-Inv}
use pi_tools.Workflow.Again.{process-again}

abbrev as_i64 : Json → Option ℕ
as_i64 (number n) = some n
as_i64 null = none
as_i64 (bool b) = none
as_i64 (numeral t) = none
as_i64 (str t) = none
as_i64 (arr xs) = none
as_i64 (obj fs) = none

abbrev parse : Text → Result PolicyError Policy
parse yaml = ok default

abbrev press : Json
press = obj (
    field (codes "check_run")
      (obj (
        field (codes "id") (number 70) (
          field (codes "pull_requests")
            (arr (cons (obj (field (codes "number") (number 5) end)) nil)) end)))
      (field (codes "repository") (obj (field (codes "id") (number 10) end)) (
        field (codes "requested_action")
          (obj (field (codes "identifier") (str (codes "cancel-run")) end))
          (field (codes "sender") (obj (field (codes "login") (str (codes "Ada")) end)) end))))

abbrev delivery : DeliveryEnvelope
delivery = record {
  delivery_id = codes "d-1";
  event_name = codes "check_run";
  action = some (codes "requested_action");
  installation_id = some 3;
  repository_id = some 10;
  pull_request_number = some 5;
  payload = press;
  raw_body = [];
}

abbrev job : Job
job = record {
  id = 1;
  repository_id = 10;
  pull_request_number = 5;
  kind = codes "ci_repair";
  state = running;
  current_item = none;
  plan = obj end;
  result = none;
  attempt = 1;
  max_attempts = 5;
  lease_owner = some (codes "worker-1");
  lease_until = some 1000;
  lease_token = some 3;
  cancel_requested = false;
  created_at = 100;
  updated_at = 200;
}

abbrev tables : Tables
tables = record {
  jobs = job ∷ [];
  check_runs = (1, 70) ∷ [];
  pull_requests = record { repository_id = 10; number = 5; author_login = codes "ada" } ∷ [];
  repositories = record { id = 10; installation_id = 3; active = true; policy_yaml = [] } ∷ [];
  installations = record { id = 3; suspended = false } ∷ [];
  controls = [];
  audit = [];
}

-- The press cancels the job.
cancels :
    map (λ j. j.state) (process_check_run_control parse as_i64 delivery 900 tables).0.jobs
    ≡ cancelled ∷ []
unfolding process_check_run_control text_eq pointer get_field request_cancel
cancels = refl

tables-Inv : Inv tables.jobs
tables-Inv = record {
  valid = (
    record { attempts = omega arith; owner = refl; until = refl; token = refl; cancel = refl },
    tt,
  );
  ids = (refl, tt);
  alone = (refl, tt);
}

abbrev after : Tables
after = (process_check_run_control parse as_i64 delivery 900 tables).0

process-effect_example :
    (after.jobs ≡ tables.jobs) ⊎ Permitted parse as_i64 delivery 900 tables after.jobs
process-effect_example = process-effect parse as_i64 delivery 900 tables

process-Inv_example : Inv after.jobs
process-Inv_example = process-Inv parse as_i64 delivery 900 tables tables-Inv

process-again_example : (process_check_run_control parse as_i64 delivery 901 after).0 ≡ after
process-again_example = process-again parse delivery as_i64 900 901 tables
