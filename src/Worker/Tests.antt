-- ===== src/Worker/Tests.antt =====
-- Approval of a paused job, on a small table.
use pi_tools.Common.{◌≡◌, refl, inl, Bool, true, false, none, some, [], ◌∷◌, arith, In}
use pi_tools.Text.{Text, codes, text_eq}
use pi_tools.Json.{Json, Fields, str, obj, end, field, get_field}
use pi_tools.Controls.Approval.{plan_is_approved}
use pi_tools.Queue.Table.{running, Job, Table}
use pi_tools.Queue.Lease.{LeasedJob, holds_lease}
use pi_tools.Queue.Control.{mark_waiting_approval, approve_plan, approve, wait_for_approval}
use pi_tools.Queue.Invariant.{Inv}
use pi_tools.Queue.Approval.{approval_round_trip, shown_details}
use pi_tools.Controls.Approval.Keys.{approval_details}
use pi_tools.Controls.Approval.{detail_fields}
use pi_tools.Worker.Pause.{
  raw_details, pause_for_approval, pause-never_approved, waiting_for_approval,
}

abbrev digest : Json → Text
digest v = codes "sha256:0123"

abbrev one : Text
one = codes "worker-1"

abbrev plan_fields : Fields
plan_fields = field (codes "head_sha") (str (codes "abc")) end

abbrev leased : Job
leased = record {
  id = 1;
  repository_id = 10;
  pull_request_number = 5;
  kind = codes "ci_repair";
  state = running;
  current_item = none;
  plan = obj plan_fields;
  result = none;
  attempt = 1;
  max_attempts = 5;
  lease_owner = some one;
  lease_until = some 1000;
  lease_token = some 3;
  cancel_requested = false;
  created_at = 100;
  updated_at = 200;
}

abbrev table : Table
table = leased ∷ []

table-Inv : Inv table
table-Inv = record {
  valid = (
    record { attempts = omega arith; owner = refl; until = refl; token = refl; cancel = refl },
    tt,
  );
  ids = (refl, tt);
  alone = (refl, tt);
}

holding : holds_lease one 3 900 leased ≡ true
unfolding text_eq
holding = refl

abbrev details : Json
details = obj (field (codes "summary") (str (codes "rebase")) end)

-- The table behind the pause, and the job that is approved.
abbrev paused : Table × Bool
paused = mark_waiting_approval 1 one 3 (shown_details digest (obj plan_fields) details) 900 table

abbrev waiting : Job
waiting = wait_for_approval (shown_details digest (obj plan_fields) details) 900 leased

approval_round_trip_example :
    (paused.1 ≡ true)
    × ((approve_plan 1 950 paused.0).1 ≡ true)
    × In (approve 950 waiting) (approve_plan 1 950 paused.0).0
    × (plan_is_approved digest (approve 950 waiting).plan ≡ true)
approval_round_trip_example =
    approval_round_trip digest table leased table-Inv (inl refl) one 3 900 holding plan_fields refl
      details 950

abbrev answer : Json
answer = waiting_for_approval (codes "rebase") (codes "rewrites history")

absent : get_field approval_details plan_fields ≡ none
unfolding get_field text_eq
absent = refl

unnamed : get_field approval_details (detail_fields (raw_details answer)) ≡ none
unfolding get_field text_eq waiting_for_approval
unnamed = refl

abbrev job : LeasedJob
job = record {
  id = 1;
  repository_id = 10;
  pull_request_number = 5;
  kind = codes "ci_repair";
  plan = obj plan_fields;
  lease_until = 1000;
  lease_token = 3;
  attempt = 1;
  max_attempts = 5;
}

abbrev stuck : Table × Bool
stuck = pause_for_approval digest job one answer 900 table

pause-never_approved_example : (stuck.1 ≡ true) × (approve_plan 1 950 stuck.0 ≡ (stuck.0, false))
pause-never_approved_example =
    pause-never_approved digest table leased job one answer 900 950 plan_fields table-Inv (inl refl)
      refl refl refl holding absent unnamed
