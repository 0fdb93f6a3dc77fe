-- ===== src/Controls/Approval/Keys.antt =====
-- The keys of a job's plan that src/pr_controls.rs and src/queue.rs name.
use pi_tools.Text.{Text, codes}

abbrev pub approved : Text
approved = codes "approved"

abbrev pub approved_hash : Text
approved_hash = codes "approved_hash"

abbrev pub approval_details : Text
approval_details = codes "approval_details"

abbrev pub skipped_items : Text
skipped_items = codes "skipped_items"

abbrev pub plan_hash : Text
plan_hash = codes "plan_hash"

abbrev pub details_key : Text
details_key = codes "details"

abbrev pub plan_key : Text
plan_key = codes "plan"
