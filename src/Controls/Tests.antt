-- ===== src/Controls/Tests.antt =====
-- The controls of a run, on a plan of two items.
use pi_tools.Common.{◌≡◌, refl, ◌↔◌, true, false, not, ◌&&◌, List, [], ◌∷◌, any, ok, err, is_ok}
use pi_tools.Text.{Text, codes, text_eq, eq_ignore_ascii_case}
use pi_tools.Json.{Json, bool, obj, end, field}
use pi_tools.Controls.Validate.{PlanItem, pending, in_progress, skipped, repeats, validate_items}
use pi_tools.Controls.Run.{
  ControlRequest, RunState, after_skip_running, apply_action, apply_control, apply_skip,
  is_authorized, new_run, waiting_run, set_first, skip_current_item, cancel_run, running,
  waiting_approval, duplicate_action,
}
use pi_tools.Controls.Run.Laws.{Advances}
use pi_tools.Controls.Run.Invariant.{Coherent, apply_control-Coherent}
use pi_tools.Controls.Run.Start.{new_run-Coherent}
use pi_tools.Controls.Run.Permission.{
  is_available, after_controls, apply_control-is_ok, apply_control-duplicate,
}
use pi_tools.Controls.Approval.{plan_is_approved}
use pi_tools.Controls.Approval.Laws.{IsApproved, plan_is_approved_iff}
use pi_tools.Controls.Render.{escape_markdown}
use pi_tools.Controls.Render.Laws.{
  is_inert, is_inert-escape_markdown, past, seen, on_one_line, seen-escape_markdown,
}

abbrev first : PlanItem
first = record { id = codes "a"; summary = codes "first"; status = pending }

abbrev second : PlanItem
second = record { id = codes "b"; summary = codes "second"; status = pending }

abbrev plan_items : List PlanItem
plan_items = first ∷ second ∷ []

abbrev fresh : RunState
fresh = record {
  status = running;
  items = record first { status = in_progress } ∷ second ∷ [];
  applied_request_ids = [];
}

new_run-fresh : new_run plan_items ≡ ok fresh
unfolding new_run validate_items repeats set_first text_eq
new_run-fresh = refl

new_run-Coherent_example : Coherent fresh × Advances plan_items fresh.items
new_run-Coherent_example = new_run-Coherent plan_items refl new_run-fresh

abbrev waiting : RunState
waiting = record { status = waiting_approval; items = plan_items; applied_request_ids = [] }

waiting_run-waiting : waiting_run plan_items ≡ ok waiting
unfolding waiting_run validate_items repeats text_eq
waiting_run-waiting = refl

abbrev author : Text
author = codes "Ada"

abbrev skip : ControlRequest
skip = record { request_id = codes "r1"; actor_login = codes "ada"; action = skip_current_item }

abbrev behind : RunState
behind = record {
  status = running;
  items = record first { status = skipped } ∷ record second { status = in_progress } ∷ [];
  applied_request_ids = codes "r1" ∷ [];
}

skip-behind : apply_control fresh skip author [] ≡ ok behind
unfolding apply_control is_authorized eq_ignore_ascii_case text_eq apply_action apply_skip
    after_skip_running set_first
skip-behind = refl

apply_control-Coherent_example : Coherent behind × Advances fresh.items behind.items
apply_control-Coherent_example =
    apply_control-Coherent fresh skip author [] new_run-Coherent_example.0 skip-behind

apply_control-is_ok_example : is_ok (apply_control fresh skip author []) ≡ (
    is_authorized (codes "ada") author []
    && (not (any (text_eq (codes "r1")) fresh.applied_request_ids)
        && is_available skip_current_item running fresh.items))
apply_control-is_ok_example = apply_control-is_ok fresh skip author []

author-is_authorized : is_authorized (codes "ada") author [] ≡ true
unfolding is_authorized eq_ignore_ascii_case text_eq
author-is_authorized = refl

abbrev finishing : ControlRequest
finishing = record { request_id = codes "r2"; actor_login = codes "ada"; action = cancel_run }

apply_control-duplicate_example :
    apply_control (after_controls behind ((finishing, author, []) ∷ [])) skip author []
    ≡ err duplicate_action
apply_control-duplicate_example =
    apply_control-duplicate fresh skip author [] ((finishing, author, []) ∷ []) skip author []
      skip-behind refl author-is_authorized

is_inert-escape_markdown_example : is_inert false (escape_markdown (codes "*a* <b>")) ≡ true
is_inert-escape_markdown_example = is_inert-escape_markdown (codes "*a* <b>")

seen-escape_markdown_example :
    seen (past 0) (escape_markdown (codes "*a* <b>")) ≡ on_one_line (codes "*a* <b>")
seen-escape_markdown_example = seen-escape_markdown (codes "*a* <b>")

abbrev digest : Json → Text
digest v = codes "sha256:0123"

abbrev bare_plan : Json
bare_plan = obj (field (codes "approved") (bool true) end)

plan_is_approved_iff_example :
    (plan_is_approved digest bare_plan ≡ true) ↔ IsApproved digest bare_plan
plan_is_approved_iff_example = plan_is_approved_iff digest bare_plan
