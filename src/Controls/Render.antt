-- ===== src/Controls/Render.antt =====
-- src/pr_controls.rs: the comments that are rendered (`WorkPlanComment`, `FinalSummary`,
-- `escape_markdown`). A Check Run URL is the text of a `url::Url`, which a crate parses and prints.
pub mod Laws
use pi_tools.Common.{
  ℕ, Bool, ◌||◌, Option, none, some, List, [], ◌∷◌, ◌++◌, ltb, ◌==◌, if◌then◌else◌, tests, is_empty,
  Result, ok, err, ◌>>=◌, ◌>>◌,
}
use pi_tools.Text.{Text, codes, byte_len, is_one_of, is_control}
use pi_tools.Controls.Validate.{
  label, PlanItem, ContractError, markdown_too_large, validate_identifier, validate_items,
  validate_approval_hash, collect_safe_lines,
}

abbrev pub work_plan_marker : Text
work_plan_marker = codes "<!-- pitools:work-plan:v1 -->"

abbrev pub final_summary_marker_prefix : Text
final_summary_marker_prefix = codes "<!-- pitools:final-summary:v1:"

abbrev pub max_github_markdown_bytes : ℕ
max_github_markdown_bytes = 60_000

-- The characters that get a backslash, and what is put for one character.
abbrev pub is_special : ℕ → Bool
is_special c = is_one_of (b'\\' ∷ b'*' ∷ b'[' ∷ b']' ∷ b'`' ∷ []) c

abbrev pub escape_char : ℕ → Text
escape_char c =
    if c == b'&'
    then codes "&amp;"
    else if c == b'<'
    then codes "&lt;"
    else if c == b'>'
    then codes "&gt;"
    else if is_special c
    then b'\\' ∷ c ∷ []
    else if c == 0xa || c == 0x9
    then b' ' ∷ []
    else if is_control c
    then []
    else c ∷ []

unfoldable pub escape_markdown : Text → Text
escape_markdown [] = []
escape_markdown (c ∷ s) = escape_char c ++ escape_markdown s

unfoldable pub ensure_render_bound : Text → Result ContractError Text
unfolding byte_len
ensure_render_bound markdown =
    if ltb max_github_markdown_bytes (byte_len markdown)
    then err markdown_too_large
    else ok markdown

pub record WorkPlanComment : Type 0 where
  pub check_run_url : Text
  pub items : List PlanItem
  pub approval_hash : Option Text

-- `WorkPlanComment::new`, where `parse` is `validate_https_url`.
unfoldable pub new_work_plan :
    (Text → Result ContractError Text) → Text → List PlanItem → Result ContractError WorkPlanComment
unfolding validate_items
new_work_plan parse check_run_url items = do
  validate_items items
  url ← parse check_run_url
  ok (record { check_run_url = url; items = items; approval_hash = none })

unfoldable pub with_approval_hash : WorkPlanComment → Text → Result ContractError WorkPlanComment
unfolding validate_approval_hash
with_approval_hash comment approval_hash = do
  validate_approval_hash approval_hash
  ok (record comment { approval_hash = some approval_hash })

abbrev approval_line : Option Text → Text
approval_line none = []
approval_line (some hash) = codes "Approval fingerprint: `" ++ (hash ++ codes "`\n\n")

item_line : PlanItem → Text
unfolding escape_markdown
item_line item =
    codes "- `"
    ++ (item.id
        ++ (codes "` — "
            ++ (label item.status
                ++ (codes " — " ++ (escape_markdown item.summary ++ codes "\n")))))

item_lines : List PlanItem → Text
unfolding item_line
item_lines [] = []
item_lines (item ∷ rest) = item_line item ++ item_lines rest

abbrev controls_line : Text
controls_line =
    codes
      "\nUse the Check Run controls to approve planned work when requested, skip the current item, or cancel the run.\n"

work_plan_text : WorkPlanComment → Text
unfolding item_lines
work_plan_text comment =
    work_plan_marker
    ++ (codes "\n## PiTools work plan\n\n[Open Check Run]("
        ++ (comment.check_run_url
            ++ (codes ")\n\n"
                ++ (approval_line comment.approval_hash
                    ++ ((if is_empty comment.items
                          then codes "No work items.\n"
                          else item_lines comment.items)
                        ++ controls_line)))))

unfoldable pub render_work_plan : WorkPlanComment → Result ContractError Text
unfolding work_plan_text ensure_render_bound
render_work_plan comment = ensure_render_bound (work_plan_text comment)

pub record FinalSummary : Type 0 where
  pub run_id : Text
  pub changes : List Text
  pub tests : List Text
  pub remaining_blockers : List Text

-- `FinalSummary::new`.
unfoldable pub new_summary :
    Text → List Text → List Text → List Text → Result ContractError FinalSummary
unfolding validate_identifier collect_safe_lines
new_summary run_id changes tests_ remaining_blockers = do
  validate_identifier (codes "run id") run_id
  changes' ← collect_safe_lines (codes "change") changes
  tests' ← collect_safe_lines (codes "test") tests_
  blockers' ← collect_safe_lines (codes "remaining blocker") remaining_blockers
  ok (record {
    run_id = run_id;
    changes = changes';
    tests = tests';
    remaining_blockers = blockers';
  })

value_lines : List Text → Text
unfolding escape_markdown
value_lines [] = []
value_lines (value ∷ rest) =
    codes "- " ++ (escape_markdown value ++ (codes "\n" ++ value_lines rest))

abbrev render_section : Text → List Text → Text
render_section heading values =
    codes "\n## "
    ++ (heading
        ++ (codes "\n\n" ++ (if is_empty values then codes "- None.\n" else value_lines values)))

summary_text : FinalSummary → Text
unfolding value_lines
summary_text summary =
    final_summary_marker_prefix
    ++ (summary.run_id
        ++ (codes " -->\n## PiTools final summary\n"
            ++ (render_section (codes "Changes") summary.changes
                ++ (render_section (codes "Tests") summary.tests
                    ++ render_section (codes "Remaining blockers") summary.remaining_blockers))))

unfoldable pub render_summary : FinalSummary → Result ContractError Text
unfolding summary_text ensure_render_bound
render_summary summary = ensure_render_bound (summary_text summary)
