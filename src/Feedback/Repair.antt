-- ===== src/Feedback/Repair.antt =====
-- `repair_feedback` and `prepare_repair` of src/feedback.rs. Between the validation and the recheck, and
-- between the write and the readback, other processes may change the files: `meanwhile` and `afterwards`.
pub mod Target
pub mod Effect
mod Tests
use pi_tools.Common.{
  ℕ, Bool, true, false, not, ◌||◌, Option, none, some, List, any, Result, ok, err, ◌>>=◌, ◌>>◌,
  reject_if, ok_or, if◌then◌else◌,
}
use pi_tools.Text.{Text, codes, text_eq, starts_with}
use pi_tools.Feedback.{FeedbackError, stale_patch, malformed_suggestion, apply_hunks}
use pi_tools.Feedback.Suggestion.{review_range, apply_inline_suggestion}
use pi_tools.Feedback.Parse.{parse_unified_patch}
use pi_tools.Feedback.Fence.{extract_exact_suggestion, extract_inline_suggestion}
use pi_tools.Feedback.Files.{FileSystem, PathBuf, io_result, checked_target}

pub record Feedback : Type 0 where
  pub actor_login : Text
  pub actor_type : Text
  pub is_automation : Bool
  pub body : Text
  pub path : Option Text
  pub start_line : Option ℕ
  pub line : Option ℕ

pub data RepairDecision : Type 0 where
  preview apply : RepairDecision

pub data RepairDisposition : Type 0 where
  human_feedback rejected_actor previewed applied : RepairDisposition

pub record RepairOutcome : Type 0 where
  pub disposition : RepairDisposition
  pub path : Option Text
  pub resolution_eligible : Bool

pub record PreparedRepair : Type 0 where
  pub path : Text
  pub original : Text
  pub repaired : Text

abbrev pub non_mutating : RepairDisposition → RepairOutcome
non_mutating disposition = record {
  disposition = disposition;
  path = none;
  resolution_eligible = false;
}

-- The suggestion, if it is a whole patch.
unfoldable pub patch_in : Text → Option Text
unfolding extract_exact_suggestion starts_with
patch_in body = elim (extract_exact_suggestion body) [
  | ok suggestion ↦ if starts_with suggestion (codes "--- a/") then some suggestion else none
  | err e ↦ none
]

module _ (F : FileSystem) (repository_root : PathBuf) where
  unfoldable pub prepare_patch : F.State → Text → Result FeedbackError PreparedRepair
  unfolding parse_unified_patch checked_target apply_hunks
  prepare_patch s suggestion = do
    patch ← parse_unified_patch suggestion
    target ← checked_target F s repository_root patch.path
    original ← io_result (F.read_to_string s target)
    repaired ← apply_hunks original patch.hunks
    ok record { path = patch.path; original = original; repaired = repaired }

  unfoldable pub prepare_inline : F.State → Feedback → Result FeedbackError PreparedRepair
  unfolding extract_inline_suggestion review_range checked_target apply_inline_suggestion
  prepare_inline s feedback = do
    suggestion ← extract_inline_suggestion feedback.body
    path ← ok_or feedback.path (malformed_suggestion (codes "review path is missing"))
    (start_line, line) ← review_range feedback.start_line feedback.line
    target ← checked_target F s repository_root path
    original ← io_result (F.read_to_string s target)
    repaired ← apply_inline_suggestion original start_line line suggestion
    ok record { path = path; original = original; repaired = repaired }

  unfoldable pub prepare_repair : F.State → Feedback → Result FeedbackError PreparedRepair
  unfolding patch_in prepare_patch prepare_inline
  prepare_repair s feedback = elim (patch_in feedback.body) [
    | some suggestion ↦ prepare_patch s suggestion
    | none ↦ prepare_inline s feedback
  ]

  -- Up to the write: the target, if the file is still the one that was validated.
  unfoldable pub recheck : F.State → PreparedRepair → Result FeedbackError PathBuf
  unfolding checked_target text_eq
  recheck s prepared = do
    target ← checked_target F s repository_root prepared.path
    current ← io_result (F.read_to_string s target)
    reject_if (not (text_eq current prepared.original))
        (stale_patch (codes "target changed after validation"))
    ok target

  -- From the write on.
  unfoldable pub read_back : F.State → PathBuf → PreparedRepair → Result FeedbackError RepairOutcome
  unfolding text_eq
  read_back s target prepared = do
    content ← io_result (F.read_to_string s target)
    reject_if (not (text_eq content prepared.repaired))
        (stale_patch (codes "target readback differs from the validated repair"))
    ok record { disposition = applied; path = some prepared.path; resolution_eligible = true }

  unfoldable pub write_repair :
      F.State
      → (F.State → F.State)
      → PathBuf
      → PreparedRepair
      → F.State × Result FeedbackError RepairOutcome
  unfolding read_back
  write_repair s afterwards target prepared =
      let written = F.write s target prepared.repaired in
      let left = afterwards written.0 in
      (left, io_result written.1 >> read_back left target prepared)

  unfoldable pub apply_repair :
      F.State → (F.State → F.State) → PreparedRepair → F.State × Result FeedbackError RepairOutcome
  unfolding recheck write_repair
  apply_repair s afterwards prepared = elim (recheck s prepared) [
    | err e ↦ (s, err e)
    | ok target ↦ write_repair s afterwards target prepared
  ]

  abbrev previewed_outcome : PreparedRepair → RepairOutcome
  previewed_outcome prepared = record {
    disposition = previewed;
    path = some prepared.path;
    resolution_eligible = false;
  }

  unfoldable pub decide :
      F.State
      → (F.State → F.State)
      → (F.State → F.State)
      → Feedback
      → RepairDecision
      → F.State × Result FeedbackError RepairOutcome
  unfolding prepare_repair apply_repair
  decide s meanwhile afterwards feedback decision = elim (prepare_repair s feedback) [
    | err e ↦ (s, err e)
    | ok prepared ↦ elim decision [
      | preview ↦ (s, ok (previewed_outcome prepared))
      | apply ↦ apply_repair (meanwhile s) afterwards prepared
    ]
  ]

  unfoldable pub repair_feedback :
      F.State
      → (F.State → F.State)
      → (F.State → F.State)
      → List Text
      → Feedback
      → RepairDecision
      → F.State × Result FeedbackError RepairOutcome
  unfolding decide text_eq
  repair_feedback s meanwhile afterwards automation_actor_allowlist feedback decision =
      if not feedback.is_automation || not (text_eq feedback.actor_type (codes "Bot"))
      then (s, ok (non_mutating human_feedback))
      else if not (any (λ actor. text_eq actor feedback.actor_login) automation_actor_allowlist)
      then (s, ok (non_mutating rejected_actor))
      else decide s meanwhile afterwards feedback decision
