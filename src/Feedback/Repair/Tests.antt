-- ===== src/Feedback/Repair/Tests.antt =====
-- A suggestion for the one file of a repository, applied.
use pi_tools.Common.{
  ap, ◌↔◌, Bool, ◌≡◌, refl, true, none, some, List, [], ◌∷◌, ◌++◌, if◌then◌else◌, ok, err,
}
use pi_tools.Text.{Text, codes}
use pi_tools.Feedback.{context, remove, add}
use pi_tools.Feedback.Parse.Laws.{Spells, parse_unified_patch_iff}
use pi_tools.Feedback.Reply.{parse_feedback_comment_target, conversation_comment}
use pi_tools.Paths.{root_dir, normal}
use pi_tools.Feedback.Parse.{parse_unified_patch, ParsedPatch}
use pi_tools.Feedback.Files.{FileSystem, PathBuf, regular, directory, path_eq}
use pi_tools.Feedback.Repair.{Feedback, apply, applied, RepairOutcome, repair_feedback}
use pi_tools.Feedback.Repair.Effect.{
  Effect, repair_feedback-Effect, Resolved, repair_feedback-Resolved,
}

abbrev root : PathBuf
root = root_dir ∷ normal (codes "r") ∷ []

abbrev only_file : PathBuf
only_file = root_dir ∷ normal (codes "r") ∷ normal (codes "a") ∷ []

unfoldable is_only_file : PathBuf → Bool
unfolding path_eq
is_only_file p = path_eq p only_file

-- The state is the text of the file.
abbrev one_file : FileSystem
one_file = record {
  State = Text;
  canonicalize = λ s p. ok p;
  symlink_metadata = λ s p. ok (if is_only_file p then regular else directory);
  metadata = λ s p. ok (if is_only_file p then regular else directory);
  read_to_string = λ s p. if is_only_file p then ok s else err (codes "not found");
  write = λ s p text. if is_only_file p then (text, ok tt) else (s, err (codes "not found"));
}

abbrev suggestion : Feedback
suggestion = record {
  actor_login = codes "bot";
  actor_type = codes "Bot";
  is_automation = true;
  body = codes "Use:" ++ (0xa ∷ codes "```suggestion" ++ (0xa ∷ codes "x" ++ (0xa ∷ codes "```")));
  path = some (codes "a");
  start_line = none;
  line = some 2;
}

abbrev before : Text
before = codes "a" ++ (0xa ∷ codes "b" ++ (0xa ∷ []))

abbrev outcome : RepairOutcome
outcome = record { disposition = applied; path = some (codes "a"); resolution_eligible = true }

repairs :
    repair_feedback one_file root before (λ s. s) (λ s. s) (codes "bot" ∷ []) suggestion apply
    ≡ (codes "a" ++ (0xa ∷ codes "x" ++ (0xa ∷ [])), ok outcome)
unfolding repair_feedback is_only_file
repairs = refl

abbrev all_listed : List Text
all_listed = codes "bot" ∷ []

repair_feedback-Effect_example :
    Effect one_file root before
      (λ s. s)
      (λ s. s)
      all_listed
      suggestion
      apply
      (repair_feedback one_file root before (λ s. s) (λ s. s) all_listed suggestion apply).0
repair_feedback-Effect_example =
    repair_feedback-Effect one_file root before (λ s. s) (λ s. s) all_listed suggestion apply

repair_feedback-Resolved_example :
    Resolved one_file root before
      (λ s. s)
      (λ s. s)
      all_listed
      suggestion
      apply
      (repair_feedback one_file root before (λ s. s) (λ s. s) all_listed suggestion apply).0
      outcome
repair_feedback-Resolved_example =
    repair_feedback-Resolved one_file root before (λ s. s) (λ s. s) all_listed suggestion apply
      outcome (ap (λ r. r.1) repairs) refl

abbrev patch_text : Text
patch_text =
    codes "--- a/a"
    ++ (0xa ∷ codes "+++ b/a"
        ++ (0xa ∷ codes "@@ -1,2 +1,2 @@"
            ++ (0xa ∷ codes " a" ++ (0xa ∷ codes "-b" ++ (0xa ∷ codes "+x")))))

abbrev patch : ParsedPatch
patch = record {
  path = codes "a";
  hunks =
      record {
        old_start = 1;
        old_count = 2;
        new_count = 2;
        lines = context (codes "a") ∷ remove (codes "b") ∷ add (codes "x") ∷ [];
      }
      ∷ [];
}

parsed : parse_unified_patch patch_text ≡ ok patch
unfolding parse_unified_patch
parsed = refl

parse_unified_patch_iff_example :
    (parse_unified_patch patch_text ≡ ok patch) ↔ Spells patch patch_text
parse_unified_patch_iff_example = parse_unified_patch_iff patch_text patch

two_numbers : parse_feedback_comment_target (codes "review:+12") ≡ ok (conversation_comment 12)
unfolding parse_feedback_comment_target
two_numbers = refl
