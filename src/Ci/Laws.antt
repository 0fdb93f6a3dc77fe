-- ===== src/Ci/Laws.antt =====
-- What src/ci.rs lets a repair do.
use pi_tools.Common.{
  refl, sym, ap, ◌∙◌, ok-injective, if◌then◌else◌, ◌==◌, ℕ, ◌≤◌, ◌<◌, ◌≡◌, Bool, true, false, List,
  [], ◌∷◌, ◌++◌, arith, ltb, length, any, All, ok, reject_if, >>=-eq-ok, reject_if-ok,
}
use pi_tools.Text.{Text, text_eq, byte_len}
use pi_tools.Text.Laws.{any_text-In}
use pi_tools.Ci.{
  CiFailureInput, max_log_bytes, new_failure, CiFailure, CiRepairPlan, WorktreePlan,
  admit_ci_mutation, bounded_text, new_repair_plan, admitted, no_mutation, waiting_approval,
  too_many_patches,
}
use pi_tools.Policy.{ValidationCommand}
use pi_tools.Paths.{components, resolve}
use pi_tools.Paths.Laws.{names, resolve-names}
use pi_tools.Ci.Patch.{
  Admissible, CiPatch, has_wrong_headers, max_patch_bytes, max_patches, validate_patch,
  validate_patch_set, validate_patches, validate_repository_path,
}

-- A planned repair always needs approval, so its admission never fails: without patches it changes
-- nothing, and with patches it is admitted once the plan is approved and waits until then.
pub admit-new_repair_plan :
    (failure : CiFailure) (worktree : WorktreePlan) (commands : List ValidationCommand)
    (plan : CiRepairPlan)
    → new_repair_plan failure worktree commands ≡ ok plan
    → (patch_count : ℕ) (approved : Bool)
    → admit_ci_mutation patch_count plan.requires_approval approved
      ≡ ok (
          if patch_count == 0 then no_mutation else if approved then admitted else waiting_approval)
unfolding new_repair_plan admit_ci_mutation
admit-new_repair_plan failure worktree commands plan h patch_count approved = ground arith

bounded_text-ok :
    (value : Text) (maximum : ℕ) (result : Text)
    → bounded_text value maximum ≡ ok result
    → (result ≡ value) × (byte_len value ≤ maximum)
unfolding bounded_text
bounded_text-ok value maximum result h = ground arith

-- A failure that is accepted holds the texts that were given, each within its bound.
pub new_failure-bounded_text :
    (input : CiFailureInput) (failure : CiFailure)
    → new_failure input ≡ ok failure
    → (failure.log_excerpt ≡ input.log_excerpt)
      × (byte_len failure.log_excerpt ≤ max_log_bytes)
      × (failure.check_name ≡ input.check_name)
      × (byte_len failure.check_name ≤ 256)
      × (failure.job_name ≡ input.job_name)
      × (byte_len failure.job_name ≤ 256)
      × (failure.workflow_name ≡ input.workflow_name)
      × (byte_len failure.workflow_name ≤ 256)
      × (failure.head_sha ≡ input.head_sha)
      × (byte_len failure.head_sha ≤ 128)
unfolding new_failure
new_failure-bounded_text input failure h =
    let (log, a, h1) = >>=-eq-ok (bounded_text input.log_excerpt max_log_bytes) _ h in
    let (check, b, h2) = >>=-eq-ok (bounded_text input.check_name 256) _ h1 in
    let (job, c, h3) = >>=-eq-ok (bounded_text input.job_name 256) _ h2 in
    let (workflow, d, h4) = >>=-eq-ok (bounded_text input.workflow_name 256) _ h3 in
    let (sha, e, h5) = >>=-eq-ok (bounded_text input.head_sha 128) _ h4 in
    let same = ok-injective _ refl h5 in
    let log_ok = bounded_text-ok _ _ log a in
    let check_ok = bounded_text-ok _ _ check b in
    let job_ok = bounded_text-ok _ _ job c in
    let workflow_ok = bounded_text-ok _ _ workflow d in
    let sha_ok = bounded_text-ok _ _ sha e in
    let log_at : failure.log_excerpt ≡ log = sym (ap (λ f. f.log_excerpt) same) in
    let check_at : failure.check_name ≡ check = sym (ap (λ f. f.check_name) same) in
    let job_at : failure.job_name ≡ job = sym (ap (λ f. f.job_name) same) in
    let workflow_at : failure.workflow_name ≡ workflow = sym (ap (λ f. f.workflow_name) same) in
    let sha_at : failure.head_sha ≡ sha = sym (ap (λ f. f.head_sha) same) in
    (
      log_at ∙ log_ok.0,
      rw (log_at, log_ok.0) log_ok.1,
      check_at ∙ check_ok.0,
      rw (check_at, check_ok.0) check_ok.1,
      job_at ∙ job_ok.0,
      rw (job_at, job_ok.0) job_ok.1,
      workflow_at ∙ workflow_ok.0,
      rw (workflow_at, workflow_ok.0) workflow_ok.1,
      sha_at ∙ sha_ok.0,
      rw (sha_at, sha_ok.0) sha_ok.1,
    )

validate_path-ok :
    (path : Text) (here : List Text)
    → validate_repository_path path ≡ ok tt
    → resolve here (components path) ≡ names (components path) ++ here
unfolding validate_repository_path
validate_path-ok path here h = resolve-names here (components path) (ground arith)

validate_patch-ok :
    (allowed_paths : List Text) (patch : CiPatch)
    → validate_patch allowed_paths patch ≡ ok tt
    → (validate_repository_path patch.path ≡ ok tt)
      × (any (λ p. text_eq p patch.path) allowed_paths ≡ true)
      × (ltb max_patch_bytes (byte_len patch.unified_diff) ≡ false)
      × (has_wrong_headers patch ≡ false)
unfolding validate_patch
validate_patch-ok allowed_paths patch h =
    let (u, path, rest) = >>=-eq-ok (validate_repository_path patch.path) _ h in
    (path, ground (arith, rest), ground (arith, rest), ground (arith, rest))

validate_patch-Admissible :
    (allowed_paths : List Text) (patch : CiPatch)
    → validate_patch allowed_paths patch ≡ ok tt
    → Admissible allowed_paths patch
unfolding validate_patch has_wrong_headers
validate_patch-Admissible allowed_paths patch h =
    let (path, known, small, headers) = validate_patch-ok allowed_paths patch h in
    record {
      allowed = any_text-In patch.path allowed_paths known;
      confined = λ here. validate_path-ok patch.path here path;
      bounded = ground (arith, small);
      old_once = ground (arith, headers);
      new_once = ground (arith, headers);
      no_other = ground (arith, headers);
    }

validate_patches-All :
    (allowed_paths : List Text) (patches : List CiPatch)
    → validate_patches allowed_paths patches ≡ ok tt
    → All (Admissible allowed_paths) patches
unfolding validate_patches
validate_patches-All allowed_paths [] h = tt
validate_patches-All allowed_paths (patch ∷ patches) h =
    let (u, first, rest) = >>=-eq-ok (validate_patch allowed_paths patch) _ h in
    (
      validate_patch-Admissible allowed_paths patch first,
      validate_patches-All allowed_paths patches rest,
    )

-- Each patch of an accepted set is admissible, and the set is neither empty nor too long.
pub validate_patch_set-Admissible :
    (patches : List CiPatch) (allowed_paths : List Text)
    → validate_patch_set patches allowed_paths ≡ ok tt
    → (0 < length patches) × (length patches ≤ max_patches) × All (Admissible allowed_paths) patches
unfolding validate_patch_set
validate_patch_set-Admissible [] allowed_paths h = ground (arith, h)
validate_patch_set-Admissible (patch ∷ patches) allowed_paths h =
    let few = ltb max_patches (length (patch ∷ patches)) in
    let (u, few, each) = >>=-eq-ok (reject_if few too_many_patches) _ h in
    (
      omega arith,
      ground (arith, reject_if-ok _ _ few),
      validate_patches-All allowed_paths (patch ∷ patches) each,
    )
