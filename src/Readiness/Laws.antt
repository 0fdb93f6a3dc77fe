-- ===== src/Readiness/Laws.antt =====
-- When src/readiness.rs calls a pull request ready.
use pi_tools.Common.{
  ℕ, ◌≡◌, refl, ◌∙◌, ◌↔◌, inl, inr, Bool, true, false, not, ◌&&◌, ◌||◌, Option, none, some, List,
  [], ◌∷◌, ◌++◌, map, arith, leb, Bool-cases, and_parts, Bool-ext, is_empty, any, all, find, filter,
  In,
}
use pi_tools.Text.{Text, text_eq}
use pi_tools.Policy.{Policy, is_configured_automation_actor}
use pi_tools.Sort.Laws.{dedup-sort_by-In}
use pi_tools.Readiness.{
  CheckConclusion, CheckSnapshot, CheckStatus, ReadinessInput, ReadinessReason, all_check_reasons,
  check_reasons, conclusion_reasons, count_reasons, debug_name, evaluate, found_reasons,
  is_unresolved, is_wrong_app, merge_reasons, named, push_reasons, reasons, required_names, when,
  success, failure, cancelled, timed_out, neutral, skipped, action_required, stale, startup_failure,
  queued, in_progress, completed, unknown, draft, required_check_missing,
  unresolved_automation_feedback,
}
use pi_tools.Readiness.Names.{debug_name-injective}

is_empty-append : {A : Type 0} (xs ys : List A) → is_empty (xs ++ ys) ≡ (is_empty xs && is_empty ys)
is_empty-append [] ys = refl
is_empty-append (x ∷ xs) ys = refl

is_empty-same :
    {A : Type 0} (xs ys : List A) → ((z : A) → In z xs ↔ In z ys) → is_empty xs ≡ is_empty ys
is_empty-same [] [] same = refl
is_empty-same (x ∷ xs) (y ∷ ys) same = refl
is_empty-same [] (y ∷ ys) same = absurd ((same y).1 (inl refl))
is_empty-same (x ∷ xs) [] same = absurd ((same x).0 (inl refl))

pub all-intro :
    {A : Type 0} (p : A → Bool) (xs : List A) → ((x : A) → In x xs → p x ≡ true) → all p xs ≡ true
all-intro p [] f = refl
all-intro p (x ∷ xs) f = let here = f x (inl refl) in rw here (all-intro p xs λ y m. f y (inr m))

pub all-In :
    {A : Type 0} (p : A → Bool) {x : A} (xs : List A) → all p xs ≡ true → In x xs → p x ≡ true
all-In p [] h m = elim m [ ]
all-In p (y ∷ xs) h (inl e) = rw (← e) ((and_parts h).0)
all-In p (y ∷ xs) h (inr m) = all-In p xs ((and_parts h).1) m

all-same :
    {A : Type 0} (p : A → Bool) (xs ys : List A)
    → ((z : A) → In z xs ↔ In z ys)
    → all p xs ≡ all p ys
all-same p xs ys same =
    Bool-ext (all p xs) (all p ys) (λ h. all-intro p ys λ y m. all-In p xs h ((same y).1 m))
      (λ h. all-intro p xs λ x m. all-In p ys h ((same x).0 m))

-- A required check of this name was found, by the right app, and it completed with a passing conclusion.
abbrev pub is_passed : CheckStatus → Option CheckConclusion → Bool
is_passed completed (some success) = true
is_passed completed (some skipped) = true
is_passed _ _ = false

abbrev pub passes : CheckSnapshot → Bool
passes check = not (is_wrong_app check) && is_passed check.status check.conclusion

unfoldable pub is_satisfied : List CheckSnapshot → Text → Bool
unfolding text_eq
is_satisfied checks name = elim (find (named name) checks) [
  | none ↦ false
  | some check ↦ passes check
]

abbrev pub is_mergeable : Option Bool → Bool
is_mergeable (some b) = b
is_mergeable none = false

-- What a pull request needs in order to be merged.
unfoldable pub is_mergeable_now : ReadinessInput → Policy → Bool
unfolding is_satisfied is_configured_automation_actor
is_mergeable_now input policy =
    not input.is_draft
    && (is_mergeable input.mergeable
        && ((input.branch_is_current || not policy.require_current_branch)
            && (all (is_satisfied input.required_checks) (
                  map (λ check. check.name) (filter (λ check. check.required) input.required_checks)
                  ++ policy.required_checks)
                && ((input.approved || not policy.require_approval)
                    && (leb input.required_approval_count input.approval_count
                        && ((input.latest_push_approval || not input.last_push_approval_required)
                            && ((input.code_owner_review_satisfied
                                  || not input.code_owner_review_required)
                                && not (any (is_unresolved policy) input.unresolved_feedback))))))))

is_empty-conclusion_reasons :
    (status : CheckStatus) (conclusion : Option CheckConclusion)
    → is_empty (conclusion_reasons status conclusion) ≡ is_passed status conclusion
is_empty-conclusion_reasons queued c = refl
is_empty-conclusion_reasons in_progress c = refl
is_empty-conclusion_reasons unknown c = refl
is_empty-conclusion_reasons completed none = refl
is_empty-conclusion_reasons completed (some success) = refl
is_empty-conclusion_reasons completed (some failure) = refl
is_empty-conclusion_reasons completed (some cancelled) = refl
is_empty-conclusion_reasons completed (some timed_out) = refl
is_empty-conclusion_reasons completed (some neutral) = refl
is_empty-conclusion_reasons completed (some skipped) = refl
is_empty-conclusion_reasons completed (some action_required) = refl
is_empty-conclusion_reasons completed (some stale) = refl
is_empty-conclusion_reasons completed (some startup_failure) = refl
is_empty-conclusion_reasons completed (some unknown) = refl

is_empty-found_reasons : (check : CheckSnapshot) → is_empty (found_reasons check) ≡ passes check
is_empty-found_reasons check = elim (Bool-cases (is_wrong_app check)) [
  | inl wrong ↦ rw wrong refl
  | inr right ↦ rw right (is_empty-conclusion_reasons check.status check.conclusion)
]

is_empty-check_reasons :
    (checks : List CheckSnapshot) (name : Text)
    → is_empty (check_reasons checks name) ≡ is_satisfied checks name
unfolding check_reasons is_satisfied
is_empty-check_reasons checks name = of_found (find (named name) checks)
  where
    of_found :
        (found : Option CheckSnapshot)
        → is_empty
            (elim found [ none ↦ required_check_missing ∷ [] | some check ↦ found_reasons check ])
          ≡ elim found [ none ↦ false | some check ↦ passes check ]
    of_found none = refl
    of_found (some check) = is_empty-found_reasons check

is_empty-all_check_reasons :
    (checks : List CheckSnapshot) (names : List Text)
    → is_empty (all_check_reasons checks names) ≡ all (is_satisfied checks) names
unfolding all_check_reasons
is_empty-all_check_reasons checks [] = refl
is_empty-all_check_reasons checks (name ∷ names) =
    rw
      (
        is_empty-append (check_reasons checks name) (all_check_reasons checks names),
        is_empty-check_reasons checks name,
        is_empty-all_check_reasons checks names,
      )
      refl

all-required_names :
    (p : Text → Bool) (input : ReadinessInput) (policy : Policy)
    → all p (required_names input policy)
      ≡ all p (
          map (λ check. check.name) (filter (λ check. check.required) input.required_checks)
          ++ policy.required_checks)
unfolding required_names
all-required_names p input policy =
    all-same p _ _ λ z. dedup-sort_by-In (λ name. name) (λ x y e. e) z _

is_empty-when : (b : Bool) (r : ReadinessReason) → is_empty (when b r) ≡ not b
is_empty-when true r = refl
is_empty-when false r = refl

is_empty-merge_reasons : (m : Option Bool) → is_empty (merge_reasons m) ≡ is_mergeable m
is_empty-merge_reasons none = refl
is_empty-merge_reasons (some true) = refl
is_empty-merge_reasons (some false) = refl

is_empty-count_reasons :
    (input : ReadinessInput)
    → is_empty (count_reasons input) ≡ leb input.required_approval_count input.approval_count
is_empty-count_reasons input = ground arith

is_empty-push_reasons :
    (input : ReadinessInput)
    → is_empty (push_reasons input)
      ≡ (input.latest_push_approval || not input.last_push_approval_required)
is_empty-push_reasons input = ground arith

is_empty-when_needed :
    (needed given : Bool) (r : ReadinessReason)
    → is_empty (when (needed && not given) r) ≡ (given || not needed)
is_empty-when_needed true true r = refl
is_empty-when_needed true false r = refl
is_empty-when_needed false true r = refl
is_empty-when_needed false false r = refl

is_empty-both :
    (xs ys : List ReadinessReason) {a b : Bool}
    → is_empty xs ≡ a
    → is_empty ys ≡ b
    → is_empty (xs ++ ys) ≡ (a && b)
is_empty-both xs ys h k = rw (is_empty-append xs ys, h, k) refl

is_empty-reasons :
    (input : ReadinessInput) (policy : Policy)
    → is_empty (reasons input policy) ≡ is_mergeable_now input policy
unfolding reasons is_mergeable_now
is_empty-reasons input policy = is_empty-both _ _ (is_empty-when input.is_draft draft) (
    is_empty-both _ _ (is_empty-merge_reasons input.mergeable) (
      is_empty-both _ _
        (is_empty-when_needed policy.require_current_branch input.branch_is_current _)
        (is_empty-both _ _
          (is_empty-all_check_reasons input.required_checks (required_names input policy)
            ∙ all-required_names (is_satisfied input.required_checks) input policy)
          (is_empty-both _ _ (is_empty-when_needed policy.require_approval input.approved _) (
            is_empty-both _ _ (is_empty-count_reasons input) (
              is_empty-both _ _ (is_empty-push_reasons input) (
                is_empty-both _ _
                  (is_empty-when_needed input.code_owner_review_required
                    input.code_owner_review_satisfied _)
                  (is_empty-when (any (is_unresolved policy) input.unresolved_feedback)
                    unresolved_automation_feedback))))))))

-- A pull request is called ready exactly if it is no draft and GitHub can merge it, its branch is current
-- or need not be, each check that the input or the policy requires was found and passed for the right app,
-- it is approved or need not be, by as many reviewers as are required, after the last push if that is
-- required and by the code owners if that is required, and no comment of a configured automation actor
-- is unresolved.
pub evaluate-ready :
    (input : ReadinessInput) (policy : Policy) (now snapshot_id : ℕ)
    → (evaluate input policy now snapshot_id).ready ≡ is_mergeable_now input policy
unfolding evaluate
evaluate-ready input policy now snapshot_id =
    is_empty-same _ (reasons input policy)
      (λ r. dedup-sort_by-In debug_name debug_name-injective r (reasons input policy))
    ∙ is_empty-reasons input policy
