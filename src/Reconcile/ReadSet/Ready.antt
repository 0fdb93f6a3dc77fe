-- ===== src/Reconcile/ReadSet/Ready.antt =====
-- What a pull request has whose read set src/reconcile.rs and src/readiness.rs find ready.
use pi_tools.Common.{
  ℕ, ◌≤◌, ◌≡◌, sym, ap, ◌∙◌, inl, inr, Bool, true, false, not, ◌||◌, Option, none, some, List, [],
  ◌∷◌, ◌++◌, map, arith, leb, leb→le, Bool-cases, Option-cases, and_parts, all, filter, find,
  find-In, count, In,
}
use mathlib.Core.Path.{subst}
use pi_tools.Text.{Text}
use pi_tools.Text.Laws.{text_eq_iff}
use pi_tools.Maps.Texts.{values}
use pi_tools.Policy.{Policy}
use pi_tools.Readiness.{CheckSnapshot, evaluate, named, is_wrong_app}
use pi_tools.Readiness.Laws.{
  all-In, evaluate-ready, is_mergeable_now, is_satisfied, passes, is_mergeable,
}
use pi_tools.Reconcile.{PullRequestReadSet}
use pi_tools.Reconcile.Reviews.{latest_review_reviews}
use pi_tools.Reconcile.Reviews.Latest.{LatestOf}
use pi_tools.Reconcile.Reviews.Count.{approves, current_approval_count-LatestOf}
use pi_tools.Reconcile.Checks.{readiness_checks}
use pi_tools.Reconcile.Checks.Required.{
  IsRequired, IsAbsent, readiness_checks-required, readiness_checks-absent,
}
use pi_tools.Reconcile.Checks.Sources.{Reported, readiness_checks-Reported}
use pi_tools.Reconcile.ReadSet.{requirements_of, readiness_input, reconcile_read_set}

module _ (read_set : PullRequestReadSet) (policy : Policy) where
  -- What is found of a required check: a snapshot of that name that passes, and a status or a check run that
  -- GitHub reports for it, with success.
  abbrev pub Passed : Text → Type 0
  Passed name =
      (check : CheckSnapshot) × In check (readiness_checks read_set policy)
      × (check.name ≡ name)
      × (passes check ≡ true)
      × (IsAbsent read_set name → ⊥)
      × Reported read_set name

  -- The approvals that the protection of the branch asks for, among the latest decisions of the reviewers.
  abbrev pub Approved : Type 0
  Approved =
      let kept = values (latest_review_reviews read_set.reviews) in
      LatestOf read_set.reviews kept
      × ((requirements_of read_set.required_pull_request_reviews).required_approving_review_count
          ≤ count (approves read_set.head_sha) kept)

  In-required :
      (name : Text) (s : CheckSnapshot) (checks : List CheckSnapshot) (others : List Text)
      → In s checks
      → s.name ≡ name
      → s.required ≡ true
      → In name (map (λ check. check.name) (filter (λ check. check.required) checks) ++ others)
  In-required name s [] others i e r = elim i [ ]
  In-required name s (c ∷ checks) others (inl here) e r =
      let needed : c.required ≡ true = ap (λ (x : CheckSnapshot). x.required) here ∙ r in
      rw needed (inl (ap (λ (x : CheckSnapshot). x.name) here ∙ e))
  In-required name s (c ∷ checks) others (inr i) e r = elim (Bool-cases c.required) [
    | inl needed ↦ rw needed (inr (In-required name s checks others i e r))
    | inr free ↦ rw free (In-required name s checks others i e r)
  ]

  satisfied-Passed :
      (name : Text)
      → IsRequired read_set policy name
      → is_satisfied (readiness_checks read_set policy) name ≡ true
      → Passed name
  unfolding is_satisfied
  satisfied-Passed name required h =
      elim (Option-cases (find (named name) (readiness_checks read_set policy))) [
        | inl nothing ↦ absurd (cc (rw (is_satisfied, nothing) at h))
        | inr (check, found) ↦
            let good : passes check ≡ true = rw (is_satisfied, found) at h in
            let (i, same) = find-In (named name) (readiness_checks read_set policy) found in
            let e : check.name ≡ name = (text_eq_iff check.name name).0 same in
            (
              check,
              i,
              e,
              good,
              λ absent.
                  let unknown =
                    readiness_checks-absent read_set policy name required check absent i e in
                  cc (rw unknown at ((and_parts {a = not (is_wrong_app check)} good).1)),
              subst (Reported read_set) e (readiness_checks-Reported read_set policy check i good),
            )
      ]

  -- The conditions that a ready pull request meets.
  pub record Ready : Type 0 where
    pub no_draft : read_set.draft ≡ false
    pub mergeable : read_set.mergeable ≡ some true
    pub current :
        policy.require_current_branch ≡ true → read_set.base_sha ≡ read_set.base_branch_sha
    pub passed : (name : Text) → IsRequired read_set policy name → Passed name
    pub approved : Approved

  is_mergeable-some : (m : Option Bool) → is_mergeable m ≡ true → m ≡ some true
  is_mergeable-some none h = cc h
  is_mergeable-some (some b) h = ap some h

  module _ (h : is_mergeable_now (readiness_input read_set policy) policy ≡ true) where
    mergeable_now-Ready : Ready
    unfolding is_mergeable_now readiness_input
    mergeable_now-Ready =
        let input = readiness_input read_set policy in
        let (draft, h1) = and_parts {a = not input.is_draft} h in
        let (mergeable, h2) = and_parts {a = is_mergeable input.mergeable} h1 in
        let (current, h3) =
          and_parts {a = input.branch_is_current || not policy.require_current_branch} h2 in
        let (checks, h4) =
          and_parts
            {a = all (is_satisfied input.required_checks) (
              map (λ check. check.name) (filter (λ check. check.required) input.required_checks)
              ++ policy.required_checks)}
            h3 in
        let (approved, h5) = and_parts {a = input.approved || not policy.require_approval} h4 in
        let (enough, h6) =
          and_parts {a = leb input.required_approval_count input.approval_count} h5 in
        let (kept, counted) = current_approval_count-LatestOf read_set.reviews read_set.head_sha in
        record {
          no_draft = ground (arith, draft);
          mergeable = is_mergeable-some read_set.mergeable mergeable;
          current = λ must. (text_eq_iff _ _).0 (ground (arith, current, must));
          passed = λ name required.
              let (s, i, e, r) = readiness_checks-required read_set policy name required in
              satisfied-Passed name required (
                all-In (is_satisfied (readiness_checks read_set policy)) _ checks (
                  In-required name s (readiness_checks read_set policy) policy.required_checks i e
                    r));
          approved = (
            kept,
            subst
                (λ (c : ℕ × Bool).
                  (requirements_of
                    read_set.required_pull_request_reviews).required_approving_review_count
                  ≤ c.0)
                counted (leb→le _ _ enough),
          );
        }

  -- A pull request that is found ready from its read set is no draft and GitHub can merge it; if the policy
  -- asks for it, the base that it was read with is the tip of the base branch; each check that the policy or the
  -- protection of the branch requires was reported by a commit status that says success, where no app is asked
  -- for, or by a completed check run that succeeded or was skipped, of the app that is asked for; and among the
  -- latest decisions of the reviewers, one of each, there are as many approvals of its head, or of no named
  -- commit, as the protection of the branch asks for.
  pub reconcile-Ready :
      (now snapshot_id : ℕ)
      → (evaluate (reconcile_read_set read_set policy).readiness policy now snapshot_id).ready
        ≡ true
      → Ready
  unfolding reconcile_read_set
  reconcile-Ready now snapshot_id h =
      mergeable_now-Ready
        (sym (evaluate-ready (readiness_input read_set policy) policy now snapshot_id) ∙ h)
