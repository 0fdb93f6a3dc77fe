-- ===== src/Reconcile/Checks/Sources.antt =====
-- Where the snapshots of src/reconcile.rs come from: which status or check run at GitHub a passing one shows.
use pi_tools.Common.{
  ℕ, ◌≡◌, refl, sym, ap, ◌∙◌, ◌⊎◌, inl, inr, any, true, false, not, arith, Option, none, some, List,
  [], ◌∷◌, ltb, Bool-cases, Option-cases, In, All, All-In, and_parts, find, find-In,
}
use mathlib.Core.Path.{subst}
use pi_tools.Text.{Text, codes, text_eq}
use pi_tools.Text.Laws.{text_eq_iff}
use pi_tools.Sort.Orders.{sort_with-In}
use pi_tools.Maps.Texts.{get_text, put_text-In, values-In}
use pi_tools.Policy.{Policy}
use pi_tools.Events.{CheckRecord}
use pi_tools.Readiness.{
  CheckStatus, completed, CheckConclusion, success, skipped, CheckSnapshot, is_wrong_app,
  is_passing, same_app,
}
use pi_tools.Readiness.Laws.{passes, is_passed}
use pi_tools.Reconcile.{PullRequestReadSet, CommitStatus, GitHubCheckRun}
use pi_tools.Reconcile.Checks.{
  required_check_names, required_check_app_id, commit_status_state, check_status, check_conclusion,
  conclusions, map_option, status_record, run_record, check_records, put_checks, put_missing,
  snapshot_of, missing_snapshot, readiness_checks,
}
use pi_tools.Reconcile.Checks.Required.{put_records-All, map-All}

-- A commit status of the name says success, and no app is asked for.
pub record PassedStatus (read_set : PullRequestReadSet) (name : Text) : Type 0 where
  pub status : CommitStatus
  pub read : In status read_set.statuses
  pub named : status.context ≡ name
  pub state : status.state ≡ codes "success"
  pub no_app : required_check_app_id read_set name ≡ none

-- A check run of the name has completed as a success, or was skipped, and if an app is asked for, it is the
-- app's.
pub record PassedRun (read_set : PullRequestReadSet) (name : Text) : Type 0 where
  pub run : GitHubCheckRun
  pub read : In run read_set.check_runs
  pub named : run.name ≡ name
  pub status : run.status ≡ codes "completed"
  pub conclusion :
      (run.conclusion ≡ some (codes "success")) ⊎ (run.conclusion ≡ some (codes "skipped"))
  pub app : (a : ℕ) → required_check_app_id read_set name ≡ some a → run.app_id ≡ some a

abbrev pub Reported : PullRequestReadSet → Text → Type 0
Reported read_set name = PassedStatus read_set name ⊎ PassedRun read_set name

check_status-completed : (t : Text) → check_status t ≡ completed → t ≡ codes "completed"
unfolding check_status
check_status-completed t h = ground (arith, (text_eq_iff t (codes "completed")).0)

-- A conclusion that is not unknown is the one that the table has for the text.
check_conclusion-In :
    (t : Text)
    → (check_conclusion t ≡ CheckConclusion.unknown) ⊎ In (t, check_conclusion t) conclusions
unfolding check_conclusion
check_conclusion-In t = elim (Option-cases (find (λ c. text_eq c.0 t) conclusions)) [
  | inl nothing ↦ inl (rw (check_conclusion, nothing) refl)
  | inr (c, found) ↦
      let (i, same) = find-In (λ c. text_eq c.0 t) conclusions found in
      let key : c.0 ≡ t = (text_eq_iff c.0 t).0 same in
      inr (rw (check_conclusion, found) (subst (λ k. In (k, c.1) conclusions) key i))
]

In-passing :
    (t : Text) (c : CheckConclusion)
    → In (t, c) conclusions
    → is_passing c ≡ true
    → (t ≡ codes "success") ⊎ (t ≡ codes "skipped")
In-passing t c i h = elim i [
  | inl e ↦ inl (sym (ap (λ p. p.0) e))
  | inr (inl e) ↦ absurd (cc (ap (λ p. is_passing p.1) e, h))
  | inr (inr (inl e)) ↦ absurd (cc (ap (λ p. is_passing p.1) e, h))
  | inr (inr (inr (inl e))) ↦ absurd (cc (ap (λ p. is_passing p.1) e, h))
  | inr (inr (inr (inr (inl e)))) ↦ absurd (cc (ap (λ p. is_passing p.1) e, h))
  | inr (inr (inr (inr (inr (inl e))))) ↦ inr (sym (ap (λ p. p.0) e))
  | inr (inr (inr (inr (inr (inr (inl e)))))) ↦ absurd (cc (ap (λ p. is_passing p.1) e, h))
  | inr (inr (inr (inr (inr (inr (inr (inl e))))))) ↦ absurd (cc (ap (λ p. is_passing p.1) e, h))
  | inr (inr (inr (inr (inr (inr (inr (inr (inl e)))))))) ↦
      absurd (cc (ap (λ p. is_passing p.1) e, h))
  | inr (inr (inr (inr (inr (inr (inr (inr (inr x)))))))) ↦ elim x [ ]
]

check_conclusion-passing :
    (t : Text)
    → is_passing (check_conclusion t) ≡ true
    → (t ≡ codes "success") ⊎ (t ≡ codes "skipped")
check_conclusion-passing t h = elim (check_conclusion-In t) [
  | inl unknown ↦ absurd (cc (ap is_passing unknown, h))
  | inr i ↦ In-passing t (check_conclusion t) i h
]

is_passed-completed :
    (s : CheckStatus) (c : Option CheckConclusion)
    → is_passed s c ≡ true
    → (s ≡ completed) × ((k : CheckConclusion) × (c ≡ some k) × (is_passing k ≡ true))
is_passed-completed completed (some success) h = (refl, (success, refl, refl))
is_passed-completed completed (some skipped) h = (refl, (skipped, refl, refl))
is_passed-completed s c h = ground arith

right_app :
    (app asked : Option ℕ)
    → elim asked [ none ↦ false | some a ↦ not (same_app app (some a)) ] ≡ false
    → (asked ≡ none) ⊎ ((a : ℕ) × (asked ≡ some a) × (app ≡ some a))
right_app app none h = inl refl
right_app none (some a) h = cc
right_app (some b) (some a) h = inr (a, refl, ap some (ground (arith, h)))

state-passed :
    (t : Text)
    → is_passed
        (check_status (commit_status_state t).0)
        (map_option check_conclusion (commit_status_state t).1)
      ≡ true
    → t ≡ codes "success"
unfolding commit_status_state check_status check_conclusion
state-passed t h = elim (Bool-cases (text_eq t (codes "success"))) [
  | inl same ↦ (text_eq_iff t (codes "success")).0 same
  | inr other ↦ elim (Bool-cases (any (text_eq t) (codes "failure" ∷ codes "error" ∷ []))) [
    | inl failed ↦ absurd (cc (rw (other, failed) at h))
    | inr unfailed ↦ elim (Bool-cases (text_eq t (codes "pending"))) [
      | inl waits ↦ absurd (cc (rw (other, unfailed, waits) at h))
      | inr strange ↦ absurd (cc (rw (other, unfailed, strange) at h))
    ]
  ]
]

module _ (read_set : PullRequestReadSet) (names : List Text) where
  snapshot_of-app :
      (check : CheckRecord)
      → passes (snapshot_of read_set names check) ≡ true
      → (required_check_app_id read_set check.name ≡ none)
        ⊎ ((a : ℕ) × (required_check_app_id read_set check.name ≡ some a) × (check.app_id ≡ some a))
  unfolding snapshot_of
  snapshot_of-app check h =
      let (right, passed) =
        and_parts {a = not (is_wrong_app (snapshot_of read_set names check))} h in
      right_app check.app_id (required_check_app_id read_set check.name) (ground (arith, right))

  status-PassedStatus :
      (status : CommitStatus)
      → In status read_set.statuses
      → passes (snapshot_of read_set names (status_record status)) ≡ true
      → PassedStatus read_set status.context
  unfolding snapshot_of
  status-PassedStatus status i h =
      let check = status_record status in
      let (right, passed) =
        and_parts {a = not (is_wrong_app (snapshot_of read_set names check))} h in
      record {
        status = status;
        read = i;
        named = refl;
        state = state-passed status.state passed;
        no_app = elim (snapshot_of-app check h) [
          | inl free ↦ free
          | inr (a, asked, given) ↦ absurd (cc given)
        ];
      }

  run-PassedRun :
      (run : GitHubCheckRun)
      → In run read_set.check_runs
      → passes (snapshot_of read_set names (run_record run)) ≡ true
      → PassedRun read_set run.name
  unfolding snapshot_of
  run-PassedRun run i h =
      let check = run_record run in
      let (right, passed) =
        and_parts {a = not (is_wrong_app (snapshot_of read_set names check))} h in
      let (done, (k, concluded, fine)) = is_passed-completed _ _ passed in
      record {
        run = run;
        read = i;
        named = refl;
        status = check_status-completed run.status done;
        conclusion = elim (Option-cases run.conclusion) [
          | inl nothing ↦ absurd (cc (ap (map_option check_conclusion) nothing, concluded))
          | inr (t, given) ↦
              let same : some (check_conclusion t) ≡ some k =
                sym (ap (map_option check_conclusion) given) ∙ concluded in
              elim (check_conclusion-passing t (cc (same, fine))) [
                | inl good ↦ inl (given ∙ ap some good)
                | inr left_out ↦ inr (given ∙ ap some left_out)
              ]
        ];
        app = λ a asked. elim (snapshot_of-app check h) [
          | inl free ↦ absurd (cc (free, asked))
          | inr (b, same, given) ↦ given ∙ sym same ∙ asked
        ];
      }

-- A record that was made of a status or of a check run.
abbrev From : PullRequestReadSet → CheckRecord → Type 0
From read_set c =
    ((s : CommitStatus) × In s read_set.statuses × (c ≡ status_record s))
    ⊎ ((run : GitHubCheckRun) × In run read_set.check_runs × (c ≡ run_record run))

check_records-From : (read_set : PullRequestReadSet) → All (From read_set) (check_records read_set)
unfolding check_records
check_records-From read_set =
    map-All (From read_set) (λ (e : Text × CheckRecord). e.1) _
      (λ e m.
        All-In (λ (e : Text × CheckRecord). From read_set e.1) _
          (put_records-All (From read_set) _ _
            (map-All (From read_set) run_record _ (λ c i.
              inr (c, (sort_with-In (λ l r. ltb l.id r.id) c read_set.check_runs).0 i, refl)))
            (put_records-All (From read_set) _ []
              (map-All (From read_set) status_record _ (λ s i.
                inl (s, (sort_with-In (λ l r. ltb l.id r.id) s read_set.statuses).0 i, refl)))
              tt))
          m)

module _ (read_set : PullRequestReadSet) (names : List Text) where
  -- A snapshot of a record, or of a name without one.
  abbrev Drawn : Text → CheckSnapshot → Type 0
  Drawn k s =
      ((c : CheckRecord) × From read_set c × (s ≡ snapshot_of read_set names c))
      ⊎ (s.status ≡ CheckStatus.unknown)

  put_checks-Drawn :
      (rest : List CheckRecord) (m : List (Text × CheckSnapshot))
      → All (From read_set) rest
      → All (λ e. Drawn e.0 e.1) m
      → All (λ e. Drawn e.0 e.1) (put_checks read_set names rest m)
  unfolding put_checks
  put_checks-Drawn [] m f a = a
  put_checks-Drawn (c ∷ rest) m f a =
      put_checks-Drawn rest _ f.1
        (put_text-In Drawn c.name (snapshot_of read_set names c) m (inl (c, f.0, refl)) a)

  put_missing-Drawn :
      (rest : List Text) (m : List (Text × CheckSnapshot))
      → All (λ e. Drawn e.0 e.1) m
      → All (λ e. Drawn e.0 e.1) (put_missing read_set names rest m)
  unfolding put_missing missing_snapshot
  put_missing-Drawn [] m a = a
  put_missing-Drawn (n ∷ rest) m a = elim (Option-cases (get_text n m)) [
    | inr (s, found) ↦ rw (put_missing, found) (put_missing-Drawn rest m a)
    | inl new ↦
        rw (put_missing, new)
          (put_missing-Drawn rest _
            (put_text-In Drawn n (missing_snapshot read_set names n) m (inr refl) a))
  ]

  -- A passing snapshot of a record shows a status or a check run that passed.
  From-Reported :
      (c : CheckRecord)
      → From read_set c
      → passes (snapshot_of read_set names c) ≡ true
      → Reported read_set c.name
  From-Reported c (inl (s, i, same)) h =
      subst (λ (c : CheckRecord). Reported read_set c.name) (sym same)
        (inl (
          status-PassedStatus read_set names s i
            (ap (λ c. passes (snapshot_of read_set names c)) (sym same) ∙ h)))
  From-Reported c (inr (run, i, same)) h =
      subst (λ (c : CheckRecord). Reported read_set c.name) (sym same)
        (inr (
          run-PassedRun read_set names run i
            (ap (λ c. passes (snapshot_of read_set names c)) (sym same) ∙ h)))

-- A snapshot that passes shows a status or a check run of its name that passed.
pub readiness_checks-Reported :
    (read_set : PullRequestReadSet) (policy : Policy) (s : CheckSnapshot)
    → In s (readiness_checks read_set policy)
    → passes s ≡ true
    → Reported read_set s.name
unfolding readiness_checks snapshot_of
readiness_checks-Reported read_set policy s i h =
    let names = required_check_names read_set policy in
    let (k, drawn) =
      values-In (Drawn read_set names) _ s
        (put_missing-Drawn read_set names names _ (
          put_checks-Drawn read_set names (check_records read_set) [] (check_records-From read_set)
            tt))
        i in
    elim drawn [
      | inl (c, from, same) ↦
          subst (λ (n : Text). Reported read_set n) (ap (λ (s : CheckSnapshot). s.name) (sym same))
            (From-Reported read_set names c from (ap passes (sym same) ∙ h))
      | inr unknown ↦
          let (right, passed) = and_parts {a = not (is_wrong_app s)} h in
          absurd (cc (rw unknown at passed))
    ]
