-- ===== src/Reconcile/Checks/Required.antt =====
-- The required checks among those that `reconcile_read_set` reports.
use pi_tools.Common.{
  ◌≡◌, ◌≢◌, refl, sym, ap, ◌∙◌, inl, inr, true, some, List, [], ◌∷◌, ◌++◌, map, ltb, Bool-cases,
  Option-cases, In, All, All-In, any-In,
}
use pi_tools.Text.{Text, text_eq}
use pi_tools.Text.Laws.{text_eq_iff}
use pi_tools.Sort.Laws.{dedup-sort_by-In}
use pi_tools.Sort.Orders.{sort_with-In}
use pi_tools.Maps.Texts.{
  get_text, put_text, put_text-In, get_text-put_text, get_text-other, get_text-In, get_text-values,
  values-In,
}
use pi_tools.Policy.{Policy}
use pi_tools.Events.{CheckRecord}
use pi_tools.Readiness.{CheckStatus, CheckSnapshot}
use pi_tools.Reconcile.{PullRequestReadSet, CommitStatus, GitHubCheckRun}
use pi_tools.Reconcile.Checks.{
  protected_names, required_check_names, put_records, status_record, run_record, check_records,
  snapshot_of, missing_snapshot, put_checks, put_missing, readiness_checks,
}

-- A name that the policy or the protection of the branch requires.
abbrev pub IsRequired : PullRequestReadSet → Policy → Text → Type 0
IsRequired read_set policy name =
    In name (policy.required_checks ++ protected_names read_set.required_status_checks)

-- Neither a commit status nor a check run has the name.
abbrev pub IsAbsent : PullRequestReadSet → Text → Type 0
IsAbsent read_set name =
    All (λ s. s.context ≢ name) read_set.statuses × All (λ c. c.name ≢ name) read_set.check_runs

required_check_names-In :
    (read_set : PullRequestReadSet) (policy : Policy) (name : Text)
    → IsRequired read_set policy name
    → In name (required_check_names read_set policy)
unfolding required_check_names
required_check_names-In read_set policy name m =
    (dedup-sort_by-In (λ name. name) (λ x y e. e) name _).1 m

module _ (P : CheckRecord → Type 0) where
  pub put_records-All :
      (rest : List CheckRecord) (m : List (Text × CheckRecord))
      → All P rest
      → All (λ e. P e.1) m
      → All (λ e. P e.1) (put_records rest m)
  unfolding put_records
  put_records-All [] m a b = b
  put_records-All (c ∷ rest) m a b =
      put_records-All rest _ a.1 (put_text-In (λ k v. P v) c.name c m a.0 b)

pub map-All :
    {A : Type 0} {B : Type 0} (P : B → Type 0) (f : A → B) (xs : List A)
    → ((x : A) → In x xs → P (f x))
    → All P (map f xs)
map-All P f [] h = tt
map-All P f (x ∷ xs) h = (h x (inl refl), map-All P f xs (λ y m. h y (inr m)))

-- A name that no status and no check run has is the name of no record.
check_records-absent :
    (read_set : PullRequestReadSet) (name : Text)
    → IsAbsent read_set name
    → All (λ c. c.name ≢ name) (check_records read_set)
unfolding check_records
check_records-absent read_set name (no_status, no_run) =
    map-All (λ (c : CheckRecord). c.name ≢ name) (λ (e : Text × CheckRecord). e.1) _
      (λ e m.
        All-In (λ (e : Text × CheckRecord). e.1.name ≢ name) _
          (put_records-All (λ c. c.name ≢ name) _ _
            (map-All (λ (c : CheckRecord). c.name ≢ name) run_record _
              (λ c i.
                All-In (λ (c : GitHubCheckRun). c.name ≢ name) read_set.check_runs no_run
                  ((sort_with-In (λ l r. ltb l.id r.id) c read_set.check_runs).0 i)))
            (put_records-All (λ c. c.name ≢ name) _ []
              (map-All (λ (c : CheckRecord). c.name ≢ name) status_record _
                (λ s i.
                  All-In (λ (s : CommitStatus). s.context ≢ name) read_set.statuses no_status
                    ((sort_with-In (λ l r. ltb l.id r.id) s read_set.statuses).0 i)))
              tt))
          m)

module _ (read_set : PullRequestReadSet) (names : List Text) (name : Text)
    (named : In name names) where
  -- A snapshot of a required name is required, and its status is unknown where the name is absent.
  abbrev Fits : Type 0 → Text → CheckSnapshot → Type 0
  Fits absent k s =
      (s.name ≡ k)
      × (k ≡ name → s.required ≡ true)
      × (absent → k ≡ name → s.status ≡ CheckStatus.unknown)

  put_checks-Fits :
      (absent : Type 0) (rest : List CheckRecord) (m : List (Text × CheckSnapshot))
      → (absent → All (λ c. c.name ≢ name) rest)
      → All (λ e. Fits absent e.0 e.1) m
      → All (λ e. Fits absent e.0 e.1) (put_checks read_set names rest m)
  unfolding put_checks snapshot_of
  put_checks-Fits absent [] m other a = a
  put_checks-Fits absent (c ∷ rest) m other a =
      put_checks-Fits absent rest _ (λ p. (other p).1)
        (put_text-In (Fits absent) c.name (snapshot_of read_set names c) m
          (
            refl,
            λ e.
                any-In (λ n. text_eq n c.name) name names named
                  ((text_eq_iff name c.name).1 (sym e)),
            λ p e. absurd ((other p).0 e),
          )
          a)

  put_missing-Fits :
      (absent : Type 0) (rest : List Text) (m : List (Text × CheckSnapshot))
      → All (λ e. Fits absent e.0 e.1) m
      → All (λ e. Fits absent e.0 e.1) (put_missing read_set names rest m)
  unfolding put_missing missing_snapshot
  put_missing-Fits absent [] m a = a
  put_missing-Fits absent (n ∷ rest) m a = elim (Option-cases (get_text n m)) [
    | inr (s, found) ↦ rw (put_missing, found) (put_missing-Fits absent rest m a)
    | inl new ↦
        rw (put_missing, new)
          (put_missing-Fits absent rest _ (
            put_text-In (Fits absent) n (missing_snapshot read_set names n) m
              (refl, λ e. refl, λ p e. refl) a))
  ]

  put_missing-keeps :
      (rest : List Text) (m : List (Text × CheckSnapshot)) (s : CheckSnapshot)
      → get_text name m ≡ some s
      → get_text name (put_missing read_set names rest m) ≡ some s
  unfolding put_missing
  put_missing-keeps [] m s h = h
  put_missing-keeps (n ∷ rest) m s h = elim (Option-cases (get_text n m)) [
    | inr (t, found) ↦ rw (put_missing, found) (put_missing-keeps rest m s h)
    | inl new ↦ elim (Bool-cases (text_eq n name)) [
      | inl same ↦ absurd (cc (new, h, ap (λ k. get_text k m) ((text_eq_iff n name).0 same)))
      | inr other ↦
          rw (put_missing, new)
            (put_missing-keeps rest _ s
              (get_text-other n name (missing_snapshot read_set names n) m other ∙ h))
    ]
  ]

  put_missing-has :
      (rest : List Text) (m : List (Text × CheckSnapshot))
      → In name rest
      → (s : CheckSnapshot) × (get_text name (put_missing read_set names rest m) ≡ some s)
  unfolding put_missing
  put_missing-has [] m i = elim i [ ]
  put_missing-has (n ∷ rest) m i = elim (Option-cases (get_text n m)) [
    | inr (t, found) ↦ elim i [
      | inl e ↦ (
        t,
        rw (put_missing, found)
            (put_missing-keeps rest m t (ap (λ k. get_text k m) (sym e) ∙ found)),
      )
      | inr j ↦ let (s, h) = put_missing-has rest m j in (s, rw (put_missing, found) h)
    ]
    | inl new ↦
        let fresh = missing_snapshot read_set names n in
        elim i [
          | inl e ↦ (
            fresh,
            rw (put_missing, new)
                (put_missing-keeps rest (put_text n fresh m) fresh (
                  ap (λ k. get_text k (put_text n fresh m)) (sym e) ∙ get_text-put_text n fresh m)),
          )
          | inr j ↦
              let (s, h) = put_missing-has rest (put_text n fresh m) j in
              (s, rw (put_missing, new) h)
        ]
  ]

module _ (read_set : PullRequestReadSet) (policy : Policy) (name : Text)
    (named : IsRequired read_set policy name) where
  abbrev entries : List (Text × CheckSnapshot)
  entries =
      let names = required_check_names read_set policy in
      put_missing read_set names names (put_checks read_set names (check_records read_set) [])

  entries-Fits :
      (absent : Type 0)
      → (absent → IsAbsent read_set name)
      → All
          (λ e.
            Fits read_set
              (required_check_names read_set policy)
              name
              (required_check_names-In read_set policy name named)
              absent
              e.0
              e.1)
          entries
  entries-Fits absent h =
      let names = required_check_names read_set policy in
      let n = required_check_names-In read_set policy name named in
      put_missing-Fits read_set names name n absent names _ (
        put_checks-Fits read_set names name n absent (check_records read_set) []
          (λ p. check_records-absent read_set name (h p)) tt)

  -- Each required name has a required snapshot.
  pub readiness_checks-required :
      (s : CheckSnapshot) × In s (readiness_checks read_set policy)
      × (s.name ≡ name)
      × (s.required ≡ true)
  unfolding readiness_checks
  readiness_checks-required =
      let names = required_check_names read_set policy in
      let n = required_check_names-In read_set policy name named in
      let (s, found) =
        put_missing-has read_set names name n names
          (put_checks read_set names (check_records read_set) []) n in
      let (key, needed, missing) =
        All-In _ _ (entries-Fits ⊥ (λ p. absurd p)) (get_text-In name s _ found) in
      (s, get_text-values name s _ found, key, needed refl)

  -- Where no status and no check run has a required name, the snapshots of that name are of unknown status.
  pub readiness_checks-absent :
      (s : CheckSnapshot)
      → IsAbsent read_set name
      → In s (readiness_checks read_set policy)
      → s.name ≡ name
      → s.status ≡ CheckStatus.unknown
  unfolding readiness_checks
  readiness_checks-absent s absent i e =
      let n = required_check_names-In read_set policy name named in
      let (k, (key, needed, missing)) =
        values-In
          (Fits read_set (required_check_names read_set policy) name n (IsAbsent read_set name))
          entries s (entries-Fits (IsAbsent read_set name) (λ p. p)) i in
      missing absent (sym key ∙ e)
