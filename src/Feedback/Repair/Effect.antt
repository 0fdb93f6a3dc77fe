-- ===== src/Feedback/Repair/Effect.antt =====
-- What `repair_feedback` does to the files, on every path through it.
use pi_tools.Common.{
  ◌≡◌, refl, sym, ap, ◌∙◌, ◌⊎◌, inl, inr, arith, Bool, true, false, not, ◌||◌, some, List, any, In,
  Bool-cases, Result, ok, ok_or, reject_if, reject_if-ok, >>=-eq-ok, ok-injective, Result-cases,
  Option-cases, ◌∷◌, [],
}
use mathlib.Core.Path.{subst}
use pi_tools.Text.{Text, codes, text_eq}
use pi_tools.Text.Laws.{text_eq_iff, any_text-In}
use pi_tools.Paths.{split_on}
use pi_tools.Feedback.{Hunk, FeedbackError, join_lines, apply_hunks}
use pi_tools.Feedback.Laws.{Patched, apply_hunks-Patched}
use pi_tools.Feedback.Suggestion.{review_range, apply_inline_suggestion}
use pi_tools.Feedback.Suggestion.Hunks.{hunk_of, apply_inline_suggestion-hunk}
use pi_tools.Feedback.Parse.{parse_unified_patch}
use pi_tools.Feedback.Fence.{extract_inline_suggestion}
use pi_tools.Feedback.Files.{FileSystem, PathBuf, io_result, checked_target}
use pi_tools.Feedback.Repair.{
  Feedback, RepairDecision, preview, apply, applied, RepairOutcome, PreparedRepair, patch_in,
  prepare_patch, prepare_inline, prepare_repair, recheck, read_back, write_repair, apply_repair,
  decide, repair_feedback,
}
use pi_tools.Feedback.Repair.Target.{Checked, checked_target-Checked, io_result-ok}

-- The new text is the old one with the lines of some hunks replaced.
abbrev pub Edited : Text → Text → Type 0
Edited original repaired =
    (hunks : List Hunk) × (lines : List Text) × (repaired ≡ join_lines lines)
    × Patched 0 hunks (split_on 0xa original) lines

apply_hunks-Edited :
    (original repaired : Text) (hunks : List Hunk)
    → apply_hunks original hunks ≡ ok repaired
    → Edited original repaired
apply_hunks-Edited original repaired hunks h =
    let (lines, same, patched) = apply_hunks-Patched original hunks h in
    (hunks, lines, same, patched)

not_eligible {ℓ} :
    {A : Type ℓ} {given : RepairOutcome} (result : Result FeedbackError RepairOutcome)
    (outcome : RepairOutcome)
    → result ≡ ok given
    → given.resolution_eligible ≡ false
    → result ≡ ok outcome
    → outcome.resolution_eligible ≡ true
    → A
not_eligible result outcome is unmarked h x =
    absurd (cc (unmarked, ap (λ o. o.resolution_eligible) (ok-injective result is h), x))

module _ (F : FileSystem) (repository_root : PathBuf) where
  prepare_patch-Edited :
      (s : F.State) (suggestion : Text) (prepared : PreparedRepair)
      → prepare_patch F repository_root s suggestion ≡ ok prepared
      → Edited prepared.original prepared.repaired
  unfolding prepare_patch
  prepare_patch-Edited s suggestion prepared h =
      let (patch, e1, h1) = >>=-eq-ok (parse_unified_patch suggestion) _ h in
      let (target, e2, h2) = >>=-eq-ok (checked_target F s repository_root patch.path) _ h1 in
      let (original, e3, h3) = >>=-eq-ok (io_result (F.read_to_string s target)) _ h2 in
      let (repaired, e4, h4) = >>=-eq-ok (apply_hunks original patch.hunks) _ h3 in
      let same : record { path = patch.path; original = original; repaired = repaired } ≡ prepared =
        ok-injective _ refl h4 in
      subst (λ p. Edited p.original p.repaired) same
        (apply_hunks-Edited original repaired patch.hunks e4)

  prepare_inline-Edited :
      (s : F.State) (feedback : Feedback) (prepared : PreparedRepair)
      → prepare_inline F repository_root s feedback ≡ ok prepared
      → Edited prepared.original prepared.repaired
  unfolding prepare_inline
  prepare_inline-Edited s feedback prepared h =
      let (suggestion, e0, h0) = >>=-eq-ok (extract_inline_suggestion feedback.body) _ h in
      let (path, e1, h1) = >>=-eq-ok (ok_or feedback.path _) _ h0 in
      let (range, e2, h2) = >>=-eq-ok (review_range feedback.start_line feedback.line) _ h1 in
      let (target, e3, h3) = >>=-eq-ok (checked_target F s repository_root path) _ h2 in
      let (original, e4, h4) = >>=-eq-ok (io_result (F.read_to_string s target)) _ h3 in
      let (repaired, e5, h5) =
        >>=-eq-ok (apply_inline_suggestion original range.0 range.1 suggestion) _ h4 in
      let same : record { path = path; original = original; repaired = repaired } ≡ prepared =
        ok-injective _ refl h5 in
      subst (λ p. Edited p.original p.repaired) same
        (apply_hunks-Edited original repaired (hunk_of original range.0 range.1 suggestion ∷ [])
          (apply_inline_suggestion-hunk original range.0 range.1 suggestion repaired e5))

  prepare_repair-Edited :
      (s : F.State) (feedback : Feedback) (prepared : PreparedRepair)
      → prepare_repair F repository_root s feedback ≡ ok prepared
      → Edited prepared.original prepared.repaired
  unfolding prepare_repair
  prepare_repair-Edited s feedback prepared h = elim (Option-cases (patch_in feedback.body)) [
    | inl e ↦ prepare_inline-Edited s feedback prepared (rw (prepare_repair, e) at h)
    | inr (suggestion, e) ↦ prepare_patch-Edited s suggestion prepared (rw (prepare_repair, e) at h)
  ]

  recheck-ok :
      (s : F.State) (prepared : PreparedRepair) {target : PathBuf}
      → recheck F repository_root s prepared ≡ ok target
      → Checked F s repository_root prepared.path target
        × (F.read_to_string s target ≡ ok prepared.original)
  unfolding recheck
  recheck-ok s prepared {target} h =
      let (found, e1, h1) = >>=-eq-ok (checked_target F s repository_root prepared.path) _ h in
      let (current, e2, h2) = >>=-eq-ok (io_result (F.read_to_string s found)) _ h1 in
      let (u, e3, h3) = >>=-eq-ok (reject_if (not (text_eq current prepared.original)) _) _ h2 in
      let is_target : found ≡ target = ok-injective (ok found) refl h3 in
      let differ = reject_if-ok _ _ e3 in
      let same : current ≡ prepared.original = (text_eq_iff _ _).0 (ground (arith, differ)) in
      subst
        (λ t.
          Checked F s repository_root prepared.path t
          × (F.read_to_string s t ≡ ok prepared.original))
        is_target
        (
          checked_target-Checked F s repository_root prepared.path e1,
          io_result-ok _ e2 ∙ ap ok same,
        )

  module _ (s : F.State) (meanwhile afterwards : F.State → F.State) (allowlist : List Text)
      (feedback : Feedback) (decision : RepairDecision) where
    -- The one write that a repair may do: by an automation of the allowlist whose repair was to be applied,
    -- to the checked file, which still held the text that was validated.
    pub record Written (left : F.State) : Type 0 where
      pub automation : feedback.is_automation ≡ true
      pub bot : feedback.actor_type ≡ codes "Bot"
      pub listed : In feedback.actor_login allowlist
      pub decided : decision ≡ apply
      pub prepared : PreparedRepair
      pub prepares : prepare_repair F repository_root s feedback ≡ ok prepared
      pub edited : Edited prepared.original prepared.repaired
      pub target : PathBuf
      pub checked : Checked F (meanwhile s) repository_root prepared.path target
      pub unchanged : F.read_to_string (meanwhile s) target ≡ ok prepared.original
      pub leaves : left ≡ afterwards (F.write (meanwhile s) target prepared.repaired).0

    -- Nothing is written, or this is.
    abbrev pub Effect : F.State → Type 0
    Effect left = (left ≡ s) ⊎ (left ≡ meanwhile s) ⊎ Written left

    -- Where an outcome says that the thread may be resolved, the file was written and reads as it should.
    abbrev pub Eligible : F.State × Result FeedbackError RepairOutcome → Type 0
    Eligible (left, result) =
        (outcome : RepairOutcome)
        → result ≡ ok outcome
        → outcome.resolution_eligible ≡ true
        → (w : Written left) × (F.read_to_string left w.target ≡ ok w.prepared.repaired)
          × (outcome.disposition ≡ applied)
          × (outcome.path ≡ some w.prepared.path)

    read_back-ok :
        (left : F.State) (target : PathBuf) (prepared : PreparedRepair) (outcome : RepairOutcome)
        → read_back F repository_root left target prepared ≡ ok outcome
        → (F.read_to_string left target ≡ ok prepared.repaired)
          × (outcome.disposition ≡ applied)
          × (outcome.path ≡ some prepared.path)
    unfolding read_back
    read_back-ok left target prepared outcome h =
        let (content, e1, h1) = >>=-eq-ok (io_result (F.read_to_string left target)) _ h in
        let (u, e2, h2) = >>=-eq-ok (reject_if (not (text_eq content prepared.repaired)) _) _ h1 in
        let differ = reject_if-ok _ _ e2 in
        let same : content ≡ prepared.repaired = (text_eq_iff _ _).0 (ground (arith, differ)) in
        let made = ok-injective _ refl h2 in
        (
          io_result-ok _ e1 ∙ ap ok same,
          sym (ap (λ o. o.disposition) made),
          sym (ap (λ o. o.path) made),
        )

    module _ (automation : feedback.is_automation ≡ true) (bot : feedback.actor_type ≡ codes "Bot")
        (listed : In feedback.actor_login allowlist) where
      module _ (prepared : PreparedRepair)
          (p : prepare_repair F repository_root s feedback ≡ ok prepared)
          (d : decision ≡ apply) where
        written_by :
            (target : PathBuf)
            → recheck F repository_root (meanwhile s) prepared ≡ ok target
            → Written (write_repair F repository_root (meanwhile s) afterwards target prepared).0
        unfolding write_repair
        written_by target e =
            let (checked, unchanged) = recheck-ok (meanwhile s) prepared e in
            record {
              automation = automation;
              bot = bot;
              listed = listed;
              decided = d;
              prepared = prepared;
              prepares = p;
              edited = prepare_repair-Edited s feedback prepared p;
              target = target;
              checked = checked;
              unchanged = unchanged;
              leaves = refl;
            }

        write_repair-Eligible :
            (target : PathBuf)
            → recheck F repository_root (meanwhile s) prepared ≡ ok target
            → Eligible (write_repair F repository_root (meanwhile s) afterwards target prepared)
        unfolding write_repair written_by
        write_repair-Eligible target e outcome h x =
            let written = F.write (meanwhile s) target prepared.repaired in
            let left = afterwards written.0 in
            let (u, fine, back) = >>=-eq-ok (io_result written.1) _ h in
            let (reads, disposition, path) = read_back-ok left target prepared outcome back in
            (written_by target e, reads, disposition, path)

        apply_repair-Effect :
            Effect (apply_repair F repository_root (meanwhile s) afterwards prepared).0
            × Eligible (apply_repair F repository_root (meanwhile s) afterwards prepared)
        unfolding apply_repair
        apply_repair-Effect =
            elim (Result-cases (recheck F repository_root (meanwhile s) prepared)) [
              | inl (failure, e) ↦ rw (apply_repair, e) (inr (inl refl), λ outcome h x. cc h)
              | inr (target, e) ↦
                  rw (apply_repair, e)
                    (inr (inr (written_by target e)), write_repair-Eligible target e)
            ]

      decide-Effect :
          (d : RepairDecision)
          → decision ≡ d
          → Effect (decide F repository_root s meanwhile afterwards feedback d).0
            × Eligible (decide F repository_root s meanwhile afterwards feedback d)
      unfolding decide
      decide-Effect preview e = elim (Result-cases (prepare_repair F repository_root s feedback)) [
        | inl (failure, p) ↦ rw (decide, p) (inl refl, λ outcome h x. cc h)
        | inr (prepared, p) ↦
            rw (decide, p) (inl refl, λ outcome h x. not_eligible _ outcome refl refl h x)
      ]
      decide-Effect apply e = elim (Result-cases (prepare_repair F repository_root s feedback)) [
        | inl (failure, p) ↦ rw (decide, p) (inl refl, λ outcome h x. cc h)
        | inr (prepared, p) ↦ rw (decide, p) (apply_repair-Effect prepared p e)
      ]

    abbrev called : F.State × Result FeedbackError RepairOutcome
    called = repair_feedback F repository_root s meanwhile afterwards allowlist feedback decision

    abbrev is_person : Bool
    is_person = not feedback.is_automation || not (text_eq feedback.actor_type (codes "Bot"))

    abbrev is_stranger : Bool
    is_stranger = not (any (λ actor. text_eq actor feedback.actor_login) allowlist)

    parts : Effect called.0 × Eligible called
    unfolding repair_feedback
    parts = elim (Bool-cases is_person) [
      | inl person ↦ rw person (inl refl, λ outcome h x. not_eligible _ outcome refl refl h x)
      | inr robot ↦ elim (Bool-cases is_stranger) [
        | inl stranger ↦
            rw (robot, stranger) (inl refl, λ outcome h x. not_eligible _ outcome refl refl h x)
        | inr known ↦
            rw (robot, known)
              (decide-Effect (ground (arith, robot)) ((text_eq_iff _ _).0 (ground (arith, robot)))
                (any_text-In feedback.actor_login allowlist (ground (arith, known))) decision refl)
      ]
    ]

    -- Whatever other processes do before the second check and after the write, a call writes nothing, or it
    -- writes once: for an automation of the allowlist whose repair was to be applied, the validated repair,
    -- to the checked file, which still held the text that it was validated for.
    pub repair_feedback-Effect :
        Effect
          (repair_feedback F repository_root s meanwhile afterwards allowlist feedback decision).0
    repair_feedback-Effect = parts.0

    -- What an outcome that allows the thread to be resolved stands for.
    pub record Resolved (left : F.State) (outcome : RepairOutcome) : Type 0 where
      pub written : Written left
      pub reads : F.read_to_string left written.target ≡ ok written.prepared.repaired
      pub disposition : outcome.disposition ≡ applied
      pub path : outcome.path ≡ some written.prepared.path

    -- Where the outcome says that the thread may be resolved, the validated repair was written, the file
    -- reads as it in the end, and the outcome names its path as applied.
    pub repair_feedback-Resolved :
        (outcome : RepairOutcome)
        → (repair_feedback F repository_root s meanwhile afterwards allowlist feedback decision).1
          ≡ ok outcome
        → outcome.resolution_eligible ≡ true
        → Resolved
            (repair_feedback F repository_root s meanwhile afterwards allowlist feedback decision).0
            outcome
    repair_feedback-Resolved outcome h x =
        let (written, reads, disposition, path) = parts.1 outcome h x in
        record { written = written; reads = reads; disposition = disposition; path = path }
