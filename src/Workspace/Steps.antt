-- ===== src/Workspace/Steps.antt =====
-- Reasoning about the log of a run, step by step: which events a run adds, and what a push waits for.
pub mod Calls
pub mod Validation
pub mod Guards
use pi_tools.Common.{
  ◌≡◌, refl, sym, ap, ◌∙◌, arith, Bool, true, false, not, ◌&&◌, ◌||◌, List, [], ◌∷◌, ◌++◌, any, all,
  Result, err, ok,
}
use mathlib.Core.List.{append_assoc}
use pi_tools.Text.{Text, codes, text_eq}
use pi_tools.Workspace.{
  continue, WorkspaceError, Event, checked_lease, ran, ran_with_input, repaired, touched, looked_at,
  Environment, World, Run, done, check, ◌>>=◌,
}

-- `git push`, behind any options `-c`.
unfoldable pub names_push : List Text → Bool
unfolding text_eq
names_push [] = false
names_push (word ∷ []) = text_eq word (codes "push")
names_push (word ∷ value ∷ words) =
    text_eq word (codes "push") || (text_eq word (codes "-c") && names_push words)

unfoldable pub is_push_argv : List Text → Bool
unfolding text_eq names_push
is_push_argv [] = false
is_push_argv (program ∷ words) = text_eq program (codes "git") && names_push words

unfoldable pub is_push : Event → Bool
unfolding is_push_argv
is_push (ran directory argv answer) = is_push_argv argv
is_push (checked_lease answer) = false
is_push (ran_with_input argv input answer) = false
is_push (repaired answer) = false
is_push (touched c answer) = false
is_push (looked_at path answer) = false

abbrev pub Test : Type 0
Test = Event → Bool

-- Each test was met by an event of the log.
abbrev pub met : List Test → List Event → Bool
met tests log = all (λ t. any t log) tests

-- The latest event is an answer that the lease is held.
abbrev pub lease_now : List Event → Bool
lease_now [] = false
lease_now (checked_lease (ok held) ∷ log) = held
lease_now (checked_lease (err text) ∷ log) = false
lease_now (ran directory argv answer ∷ log) = false
lease_now (ran_with_input argv input answer ∷ log) = false
lease_now (repaired answer ∷ log) = false
lease_now (touched c answer ∷ log) = false
lease_now (looked_at path answer ∷ log) = false

-- Before each push the tests were met, and the last thing before it was to find the lease held.
unfoldable pub guarded : List Test → List Event → Bool
unfolding is_push
guarded tests [] = true
guarded tests (event ∷ log) =
    (not (is_push event) || (lease_now log && met tests log)) && guarded tests log

pub any-append : (t : Test) (new log : List Event) → any t (new ++ log) ≡ (any t new || any t log)
any-append t [] log = refl
any-append t (e ∷ new) log = ground (arith, any-append t new log)

pub met-new :
    (tests : List Test) (new log : List Event)
    → met tests new ≡ true
    → met tests (new ++ log) ≡ true
met-new [] new log h = refl
met-new (t ∷ tests) new log h = ground (arith, h, any-append t new log, met-new tests new log)

pub met-later :
    (tests : List Test) (new log : List Event)
    → met tests log ≡ true
    → met tests (new ++ log) ≡ true
met-later [] new log h = refl
met-later (t ∷ tests) new log h = ground (arith, h, any-append t new log, met-later tests new log)

pub met-append :
    (tests more : List Test) (log : List Event)
    → met tests log ≡ true
    → met more log ≡ true
    → met (tests ++ more) log ≡ true
met-append [] more log h k = k
met-append (t ∷ tests) more log h k = ground (arith, h, met-append tests more log)

pub guarded-append :
    (tests : List Test) (new log : List Event)
    → any is_push new ≡ false
    → guarded tests (new ++ log) ≡ guarded tests log
unfolding guarded
guarded-append tests [] log h = refl
guarded-append tests (e ∷ new) log h = ground (arith, h, guarded-append tests new log)

pub guarded-quiet :
    (tests : List Test) (log : List Event) → any is_push log ≡ false → guarded tests log ≡ true
unfolding guarded
guarded-quiet tests [] h = refl
guarded-quiet tests (e ∷ log) h = ground (arith, h, guarded-quiet tests log)

abbrev pub OnOk :
    {A : Type 0} → (A → List Event → Type 0) → Result WorkspaceError A → List Event → Type 0
OnOk Q (err e) new = Unit
OnOk Q (ok a) new = Q a new

module _ {E : Environment} where
  -- The run has added events without a push, and if it has succeeded, these.
  abbrev pub Adds :
      {A : Type 0}
      → (A → List Event → Type 0)
      → World E
      → World E × Result WorkspaceError A
      → Type 0
  Adds Q w (after, result) =
      (new : List Event) × (after.log ≡ new ++ w.log)
      × (any is_push new ≡ false)
      × OnOk Q result new

  pub record Steps {A : Type 0} (m : Run E A) (Q : A → List Event → Type 0) : Type 0 where
    pub at : (w : World E) → Adds Q w (m w)

  abbrev pub Quiet : {A : Type 0} → Run E A → Type 0
  Quiet m = Steps m (λ a new. Unit)

  abbrev pub Meets : {A : Type 0} → Run E A → List Test → Type 0
  Meets m tests = Steps m (λ a new. met tests new ≡ true)

  pub done-Steps : {A : Type 0} (Q : A → List Event → Type 0) (a : A) → Q a [] → Steps (done a) Q
  unfolding done
  done-Steps Q a q = record { at = λ w. ([], refl, refl, q) }

  pub done-Quiet : {A : Type 0} (a : A) → Quiet (done a)
  done-Quiet a = done-Steps (λ b new. Unit) a tt

  pub check-Steps :
      {A : Type 0} (Q : A → List Event → Type 0) (r : Result WorkspaceError A)
      → ((a : A) → r ≡ ok a → Q a [])
      → Steps (check r) Q
  unfolding check
  check-Steps Q (err e) q = record { at = λ w. ([], refl, refl, tt) }
  check-Steps Q (ok a) q = record { at = λ w. ([], refl, refl, q a refl) }

  pub check-then :
      {A B : Type 0} {k : A → Run E B} (Q : B → List Event → Type 0) (r : Result WorkspaceError A)
      → ((a : A) → r ≡ ok a → Steps (k a) Q)
      → Steps (check r >>= k) Q
  unfolding check ◌>>=◌
  check-then Q (err e) f = record { at = λ w. ([], refl, refl, tt) }
  check-then Q (ok a) f = record { at = λ w. (f a refl).at w }

  pub check-Quiet : {A : Type 0} (r : Result WorkspaceError A) → Quiet (check r)
  check-Quiet r = check-Steps (λ a new. Unit) r (λ a h. tt)

  weaken_at :
      {A : Type 0} (P Q : A → List Event → Type 0) (w : World E)
      (r : World E × Result WorkspaceError A)
      → ((a : A) (new : List Event) → P a new → Q a new)
      → Adds P w r
      → Adds Q w r
  weaken_at P Q w (after, err e) f (new, log, no_push, u) = (new, log, no_push, tt)
  weaken_at P Q w (after, ok a) f (new, log, no_push, p) = (new, log, no_push, f a new p)

  pub weaken :
      {A : Type 0} {m : Run E A} (P Q : A → List Event → Type 0)
      → ((a : A) (new : List Event) → P a new → Q a new)
      → Steps m P
      → Steps m Q
  weaken {m = m} P Q f steps = record { at = λ w. weaken_at P Q w (m w) f (steps.at w) }

  Adds-behind :
      {B : Type 0} (Q : B → List Event → Type 0) (w after : World E)
      (r : World E × Result WorkspaceError B) (old : List Event)
      → after.log ≡ old ++ w.log
      → any is_push old ≡ false
      → Adds (λ b new. Q b (new ++ old)) after r
      → Adds Q w r
  Adds-behind Q w after (end, err e) old log no_push (new, more, quiet, q) = (
    new ++ old,
    more ∙ ap (λ l. new ++ l) log ∙ sym (append_assoc new old w.log),
    any-append is_push new old ∙ ground (arith, no_push, quiet),
    tt,
  )
  Adds-behind Q w after (end, ok b) old log no_push (new, more, quiet, q) = (
    new ++ old,
    more ∙ ap (λ l. new ++ l) log ∙ sym (append_assoc new old w.log),
    any-append is_push new old ∙ ground (arith, no_push, quiet),
    q,
  )

  module _ {A B : Type 0} (k : A → Run E B) where
    continue-Adds :
        (P : A → List Event → Type 0) (Q : B → List Event → Type 0) (w : World E)
        (r : World E × Result WorkspaceError A)
        → Adds P w r
        → ((a : A) (old : List Event) → P a old → Steps (k a) (λ b new. Q b (new ++ old)))
        → Adds Q w (continue k r)
    continue-Adds P Q w (after, err e) (old, log, no_push, p) rest = (old, log, no_push, tt)
    continue-Adds P Q w (after, ok a) (old, log, no_push, p) rest =
        Adds-behind Q w after (k a after) old log no_push ((rest a old p).at after)

  module _ {A B : Type 0} {m : Run E A} {k : A → Run E B} where
    pub bind-Steps :
        (P : A → List Event → Type 0) (Q : B → List Event → Type 0)
        → Steps m P
        → ((a : A) (old : List Event) → P a old → Steps (k a) (λ b new. Q b (new ++ old)))
        → Steps (m >>= k) Q
    unfolding ◌>>=◌
    bind-Steps P Q first rest = record { at = λ w. continue-Adds k P Q w (m w) (first.at w) rest }

    pub bind-Quiet : Quiet m → ((a : A) → Quiet (k a)) → Quiet (m >>= k)
    bind-Quiet first rest = bind-Steps (λ a new. Unit) (λ b new. Unit) first (λ a old u. rest a)

    -- What the first part met, or the later one.
    pub first-Meets :
        (tests : List Test) → Meets m tests → ((a : A) → Quiet (k a)) → Meets (m >>= k) tests
    first-Meets tests first rest =
        bind-Steps (λ a new. met tests new ≡ true) (λ b new. met tests new ≡ true) first
          (λ a old h.
            weaken (λ b new. Unit) (λ b new. met tests (new ++ old) ≡ true)
              (λ b new u. met-later tests new old h) (rest a))

    pub later-Meets :
        (tests : List Test) → Quiet m → ((a : A) → Meets (k a) tests) → Meets (m >>= k) tests
    later-Meets tests first rest =
        bind-Steps (λ a new. Unit) (λ b new. met tests new ≡ true) first
          (λ a old u.
            weaken (λ b new. met tests new ≡ true) (λ b new. met tests (new ++ old) ≡ true)
              (λ b new h. met-new tests new old h) (rest a))

    -- What is known of the result of the later part.
    pub bind-Value :
        (P : B → Type 0)
        → Quiet m
        → ((a : A) → Steps (k a) (λ b new. P b))
        → Steps (m >>= k) (λ b new. P b)
    bind-Value P first rest = bind-Steps (λ a new. Unit) (λ b new. P b) first (λ a old u. rest a)
