-- ===== src/Policy/Laws.antt =====
-- What a policy guarantees that src/policy.rs accepts.
use pi_tools.Common.{
  ◌≤◌, ◌≡◌, ◌≢◌, false, ◌&&◌, List, [], ◌++◌, arith, ◌==◌, is_empty, any, In, any-none_elim, ok,
}
use pi_tools.Text.{Text, is_blank}
use pi_tools.Paths.{components, resolve}
use pi_tools.Policy.{Policy, is_bad_path, is_bad_branch, validate}
use pi_tools.Paths.Laws.{names, resolve-names}

-- A policy that is accepted, condition by condition.
pub record Valid (policy : Policy) : Type 0 where
  pub interval : 30 ≤ policy.reconcile_interval_seconds
  pub actors : any is_blank policy.automation_actors ≡ false
  pub maintainers : any is_blank policy.maintainers ≡ false
  pub paths : any is_bad_path policy.repair_allowed_paths ≡ false
  pub branches : any is_bad_branch policy.bot_owned_branches ≡ false
  pub force_push : (policy.allow_bot_force_push && is_empty policy.bot_owned_branches) ≡ false
  pub stack : any (λ p. p.0 == p.1) policy.stack_parents ≡ false

validate-Valid : (policy : Policy) → validate policy ≡ ok tt → Valid policy
unfolding validate
validate-Valid policy h = ground arith

-- Each path that an accepted policy lets a repair write leads, from any directory, to a place below
-- that directory: its components are names, and none of them leads up or to the root.
pub repair_path-confined :
    (policy : Policy) (path : Text) (here : List Text)
    → validate policy ≡ ok tt
    → In path policy.repair_allowed_paths
    → (path ≢ []) × (resolve here (components path) ≡ names (components path) ++ here)
unfolding is_bad_path
repair_path-confined policy path here h m =
    let good : is_bad_path path ≡ false =
      any-none_elim is_bad_path path policy.repair_allowed_paths (validate-Valid policy h).paths
        m in
    (ground arith, resolve-names here (components path) (ground arith))
