-- ===== src/Policy.antt =====
-- src/policy.rs: the repository policy and its validation. `serde_yaml_ng` parses the YAML, so
-- `from_yaml` is modelled from the parsed value on; `revision` hashes the printed policy and is left out.
pub mod Laws
mod Tests
use pi_tools.Common.{
  ℕ, Bool, true, false, not, ◌&&◌, ◌||◌, List, [], ◌∷◌, ltb, ◌==◌, is_empty, any, all, Result,
  ◌>>=◌, ◌>>◌, reject_if,
}
use pi_tools.Text.{Text, codes, text_eq, byte_len, starts_with, contains, contains_any, is_blank}
use pi_tools.Paths.{split_on, is_normal, dot, dot_dot, is_absolute, components}

pub data ValidationCommand : Type 0 where
  git_diff_check make_check cargo_check cargo_test cargo_clippy npm_check : ValidationCommand

abbrev pub argv : ValidationCommand → List Text
argv git_diff_check =
    codes "git" ∷ codes "diff" ∷ codes "--cached" ∷ codes "--check" ∷ codes "--" ∷ []
argv make_check = codes "make" ∷ codes "check" ∷ []
argv cargo_check = codes "cargo" ∷ codes "check" ∷ codes "--locked" ∷ []
argv cargo_test = codes "cargo" ∷ codes "test" ∷ codes "--locked" ∷ []
argv cargo_clippy =
    codes "cargo"
    ∷ codes "clippy"
    ∷ codes "--locked"
    ∷ codes "--all-targets"
    ∷ codes "--"
    ∷ codes "-D"
    ∷ codes "warnings"
    ∷ []
argv npm_check =
    codes "npm" ∷ codes "--prefix" ∷ codes "workers/pi" ∷ codes "run" ∷ codes "check" ∷ []

pub record Policy : Type 0 where
  pub automation_actors : List Text
  pub maintainers : List Text
  pub required_checks : List Text
  pub require_approval : Bool
  pub require_current_branch : Bool
  pub reconcile_interval_seconds : ℕ
  pub allow_bot_force_push : Bool
  pub bot_owned_branches : List Text
  pub repair_allowed_paths : List Text
  pub stack_parents : List (ℕ × ℕ)
  pub validation_commands : List ValidationCommand

-- `Policy::default`.
abbrev pub default : Policy
default = record {
  automation_actors = [];
  maintainers = [];
  required_checks = [];
  require_approval = true;
  require_current_branch = true;
  reconcile_interval_seconds = 300;
  allow_bot_force_push = false;
  bot_owned_branches = [];
  repair_allowed_paths = [];
  stack_parents = [];
  validation_commands = git_diff_check ∷ [];
}

pub data PolicyError : Type 0 where
  invalid : Text → PolicyError

-- A path that no repair may name.
unfoldable pub is_bad_path : Text → Bool
unfolding is_absolute components
is_bad_path path =
    is_empty path
    || (contains_any (b'\\' ∷ 0 ∷ 0xd ∷ 0xa ∷ []) path
        || (is_absolute path || not (all is_normal (components path))))

abbrev pub branch_characters : List ℕ
branch_characters = 0 ∷ 0xd ∷ 0xa ∷ b' ' ∷ b'~' ∷ b'^' ∷ b':' ∷ b'?' ∷ b'*' ∷ b'[' ∷ b'\\' ∷ []

abbrev pub is_last : ℕ → Text → Bool
is_last d [] = false
is_last d (c ∷ []) = c == d
is_last d (c ∷ e ∷ s) = is_last d (e ∷ s)

-- `byte < 0x20 || byte == 0x7f`: no byte of a longer encoding is either.
abbrev pub is_control_byte : ℕ → Bool
is_control_byte c = ltb c 0x20 || c == 0x7f

abbrev pub is_bad_component : Text → Bool
is_bad_component part = is_empty part || (text_eq part dot || text_eq part dot_dot)

-- A name that no branch has.
unfoldable pub is_bad_branch : Text → Bool
unfolding text_eq starts_with contains byte_len split_on
is_bad_branch branch =
    is_empty branch
    || (ltb 255 (byte_len branch)
        || (text_eq branch dot
            || (text_eq branch dot_dot
                || (starts_with branch (codes "-")
                    || (starts_with branch (codes "/")
                        || (is_last b'/' branch
                            || (is_last b'.' branch
                                || (text_eq branch (codes "@")
                                    || (contains branch (codes "//")
                                        || (contains branch (codes "@{")
                                            || (contains_any branch_characters branch
                                                || (contains branch dot_dot
                                                    || (any is_control_byte branch
                                                        || any is_bad_component
                                                            (split_on b'/' branch))))))))))))))

-- `Policy::validate`.
unfoldable pub validate : Policy → Result PolicyError (Unit {0})
unfolding is_bad_path is_bad_branch
validate policy = do
  reject_if (ltb policy.reconcile_interval_seconds 30)
      (invalid (codes "reconcile_interval_seconds must be at least 30"))
  reject_if (any is_blank policy.automation_actors)
      (invalid (codes "automation_actors cannot contain empty values"))
  reject_if (any is_blank policy.maintainers)
      (invalid (codes "maintainers cannot contain empty values"))
  reject_if (any is_bad_path policy.repair_allowed_paths)
      (invalid (codes "repair_allowed_paths must contain canonical repository-relative paths"))
  reject_if (any is_bad_branch policy.bot_owned_branches)
      (invalid (codes "bot_owned_branches must contain valid branch names"))
  reject_if (policy.allow_bot_force_push && is_empty policy.bot_owned_branches)
      (invalid (codes "allow_bot_force_push requires bot_owned_branches"))
  reject_if (any (λ p. p.0 == p.1) policy.stack_parents)
      (invalid (codes "stack_parents cannot point a pull request to itself"))

unfoldable pub is_configured_automation_actor : Policy → Text → Bool
unfolding text_eq
is_configured_automation_actor policy login =
    any (λ actor. text_eq actor login) policy.automation_actors
