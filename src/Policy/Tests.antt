-- ===== src/Policy/Tests.antt =====
-- A policy that is accepted, and what the service concludes from it.
use pi_tools.Common.{◌≡◌, refl, ◌≢◌, inl, true, false, [], ◌∷◌, ◌++◌, ok}
use pi_tools.Text.{Text, codes, text_eq, starts_with}
use pi_tools.Paths.{split_on, components, is_absolute, later_components, resolve}
use pi_tools.Paths.Laws.{names}
use pi_tools.Policy.{Policy, default, validate, is_bad_path, is_bad_branch}
use pi_tools.Policy.Laws.{repair_path-confined}

abbrev path : Text
path = codes "src/main.rs"

abbrev policy : Policy
policy = record default { repair_allowed_paths = path ∷ [] }

accepted : validate policy ≡ ok tt
unfolding validate is_bad_path is_bad_branch components is_absolute later_components split_on
    starts_with text_eq
accepted = refl

repair_path-confined_example :
    (path ≢ []) × (resolve [] (components path) ≡ names (components path) ++ [])
repair_path-confined_example = repair_path-confined policy path [] accepted (inl refl)

-- Paths that are not canonical are accepted as well.
doubled_slash : is_bad_path (codes "src//main.rs") ≡ false
unfolding is_bad_path components is_absolute later_components split_on starts_with text_eq
doubled_slash = refl

upwards : is_bad_path (codes "src/../main.rs") ≡ true
unfolding is_bad_path components is_absolute later_components split_on starts_with text_eq
upwards = refl
