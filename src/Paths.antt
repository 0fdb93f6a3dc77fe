-- ===== src/Paths.antt =====
-- `std::path::Path` on Unix and `str::split`, as the program uses them on repository paths.
pub mod Laws
use pi_tools.Common.{
  ℕ, Bool, true, false, ◌||◌, List, [], ◌∷◌, ◌==◌, if◌then◌else◌, is_empty, not, filter,
}
use mathlib.Core.List.{tail}
use pi_tools.Text.{Text, codes, text_eq, starts_with, is_whitespace}

-- `str::split` at a character: one part more than there are separators.
abbrev pub cons_head : ℕ → List Text → List Text
cons_head c [] = (c ∷ []) ∷ []
cons_head c (part ∷ parts) = (c ∷ part) ∷ parts

unfoldable pub split_on : ℕ → Text → List Text
split_on d [] = [] ∷ []
split_on d (c ∷ s) = let parts = split_on d s in if c == d then [] ∷ parts else cons_head c parts

-- `str::split_whitespace`: the parts between white space that are not empty.
abbrev pub split_space : Text → List Text
split_space [] = [] ∷ []
split_space (c ∷ s) =
    let parts = split_space s in if is_whitespace c then [] ∷ parts else cons_head c parts

abbrev pub split_whitespace : Text → List Text
split_whitespace s = filter (λ part. not (is_empty part)) (split_space s)

pub data Component : Type 0 where
  root_dir cur_dir parent_dir : Component
  normal : Text → Component

abbrev pub is_normal : Component → Bool
is_normal (normal t) = true
is_normal root_dir = false
is_normal cur_dir = false
is_normal parent_dir = false

abbrev pub dot : Text
dot = codes "."

abbrev pub dot_dot : Text
dot_dot = codes ".."

-- A part behind the first: empty parts and "." are dropped.
unfoldable pub later_components : List Text → List Component
unfolding text_eq
later_components [] = []
later_components (part ∷ parts) =
    let rest = later_components parts in
    if is_empty part || text_eq part dot
    then rest
    else if text_eq part dot_dot
    then parent_dir ∷ rest
    else normal part ∷ rest

first_components : List Text → List Component
unfolding later_components text_eq
first_components [] = []
first_components (part ∷ parts) =
    if text_eq part dot then cur_dir ∷ later_components parts else later_components (part ∷ parts)

unfoldable pub is_absolute : Text → Bool
unfolding starts_with
is_absolute path = starts_with path (codes "/")

-- `Path::components`.
unfoldable pub components : Text → List Component
unfolding first_components is_absolute split_on
components path =
    if is_absolute path
    then root_dir ∷ later_components (split_on b'/' path)
    else first_components (split_on b'/' path)

-- Where the components lead from a directory, given by the names of the way to it, the last first.
abbrev pub resolve : List Text → List Component → List Text
resolve here [] = here
resolve here (root_dir ∷ cs) = resolve [] cs
resolve here (cur_dir ∷ cs) = resolve here cs
resolve here (parent_dir ∷ cs) = resolve (tail here) cs
resolve here (normal name ∷ cs) = resolve (name ∷ here) cs
