-- ===== src/Paths/Laws.antt =====
-- A path of normal components leads below the directory that it starts from.
use pi_tools.Common.{◌≡◌, refl, sym, ◌∙◌, true, List, [], ◌∷◌, ◌++◌, all}
use mathlib.Core.List.{append_assoc}
use pi_tools.Text.{Text}
use pi_tools.Paths.{Component, root_dir, cur_dir, parent_dir, normal, is_normal, resolve}

-- The names of the normal components, the last first.
abbrev pub names : List Component → List Text
names [] = []
names (normal name ∷ cs) = names cs ++ name ∷ []
names (root_dir ∷ cs) = names cs
names (cur_dir ∷ cs) = names cs
names (parent_dir ∷ cs) = names cs

pub resolve-names :
    (here : List Text) (cs : List Component)
    → all is_normal cs ≡ true
    → resolve here cs ≡ names cs ++ here
resolve-names here [] h = refl
resolve-names here (normal name ∷ cs) h =
    resolve-names (name ∷ here) cs h ∙ sym (append_assoc (names cs) (name ∷ []) here)
resolve-names here (root_dir ∷ cs) h = cc
resolve-names here (cur_dir ∷ cs) h = cc
resolve-names here (parent_dir ∷ cs) h = cc
