-- ===== src/Feedback/Repair/Target.antt =====
-- What `checked_target` has found out about the file that it answers with.
use pi_tools.Common.{
  ◌≡◌, refl, sym, ap, ◌∙◌, arith, true, false, not, ◌||◌, List, [], ◌∷◌, ◌++◌, and_parts, all,
  is_empty, Result, ok, err, reject_if, reject_if-ok, >>=-eq-ok, ok-injective,
}
use mathlib.Core.Path.{ap₂, subst}
use mathlib.Core.List.{append_assoc, append-nil}
use pi_tools.Text.{Text, contains_any}
use pi_tools.Text.Laws.{text_eq_iff}
use pi_tools.Paths.{
  Component, root_dir, cur_dir, parent_dir, normal, is_normal, components, is_absolute,
}
use pi_tools.Feedback.{invalid_path}
use pi_tools.Feedback.Parse.{validate_relative_path}
use pi_tools.Feedback.Files.{
  FileSystem, PathBuf, FileType, regular, directory, symlink, other, is_symlink, is_file, push,
  io_result, component_eq, path_eq, path_starts_with, extend, checked_target,
}

component_eq_sound : (c d : Component) → component_eq c d ≡ true → c ≡ d
unfolding component_eq
component_eq_sound root_dir root_dir h = refl
component_eq_sound cur_dir cur_dir h = refl
component_eq_sound parent_dir parent_dir h = refl
component_eq_sound (normal a) (normal b) h = ap normal ((text_eq_iff a b).0 h)
component_eq_sound root_dir cur_dir h = cc
component_eq_sound root_dir parent_dir h = cc
component_eq_sound root_dir (normal b) h = cc
component_eq_sound cur_dir root_dir h = cc
component_eq_sound cur_dir parent_dir h = cc
component_eq_sound cur_dir (normal b) h = cc
component_eq_sound parent_dir root_dir h = cc
component_eq_sound parent_dir cur_dir h = cc
component_eq_sound parent_dir (normal b) h = cc
component_eq_sound (normal a) root_dir h = cc
component_eq_sound (normal a) cur_dir h = cc
component_eq_sound (normal a) parent_dir h = cc

path_eq_sound : (p q : PathBuf) → path_eq p q ≡ true → p ≡ q
unfolding path_eq
path_eq_sound [] [] h = refl
path_eq_sound (c ∷ p) (d ∷ q) h =
    let (one, more) = and_parts {a = component_eq c d} {b = path_eq p q} h in
    ap₂ (λ a b. a ∷ b) (component_eq_sound c d one) (path_eq_sound p q more)
path_eq_sound [] (d ∷ q) h = cc
path_eq_sound (c ∷ p) [] h = cc

pub io_result-ok {ℓ} : {A : Type ℓ} (r : Result Text A) {a : A} → io_result r ≡ ok a → r ≡ ok a
io_result-ok (err e) h = cc
io_result-ok (ok b) h = ap ok (ok-injective (ok b) refl h)

is_file-regular : (t : FileType) → is_file t ≡ true → t ≡ regular
is_file-regular regular h = refl
is_file-regular directory h = cc
is_file-regular symlink h = cc
is_file-regular other h = cc

validate_relative_path-is_normal :
    (relative : Text)
    → validate_relative_path relative ≡ ok tt
    → all is_normal (components relative) ≡ true
unfolding validate_relative_path
validate_relative_path-is_normal relative h =
    let shaped = is_empty relative || contains_any (b'\\' ∷ 0 ∷ []) relative in
    let outside = is_absolute relative || not (all is_normal (components relative)) in
    let (u, e1, h1) = >>=-eq-ok (reject_if shaped (invalid_path relative)) _ h in
    let (v, e2, h2) = >>=-eq-ok (reject_if outside (invalid_path relative)) _ h1 in
    let inside : outside ≡ false = reject_if-ok _ _ e2 in ground (arith, inside)

module _ (F : FileSystem) (s : F.State) where
  -- No step of the way from a directory to a file is a symbolic link.
  abbrev pub NoLinks : PathBuf → List Component → Type 0
  NoLinks path [] = Unit
  NoLinks path (c ∷ cs) =
      (t : FileType) × (F.symlink_metadata s (path ++ (c ∷ [])) ≡ ok t)
      × (is_symlink t ≡ false)
      × NoLinks (path ++ (c ∷ [])) cs

  -- A regular file below the root, by a way of normal components without symbolic links, whose canonical
  -- path is this way.
  pub record Checked (repository_root : PathBuf) (relative : Text) (target : PathBuf) : Type 0 where
    pub valid : validate_relative_path relative ≡ ok tt
    pub root : PathBuf
    pub at_root : F.canonicalize s repository_root ≡ ok root
    pub below : target ≡ root ++ components relative
    pub normals : all is_normal (components relative) ≡ true
    pub no_links : NoLinks root (components relative)
    pub is_regular : F.metadata s target ≡ ok regular
    pub canonical : F.canonicalize s target ≡ ok target

  push-normal :
      (path : PathBuf) (c : Component) → is_normal c ≡ true → push path c ≡ path ++ (c ∷ [])
  push-normal path (normal name) h = refl
  push-normal path root_dir h = cc
  push-normal path cur_dir h = cc
  push-normal path parent_dir h = cc

  extend-ok :
      (relative : Text) (path : PathBuf) (cs : List Component) {target : PathBuf}
      → all is_normal cs ≡ true
      → extend F s relative path cs ≡ ok target
      → (target ≡ path ++ cs) × NoLinks path cs
  unfolding extend
  extend-ok relative path [] n h = (sym (ok-injective (ok path) refl h) ∙ sym (append-nil path), tt)
  extend-ok relative path (c ∷ cs) {target} n h =
      let (one, more) = and_parts {a = is_normal c} {b = all is_normal cs} n in
      let at_c = push-normal path c one in
      let (t, e1, h1) = >>=-eq-ok (io_result (F.symlink_metadata s (push path c))) _ h in
      let (u, e2, h2) = >>=-eq-ok (reject_if (is_symlink t) _) _ h1 in
      let next : extend F s relative (path ++ (c ∷ [])) cs ≡ ok target = rw (← at_c) h2 in
      let (at, links) = extend-ok relative (path ++ (c ∷ [])) cs more next in
      (
        at ∙ append_assoc path (c ∷ []) cs,
        (t, rw (← at_c) (io_result-ok _ e1), reject_if-ok _ _ e2, links),
      )

  -- A target that is accepted is such a file.
  pub checked_target-Checked :
      (repository_root : PathBuf) (relative : Text) {target : PathBuf}
      → checked_target F s repository_root relative ≡ ok target
      → Checked repository_root relative target
  unfolding checked_target
  checked_target-Checked repository_root relative {target} h =
      let (u, e1, h1) = >>=-eq-ok (validate_relative_path relative) _ h in
      let (root, e2, h2) = >>=-eq-ok (io_result (F.canonicalize s repository_root)) _ h1 in
      let (found, e3, h3) = >>=-eq-ok (extend F s relative root (components relative)) _ h2 in
      let (kind, e4, h4) = >>=-eq-ok (io_result (F.metadata s found)) _ h3 in
      let (v, e5, h5) = >>=-eq-ok (reject_if (not (is_file kind)) _) _ h4 in
      let (way, e6, h6) = >>=-eq-ok (io_result (F.canonicalize s found)) _ h5 in
      let (w, e7, h7) =
        >>=-eq-ok (reject_if (not (path_starts_with way root) || not (path_eq way found)) _) _ h6 in
      let normals = validate_relative_path-is_normal relative e1 in
      let (below, links) = extend-ok relative root (components relative) normals e3 in
      let is_target : found ≡ target = ok-injective (ok found) refl h7 in
      let differ = reject_if-ok _ _ e7 in
      let same : way ≡ found = path_eq_sound way found (ground (arith, differ)) in
      let no_file = reject_if-ok _ _ e5 in
      let file : kind ≡ regular = is_file-regular kind (ground (arith, no_file)) in
      subst (Checked repository_root relative) is_target record {
        valid = e1;
        root = root;
        at_root = io_result-ok _ e2;
        below = below;
        normals = normals;
        no_links = links;
        is_regular = io_result-ok _ e4 ∙ ap ok file;
        canonical = io_result-ok _ e6 ∙ ap ok same;
      }
