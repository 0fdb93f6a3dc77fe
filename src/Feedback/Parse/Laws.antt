-- ===== src/Feedback/Parse/Laws.antt =====
-- Which texts `parse_unified_patch` accepts, and as what.
use pi_tools.Common.{
  ◌≡◌, refl, sym, ap, arith, ◌∙◌, ◌↔◌, false, not, some, List, [], ◌∷◌, ◌++◌, is_empty, ok, ok_or,
  ok_or-ok, reject_if, reject_if-ok, >>=-eq-ok, ok-injective,
}
use mathlib.Core.Path.{subst}
use pi_tools.Text.{Text, codes, text_eq}
use pi_tools.Text.Laws.{text_eq_iff, text_eq_self, strip_prefix_iff}
use pi_tools.Paths.{split_on}
use pi_tools.Feedback.Parse.{
  ParsedPatch, parse_hunks, validate_relative_path, parse_unified_patch, next_with, behind,
}
use pi_tools.Feedback.Parse.Hunks.{Spelled, parse_hunks_iff}

-- The lines of the text are the two headers of one file, with a path that is allowed, and at least one
-- hunk.
pub record Spells (patch : ParsedPatch) (source : Text) : Type 0 where
  pub body : List Text
  pub lines :
      split_on 0xa source ≡ (codes "--- a/" ++ patch.path) ∷ (codes "+++ b/" ++ patch.path) ∷ body
  pub path : validate_relative_path patch.path ≡ ok tt
  pub some_hunk : is_empty patch.hunks ≡ false
  pub spelled : Spelled patch.hunks body

next_with-some :
    (prefix : Text) (lines : List Text) (rest : Text)
    → next_with prefix lines ≡ some rest
    → lines ≡ (prefix ++ rest) ∷ behind lines
unfolding next_with
next_with-some prefix [] rest h = cc
next_with-some prefix (line ∷ lines) rest h =
    ap (λ l. l ∷ lines) ((strip_prefix_iff prefix line rest).0 h)

parse_unified_patch-Spells :
    (source : Text) (patch : ParsedPatch)
    → parse_unified_patch source ≡ ok patch
    → Spells patch source
unfolding parse_unified_patch
parse_unified_patch-Spells source patch h =
    let lines = split_on 0xa source in
    let (old, e1, h1) = >>=-eq-ok (ok_or (next_with (codes "--- a/") lines) _) _ h in
    let (new, e2, h2) = >>=-eq-ok (ok_or (next_with (codes "+++ b/") (behind lines)) _) _ h1 in
    let (u, e3, h3) = >>=-eq-ok (reject_if (not (text_eq old new)) _) _ h2 in
    let (v, e4, h4) = >>=-eq-ok (validate_relative_path old) _ h3 in
    let (hunks, e5, h5) = >>=-eq-ok (parse_hunks (behind (behind lines))) _ h4 in
    let at_old = next_with-some (codes "--- a/") lines old (ok_or-ok _ _ e1) in
    let at_new = next_with-some (codes "+++ b/") (behind lines) new (ok_or-ok _ _ e2) in
    let differ : not (text_eq old new) ≡ false = reject_if-ok _ _ e3 in
    let same : new ≡ old = sym ((text_eq_iff old new).0 (ground (arith, differ))) in
    let found = (parse_hunks_iff (behind (behind lines)) hunks).0 e5 in
    let parsed : record { path = old; hunks = hunks } ≡ patch = ok-injective _ refl h5 in
    subst (λ p. Spells p source) parsed
      record {
        body = behind (behind lines);
        lines =
            at_old
            ∙ ap (λ l. (codes "--- a/" ++ old) ∷ l)
                (at_new ∙ ap (λ n. (codes "+++ b/" ++ n) ∷ behind (behind lines)) same);
        path = e4;
        some_hunk = found.0;
        spelled = found.1;
      }

Spells-parse_unified_patch :
    (source : Text) (patch : ParsedPatch)
    → Spells patch source
    → parse_unified_patch source ≡ ok patch
unfolding parse_unified_patch
Spells-parse_unified_patch source patch s =
    let hunks = (parse_hunks_iff s.body patch.hunks).1 (s.some_hunk, s.spelled) in
    rw s.lines (rw (text_eq_self patch.path) (rw s.path (rw hunks refl)))

-- A text is accepted as a patch exactly if its lines spell that patch: the two headers of one allowed
-- path, and then at least one hunk, each a header and the lines that it counts, with nothing left over.
pub parse_unified_patch_iff :
    (source : Text) (patch : ParsedPatch)
    → (parse_unified_patch source ≡ ok patch) ↔ Spells patch source
parse_unified_patch_iff source patch =
    (parse_unified_patch-Spells source patch, Spells-parse_unified_patch source patch)
