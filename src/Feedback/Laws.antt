-- ===== src/Feedback/Laws.antt =====
-- What a patch that applies does to the lines of a file.
use pi_tools.Common.{
  ℕ, zero, suc, ◌+◌, ◌≤◌, ◌≡◌, refl, sym, ap, ◌∙◌, true, not, ◌||◌, Option, none, some, List, [],
  ◌∷◌, ◌++◌, arith, ltb, ◌==◌, length, drop, ok, reject_if, >>=-eq-ok, reject_if-ok, ok-injective,
}
use pi_tools.Text.{Text, codes}
use pi_tools.Text.Laws.{text_eq_iff}
use mathlib.Core.Path.{subst}
use mathlib.Core.Option.{some-injective}
use pi_tools.Paths.{split_on}
use pi_tools.Feedback.{
  Hunk, HunkLine, add, apply_from, apply_hunks, apply_lines, context, is_line, join_lines, nth,
  remove, require_exact_line, slice, start_of, stale_patch, malformed_patch,
}
use pi_tools.Feedback.Slices.{slice-append, length-slice}

-- What the lines of a hunk stand for before the patch, and behind it.
abbrev pub old_lines : List HunkLine → List Text
old_lines [] = []
old_lines (context line ∷ lines) = line ∷ old_lines lines
old_lines (remove line ∷ lines) = line ∷ old_lines lines
old_lines (add line ∷ lines) = old_lines lines

abbrev pub new_lines : List HunkLine → List Text
new_lines [] = []
new_lines (context line ∷ lines) = line ∷ new_lines lines
new_lines (remove line ∷ lines) = new_lines lines
new_lines (add line ∷ lines) = line ∷ new_lines lines

-- From a position on, each hunk replaces its old lines by its new ones where it says that it starts, and
-- the lines between the hunks and behind the last one stay.
abbrev pub Patched : ℕ → List Hunk → List Text → List Text → Type 0
Patched position [] source result = source ≡ result
Patched position (hunk ∷ hunks) source result =
    (gap : List Text) × (rest : List Text) × (rest' : List Text) × (source
      ≡ gap ++ (old_lines hunk.lines ++ rest))
    × (result ≡ gap ++ (new_lines hunk.lines ++ rest'))
    × (start_of hunk ≡ position + length gap)
    × (length (new_lines hunk.lines) ≡ hunk.new_count)
    × Patched (start_of hunk + length (old_lines hunk.lines)) hunks rest rest'

drop-nth :
    (source : List Text) (i : ℕ) {x : Text}
    → nth source i ≡ some x
    → drop i source ≡ x ∷ drop (suc i) source
drop-nth [] i h = ground (arith, h)
drop-nth (y ∷ ys) zero h = ap (λ z. z ∷ ys) (some-injective _ _ h)
drop-nth (y ∷ ys) (suc i) h = drop-nth ys i h

is_line-some : (o : Option Text) (x : Text) → is_line o x ≡ true → o ≡ some x
is_line-some none x h = ground (arith, h)
is_line-some (some y) x h = ap some ((text_eq_iff y x).0 h)

require-ok :
    (source : List Text) (i : ℕ) (x : Text) {u : Unit {0}}
    → require_exact_line source i x ≡ ok u
    → drop i source ≡ x ∷ drop (i + 1) source
unfolding require_exact_line
require-ok source i x h =
    let missing = reject_if-ok _ _ h in
    let next : i + 1 ≡ suc i = omega arith in
    rw next (drop-nth source i (is_line-some (nth source i) x (ground (arith, missing))))

-- What it means that the lines of a hunk were applied at an index.
abbrev Applied : List Text → ℕ → List HunkLine → List Text × ℕ → Type 0
Applied source i lines (out, behind) =
    (drop i source ≡ old_lines lines ++ drop behind source)
    × (out ≡ new_lines lines)
    × (behind ≡ i + length (old_lines lines))

apply_lines-ok :
    (source : List Text) (i : ℕ) (lines : List HunkLine) {r : List Text × ℕ}
    → apply_lines source i lines ≡ ok r
    → Applied source i lines r
unfolding apply_lines
apply_lines-ok source i [] {r} h =
    let same : ([], i) ≡ r = ok-injective _ refl h in rw (← same) (refl, refl, omega arith)
apply_lines-ok source i (context x ∷ lines) {r} h =
    let (u, found, h1) = >>=-eq-ok (require_exact_line source i x) _ h in
    let (got, later, h2) = >>=-eq-ok (apply_lines source (i + 1) lines) _ h1 in
    let (tail_, out, at) = apply_lines-ok source (i + 1) lines later in
    let same : (x ∷ got.0, got.1) ≡ r = ok-injective _ refl h2 in
    rw (← same) (
      require-ok source i x found ∙ ap (λ rest. x ∷ rest) tail_,
      ap (λ rest. x ∷ rest) out,
      omega (arith, at),
    )
apply_lines-ok source i (remove x ∷ lines) {r} h =
    let (u, found, h1) = >>=-eq-ok (require_exact_line source i x) _ h in
    let (tail_, out, at) = apply_lines-ok source (i + 1) lines h1 in
    (require-ok source i x found ∙ ap (λ rest. x ∷ rest) tail_, out, omega (arith, at))
apply_lines-ok source i (add x ∷ lines) {r} h =
    let (got, later, h2) = >>=-eq-ok (apply_lines source i lines) _ h in
    let (tail_, out, at) = apply_lines-ok source i lines later in
    let same : (x ∷ got.0, got.1) ≡ r = ok-injective _ refl h2 in
    rw (← same) (tail_, ap (λ rest. x ∷ rest) out, at)

-- What the loop of `apply_hunks` went through for a hunk.
record Step (source : List Text) (cursor : ℕ) (hunk : Hunk) (hunks : List Hunk) (result : List Text)
    : Type 0 where
  from : cursor ≤ start_of hunk
  to : start_of hunk ≤ length source
  got : List Text × ℕ
  pushed : apply_lines source (start_of hunk) hunk.lines ≡ ok got
  size : length got.0 ≡ hunk.new_count
  rest : List Text
  later : apply_from source got.1 hunks ≡ ok rest
  built : slice cursor (start_of hunk) source ++ (got.0 ++ rest) ≡ result

apply_from-Step :
    (source : List Text) (cursor : ℕ) (hunk : Hunk) (hunks : List Hunk) {result : List Text}
    → apply_from source cursor (hunk ∷ hunks) ≡ ok result
    → Step source cursor hunk hunks result
unfolding apply_from
apply_from-Step source cursor hunk hunks {result} h =
    let outside = ltb (start_of hunk) cursor || ltb (length source) (start_of hunk) in
    let stale = stale_patch (codes "hunks overlap or address lines outside the file") in
    let malformed = malformed_patch (codes "new hunk count changed during application") in
    let (u, placed, h1) = >>=-eq-ok (reject_if outside stale) _ h in
    let (got, pushed, h2) = >>=-eq-ok (apply_lines source (start_of hunk) hunk.lines) _ h1 in
    let wrong = not (length got.0 == hunk.new_count) in
    let (v, counted, h3) = >>=-eq-ok (reject_if wrong malformed) _ h2 in
    let (rest, later, h4) = >>=-eq-ok (apply_from source got.1 hunks) _ h3 in
    let inside = reject_if-ok outside stale placed in
    record {
      from = ground (arith, inside);
      to = ground (arith, inside);
      got = got;
      pushed = pushed;
      size = ground (arith, reject_if-ok wrong malformed counted);
      rest = rest;
      later = later;
      built = ok-injective _ refl h4;
    }

apply_from-Patched :
    (source : List Text) (cursor : ℕ) (hunks : List Hunk) {result : List Text}
    → apply_from source cursor hunks ≡ ok result
    → Patched cursor hunks (drop cursor source) result
unfolding apply_from
apply_from-Patched source cursor [] h = ok-injective _ refl h
apply_from-Patched source cursor (hunk ∷ hunks) {result} h =
    let s = apply_from-Step source cursor hunk hunks h in
    let (before, out, at) = apply_lines-ok source (start_of hunk) hunk.lines s.pushed in
    let gap = slice cursor (start_of hunk) source in
    (
      gap,
      drop s.got.1 source,
      s.rest,
      slice-append cursor (start_of hunk) source s.from ∙ ap (λ rest. gap ++ rest) before,
      sym s.built ∙ ap (λ new. gap ++ (new ++ s.rest)) out,
      omega (arith, length-slice cursor (start_of hunk) source s.from s.to, s.from),
      ap length (sym out) ∙ s.size,
      subst (λ n. Patched n hunks (drop s.got.1 source) s.rest) at
          (apply_from-Patched source s.got.1 hunks s.later),
    )

-- A patch that applies gives the lines of the file with each hunk's old lines, at the line where the hunk
-- starts, replaced by its new lines, as many as its header says, and all other lines as they were.
pub apply_hunks-Patched :
    (original : Text) (hunks : List Hunk) {result : Text}
    → apply_hunks original hunks ≡ ok result
    → (lines : List Text) × (result ≡ join_lines lines)
      × Patched 0 hunks (split_on 0xa original) lines
unfolding apply_hunks
apply_hunks-Patched original hunks h =
    let (lines, applied, rest) = >>=-eq-ok (apply_from (split_on 0xa original) 0 hunks) _ h in
    (
      lines,
      sym (ok-injective _ refl rest),
      apply_from-Patched (split_on 0xa original) 0 hunks applied,
    )
