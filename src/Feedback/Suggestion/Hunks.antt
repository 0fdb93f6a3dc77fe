-- ===== src/Feedback/Suggestion/Hunks.antt =====
-- An inline suggestion is the patch with one hunk that removes the lines of the review and adds its own.
use pi_tools.Common.{
  ℕ, zero, suc, ◌+◌, ◌-◌, ◌≤◌, ◌<◌, ◌≡◌, refl, sym, ap, ◌∙◌, inl, inr, Bool, true, false, not, ◌||◌,
  some, List, [], ◌∷◌, ◌++◌, map, arith, ltb, leb, ◌==◌, is_empty, length, length-append, take,
  drop, ok, Bool-cases,
}
use mathlib.Core.List.{append_assoc, append-nil}
use mathlib.Core.Path.{ap₂}
use pi_tools.Text.{Text}
use pi_tools.Text.Laws.{text_eq_self}
use pi_tools.Paths.{split_on, cons_head}
use pi_tools.Feedback.{
  Hunk, remove, add, nth, require_exact_line, apply_lines, apply_from, apply_hunks, start_of, slice,
  join_lines,
}
use pi_tools.Feedback.Slices.{slice-append, length-slice}
use pi_tools.Feedback.Suggestion.{
  has_return, ends_with_line_end, without_line_end, lines_of, spliced, put_together,
  apply_inline_suggestion,
}

abbrev tail_of : Bool → List Text
tail_of true = [] ∷ []
tail_of false = []

split_on-line_end :
    (c : ℕ) (s : Text) → (c == 0xa) ≡ true → split_on 0xa (c ∷ s) ≡ [] ∷ split_on 0xa s
unfolding split_on
split_on-line_end c s h = rw h refl

split_on-other :
    (c : ℕ) (s : Text) → (c == 0xa) ≡ false → split_on 0xa (c ∷ s) ≡ cons_head c (split_on 0xa s)
unfolding split_on
split_on-other c s h = rw h refl

is_empty-cons_head : (c : ℕ) (parts : List Text) → is_empty (cons_head c parts) ≡ false
is_empty-cons_head c [] = refl
is_empty-cons_head c (part ∷ parts) = refl

cons_head-append :
    (c : ℕ) (parts rest : List Text)
    → is_empty parts ≡ false
    → cons_head c (parts ++ rest) ≡ cons_head c parts ++ rest
cons_head-append c [] rest h = cc h
cons_head-append c (part ∷ parts) rest h = refl

split_on-not_empty : (s : Text) → is_empty (split_on 0xa s) ≡ false
unfolding split_on
split_on-not_empty [] = refl
split_on-not_empty (c ∷ s) = elim (Bool-cases (c == 0xa)) [
  | inl h ↦ rw h refl
  | inr h ↦ rw h (is_empty-cons_head c (split_on 0xa s))
]

split_on-empty : split_on 0xa [] ≡ [] ∷ []
unfolding split_on
split_on-empty = refl

-- A text is its lines, and an empty one behind a line end at its end.
split_on-without_line_end :
    (s : Text)
    → split_on 0xa s ≡ split_on 0xa (without_line_end s) ++ tail_of (ends_with_line_end s)
split_on-without_line_end [] = rw split_on-empty refl
split_on-without_line_end (c ∷ []) = elim (Bool-cases (c == 0xa)) [
  | inl h ↦ rw (split_on-line_end c [] h, h) (rw split_on-empty refl)
  | inr h ↦ rw h (sym (append-nil (split_on 0xa (c ∷ []))))
]
split_on-without_line_end (c ∷ d ∷ s) =
    let ih = split_on-without_line_end (d ∷ s) in
    elim (Bool-cases (c == 0xa)) [
      | inl h ↦
          split_on-line_end c (d ∷ s) h
          ∙ ap (λ parts. [] ∷ parts) ih
          ∙ ap (λ parts. parts ++ tail_of (ends_with_line_end (d ∷ s)))
              (sym (split_on-line_end c (without_line_end (d ∷ s)) h))
      | inr h ↦
          split_on-other c (d ∷ s) h
          ∙ ap (cons_head c) ih
          ∙ cons_head-append c (split_on 0xa (without_line_end (d ∷ s))) _
              (split_on-not_empty (without_line_end (d ∷ s)))
          ∙ ap (λ parts. parts ++ tail_of (ends_with_line_end (d ∷ s)))
              (sym (split_on-other c (without_line_end (d ∷ s)) h))
    ]

nth-drop :
    (source rest : List Text) (i : ℕ) (x : Text) → drop i source ≡ x ∷ rest → nth source i ≡ some x
nth-drop [] rest zero x h = cc h
nth-drop [] rest (suc i) x h = cc h
nth-drop (y ∷ source) rest zero x h = cc h
nth-drop (y ∷ source) rest (suc i) x h = nth-drop source rest i x h

drop-next :
    (source rest : List Text) (i : ℕ) (x : Text)
    → drop i source ≡ x ∷ rest
    → drop (suc i) source ≡ rest
drop-next [] rest zero x h = cc h
drop-next [] rest (suc i) x h = cc h
drop-next (y ∷ source) rest zero x h = cc h
drop-next (y ∷ source) rest (suc i) x h = drop-next source rest i x h

require_exact_line-drop :
    (source rest : List Text) (i : ℕ) (x : Text)
    → drop i source ≡ x ∷ rest
    → require_exact_line source i x ≡ ok tt
unfolding require_exact_line
require_exact_line-drop source rest i x h =
    rw (nth-drop source rest i x h) (rw (text_eq_self x) refl)

apply_lines-add : (source ys : List Text) (i : ℕ) → apply_lines source i (map add ys) ≡ ok (ys, i)
unfolding apply_lines
apply_lines-add source [] i = refl
apply_lines-add source (y ∷ ys) i = rw (apply_lines-add source ys i) refl

apply_lines-replace :
    (source xs ys rest : List Text) (i : ℕ)
    → drop i source ≡ xs ++ rest
    → apply_lines source i (map remove xs ++ map add ys) ≡ ok (ys, i + length xs)
unfolding apply_lines
apply_lines-replace source [] ys rest i h =
    let same : i ≡ i + 0 = omega arith in apply_lines-add source ys i ∙ ap (λ n. ok (ys, n)) same
apply_lines-replace source (x ∷ xs) ys rest i h =
    let one : i + 1 ≡ suc i = omega arith in
    let sum : i + 1 + length xs ≡ i + suc (length xs) = omega arith in
    let next : drop (i + 1) source ≡ xs ++ rest =
      ap (λ n. drop n source) one ∙ drop-next source (xs ++ rest) i x h in
    rw (require_exact_line-drop source (xs ++ rest) i x h)
      (apply_lines-replace source xs ys rest (i + 1) next ∙ ap (λ n. ok (ys, n)) sum)

drop-append : (n : ℕ) (xs ys : List Text) → n ≤ length xs → drop n (xs ++ ys) ≡ drop n xs ++ ys
drop-append zero xs ys h = refl
drop-append (suc n) [] ys h = absurd (omega (arith, h))
drop-append (suc n) (x ∷ xs) ys h = drop-append n xs ys (omega (arith, h))

take-append : (n : ℕ) (xs ys : List Text) → n ≤ length xs → take n (xs ++ ys) ≡ take n xs
take-append zero xs ys h = refl
take-append (suc n) [] ys h = absurd (omega (arith, h))
take-append (suc n) (x ∷ xs) ys h = ap (λ l. x ∷ l) (take-append n xs ys (omega (arith, h)))

lines_of-split_on : (text : Text) → 0 < length (lines_of text) → lines_of text ≡ split_on 0xa text
lines_of-split_on [] h = absurd (omega (arith, h))
lines_of-split_on (c ∷ s) h = refl

join_lines-line_end :
    (line : Text) (lines : List Text)
    → join_lines ((line ∷ lines) ++ ([] ∷ [])) ≡ join_lines (line ∷ lines) ++ (0xa ∷ [])
unfolding join_lines
join_lines-line_end line [] = refl
join_lines-line_end line (next ∷ lines) =
    ap (λ text. line ++ 0xa ∷ text) (join_lines-line_end next lines)
    ∙ sym (append_assoc line (0xa ∷ join_lines (next ∷ lines)) (0xa ∷ []))

join_lines-put_together :
    (b : Bool) (lines : List Text) → join_lines (lines ++ tail_of b) ≡ put_together b lines
unfolding join_lines
join_lines-put_together false lines = ap join_lines (append-nil lines)
join_lines-put_together true [] = refl
join_lines-put_together true (line ∷ lines) = join_lines-line_end line lines

module _ (original : Text) (start_line end_line : ℕ) (suggestion : Text) where
  abbrev lines : List Text
  lines = lines_of (without_line_end original)

  -- The hunk that removes the lines of the review and adds those of the suggestion.
  abbrev pub hunk_of : Hunk
  hunk_of = record {
    old_start = start_line;
    old_count = end_line - (start_line - 1);
    new_count = length (lines_of suggestion);
    lines = map remove (slice (start_line - 1) end_line lines) ++ map add (lines_of suggestion);
  }

  module _ (before : start_line - 1 < end_line) (within : end_line ≤ length lines) where
    abbrev rest : List Text
    rest = drop end_line lines ++ tail_of (ends_with_line_end original)

    source_lines : split_on 0xa original ≡ lines ++ tail_of (ends_with_line_end original)
    source_lines =
        split_on-without_line_end original
        ∙ ap (λ parts. parts ++ tail_of (ends_with_line_end original))
            (sym (lines_of-split_on (without_line_end original) (omega (arith, before, within))))

    behind :
        drop (start_line - 1) (split_on 0xa original)
        ≡ slice (start_line - 1) end_line lines ++ rest
    behind =
        ap (drop (start_line - 1)) source_lines
        ∙ drop-append (start_line - 1) lines _ (omega (arith, before, within))
        ∙ ap (λ l. l ++ tail_of (ends_with_line_end original))
            (slice-append (start_line - 1) end_line lines (omega (arith, before)))
        ∙ append_assoc (slice (start_line - 1) end_line lines) (drop end_line lines) _

    from_start : start_of hunk_of ≡ start_line - 1
    from_start = ground (arith, before)

    apply_from-hunk :
        apply_from (split_on 0xa original) 0 (hunk_of ∷ [])
        ≡ ok (
            spliced original (start_line - 1) end_line suggestion
            ++ tail_of (ends_with_line_end original))
    unfolding apply_from
    apply_from-hunk =
        let start = start_line - 1 in
        let source = split_on 0xa original in
        let pushed = lines_of suggestion in
        let tail = tail_of (ends_with_line_end original) in
        let size : length source ≡ length lines + length tail =
          ap length source_lines ∙ length-append lines tail in
        let inside : (ltb start 0 || ltb (length source) start) ≡ false =
          ground (arith, size, before, within) in
        let applied =
          apply_lines-replace source (slice start end_line lines) pushed rest start behind in
        let end_ : start + length (slice start end_line lines) ≡ end_line =
          omega (arith, before, length-slice start end_line lines (omega (arith, before)) within) in
        let counted : not (length pushed == length pushed) ≡ false = ground arith in
        let after : drop end_line source ≡ rest =
          ap (drop end_line) source_lines ∙ drop-append end_line lines tail within in
        let gap : slice 0 start source ≡ take start lines =
          ap (λ n. take n source) {x = start - 0} {y = start} (omega arith)
          ∙ ap (take start) source_lines
          ∙ take-append start lines tail (omega (arith, before, within)) in
        rw (from_start, inside, applied, counted, end_)
          (ap ok (
            ap₂ (λ a b. a ++ (pushed ++ b)) gap after
            ∙ ap (λ l. take start lines ++ l) (sym (append_assoc pushed (drop end_line lines) tail))
            ∙ sym (append_assoc (take start lines) (pushed ++ drop end_line lines) tail)))

  -- A suggestion that applies does to a file what a patch does with one hunk, which removes the lines of the
  -- review, from where they start, and adds the lines of the suggestion.
  pub apply_inline_suggestion-hunk :
      (repaired : Text)
      → apply_inline_suggestion original start_line end_line suggestion ≡ ok repaired
      → apply_hunks original (hunk_of ∷ []) ≡ ok repaired
  unfolding apply_inline_suggestion apply_hunks
  apply_inline_suggestion-hunk repaired h =
      elim (Bool-cases (has_return original || has_return suggestion)) [
        | inl returns ↦ absurd (cc (rw (apply_inline_suggestion, returns) at h))
        | inr plain ↦
            elim (Bool-cases (ltb (length lines) end_line || leb end_line (start_line - 1))) [
              | inl outside ↦ absurd (cc (rw (apply_inline_suggestion, plain, outside) at h))
              | inr inside ↦
                  let before : start_line - 1 < end_line = ground (arith, inside) in
                  let within : end_line ≤ length lines = ground (arith, inside) in
                  rw (apply_from-hunk before within) (
                    ap ok (
                      join_lines-put_together (ends_with_line_end original)
                        (spliced original (start_line - 1) end_line suggestion))
                    ∙ (rw (apply_inline_suggestion, plain, inside) at h))
            ]
      ]
