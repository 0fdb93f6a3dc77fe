-- ===== src/Feedback/Parse/Hunks.antt =====
-- Which lines `parse_hunks` accepts, and as what.
use pi_tools.Common.{
  ◌≡◌, refl, sym, ap, ◌∙◌, ◌↔◌, inl, inr, true, false, List, [], ◌∷◌, ◌++◌, map, arith, ◌==◌,
  ==_iff, ==_self, not, ◌||◌, ok_or, ok_or-ok, is_empty, count, Bool-cases, ok, reject_if,
  reject_if-ok, >>=-eq-ok, ok-injective,
}
use mathlib.Core.List.{append_assoc, append-nil}
use mathlib.Core.Path.{subst}
use pi_tools.Text.{Text, codes, starts_with, strip_prefix}
use pi_tools.Text.Laws.{strip_prefix_iff}
use pi_tools.Feedback.{Hunk, HunkLine, context, remove, add, malformed_patch}
use pi_tools.Feedback.Parse.{
  Header, is_old, is_new, parse_line, parse_hunk_header, open_hunk, close_hunk, read_hunks,
  parse_hunks,
}

-- The line of the patch that a line of a hunk was read from.
abbrev pub line_text : HunkLine → Text
line_text (context text) = b' ' ∷ text
line_text (remove text) = b'-' ∷ text
line_text (add text) = b'+' ∷ text

abbrev pub header_of : Hunk → Header
header_of hunk = (hunk.old_start, hunk.old_count, hunk.new_count)

abbrev pub Counted : Hunk → Type 0
Counted hunk =
    (count is_old hunk.lines ≡ hunk.old_count) × (count is_new hunk.lines ≡ hunk.new_count)

-- The lines are the hunks, each a header and its lines, and the counts of the header are right.
abbrev pub Spelled : List Hunk → List Text → Type 0
Spelled [] lines = lines ≡ []
Spelled (hunk ∷ hunks) lines =
    (header : Text) × (rest : List Text) × (lines ≡ header ∷ (map line_text hunk.lines ++ rest))
    × (parse_hunk_header header ≡ ok (header_of hunk))
    × Counted hunk
    × Spelled hunks rest

parse_line-ok :
    (line : Text) (parsed : HunkLine) → parse_line line ≡ ok parsed → line ≡ line_text parsed
unfolding parse_line
parse_line-ok [] parsed h = cc
parse_line-ok (c ∷ text) parsed h = elim (Bool-cases (c == b' ')) [
  | inl e ↦
      ap (λ k. k ∷ text) ((==_iff c b' ').0 e) ∙ ap line_text (ok-injective _ refl (rw e at h))
  | inr n ↦ elim (Bool-cases (c == b'-')) [
    | inl e ↦
        ap (λ k. k ∷ text) ((==_iff c b'-').0 e)
        ∙ ap line_text (ok-injective _ refl (rw (n, e) at h))
    | inr m ↦ elim (Bool-cases (c == b'+')) [
      | inl e ↦
          ap (λ k. k ∷ text) ((==_iff c b'+').0 e)
          ∙ ap line_text (ok-injective _ refl (rw (n, m, e) at h))
      | inr o ↦ absurd (cc (rw (n, m, o) at h))
    ]
  ]
]

parse_line-line_text : (line : HunkLine) → parse_line (line_text line) ≡ ok line
unfolding parse_line
parse_line-line_text (context text) = refl
parse_line-line_text (remove text) = refl
parse_line-line_text (add text) = refl

open_hunk-ok :
    (line : Text) (header : Header)
    → open_hunk line ≡ ok header
    → parse_hunk_header line ≡ ok header
unfolding open_hunk
open_hunk-ok [] header h = cc
open_hunk-ok (c ∷ line) header h = h

-- A header begins with "@@", so it is not empty.
parse_hunk_header-starts_with :
    (line : Text) (header : Header)
    → parse_hunk_header line ≡ ok header
    → (starts_with line (codes "@@") ≡ true) × (open_hunk line ≡ ok header)
unfolding parse_hunk_header open_hunk starts_with
parse_hunk_header-starts_with line header h =
    let (rest, e, later) =
      >>=-eq-ok
        (ok_or (strip_prefix (codes "@@ ") line) (malformed_patch (codes "invalid hunk header"))) _
        h in
    let same : line ≡ codes "@@ " ++ rest =
      (strip_prefix_iff (codes "@@ ") line rest).0 (ok_or-ok _ _ e) in
    (rw same refl, rw same (rw same at h))

close_hunk-ok :
    (opened : Header) (lines : List HunkLine) (hunk : Hunk)
    → close_hunk opened lines ≡ ok hunk
    → (hunk.lines ≡ lines) × (opened ≡ header_of hunk) × Counted hunk
unfolding close_hunk
close_hunk-ok (a, b, c) lines hunk h =
    let wrong = not (count is_old lines == b) || not (count is_new lines == c) in
    let (u, fine, rest) = >>=-eq-ok (reject_if wrong _) _ h in
    let same : record { old_start = a; old_count = b; new_count = c; lines = lines } ≡ hunk =
      ok-injective _ refl rest in
    let right : wrong ≡ false = reject_if-ok wrong _ fine in
    (
      sym (ap (λ k. k.lines) same),
      ap header_of same,
      rw (← same) (ground (arith, right), ground (arith, right)),
    )

close_hunk-Counted : (hunk : Hunk) → Counted hunk → close_hunk (header_of hunk) hunk.lines ≡ ok hunk
unfolding close_hunk
close_hunk-Counted hunk (old, new) =
    rw (old, new) (rw (==_self hunk.old_count, ==_self hunk.new_count) refl)

-- The rest of a hunk whose header is read and some of whose lines are pushed, and the hunks behind it.
abbrev Opened : Header → List HunkLine → List Hunk → List Text → Type 0
Opened opened pushed [] lines = ⊥
Opened opened pushed (hunk ∷ hunks) lines =
    (new : List HunkLine) × (rest : List Text) × (hunk.lines ≡ pushed ++ new)
    × (lines ≡ map line_text new ++ rest)
    × (opened ≡ header_of hunk)
    × Counted hunk
    × Spelled hunks rest

Opened-Spelled :
    (header : Header) (line : Text) (hunks : List Hunk) (lines : List Text)
    → parse_hunk_header line ≡ ok header
    → Opened header [] hunks lines
    → Spelled hunks (line ∷ lines)
Opened-Spelled header line [] lines h o = elim o [ ]
Opened-Spelled header line (hunk ∷ hunks) lines h (new, rest, same, split, head, counted, later) = (
  line,
  rest,
  ap (λ l. line ∷ l) (split ∙ ap (λ l. map line_text l ++ rest) (sym same)),
  h ∙ ap ok head,
  counted,
  later,
)

Opened-cons :
    (opened : Header) (pushed : List HunkLine) (line : HunkLine) (hunks : List Hunk)
    (lines : List Text)
    → Opened opened (pushed ++ (line ∷ [])) hunks lines
    → Opened opened pushed hunks (line_text line ∷ lines)
Opened-cons opened pushed line [] lines o = elim o [ ]
Opened-cons opened pushed line (hunk ∷ hunks) lines (new, rest, same, split, head, counted, later) =
    (
      line ∷ new,
      rest,
      same ∙ append_assoc pushed (line ∷ []) new,
      ap (λ l. line_text line ∷ l) split,
      head,
      counted,
      later,
    )

read_hunks-Opened :
    (opened : Header) (pushed : List HunkLine) (lines : List Text) {hunks : List Hunk}
    → read_hunks opened pushed lines ≡ ok hunks
    → Opened opened pushed hunks lines
unfolding read_hunks
read_hunks-Opened opened pushed [] {hunks} h =
    let (hunk, closed, e) = >>=-eq-ok (close_hunk opened pushed) _ h in
    let (same, head, counted) = close_hunk-ok opened pushed hunk closed in
    subst (λ k. Opened opened pushed k []) (ok-injective (ok (hunk ∷ [])) refl e)
      ([], [], same ∙ sym (append-nil pushed), refl, head, counted, refl)
read_hunks-Opened opened pushed (line ∷ lines) {hunks} h =
    elim (Bool-cases (starts_with line (codes "@@"))) [
      | inl next ↦
          let (hunk, closed, h1) = >>=-eq-ok (close_hunk opened pushed) _ (rw next at h) in
          let (header, opens, h2) = >>=-eq-ok (open_hunk line) _ h1 in
          let (later, reads, e) = >>=-eq-ok (read_hunks header [] lines) _ h2 in
          let (same, head, counted) = close_hunk-ok opened pushed hunk closed in
          subst (λ k. Opened opened pushed k (line ∷ lines))
            (ok-injective (ok (hunk ∷ later)) refl e)
            (
              [],
              line ∷ lines,
              same ∙ sym (append-nil pushed),
              refl,
              head,
              counted,
              Opened-Spelled header line later lines (open_hunk-ok line header opens)
                  (read_hunks-Opened header [] lines reads),
            )
      | inr inside ↦
          let (parsed, e, later) = >>=-eq-ok (parse_line line) _ (rw inside at h) in
          subst (λ l. Opened opened pushed hunks (l ∷ lines)) (sym (parse_line-ok line parsed e))
            (Opened-cons opened pushed parsed hunks lines
              (read_hunks-Opened opened (pushed ++ (parsed ∷ [])) lines later))
    ]

line_text-starts_with : (line : HunkLine) → starts_with (line_text line) (codes "@@") ≡ false
unfolding starts_with
line_text-starts_with (context text) = refl
line_text-starts_with (remove text) = refl
line_text-starts_with (add text) = refl

read_hunks-push :
    (opened : Header) (pushed : List HunkLine) (text : Text) (line : HunkLine) (lines : List Text)
    → starts_with text (codes "@@") ≡ false
    → parse_line text ≡ ok line
    → read_hunks opened pushed (text ∷ lines) ≡ read_hunks opened (pushed ++ (line ∷ [])) lines
unfolding read_hunks
read_hunks-push opened pushed text line lines inside parsed = rw (inside, parsed) refl

read_hunks-line_text :
    (opened : Header) (pushed new : List HunkLine) (rest : List Text)
    → read_hunks opened pushed (map line_text new ++ rest) ≡ read_hunks opened (pushed ++ new) rest
read_hunks-line_text opened pushed [] rest =
    ap (λ l. read_hunks opened l rest) (sym (append-nil pushed))
read_hunks-line_text opened pushed (line ∷ new) rest =
    read_hunks-push opened pushed (line_text line) line (map line_text new ++ rest)
      (line_text-starts_with line) (parse_line-line_text line)
    ∙ read_hunks-line_text opened (pushed ++ (line ∷ [])) new rest
    ∙ ap (λ l. read_hunks opened l rest) (append_assoc pushed (line ∷ []) new)

read_hunks-Spelled :
    (hunk : Hunk) (hunks : List Hunk) (lines : List Text)
    → Counted hunk
    → Spelled hunks lines
    → read_hunks (header_of hunk) hunk.lines lines ≡ ok (hunk ∷ hunks)
unfolding read_hunks
read_hunks-Spelled hunk [] lines counted s = rw s (rw (close_hunk-Counted hunk counted) refl)
read_hunks-Spelled hunk (later ∷ hunks) lines counted (header, rest, split, parsed, c, s) =
    let (starts, opens) = parse_hunk_header-starts_with header (header_of later) parsed in
    rw split (
      rw (starts, close_hunk-Counted hunk counted, opens)
        (rw
          (
            read_hunks-line_text (header_of later) [] later.lines rest,
            read_hunks-Spelled later hunks rest c s,
          )
          refl))

Opened-not_empty :
    (opened : Header) (pushed : List HunkLine) (hunks : List Hunk) (lines : List Text)
    → Opened opened pushed hunks lines
    → is_empty hunks ≡ false
Opened-not_empty opened pushed [] lines o = elim o [ ]
Opened-not_empty opened pushed (hunk ∷ hunks) lines o = refl

parse_hunks-Spelled :
    (lines : List Text) (hunks : List Hunk)
    → parse_hunks lines ≡ ok hunks
    → (is_empty hunks ≡ false) × Spelled hunks lines
unfolding parse_hunks
parse_hunks-Spelled [] hunks h = cc
parse_hunks-Spelled (line ∷ lines) hunks h =
    let (header, opens, reads) = >>=-eq-ok (open_hunk line) _ h in
    let o = read_hunks-Opened header [] lines reads in
    (
      Opened-not_empty header [] hunks lines o,
      Opened-Spelled header line hunks lines (open_hunk-ok line header opens) o,
    )

Spelled-parse_hunks :
    (lines : List Text) (hunks : List Hunk)
    → is_empty hunks ≡ false
    → Spelled hunks lines
    → parse_hunks lines ≡ ok hunks
unfolding parse_hunks
Spelled-parse_hunks lines [] some_hunk s = cc
Spelled-parse_hunks lines (hunk ∷ hunks) some_hunk (header, rest, split, parsed, counted, later) =
    let (starts, opens) = parse_hunk_header-starts_with header (header_of hunk) parsed in
    rw split (
      rw opens (
        read_hunks-line_text (header_of hunk) [] hunk.lines rest
        ∙ read_hunks-Spelled hunk hunks rest counted later))

-- The hunks of a patch are accepted exactly from the lines that spell them.
pub parse_hunks_iff :
    (lines : List Text) (hunks : List Hunk)
    → (parse_hunks lines ≡ ok hunks) ↔ ((is_empty hunks ≡ false) × Spelled hunks lines)
parse_hunks_iff lines hunks =
    (parse_hunks-Spelled lines hunks, λ h. Spelled-parse_hunks lines hunks h.0 h.1)
