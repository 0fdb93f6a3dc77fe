-- ===== src/Controls/Render/Laws.antt =====
-- What escaping makes of a text, and how it reads.
use pi_tools.Common.{
  ℕ, zero, suc, ◌≡◌, refl, ap, ◌∙◌, Bool, true, false, not, ◌&&◌, ◌||◌, [], ◌∷◌, ◌++◌, arith, ◌==◌,
  if◌then◌else◌,
}
use pi_tools.Text.{Text, codes, is_control, starts_with}
use pi_tools.Controls.Render.{escape_char, escape_markdown}

-- Backslash, asterisk, square brackets and backtick.
pub is_markup : ℕ → Bool
is_markup c = c == 0x5c || (c == 0x2a || (c == 0x5b || (c == 0x5d || c == 0x60)))

-- A scan from left to right. `escaped` says that a backslash stands before the next character.
pub is_inert : Bool → Text → Bool
unfolding is_markup
is_inert escaped [] = not escaped
is_inert true (c ∷ s) = is_markup c && is_inert false s
is_inert false (c ∷ s) =
    let after = is_inert true s in
    let rest = is_inert false s in
    if c == 0x5c
    then after
    else not (is_markup c) && (not (c == 0x3c || c == 0x3e) && (not (is_control c) && rest))

is_inert-escape_char :
    (c : ℕ) (s : Text) → is_inert false s ≡ true → is_inert false (escape_char c ++ s) ≡ true
unfolding is_inert is_markup
is_inert-escape_char c s h = ground arith

-- An escaped text holds no angle bracket and no control character, so no line end; each asterisk, square bracket
-- and backtick in it has a backslash before it, and each backslash stands before one of these or before a
-- backslash, which it escapes.
pub is_inert-escape_markdown : (s : Text) → is_inert false (escape_markdown s) ≡ true
unfolding escape_markdown is_inert
is_inert-escape_markdown [] = refl
is_inert-escape_markdown (c ∷ s) =
    is_inert-escape_char c (escape_markdown s) (is_inert-escape_markdown s)

-- How a reader stands in the text: so many characters are read already, or a backslash was read last.
pub data Reader : Type 0 where
  past : ℕ → Reader
  literal : Reader

-- The text that a reader sees: a backslash makes the next character itself, and the three entities are the
-- characters that they name.
pub seen : Reader → Text → Text
unfolding starts_with
seen reader [] = []
seen literal (c ∷ s) = c ∷ seen (past 0) s
seen (past (suc n)) (c ∷ s) = seen (past n) s
seen (past zero) (c ∷ s) =
    let next = seen literal s in
    let amp = seen (past 4) s in
    let angle = seen (past 3) s in
    let rest = seen (past 0) s in
    if c == 0x5c
    then next
    else if c == 0x26 && starts_with s (codes "amp;")
    then 0x26 ∷ amp
    else if c == 0x26 && starts_with s (codes "lt;")
    then 0x3c ∷ angle
    else if c == 0x26 && starts_with s (codes "gt;")
    then 0x3e ∷ angle
    else c ∷ rest

-- A line end or a tab is a space, and another control character is left out.
pub on_one_line : Text → Text
on_one_line [] = []
on_one_line (c ∷ s) =
    let rest = on_one_line s in
    if c == 0xa || c == 0x9 then 0x20 ∷ rest else if is_control c then rest else c ∷ rest

seen-escape_char :
    (c : ℕ) (s : Text)
    → seen (past 0) (escape_char c ++ s) ≡ on_one_line (c ∷ []) ++ seen (past 0) s
unfolding seen starts_with on_one_line
seen-escape_char c s = ground arith

on_one_line-cons : (c : ℕ) (s : Text) → on_one_line (c ∷ []) ++ on_one_line s ≡ on_one_line (c ∷ s)
unfolding on_one_line
on_one_line-cons c s = ground arith

-- Who reads an escaped text, taking a backslash off the character behind it and the three entities for what
-- they name, sees the text itself on one line: each line end or tab as a space, and without the other control
-- characters.
pub seen-escape_markdown : (s : Text) → seen (past 0) (escape_markdown s) ≡ on_one_line s
unfolding escape_markdown on_one_line seen
seen-escape_markdown [] = refl
seen-escape_markdown (c ∷ s) =
    seen-escape_char c (escape_markdown s)
    ∙ ap (λ rest. on_one_line (c ∷ []) ++ rest) (seen-escape_markdown s)
    ∙ on_one_line-cons c s
