-- ===== src/Text/Search.antt =====
-- Searching and cutting a `str`: `split_once`, `strip_suffix`, `match_indices`, and `parse` to an integer.
use pi_tools.Common.{
  ℕ, zero, suc, ◌+◌, ◌-◌, ◌*◌, ◌^◌, Bool, ◌&&◌, Option, none, some, [], ◌∷◌, leb, ◌==◌,
  if◌then◌else◌, is_empty,
}
use mathlib.Core.Option.{map}
use pi_tools.Text.{Text, text_eq, starts_with, strip_prefix, is_whitespace}

-- The text before the first match, and the text behind it.
abbrev pub cons_first : ℕ → Text × Text → Text × Text
cons_first c parts = (c ∷ parts.0, parts.1)

unfoldable pub split_once : Text → Text → Option (Text × Text)
unfolding strip_prefix
split_once pattern [] = map (λ rest. ([], rest)) (strip_prefix pattern [])
split_once pattern (c ∷ s) = elim (strip_prefix pattern (c ∷ s)) [
  | some rest ↦ some ([], rest)
  | none ↦ map (cons_first c) (split_once pattern s)
]

unfoldable pub strip_suffix : Text → Text → Option Text
unfolding text_eq
strip_suffix suffix [] = if text_eq suffix [] then some [] else none
strip_suffix suffix (c ∷ s) =
    let rest = strip_suffix suffix s in
    if text_eq suffix (c ∷ s) then some [] else map (λ kept. c ∷ kept) rest

-- `match_indices(…).count()`, for a pattern that is not empty and does not overlap itself.
unfoldable pub match_count : Text → Text → ℕ
unfolding starts_with
match_count pattern [] = 0
match_count pattern (c ∷ s) =
    let rest = match_count pattern s in if starts_with (c ∷ s) pattern then suc rest else rest

-- `str::trim`.
abbrev pub trim_start : Text → Text
trim_start [] = []
trim_start (c ∷ s) = let rest = trim_start s in if is_whitespace c then rest else c ∷ s

abbrev pub trim_end : Text → Text
trim_end [] = []
trim_end (c ∷ s) =
    let rest = trim_end s in if is_empty rest && is_whitespace c then [] else c ∷ rest

abbrev pub trim : Text → Text
trim s = trim_end (trim_start s)

abbrev pub is_digit : ℕ → Bool
is_digit c = leb b'0' c && leb c b'9'

-- The number that the digits of a text stand for, behind a number that was read before.
unfoldable pub read_digits : ℕ → Text → Option ℕ
read_digits n [] = some n
read_digits n (c ∷ s) =
    let rest = read_digits (n * 10 + (c - b'0')) s in if is_digit c then rest else none

abbrev digits_of : Text → Option ℕ
digits_of [] = none
digits_of (c ∷ s) = read_digits 0 (c ∷ s)

abbrev at_most : ℕ → Option ℕ → Option ℕ
at_most bound none = none
at_most bound (some n) = if leb n bound then some n else none

abbrev without_plus : Text → Text
without_plus [] = []
without_plus (c ∷ s) = if c == b'+' then s else c ∷ s

-- `parse::<usize>()`, of 64 bits: a plus sign may stand before the digits.
unfoldable pub parse_usize : Text → Option ℕ
unfolding read_digits
parse_usize s = at_most (2 ^ 64 - 1) (digits_of (without_plus s))

-- `parse::<i64>().ok().filter(|n| *n > 0)`: a text with a minus sign is no number, or none above zero.
unfoldable pub parse_positive_i64 : Text → Option ℕ
unfolding read_digits
parse_positive_i64 s = elim (at_most (2 ^ 63 - 1) (digits_of (without_plus s))) [
  | some (suc n) ↦ some (suc n)
  | some zero ↦ none
  | none ↦ none
]
