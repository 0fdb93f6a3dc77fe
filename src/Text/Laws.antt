-- ===== src/Text/Laws.antt =====
-- Equality and prefixes of texts.
use pi_tools.Common.{
  false, Bool-ext, ◌+◌, ◌≤◌, ◌≡◌, refl, ◌↔◌, true, [], ◌∷◌, ◌++◌, some, arith, length, List, any,
  In, or_cases, inl, inr,
}
use pi_tools.Text.{text_lt, Text, text_eq, byte_len, strip_prefix}

pub text_eq_self : (s : Text) → text_eq s s ≡ true
unfolding text_eq
text_eq_self [] = refl
text_eq_self (c ∷ s) = ground (arith, text_eq_self s)

text_eq_sound : (s t : Text) → text_eq s t ≡ true → s ≡ t
unfolding text_eq
text_eq_sound [] [] h = refl
text_eq_sound (c ∷ s) (d ∷ t) h = ground (arith, text_eq_sound s t)
text_eq_sound [] (d ∷ t) h = cc
text_eq_sound (c ∷ s) [] h = cc

pub text_eq_iff : (s t : Text) → (text_eq s t ≡ true) ↔ (s ≡ t)
text_eq_iff s t = (text_eq_sound s t, λ e. rw e (text_eq_self t))

pub any_text-In :
    (path : Text) (paths : List Text) → any (λ p. text_eq p path) paths ≡ true → In path paths
any_text-In path [] h = ground (arith, h)
any_text-In path (p ∷ ps) h = elim (or_cases h) [
  | inl here ↦ inl ((text_eq_iff p path).0 here)
  | inr later ↦ inr (any_text-In path ps later)
]

pub text_eq_symm : (s t : Text) → text_eq s t ≡ text_eq t s
text_eq_symm s t =
    Bool-ext _ _ (λ h. rw (text_eq_sound s t h) (text_eq_self t))
      (λ h. rw (text_eq_sound t s h) (text_eq_self s))

pub length-le-byte_len : (s : Text) → length s ≤ byte_len s
unfolding byte_len
length-le-byte_len [] = omega arith
length-le-byte_len (c ∷ s) = ground (arith, length-le-byte_len s)

pub byte_len-append : (s t : Text) → byte_len (s ++ t) ≡ byte_len s + byte_len t
unfolding byte_len
byte_len-append [] t = omega arith
byte_len-append (c ∷ s) t = omega (arith, byte_len-append s t)

-- `strip_prefix` succeeds exactly on the texts that begin with the prefix.
pub strip_prefix_iff : (p s rest : Text) → (strip_prefix p s ≡ some rest) ↔ (s ≡ p ++ rest)
unfolding strip_prefix
strip_prefix_iff [] s rest = ground arith
strip_prefix_iff (c ∷ p) [] rest = ground arith
strip_prefix_iff (c ∷ p) (d ∷ s) rest = ground (arith, strip_prefix_iff p s rest)

pub text_lt_irrefl : (s : Text) → text_lt s s ≡ false
unfolding text_lt
text_lt_irrefl [] = refl
text_lt_irrefl (c ∷ s) = ground (arith, text_lt_irrefl s)

pub text_lt_trans : (s t u : Text) → text_lt s t ≡ true → text_lt t u ≡ true → text_lt s u ≡ true
unfolding text_lt
text_lt_trans (c ∷ s) (d ∷ t) (e ∷ u) h g = ground (arith, text_lt_trans s t u)
text_lt_trans [] t (e ∷ u) h g = refl
text_lt_trans s (d ∷ t) [] h g = absurd (ground arith)
text_lt_trans s [] [] h g = absurd (ground arith)
text_lt_trans (c ∷ s) [] (e ∷ u) h g = absurd (ground arith)

pub text_lt_connex : (s t : Text) → text_lt s t ≡ false → text_lt t s ≡ false → s ≡ t
unfolding text_lt
text_lt_connex [] [] h g = refl
text_lt_connex (c ∷ s) (d ∷ t) h g = ground (arith, text_lt_connex s t)
text_lt_connex [] (d ∷ t) h g = cc
text_lt_connex (c ∷ s) [] h g = cc
