-- ===== src/Feedback/Slices.antt =====
-- The slices of a list: what stands between two indices, and behind an index.
use pi_tools.Common.{
  ℕ, zero, suc, ◌+◌, ◌-◌, ◌≤◌, ◌≡◌, refl, sym, ap, ◌∙◌, List, [], ◌∷◌, ◌++◌, arith, length, take,
  drop,
}
use pi_tools.Text.{Text}
use pi_tools.Feedback.{slice}

drop-empty : (n : ℕ) → drop {A = Text} n [] ≡ []
drop-empty zero = refl
drop-empty (suc n) = refl

drop-sum : (m n : ℕ) (xs : List Text) → drop n (drop m xs) ≡ drop (m + n) xs
drop-sum zero n xs = let same : 0 + n ≡ n = omega arith in rw same refl
drop-sum (suc m) n [] = drop-empty n ∙ sym (drop-empty (suc m + n))
drop-sum (suc m) n (x ∷ xs) =
    let same : suc m + n ≡ suc (m + n) = omega arith in rw same (drop-sum m n xs)

take-drop : (k : ℕ) (xs : List Text) → xs ≡ take k xs ++ drop k xs
take-drop zero xs = refl
take-drop (suc k) [] = refl
take-drop (suc k) (x ∷ xs) = ap (λ rest. x ∷ rest) (take-drop k xs)

length-take : (k : ℕ) (xs : List Text) → k ≤ length xs → length (take k xs) ≡ k
length-take zero xs h = refl
length-take (suc k) [] h = omega (arith, h)
length-take (suc k) (x ∷ xs) h = ap suc (length-take k xs (omega (arith, h)))

length-drop : (m : ℕ) (xs : List Text) → length (drop m xs) ≡ length xs - m
length-drop zero xs = omega arith
length-drop (suc m) [] = omega arith
length-drop (suc m) (x ∷ xs) = omega (arith, length-drop m xs)

pub slice-append :
    (from to : ℕ) (source : List Text)
    → from ≤ to
    → drop from source ≡ slice from to source ++ drop to source
slice-append from to source h =
    let step : from + (to - from) ≡ to = omega (arith, h) in
    let behind : drop (to - from) (drop from source) ≡ drop to source =
      drop-sum from (to - from) source ∙ ap (λ n. drop n source) step in
    take-drop (to - from) (drop from source) ∙ ap (λ rest. slice from to source ++ rest) behind

pub length-slice :
    (from to : ℕ) (source : List Text)
    → from ≤ to
    → to ≤ length source
    → length (slice from to source) ≡ to - from
length-slice from to source h k =
    length-take (to - from) (drop from source) (omega (arith, h, k, length-drop from source))
