-- ===== src/Common/Numbers.antt =====
-- Lists of numbers without repetition: how long they are, and which numbers they must have.
use Prim.Native.Nat.{ℕ, suc, ◌≤◌}
use mathlib.Core.Path.{◌≡◌, refl, sym}
use mathlib.Core.Logic.{inl, inr}
use mathlib.Core.Bool.{Bool, true, false}
use mathlib.Core.List.{List, [], ◌∷◌}
use native.Mathlib.Omega.{arith}
use pi_tools.Common.Tests.{if◌then◌else◌, ◌==◌, ==_iff, Bool-cases}
use pi_tools.Common.Lists.{length, any, All, All-In, All-intro, In, Apart, any-none_elim}

abbrev pub is_in : ℕ → List ℕ → Bool
is_in n = any (λ m. n == m)

abbrev pub Distinct : List ℕ → Type 0
Distinct = Apart (λ m n. m == n)

-- Without the first item that is `n`.
abbrev without : ℕ → List ℕ → List ℕ
without n [] = []
without n (m ∷ ms) = if n == m then ms else m ∷ without n ms

length-without : (n : ℕ) (ms : List ℕ) → In n ms → length ms ≡ suc (length (without n ms))
length-without n [] h = elim h [ ]
length-without n (m ∷ ms) (inl e) = let h : (n == m) ≡ true = ground (arith, e) in rw h refl
length-without n (m ∷ ms) (inr h) = ground (arith, length-without n ms h)

In-without : (n k : ℕ) (ms : List ℕ) → (n == k) ≡ false → In k ms → In k (without n ms)
In-without n k [] apart h = h
In-without n k (m ∷ ms) apart h = elim (Bool-cases (n == m)) [
  | inl same ↦ rw same (elim h [ inl e ↦ absurd (ground (arith, e)) | inr later ↦ later ])
  | inr other ↦
      rw other (elim h [ inl e ↦ inl e | inr later ↦ inr (In-without n k ms apart later) ])
]

pub is_in-In : (n : ℕ) (ms : List ℕ) → is_in n ms ≡ true → In n ms
is_in-In n [] h = cc
is_in-In n (m ∷ ms) h = elim (Bool-cases (n == m)) [
  | inl same ↦ inl (sym ((==_iff n m).0 same))
  | inr other ↦ inr (is_in-In n ms (rw other at h))
]

-- Distinct members of a list are not more than its items.
pub length-Distinct : (ns ms : List ℕ) → Distinct ns → All (λ n. In n ms) ns → length ns ≤ length ms
length-Distinct [] ms d h = omega arith
length-Distinct (n ∷ ns) ms d h =
    let rest = length-Distinct ns (without n ms) d.1 (
      All-intro (λ k. In k (without n ms)) ns
        (λ k m.
          In-without n k ms (any-none_elim (λ j. n == j) k ns d.0 m)
            (All-In (λ j. In j ms) ns h.1 m))) in
    omega (arith, rest, length-without n ms h.0)

-- Distinct members of a list that are as many as its items are all of them.
pub Distinct-all :
    (ns ms : List ℕ)
    → Distinct ns
    → All (λ n. In n ms) ns
    → length ns ≡ length ms
    → (k : ℕ) → In k ms
    → In k ns
Distinct-all ns ms d h e k m = elim (Bool-cases (is_in k ns)) [
  | inl hit ↦ is_in-In k ns hit
  | inr miss ↦ absurd (omega (arith, e, length-Distinct (k ∷ ns) ms (miss, d) (m, h)))
]
