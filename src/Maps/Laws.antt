-- ===== src/Maps/Laws.antt =====
-- What a lookup finds after an insertion, and that the keys stay in order.
use pi_tools.Common.{
  ℕ, ◌<◌, ◌≡◌, ◌≢◌, ap, inl, inr, some, List, [], ◌∷◌, arith, ltb, ◌==◌, All, Bool-cases, In,
  All-In, ltb→lt, ==_iff,
}
use mathlib.Core.Path.{subst}
use pi_tools.Maps.{get_entry, put_entry, Ordered}

module _ {V : Type 0} where
  pub get_entry-put_entry :
      (k : ℕ) (v : V) (m : List (ℕ × V)) → get_entry k (put_entry k v m) ≡ some v
  get_entry-put_entry k v [] = ground arith
  get_entry-put_entry k v (e ∷ m) = ground (arith, get_entry-put_entry k v m)

  pub get_entry-other :
      (k j : ℕ) (v : V) (m : List (ℕ × V)) → k ≢ j → get_entry j (put_entry k v m) ≡ get_entry j m
  get_entry-other k j v [] apart = ground (arith, apart)
  get_entry-other k j v (e ∷ m) apart = ground (arith, apart, get_entry-other k j v m apart)

  put_entry-above :
      (i k : ℕ) (v : V) (m : List (ℕ × V))
      → i < k
      → All (λ f. i < f.0) m
      → All (λ f. i < f.0) (put_entry k v m)
  put_entry-above i k v [] lt above = (lt, tt)
  put_entry-above i k v (e ∷ m) lt above = ground (arith, put_entry-above i k v m lt above.1)

  above_trans : (i j : ℕ) (m : List (ℕ × V)) → i < j → All (λ f. j < f.0) m → All (λ f. i < f.0) m
  above_trans i j [] lt above = tt
  above_trans i j (e ∷ m) lt above = (omega (arith, above.0), above_trans i j m lt above.1)

  pub put_entry-Ordered : (k : ℕ) (v : V) (m : List (ℕ × V)) → Ordered m → Ordered (put_entry k v m)
  put_entry-Ordered k v [] o = (tt, tt)
  put_entry-Ordered k v (e ∷ m) o = elim (Bool-cases (ltb e.0 k)) [
    | inl lt ↦ rw lt (put_entry-above e.0 k v m (ltb→lt _ _ lt) o.0, put_entry-Ordered k v m o.1)
    | inr ge ↦ elim (Bool-cases (e.0 == k)) [
      | inl same ↦
          let path : e.0 ≡ k = (==_iff _ _).0 same in
          rw (ge, same) (subst (λ i. All (λ f. i < f.0) m) path o.0, o.1)
      | inr other ↦
          let lt : k < e.0 = ground arith in rw (ge, other) ((lt, above_trans k e.0 m lt o.0), o)
    ]
  ]

  pub In-get_entry :
      (k : ℕ) (v : V) (m : List (ℕ × V)) → Ordered m → In (k, v) m → get_entry k m ≡ some v
  In-get_entry k v [] o h = elim h [ ]
  In-get_entry k v (e ∷ m) o (inl here) =
      let same : e.0 ≡ k = ap (λ (x : ℕ × V). x.0) here in
      ground (arith, same, ap (λ (x : ℕ × V). x.1) here)
  In-get_entry k v (e ∷ m) o (inr later) =
      let above : e.0 < k = All-In (λ f. e.0 < f.0) m o.0 later in
      ground (arith, In-get_entry k v m o.1 later)

  pub get_entry-In : (k : ℕ) (v : V) (m : List (ℕ × V)) → get_entry k m ≡ some v → In (k, v) m
  get_entry-In k v [] h = cc
  get_entry-In k v ((i, w) ∷ m) h = elim (Bool-cases (i == k)) [
    | inl same ↦ inl (ground arith)
    | inr other ↦ inr (get_entry-In k v m (ground arith))
  ]
