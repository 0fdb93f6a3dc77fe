-- ===== src/Maps/Texts.antt =====
-- `BTreeMap` with texts for keys: its entries, in the order of their keys.
use pi_tools.Common.{
  ◌≡◌, refl, ◌∙◌, inl, inr, true, false, Option, none, some, List, [], ◌∷◌, arith, if◌then◌else◌,
  All, Bool-cases, In, map,
}
use mathlib.Core.Option.{some-injective}
use mathlib.Core.Path.{subst, ap₂}
use pi_tools.Text.{Text, text_eq, text_lt}
use pi_tools.Text.Laws.{text_eq_iff, text_eq_self, text_lt_irrefl, text_lt_trans, text_eq_symm}
use pi_tools.Sort.Laws.{lt_of_ne}

pub lt_apart : (i j : Text) → text_lt i j ≡ true → text_eq i j ≡ false
lt_apart i j lt = ground (arith, lt, text_eq_iff i j, text_lt_irrefl i)

module _ {V : Type 0} where
  -- `get`
  abbrev pub get_text : Text → List (Text × V) → Option V
  get_text k [] = none
  get_text k (e ∷ m) = if text_eq e.0 k then some e.1 else get_text k m

  -- `insert`
  abbrev pub put_text : Text → V → List (Text × V) → List (Text × V)
  put_text k v [] = (k, v) ∷ []
  put_text k v (e ∷ m) =
      if text_lt e.0 k
      then e ∷ put_text k v m
      else if text_eq e.0 k
      then (k, v) ∷ m
      else (k, v) ∷ e ∷ m

  -- `values`
  abbrev pub values : List (Text × V) → List V
  values = map (λ e. e.1)

  pub get_text-put_text :
      (k : Text) (v : V) (m : List (Text × V)) → get_text k (put_text k v m) ≡ some v
  get_text-put_text k v [] = rw (text_eq_self k) refl
  get_text-put_text k v (e ∷ m) =
      ground (arith, get_text-put_text k v m, text_eq_self k, text_eq_iff e.0 k, text_lt_irrefl k)

  pub get_text-other :
      (k j : Text) (v : V) (m : List (Text × V))
      → text_eq k j ≡ false
      → get_text j (put_text k v m) ≡ get_text j m
  get_text-other k j v [] apart = rw apart refl
  get_text-other k j v (e ∷ m) apart = elim (Bool-cases (text_lt e.0 k)) [
    | inl lt ↦ ground (arith, lt, get_text-other k j v m apart)
    | inr ge ↦ elim (Bool-cases (text_eq e.0 k)) [
      | inr other ↦ rw (ge, other) (rw apart refl)
      | inl same ↦
          let missed : text_eq e.0 j ≡ false = rw ((text_eq_iff e.0 k).0 same) apart in
          rw (ge, same) (rw (apart, missed) refl)
    ]
  ]

  -- Each value is the one of a key, and stands under it.
  pub put_text-In :
      (P : Text → V → Type 0) (k : Text) (v : V) (m : List (Text × V))
      → P k v
      → All (λ e. P e.0 e.1) m
      → All (λ e. P e.0 e.1) (put_text k v m)
  put_text-In P k v [] h a = (h, tt)
  put_text-In P k v (e ∷ m) h a = elim (Bool-cases (text_lt e.0 k)) [
    | inl lt ↦ rw lt (a.0, put_text-In P k v m h a.1)
    | inr ge ↦ elim (Bool-cases (text_eq e.0 k)) [
      | inl same ↦ rw (ge, same) (h, a.1)
      | inr other ↦ rw (ge, other) (h, a)
    ]
  ]

  pub get_text-values :
      (k : Text) (v : V) (m : List (Text × V)) → get_text k m ≡ some v → In v (values m)
  get_text-values k v [] h = cc
  get_text-values k v (e ∷ m) h = elim (Bool-cases (text_eq e.0 k)) [
    | inl same ↦ inl (some-injective _ _ (rw same at h))
    | inr other ↦ inr (get_text-values k v m (rw other at h))
  ]

  pub get_text-In : (k : Text) (v : V) (m : List (Text × V)) → get_text k m ≡ some v → In (k, v) m
  get_text-In k v [] h = cc
  get_text-In k v (e ∷ m) h = elim (Bool-cases (text_eq e.0 k)) [
    | inl same ↦
        let key : e.0 ≡ k = (text_eq_iff e.0 k).0 same in
        let value : e.1 ≡ v = some-injective _ _ (rw same at h) in
        inl (ap₂ (λ i w. (i, w)) key value)
    | inr other ↦ inr (get_text-In k v m (rw other at h))
  ]

  -- The keys ascend.
  abbrev pub AscendingKeys : List (Text × V) → Type 0
  AscendingKeys [] = Unit
  AscendingKeys (e ∷ m) = All (λ f. text_lt e.0 f.0 ≡ true) m × AscendingKeys m

  above_text :
      (i j : Text) (m : List (Text × V))
      → text_lt i j ≡ true
      → All (λ f. text_lt j f.0 ≡ true) m
      → All (λ f. text_lt i f.0 ≡ true) m
  above_text i j [] lt above = tt
  above_text i j (e ∷ m) lt above = (text_lt_trans i j e.0 lt above.0, above_text i j m lt above.1)

  above-All :
      (P : Text → V → Type 0) (k : Text) (m : List (Text × V))
      → All (λ e. text_eq e.0 k ≡ false → P e.0 e.1) m
      → All (λ f. text_lt k f.0 ≡ true) m
      → All (λ e. P e.0 e.1) m
  above-All P k [] a above = tt
  above-All P k (e ∷ m) a above =
      (a.0 (text_eq_symm e.0 k ∙ lt_apart k e.0 above.0), above-All P k m a.1 above.1)

  pub put_text-AscendingKeys :
      (k : Text) (v : V) (m : List (Text × V)) → AscendingKeys m → AscendingKeys (put_text k v m)
  put_text-AscendingKeys k v [] o = (tt, tt)
  put_text-AscendingKeys k v (e ∷ m) o = elim (Bool-cases (text_lt e.0 k)) [
    | inl lt ↦
        rw lt
          (put_text-In (λ i w. text_lt e.0 i ≡ true) k v m lt o.0, put_text-AscendingKeys k v m o.1)
    | inr ge ↦ elim (Bool-cases (text_eq e.0 k)) [
      | inl same ↦
          rw (ge, same)
            (subst (λ i. All (λ f. text_lt i f.0 ≡ true) m) ((text_eq_iff e.0 k).0 same) o.0, o.1)
      | inr other ↦
          let lt : text_lt k e.0 ≡ true = lt_of_ne k e.0 ge (text_eq_symm k e.0 ∙ other) in
          rw (ge, other) ((lt, above_text k e.0 m lt o.0), o)
    ]
  ]

  pub values-In :
      (P : Text → V → Type 0) (m : List (Text × V)) (v : V)
      → All (λ e. P e.0 e.1) m
      → In v (values m)
      → (k : Text) × P k v
  values-In P [] v a h = elim h [ ]
  values-In P ((k, w) ∷ m) v a (inl e) = (k, subst (P k) e a.0)
  values-In P ((k, w) ∷ m) v a (inr h) = values-In P m v a.1 h

  -- Where all values but the one of the key have a property, and the new one has it, all have it.
  pub put_text-All :
      (P : Text → V → Type 0) (k : Text) (v : V) (m : List (Text × V))
      → AscendingKeys m
      → P k v
      → All (λ e. text_eq e.0 k ≡ false → P e.0 e.1) m
      → All (λ e. P e.0 e.1) (put_text k v m)
  put_text-All P k v [] o h a = (h, tt)
  put_text-All P k v (e ∷ m) o h a = elim (Bool-cases (text_lt e.0 k)) [
    | inl lt ↦ rw lt (a.0 (lt_apart e.0 k lt), put_text-All P k v m o.1 h a.1)
    | inr ge ↦ elim (Bool-cases (text_eq e.0 k)) [
      | inl same ↦
          rw (ge, same)
            (
              h,
              above-All P k m a.1
                  (subst (λ i. All (λ f. text_lt i f.0 ≡ true) m) ((text_eq_iff e.0 k).0 same) o.0),
            )
      | inr other ↦
          let lt : text_lt k e.0 ≡ true = lt_of_ne k e.0 ge (text_eq_symm k e.0 ∙ other) in
          rw (ge, other) (h, (a.0 other, above-All P k m a.1 (above_text k e.0 m lt o.0)))
    ]
  ]
