-- ===== src/Maps.antt =====
-- `BTreeMap` with numbers for keys: its entries, in the order of their keys.
pub mod Laws
pub mod Texts
use pi_tools.Common.{ℕ, ◌<◌, Option, none, some, List, [], ◌∷◌, ltb, ◌==◌, if◌then◌else◌, All}

module _ {ℓ} {V : Type ℓ} where
  -- `get`
  abbrev pub get_entry : ℕ → List (ℕ × V) → Option V
  get_entry k [] = none
  get_entry k (e ∷ m) = if e.0 == k then some e.1 else get_entry k m

  -- `insert`
  abbrev pub put_entry : ℕ → V → List (ℕ × V) → List (ℕ × V)
  put_entry k v [] = (k, v) ∷ []
  put_entry k v (e ∷ m) =
      if ltb e.0 k then e ∷ put_entry k v m else if e.0 == k then (k, v) ∷ m else (k, v) ∷ e ∷ m

  -- The keys ascend.
  abbrev pub Ordered : List (ℕ × V) → Type ℓ
  Ordered [] = Unit
  Ordered (e ∷ m) = All (λ f. e.0 < f.0) m × Ordered m
