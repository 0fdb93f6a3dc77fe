-- ===== src/Common/Results.antt =====
-- `Result`, with the `?` operator as the bind of `do` blocks.
use mathlib.Core.Path.{◌≡◌, refl, ap}
use mathlib.Core.Logic.{◌⊎◌, inl, inr}
use mathlib.Core.Bool.{Bool, true, false}
use mathlib.Core.Option.{Option, none, some}

pub data Result {ℓ κ} (E : Type κ) (A : Type ℓ) : Type (ℓ ⊔ κ) where
  err : E → Result E A
  ok : A → Result E A

abbrev pub is_ok {ℓ κ} : {E : Type κ} {A : Type ℓ} → Result E A → Bool
is_ok (err e) = false
is_ok (ok a) = true

module _ {κ} {E : Type κ} where
  -- `Option::ok_or`
  abbrev pub ok_or {ℓ} : {A : Type ℓ} → Option A → E → Result E A
  ok_or (some a) e = ok a
  ok_or none e = err e

  infixl 5 ◌>>=◌ ◌>>◌
  -- `m?`, and then the rest of the function with the value.
  abbrev pub ◌>>=◌ {ℓ μ} : {A : Type ℓ} {B : Type μ} → Result E A → (A → Result E B) → Result E B
  err failure >>= rest = err failure
  ok value >>= rest = rest value

  -- `if bad { return Err(e) }`
  abbrev pub reject_if : Bool → E → Result E (Unit {0})
  reject_if true failure = err failure
  reject_if false failure = ok tt

  abbrev pub ◌>>◌ {ℓ} : {B : Type ℓ} → Result E (Unit {0}) → Result E B → Result E B
  check >> rest = check >>= λ u. rest

  pub reject_if-ok :
      (bad : Bool) (failure : E) {u : Unit {0}} → reject_if bad failure ≡ ok u → bad ≡ false
  reject_if-ok true failure h = cc
  reject_if-ok false failure h = refl

  -- What came before a result, where nothing returned early.
  pub >>=-eq-ok {ℓ μ} :
      {A : Type ℓ} {B : Type μ} (first : Result E A) (rest : A → Result E B) {result : B}
      → (first >>= rest) ≡ ok result
      → (value : A) × (first ≡ ok value) × (rest value ≡ ok result)
  >>=-eq-ok (err failure) rest h = cc
  >>=-eq-ok (ok value) rest h = (value, refl, h)

  pub ok-injective {ℓ} : {A : Type ℓ} {a b : A} (r : Result E A) → r ≡ ok a → r ≡ ok b → a ≡ b
  ok-injective r h k = cc

  pub ok_or-ok {ℓ} :
      {A : Type ℓ} (o : Option A) (failure : E) {a : A} → ok_or o failure ≡ ok a → o ≡ some a
  ok_or-ok (some b) failure h = ap some (ok-injective (ok b) refl h)
  ok_or-ok none failure h = cc

  -- How a call went, and the equation.
  pub Result-cases {ℓ} :
      {A : Type ℓ} (r : Result E A) → ((e : E) × (r ≡ err e)) ⊎ ((a : A) × (r ≡ ok a))
  Result-cases (err failure) = inl (failure, refl)
  Result-cases (ok value) = inr (value, refl)
