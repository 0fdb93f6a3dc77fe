-- ===== src/Common/Lists.antt =====
-- Lists measured by native numbers, their Boolean tests, and the predicate that all items meet.
use Prim.Native.Nat.{ℕ, zero, suc, ◌+◌, ◌≤◌}
use mathlib.Core.Path.{◌≡◌, refl, ap, ap₂, sym, ◌∙◌, subst}
use mathlib.Core.Bool.{Bool, true, false, ◌&&◌, ◌||◌}
use mathlib.Core.List.{List, [], ◌∷◌, ◌++◌, map}
use mathlib.Core.Option.{Option, none, some, some-injective}
use native.Mathlib.Omega.{arith}
use mathlib.Core.Logic.{◌⊎◌, inl, inr}
use pi_tools.Common.Tests.{if◌then◌else◌, Bool-cases}

module _ {ℓ} {A : Type ℓ} where
  abbrev pub length : List A → ℕ
  length [] = 0
  length (x ∷ xs) = suc (length xs)

  abbrev pub is_empty : List A → Bool
  is_empty [] = true
  is_empty (x ∷ xs) = false

  abbrev pub any : (A → Bool) → List A → Bool
  any p [] = false
  any p (x ∷ xs) = p x || any p xs

  abbrev pub all : (A → Bool) → List A → Bool
  all p [] = true
  all p (x ∷ xs) = p x && all p xs

  -- `Iterator::find`.
  abbrev pub find : (A → Bool) → List A → Option A
  find p [] = none
  find p (x ∷ xs) = if p x then some x else find p xs

  -- `Iterator::filter`, by a Boolean test.
  abbrev pub filter : (A → Bool) → List A → List A
  filter p [] = []
  filter p (x ∷ xs) = if p x then x ∷ filter p xs else filter p xs

  abbrev pub count : (A → Bool) → List A → ℕ
  count p [] = 0
  count p (x ∷ xs) = if p x then suc (count p xs) else count p xs

  abbrev pub take : ℕ → List A → List A
  take zero xs = []
  take (suc n) [] = []
  take (suc n) (x ∷ xs) = x ∷ take n xs

  abbrev pub drop : ℕ → List A → List A
  drop zero xs = xs
  drop (suc n) [] = []
  drop (suc n) (x ∷ xs) = drop n xs

  pub length-append : (xs ys : List A) → length (xs ++ ys) ≡ length xs + length ys
  length-append [] ys = omega arith
  length-append (x ∷ xs) ys = omega (arith, length-append xs ys)

  pub length-filter-le : (p : A → Bool) (xs : List A) → length (filter p xs) ≤ length xs
  length-filter-le p [] = omega arith
  length-filter-le p (x ∷ xs) = ground (arith, length-filter-le p xs)

module _ {ℓ κ} {A : Type ℓ} (P : A → Type κ) where
  abbrev pub All : List A → Type κ
  All [] = Unit
  All (x ∷ xs) = P x × All xs

  pub All-append : (xs ys : List A) → All xs → All ys → All (xs ++ ys)
  All-append [] ys hx hy = hy
  All-append (x ∷ xs) ys hx hy = (hx.0, All-append xs ys hx.1 hy)

module _ {ℓ} {A : Type ℓ} (P : A → Type 0) where
  -- Some item of the list has the property, and the proof says which.
  abbrev pub Any : List A → Type 0
  Any [] = ⊥
  Any (x ∷ xs) = P x ⊎ Any xs

module _ {ℓ κ} {A : Type ℓ} {B : Type κ} where
  pub length-map : (f : A → B) (xs : List A) → length (map f xs) ≡ length xs
  length-map f [] = refl
  length-map f (x ∷ xs) = ap suc (length-map f xs)

module _ {A : Type 0} where
  abbrev pub In : A → List A → Type 0
  In x = Any (λ y. y ≡ x)

  pub All-In {κ} : (P : A → Type κ) {x : A} (xs : List A) → All P xs → In x xs → P x
  All-In P [] h m = elim m [ ]
  All-In P (y ∷ xs) h (inl e) = subst P e h.0
  All-In P (y ∷ xs) h (inr m) = All-In P xs h.1 m

  pub All-intro {κ} : (P : A → Type κ) (xs : List A) → ((x : A) → In x xs → P x) → All P xs
  All-intro P [] f = tt
  All-intro P (x ∷ xs) f = (f x (inl refl), All-intro P xs (λ y m. f y (inr m)))

  pub All-map {κ} :
      (P : A → Type κ) (f : A → A) (xs : List A)
      → ((x : A) → In x xs → P x → P (f x))
      → All P xs
      → All P (map f xs)
  All-map P f [] keep h = tt
  All-map P f (x ∷ xs) keep h = (keep x (inl refl) h.0, All-map P f xs (λ y m. keep y (inr m)) h.1)

  pub any-In : (p : A → Bool) (x : A) (xs : List A) → In x xs → p x ≡ true → any p xs ≡ true
  any-In p x [] m h = elim m [ ]
  any-In p x (y ∷ xs) (inl e) h = let k : p y ≡ true = rw e h in rw k refl
  any-In p x (y ∷ xs) (inr m) h = ground (arith, any-In p x xs m h)

  -- `find` answers with an item of the list that meets the test, and `none` only if there is none.
  pub find-In : (p : A → Bool) (xs : List A) {x : A} → find p xs ≡ some x → In x xs × (p x ≡ true)
  find-In p [] h = cc
  find-In p (y ∷ xs) {x} h = elim (Bool-cases (p y)) [
    | inl hit ↦ let e : y ≡ x = some-injective _ _ (rw hit at h) in (inl e, rw (← e) hit)
    | inr miss ↦ let (m, e) = find-In p xs (rw miss at h) in (inr m, e)
  ]

  pub find-none : (p : A → Bool) (xs : List A) → find p xs ≡ none → any p xs ≡ false
  find-none p [] h = refl
  find-none p (y ∷ xs) h = ground (arith, find-none p xs)

  pub any-none : (p : A → Bool) (xs : List A) → any p xs ≡ false → find p xs ≡ none
  any-none p [] h = refl
  any-none p (y ∷ xs) h = ground (arith, any-none p xs)

  -- A change that selects nothing leaves the list as it is.
  pub map-id_of : (f : A → A) (xs : List A) → ((x : A) → In x xs → f x ≡ x) → map f xs ≡ xs
  map-id_of f [] same = refl
  map-id_of f (x ∷ xs) same =
      ap₂ (λ y ys. y ∷ ys) (same x (inl refl)) (map-id_of f xs (λ y m. same y (inr m)))

  pub map-congr :
      (f g : A → A) (xs : List A) → ((x : A) → In x xs → f x ≡ g x) → map f xs ≡ map g xs
  map-congr f g [] same = refl
  map-congr f g (x ∷ xs) same =
      ap₂ (λ y ys. y ∷ ys) (same x (inl refl)) (map-congr f g xs (λ y m. same y (inr m)))

  pub In-map : (f : A → A) (x : A) (xs : List A) → In x xs → In (f x) (map f xs)
  In-map f x [] m = elim m [ ]
  In-map f x (y ∷ xs) (inl e) = inl (ap f e)
  In-map f x (y ∷ xs) (inr m) = inr (In-map f x xs m)

  pub count-none : (p : A → Bool) (xs : List A) → any p xs ≡ false → count p xs ≡ 0
  count-none p [] h = refl
  count-none p (x ∷ xs) h = ground (arith, count-none p xs)

  pub any-none_intro :
      (p : A → Bool) (xs : List A) → ((x : A) → In x xs → p x ≡ false) → any p xs ≡ false
  any-none_intro p [] f = refl
  any-none_intro p (x ∷ xs) f = rw (f x (inl refl), any-none_intro p xs (λ y m. f y (inr m))) refl

  pub any-none_elim :
      (p : A → Bool) (x : A) (xs : List A) → any p xs ≡ false → In x xs → p x ≡ false
  any-none_elim p x xs h m = elim (Bool-cases (p x)) [
    | inl hit ↦ cc (any-In p x xs m hit)
    | inr miss ↦ miss
  ]

  pub any-weaken :
      (p q : A → Bool) (xs : List A)
      → ((x : A) → p x ≡ true → q x ≡ true)
      → any q xs ≡ false
      → any p xs ≡ false
  any-weaken p q [] back h = refl
  any-weaken p q (x ∷ xs) back h = ground (arith, back x, any-weaken p q xs back)

  -- No two items of the list are related.
  abbrev pub Apart : (A → A → Bool) → List A → Type 0
  Apart R [] = Unit
  Apart R (x ∷ xs) = (any (R x) xs ≡ false) × Apart R xs

  any-map-reflect :
      (p q : A → Bool) (f : A → A) (xs : List A)
      → ((x : A) → p (f x) ≡ true → q x ≡ true)
      → any q xs ≡ false
      → any p (map f xs) ≡ false
  any-map-reflect p q f [] back h = refl
  any-map-reflect p q f (x ∷ xs) back h = ground (arith, back x, any-map-reflect p q f xs back)

  pub Apart-map :
      (R : A → A → Bool) (f : A → A) (xs : List A)
      → ((x y : A) → R (f x) (f y) ≡ true → R x y ≡ true)
      → Apart R xs
      → Apart R (map f xs)
  Apart-map R f [] back h = tt
  Apart-map R f (x ∷ xs) back h =
      (any-map-reflect (R (f x)) (R x) f xs (back x) h.0, Apart-map R f xs back h.1)

  -- Of two related items, one is the other.
  pub Apart-In :
      (R : A → A → Bool) (symm : (x y : A) → R x y ≡ true → R y x ≡ true) {x y : A} (xs : List A)
      → Apart R xs
      → In x xs
      → In y xs
      → R x y ≡ true
      → x ≡ y
  Apart-In R symm [] h m n r = elim m [ ]
  Apart-In R symm (z ∷ xs) h (inl e) (inl e') r = sym e ∙ e'
  Apart-In R symm {x} {y} (z ∷ xs) h (inl e) (inr n) r =
      absurd (ground (arith, any-In (R z) y xs n (rw e r)))
  Apart-In R symm {x} {y} (z ∷ xs) h (inr m) (inl e) r =
      absurd (ground (arith, any-In (R z) x xs m (rw e (symm x y r))))
  Apart-In R symm (z ∷ xs) h (inr m) (inr n) r = Apart-In R symm xs h.1 m n r
