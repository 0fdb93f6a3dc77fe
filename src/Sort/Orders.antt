-- ===== src/Sort/Orders.antt =====
-- `sort_by` with a comparison, which is stable, as `Vec` has it.
use pi_tools.Common.{
  ◌≡◌, ◌↔◌, inl, inr, Bool, true, false, List, [], ◌∷◌, if◌then◌else◌, All, All-intro, All-In, In,
  Bool-cases,
}

module _ {A : Type 0} (before : A → A → Bool) where
  abbrev pub insert_with : A → List A → List A
  insert_with x [] = x ∷ []
  insert_with x (y ∷ ys) = if before y x then y ∷ insert_with x ys else x ∷ y ∷ ys

  abbrev pub sort_with : List A → List A
  sort_with [] = []
  sort_with (x ∷ xs) = insert_with x (sort_with xs)

  -- No item stands before an item that it belongs behind.
  abbrev pub InOrder : List A → Type 0
  InOrder [] = Unit
  InOrder (x ∷ xs) = All (λ y. before y x ≡ false) xs × InOrder xs

  insert_with-In : (x z : A) (ys : List A) → In z (insert_with x ys) ↔ In z (x ∷ ys)
  insert_with-In x z [] = (λ m. m, λ m. m)
  insert_with-In x z (y ∷ ys) = elim (Bool-cases (before y x)) [
    | inr last ↦ rw last (λ m. m, λ m. m)
    | inl first ↦ rw first (
      λ m. elim m [
        | inl e ↦ inr (inl e)
        | inr n ↦ elim ((insert_with-In x z ys).0 n) [ inl e ↦ inl e | inr o ↦ inr (inr o) ]
      ],
      λ m. elim m [
        | inl e ↦ inr ((insert_with-In x z ys).1 (inl e))
        | inr (inl e) ↦ inl e
        | inr (inr n) ↦ inr ((insert_with-In x z ys).1 (inr n))
      ],
    )
  ]

  pub sort_with-In : (z : A) (xs : List A) → In z (sort_with xs) ↔ In z xs
  sort_with-In z [] = (λ m. m, λ m. m)
  sort_with-In z (x ∷ xs) = (
    λ m. elim ((insert_with-In x z (sort_with xs)).0 m) [
      | inl e ↦ inl e
      | inr n ↦ inr ((sort_with-In z xs).0 n)
    ],
    λ m.
        (insert_with-In x z (sort_with xs)).1
          (elim m [ inl e ↦ inl e | inr n ↦ inr ((sort_with-In z xs).1 n) ]),
  )

  module _ (asym : (x y : A) → before x y ≡ true → before y x ≡ false)
      (ntrans : (x y z : A) → before x y ≡ false → before y z ≡ false → before x z ≡ false) where
    insert_with-InOrder : (x : A) (ys : List A) → InOrder ys → InOrder (insert_with x ys)
    insert_with-InOrder x [] s = (tt, tt)
    insert_with-InOrder x (y ∷ ys) s = elim (Bool-cases (before y x)) [
      | inl first ↦ rw first (
        All-intro (λ z. before z y ≡ false) (insert_with x ys)
            (λ z m. elim ((insert_with-In x z ys).0 m) [
              | inl e ↦ rw (← e) (asym y x first)
              | inr n ↦ All-In (λ w. before w y ≡ false) ys s.0 n
            ]),
        insert_with-InOrder x ys s.1,
      )
      | inr last ↦ rw last (
        (
          last,
          All-intro (λ z. before z x ≡ false) ys
              (λ z m. ntrans z y x (All-In (λ w. before w y ≡ false) ys s.0 m) last),
        ),
        s,
      )
    ]

    pub sort_with-InOrder : (xs : List A) → InOrder (sort_with xs)
    sort_with-InOrder [] = tt
    sort_with-InOrder (x ∷ xs) = insert_with-InOrder x (sort_with xs) (sort_with-InOrder xs)
