-- ===== src/Sort/Laws.antt =====
-- Sorting keeps the items, and so does `dedup`.
use pi_tools.Common.{◌≡◌, ◌∙◌, ◌↔◌, inl, inr, true, false, List, [], ◌∷◌, arith, Bool-cases, In}
use pi_tools.Text.{Text, text_eq, text_lt}
use pi_tools.Text.Laws.{text_eq_iff}
use pi_tools.Text.Laws.{text_lt_irrefl, text_lt_trans, text_lt_connex}
use pi_tools.Sort.{insert_by, sort_by, dedup_from, dedup}

pub text_lt_asym : (s t : Text) → text_lt s t ≡ true → text_lt t s ≡ false
text_lt_asym s t h = ground (arith, text_lt_trans s t s h, text_lt_irrefl s)

pub lt_of_ne : (s t : Text) → text_lt t s ≡ false → text_eq s t ≡ false → text_lt s t ≡ true
lt_of_ne s t h n = ground (arith, text_lt_connex s t, text_eq_iff s t)

text_lt_le_trans : (s t u : Text) → text_lt s t ≡ true → text_lt u t ≡ false → text_lt s u ≡ true
text_lt_le_trans s t u h g = elim (Bool-cases (text_lt t u)) [
  | inl k ↦ text_lt_trans s t u h k
  | inr k ↦ rw (← text_lt_connex t u k g) h
]

-- t ≤ s < u
le_text_lt_trans : (s t u : Text) → text_lt s t ≡ false → text_lt s u ≡ true → text_lt t u ≡ true
le_text_lt_trans s t u h g = elim (Bool-cases (text_lt t s)) [
  | inl k ↦ text_lt_trans t s u k g
  | inr k ↦ rw (text_lt_connex t s k h) g
]

pub text_lt_ntrans :
    (s t u : Text) → text_lt s t ≡ false → text_lt t u ≡ false → text_lt s u ≡ false
text_lt_ntrans s t u h g = elim (Bool-cases (text_lt s u)) [
  | inr k ↦ k
  | inl k ↦ cc (g, le_text_lt_trans s t u h k)
]

module _ {A : Type 0} (key : A → Text) where
  insert_by-In : (x z : A) (ys : List A) → In z (insert_by key x ys) ↔ In z (x ∷ ys)
  unfolding insert_by
  insert_by-In x z [] = (λ m. m, λ m. m)
  insert_by-In x z (y ∷ ys) = elim (Bool-cases (text_lt (key y) (key x))) [
    | inr last ↦ rw last (λ m. m, λ m. m)
    | inl before ↦
        let ih = insert_by-In x z ys in
        rw before (
          elim [
            | inl e ↦ inr (inl e)
            | inr m ↦ elim (ih.0 m) [ inl e ↦ inl e | inr n ↦ inr (inr n) ]
          ],
          elim [
            | inl e ↦ inr (ih.1 (inl e))
            | inr (inl e) ↦ inl e
            | inr (inr m) ↦ inr (ih.1 (inr m))
          ],
        )
  ]

  pub sort_by-In : (z : A) (xs : List A) → In z (sort_by key xs) ↔ In z xs
  unfolding sort_by
  sort_by-In z [] = (λ m. m, λ m. m)
  sort_by-In z (x ∷ xs) =
      let ih = sort_by-In z xs in
      let here = insert_by-In x z (sort_by key xs) in
      (
        λ m. elim (here.0 m) [ inl e ↦ inl e | inr n ↦ inr (ih.0 n) ],
        elim [ inl e ↦ here.1 (inl e) | inr n ↦ here.1 (inr (ih.1 n)) ],
      )

  module _ (injective : (x y : A) → key x ≡ key y → x ≡ y) where
    dedup_from-In : (x z : A) (ys : List A) → In z (dedup_from key x ys) ↔ In z (x ∷ ys)
    unfolding dedup_from
    dedup_from-In x z [] = (λ m. m, λ m. m)
    dedup_from-In x z (y ∷ ys) = elim (Bool-cases (text_eq (key x) (key y))) [
      | inl again ↦
          let ih = dedup_from-In x z ys in
          let same : x ≡ y = injective x y ((text_eq_iff (key x) (key y)).0 again) in
          rw (again, dedup_from)
            (
              λ m. elim (ih.0 m) [ inl e ↦ inl e | inr n ↦ inr (inr n) ],
              elim [
                | inl e ↦ ih.1 (inl e)
                | inr (inl e) ↦ ih.1 (inl (same ∙ e))
                | inr (inr m) ↦ ih.1 (inr m)
              ],
            )
      | inr other ↦
          let ih = dedup_from-In y z ys in
          rw (other, dedup_from)
            (
              elim [ inl e ↦ inl e | inr m ↦ inr (ih.0 m) ],
              elim [ inl e ↦ inl e | inr m ↦ inr (ih.1 m) ],
            )
    ]

    pub dedup-In : (z : A) (xs : List A) → In z (dedup key xs) ↔ In z xs
    unfolding dedup
    dedup-In z [] = (λ m. m, λ m. m)
    dedup-In z (x ∷ xs) = dedup_from-In x z xs

  module _ (injective : (x y : A) → key x ≡ key y → x ≡ y) where
    pub dedup-sort_by-In : (z : A) (xs : List A) → In z (dedup key (sort_by key xs)) ↔ In z xs
    dedup-sort_by-In z xs =
        let d = dedup-In injective z (sort_by key xs) in
        let s = sort_by-In z xs in (λ m. s.0 (d.0 m), λ m. d.1 (s.1 m))
