-- ===== src/Reconcile/Reviews/Latest.antt =====
-- Which reviews `latest_review_reviews` keeps.
use pi_tools.Common.{
  ◌≡◌, ◌↔◌, ◌⊎◌, refl, sym, ap, ◌∙◌, inl, inr, true, false, some, List, [], ◌∷◌, if◌then◌else◌,
  Bool-cases, In, All, All-In, All-intro, Apart, any-none_intro,
}
use mathlib.Core.Path.{subst}
use pi_tools.Text.{Text, text_eq, text_lt}
use pi_tools.Text.Laws.{text_eq_iff}
use pi_tools.Sort.Orders.{sort_with, InOrder, sort_with-In, sort_with-InOrder}
use pi_tools.Maps.Texts.{
  lt_apart, get_text, put_text, values, get_text-put_text, get_text-other, get_text-values,
  get_text-In, put_text-All, AscendingKeys, put_text-AscendingKeys, values-In,
}
use pi_tools.Reconcile.{PullRequestReview}
use pi_tools.Reconcile.Reviews.Order.{
  review_before_irrefl, review_before_asym, review_before_ntrans,
}
use pi_tools.Reconcile.Reviews.{review_before, is_decision, latest_from, latest_review_reviews}

-- A decision that no decision of the same reviewer comes after.
abbrev pub IsLatest : List PullRequestReview → PullRequestReview → Type 0
IsLatest reviews r =
    In r reviews
    × (is_decision r ≡ true)
    × ((q : PullRequestReview)
        → In q reviews
        → is_decision q ≡ true
        → q.user.login ≡ r.user.login
        → review_before r q ≡ false)

-- The latest decision of each reviewer among those seen, under its login.
record Kept (seen : List PullRequestReview) (latest : List (Text × PullRequestReview))
    : Type 0 where
  pub order : AscendingKeys latest
  pub sound : All (λ e. (e.0 ≡ e.1.user.login) × IsLatest seen e.1) latest
  pub complete :
      (q : PullRequestReview)
      → In q seen
      → is_decision q ≡ true
      → (r : PullRequestReview) × (get_text q.user.login latest ≡ some r)

module _ (seen : List PullRequestReview) (x : PullRequestReview) where
  IsLatest-older :
      (r : PullRequestReview)
      → (is_decision x ≡ true → x.user.login ≡ r.user.login → ⊥)
      → IsLatest seen r
      → IsLatest (x ∷ seen) r
  IsLatest-older r apart (m, d, last) = (
    inr m,
    d,
    λ q i decided same. elim i [
      | inl e ↦ absurd (apart (rw e decided) (rw e same))
      | inr j ↦ last q j decided same
    ],
  )

  IsLatest-new :
      ((q : PullRequestReview) → In q seen → review_before x q ≡ false)
      → is_decision x ≡ true
      → IsLatest (x ∷ seen) x
  IsLatest-new later d = (
    inl refl,
    d,
    λ q i decided same. elim i [ inl e ↦ rw (← e) (review_before_irrefl x) | inr j ↦ later q j ],
  )

Kept-step :
    (seen : List PullRequestReview) (x : PullRequestReview)
    (latest : List (Text × PullRequestReview))
    → ((q : PullRequestReview) → In q seen → review_before x q ≡ false)
    → Kept seen latest
    → Kept (x ∷ seen) (if is_decision x then put_text x.user.login x latest else latest)
Kept-step seen x latest later k = elim (Bool-cases (is_decision x)) [
  | inr other ↦ rw other (record {
    order = k.order;
    sound = All-intro _ latest (λ e m.
        let (key, is) = All-In (λ e. (e.0 ≡ e.1.user.login) × IsLatest seen e.1) latest k.sound m in
        (key, IsLatest-older seen x e.1 (λ d same. cc (d, other)) is));
    complete = λ q i d. elim i [
      | inl e ↦ absurd (cc (ap is_decision e, d, other))
      | inr j ↦ k.complete q j d
    ];
  })
  | inl decided ↦ rw decided (record {
    order = put_text-AscendingKeys x.user.login x latest k.order;
    sound =
        put_text-All (λ key r. (key ≡ r.user.login) × IsLatest (x ∷ seen) r) x.user.login x latest
          k.order (refl, IsLatest-new seen x later decided)
          (All-intro _ latest (λ e m apart.
            let (key, is) =
              All-In (λ e. (e.0 ≡ e.1.user.login) × IsLatest seen e.1) latest k.sound m in
            (
              key,
              IsLatest-older seen x e.1
                  (λ d same. cc (apart, (text_eq_iff e.0 x.user.login).1 (key ∙ sym same))) is,
            )));
    complete = λ q i d. elim (Bool-cases (text_eq x.user.login q.user.login)) [
      | inl same ↦ (
        x,
        ap (λ j. get_text j (put_text x.user.login x latest)) (sym ((text_eq_iff _ _).0 same))
            ∙ get_text-put_text x.user.login x latest,
      )
      | inr other ↦ elim i [
        | inl e ↦
            absurd
              (cc (other, (text_eq_iff _ _).1 (ap (λ (r : PullRequestReview). r.user.login) e)))
        | inr j ↦
            let (r, found) = k.complete q j d in
            (r, get_text-other x.user.login q.user.login x latest other ∙ found)
      ]
    ];
  })
]

-- Behind reviews that were seen come none that belong before them.
abbrev Behind : List PullRequestReview → List PullRequestReview → Type 0
Behind seen rest = (q : PullRequestReview) → In q seen → All (λ x. review_before x q ≡ false) rest

latest_from-Kept :
    (rest seen : List PullRequestReview) (latest : List (Text × PullRequestReview))
    → Kept seen latest
    → Behind seen rest
    → InOrder review_before rest
    → (all : List PullRequestReview) × Kept all (latest_from (λ r. r) rest latest)
      × ((q : PullRequestReview) → In q all ↔ (In q rest ⊎ In q seen))
unfolding latest_from
latest_from-Kept [] seen latest k behind o =
    (seen, k, λ q. (λ m. inr m, λ m. elim m [ inl i ↦ elim i [ ] | inr i ↦ i ]))
latest_from-Kept (x ∷ rest) seen latest k behind o =
    let (all, k', same) =
      latest_from-Kept rest (x ∷ seen) _ (Kept-step seen x latest (λ q m. (behind q m).0) k)
        (λ q m. elim m [
          | inl e ↦ subst (λ y. All (λ z. review_before z y ≡ false) rest) e o.0
          | inr i ↦ (behind q i).1
        ])
        o.1 in
    (
      all,
      k',
      λ q. (
        λ m. elim ((same q).0 m) [
          | inl i ↦ inl (inr i)
          | inr (inl e) ↦ inl (inl e)
          | inr (inr i) ↦ inr i
        ],
        λ m.
            (same q).1
              (elim m [ inl (inl e) ↦ inr (inl e) | inl (inr i) ↦ inl i | inr i ↦ inr (inr i) ]),
      ),
    )

-- The latest decision of each reviewer, each reviewer once.
pub record LatestOf (reviews kept : List PullRequestReview) : Type 0 where
  pub sound : (r : PullRequestReview) → In r kept → IsLatest reviews r
  pub complete :
      (q : PullRequestReview)
      → In q reviews
      → is_decision q ≡ true
      → (r : PullRequestReview) × In r kept × (r.user.login ≡ q.user.login)
  pub once : Apart (λ r q. text_eq r.user.login q.user.login) kept

both :
    (k : Text) (m : List (Text × PullRequestReview))
    → All (λ f. text_lt k f.0 ≡ true) m
    → All (λ e. e.0 ≡ e.1.user.login) m
    → All (λ e. (text_lt k e.0 ≡ true) × (e.0 ≡ e.1.user.login)) m
both k [] a b = tt
both k (e ∷ m) a b = ((a.0, b.0), both k m a.1 b.1)

logins :
    (seen : List PullRequestReview) (m : List (Text × PullRequestReview))
    → All (λ e. (e.0 ≡ e.1.user.login) × IsLatest seen e.1) m
    → All (λ e. e.0 ≡ e.1.user.login) m
logins seen [] a = tt
logins seen (e ∷ m) a = (a.0.0, logins seen m a.1)

values-Apart :
    (m : List (Text × PullRequestReview))
    → AscendingKeys m
    → All (λ e. e.0 ≡ e.1.user.login) m
    → Apart (λ r q. text_eq r.user.login q.user.login) (values m)
values-Apart [] o a = tt
values-Apart (e ∷ m) o a = (
  any-none_intro (λ q. text_eq e.1.user.login q.user.login) (values m)
      (λ q i.
        let (key, (lt, own)) =
          values-In (λ key r. (text_lt e.0 key ≡ true) × (key ≡ r.user.login)) m q
            (both e.0 m o.0 a.1) i in
        rw (sym a.0, sym own) (lt_apart e.0 key lt)),
  values-Apart m o.1 a.1,
)

pub latest_review_reviews-LatestOf :
    (reviews : List PullRequestReview) → LatestOf reviews (values (latest_review_reviews reviews))
unfolding latest_review_reviews
latest_review_reviews-LatestOf reviews =
    let start : Kept [] [] = record { order = tt; sound = tt; complete = λ q m. elim m [ ] } in
    let (all, k, same) =
      latest_from-Kept (sort_with review_before reviews) [] [] start (λ q m. elim m [ ])
        (sort_with-InOrder review_before review_before_asym review_before_ntrans reviews) in
    let back = λ (q : PullRequestReview) (m : In q reviews).
      (same q).1 (inl ((sort_with-In review_before q reviews).1 m)) in
    record {
      sound = λ r i.
          let (key, (own, is)) =
            values-In (λ key r. (key ≡ r.user.login) × IsLatest all r) _ r k.sound i in
          (
            elim ((same r).0 is.0) [
              | inl m ↦ (sort_with-In review_before r reviews).0 m
              | inr m ↦ elim m [ ]
            ],
            is.1,
            λ q m. is.2 q (back q m),
          );
      complete = λ q m d.
          let (r, found) = k.complete q (back q m) d in
          let i = get_text-values q.user.login r _ found in
          let own =
            All-In (λ e. e.0 ≡ e.1.user.login) _ (logins all _ k.sound)
              (get_text-In q.user.login r _ found) in
          (r, i, sym own);
      once = values-Apart _ k.order (logins all _ k.sound);
    }
