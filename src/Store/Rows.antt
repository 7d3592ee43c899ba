-- ===== src/Store/Rows.antt =====
-- Tables as lists of rows: what an UPDATE, a DELETE, a SELECT and a count with a WHERE do to one.
use openvpn_docker.Prelude.{
  ℕ, ◌+◌, ◌≤◌, ◌≡◌, refl, Bool, true, false, ◌&&◌, not, Option, none, some, List, [], ◌∷◌, ◌++◌,
  arith, if◌then◌else◌, Bool-cases, inl, inr,
}

module _ {ℓ} {A : Type ℓ} where
  -- SELECT count(*) and RowsAffected.
  unfoldable pub count_where : (A → Bool) → List A → ℕ
  count_where p [] = 0
  count_where p (x ∷ xs) = (if p x then 1 else 0) + count_where p xs

  -- QueryRow: the first row, if there is one.
  unfoldable pub find_where : (A → Bool) → List A → Option A
  find_where p [] = none
  find_where p (x ∷ xs) = let rest = find_where p xs in if p x then some x else rest

  unfoldable pub update_where : (A → Bool) → (A → A) → List A → List A
  update_where p f [] = []
  update_where p f (x ∷ xs) = let rest = update_where p f xs in (if p x then f x else x) ∷ rest

  unfoldable pub delete_where : (A → Bool) → List A → List A
  delete_where p [] = []
  delete_where p (x ∷ xs) = let rest = delete_where p xs in if p x then rest else x ∷ rest

  pub count-append_one :
      (p : A → Bool) (xs : List A) (y : A)
      → count_where p (xs ++ y ∷ []) ≡ count_where p xs + (if p y then 1 else 0)
  unfolding count_where
  count-append_one p [] y = omega arith
  count-append_one p (x ∷ xs) y = omega (arith, count-append_one p xs y)

  -- An update that keeps the test of every row keeps the count.
  pub count-update_same :
      (p w : A → Bool) (f : A → A) (xs : List A)
      → ((x : A) → w x ≡ true → p (f x) ≡ p x)
      → count_where p (update_where w f xs) ≡ count_where p xs
  unfolding count_where update_where
  count-update_same p w f [] h = refl
  count-update_same p w f (x ∷ xs) h = elim (Bool-cases (w x)) [
    | inl e ↦ rw e (rw (h x e) (omega (arith, count-update_same p w f xs h)))
    | inr e ↦ rw e (omega (arith, count-update_same p w f xs h))
  ]

  -- An update that adds no row to those counted adds nothing to the count.
  pub count-update-le :
      (p w : A → Bool) (f : A → A) (xs : List A)
      → ((x : A) → w x ≡ true → p (f x) ≡ true → p x ≡ true)
      → count_where p (update_where w f xs) ≤ count_where p xs
  unfolding count_where update_where
  count-update-le p w f [] h = omega arith
  count-update-le p w f (x ∷ xs) h = elim (Bool-cases (w x)) [
    | inl e ↦ rw e (elim (Bool-cases (p (f x))) [
      | inl q ↦ rw (q, h x e q) (omega (arith, count-update-le p w f xs h))
      | inr q ↦ rw q (omega (arith, count-update-le p w f xs h))
    ])
    | inr e ↦ rw e (omega (arith, count-update-le p w f xs h))
  ]

  -- An update that takes every counted row out leaves none.
  pub count-update_none :
      (p w : A → Bool) (f : A → A) (xs : List A)
      → ((x : A) → p x ≡ true → w x ≡ true)
      → ((x : A) → p (f x) ≡ false)
      → count_where p (update_where w f xs) ≡ 0
  unfolding count_where update_where
  count-update_none p w f [] h k = refl
  count-update_none p w f (x ∷ xs) h k = elim (Bool-cases (w x)) [
    | inl e ↦ rw (e, k x) (omega (arith, count-update_none p w f xs h k))
    | inr e ↦ rw e (elim (Bool-cases (p x)) [
      | inl q ↦ cc (h x q)
      | inr q ↦ rw q (omega (arith, count-update_none p w f xs h k))
    ])
  ]

  pub count-delete_same :
      (p w : A → Bool) (xs : List A)
      → ((x : A) → w x ≡ true → p x ≡ false)
      → count_where p (delete_where w xs) ≡ count_where p xs
  unfolding count_where delete_where
  count-delete_same p w [] h = refl
  count-delete_same p w (x ∷ xs) h = elim (Bool-cases (w x)) [
    | inl e ↦ rw e (rw (h x e) (omega (arith, count-delete_same p w xs h)))
    | inr e ↦ rw e (omega (arith, count-delete_same p w xs h))
  ]

  pub count-delete_none :
      (p w : A → Bool) (xs : List A)
      → ((x : A) → p x ≡ true → w x ≡ true)
      → count_where p (delete_where w xs) ≡ 0
  unfolding count_where delete_where
  count-delete_none p w [] h = refl
  count-delete_none p w (x ∷ xs) h = elim (Bool-cases (w x)) [
    | inl e ↦ rw e (count-delete_none p w xs h)
    | inr e ↦ rw e (elim (Bool-cases (p x)) [
      | inl q ↦ cc (h x q)
      | inr q ↦ rw q (omega (arith, count-delete_none p w xs h))
    ])
  ]

  pub count-delete-le :
      (p w : A → Bool) (xs : List A) → count_where p (delete_where w xs) ≤ count_where p xs
  unfolding count_where delete_where
  count-delete-le p w [] = omega arith
  count-delete-le p w (x ∷ xs) = elim (Bool-cases (w x)) [
    | inl e ↦ rw e (omega (arith, count-delete-le p w xs))
    | inr e ↦ rw e (omega (arith, count-delete-le p w xs))
  ]

  pub count_mono :
      (p q : A → Bool) (xs : List A)
      → ((x : A) → p x ≡ true → q x ≡ true)
      → count_where p xs ≤ count_where q xs
  unfolding count_where
  count_mono p q [] h = omega arith
  count_mono p q (x ∷ xs) h = elim (Bool-cases (p x)) [
    | inl e ↦ rw (e, h x e) (omega (arith, count_mono p q xs h))
    | inr e ↦ rw e (omega (arith, count_mono p q xs h))
  ]

  pub count-update_add :
      (p w : A → Bool) (f : A → A) (xs : List A)
      → count_where p (update_where w f xs) ≤ count_where p xs + count_where w xs
  unfolding count_where update_where
  count-update_add p w f [] = omega arith
  count-update_add p w f (x ∷ xs) = elim (Bool-cases (w x)) [
    | inl e ↦ rw e (elim (Bool-cases (p (f x))) [
      | inl q ↦ rw q (omega (arith, count-update_add p w f xs))
      | inr q ↦ rw q (omega (arith, count-update_add p w f xs))
    ])
    | inr e ↦ rw e (omega (arith, count-update_add p w f xs))
  ]

  -- The row that is found is counted.
  pub find-count :
      (p q : A → Bool) (xs : List A) {y : A}
      → find_where p xs ≡ some y
      → q y ≡ true
      → 1 ≤ count_where (λ x. p x && q x) xs
  unfolding count_where find_where
  find-count p q [] h k = cc
  find-count p q (x ∷ xs) {y} h k = elim (Bool-cases (p x)) [
    | inl e ↦ let same : x ≡ y = cc (rw e at h) in rw (e, same) (rw k (omega arith))
    | inr e ↦ rw e (omega (arith, find-count p q xs (rw e at h) k))
  ]

  pub count_split :
      (p q : A → Bool) (xs : List A)
      → count_where q xs ≡ count_where (λ x. p x && q x) xs + count_where (λ x. not (p x) && q x) xs
  unfolding count_where
  count_split p q [] = refl
  count_split p q (x ∷ xs) = elim (Bool-cases (p x)) [
    | inl e ↦ rw e (omega (arith, count_split p q xs))
    | inr e ↦ rw e (omega (arith, count_split p q xs))
  ]

  -- An update of rows that all pass a test keeps a count that it keeps for such rows.
  pub count-update_among :
      (p w g : A → Bool) (f : A → A) (xs : List A)
      → count_where (λ x. not (g x) && w x) xs ≡ 0
      → ((x : A) → w x ≡ true → g x ≡ true → p (f x) ≡ p x)
      → count_where p (update_where w f xs) ≡ count_where p xs
  unfolding count_where update_where
  count-update_among p w g f [] none' h = refl
  count-update_among p w g f (x ∷ xs) none' h = elim (Bool-cases (w x)) [
    | inr e ↦ rw e (omega (arith, count-update_among p w g f xs (omega arith) h))
    | inl e ↦ elim (Bool-cases (g x)) [
      | inl k ↦ rw e (rw (h x e k) (omega (arith, count-update_among p w g f xs (omega arith) h)))
      | inr k ↦ absurd (omega (arith, rw (e, k) at none'))
    ]
  ]

  pub find-update :
      (p w : A → Bool) (f : A → A) (xs : List A)
      → ((x : A) → p (f x) ≡ p x)
      → find_where p (update_where w f xs)
        ≡ (elim (find_where p xs) [ none ↦ none | some x ↦ some (if w x then f x else x) ])
  unfolding find_where update_where
  find-update p w f [] h = refl
  find-update p w f (x ∷ xs) h = elim (Bool-cases (w x)) [
    | inl e ↦
        rw (e, h x)
          (elim (Bool-cases (p x)) [
            | inl q ↦ rw (q, e) refl
            | inr q ↦ rw q (find-update p w f xs h)
          ])
    | inr e ↦
        rw e (elim (Bool-cases (p x)) [
          | inl q ↦ rw (q, e) refl
          | inr q ↦ rw q (find-update p w f xs h)
        ])
  ]

  pub find_sound : (p : A → Bool) (xs : List A) {y : A} → find_where p xs ≡ some y → p y ≡ true
  unfolding find_where
  find_sound p [] h = cc
  find_sound p (x ∷ xs) {y} h = elim (Bool-cases (p x)) [
    | inl e ↦ let same : x ≡ y = cc (rw e at h) in rw (← same) e
    | inr e ↦ find_sound p xs (rw e at h)
  ]

  -- Where at most one row passes a test and a row that passes it passes a second, the row that the
  -- first test finds passes the second.
  pub find_only :
      (p w : A → Bool) (xs : List A)
      → ((x : A) → w x ≡ true → p x ≡ true)
      → count_where p xs ≤ 1
      → count_where w xs ≡ 1
      → (y : A) × (find_where p xs ≡ some y) × (w y ≡ true)
  unfolding find_where count_where
  find_only p w [] h few one = absurd (omega (arith, one))
  find_only p w (x ∷ xs) h few one = elim (Bool-cases (p x)) [
    | inl e ↦ elim (Bool-cases (w x)) [
      | inl q ↦ (x, rw e, q)
      | inr q ↦ absurd (omega (arith, count_mono w p xs h, rw e at few, rw q at one))
    ]
    | inr e ↦ elim (Bool-cases (w x)) [
      | inl q ↦ cc (h x q)
      | inr q ↦ rw e (find_only p w xs h (omega (arith, rw e at few)) (omega (arith, rw q at one)))
    ]
  ]

  pub find-append :
      (p : A → Bool) (xs : List A) (y : A)
      → find_where p (xs ++ y ∷ [])
        ≡ (elim (find_where p xs) [ none ↦ if p y then some y else none | some x ↦ some x ])
  unfolding find_where
  find-append p [] y = refl
  find-append p (x ∷ xs) y = elim (Bool-cases (p x)) [
    | inl e ↦ rw e refl
    | inr e ↦ rw e (find-append p xs y)
  ]

  pub find-none : (p : A → Bool) (xs : List A) → count_where p xs ≡ 0 → find_where p xs ≡ none
  unfolding find_where count_where
  find-none p [] h = refl
  find-none p (x ∷ xs) h = elim (Bool-cases (p x)) [
    | inl e ↦ absurd (omega (arith, rw e at h))
    | inr e ↦ rw e (find-none p xs (omega (arith, rw e at h)))
  ]

  pub find-delete :
      (p w : A → Bool) (xs : List A)
      → ((x : A) → w x ≡ true → p x ≡ false)
      → find_where p (delete_where w xs) ≡ find_where p xs
  unfolding find_where delete_where
  find-delete p w [] h = refl
  find-delete p w (x ∷ xs) h = elim (Bool-cases (w x)) [
    | inl e ↦ rw e (rw (h x e) (find-delete p w xs h))
    | inr e ↦ rw e (rw (find-delete p w xs h) refl)
  ]
