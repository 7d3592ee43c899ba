-- ===== src/Domain/Sets.antt =====
-- Comparing and counting addresses, and sorting by a strict order.
use openvpn_docker.Prelude.{
  ℕ, ◌+◌, String, ◌≡◌, refl, ◌↔◌, Bool, true, false, ◌&&◌, ◌||◌, List, [], ◌∷◌, arith, eq_iff, ltb,
  ◌==◌, if◌then◌else◌, str_eq, ◌++◌,
}
use openvpn_docker.Domain.{Addr, invalid, v4, v6, Address}
use Prim.Native.String.{compare}
use Prim.Native.Nat.{Ordering}

-- `==` on netip.Addr.
abbrev pub addr_eq : Addr → Addr → Bool
addr_eq invalid invalid = true
addr_eq (v4 n) (v4 m) = n == m
addr_eq (v6 n z) (v6 m w) = n == m && str_eq z w
addr_eq _ _ = false

abbrev pub same_address : Address → Address → Bool
same_address a b = addr_eq a.value b.value

abbrev pub has_address : List Address → Address → Bool
has_address [] a = false
has_address (b ∷ bs) a = same_address b a || has_address bs a

-- How often an address stands in a list.
abbrev pub count : Address → List Address → ℕ
count a [] = 0
count a (b ∷ bs) = (if same_address b a then 1 else 0) + count a bs

pub has_address-count : (a : Address) (xs : List Address) → has_address xs a ≡ ltb 0 (count a xs)
has_address-count a [] = refl
has_address-count a (b ∷ bs) = ground (arith, has_address-count a bs)

pub count-append :
    (a : Address) (xs ys : List Address) → count a (xs ++ ys) ≡ count a xs + count a ys
count-append a [] ys = omega arith
count-append a (x ∷ xs) ys = omega (arith, count-append a xs ys)

addr_eq_lem : (a b : Addr) → addr_eq a b ≡ true → a ≡ b
addr_eq_lem invalid invalid h = refl
addr_eq_lem (v4 n) (v4 m) h = ground arith
addr_eq_lem (v6 n z) (v6 m w) h = ground (arith, eq_iff z w)
addr_eq_lem invalid (v4 m) h = cc
addr_eq_lem invalid (v6 m w) h = cc
addr_eq_lem (v4 n) invalid h = cc
addr_eq_lem (v4 n) (v6 m w) h = cc
addr_eq_lem (v6 n z) invalid h = cc
addr_eq_lem (v6 n z) (v4 m) h = cc

addr_eq_refl : (a : Addr) → addr_eq a a ≡ true
addr_eq_refl invalid = refl
addr_eq_refl (v4 n) = ground arith
addr_eq_refl (v6 n z) = ground (arith, eq_iff z z)

pub same_address_iff : (a b : Address) → (same_address a b ≡ true) ↔ (a ≡ b)
same_address_iff a b =
    (λ h. λ i. record { value = addr_eq_lem a.value b.value h i }, λ p. rw p (addr_eq_refl b.value))

-- `<` on Go strings.
abbrev pub str_lt : String → String → Bool
str_lt s t = elim (compare s t) [ Ordering.lt ↦ true | _ ↦ false ]

-- sort.Slice with a strict order; the keys that the program sorts by are distinct.
module _ {ℓ} {A : Type ℓ} (less : A → A → Bool) where
  insert_sorted : A → List A → List A
  insert_sorted x [] = x ∷ []
  insert_sorted x (y ∷ ys) =
      let later = insert_sorted x ys in if less x y then x ∷ y ∷ ys else y ∷ later

  unfoldable pub sort_by : List A → List A
  unfolding insert_sorted
  sort_by [] = []
  sort_by (x ∷ xs) = insert_sorted x (sort_by xs)

module _ {ℓ} {A : Type ℓ} (weight : A → ℕ) where
  abbrev pub total : List A → ℕ
  total [] = 0
  total (x ∷ xs) = weight x + total xs

  pub total-append : (xs ys : List A) → total (xs ++ ys) ≡ total xs + total ys
  total-append [] ys = omega arith
  total-append (x ∷ xs) ys = omega (arith, total-append xs ys)

-- Sorting changes no sum over the items, so no count.
module _ {ℓ} {A : Type ℓ} (less : A → A → Bool) (weight : A → ℕ) where
  total-insert_sorted :
      (x : A) (xs : List A) → total weight (insert_sorted less x xs) ≡ weight x + total weight xs
  unfolding insert_sorted
  total-insert_sorted x [] = refl
  total-insert_sorted x (y ∷ ys) = ground (arith, total-insert_sorted x ys)

  pub total-sort_by : (xs : List A) → total weight (sort_by less xs) ≡ total weight xs
  unfolding sort_by
  total-sort_by [] = refl
  total-sort_by (x ∷ xs) = omega (arith, total-insert_sorted x (sort_by less xs), total-sort_by xs)
