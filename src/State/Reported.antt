-- ===== src/State/Reported.antt =====
-- What finish of internal/state/state.go makes of the issues of a report.
use openvpn_docker.Prelude.{
  ℕ, ◌+◌, ◌≤◌, ◌≡◌, refl, sym, ◌∙◌, ◌⊎◌, inl, inr, true, false, List, [], ◌∷◌, arith, ltb,
  if◌then◌else◌, Bool-cases, length, All,
}
use openvpn_docker.Domain.Sets.{total}
use openvpn_docker.State.{
  Classification, Severity, Issue, Report, rank, state_for_severity, classification_for, precedes,
  insert_issue, sort_issues, worst, finish,
}

-- Some issue of a list has a property.
abbrev pub Some : (Issue → Type 0) → List Issue → Type 0
Some P [] = ⊥
Some P (x ∷ xs) = P x ⊎ Some P xs

-- The issues stand by falling severity.
abbrev pub IsFalling : List Issue → Type 0
IsFalling [] = Unit
IsFalling (x ∷ []) = Unit
IsFalling (x ∷ y ∷ ys) =
    (classification_for y.severity ≤ classification_for x.severity) × IsFalling (y ∷ ys)

precedes-true :
    (a b : Issue)
    → precedes a b ≡ true
    → classification_for b.severity ≤ classification_for a.severity
unfolding precedes
precedes-true a b h = ground arith

precedes-false :
    (a b : Issue)
    → precedes a b ≡ false
    → classification_for a.severity ≤ classification_for b.severity
unfolding precedes
precedes-false a b h = ground arith

-- An issue that may stand before another list.
abbrev Heads : Issue → List Issue → Type 0
Heads x [] = Unit
Heads x (y ∷ ys) = classification_for y.severity ≤ classification_for x.severity

falling : (x : Issue) (xs : List Issue) → Heads x xs → IsFalling xs → IsFalling (x ∷ xs)
falling x [] h f = tt
falling x (y ∷ ys) h f = (h, f)

IsFalling-tail : (x : Issue) (xs : List Issue) → IsFalling (x ∷ xs) → Heads x xs × IsFalling xs
IsFalling-tail x [] f = (tt, tt)
IsFalling-tail x (y ∷ ys) f = (f.0, f.1)

insert-Heads :
    (z x : Issue) (xs : List Issue)
    → classification_for x.severity ≤ classification_for z.severity
    → Heads z xs
    → Heads z (insert_issue x xs)
unfolding insert_issue
insert-Heads z x [] h k = h
insert-Heads z x (y ∷ ys) h k = elim (Bool-cases (precedes y x)) [ inl e ↦ rw e k | inr e ↦ rw e h ]

insert-IsFalling : (x : Issue) (xs : List Issue) → IsFalling xs → IsFalling (insert_issue x xs)
unfolding insert_issue
insert-IsFalling x [] f = tt
insert-IsFalling x (y ∷ ys) f = elim (Bool-cases (precedes y x)) [
  | inl e ↦ rw e (
      falling y (insert_issue x ys)
        (insert-Heads y x ys (precedes-true y x e) (IsFalling-tail y ys f).0)
        (insert-IsFalling x ys (IsFalling-tail y ys f).1))
  | inr e ↦ rw e (precedes-false y x e, f)
]

sort-IsFalling : (xs : List Issue) → IsFalling (sort_issues xs)
unfolding sort_issues
sort-IsFalling [] = tt
sort-IsFalling (x ∷ xs) = insert-IsFalling x (sort_issues xs) (sort-IsFalling xs)

total-insert :
    (weight : Issue → ℕ) (x : Issue) (xs : List Issue)
    → total weight (insert_issue x xs) ≡ weight x + total weight xs
unfolding insert_issue
total-insert weight x [] = refl
total-insert weight x (y ∷ ys) = ground (arith, total-insert weight x ys)

total-sort :
    (weight : Issue → ℕ) (xs : List Issue) → total weight (sort_issues xs) ≡ total weight xs
unfolding sort_issues
total-sort weight [] = refl
total-sort weight (x ∷ xs) =
    omega (arith, total-insert weight x (sort_issues xs), total-sort weight xs)

length-total : (xs : List Issue) → length xs ≡ total (λ x. 1) xs
length-total [] = refl
length-total (x ∷ xs) = omega (arith, length-total xs)

insert-All :
    (P : Issue → Type 0) (x : Issue) (xs : List Issue) → All P (insert_issue x xs) → P x × All P xs
unfolding insert_issue
insert-All P x [] h = h
insert-All P x (y ∷ ys) h = elim (Bool-cases (precedes y x)) [
  | inl e ↦
      let (py, rest) : P y × All P (insert_issue x ys) = rw e at h in
      let (px, pys) = insert-All P x ys rest in (px, (py, pys))
  | inr e ↦ rw e at h
]

sort-All : (P : Issue → Type 0) (xs : List Issue) → All P (sort_issues xs) → All P xs
unfolding sort_issues
sort-All P [] h = tt
sort-All P (x ∷ xs) h =
    let (px, rest) = insert-All P x (sort_issues xs) h in (px, sort-All P xs rest)

past :
    (P : Issue → Type 0) (x y : Issue) (ys : List Issue)
    → (Some P (insert_issue x ys) → P x ⊎ Some P ys)
    → P y ⊎ Some P (insert_issue x ys)
    → P x ⊎ (P y ⊎ Some P ys)
past P x y ys step (inl py) = inr (inl py)
past P x y ys step (inr rest) = elim (step rest) [ inl px ↦ inl px | inr later ↦ inr (inr later) ]

insert-Some :
    (P : Issue → Type 0) (x : Issue) (xs : List Issue)
    → Some P (insert_issue x xs)
    → P x ⊎ Some P xs
unfolding insert_issue
insert-Some P x [] h = h
insert-Some P x (y ∷ ys) h = elim (Bool-cases (precedes y x)) [
  | inl e ↦ past P x y ys (insert-Some P x ys) (rw e at h)
  | inr e ↦ rw e at h
]

sort-Some : (P : Issue → Type 0) (xs : List Issue) → Some P (sort_issues xs) → Some P xs
unfolding sort_issues
sort-Some P [] h = h
sort-Some P (x ∷ xs) h = elim (insert-Some P x (sort_issues xs) h) [
  | inl px ↦ inl px
  | inr rest ↦ inr (sort-Some P xs rest)
]

abbrev raise : Classification → Issue → Classification
raise s i =
    if ltb (rank s) (classification_for i.severity) then state_for_severity i.severity else s

raise-le :
    (s : Classification) (i : Issue)
    → (rank s ≤ rank (raise s i)) × (classification_for i.severity ≤ rank (raise s i))
raise-le s i = elim (Bool-cases (ltb (rank s) (classification_for i.severity))) [
  | inl e ↦ rw e (ground arith)
  | inr e ↦ rw e (ground arith)
]

worst-le :
    (s : Classification) (xs : List Issue)
    → (rank s ≤ rank (worst s xs)) × All (λ i. classification_for i.severity ≤ rank (worst s xs)) xs
unfolding worst
worst-le s [] = (omega arith, tt)
worst-le s (x ∷ xs) =
    let (low, rest) = worst-le (raise s x) xs in
    let (a, b) = raise-le s x in (omega arith, (omega arith, rest))

-- The state comes from an issue, or it is the one at the start.
worst-Some :
    (s : Classification) (xs : List Issue)
    → (worst s xs ≡ s) ⊎ Some (λ i. state_for_severity i.severity ≡ worst s xs) xs
unfolding worst
worst-Some s [] = inl refl
worst-Some s (x ∷ xs) = elim (worst-Some (raise s x) xs) [
  | inr later ↦ inr (inr later)
  | inl same ↦ elim (Bool-cases (ltb (rank s) (classification_for x.severity))) [
    | inl e ↦
        let up : raise s x ≡ state_for_severity x.severity = rw e refl in
        inr (inl (sym (same ∙ up)))
    | inr e ↦ let stay : raise s x ≡ s = rw e refl in inl (same ∙ stay)
  ]
]

-- A finished report has the same issues in the order of falling severity, each as often, with their
-- number; its state ranks as high as each of the issues; and it is the state of one of them, or
-- healthy.
pub finish_reports :
    (r : Report)
    → ((weight : Issue → ℕ) → total weight (finish r).issues ≡ total weight r.issues)
      × IsFalling (finish r).issues
      × ((finish r).issue_count ≡ length r.issues)
      × All (λ i. classification_for i.severity ≤ rank (finish r).state) r.issues
      × (((finish r).state ≡ Classification.healthy)
          ⊎ Some (λ i. state_for_severity i.severity ≡ (finish r).state) r.issues)
unfolding finish
finish_reports r = (
  λ weight. total-sort weight r.issues,
  sort-IsFalling r.issues,
  length-total (sort_issues r.issues) ∙ total-sort (λ x. 1) r.issues ∙ sym (length-total r.issues),
  sort-All _ r.issues (worst-le Classification.healthy (sort_issues r.issues)).1,
  elim (worst-Some Classification.healthy (sort_issues r.issues)) [
    | inl same ↦ inl same
    | inr one ↦ inr (sort-Some _ r.issues one)
  ],
)

-- Only a report without issues is healthy.
pub finish-healthy : (r : Report) → (finish r).state ≡ Classification.healthy → r.issues ≡ []
finish-healthy r h = no_issues r.issues (rw h at ((finish_reports r).3))
  where
    no_issues :
        (xs : List Issue)
        → All (λ i. classification_for i.severity ≤ rank Classification.healthy) xs
        → xs ≡ []
    no_issues [] a = refl
    no_issues (x ∷ xs) a = absurd (impossible x.severity a.0)
      where
        impossible : (s : Severity) → classification_for s ≤ 0 → ⊥
        impossible s q = ground arith
