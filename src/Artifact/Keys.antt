-- ===== src/Artifact/Keys.antt =====
-- The entries of an operation by their keys, of which no two are the same.
use openvpn_docker.Prelude.{
  ◌≡◌, refl, ap, sym, ◌∙◌, ◌⊎◌, inl, inr, false, some, List, [], ◌∷◌, ◌++◌, String, str_eq, eq_iff,
  eq_refl, arith, Bool-cases,
}
use openvpn_docker.Artifact.{Entry}
use openvpn_docker.Artifact.Stage.{is_staged}
use openvpn_docker.Artifact.Open.{find_entry}

abbrev pub In : Entry → List Entry → Type 0
In x [] = ⊥
In x (y ∷ ys) = (x ≡ y) ⊎ In x ys

abbrev pub HasDistinctKeys : List Entry → Type 0
HasDistinctKeys [] = Unit
HasDistinctKeys (e ∷ es) = ((x : Entry) → In x es → str_eq e.key x.key ≡ false) × HasDistinctKeys es

pub find_entry-In :
    (es : List Entry) → HasDistinctKeys es → (x : Entry) → In x es → find_entry x.key es ≡ some x
unfolding find_entry
find_entry-In [] d x i = elim i [ ]
find_entry-In (e ∷ es) (new, d) x (inl p) = rw p (rw (eq_refl e.key) refl)
find_entry-In (e ∷ es) (new, d) x (inr i) = rw (new x i) (find_entry-In es d x i)

pub str_eq_sym : (s t u : String) → u ≡ s → str_eq s t ≡ false → str_eq t u ≡ false
str_eq_sym s t u p h = rw p (ground (arith, eq_iff s t, eq_iff t s))

pub In-find_entry :
    (k : String) (es : List Entry) (e : Entry) → find_entry k es ≡ some e → In e es × (e.key ≡ k)
unfolding find_entry
In-find_entry k [] e h = absurd (cc)
In-find_entry k (x ∷ es) e h = elim (Bool-cases (str_eq x.key k)) [
  | inl p ↦
      let same : x ≡ e = cc (rw p at h) in
      (inl (sym same), ap (λ (y : Entry). y.key) (sym same) ∙ (eq_iff x.key k).0 p)
  | inr p ↦ let (i, q) = In-find_entry k es e (rw p at h) in (inr i, q)
]

pub In-snoc : (es : List Entry) (e x : Entry) → In x (es ++ e ∷ []) → In x es ⊎ (x ≡ e)
In-snoc [] e x (inl p) = inr p
In-snoc [] e x (inr i) = elim i [ ]
In-snoc (y ∷ es) e x (inl p) = inl (inl p)
In-snoc (y ∷ es) e x (inr i) = elim (In-snoc es e x i) [ inl j ↦ inl (inr j) | inr p ↦ inr p ]

pub snoc-HasDistinctKeys :
    (es : List Entry) (e : Entry)
    → HasDistinctKeys es
    → is_staged es e.key ≡ false
    → HasDistinctKeys (es ++ e ∷ [])
snoc-HasDistinctKeys [] e d h = ((λ x i. elim i [ ]), tt)
snoc-HasDistinctKeys (y ∷ es) e (new, d) h = (
  λ x i. elim (In-snoc es e x i) [ inl j ↦ new x j | inr p ↦ rw p (ground (arith, h)) ],
  snoc-HasDistinctKeys es e d (ground (arith, h)),
)
