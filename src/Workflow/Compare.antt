-- ===== src/Workflow/Compare.antt =====
-- What a plan of internal/config/workflow.go says of the two configurations it compares.
use openvpn_docker.Workflow.{
  FieldValue, texts_eq, Value, compare_fields, flag_eq, Change, is_nil, value_eq, Impact, text,
  is_changed, previous, number, later, flag, texts, note, config_fields, build_plan, View, Texts,
  AppliedSnapshot, Plan, compared, against, digest_of, validate, new_view, no_impact,
}
use openvpn_docker.Prelude.{
  ℕ, ◌-◌, ◌^◌, String, ◌≡◌, refl, sym, ap, ◌∙◌, ◌↔◌, inl, inr, Bool, true, false, Option, none,
  some, List, [], ◌∷◌, ◌++◌, arith, eq_iff, ◌==◌, Bool-cases, ok, >>=-eq-ok, ok-injective,
}
use openvpn_docker.Domain.Config.{Config}
use mathlib.Core.Path.{subst}

texts_eq_lem : (ss ts : List String) → texts_eq ss ts ≡ true → ss ≡ ts
texts_eq_lem [] [] h = refl
texts_eq_lem (s ∷ ss) (t ∷ ts) h = ground (arith, eq_iff s t, texts_eq_lem ss ts)
texts_eq_lem [] (t ∷ ts) h = cc
texts_eq_lem (s ∷ ss) [] h = cc

texts_eq_refl : (ss : List String) → texts_eq ss ss ≡ true
texts_eq_refl [] = refl
texts_eq_refl (s ∷ ss) = ground (arith, eq_iff s s, texts_eq_refl ss)

flag_eq_lem : (a b : Bool) → flag_eq a b ≡ true → a ≡ b
flag_eq_lem true true h = refl
flag_eq_lem true false h = cc
flag_eq_lem false true h = cc
flag_eq_lem false false h = refl

value_eq_lem : (v w : Value) → value_eq v w ≡ true → v ≡ w
value_eq_lem (text s) (text t) h = ground (arith, eq_iff s t)
value_eq_lem (number m) (number n) h = ground arith
value_eq_lem (flag a) (flag b) h = ap flag (flag_eq_lem a b h)
value_eq_lem (texts ss) (texts ts) h = ap texts (texts_eq_lem ss ts h)
value_eq_lem (text s) (number n) h = cc
value_eq_lem (text s) (flag b) h = cc
value_eq_lem (text s) (texts ts) h = cc
value_eq_lem (number m) (text t) h = cc
value_eq_lem (number m) (flag b) h = cc
value_eq_lem (number m) (texts ts) h = cc
value_eq_lem (flag a) (text t) h = cc
value_eq_lem (flag a) (number n) h = cc
value_eq_lem (flag a) (texts ts) h = cc
value_eq_lem (texts ss) (text t) h = cc
value_eq_lem (texts ss) (number n) h = cc
value_eq_lem (texts ss) (flag b) h = cc

value_eq_refl : (v : Value) → value_eq v v ≡ true
value_eq_refl (text s) = ground (arith, eq_iff s s)
value_eq_refl (number n) = ground arith
value_eq_refl (flag true) = refl
value_eq_refl (flag false) = refl
value_eq_refl (texts ss) = texts_eq_refl ss

-- The values of the first list are those of the second, in order.
Same : List FieldValue → List FieldValue → Type 0
Same bs [] = Unit
Same [] (f ∷ fs) = ⊥
Same (b ∷ bs) (f ∷ fs) = (b.value ≡ f.value) × Same bs fs

is_nil-grows : (cs : List Change) (c : Change) → is_nil (cs ++ c ∷ []) ≡ false
is_nil-grows [] c = refl
is_nil-grows (d ∷ ds) c = refl

-- A list of changes that is not empty stays so.
compare_fields-kept :
    (before : Option (List FieldValue)) (fs : List FieldValue) (noted : List Change × Impact)
    → is_nil noted.0 ≡ false
    → is_nil (compare_fields before fs noted).0 ≡ false
unfolding compare_fields
compare_fields-kept before [] noted h = h
compare_fields-kept before (f ∷ fs) (cs, i) h =
    elim (Bool-cases (is_changed (previous before) f.value)) [
      | inl e ↦ compare_fields-kept (later before) fs _ (rw e (is_nil-grows cs _))
      | inr e ↦ compare_fields-kept (later before) fs _ (rw e h)
    ]

compare_fields-nil :
    (bs fs : List FieldValue) (noted : List Change × Impact)
    → is_nil (compare_fields (some bs) fs noted).0 ≡ true
    → Same bs fs
unfolding compare_fields Same
compare_fields-nil bs [] noted h = tt
compare_fields-nil [] (f ∷ fs) (cs, i) h =
    let q : is_nil (compare_fields (some []) fs (note none f (cs, i))).0 ≡ false =
      compare_fields-kept (some []) fs (note none f (cs, i)) (is_nil-grows cs _) in
    cc
compare_fields-nil (b ∷ bs) (f ∷ fs) (cs, i) h = elim (Bool-cases (value_eq b.value f.value)) [
  | inl e ↦ (value_eq_lem b.value f.value e, compare_fields-nil bs fs _ h)
  | inr e ↦
      let n : is_nil (note (some b.value) f (cs, i)).0 ≡ false = rw e (is_nil-grows cs _) in
      let q : is_nil (compare_fields (some bs) fs (note (some b.value) f (cs, i))).0 ≡ false =
        compare_fields-kept (some bs) fs (note (some b.value) f (cs, i)) n in
      cc
]

compare_fields-Same :
    (bs fs : List FieldValue) (noted : List Change × Impact)
    → Same bs fs
    → compare_fields (some bs) fs noted ≡ noted
unfolding compare_fields Same
compare_fields-Same [] [] noted h = refl
compare_fields-Same (b ∷ bs) [] noted h = refl
compare_fields-Same [] (f ∷ fs) noted h = elim h [ ]
compare_fields-Same (b ∷ bs) (f ∷ fs) (cs, i) (e, h) =
    let q : value_eq b.value f.value ≡ true = rw e (value_eq_refl f.value) in
    rw q (compare_fields-Same bs fs (cs, i) h)

text-injective : {s t : String} → text s ≡ text t → s ≡ t
text-injective h = cc

number-injective : {m n : ℕ} → number m ≡ number n → m ≡ n
number-injective h = cc

flag-injective : {a b : Bool} → flag a ≡ flag b → a ≡ b
flag-injective h = cc

texts-injective : {ss ts : List String} → texts ss ≡ texts ts → ss ≡ ts
texts-injective h = cc

-- The fields determine a view.
config_fields-injective :
    (v w : View) → v.version ≡ w.version → Same (config_fields v) (config_fields w) → v ≡ w
unfolding config_fields Same
config_fields-injective v w e0
      (e1, (e2, (e3, (e4, (e5, (e6, (e7, (e8, (e9, (e10, (e11, (e12, (e13, (e14, _)))))))))))))) =
    λ i. record {
      version = e0 i;
      server = record {
        endpoint = text-injective e1 i;
        protocol = text-injective e2 i;
        family = text-injective e3 i;
        port = number-injective e4 i;
        client_to_client = flag-injective e5 i;
      };
      ipv4 = record {
        network = text-injective e6 i;
        dynamic_pool_size = number-injective e7 i;
        nat_enabled = flag-injective e8 i;
        nat_interface = text-injective e9 i;
        redirect_gateway = flag-injective e10 i;
        dns = texts-injective e11 i;
        routes = texts-injective e12 i;
      };
      logging = record { max_bytes = number-injective e13 i; backups = number-injective e14 i };
    }

config_fields-Same : (v w : View) → v ≡ w → Same (config_fields v) (config_fields w)
unfolding config_fields Same
config_fields-Same v w e =
    subst (λ x. Same (config_fields v) (config_fields x)) e
      (
        refl,
        (
          refl,
          (
            refl,
            (
              refl,
              (refl, (refl, (refl, (refl, (refl, (refl, (refl, (refl, (refl, (refl, tt)))))))))),
            ),
          ),
        ),
      )

against-ok :
    (t : Texts) (d : String) (s : AppliedSnapshot) (cs : List Change) (i : Impact) {p : Plan}
    → against d s (cs, i) ≡ ok p
    → (p.changes ≡ cs) × (p.in_sync ≡ is_nil cs)
against-ok t d s [] i h = let q = ok-injective h in rw (← q) (refl, refl)
against-ok t d s (c ∷ cs) i {p} h = elim (Bool-cases (s.revision == 2 ^ 64 - 1)) [
  | inl e ↦ cc (rw e at h)
  | inr e ↦ let r = ok-injective (rw e at h) in rw (← r) (refl, refl)
]

-- What a plan against a snapshot is made of.
build_plan-ok :
    (t : Texts) (s : AppliedSnapshot) (desired : Config) {p : Plan}
    → build_plan t (some s) desired ≡ ok p
    → (p.changes ≡ (compared t s desired).0) × (p.in_sync ≡ is_nil (compared t s desired).0)
unfolding build_plan
build_plan-ok t s desired h =
    let (d, _, h1) = >>=-eq-ok (digest_of t desired) _ h in
    let (_, _, h2) = >>=-eq-ok (validate t s) _ h1 in
    against-ok t d s (compared t s desired).0 (compared t s desired).1 h2

versions : (t : Texts) (a b : Config) → (new_view t a).version ≡ (new_view t b).version
unfolding new_view
versions t a b = refl

-- A plan against a snapshot says that the configuration is in sync exactly when the applied and the
-- desired configuration have the same view.
pub build_plan-in_sync :
    (t : Texts) (s : AppliedSnapshot) (desired : Config) {p : Plan}
    → build_plan t (some s) desired ≡ ok p
    → (p.in_sync ≡ true) ↔ (new_view t s.config ≡ new_view t desired)
build_plan-in_sync t s desired {p} h =
    let (_, e) = build_plan-ok t s desired h in
    let bs = config_fields (new_view t s.config) in
    let fs = config_fields (new_view t desired) in
    (
      λ q.
          config_fields-injective _ _ (versions t s.config desired)
            (compare_fields-nil bs fs ([], no_impact) (sym e ∙ q)),
      λ q.
          let r : is_nil (compared t s desired).0 ≡ true =
            ap (λ x. is_nil x.0)
              (compare_fields-Same bs fs ([], no_impact) (config_fields-Same _ _ q)) in
          e ∙ r,
    )
