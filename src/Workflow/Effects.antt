-- ===== src/Workflow/Effects.antt =====
-- What the impact of a plan of internal/config/workflow.go says of the listed changes.
use openvpn_docker.Workflow.{
  Field, is_listed, apply_impact, Change, add_artifact, Impact, Value, Plan, compare_fields,
  FieldValue, finish, later, note, is_changed, previous, no_impact, build_plan, Texts,
  AppliedSnapshot, digest_of, config_fields, new_view, validate, against,
}
use openvpn_docker.Prelude.{
  ℕ, ◌+◌, ◌-◌, ◌^◌, String, ◌≡◌, refl, ◌∙◌, inl, inr, Bool, true, false, not, ◌||◌, Option, none,
  some, List, [], ◌∷◌, ◌++◌, arith, eq_iff, ◌==◌, Bool-cases, str_eq, ok, >>=-eq-ok, ok-injective,
}
use openvpn_docker.Domain.Config.{Config}

-- Some listed change is to one of the fields.
abbrev pub any_change : (Field → Bool) → List Change → Bool
any_change P [] = false
any_change P (c ∷ cs) = P c.field || any_change P cs

-- The fields for which applyImpact sets AddressRemap, FirewallReconcile and ProfileRedistribution.
abbrev pub moves : Field → Bool
moves Field.network = true
moves Field.dynamic_pool_size = true
moves _ = false

abbrev pub filters : Field → Bool
filters Field.network = true
filters Field.dynamic_pool_size = true
filters Field.nat_enabled = true
filters Field.nat_interface = true
filters Field.redirect_gateway = true
filters Field.routes = true
filters _ = false

abbrev pub connects : Field → Bool
connects Field.endpoint = true
connects Field.protocol = true
connects Field.family = true
connects Field.port = true
connects _ = false

-- The groups of artifacts that applyImpact adds for a field. They are not all that the field goes
-- into: with the family auto, the server's transport also depends on the endpoint.
abbrev pub groups : Field → List String
groups Field.endpoint = "client_profiles" ∷ []
groups Field.protocol = "server_config" ∷ "client_profiles" ∷ []
groups Field.family = "server_config" ∷ "client_profiles" ∷ []
groups Field.port = "server_config" ∷ "client_profiles" ∷ []
groups Field.network = "server_config" ∷ "ccd" ∷ []
groups Field.dynamic_pool_size = "server_config" ∷ "ccd" ∷ []
groups Field.client_to_client = "server_config" ∷ []
groups Field.redirect_gateway = "server_config" ∷ []
groups Field.dns = "server_config" ∷ []
groups Field.routes = "server_config" ∷ []
groups _ = []

abbrev pub goes_into : String → Field → Bool
goes_into u f = is_listed (groups f) u

-- An impact answers the changes.
pub record Agrees (cs : List Change) (i : Impact) : Type 0 where
  pub remap : i.address_remap ≡ any_change moves cs
  pub firewall : i.firewall_reconcile ≡ any_change filters cs
  pub profiles : i.profile_redistribution ≡ any_change connects cs
  pub artifacts : (u : String) → is_listed i.derived_artifacts u ≡ any_change (goes_into u) cs

any_change-append :
    (P : Field → Bool) (cs : List Change) (c : Change)
    → any_change P (cs ++ c ∷ []) ≡ any_change P cs || P c.field
any_change-append P [] c = ground arith
any_change-append P (d ∷ ds) c = ground (arith, any_change-append P ds c)

is_listed-append :
    (l : List String) (s u : String) → is_listed (l ++ s ∷ []) u ≡ is_listed l u || str_eq s u
is_listed-append [] s u = ground arith
is_listed-append (t ∷ l) s u = ground (arith, is_listed-append l s u)

is_listed_self :
    (l : List String) (s u : String)
    → is_listed l s ≡ true
    → str_eq s u ≡ true
    → is_listed l u ≡ true
is_listed_self l s u h e = let q = (eq_iff s u).0 e in rw (← q) h

is_listed-add_artifact :
    (l : List String) (s u : String) → is_listed (add_artifact s l) u ≡ is_listed l u || str_eq s u
is_listed-add_artifact l s u = ground (arith, is_listed-append l s u, is_listed_self l s u)

add_all : List String → List String → List String
add_all [] l = l
add_all (g ∷ gs) l = add_all gs (add_artifact g l)

is_listed-add_all :
    (gs l : List String) (u : String) → is_listed (add_all gs l) u ≡ is_listed l u || is_listed gs u
unfolding add_all
is_listed-add_all [] l u = ground arith
is_listed-add_all (g ∷ gs) l u =
    ground (arith, is_listed-add_all gs (add_artifact g l) u, is_listed-add_artifact l g u)

derived_step :
    (i : Impact) (f : Field)
    → (apply_impact i f).derived_artifacts ≡ add_all (groups f) i.derived_artifacts
unfolding apply_impact add_all
derived_step i Field.endpoint = refl
derived_step i Field.protocol = refl
derived_step i Field.family = refl
derived_step i Field.port = refl
derived_step i Field.client_to_client = refl
derived_step i Field.network = refl
derived_step i Field.dynamic_pool_size = refl
derived_step i Field.nat_enabled = refl
derived_step i Field.nat_interface = refl
derived_step i Field.redirect_gateway = refl
derived_step i Field.dns = refl
derived_step i Field.routes = refl
derived_step i Field.max_bytes = refl
derived_step i Field.backups = refl

remap_step :
    (i : Impact) (f : Field) → (apply_impact i f).address_remap ≡ i.address_remap || moves f
unfolding apply_impact
remap_step i Field.endpoint = ground arith
remap_step i Field.protocol = ground arith
remap_step i Field.family = ground arith
remap_step i Field.port = ground arith
remap_step i Field.client_to_client = ground arith
remap_step i Field.network = ground arith
remap_step i Field.dynamic_pool_size = ground arith
remap_step i Field.nat_enabled = ground arith
remap_step i Field.nat_interface = ground arith
remap_step i Field.redirect_gateway = ground arith
remap_step i Field.dns = ground arith
remap_step i Field.routes = ground arith
remap_step i Field.max_bytes = ground arith
remap_step i Field.backups = ground arith

firewall_step :
    (i : Impact) (f : Field)
    → (apply_impact i f).firewall_reconcile ≡ i.firewall_reconcile || filters f
unfolding apply_impact
firewall_step i Field.endpoint = ground arith
firewall_step i Field.protocol = ground arith
firewall_step i Field.family = ground arith
firewall_step i Field.port = ground arith
firewall_step i Field.client_to_client = ground arith
firewall_step i Field.network = ground arith
firewall_step i Field.dynamic_pool_size = ground arith
firewall_step i Field.nat_enabled = ground arith
firewall_step i Field.nat_interface = ground arith
firewall_step i Field.redirect_gateway = ground arith
firewall_step i Field.dns = ground arith
firewall_step i Field.routes = ground arith
firewall_step i Field.max_bytes = ground arith
firewall_step i Field.backups = ground arith

profiles_step :
    (i : Impact) (f : Field)
    → (apply_impact i f).profile_redistribution ≡ i.profile_redistribution || connects f
unfolding apply_impact
profiles_step i Field.endpoint = ground arith
profiles_step i Field.protocol = ground arith
profiles_step i Field.family = ground arith
profiles_step i Field.port = ground arith
profiles_step i Field.client_to_client = ground arith
profiles_step i Field.network = ground arith
profiles_step i Field.dynamic_pool_size = ground arith
profiles_step i Field.nat_enabled = ground arith
profiles_step i Field.nat_interface = ground arith
profiles_step i Field.redirect_gateway = ground arith
profiles_step i Field.dns = ground arith
profiles_step i Field.routes = ground arith
profiles_step i Field.max_bytes = ground arith
profiles_step i Field.backups = ground arith

-- A change of a flag and a listed change go together.
together :
    (P : Field → Bool) (cs : List Change) (c : Change) (now before : Bool)
    → now ≡ before || P c.field
    → before ≡ any_change P cs
    → now ≡ any_change P (cs ++ c ∷ [])
together P cs c now before h k = rw (any_change-append P cs c) (rw (← k) h)

Agrees-note :
    (old : Option Value) (f : FieldValue) (cs : List Change) (i : Impact)
    → Agrees cs i
    → Agrees (note old f (cs, i)).0 (note old f (cs, i)).1
Agrees-note old f cs i h = elim (Bool-cases (is_changed old f.value)) [
  | inr e ↦ rw e h
  | inl e ↦ rw e record {
    remap = together moves cs _ _ _ (remap_step i f.name) h.remap;
    firewall = together filters cs _ _ _ (firewall_step i f.name) h.firewall;
    profiles = together connects cs _ _ _ (profiles_step i f.name) h.profiles;
    artifacts = λ u.
        together (goes_into u) cs _ _ _
          (rw (derived_step i f.name) (is_listed-add_all (groups f.name) i.derived_artifacts u))
          (h.artifacts u);
  }
]

Agrees-compare_fields :
    (before : Option (List FieldValue)) (fs : List FieldValue) (cs : List Change) (i : Impact)
    → Agrees cs i
    → Agrees (compare_fields before fs (cs, i)).0 (compare_fields before fs (cs, i)).1
unfolding compare_fields
Agrees-compare_fields before [] cs i h = h
Agrees-compare_fields before (f ∷ fs) cs i h =
    Agrees-compare_fields (later before) fs _ _ (Agrees-note (previous before) f cs i h)

restart_step : (i : Impact) (f : Field) → (apply_impact i f).restart_required ≡ i.restart_required
unfolding apply_impact
restart_step i Field.endpoint = refl
restart_step i Field.protocol = refl
restart_step i Field.family = refl
restart_step i Field.port = refl
restart_step i Field.client_to_client = refl
restart_step i Field.network = refl
restart_step i Field.dynamic_pool_size = refl
restart_step i Field.nat_enabled = refl
restart_step i Field.nat_interface = refl
restart_step i Field.redirect_gateway = refl
restart_step i Field.dns = refl
restart_step i Field.routes = refl
restart_step i Field.max_bytes = refl
restart_step i Field.backups = refl

restart-note :
    (old : Option Value) (f : FieldValue) (cs : List Change) (i : Impact)
    → (note old f (cs, i)).1.restart_required ≡ i.restart_required
restart-note old f cs i = elim (Bool-cases (is_changed old f.value)) [
  | inl e ↦ rw e (restart_step i f.name)
  | inr e ↦ rw e refl
]

restart-compare_fields :
    (before : Option (List FieldValue)) (fs : List FieldValue) (cs : List Change) (i : Impact)
    → (compare_fields before fs (cs, i)).1.restart_required ≡ i.restart_required
unfolding compare_fields
restart-compare_fields before [] cs i = refl
restart-compare_fields before (f ∷ fs) cs i =
    restart-compare_fields (later before) fs _ _ ∙ restart-note (previous before) f cs i

-- What a plan owes its reader.
pub record Answers (p : Plan) : Type 0 where
  pub restart : p.impact.restart_required ≡ not p.in_sync
  pub agrees : Agrees p.changes p.impact

finish-Answers :
    (initial : Bool) (current target : ℕ) (digest desired : String) (cs : List Change) (i : Impact)
    → i.restart_required ≡ false
    → Agrees cs i
    → Answers (finish initial current target digest desired (cs, i))
finish-Answers initial current target digest desired [] i r h = record { restart = r; agrees = h }
finish-Answers initial current target digest desired (c ∷ cs) i r h = record {
  restart = refl;
  agrees = record {
    remap = h.remap;
    firewall = h.firewall;
    profiles = h.profiles;
    artifacts = h.artifacts;
  };
}

against-Answers :
    (d : String) (s : AppliedSnapshot) (cs : List Change) (i : Impact) {p : Plan}
    → i.restart_required ≡ false
    → Agrees cs i
    → against d s (cs, i) ≡ ok p
    → Answers p
against-Answers d s [] i r a h =
    let e = ok-injective h in
    rw (← e) (finish-Answers false s.revision s.revision s.digest d [] i r a)
against-Answers d s (c ∷ cs) i r a h = elim (Bool-cases (s.revision == 2 ^ 64 - 1)) [
  | inl full ↦ cc (rw full at h)
  | inr free ↦
      let e = ok-injective (rw free at h) in
      rw (← e) (finish-Answers false s.revision (s.revision + 1) s.digest d (c ∷ cs) i r a)
]

no_impact-Agrees : Agrees [] no_impact
no_impact-Agrees = record { remap = refl; firewall = refl; profiles = refl; artifacts = λ u. refl }

-- A plan, initial or against a snapshot, requires a restart exactly when it is not in sync, and its
-- flags and groups are those of its listed changes together.
pub build_plan-Answers :
    (t : Texts) (applied : Option AppliedSnapshot) (desired : Config) {p : Plan}
    → build_plan t applied desired ≡ ok p
    → Answers p
unfolding build_plan
build_plan-Answers t none desired h =
    let (d, _, h1) = >>=-eq-ok (digest_of t desired) _ h in
    let e = ok-injective h1 in
    let fs = config_fields (new_view t desired) in
    rw (← e) (
      finish-Answers true 0 1 "" d _ _ (restart-compare_fields none fs [] no_impact)
        (Agrees-compare_fields none fs [] no_impact no_impact-Agrees))
build_plan-Answers t (some s) desired h =
    let (d, _, h1) = >>=-eq-ok (digest_of t desired) _ h in
    let (_, _, h2) = >>=-eq-ok (validate t s) _ h1 in
    let bs = some (config_fields (new_view t s.config)) in
    let fs = config_fields (new_view t desired) in
    against-Answers d s _ _ (restart-compare_fields bs fs [] no_impact)
      (Agrees-compare_fields bs fs [] no_impact no_impact-Agrees) h2
