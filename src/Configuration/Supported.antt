-- ===== src/Configuration/Supported.antt =====
-- That BuildPlan of internal/configuration/plan.go knows every derived artifact of a comparison.
use openvpn_docker.Configuration.{PlanError, AddressChange}
use openvpn_docker.Prelude.{
  String, ◌≡◌, refl, sym, ◌∙◌, ◌⊎◌, inl, inr, Bool, true, false, some, List, [], ◌∷◌, ◌++◌, arith,
  eq_iff, if◌then◌else◌, Bool-cases, str_eq, All, Result, ok, err, ◌>>=◌, Result-cases,
}
use openvpn_docker.Configuration.Build.{
  all_works, group_works, build_plan, BuildError, unsupported_group, Works, compare_failed,
  remap_failed, detail, or_remap,
}
use openvpn_docker.Workflow
use openvpn_docker.Workflow.{Texts, Field, is_listed, Change}
use openvpn_docker.Workflow.Effects.{any_change, goes_into, groups, Answers, build_plan-Answers}
use openvpn_docker.Store.{ClientState, InstanceState}
use openvpn_docker.Domain.Config.{Config}

-- One of the three groups that the switch has a case for.
abbrev Known : String → Type 0
Known u = (u ≡ "server_config") ⊎ ((u ≡ "client_profiles") ⊎ (u ≡ "ccd"))

listed-Known : (u : String) (gs : List String) → All Known gs → is_listed gs u ≡ true → Known u
listed-Known u [] k h = cc
listed-Known u (g ∷ gs) (k, ks) h = elim (Bool-cases (str_eq g u)) [
  | inl e ↦ let q = (eq_iff g u).0 e in rw (← q) k
  | inr e ↦ listed-Known u gs ks (rw e at h)
]

server-Known : All Known ("server_config" ∷ [])
server-Known = (inl refl, tt)

groups-Known : (f : Field) → All Known (groups f)
groups-Known Field.endpoint = (inr (inl refl), tt)
groups-Known Field.protocol = (inl refl, (inr (inl refl), tt))
groups-Known Field.family = (inl refl, (inr (inl refl), tt))
groups-Known Field.port = (inl refl, (inr (inl refl), tt))
groups-Known Field.client_to_client = server-Known
groups-Known Field.network = (inl refl, (inr (inr refl), tt))
groups-Known Field.dynamic_pool_size = (inl refl, (inr (inr refl), tt))
groups-Known Field.nat_enabled = tt
groups-Known Field.nat_interface = tt
groups-Known Field.redirect_gateway = server-Known
groups-Known Field.dns = server-Known
groups-Known Field.routes = server-Known
groups-Known Field.max_bytes = tt
groups-Known Field.backups = tt

goes_into-Known : (u : String) (cs : List Change) → any_change (goes_into u) cs ≡ true → Known u
goes_into-Known u [] h = cc
goes_into-Known u (c ∷ cs) h = elim (Bool-cases (goes_into u c.field)) [
  | inl e ↦ listed-Known u (groups c.field) (groups-Known c.field) e
  | inr e ↦ goes_into-Known u cs (rw e at h)
]

-- Every listed group is known.
Supported : List String → Type 0
Supported gs = (u : String) → is_listed gs u ≡ true → Known u

group_works-Known :
    (id : String) (clients : List ClientState) (g : String)
    → Known g
    → (w : Works) × (group_works id clients g ≡ ok w)
unfolding group_works
group_works-Known id clients g (inl e) = rw e (_, refl)
group_works-Known id clients g (inr (inl e)) = rw e (_, refl)
group_works-Known id clients g (inr (inr e)) = rw e (_, refl)

all_works-Known :
    (id : String) (clients : List ClientState) (gs : List String)
    → Supported gs
    → (w : Works) × (all_works id clients gs ≡ ok w)
unfolding all_works Supported
all_works-Known id clients [] k = (_, refl)
all_works-Known id clients (g ∷ gs) k =
    let (w, e) = group_works-Known id clients g (k g (here g gs)) in
    let (v, q) = all_works-Known id clients gs (λ u h. k u (there g gs u h)) in
    ((w.0 ++ v.0, w.1 ++ v.1), rw (e, q) refl)
  where
    here : (g : String) (gs : List String) → is_listed (g ∷ gs) g ≡ true
    here g gs = ground (arith, eq_iff g g)

    there :
        (g : String) (gs : List String) (u : String)
        → is_listed gs u ≡ true
        → is_listed (g ∷ gs) u ≡ true
    there g gs u h = ground arith

-- The outcome is not the error of the switch's default case.
abbrev pub NotUnsupported : {A : Type 0} → Result BuildError A → Type 0
NotUnsupported (err (unsupported_group g)) = ⊥
NotUnsupported _ = Unit

then-NotUnsupported :
    {A B : Type 0} (m : Result BuildError A) (f : A → Result BuildError B)
    → NotUnsupported m
    → ((a : A) → NotUnsupported (f a))
    → NotUnsupported (m >>= f)
then-NotUnsupported (ok a) f h k = k a
then-NotUnsupported (err (unsupported_group g)) f h k = h
then-NotUnsupported (err (compare_failed e)) f h k = tt
then-NotUnsupported (err (remap_failed e)) f h k = tt

remap-NotUnsupported :
    (b : Bool) (r : Result PlanError (List AddressChange))
    → NotUnsupported (if b then or_remap r else ok [])
remap-NotUnsupported true (ok c) = tt
remap-NotUnsupported true (err e) = tt
remap-NotUnsupported false r = tt

works-NotUnsupported :
    (id : String) (clients : List ClientState) (gs : List String)
    → Supported gs
    → NotUnsupported (all_works id clients gs)
works-NotUnsupported id clients gs k = let (w, e) = all_works-Known id clients gs k in rw e tt

Supported-plan : (p : Workflow.Plan) → Answers p → Supported p.impact.derived_artifacts
unfolding Supported
Supported-plan p a u h = goes_into-Known u p.changes (sym (a.agrees.artifacts u) ∙ h)

detail-NotUnsupported :
    (t : Texts) (i : InstanceState) (clients : List ClientState) (desired : Config)
    (p : Workflow.Plan)
    → Answers p
    → NotUnsupported (detail t i clients desired p)
detail-NotUnsupported t i clients desired p a = elim (Bool-cases p.in_sync) [
  | inl e ↦ rw e tt
  | inr e ↦ rw e (
      then-NotUnsupported _ _ (remap-NotUnsupported p.impact.address_remap _) (λ changes.
        then-NotUnsupported _ _ (works-NotUnsupported i.id _ _ (Supported-plan p a)) (λ works. tt)))
]

-- BuildPlan never reaches the default case of its switch: every derived artifact that a comparison of
-- two configurations lists is one that it plans, whatever the instance, the clients and the desired
-- configuration.
pub build_plan-NotUnsupported :
    (t : Texts) (i : InstanceState) (clients : List ClientState) (desired : Config)
    → NotUnsupported (build_plan t i clients desired)
unfolding build_plan
build_plan-NotUnsupported t i clients desired =
    elim (Result-cases (Workflow.build_plan t (some i.applied) desired)) [
      | inl (p, e) ↦ rw e (
          detail-NotUnsupported t i clients desired p
            (build_plan-Answers t (some i.applied) desired e))
      | inr (q, e) ↦ rw e tt
    ]
