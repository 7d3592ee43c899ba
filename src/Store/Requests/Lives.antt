-- ===== src/Store/Requests/Lives.antt =====
-- The life of a client: the tables refine a machine that knows of each client only its status.
use openvpn_docker.Prelude.{
  ◌≤◌, String, ◌≡◌, refl, Bool, true, false, ◌&&◌, Option, none, some, List, [], ◌∷◌, ◌++◌, inl,
  inr, Bool-cases, Option-cases, if◌then◌else◌, str_eq, arith, eq_iff,
}
use openvpn_docker.Domain.Config.{ClientStatus}
use openvpn_docker.Store.Rows.{
  find_where, count_where, update_where, find-update, find_sound, find_only, find-append, find-none,
}
use openvpn_docker.Store.Tables.{ClientRow, has_id, is_source, is_current, status_eq}
use openvpn_docker.Store.Requests.{Request, create, rename, revoke, reissue, delete}

-- The status of the client with an id, if there is one.
abbrev status_of : Option ClientRow → Option ClientStatus
status_of none = none
status_of (some c) = some c.status

unfoldable pub life : String → List ClientRow → Option ClientStatus
unfolding has_id
life id cs = status_of (find_where (has_id id) cs)

abbrev pub is_status : ClientStatus → Option ClientStatus → Bool
is_status s none = false
is_status s (some r) = status_eq s r

abbrev pub is_absent : Option ClientStatus → Bool
is_absent none = true
is_absent (some s) = false

abbrev pub is_present : Option ClientStatus → Bool
is_present none = false
is_present (some s) = is_current s

-- The machine: when a request may be served, as far as the client `id` is concerned, and the status
-- that it leaves.
abbrev pub may : Request → String → Option ClientStatus → Bool
may (create _ _ c _ _) id l = if str_eq c.client.id id then is_absent l else true
may (rename _ _ r _ _) id l = if str_eq r.client_id id then is_present l else true
may (revoke c _) id l = if str_eq c.client_id id then is_status ClientStatus.active l else true
may (reissue c status _) id l =
    if str_eq c.client_id id then is_status status l && is_current status else true
may (delete c status) id l =
    if str_eq c.client_id id then is_status status l && is_current status else true
may _ id l = true

abbrev pub after : Request → String → Option ClientStatus → Option ClientStatus
after (create _ _ c _ _) id l = if str_eq c.client.id id then some c.client.status else l
after (revoke c _) id l = if str_eq c.client_id id then some ClientStatus.revoked else l
after (reissue c _ _) id l = if str_eq c.client_id id then some ClientStatus.active else l
after (delete c _) id l = if str_eq c.client_id id then some ClientStatus.deleted else l
after _ id l = l

-- An UPDATE of the one client with an id.
module _ (id i n : String) (q : ClientStatus → Bool) (f : ClientRow → ClientRow)
    (cs : List ClientRow) (few : (j : String) → count_where (has_id j) cs ≤ 1)
    (one : count_where (is_source id i n q) cs ≡ 1)
    (keeps : (c : ClientRow) → (f c).id ≡ c.id) where
  pub found : (c : ClientRow) × (find_where (has_id id) cs ≡ some c) × (is_source id i n q c ≡ true)
  unfolding has_id is_source
  found = find_only (has_id id) (is_source id i n q) cs (λ c h. ground arith) (few id) one

  pub life-update_same :
      (s : ClientStatus)
      → ((c : ClientRow) → (f c).status ≡ s)
      → life id (update_where (is_source id i n q) f cs) ≡ some s
  unfolding life has_id
  life-update_same s becomes =
      let (c, there, w) = found in
      rw (find-update (has_id id) (is_source id i n q) f cs (λ x. rw (keeps x) refl))
        (rw there (rw w (rw (becomes c) refl)))

  pub life-update_other :
      (j : String)
      → str_eq id j ≡ false
      → life j (update_where (is_source id i n q) f cs) ≡ life j cs
  unfolding life has_id is_source
  life-update_other j e =
      rw (find-update (has_id j) (is_source id i n q) f cs (λ x. rw (keeps x) refl))
        (elim (Option-cases (find_where (has_id j) cs)) [
          | inl none' ↦ rw none' refl
          | inr (c, there) ↦
              let named = find_sound (has_id j) cs {y = c} there in
              rw there (ground (arith, eq_iff c.id id, eq_iff c.id j, eq_iff id j, named))
        ])

  pub life-source : (c : ClientStatus) × (life id cs ≡ some c) × (q c ≡ true)
  unfolding life is_source
  life-source = let (c, there, w) = found in (c.status, rw there refl, ground arith)

pub life-absent :
    (id : String) (cs : List ClientRow)
    → count_where (has_id id) cs ≡ 0
    → is_absent (life id cs) ≡ true
unfolding life
life-absent id cs gone = rw (find-none (has_id id) cs gone) refl

pub life-added :
    (id : String) (cs : List ClientRow) (c : ClientRow)
    → count_where (has_id id) cs ≡ 0
    → str_eq c.id id ≡ true
    → life id (cs ++ c ∷ []) ≡ some c.status
unfolding life has_id
life-added id cs c gone q =
    rw (find-append (has_id id) cs c) (rw (find-none (has_id id) cs gone) (rw q refl))

pub life-added_other :
    (id : String) (cs : List ClientRow) (c : ClientRow)
    → str_eq c.id id ≡ false
    → life id (cs ++ c ∷ []) ≡ life id cs
unfolding life has_id
life-added_other id cs c q =
    rw (find-append (has_id id) cs c) (elim (Option-cases (find_where (has_id id) cs)) [
      | inl none' ↦ rw (none', q) refl
      | inr (d, there) ↦ rw there refl
    ])

-- An UPDATE that keeps every status.
pub life-kept :
    (id : String) (w : ClientRow → Bool) (f : ClientRow → ClientRow) (cs : List ClientRow)
    → ((c : ClientRow) → (f c).id ≡ c.id)
    → ((c : ClientRow) → (f c).status ≡ c.status)
    → life id (update_where w f cs) ≡ life id cs
unfolding life has_id
life-kept id w f cs keeps same =
    rw (find-update (has_id id) w f cs (λ x. rw (keeps x) refl))
      (elim (Option-cases (find_where (has_id id) cs)) [
        | inl none' ↦ rw none' refl
        | inr (c, there) ↦
            rw there
              (elim (Bool-cases (w c)) [ inl e ↦ rw e (rw (same c) refl) | inr e ↦ rw e refl ])
      ])
