-- ===== src/Auth/Tenancy.antt =====
-- Which organizations a caller gets to.
use freecloud.Prelude.{
  Bool, true, false, ◌&&◌, Bytes, eq_bytes, to_lower, trim_space, List, [], ◌∷◌, Option, none, some,
  is_some, any, All, ◌≡◌, refl, sym, ap, subst, ◌∙◌, ◌⊎◌, inl, inr, Bool-cases, Option-cases,
}
use freecloud.Auth.Roles.{
  super_admin, same_role, Claims, OrgContext, org_admin, Identity, Verdict, passes, denied,
}
use freecloud.Auth.Org.{
  Membership, Memberships, role_in, load_memberships, is_valid_org_id, default_org, in_org,
  org_step, as_system_admin, requested, unrequested, resolve_org, org_context,
}
use freecloud.Auth.Loaded.{is_member, load_memberships-All, role_in-All, load_memberships-finds}

-- Why a caller is in an org: a row of org_memberships gives the role there, or the caller is a
-- system admin, and the org exists or is the default one.
abbrev pub IsGranted :
    (exists_org : Bytes → Option Bool) → List Membership → Claims → OrgContext → Type 0
IsGranted exists_org rows c oc =
    (is_member c.sub oc.org_id oc.role rows ≡ true)
    ⊎ ((same_role c.role super_admin ≡ true)
        × (oc.role ≡ org_admin)
        × ((exists_org oc.org_id ≡ some true) ⊎ (oc.org_id ≡ default_org)))

-- A verdict that lets a request through has put it in an org that is granted.
abbrev IsGrantedBy :
    (exists_org : Bytes → Option Bool) → List Membership → Claims → Verdict → Type 0
IsGrantedBy exists_org rows c denied = Unit
IsGrantedBy exists_org rows c (passes out) =
    (out.claims ≡ some c)
    × ((oc : OrgContext) × (out.org ≡ some oc) × IsGranted exists_org rows c oc)

module _ (exists_org : Bytes → Option Bool) (c : Claims) (rows : List Membership) where
  in_org-granted :
      (org role : Bytes)
      → IsGranted exists_org rows c (record { org_id = org; role = role })
      → IsGrantedBy exists_org rows c (in_org c org role)
  in_org-granted org role g = (refl, (record { org_id = org; role = role }, refl, g))

  unrequested-granted :
      (ms : Memberships)
      → All (λ e. is_member c.sub e.0 e.1 rows ≡ true) ms
      → IsGrantedBy exists_org rows c (unrequested c ms)
  unfolding unrequested
  unrequested-granted [] h = elim (Bool-cases (same_role c.role super_admin)) [
    | inl super ↦ rw super (in_org-granted default_org org_admin (inr (super, refl, inr refl)))
    | inr other ↦ rw other tt
  ]
  unrequested-granted ((org, role) ∷ []) (p, h) = in_org-granted org role (inl p)
  unrequested-granted (m ∷ m' ∷ ms) h = tt

  as_system_admin-granted :
      (org : Bytes) (answer : Option Bool)
      → same_role c.role super_admin ≡ true
      → exists_org org ≡ answer
      → IsGrantedBy exists_org rows c (as_system_admin c org answer)
  unfolding as_system_admin
  as_system_admin-granted org (some true) super e =
      in_org-granted org org_admin (inr (super, refl, inl e))
  as_system_admin-granted org (some false) super e = tt
  as_system_admin-granted org none super e = tt

  requested-granted :
      (org : Bytes) (found : Option Bytes)
      → ((role : Bytes) → found ≡ some role → is_member c.sub org role rows ≡ true)
      → IsGrantedBy exists_org rows c (requested exists_org c org found)
  unfolding requested
  requested-granted org (some role) k = in_org-granted org role (inl (k role refl))
  requested-granted org none k = elim (Bool-cases (same_role c.role super_admin)) [
    | inl super ↦ rw super (as_system_admin-granted org (exists_org org) super refl)
    | inr other ↦ rw other tt
  ]

  resolve_org-granted :
      (wanted : Bytes) (ms : Memberships)
      → All (λ e. is_member c.sub e.0 e.1 rows ≡ true) ms
      → IsGrantedBy exists_org rows c (resolve_org exists_org c wanted ms)
  unfolding resolve_org
  resolve_org-granted [] ms h = unrequested-granted ms h
  resolve_org-granted (b ∷ bs) ms h = elim (Bool-cases (is_valid_org_id (b ∷ bs))) [
    | inl valid ↦ rw valid (
        requested-granted (b ∷ bs) (role_in (b ∷ bs) ms)
          (λ role e. role_in-All (λ x. is_member c.sub x.0 x.1 rows ≡ true) (b ∷ bs) role ms h e))
    | inr invalid ↦ rw invalid tt
  ]

  resolve_org-found :
      (org : Bytes) (ms : Memberships) (role : Bytes)
      → is_valid_org_id org ≡ true
      → role_in org ms ≡ some role
      → resolve_org exists_org c org ms ≡ in_org c org role
  unfolding resolve_org requested is_valid_org_id
  resolve_org-found [] ms role valid found = absurd cc
  resolve_org-found (b ∷ bs) ms role valid found = rw (valid, found) refl

  resolves :
      (header : Bytes) (ident : Identity)
      → ident.claims ≡ some c
      → ident.org ≡ none
      → org_context exists_org header (some rows) ident
        ≡ resolve_org exists_org c (to_lower (trim_space header)) (load_memberships c.sub rows)
  unfolding org_context org_step
  resolves header ident who nowhere = rw (who, nowhere) refl

  -- A caller without an org is let through only into one that is granted: the caller is a member of
  -- it, with the role that the row says, or a system admin in an org that exists or the default one.
  pub org_context-IsGranted :
      (header : Bytes) (ident out : Identity)
      → ident.claims ≡ some c
      → ident.org ≡ none
      → org_context exists_org header (some rows) ident ≡ passes out
      → (oc : OrgContext) × (out.org ≡ some oc) × IsGranted exists_org rows c oc
  org_context-IsGranted header ident out who nowhere e =
      let g =
        resolve_org-granted (to_lower (trim_space header)) (load_memberships c.sub rows)
          (load_memberships-All c.sub rows) in
      let resolved = resolves header ident who nowhere in
      (subst (IsGrantedBy exists_org rows c) (sym resolved ∙ e) g).1

  -- A member who asks for an org, in letters of either case and with blanks around it, gets into it,
  -- with a role that a row gives there.
  pub org_context-member :
      (header : Bytes) (ident : Identity)
      → ident.claims ≡ some c
      → ident.org ≡ none
      → is_valid_org_id (to_lower (trim_space header)) ≡ true
      → any
          (λ m.
            eq_bytes m.user_id c.sub && eq_bytes (to_lower m.org_id) (to_lower (trim_space header)))
          rows
        ≡ true
      → (role : Bytes) × (org_context exists_org header (some rows) ident
          ≡ in_org c (to_lower (trim_space header)) role)
        × (is_member c.sub (to_lower (trim_space header)) role rows ≡ true)
  org_context-member header ident who nowhere valid listed =
      let org = to_lower (trim_space header) in
      let ms = load_memberships c.sub rows in
      elim (Option-cases (role_in org ms)) [
        | inl absent ↦ absurd (
            let x : true ≡ false =
              sym (load_memberships-finds org c.sub rows listed) ∙ ap is_some absent in
            cc)
        | inr (role, found) ↦ (
          role,
          resolves header ident who nowhere ∙ resolve_org-found org ms role valid found,
          role_in-All (λ e. is_member c.sub e.0 e.1 rows ≡ true) org role ms
              (load_memberships-All c.sub rows) found,
        )
      ]
