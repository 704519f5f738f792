-- ===== src/Access/Guards/Decision.antt =====
-- What the chain of guards lets through.
use ledger_light_admin.Base.{
  ◌≡◌, refl, ◌↔◌, ◌⊎◌, inl, inr, Bool, true, false, Option, none, some, List, [], ◌∷◌, Uuid, ok,
  arith, any, all, find, find_holds, ap, sym, ◌∙◌, ◌==◌, ==_iff, ◌otherwise◌, Option-cases,
  Bool-cases,
}
use ledger_light_admin.Access.Permissions.{Permission, wildcard_permission}
use ledger_light_admin.Access.Roles.{Role, role_permissions, includes, has_permission}
use ledger_light_admin.Access.Scope.{CurrentOrg}
use ledger_light_admin.Access.Guards.{
  JwtMembership, belongs_to, organization_context, is_declared, declared, check_role,
  permissions_guard,
}

-- A role may call a route that requires all of `required` and one of `required_any`; a list that
-- is missing or empty requires nothing, but one of the two must be there.
pub record MayCall (role : Role) (required required_any : Option (List Permission)) : Type 0 where
  pub declares : (is_declared required ≡ true) ⊎ (is_declared required_any ≡ true)
  pub all_of : all (has_permission role) (declared required) ≡ true
  pub any_of :
      (is_declared required_any ≡ false)
      ⊎ (any (has_permission role) (declared required_any) ≡ true)

-- With the wildcard a role has every permission; without it, those of its list.
module _ (role : Role) where
  all_of_wildcard :
      (ps : List Permission)
      → includes (role_permissions role) wildcard_permission ≡ true
      → all (has_permission role) ps ≡ true
  unfolding has_permission
  all_of_wildcard [] w = refl
  all_of_wildcard (p ∷ ps) w = ground (arith, all_of_wildcard ps)

  all_of_list :
      (ps : List Permission)
      → includes (role_permissions role) wildcard_permission ≡ false
      → all (has_permission role) ps ≡ all (includes (role_permissions role)) ps
  unfolding has_permission
  all_of_list [] w = refl
  all_of_list (p ∷ ps) w = ground (arith, all_of_list ps)

  any_of_list :
      (ps : List Permission)
      → includes (role_permissions role) wildcard_permission ≡ false
      → any (has_permission role) ps ≡ any (includes (role_permissions role)) ps
  unfolding has_permission
  any_of_list [] w = refl
  any_of_list (p ∷ ps) w = ground (arith, any_of_list ps)

  any_of_wildcard :
      (ps : Option (List Permission))
      → includes (role_permissions role) wildcard_permission ≡ true
      → any (has_permission role) (declared ps) ≡ is_declared ps
  unfolding has_permission
  any_of_wildcard none w = refl
  any_of_wildcard (some []) w = refl
  any_of_wildcard (some (p ∷ ps)) w = ground arith

check_role_iff :
    (role : Role) (required required_any : Option (List Permission))
    → ((is_declared required ≡ true) ⊎ (is_declared required_any ≡ true))
        × (check_role (role_permissions role) required required_any ≡ ok true)
      ↔ MayCall role required required_any
unfolding check_role
check_role_iff role required required_any =
    elim (Bool-cases (includes (role_permissions role) wildcard_permission)) [
      | inl w ↦
          ground
            (arith, all_of_wildcard role (declared required) w, any_of_wildcard role required_any w)
      | inr w ↦ ground (
        arith,
        all_of_list role (declared required) w,
        any_of_list role (declared required_any) w,
        all_declared required (includes (role_permissions role)),
      )
    ]
  where
    all_declared :
        (ps : Option (List Permission)) (f : Permission → Bool)
        → is_declared ps ≡ false
        → all f (declared ps) ≡ true
    all_declared none f e = refl
    all_declared (some []) f e = refl
    all_declared (some (p ∷ ps)) f e = cc

-- What the membership `m` of a token makes of a request for its organization.
abbrev pub acting_as : JwtMembership → CurrentOrg
acting_as m = record {
  membership_id = m.id;
  organization_id = m.organization_id;
  role = m.role;
  has_all_locations = m.has_all_locations otherwise true;
  allowed_location_ids = m.allowed_location_ids otherwise [];
}

organization_context_iff :
    (header : Option Uuid) (memberships : List JwtMembership) (org : CurrentOrg)
    → (organization_context header memberships ≡ ok org) ↔ (
        (m : JwtMembership) × (header ≡ some m.organization_id)
        × (find (belongs_to m.organization_id) memberships ≡ some m)
        × (org ≡ acting_as m))
unfolding organization_context
organization_context_iff header memberships org = (forth header, back)
  where
    forth :
        (header : Option Uuid)
        → organization_context header memberships ≡ ok org
        → (m : JwtMembership) × (header ≡ some m.organization_id)
          × (find (belongs_to m.organization_id) memberships ≡ some m)
          × (org ≡ acting_as m)
    forth none h = cc
    forth (some i) h = elim (Option-cases (find (belongs_to i) memberships)) [
      | inl unknown ↦ cc (rw (unknown, organization_context) at h)
      | inr (m, found) ↦
          let mine : m.organization_id ≡ i =
            (==_iff _ _).0 (find_holds (belongs_to i) memberships m found) in
          (
            m,
            ap some (sym mine),
            ap (λ k. find (belongs_to k) memberships) mine ∙ found,
            ground (arith, found, mine),
          )
    ]

    back :
        ((m : JwtMembership) × (header ≡ some m.organization_id)
          × (find (belongs_to m.organization_id) memberships ≡ some m)
          × (org ≡ acting_as m))
        → organization_context header memberships ≡ ok org
    back (m, named, found, same) = rw (named, same, found, organization_context) refl

-- The two guards in their order let a request through exactly when the header names an
-- organization that the token has a membership for, and the role of the first such membership may
-- call the route. The organization of the request is then that one, with the role and the locations
-- of the membership.
pub guards_let_through :
    (header : Option Uuid) (memberships : List JwtMembership)
    (required required_any : Option (List Permission)) (org : CurrentOrg)
    → (organization_context header memberships ≡ ok org)
        × (permissions_guard (some org) (some memberships) required required_any ≡ ok true)
      ↔ ((m : JwtMembership) × (header ≡ some m.organization_id)
          × (find (λ (x : JwtMembership). x.organization_id == m.organization_id) memberships
              ≡ some m)
          × (org ≡ acting_as m)
          × MayCall m.role required required_any)
unfolding permissions_guard
guards_let_through header memberships required required_any org = (
  λ (chosen, allowed).
      let (m, named, found, same) = (organization_context_iff header memberships org).0 chosen in
      (m, named, found, same, (guard m found).0 (rw same at allowed)),
  λ (m, named, found, same, may). (
    (organization_context_iff header memberships org).1 (m, named, found, same),
    rw same ((guard m found).1 may),
  ),
)
  where
    guard :
        (m : JwtMembership)
        → find (belongs_to m.organization_id) memberships ≡ some m
        → (permissions_guard (some (acting_as m)) (some memberships) required required_any
            ≡ ok true)
          ↔ MayCall m.role required required_any
    guard m found = ground (arith, found, check_role_iff m.role required required_any)
