-- ===== src/Access/Scope/Agreement.antt =====
-- The two ways to enforce a location scope agree: the check of a location that the caller names and
-- the condition that is added to a query.
use ledger_light_admin.Base.{◌≡◌, refl, ◌↔◌, ◌⊎◌, true, Option, none, some, Uuid, ok, arith}
use ledger_light_admin.Access.Scope.{
  CurrentOrg, OrganizationScope, current, resolve_organization_scope, to_organization_scope_input,
  includes_id, LocationOptions, ensure_location_accessible, location_scope_where,
}

-- A named location passes the check exactly when the rows at that location pass the condition, and
-- that is when the membership has all locations or lists this one. A row without a location passes
-- only for a membership with all locations.
pub scope_agrees :
    (org : CurrentOrg) (location : Uuid) (options : Option LocationOptions)
    → ((ensure_location_accessible org (some location) options ≡ ok tt)
        ↔ (location_scope_where org (some location) ≡ true))
      × ((location_scope_where org (some location) ≡ true) ↔ (
          (org.has_all_locations ≡ true) ⊎ (includes_id org.allowed_location_ids location ≡ true)))
      × ((location_scope_where org none ≡ true) ↔ (org.has_all_locations ≡ true))
unfolding ensure_location_accessible location_scope_where
scope_agrees org location options = ground arith

-- To resolve a scope, or what a controller makes of it, again changes nothing.
resolve_idempotent :
    (s : OrganizationScope)
    → (resolve_organization_scope (current (resolve_organization_scope s))
        ≡ resolve_organization_scope s)
      × (resolve_organization_scope (to_organization_scope_input s) ≡ resolve_organization_scope s)
unfolding resolve_organization_scope to_organization_scope_input
resolve_idempotent (OrganizationScope.plain o) = (refl, refl)
resolve_idempotent (OrganizationScope.identifier o) = (refl, refl)
resolve_idempotent (current org) = (refl, refl)
