-- ===== src/Access/Guards/Tests.antt =====
use ledger_light_admin.Base.{
  ◌≡◌, refl, ◌↔◌, ◌==◌, true, false, none, some, List, [], ◌∷◌, ok, err, forbidden, find,
}
use ledger_light_admin.Access.Permissions.{orders_read}
use ledger_light_admin.Access.Roles.{cashier}
use ledger_light_admin.Access.Scope.{CurrentOrg}
use ledger_light_admin.Access.Guards.{JwtMembership, organization_context, permissions_guard}
use ledger_light_admin.Access.Guards.Decision.{MayCall, acting_as, guards_let_through}

abbrev memberships : List JwtMembership
memberships =
    record {
      id = some 4;
      user_id = 9;
      organization_id = 1;
      role = cashier;
      has_all_locations = some false;
      allowed_location_ids = some (7 ∷ []);
    }
    ∷ []

abbrev org : CurrentOrg
org = record {
  membership_id = some 4;
  organization_id = 1;
  role = cashier;
  has_all_locations = false;
  allowed_location_ids = 7 ∷ [];
}

no_permission_declared :
    permissions_guard (some org) (some memberships) none (some [])
    ≡ err (forbidden "No permission declared for this route")
unfolding permissions_guard find
no_permission_declared = refl

guards_let_through_example :
    (organization_context (some 1) memberships ≡ ok org)
      × (permissions_guard (some org) (some memberships) none (some (orders_read ∷ [])) ≡ ok true)
    ↔ ((m : JwtMembership) × (some 1 ≡ some m.organization_id)
        × (find (λ (x : JwtMembership). x.organization_id == m.organization_id) memberships
            ≡ some m)
        × (org ≡ acting_as m)
        × MayCall m.role none (some (orders_read ∷ [])))
guards_let_through_example =
    guards_let_through (some 1) memberships none (some (orders_read ∷ [])) org
