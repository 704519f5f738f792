-- ===== src/Access/Scope/Tests.antt =====
use ledger_light_admin.Base.{
  ◌≡◌, refl, ◌↔◌, ◌⊎◌, true, false, none, some, [], ◌∷◌, ok, err, bad_request,
}
use ledger_light_admin.Access.Roles.{cashier}
use ledger_light_admin.Access.Scope.{
  CurrentOrg, LocationOptions, includes_id, ensure_location_accessible, location_scope_where,
}
use ledger_light_admin.Access.Scope.Agreement.{scope_agrees}

-- A cashier of organization 1 who is restricted to location 7.
abbrev clerk : CurrentOrg
clerk = record {
  membership_id = some 4;
  organization_id = 1;
  role = cashier;
  has_all_locations = false;
  allowed_location_ids = 7 ∷ [];
}

abbrev must_name : LocationOptions
must_name = record {
  allow_unspecified = some false;
  missing_message = none;
  forbidden_message = none;
}

unspecified :
    ensure_location_accessible clerk none (some must_name)
    ≡ err (bad_request "A location is required for this membership")
unfolding ensure_location_accessible
unspecified = refl

scope_agrees_example :
    ((ensure_location_accessible clerk (some 7) none ≡ ok tt)
      ↔ (location_scope_where clerk (some 7) ≡ true))
    × ((location_scope_where clerk (some 7) ≡ true)
        ↔ ((false ≡ true) ⊎ (includes_id (7 ∷ []) 7 ≡ true)))
    × ((location_scope_where clerk none ≡ true) ↔ (false ≡ true))
scope_agrees_example = scope_agrees clerk 7 none
