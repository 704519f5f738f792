-- ===== src/Access/Scope.antt =====
-- backend/src/common/organization/location-scope.ts: the organization that a call acts for, and the
-- locations that its membership is restricted to. A location key is an `Option`: `none` is null,
-- undefined and the empty text, which the source tests by `!locationId`.
pub mod Agreement
mod Tests
use ledger_light_admin.Base.{
  ℕ, Bool, true, false, not, ◌&&◌, ◌||◌, Option, none, some, List, [], ◌∷◌, String, Uuid, Result,
  ok, err, bad_request, forbidden, ⊤, ◌==◌, if◌then◌else◌, ◌otherwise◌, any, length,
}
use ledger_light_admin.Access.Roles.{Role, owner}

-- `CurrentOrg`. A membership id of '' is `none`.
pub record CurrentOrg : Type 0 where
  pub membership_id : Option Uuid
  pub organization_id : Uuid
  pub role : Role
  pub has_all_locations : Bool
  pub allowed_location_ids : List Uuid

-- `OrganizationScope`: a text, an object with the one key `organizationId`, or an object with one
-- of the three other keys, which `hasResolvedLocationScope` looks for.
pub data OrganizationScope : Type 0 where
  plain identifier : Uuid → OrganizationScope
  current : CurrentOrg → OrganizationScope

unfoldable pub has_resolved_location_scope : OrganizationScope → Bool
has_resolved_location_scope (plain o) = false
has_resolved_location_scope (identifier o) = false
has_resolved_location_scope (current org) = true

-- `none` and `some`: the text, or the object as it came.
unfoldable pub to_organization_scope_input : OrganizationScope → OrganizationScope
to_organization_scope_input (plain o) = plain o
to_organization_scope_input (current org) = current org
to_organization_scope_input (identifier o) = plain o

abbrev pub unrestricted : Uuid → CurrentOrg
unrestricted o = record {
  membership_id = none;
  organization_id = o;
  role = owner;
  has_all_locations = true;
  allowed_location_ids = [];
}

-- The spread `...org` copies enumerable properties only, and the guard that makes the object
-- defines `membershipId` as one that is not.
unfoldable pub resolve_organization_scope : OrganizationScope → CurrentOrg
resolve_organization_scope (plain o) = unrestricted o
resolve_organization_scope (identifier o) = unrestricted o
resolve_organization_scope (current org) = record org { membership_id = none }

abbrev pub has_restricted_locations : CurrentOrg → Bool
has_restricted_locations org = not org.has_all_locations

-- `ids.includes(id)`
abbrev pub includes_id : List Uuid → Uuid → Bool
includes_id ids i = any (λ j. j == i) ids

-- The `options` of `ensureLocationAccessible`.
pub record LocationOptions : Type 0 where
  pub allow_unspecified : Option Bool
  pub missing_message : Option String
  pub forbidden_message : Option String

unfoldable pub ensure_location_accessible :
    CurrentOrg → Option Uuid → Option LocationOptions → Result ⊤
ensure_location_accessible org none options =
    if allows_unspecified options || length org.allowed_location_ids == 0
    then ok tt
    else err (bad_request (missing options otherwise "A location is required for this membership"))
  where
    allows_unspecified : Option LocationOptions → Bool
    allows_unspecified none = true
    allows_unspecified (some o) = o.allow_unspecified otherwise true

    missing : Option LocationOptions → Option String
    missing none = none
    missing (some o) = o.missing_message
ensure_location_accessible org (some location) options =
    if org.has_all_locations
    then ok tt
    else if not (includes_id org.allowed_location_ids location)
    then err
        (forbidden (refused options otherwise "You do not have access to the selected location"))
    else ok tt
  where
    refused : Option LocationOptions → Option String
    refused none = none
    refused (some o) = o.forbidden_message

-- The condition `getLocationScopeWhere` as the test that a row's column passes: a column that is
-- null is in no list.
unfoldable pub location_scope_where : CurrentOrg → Option Uuid → Bool
location_scope_where org column =
    if org.has_all_locations
    then true
    else elim column [ none ↦ false | some l ↦ includes_id org.allowed_location_ids l ]

-- `undefined` is `none`.
unfoldable pub get_location_scope_list : CurrentOrg → Option (List Uuid)
get_location_scope_list org = if org.has_all_locations then none else some org.allowed_location_ids
