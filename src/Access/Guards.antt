-- ===== src/Access/Guards.antt =====
-- The guards that run before a handler, in the order of `OrgProtected`: backend/src/common/guards,
-- org-context.guard.ts and permissions.guard.ts. The reflector's metadata are arguments: `none`
-- where a handler and its class declare nothing under a key.
pub mod Decision
mod Tests
use ledger_light_admin.Base.{
  ℕ, Bool, true, false, not, ◌&&◌, ◌||◌, Option, none, some, List, [], ◌∷◌, String, Uuid, Result,
  ok, err, forbidden, ◌==◌, if◌then◌else◌, ◌otherwise◌, any, all, find, length,
}
use ledger_light_admin.Access.Permissions.{Permission, wildcard_permission}
use ledger_light_admin.Access.Roles.{Role, role_permissions, includes}
use ledger_light_admin.Access.Scope.{CurrentOrg}

-- `JwtMembership`. The guard has defaults for three fields that a token may lack.
pub record JwtMembership : Type 0 where
  pub id : Option Uuid
  pub user_id : Uuid
  pub organization_id : Uuid
  pub role : Role
  pub has_all_locations : Option Bool
  pub allowed_location_ids : Option (List Uuid)

abbrev pub belongs_to : Uuid → JwtMembership → Bool
belongs_to org m = m.organization_id == org

-- `OrganizationContextGuard.canActivate`: the organization that it puts on the request.
unfoldable pub organization_context : Option Uuid → List JwtMembership → Result CurrentOrg
organization_context none memberships = err (forbidden "X-Organization-Id header is required")
organization_context (some org_id) memberships = elim (find (belongs_to org_id) memberships) [
  | none ↦ err (forbidden "User does not have access to the specified organization")
  | some m ↦ ok (record {
    membership_id = m.id;
    organization_id = org_id;
    role = m.role;
    has_all_locations = m.has_all_locations otherwise true;
    allowed_location_ids = m.allowed_location_ids otherwise [];
  })
]

-- `list && list.length > 0`
abbrev pub is_declared : Option (List Permission) → Bool
is_declared none = false
is_declared (some []) = false
is_declared (some (p ∷ ps)) = true

abbrev pub declared : Option (List Permission) → List Permission
declared ps = ps otherwise []

insufficient : Result Bool
insufficient = err (forbidden "Insufficient permissions")

-- The checks from `rolePerms` on.
unfoldable pub check_role :
    List Permission → Option (List Permission) → Option (List Permission) → Result Bool
unfolding insufficient
check_role role_perms required required_any =
    if includes role_perms wildcard_permission
    then ok true
    else if is_declared required && not (all (includes role_perms) (declared required))
    then insufficient
    else if is_declared required_any && not (any (includes role_perms) (declared required_any))
    then insufficient
    else ok true

-- `PermissionsGuard.canActivate`; `user` is the memberships of `req.user`, if it has any.
unfoldable pub permissions_guard :
    Option CurrentOrg
    → Option (List JwtMembership)
    → Option (List Permission)
    → Option (List Permission)
    → Result Bool
permissions_guard none user required required_any =
    err (forbidden "Organization context is missing")
permissions_guard (some org) none required required_any =
    err (forbidden "User or user memberships not found")
permissions_guard (some org) (some memberships) required required_any =
    elim (find (belongs_to org.organization_id) memberships) [
      | none ↦ err (forbidden "User does not have access to the specified organization")
      | some m ↦
          if not (is_declared required) && not (is_declared required_any)
          then err (forbidden "No permission declared for this route")
          else check_role (role_permissions m.role) required required_any
    ]
