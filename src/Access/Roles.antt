-- ===== src/Access/Roles.antt =====
-- backend/src/common/permissions: which permissions a role has (role-permissions.ts), and the tiers
-- of the roles with the tests that team management makes on them (role-tier.ts); and the test
-- `hasPermission` of backend/src/common/guards/permissions.guard.ts.
pub mod Hierarchy
mod Tests
use text.Mathlib.Text.{◌==◌ as str_eq}
use ledger_light_admin.Base.{
  ℕ, Bool, true, false, ◌&&◌, ◌||◌, not, Option, List, [], ◌∷◌, ltb, if◌then◌else◌, ◌otherwise◌,
  any,
}
use ledger_light_admin.Access.Permissions.{
  audit_logs_read, customers_create, customers_delete, customers_read, customers_update,
  inventory_adjust, inventory_count, inventory_read, locations_archive, locations_create,
  locations_read, locations_update, orders_create, orders_delete, orders_read,
  orders_transition_cancel, orders_transition_confirm, orders_transition_fulfill,
  orders_transition_reopen, orders_update, payments_create, payments_read, payments_refund,
  products_archive, products_create, products_read, products_update, reports_read, users_invite,
  users_read, wildcard_permission, Permission,
}

pub data Role : Type 0 where
  owner manager cashier support inventory_clerk : Role

abbrev pub is_owner : Role → Bool
is_owner owner = true
is_owner _ = false

-- `ROLE_PERMISSIONS`
unfoldable pub role_permissions : Role → List Permission
role_permissions owner = wildcard_permission ∷ []
role_permissions manager =
    customers_read ∷ customers_create ∷ customers_update ∷ customers_delete ∷ products_read
    ∷ products_create ∷ products_update ∷ products_archive ∷ orders_read ∷ orders_create
    ∷ orders_update ∷ orders_delete ∷ orders_transition_confirm ∷ orders_transition_fulfill
    ∷ orders_transition_cancel ∷ orders_transition_reopen ∷ payments_read ∷ payments_create
    ∷ payments_refund ∷ inventory_read ∷ inventory_adjust ∷ inventory_count ∷ locations_read
    ∷ locations_create ∷ locations_update ∷ locations_archive ∷ users_read ∷ users_invite
    ∷ audit_logs_read ∷ reports_read ∷ []
role_permissions cashier =
    customers_read ∷ customers_create ∷ customers_update ∷ products_read ∷ orders_read
    ∷ orders_create ∷ orders_update ∷ orders_transition_confirm ∷ orders_transition_fulfill
    ∷ payments_read ∷ payments_create ∷ inventory_read ∷ locations_read ∷ []
role_permissions support =
    customers_read ∷ products_read ∷ orders_read ∷ payments_read ∷ inventory_read ∷ locations_read
    ∷ []
role_permissions inventory_clerk =
    products_read ∷ inventory_read ∷ inventory_adjust ∷ inventory_count ∷ locations_read ∷ []

-- `permissions.includes(permission)`
unfoldable pub includes : List Permission → Permission → Bool
includes permissions p = any (λ q. str_eq q p) permissions

unfoldable pub has_permission : Role → Permission → Bool
unfolding role_permissions includes
has_permission role p =
    includes (role_permissions role) wildcard_permission || includes (role_permissions role) p

-- `ROLE_TIER`
abbrev pub role_tier : Role → ℕ
role_tier owner = 1
role_tier manager = 2
role_tier cashier = 3
role_tier support = 3
role_tier inventory_clerk = 3

unfoldable pub can_assign_role : Role → Role → Bool
can_assign_role actor target =
    if is_owner actor then true else ltb (role_tier actor) (role_tier target)

-- `options?.allowSameTierOwner` is the last argument.
unfoldable pub can_manage_member : Role → Role → Option Bool → Bool
can_manage_member actor target allow_same_tier_owner =
    if is_owner actor && not (is_owner target)
    then true
    else if is_owner actor && is_owner target
    then allow_same_tier_owner otherwise false
    else ltb (role_tier actor) (role_tier target)
