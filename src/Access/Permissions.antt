-- ===== src/Access/Permissions.antt =====
-- backend/src/common/permissions/permissions.ts: the permissions, which are texts.
use Prim.Native.String.{String}

abbrev pub Permission : Type 0
Permission = String

abbrev pub customers_read : Permission
customers_read = "customers.read"

abbrev pub customers_create : Permission
customers_create = "customers.create"

abbrev pub customers_update : Permission
customers_update = "customers.update"

abbrev pub customers_delete : Permission
customers_delete = "customers.delete"

abbrev pub products_read : Permission
products_read = "products.read"

abbrev pub products_create : Permission
products_create = "products.create"

abbrev pub products_update : Permission
products_update = "products.update"

abbrev pub products_archive : Permission
products_archive = "products.archive"

abbrev pub orders_read : Permission
orders_read = "orders.read"

abbrev pub orders_create : Permission
orders_create = "orders.create"

abbrev pub orders_update : Permission
orders_update = "orders.update"

abbrev pub orders_delete : Permission
orders_delete = "orders.delete"

abbrev pub orders_transition_confirm : Permission
orders_transition_confirm = "orders.transition.confirm"

abbrev pub orders_transition_fulfill : Permission
orders_transition_fulfill = "orders.transition.fulfill"

abbrev pub orders_transition_cancel : Permission
orders_transition_cancel = "orders.transition.cancel"

abbrev pub orders_transition_reopen : Permission
orders_transition_reopen = "orders.transition.reopen"

abbrev pub payments_read : Permission
payments_read = "payments.read"

abbrev pub payments_create : Permission
payments_create = "payments.create"

abbrev pub payments_refund : Permission
payments_refund = "payments.refund"

abbrev pub inventory_read : Permission
inventory_read = "inventory.read"

abbrev pub inventory_adjust : Permission
inventory_adjust = "inventory.adjust"

abbrev pub inventory_count : Permission
inventory_count = "inventory.count"

abbrev pub locations_read : Permission
locations_read = "locations.read"

abbrev pub locations_create : Permission
locations_create = "locations.create"

abbrev pub locations_update : Permission
locations_update = "locations.update"

abbrev pub locations_archive : Permission
locations_archive = "locations.archive"

abbrev pub locations_delete : Permission
locations_delete = "locations.delete"

abbrev pub users_read : Permission
users_read = "users.read"

abbrev pub users_invite : Permission
users_invite = "users.invite"

abbrev pub users_manage : Permission
users_manage = "users.manage"

abbrev pub roles_manage : Permission
roles_manage = "roles.manage"

abbrev pub settings_manage : Permission
settings_manage = "settings.manage"

abbrev pub audit_logs_read : Permission
audit_logs_read = "audit_logs.read"

abbrev pub reports_read : Permission
reports_read = "reports.read"

abbrev pub wildcard_permission : Permission
wildcard_permission = "*"
