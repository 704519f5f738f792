-- ===== src/Location.antt =====
-- backend/src/domain/location/location.service.ts: getLocationById, createLocation, updateLocation
-- and deleteLocation. Deleting a row takes with it what refers to it (`onDelete` in
-- backend/prisma/schema.prisma).
pub mod Deletion
mod Tests
use ledger_light_admin.Base.{
  Bool, true, false, not, ◌&&◌, Option, none, some, is_some, List, [], ◌∷◌, any, length, String,
  Uuid, ℤ, pos, ltb_ℤ, leb, find, filter, modify, remove, ⊤, ◌==◌, eq_text, eq_option,
  if◌then◌else◌, ◌otherwise◌, not_found, forbidden, conflict, bad_request, unique_violation, Error,
}
use ledger_light_admin.Access.Scope.{
  CurrentOrg, OrganizationScope, resolve_organization_scope, location_scope_where,
}
use ledger_light_admin.Store.{
  Db, M, pure, throw, gets, or_throw, ◌>>=◌, ◌>>◌, throw_if, write, fresh_id, Location,
  LocationStatus, Order, InventoryLevel, InventoryAdjustment, MembershipLocation,
}
use ledger_light_admin.Inventory.{is_own_location, has_location_id}

-- `CreateLocationDto`, as far as columns are modelled.
pub record CreateLocation : Type 0 where
  pub name : String
  pub code : Option String

-- `UpdateLocationDto`: keys that are left out are `none`.
pub record UpdateLocation : Type 0 where
  pub name : Option String
  pub code : Option (Option String)
  pub status : Option LocationStatus

unfoldable pub get_location_by_id : OrganizationScope → Uuid → M Location
get_location_by_id organization i = do
  found ←
      gets (λ db. find (is_own_location (resolve_organization_scope organization) i) db.locations)
  or_throw found (not_found "Location not found")

abbrev pub same_code : Option String → Option String → Bool
same_code none other = false
same_code (some code) other = eq_text (some code) other

-- Another location of the organization has the name or the code.
abbrev pub clashes : Uuid → Uuid → String → Option String → Location → Bool
clashes organization_id i name code other =
    other.organization_id == organization_id
    && (not (other.id == i)
        && not (not (eq_text (some other.name) (some name)) && not (same_code code other.code)))

unfoldable pub create_location : OrganizationScope → CreateLocation → M Location
create_location organization data_in = do
  let org = resolve_organization_scope organization
  throw_if (not org.has_all_locations)
      (forbidden "Only memberships with all-location access can create locations")
  i ← fresh_id
  taken ← gets (λ db. any (clashes org.organization_id i data_in.name data_in.code) db.locations)
  throw_if taken unique_violation
  let row : Location = record {
    id = i;
    organization_id = org.organization_id;
    name = data_in.name;
    code = data_in.code;
    status = LocationStatus.active;
  }
  write (λ db. record db { locations = row ∷ db.locations })
  pure row

abbrev pub is_stocked_at : Uuid → InventoryLevel → Bool
is_stocked_at i level = level.location_id == i && ltb_ℤ (pos 0) level.quantity

-- `errorType` and `message` together are the error.
unfoldable pub assert_no_inventory_on_hand : Uuid → Error → M ⊤
assert_no_inventory_on_hand i error = do
  on_hand ← gets (λ db. length (filter (is_stocked_at i) db.inventory_levels))
  throw_if (not (on_hand == 0)) error

abbrev pub is_archiving : Option LocationStatus → Bool
is_archiving (some LocationStatus.archived) = true
is_archiving status = false

abbrev pub set_columns : UpdateLocation → Location → Location
set_columns u location = record location {
  name = u.name otherwise location.name;
  code = u.code otherwise location.code;
  status = u.status otherwise location.status;
}

unfoldable pub update_location : OrganizationScope → Uuid → UpdateLocation → M Location
update_location organization i u = do
  existing ← get_location_by_id organization i
  if is_archiving u.status
      then assert_no_inventory_on_hand i
          (bad_request "Cannot archive a location with inventory on hand")
      else pure tt
  let row = set_columns u existing
  taken ← gets (λ db. any (clashes existing.organization_id i row.name row.code) db.locations)
  throw_if taken unique_violation
  write (λ db. record db { locations = modify (has_location_id i) (set_columns u) db.locations })
  pure row

abbrev pub is_order_at : Uuid → Uuid → Order → Bool
is_order_at organization_id i order =
    order.organization_id == organization_id && eq_option order.location_id (some i)

unfoldable pub assert_no_location_history : Uuid → Uuid → M ⊤
assert_no_location_history organization_id i = do
  orders ← gets (λ db. length (filter (is_order_at organization_id i) db.orders))
  throw_if (not (orders == 0)) (conflict "Cannot delete a location with order history")

-- The locations that the membership sees.
abbrev pub is_visible_location : CurrentOrg → Location → Bool
is_visible_location org location =
    location.organization_id == org.organization_id && location_scope_where org (some location.id)

abbrev pub without_location : Uuid → Order → Order
without_location i order =
    if eq_option order.location_id (some i) then record order { location_id = none } else order

-- `onDelete: Cascade` for stock, adjustments and assignments to members; `SetNull` for orders.
abbrev pub drop_location : Uuid → Db → Db
drop_location i db = record db {
  locations = remove (has_location_id i) db.locations;
  inventory_levels =
      remove (λ (level : InventoryLevel). level.location_id == i) db.inventory_levels;
  inventory_adjustments =
      remove (λ (a : InventoryAdjustment). a.location_id == i) db.inventory_adjustments;
  membership_locations =
      remove (λ (entry : MembershipLocation). entry.location_id == i) db.membership_locations;
  orders =
      modify (λ (order : Order). eq_option order.location_id (some i)) (without_location i)
        db.orders;
}

-- The checks of `deleteLocation` on a location that exists.
unfoldable pub check_deletion : CurrentOrg → Uuid → Location → M ⊤
check_deletion org i existing = do
  count ← gets (λ db. length (filter (is_visible_location org) db.locations))
  throw_if (leb count 1) (conflict "Cannot delete the only location in an organization")
  assert_no_inventory_on_hand i (conflict "Cannot delete a location with inventory on hand")
  assert_no_location_history org.organization_id i

abbrev pub delete_row : Uuid → Location → M Location
delete_row i existing = do write (drop_location i); pure existing

abbrev pub delete_existing : CurrentOrg → Uuid → Location → M Location
delete_existing org i existing = check_deletion org i existing >> delete_row i existing

unfoldable pub delete_location : OrganizationScope → Uuid → M Location
delete_location organization i =
    get_location_by_id organization i
    >>= delete_existing (resolve_organization_scope organization) i
