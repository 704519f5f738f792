-- ===== src/Location/Deletion.antt =====
-- backend/src/domain/location/location.service.ts: when a location is deleted.
use ledger_light_admin.Base.{
  ℕ, true, false, none, some, List, any, length, Uuid, ok, leb, ltb_ℤ, pos, Bool, ◌&&◌, ◌||◌,
  eq_option, [], ◌∷◌, find, find_holds, filter, remove, UniqueBy, any-filter, none_left,
  length-filter-remove, find-remove_self, suc, ◌≤◌, ◌==◌, ◌≡◌, ap, ◌∙◌, arith,
}
use ledger_light_admin.Base.Atomic.{bind_succeeds, or_throw_ok}
use ledger_light_admin.Access.Scope.{
  CurrentOrg, OrganizationScope, resolve_organization_scope, location_scope_where, includes_id,
}
use ledger_light_admin.Store.{Db, Location, InventoryLevel, Order}
use ledger_light_admin.Inventory.{is_own_location, has_location_id}
use ledger_light_admin.Location.{
  get_location_by_id, is_stocked_at, assert_no_inventory_on_hand, is_order_at,
  assert_no_location_history, is_visible_location, check_deletion, delete_row, delete_existing,
  delete_location,
}

check_deletion_counts :
    (org : CurrentOrg) (i : Uuid) (existing : Location) (db db' : Db)
    → check_deletion org i existing db ≡ (ok tt, db')
    → (db' ≡ db)
      × (leb (length (filter (is_visible_location org) db.locations)) 1 ≡ false)
      × ((length (filter (is_stocked_at i) db.inventory_levels) == 0) ≡ true)
      × ((length (filter (is_order_at org.organization_id i) db.orders) == 0) ≡ true)
unfolding check_deletion assert_no_inventory_on_hand assert_no_location_history
check_deletion_counts org i existing db db' e = ground arith

-- With two rows that pass, one is left without one key.
one_left :
    (org : CurrentOrg) (i : Uuid) (locations : List Location)
    → UniqueBy (λ (l : Location). l.id) locations
    → leb (length (filter (is_visible_location org) locations)) 1 ≡ false
    → any (is_visible_location org) (remove (has_location_id i) locations) ≡ true
one_left org i locations u h =
    let fewer =
      length-filter-remove (λ (l : Location). l.id) (is_visible_location org) i locations u in
    any-filter (is_visible_location org) (remove (has_location_id i) locations)
      (some_left _ _ h fewer)
  where
    some_left : (n m : ℕ) → leb n 1 ≡ false → n ≤ suc m → (m == 0) ≡ false
    some_left n m h k = ground arith

delete_row_ok :
    (i : Uuid) (existing deleted : Location) (db db' : Db)
    → delete_row i existing db ≡ (ok deleted, db')
    → (deleted ≡ existing) × (db'.locations ≡ remove (has_location_id i) db.locations)
delete_row_ok i existing deleted db db' e = ground arith

get_location_ok :
    (organization : OrganizationScope) (i : Uuid) (db db' : Db) (location : Location)
    → get_location_by_id organization i db ≡ (ok location, db')
    → (find (is_own_location (resolve_organization_scope organization) i) db.locations
        ≡ some location)
      × (db' ≡ db)
unfolding get_location_by_id
get_location_ok organization i db db' location e =
    or_throw_ok (find (is_own_location (resolve_organization_scope organization) i) db.locations) _
      location db db' e

-- There is stock of some product at the location.
abbrev pub is_stock : Uuid → InventoryLevel → Bool
is_stock i level = level.location_id == i && ltb_ℤ (pos 0) level.quantity

abbrev pub is_order_of : Uuid → Uuid → Order → Bool
is_order_of organization i order =
    order.organization_id == organization && eq_option order.location_id (some i)

-- The location belongs to the organization, and the membership has all locations or lists it.
abbrev pub is_reached : CurrentOrg → Location → Bool
is_reached org l =
    l.organization_id == org.organization_id
    && (org.has_all_locations || includes_id org.allowed_location_ids l.id)

reached_if_visible :
    (org : CurrentOrg) (locations : List Location)
    → any (is_visible_location org) locations ≡ true
    → any (is_reached org) locations ≡ true
unfolding location_scope_where
reached_if_visible org [] h = h
reached_if_visible org (l ∷ locations) h = ground (arith, reached_if_visible org locations)

-- A location is deleted only where the membership sees it, where there is no stock on hand and no
-- order of the organization at it; and the membership sees another location afterwards. It is
-- assumed that locations have different keys.
pub delete_location_outcome :
    (organization : OrganizationScope) (i : Uuid) (db db' : Db) (deleted : Location)
    → UniqueBy (λ (l : Location). l.id) db.locations
    → delete_location organization i db ≡ (ok deleted, db')
    → let org = resolve_organization_scope organization in
      (deleted.id ≡ i)
      × (is_reached org deleted ≡ true)
      × (any (is_stock i) db.inventory_levels ≡ false)
      × (any (is_order_of org.organization_id i) db.orders ≡ false)
      × (find (λ (l : Location). l.id == i) db'.locations ≡ none)
      × (any (is_reached org) db'.locations ≡ true)
unfolding delete_location location_scope_where
delete_location_outcome organization i db db' deleted u e =
    let org = resolve_organization_scope organization in
    let (existing, db1, read, e1) =
      bind_succeeds (get_location_by_id organization i) (delete_existing org i) db e in
    let (found, same) = get_location_ok organization i db db1 existing read in
    let (v, db2, checked, e2) =
      bind_succeeds (check_deletion org i existing) (λ _. delete_row i existing) db
        (rw same at e1) in
    let (kept, two, stock, orders) = check_deletion_counts org i existing db db2 checked in
    let (reply, rows) = delete_row_ok i existing deleted db2 db' e2 in
    let after : db'.locations ≡ remove (has_location_id i) db.locations =
      rows ∙ ap (λ (d : Db). remove (has_location_id i) d.locations) kept in
    (
      rw reply (ground (arith, find_holds (is_own_location org i) db.locations existing found)),
      rw reply (ground (arith, find_holds (is_own_location org i) db.locations existing found)),
      none_left (is_stocked_at i) db.inventory_levels stock,
      none_left (is_order_at org.organization_id i) db.orders orders,
      rw after (find-remove_self (has_location_id i) db.locations),
      rw after (reached_if_visible org _ (one_left org i db.locations u two)),
    )
