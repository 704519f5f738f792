-- ===== src/Location/Tests.antt =====
-- The theorem about deleted locations at sample rows, and what a deletion does to a member.
use ledger_light_admin.Base.{
  ◌≡◌, refl, true, false, none, [], ◌∷◌, Uuid, find, filter, modify, remove, any, UniqueBy, ◌==◌,
  length,
}
use ledger_light_admin.Access.Scope.{resolve_organization_scope, location_scope_where}
use ledger_light_admin.Store.{Db, Location, LocationStatus}
use ledger_light_admin.Location.{
  get_location_by_id, check_deletion, assert_no_inventory_on_hand, assert_no_location_history,
  delete_location,
}
use ledger_light_admin.Location.Deletion.{
  is_stock, is_order_of, is_reached, delete_location_outcome,
}
use ledger_light_admin.Team.{location_ids_of}
use ledger_light_admin.Samples.{shop, open_db}

abbrev site : Uuid → Location
site i = record {
  id = i;
  organization_id = 1;
  name = "Site";
  code = none;
  status = LocationStatus.active;
}

-- The member 81 is restricted to the location 8.
abbrev sites_db : Db
sites_db = record open_db {
  locations = site 7 ∷ site 8 ∷ [];
  membership_locations = record { membership_id = 81; location_id = 8 } ∷ [];
}

abbrev fewer_db : Db
fewer_db = (delete_location shop 8 sites_db).1

delete_location_outcome_example :
    (◌≡◌ {A = Uuid} 8 8)
    × (is_reached (resolve_organization_scope shop) (site 8) ≡ true)
    × (any (is_stock 8) sites_db.inventory_levels ≡ false)
    × (any (is_order_of 1 8) sites_db.orders ≡ false)
    × (find (λ (l : Location). l.id == 8) fewer_db.locations ≡ none)
    × (any (is_reached (resolve_organization_scope shop)) fewer_db.locations ≡ true)
unfolding delete_location get_location_by_id check_deletion assert_no_inventory_on_hand
    assert_no_location_history find filter modify remove resolve_organization_scope
    location_scope_where UniqueBy
delete_location_outcome_example =
    delete_location_outcome shop 8 sites_db fewer_db (site 8) ((refl, tt), (tt, tt)) refl

-- The member who was restricted to that location is left without a location, which is read as
-- access to all locations.
restriction_lost :
    (length (location_ids_of sites_db 81) == 0 ≡ false)
    × (length (location_ids_of fewer_db 81) == 0 ≡ true)
unfolding delete_location get_location_by_id check_deletion assert_no_inventory_on_hand
    assert_no_location_history find filter modify remove resolve_organization_scope
    location_scope_where
restriction_lost = (refl, refl)
