-- ===== src/Inventory/Snapshot/LowStock.antt =====
-- backend/src/domain/inventory/inventory.service.ts: the two ways of counting the products that are
-- low in stock.
use ledger_light_admin.Base.{
  ℕ, Bool, true, not, Bool-cases, Option, none, some, List, [], ◌∷◌, map, length, String, ℤ, pos,
  ◌+ℤ◌, filter, filter_ext, map_option, ltb_ℤ, ◌otherwise◌, ◌==◌, Uuid, ◌≡◌, refl, ◌∙◌, sym, inl,
  inr, arith, +ℤ_assoc, +ℤ-zero, zero-+ℤ,
}
use ledger_light_admin.Access.Scope.{
  CurrentOrg, OrganizationScope, resolve_organization_scope, has_restricted_locations,
}
use ledger_light_admin.Store.{Db, InventoryLevel, Product}
use ledger_light_admin.Paging.{Page}
use ledger_light_admin.Inventory.Snapshot.{
  AggregatedRow, total_of, sum_of, aggregate, included_levels, is_product_of, is_low_stock_product,
  low_stock, get_aggregated_inventory_snapshot, get_low_stock_product_count, InventoryQuery,
  InventoryPage, get_inventory,
}

total_of-sum_of :
    (levels : List InventoryLevel) (start : ℤ)
    → total_of levels start ≡ start +ℤ (sum_of levels otherwise pos 0)
unfolding total_of sum_of
total_of-sum_of [] start = sym (+ℤ-zero start)
total_of-sum_of (level ∷ rest) start =
    total_of-sum_of rest (start +ℤ level.quantity)
    ∙ +ℤ_assoc start level.quantity (sum_of rest otherwise pos 0)

module _ (locale_compare : String → String → ℤ) where
  abbrev low_by_sum : Db → Product → Bool
  low_by_sum db product = not (
      ltb_ℤ product.reorder_threshold (
        sum_of
          (filter (λ (level : InventoryLevel). level.product_id == product.id) db.inventory_levels)
        otherwise pos 0))

  -- A membership with all locations sees every level of a product.
  included_all :
      (org : CurrentOrg) (db : Db) (product : Product)
      → not (has_restricted_locations org) ≡ true
      → included_levels org db product
        ≡ filter (λ (level : InventoryLevel). level.product_id == product.id) db.inventory_levels
  included_all org db product all = filter_ext _ _ (λ level. ground arith) db.inventory_levels

  is_low_stock-aggregate :
      (org : CurrentOrg) (db : Db) (product : Product)
      → not (has_restricted_locations org) ≡ true
      → (aggregate locale_compare org db product).is_low_stock ≡ low_by_sum db product
  unfolding aggregate
  is_low_stock-aggregate org db product all =
      rw
        (
          included_all org db product all,
          total_of-sum_of
              (filter (λ (level : InventoryLevel). level.product_id == product.id)
                db.inventory_levels)
              (pos 0),
          zero-+ℤ (
              sum_of (
                filter (λ (level : InventoryLevel). level.product_id == product.id)
                  db.inventory_levels)
              otherwise pos 0),
        )
        refl

  counted :
      (org : CurrentOrg) (db : Db) (products : List Product)
      → not (has_restricted_locations org) ≡ true
      → length
          (low_stock (map (aggregate locale_compare org db) (filter (is_product_of org) products)))
        ≡ length (filter (is_low_stock_product org db) products)
  unfolding filter
  counted org db [] all = refl
  counted org db (p ∷ products) all =
      ground (arith, is_low_stock-aggregate org db p all, counted org db products all)

  total_of_page :
      (n : ℕ) (o : Option (Page AggregatedRow Uuid)) (page : InventoryPage)
      → map_option
          (λ (p : Page AggregatedRow Uuid). record {
            items = p.items;
            total_count = n;
            next_cursor = p.next_cursor;
          })
          o
        ≡ some page
      → page.total_count ≡ n
  total_of_page n none page e = cc
  total_of_page n (some p) page e = ground arith

  -- The two ways of counting agree: the number of products that are low in stock, which for a
  -- membership with all locations is an SQL query, is the number of rows that the inventory shows
  -- when only those are asked for, for every membership, order and page.
  pub get_inventory-low_stock_count :
      (organization : OrganizationScope) (query : InventoryQuery) (db : Db) (page : InventoryPage)
      → query.low_stock_only ≡ true
      → get_inventory locale_compare organization query db ≡ some page
      → page.total_count ≡ get_low_stock_product_count locale_compare organization db
  unfolding get_inventory get_low_stock_product_count get_aggregated_inventory_snapshot
      resolve_organization_scope
  get_inventory-low_stock_count organization query db page only shown =
      let org = resolve_organization_scope organization in
      total_of_page _ _ page shown
      ∙ rw only (elim (Bool-cases (not (has_restricted_locations org))) [
        | inl t ↦
            rw t (
              counted (resolve_organization_scope (OrganizationScope.current org)) db db.products t)
        | inr f ↦ rw f refl
      ])
