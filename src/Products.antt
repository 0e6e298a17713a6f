-- ===== src/Products.antt =====
-- backend/src/repositories/postgres/productRepository.ts and repositories/mappers.ts. A function
-- that writes takes the clock reading of its `new Date()` as `now`.
pub mod Stock
pub mod Writing
use ufsc_dso2_trabalho1_merc.Prelude.{
  ℕ, ◌-◌, String, Bool, Option, none, some, List, [], ◌∷◌, ◌&&◌, ◌==◌, leb, str_eq, is_some, length,
}
use ufsc_dso2_trabalho1_merc.Prelude.Order.{order_by}
use ufsc_dso2_trabalho1_merc.Sql.{select, select_one, update, exists_row}
use ufsc_dso2_trabalho1_merc.Result.{Result, ok, internal, or_throw, ◌>>=◌}
use ufsc_dso2_trabalho1_merc.Money.{Money, money_from_minor}
use ufsc_dso2_trabalho1_merc.Tenants.{resolve_tenant, one}
use ufsc_dso2_trabalho1_merc.ProductStatus.{ProductStatus, active, same_status}
use ufsc_dso2_trabalho1_merc.Database.{Uuid, Date, ProductRow, Db}

-- `ProductRecord`, as `mapProductRow` builds it.
pub record ProductRecord : Type 0 where
  pub id : Uuid
  pub tenant_id : String
  pub seller : Uuid
  pub name : String
  pub description : Option String
  pub category : String
  pub subcategory : String
  pub inventory : ℕ
  pub price : Option Money
  pub image : String
  pub status : ProductStatus
  pub created_at : Date
  pub updated_at : Date

abbrev pub price_in : String → Option ℕ → Option Money
price_in currency none = none
price_in currency (some amount) = some (money_from_minor currency amount)

unfoldable pub map_product_row : ProductRow → Result ProductRecord
map_product_row row = do
  tenant ← or_throw (resolve_tenant (one row.tenant_id)) internal
  ok (record {
    id = row.id;
    tenant_id = row.tenant_id;
    seller = row.seller_id;
    name = row.name;
    description = row.description;
    category = row.category;
    subcategory = row.subcategory;
    inventory = row.inventory;
    price = price_in tenant.currency_code row.unit_price_minor;
    image = row.image_url;
    status = row.status;
    created_at = row.created_at;
    updated_at = row.updated_at;
  })

-- `rows.map(mapProductRow)`
unfoldable pub map_product_rows : List ProductRow → Result (List ProductRecord)
map_product_rows [] = ok []
map_product_rows (row ∷ rows) = do
  product ← map_product_row row
  rest ← map_product_rows rows
  ok (product ∷ rest)

-- `row ? mapProductRow(row) : null`
abbrev pub map_found : Option ProductRow → Result (Option ProductRecord)
map_found none = ok none
map_found (some row) = do product ← map_product_row row; ok (some product)

abbrev pub is_product : String → Uuid → ProductRow → Bool
is_product tenant_id product_id row = str_eq row.tenant_id tenant_id && row.id == product_id

-- `inArray(products.id, productIds)`
abbrev pub in_array : List Uuid → Uuid → Bool
in_array ids id = exists_row (λ i. i == id) ids

unfoldable pub find_by_id : String → Uuid → Db → Result (Option ProductRecord)
find_by_id tenant_id product_id db =
    map_found (select_one (is_product tenant_id product_id) db.products)

unfoldable pub find_active_by_id : String → Uuid → Db → Result (Option ProductRecord)
find_active_by_id tenant_id product_id db = map_found (
    select_one
      (λ row.
        is_product tenant_id product_id row
        && same_status row.status active
        && is_some row.unit_price_minor)
      db.products)

unfoldable pub find_by_ids_for_update : String → List Uuid → Db → Result (List ProductRecord)
find_by_ids_for_update tenant_id [] db = ok []
find_by_ids_for_update tenant_id (id ∷ ids) db = map_product_rows (
    order_by (λ row. row.id)
      (select (λ row. str_eq row.tenant_id tenant_id && in_array (id ∷ ids) row.id) db.products))

-- The WHERE clause of `decrementAvailableInventory`.
abbrev pub can_decrement : String → Uuid → ℕ → ProductRow → Bool
can_decrement tenant_id product_id quantity row =
    is_product tenant_id product_id row
    && same_status row.status active
    && leb quantity row.inventory

abbrev pub decremented : ℕ → Date → ProductRow → ProductRow
decremented quantity now row = record row { inventory = row.inventory - quantity; updated_at = now }

-- The result is `updated.length === 1`.
unfoldable pub decrement_available_inventory : String → Uuid → ℕ → Date → Db → Bool × Db
decrement_available_inventory tenant_id product_id quantity now db =
    let matches = can_decrement tenant_id product_id quantity in
    (
      length (select matches db.products) == 1,
      record db { products = update matches (decremented quantity now) db.products },
    )
