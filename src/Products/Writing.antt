-- ===== src/Products/Writing.antt =====
-- The writes of backend/src/repositories/postgres/productRepository.ts that the product service
-- makes. `to_lower` is `String.prototype.toLowerCase`.
use ufsc_dso2_trabalho1_merc.Prelude.{
  ℕ, ◌+◌, String, Bool, Option, none, some, List, [], ◌∷◌, ◌++◌, ◌&&◌, ◌==◌, max, str_eq, get_or,
  if◌then◌else◌,
}
use ufsc_dso2_trabalho1_merc.Sql.{select, select_one, update}
use ufsc_dso2_trabalho1_merc.Result.{ok, err, internal}
use ufsc_dso2_trabalho1_merc.Action.{Action}
use ufsc_dso2_trabalho1_merc.Money.{Money}
use ufsc_dso2_trabalho1_merc.Tenants.{Tenant, resolve_tenant, one}
use ufsc_dso2_trabalho1_merc.ProductStatus.{ProductStatus}
use ufsc_dso2_trabalho1_merc.Database.{Uuid, Date, ProductRow, PriceHistoryRow, Db}
use ufsc_dso2_trabalho1_merc.Products.{ProductRecord, map_product_row, map_found, is_product}

pub record CreateProductRecord : Type 0 where
  pub tenant_id : String
  pub seller : Uuid
  pub name : String
  pub description : Option String
  pub category : String
  pub subcategory : String
  pub inventory : ℕ
  pub price : Money
  pub image : String
  pub status : ProductStatus

-- A field that is absent is left as it is.
pub record UpdateProductRecord : Type 0 where
  pub name : Option String
  pub description : Option (Option String)
  pub category : Option String
  pub subcategory : Option String
  pub inventory : Option ℕ
  pub price : Option Money
  pub image : Option String
  pub status : Option ProductStatus

pub record AppendProductPriceHistory : Type 0 where
  pub tenant_id : String
  pub product_id : Uuid
  pub actor_id : Uuid
  pub price : Money
  pub changed_at : Date

abbrev pub amount_or : Option Money → Option ℕ → Option ℕ
amount_or none old = old
amount_or (some price) old = some price.amount_minor

abbrev pub is_owned : String → Uuid → Uuid → ProductRow → Bool
is_owned tenant_id product_id seller_id row =
    is_product tenant_id product_id row && row.seller_id == seller_id

module _ (to_lower : String → String) where
  abbrev pub new_row : Uuid → Date → CreateProductRecord → ProductRow
  new_row new_id now product = record {
    id = new_id;
    tenant_id = product.tenant_id;
    seller_id = product.seller;
    name = to_lower product.name;
    description = product.description;
    category = product.category;
    subcategory = product.subcategory;
    inventory = product.inventory;
    unit_price_minor = some product.price.amount_minor;
    image_url = product.image;
    status = product.status;
    created_at = now;
    updated_at = now;
  }

  -- `create`
  unfoldable pub create : Uuid → Date → CreateProductRecord → Action Db ProductRecord
  create new_id now product db =
      let row = new_row new_id now product in
      (map_product_row row, record db { products = db.products ++ row ∷ [] })

  abbrev lower_or : Option String → String → String
  lower_or none old = old
  lower_or (some name) old = to_lower name

  -- The `values` of `updateOwned`, set on a row.
  abbrev pub set_values : UpdateProductRecord → Date → ProductRow → ProductRow
  set_values values now row = record row {
    name = lower_or values.name row.name;
    description = get_or values.description row.description;
    category = get_or values.category row.category;
    subcategory = get_or values.subcategory row.subcategory;
    image_url = get_or values.image row.image_url;
    status = get_or values.status row.status;
    inventory = get_or values.inventory row.inventory;
    unit_price_minor = amount_or values.price row.unit_price_minor;
    updated_at = now;
  }

  -- `updateOwned`; `returning` gives the row after the update.
  unfoldable pub update_owned :
      String → Uuid → Uuid → UpdateProductRecord → Date → Action Db (Option ProductRecord)
  update_owned tenant_id product_id seller_id values now db =
      let db' = record db {
        products =
            update (is_owned tenant_id product_id seller_id) (set_values values now) db.products;
      } in
      (map_found (select_one (is_owned tenant_id product_id seller_id) db'.products), db')

abbrev pub is_price_of : String → Uuid → PriceHistoryRow → Bool
is_price_of tenant_id product_id row =
    str_eq row.tenant_id tenant_id && row.product_id == product_id

-- `max(sequence) ?? 0`
abbrev pub latest_price_sequence : List PriceHistoryRow → ℕ
latest_price_sequence [] = 0
latest_price_sequence (row ∷ rows) = max row.sequence (latest_price_sequence rows)

abbrev pub price_row : AppendProductPriceHistory → Tenant → ℕ → PriceHistoryRow
price_row entry tenant sequence = record {
  tenant_id = entry.tenant_id;
  product_id = entry.product_id;
  sequence = sequence;
  currency_code = tenant.currency_code;
  currency_minor_unit = tenant.currency_minor_unit;
  unit_price_minor = entry.price.amount_minor;
  actor_id = entry.actor_id;
  changed_at = entry.changed_at;
}

-- `!tenant || tenant.currencyCode !== entry.price.currency` is the thrown case.
abbrev pub append_price_in : AppendProductPriceHistory → Option Tenant → Action Db (Unit {0})
append_price_in entry none db = (err internal, db)
append_price_in entry (some tenant) db =
    if str_eq tenant.currency_code entry.price.currency
    then (
      ok tt,
      record db {
        price_history =
            db.price_history
            ++ price_row entry tenant (
                latest_price_sequence
                  (select (is_price_of entry.tenant_id entry.product_id) db.price_history)
                + 1)
              ∷ [];
      },
    )
    else (err internal, db)

-- `appendPriceHistory`
unfoldable pub append_price_history : AppendProductPriceHistory → Action Db (Unit {0})
append_price_history entry = append_price_in entry (resolve_tenant (one entry.tenant_id))
