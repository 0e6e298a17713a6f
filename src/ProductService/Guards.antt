-- ===== src/ProductService/Guards.antt =====
-- The checks of backend/src/services/productService.ts and the decisions that it takes on a product
-- it has read.
use ufsc_dso2_trabalho1_merc.Prelude.{
  ℕ, String, Bool, true, false, Option, none, some, ◌&&◌, ◌||◌, ◌==◌, not, is_some, ltb, str_eq,
  if◌then◌else◌,
}
use ufsc_dso2_trabalho1_merc.Result.{
  Result, ok, app_error, throw_if, or_throw, product_not_found, product_forbidden,
  invalid_product_currency, product_status_transition_invalid, product_inventory_required,
  product_price_required, ◌>>=◌, ◌>>◌,
}
use ufsc_dso2_trabalho1_merc.Money.{Money, same_money}
use ufsc_dso2_trabalho1_merc.Tenants.{Tenant, resolve_tenant, one}
use ufsc_dso2_trabalho1_merc.ProductStatus.{
  ProductStatus, same_status, draft, active, paused, sold_out, archived,
}
use ufsc_dso2_trabalho1_merc.Database.{Uuid, Db}
use ufsc_dso2_trabalho1_merc.Products.{ProductRecord, find_by_id}
use ufsc_dso2_trabalho1_merc.Products.Writing.{UpdateProductRecord}

-- The two checks of `ownedProductWithRepository` on what was found.
abbrev pub owned : Uuid → Option ProductRecord → Result ProductRecord
owned seller found = do
  product ← or_throw found (app_error 404 product_not_found)
  throw_if (not (product.seller == seller)) (app_error 403 product_forbidden)
  ok product

-- `ownedProductWithRepository`
unfoldable pub owned_product : Uuid → Uuid → String → Db → Result ProductRecord
owned_product product_id seller tenant_id db = do
  found ← find_by_id tenant_id product_id db
  owned seller found

abbrev has_currency : Option Tenant → Money → Bool
has_currency none price = false
has_currency (some tenant) price = str_eq price.currency tenant.currency_code

-- `requireTenantCurrency`
unfoldable pub require_tenant_currency : Money → String → Result (Unit {0})
require_tenant_currency price tenant_id =
    throw_if (not (has_currency (resolve_tenant (one tenant_id)) price))
      (app_error 400 invalid_product_currency)

-- `if (update.price) requireTenantCurrency(…)`
abbrev pub require_update_currency : Option Money → String → Result (Unit {0})
require_update_currency none tenant_id = ok tt
require_update_currency (some price) tenant_id = require_tenant_currency price tenant_id

-- `priceChanged`
abbrev pub price_changed : Option Money → Option Money → Bool
price_changed old none = false
price_changed old (some price) = not (same_money old (some price))

-- `UpdateProductData`
pub record UpdateProductData : Type 0 where
  pub name : Option String
  pub description : Option String
  pub category : Option String
  pub subcategory : Option String
  pub image : Option String
  pub price : Option Money

-- A description that is given is never null.
abbrev given : Option String → Option (Option String)
given none = none
given (some text) = some (some text)

-- `effectiveUpdate`
abbrev pub effective_update : Bool → UpdateProductData → UpdateProductRecord
effective_update changed update = record {
  name = update.name;
  description = given update.description;
  category = update.category;
  subcategory = update.subcategory;
  inventory = none;
  price = if changed then update.price else none;
  image = update.image;
  status = none;
}

-- `Object.values(effectiveUpdate).some((value) => value !== undefined)`
abbrev pub has_values : UpdateProductRecord → Bool
has_values update =
    is_some update.name
    || is_some update.description
    || is_some update.category
    || is_some update.subcategory
    || is_some update.inventory
    || is_some update.price
    || is_some update.image
    || is_some update.status

-- `allowed[from].includes(to)`
unfoldable pub allowed : ProductStatus → ProductStatus → Bool
allowed draft active = true
allowed draft archived = true
allowed active paused = true
allowed active archived = true
allowed paused active = true
allowed paused archived = true
allowed sold_out active = true
allowed sold_out archived = true
allowed archived active = true
allowed _ _ = false

-- The checks of `updateProductStatus`, in its order.
unfoldable pub check_status : ProductStatus → ProductRecord → Result (Unit {0})
check_status status product = do
  throw_if (same_status status sold_out) (app_error 409 product_status_transition_invalid)
  throw_if (same_status status active && ltb product.inventory 1)
      (app_error 409 product_inventory_required)
  throw_if (same_status status active && not (is_some product.price))
      (app_error 409 product_price_required)
  throw_if (not (same_status status product.status) && not (allowed product.status status))
      (app_error 409 product_status_transition_invalid)

-- The status that `updateProductInventory` sets.
unfoldable pub status_for : ℕ → ProductStatus → ProductStatus
status_for inventory status =
    if inventory == 0 && same_status status active
    then sold_out
    else if ltb 0 inventory && same_status status sold_out
    then active
    else status

-- `{ inventory, ...(status === product.status || !status ? {} : { status }) }`
abbrev pub inventory_update : ℕ → ProductStatus → UpdateProductRecord
inventory_update inventory status =
    let next = status_for inventory status in
    record {
      name = none;
      description = none;
      category = none;
      subcategory = none;
      inventory = some inventory;
      price = none;
      image = none;
      status = if same_status next status then none else some next;
    }

-- `{ status }`
abbrev pub status_update : ProductStatus → UpdateProductRecord
status_update status = record {
  name = none;
  description = none;
  category = none;
  subcategory = none;
  inventory = none;
  price = none;
  image = none;
  status = some status;
}
