-- ===== src/Tests/Products.antt =====
-- A seller adds a lamp, raises its price, sells it out and archives it.
use ufsc_dso2_trabalho1_merc.Prelude.{
  ◌+◌, ap, str_eq, String, none, some, [], ◌∷◌, ◌≡◌, ◌⊎◌, refl, map, arith,
}
use ufsc_dso2_trabalho1_merc.Sql.{select}
use ufsc_dso2_trabalho1_merc.Result.{Result, ok, err, app_error, Code, idempotency_key_reused}
use ufsc_dso2_trabalho1_merc.Tenants.{resolve_tenant}
use ufsc_dso2_trabalho1_merc.Money.{same_money}
use ufsc_dso2_trabalho1_merc.ProductStatus.{active, archived, sold_out, paused}
use ufsc_dso2_trabalho1_merc.Database.{Db}
use ufsc_dso2_trabalho1_merc.Events.{append_many}
use ufsc_dso2_trabalho1_merc.Idempotency.{claim, complete}
use ufsc_dso2_trabalho1_merc.Products.{ProductRecord, find_by_id, map_product_row}
use ufsc_dso2_trabalho1_merc.Products.Writing.{create, update_owned, append_price_history}
use ufsc_dso2_trabalho1_merc.ProductService.Guards.{
  UpdateProductData, owned_product, require_tenant_currency, allowed, check_status, status_for,
}
use ufsc_dso2_trabalho1_merc.ProductService.Service.{
  Env, CreateProductData, create_claimed, create_product_in_transaction, create_product,
  write_update, update_found, update_product_in_transaction, update_product, update_product_status,
  write_inventory, set_inventory, update_product_inventory,
}
use ufsc_dso2_trabalho1_merc.ProductService.Calls.{
  Calls, idle, followed_by, creation, edit, status_change, inventory_set_to,
}
use ufsc_dso2_trabalho1_merc.ProductService.Retry.{create_product_retry, create_product_reused}
use ufsc_dso2_trabalho1_merc.ProductService.Prices.{HasPriceTrail}
use ufsc_dso2_trabalho1_merc.ProductService.PriceTrail.{Calls-HasPriceTrail}
use ufsc_dso2_trabalho1_merc.ProductService.Stocked.{AreStocked, Calls-AreStocked}
use ufsc_dso2_trabalho1_merc.ProductService.Ownership.{IsOther, is_sellers, Calls-keeps}
use ufsc_dso2_trabalho1_merc.ProductService.Permitted.{Permitted}
use ufsc_dso2_trabalho1_merc.ProductService.StatusChange.{update_product_status_decides}
use ufsc_dso2_trabalho1_merc.Tests.Fixtures.{plain_transactions, tenant, market}

-- What a run of the product service computes with.
unfoldable product_run : Unit {0}
unfolding find_by_id map_product_row resolve_tenant same_money append_many claim complete create
    update_owned append_price_history owned_product require_tenant_currency allowed check_status
    status_for create_claimed create_product_in_transaction create_product write_update update_found
    update_product_in_transaction update_product update_product_status write_inventory set_inventory
    update_product_inventory
product_run = tt

abbrev new_env : Env
new_env = record {
  claimed_at = 500;
  written_at = 501;
  changed_at = 502;
  product_id = 30;
  audit_id = λ i. 8000 + i;
}

abbrev lamp : CreateProductData
lamp = record {
  name = "desk lamp";
  description = none;
  category = "home";
  subcategory = "";
  inventory = 2;
  price = record { currency = "USD"; amount_minor = 1500 };
  image = "/lamp.png";
  status = active;
}

-- The calls do not look at the letters of a name.
abbrev to_lower : String → String
to_lower name = name

abbrev request_hash : CreateProductData → String
request_hash body = body.name

abbrev empty_shop : Db
empty_shop = record market { products = [] }

abbrev added : Result ProductRecord × Db
added = create_product to_lower request_hash plain_transactions new_env tenant 1 77 lamp empty_shop

abbrev no_product : ProductRecord
no_product = record {
  id = 0;
  tenant_id = tenant;
  seller = 0;
  name = "";
  description = none;
  category = "";
  subcategory = "";
  inventory = 0;
  price = none;
  image = "";
  status = archived;
  created_at = 0;
  updated_at = 0;
}

abbrev product_in : Result ProductRecord → ProductRecord
product_in (ok p) = p
product_in (err e) = no_product

create_product_retry_example :
    create_product to_lower request_hash plain_transactions
      (record new_env { product_id = 31; claimed_at = 600 })
      tenant
      1
      77
      lamp
      added.1
    ≡ (ok (product_in added.0), added.1)
unfolding product_run
create_product_retry_example =
    create_product_retry to_lower request_hash tenant 1 77 plain_transactions new_env
      (record new_env { product_id = 31; claimed_at = 600 }) lamp empty_shop refl refl

create_product_reused_example :
    create_product to_lower request_hash plain_transactions new_env tenant 1 77
      (record lamp { name = "lava lamp" })
      added.1
    ≡ (err (app_error 409 idempotency_key_reused), added.1)
unfolding product_run
create_product_reused_example =
    create_product_reused to_lower request_hash tenant 1 77 plain_transactions new_env new_env lamp
      empty_shop refl refl (record lamp { name = "lava lamp" }) refl
      (λ e. cc (ap (λ x. str_eq x "desk lamp") e))

abbrev dearer : UpdateProductData
dearer = record {
  name = none;
  description = none;
  category = none;
  subcategory = none;
  image = none;
  price = some (record { currency = "USD"; amount_minor = 1900 });
}

abbrev repriced_db : Db
repriced_db = (update_product to_lower plain_transactions new_env 30 dearer 1 tenant added.1).1

abbrev emptied_db : Db
emptied_db =
    (update_product_inventory to_lower plain_transactions new_env 30 0 1 tenant repriced_db).1

abbrev archived_db : Db
archived_db = (update_product_status to_lower new_env 30 archived 1 tenant emptied_db).1

prices_after : map (λ row. row.unit_price_minor) archived_db.price_history ≡ 1500 ∷ 1900 ∷ []
unfolding product_run
prices_after = refl

status_after : map (λ row. row.status) emptied_db.products ≡ sold_out ∷ []
unfolding product_run
status_after = refl

abbrev calls :
    Calls to_lower request_hash plain_transactions (IsOther tenant 2) empty_shop archived_db
calls =
    followed_by
      (followed_by
        (followed_by (followed_by idle refl (creation new_env 77 lamp refl (omega arith))) refl
          (edit new_env 30 dearer))
        refl (inventory_set_to new_env 30 0))
      refl (status_change new_env 30 archived)

empty_shop-HasPriceTrail : HasPriceTrail empty_shop
unfolding HasPriceTrail
empty_shop-HasPriceTrail t p = refl

Calls-HasPriceTrail_example : HasPriceTrail archived_db
Calls-HasPriceTrail_example =
    Calls-HasPriceTrail to_lower request_hash plain_transactions empty_shop-HasPriceTrail calls

empty_shop-AreStocked : AreStocked empty_shop
unfolding AreStocked
empty_shop-AreStocked t p row found = cc

Calls-AreStocked_example : AreStocked archived_db
Calls-AreStocked_example =
    Calls-AreStocked to_lower request_hash plain_transactions empty_shop-AreStocked calls

Calls-keeps_example :
    select (is_sellers tenant 2) archived_db.products
    ≡ select (is_sellers tenant 2) empty_shop.products
Calls-keeps_example = Calls-keeps to_lower request_hash plain_transactions tenant 2 calls

update_product_status_decides_example :
    (Permitted (product_in added.0) paused
      × ((update_product_status to_lower new_env 30 paused 1 tenant added.1).0
          ≡ ok (some (record (product_in added.0) { status = paused; updated_at = 501 }))))
    ⊎ ((¬ Permitted (product_in added.0) paused)
        × (code : Code) × (update_product_status to_lower new_env 30 paused 1 tenant added.1
            ≡ (err (app_error 409 code), added.1)))
unfolding product_run
update_product_status_decides_example =
    update_product_status_decides to_lower new_env 30 paused 1 tenant added.1 refl
