-- ===== src/ProductService/Calls.antt =====
-- Any sequence of calls of the product service.
use ufsc_dso2_trabalho1_merc.Prelude.{ℕ, String, false, ◌≡◌}
use ufsc_dso2_trabalho1_merc.Sql.{exists_row}
use ufsc_dso2_trabalho1_merc.Action.{Transactions}
use ufsc_dso2_trabalho1_merc.ProductStatus.{ProductStatus}
use ufsc_dso2_trabalho1_merc.Database.{Uuid, Db}
use ufsc_dso2_trabalho1_merc.Products.{is_product}
use ufsc_dso2_trabalho1_merc.ProductService.Guards.{UpdateProductData}
use ufsc_dso2_trabalho1_merc.ProductService.Effects.{Effect, IsStocked}
use ufsc_dso2_trabalho1_merc.ProductService.Added.{create_effect}
use ufsc_dso2_trabalho1_merc.ProductService.Edited.{status_effect, inventory_effect}
use ufsc_dso2_trabalho1_merc.ProductService.Repriced.{update_effect}
use ufsc_dso2_trabalho1_merc.ProductService.Service.{
  Env, CreateProductData, create_product, update_product, update_product_status,
  update_product_inventory,
}

module _ (to_lower : String → String) (request_hash : CreateProductData → String)
    (tx : Transactions Db) where
  -- One call of a seller of a tenant, whether it returns or throws. The id of a new product names
  -- no row yet, and `createProductSchema` accepts active products with stock and sold out ones
  -- without.
  pub data Call (tenant_id : String) (seller : Uuid) (db : Db) : Db → Type 0 where
    creation :
        (env : Env) (key : Uuid) (body : CreateProductData)
        → exists_row (is_product tenant_id env.product_id) db.products ≡ false
        → IsStocked body.status body.inventory
        → Call tenant_id seller db
            (create_product to_lower request_hash tx env tenant_id seller key body db).1
    edit :
        (env : Env) (product_id : Uuid) (values : UpdateProductData)
        → Call tenant_id seller db
            (update_product to_lower tx env product_id values seller tenant_id db).1
    status_change :
        (env : Env) (product_id : Uuid) (status : ProductStatus)
        → Call tenant_id seller db
            (update_product_status to_lower env product_id status seller tenant_id db).1
    inventory_set_to :
        (env : Env) (product_id : Uuid) (inventory : ℕ)
        → Call tenant_id seller db
            (update_product_inventory to_lower tx env product_id inventory seller tenant_id db).1

  -- Calls one after another, of the sellers of tenants for whom `By` holds.
  pub data Calls (By : String → Uuid → Type 0) (db : Db) : Db → Type 0 where
    idle : Calls By db db
    followed_by :
        {mid end : Db} {tenant_id : String} {seller : Uuid}
        → Calls By db mid
        → By tenant_id seller
        → Call tenant_id seller mid end
        → Calls By db end

  pub call_effect :
      {tenant_id : String} {seller : Uuid} {db db' : Db}
      → Call tenant_id seller db db'
      → Effect to_lower tenant_id seller db db'
  call_effect {tenant_id} {seller} {db} (creation env key body fresh stocked) =
      create_effect to_lower request_hash tenant_id seller env tx key body db fresh stocked
  call_effect {tenant_id} {seller} {db} (edit env product_id values) =
      update_effect to_lower tenant_id seller env tx product_id values db
  call_effect {tenant_id} {seller} {db} (status_change env product_id status) =
      status_effect to_lower tenant_id seller env product_id status db
  call_effect {tenant_id} {seller} {db} (inventory_set_to env product_id inventory) =
      inventory_effect to_lower tenant_id seller env tx product_id inventory db
