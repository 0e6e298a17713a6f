-- ===== src/ProductService/Ownership.antt =====
-- What the calls of other sellers leave of a seller's products.
use ufsc_dso2_trabalho1_merc.Prelude.{
  String, Bool, true, false, List, ◌≡◌, refl, ◌∙◌, ap, arith, str_eq, str_eq_iff, ◌==◌, ◌&&◌,
}
use ufsc_dso2_trabalho1_merc.Sql.{select, update}
use ufsc_dso2_trabalho1_merc.Sql.Laws.{select-update_apart, select-insert_other}
use ufsc_dso2_trabalho1_merc.Action.{Transactions}
use ufsc_dso2_trabalho1_merc.Database.{Uuid, Date, ProductRow, Db}
use ufsc_dso2_trabalho1_merc.Products.Writing.{UpdateProductRecord, is_owned, set_values, new_row}
use ufsc_dso2_trabalho1_merc.ProductService.Effects.{Effect, nothing, added, edited, repriced}
use ufsc_dso2_trabalho1_merc.ProductService.Calls.{Calls, idle, followed_by, call_effect}
use ufsc_dso2_trabalho1_merc.ProductService.Service.{CreateProductData}

-- The seller's products: the rows of the tenant with the seller's id.
abbrev pub is_sellers : String → Uuid → ProductRow → Bool
is_sellers tenant_id seller row = str_eq row.tenant_id tenant_id && row.seller_id == seller

-- Someone else: another seller of the tenant, or a seller of another tenant.
abbrev pub IsOther : String → Uuid → String → Uuid → Type 0
IsOther t s tenant_id seller = (str_eq tenant_id t && seller == s) ≡ false

module _ (to_lower : String → String) (t : String) (s : Uuid) where
  owned_apart :
      (tenant_id : String) (product_id seller : Uuid) (values : UpdateProductRecord) (now : Date)
      (row : ProductRow)
      → IsOther t s tenant_id seller
      → is_owned tenant_id product_id seller row ≡ true
      → (is_sellers t s (set_values to_lower values now row) ≡ false) × (is_sellers t s row ≡ false)
  owned_apart tenant_id product_id seller values now row other own = (
    ground (
      arith,
      str_eq_iff row.tenant_id t,
      str_eq_iff row.tenant_id tenant_id,
      str_eq_iff tenant_id t,
    ),
    ground (
      arith,
      str_eq_iff row.tenant_id t,
      str_eq_iff row.tenant_id tenant_id,
      str_eq_iff tenant_id t,
    ),
  )

  edit_kept :
      (tenant_id : String) (product_id seller : Uuid) (values : UpdateProductRecord) (now : Date)
      (rows : List ProductRow)
      → IsOther t s tenant_id seller
      → select
          (is_sellers t s)
          (update (is_owned tenant_id product_id seller) (set_values to_lower values now) rows)
        ≡ select (is_sellers t s) rows
  edit_kept tenant_id product_id seller values now rows other =
      select-update_apart (is_sellers t s) (is_owned tenant_id product_id seller)
        (set_values to_lower values now)
        (λ row own. owned_apart tenant_id product_id seller values now row other own) rows

  Effect-keeps :
      {tenant_id : String} {seller : Uuid} {db db' : Db}
      → IsOther t s tenant_id seller
      → Effect to_lower tenant_id seller db db'
      → select (is_sellers t s) db'.products ≡ select (is_sellers t s) db.products
  Effect-keeps other (nothing products _) = ap (select (is_sellers t s)) products
  Effect-keeps {db} other
        (added new_id now product entry tenant sequence _ _ of_tenant of_seller _ _ _ products _) =
      ap (select (is_sellers t s)) products
      ∙ select-insert_other (is_sellers t s) db.products (new_row to_lower new_id now product)
          (ap (λ x. str_eq x t && product.seller == s) of_tenant ∙ rw of_seller other)
  Effect-keeps {tenant_id} {seller} {db} other (edited product_id values now _ _ products _) =
      ap (select (is_sellers t s)) products
      ∙ edit_kept tenant_id product_id seller values now db.products other
  Effect-keeps {tenant_id} {seller} {db} other
        (repriced values now entry tenant sequence row _ _ of_tenant _ _ _ products _) =
      ap (select (is_sellers t s)) products
      ∙ edit_kept entry.tenant_id entry.product_id seller values now db.products
          (rw of_tenant other)

-- Whatever the other sellers of the tenant and the sellers of other tenants call, returning or
-- throwing, the products of a seller stay as they are, and no product is added to them.
pub Calls-keeps :
    (to_lower : String → String) (request_hash : CreateProductData → String) (tx : Transactions Db)
    (t : String) (s : Uuid) {db db' : Db}
    → Calls to_lower request_hash tx (IsOther t s) db db'
    → select (is_sellers t s) db'.products ≡ select (is_sellers t s) db.products
Calls-keeps to_lower request_hash tx t s idle = refl
Calls-keeps to_lower request_hash tx t s (followed_by before other call) =
    Effect-keeps to_lower t s other (call_effect to_lower request_hash tx call)
    ∙ Calls-keeps to_lower request_hash tx t s before
