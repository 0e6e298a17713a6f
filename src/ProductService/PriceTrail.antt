-- ===== src/ProductService/PriceTrail.antt =====
-- The history of the prices of a product ends with its price.
use ufsc_dso2_trabalho1_merc.Prelude.{String, ◌≡◌, ◌∙◌}
use ufsc_dso2_trabalho1_merc.Sql.{select, select_one}
use ufsc_dso2_trabalho1_merc.Action.{Transactions}
use ufsc_dso2_trabalho1_merc.Database.{Uuid, Db}
use ufsc_dso2_trabalho1_merc.Products.{is_product}
use ufsc_dso2_trabalho1_merc.Products.Writing.{is_price_of}
use ufsc_dso2_trabalho1_merc.ProductService.Effects.{Effect, nothing, added, edited, repriced}
use ufsc_dso2_trabalho1_merc.ProductService.Calls.{Calls, idle, followed_by, call_effect}
use ufsc_dso2_trabalho1_merc.ProductService.Service.{CreateProductData}
use ufsc_dso2_trabalho1_merc.ProductService.Prices.{
  HasPriceTrail, last_price, price_of, added_trail, edited_trail, repriced_trail,
}

module _ (to_lower : String → String) (t : String) (p : Uuid) where
  -- Each effect keeps the trail.
  Effect-HasPriceTrail :
      {tenant_id : String} {seller : Uuid} {db db' : Db}
      → HasPriceTrail db
      → Effect to_lower tenant_id seller db db'
      → last_price (select (is_price_of t p) db'.price_history)
        ≡ price_of (select_one (is_product t p) db'.products)
  unfolding HasPriceTrail
  Effect-HasPriceTrail trail (nothing products history) = rw (products, history) (trail t p)
  Effect-HasPriceTrail {db} {db'} trail
        (added new_id now product entry tenant sequence fresh _ _ _ of_tenant of_product of_price
          products history) =
      added_trail to_lower t p db db' product entry tenant sequence new_id now (trail t p) fresh
        of_tenant of_product of_price products history
  Effect-HasPriceTrail {tenant_id} {seller} {db} trail
        (edited product_id values now _ unpriced products history) =
      rw (products, history)
        (trail t p
          ∙ edited_trail to_lower t p values now tenant_id product_id seller db.products unpriced)
  Effect-HasPriceTrail {tenant_id} {seller} {db} {db'} trail
        (repriced values now entry tenant sequence row _ _ _ found own priced products history) =
      repriced_trail to_lower t p db db' seller values now entry tenant sequence row (trail t p)
        found own priced products history

call-HasPriceTrail :
    (to_lower : String → String) {tenant_id : String} {seller : Uuid} {db db' : Db}
    → HasPriceTrail db
    → Effect to_lower tenant_id seller db db'
    → HasPriceTrail db'
unfolding HasPriceTrail
call-HasPriceTrail to_lower trail e t p = Effect-HasPriceTrail to_lower t p trail e

-- Whatever the sellers of a marketplace call, returning or throwing, the history of the prices of
-- every product still ends with its price, if it did.
pub Calls-HasPriceTrail :
    (to_lower : String → String) (request_hash : CreateProductData → String) (tx : Transactions Db)
    {By : String → Uuid → Type 0} {db db' : Db}
    → HasPriceTrail db
    → Calls to_lower request_hash tx By db db'
    → HasPriceTrail db'
Calls-HasPriceTrail to_lower request_hash tx trail idle = trail
Calls-HasPriceTrail to_lower request_hash tx trail (followed_by before _ call) =
    call-HasPriceTrail to_lower (Calls-HasPriceTrail to_lower request_hash tx trail before)
      (call_effect to_lower request_hash tx call)
