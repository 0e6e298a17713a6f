-- ===== src/Checkout/Planning.antt =====
-- What a plan that was made says of the cart, the products and the price.
use ufsc_dso2_trabalho1_merc.Prelude.{String, map, Option, some, ◌≡◌, false, arith}
use ufsc_dso2_trabalho1_merc.Result.{ok}
use ufsc_dso2_trabalho1_merc.Tenants.{resolve_tenant, one}
use ufsc_dso2_trabalho1_merc.Database.{Uuid, Db}
use ufsc_dso2_trabalho1_merc.Products.{find_by_ids_for_update}
use ufsc_dso2_trabalho1_merc.Carts.{CheckoutCart}
use ufsc_dso2_trabalho1_merc.Pricing.{Fingerprint, is_empty}
use ufsc_dso2_trabalho1_merc.Checkout.Plan.{
  CheckoutOrderRequest, OrderPlan, check_items, price_items, select_terms, plan_cart,
}

module _ (quote_hash : Fingerprint → String) (tenant_id : String) (user_id : Uuid) where
  -- The steps of a plan that was made.
  pub record IsPlanOf (cart : CheckoutCart) (selection : Option CheckoutOrderRequest) (db : Db)
      (plan : OrderPlan) : Type 0 where
    pub stocked : is_empty cart.items ≡ false
    pub cart_id : plan.cart_id ≡ cart.id
    pub found :
        find_by_ids_for_update tenant_id (map (λ item. item.product_id) cart.items) db
        ≡ ok plan.products
    pub checked : check_items plan.products cart.items ≡ ok tt
    pub tenant : resolve_tenant (one tenant_id) ≡ some plan.tenant
    pub priced :
        price_items plan.tenant.currency_code plan.products 0 cart.items
        ≡ ok (plan.subtotal_minor, plan.lines)
    pub terms :
        select_terms quote_hash tenant_id user_id plan.tenant plan.subtotal_minor plan.products
          cart.items selection db
        ≡ ok plan.terms

  pub plan_cart-IsPlanOf :
      (cart : CheckoutCart) (selection : Option CheckoutOrderRequest) (db : Db) {plan : OrderPlan}
      → plan_cart quote_hash tenant_id user_id cart selection db ≡ ok plan
      → IsPlanOf cart selection db plan
  unfolding plan_cart
  plan_cart-IsPlanOf cart selection db h = ground arith
