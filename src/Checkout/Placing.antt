-- ===== src/Checkout/Placing.antt =====
-- A call of `createOrder` that places a new order, step by step.
use ufsc_dso2_trabalho1_merc.Prelude.{String, Option, none, some, ◌≡◌, refl}
use ufsc_dso2_trabalho1_merc.Result.{Result, ok, err}
use ufsc_dso2_trabalho1_merc.Action.{Transactions}
use ufsc_dso2_trabalho1_merc.Action.Laws.{transaction-eq-ok}
use ufsc_dso2_trabalho1_merc.Database.{Uuid, Db}
use ufsc_dso2_trabalho1_merc.Carts.{CheckoutCart, find_for_checkout}
use ufsc_dso2_trabalho1_merc.Orders.{find_by_checkout_idempotency_key}
use ufsc_dso2_trabalho1_merc.Pricing.{Fingerprint}
use ufsc_dso2_trabalho1_merc.Checkout.Plan.{CheckoutOrderRequest, OrderPlan, plan_order}
use ufsc_dso2_trabalho1_merc.Checkout.Planning.{IsPlanOf, plan_cart-IsPlanOf}
use ufsc_dso2_trabalho1_merc.Checkout.Persist.{Env, PlacedOrder}
use ufsc_dso2_trabalho1_merc.Checkout.Writes.{Persisted, persist_order_writes}
use ufsc_dso2_trabalho1_merc.Checkout.Service.{
  persist_plan, create_or_replay, create_order_in_transaction, create_order,
}

module _ (quote_hash : Fingerprint → String) (env : Env) (tenant_id : String) (user_id key : Uuid)
    (selection : Option CheckoutOrderRequest) where
  pub record IsPlacing (db : Db) (placed : PlacedOrder) (db' : Db) : Type 0 where
    pub cart : CheckoutCart
    pub plan : OrderPlan
    pub in_cart : find_for_checkout tenant_id user_id db ≡ some cart
    pub planned : IsPlanOf quote_hash tenant_id user_id cart selection db plan
    pub written : Persisted env tenant_id user_id key plan db placed db'

  plan_order-IsPlanOf :
      (found : Option CheckoutCart) (db : Db) {plan : OrderPlan}
      → plan_order quote_hash tenant_id user_id found selection db ≡ ok plan
      → (cart : CheckoutCart) × (found ≡ some cart)
        × IsPlanOf quote_hash tenant_id user_id cart selection db plan
  unfolding plan_order
  plan_order-IsPlanOf none db h = cc
  plan_order-IsPlanOf (some cart) db h =
      (cart, refl, plan_cart-IsPlanOf quote_hash tenant_id user_id cart selection db h)

  persist_plan-IsPlacing :
      (planned : Result OrderPlan) (db : Db) {placed : PlacedOrder} {db' : Db}
      → plan_order quote_hash tenant_id user_id
          (find_for_checkout tenant_id user_id db)
          selection
          db
        ≡ planned
      → persist_plan env tenant_id user_id key planned db ≡ (ok placed, db')
      → IsPlacing db placed db'
  unfolding persist_plan
  persist_plan-IsPlacing (err e) db h k = cc
  persist_plan-IsPlacing (ok plan) db h k =
      let (cart, in_cart, planned) =
        plan_order-IsPlanOf (find_for_checkout tenant_id user_id db) db h in
      record {
        cart = cart;
        plan = plan;
        in_cart = in_cart;
        planned = planned;
        written = persist_order_writes env tenant_id user_id key plan db k;
      }

  -- A key that is not used yet places a new order.
  pub create_order-IsPlacing :
      (tx : Transactions Db) (db : Db) {placed : PlacedOrder} {db' : Db}
      → find_by_checkout_idempotency_key tenant_id user_id key db ≡ none
      → create_order quote_hash tx env tenant_id user_id key selection db ≡ (ok placed, db')
      → IsPlacing db placed db'
  unfolding create_order create_order_in_transaction create_or_replay
  create_order-IsPlacing tx db unused h =
      let ran =
        transaction-eq-ok tx
          (create_order_in_transaction quote_hash env tenant_id user_id key selection) h in
      persist_plan-IsPlacing _ db refl (rw (unused, create_or_replay) at ran)
