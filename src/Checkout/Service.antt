-- ===== src/Checkout/Service.antt =====
-- `createCheckoutService`: orders in a transaction, and quotes.
use ufsc_dso2_trabalho1_merc.Prelude.{String, Option, none, some, List, []}
use ufsc_dso2_trabalho1_merc.Result.{
  Result, ok, app_error, internal, or_throw, delivery_address_not_found, ◌>>=◌,
}
use ufsc_dso2_trabalho1_merc.Action.{Action, Transactions}
use ufsc_dso2_trabalho1_merc.Tenants.{resolve_tenant, one}
use ufsc_dso2_trabalho1_merc.Database.{Uuid, Db}
use ufsc_dso2_trabalho1_merc.Carts.{Cart, CartLine, find_for_checkout, get}
use ufsc_dso2_trabalho1_merc.Orders.{CheckoutOrder, find_by_checkout_idempotency_key}
use ufsc_dso2_trabalho1_merc.OrderItems.{list_by_order_id}
use ufsc_dso2_trabalho1_merc.Delivery.{find_address}
use ufsc_dso2_trabalho1_merc.Pricing.{Fingerprint, QuoteResponse, calculate_checkout_quote}
use ufsc_dso2_trabalho1_merc.Checkout.Plan.{CheckoutOrderRequest, OrderPlan, plan_order}
use ufsc_dso2_trabalho1_merc.Checkout.Persist.{Env, PlacedOrder, persist_order}

-- The writes run only on a plan.
unfoldable pub persist_plan : Env → String → Uuid → Uuid → Result OrderPlan → Action Db PlacedOrder
persist_plan env tenant_id user_id key (ok plan) = persist_order env tenant_id user_id key plan
persist_plan env tenant_id user_id key (Result.err e) = λ db. (Result.err e, db)

abbrev lines_in : Option Cart → List CartLine
lines_in none = []
lines_in (some cart) = cart.items

module _ (quote_hash : Fingerprint → String) where
  unfoldable pub create_or_replay :
      Env
      → String
      → Uuid
      → Uuid
      → Option CheckoutOrderRequest
      → Option CheckoutOrder
      → Action Db PlacedOrder
  create_or_replay env tenant_id user_id key selection (some replayed) db =
      (ok (record { order = replayed; items = list_by_order_id tenant_id replayed.id db }), db)
  create_or_replay env tenant_id user_id key selection none db =
      persist_plan env tenant_id user_id key
        (plan_order quote_hash tenant_id user_id (find_for_checkout tenant_id user_id db) selection
          db)
        db

  -- `createOrderInTransaction`, inside the transaction.
  unfoldable pub create_order_in_transaction :
      Env → String → Uuid → Uuid → Option CheckoutOrderRequest → Action Db PlacedOrder
  create_order_in_transaction env tenant_id user_id key selection db =
      create_or_replay env tenant_id user_id key selection
        (find_by_checkout_idempotency_key tenant_id user_id key db) db

  -- `createOrder`
  unfoldable pub create_order :
      Transactions Db
      → Env
      → String
      → Uuid
      → Uuid
      → Option CheckoutOrderRequest
      → Action Db PlacedOrder
  create_order tx env tenant_id user_id key selection =
      tx.transaction (create_order_in_transaction env tenant_id user_id key selection)

  -- `getCheckoutQuote`
  unfoldable pub get_checkout_quote : String → Uuid → Uuid → String → Db → Result QuoteResponse
  get_checkout_quote tenant_id user_id address_id delivery_option_id db = do
    cart ← get tenant_id user_id db
    address ←
        or_throw (find_address tenant_id user_id address_id db)
          (app_error 404 delivery_address_not_found)
    tenant ← or_throw (resolve_tenant (one tenant_id)) internal
    quote ←
        calculate_checkout_quote quote_hash (lines_in cart) address delivery_option_id
          tenant.currency_code
    ok quote.response
