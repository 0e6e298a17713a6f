-- ===== src/Checkout/Success.antt =====
-- When the writes of `createOrder` succeed.
use ufsc_dso2_trabalho1_merc.Prelude.{String, Option, none, some, ◌≡◌}
use ufsc_dso2_trabalho1_merc.Result.{ok}
use ufsc_dso2_trabalho1_merc.Action.{Transactions, pure, modify, ◌>>◌}
use ufsc_dso2_trabalho1_merc.Action.Laws.{>>=_continues}
use ufsc_dso2_trabalho1_merc.Database.{Uuid, Db}
use ufsc_dso2_trabalho1_merc.Carts.{CheckoutCart, find_for_checkout}
use ufsc_dso2_trabalho1_merc.Orders.{create_placed, find_by_checkout_idempotency_key}
use ufsc_dso2_trabalho1_merc.OrderItems.{create_items}
use ufsc_dso2_trabalho1_merc.Pricing.{Fingerprint}
use ufsc_dso2_trabalho1_merc.Checkout.Plan.{CheckoutOrderRequest, OrderPlan, plan_cart, plan_order}
use ufsc_dso2_trabalho1_merc.Checkout.Planning.{plan_cart-IsPlanOf}
use ufsc_dso2_trabalho1_merc.Checkout.Persist.{
  Env, decrement_all, persist_order, plan_items, record_events,
}
use ufsc_dso2_trabalho1_merc.Checkout.Lines.{price_items-AreLinesOf}
use ufsc_dso2_trabalho1_merc.Checkout.Writes.{placed_with, with_order}
use ufsc_dso2_trabalho1_merc.Checkout.Loop.{decrement_all_succeeds}
use ufsc_dso2_trabalho1_merc.Checkout.Completes.{
  HasKeys, HasDistinctProducts, lines-IsGranted, lines-AreDistinct,
}
use ufsc_dso2_trabalho1_merc.Checkout.Service.{
  persist_plan, create_or_replay, create_order_in_transaction, create_order,
}

module _ (quote_hash : Fingerprint → String) (env : Env) (tenant_id : String) (user_id key : Uuid)
    (selection : Option CheckoutOrderRequest) (db : Db) (cart : CheckoutCart)
    (plan : OrderPlan) where
  persist_order_succeeds :
      plan_cart quote_hash tenant_id user_id cart selection db ≡ ok plan
      → HasKeys tenant_id db.products
      → HasDistinctProducts cart.items
      → (db' : Db) × (persist_order env tenant_id user_id key plan db
          ≡ (ok (placed_with env tenant_id user_id key plan), db'))
  unfolding persist_order create_placed create_items
  persist_order_succeeds planned keys distinct =
      let is_plan = plan_cart-IsPlanOf quote_hash tenant_id user_id cart selection db planned in
      let currency = plan.tenant.currency_code in
      let lines = price_items-AreLinesOf currency plan.products 0 cart.items is_plan.priced in
      let (end, ran) =
        decrement_all_succeeds env.stock_clock tenant_id 0 (plan_items env tenant_id plan)
          (with_order env tenant_id user_id key plan db)
          (lines-AreDistinct tenant_id env.order_id currency plan.products cart.items plan.lines
            lines distinct)
          (lines-IsGranted tenant_id db keys _ env.order_id currency plan.products cart.items
            plan.lines is_plan.found is_plan.checked lines) in
      (
        record_events env tenant_id user_id plan (plan_items env tenant_id plan) end,
        >>=_continues (decrement_all env.stock_clock 0 tenant_id (plan_items env tenant_id plan))
            (λ _.
              modify (record_events env tenant_id user_id plan (plan_items env tenant_id plan))
              >> pure (placed_with env tenant_id user_id key plan))
            ran,
      )

  -- A checkout under an unused key that passes every check and quote before its first write returns
  -- the order of its plan, where the ids of the tenant's products are unique and the cart holds no
  -- product twice.
  pub create_order_succeeds :
      (tx : Transactions Db)
      → find_by_checkout_idempotency_key tenant_id user_id key db ≡ none
      → find_for_checkout tenant_id user_id db ≡ some cart
      → plan_cart quote_hash tenant_id user_id cart selection db ≡ ok plan
      → HasKeys tenant_id db.products
      → HasDistinctProducts cart.items
      → (db' : Db) × (create_order quote_hash tx env tenant_id user_id key selection db
          ≡ (ok (placed_with env tenant_id user_id key plan), db'))
  unfolding create_order create_order_in_transaction create_or_replay persist_plan plan_order
  create_order_succeeds tx unused in_cart planned keys distinct =
      let (db', ran) = persist_order_succeeds planned keys distinct in
      (
        db',
        tx.commits (create_order_in_transaction quote_hash env tenant_id user_id key selection) db
            db' _ (rw (unused, create_or_replay, in_cart, planned, persist_plan) ran),
      )
