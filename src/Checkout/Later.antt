-- ===== src/Checkout/Later.antt =====
-- The orders that are there when `createOrder` is called.
use ufsc_dso2_trabalho1_merc.Prelude.{
  String, Option, some, List, [], ◌∷◌, ◌≡◌, ap, sym, ◌∙◌, inl, inr, Option-cases,
}
use ufsc_dso2_trabalho1_merc.Sql.{select_one}
use ufsc_dso2_trabalho1_merc.Sql.Laws.{select_one-append_some}
use ufsc_dso2_trabalho1_merc.Action.{Transactions}
use ufsc_dso2_trabalho1_merc.Action.Laws.{transaction-keeps}
use ufsc_dso2_trabalho1_merc.Database.{Uuid, OrderRow, ProductRow, Db}
use ufsc_dso2_trabalho1_merc.Carts.{clear}
use ufsc_dso2_trabalho1_merc.Events.{append_many, notify_many}
use ufsc_dso2_trabalho1_merc.Orders.{
  is_order, placed_row, create_placed, find_by_checkout_idempotency_key,
}
use ufsc_dso2_trabalho1_merc.OrderItems.{create_items}
use ufsc_dso2_trabalho1_merc.Pricing.{Fingerprint}
use ufsc_dso2_trabalho1_merc.Checkout.Plan.{CheckoutOrderRequest, OrderPlan}
use ufsc_dso2_trabalho1_merc.Checkout.Persist.{Env, record_events}
use ufsc_dso2_trabalho1_merc.Checkout.Writes.{ordered}
use ufsc_dso2_trabalho1_merc.Checkout.Placing.{create_order-IsPlacing}
use ufsc_dso2_trabalho1_merc.Checkout.Retry.{replays}
use ufsc_dso2_trabalho1_merc.Checkout.Service.{create_order, create_order_in_transaction}

module _ (t : String) (id : Uuid) {row : OrderRow} where
  ordered_keeps :
      (env : Env) (tenant_id : String) (user_id key : Uuid) (plan : OrderPlan)
      (rows : List ProductRow) (db : Db)
      → select_one (is_order t id) db.orders ≡ some row
      → select_one (is_order t id) (ordered env tenant_id user_id key plan rows db).orders
        ≡ some row
  unfolding record_events append_many clear notify_many create_placed create_items
  ordered_keeps env tenant_id user_id key plan rows db e =
      select_one-append_some (is_order t id) db.orders
        (placed_row env.order_id tenant_id user_id key plan.terms.pricing env.now
            plan.terms.delivery_address plan.terms.delivery_option
          ∷ [])
        e

  pub create_order_keeps :
      (quote_hash : Fingerprint → String) (tx : Transactions Db) (env : Env) (tenant_id : String)
      (user_id key : Uuid) (selection : Option CheckoutOrderRequest) (db : Db)
      → select_one (is_order t id) db.orders ≡ some row
      → select_one
          (is_order t id)
          (create_order quote_hash tx env tenant_id user_id key selection db).1.orders
        ≡ some row
  unfolding create_order
  create_order_keeps quote_hash tx env tenant_id user_id key selection db e =
      let work = create_order_in_transaction quote_hash env tenant_id user_id key selection in
      transaction-keeps tx work (λ d. select_one (is_order t id) d.orders ≡ some row) e
        (λ placed db' ran.
          elim (Option-cases (find_by_checkout_idempotency_key tenant_id user_id key db)) [
            | inl unused ↦
                let placing =
                  create_order-IsPlacing quote_hash env tenant_id user_id key selection tx db unused
                    (tx.commits work db db' placed ran) in
                let (end, _, _, same) = placing.written in
                ap (λ d. select_one (is_order t id) d.orders) same
                ∙ ordered_keeps env tenant_id user_id key placing.plan end.products db e
            | inr (order, found) ↦
                ap (λ r. select_one (is_order t id) r.1.orders)
                  (sym ran ∙ replays quote_hash tx tenant_id user_id key env selection db found)
                ∙ e
          ])
