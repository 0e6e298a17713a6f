-- ===== src/Checkout/Supply.antt =====
-- The stock and the items of the orders, before and after `createOrder`.
use ufsc_dso2_trabalho1_merc.Prelude.{
  ℕ, ◌+◌, String, Option, none, List, [], ◌∷◌, map, ◌≡◌, refl, ap, sym, ◌∙◌, arith, ◌&&◌, ◌==◌,
  if◌then◌else◌, str_eq, sum_of, sum_of-append, inl, inr, Option-cases,
}
use ufsc_dso2_trabalho1_merc.Result.{ok}
use ufsc_dso2_trabalho1_merc.Action.{Transactions}
use ufsc_dso2_trabalho1_merc.Action.Laws.{transaction-keeps}
use ufsc_dso2_trabalho1_merc.Database.{Uuid, Date, OrderItemRow, Db}
use ufsc_dso2_trabalho1_merc.Products.Stock.{stock}
use ufsc_dso2_trabalho1_merc.Carts.{clear}
use ufsc_dso2_trabalho1_merc.Events.{append_many, notify_many}
use ufsc_dso2_trabalho1_merc.Orders.{create_placed, find_by_checkout_idempotency_key}
use ufsc_dso2_trabalho1_merc.OrderItems.{item_rows, create_items}
use ufsc_dso2_trabalho1_merc.Pricing.{PricedLine, Fingerprint}
use ufsc_dso2_trabalho1_merc.Checkout.Plan.{CheckoutOrderRequest}
use ufsc_dso2_trabalho1_merc.Checkout.Persist.{
  Env, PlacedOrder, order_item, plan_items, record_events,
}
use ufsc_dso2_trabalho1_merc.Checkout.Placing.{create_order-IsPlacing}
use ufsc_dso2_trabalho1_merc.Checkout.Stock.{demand, stock-decrement_all}
use ufsc_dso2_trabalho1_merc.Checkout.Retry.{replays}
use ufsc_dso2_trabalho1_merc.Checkout.Service.{create_order, create_order_in_transaction}

-- How many pieces of a product the rows of `order_items` sell.
abbrev pub sold : String → Uuid → List OrderItemRow → ℕ
sold t p rows =
    sum_of (λ row. if str_eq row.tenant_id t && row.product_id == p then row.quantity else 0) rows

-- The pieces in stock and those in orders.
abbrev pub supply : String → Uuid → Db → ℕ
supply t p db = stock t p db.products + sold t p db.order_items

module _ (t : String) (p : Uuid) where
  sold-item_rows :
      (new_id : ℕ → Uuid) (i : ℕ) (now : Date) (tenant_id : String) (order_id : Uuid)
      (currency : String) (lines : List PricedLine)
      → sold t p (item_rows new_id i now (map (order_item tenant_id order_id currency) lines))
        ≡ demand tenant_id t p (map (order_item tenant_id order_id currency) lines)
  sold-item_rows new_id i now tenant_id order_id currency [] = refl
  sold-item_rows new_id i now tenant_id order_id currency (line ∷ lines) =
      ap (λ n. (if str_eq tenant_id t && line.product.id == p then line.quantity else 0) + n)
        (sold-item_rows new_id (i + 1) now tenant_id order_id currency lines)

  placed-supply :
      (quote_hash : Fingerprint → String) (tx : Transactions Db) (env : Env) (tenant_id : String)
      (user_id key : Uuid) (selection : Option CheckoutOrderRequest) (db : Db)
      {placed : PlacedOrder} {db' : Db}
      → find_by_checkout_idempotency_key tenant_id user_id key db ≡ none
      → create_order quote_hash tx env tenant_id user_id key selection db ≡ (ok placed, db')
      → supply t p db' ≡ supply t p db
  unfolding create_placed create_items record_events append_many clear notify_many
  placed-supply quote_hash tx env tenant_id user_id key selection db {db'} unused h =
      let placing =
        create_order-IsPlacing quote_hash env tenant_id user_id key selection tx db unused h in
      let plan = placing.plan in
      let (end, ran, _, same) = placing.written in
      let loop =
        stock-decrement_all env.stock_clock tenant_id t p 0 (plan_items env tenant_id plan) _ ran in
      let rows =
        sold-item_rows env.item_id 0 env.now tenant_id env.order_id plan.tenant.currency_code
          plan.lines in
      let added =
        sum_of-append
          (λ row. if str_eq row.tenant_id t && row.product_id == p then row.quantity else 0)
          db.order_items (item_rows env.item_id 0 env.now (plan_items env tenant_id plan)) in
      ap (supply t p) same ∙ omega (arith, loop, rows, added)

  -- A checkout, whether it returns or throws, moves pieces from the stock to the orders only.
  pub create_order-supply :
      (quote_hash : Fingerprint → String) (tx : Transactions Db) (env : Env) (tenant_id : String)
      (user_id key : Uuid) (selection : Option CheckoutOrderRequest) (db : Db)
      → supply t p (create_order quote_hash tx env tenant_id user_id key selection db).1
        ≡ supply t p db
  unfolding create_order
  create_order-supply quote_hash tx env tenant_id user_id key selection db =
      let work = create_order_in_transaction quote_hash env tenant_id user_id key selection in
      transaction-keeps tx work (λ d. supply t p d ≡ supply t p db) refl
        (λ placed db' ran.
          elim (Option-cases (find_by_checkout_idempotency_key tenant_id user_id key db)) [
            | inl unused ↦
                placed-supply quote_hash tx env tenant_id user_id key selection db unused
                  (tx.commits work db db' placed ran)
            | inr (order, found) ↦ ap (supply t p) (
                ap (λ r. r.1)
                  (sym ran ∙ replays quote_hash tx tenant_id user_id key env selection db found))
          ])
