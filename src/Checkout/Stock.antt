-- ===== src/Checkout/Stock.antt =====
-- What an order takes from the stock.
use ufsc_dso2_trabalho1_merc.Prelude.{
  ℕ, ◌+◌, String, List, [], ◌∷◌, map, ◌≡◌, refl, ap, ◌∙◌, arith, if◌then◌else◌, str_eq, sum_of,
  Option, none, some,
}
use ufsc_dso2_trabalho1_merc.Result.{ok}
use ufsc_dso2_trabalho1_merc.Action.{Transactions}
use ufsc_dso2_trabalho1_merc.Database.{Uuid, Date, Db}
use ufsc_dso2_trabalho1_merc.Products.Stock.{stock, taken, stock-decrement}
use ufsc_dso2_trabalho1_merc.Orders.{create_placed}
use ufsc_dso2_trabalho1_merc.OrderItems.{CheckoutOrderItem, create_items}
use ufsc_dso2_trabalho1_merc.Products.{ProductRecord}
use ufsc_dso2_trabalho1_merc.Database.{CartRow, CartItemRow}
use ufsc_dso2_trabalho1_merc.Sql.{select, select_one}
use ufsc_dso2_trabalho1_merc.Carts.{
  CheckoutCart, CheckoutCartItem, is_cart_of, is_item_of, is_item_for, find_for_checkout, map_cart,
  to_checkout_cart, to_checkout_item, cart_items_of, clear,
}
use ufsc_dso2_trabalho1_merc.Pricing.{PricedLine, Fingerprint}
use ufsc_dso2_trabalho1_merc.Checkout.Lines.{AreLinesOf, price_items-AreLinesOf, map_get-id}
use ufsc_dso2_trabalho1_merc.Checkout.Writes.{granted, decrement_all-cons}
use ufsc_dso2_trabalho1_merc.Checkout.Plan.{CheckoutOrderRequest}
use ufsc_dso2_trabalho1_merc.Checkout.Placing.{create_order-IsPlacing}
use ufsc_dso2_trabalho1_merc.Checkout.Service.{create_order}
use ufsc_dso2_trabalho1_merc.Prelude.Order.{order_by, sum_of-order_by}
use ufsc_dso2_trabalho1_merc.Orders.{find_by_checkout_idempotency_key}
use ufsc_dso2_trabalho1_merc.Events.{append_many, notify_many}
use ufsc_dso2_trabalho1_merc.Checkout.Persist.{
  Env, PlacedOrder, decrement_all, record_events, plan_items, order_item,
}

-- What the items take from the stock of `p` of the tenant `t`.
abbrev pub demand : String → String → Uuid → List CheckoutOrderItem → ℕ
demand tenant_id t p items = sum_of (λ item. taken tenant_id item.product item.quantity t p) items

module _ (clock : ℕ → Date) (tenant_id t : String) (p : Uuid) where
  -- The loop over the items takes exactly their demand.
  pub stock-decrement_all :
      (i : ℕ) (items : List CheckoutOrderItem) (db : Db) {db' : Db}
      → decrement_all clock i tenant_id items db ≡ (ok tt, db')
      → stock t p db'.products + demand tenant_id t p items ≡ stock t p db.products
  unfolding decrement_all
  stock-decrement_all i [] db h = rw (← ap (λ r. r.1) h) (omega arith)
  stock-decrement_all i (item ∷ items) db {db'} h =
      let (first, rest) = decrement_all-cons clock tenant_id i item items db h in
      omega (
        arith,
        stock-decrement tenant_id item.product item.quantity (clock i) t p db first,
        stock-decrement_all (i + 1) items (granted clock tenant_id i item items db).1 rest,
      )

-- How many pieces of `p` the rows of a cart hold.
abbrev pub quantity_in : String → Uuid → Uuid → List CartItemRow → ℕ
quantity_in tenant_id p cart_id rows =
    sum_of (λ row. if is_item_for tenant_id cart_id p row then row.quantity else 0) rows

module _ (tenant_id t : String) (p : Uuid) where
  -- The items of an order demand what the cart's items do.
  demand-lines :
      (order_id : Uuid) (currency : String) (products : List ProductRecord)
      (items : List CheckoutCartItem) (lines : List PricedLine)
      → AreLinesOf currency products items lines
      → demand tenant_id t p (map (order_item tenant_id order_id currency) lines)
        ≡ sum_of (λ item. taken tenant_id item.product_id item.quantity t p) items
  demand-lines order_id currency products [] [] h = refl
  demand-lines order_id currency products [] (line ∷ lines) h = elim h [ ]
  demand-lines order_id currency products (item ∷ items) [] h = elim h [ ]
  demand-lines order_id currency products (item ∷ items) (line ∷ lines) (first, rest) = ground (
    arith,
    first.quantity,
    map_get-id item.product_id products first.product,
    demand-lines order_id currency products items lines rest,
  )

  taken-rows :
      (cart_id : Uuid) (rows : List CartItemRow)
      → sum_of
          (λ row. taken tenant_id row.product_id row.quantity t p)
          (select (is_item_of tenant_id cart_id) rows)
        ≡ (if str_eq tenant_id t then quantity_in tenant_id p cart_id rows else 0)
  taken-rows cart_id [] = ground arith
  taken-rows cart_id (row ∷ rows) = ground (arith, taken-rows cart_id rows)

-- How many pieces of `p` the buyer's cart holds.
abbrev quantity_found : String → Uuid → List CartItemRow → Option CartRow → ℕ
quantity_found tenant_id p rows none = 0
quantity_found tenant_id p rows (some cart) = quantity_in tenant_id p cart.id rows

abbrev pub in_cart : String → Uuid → Uuid → Db → ℕ
in_cart tenant_id user_id p db =
    quantity_found tenant_id p db.cart_items (select_one (is_cart_of tenant_id user_id) db.carts)

module _ (tenant_id t : String) (p : Uuid) where
  taken-checkout_items :
      (rows : List CartItemRow)
      → sum_of
          (λ item. taken tenant_id item.product_id item.quantity t p)
          (map to_checkout_item rows)
        ≡ sum_of (λ row. taken tenant_id row.product_id row.quantity t p) rows
  taken-checkout_items [] = refl
  taken-checkout_items (row ∷ rows) = omega (arith, taken-checkout_items rows)

  taken-found :
      (db : Db) (found : Option CartRow) {cart : CheckoutCart}
      → map_cart (to_checkout_cart db tenant_id) found ≡ some cart
      → sum_of (λ item. taken tenant_id item.product_id item.quantity t p) cart.items
        ≡ (if str_eq tenant_id t then quantity_found tenant_id p db.cart_items found else 0)
  taken-found db none h = cc
  taken-found db (some row) {cart} h =
      let rows = cart_items_of tenant_id row.id db in
      let items : cart.items ≡ map to_checkout_item (order_by (λ r. r.product_id) rows) = cc in
      rw items (
        taken-checkout_items (order_by (λ r. r.product_id) rows)
        ∙ sum_of-order_by (λ r. r.product_id) (λ r. taken tenant_id r.product_id r.quantity t p)
            rows
        ∙ taken-rows tenant_id t p row.id db.cart_items)

-- When an order is placed under an unused key, the stock of every product of every tenant falls by
-- exactly what the buyer's cart held of it.
pub stock-create_order :
    (quote_hash : Fingerprint → String) (tx : Transactions Db) (env : Env) (tenant_id : String)
    (user_id key : Uuid) (selection : Option CheckoutOrderRequest) (db : Db) {placed : PlacedOrder}
    {db' : Db}
    → find_by_checkout_idempotency_key tenant_id user_id key db ≡ none
    → create_order quote_hash tx env tenant_id user_id key selection db ≡ (ok placed, db')
    → (t : String) (p : Uuid)
    → stock t p db'.products + (if str_eq tenant_id t then in_cart tenant_id user_id p db else 0)
      ≡ stock t p db.products
unfolding find_for_checkout create_placed create_items record_events append_many clear notify_many
stock-create_order quote_hash tx env tenant_id user_id key selection db {placed} {db'} unused h t
      p =
    let placing =
      create_order-IsPlacing quote_hash env tenant_id user_id key selection tx db unused h in
    let plan = placing.plan in
    let (end, ran, same_placed, same_db) = placing.written in
    let loop =
      stock-decrement_all env.stock_clock tenant_id t p 0 (plan_items env tenant_id plan) _ ran in
    let sold =
      demand-lines tenant_id t p env.order_id plan.tenant.currency_code plan.products
        placing.cart.items plan.lines
        (price_items-AreLinesOf plan.tenant.currency_code plan.products 0 placing.cart.items
          placing.planned.priced) in
    let held = taken-found tenant_id t p db _ placing.in_cart in
    let rows : db'.products ≡ end.products = ap (λ d. d.products) same_db in
    rw rows (omega (arith, loop, sold, held))
