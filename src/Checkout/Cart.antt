-- ===== src/Checkout/Cart.antt =====
-- What an order does to the cart that it was made from.
use ufsc_dso2_trabalho1_merc.Prelude.{
  String, List, [], Option, some, none, ◌≡◌, ap, refl, sym, ◌∙◌, arith, if◌then◌else◌,
}
use ufsc_dso2_trabalho1_merc.Sql.{select_one}
use ufsc_dso2_trabalho1_merc.Sql.Laws.{select-delete, select_one-update}
use ufsc_dso2_trabalho1_merc.Result.{ok, err, app_error, empty_cart}
use ufsc_dso2_trabalho1_merc.Action.{Transactions}
use ufsc_dso2_trabalho1_merc.Database.{Uuid, Date, ProductRow, CartRow, Db}
use ufsc_dso2_trabalho1_merc.Carts.{
  CheckoutCart, is_cart, is_cart_of, touched, is_item_of, find_for_checkout, map_cart,
  to_checkout_cart, clear,
}
use ufsc_dso2_trabalho1_merc.Orders.{find_by_checkout_idempotency_key, create_placed}
use ufsc_dso2_trabalho1_merc.OrderItems.{create_items}
use ufsc_dso2_trabalho1_merc.Events.{append_many, notify_many}
use ufsc_dso2_trabalho1_merc.Pricing.{Fingerprint}
use ufsc_dso2_trabalho1_merc.Checkout.Plan.{CheckoutOrderRequest, OrderPlan, plan_cart, plan_order}
use ufsc_dso2_trabalho1_merc.Checkout.Persist.{Env, PlacedOrder, record_events}
use ufsc_dso2_trabalho1_merc.Checkout.Writes.{ordered}
use ufsc_dso2_trabalho1_merc.Checkout.Placing.{create_order-IsPlacing}
use ufsc_dso2_trabalho1_merc.Checkout.Service.{
  persist_plan, create_or_replay, create_order_in_transaction, create_order,
}

abbrev touch : String → Uuid → Date → CartRow → CartRow
touch tenant_id cart_id now row = if is_cart tenant_id cart_id row then touched now row else row

touch-id :
    (tenant_id : String) (cart_id : Uuid) (now : Date) (row : CartRow)
    → (touch tenant_id cart_id now row).id ≡ row.id
touch-id tenant_id cart_id now row = ground arith

module _ (env : Env) (tenant_id : String) (user_id key : Uuid) (plan : OrderPlan)
    (rows : List ProductRow) (db : Db) where
  -- The buyer still has the cart, and it is empty.
  cart-ordered :
      (found : Option CartRow) {cart : CheckoutCart}
      → select_one (is_cart_of tenant_id user_id) db.carts ≡ found
      → map_cart (to_checkout_cart db tenant_id) found ≡ some cart
      → plan.cart_id ≡ cart.id
      → (cart' : CheckoutCart) × (find_for_checkout tenant_id user_id
            (ordered env tenant_id user_id key plan rows db)
          ≡ some cart')
        × (cart'.items ≡ [])
  unfolding find_for_checkout record_events append_many clear notify_many create_placed create_items
  cart-ordered none h k same = cc
  cart-ordered (some row) {cart} h k same =
      let row' = touch tenant_id plan.cart_id env.cart_clock row in
      let same_id : row'.id ≡ plan.cart_id =
        touch-id tenant_id plan.cart_id env.cart_clock row ∙ sym (same ∙ cc) in
      let after = ordered env tenant_id user_id key plan rows db in
      (
        to_checkout_cart after tenant_id row',
        rw
            (
              select_one-update (is_cart_of tenant_id user_id) (is_cart tenant_id plan.cart_id)
                  (touched env.cart_clock) db.carts (λ a. refl),
              h,
            )
            refl,
        rw (same_id, select-delete (is_item_of tenant_id plan.cart_id) db.cart_items) refl,
      )

-- With an empty cart there is no plan.
plan_order-empty :
    (quote_hash : Fingerprint → String) (tenant_id : String) (user_id : Uuid) (cart : CheckoutCart)
    (selection : Option CheckoutOrderRequest) (db : Db)
    → cart.items ≡ []
    → plan_order quote_hash tenant_id user_id (some cart) selection db
      ≡ err (app_error 400 empty_cart)
unfolding plan_order plan_cart
plan_order-empty quote_hash tenant_id user_id cart selection db h = rw h refl

empty_cart_throws :
    (quote_hash : Fingerprint → String) (env : Env) (tenant_id : String) (user_id key : Uuid)
    (selection : Option CheckoutOrderRequest) (db : Db) (cart : CheckoutCart)
    → find_by_checkout_idempotency_key tenant_id user_id key db ≡ none
    → find_for_checkout tenant_id user_id db ≡ some cart
    → cart.items ≡ []
    → create_order_in_transaction quote_hash env tenant_id user_id key selection db
      ≡ (err (app_error 400 empty_cart), db)
unfolding create_order_in_transaction create_or_replay persist_plan
empty_cart_throws quote_hash env tenant_id user_id key selection db cart unused found empty =
    rw
      (
        unused,
        create_or_replay,
        found,
        plan_order-empty quote_hash tenant_id user_id cart selection db empty,
        persist_plan,
      )
      refl

-- An order empties the cart that it sold: whatever the same buyer orders next under a key that is
-- not used yet, with nothing put into the cart in between, is refused with EMPTY_CART, and the
-- database stays as the first order left it.
pub create_order-sells_once :
    (quote_hash : Fingerprint → String) (tx : Transactions Db) (env env' : Env) (tenant_id : String)
    (user_id key key' : Uuid) (selection selection' : Option CheckoutOrderRequest) (db : Db)
    {placed : PlacedOrder} {db' : Db}
    → find_by_checkout_idempotency_key tenant_id user_id key db ≡ none
    → create_order quote_hash tx env tenant_id user_id key selection db ≡ (ok placed, db')
    → find_by_checkout_idempotency_key tenant_id user_id key' db' ≡ none
    → create_order quote_hash tx env' tenant_id user_id key' selection' db'
      ≡ (err (app_error 400 empty_cart), db')
unfolding create_order find_for_checkout
create_order-sells_once quote_hash tx env env' tenant_id user_id key key' selection selection' db
      {placed} {db'} unused h unused' =
    let placing =
      create_order-IsPlacing quote_hash env tenant_id user_id key selection tx db unused h in
    let (end, _, _, same_db) = placing.written in
    let (cart', found, empty) =
      cart-ordered env tenant_id user_id key placing.plan end.products db _ refl placing.in_cart
        placing.planned.cart_id in
    tx.rolls_back (create_order_in_transaction quote_hash env' tenant_id user_id key' selection')
      db' db' (app_error 400 empty_cart)
      (empty_cart_throws quote_hash env' tenant_id user_id key' selection' db' cart' unused'
        (ap (find_for_checkout tenant_id user_id) same_db ∙ found) empty)
