-- ===== src/Marketplace/History.antt =====
-- The status histories after any calls.
use ufsc_dso2_trabalho1_merc.Prelude.{[], ◌≡◌, String}
use ufsc_dso2_trabalho1_merc.Action.{Transactions}
use ufsc_dso2_trabalho1_merc.Database.{Db}
use ufsc_dso2_trabalho1_merc.Carts.Tables.{set_item_keeps, remove_item_keeps}
use ufsc_dso2_trabalho1_merc.Events.{update_read}
use ufsc_dso2_trabalho1_merc.Orders.History.{AreRecorded}
use ufsc_dso2_trabalho1_merc.Pricing.{Fingerprint}
use ufsc_dso2_trabalho1_merc.Checkout.Recorded.{create_order-AreRecorded}
use ufsc_dso2_trabalho1_merc.Fulfilment.Recorded.{update_order_status-AreRecorded}
use ufsc_dso2_trabalho1_merc.Marketplace.{
  Call, checkout, status_change, cart_set, cart_removal, notification_read, Calls, idle,
  followed_by,
}

module _ (quote_hash : Fingerprint → String) (tx : Transactions Db) where
  Call-AreRecorded : {db db' : Db} → Call quote_hash tx db db' → AreRecorded db → AreRecorded db'
  unfolding update_read
  Call-AreRecorded {db} (checkout env tenant_id user_id key selection fresh) recorded =
      create_order-AreRecorded quote_hash tx env tenant_id user_id key selection db fresh recorded
  Call-AreRecorded {db} (status_change env user_id tenant_id order_id status) recorded =
      update_order_status-AreRecorded env user_id tenant_id order_id status tx db recorded
  Call-AreRecorded {db} (cart_set new_id now tenant_id buyer_id product_id quantity) recorded =
      set_item_keeps AreRecorded new_id now tenant_id buyer_id product_id quantity db
        (λ _ _. recorded)
  Call-AreRecorded {db} (cart_removal now tenant_id buyer_id product_id) recorded =
      remove_item_keeps AreRecorded now tenant_id buyer_id product_id db (λ _ _. recorded)
  Call-AreRecorded (notification_read now tenant_id user_id notification_id read) recorded =
      recorded

  -- From a database without orders, any sequence of calls, whether they return or throw, leads to
  -- one where the history of every order leads from placed to the order's status by steps of the
  -- life cycle.
  pub Calls-AreRecorded :
      {db db' : Db} → db.orders ≡ [] → Calls quote_hash tx db db' → AreRecorded db'
  Calls-AreRecorded no_orders idle = rw no_orders tt
  Calls-AreRecorded no_orders (followed_by before call) =
      Call-AreRecorded call (Calls-AreRecorded no_orders before)
