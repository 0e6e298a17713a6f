-- ===== src/Marketplace/Supply.antt =====
-- The stock and the orders after any calls.
use ufsc_dso2_trabalho1_merc.Prelude.{String, ◌≡◌, refl, ◌∙◌}
use ufsc_dso2_trabalho1_merc.Action.{Transactions}
use ufsc_dso2_trabalho1_merc.Database.{Uuid, Db}
use ufsc_dso2_trabalho1_merc.Carts.Tables.{set_item_keeps, remove_item_keeps}
use ufsc_dso2_trabalho1_merc.Events.{update_read}
use ufsc_dso2_trabalho1_merc.Pricing.{Fingerprint}
use ufsc_dso2_trabalho1_merc.Checkout.Supply.{supply, create_order-supply}
use ufsc_dso2_trabalho1_merc.Fulfilment.Supply.{update_order_status-supply}
use ufsc_dso2_trabalho1_merc.Marketplace.{
  Call, checkout, status_change, cart_set, cart_removal, notification_read, Calls, idle,
  followed_by,
}

module _ (quote_hash : Fingerprint → String) (tx : Transactions Db) (t : String) (p : Uuid) where
  Call-supply : {db db' : Db} → Call quote_hash tx db db' → supply t p db' ≡ supply t p db
  unfolding update_read
  Call-supply {db} (checkout env tenant_id user_id key selection fresh) =
      create_order-supply t p quote_hash tx env tenant_id user_id key selection db
  Call-supply {db} (status_change env user_id tenant_id order_id status) =
      update_order_status-supply env user_id tenant_id order_id status t p tx db
  Call-supply {db} (cart_set new_id now tenant_id buyer_id product_id quantity) =
      set_item_keeps (λ d. supply t p d ≡ supply t p db) new_id now tenant_id buyer_id product_id
        quantity db (λ _ _. refl)
  Call-supply {db} (cart_removal now tenant_id buyer_id product_id) =
      remove_item_keeps (λ d. supply t p d ≡ supply t p db) now tenant_id buyer_id product_id db
        (λ _ _. refl)
  Call-supply (notification_read now tenant_id user_id notification_id read) = refl

  -- Whatever sequence of the calls is made, returning or throwing, the pieces of a product in stock
  -- and those in the items of all orders, cancelled ones included, add up to the same.
  pub Calls-supply : {db db' : Db} → Calls quote_hash tx db db' → supply t p db' ≡ supply t p db
  Calls-supply idle = refl
  Calls-supply (followed_by before call) = Call-supply call ∙ Calls-supply before
