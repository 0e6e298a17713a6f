-- ===== src/Marketplace/Later.antt =====
-- What may become of an order, whatever is called.
use ufsc_dso2_trabalho1_merc.Prelude.{String, some, ◌≡◌, ◌∙◌, ap}
use ufsc_dso2_trabalho1_merc.Sql.{select_one}
use ufsc_dso2_trabalho1_merc.Action.{Transactions}
use ufsc_dso2_trabalho1_merc.Database.{Uuid, OrderRow, Db}
use ufsc_dso2_trabalho1_merc.Carts.Tables.{set_item_keeps, remove_item_keeps}
use ufsc_dso2_trabalho1_merc.Events.{update_read}
use ufsc_dso2_trabalho1_merc.Orders.{is_order}
use ufsc_dso2_trabalho1_merc.Orders.Later.{unmoved, Later-trans, IsFinal, Later-IsFinal}
use ufsc_dso2_trabalho1_merc.Pricing.{Fingerprint}
use ufsc_dso2_trabalho1_merc.Checkout.Later.{create_order_keeps}
use ufsc_dso2_trabalho1_merc.Fulfilment.Later.{HasLater, update_order_status-HasLater}
use ufsc_dso2_trabalho1_merc.Marketplace.{
  Call, checkout, status_change, cart_set, cart_removal, notification_read, Calls, idle,
  followed_by,
}

module _ (quote_hash : Fingerprint → String) (tx : Transactions Db) (t : String) (id : Uuid) where
  Call-HasLater :
      {db db' : Db} {row : OrderRow}
      → Call quote_hash tx db db'
      → select_one (is_order t id) db.orders ≡ some row
      → HasLater t id row db'
  unfolding update_read
  Call-HasLater {db} {row} (checkout env tenant_id user_id key selection fresh) e =
      (row, create_order_keeps t id quote_hash tx env tenant_id user_id key selection db e, unmoved)
  Call-HasLater {db} (status_change env user_id tenant_id order_id status) e =
      update_order_status-HasLater env user_id tenant_id order_id status t id tx db e
  Call-HasLater {db} {row} (cart_set new_id now tenant_id buyer_id product_id quantity) e =
      set_item_keeps (HasLater t id row) new_id now tenant_id buyer_id product_id quantity db
        (λ _ _. (row, e, unmoved))
  Call-HasLater {db} {row} (cart_removal now tenant_id buyer_id product_id) e =
      remove_item_keeps (HasLater t id row) now tenant_id buyer_id product_id db
        (λ _ _. (row, e, unmoved))
  Call-HasLater {row} (notification_read now tenant_id user_id notification_id read) e =
      (row, e, unmoved)

  -- An order is never lost: after any sequence of calls, returning or throwing, its row is there,
  -- the same but for the status, which has moved by steps of the life cycle only, and for the
  -- date of the last move.
  pub Calls-HasLater :
      {db db' : Db} {row : OrderRow}
      → Calls quote_hash tx db db'
      → select_one (is_order t id) db.orders ≡ some row
      → HasLater t id row db'
  Calls-HasLater {row} idle e = (row, e, unmoved)
  Calls-HasLater (followed_by before call) e =
      let (mid, found, later) = Calls-HasLater before e in
      let (end, found', later') = Call-HasLater call found in
      (end, found', Later-trans later later')

  -- A delivered or cancelled order stays exactly as it is, whatever is called.
  pub Calls-IsFinal :
      {db db' : Db} {row : OrderRow}
      → Calls quote_hash tx db db'
      → select_one (is_order t id) db.orders ≡ some row
      → IsFinal row.status
      → select_one (is_order t id) db'.orders ≡ some row
  Calls-IsFinal calls e final =
      let (end, found, later) = Calls-HasLater calls e in
      found ∙ ap (λ r. some r) (Later-IsFinal final later)
