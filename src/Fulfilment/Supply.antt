-- ===== src/Fulfilment/Supply.antt =====
-- The stock and the items of the orders, before and after `updateOrderStatus`.
use ufsc_dso2_trabalho1_merc.Prelude.{String, Bool, ◌≡◌, refl, ap}
use ufsc_dso2_trabalho1_merc.Action.{Transactions}
use ufsc_dso2_trabalho1_merc.Action.Laws.{transaction-keeps}
use ufsc_dso2_trabalho1_merc.OrderStatus.{OrderStatus}
use ufsc_dso2_trabalho1_merc.Database.{Uuid, Db}
use ufsc_dso2_trabalho1_merc.Orders.{CheckoutOrder, update_status}
use ufsc_dso2_trabalho1_merc.Events.{append_many, notify_many}
use ufsc_dso2_trabalho1_merc.Checkout.Persist.{PlacedOrder}
use ufsc_dso2_trabalho1_merc.Checkout.Supply.{supply}
use ufsc_dso2_trabalho1_merc.Fulfilment.{
  Env, update_order_status, update_order_status_in_transaction,
}
use ufsc_dso2_trabalho1_merc.Fulfilment.Access.{Goes, kept, stepped, in_transaction-IsUpdate}
use ufsc_dso2_trabalho1_merc.Fulfilment.Change.{change_status_writes}

module _ (env : Env) (user_id : Uuid) (tenant_id : String) (order_id : Uuid) (status : OrderStatus)
    (t : String) (p : Uuid) where
  Goes-supply :
      {order : CheckoutOrder} {seller buyer : Bool} {db : Db} {r : PlacedOrder} {db' : Db}
      → Goes env user_id tenant_id order_id status order seller buyer db r db'
      → supply t p db' ≡ supply t p db
  unfolding update_status append_many notify_many
  Goes-supply (kept same shown unchanged) = ap (supply t p) unchanged
  Goes-supply {order} {buyer} {db} (stepped allowed ran) =
      let (_, _, _, same) =
        change_status_writes env user_id tenant_id order_id status order buyer db ran in
      ap (supply t p) same

  pub update_order_status-supply :
      (tx : Transactions Db) (db : Db)
      → supply t p (update_order_status env user_id tenant_id order_id status tx db).1
        ≡ supply t p db
  unfolding update_order_status
  update_order_status-supply tx db =
      transaction-keeps tx
        (update_order_status_in_transaction env user_id tenant_id order_id status)
        (λ d. supply t p d ≡ supply t p db) refl
        (λ r db' ran.
          Goes-supply
            (in_transaction-IsUpdate env user_id tenant_id order_id status _ db refl ran).goes)
