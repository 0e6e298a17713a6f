-- ===== src/Fulfilment/Recorded.antt =====
-- The status histories, before and after `updateOrderStatus`.
use ufsc_dso2_trabalho1_merc.Prelude.{
  ◌+◌, String, Bool, true, false, Option, none, some, List, [], ◌∷◌, ◌++◌, ◌≡◌, refl, sym, subst,
  arith, str_eq_iff, str_eq_refl, ==_refl,
}
use ufsc_dso2_trabalho1_merc.Sql.{select, select_one}
use ufsc_dso2_trabalho1_merc.Sql.Laws.{select_one-All, select_one_holds, update-All}
use ufsc_dso2_trabalho1_merc.Action.{Transactions}
use ufsc_dso2_trabalho1_merc.Action.Laws.{transaction-keeps}
use ufsc_dso2_trabalho1_merc.OrderStatus.{OrderStatus}
use ufsc_dso2_trabalho1_merc.OrderStatus.Lifecycle.{Moves}
use ufsc_dso2_trabalho1_merc.Database.{Uuid, Date, OrderRow, StatusHistoryRow, Db}
use ufsc_dso2_trabalho1_merc.Events.{append_many, notify_many}
use ufsc_dso2_trabalho1_merc.Orders.{
  CheckoutOrder, find_by_id, map_order, map_order_found, is_order, is_history_of, history_of,
  update_status, latest_sequence,
}
use ufsc_dso2_trabalho1_merc.Orders.History.{
  AreRecorded, Reaches, statuses, IsRecorded, history_of-append, history_of-other,
}
use ufsc_dso2_trabalho1_merc.Checkout.Persist.{PlacedOrder}
use ufsc_dso2_trabalho1_merc.Fulfilment.{
  Env, is_buyer_cancellation, update_order_status, update_order_status_in_transaction,
}
use ufsc_dso2_trabalho1_merc.Fulfilment.Access.{
  Goes, kept, stepped, in_transaction-IsUpdate, permitted_step,
}
use ufsc_dso2_trabalho1_merc.Fulfilment.Change.{changed, change_status_writes, buyer_cancels}

is_order-eq :
    (tenant_id : String) (order_id : Uuid) (row : OrderRow)
    → is_order tenant_id order_id row ≡ true
    → (row.tenant_id ≡ tenant_id) × (row.id ≡ order_id)
is_order-eq tenant_id order_id row h = ground (arith, str_eq_iff row.tenant_id tenant_id)

module _ (tenant_id : String) (order_id : Uuid) (status : OrderStatus) (user_id : Uuid) (now : Date)
    (history : List StatusHistoryRow) where
  abbrev entry : StatusHistoryRow
  entry = record {
    tenant_id = tenant_id;
    order_id = order_id;
    sequence = latest_sequence (select (is_history_of tenant_id order_id) history) + 1;
    status = status;
    actor_id = user_id;
    changed_at = now;
  }

  abbrev set : OrderRow → OrderRow
  set row = record row { status = status; updated_at = now }

  other_order :
      (row : OrderRow)
      → is_order tenant_id order_id row ≡ false
      → is_history_of row.tenant_id row.id entry ≡ false
  other_order row h =
      ground (arith, str_eq_iff row.tenant_id tenant_id, str_eq_iff tenant_id row.tenant_id)

  -- The changed order, if the change is a move from the status that its history ends in.
  changed-IsRecorded :
      (from : OrderStatus) (row : OrderRow)
      → Reaches (statuses (history_of tenant_id order_id history)) from
      → Moves from status
      → is_order tenant_id order_id row ≡ true
      → IsRecorded (history ++ entry ∷ []) (set row)
  changed-IsRecorded from row reached moves own =
      let (same_tenant, same_id) = is_order-eq tenant_id order_id row own in
      let path =
        history_of-append tenant_id order_id history entry
          (rw (str_eq_refl tenant_id, ==_refl order_id) refl) refl in
      rw (same_tenant, same_id, path) (Reaches.step reached moves)

  kept-IsRecorded :
      (row : OrderRow)
      → is_order tenant_id order_id row ≡ false
      → IsRecorded history row
      → IsRecorded (history ++ entry ∷ []) row
  kept-IsRecorded row other recorded =
      subst (λ h. Reaches (statuses h) row.status)
        (sym (history_of-other row.tenant_id row.id history entry (other_order row other))) recorded

found-Reaches :
    (tenant_id : String) (order_id : Uuid) (db : Db) (found : Option OrderRow)
    {order : CheckoutOrder}
    → select_one (is_order tenant_id order_id) db.orders ≡ found
    → map_order_found db found ≡ some order
    → AreRecorded db
    → Reaches (statuses (history_of tenant_id order_id db.status_history)) order.status
unfolding map_order
found-Reaches tenant_id order_id db none e h recorded = cc
found-Reaches tenant_id order_id db (some row) {order} e h recorded =
    let (same_tenant, same_id) =
      is_order-eq tenant_id order_id row
        (select_one_holds (is_order tenant_id order_id) db.orders e) in
    let reached : IsRecorded db.status_history row =
      select_one-All (is_order tenant_id order_id) (IsRecorded db.status_history)
        (IsRecorded db.status_history) db.orders recorded e in
    let same : row.status ≡ order.status = cc in rw (← same) (rw (same_tenant, same_id) at reached)

module _ (env : Env) (user_id : Uuid) (tenant_id : String) (order_id : Uuid)
    (status : OrderStatus) where
  changed-AreRecorded :
      (order : CheckoutOrder) (db : Db)
      → find_by_id tenant_id order_id db ≡ some order
      → Moves order.status status
      → AreRecorded db
      → AreRecorded (changed env user_id tenant_id order_id status order db)
  unfolding find_by_id update_status append_many notify_many
  changed-AreRecorded order db found moves recorded =
      update-All (is_order tenant_id order_id) (IsRecorded db.status_history) (IsRecorded _)
        (set tenant_id order_id status user_id env.now db.status_history) db.orders
        (λ row own _.
          changed-IsRecorded tenant_id order_id status user_id env.now db.status_history
            order.status row (found-Reaches tenant_id order_id db _ refl found recorded) moves own)
        (λ row other h.
          kept-IsRecorded tenant_id order_id status user_id env.now db.status_history row other h)
        recorded

  Goes-AreRecorded :
      (db : Db) (order : CheckoutOrder) {seller : Bool} {r : PlacedOrder} {db' : Db}
      → find_by_id tenant_id order_id db ≡ some order
      → AreRecorded db
      → Goes env user_id tenant_id order_id status order seller
          (is_buyer_cancellation user_id status order)
          db
          r
          db'
      → AreRecorded db'
  Goes-AreRecorded db order found recorded (kept same shown unchanged) =
      subst AreRecorded (sym unchanged) recorded
  Goes-AreRecorded db order {seller} found recorded (stepped allowed ran) =
      let (_, _, _, same) =
        change_status_writes env user_id tenant_id order_id status order
          (is_buyer_cancellation user_id status order) db ran in
      let (moves, _) =
        permitted_step seller (is_buyer_cancellation user_id status order) order.status status
          allowed (λ b. (buyer_cancels order b).1) in
      subst AreRecorded (sym same) (changed-AreRecorded order db found moves recorded)

  -- If the history of every order leads from placed to the order's status by steps of the life
  -- cycle, it still does after any call of `updateOrderStatus`, whether it returns or throws.
  pub update_order_status-AreRecorded :
      (tx : Transactions Db) (db : Db)
      → AreRecorded db
      → AreRecorded (update_order_status env user_id tenant_id order_id status tx db).1
  unfolding update_order_status
  update_order_status-AreRecorded tx db recorded =
      transaction-keeps tx
        (update_order_status_in_transaction env user_id tenant_id order_id status) AreRecorded
        recorded
        (λ r db' ran.
          let u = in_transaction-IsUpdate env user_id tenant_id order_id status _ db refl ran in
          Goes-AreRecorded db u.order u.found recorded u.goes)
