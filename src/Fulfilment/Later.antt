-- ===== src/Fulfilment/Later.antt =====
-- What a change of status does to the rows of the orders.
use ufsc_dso2_trabalho1_merc.Prelude.{
  String, Bool, true, some, ◌≡◌, refl, ◌∙◌, arith, inl, inr, Bool-cases, str_eq_iff,
}
use ufsc_dso2_trabalho1_merc.Sql.{select_one}
use ufsc_dso2_trabalho1_merc.Sql.Laws.{select_one-update, select_one_holds}
use ufsc_dso2_trabalho1_merc.Action.{Transactions}
use ufsc_dso2_trabalho1_merc.Action.Laws.{transaction-keeps}
use ufsc_dso2_trabalho1_merc.OrderStatus.{OrderStatus}
use ufsc_dso2_trabalho1_merc.OrderStatus.Lifecycle.{Moves}
use ufsc_dso2_trabalho1_merc.Database.{Uuid, OrderRow, Db}
use ufsc_dso2_trabalho1_merc.Orders.{CheckoutOrder, find_by_id, map_order, is_order, update_status}
use ufsc_dso2_trabalho1_merc.Orders.Later.{Later, unmoved, moved}
use ufsc_dso2_trabalho1_merc.Events.{append_many, notify_many}
use ufsc_dso2_trabalho1_merc.Checkout.Persist.{PlacedOrder}
use ufsc_dso2_trabalho1_merc.Fulfilment.{
  Env, is_buyer_cancellation, update_order_status, update_order_status_in_transaction,
}
use ufsc_dso2_trabalho1_merc.Fulfilment.Access.{
  Goes, kept, stepped, in_transaction-IsUpdate, permitted_step,
}
use ufsc_dso2_trabalho1_merc.Fulfilment.Change.{changed, change_status_writes, buyer_cancels}

-- The order is still there, as it was or later.
abbrev pub HasLater : String → Uuid → OrderRow → Db → Type 0
HasLater t id row db =
    (row' : OrderRow) × (select_one (is_order t id) db.orders ≡ some row') × Later row row'

module _ (env : Env) (user_id : Uuid) (tenant_id : String) (order_id : Uuid) (status : OrderStatus)
    (t : String) (id : Uuid) where
  same_key :
      (row : OrderRow)
      → is_order t id row ≡ true
      → is_order tenant_id order_id row ≡ true
      → (t ≡ tenant_id) × (id ≡ order_id)
  same_key row h k = ground (arith, str_eq_iff row.tenant_id t, str_eq_iff row.tenant_id tenant_id)

  found_status :
      (db : Db) {row : OrderRow} {order : CheckoutOrder}
      → select_one (is_order tenant_id order_id) db.orders ≡ some row
      → find_by_id tenant_id order_id db ≡ some order
      → row.status ≡ order.status
  unfolding find_by_id map_order
  found_status db e h = cc (rw e at h)

  changed-HasLater :
      (order : CheckoutOrder) (db : Db) {row : OrderRow}
      → find_by_id tenant_id order_id db ≡ some order
      → Moves order.status status
      → select_one (is_order t id) db.orders ≡ some row
      → HasLater t id row (changed env user_id tenant_id order_id status order db)
  unfolding update_status append_many notify_many
  changed-HasLater order db {row} found moves e =
      let set = λ (r : OrderRow). record r { status = status; updated_at = env.now } in
      let after =
        select_one-update (is_order t id) (is_order tenant_id order_id) set db.orders (λ r. refl) in
      elim (Bool-cases (is_order tenant_id order_id row)) [
        | inl own ↦
            let (same_t, same_id) =
              same_key row (select_one_holds (is_order t id) db.orders e) own in
            let same = found_status db {row = row} (rw (← same_t, ← same_id) e) found in
            (set row, after ∙ rw (e, own) refl, moved status env.now unmoved (rw same moves))
        | inr other ↦ (row, after ∙ rw (e, other) refl, unmoved)
      ]

  Goes-HasLater :
      (db : Db) (order : CheckoutOrder) {seller : Bool} {r : PlacedOrder} {db' : Db}
      {row : OrderRow}
      → find_by_id tenant_id order_id db ≡ some order
      → select_one (is_order t id) db.orders ≡ some row
      → Goes env user_id tenant_id order_id status order seller
          (is_buyer_cancellation user_id status order)
          db
          r
          db'
      → HasLater t id row db'
  Goes-HasLater db order {row} found e (kept same shown unchanged) = rw unchanged (row, e, unmoved)
  Goes-HasLater db order {seller} {row} found e (stepped allowed ran) =
      let (_, _, _, same) =
        change_status_writes env user_id tenant_id order_id status order
          (is_buyer_cancellation user_id status order) db ran in
      let (moves, _) =
        permitted_step seller (is_buyer_cancellation user_id status order) order.status status
          allowed (λ b. (buyer_cancels order b).1) in
      rw same (changed-HasLater order db found moves e)

  pub update_order_status-HasLater :
      (tx : Transactions Db) (db : Db) {row : OrderRow}
      → select_one (is_order t id) db.orders ≡ some row
      → HasLater t id row (update_order_status env user_id tenant_id order_id status tx db).1
  unfolding update_order_status
  update_order_status-HasLater tx db {row} e =
      transaction-keeps tx
        (update_order_status_in_transaction env user_id tenant_id order_id status)
        (HasLater t id row) (row, e, unmoved)
        (λ r db' ran.
          let u = in_transaction-IsUpdate env user_id tenant_id order_id status _ db refl ran in
          Goes-HasLater db u.order u.found e u.goes)
