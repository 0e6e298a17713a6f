-- ===== src/Checkout/Recorded.antt =====
-- The status history that a checkout leaves behind.
use ufsc_dso2_trabalho1_merc.Prelude.{
  String, false, Option, List, [], ◌∷◌, ◌++◌, ◌≡◌, ap, sym, ◌∙◌, subst, arith, All-append, inl, inr,
  Option-cases, str_eq_iff, str_eq_refl, ==_refl,
}
use ufsc_dso2_trabalho1_merc.Sql.Laws.{absent-All, select-append, select-eq-nil}
use ufsc_dso2_trabalho1_merc.Action.{Transactions}
use ufsc_dso2_trabalho1_merc.Action.Laws.{transaction-keeps}
use ufsc_dso2_trabalho1_merc.OrderStatus.{placed}
use ufsc_dso2_trabalho1_merc.Database.{Uuid, Date, ProductRow, OrderRow, StatusHistoryRow, Db}
use ufsc_dso2_trabalho1_merc.Carts.{clear}
use ufsc_dso2_trabalho1_merc.Events.{append_many, notify_many}
use ufsc_dso2_trabalho1_merc.Orders.{
  is_order, is_history_of, create_placed, placed_row, find_by_checkout_idempotency_key,
}
use ufsc_dso2_trabalho1_merc.OrderItems.{create_items}
use ufsc_dso2_trabalho1_merc.Orders.History.{
  Reaches, statuses, IsRecorded, AreRecorded, history_of-other,
}
use ufsc_dso2_trabalho1_merc.Pricing.{Fingerprint}
use ufsc_dso2_trabalho1_merc.Checkout.Plan.{CheckoutOrderRequest, OrderPlan}
use ufsc_dso2_trabalho1_merc.Checkout.Persist.{Env, record_events}
use ufsc_dso2_trabalho1_merc.Checkout.Writes.{ordered}
use ufsc_dso2_trabalho1_merc.Checkout.Placing.{create_order-IsPlacing}
use ufsc_dso2_trabalho1_merc.Checkout.Retry.{IsFresh, replays}
use ufsc_dso2_trabalho1_merc.Checkout.Service.{create_order, create_order_in_transaction}

module _ (tenant_id : String) (order_id user_id : Uuid) (now : Date) where
  abbrev first_entry : StatusHistoryRow
  first_entry = record {
    tenant_id = tenant_id;
    order_id = order_id;
    sequence = 1;
    status = placed;
    actor_id = user_id;
    changed_at = now;
  }

  other_order :
      (row : OrderRow)
      → is_order tenant_id order_id row ≡ false
      → is_history_of row.tenant_id row.id first_entry ≡ false
  other_order row h =
      ground (arith, str_eq_iff row.tenant_id tenant_id, str_eq_iff tenant_id row.tenant_id)

  older-IsRecorded :
      (history : List StatusHistoryRow) (row : OrderRow)
      → is_order tenant_id order_id row ≡ false
      → IsRecorded history row
      → IsRecorded (history ++ first_entry ∷ []) row
  older-IsRecorded history row other recorded =
      subst (λ h. Reaches (statuses h) row.status)
        (sym (history_of-other row.tenant_id row.id history first_entry (other_order row other)))
        recorded

module _ (env : Env) (tenant_id : String) (user_id key : Uuid) (plan : OrderPlan)
    (rows : List ProductRow) (db : Db) where
  ordered-AreRecorded :
      IsFresh tenant_id env.order_id db
      → AreRecorded db
      → AreRecorded (ordered env tenant_id user_id key plan rows db)
  unfolding record_events append_many clear notify_many create_placed create_items
  ordered-AreRecorded fresh recorded =
      All-append
        (IsRecorded (db.status_history ++ first_entry tenant_id env.order_id user_id env.now ∷ []))
        db.orders
        (placed_row env.order_id tenant_id user_id key plan.terms.pricing env.now
            plan.terms.delivery_address plan.terms.delivery_option
          ∷ [])
        (absent-All (is_order tenant_id env.order_id) (IsRecorded db.status_history) (IsRecorded _)
          db.orders fresh.orders
          (older-IsRecorded tenant_id env.order_id user_id env.now db.status_history) recorded)
        (
          rw
              (
                select-append (is_history_of tenant_id env.order_id) db.status_history,
                select-eq-nil _ db.status_history fresh.history,
                str_eq_refl tenant_id,
                ==_refl env.order_id,
              )
              Reaches.start,
          tt,
        )

-- If the history of every order leads from placed to the order's status by steps of the life
-- cycle, it still does after any call of `createOrder`, whether it returns or throws; the id of
-- a new order must be fresh.
pub create_order-AreRecorded :
    (quote_hash : Fingerprint → String) (tx : Transactions Db) (env : Env) (tenant_id : String)
    (user_id key : Uuid) (selection : Option CheckoutOrderRequest) (db : Db)
    → IsFresh tenant_id env.order_id db
    → AreRecorded db
    → AreRecorded (create_order quote_hash tx env tenant_id user_id key selection db).1
unfolding create_order
create_order-AreRecorded quote_hash tx env tenant_id user_id key selection db fresh recorded =
    let work = create_order_in_transaction quote_hash env tenant_id user_id key selection in
    transaction-keeps tx work AreRecorded recorded (λ placed db' ran.
      elim (Option-cases (find_by_checkout_idempotency_key tenant_id user_id key db)) [
        | inl unused ↦
            let placing =
              create_order-IsPlacing quote_hash env tenant_id user_id key selection tx db unused
                (tx.commits work db db' placed ran) in
            let (end, _, _, same) = placing.written in
            subst AreRecorded (sym same) (
              ordered-AreRecorded env tenant_id user_id key placing.plan end.products db fresh
                recorded)
        | inr (order, found) ↦
            let same : db ≡ db' =
              ap (λ r. r.1)
                (sym (replays quote_hash tx tenant_id user_id key env selection db found) ∙ ran) in
            subst AreRecorded same recorded
      ])
