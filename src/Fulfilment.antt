-- ===== src/Fulfilment.antt =====
-- `updateOrderStatusWithRepositories` and `sellerScopedOrder` of
-- backend/src/services/commerceService.ts, which the order service runs in a transaction.
pub mod Access
pub mod Change
pub mod Recorded
pub mod Supply
pub mod Later
pub mod Repeat
use ufsc_dso2_trabalho1_merc.Prelude.{
  ℕ, String, Bool, false, not, Option, none, some, List, [], ◌∷◌, ◌&&◌, ◌||◌, ◌==◌, if◌then◌else◌,
}
use ufsc_dso2_trabalho1_merc.Sql.{select}
use ufsc_dso2_trabalho1_merc.Result.{
  Result, ok, err, app_error, internal, throw_if, or_throw, order_not_found, order_forbidden,
  order_status_transition_invalid,
}
use ufsc_dso2_trabalho1_merc.Action.{Action, pure, lift, gets, modify, Transactions, ◌>>=◌, ◌>>◌}
use ufsc_dso2_trabalho1_merc.OrderStatus.{
  OrderStatus, cancelled, same_status, seller_order_transitions, buyer_cancellable,
}
use ufsc_dso2_trabalho1_merc.Database.{Uuid, Date, order_now, order_status_changed, Db}
use ufsc_dso2_trabalho1_merc.Orders.{CheckoutOrder, find_by_id, update_status}
use ufsc_dso2_trabalho1_merc.OrderItems.{CheckoutOrderItem, list_by_order_id, seller_owns_order}
use ufsc_dso2_trabalho1_merc.Events.{append_many, notify_many}
use ufsc_dso2_trabalho1_merc.Checkout.Persist.{PlacedOrder}

-- What `new Date()` and `randomUUID()` return during one call.
pub record Env : Type 0 where
  pub now : Date
  pub notice_id : ℕ → Uuid
  pub audit_id : ℕ → Uuid

-- `sellerOrderTransitions[from] === to`
abbrev pub is_seller_step : OrderStatus → OrderStatus → Bool
is_seller_step from to = elim (seller_order_transitions from) [
  | none ↦ false
  | some next ↦ same_status next to
]

abbrev pub is_buyer_cancellation : Uuid → OrderStatus → CheckoutOrder → Bool
is_buyer_cancellation user_id status order = order.buyer == user_id && same_status status cancelled

-- A seller sees no totals, and only their own items.
abbrev pub seller_scoped_order : CheckoutOrder → List CheckoutOrderItem → PlacedOrder
seller_scoped_order order items = record {
  order = record order { subtotal = none; discount = none; shipping = none; total = none };
  items = items;
}

abbrev pub view : Uuid → Bool → CheckoutOrder → List CheckoutOrderItem → PlacedOrder
view user_id buyer order items =
    let visible = select (λ item. buyer || item.seller == user_id) items in
    if buyer then record { order = order; items = visible } else seller_scoped_order order visible

module _ (env : Env) (user_id : Uuid) (tenant_id : String) (order_id : Uuid)
    (status : OrderStatus) where
  -- What follows the guards: the new status, the buyer's notification and the audit event.
  unfoldable pub change_status : CheckoutOrder → Bool → Action Db PlacedOrder
  change_status order buyer = do
    modify (update_status tenant_id order_id status user_id env.now)
    updated ← λ db. (or_throw (find_by_id tenant_id order_id db) internal, db)
    modify (
        notify_many env.notice_id env.now (
          record {
            tenant_id = tenant_id;
            user_id = order.buyer;
            message = order_now order.id status;
          }
          ∷ []))
    modify (
        append_many env.audit_id (
          record {
            tenant_id = tenant_id;
            event = order_status_changed order.status status;
            actor_id = some user_id;
            resource_id = order_id;
            occurred_at = env.now;
          }
          ∷ []))
    items ← gets (list_by_order_id tenant_id order_id)
    pure (view user_id buyer updated items)

  -- `order.status === status`: nothing to do.
  unfoldable pub keep_status : CheckoutOrder → Bool → Action Db PlacedOrder
  keep_status order buyer = do
    items ← gets (list_by_order_id tenant_id order_id)
    pure (view user_id buyer order items)

  unfoldable pub check_transition : CheckoutOrder → Bool → Bool → Action Db PlacedOrder
  check_transition order seller buyer = do
    lift (
        throw_if
          (not (seller && is_seller_step order.status status)
            && not (buyer && buyer_cancellable order.status))
          (app_error 409 order_status_transition_invalid))
    change_status order buyer

  unfoldable pub guarded_change : CheckoutOrder → Bool → Bool → Action Db PlacedOrder
  guarded_change order seller buyer = do
    lift (throw_if (not seller && not buyer) (app_error 403 order_forbidden))
    λ db.
        if same_status order.status status
        then keep_status order buyer db
        else check_transition order seller buyer db

  unfoldable pub update_order_status_in_transaction : Action Db PlacedOrder
  update_order_status_in_transaction = do
    order ← λ db. (or_throw (find_by_id tenant_id order_id db) (app_error 404 order_not_found), db)
    seller ← gets (seller_owns_order tenant_id order_id user_id)
    guarded_change order seller (is_buyer_cancellation user_id status order)

  unfoldable pub update_order_status : Transactions Db → Action Db PlacedOrder
  update_order_status tx = tx.transaction update_order_status_in_transaction
