-- ===== src/Fulfilment/Access.antt =====
-- Who may change an order, and to what.
use ufsc_dso2_trabalho1_merc.Prelude.{
  String, Bool, true, Option, none, some, ◌≡◌, refl, arith, ◌⊎◌, inl, inr, ◌&&◌, ◌||◌, Bool-cases,
}
use ufsc_dso2_trabalho1_merc.Result.{ok, or_throw}
use ufsc_dso2_trabalho1_merc.Action.{Transactions, ◌>>=◌}
use ufsc_dso2_trabalho1_merc.Action.Laws.{transaction-eq-ok}
use ufsc_dso2_trabalho1_merc.OrderStatus.{
  OrderStatus, placed, confirmed, shipped, delivered, cancelled, same_status, buyer_cancellable,
}
use ufsc_dso2_trabalho1_merc.OrderStatus.Lifecycle.{Moves}
use ufsc_dso2_trabalho1_merc.Database.{Uuid, Db}
use ufsc_dso2_trabalho1_merc.Orders.{CheckoutOrder, find_by_id}
use ufsc_dso2_trabalho1_merc.OrderItems.{list_by_order_id, seller_owns_order}
use ufsc_dso2_trabalho1_merc.Checkout.Persist.{PlacedOrder}
use ufsc_dso2_trabalho1_merc.Fulfilment.{
  Env, is_seller_step, is_buyer_cancellation, view, change_status, keep_status, check_transition,
  guarded_change, update_order_status_in_transaction, update_order_status,
}

same_status-eq : (s t : OrderStatus) → same_status s t ≡ true → s ≡ t
same_status-eq s t h = ground arith

seller_step-Moves : (s t : OrderStatus) → is_seller_step s t ≡ true → Moves s t
seller_step-Moves placed confirmed h = Moves.confirm
seller_step-Moves confirmed shipped h = Moves.ship
seller_step-Moves shipped delivered h = Moves.deliver
seller_step-Moves _ _ h = cc

cancellable-Moves :
    (s t : OrderStatus) → buyer_cancellable s ≡ true → same_status t cancelled ≡ true → Moves s t
cancellable-Moves placed cancelled h k = Moves.cancel_placed
cancellable-Moves confirmed cancelled h k = Moves.cancel_confirmed
cancellable-Moves _ _ h k = ground arith

module _ (env : Env) (user_id : Uuid) (tenant_id : String) (order_id : Uuid) (status : OrderStatus)
    (order : CheckoutOrder) (seller buyer : Bool) where
  -- How a call that is let through goes on: nothing to do, or a permitted step.
  pub data Goes (db : Db) (r : PlacedOrder) (db' : Db) : Type 0 where
    kept :
        order.status ≡ status
        → r ≡ view user_id buyer order (list_by_order_id tenant_id order_id db)
        → db' ≡ db
        → Goes db r db'
    stepped :
        ((seller && is_seller_step order.status status)
            || (buyer && buyer_cancellable order.status))
          ≡ true
        → change_status env user_id tenant_id order_id status order buyer db ≡ (ok r, db')
        → Goes db r db'

  guarded_change-Goes :
      (db : Db) {r : PlacedOrder} {db' : Db}
      → guarded_change env user_id tenant_id order_id status order seller buyer db ≡ (ok r, db')
      → ((seller || buyer) ≡ true) × Goes db r db'
  unfolding guarded_change keep_status check_transition
  guarded_change-Goes db h = (
    ground arith,
    elim (Bool-cases (same_status order.status status)) [
      | inl same ↦ kept (same_status-eq order.status status same) (ground arith) (ground arith)
      | inr other ↦ stepped (ground arith) (ground arith)
    ],
  )

module _ (env : Env) (user_id : Uuid) (tenant_id : String) (order_id : Uuid)
    (status : OrderStatus) where
  -- A call that returned: the order that it found, and how it went on.
  pub record IsUpdate (db : Db) (r : PlacedOrder) (db' : Db) : Type 0 where
    pub order : CheckoutOrder
    pub found : find_by_id tenant_id order_id db ≡ some order
    pub let_in :
        (seller_owns_order tenant_id order_id user_id db
          || is_buyer_cancellation user_id status order)
        ≡ true
    pub goes :
        Goes env user_id tenant_id order_id status order
          (seller_owns_order tenant_id order_id user_id db)
          (is_buyer_cancellation user_id status order)
          db
          r
          db'

  pub in_transaction-IsUpdate :
      (found : Option CheckoutOrder) (db : Db) {r : PlacedOrder} {db' : Db}
      → find_by_id tenant_id order_id db ≡ found
      → update_order_status_in_transaction env user_id tenant_id order_id status db ≡ (ok r, db')
      → IsUpdate db r db'
  unfolding update_order_status_in_transaction
  in_transaction-IsUpdate none db e h =
      cc (rw (e, or_throw, update_order_status_in_transaction, ◌>>=◌) at h)
  in_transaction-IsUpdate (some order) db e h =
      let (let_in, goes) =
        guarded_change-Goes env user_id tenant_id order_id status order
          (seller_owns_order tenant_id order_id user_id db)
          (is_buyer_cancellation user_id status order) db
          (rw (e, or_throw, update_order_status_in_transaction, ◌>>=◌) at h) in
      record { order = order; found = e; let_in = let_in; goes = goes }

  pub update_order_status-IsUpdate :
      (tx : Transactions Db) (db : Db) {r : PlacedOrder} {db' : Db}
      → update_order_status env user_id tenant_id order_id status tx db ≡ (ok r, db')
      → IsUpdate db r db'
  unfolding update_order_status
  update_order_status-IsUpdate tx db h = in_transaction-IsUpdate _ db refl (
      transaction-eq-ok tx
        (update_order_status_in_transaction env user_id tenant_id order_id status) h)

-- A step that the guards permit is a move of the life cycle; a move to cancelled is the buyer's.
pub permitted_step :
    (seller buyer : Bool) (from to : OrderStatus)
    → ((seller && is_seller_step from to) || (buyer && buyer_cancellable from)) ≡ true
    → (buyer ≡ true → to ≡ cancelled)
    → Moves from to × (to ≡ cancelled → buyer ≡ true)
permitted_step seller buyer from to h k = elim (Bool-cases (seller && is_seller_step from to)) [
  | inl by_seller ↦ (seller_step-Moves from to (ground arith), λ e. ground arith)
  | inr by_buyer ↦ (cancellable-Moves from to (ground arith) (ground arith), λ e. ground arith)
]

-- Who is let in.
pub let_in_by :
    (seller : Bool) (user_id : Uuid) (status : OrderStatus) (order : CheckoutOrder)
    → (seller || is_buyer_cancellation user_id status order) ≡ true
    → (seller ≡ true) ⊎ ((order.buyer ≡ user_id) × (status ≡ cancelled))
let_in_by seller user_id status order h = ground (arith, same_status-eq status cancelled)
