-- ===== src/OrderStatus/Lifecycle.antt =====
-- The order life cycle as a relation, independent of who acts.

use ufsc_dso2_trabalho1_merc.OrderStatus.{
  OrderStatus, placed, confirmed, shipped, delivered, cancelled,
}

-- One step of an order: forward along placed, confirmed, shipped, delivered, or a cancellation
-- before shipping.
pub data Moves : OrderStatus → OrderStatus → Type 0 where
  confirm : Moves placed confirmed
  ship : Moves confirmed shipped
  deliver : Moves shipped delivered
  cancel_placed : Moves placed cancelled
  cancel_confirmed : Moves confirmed cancelled
