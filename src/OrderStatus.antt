-- ===== src/OrderStatus.antt =====
-- backend/src/orderStatus.ts.
pub mod Lifecycle
use ufsc_dso2_trabalho1_merc.Prelude.{Bool, true, false, Option, none, some}

pub data OrderStatus : Type 0 where
  placed confirmed shipped delivered cancelled : OrderStatus

-- `===` on the status strings.
abbrev pub same_status : OrderStatus → OrderStatus → Bool
same_status placed placed = true
same_status confirmed confirmed = true
same_status shipped shipped = true
same_status delivered delivered = true
same_status cancelled cancelled = true
same_status _ _ = false

abbrev pub seller_order_transitions : OrderStatus → Option OrderStatus
seller_order_transitions placed = some confirmed
seller_order_transitions confirmed = some shipped
seller_order_transitions shipped = some delivered
seller_order_transitions delivered = none
seller_order_transitions cancelled = none

-- `buyerCancellableStatuses.includes(status)`
abbrev pub buyer_cancellable : OrderStatus → Bool
buyer_cancellable placed = true
buyer_cancellable confirmed = true
buyer_cancellable _ = false
