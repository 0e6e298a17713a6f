-- ===== src/Marketplace.antt =====
-- The databases that the modelled services lead to: any sequence of the calls that
-- backend/src/compositionRoot.ts makes available of checkout, orders, carts and notifications.
pub mod History
pub mod Supply
pub mod Later
use ufsc_dso2_trabalho1_merc.Prelude.{ℕ, String, Bool, Option}
use ufsc_dso2_trabalho1_merc.Action.{Transactions}
use ufsc_dso2_trabalho1_merc.OrderStatus.{OrderStatus}
use ufsc_dso2_trabalho1_merc.Database.{Uuid, Date, Db}
use ufsc_dso2_trabalho1_merc.Carts.{set_item, remove_item}
use ufsc_dso2_trabalho1_merc.Events.{update_read}
use ufsc_dso2_trabalho1_merc.Pricing.{Fingerprint}
use ufsc_dso2_trabalho1_merc.Checkout.Plan.{CheckoutOrderRequest}
use ufsc_dso2_trabalho1_merc.Checkout.Persist
use ufsc_dso2_trabalho1_merc.Checkout.Retry.{IsFresh}
use ufsc_dso2_trabalho1_merc.Checkout.Service.{create_order}
use ufsc_dso2_trabalho1_merc.Fulfilment

module _ (quote_hash : Fingerprint → String) (tx : Transactions Db) where
  -- One call, whether it returns or throws. The id of a new order names no row yet.
  pub data Call (db : Db) : Db → Type 0 where
    checkout :
        (env : Persist.Env) (tenant_id : String) (user_id key : Uuid)
        (selection : Option CheckoutOrderRequest)
        → IsFresh tenant_id env.order_id db
        → Call db (create_order quote_hash tx env tenant_id user_id key selection db).1
    status_change :
        (env : Fulfilment.Env) (user_id : Uuid) (tenant_id : String) (order_id : Uuid)
        (status : OrderStatus)
        → Call db (Fulfilment.update_order_status env user_id tenant_id order_id status tx db).1
    cart_set :
        (new_id : Uuid) (now : Date) (tenant_id : String) (buyer_id product_id : Uuid)
        (quantity : ℕ)
        → Call db (set_item new_id now tenant_id buyer_id product_id quantity db)
    cart_removal :
        (now : Date) (tenant_id : String) (buyer_id product_id : Uuid)
        → Call db (remove_item now tenant_id buyer_id product_id db)
    notification_read :
        (now : Date) (tenant_id : String) (user_id notification_id : Uuid) (read : Bool)
        → Call db (update_read now tenant_id user_id notification_id read db).1

  -- Any calls, one after another.
  pub data Calls (db : Db) : Db → Type 0 where
    idle : Calls db db
    followed_by : {mid end : Db} → Calls db mid → Call mid end → Calls db end
