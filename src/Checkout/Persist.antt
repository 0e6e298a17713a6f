-- ===== src/Checkout/Persist.antt =====
-- The writing half of `createOrderInTransaction`.
use ufsc_dso2_trabalho1_merc.Prelude.{
  ℕ, ◌+◌, ◌-◌, String, Option, none, some, List, [], ◌∷◌, map, not, ◌==◌, length,
}
use ufsc_dso2_trabalho1_merc.Sql.{delete}
use ufsc_dso2_trabalho1_merc.Result.{app_error, throw_if, insufficient_inventory}
use ufsc_dso2_trabalho1_merc.Action.{Action, pure, lift, writes, modify, ◌>>=◌, ◌>>◌}
use ufsc_dso2_trabalho1_merc.Money.{money_from_minor}
use ufsc_dso2_trabalho1_merc.Database.{
  Uuid, Date, PricingState, order_created, new_order, order_placed, inventory_decremented, Db,
}
use ufsc_dso2_trabalho1_merc.Products.{ProductRecord, decrement_available_inventory}
use ufsc_dso2_trabalho1_merc.Carts.{map_get, clear}
use ufsc_dso2_trabalho1_merc.Orders.{CheckoutOrder, create_placed}
use ufsc_dso2_trabalho1_merc.OrderItems.{CheckoutOrderItem, create_items}
use ufsc_dso2_trabalho1_merc.Events.{AppendAuditEvent, append_many, CreateNotification, notify_many}
use ufsc_dso2_trabalho1_merc.Pricing.{PricedLine}
use ufsc_dso2_trabalho1_merc.Checkout.Plan.{OrderPlan}

-- What `new Date()` and `randomUUID()` return during one call of `createOrder`.
pub record Env : Type 0 where
  pub now : Date
  pub stock_clock : ℕ → Date
  pub cart_clock : Date
  pub order_id : Uuid
  pub item_id : ℕ → Uuid
  pub audit_id : ℕ → Uuid
  pub notice_id : ℕ → Uuid
  pub seller_notice_id : ℕ → Uuid

-- `{ ...order, items }`
pub record PlacedOrder : Type 0 where
  pub order : CheckoutOrder
  pub items : List CheckoutOrderItem

abbrev pub order_item : String → Uuid → String → PricedLine → CheckoutOrderItem
order_item tenant_id order_id currency line = record {
  tenant_id = tenant_id;
  order = order_id;
  product = line.product.id;
  seller = line.product.seller;
  product_name = line.product.name;
  quantity = line.quantity;
  pricing_state = PricingState.priced;
  unit_price = some (money_from_minor currency line.unit_price_minor);
  line_subtotal = some (money_from_minor currency line.line_subtotal_minor);
}

-- The loop over `decrementAvailableInventory`.
unfoldable pub decrement_all :
    (ℕ → Date) → ℕ → String → List CheckoutOrderItem → Action Db (Unit {0})
decrement_all clock i tenant_id [] = pure tt
decrement_all clock i tenant_id (item ∷ items) = do
  inventory_updated ←
      writes (decrement_available_inventory tenant_id item.product item.quantity (clock i))
  lift (throw_if (not inventory_updated) (app_error 409 insufficient_inventory))
  decrement_all clock (i + 1) tenant_id items

abbrev inventory_in : Option ProductRecord → ℕ
inventory_in none = 0
inventory_in (some product) = product.inventory

-- `productMap.get(item.product)!.inventory`
abbrev previous_inventory : List ProductRecord → CheckoutOrderItem → ℕ
previous_inventory products item = inventory_in (map_get item.product products)

abbrev item_audit :
    Env → String → Uuid → Uuid → List ProductRecord → CheckoutOrderItem → AppendAuditEvent
item_audit env tenant_id user_id order_id products item = record {
  tenant_id = tenant_id;
  event =
      inventory_decremented order_id item.quantity (previous_inventory products item)
        (previous_inventory products item - item.quantity);
  actor_id = some user_id;
  resource_id = item.product;
  occurred_at = env.now;
}

abbrev pub order_audits :
    Env → String → Uuid → Uuid → List ProductRecord → List CheckoutOrderItem → List AppendAuditEvent
order_audits env tenant_id user_id order_id products items =
    record {
      tenant_id = tenant_id;
      event = order_placed (length items);
      actor_id = some user_id;
      resource_id = order_id;
      occurred_at = env.now;
    }
    ∷ map (item_audit env tenant_id user_id order_id products) items

-- `[...new Set(ids)]`: the first occurrences, in order.
unfoldable pub unique : List Uuid → List Uuid
unique [] = []
unique (id ∷ ids) = id ∷ delete (λ j. j == id) (unique ids)

abbrev pub seller_notice : String → Uuid → Uuid → CreateNotification
seller_notice tenant_id order_id seller = record {
  tenant_id = tenant_id;
  user_id = seller;
  message = new_order order_id;
}

abbrev pub plan_items : Env → String → OrderPlan → List CheckoutOrderItem
plan_items env tenant_id plan =
    map (order_item tenant_id env.order_id plan.tenant.currency_code) plan.lines

-- What follows the inventory: audit events, the emptied cart and the notifications.
unfoldable pub record_events : Env → String → Uuid → OrderPlan → List CheckoutOrderItem → Db → Db
record_events env tenant_id user_id plan items db =
    let audited =
      append_many env.audit_id (order_audits env tenant_id user_id env.order_id plan.products items)
        db in
    let cleared = clear env.cart_clock tenant_id plan.cart_id audited in
    let buyer_notified =
      notify_many env.notice_id env.now
        (record { tenant_id = tenant_id; user_id = user_id; message = order_created env.order_id }
          ∷ [])
        cleared in
    notify_many env.seller_notice_id env.now
      (map (seller_notice tenant_id env.order_id) (unique (map (λ item. item.seller) items)))
      buyer_notified

unfoldable pub persist_order : Env → String → Uuid → Uuid → OrderPlan → Action Db PlacedOrder
persist_order env tenant_id user_id key plan = do
  order ← writes (
      create_placed env.order_id tenant_id user_id key plan.terms.pricing env.now
        plan.terms.delivery_address plan.terms.delivery_option)
  modify (create_items env.item_id env.now (plan_items env tenant_id plan))
  decrement_all env.stock_clock 0 tenant_id (plan_items env tenant_id plan)
  modify (record_events env tenant_id user_id plan (plan_items env tenant_id plan))
  pure (record { order = order; items = plan_items env tenant_id plan })
