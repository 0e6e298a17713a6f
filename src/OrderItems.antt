-- ===== src/OrderItems.antt =====
-- PostgresOrderItemRepository of backend/src/repositories/postgres/checkoutRepositories.ts.
-- `new_id` is what `randomUUID()` returned.
use ufsc_dso2_trabalho1_merc.Prelude.{
  ℕ, ◌+◌, String, Bool, Option, none, some, List, [], ◌∷◌, ◌++◌, map, ◌&&◌, ◌==◌, str_eq,
}
use ufsc_dso2_trabalho1_merc.Sql.{select, select_one, exists_row}
use ufsc_dso2_trabalho1_merc.Money.{Money}
use ufsc_dso2_trabalho1_merc.Database.{Uuid, Date, PricingState, OrderRow, OrderItemRow, Db}
use ufsc_dso2_trabalho1_merc.Orders.{money_or_null, is_order}

pub record CheckoutOrderItem : Type 0 where
  pub tenant_id : String
  pub order : Uuid
  pub product : Uuid
  pub seller : Uuid
  pub product_name : String
  pub quantity : ℕ
  pub pricing_state : PricingState
  pub unit_price : Option Money
  pub line_subtotal : Option Money

abbrev amount_or_null : Option Money → Option ℕ
amount_or_null none = none
amount_or_null (some money) = some money.amount_minor

abbrev to_item_row : Uuid → Date → CheckoutOrderItem → OrderItemRow
to_item_row new_id now item = record {
  id = new_id;
  tenant_id = item.tenant_id;
  order_id = item.order;
  product_id = item.product;
  seller_id = item.seller;
  product_name = item.product_name;
  quantity = item.quantity;
  pricing_state = item.pricing_state;
  unit_price_minor = amount_or_null item.unit_price;
  line_subtotal_minor = amount_or_null item.line_subtotal;
  created_at = now;
  updated_at = now;
}

-- One row for each item, with the ids that `randomUUID()` returns in turn.
abbrev pub item_rows : (ℕ → Uuid) → ℕ → Date → List CheckoutOrderItem → List OrderItemRow
item_rows new_id i now [] = []
item_rows new_id i now (item ∷ items) =
    to_item_row (new_id i) now item ∷ item_rows new_id (i + 1) now items

unfoldable pub create_items : (ℕ → Uuid) → Date → List CheckoutOrderItem → Db → Db
create_items new_id now items db = record db {
  order_items = db.order_items ++ item_rows new_id 0 now items;
}

abbrev pub is_item_in : String → Uuid → OrderItemRow → Bool
is_item_in tenant_id order_id row = str_eq row.tenant_id tenant_id && row.order_id == order_id

-- The currency of the order that an item row is joined to.
abbrev pub to_item : Option String → OrderItemRow → CheckoutOrderItem
to_item currency row = record {
  tenant_id = row.tenant_id;
  order = row.order_id;
  product = row.product_id;
  seller = row.seller_id;
  product_name = row.product_name;
  quantity = row.quantity;
  pricing_state = row.pricing_state;
  unit_price = money_or_null currency row.unit_price_minor;
  line_subtotal = money_or_null currency row.line_subtotal_minor;
}

abbrev join_items : Option OrderRow → List OrderItemRow → List CheckoutOrderItem
join_items none rows = []
join_items (some order) rows = map (to_item order.currency_code) rows

-- `listByOrderIds(tenantId, [orderId])`: the inner join keeps the items of an order that exists.
unfoldable pub list_by_order_id : String → Uuid → Db → List CheckoutOrderItem
list_by_order_id tenant_id order_id db =
    join_items (select_one (is_order tenant_id order_id) db.orders)
      (select (is_item_in tenant_id order_id) db.order_items)

unfoldable pub seller_owns_order : String → Uuid → Uuid → Db → Bool
seller_owns_order tenant_id order_id seller_id db =
    exists_row (λ row. is_item_in tenant_id order_id row && row.seller_id == seller_id)
      db.order_items
