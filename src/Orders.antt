-- ===== src/Orders.antt =====
-- PostgresOrderRepository of
-- backend/src/repositories/postgres/checkoutRepositories.ts. `new_id` is what `randomUUID()` returned.
pub mod History
pub mod Later
use ufsc_dso2_trabalho1_merc.Prelude.{
  ℕ, ◌+◌, max, String, Bool, Option, none, some, List, [], ◌∷◌, ◌++◌, map, ◌&&◌, ◌==◌, str_eq,
}
use ufsc_dso2_trabalho1_merc.Prelude.Order.{order_by}
use ufsc_dso2_trabalho1_merc.Sql.{select, select_one, update, exists_row}
use ufsc_dso2_trabalho1_merc.Money.{Money, money_from_minor}
use ufsc_dso2_trabalho1_merc.OrderStatus.{OrderStatus, placed}
use ufsc_dso2_trabalho1_merc.Database.{
  Uuid, Date, AddressSnapshot, OptionSnapshot, PricingState, priced, OrderRow, OrderItemRow,
  StatusHistoryRow, Db,
}

pub record StatusEntry : Type 0 where
  pub status : OrderStatus
  pub actor : Uuid
  pub changed_at : Date

pub record CheckoutOrder : Type 0 where
  pub id : Uuid
  pub tenant_id : String
  pub buyer : Uuid
  pub status : OrderStatus
  pub pricing_state : PricingState
  pub subtotal : Option Money
  pub discount : Option Money
  pub shipping : Option Money
  pub total : Option Money
  pub delivery_address : Option AddressSnapshot
  pub delivery_option : Option OptionSnapshot
  pub status_history : List StatusEntry
  pub created_at : Date
  pub updated_at : Date

pub record CreateOrderPricing : Type 0 where
  pub currency : String
  pub currency_minor_unit : ℕ
  pub subtotal_minor : ℕ
  pub discount_minor : ℕ
  pub shipping_minor : ℕ
  pub total_minor : ℕ

-- `currencyCode && amount !== null ? moneyFromMinor(currencyCode, amount) : null`; the schema's
-- check leaves no empty currency code.
abbrev pub money_or_null : Option String → Option ℕ → Option Money
money_or_null (some currency) (some amount) = some (money_from_minor currency amount)
money_or_null (some currency) none = none
money_or_null none amount = none

abbrev pub is_history_of : String → Uuid → StatusHistoryRow → Bool
is_history_of tenant_id order_id row = str_eq row.tenant_id tenant_id && row.order_id == order_id

abbrev pub to_entry : StatusHistoryRow → StatusEntry
to_entry row = record { status = row.status; actor = row.actor_id; changed_at = row.changed_at }

abbrev pub history_of : String → Uuid → List StatusHistoryRow → List StatusEntry
history_of tenant_id order_id rows =
    map to_entry (order_by (λ row. row.sequence) (select (is_history_of tenant_id order_id) rows))

-- `mapOrders` at one row: the history rows of all orders that are not its own are filtered out.
unfoldable pub map_order : Db → OrderRow → CheckoutOrder
map_order db row = record {
  id = row.id;
  tenant_id = row.tenant_id;
  buyer = row.buyer_id;
  status = row.status;
  pricing_state = row.pricing_state;
  subtotal = money_or_null row.currency_code row.subtotal_minor;
  discount = money_or_null row.currency_code row.discount_minor;
  shipping = money_or_null row.currency_code row.shipping_minor;
  total = money_or_null row.currency_code row.total_minor;
  delivery_address = row.delivery_address;
  delivery_option = row.delivery_option;
  status_history = history_of row.tenant_id row.id db.status_history;
  created_at = row.created_at;
  updated_at = row.updated_at;
}

abbrev pub map_order_found : Db → Option OrderRow → Option CheckoutOrder
map_order_found db none = none
map_order_found db (some row) = some (map_order db row)

abbrev pub is_checkout_of : String → Uuid → Uuid → OrderRow → Bool
is_checkout_of tenant_id buyer_id key row =
    str_eq row.tenant_id tenant_id
    && row.buyer_id == buyer_id
    && row.checkout_idempotency_key == key

unfoldable pub find_by_checkout_idempotency_key : String → Uuid → Uuid → Db → Option CheckoutOrder
find_by_checkout_idempotency_key tenant_id buyer_id key db =
    map_order_found db (select_one (is_checkout_of tenant_id buyer_id key) db.orders)

abbrev pub is_order : String → Uuid → OrderRow → Bool
is_order tenant_id order_id row = str_eq row.tenant_id tenant_id && row.id == order_id

unfoldable pub find_by_id : String → Uuid → Db → Option CheckoutOrder
find_by_id tenant_id order_id db =
    map_order_found db (select_one (is_order tenant_id order_id) db.orders)

-- The row that `createPlaced` inserts.
abbrev pub placed_row :
    Uuid
    → String
    → Uuid
    → Uuid
    → CreateOrderPricing
    → Date
    → Option AddressSnapshot
    → Option OptionSnapshot
    → OrderRow
placed_row new_id tenant_id buyer_id key pricing now address option = record {
  id = new_id;
  tenant_id = tenant_id;
  buyer_id = buyer_id;
  checkout_idempotency_key = key;
  pricing_state = priced;
  currency_code = some pricing.currency;
  currency_minor_unit = some pricing.currency_minor_unit;
  subtotal_minor = some pricing.subtotal_minor;
  discount_minor = some pricing.discount_minor;
  shipping_minor = some pricing.shipping_minor;
  total_minor = some pricing.total_minor;
  delivery_address = address;
  delivery_option = option;
  status = placed;
  created_at = now;
  updated_at = now;
}

abbrev pub placed_order :
    Uuid
    → String
    → Uuid
    → CreateOrderPricing
    → Date
    → Option AddressSnapshot
    → Option OptionSnapshot
    → CheckoutOrder
placed_order new_id tenant_id buyer_id pricing now address option = record {
  id = new_id;
  tenant_id = tenant_id;
  buyer = buyer_id;
  status = placed;
  pricing_state = priced;
  subtotal = some (money_from_minor pricing.currency pricing.subtotal_minor);
  discount = some (money_from_minor pricing.currency pricing.discount_minor);
  shipping = some (money_from_minor pricing.currency pricing.shipping_minor);
  total = some (money_from_minor pricing.currency pricing.total_minor);
  delivery_address = address;
  delivery_option = option;
  status_history = record { status = placed; actor = buyer_id; changed_at = now } ∷ [];
  created_at = now;
  updated_at = now;
}

unfoldable pub create_placed :
    Uuid
    → String
    → Uuid
    → Uuid
    → CreateOrderPricing
    → Date
    → Option AddressSnapshot
    → Option OptionSnapshot
    → Db
    → CheckoutOrder × Db
create_placed new_id tenant_id buyer_id key pricing now address option db = (
  placed_order new_id tenant_id buyer_id pricing now address option,
  record db {
    orders = db.orders ++ placed_row new_id tenant_id buyer_id key pricing now address option ∷ [];
    status_history =
        db.status_history
        ++ record {
          tenant_id = tenant_id;
          order_id = new_id;
          sequence = 1;
          status = placed;
          actor_id = buyer_id;
          changed_at = now;
        }
          ∷ [];
  },
)

-- `max(sequence) || 0`
abbrev pub latest_sequence : List StatusHistoryRow → ℕ
latest_sequence [] = 0
latest_sequence (row ∷ rows) = max row.sequence (latest_sequence rows)

-- The writes of `updateStatus`; it ends by `findById`.
unfoldable pub update_status : String → Uuid → OrderStatus → Uuid → Date → Db → Db
update_status tenant_id order_id status actor_id now db = record db {
  orders =
      update (is_order tenant_id order_id) (λ row. record row { status = status; updated_at = now })
        db.orders;
  status_history =
      db.status_history
      ++ record {
        tenant_id = tenant_id;
        order_id = order_id;
        sequence =
            latest_sequence (select (is_history_of tenant_id order_id) db.status_history) + 1;
        status = status;
        actor_id = actor_id;
        changed_at = now;
      }
        ∷ [];
}
