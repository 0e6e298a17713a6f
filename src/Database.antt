-- ===== src/Database.antt =====
-- backend/src/database/schema.ts: the rows of the tables that the modelled repositories use.
-- A UUID is the number that it writes in hexadecimal, which is also how PostgreSQL orders it; a
-- date is its milliseconds. Columns that only listings show are kept, so that an update can be
-- seen to leave them alone.
pub mod Ids
pub mod Accounts
pub use Ids.{Uuid, Date}
use ufsc_dso2_trabalho1_merc.Prelude.{ℕ, String, Option, List, Bool}
use ufsc_dso2_trabalho1_merc.OrderStatus.{OrderStatus}
use ufsc_dso2_trabalho1_merc.ProductStatus.{ProductStatus}
use Accounts.{UserRow, SessionRow, AccountTokenRow}

-- `products`
pub record ProductRow : Type 0 where
  pub id : Uuid
  pub tenant_id : String
  pub seller_id : Uuid
  pub name : String
  pub description : Option String
  pub category : String
  pub subcategory : String
  pub inventory : ℕ
  pub unit_price_minor : Option ℕ
  pub image_url : String
  pub status : ProductStatus
  pub created_at : Date
  pub updated_at : Date

-- `product_price_history`
pub record PriceHistoryRow : Type 0 where
  pub tenant_id : String
  pub product_id : Uuid
  pub sequence : ℕ
  pub currency_code : String
  pub currency_minor_unit : ℕ
  pub unit_price_minor : ℕ
  pub actor_id : Uuid
  pub changed_at : Date

-- `carts`
pub record CartRow : Type 0 where
  pub id : Uuid
  pub tenant_id : String
  pub buyer_id : Uuid
  pub created_at : Date
  pub updated_at : Date

-- `cart_items`
pub record CartItemRow : Type 0 where
  pub tenant_id : String
  pub cart_id : Uuid
  pub product_id : Uuid
  pub quantity : ℕ

-- `delivery_addresses`
pub record AddressRow : Type 0 where
  pub id : Uuid
  pub tenant_id : String
  pub user_id : Uuid
  pub label : String
  pub recipient_name : String
  pub line1 : String
  pub line2 : Option String
  pub city : String
  pub region : Option String
  pub postal_code : String
  pub country_code : String
  pub telephone : String
  pub is_default : Bool
  pub created_at : Date
  pub updated_at : Date

-- The JSON columns of `orders`.
pub record AddressSnapshot : Type 0 where
  pub source_address_id : Uuid
  pub label : String
  pub recipient_name : String
  pub line1 : String
  pub line2 : Option String
  pub city : String
  pub region : Option String
  pub postal_code : String
  pub country_code : String
  pub telephone : String

pub record OptionSnapshot : Type 0 where
  pub id : String
  pub label : String
  pub estimate : String

pub data PricingState : Type 0 where
  legacy_unpriced priced : PricingState

-- `orders`
pub record OrderRow : Type 0 where
  pub id : Uuid
  pub tenant_id : String
  pub buyer_id : Uuid
  pub checkout_idempotency_key : Uuid
  pub pricing_state : PricingState
  pub currency_code : Option String
  pub currency_minor_unit : Option ℕ
  pub subtotal_minor : Option ℕ
  pub discount_minor : Option ℕ
  pub shipping_minor : Option ℕ
  pub total_minor : Option ℕ
  pub delivery_address : Option AddressSnapshot
  pub delivery_option : Option OptionSnapshot
  pub status : OrderStatus
  pub created_at : Date
  pub updated_at : Date

-- `order_items`
pub record OrderItemRow : Type 0 where
  pub id : Uuid
  pub tenant_id : String
  pub order_id : Uuid
  pub product_id : Uuid
  pub seller_id : Uuid
  pub product_name : String
  pub quantity : ℕ
  pub pricing_state : PricingState
  pub unit_price_minor : Option ℕ
  pub line_subtotal_minor : Option ℕ
  pub created_at : Date
  pub updated_at : Date

-- `order_status_history`
pub record StatusHistoryRow : Type 0 where
  pub tenant_id : String
  pub order_id : Uuid
  pub sequence : ℕ
  pub status : OrderStatus
  pub actor_id : Uuid
  pub changed_at : Date

-- The texts of the notifications, by what they interpolate.
pub data Message : Type 0 where
  order_created new_order : Uuid → Message
  order_now : Uuid → OrderStatus → Message
  new_review : String → Message

-- `notifications`
pub record NotificationRow : Type 0 where
  pub id : Uuid
  pub tenant_id : String
  pub user_id : Uuid
  pub message : Message
  pub is_read : Bool
  pub created_at : Date
  pub updated_at : Date

-- The event type, resource type and metadata of an audit event.
pub data AuditEvent : Type 0 where
  order_placed : (item_count : ℕ) → AuditEvent
  inventory_decremented :
      (order_id : Uuid) (quantity previous_inventory next_inventory : ℕ) → AuditEvent
  order_status_changed : (previous next : OrderStatus) → AuditEvent
  inventory_set :
      (previous_inventory next_inventory : ℕ) (previous_status next_status : ProductStatus)
      → AuditEvent
  session_created session_reuse_detected : AuditEvent
  session_rotated : (rotation_counter : ℕ) → AuditEvent
  session_revoked user_sessions_revoked : (reason : String) → AuditEvent
  user_email_verified user_password_reset : AuditEvent

-- `audit_events`
pub record AuditRow : Type 0 where
  pub id : Uuid
  pub tenant_id : String
  pub event : AuditEvent
  pub actor_id : Option Uuid
  pub resource_id : Uuid
  pub occurred_at : Date

-- `mutation_idempotency`
pub data Operation : Type 0 where
  product_create review_upsert : Operation

pub record IdempotencyRow : Type 0 where
  pub tenant_id : String
  pub actor_id : Uuid
  pub operation : Operation
  pub key : Uuid
  pub request_hash : String
  pub resource_id : Option Uuid
  pub created_at : Date

-- `reviews`
pub record ReviewRow : Type 0 where
  pub id : Uuid
  pub tenant_id : String
  pub product_id : Uuid
  pub author_id : Uuid
  pub rating : ℕ
  pub comment : String
  pub created_at : Date
  pub updated_at : Date

-- `watchlist_entries`
pub record WatchlistRow : Type 0 where
  pub id : Uuid
  pub tenant_id : String
  pub user_id : Uuid
  pub product_id : Uuid
  pub created_at : Date
  pub updated_at : Date

pub record Db : Type 0 where
  pub products : List ProductRow
  pub price_history : List PriceHistoryRow
  pub carts : List CartRow
  pub cart_items : List CartItemRow
  pub addresses : List AddressRow
  pub orders : List OrderRow
  pub order_items : List OrderItemRow
  pub status_history : List StatusHistoryRow
  pub notifications : List NotificationRow
  pub audit_events : List AuditRow
  pub idempotency : List IdempotencyRow
  pub users : List UserRow
  pub sessions : List SessionRow
  pub account_tokens : List AccountTokenRow
  pub reviews : List ReviewRow
  pub watchlist : List WatchlistRow
