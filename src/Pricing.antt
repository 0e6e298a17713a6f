-- ===== src/Pricing.antt =====
-- backend/src/services/checkoutPricing.ts. `quote_hash` stands for
-- `createHash('sha256').update(JSON.stringify(fingerprint)).digest('hex')`, of `node:crypto`.
pub mod Totals
pub mod Succeeds
use ufsc_dso2_trabalho1_merc.Prelude.{
  ℕ, String, Bool, not, Option, List, [], ◌∷◌, map, ◌||◌, ltb, if◌then◌else◌, str_eq,
}
use ufsc_dso2_trabalho1_merc.Prelude.Order.{order_by}
use ufsc_dso2_trabalho1_merc.Result.{
  Result, ok, err, app_error, internal, throw_if, or_throw, ◌>>=◌, ◌>>◌, empty_cart,
  insufficient_inventory, product_price_required, order_total_limit_exceeded,
}
use ufsc_dso2_trabalho1_merc.Money.{
  Money, money_from_minor, checked_money_multiply, checked_money_add,
}
use ufsc_dso2_trabalho1_merc.ProductStatus.{ProductStatus, active, same_status}
use ufsc_dso2_trabalho1_merc.Database.{Uuid, Date, AddressRow}
use ufsc_dso2_trabalho1_merc.Products.{ProductRecord}
use ufsc_dso2_trabalho1_merc.Carts.{CartLine}
use ufsc_dso2_trabalho1_merc.Delivery.{DeliveryOptionQuote, get_delivery_option}

pub record PricedLine : Type 0 where
  pub product : ProductRecord
  pub quantity : ℕ
  pub unit_price_minor : ℕ
  pub line_subtotal_minor : ℕ

-- The body of `items.map` up to the line's subtotal.
unfoldable pub price_line : String → CartLine → Result PricedLine
price_line currency item = do
  throw_if
      (not (same_status item.product.status active) || ltb item.product.inventory item.quantity)
      (app_error 409 insufficient_inventory)
  price ← or_throw item.product.price (app_error 409 product_price_required)
  throw_if (not (str_eq price.currency currency)) internal
  line_subtotal_minor ←
      or_throw (checked_money_multiply price.amount_minor item.quantity)
        (app_error 409 order_total_limit_exceeded)
  ok (record {
    product = item.product;
    quantity = item.quantity;
    unit_price_minor = price.amount_minor;
    line_subtotal_minor = line_subtotal_minor;
  })

-- The whole `items.map`, with `subtotalMinor` passed along.
unfoldable pub price_lines : String → ℕ → List CartLine → Result (ℕ × List PricedLine)
price_lines currency subtotal_minor [] = ok (subtotal_minor, [])
price_lines currency subtotal_minor (item ∷ items) = do
  priced ← price_line currency item
  next_subtotal ←
      or_throw (checked_money_add subtotal_minor priced.line_subtotal_minor)
        (app_error 409 order_total_limit_exceeded)
  rest ← price_lines currency next_subtotal items
  ok (rest.0, priced ∷ rest.1)

pub record FingerprintItem : Type 0 where
  pub product_id : Uuid
  pub quantity : ℕ
  pub unit_price_minor : ℕ
  pub inventory : ℕ
  pub status : ProductStatus

-- What the quote id commits to.
pub record Fingerprint : Type 0 where
  pub address_id : Uuid
  pub address_updated_at : Date
  pub postal_code : String
  pub country_code : String
  pub delivery_option_id : String
  pub items : List FingerprintItem
  pub currency : String
  pub subtotal_minor : ℕ
  pub discount_minor : ℕ
  pub shipping_minor : ℕ
  pub total_minor : ℕ

pub record QuotePricing : Type 0 where
  pub currency : String
  pub subtotal_minor : ℕ
  pub discount_minor : ℕ
  pub shipping_minor : ℕ
  pub total_minor : ℕ

pub record DeliveryOptionView : Type 0 where
  pub id : String
  pub label : String
  pub estimate : String
  pub shipping : Money

pub record QuoteResponse : Type 0 where
  pub quote_id : String
  pub address : AddressRow
  pub delivery_option : DeliveryOptionView
  pub subtotal : Money
  pub discount : Money
  pub shipping : Money
  pub total : Money

pub record CheckoutQuote : Type 0 where
  pub quote_id : String
  pub address : AddressRow
  pub delivery_option : DeliveryOptionQuote
  pub priced_items : List PricedLine
  pub pricing : QuotePricing
  pub response : QuoteResponse

abbrev pub fingerprint_item : PricedLine → FingerprintItem
fingerprint_item line = record {
  product_id = line.product.id;
  quantity = line.quantity;
  unit_price_minor = line.unit_price_minor;
  inventory = line.product.inventory;
  status = line.product.status;
}

abbrev pub fingerprint :
    AddressRow → String → List PricedLine → String → (subtotal shipping total : ℕ) → Fingerprint
fingerprint address option_id lines currency subtotal shipping total = record {
  address_id = address.id;
  address_updated_at = address.updated_at;
  postal_code = address.postal_code;
  country_code = address.country_code;
  delivery_option_id = option_id;
  items = order_by (λ item. item.product_id) (map fingerprint_item lines);
  currency = currency;
  subtotal_minor = subtotal;
  discount_minor = 0;
  shipping_minor = shipping;
  total_minor = total;
}

-- The value that `calculateCheckoutQuote` returns.
abbrev pub quote_of :
    String
    → AddressRow
    → DeliveryOptionQuote
    → List PricedLine
    → String
    → (subtotal total : ℕ) → CheckoutQuote
quote_of quote_id address option lines currency subtotal total = record {
  quote_id = quote_id;
  address = address;
  delivery_option = option;
  priced_items = lines;
  pricing = record {
    currency = currency;
    subtotal_minor = subtotal;
    discount_minor = 0;
    shipping_minor = option.shipping_minor;
    total_minor = total;
  };
  response = record {
    quote_id = quote_id;
    address = address;
    delivery_option = record {
      id = option.id;
      label = option.label;
      estimate = option.estimate;
      shipping = option.shipping;
    };
    subtotal = money_from_minor currency subtotal;
    discount = money_from_minor currency 0;
    shipping = option.shipping;
    total = money_from_minor currency total;
  };
}

abbrev pub is_empty {ℓ} : {A : Type ℓ} → List A → Bool
is_empty [] = Bool.true
is_empty (x ∷ xs) = Bool.false

module _ (quote_hash : Fingerprint → String) where
  unfoldable pub calculate_checkout_quote :
      List CartLine → AddressRow → String → String → Result CheckoutQuote
  calculate_checkout_quote items address delivery_option_id currency = do
    throw_if (is_empty items) (app_error 400 empty_cart)
    priced ← price_lines currency 0 items
    option ← get_delivery_option delivery_option_id currency
    total ←
        or_throw (checked_money_add priced.0 option.shipping_minor)
          (app_error 409 order_total_limit_exceeded)
    let quote_id = quote_hash (
        fingerprint address delivery_option_id priced.1 currency priced.0 option.shipping_minor
          total)
    ok (quote_of quote_id address option priced.1 currency priced.0 total)
