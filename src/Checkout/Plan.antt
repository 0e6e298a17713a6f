-- ===== src/Checkout/Plan.antt =====
-- The reading half of `createOrderInTransaction`: validation, pricing and the selected delivery.
use ufsc_dso2_trabalho1_merc.Prelude.{
  ℕ, String, not, Option, none, some, List, [], ◌∷◌, map, ◌||◌, ltb, str_eq,
}
use ufsc_dso2_trabalho1_merc.Result.{
  Result, ok, app_error, internal, throw_if, or_throw, ◌>>=◌, ◌>>◌, empty_cart,
  insufficient_inventory, product_price_required, order_total_limit_exceeded,
  delivery_address_not_found, checkout_quote_changed,
}
use ufsc_dso2_trabalho1_merc.Money.{checked_money_multiply, checked_money_add}
use ufsc_dso2_trabalho1_merc.Tenants.{Tenant, resolve_tenant, one}
use ufsc_dso2_trabalho1_merc.ProductStatus.{active, same_status}
use ufsc_dso2_trabalho1_merc.Database.{Uuid, AddressRow, AddressSnapshot, OptionSnapshot, Db}
use ufsc_dso2_trabalho1_merc.Products.{ProductRecord, find_by_ids_for_update}
use ufsc_dso2_trabalho1_merc.Carts.{CartLine, CheckoutCart, CheckoutCartItem, map_get}
use ufsc_dso2_trabalho1_merc.Orders.{CreateOrderPricing}
use ufsc_dso2_trabalho1_merc.Delivery.{DeliveryOptionQuote, find_address}
use ufsc_dso2_trabalho1_merc.Pricing.{
  PricedLine, Fingerprint, CheckoutQuote, calculate_checkout_quote, is_empty,
}

-- `CheckoutOrderRequest`
pub record CheckoutOrderRequest : Type 0 where
  pub address_id : Uuid
  pub delivery_option_id : String
  pub quote_id : String

-- The first loop: every item is for sale, in stock and priced.
unfoldable pub check_items : List ProductRecord → List CheckoutCartItem → Result (Unit {0})
check_items products [] = ok tt
check_items products (item ∷ items) = do
  product ← or_throw (map_get item.product_id products) (app_error 409 insufficient_inventory)
  throw_if (not (same_status product.status active) || ltb product.inventory item.quantity)
      (app_error 409 insufficient_inventory)
  _ ← or_throw product.price (app_error 409 product_price_required)
  check_items products items

-- The body of `cart.items.map` up to the line's subtotal. The first loop has found the product
-- and its price, so the two `!` of the source never see null.
unfoldable pub price_item : String → List ProductRecord → CheckoutCartItem → Result PricedLine
price_item currency products item = do
  product ← or_throw (map_get item.product_id products) internal
  price ← or_throw product.price internal
  throw_if (not (str_eq price.currency currency)) internal
  line_subtotal_minor ←
      or_throw (checked_money_multiply price.amount_minor item.quantity)
        (app_error 409 order_total_limit_exceeded)
  ok (record {
    product = product;
    quantity = item.quantity;
    unit_price_minor = price.amount_minor;
    line_subtotal_minor = line_subtotal_minor;
  })

unfoldable pub price_items :
    String → List ProductRecord → ℕ → List CheckoutCartItem → Result (ℕ × List PricedLine)
price_items currency products subtotal_minor [] = ok (subtotal_minor, [])
price_items currency products subtotal_minor (item ∷ items) = do
  priced ← price_item currency products item
  next_subtotal ←
      or_throw (checked_money_add subtotal_minor priced.line_subtotal_minor)
        (app_error 409 order_total_limit_exceeded)
  rest ← price_items currency products next_subtotal items
  ok (rest.0, priced ∷ rest.1)

-- The lines that a selection is quoted for.
unfoldable pub cart_lines_of : List ProductRecord → List CheckoutCartItem → Result (List CartLine)
cart_lines_of products [] = ok []
cart_lines_of products (item ∷ items) = do
  product ← or_throw (map_get item.product_id products) internal
  rest ← cart_lines_of products items
  ok (record { product = product; quantity = item.quantity } ∷ rest)

abbrev pub address_snapshot : AddressRow → AddressSnapshot
address_snapshot address = record {
  source_address_id = address.id;
  label = address.label;
  recipient_name = address.recipient_name;
  line1 = address.line1;
  line2 = address.line2;
  city = address.city;
  region = address.region;
  postal_code = address.postal_code;
  country_code = address.country_code;
  telephone = address.telephone;
}

abbrev pub option_snapshot : DeliveryOptionQuote → OptionSnapshot
option_snapshot option = record { id = option.id; label = option.label; estimate = option.estimate }

-- `pricing`, `deliveryAddress` and `deliveryOption`.
pub record Terms : Type 0 where
  pub pricing : CreateOrderPricing
  pub delivery_address : Option AddressSnapshot
  pub delivery_option : Option OptionSnapshot

-- With no selection nothing is shipped.
abbrev pub plain_terms : Tenant → ℕ → Terms
plain_terms tenant subtotal_minor = record {
  pricing = record {
    currency = tenant.currency_code;
    currency_minor_unit = tenant.currency_minor_unit;
    subtotal_minor = subtotal_minor;
    discount_minor = 0;
    shipping_minor = 0;
    total_minor = subtotal_minor;
  };
  delivery_address = none;
  delivery_option = none;
}

abbrev pub quoted_terms : Tenant → AddressRow → CheckoutQuote → Terms
quoted_terms tenant address quote = record {
  pricing = record {
    currency = quote.pricing.currency;
    currency_minor_unit = tenant.currency_minor_unit;
    subtotal_minor = quote.pricing.subtotal_minor;
    discount_minor = quote.pricing.discount_minor;
    shipping_minor = quote.pricing.shipping_minor;
    total_minor = quote.pricing.total_minor;
  };
  delivery_address = some (address_snapshot address);
  delivery_option = some (option_snapshot quote.delivery_option);
}

pub record OrderPlan : Type 0 where
  pub cart_id : Uuid
  pub tenant : Tenant
  pub products : List ProductRecord
  pub subtotal_minor : ℕ
  pub lines : List PricedLine
  pub terms : Terms

module _ (quote_hash : Fingerprint → String) (tenant_id : String) (user_id : Uuid) where
  -- `if (selection) { … }`
  unfoldable pub select_terms :
      Tenant
      → ℕ
      → List ProductRecord
      → List CheckoutCartItem
      → Option CheckoutOrderRequest
      → Db
      → Result Terms
  select_terms tenant subtotal_minor products items none db = ok (plain_terms tenant subtotal_minor)
  select_terms tenant subtotal_minor products items (some selection) db = do
    address ←
        or_throw (find_address tenant_id user_id selection.address_id db)
          (app_error 404 delivery_address_not_found)
    lines ← cart_lines_of products items
    quote ←
        calculate_checkout_quote quote_hash lines address selection.delivery_option_id
          tenant.currency_code
    throw_if (not (str_eq quote.quote_id selection.quote_id)) (app_error 409 checkout_quote_changed)
    ok (quoted_terms tenant address quote)

  unfoldable pub plan_cart : CheckoutCart → Option CheckoutOrderRequest → Db → Result OrderPlan
  plan_cart cart selection db = do
    throw_if (is_empty cart.items) (app_error 400 empty_cart)
    products ← find_by_ids_for_update tenant_id (map (λ item. item.product_id) cart.items) db
    check_items products cart.items
    tenant ← or_throw (resolve_tenant (one tenant_id)) internal
    priced ← price_items tenant.currency_code products 0 cart.items
    terms ← select_terms tenant priced.0 products cart.items selection db
    ok (record {
      cart_id = cart.id;
      tenant = tenant;
      products = products;
      subtotal_minor = priced.0;
      lines = priced.1;
      terms = terms;
    })

  unfoldable pub plan_order :
      Option CheckoutCart → Option CheckoutOrderRequest → Db → Result OrderPlan
  plan_order cart selection db = do
    found ← or_throw cart (app_error 400 empty_cart)
    plan_cart found selection db
