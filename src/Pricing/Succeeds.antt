-- ===== src/Pricing/Succeeds.antt =====
-- When a checkout quote is given.
use ufsc_dso2_trabalho1_merc.Prelude.{
  ℕ, ◌+◌, ◌*◌, ◌≤◌, String, List, [], ◌∷◌, Option, some, none, ◌≡◌, ◌≢◌, ap, refl, arith, sum_of,
  All, str_eq_refl, leb, true,
}
use ufsc_dso2_trabalho1_merc.Result.{ok}
use ufsc_dso2_trabalho1_merc.Money.{
  Money, maximum_money_minor, money_from_minor, checked_money_add, checked_money_multiply,
}
use ufsc_dso2_trabalho1_merc.ProductStatus.{active}
use ufsc_dso2_trabalho1_merc.Database.{AddressRow}
use ufsc_dso2_trabalho1_merc.Carts.{CartLine}
use ufsc_dso2_trabalho1_merc.Delivery.{DeliveryOptionQuote, get_delivery_option}
use ufsc_dso2_trabalho1_merc.Pricing.{
  PricedLine, Fingerprint, CheckoutQuote, price_line, price_lines, calculate_checkout_quote,
  quote_of, fingerprint,
}

leb_of_le : (a b : ℕ) → a ≤ b → leb a b ≡ true
leb_of_le a b h = ground arith

abbrev amount_in : Option Money → ℕ
amount_in none = 0
amount_in (some money) = money.amount_minor

-- What an item costs at its current price.
abbrev pub item_value : CartLine → ℕ
item_value item = amount_in item.product.price * item.quantity

abbrev pub cart_value : List CartLine → ℕ
cart_value = sum_of item_value

-- An item that can be sold in a currency: active, in stock, and priced in it.
abbrev pub IsSellable : String → CartLine → Type 0
IsSellable currency item =
    (item.product.status ≡ active)
    × (item.quantity ≤ item.product.inventory)
    × (item.product.price ≡ some (money_from_minor currency (amount_in item.product.price)))

abbrev line_of : CartLine → PricedLine
line_of item = record {
  product = item.product;
  quantity = item.quantity;
  unit_price_minor = amount_in item.product.price;
  line_subtotal_minor = item_value item;
}

price_line_succeeds :
    (currency : String) (item : CartLine)
    → IsSellable currency item
    → item_value item ≤ maximum_money_minor
    → price_line currency item ≡ ok (line_of item)
unfolding price_line checked_money_multiply
price_line_succeeds currency item (on_sale, in_stock, priced) le =
    ground (arith, str_eq_refl currency, ap amount_in priced)

abbrev lines_of : List CartLine → List PricedLine
lines_of [] = []
lines_of (item ∷ items) = line_of item ∷ lines_of items

price_lines_succeeds :
    (currency : String) (start : ℕ) (items : List CartLine)
    → All (IsSellable currency) items
    → start + cart_value items ≤ maximum_money_minor
    → price_lines currency start items ≡ ok (start + cart_value items, lines_of items)
unfolding price_lines checked_money_add
price_lines_succeeds currency start [] h le = ground arith
price_lines_succeeds currency start (item ∷ items) (first, rest) le = ground (
  arith,
  price_line_succeeds currency item first,
  price_lines_succeeds currency (start + item_value item) items rest,
)

-- A nonempty cart of sellable items, with a delivery option that exists and a total within the
-- limit, gets a quote, and the quote's total is the value of the cart and the shipping.
pub calculate_checkout_quote_succeeds :
    (quote_hash : Fingerprint → String) (items : List CartLine) (address : AddressRow)
    (option_id currency : String) {option : DeliveryOptionQuote}
    → items ≢ []
    → All (IsSellable currency) items
    → get_delivery_option option_id currency ≡ ok option
    → cart_value items + option.shipping_minor ≤ maximum_money_minor
    → (quote : CheckoutQuote) × (calculate_checkout_quote quote_hash items address option_id
          currency
        ≡ ok quote)
      × (quote.pricing.total_minor ≡ cart_value items + option.shipping_minor)
unfolding calculate_checkout_quote checked_money_add
calculate_checkout_quote_succeeds quote_hash [] address option_id currency nonempty h found le =
    absurd (nonempty refl)
calculate_checkout_quote_succeeds quote_hash (item ∷ items) address option_id currency {option}
      nonempty h found le =
    let value = 0 + cart_value (item ∷ items) in
    let total = value + option.shipping_minor in
    let priced = price_lines_succeeds currency 0 (item ∷ items) h in
    (
      quote_of
          (quote_hash (
            fingerprint address option_id (lines_of (item ∷ items)) currency value
              option.shipping_minor total))
          address option (lines_of (item ∷ items)) currency value total,
      rw (priced (omega arith), found, leb_of_le total maximum_money_minor (omega arith)) refl,
      omega arith,
    )
