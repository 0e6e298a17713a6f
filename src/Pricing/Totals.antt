-- ===== src/Pricing/Totals.antt =====
-- What a checkout quote adds up to.
use ufsc_dso2_trabalho1_merc.Prelude.{
  ℕ, ◌+◌, ◌*◌, ◌≤◌, String, List, [], ◌∷◌, Option, some, none, ◌≡◌, ◌≢◌, arith, sum_of, str_eq_iff,
}
use ufsc_dso2_trabalho1_merc.Result.{ok}
use ufsc_dso2_trabalho1_merc.Money.{
  Money, maximum_money_minor, money_from_minor, checked_money_add, checked_money_multiply,
}
use ufsc_dso2_trabalho1_merc.ProductStatus.{active}
use ufsc_dso2_trabalho1_merc.Database.{AddressRow}
use ufsc_dso2_trabalho1_merc.Carts.{CartLine}
use ufsc_dso2_trabalho1_merc.Pricing.{
  PricedLine, Fingerprint, CheckoutQuote, price_line, price_lines, calculate_checkout_quote,
}

abbrev pub subtotal_of : List PricedLine → ℕ
subtotal_of = sum_of (λ line. line.line_subtotal_minor)

-- A quoted line sells the item at its current price, from stock, in the currency of the tenant.
pub record IsQuoteLine (currency : String) (item : CartLine) (line : PricedLine) : Type 0 where
  pub product : line.product ≡ item.product
  pub quantity : line.quantity ≡ item.quantity
  pub on_sale : item.product.status ≡ active
  pub in_stock : item.quantity ≤ item.product.inventory
  pub price : item.product.price ≡ some (money_from_minor currency line.unit_price_minor)
  pub subtotal : line.line_subtotal_minor ≡ line.unit_price_minor * line.quantity

abbrev currency_in : Option Money → String
currency_in none = ""
currency_in (some money) = money.currency

price_line-IsQuoteLine :
    (currency : String) (item : CartLine) {line : PricedLine}
    → price_line currency item ≡ ok line
    → IsQuoteLine currency item line
unfolding price_line checked_money_multiply
price_line-IsQuoteLine currency item {line} h =
    ground (arith, str_eq_iff (currency_in item.product.price) currency)

abbrev pub AreQuoteLines : String → List CartLine → List PricedLine → Type 0
AreQuoteLines currency [] [] = Unit
AreQuoteLines currency (item ∷ items) (line ∷ lines) =
    IsQuoteLine currency item line × AreQuoteLines currency items lines
AreQuoteLines currency _ _ = ⊥

price_lines-AreQuoteLines :
    (currency : String) (start : ℕ) (items : List CartLine) {total : ℕ} {lines : List PricedLine}
    → price_lines currency start items ≡ ok (total, lines)
    → AreQuoteLines currency items lines
unfolding price_lines checked_money_add
price_lines-AreQuoteLines currency start [] {lines = []} h = tt
price_lines-AreQuoteLines currency start [] {lines = line ∷ lines} h = cc
price_lines-AreQuoteLines currency start (item ∷ items) {lines = []} h = ground arith
price_lines-AreQuoteLines currency start (item ∷ items) {total} {lines = line ∷ lines} h = ground (
  arith,
  price_line-IsQuoteLine currency item {line = line},
  price_lines-AreQuoteLines currency (start + line.line_subtotal_minor) items {total = total}
      {lines = lines},
)

price_lines-total :
    (currency : String) (start : ℕ) (items : List CartLine) {total : ℕ} {lines : List PricedLine}
    → price_lines currency start items ≡ ok (total, lines)
    → total ≡ start + subtotal_of lines
unfolding price_lines checked_money_add
price_lines-total currency start [] h = ground arith
price_lines-total currency start (item ∷ items) {lines = []} h = ground arith
price_lines-total currency start (item ∷ items) {total} {lines = line ∷ lines} h = ground (
  arith,
  price_lines-total currency (start + line.line_subtotal_minor) items {total = total}
      {lines = lines},
)

-- What a quote promises: its lines, and amounts that add up within the limit.
pub record IsQuote (items : List CartLine) (currency : String) (quote : CheckoutQuote)
    : Type 0 where
  pub nonempty : items ≢ []
  pub lines : AreQuoteLines currency items quote.priced_items
  pub in_currency : quote.pricing.currency ≡ currency
  pub subtotal : quote.pricing.subtotal_minor ≡ subtotal_of quote.priced_items
  pub discount : quote.pricing.discount_minor ≡ 0
  pub total :
      quote.pricing.total_minor ≡ quote.pricing.subtotal_minor + quote.pricing.shipping_minor
  pub limit : quote.pricing.total_minor ≤ maximum_money_minor
  pub shown : quote.response.total ≡ money_from_minor currency quote.pricing.total_minor

-- A quote that is given sells every item of a nonempty cart at its current price, from stock; its
-- subtotal is the sum of the lines, its total adds the shipping, and neither passes the limit.
pub calculate_checkout_quote-IsQuote :
    (quote_hash : Fingerprint → String) (items : List CartLine) (address : AddressRow)
    (option_id currency : String) {quote : CheckoutQuote}
    → calculate_checkout_quote quote_hash items address option_id currency ≡ ok quote
    → IsQuote items currency quote
unfolding calculate_checkout_quote checked_money_add
calculate_checkout_quote-IsQuote quote_hash [] address option_id currency {quote} h = cc
calculate_checkout_quote-IsQuote quote_hash (item ∷ items) address option_id currency {quote} h =
    ground (
      arith,
      price_lines-AreQuoteLines currency 0 (item ∷ items) {total = quote.pricing.subtotal_minor}
          {lines = quote.priced_items},
      price_lines-total currency 0 (item ∷ items) {total = quote.pricing.subtotal_minor}
          {lines = quote.priced_items},
    )
