-- ===== src/Checkout/Lines.antt =====
-- The priced lines of a plan against the cart's items.
use ufsc_dso2_trabalho1_merc.Prelude.{
  ℕ, ◌+◌, ◌*◌, ◌≤◌, String, List, [], ◌∷◌, Option, some, none, ◌≡◌, arith, sum_of, str_eq_iff,
}
use ufsc_dso2_trabalho1_merc.Result.{ok}
use ufsc_dso2_trabalho1_merc.Money.{
  Money, maximum_money_minor, money_from_minor, checked_money_add, checked_money_multiply,
}
use ufsc_dso2_trabalho1_merc.Database.{Uuid}
use ufsc_dso2_trabalho1_merc.Products.{ProductRecord}
use ufsc_dso2_trabalho1_merc.Carts.{CheckoutCartItem, map_get}
use ufsc_dso2_trabalho1_merc.Pricing.{PricedLine}
use ufsc_dso2_trabalho1_merc.Checkout.Plan.{price_item, price_items}

pub map_get-id :
    (id : Uuid) (products : List ProductRecord) {p : ProductRecord}
    → map_get id products ≡ some p
    → p.id ≡ id
unfolding map_get
map_get-id id [] {p} h = cc
map_get-id id (x ∷ products) {p} h = ground (arith, map_get-id id products {p = p})

-- A line sells the item's product at its current price.
pub record IsLineOf (currency : String) (products : List ProductRecord) (item : CheckoutCartItem)
    (line : PricedLine) : Type 0 where
  pub product : map_get item.product_id products ≡ some line.product
  pub quantity : line.quantity ≡ item.quantity
  pub price : line.product.price ≡ some (money_from_minor currency line.unit_price_minor)
  pub subtotal : line.line_subtotal_minor ≡ line.unit_price_minor * line.quantity
  pub limit : line.line_subtotal_minor ≤ maximum_money_minor

abbrev currency_in : Option Money → String
currency_in none = ""
currency_in (some money) = money.currency

price_item-IsLineOf :
    (currency : String) (products : List ProductRecord) (item : CheckoutCartItem)
    {line : PricedLine}
    → price_item currency products item ≡ ok line
    → IsLineOf currency products item line
unfolding price_item checked_money_multiply
price_item-IsLineOf currency products item {line} h =
    ground (arith, str_eq_iff (currency_in line.product.price) currency)

-- The lines sell the items, one for one and in order.
abbrev pub AreLinesOf :
    String → List ProductRecord → List CheckoutCartItem → List PricedLine → Type 0
AreLinesOf currency products [] [] = Unit
AreLinesOf currency products (item ∷ items) (line ∷ lines) =
    IsLineOf currency products item line × AreLinesOf currency products items lines
AreLinesOf currency products _ _ = ⊥

abbrev pub subtotal_of : List PricedLine → ℕ
subtotal_of = sum_of (λ line. line.line_subtotal_minor)

pub price_items-AreLinesOf :
    (currency : String) (products : List ProductRecord) (start : ℕ) (items : List CheckoutCartItem)
    {total : ℕ} {lines : List PricedLine}
    → price_items currency products start items ≡ ok (total, lines)
    → AreLinesOf currency products items lines
unfolding price_items checked_money_add
price_items-AreLinesOf currency products start [] {lines = []} h = tt
price_items-AreLinesOf currency products start [] {lines = line ∷ lines} h = cc
price_items-AreLinesOf currency products start (item ∷ items) {lines = []} h = ground arith
price_items-AreLinesOf currency products start (item ∷ items) {total} {lines = line ∷ lines} h =
    ground (
      arith,
      price_item-IsLineOf currency products item {line = line},
      price_items-AreLinesOf currency products (start + line.line_subtotal_minor) items
          {total = total} {lines = lines},
    )

-- The total is the start and the lines, and a sum that is kept stays in the limit.
pub price_items-total :
    (currency : String) (products : List ProductRecord) (start : ℕ) (items : List CheckoutCartItem)
    {total : ℕ} {lines : List PricedLine}
    → price_items currency products start items ≡ ok (total, lines)
    → (total ≡ start + subtotal_of lines)
      × (start ≤ maximum_money_minor → total ≤ maximum_money_minor)
unfolding price_items checked_money_add
price_items-total currency products start [] h = (ground arith, λ le. ground arith)
price_items-total currency products start (item ∷ items) {lines = []} h = ground arith
price_items-total currency products start (item ∷ items) {total} {lines = line ∷ lines} h =
    let ih =
      price_items-total currency products (start + line.line_subtotal_minor) items {total = total}
        {lines = lines} in
    (ground (arith, ih), λ le. ground (arith, ih))
