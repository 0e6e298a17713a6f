-- ===== src/Checkout/Amounts.antt =====
-- The amounts of a placed order.
use ufsc_dso2_trabalho1_merc.Prelude.{
  ℕ, ◌+◌, ◌*◌, ◌≤◌, String, List, [], ◌∷◌, map, Option, some, none, ◌≡◌, ap, refl, sym, ◌∙◌, subst,
  arith, sum_of, All,
}
use ufsc_dso2_trabalho1_merc.Result.{ok}
use ufsc_dso2_trabalho1_merc.Action.{Transactions}
use ufsc_dso2_trabalho1_merc.Money.{
  Money, maximum_money_minor, money_from_minor, checked_money_add, checked_money_multiply,
}
use ufsc_dso2_trabalho1_merc.Tenants.{Tenant, resolve_tenant, one}
use ufsc_dso2_trabalho1_merc.Database.{Uuid, AddressRow, Db}
use ufsc_dso2_trabalho1_merc.Products.{ProductRecord}
use ufsc_dso2_trabalho1_merc.Carts.{CartLine, CheckoutCartItem}
use ufsc_dso2_trabalho1_merc.Orders.{CreateOrderPricing, find_by_checkout_idempotency_key}
use ufsc_dso2_trabalho1_merc.OrderItems.{CheckoutOrderItem}
use ufsc_dso2_trabalho1_merc.Delivery.{DeliveryOptionQuote, get_delivery_option}
use ufsc_dso2_trabalho1_merc.Pricing.{
  PricedLine, Fingerprint, CheckoutQuote, price_line, price_lines, calculate_checkout_quote,
}
use ufsc_dso2_trabalho1_merc.Checkout.Plan.{
  CheckoutOrderRequest, Terms, price_item, price_items, cart_lines_of, select_terms,
}
use ufsc_dso2_trabalho1_merc.Checkout.Lines.{
  AreLinesOf, subtotal_of, price_items-AreLinesOf, price_items-total,
}
use ufsc_dso2_trabalho1_merc.Checkout.Persist.{Env, PlacedOrder, order_item}
use ufsc_dso2_trabalho1_merc.Checkout.Placing.{create_order-IsPlacing}
use ufsc_dso2_trabalho1_merc.Checkout.Service.{create_order}

-- The two pricing loops of a checkout agree: what the order prices is what the quote does.
price_lines-price_items :
    (currency : String) (products : List ProductRecord) (start : ℕ) (items : List CheckoutCartItem)
    (quoted : List CartLine) {total total' : ℕ} {lines lines' : List PricedLine}
    → price_items currency products start items ≡ ok (total, lines)
    → cart_lines_of products items ≡ ok quoted
    → price_lines currency start quoted ≡ ok (total', lines')
    → total ≡ total'
unfolding price_items cart_lines_of price_lines price_item price_line checked_money_add
    checked_money_multiply
price_lines-price_items currency products start [] [] h k l = ground arith
price_lines-price_items currency products start [] (q ∷ quoted) h k l = cc
price_lines-price_items currency products start (item ∷ items) [] h k l = ground arith
price_lines-price_items currency products start (item ∷ items) (q ∷ quoted) {lines = []} h k l =
    ground arith
price_lines-price_items currency products start (item ∷ items) (q ∷ quoted) {lines = line ∷ lines}
      {lines' = []} h k l =
    ground arith
price_lines-price_items currency products start (item ∷ items) (q ∷ quoted) {total} {total'}
      {lines = line ∷ lines} {lines' = line' ∷ lines'} h k l =
    ground (
      arith,
      price_lines-price_items currency products (start + line.line_subtotal_minor) items quoted
          {total = total} {total' = total'} {lines = lines} {lines' = lines'},
    )

-- What the selected delivery costs; with no selection nothing is shipped.
abbrev pub ShipsFor : String → Option CheckoutOrderRequest → ℕ → Type 0
ShipsFor currency none shipping = shipping ≡ 0
ShipsFor currency (some selection) shipping =
    (option : DeliveryOptionQuote) × (get_delivery_option selection.delivery_option_id currency
      ≡ ok option)
    × (shipping ≡ option.shipping_minor)

-- The prices that an order is stored with.
pub record AreTerms (currency : String) (selection : Option CheckoutOrderRequest) (subtotal : ℕ)
    (pricing : CreateOrderPricing) : Type 0 where
  pub in_currency : pricing.currency ≡ currency
  pub subtotal_kept : pricing.subtotal_minor ≡ subtotal
  pub discount : pricing.discount_minor ≡ 0
  pub ships : ShipsFor currency selection pricing.shipping_minor
  pub total : pricing.total_minor ≡ subtotal + pricing.shipping_minor
  pub limit : pricing.total_minor ≤ maximum_money_minor

module _ (quote_hash : Fingerprint → String) (currency : String) (products : List ProductRecord)
    (items : List CheckoutCartItem) (subtotal : ℕ) (lines : List PricedLine)
    (priced : price_items currency products 0 items ≡ ok (subtotal, lines)) where
  quote-AreTerms :
      (quoted : List CartLine) (address : AddressRow) (selection : CheckoutOrderRequest)
      {quote : CheckoutQuote}
      → cart_lines_of products items ≡ ok quoted
      → calculate_checkout_quote quote_hash quoted address selection.delivery_option_id currency
        ≡ ok quote
      → (quote.pricing.currency ≡ currency)
        × (quote.pricing.subtotal_minor ≡ subtotal)
        × (quote.pricing.discount_minor ≡ 0)
        × ShipsFor currency (some selection) quote.pricing.shipping_minor
        × (quote.pricing.total_minor ≡ subtotal + quote.pricing.shipping_minor)
        × (quote.pricing.total_minor ≤ maximum_money_minor)
  unfolding calculate_checkout_quote checked_money_add
  quote-AreTerms quoted address selection {quote} h k =
      let same =
        price_lines-price_items currency products 0 items quoted {total = subtotal}
          {total' = quote.pricing.subtotal_minor} {lines = lines} {lines' = quote.priced_items}
          priced h in
      (
        ground arith,
        ground (arith, same),
        ground arith,
        (quote.delivery_option, ground arith, ground arith),
        ground (arith, same),
        ground arith,
      )

  select_terms-AreTerms :
      (tenant_id : String) (user_id : Uuid) (tenant : Tenant)
      (selection : Option CheckoutOrderRequest) (db : Db) {terms : Terms}
      → tenant.currency_code ≡ currency
      → subtotal ≤ maximum_money_minor
      → select_terms quote_hash tenant_id user_id tenant subtotal products items selection db
        ≡ ok terms
      → AreTerms currency selection subtotal terms.pricing
  unfolding select_terms
  select_terms-AreTerms tenant_id user_id tenant none db same le h = ground arith
  select_terms-AreTerms tenant_id user_id tenant (some selection) db same le h =
      grind (arith, quote-AreTerms)

abbrev amount_in : Option Money → ℕ
amount_in none = 0
amount_in (some money) = money.amount_minor

-- The line subtotals of an order's items, added up.
abbrev pub items_total : List CheckoutOrderItem → ℕ
items_total = sum_of (λ item. amount_in item.line_subtotal)

-- An item is priced in the currency, and its subtotal is its price times its quantity.
abbrev pub IsPricedItem : String → CheckoutOrderItem → Type 0
IsPricedItem currency item =
    (unit : ℕ) × (item.unit_price ≡ some (money_from_minor currency unit))
    × (item.line_subtotal ≡ some (money_from_minor currency (unit * item.quantity)))

module _ (tenant_id : String) (order_id : Uuid) (currency : String)
    (products : List ProductRecord) where
  items-IsPricedItem :
      (items : List CheckoutCartItem) (lines : List PricedLine)
      → AreLinesOf currency products items lines
      → All (IsPricedItem currency) (map (order_item tenant_id order_id currency) lines)
  items-IsPricedItem [] [] h = tt
  items-IsPricedItem [] (line ∷ lines) h = elim h [ ]
  items-IsPricedItem (item ∷ items) [] h = elim h [ ]
  items-IsPricedItem (item ∷ items) (line ∷ lines) (first, rest) = (
    (line.unit_price_minor, refl, ap (λ n. some (money_from_minor currency n)) first.subtotal),
    items-IsPricedItem items lines rest,
  )

items_total-lines :
    (tenant_id : String) (order_id : Uuid) (currency : String) (lines : List PricedLine)
    → items_total (map (order_item tenant_id order_id currency) lines) ≡ subtotal_of lines
items_total-lines tenant_id order_id currency [] = refl
items_total-lines tenant_id order_id currency (line ∷ lines) =
    omega (arith, items_total-lines tenant_id order_id currency lines)

-- The amounts that an order shows, in one currency.
pub record HasAmounts (currency : String) (selection : Option CheckoutOrderRequest)
    (placed : PlacedOrder) : Type 0 where
  pub shipping_minor : ℕ
  pub ships : ShipsFor currency selection shipping_minor
  pub items : All (IsPricedItem currency) placed.items
  pub subtotal : placed.order.subtotal ≡ some (money_from_minor currency (items_total placed.items))
  pub discount : placed.order.discount ≡ some (money_from_minor currency 0)
  pub shipping : placed.order.shipping ≡ some (money_from_minor currency shipping_minor)
  pub total :
      placed.order.total
      ≡ some (money_from_minor currency (items_total placed.items + shipping_minor))
  pub limit : items_total placed.items + shipping_minor ≤ maximum_money_minor

some_money :
    {c c' : String} {n n' : ℕ}
    → c ≡ c'
    → n ≡ n'
    → some (money_from_minor c n) ≡ some (money_from_minor c' n')
some_money p q = cc

-- A newly placed order is priced in the currency of its tenant: every item's subtotal is its unit
-- price times its quantity, the order's subtotal is the sum of those, there is no discount, the
-- shipping is that of the selected option (none without a selection), the total is the subtotal
-- and the shipping, and it is within the limit.
pub create_order-HasAmounts :
    (quote_hash : Fingerprint → String) (tx : Transactions Db) (env : Env) (tenant_id : String)
    (user_id key : Uuid) (selection : Option CheckoutOrderRequest) (db : Db) {placed : PlacedOrder}
    {db' : Db}
    → find_by_checkout_idempotency_key tenant_id user_id key db ≡ none
    → create_order quote_hash tx env tenant_id user_id key selection db ≡ (ok placed, db')
    → (tenant : Tenant) × (resolve_tenant (one tenant_id) ≡ some tenant)
      × HasAmounts tenant.currency_code selection placed
create_order-HasAmounts quote_hash tx env tenant_id user_id key selection db {placed} unused h =
    let placing =
      create_order-IsPlacing quote_hash env tenant_id user_id key selection tx db unused h in
    let plan = placing.plan in
    let currency = plan.tenant.currency_code in
    let (_, _, same_placed, _) = placing.written in
    let (summed, bounded) =
      price_items-total currency plan.products 0 placing.cart.items placing.planned.priced in
    let terms =
      select_terms-AreTerms quote_hash currency plan.products placing.cart.items plan.subtotal_minor
        plan.lines placing.planned.priced tenant_id user_id plan.tenant selection db refl
        (bounded (omega arith)) placing.planned.terms in
    let added : items_total (map (order_item tenant_id env.order_id currency) plan.lines)
        ≡ plan.subtotal_minor =
      omega (arith, items_total-lines tenant_id env.order_id currency plan.lines, summed) in
    (
      plan.tenant,
      placing.planned.tenant,
      subst (HasAmounts currency selection) (sym same_placed) (record {
        shipping_minor = plan.terms.pricing.shipping_minor;
        ships = terms.ships;
        items =
            items-IsPricedItem tenant_id env.order_id currency plan.products placing.cart.items
              plan.lines
              (price_items-AreLinesOf currency plan.products 0 placing.cart.items
                placing.planned.priced);
        subtotal = some_money terms.in_currency (terms.subtotal_kept ∙ sym added);
        discount = some_money terms.in_currency terms.discount;
        shipping = some_money terms.in_currency refl;
        total = some_money terms.in_currency (omega (arith, terms.total, added));
        limit = omega (arith, added, terms.total, terms.limit);
      }),
    )
