-- ===== src/Checkout/Retry.antt =====
-- `createOrder` with a key that was used before.
use ufsc_dso2_trabalho1_merc.Prelude.{
  ℕ, ◌+◌, String, Option, none, some, List, [], ◌∷◌, map, ◌≡◌, refl, ap, ◌∙◌, sym, arith, false,
  inl, inr, str_eq_refl, ==_refl, Option-cases,
}
use ufsc_dso2_trabalho1_merc.Sql.{select, exists_row}
use ufsc_dso2_trabalho1_merc.Sql.Laws.{
  select-append, select_one-append_none, select-eq-nil, select_one-eq-none,
}
use ufsc_dso2_trabalho1_merc.Result.{ok}
use ufsc_dso2_trabalho1_merc.Action.{Transactions}
use ufsc_dso2_trabalho1_merc.Action.Laws.{transaction-eq-ok}
use ufsc_dso2_trabalho1_merc.Tenants.{Tenant}
use ufsc_dso2_trabalho1_merc.Database.{Uuid, Date, OrderRow, ProductRow, AddressRow, Db}
use ufsc_dso2_trabalho1_merc.Products.{ProductRecord}
use ufsc_dso2_trabalho1_merc.Carts.{CartLine, CheckoutCartItem, clear}
use ufsc_dso2_trabalho1_merc.Events.{append_many, notify_many}
use ufsc_dso2_trabalho1_merc.Orders.{
  CheckoutOrder, is_order, is_history_of, is_checkout_of, map_order, map_order_found, placed_row,
  create_placed, find_by_checkout_idempotency_key,
}
use ufsc_dso2_trabalho1_merc.OrderItems.{
  is_item_in, item_rows, to_item, create_items, list_by_order_id,
}
use ufsc_dso2_trabalho1_merc.Pricing.{
  PricedLine, Fingerprint, CheckoutQuote, calculate_checkout_quote,
}
use ufsc_dso2_trabalho1_merc.Checkout.Plan.{CheckoutOrderRequest, OrderPlan, Terms, select_terms}
use ufsc_dso2_trabalho1_merc.Checkout.Persist.{
  Env, PlacedOrder, order_item, record_events, plan_items,
}
use ufsc_dso2_trabalho1_merc.Checkout.Writes.{ordered, placed_with}
use ufsc_dso2_trabalho1_merc.Checkout.Placing.{IsPlacing, create_order-IsPlacing}
use ufsc_dso2_trabalho1_merc.Checkout.Service.{
  create_or_replay, create_order_in_transaction, create_order,
}

-- No row names the id that `randomUUID()` returned for the order.
pub record IsFresh (tenant_id : String) (order_id : Uuid) (db : Db) : Type 0 where
  pub orders : exists_row (is_order tenant_id order_id) db.orders ≡ false
  pub history : exists_row (is_history_of tenant_id order_id) db.status_history ≡ false
  pub items : exists_row (is_item_in tenant_id order_id) db.order_items ≡ false

calculate-currency :
    (quote_hash : Fingerprint → String) (lines : List CartLine) (address : AddressRow)
    (option_id currency : String) {quote : CheckoutQuote}
    → calculate_checkout_quote quote_hash lines address option_id currency ≡ ok quote
    → quote.pricing.currency ≡ currency
unfolding calculate_checkout_quote
calculate-currency quote_hash lines address option_id currency h = ground arith

select_terms-currency :
    (quote_hash : Fingerprint → String) (tenant_id : String) (user_id : Uuid) (tenant : Tenant)
    (subtotal : ℕ) (products : List ProductRecord) (items : List CheckoutCartItem)
    (selection : Option CheckoutOrderRequest) (db : Db) {terms : Terms}
    → select_terms quote_hash tenant_id user_id tenant subtotal products items selection db
      ≡ ok terms
    → terms.pricing.currency ≡ tenant.currency_code
unfolding select_terms
select_terms-currency quote_hash tenant_id user_id tenant subtotal products items none db h = cc
select_terms-currency quote_hash tenant_id user_id tenant subtotal products items (some selection)
      db h =
    grind (arith, calculate-currency)

module _ (tenant_id : String) (order_id : Uuid) (currency : String) where
  -- The rows of an order's items read back as the items.
  items-round_trip :
      (new_id : ℕ → Uuid) (i : ℕ) (now : Date) (lines : List PricedLine)
      → map (to_item (some currency)) (
          select
            (is_item_in tenant_id order_id)
            (item_rows new_id i now (map (order_item tenant_id order_id currency) lines)))
        ≡ map (order_item tenant_id order_id currency) lines
  items-round_trip new_id i now [] = refl
  items-round_trip new_id i now (line ∷ lines) =
      rw (str_eq_refl tenant_id, ==_refl order_id)
        (ap (λ rest. order_item tenant_id order_id currency line ∷ rest)
          (items-round_trip new_id (i + 1) now lines))

map_order_found-eq-none :
    (db : Db) (found : Option OrderRow) → map_order_found db found ≡ none → found ≡ none
map_order_found-eq-none db none h = refl
map_order_found-eq-none db (some row) h = cc

module _ (env : Env) (tenant_id : String) (user_id key : Uuid) (plan : OrderPlan)
    (rows : List ProductRow) (db : Db) where
  abbrev after : Db
  after = ordered env tenant_id user_id key plan rows db

  abbrev new_row : OrderRow
  new_row =
      placed_row env.order_id tenant_id user_id key plan.terms.pricing env.now
        plan.terms.delivery_address plan.terms.delivery_option

  -- After an order is placed, its key finds it.
  find-ordered :
      IsFresh tenant_id env.order_id db
      → find_by_checkout_idempotency_key tenant_id user_id key db ≡ none
      → find_by_checkout_idempotency_key tenant_id user_id key after
        ≡ some (placed_with env tenant_id user_id key plan).order
  unfolding find_by_checkout_idempotency_key record_events append_many clear notify_many
      create_placed create_items map_order
  find-ordered fresh unused = rw (
    select_one-append_none (is_checkout_of tenant_id user_id key) db.orders (new_row ∷ [])
        (map_order_found-eq-none db _ unused),
    str_eq_refl tenant_id,
    ==_refl user_id,
    ==_refl key,
    select-append (is_history_of tenant_id env.order_id) db.status_history,
    select-eq-nil _ db.status_history fresh.history,
    str_eq_refl tenant_id,
    ==_refl env.order_id,
  )

  -- Its items are read back too.
  list-ordered :
      IsFresh tenant_id env.order_id db
      → plan.terms.pricing.currency ≡ plan.tenant.currency_code
      → list_by_order_id tenant_id env.order_id after ≡ plan_items env tenant_id plan
  unfolding list_by_order_id record_events append_many clear notify_many create_placed create_items
  list-ordered fresh same =
      rw
        (
          select_one-append_none (is_order tenant_id env.order_id) db.orders (new_row ∷ [])
              (select_one-eq-none _ db.orders fresh.orders),
          str_eq_refl tenant_id,
          ==_refl env.order_id,
          select-append (is_item_in tenant_id env.order_id) db.order_items,
          select-eq-nil _ db.order_items fresh.items,
          same,
        )
        (items-round_trip tenant_id env.order_id plan.tenant.currency_code env.item_id 0 env.now
          plan.lines)

module _ (quote_hash : Fingerprint → String) (tx : Transactions Db) (tenant_id : String)
    (user_id key : Uuid) where
  -- The lookup that both calls begin with has found the first order.
  pub replays :
      (env : Env) (selection : Option CheckoutOrderRequest) (db : Db) {order : CheckoutOrder}
      → find_by_checkout_idempotency_key tenant_id user_id key db ≡ some order
      → create_order_in_transaction quote_hash env tenant_id user_id key selection db
        ≡ (ok (record { order = order; items = list_by_order_id tenant_id order.id db }), db)
  unfolding create_order_in_transaction create_or_replay
  replays env selection db found = rw found

  -- The key of an order finds it and its items.
  abbrev IsKept : PlacedOrder → Db → Type 0
  IsKept placed db =
      (find_by_checkout_idempotency_key tenant_id user_id key db ≡ some placed.order)
      × (list_by_order_id tenant_id placed.order.id db ≡ placed.items)

  create_order_kept :
      (env : Env) (selection : Option CheckoutOrderRequest) (db : Db) {placed : PlacedOrder}
      → IsKept placed db
      → create_order quote_hash tx env tenant_id user_id key selection db ≡ (ok placed, db)
  unfolding create_order
  create_order_kept env selection db {placed} (found, listed) =
      tx.commits (create_order_in_transaction quote_hash env tenant_id user_id key selection) db db
        placed
        (replays env selection db found
          ∙ ap (λ items. (ok (record { order = placed.order; items = items }), db)) listed)

  IsPlacing-IsKept :
      (env : Env) (selection : Option CheckoutOrderRequest) (db : Db) {placed : PlacedOrder}
      {db' : Db}
      → IsFresh tenant_id env.order_id db
      → find_by_checkout_idempotency_key tenant_id user_id key db ≡ none
      → IsPlacing quote_hash env tenant_id user_id key selection db placed db'
      → IsKept placed db'
  IsPlacing-IsKept env selection db fresh unused placing =
      let plan = placing.plan in
      let (end, _, same_placed, same_db) = placing.written in
      let currency =
        select_terms-currency quote_hash tenant_id user_id plan.tenant plan.subtotal_minor
          plan.products placing.cart.items selection db placing.planned.terms in
      rw (same_placed, same_db)
        (
          find-ordered env tenant_id user_id key plan end.products db fresh unused,
          list-ordered env tenant_id user_id key plan end.products db fresh currency,
        )

  replays-IsKept :
      (env : Env) (selection : Option CheckoutOrderRequest) (db : Db) {placed : PlacedOrder}
      {db' : Db} {order : CheckoutOrder}
      → find_by_checkout_idempotency_key tenant_id user_id key db ≡ some order
      → create_order_in_transaction quote_hash env tenant_id user_id key selection db
        ≡ (ok placed, db')
      → IsKept placed db'
  replays-IsKept env selection db {placed} {db'} {order} found h =
      let same = sym (replays env selection db found) ∙ h in
      let same_db : db ≡ db' = ap (λ r. r.1) same in
      let same_order : order ≡ placed.order = cc same in
      let same_items : list_by_order_id tenant_id order.id db ≡ placed.items = cc same in
      rw (← same_db, ← same_order) (found, same_items)

  -- Once a checkout has returned an order, the next call of the same buyer with the same key, with
  -- any clock and new ids and whatever it selects, returns that order and its items again and
  -- changes nothing; the id of the order must be fresh when it is placed.
  pub create_order_retry :
      (env env' : Env) (selection selection' : Option CheckoutOrderRequest) (db : Db)
      {placed : PlacedOrder} {db' : Db}
      → IsFresh tenant_id env.order_id db
      → create_order quote_hash tx env tenant_id user_id key selection db ≡ (ok placed, db')
      → create_order quote_hash tx env' tenant_id user_id key selection' db' ≡ (ok placed, db')
  create_order_retry env env' selection selection' db fresh h =
      create_order_kept env' selection' _
        (elim (Option-cases (find_by_checkout_idempotency_key tenant_id user_id key db)) [
          | inl unused ↦
              IsPlacing-IsKept env selection db fresh unused (
                create_order-IsPlacing quote_hash env tenant_id user_id key selection tx db unused
                  h)
          | inr (order, found) ↦ replays-IsKept env selection db found (
              transaction-eq-ok tx
                (create_order_in_transaction quote_hash env tenant_id user_id key selection)
                (unfold create_order in h))
        ])
