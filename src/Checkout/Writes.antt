-- ===== src/Checkout/Writes.antt =====
-- Which tables the writing half of a checkout touches.
use ufsc_dso2_trabalho1_merc.Prelude.{
  ℕ, ◌+◌, String, Bool, true, List, [], ◌∷◌, ◌≡◌, ap, inl, inr, Bool-cases, ◌∙◌, sym,
}
use ufsc_dso2_trabalho1_merc.Result.{ok}
use ufsc_dso2_trabalho1_merc.Action.{pure, modify, ◌>>◌}
use ufsc_dso2_trabalho1_merc.Action.Laws.{>>=-eq-ok}
use ufsc_dso2_trabalho1_merc.Database.{Uuid, Date, ProductRow, Db}
use ufsc_dso2_trabalho1_merc.Products.{decrement_available_inventory}
use ufsc_dso2_trabalho1_merc.Orders.{placed_order, create_placed}
use ufsc_dso2_trabalho1_merc.OrderItems.{CheckoutOrderItem, create_items}
use ufsc_dso2_trabalho1_merc.Checkout.Plan.{OrderPlan}
use ufsc_dso2_trabalho1_merc.Checkout.Persist.{
  Env, PlacedOrder, decrement_all, record_events, persist_order, plan_items,
}

module _ (clock : ℕ → Date) (tenant_id : String) (i : ℕ) (item : CheckoutOrderItem)
    (items : List CheckoutOrderItem) (db : Db) where
  abbrev pub granted : Bool × Db
  granted = decrement_available_inventory tenant_id item.product item.quantity (clock i) db

  -- A loop that ends well was granted its first item.
  pub decrement_all-cons :
      {db' : Db}
      → decrement_all clock i tenant_id (item ∷ items) db ≡ (ok tt, db')
      → (granted ≡ (true, granted.1))
        × (decrement_all clock (i + 1) tenant_id items granted.1 ≡ (ok tt, db'))
  unfolding decrement_all
  decrement_all-cons h = elim (Bool-cases granted.0) [
    | inl was ↦ (λ i. (was i, granted.1), rw (was, decrement_all) at h)
    | inr not_so ↦ cc (rw (not_so, decrement_all) at h)
  ]

abbrev pub with_products : List ProductRow → Db → Db
with_products rows db = record db { products = rows }

-- The loop writes the products and nothing else.
decrement_all_keeps :
    (clock : ℕ → Date) (i : ℕ) (tenant_id : String) (items : List CheckoutOrderItem) (db : Db)
    {db' : Db}
    → decrement_all clock i tenant_id items db ≡ (ok tt, db')
    → db' ≡ with_products db'.products db
unfolding decrement_all decrement_available_inventory
decrement_all_keeps clock i tenant_id [] db h = rw (← ap (λ r. r.1) h)
decrement_all_keeps clock i tenant_id (item ∷ items) db {db'} h =
    let rest = decrement_all-cons clock tenant_id i item items db h in
    decrement_all_keeps clock (i + 1) tenant_id items (granted clock tenant_id i item items db).1
      rest.1

module _ (env : Env) (tenant_id : String) (user_id key : Uuid) (plan : OrderPlan) where
  -- The order and its items are written, the products are not yet.
  abbrev pub with_order : Db → Db
  with_order db =
      create_items env.item_id env.now (plan_items env tenant_id plan)
        (create_placed env.order_id tenant_id user_id key plan.terms.pricing env.now
          plan.terms.delivery_address plan.terms.delivery_option db).1

  abbrev pub placed_with : PlacedOrder
  placed_with = record {
    order =
        placed_order env.order_id tenant_id user_id plan.terms.pricing env.now
          plan.terms.delivery_address plan.terms.delivery_option;
    items = plan_items env tenant_id plan;
  }

  -- The database that an order leaves behind, but for the new inventories.
  abbrev pub ordered : List ProductRow → Db → Db
  ordered rows db =
      record_events env tenant_id user_id plan (plan_items env tenant_id plan)
        (with_products rows (with_order db))

  abbrev pub Persisted : Db → PlacedOrder → Db → Type 0
  Persisted db placed db' =
      (loop_end : Db) × (decrement_all env.stock_clock 0 tenant_id (plan_items env tenant_id plan)
          (with_order db)
        ≡ (ok tt, loop_end))
      × (placed ≡ placed_with)
      × (db' ≡ ordered loop_end.products db)

  pub persist_order_writes :
      (db : Db) {db' : Db} {placed : PlacedOrder}
      → persist_order env tenant_id user_id key plan db ≡ (ok placed, db')
      → Persisted db placed db'
  unfolding persist_order create_placed
  persist_order_writes db h =
      let (_, loop_end, ran, done) =
        >>=-eq-ok (decrement_all env.stock_clock 0 tenant_id (plan_items env tenant_id plan))
          (λ _.
            modify (record_events env tenant_id user_id plan (plan_items env tenant_id plan))
            >> pure placed_with)
          {s = with_order db} h in
      let kept =
        decrement_all_keeps env.stock_clock 0 tenant_id (plan_items env tenant_id plan)
          (with_order db) ran in
      (
        loop_end,
        ran,
        cc,
        sym (ap (λ r. r.1) done)
            ∙ ap (record_events env tenant_id user_id plan (plan_items env tenant_id plan)) kept,
      )
