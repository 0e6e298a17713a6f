-- ===== src/Fulfilment/Change.antt =====
-- What a change of status writes and shows, and to whom.
use ufsc_dso2_trabalho1_merc.Prelude.{
  String, Bool, true, false, Option, none, some, List, [], ◌∷◌, ◌≡◌, ap, refl, sym, ◌∙◌, subst,
  arith, ◌⊎◌, inl, inr, ◌==◌, All, eq_of_==, Bool-cases,
}
use ufsc_dso2_trabalho1_merc.Sql.{select}
use ufsc_dso2_trabalho1_merc.Result.{ok, or_throw}
use ufsc_dso2_trabalho1_merc.Action.{Transactions, ◌>>=◌, ◌>>◌, modify}
use ufsc_dso2_trabalho1_merc.OrderStatus.{OrderStatus, cancelled}
use ufsc_dso2_trabalho1_merc.OrderStatus.Lifecycle.{Moves}
use ufsc_dso2_trabalho1_merc.Database.{Uuid, order_now, order_status_changed, Db}
use ufsc_dso2_trabalho1_merc.Events.{append_many, notify_many}
use ufsc_dso2_trabalho1_merc.Orders.{CheckoutOrder, find_by_id, map_order, update_status}
use ufsc_dso2_trabalho1_merc.OrderItems.{CheckoutOrderItem, list_by_order_id, seller_owns_order}
use ufsc_dso2_trabalho1_merc.Checkout.Persist.{PlacedOrder}
use ufsc_dso2_trabalho1_merc.Fulfilment.{
  Env, is_buyer_cancellation, view, change_status, update_order_status,
}
use ufsc_dso2_trabalho1_merc.Fulfilment.Access.{
  Goes, kept, stepped, update_order_status-IsUpdate, permitted_step, let_in_by,
}

module _ (env : Env) (user_id : Uuid) (tenant_id : String) (order_id : Uuid)
    (status : OrderStatus) where
  -- The database after a change.
  abbrev pub changed : CheckoutOrder → Db → Db
  changed order db =
      append_many env.audit_id
        (record {
          tenant_id = tenant_id;
          event = order_status_changed order.status status;
          actor_id = some user_id;
          resource_id = order_id;
          occurred_at = env.now;
        }
          ∷ [])
        (notify_many env.notice_id env.now
          (record {
            tenant_id = tenant_id;
            user_id = order.buyer;
            message = order_now order.id status;
          }
            ∷ [])
          (update_status tenant_id order_id status user_id env.now db))

  pub change_status_writes :
      (order : CheckoutOrder) (buyer : Bool) (db : Db) {r : PlacedOrder} {db' : Db}
      → change_status env user_id tenant_id order_id status order buyer db ≡ (ok r, db')
      → (updated : CheckoutOrder) × (find_by_id tenant_id order_id db' ≡ some updated)
        × (r ≡ view user_id buyer updated (list_by_order_id tenant_id order_id db'))
        × (db' ≡ changed order db)
  unfolding change_status find_by_id map_order append_many notify_many
  change_status_writes order buyer db {r} {db'} h =
      split (find_by_id tenant_id order_id written) refl
    where
      written : Db
      written = update_status tenant_id order_id status user_id env.now db

      split :
          (found : Option CheckoutOrder)
          → find_by_id tenant_id order_id written ≡ found
          → (updated : CheckoutOrder) × (find_by_id tenant_id order_id db' ≡ some updated)
            × (r ≡ view user_id buyer updated (list_by_order_id tenant_id order_id db'))
            × (db' ≡ changed order db)
      split none e = cc (rw (e, or_throw, change_status, ◌>>=◌, ◌>>◌, modify) at h)
      split (some updated) e =
          let done = rw (e, or_throw, change_status, ◌>>=◌, ◌>>◌, modify) at h in
          let same : changed order db ≡ db' = ap (λ x. x.1) done in
          (updated, rw (← same) e, rw (← same) (cc done), sym same)

pub buyer_cancels :
    {user_id : Uuid} {status : OrderStatus} (order : CheckoutOrder)
    → is_buyer_cancellation user_id status order ≡ true
    → (order.buyer ≡ user_id) × (status ≡ cancelled)
buyer_cancels order h = (ground arith, ground arith)

-- A view with no right to the whole order shows no total, and only the caller's items.
abbrev pub IsScopedTo : Uuid → PlacedOrder → Type 0
IsScopedTo user_id r =
    (r.order.subtotal ≡ none)
    × (r.order.discount ≡ none)
    × (r.order.shipping ≡ none)
    × (r.order.total ≡ none)
    × All (λ item. item.seller ≡ user_id) r.items

own_items :
    (user_id : Uuid) (items : List CheckoutOrderItem)
    → All (λ item. item.seller ≡ user_id) (select (λ item. item.seller == user_id) items)
own_items user_id [] = tt
own_items user_id (item ∷ items) = elim (Bool-cases (item.seller == user_id)) [
  | inl own ↦ rw own (eq_of_== item.seller user_id own, own_items user_id items)
  | inr other ↦ rw other (own_items user_id items)
]

view-IsScopedTo :
    (user_id : Uuid) (order : CheckoutOrder) (items : List CheckoutOrderItem)
    → IsScopedTo user_id (view user_id false order items)
view-IsScopedTo user_id order items = (refl, refl, refl, refl, own_items user_id items)

module _ {env : Env} {user_id : Uuid} {tenant_id : String} {order_id : Uuid} {status : OrderStatus}
    {order : CheckoutOrder} {seller buyer : Bool} {db : Db} where
  Goes-IsScopedTo :
      {r : PlacedOrder} {db' : Db}
      → buyer ≡ false
      → Goes env user_id tenant_id order_id status order seller buyer db r db'
      → IsScopedTo user_id r
  Goes-IsScopedTo no_buyer (kept same shown unchanged) =
      subst (IsScopedTo user_id)
        (sym (
          shown ∙ ap (λ b. view user_id b order (list_by_order_id tenant_id order_id db)) no_buyer))
        (view-IsScopedTo user_id order _)
  Goes-IsScopedTo {db'} no_buyer (stepped allowed ran) =
      let (updated, _, shown, _) =
        change_status_writes env user_id tenant_id order_id status order buyer db ran in
      subst (IsScopedTo user_id)
        (sym (
          shown
          ∙ ap (λ b. view user_id b updated (list_by_order_id tenant_id order_id db')) no_buyer))
        (view-IsScopedTo user_id updated _)

module _ (env : Env) (user_id : Uuid) (tenant_id : String) (order_id : Uuid) (status : OrderStatus)
    (tx : Transactions Db) where
  -- A call that returns was made by a seller of the order, or by its buyer to cancel it; either the
  -- order had that status already and nothing changed, or the change is a step of the life cycle,
  -- and only the buyer's if it is to cancelled.
  pub update_order_status_permitted :
      (db : Db) {r : PlacedOrder} {db' : Db}
      → update_order_status env user_id tenant_id order_id status tx db ≡ (ok r, db')
      → (order : CheckoutOrder) × (find_by_id tenant_id order_id db ≡ some order)
        × ((seller_owns_order tenant_id order_id user_id db ≡ true)
            ⊎ ((order.buyer ≡ user_id) × (status ≡ cancelled)))
        × (((order.status ≡ status) × (db' ≡ db))
            ⊎ (Moves order.status status × (status ≡ cancelled → order.buyer ≡ user_id)))
  update_order_status_permitted db h =
      let u = update_order_status-IsUpdate env user_id tenant_id order_id status tx db h in
      (u.order, u.found, let_in_by _ user_id status u.order u.let_in, permitted u.goes)
    where
      permitted :
          {order : CheckoutOrder} {seller : Bool} {r : PlacedOrder} {db' : Db}
          → Goes env user_id tenant_id order_id status order seller
              (is_buyer_cancellation user_id status order)
              db
              r
              db'
          → ((order.status ≡ status) × (db' ≡ db))
            ⊎ (Moves order.status status × (status ≡ cancelled → order.buyer ≡ user_id))
      permitted (kept same shown unchanged) = inl (same, unchanged)
      permitted {order} {seller} (stepped allowed ran) =
          let (moves, by_buyer) =
            permitted_step seller (is_buyer_cancellation user_id status order) order.status status
              allowed (λ b. (buyer_cancels order b).1) in
          inr (moves, λ c. (buyer_cancels order (by_buyer c)).0)

  -- Unless the caller is the buyer who cancels, the reply shows none of the order's totals and no
  -- item of another seller.
  pub update_order_status-IsScopedTo :
      (db : Db) {order : CheckoutOrder} {r : PlacedOrder} {db' : Db}
      → find_by_id tenant_id order_id db ≡ some order
      → is_buyer_cancellation user_id status order ≡ false
      → update_order_status env user_id tenant_id order_id status tx db ≡ (ok r, db')
      → IsScopedTo user_id r
  update_order_status-IsScopedTo db {order} found not_buyer h =
      let u = update_order_status-IsUpdate env user_id tenant_id order_id status tx db h in
      let same : u.order ≡ order = cc (u.found, found) in
      Goes-IsScopedTo (ap (is_buyer_cancellation user_id status) same ∙ not_buyer) u.goes
