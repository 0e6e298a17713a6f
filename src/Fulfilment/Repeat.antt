-- ===== src/Fulfilment/Repeat.antt =====
-- The same change of status, asked for again.
use ufsc_dso2_trabalho1_merc.Prelude.{
  String, Bool, true, false, Option, none, some, ◌≡◌, ap, refl, sym, ◌∙◌, ◌&&◌, ◌||◌, ◌==◌,
}
use ufsc_dso2_trabalho1_merc.Sql.{select_one}
use ufsc_dso2_trabalho1_merc.Sql.Laws.{select_one-update, select_one_holds}
use ufsc_dso2_trabalho1_merc.Result.{ok, or_throw}
use ufsc_dso2_trabalho1_merc.Action.{Transactions, ◌>>=◌}
use ufsc_dso2_trabalho1_merc.OrderStatus.{
  OrderStatus, placed, confirmed, shipped, delivered, cancelled, same_status,
}
use ufsc_dso2_trabalho1_merc.Database.{Uuid, OrderRow, Db}
use ufsc_dso2_trabalho1_merc.Orders.{
  CheckoutOrder, find_by_id, map_order, map_order_found, is_order, update_status,
}
use ufsc_dso2_trabalho1_merc.OrderItems.{list_by_order_id, seller_owns_order}
use ufsc_dso2_trabalho1_merc.Events.{append_many, notify_many}
use ufsc_dso2_trabalho1_merc.Checkout.Persist.{PlacedOrder}
use ufsc_dso2_trabalho1_merc.Fulfilment.{
  Env, is_buyer_cancellation, view, keep_status, guarded_change, update_order_status_in_transaction,
  update_order_status,
}
use ufsc_dso2_trabalho1_merc.Fulfilment.Access.{Goes, kept, stepped, update_order_status-IsUpdate}
use ufsc_dso2_trabalho1_merc.Fulfilment.Change.{changed, change_status_writes}

same_status_refl : (s : OrderStatus) → same_status s s ≡ true
same_status_refl placed = refl
same_status_refl confirmed = refl
same_status_refl shipped = refl
same_status_refl delivered = refl
same_status_refl cancelled = refl

module _ (user_id : Uuid) (tenant_id : String) (order_id : Uuid) (status : OrderStatus) where
  guarded_change_kept :
      (env : Env) (order : CheckoutOrder) (db : Db) (seller buyer : Bool)
      → (seller || buyer) ≡ true
      → same_status order.status status ≡ true
      → guarded_change env user_id tenant_id order_id status order seller buyer db
        ≡ (ok (view user_id buyer order (list_by_order_id tenant_id order_id db)), db)
  unfolding guarded_change keep_status
  guarded_change_kept env order db true buyer let_in same = rw same refl
  guarded_change_kept env order db false true let_in same = rw same refl
  guarded_change_kept env order db false false let_in same = cc

  -- With the right to change it, an order that has the status already is shown and kept.
  shows_kept :
      (env : Env) (order : CheckoutOrder) (db : Db)
      → find_by_id tenant_id order_id db ≡ some order
      → (seller_owns_order tenant_id order_id user_id db
          || is_buyer_cancellation user_id status order)
        ≡ true
      → order.status ≡ status
      → update_order_status_in_transaction env user_id tenant_id order_id status db ≡ (
        ok (
            view user_id
              (is_buyer_cancellation user_id status order)
              order
              (list_by_order_id tenant_id order_id db)),
        db,
      )
  unfolding update_order_status_in_transaction
  shows_kept env order db found let_in same =
      rw (found, or_throw, update_order_status_in_transaction, ◌>>=◌)
        (guarded_change_kept env order db (seller_owns_order tenant_id order_id user_id db)
          (is_buyer_cancellation user_id status order) let_in
          (ap (λ s. same_status s status) same ∙ same_status_refl status))

  -- The changed order has the status and its buyer, and its seller is still its seller.
  changed-order :
      (env : Env) (order updated : CheckoutOrder) (db : Db) (found : Option OrderRow)
      → select_one (is_order tenant_id order_id) db.orders ≡ found
      → map_order_found db found ≡ some order
      → find_by_id tenant_id order_id (changed env user_id tenant_id order_id status order db)
        ≡ some updated
      → (updated.status ≡ status) × (updated.buyer ≡ order.buyer)
  unfolding find_by_id map_order update_status append_many notify_many
  changed-order env order updated db none e h k = cc
  changed-order env order updated db (some row) e h k =
      let set = λ (r : OrderRow). record r { status = status; updated_at = env.now } in
      let after =
        select_one-update (is_order tenant_id order_id) (is_order tenant_id order_id) set db.orders
          (λ r. refl) in
      let own = select_one_holds (is_order tenant_id order_id) db.orders e in
      let now = rw (after, e, own) at k in (cc now, cc (now, h))

  Goes-repeats :
      (env env' : Env) (order : CheckoutOrder) (db : Db) {r : PlacedOrder} {db' : Db}
      → find_by_id tenant_id order_id db ≡ some order
      → (seller_owns_order tenant_id order_id user_id db
          || is_buyer_cancellation user_id status order)
        ≡ true
      → Goes env user_id tenant_id order_id status order
          (seller_owns_order tenant_id order_id user_id db)
          (is_buyer_cancellation user_id status order)
          db
          r
          db'
      → update_order_status_in_transaction env' user_id tenant_id order_id status db' ≡ (ok r, db')
  unfolding find_by_id seller_owns_order update_status append_many notify_many
  Goes-repeats env env' order db found let_in (kept same shown unchanged) =
      rw (shown, unchanged) (shows_kept env' order db found let_in same)
  Goes-repeats env env' order db {r} {db'} found let_in (stepped allowed ran) =
      let buyer = is_buyer_cancellation user_id status order in
      let (updated, found', shown, same) =
        change_status_writes env user_id tenant_id order_id status order buyer db ran in
      let (reached, same_buyer) =
        changed-order env order updated db _ refl found
          (ap (find_by_id tenant_id order_id) (sym same) ∙ found') in
      let still_buyer : is_buyer_cancellation user_id status updated ≡ buyer =
        ap (λ b. b == user_id && same_status status cancelled) same_buyer in
      let still_seller : seller_owns_order tenant_id order_id user_id db'
          ≡ seller_owns_order tenant_id order_id user_id db =
        ap (seller_owns_order tenant_id order_id user_id) same in
      shows_kept env' updated db' found' (rw (still_seller, still_buyer) let_in) reached
      ∙ ap (λ v. (ok v, db'))
          (ap (λ b. view user_id b updated (list_by_order_id tenant_id order_id db')) still_buyer
            ∙ sym shown)

  -- A change of status that returned may be asked for again at once, with no other call in between,
  -- with any clock and new ids: it returns the same and changes nothing.
  pub update_order_status_repeat :
      (env env' : Env) (tx : Transactions Db) (db : Db) {r : PlacedOrder} {db' : Db}
      → update_order_status env user_id tenant_id order_id status tx db ≡ (ok r, db')
      → update_order_status env' user_id tenant_id order_id status tx db' ≡ (ok r, db')
  unfolding update_order_status
  update_order_status_repeat env env' tx db {r} {db'} h =
      let u = update_order_status-IsUpdate env user_id tenant_id order_id status tx db h in
      tx.commits (update_order_status_in_transaction env' user_id tenant_id order_id status) db' db'
        r (Goes-repeats env env' u.order db u.found u.let_in u.goes)
