-- ===== src/Checkout/Notified.antt =====
-- Who hears of a new order.
use ufsc_dso2_trabalho1_merc.Prelude.{
  ℕ, ◌+◌, String, Bool, true, false, not, Option, none, List, [], ◌∷◌, ◌++◌, map, ◌≡◌, ap, refl,
  sym, ◌∙◌, arith, ◌&&◌, ◌||◌, ◌==◌, if◌then◌else◌, sum_of, length, inl, inr, Bool-cases,
  str_eq_refl,
}
use ufsc_dso2_trabalho1_merc.Sql.{select, delete, exists_row}
use ufsc_dso2_trabalho1_merc.Action.{Transactions}
use ufsc_dso2_trabalho1_merc.Result.{ok}
use ufsc_dso2_trabalho1_merc.Database.{Uuid, Date, NotificationRow, Db, order_created}
use ufsc_dso2_trabalho1_merc.Carts.{clear}
use ufsc_dso2_trabalho1_merc.Events.{
  is_notification_of, count_unread, notification_rows, append_many, notify_many,
}
use ufsc_dso2_trabalho1_merc.Orders.{create_placed, find_by_checkout_idempotency_key}
use ufsc_dso2_trabalho1_merc.OrderItems.{CheckoutOrderItem, create_items}
use ufsc_dso2_trabalho1_merc.Pricing.{Fingerprint}
use ufsc_dso2_trabalho1_merc.Checkout.Plan.{CheckoutOrderRequest}
use ufsc_dso2_trabalho1_merc.Checkout.Persist.{
  Env, PlacedOrder, unique, seller_notice, plan_items, record_events,
}
use ufsc_dso2_trabalho1_merc.Checkout.Placing.{create_order-IsPlacing}
use ufsc_dso2_trabalho1_merc.Checkout.Service.{create_order}

count-append {ℓ} :
    {A : Type ℓ} (p : A → Bool) (xs ys : List A)
    → length (select p (xs ++ ys)) ≡ length (select p xs) + length (select p ys)
count-append p [] ys = omega arith
count-append p (x ∷ xs) ys = ground (arith, count-append p xs ys)

-- How often a user is in a list.
abbrev times : Uuid → List Uuid → ℕ
times u ids = sum_of (λ id. if id == u then 1 else 0) ids

module _ (u : Uuid) where
  times-delete_self :
      (id : Uuid) (ids : List Uuid) → (id == u) ≡ true → times u (delete (λ j. j == id) ids) ≡ 0
  times-delete_self id [] h = refl
  times-delete_self id (j ∷ ids) h = ground (arith, times-delete_self id ids h)

  times-delete_other :
      (id : Uuid) (ids : List Uuid)
      → (id == u) ≡ false
      → times u (delete (λ j. j == id) ids) ≡ times u ids
  times-delete_other id [] h = refl
  times-delete_other id (j ∷ ids) h = ground (arith, times-delete_other id ids h)

  -- Each user is once in a list without repetitions, if at all.
  times-unique :
      (ids : List Uuid) → times u (unique ids) ≡ (if exists_row (λ id. id == u) ids then 1 else 0)
  unfolding unique
  times-unique [] = refl
  times-unique (id ∷ ids) = elim (Bool-cases (id == u)) [
    | inl same ↦ rw (same, times-delete_self id (unique ids) same) refl
    | inr other ↦
        rw (other, times-delete_other id (unique ids) other) (omega (arith, times-unique ids))
  ]

-- Does a user sell one of the items?
abbrev pub is_seller_of : Uuid → List CheckoutOrderItem → Bool
is_seller_of u items = exists_row (λ item. item.seller == u) items

sellers_of-items :
    (u : Uuid) (items : List CheckoutOrderItem)
    → exists_row (λ id. id == u) (map (λ item. item.seller) items) ≡ is_seller_of u items
sellers_of-items u [] = refl
sellers_of-items u (item ∷ items) = ap (λ rest. item.seller == u || rest) (sellers_of-items u items)

module _ (tenant_id : String) (u : Uuid) where
  abbrev unread : NotificationRow → Bool
  unread row = is_notification_of tenant_id u row && not row.is_read

  seller_notices :
      (new_id : ℕ → Uuid) (i : ℕ) (now : Date) (order_id : Uuid) (ids : List Uuid)
      → length (
          select unread
            (notification_rows new_id i now (map (seller_notice tenant_id order_id) ids)))
        ≡ times u ids
  seller_notices new_id i now order_id [] = refl
  seller_notices new_id i now order_id (id ∷ ids) =
      rw (str_eq_refl tenant_id) (ground (arith, seller_notices new_id (i + 1) now order_id ids))

  to_buyer :
      (env : Env) (order_id user_id : Uuid)
      → length (
          select unread (
            notification_rows env.notice_id 0 env.now (
              record { tenant_id = tenant_id; user_id = user_id; message = order_created order_id }
              ∷ [])))
        ≡ (if user_id == u then 1 else 0)
  to_buyer env order_id user_id = rw (str_eq_refl tenant_id) (ground arith)

-- When an order is placed under an unused key, every user of the tenant has one more unread
-- notification if they are the buyer and one more if they sell one of the items, and no other.
pub count_unread-create_order :
    (quote_hash : Fingerprint → String) (tx : Transactions Db) (env : Env) (tenant_id : String)
    (user_id key : Uuid) (selection : Option CheckoutOrderRequest) (db : Db) {placed : PlacedOrder}
    {db' : Db}
    → find_by_checkout_idempotency_key tenant_id user_id key db ≡ none
    → create_order quote_hash tx env tenant_id user_id key selection db ≡ (ok placed, db')
    → (u : Uuid)
    → count_unread tenant_id u db'
      ≡ count_unread tenant_id u db
        + (if user_id == u then 1 else 0)
        + (if is_seller_of u placed.items then 1 else 0)
unfolding count_unread create_placed create_items record_events append_many clear notify_many
count_unread-create_order quote_hash tx env tenant_id user_id key selection db {placed} {db'} unused
      h u =
    let placing =
      create_order-IsPlacing quote_hash env tenant_id user_id key selection tx db unused h in
    let (end, _, same_placed, same) = placing.written in
    let items = plan_items env tenant_id placing.plan in
    let order_id = env.order_id in
    let told = unique (map (λ item. item.seller) items) in
    let buyer_row = notification_rows env.notice_id 0 env.now (
      record { tenant_id = tenant_id; user_id = user_id; message = order_created order_id } ∷ []) in
    let seller_rows =
      notification_rows env.seller_notice_id 0 env.now
        (map (seller_notice tenant_id order_id) told) in
    let all = count-append (unread tenant_id u) (db.notifications ++ buyer_row) seller_rows in
    let older = count-append (unread tenant_id u) db.notifications buyer_row in
    let to_sellers =
      seller_notices tenant_id u env.seller_notice_id 0 env.now order_id told
      ∙ times-unique u (map (λ item. item.seller) items)
      ∙ ap (λ b. if b then 1 else 0)
          (sellers_of-items u items ∙ ap (λ p. is_seller_of u p.items) (sym same_placed)) in
    ap (count_unread tenant_id u) same
    ∙ omega (arith, all, older, to_buyer tenant_id u env order_id user_id, to_sellers)
