-- ===== src/Checkout/Loop.antt =====
-- When the loop over `decrementAvailableInventory` runs to its end.
use ufsc_dso2_trabalho1_merc.Prelude.{
  ℕ, ◌+◌, String, true, false, List, [], ◌∷◌, ◌≡◌, ap, refl, ◌∙◌, arith, ◌==◌, length, All,
}
use ufsc_dso2_trabalho1_merc.Sql.{select, update}
use ufsc_dso2_trabalho1_merc.Sql.Laws.{select-update_apart}
use ufsc_dso2_trabalho1_merc.Result.{ok}
use ufsc_dso2_trabalho1_merc.Database.{Uuid, Date, ProductRow, Db}
use ufsc_dso2_trabalho1_merc.Products.{can_decrement, decremented, decrement_available_inventory}
use ufsc_dso2_trabalho1_merc.OrderItems.{CheckoutOrderItem}
use ufsc_dso2_trabalho1_merc.Checkout.Persist.{decrement_all}
use ufsc_dso2_trabalho1_merc.Checkout.Writes.{granted}

-- One row has what an item takes.
abbrev pub IsGranted : String → List ProductRow → CheckoutOrderItem → Type 0
IsGranted tenant_id rows item =
    length (select (can_decrement tenant_id item.product item.quantity) rows) ≡ 1

-- No two items take the same product.
abbrev pub AreDistinct : List CheckoutOrderItem → Type 0
AreDistinct [] = Unit
AreDistinct (item ∷ items) =
    All (λ other. (item.product == other.product) ≡ false) items × AreDistinct items

module _ (tenant_id : String) (q : Uuid) (n : ℕ) (date : Date) where
  -- A decrement of one product leaves the rows of another as they are.
  other_product :
      (p : Uuid) (m : ℕ) (row : ProductRow)
      → (q == p) ≡ false
      → can_decrement tenant_id q n row ≡ true
      → (can_decrement tenant_id p m (decremented n date row) ≡ false)
        × (can_decrement tenant_id p m row ≡ false)
  other_product p m row other here = (ground arith, ground arith)

  count-decremented :
      (p : Uuid) (m : ℕ) (rows : List ProductRow)
      → (q == p) ≡ false
      → length (
          select
            (can_decrement tenant_id p m)
            (update (can_decrement tenant_id q n) (decremented n date) rows))
        ≡ length (select (can_decrement tenant_id p m) rows)
  count-decremented p m rows other = ap length (
      select-update_apart (can_decrement tenant_id p m) (can_decrement tenant_id q n)
        (decremented n date) (λ row here. other_product p m row other here) rows)

  still-IsGranted :
      (rows : List ProductRow) (items : List CheckoutOrderItem)
      → All (λ item. (q == item.product) ≡ false) items
      → All (IsGranted tenant_id rows) items
      → All
          (IsGranted tenant_id (update (can_decrement tenant_id q n) (decremented n date) rows))
          items
  still-IsGranted rows [] others h = tt
  still-IsGranted rows (item ∷ items) (other, others) (first, rest) = (
    count-decremented item.product item.quantity rows other ∙ first,
    still-IsGranted rows items others rest,
  )

module _ (clock : ℕ → Date) (tenant_id : String) where
  pub decrement_all_succeeds :
      (i : ℕ) (items : List CheckoutOrderItem) (db : Db)
      → AreDistinct items
      → All (IsGranted tenant_id db.products) items
      → (db' : Db) × (decrement_all clock i tenant_id items db ≡ (ok tt, db'))
  unfolding decrement_all decrement_available_inventory
  decrement_all_succeeds i [] db distinct h = (db, refl)
  decrement_all_succeeds i (item ∷ items) db (others, distinct) (first, rest) =
      let next = (granted clock tenant_id i item items db).1 in
      let (db', ran) = decrement_all_succeeds (i + 1) items next distinct (
        still-IsGranted tenant_id item.product item.quantity (clock i) db.products items others
          rest) in
      (db', rw first ran)
