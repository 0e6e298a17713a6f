-- ===== src/Checkout/Completes.antt =====
-- The items of a plan against the rows of the products: what the writing loop of `createOrder` finds.
use ufsc_dso2_trabalho1_merc.Prelude.{
  ℕ, ◌≤◌, String, Bool, true, false, some, List, [], ◌∷◌, map, ◌≡◌, sym, ◌∙◌, arith, ◌&&◌, ◌==◌,
  leb, length, All, inl, inr, Option-cases, str_eq,
}
use ufsc_dso2_trabalho1_merc.Prelude.Order.{order_by}
use ufsc_dso2_trabalho1_merc.Sql.{select, exists_row}
use ufsc_dso2_trabalho1_merc.Sql.Counting.{
  exists_row-order_by, exists_row-select, count_exists, exists_row_le, count_le,
}
use ufsc_dso2_trabalho1_merc.Result.{ok}
use ufsc_dso2_trabalho1_merc.ProductStatus.{active, same_status}
use ufsc_dso2_trabalho1_merc.Database.{Uuid, ProductRow, Db}
use ufsc_dso2_trabalho1_merc.Products.{
  ProductRecord, map_product_row, map_product_rows, find_by_ids_for_update, is_product, in_array,
  can_decrement,
}
use ufsc_dso2_trabalho1_merc.Carts.{map_get, CheckoutCartItem}
use ufsc_dso2_trabalho1_merc.Pricing.{PricedLine}
use ufsc_dso2_trabalho1_merc.Checkout.Plan.{check_items}
use ufsc_dso2_trabalho1_merc.Checkout.Persist.{order_item}
use ufsc_dso2_trabalho1_merc.Checkout.Lines.{AreLinesOf, map_get-id}
use ufsc_dso2_trabalho1_merc.Checkout.Loop.{IsGranted, AreDistinct}

-- The row that a looked-up product was mapped from.
abbrev has_stock : Uuid → ℕ → ProductRow → Bool
has_stock id n row = row.id == id && same_status row.status active && leb n row.inventory

found_row :
    (id : Uuid) (n : ℕ) (rows : List ProductRow) (products : List ProductRecord) {p : ProductRecord}
    → map_product_rows rows ≡ ok products
    → map_get id products ≡ some p
    → p.status ≡ active
    → n ≤ p.inventory
    → exists_row (has_stock id n) rows ≡ true
unfolding map_product_rows map_product_row map_get
found_row id n [] products h k on_sale le = cc
found_row id n (row ∷ rows) [] h k on_sale le = cc
found_row id n (row ∷ rows) (product ∷ products) {p} h k on_sale le =
    elim (Option-cases (map_get id products)) [
      | inl last ↦ ground (arith, last)
      | inr (later, found) ↦ ground (arith, found, found_row id n rows products {p = p})
    ]

-- The ids of a tenant's products are unique.
abbrev pub HasKeys : String → List ProductRow → Type 0
HasKeys tenant_id rows = (id : Uuid) → length (select (is_product tenant_id id) rows) ≤ 1

module _ (tenant_id : String) (db : Db) (keys : HasKeys tenant_id db.products) where
  found_can_decrement :
      (ids : List Uuid) (products : List ProductRecord) (id : Uuid) (n : ℕ) {p : ProductRecord}
      → find_by_ids_for_update tenant_id ids db ≡ ok products
      → map_get id products ≡ some p
      → p.status ≡ active
      → n ≤ p.inventory
      → exists_row (can_decrement tenant_id id n) db.products ≡ true
  unfolding find_by_ids_for_update map_get
  found_can_decrement [] products id n h k on_sale le = cc
  found_can_decrement (i ∷ ids) products id n h k on_sale le =
      let listed =
        λ (row : ProductRow). str_eq row.tenant_id tenant_id && in_array (i ∷ ids) row.id in
      exists_row_le (λ row. listed row && has_stock id n row) (can_decrement tenant_id id n)
        db.products (λ row e. ground arith)
        (exists_row-select (has_stock id n) listed db.products (
          sym (exists_row-order_by (has_stock id n) (λ row. row.id) (select listed db.products))
          ∙ found_row id n (order_by (λ row. row.id) (select listed db.products)) products h k
              on_sale le))

  count_can_decrement :
      (id : Uuid) (n : ℕ)
      → exists_row (can_decrement tenant_id id n) db.products ≡ true
      → length (select (can_decrement tenant_id id n) db.products) ≡ 1
  count_can_decrement id n h = omega (
    arith,
    keys id,
    count_exists (can_decrement tenant_id id n) db.products h,
    count_le (can_decrement tenant_id id n) (is_product tenant_id id) db.products
        (λ row e. ground arith),
  )

  -- An item that passed the first loop will pass the one that writes.
  item-IsGranted :
      (ids : List Uuid) (products : List ProductRecord) (item : CheckoutCartItem)
      (items : List CheckoutCartItem) {p : ProductRecord}
      → find_by_ids_for_update tenant_id ids db ≡ ok products
      → check_items products (item ∷ items) ≡ ok tt
      → map_get item.product_id products ≡ some p
      → (length (select (can_decrement tenant_id item.product_id item.quantity) db.products) ≡ 1)
        × (check_items products items ≡ ok tt)
  unfolding check_items
  item-IsGranted ids products item items {p} h k found =
      let on_sale : p.status ≡ active = ground (arith, found) in
      let in_stock : item.quantity ≤ p.inventory = ground (arith, found) in
      (
        count_can_decrement item.product_id item.quantity (
            found_can_decrement ids products item.product_id item.quantity h found on_sale
              in_stock),
        ground (arith, found),
      )

  pub lines-IsGranted :
      (ids : List Uuid) (order_id : Uuid) (currency : String) (products : List ProductRecord)
      (items : List CheckoutCartItem) (lines : List PricedLine)
      → find_by_ids_for_update tenant_id ids db ≡ ok products
      → check_items products items ≡ ok tt
      → AreLinesOf currency products items lines
      → All (IsGranted tenant_id db.products) (map (order_item tenant_id order_id currency) lines)
  lines-IsGranted ids order_id currency products [] [] h k l = tt
  lines-IsGranted ids order_id currency products [] (line ∷ lines) h k l = elim l [ ]
  lines-IsGranted ids order_id currency products (item ∷ items) [] h k l = elim l [ ]
  lines-IsGranted ids order_id currency products (item ∷ items) (line ∷ lines) h k (first, rest) =
      let (granted, checked) = item-IsGranted ids products item items h k first.product in
      let id = map_get-id item.product_id products first.product in
      (
        rw (id, first.quantity) granted,
        lines-IsGranted ids order_id currency products items lines h checked rest,
      )

-- No product is twice in a cart.
abbrev pub HasDistinctProducts : List CheckoutCartItem → Type 0
HasDistinctProducts [] = Unit
HasDistinctProducts (item ∷ items) =
    All (λ other. (item.product_id == other.product_id) ≡ false) items × HasDistinctProducts items

module _ (tenant_id : String) (order_id : Uuid) (currency : String)
    (products : List ProductRecord) where
  others-distinct :
      (id : Uuid) (items : List CheckoutCartItem) (lines : List PricedLine)
      → AreLinesOf currency products items lines
      → All (λ other. (id == other.product_id) ≡ false) items
      → All
          (λ other. (id == other.product) ≡ false)
          (map (order_item tenant_id order_id currency) lines)
  others-distinct id [] [] l h = tt
  others-distinct id [] (line ∷ lines) l h = elim l [ ]
  others-distinct id (item ∷ items) [] l h = elim l [ ]
  others-distinct id (item ∷ items) (line ∷ lines) (first, rest) (other, others) = (
    rw (map_get-id item.product_id products first.product) other,
    others-distinct id items lines rest others,
  )

  pub lines-AreDistinct :
      (items : List CheckoutCartItem) (lines : List PricedLine)
      → AreLinesOf currency products items lines
      → HasDistinctProducts items
      → AreDistinct (map (order_item tenant_id order_id currency) lines)
  lines-AreDistinct [] [] l h = tt
  lines-AreDistinct [] (line ∷ lines) l h = elim l [ ]
  lines-AreDistinct (item ∷ items) [] l h = elim l [ ]
  lines-AreDistinct (item ∷ items) (line ∷ lines) (first, rest) (others, distinct) = (
    rw (map_get-id item.product_id products first.product)
        (others-distinct item.product_id items lines rest others),
    lines-AreDistinct items lines rest distinct,
  )
