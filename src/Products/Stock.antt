-- ===== src/Products/Stock.antt =====
-- The stock of a product, and what a granted decrement takes from it.
use ufsc_dso2_trabalho1_merc.Prelude.{
  ℕ, ◌+◌, ◌*◌, String, true, List, [], ◌∷◌, ◌≡◌, ap, arith, inl, inr, ◌&&◌, ◌==◌, length,
  if◌then◌else◌, str_eq, str_eq_iff, sum_of, Bool-cases, eq_of_==,
}
use ufsc_dso2_trabalho1_merc.Sql.{select, update}
use ufsc_dso2_trabalho1_merc.Database.{Uuid, Date, ProductRow, Db}
use ufsc_dso2_trabalho1_merc.Products.{
  is_product, can_decrement, decremented, decrement_available_inventory,
}

-- What a row adds to the stock of a product.
abbrev pub row_stock : String → Uuid → ProductRow → ℕ
row_stock tenant_id product_id row =
    if is_product tenant_id product_id row then row.inventory else 0

-- The stock of a product: the inventory of its rows, of which there is one at most.
abbrev pub stock : String → Uuid → List ProductRow → ℕ
stock tenant_id product_id rows = sum_of (row_stock tenant_id product_id) rows

-- What a purchase of `quantity` of one product takes from another.
abbrev pub taken : String → Uuid → ℕ → String → Uuid → ℕ
taken tenant_id product_id quantity t p =
    if str_eq tenant_id t && product_id == p then quantity else 0

module _ (tenant_id : String) (product_id : Uuid) (quantity : ℕ) (now : Date) (t : String)
    (p : Uuid) where
  row_stock-decremented :
      (row : ProductRow)
      → can_decrement tenant_id product_id quantity row ≡ true
      → row_stock t p (decremented quantity now row) + taken tenant_id product_id quantity t p
        ≡ row_stock t p row
  row_stock-decremented row h = ground (
    arith,
    str_eq_iff row.tenant_id tenant_id,
    str_eq_iff row.tenant_id t,
    str_eq_iff tenant_id t,
  )

  stock-update :
      (rows : List ProductRow)
      → stock t p
            (update (can_decrement tenant_id product_id quantity) (decremented quantity now) rows)
          + length (select (can_decrement tenant_id product_id quantity) rows)
            * taken tenant_id product_id quantity t p
        ≡ stock t p rows
  stock-update [] = omega arith
  stock-update (row ∷ rows) = elim (Bool-cases (can_decrement tenant_id product_id quantity row)) [
    | inl granted ↦ rw granted (grind (arith, stock-update rows, row_stock-decremented row granted))
    | inr refused ↦ rw refused (omega (arith, stock-update rows))
  ]

  -- A granted decrement takes the quantity from the stock of its product, and from no other.
  pub stock-decrement :
      (db : Db) {db' : Db}
      → decrement_available_inventory tenant_id product_id quantity now db ≡ (true, db')
      → stock t p db'.products + taken tenant_id product_id quantity t p ≡ stock t p db.products
  unfolding decrement_available_inventory
  stock-decrement db {db'} h =
      let one_row =
        eq_of_== (length (select (can_decrement tenant_id product_id quantity) db.products)) 1
          (ap (λ r. r.0) h) in
      rw (← ap (λ r. r.1) h) (grind (arith, stock-update db.products, one_row))
