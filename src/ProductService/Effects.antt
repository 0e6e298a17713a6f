-- ===== src/ProductService/Effects.antt =====
-- What a call of the product service does to the products and to the history of their prices.
use ufsc_dso2_trabalho1_merc.Prelude.{
  ℕ, String, Option, none, some, [], ◌∷◌, ◌++◌, ◌≡◌, ◌≤◌, get_or, refl, ap, ◌∙◌, arith, ◌==◌, true,
  false,
}
use ufsc_dso2_trabalho1_merc.Sql.{select_one, update, exists_row}
use ufsc_dso2_trabalho1_merc.Result
use ufsc_dso2_trabalho1_merc.Result.{Result, ok, err}
use ufsc_dso2_trabalho1_merc.Tenants.{Tenant}
use ufsc_dso2_trabalho1_merc.ProductStatus.{ProductStatus, active, sold_out}
use ufsc_dso2_trabalho1_merc.Database.{Uuid, Date, ProductRow, Db}
use ufsc_dso2_trabalho1_merc.Products.{
  ProductRecord, is_product, map_product_row, map_found, find_by_id,
}
use ufsc_dso2_trabalho1_merc.Products.Writing.{
  CreateProductRecord, UpdateProductRecord, AppendProductPriceHistory, new_row, is_owned,
  set_values, price_row,
}
use ufsc_dso2_trabalho1_merc.ProductService.Guards.{owned, owned_product}

-- An active product has stock, and one that is sold out has none.
abbrev pub IsStocked : ProductStatus → ℕ → Type 0
IsStocked active inventory = 1 ≤ inventory
IsStocked sold_out inventory = inventory ≡ 0
IsStocked _ inventory = Unit {0}

module _ (to_lower : String → String) (tenant_id : String) (seller : Uuid) where
  -- A product of the seller is added with its first price, or one is edited: without its price, or
  -- with it and an entry of the history.
  pub data Effect (db db' : Db) : Type 0 where
    nothing : db'.products ≡ db.products → db'.price_history ≡ db.price_history → Effect db db'
    added :
        (new_id : Uuid) (now : Date) (product : CreateProductRecord)
        (entry : AppendProductPriceHistory) (tenant : Tenant) (sequence : ℕ)
        → exists_row (is_product product.tenant_id new_id) db.products ≡ false
        → IsStocked product.status product.inventory
        → product.tenant_id ≡ tenant_id
        → product.seller ≡ seller
        → entry.tenant_id ≡ product.tenant_id
        → entry.product_id ≡ new_id
        → entry.price ≡ product.price
        → db'.products ≡ db.products ++ new_row to_lower new_id now product ∷ []
        → db'.price_history ≡ db.price_history ++ price_row entry tenant sequence ∷ []
        → Effect db db'
    edited :
        (product_id : Uuid) (values : UpdateProductRecord) (now : Date)
        → ((row : ProductRow)
            → select_one (is_product tenant_id product_id) db.products ≡ some row
            → IsStocked row.status row.inventory
            → IsStocked (get_or values.status row.status) (get_or values.inventory row.inventory))
        → values.price ≡ none
        → db'.products
          ≡ update
              (is_owned tenant_id product_id seller)
              (set_values to_lower values now)
              db.products
        → db'.price_history ≡ db.price_history
        → Effect db db'
    repriced :
        (values : UpdateProductRecord) (now : Date) (entry : AppendProductPriceHistory)
        (tenant : Tenant) (sequence : ℕ) (row : ProductRow)
        → values.status ≡ none
        → values.inventory ≡ none
        → entry.tenant_id ≡ tenant_id
        → select_one (is_product entry.tenant_id entry.product_id) db.products ≡ some row
        → (row.seller_id == seller) ≡ true
        → values.price ≡ some entry.price
        → db'.products
          ≡ update
              (is_owned entry.tenant_id entry.product_id seller)
              (set_values to_lower values now)
              db.products
        → db'.price_history ≡ db.price_history ++ price_row entry tenant sequence ∷ []
        → Effect db db'

  pub unchanged : {db db' : Db} → db' ≡ db → Effect db db'
  unchanged same = nothing (ap (λ d. d.products) same) (ap (λ d. d.price_history) same)

-- A product that is the caller's was found.
pub owned-eq-ok :
    (seller : Uuid) (found : Option ProductRecord) {product : ProductRecord}
    → owned seller found ≡ ok product
    → (found ≡ some product) × ((product.seller == seller) ≡ true)
owned-eq-ok seller none h = cc
owned-eq-ok seller (some q) {product} h = ground arith

-- A product that is found stands in a row of its seller, its price and its stock.
pub find_by_id-row :
    (tenant_id : String) (product_id : Uuid) (db : Db) {product : ProductRecord}
    → find_by_id tenant_id product_id db ≡ ok (some product)
    → (row : ProductRow) × (select_one (is_product tenant_id product_id) db.products ≡ some row)
      × (map_product_row row ≡ ok product)
unfolding find_by_id
find_by_id-row tenant_id product_id db {product} h =
    split (select_one (is_product tenant_id product_id) db.products) refl h
  where
    split :
        (found : Option ProductRow)
        → select_one (is_product tenant_id product_id) db.products ≡ found
        → map_found found ≡ ok (some product)
        → (row : ProductRow) × (select_one (is_product tenant_id product_id) db.products ≡ some row)
          × (map_product_row row ≡ ok product)
    split none e k = cc
    split (some row) e k =
        let (q, mapped, same) = Result.>>=-eq-ok (map_product_row row) (λ p. ok (some p)) k in
        (row, e, cc (mapped, same))

pub owned_product-row :
    (product_id seller : Uuid) (tenant_id : String) (db : Db) {product : ProductRecord}
    → owned_product product_id seller tenant_id db ≡ ok product
    → (row : ProductRow) × (select_one (is_product tenant_id product_id) db.products ≡ some row)
      × (map_product_row row ≡ ok product)
      × ((product.seller == seller) ≡ true)
unfolding owned_product
owned_product-row product_id seller tenant_id db h =
    let (found, e, k) = Result.>>=-eq-ok (find_by_id tenant_id product_id db) (owned seller) h in
    let (is_found, own) = owned-eq-ok seller found k in
    let (row, has_row, mapped) =
      find_by_id-row tenant_id product_id db (e ∙ ap (λ f. ok f) is_found) in
    (row, has_row, mapped, own)
