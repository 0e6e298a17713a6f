-- ===== src/ProductService/Stocked.antt =====
-- The status of a product and its stock.
use ufsc_dso2_trabalho1_merc.Prelude.{
  String, true, Option, none, some, [], ◌∷◌, ◌++◌, ◌≡◌, refl, ap, sym, subst, ◌∙◌, arith,
  Bool-cases, Option-cases, inl, inr, str_eq_iff, if◌then◌else◌, get_or,
}
use ufsc_dso2_trabalho1_merc.Sql.{select_one, update}
use ufsc_dso2_trabalho1_merc.Sql.Laws.{
  map_row, select_one-append_none, select_one-append_some, select_one-update, select_one_holds,
}
use ufsc_dso2_trabalho1_merc.Action.{Transactions}
use ufsc_dso2_trabalho1_merc.Database.{Uuid, Date, ProductRow, Db}
use ufsc_dso2_trabalho1_merc.Products.{is_product}
use ufsc_dso2_trabalho1_merc.Products.Writing.{UpdateProductRecord, is_owned, set_values, new_row}
use ufsc_dso2_trabalho1_merc.ProductService.Effects.{
  Effect, IsStocked, nothing, added, edited, repriced,
}
use ufsc_dso2_trabalho1_merc.ProductService.Calls.{Calls, idle, followed_by, call_effect}
use ufsc_dso2_trabalho1_merc.ProductService.Service.{CreateProductData}

-- Every product that is active has stock, and every one that is sold out has none.
unfoldable pub AreStocked : Db → Type 0
AreStocked db =
    (t : String) (p : Uuid) (row : ProductRow)
    → select_one (is_product t p) db.products ≡ some row
    → IsStocked row.status row.inventory

module _ (to_lower : String → String) (t : String) (p : Uuid) where
  added-IsStocked :
      (db : Db) (added_row row : ProductRow)
      → AreStocked db
      → IsStocked added_row.status added_row.inventory
      → select_one (is_product t p) (db.products ++ added_row ∷ []) ≡ some row
      → IsStocked row.status row.inventory
  unfolding AreStocked
  added-IsStocked db new row stocked new_stocked found =
      elim (Option-cases (select_one (is_product t p) db.products)) [
        | inl unused ↦
            let (same, _) = only_row (
              sym (select_one-append_none (is_product t p) db.products (new ∷ []) unused)
              ∙ found) in
            subst (λ r. IsStocked r.status r.inventory) same new_stocked
        | inr (old, here) ↦ stocked t p row (
            here
            ∙ sym (select_one-append_some (is_product t p) db.products (new ∷ []) here)
            ∙ found)
      ]
    where
      only_row :
          select_one (is_product t p) (new ∷ []) ≡ some row
          → (new ≡ row) × (is_product t p new ≡ true)
      only_row e = elim (Bool-cases (is_product t p new)) [
        | inl hit_here ↦ (cc (rw hit_here at e), hit_here)
        | inr missed ↦ cc (rw missed at e)
      ]

  same_product :
      (tenant_id : String) (product_id : Uuid) (row : ProductRow)
      → is_product t p row ≡ true
      → is_product tenant_id product_id row ≡ true
      → (t ≡ tenant_id) × (p ≡ product_id)
  same_product tenant_id product_id row one two =
      ground (arith, str_eq_iff row.tenant_id t, str_eq_iff row.tenant_id tenant_id)

  edited_row :
      (tenant_id : String) (product_id seller : Uuid) (values : UpdateProductRecord) (now : Date)
      (db : Db) (row : ProductRow) (found : Option ProductRow)
      → AreStocked db
      → ((r : ProductRow)
          → select_one (is_product tenant_id product_id) db.products ≡ some r
          → IsStocked r.status r.inventory
          → IsStocked (get_or values.status r.status) (get_or values.inventory r.inventory))
      → select_one (is_product t p) db.products ≡ found
      → map_row
          (λ a.
            if is_owned tenant_id product_id seller a then set_values to_lower values now a else a)
          found
        ≡ some row
      → IsStocked row.status row.inventory
  unfolding AreStocked
  edited_row tenant_id product_id seller values now db row none stocked keeps here e = cc
  edited_row tenant_id product_id seller values now db row (some r) stocked keeps here e =
      elim (Bool-cases (is_owned tenant_id product_id seller r)) [
        | inl own ↦
            let it = select_one_holds (is_product t p) db.products here in
            let is_row : set_values to_lower values now r ≡ row = cc (rw own at e) in
            let (is_t, is_p) = same_product tenant_id product_id r it (of_owned own) in
            let there : select_one (is_product tenant_id product_id) db.products ≡ some r =
              ap (λ x. select_one (is_product x product_id) db.products) (sym is_t)
              ∙ ap (λ x. select_one (is_product t x) db.products) (sym is_p)
              ∙ here in
            subst (λ x. IsStocked x.status x.inventory) is_row (keeps r there (stocked t p r here))
        | inr other ↦ stocked t p row (here ∙ rw other at e)
      ]
    where
      of_owned :
          is_owned tenant_id product_id seller r ≡ true → is_product tenant_id product_id r ≡ true
      of_owned own = ground arith

  edited_found :
      (tenant_id : String) (product_id seller : Uuid) (values : UpdateProductRecord) (now : Date)
      (db : Db) (row : ProductRow)
      → AreStocked db
      → ((r : ProductRow)
          → select_one (is_product tenant_id product_id) db.products ≡ some r
          → IsStocked r.status r.inventory
          → IsStocked (get_or values.status r.status) (get_or values.inventory r.inventory))
      → select_one (is_product t p) (
          update
            (is_owned tenant_id product_id seller)
            (set_values to_lower values now)
            db.products)
        ≡ some row
      → IsStocked row.status row.inventory
  edited_found tenant_id product_id seller values now db row stocked keeps found =
      edited_row tenant_id product_id seller values now db row _ stocked keeps refl (
        sym (
          select_one-update (is_product t p) (is_owned tenant_id product_id seller)
            (set_values to_lower values now) db.products (λ a. refl))
        ∙ found)

  -- Each effect keeps the products stocked.
  Effect-AreStocked :
      {tenant_id : String} {seller : Uuid} {db db' : Db} {row : ProductRow}
      → AreStocked db
      → Effect to_lower tenant_id seller db db'
      → select_one (is_product t p) db'.products ≡ some row
      → IsStocked row.status row.inventory
  unfolding AreStocked
  Effect-AreStocked {row} stocked (nothing products _) found =
      stocked t p row (ap (select_one (is_product t p)) (sym products) ∙ found)
  Effect-AreStocked {db} {row} stocked
        (added new_id now product entry tenant sequence _ fits _ _ _ _ _ products _) found =
      added-IsStocked db (new_row to_lower new_id now product) row stocked fits
        (ap (select_one (is_product t p)) (sym products) ∙ found)
  Effect-AreStocked {tenant_id} {seller} {db} {row} stocked
        (edited product_id values now keeps _ products _) found =
      edited_found tenant_id product_id seller values now db row stocked keeps
        (ap (select_one (is_product t p)) (sym products) ∙ found)
  Effect-AreStocked {tenant_id} {seller} {db} {row} stocked
        (repriced values now entry tenant sequence _ no_status no_inventory _ _ _ _ products _)
        found =
      edited_found entry.tenant_id entry.product_id seller values now db row stocked
        (λ r _ h. rw (no_status, no_inventory) h)
        (ap (select_one (is_product t p)) (sym products) ∙ found)

call-AreStocked :
    (to_lower : String → String) {tenant_id : String} {seller : Uuid} {db db' : Db}
    → AreStocked db
    → Effect to_lower tenant_id seller db db'
    → AreStocked db'
unfolding AreStocked
call-AreStocked to_lower stocked e t p row found = Effect-AreStocked to_lower t p stocked e found

-- Whatever the sellers call, returning or throwing, an active product has stock and a sold out one
-- has none, if that was so before.
pub Calls-AreStocked :
    (to_lower : String → String) (request_hash : CreateProductData → String) (tx : Transactions Db)
    {By : String → Uuid → Type 0} {db db' : Db}
    → AreStocked db
    → Calls to_lower request_hash tx By db db'
    → AreStocked db'
Calls-AreStocked to_lower request_hash tx stocked idle = stocked
Calls-AreStocked to_lower request_hash tx stocked (followed_by before _ call) =
    call-AreStocked to_lower (Calls-AreStocked to_lower request_hash tx stocked before)
      (call_effect to_lower request_hash tx call)
