-- ===== src/ProductService/Edited.antt =====
-- The effects of edits, of changes of status and of the inventory.
use ufsc_dso2_trabalho1_merc.Prelude.{
  ℕ, String, some, ◌≡◌, refl, sym, ap, subst, ◌∙◌, arith, ◌==◌, zero, suc, ltb, get_or, true, false,
  Bool-cases, inl, inr,
}
use ufsc_dso2_trabalho1_merc.Sql.{select_one, update}
use ufsc_dso2_trabalho1_merc.Result.{ok}
use ufsc_dso2_trabalho1_merc.Action.{Transactions, lift, reads, modify, pure, ◌>>=◌, ◌>>◌}
use ufsc_dso2_trabalho1_merc.Action.Laws.{transaction-holds, reads-keeps, bind-keeps}
use ufsc_dso2_trabalho1_merc.ProductStatus.{
  ProductStatus, draft, active, paused, sold_out, archived,
}
use ufsc_dso2_trabalho1_merc.Database.{Uuid, ProductRow, Db}
use ufsc_dso2_trabalho1_merc.Products.{ProductRecord, is_product, map_product_row}
use ufsc_dso2_trabalho1_merc.Products.Writing.{is_owned, set_values, update_owned}
use ufsc_dso2_trabalho1_merc.Events.{append_many}
use ufsc_dso2_trabalho1_merc.ProductService.Guards.{
  owned_product, check_status, status_update, inventory_update, status_for,
}
use ufsc_dso2_trabalho1_merc.ProductService.Creating.{mapped-stock}
use ufsc_dso2_trabalho1_merc.ProductService.Effects.{
  Effect, IsStocked, owned_product-row, unchanged, edited,
}
use ufsc_dso2_trabalho1_merc.ProductService.Service.{
  Env, update_product_status, write_inventory, set_inventory, audit_inventory,
  update_product_inventory,
}

-- A status that passes the checks fits the stock.
check_status-IsStocked :
    (status : ProductStatus) (product : ProductRecord)
    → check_status status product ≡ ok tt
    → IsStocked status product.inventory
unfolding check_status
check_status-IsStocked draft product h = tt
check_status-IsStocked active product h = ground arith
check_status-IsStocked paused product h = tt
check_status-IsStocked sold_out product h = cc
check_status-IsStocked archived product h = tt

not_zero : (n : ℕ) → (suc n == 0) ≡ false
not_zero n = ground arith

above_zero : (n : ℕ) → ltb 0 (suc n) ≡ true
above_zero n = ground arith

-- So does the status that is set with an inventory.
inventory_update-IsStocked :
    (inventory : ℕ) (status : ProductStatus)
    → IsStocked (get_or (inventory_update inventory status).status status) inventory
unfolding status_for
inventory_update-IsStocked zero draft = tt
inventory_update-IsStocked zero active = refl
inventory_update-IsStocked zero paused = tt
inventory_update-IsStocked zero sold_out = refl
inventory_update-IsStocked zero archived = tt
inventory_update-IsStocked (suc n) draft = rw (not_zero n, above_zero n) tt
inventory_update-IsStocked (suc n) active = rw (not_zero n, above_zero n) (omega arith)
inventory_update-IsStocked (suc n) paused = rw (not_zero n, above_zero n) tt
inventory_update-IsStocked (suc n) sold_out = rw (not_zero n, above_zero n) (omega arith)
inventory_update-IsStocked (suc n) archived = rw (not_zero n, above_zero n) tt

module _ (to_lower : String → String) (tenant_id : String) (seller : Uuid) (env : Env) where
  -- A status that was checked against the product that is found.
  checked_effect :
      (product_id : Uuid) (status : ProductStatus) (product : ProductRecord) (row : ProductRow)
      (db : Db)
      → select_one (is_product tenant_id product_id) db.products ≡ some row
      → map_product_row row ≡ ok product
      → check_status status product ≡ ok tt
      → Effect to_lower tenant_id seller db
          (update_owned to_lower tenant_id product_id seller
            (status_update status)
            env.written_at
            db).1
  unfolding update_owned
  checked_effect product_id status product row db found mapped checked =
      let (same, _) = mapped-stock row mapped in
      let stocked : IsStocked status row.inventory =
        subst (IsStocked status) same (check_status-IsStocked status product checked) in
      edited product_id (status_update status) env.written_at
        (λ r e _. subst (λ x. IsStocked status x.inventory) (row_is r (sym found ∙ e)) stocked) refl
        refl refl
    where
      row_is : (r : ProductRow) → some row ≡ some r → row ≡ r
      row_is r e = cc

  pub status_effect :
      (product_id : Uuid) (status : ProductStatus) (db : Db)
      → Effect to_lower tenant_id seller db
          (update_product_status to_lower env product_id status seller tenant_id db).1
  unfolding update_product_status
  status_effect product_id status db =
      reads-keeps (owned_product product_id seller tenant_id)
        (λ product.
          lift (check_status status product)
          >> update_owned to_lower tenant_id product_id seller (status_update status)
              env.written_at)
        (Effect to_lower tenant_id seller db) (unchanged to_lower tenant_id seller refl)
        (λ product got.
          let (row, found, mapped, _) = owned_product-row product_id seller tenant_id db got in
          reads-keeps (λ _. check_status status product)
            (λ _.
              update_owned to_lower tenant_id product_id seller (status_update status)
                env.written_at)
            (Effect to_lower tenant_id seller db) (unchanged to_lower tenant_id seller refl)
            (λ _ checked. checked_effect product_id status product row db found mapped checked))

  write_inventory_effect :
      (product_id : Uuid) (inventory : ℕ) (product : ProductRecord) (db : Db)
      → ((r : ProductRow)
          → select_one (is_product tenant_id product_id) db.products ≡ some r
          → r.status ≡ product.status)
      → Effect to_lower tenant_id seller db
          (write_inventory to_lower env product_id inventory seller tenant_id product db).1
  unfolding write_inventory update_owned append_many
  write_inventory_effect product_id inventory product db stands =
      bind-keeps
        (update_owned to_lower tenant_id product_id seller
          (inventory_update inventory product.status) env.written_at)
        (λ updated.
          modify (audit_inventory env product_id inventory seller tenant_id product)
          >> pure updated)
        (Effect to_lower tenant_id seller db) {s = db}
        (λ _ t e. set_effect (ap (λ x. x.1.products) (sym e)) (ap (λ x. x.1.price_history) (sym e)))
        (λ _ t e. set_effect (ap (λ x. x.1.products) (sym e)) (ap (λ x. x.1.price_history) (sym e)))
    where
      set_effect :
          {t : Db}
          → t.products
            ≡ update
                (is_owned tenant_id product_id seller)
                (set_values to_lower (inventory_update inventory product.status) env.written_at)
                db.products
          → t.price_history ≡ db.price_history
          → Effect to_lower tenant_id seller db t
      set_effect =
          edited product_id (inventory_update inventory product.status) env.written_at
            (λ r e _.
              subst
                (λ x.
                  IsStocked (get_or (inventory_update inventory product.status).status x) inventory)
                (sym (stands r e)) (inventory_update-IsStocked inventory product.status))
            refl

  set_inventory_effect :
      (product_id : Uuid) (inventory : ℕ) (product : ProductRecord) (db : Db)
      → ((r : ProductRow)
          → select_one (is_product tenant_id product_id) db.products ≡ some r
          → r.status ≡ product.status)
      → Effect to_lower tenant_id seller db
          (set_inventory to_lower env product_id inventory seller tenant_id product db).1
  unfolding set_inventory
  set_inventory_effect product_id inventory product db stands =
      elim (Bool-cases (inventory == product.inventory)) [
        | inl same ↦ rw same (unchanged to_lower tenant_id seller refl)
        | inr other ↦ rw other (write_inventory_effect product_id inventory product db stands)
      ]

  pub inventory_effect :
      (tx : Transactions Db) (product_id : Uuid) (inventory : ℕ) (db : Db)
      → Effect to_lower tenant_id seller db
          (update_product_inventory to_lower tx env product_id inventory seller tenant_id db).1
  unfolding update_product_inventory
  inventory_effect tx product_id inventory db =
      transaction-holds tx
        (reads (owned_product product_id seller tenant_id)
          >>= set_inventory to_lower env product_id inventory seller tenant_id)
        (Effect to_lower tenant_id seller db) (unchanged to_lower tenant_id seller refl)
        (reads-keeps (owned_product product_id seller tenant_id)
          (set_inventory to_lower env product_id inventory seller tenant_id)
          (Effect to_lower tenant_id seller db) (unchanged to_lower tenant_id seller refl)
          (λ product got.
            let (row, found, mapped, _) = owned_product-row product_id seller tenant_id db got in
            let (_, same) = mapped-stock row mapped in
            set_inventory_effect product_id inventory product db (λ r e. cc (e, found, same))))
