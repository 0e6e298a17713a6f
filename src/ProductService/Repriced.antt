-- ===== src/ProductService/Repriced.antt =====
-- The effect of an edit.
use ufsc_dso2_trabalho1_merc.Prelude.{
  ◌+◌, String, Bool, Option, none, some, [], ◌∷◌, ◌++◌, ◌≡◌, refl, sym, ap, ◌∙◌, ◌==◌, true, false,
  Bool-cases, inl, inr,
}
use ufsc_dso2_trabalho1_merc.Sql.{select, select_one}
use ufsc_dso2_trabalho1_merc.Result.{ok}
use ufsc_dso2_trabalho1_merc.Action.{Transactions, lift, reads, pure, ◌>>=◌, ◌>>◌}
use ufsc_dso2_trabalho1_merc.Action.Laws.{>>=-eq-ok, transaction-keeps, reads-keeps}
use ufsc_dso2_trabalho1_merc.Money.{Money}
use ufsc_dso2_trabalho1_merc.Database.{Uuid, ProductRow, Db}
use ufsc_dso2_trabalho1_merc.Products.{ProductRecord, is_product, find_by_id}
use ufsc_dso2_trabalho1_merc.Products.Writing.{
  update_owned, latest_price_sequence, is_price_of, price_row,
}
use ufsc_dso2_trabalho1_merc.ProductService.Guards.{
  owned, effective_update, price_changed, has_values, UpdateProductData, require_update_currency,
}
use ufsc_dso2_trabalho1_merc.ProductService.Creating.{
  append_price_history-IsAppended, mapped-seller,
}
use ufsc_dso2_trabalho1_merc.ProductService.Effects.{
  Effect, unchanged, edited, repriced, owned-eq-ok, find_by_id-row,
}
use ufsc_dso2_trabalho1_merc.ProductService.Service.{
  Env, price_entry, append_changed_price, write_update, update_found, update_product_in_transaction,
  update_product,
}

module _ (to_lower : String → String) (tenant_id : String) (seller : Uuid) (env : Env) where
  priced_effect :
      (product_id : Uuid) (values : UpdateProductData) (row : ProductRow) (db : Db) (changed : Bool)
      (price : Option Money) {t db' : Db}
      → values.price ≡ price
      → select_one (is_product tenant_id product_id) db.products ≡ some row
      → (row.seller_id == seller) ≡ true
      → (update_owned to_lower tenant_id product_id seller
          (effective_update changed values)
          env.written_at
          db).1
        ≡ t
      → append_changed_price to_lower env tenant_id product_id seller changed price t ≡ (ok tt, db')
      → Effect to_lower tenant_id seller db db'
  unfolding update_owned
  priced_effect product_id values row db true (some price) {t} priced found own e h =
      let entry = price_entry env tenant_id product_id seller price in
      let appended = append_price_history-IsAppended entry t h in
      let sequence =
        latest_price_sequence (select (is_price_of tenant_id product_id) t.price_history) + 1 in
      repriced (effective_update true values) env.written_at entry appended.tenant sequence row refl
        refl refl found own priced
        (ap (λ d. d.products) appended.written ∙ ap (λ d. d.products) (sym e))
        (ap (λ d. d.price_history) appended.written
          ∙ ap (λ d. d.price_history ++ price_row entry appended.tenant sequence ∷ []) (sym e))
  priced_effect product_id values row db true none priced found own e h =
      edited product_id (effective_update true values) env.written_at (λ _ _ h. h) priced
        (ap (λ x. x.1.products) (sym h) ∙ ap (λ d. d.products) (sym e))
        (ap (λ x. x.1.price_history) (sym h) ∙ ap (λ d. d.price_history) (sym e))
  priced_effect product_id values row db false price priced found own e h =
      edited product_id (effective_update false values) env.written_at (λ _ _ h. h) refl
        (ap (λ x. x.1.products) (sym h) ∙ ap (λ d. d.products) (sym e))
        (ap (λ x. x.1.price_history) (sym h) ∙ ap (λ d. d.price_history) (sym e))

  write_update_effect :
      (product_id : Uuid) (values : UpdateProductData) (row : ProductRow) (db : Db) (changed : Bool)
      {r : Option ProductRecord} {db' : Db}
      → select_one (is_product tenant_id product_id) db.products ≡ some row
      → (row.seller_id == seller) ≡ true
      → write_update to_lower env product_id values seller tenant_id changed db ≡ (ok r, db')
      → Effect to_lower tenant_id seller db db'
  unfolding write_update
  write_update_effect product_id values row db changed {r} {db'} found own h =
      let (updated, t, e, k) =
        >>=-eq-ok
          (update_owned to_lower tenant_id product_id seller (effective_update changed values)
            env.written_at)
          (λ u.
            append_changed_price to_lower env tenant_id product_id seller changed values.price
            >> pure u)
          h in
      let (_, d, e', k') =
        >>=-eq-ok
          (append_changed_price to_lower env tenant_id product_id seller changed values.price)
          (λ _. pure updated) k in
      priced_effect product_id values row db changed values.price refl found own (ap (λ x. x.1) e)
        (e' ∙ ap (λ x. (ok tt, x.1)) k')

  update_found_effect :
      (product_id : Uuid) (values : UpdateProductData) (product : ProductRecord) (row : ProductRow)
      (db : Db) {r : Option ProductRecord} {db' : Db}
      → select_one (is_product tenant_id product_id) db.products ≡ some row
      → (row.seller_id == seller) ≡ true
      → update_found to_lower env product_id values seller tenant_id product db ≡ (ok r, db')
      → Effect to_lower tenant_id seller db db'
  unfolding update_found
  update_found_effect product_id values product row db found own h =
      let changed = price_changed product.price values.price in
      elim (Bool-cases (has_values (effective_update changed values))) [
        | inl some_values ↦
            write_update_effect product_id values row db changed found own (rw some_values at h)
        | inr no_values ↦
            unchanged to_lower tenant_id seller (ap (λ x. x.1) (sym (rw no_values at h)))
      ]

  update_work_effect :
      (product_id : Uuid) (values : UpdateProductData) (db : Db) {r : Option ProductRecord}
      {db' : Db}
      → update_product_in_transaction to_lower env product_id values seller tenant_id db
        ≡ (ok r, db')
      → Effect to_lower tenant_id seller db db'
  unfolding update_product_in_transaction
  update_work_effect product_id values db h =
      let go = λ (product : ProductRecord).
        update_found to_lower env product_id values seller tenant_id product in
      let (found, t, e, k) =
        >>=-eq-ok (reads (find_by_id tenant_id product_id))
          (λ found. lift (owned seller found) >>= go) h in
      let (product, t', e', k') = >>=-eq-ok (lift (owned seller found)) go k in
      let (is_found, own) = owned-eq-ok seller found (ap (λ x. x.0) e') in
      let (row, has_row, mapped) =
        find_by_id-row tenant_id product_id db (ap (λ x. x.0) e ∙ ap (λ f. ok f) is_found) in
      update_found_effect product_id values product row db has_row
        (ap (λ s. s == seller) (sym (mapped-seller row mapped)) ∙ own)
        (ap (go product) (ap (λ x. x.1) e ∙ ap (λ x. x.1) e') ∙ k')

  pub update_effect :
      (tx : Transactions Db) (product_id : Uuid) (values : UpdateProductData) (db : Db)
      → Effect to_lower tenant_id seller db
          (update_product to_lower tx env product_id values seller tenant_id db).1
  unfolding update_product
  update_effect tx product_id values db =
      reads-keeps (λ _. require_update_currency values.price tenant_id)
        (λ _.
          tx.transaction
            (update_product_in_transaction to_lower env product_id values seller tenant_id))
        (Effect to_lower tenant_id seller db) (unchanged to_lower tenant_id seller refl)
        (λ _ _.
          transaction-keeps tx
            (update_product_in_transaction to_lower env product_id values seller tenant_id)
            (Effect to_lower tenant_id seller db) (unchanged to_lower tenant_id seller refl)
            (λ r db' h. update_work_effect product_id values db h))
