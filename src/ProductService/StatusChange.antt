-- ===== src/ProductService/StatusChange.antt =====
-- `updateProductStatus` on a product of the caller: which changes are made, and which are refused.
use ufsc_dso2_trabalho1_merc.Prelude.{
  List, [], ◌∷◌, String, true, some, ◌≡◌, refl, ap, sym, ◌∙◌, ◌⊎◌, inl, inr, arith, Bool-cases,
  ◌==◌,
}
use ufsc_dso2_trabalho1_merc.Sql.{select_one}
use ufsc_dso2_trabalho1_merc.Sql.Laws.{map_row, select_one-update, select_one_holds}
use ufsc_dso2_trabalho1_merc.Result.{ok, err, app_error, Code}
use ufsc_dso2_trabalho1_merc.Action.{reads, lift, ◌>>◌}
use ufsc_dso2_trabalho1_merc.Action.Laws.{>>=_continues, >>=_stops}
use ufsc_dso2_trabalho1_merc.ProductService.Creating.{mapped-seller}
use ufsc_dso2_trabalho1_merc.ProductStatus.{ProductStatus}
use ufsc_dso2_trabalho1_merc.Database.{Uuid, ProductRow, Db}
use ufsc_dso2_trabalho1_merc.Products.{ProductRecord, is_product, map_product_row, map_found}
use ufsc_dso2_trabalho1_merc.Products.Writing.{is_owned, set_values, update_owned}
use ufsc_dso2_trabalho1_merc.ProductService.Guards.{check_status, owned_product, status_update}
use ufsc_dso2_trabalho1_merc.ProductService.Effects.{owned_product-row}
use ufsc_dso2_trabalho1_merc.ProductService.Service.{Env, update_product_status}
use ufsc_dso2_trabalho1_merc.ProductService.Permitted.{
  Permitted, check_status-cases, check_status-Permitted,
}

module _ (to_lower : String → String) (env : Env) (product_id : Uuid) (status : ProductStatus)
    (seller : Uuid) (tenant_id : String) where
  owned_first :
      (rows : List ProductRow) {row : ProductRow}
      → select_one (is_product tenant_id product_id) rows ≡ some row
      → (row.seller_id == seller) ≡ true
      → select_one (is_owned tenant_id product_id seller) rows ≡ some row
  owned_first [] found own = cc
  owned_first (r ∷ rows) {row} found own = elim (Bool-cases (is_product tenant_id product_id r)) [
    | inl hit_here ↦
        let same : r ≡ row = cc (rw hit_here at found) in
        let mine : (r.seller_id == seller) ≡ true = ap (λ x. x.seller_id == seller) same ∙ own in
        rw (hit_here, mine) (ap (λ x. some x) same)
    | inr missed ↦ rw missed (owned_first rows (rw missed at found) own)
  ]

  mapped_after :
      (row : ProductRow) {product : ProductRecord}
      → map_product_row row ≡ ok product
      → map_product_row (set_values to_lower (status_update status) env.written_at row)
        ≡ ok (record product { status = status; updated_at = env.written_at })
  unfolding map_product_row
  mapped_after row {product} h = ground arith

  written :
      (db : Db) (row : ProductRow) {product : ProductRecord}
      → select_one (is_product tenant_id product_id) db.products ≡ some row
      → map_product_row row ≡ ok product
      → (row.seller_id == seller) ≡ true
      → (update_owned to_lower tenant_id product_id seller
          (status_update status)
          env.written_at
          db).0
        ≡ ok (some (record product { status = status; updated_at = env.written_at }))
  unfolding update_owned
  written db row has_row mapped mine =
      let q = is_owned tenant_id product_id seller in
      let first = owned_first db.products has_row mine in
      rw
        (
          select_one-update q q (set_values to_lower (status_update status) env.written_at)
              db.products (λ r. refl),
          first,
          map_row,
          select_one_holds q db.products first,
          map_found,
          mapped_after row mapped,
        )
        refl

  -- On a product of the caller either the change is permitted, and the product is returned with the
  -- new status and date, or it is not, and the call is refused with 409 and changes nothing.
  pub update_product_status_decides :
      (db : Db) {product : ProductRecord}
      → owned_product product_id seller tenant_id db ≡ ok product
      → (Permitted product status
          × ((update_product_status to_lower env product_id status seller tenant_id db).0
              ≡ ok (some (record product { status = status; updated_at = env.written_at }))))
        ⊎ ((¬ Permitted product status)
            × (code : Code) × (update_product_status to_lower env product_id status seller tenant_id
                  db
                ≡ (err (app_error 409 code), db)))
  unfolding update_product_status
  update_product_status_decides db {product} found =
      let write =
        update_owned to_lower tenant_id product_id seller (status_update status) env.written_at in
      let started =
        >>=_continues (reads (owned_product product_id seller tenant_id))
          (λ p. lift (check_status status p) >> write) (ap (λ r. (r, db)) found) in
      let (row, has_row, mapped, own) = owned_product-row product_id seller tenant_id db found in
      let mine = ap (λ x. x == seller) (sym (mapped-seller row mapped)) ∙ own in
      elim (check_status-cases status product) [
        | inl (passes, permitted) ↦ inl (
          permitted,
          ap (λ x. x.0)
                (started
                  ∙ >>=_continues (lift (check_status status product)) (λ _. write)
                      (ap (λ r. (r, db)) passes))
              ∙ written db row has_row mapped mine,
        )
        | inr (code, refused) ↦ inr (
          λ permitted. cc (refused, check_status-Permitted status product permitted),
          code,
          started
              ∙ >>=_stops (lift (check_status status product)) (λ _. write)
                  (ap (λ r. (r, db)) refused),
        )
      ]
