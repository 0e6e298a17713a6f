-- ===== src/ProductService/Creating.antt =====
-- What a creation under an unused key has written.
use ufsc_dso2_trabalho1_merc.Prelude.{
  String, some, [], ◌∷◌, ◌++◌, ◌≡◌, ap, sym, ◌∙◌, inl, inr, arith, Option-cases, Bool-cases, ◌+◌,
  str_eq, true,
}
use ufsc_dso2_trabalho1_merc.Sql.{select, update}
use ufsc_dso2_trabalho1_merc.Result.{Result, ok}
use ufsc_dso2_trabalho1_merc.Action.{pure, ◌>>◌}
use ufsc_dso2_trabalho1_merc.Action.Laws.{>>=-eq-ok}
use ufsc_dso2_trabalho1_merc.Tenants.{Tenant, resolve_tenant, one}
use ufsc_dso2_trabalho1_merc.Database.{Uuid, ProductRow, Db}
use ufsc_dso2_trabalho1_merc.Products.{ProductRecord, map_product_row}
use ufsc_dso2_trabalho1_merc.Products.Writing.{
  AppendProductPriceHistory, create, append_price_history, append_price_in, new_row, price_row,
  latest_price_sequence, is_price_of,
}
use ufsc_dso2_trabalho1_merc.Idempotency.{claimed, complete, completed, is_claim_with_hash}
use ufsc_dso2_trabalho1_merc.ProductService.Service.{
  Env, CreateProductData, product_claim, create_record, price_entry, create_claimed,
}

-- A price history that was extended by one entry.
pub record IsAppended (entry : AppendProductPriceHistory) (db db' : Db) : Type 0 where
  pub tenant : Tenant
  pub resolved : resolve_tenant (one entry.tenant_id) ≡ some tenant
  pub in_currency : str_eq tenant.currency_code entry.price.currency ≡ true
  pub written : db' ≡ record db {
    price_history =
        db.price_history
        ++ price_row entry tenant (
            latest_price_sequence
              (select (is_price_of entry.tenant_id entry.product_id) db.price_history)
            + 1)
          ∷ [];
  }

pub append_price_history-IsAppended :
    (entry : AppendProductPriceHistory) (db : Db) {db' : Db}
    → append_price_history entry db ≡ (ok tt, db')
    → IsAppended entry db db'
unfolding append_price_history
append_price_history-IsAppended entry db {db'} h =
    elim (Option-cases (resolve_tenant (one entry.tenant_id))) [
      | inl unknown ↦ cc (rw (unknown, append_price_in) at h)
      | inr (tenant, resolved) ↦
          elim (Bool-cases (str_eq tenant.currency_code entry.price.currency)) [
            | inl same ↦ record {
              tenant = tenant;
              resolved = resolved;
              in_currency = same;
              written = cc (rw (resolved, append_price_in, same) at h);
            }
            | inr other ↦ cc (rw (resolved, append_price_in, other) at h)
          ]
    ]

-- A product has the id of its row.
pub mapped-id : (row : ProductRow) {p : ProductRecord} → map_product_row row ≡ ok p → p.id ≡ row.id
unfolding map_product_row
mapped-id row {p} h = ground arith

pub mapped-stock :
    (row : ProductRow) {p : ProductRecord}
    → map_product_row row ≡ ok p
    → (p.inventory ≡ row.inventory) × (p.status ≡ row.status)
unfolding map_product_row
mapped-stock row {p} h = (ground arith, ground arith)

pub mapped-seller :
    (row : ProductRow) {p : ProductRecord} → map_product_row row ≡ ok p → p.seller ≡ row.seller_id
unfolding map_product_row
mapped-seller row {p} h = ground arith

module _ (to_lower : String → String) (request_hash : CreateProductData → String) (env : Env)
    (tenant_id : String) (seller key : Uuid) (body : CreateProductData) where
  -- What the writes under a claimed key have made of the database.
  pub record IsCreated (db : Db) (p : ProductRecord) (db' : Db) : Type 0 where
    pub made :
        map_product_row
          (new_row to_lower env.product_id env.written_at (create_record tenant_id seller body))
        ≡ ok p
    pub products :
        db'.products
        ≡ db.products
          ++ new_row to_lower env.product_id env.written_at (create_record tenant_id seller body)
            ∷ []
    pub tenant : Tenant
    pub resolved : resolve_tenant (one tenant_id) ≡ some tenant
    pub in_currency : str_eq tenant.currency_code body.price.currency ≡ true
    pub price_history :
        db'.price_history
        ≡ db.price_history
          ++ price_row (price_entry env tenant_id env.product_id seller body.price) tenant (
              latest_price_sequence (select (is_price_of tenant_id env.product_id) db.price_history)
              + 1)
            ∷ []
    pub idempotency :
        db'.idempotency
        ≡ update
            (is_claim_with_hash (product_claim env tenant_id seller key (request_hash body)))
            (completed env.product_id)
            db.idempotency

  assembled :
      (db : Db) (created : ProductRecord) (d1 d2 : Db) {p : ProductRecord} {db' : Db}
      → Result.ok created ≡ ok p
      → create to_lower env.product_id env.written_at (create_record tenant_id seller body) db
        ≡ (ok created, d1)
      → append_price_history (price_entry env tenant_id created.id seller body.price) d1
        ≡ (ok tt, d2)
      → complete (product_claim env tenant_id seller key (request_hash body)) created.id d2
        ≡ (ok tt, db')
      → IsCreated db p db'
  unfolding create complete
  assembled db created d1 d2 {p} {db'} same e1 e2 e3 =
      let id : created.id ≡ env.product_id =
        mapped-id
          (new_row to_lower env.product_id env.written_at (create_record tenant_id seller body))
          (ap (λ x. x.0) e1) in
      let appended = append_price_history-IsAppended _ d1 (rw id at e2) in
      let d1_is = ap (λ x. x.1) e1 in
      let db'_is : record d2 {
        idempotency =
            update (is_claim_with_hash (product_claim env tenant_id seller key (request_hash body)))
              (completed env.product_id) d2.idempotency;
      }
          ≡ db' =
        ap (λ x. x.1) (rw id at e3) in
      let with_price = λ (d : Db).
        d.price_history
        ++ price_row (price_entry env tenant_id env.product_id seller body.price) appended.tenant (
            latest_price_sequence (select (is_price_of tenant_id env.product_id) d.price_history)
            + 1)
          ∷ [] in
      let with_id = λ (d : Db).
        update (is_claim_with_hash (product_claim env tenant_id seller key (request_hash body)))
          (completed env.product_id) d.idempotency in
      record {
        made = ap (λ x. x.0) e1 ∙ same;
        products =
            ap (λ d. d.products) (sym db'_is)
            ∙ ap (λ d. d.products) appended.written
            ∙ ap (λ d. d.products) (sym d1_is);
        tenant = appended.tenant;
        resolved = appended.resolved;
        in_currency = appended.in_currency;
        price_history =
            ap (λ d. d.price_history) (sym db'_is)
            ∙ ap (λ d. d.price_history) appended.written
            ∙ ap with_price (sym d1_is);
        idempotency =
            ap (λ d. d.idempotency) (sym db'_is)
            ∙ ap with_id appended.written
            ∙ ap with_id (sym d1_is);
      }

  pub create_claimed-IsCreated :
      (db : Db) {p : ProductRecord} {db' : Db}
      → create_claimed to_lower request_hash env tenant_id seller key body claimed db ≡ (ok p, db')
      → IsCreated db p db'
  unfolding create_claimed
  create_claimed-IsCreated db {p} {db'} h =
      let finish = λ (created : ProductRecord).
        complete (product_claim env tenant_id seller key (request_hash body)) created.id
        >> pure created in
      let priced = λ (created : ProductRecord).
        append_price_history (price_entry env tenant_id created.id seller body.price)
        >> finish created in
      let (created, d1, e1, h1) =
        >>=-eq-ok
          (create to_lower env.product_id env.written_at (create_record tenant_id seller body))
          priced h in
      let (_, d2, e2, h2) =
        >>=-eq-ok (append_price_history (price_entry env tenant_id created.id seller body.price))
          (λ _. finish created) h1 in
      let (_, d3, e3, h3) =
        >>=-eq-ok (complete (product_claim env tenant_id seller key (request_hash body)) created.id)
          (λ _. pure created) h2 in
      assembled db created d1 d2 (ap (λ x. x.0) h3) e1 e2 (e3 ∙ ap (λ x. (ok tt, x.1)) h3)
