-- ===== src/ProductService/Retry.antt =====
-- Creations under a key that was used.
use ufsc_dso2_trabalho1_merc.Prelude.{
  String, ◌≡◌, ◌≢◌, ap, ◌∙◌, arith, true, false, str_eq, str_eq_iff,
}
use ufsc_dso2_trabalho1_merc.Sql.{exists_row}
use ufsc_dso2_trabalho1_merc.Result.{ok, err, app_error, idempotency_key_reused}
use ufsc_dso2_trabalho1_merc.Action.{Transactions, lift}
use ufsc_dso2_trabalho1_merc.Action.Laws.{>>=-eq-ok, >>=_continues, transaction-eq-ok}
use ufsc_dso2_trabalho1_merc.Database.{Uuid, Db}
use ufsc_dso2_trabalho1_merc.Products.{ProductRecord, is_product}
use ufsc_dso2_trabalho1_merc.ProductService.Guards.{require_tenant_currency}
use ufsc_dso2_trabalho1_merc.ProductService.Service.{Env, CreateProductData, create_product}
use ufsc_dso2_trabalho1_merc.ProductService.Replays.{
  attempt, its_refusal, Answers-attempt, attempt-Answers,
}

hash_apart : (a b c : String) → str_eq a b ≡ true → c ≢ b → str_eq a c ≡ false
hash_apart a b c same apart = grind (arith, str_eq_iff a b, str_eq_iff a c)

module _ (to_lower : String → String) (request_hash : CreateProductData → String)
    (tenant_id : String) (seller key : Uuid) where
  transaction_ran :
      (tx : Transactions Db) (env : Env) (body : CreateProductData) (db : Db) {p : ProductRecord}
      {db' : Db}
      → create_product to_lower request_hash tx env tenant_id seller key body db ≡ (ok p, db')
      → (require_tenant_currency body.price tenant_id ≡ ok tt)
        × (attempt to_lower request_hash tenant_id seller key env body db ≡ (ok p, db'))
  unfolding create_product
  transaction_ran tx env body db {p} {db'} h =
      let (_, t, e, k) =
        >>=-eq-ok (lift (require_tenant_currency body.price tenant_id))
          (λ _. tx.transaction (attempt to_lower request_hash tenant_id seller key env body)) h in
      let same = ap (λ x. x.1) e in
      (
        ap (λ x. x.0) e,
        transaction-eq-ok tx (attempt to_lower request_hash tenant_id seller key env body) (
            ap (tx.transaction (attempt to_lower request_hash tenant_id seller key env body)) same
            ∙ k),
      )

  transaction_runs :
      (tx : Transactions Db) (env : Env) (body : CreateProductData) (db : Db)
      → require_tenant_currency body.price tenant_id ≡ ok tt
      → create_product to_lower request_hash tx env tenant_id seller key body db
        ≡ tx.transaction (attempt to_lower request_hash tenant_id seller key env body) db
  unfolding create_product
  transaction_runs tx env body db priced =
      >>=_continues (lift (require_tenant_currency body.price tenant_id))
        (λ _. tx.transaction (attempt to_lower request_hash tenant_id seller key env body))
        (ap (λ r. (r, db)) priced)

  module _ (tx : Transactions Db) (env env' : Env) (body : CreateProductData) (db : Db)
      {p : ProductRecord} {db' : Db}
      (fresh : exists_row (is_product tenant_id env.product_id) db.products ≡ false)
      (created : create_product to_lower request_hash tx env tenant_id seller key body db
        ≡ (ok p, db')) where
    -- Once a product was created, another call of the seller with the same key and the same data
    -- returns the product again and changes nothing, if its id was new.
    pub create_product_retry :
        create_product to_lower request_hash tx env' tenant_id seller key body db' ≡ (ok p, db')
    create_product_retry =
        let (priced, ran) = transaction_ran tx env body db created in
        transaction_runs tx env' body db' priced
        ∙ tx.commits (attempt to_lower request_hash tenant_id seller key env' body) db' db' p (
            Answers-attempt to_lower request_hash tenant_id seller key env' body p db'
              (attempt-Answers to_lower request_hash tenant_id seller key env body db fresh ran))

    -- Once a product was created, a call of the seller with the same key and other data in the
    -- tenant's currency is refused with 409 and changes nothing, if the id of the product was new.
    pub create_product_reused :
        (other : CreateProductData)
        → require_tenant_currency other.price tenant_id ≡ ok tt
        → request_hash other ≢ request_hash body
        → create_product to_lower request_hash tx env' tenant_id seller key other db'
          ≡ (err (app_error 409 idempotency_key_reused), db')
    create_product_reused other priced apart =
        let (_, ran) = transaction_ran tx env body db created in
        let a = attempt-Answers to_lower request_hash tenant_id seller key env body db fresh ran in
        transaction_runs tx env' other db' priced
        ∙ tx.rolls_back (attempt to_lower request_hash tenant_id seller key env' other) db' db'
            (app_error 409 idempotency_key_reused)
            (its_refusal to_lower request_hash tenant_id seller key env' other db' (a.used env')
              (hash_apart a.row.request_hash (request_hash body) (request_hash other) a.same apart))
