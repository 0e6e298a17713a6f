-- ===== src/ProductService/Added.antt =====
-- The effect of a creation.
use ufsc_dso2_trabalho1_merc.Prelude.{
  String, Option, none, some, [], ◌∷◌, ◌++◌, ◌≡◌, refl, sym, ◌∙◌, false, Bool-cases, Option-cases,
  inl, inr, str_eq,
}
use ufsc_dso2_trabalho1_merc.Sql.{select_one, exists_row}
use ufsc_dso2_trabalho1_merc.Result.{ok}
use ufsc_dso2_trabalho1_merc.Action.{Transactions}
use ufsc_dso2_trabalho1_merc.Action.Laws.{>>=-eq-ok, transaction-keeps, reads-keeps}
use ufsc_dso2_trabalho1_merc.Database.{Uuid, Db}
use ufsc_dso2_trabalho1_merc.Products.{ProductRecord, is_product}
use ufsc_dso2_trabalho1_merc.Idempotency.{is_claim, claim, claim_row, replay_of}
use ufsc_dso2_trabalho1_merc.Idempotency.Claims.{claim_unused, claim_used}
use ufsc_dso2_trabalho1_merc.ProductService.Guards.{require_tenant_currency}
use ufsc_dso2_trabalho1_merc.ProductService.Creating.{create_claimed-IsCreated}
use ufsc_dso2_trabalho1_merc.ProductService.Replays.{
  attempt, its_claim, after_claim, created-replay, its_refusal,
}
use ufsc_dso2_trabalho1_merc.ProductService.Effects.{Effect, IsStocked, unchanged, added}
use ufsc_dso2_trabalho1_merc.ProductService.Service.{
  Env, CreateProductData, create_record, price_entry, create_claimed, create_product,
  create_product_in_transaction,
}

module _ (to_lower : String → String) (request_hash : CreateProductData → String)
    (tenant_id : String) (seller : Uuid) (env : Env) where
  replay_effect :
      (key : Uuid) (body : CreateProductData) (db : Db) (set : Option Uuid) {p : ProductRecord}
      {db' : Db}
      → claim (its_claim to_lower request_hash tenant_id seller key env body) db
        ≡ (replay_of set, db)
      → attempt to_lower request_hash tenant_id seller key env body db ≡ (ok p, db')
      → Effect to_lower tenant_id seller db db'
  unfolding create_product_in_transaction
  replay_effect key body db none claims h =
      let (a, t, e, k) =
        >>=-eq-ok (claim (its_claim to_lower request_hash tenant_id seller key env body))
          (create_claimed to_lower request_hash env tenant_id seller key body) h in
      cc (e, claims)
  replay_effect key body db (some id) claims h =
      let (kept, _) =
        created-replay to_lower request_hash tenant_id seller key env body id db
          (sym (after_claim to_lower request_hash tenant_id seller key env body db claims) ∙ h) in
      unchanged to_lower tenant_id seller kept

  attempt_effect :
      (key : Uuid) (body : CreateProductData) (db : Db) {p : ProductRecord} {db' : Db}
      → exists_row (is_product tenant_id env.product_id) db.products ≡ false
      → IsStocked body.status body.inventory
      → attempt to_lower request_hash tenant_id seller key env body db ≡ (ok p, db')
      → Effect to_lower tenant_id seller db db'
  attempt_effect key body db {p} {db'} fresh stocked h =
      let claim_of = its_claim to_lower request_hash tenant_id seller key env body in
      elim (Option-cases (select_one (is_claim claim_of) db.idempotency)) [
        | inl unused ↦
            let c =
              create_claimed-IsCreated to_lower request_hash env tenant_id seller key body
                (record db { idempotency = db.idempotency ++ claim_row claim_of ∷ [] })
                (sym (
                    after_claim to_lower request_hash tenant_id seller key env body db
                      (claim_unused claim_of db unused))
                  ∙ h) in
            added env.product_id env.written_at (create_record tenant_id seller body)
              (price_entry env tenant_id env.product_id seller body.price) c.tenant _ fresh stocked
              refl refl refl refl refl c.products c.price_history
        | inr (row, used) ↦ elim (Bool-cases (str_eq row.request_hash (request_hash body))) [
          | inl same ↦
              replay_effect key body db row.resource_id (claim_used claim_of db used same) h
          | inr other ↦
              cc (its_refusal to_lower request_hash tenant_id seller key env body db used other, h)
        ]
      ]

  pub create_effect :
      (tx : Transactions Db) (key : Uuid) (body : CreateProductData) (db : Db)
      → exists_row (is_product tenant_id env.product_id) db.products ≡ false
      → IsStocked body.status body.inventory
      → Effect to_lower tenant_id seller db
          (create_product to_lower request_hash tx env tenant_id seller key body db).1
  unfolding create_product
  create_effect tx key body db fresh stocked =
      reads-keeps (λ _. require_tenant_currency body.price tenant_id)
        (λ _. tx.transaction (attempt to_lower request_hash tenant_id seller key env body))
        (Effect to_lower tenant_id seller db) (unchanged to_lower tenant_id seller refl)
        (λ _ _.
          transaction-keeps tx (attempt to_lower request_hash tenant_id seller key env body)
            (Effect to_lower tenant_id seller db) (unchanged to_lower tenant_id seller refl)
            (λ p db' h. attempt_effect key body db fresh stocked h))
