-- ===== src/ProductService/Service.antt =====
-- `createProductService`: creation under an idempotency key, edits, changes of status and of the
-- inventory. `to_lower` is `String.prototype.toLowerCase` and `request_hash` is
-- `mutationRequestHash` of backend/src/services/mutationIdempotencyService.ts, the SHA-256 of the
-- data's JSON.
use ufsc_dso2_trabalho1_merc.Prelude.{
  ℕ, String, Bool, true, Option, some, [], ◌∷◌, ◌==◌, if◌then◌else◌,
}
use ufsc_dso2_trabalho1_merc.Result.{err, app_error, internal, or_throw, idempotency_key_reused}
use ufsc_dso2_trabalho1_merc.Action.{Action, pure, lift, reads, modify, Transactions, ◌>>=◌, ◌>>◌}
use ufsc_dso2_trabalho1_merc.Money.{Money}
use ufsc_dso2_trabalho1_merc.ProductStatus.{ProductStatus}
use ufsc_dso2_trabalho1_merc.Database.{Uuid, Date, product_create, inventory_set, Db}
use ufsc_dso2_trabalho1_merc.Products.{ProductRecord, find_by_id}
use ufsc_dso2_trabalho1_merc.Products.Writing.{
  CreateProductRecord, AppendProductPriceHistory, create, update_owned, append_price_history,
}
use ufsc_dso2_trabalho1_merc.Idempotency.{
  MutationIdempotencyClaim, MutationIdempotencyResult, claimed, conflict, replay, claim, complete,
}
use ufsc_dso2_trabalho1_merc.Events.{append_many}
use ufsc_dso2_trabalho1_merc.ProductService.Guards.{
  UpdateProductData, owned, owned_product, require_tenant_currency, require_update_currency,
  price_changed, effective_update, has_values, check_status, status_for, inventory_update,
  status_update,
}

-- What `new Date()` and `randomUUID()` return during one call.
pub record Env : Type 0 where
  pub claimed_at : Date
  pub written_at : Date
  pub changed_at : Date
  pub product_id : Uuid
  pub audit_id : ℕ → Uuid

-- `CreateProductData`
pub record CreateProductData : Type 0 where
  pub name : String
  pub description : Option String
  pub category : String
  pub subcategory : String
  pub inventory : ℕ
  pub price : Money
  pub image : String
  pub status : ProductStatus

abbrev pub product_claim : Env → String → Uuid → Uuid → String → MutationIdempotencyClaim
product_claim env tenant_id seller key hash = record {
  tenant_id = tenant_id;
  actor_id = seller;
  operation = product_create;
  key = key;
  request_hash = hash;
  now = env.claimed_at;
}

abbrev pub create_record : String → Uuid → CreateProductData → CreateProductRecord
create_record tenant_id seller data_ = record {
  tenant_id = tenant_id;
  seller = seller;
  name = data_.name;
  description = data_.description;
  category = data_.category;
  subcategory = data_.subcategory;
  inventory = data_.inventory;
  price = data_.price;
  image = data_.image;
  status = data_.status;
}

abbrev pub price_entry : Env → String → Uuid → Uuid → Money → AppendProductPriceHistory
price_entry env tenant_id product_id seller price = record {
  tenant_id = tenant_id;
  product_id = product_id;
  actor_id = seller;
  price = price;
  changed_at = env.changed_at;
}

-- `audits.append` of `updateProductInventory`.
abbrev pub audit_inventory : Env → Uuid → ℕ → Uuid → String → ProductRecord → Db → Db
audit_inventory env product_id inventory seller tenant_id product = append_many env.audit_id (
    record {
      tenant_id = tenant_id;
      event =
          inventory_set product.inventory inventory product.status
            (status_for inventory product.status);
      actor_id = some seller;
      resource_id = product_id;
      occurred_at = env.changed_at;
    }
    ∷ [])

module _ (to_lower : String → String) (request_hash : CreateProductData → String) where
  -- What follows the claim in `createProduct`.
  unfoldable pub create_claimed :
      Env
      → String
      → Uuid
      → Uuid
      → CreateProductData
      → MutationIdempotencyResult
      → Action Db ProductRecord
  create_claimed env tenant_id seller key body conflict =
      lift (err (app_error 409 idempotency_key_reused))
  create_claimed env tenant_id seller key body (replay resource_id) = do
    replayed ← reads (find_by_id tenant_id resource_id)
    lift (or_throw replayed internal)
  create_claimed env tenant_id seller key body claimed = do
    created ← create to_lower env.product_id env.written_at (create_record tenant_id seller body)
    append_price_history (price_entry env tenant_id created.id seller body.price)
    complete (product_claim env tenant_id seller key (request_hash body)) created.id
    pure created

  -- The transaction of `createProduct`.
  unfoldable pub create_product_in_transaction :
      Env → String → Uuid → Uuid → CreateProductData → Action Db ProductRecord
  create_product_in_transaction env tenant_id seller key body = do
    outcome ← claim (product_claim env tenant_id seller key (request_hash body))
    create_claimed env tenant_id seller key body outcome

  -- `createProduct`
  unfoldable pub create_product :
      Transactions Db → Env → String → Uuid → Uuid → CreateProductData → Action Db ProductRecord
  create_product tx env tenant_id seller key body = do
    lift (require_tenant_currency body.price tenant_id)
    tx.transaction (create_product_in_transaction env tenant_id seller key body)

module _ (to_lower : String → String) where
  -- `if (priceChanged) await products.appendPriceHistory(…)`
  abbrev pub append_changed_price :
      Env → String → Uuid → Uuid → Bool → Option Money → Action Db (Unit {0})
  append_changed_price env tenant_id product_id seller true (some price) =
      append_price_history (price_entry env tenant_id product_id seller price)
  append_changed_price env tenant_id product_id seller _ _ = pure tt

  -- The writes of `updateProduct`.
  unfoldable pub write_update :
      Env → Uuid → UpdateProductData → Uuid → String → Bool → Action Db (Option ProductRecord)
  write_update env product_id update seller tenant_id changed = do
    updated ←
        update_owned to_lower tenant_id product_id seller (effective_update changed update)
          env.written_at
    append_changed_price env tenant_id product_id seller changed update.price
    pure updated

  -- `updateProduct` after the product was found to be the seller's.
  unfoldable pub update_found :
      Env
      → Uuid
      → UpdateProductData
      → Uuid
      → String
      → ProductRecord
      → Action Db (Option ProductRecord)
  update_found env product_id update seller tenant_id product =
      let changed = price_changed product.price update.price in
      if has_values (effective_update changed update)
      then write_update env product_id update seller tenant_id changed
      else pure (some product)

  unfoldable pub update_product_in_transaction :
      Env → Uuid → UpdateProductData → Uuid → String → Action Db (Option ProductRecord)
  update_product_in_transaction env product_id update seller tenant_id = do
    found ← reads (find_by_id tenant_id product_id)
    product ← lift (owned seller found)
    update_found env product_id update seller tenant_id product

  -- `updateProduct`
  unfoldable pub update_product :
      Transactions Db
      → Env
      → Uuid
      → UpdateProductData
      → Uuid
      → String
      → Action Db (Option ProductRecord)
  update_product tx env product_id update seller tenant_id = do
    lift (require_update_currency update.price tenant_id)
    tx.transaction (update_product_in_transaction env product_id update seller tenant_id)

  -- `updateProductStatus`: without a transaction.
  unfoldable pub update_product_status :
      Env → Uuid → ProductStatus → Uuid → String → Action Db (Option ProductRecord)
  update_product_status env product_id status seller tenant_id = do
    product ← reads (owned_product product_id seller tenant_id)
    lift (check_status status product)
    update_owned to_lower tenant_id product_id seller (status_update status) env.written_at

  -- The writes of `updateProductInventory`.
  unfoldable pub write_inventory :
      Env → Uuid → ℕ → Uuid → String → ProductRecord → Action Db (Option ProductRecord)
  write_inventory env product_id inventory seller tenant_id product = do
    updated ←
        update_owned to_lower tenant_id product_id seller
          (inventory_update inventory product.status) env.written_at
    modify (audit_inventory env product_id inventory seller tenant_id product)
    pure updated

  -- `updateProductInventory` after the ownership check.
  unfoldable pub set_inventory :
      Env → Uuid → ℕ → Uuid → String → ProductRecord → Action Db (Option ProductRecord)
  set_inventory env product_id inventory seller tenant_id product =
      if inventory == product.inventory
      then pure (some product)
      else write_inventory env product_id inventory seller tenant_id product

  -- `updateProductInventory`
  unfoldable pub update_product_inventory :
      Transactions Db → Env → Uuid → ℕ → Uuid → String → Action Db (Option ProductRecord)
  update_product_inventory tx env product_id inventory seller tenant_id = tx.transaction (do
    product ← reads (owned_product product_id seller tenant_id)
    set_inventory env product_id inventory seller tenant_id product)
