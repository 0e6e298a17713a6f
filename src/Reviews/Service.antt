-- ===== src/Reviews/Service.antt =====
-- `createReviewWithRepository` of backend/src/services/commerceService.ts. `request_hash` is
-- `mutationRequestHash` of the product, the rating and the comment.
use ufsc_dso2_trabalho1_merc.Prelude.{ℕ, String, [], ◌∷◌, ◌==◌, not}
use ufsc_dso2_trabalho1_merc.Result.{
  err, app_error, internal, or_throw, throw_if, product_not_found, idempotency_key_reused,
  review_forbidden, review_purchase_required,
}
use ufsc_dso2_trabalho1_merc.Action.{
  Action, pure, lift, gets, reads, modify, writes, Transactions, ◌>>=◌, ◌>>◌,
}
use ufsc_dso2_trabalho1_merc.Database.{Uuid, Date, review_upsert, new_review, ReviewRow, Db}
use ufsc_dso2_trabalho1_merc.Events.{notify_many}
use ufsc_dso2_trabalho1_merc.Products
use ufsc_dso2_trabalho1_merc.Products.{ProductRecord}
use ufsc_dso2_trabalho1_merc.Idempotency.{
  MutationIdempotencyClaim, MutationIdempotencyResult, claimed, conflict, replay, claim, complete,
}
use ufsc_dso2_trabalho1_merc.Reviews.{find_by_id, has_purchased_product, upsert}

-- What `new Date()` and `randomUUID()` return during one call.
pub record Env : Type 0 where
  pub claimed_at : Date
  pub now : Date
  pub review_id : Uuid
  pub notice_id : ℕ → Uuid

pub record ReviewRequest : Type 0 where
  pub product_id : Uuid
  pub rating : ℕ
  pub comment : String

module _ (request_hash : ReviewRequest → String) (env : Env) (user_id : Uuid) (tenant_id : String)
    (key : Uuid) (request : ReviewRequest) where
  abbrev pub review_claim : MutationIdempotencyClaim
  review_claim = record {
    tenant_id = tenant_id;
    actor_id = user_id;
    operation = review_upsert;
    key = key;
    request_hash = request_hash request;
    now = env.claimed_at;
  }

  -- The writes.
  unfoldable pub write_review : ProductRecord → Action Db ReviewRow
  write_review product = do
    review ← writes (
        upsert env.review_id tenant_id request.product_id user_id request.rating request.comment
          env.now)
    modify (
        notify_many env.notice_id env.now (
          record {
            tenant_id = tenant_id;
            user_id = product.seller;
            message = new_review product.name;
          }
          ∷ []))
    complete review_claim review.id
    pure review

  -- What follows the claim.
  unfoldable pub review_claimed : MutationIdempotencyResult → Action Db ReviewRow
  review_claimed conflict = lift (err (app_error 409 idempotency_key_reused))
  review_claimed (replay resource_id) = do
    replayed ← gets (find_by_id tenant_id resource_id)
    lift (or_throw replayed internal)
  review_claimed claimed = do
    found ← reads (Products.find_by_id tenant_id request.product_id)
    product ← lift (or_throw found (app_error 404 product_not_found))
    lift (throw_if (product.seller == user_id) (app_error 403 review_forbidden))
    purchased ← gets (has_purchased_product tenant_id user_id request.product_id)
    lift (throw_if (not purchased) (app_error 403 review_purchase_required))
    write_review product

  unfoldable pub create_review_in_transaction : Action Db ReviewRow
  create_review_in_transaction = do outcome ← claim review_claim; review_claimed outcome

  -- `createReview`
  unfoldable pub create_review : Transactions Db → Action Db ReviewRow
  create_review tx = tx.transaction create_review_in_transaction
