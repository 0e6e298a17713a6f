-- ===== src/Reviews/Permitted.antt =====
-- Who reviews what.
use ufsc_dso2_trabalho1_merc.Prelude.{
  List, [], ◌∷◌, ◌++◌, str_eq, String, Option, none, some, ◌≡◌, true, refl, sym, ap, ◌∙◌, ◌⊎◌, inl,
  inr, Option-cases, Bool-cases,
}
use ufsc_dso2_trabalho1_merc.Sql.{select_one}
use ufsc_dso2_trabalho1_merc.Result.{Result, ok, internal, or_throw, or_throw-eq-ok}
use ufsc_dso2_trabalho1_merc.Action.{lift, gets, Transactions}
use ufsc_dso2_trabalho1_merc.Action.Laws.{>>=-eq-ok, >>=_continues, transaction-eq-ok}
use ufsc_dso2_trabalho1_merc.Database.{Uuid, ReviewRow, IdempotencyRow, Db}
use ufsc_dso2_trabalho1_merc.Products
use ufsc_dso2_trabalho1_merc.Products.{ProductRecord}
use ufsc_dso2_trabalho1_merc.Idempotency.{
  MutationIdempotencyResult, conflict, replay, claim, is_claim, replay_of, claim_row,
}
use ufsc_dso2_trabalho1_merc.Idempotency.Claims.{claim_unused, claim_used, claim_other}
use ufsc_dso2_trabalho1_merc.Reviews.{find_by_id, has_purchased_product}
use ufsc_dso2_trabalho1_merc.Reviews.Service.{
  Env, ReviewRequest, review_claim, review_claimed, create_review_in_transaction, create_review,
}
use ufsc_dso2_trabalho1_merc.Reviews.Earned.{IsEarned, claimed-IsEarned}

module _ (request_hash : ReviewRequest → String) (env : Env) (user_id : Uuid) (tenant_id : String)
    (key : Uuid) (request : ReviewRequest) where
  -- The key was used for the same request and has a review, which is there, and nothing changes.
  pub record IsReplayed (db db' : Db) (review : ReviewRow) : Type 0 where
    pub row : IdempotencyRow
    pub used :
        select_one
          (is_claim (review_claim request_hash env user_id tenant_id key request))
          db.idempotency
        ≡ some row
    pub same_request : str_eq row.request_hash (request_hash request) ≡ true
    pub id : Uuid
    pub has_resource : row.resource_id ≡ some id
    pub found : find_by_id tenant_id id db ≡ some review
    pub kept : db' ≡ db

  replayed_kept :
      (id : Uuid) (db : Db) {review : ReviewRow} {db' : Db}
      → review_claimed request_hash env user_id tenant_id key request (replay id) db
        ≡ (ok review, db')
      → (find_by_id tenant_id id db ≡ some review) × (db' ≡ db)
  unfolding review_claimed
  replayed_kept id db {review} {db'} h =
      let (found, d, e, k) =
        >>=-eq-ok (gets (find_by_id tenant_id id)) (λ r. lift (or_throw r internal)) h in
      let read : Result.ok (find_by_id tenant_id id db) ≡ ok found = ap (λ x. x.0) e in
      let same : find_by_id tenant_id id db ≡ found = cc read in
      (
        same ∙ or_throw-eq-ok found internal (ap (λ x. x.0) k),
        sym (ap (λ x. x.1) e ∙ ap (λ x. x.1) k),
      )

  after_claim :
      (db : Db) {t : Db} {a : MutationIdempotencyResult}
      → claim (review_claim request_hash env user_id tenant_id key request) db ≡ (ok a, t)
      → create_review_in_transaction request_hash env user_id tenant_id key request db
        ≡ review_claimed request_hash env user_id tenant_id key request a t
  unfolding create_review_in_transaction
  after_claim db e =
      >>=_continues (claim (review_claim request_hash env user_id tenant_id key request))
        (review_claimed request_hash env user_id tenant_id key request) e

  used_kept :
      (db : Db) (set : Option Uuid) {review : ReviewRow} {db' : Db}
      → claim (review_claim request_hash env user_id tenant_id key request) db ≡ (replay_of set, db)
      → create_review_in_transaction request_hash env user_id tenant_id key request db
        ≡ (ok review, db')
      → (id : Uuid) × (set ≡ some id) × (find_by_id tenant_id id db ≡ some review) × (db' ≡ db)
  unfolding create_review_in_transaction
  used_kept db none claims h =
      let (a, t, e, k) =
        >>=-eq-ok (claim (review_claim request_hash env user_id tenant_id key request))
          (review_claimed request_hash env user_id tenant_id key request) h in
      cc (e, claims)
  used_kept db (some id) claims h =
      let (found, kept) = replayed_kept id db (sym (after_claim db claims) ∙ h) in
      (id, refl, found, kept)

  refused :
      (db : Db) {review : ReviewRow} {db' : Db}
      → claim (review_claim request_hash env user_id tenant_id key request) db ≡ (ok conflict, db)
      → create_review_in_transaction request_hash env user_id tenant_id key request db
        ≡ (ok review, db')
      → IsReplayed db db' review
  unfolding review_claimed
  refused db claims h = cc (after_claim db claims, h)

  -- The claim touches neither products nor orders.
  IsEarned-before :
      (rows : List IdempotencyRow) (db db' : Db) {review : ReviewRow}
      → IsEarned request_hash env user_id tenant_id key request
          (record db { idempotency = rows })
          db'
          review
      → IsEarned request_hash env user_id tenant_id key request db db' review
  unfolding Products.find_by_id has_purchased_product
  IsEarned-before rows db db' e = record {
    product = e.product;
    found = e.found;
    not_own = e.not_own;
    bought = e.bought;
    rating = e.rating;
    comment = e.comment;
    written = e.written;
  }

  -- If a review is returned, then either the key was used for the same request before, the review is
  -- the one that the row of the key names, and nothing changes; or the product is there and not the
  -- author's own, the author has bought it, the review says what was asked, and it is the author's
  -- review of the product afterwards.
  pub create_review-IsEarned :
      (tx : Transactions Db) (db : Db) {review : ReviewRow} {db' : Db}
      → create_review request_hash env user_id tenant_id key request tx db ≡ (ok review, db')
      → IsReplayed db db' review
        ⊎ IsEarned request_hash env user_id tenant_id key request db db' review
  unfolding create_review
  create_review-IsEarned tx db {review} {db'} h =
      let c = review_claim request_hash env user_id tenant_id key request in
      let ran =
        transaction-eq-ok tx
          (create_review_in_transaction request_hash env user_id tenant_id key request) h in
      elim (Option-cases (select_one (is_claim c) db.idempotency)) [
        | inl unused ↦ inr (
            IsEarned-before (db.idempotency ++ claim_row c ∷ []) db db' (
              claimed-IsEarned request_hash env user_id tenant_id key request
                (record db { idempotency = db.idempotency ++ claim_row c ∷ [] })
                (sym (after_claim db (claim_unused c db unused)) ∙ ran)))
        | inr (row, used) ↦ elim (Bool-cases (str_eq row.request_hash (request_hash request))) [
          | inl same ↦
              let (id, has_resource, found, kept) =
                used_kept db row.resource_id (claim_used c db used same) ran in
              inl (record {
                row = row;
                used = used;
                same_request = same;
                id = id;
                has_resource = has_resource;
                found = found;
                kept = kept;
              })
          | inr other ↦ inl (refused db (claim_other c db used other) ran)
        ]
      ]
