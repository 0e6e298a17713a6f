-- ===== src/Reviews/Earned.antt =====
-- What a review under an unused key has passed.
use ufsc_dso2_trabalho1_merc.Prelude.{
  [], ◌∷◌, String, Bool, true, false, Option, none, some, ◌≡◌, refl, ap, ◌∙◌, ◌==◌, not, ==_refl,
  str_eq_refl,
}
use ufsc_dso2_trabalho1_merc.Sql.{select_one}
use ufsc_dso2_trabalho1_merc.Sql.Laws.{
  map_row, select_one-update, select_one_holds, select_one-append_none,
}
use ufsc_dso2_trabalho1_merc.Result.{
  Result, ok, Error, app_error, or_throw, or_throw-eq-ok, throw_if, product_not_found,
  review_forbidden, review_purchase_required,
}
use ufsc_dso2_trabalho1_merc.Action.{Action, lift, gets, reads, writes, modify, pure, ◌>>=◌, ◌>>◌}
use ufsc_dso2_trabalho1_merc.Action.Laws.{>>=-eq-ok}
use ufsc_dso2_trabalho1_merc.Database.{Uuid, new_review, ReviewRow, Db}
use ufsc_dso2_trabalho1_merc.Events.{notify_many}
use ufsc_dso2_trabalho1_merc.Products
use ufsc_dso2_trabalho1_merc.Products.{ProductRecord}
use ufsc_dso2_trabalho1_merc.Idempotency.{claimed, complete}
use ufsc_dso2_trabalho1_merc.Reviews.{
  is_review_of, has_purchased_product, upsert, upsert_on, revised,
}
use ufsc_dso2_trabalho1_merc.Reviews.Service.{
  Env, ReviewRequest, review_claim, write_review, review_claimed,
}

module _ (request_hash : ReviewRequest → String) (env : Env) (user_id : Uuid) (tenant_id : String)
    (key : Uuid) (request : ReviewRequest) where
  -- The product is there and another's, the user has bought it, the review says what was asked, and
  -- it is the user's review of the product afterwards.
  pub record IsEarned (db db' : Db) (review : ReviewRow) : Type 0 where
    pub product : ProductRecord
    pub found : Products.find_by_id tenant_id request.product_id db ≡ ok (some product)
    pub not_own : (product.seller == user_id) ≡ false
    pub bought : has_purchased_product tenant_id user_id request.product_id db ≡ true
    pub rating : review.rating ≡ request.rating
    pub comment : review.comment ≡ request.comment
    pub written :
        select_one (is_review_of tenant_id request.product_id user_id) db'.reviews ≡ some review

  unthrown : (b : Bool) (e : Error) → throw_if b e ≡ ok tt → b ≡ false
  unthrown false e h = refl
  unthrown true e h = cc

  passed : (b : Bool) → not b ≡ false → b ≡ true
  passed true h = refl
  passed false h = cc

  upsert_says :
      (found : Option ReviewRow) (db : Db)
      → select_one (is_review_of tenant_id request.product_id user_id) db.reviews ≡ found
      → ((upsert_on env.review_id tenant_id request.product_id user_id request.rating
            request.comment env.now found db).0.rating
          ≡ request.rating)
        × ((upsert_on env.review_id tenant_id request.product_id user_id request.rating
              request.comment env.now found db).0.comment
            ≡ request.comment)
        × (select_one
              (is_review_of tenant_id request.product_id user_id)
              (upsert_on env.review_id tenant_id request.product_id user_id request.rating
                request.comment env.now found db).1.reviews
            ≡ some
                (upsert_on env.review_id tenant_id request.product_id user_id request.rating
                  request.comment env.now found db).0)
  upsert_says none db absent = (
    refl,
    refl,
    select_one-append_none (is_review_of tenant_id request.product_id user_id) db.reviews _ absent
        ∙ rw (str_eq_refl tenant_id, ==_refl request.product_id, ==_refl user_id) refl,
  )
  upsert_says (some old) db there =
      let p = is_review_of tenant_id request.product_id user_id in
      (
        refl,
        refl,
        rw
            (
              select_one-update p p (revised request.rating request.comment env.now) db.reviews
                  (λ r. refl),
              there,
              map_row,
              select_one_holds p db.reviews there,
            )
            refl,
      )

  written_says :
      (product : ProductRecord) (db : Db) {review : ReviewRow} {db' : Db}
      → write_review request_hash env user_id tenant_id key request product db ≡ (ok review, db')
      → (review.rating ≡ request.rating)
        × (review.comment ≡ request.comment)
        × (select_one (is_review_of tenant_id request.product_id user_id) db'.reviews ≡ some review)
  unfolding write_review upsert notify_many complete
  written_says product db {review} {db'} h =
      let finish = λ (r : ReviewRow).
        complete (review_claim request_hash env user_id tenant_id key request) r.id >> pure r in
      let notify = modify (
        notify_many env.notice_id env.now (
          record {
            tenant_id = tenant_id;
            user_id = product.seller;
            message = new_review product.name;
          }
          ∷ [])) in
      let (r, d, e, k) =
        >>=-eq-ok
          (writes (
            upsert env.review_id tenant_id request.product_id user_id request.rating request.comment
              env.now))
          (λ r. notify >> finish r) {s = db} h in
      let (_, d', e', k') = >>=-eq-ok notify (λ _. finish r) k in
      let (_, d'', e'', k'') =
        >>=-eq-ok (complete (review_claim request_hash env user_id tenant_id key request) r.id)
          (λ _. pure r) k' in
      let (rating, comment, written) =
        upsert_says (select_one (is_review_of tenant_id request.product_id user_id) db.reviews) db
          refl in
      let kept : d.reviews ≡ db'.reviews =
        ap (λ x. x.1.reviews) e' ∙ ap (λ x. x.1.reviews) e'' ∙ ap (λ x. x.1.reviews) k'' in
      let same : Result.ok r ≡ ok review = ap (λ x. x.0) k'' in
      (
        cc (same, ap (λ x. x.0) e, rating),
        cc (same, ap (λ x. x.0) e, comment),
        cc (same, ap (λ x. x.0) e, ap (λ x. x.1.reviews) e, kept, written),
      )

  abbrev after_bought : ProductRecord → Bool → Action Db ReviewRow
  after_bought product purchased =
      lift (throw_if (not purchased) (app_error 403 review_purchase_required))
      >> write_review request_hash env user_id tenant_id key request product

  abbrev after_own : ProductRecord → Action Db ReviewRow
  after_own product =
      gets (has_purchased_product tenant_id user_id request.product_id) >>= after_bought product

  -- What holds once the author is known not to be the seller.
  bought_says :
      (product : ProductRecord) (db : Db) {review : ReviewRow} {db' : Db}
      → after_own product db ≡ (ok review, db')
      → (has_purchased_product tenant_id user_id request.product_id db ≡ true)
        × (review.rating ≡ request.rating)
        × (review.comment ≡ request.comment)
        × (select_one (is_review_of tenant_id request.product_id user_id) db'.reviews ≡ some review)
  bought_says product db h =
      let (purchased, d, e, k) =
        >>=-eq-ok (gets (has_purchased_product tenant_id user_id request.product_id))
          (after_bought product) h in
      let (_, d', e', k') =
        >>=-eq-ok (lift (throw_if (not purchased) (app_error 403 review_purchase_required)))
          (λ _. write_review request_hash env user_id tenant_id key request product) k in
      let (rating, comment, written) = written_says product d' k' in
      let is_bought : Result.ok (has_purchased_product tenant_id user_id request.product_id db)
          ≡ ok purchased =
        ap (λ x. x.0) e in
      let yes_bought =
        passed purchased
          (unthrown (not purchased) (app_error 403 review_purchase_required) (ap (λ x. x.0) e')) in
      (cc (is_bought, yes_bought), rating, comment, written)

  pub claimed-IsEarned :
      (db : Db) {review : ReviewRow} {db' : Db}
      → review_claimed request_hash env user_id tenant_id key request claimed db ≡ (ok review, db')
      → IsEarned db db' review
  unfolding review_claimed
  claimed-IsEarned db {review} {db'} h =
      let after_product = λ (product : ProductRecord).
        lift (throw_if (product.seller == user_id) (app_error 403 review_forbidden))
        >> after_own product in
      let (found, d1, e1, h1) =
        >>=-eq-ok (reads (Products.find_by_id tenant_id request.product_id))
          (λ found. lift (or_throw found (app_error 404 product_not_found)) >>= after_product) h in
      let (product, d2, e2, h2) =
        >>=-eq-ok (lift (or_throw found (app_error 404 product_not_found))) after_product h1 in
      let (_, d3, e3, h3) =
        >>=-eq-ok (lift (throw_if (product.seller == user_id) (app_error 403 review_forbidden)))
          (λ _. after_own product) h2 in
      let same : db ≡ d3 = ap (λ x. x.1) e1 ∙ ap (λ x. x.1) e2 ∙ ap (λ x. x.1) e3 in
      let (bought, rating, comment, written) =
        bought_says product db (ap (after_own product) same ∙ h3) in
      record {
        product = product;
        found =
            ap (λ x. x.0) e1
            ∙ ap (λ o. ok o)
                (or_throw-eq-ok found (app_error 404 product_not_found) (ap (λ x. x.0) e2));
        not_own =
            unthrown (product.seller == user_id) (app_error 403 review_forbidden)
              (ap (λ x. x.0) e3);
        bought = bought;
        rating = rating;
        comment = comment;
        written = written;
      }
