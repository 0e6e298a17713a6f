-- ===== src/Tests/Reviews.antt =====
-- The buyer of the sample checkout reviews the pens.
use ufsc_dso2_trabalho1_merc.Prelude.{◌+◌, String, [], ◌∷◌, ◌≡◌, ◌⊎◌, refl, map}
use ufsc_dso2_trabalho1_merc.Result.{err, app_error, review_forbidden}
use ufsc_dso2_trabalho1_merc.Database.{Db}
use ufsc_dso2_trabalho1_merc.Events.{notify_many}
use ufsc_dso2_trabalho1_merc.Products
use ufsc_dso2_trabalho1_merc.Idempotency.{claim, complete}
use ufsc_dso2_trabalho1_merc.Reviews.{find_by_id, has_purchased_product, upsert, review_row}
use ufsc_dso2_trabalho1_merc.Reviews.Service.{
  Env, ReviewRequest, write_review, review_claimed, create_review_in_transaction, create_review,
}
use ufsc_dso2_trabalho1_merc.Reviews.Earned.{IsEarned}
use ufsc_dso2_trabalho1_merc.Reviews.Permitted.{IsReplayed, create_review-IsEarned}
use ufsc_dso2_trabalho1_merc.Tests.Fixtures.{plain_transactions, tenant, buyer}
use ufsc_dso2_trabalho1_merc.Tests.Runs.{checkout_run, sold}

-- What a run of a review computes with.
unfoldable review_run : Unit {0}
unfolding notify_many Products.find_by_id claim complete find_by_id has_purchased_product upsert
    write_review review_claimed create_review_in_transaction create_review
review_run = tt

abbrev env : Env
env = record { claimed_at = 700; now = 701; review_id = 40; notice_id = λ i. 7000 + i }

abbrev request : ReviewRequest
request = record { product_id = 20; rating = 4; comment = "fine" }

abbrev request_hash : ReviewRequest → String
request_hash r = r.comment

abbrev reviewed : Db
reviewed = (create_review request_hash env buyer tenant 66 request plain_transactions sold).1

ratings_after : map (λ r. r.rating) reviewed.reviews ≡ 4 ∷ []
unfolding review_run checkout_run
ratings_after = refl

-- The seller may not.
seller_refused :
    create_review request_hash env 2 tenant 66 request plain_transactions sold
    ≡ (err (app_error 403 review_forbidden), sold)
unfolding review_run checkout_run
seller_refused = refl

create_review-IsEarned_example :
    IsReplayed request_hash env buyer tenant 66 request sold reviewed
      (review_row 40 tenant 20 buyer 4 "fine" 701)
    ⊎ IsEarned request_hash env buyer tenant 66 request sold reviewed
        (review_row 40 tenant 20 buyer 4 "fine" 701)
unfolding review_run checkout_run
create_review-IsEarned_example =
    create_review-IsEarned request_hash env buyer tenant 66 request plain_transactions sold refl
